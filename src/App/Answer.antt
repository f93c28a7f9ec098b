-- ===== src/App/Answer.antt =====
-- How the question of handleIncomingCall in src/main_pretty.c whether to accept a call comes to its end.
use bbg_vo_ip.Prelude.{ℕ, zero, suc, ◌<◌, ◌≡◌, refl, List, [], ◌∷◌, ◌++◌, arith, cond, length}
use bbg_vo_ip.Prelude.Int.{pos}
use bbg_vo_ip.Sys.{Env, unfinished}
use bbg_vo_ip.World.{World, Act, ◌>>◌}
use bbg_vo_ip.Connection.{Connection}
use bbg_vo_ip.Call.Session
use bbg_vo_ip.Dial
use bbg_vo_ip.Dial.{to_char, is_yes, is_no}
use bbg_vo_ip.Dial.Question.{IsAnswer, Unanswered, first_char-Unanswered}
use bbg_vo_ip.Terminal.{get_char, after_char}
use bbg_vo_ip.App.{Unset, ask_user, call_in, handle_incoming_call}

module _ (env : Env) (unset : Unset) where
  -- What follows on an answer.
  abbrev pub answered : ℕ → Connection → ℕ → Act Unit
  answered rounds conn c =
      cond (is_yes (to_char (pos c))) (call_in env unset rounds conn)
        (do Session.reject env conn; Dial.resume env)

  -- The question is put once for each character up to the first `y` or `n`, and the call is then taken or refused
  -- by that one, with the rest of the input unread.
  pub ask_user_lem :
      (rounds questions : ℕ) (conn : Connection) (junk rest : List ℕ) (c : ℕ) (w : World)
      → Unanswered junk
      → IsAnswer c
      → w.stdin ≡ junk ++ c ∷ rest
      → length junk < questions
      → ask_user env unset rounds questions conn w
        ≡ answered rounds conn c (record w { stdin = rest })
  unfolding ask_user get_char
  ask_user_lem rounds zero conn junk rest c w no_answer answer input enough = absurd (omega arith)
  ask_user_lem rounds (suc questions) conn [] rest c w no_answer answer input enough = ground arith
  ask_user_lem rounds (suc questions) conn (d ∷ junk) rest c w no_answer answer input enough =
      ground (
        arith,
        ask_user_lem rounds questions conn junk rest c (record w { stdin = junk ++ c ∷ rest })
            no_answer.2 answer refl (omega arith),
      )

  -- Where the input ends before a `y` or an `n`, the question is put for ever: the end of the file is
  -- taken for one more wrong answer. No call is made meanwhile.
  pub ask_user-Unanswered :
      (rounds questions : ℕ) (conn : Connection) (w : World)
      → Unanswered w.stdin
      → ((ask_user env unset rounds questions conn w).0 ≡ unfinished)
        × ((ask_user env unset rounds questions conn w).1.log ≡ w.log)
  unfolding ask_user get_char
  ask_user-Unanswered rounds zero conn w no_answer = (refl, refl)
  ask_user-Unanswered rounds (suc questions) conn w no_answer =
      let (no_yes, no_no, later) = first_char-Unanswered w.stdin no_answer in
      rw (no_yes, no_no)
        (ask_user-Unanswered rounds questions conn (record w { stdin = after_char w.stdin }) later)

  -- Where the input ends before a `y` or an `n`, `handleIncomingCall` does not come back, however many rounds it
  -- is given, and neither takes nor refuses the call: after `DialService_suspend` it makes no call at
  -- all, so that nothing is sent to the caller.
  pub handle_incoming_call-Unanswered :
      (rounds questions : ℕ) (conn : Connection) (w : World)
      → Unanswered w.stdin
      → ((handle_incoming_call env unset rounds questions conn w).0 ≡ unfinished)
        × ((handle_incoming_call env unset rounds questions conn w).1.log
            ≡ (Dial.suspend env w).1.log)
  unfolding handle_incoming_call Dial.suspend
  handle_incoming_call-Unanswered rounds questions conn w no_answer = ground (
    arith,
    ask_user-Unanswered rounds questions conn w no_answer,
    ask_user-Unanswered rounds questions conn (Dial.suspend env w).1,
  )
