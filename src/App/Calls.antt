-- ===== src/App/Calls.antt =====
-- How onDial and handleIncomingCall of src/main_pretty.c end.
use bbg_vo_ip.Prelude.{ℕ, zero, suc, ◌≡◌, false, Text, arith}
use bbg_vo_ip.Sys.{Env, ok}
use bbg_vo_ip.World.{World}
use bbg_vo_ip.World.Ends.{Ends, ends, ended, Ends-out_of_rounds, Ends-cond, Ends->>=}
use bbg_vo_ip.Connection.{Connection}
use bbg_vo_ip.AddressBook.Lookup.{Absent, IsNamed, lookup-Absent}
use bbg_vo_ip.Dial
use bbg_vo_ip.Dial.{to_char, is_yes, is_no}
use bbg_vo_ip.App.{Unset, on_dial, handle_incoming_call, ask_user, call_in, talk, pick_up, end_in}
use bbg_vo_ip.Call.Session
use bbg_vo_ip.Led.{red, blue, turn_off}
use bbg_vo_ip.Terminal.{get_char}

-- The dial service is not suspended.
abbrev pub IsAwake : World → Type 0
IsAwake w = w.dial.service_suspended ≡ false

resume-IsAwake : (env : Env) → Ends IsAwake (Dial.resume env)
unfolding Dial.resume Dial.start_thread
resume-IsAwake env = ends (λ w w' a e. ground (arith))

module _ (env : Env) (unset : Unset) where
  end_in-IsAwake : (conn : Connection) → Ends IsAwake (end_in env unset conn)
  unfolding end_in
  end_in-IsAwake conn = Ends->>= IsAwake (turn_off env red) (λ _.
      Ends->>= IsAwake (turn_off env blue)
        (λ _. Ends->>= IsAwake (Session.terminate env conn) (λ _. resume-IsAwake env)))

  call_in-IsAwake : (rounds : ℕ) (conn : Connection) → Ends IsAwake (call_in env unset rounds conn)
  unfolding call_in
  call_in-IsAwake rounds conn =
      Ends->>= IsAwake (pick_up env unset conn)
        (λ _. Ends->>= IsAwake (talk env unset rounds conn) (λ _. end_in-IsAwake conn))

  ask_user-IsAwake :
      (rounds questions : ℕ) (conn : Connection)
      → Ends IsAwake (ask_user env unset rounds questions conn)
  unfolding ask_user
  ask_user-IsAwake rounds zero conn = Ends-out_of_rounds IsAwake
  ask_user-IsAwake rounds (suc questions) conn = Ends->>= IsAwake get_char λ c.
      Ends-cond IsAwake (is_yes (to_char c)) (call_in-IsAwake rounds conn) (
        Ends-cond IsAwake (is_no (to_char c))
          (Ends->>= IsAwake (Session.reject env conn) (λ _. resume-IsAwake env))
          (ask_user-IsAwake rounds questions conn))

  -- Whenever `handleIncomingCall` returns, whether the user took the call or refused it and however the
  -- call went, the dial service is not suspended any more.
  pub handle_incoming_call-IsAwake :
      (rounds questions : ℕ) (conn : Connection) (w w' : World)
      → handle_incoming_call env unset rounds questions conn w ≡ (ok tt, w')
      → IsAwake w'
  unfolding handle_incoming_call
  handle_incoming_call-IsAwake rounds questions conn w w' =
      ended (Ends->>= IsAwake (Dial.suspend env) (λ _. ask_user-IsAwake rounds questions conn)) w w'
        tt

  -- Dialling a name that is not in the table changes nothing and makes no call of the system.
  pub on_dial-unknown :
      (rounds : ℕ) (name : Text) (w : World)
      → Absent (IsNamed name) w.lookup_table
      → on_dial env unset rounds name w ≡ (ok tt, w)
  unfolding on_dial
  on_dial-unknown rounds name w absent =
      ground (arith, lookup-Absent w.lookup_table name unset.address absent)
