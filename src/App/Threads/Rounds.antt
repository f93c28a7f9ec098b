-- ===== src/App/Threads/Rounds.antt =====
-- What each part of the threads of src/main_pretty.c does to `serviceSuspended` and to the
-- dial service's thread.
use bbg_vo_ip.Prelude.{
  ℕ, ◌≡◌, refl, Bool, true, false, cond, List, [], ◌∷◌, Option, none, some, arith, ◌||◌,
}
use bbg_vo_ip.Sys.{Env}
use bbg_vo_ip.World.{World, Address, pure, gets}
use bbg_vo_ip.World.Keeps.{Keeps-gets}
use bbg_vo_ip.World.Triple.{
  Triple, triple, Triple-pure, Triple-cond, Triple-elim, Triple->>=, Triple-Keeps,
}
use bbg_vo_ip.Connection.{Connection}
use bbg_vo_ip.Call.Session
use bbg_vo_ip.Voice.{accept_caller}
use bbg_vo_ip.Dial
use bbg_vo_ip.Led.{red, blue, turn_off}
use bbg_vo_ip.Dial.{next_name, start_thread, is_yes, is_no, to_char}
use bbg_vo_ip.Terminal.{get_char, skip_line}
use bbg_vo_ip.App.{Unset, connect_to, begin_out, pick_up, end_in, talk}
use bbg_vo_ip.App.Keeps.{
  service, service-IsApart, write_light-Keeps, talk-Keeps, get_char-Keeps, reject-Keeps,
}
use bbg_vo_ip.App.Threads.Apart.{
  next_name-Keeps-service, connect_to-Keeps, begin_out-Keeps, end_out-Keeps, pick_up-Keeps,
  accept_caller-Keeps, terminate-Keeps,
}
use bbg_vo_ip.App.Threads.{
  Dialling, reading, over, cancelled, connected, calling, Answering, accepting, closed, asking,
  answering, dial_round, dial_begin, dial_end, voice_round, voice_answer, voice_end,
}

-- Whether the dial service's thread is cancelled, and whether the voice server's one is between the
-- two calls `DialService_suspend` and `DialService_resume`, where it alone reads the terminal.
abbrev pub is_cancelled : Dialling → Bool
is_cancelled cancelled = true
is_cancelled _ = false

abbrev pub has_terminal : Answering → Bool
has_terminal (asking conn) = true
has_terminal (answering conn) = true
has_terminal _ = false

-- What cancelling the dial service's thread, or creating it again, adds to its history, from whether the
-- service was suspended before and whether it is after.
abbrev pub steered : Bool → Bool → List Bool → List Bool
steered false true l = false ∷ l
steered true false l = true ∷ l
steered _ _ l = l

-- The flag and the history of the thread.
abbrev pub At : Bool → List Bool → World → Type 0
At b l w = service w ≡ (b, l)

module _ (env : Env) (unset : Unset) where
  suspend_lem :
      (b : Bool) (l : List Bool)
      → Triple (At b l) (Dial.suspend env) (λ _. At true (steered b true l))
  unfolding Dial.suspend
  suspend_lem b l = triple (λ w w' a p e. ground arith)

  resume_lem :
      (b : Bool) (l : List Bool)
      → Triple (At b l) (Dial.resume env) (λ _. At false (steered b false l))
  unfolding Dial.resume start_thread skip_line
  resume_lem b l = triple (λ w w' a p e. ground arith)

  -- After a round or the start of a call the dial service's thread is not a cancelled one.
  abbrev pub GoesOn : Bool → List Bool → Dialling → World → Type 0
  GoesOn b l d w = At b l w × (is_cancelled d ≡ false)

  pub dial_round_lem :
      (b : Bool) (l : List Bool) → Triple (At b l) (dial_round env unset) (GoesOn b l)
  unfolding dial_round
  dial_round_lem b l =
      Triple->>= (At b l) (GoesOn b l) (λ _. At b l) (gets (λ w. w.dial))
        (Triple-Keeps (b, l) (Keeps-gets service (λ w. w.dial)))
        (λ dial.
          Triple-cond (At b l) (GoesOn b l) (dial.stop || dial.service_suspended)
            (Triple-pure (At b l) (GoesOn b l) over (λ w p. (p, refl)))
            (Triple->>= (At b l) (GoesOn b l) (λ _. At b l) next_name
              (Triple-Keeps (b, l) next_name-Keeps-service)
              (λ typed.
                Triple-elim (At b l) (GoesOn b l) typed
                  (Triple-pure (At b l) (GoesOn b l) reading (λ w p. (p, refl)))
                  (λ name.
                    Triple->>= (At b l) (GoesOn b l) (λ _. At b l) (connect_to env unset name)
                      (Triple-Keeps (b, l)
                        (connect_to-Keeps service service-IsApart env unset name))
                      connected_lem))))
    where
      connected_lem :
          (to : Option Connection)
          → Triple
              (At b l)
              (pure (elim to [ none ↦ reading | some conn ↦ connected conn ]))
              (GoesOn b l)
      connected_lem none = Triple-pure (At b l) (GoesOn b l) reading (λ w p. (p, refl))
      connected_lem (some conn) =
          Triple-pure (At b l) (GoesOn b l) (connected conn) (λ w p. (p, refl))

  abbrev pub Begins : Bool → List Bool → Dialling × List Connection → World → Type 0
  Begins b l (d, new) = GoesOn b l d

  pub dial_begin_lem :
      (b : Bool) (l : List Bool) (conn : Connection)
      → Triple (At b l) (dial_begin env unset conn) (Begins b l)
  unfolding dial_begin
  dial_begin_lem b l conn =
      Triple->>= (At b l) (Begins b l) (λ _. At b l) (begin_out env unset conn)
        (Triple-Keeps (b, l) (begin_out-Keeps service service-IsApart env unset conn)) begun_lem
    where
      begun_lem :
          (on : Bool)
          → Triple (At b l) (pure (cond on (calling conn, conn ∷ []) (reading, []))) (Begins b l)
      begun_lem true =
          Triple-pure (At b l) (Begins b l) (calling conn, conn ∷ []) (λ w p. (p, refl))
      begun_lem false = Triple-pure (At b l) (Begins b l) (reading, []) (λ w p. (p, refl))

  pub dial_end_lem :
      (b : Bool) (l : List Bool) (rounds : ℕ) (conn : Connection)
      → Triple (At b l) (dial_end env unset rounds conn) (λ _. At b l)
  unfolding dial_end
  dial_end_lem b l rounds conn =
      Triple->>= (At b l) (λ _. At b l) (λ _. At b l) (talk env unset rounds conn)
        (Triple-Keeps (b, l) (talk-Keeps service service-IsApart env unset rounds conn))
        (λ _. Triple-Keeps (b, l) (end_out-Keeps env unset conn))

  -- After a step of the voice server's thread the service is suspended just where that has the terminal, and
  -- its thread was cancelled or created in between if this is not as before.
  abbrev pub Turns : Bool → List Bool → Answering → World → Type 0
  Turns b l v w = At (has_terminal v) (steered b (has_terminal v) l) w

  pub voice_round_lem :
      (l : List Bool) (caller : Address)
      → Triple (At false l) (voice_round env unset caller) (Turns false l)
  unfolding voice_round
  voice_round_lem l caller =
      Triple->>= (At false l) (Turns false l) (λ _. At false l) (gets (λ w. w.voice.stop))
        (Triple-Keeps (false, l) (Keeps-gets service (λ w. w.voice.stop)))
        (λ stopped.
          Triple-cond (At false l) (Turns false l) stopped
            (Triple-pure (At false l) (Turns false l) closed (λ w p. p))
            (Triple->>= (At false l) (Turns false l) (λ _. At false l) (accept_caller env caller)
              (Triple-Keeps (false, l) (accept_caller-Keeps service service-IsApart env caller))
              (λ (caller', known).
                Triple-elim (At false l) (Turns false l) known
                  (Triple-pure (At false l) (Turns false l) accepting (λ w p. p))
                  (λ conn.
                    Triple->>= (At false l) (Turns false l) (λ _. At true (false ∷ l))
                      (Dial.suspend env) (suspend_lem false l)
                      (λ _.
                        Triple-pure (At true (false ∷ l)) (Turns false l) (asking conn)
                          (λ w p. p))))))

  abbrev pub Answers : List Bool → Answering × List Connection → World → Type 0
  Answers l (v, new) = Turns true l v

  pub voice_answer_lem :
      (l : List Bool) (conn : Connection)
      → Triple (At true l) (voice_answer env unset conn) (Answers l)
  unfolding voice_answer
  voice_answer_lem l conn =
      Triple->>= (At true l) (Answers l) (λ _. At true l) get_char
        (Triple-Keeps (true, l) (get_char-Keeps service service-IsApart))
        (λ c.
          Triple-cond (At true l) (Answers l) (is_yes (to_char c))
            (Triple->>= (At true l) (Answers l) (λ _. At true l) (pick_up env unset conn)
              (Triple-Keeps (true, l) (pick_up-Keeps service service-IsApart env unset conn))
              (λ result. Triple-pure (At true l) (Answers l) (answering conn, _) (λ w p. p)))
            (Triple-cond (At true l) (Answers l) (is_no (to_char c))
              (Triple->>= (At true l) (Answers l) (λ _. At true l) (Session.reject env conn)
                (Triple-Keeps (true, l) (reject-Keeps service service-IsApart env conn))
                (λ _.
                  Triple->>= (At true l) (Answers l) (λ _. At false (true ∷ l)) (Dial.resume env)
                    (resume_lem true l)
                    (λ _.
                      Triple-pure (At false (true ∷ l)) (Answers l) (accepting, []) (λ w p. p))))
              (Triple-pure (At true l) (Answers l) (asking conn, []) (λ w p. p))))

  pub voice_end_lem :
      (b : Bool) (l : List Bool) (rounds : ℕ) (conn : Connection)
      → Triple (At b l) (voice_end env unset rounds conn) (λ _. At false (steered b false l))
  unfolding voice_end end_in
  voice_end_lem b l rounds conn =
      Triple->>= (At b l) (λ _. At false (steered b false l)) (λ _. At b l)
        (talk env unset rounds conn)
        (Triple-Keeps (b, l) (talk-Keeps service service-IsApart env unset rounds conn))
        (λ _. end_in_lem)
    where
      end_in_lem : Triple (At b l) (end_in env unset conn) (λ _. At false (steered b false l))
      end_in_lem =
          Triple->>= (At b l) (λ _. At false (steered b false l)) (λ _. At b l) (turn_off env red)
            (Triple-Keeps (b, l) (write_light-Keeps service service-IsApart env _ red))
            (λ _.
              Triple->>= (At b l) (λ _. At false (steered b false l)) (λ _. At b l)
                (turn_off env blue)
                (Triple-Keeps (b, l) (write_light-Keeps service service-IsApart env _ blue))
                (λ _.
                  Triple->>= (At b l) (λ _. At false (steered b false l)) (λ _. At b l)
                    (Session.terminate env conn) (Triple-Keeps (b, l) (terminate-Keeps env conn))
                    (λ _. resume_lem b l)))
