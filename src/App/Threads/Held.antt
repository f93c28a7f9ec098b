-- ===== src/App/Threads/Held.antt =====
-- Which connection the audio module serves while the threads of src/main_pretty.c take calls.
use bbg_vo_ip.Prelude.{◌≡◌, refl, Bool, true, false, ◌&&◌, [], some, ap, ◌∙◌, sym, ◌||◌, not}
use bbg_vo_ip.Prelude.Int.{ℤ}
use bbg_vo_ip.Sys.{Env, ok}
use bbg_vo_ip.World.{World, Address, Act, gets}
use bbg_vo_ip.World.Keeps.{
  Keeps, Keeps-pure, Keeps-gets, Keeps-cond, Keeps-elim, Keeps->>=, keeps_rules,
}
use bbg_vo_ip.Connection.{Connection}
use bbg_vo_ip.Call.Session
use bbg_vo_ip.Call.Session.{begin_call}
use bbg_vo_ip.Dial
use bbg_vo_ip.Dial.{is_yes, is_no, to_char, next_name}
use bbg_vo_ip.Terminal.{get_char}
use bbg_vo_ip.Voice.{accept_caller}
use bbg_vo_ip.App.{Unset, pick_up}
use bbg_vo_ip.App.Keeps.{audio-IsApart, get_char-Keeps, reject-Keeps}
use bbg_vo_ip.App.Threads.Apart.{
  audio, next_name-Keeps-audio, connect_to-Keeps, begin_out-Keeps, pick_up-Keeps,
  accept_caller-Keeps, suspend-Keeps, resume-Keeps,
}
use bbg_vo_ip.World.Triple.{run_triple}
use bbg_vo_ip.App.Threads.Served.{served, begin_call_started}
use bbg_vo_ip.App.Threads.{
  Phone, Step, Reach, dials, begins_out, ends_out, accepts, answers, ends_in, runs, here, next,
  dial_round, dial_begin, voice_round, voice_answer, reading, over, closed, accepting, asking,
}

kept :
    {A : Type 0} {m : Act A} {socket : ℤ} {a : A} {v w : World}
    → Keeps audio m
    → m v ≡ (ok a, w)
    → served v.audio ≡ some socket
    → served w.audio ≡ some socket
kept {v} {w} k e h = ap (λ r. served r.1.audio) (sym e) ∙ ap served (k.at v) ∙ h

both : (a b : Bool) → a && not b ≡ true → (a ≡ true) × (b ≡ false)
both true false e = (refl, refl)
both true true e = cc
both false b e = cc

module _ (env : Env) (unset : Unset) where
  dial_round-Keeps : Keeps audio (dial_round env unset)
  unfolding dial_round
  dial_round-Keeps = Keeps->>= audio (gets (λ w. w.dial)) (Keeps-gets audio _) (λ dial.
      Keeps-cond audio (dial.stop || dial.service_suspended) (Keeps-pure audio over) (
        Keeps->>= audio next_name next_name-Keeps-audio (λ typed.
          Keeps-elim audio typed (Keeps-pure audio reading)
            (λ name. search (keeps_rules, connect_to-Keeps audio audio-IsApart env unset)))))

  dial_begin-Keeps : (conn : Connection) → Keeps audio (dial_begin env unset conn)
  unfolding dial_begin
  dial_begin-Keeps conn = search (keeps_rules, begin_out-Keeps audio audio-IsApart env unset)

  voice_round-Keeps : (caller : Address) → Keeps audio (voice_round env unset caller)
  unfolding voice_round
  voice_round-Keeps caller =
      Keeps->>= audio (gets (λ w. w.voice.stop)) (Keeps-gets audio _) (λ stopped.
        Keeps-cond audio stopped (Keeps-pure audio closed) (
          Keeps->>= audio (accept_caller env caller)
            (accept_caller-Keeps audio audio-IsApart env caller)
            (λ (caller', known).
              Keeps-elim audio known (Keeps-pure audio accepting)
                (λ conn. search (keeps_rules, suspend-Keeps)))))

  voice_answer-Keeps : (conn : Connection) → Keeps audio (voice_answer env unset conn)
  unfolding voice_answer
  voice_answer-Keeps conn = Keeps->>= audio get_char (get_char-Keeps audio audio-IsApart) (λ c.
      Keeps-cond audio (is_yes (to_char c))
        (Keeps->>= audio (pick_up env unset conn) (pick_up-Keeps audio audio-IsApart env unset conn)
          (λ result. Keeps-pure audio _))
        (Keeps-cond audio (is_no (to_char c))
          (Keeps->>= audio (Session.reject env conn) (reject-Keeps audio audio-IsApart env conn)
            (λ _. Keeps->>= audio (Dial.resume env) (resume-Keeps env) (λ _. Keeps-pure audio _)))
          (Keeps-pure audio (asking conn, []))))

  -- Whether a step is the end of a call: the only ones with a `Call_terminate`.
  abbrev pub ends_call : {p q : Phone} → Step env unset p q → Bool
  ends_call (ends_out rounds conn w at e) = true
  ends_call (ends_in rounds conn w at e) = true
  ends_call _ = false

  abbrev pub ends_no_call : {p q : Phone} → Reach env unset p q → Bool
  ends_no_call here = true
  ends_no_call (next r s) = ends_no_call r && not (ends_call s)

  Step-served :
      (socket : ℤ) (p q : Phone) (s : Step env unset p q)
      → ends_call s ≡ false
      → served p.world.audio ≡ some socket
      → served q.world.audio ≡ some socket
  Step-served socket p q (dials w d at e) goes_on h = kept dial_round-Keeps e h
  Step-served socket p q (begins_out conn w d new at e) goes_on h = kept (dial_begin-Keeps conn) e h
  Step-served socket p q (ends_out rounds conn w at e) goes_on h = cc
  Step-served socket p q (accepts caller w v at e) goes_on h = kept (voice_round-Keeps caller) e h
  Step-served socket p q (answers conn w v new at e) goes_on h = kept (voice_answer-Keeps conn) e h
  Step-served socket p q (ends_in rounds conn w at e) goes_on h = cc
  Step-served socket p q (runs rounds conn sooner later w at e) goes_on h =
      run_triple (begin_call_started env rounds conn socket) p.world w tt h e

  -- Once the audio module has been started for a connection, it keeps that one in every order in
  -- which the threads take their steps, as long as no call is ended by the thread that is in it.
  -- That is so also where an incoming call cancels the dial service's thread in its call and is
  -- taken: the new call's thread does not start the module for its own connection.
  pub Reach-served :
      {p q : Phone} (socket : ℤ) (r : Reach env unset p q)
      → ends_no_call r ≡ true
      → served p.world.audio ≡ some socket
      → served q.world.audio ≡ some socket
  Reach-served socket here goes_on h = h
  Reach-served socket (next {p1} {p2} r s) goes_on h =
      let (none_before, not_now) = both (ends_no_call r) (ends_call s) goes_on in
      Step-served socket p1 p2 s not_now (Reach-served socket r none_before h)
