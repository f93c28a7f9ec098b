-- ===== src/App/Threads/Turns.antt =====
-- How the dial service and the voice server of src/main_pretty.c share the terminal.
use bbg_vo_ip.Prelude.{◌≡◌, refl, Bool, true, false, List, ◌++◌, ap, ◌∙◌, sym, arith}
use bbg_vo_ip.Sys.{Env}
use bbg_vo_ip.World.{World}
use bbg_vo_ip.World.Triple.{run_triple}
use bbg_vo_ip.Connection.{Connection}
use bbg_vo_ip.App.{Unset}
use bbg_vo_ip.App.Keeps.{suspended, service}
use bbg_vo_ip.App.Threads.Apart.{begin_call-Keeps}
use bbg_vo_ip.App.Threads.Rounds.{
  is_cancelled, has_terminal, dial_round_lem, dial_begin_lem, dial_end_lem, voice_round_lem,
  voice_answer_lem, voice_end_lem, steered, At,
}
use bbg_vo_ip.App.Threads.{
  Dialling, reading, Answering, accepting, Phone, dial_after, Step, Reach, dials, begins_out,
  ends_out, accepts, answers, ends_in, runs, here, next, after,
}
use bbg_vo_ip.Dial.{service_history}

abbrev pub TakesTurns : Phone → Type 0
TakesTurns p =
    (p.world.dial.service_suspended ≡ has_terminal p.voice)
    × (is_cancelled p.dial ≡ has_terminal p.voice)

module _ (env : Env) (unset : Unset) where
  -- What becomes of the dial service's thread where the voice server's thread takes the flag to `v`.
  dial_after_lem :
      (v v' : Bool) (l : List Bool) (d : Dialling)
      → is_cancelled d ≡ v
      → is_cancelled (dial_after l (steered v v' l) d) ≡ v'
  dial_after_lem false false l d e = ground arith
  dial_after_lem false true l d e = ground arith
  dial_after_lem true false l d e = ground arith
  dial_after_lem true true l d e = ground arith

  -- A step of the dial service's thread, or of a call's.
  other_step :
      (p : Phone) (w : World) (d : Dialling) (begun : List Connection)
      → TakesTurns p
      → is_cancelled p.dial ≡ false
      → service w ≡ service p.world
      → is_cancelled d ≡ false
      → TakesTurns (record p { world = w; dial = d; begun = begun })
  other_step p w d begun (s, c) active same not_c = (ap (λ x. x.0) same ∙ s, not_c ∙ sym active ∙ c)

  -- A step of the voice server's thread.
  voice_step :
      (p : Phone) (b : Bool) (w : World) (v : Answering) (begun : List Connection)
      → TakesTurns p
      → has_terminal p.voice ≡ b
      → At (has_terminal v) (steered b (has_terminal v) (service_history p.world.log)) w
      → TakesTurns (record p { world = w; voice = v; dial = after env unset p w; begun = begun })
  voice_step p b w v begun (s, c) at taken = (
    ap (λ x. x.0) taken,
    ap (λ x. is_cancelled (dial_after (service_history p.world.log) x.1 p.dial)) taken
        ∙ dial_after_lem b (has_terminal v) (service_history p.world.log) p.dial (c ∙ at),
  )

  -- The flag and the history before a step of the voice server's thread.
  turn_of :
      (p : Phone) (b : Bool)
      → TakesTurns p
      → has_terminal p.voice ≡ b
      → At b (service_history p.world.log) p.world
  turn_of p b (s, c) at = ap (λ x. (x, service_history p.world.log)) (s ∙ at)

  Step-TakesTurns : (p q : Phone) → Step env unset p q → TakesTurns p → TakesTurns q
  Step-TakesTurns p q (dials w d at e) h =
      let (same, not_c) = run_triple (dial_round_lem env unset _ _) p.world w d refl e in
      other_step p w d p.begun h (ap is_cancelled at) same not_c
  Step-TakesTurns p q (begins_out conn w d new at e) h =
      let (same, not_c) =
        run_triple (dial_begin_lem env unset _ _ conn) p.world w (d, new) refl e in
      other_step p w d (p.begun ++ new) h (ap is_cancelled at) same not_c
  Step-TakesTurns p q (ends_out rounds conn w at e) h =
      other_step p w reading p.begun h (ap is_cancelled at)
        (run_triple (dial_end_lem env unset _ _ rounds conn) p.world w tt refl e) refl
  Step-TakesTurns p q (accepts caller w v at e) h =
      voice_step p false w v p.begun h (ap has_terminal at) (
        run_triple (voice_round_lem env unset _ caller) p.world w v
          (turn_of p false h (ap has_terminal at)) e)
  Step-TakesTurns p q (answers conn w v new at e) h =
      voice_step p true w v (p.begun ++ new) h (ap has_terminal at) (
        run_triple (voice_answer_lem env unset _ conn) p.world w (v, new)
          (turn_of p true h (ap has_terminal at)) e)
  Step-TakesTurns p q (ends_in rounds conn w at e) h =
      voice_step p true w accepting p.begun h (ap has_terminal at) (
        run_triple (voice_end_lem env unset true _ rounds conn) p.world w tt
          (turn_of p true h (ap has_terminal at)) e)
  Step-TakesTurns p q (runs rounds conn sooner later w at e) h = (
    ap (λ r. suspended r.1) (sym e)
        ∙ ap (λ x. x.0) ((begin_call-Keeps env rounds conn).at p.world)
        ∙ h.0,
    h.1,
  )

  -- If it is so at the start, then in every order in which the threads take their steps the dial
  -- service's thread is cancelled just while the voice server's thread asks the user about a call or
  -- is in one that it has accepted, and `serviceSuspended` says so, so that
  -- never both of them are at the terminal.
  pub Reach-TakesTurns : {p q : Phone} → Reach env unset p q → TakesTurns p → TakesTurns q
  Reach-TakesTurns here h = h
  Reach-TakesTurns {p} (next {p1} {p2} r s) h = Step-TakesTurns p1 p2 s (Reach-TakesTurns r h)
