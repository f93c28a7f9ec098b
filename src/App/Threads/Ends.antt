-- ===== src/App/Threads/Ends.antt =====
-- The end of a call of src/main_pretty.c, as a step.
use bbg_vo_ip.Prelude.{◌≡◌, refl, ◌⊎◌, inl, inr, true, suc, arith, length}
use bbg_vo_ip.Sys.{Env}
use bbg_vo_ip.World.{World}
use bbg_vo_ip.World.Returns.{ReturnsAt, ReturnsAt->>=}
use bbg_vo_ip.Connection.{Connection}
use bbg_vo_ip.App.{Unset, talk}
use bbg_vo_ip.App.Talk.{Works, talk-ReturnsAt, end_out-Returns, end_in-Returns}
use bbg_vo_ip.App.Threads.{
  Phone, Step, answering, calling, accepting, reading, ends_in, ends_out, voice_end, dial_end,
  after,
}
use bbg_vo_ip.App.Threads.Held.{ends_call}

module _ (env : Env) (unset : Unset) (works : Works env) where
  voice_end-ReturnsAt :
      (conn : Connection) (w : World)
      → ReturnsAt (voice_end env unset (suc (length w.stdin)) conn) w
  unfolding voice_end
  voice_end-ReturnsAt conn w =
      ReturnsAt->>= (talk env unset (suc (length w.stdin)) conn) w
        (talk-ReturnsAt env unset works (suc (length w.stdin)) conn w (omega arith))
        (λ _. end_in-Returns env unset works conn)

  dial_end-ReturnsAt :
      (conn : Connection) (w : World) → ReturnsAt (dial_end env unset (suc (length w.stdin)) conn) w
  unfolding dial_end
  dial_end-ReturnsAt conn w =
      ReturnsAt->>= (talk env unset (suc (length w.stdin)) conn) w
        (talk-ReturnsAt env unset works (suc (length w.stdin)) conn w (omega arith))
        (λ _. end_out-Returns env unset works conn)

  -- On a system where `poll` comes back with an event, the lights' files can be written and threads
  -- can be made, a phone in a call, taken or dialled, can take the step that ends it: the loop of
  -- the call comes to its end, and nothing after it ends the program.
  pub can_end_call :
      (p : Phone) (conn : Connection)
      → (p.voice ≡ answering conn) ⊎ (p.dial ≡ calling conn)
      → (q : Phone) × (s : Step env unset p q) × (ends_call env unset s ≡ true)
  can_end_call p conn (inl at) =
      let (_, w, e) = voice_end-ReturnsAt conn p.world in
      (
        record p { world = w; voice = accepting; dial = after env unset p w },
        ends_in (suc (length p.world.stdin)) conn w at e,
        refl,
      )
  can_end_call p conn (inr at) =
      let (_, w, e) = dial_end-ReturnsAt conn p.world in
      (
        record p { world = w; dial = reading },
        ends_out (suc (length p.world.stdin)) conn w at e,
        refl,
      )
