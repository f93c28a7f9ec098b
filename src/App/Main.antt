-- ===== src/App/Main.antt =====
-- The `main` of src/main_pretty.c: what it starts, and in which order it stops that again.
use bbg_vo_ip.Prelude.{ℕ, ◌≡◌, true, false, cond, ltb, arith}
use bbg_vo_ip.Prelude.Int.{ℤ}
use bbg_vo_ip.Sys.{Env, ok}
use bbg_vo_ip.World.{World, Act, ◌>>=◌, ◌>>◌, pure}
use bbg_vo_ip.AddressBook
use bbg_vo_ip.Audio.Control
use bbg_vo_ip.Dial
use bbg_vo_ip.Keypad
use bbg_vo_ip.Led
use bbg_vo_ip.Voice

module _ (env : Env) where
  -- From the creation of the signal set to `sigwait`
  unfoldable pub start_up : ℕ → ℤ → ℤ → Act Unit
  start_up rounds input_device output_device = do
    Keypad.init env
    Control.init env input_device output_device
    Led.init env
    AddressBook.init env
    Dial.start env rounds
    Voice.start env

  -- From `sigwait` on
  unfoldable pub shut_down : Act Unit
  shut_down = do Voice.stop env; Dial.stop env; _ ← Control.stop env; Control.teardown env

  -- `main`, given the numbers of its arguments and of the two devices; `running` is whatever the threads
  -- do until SIGINT arrives.
  unfoldable pub main : ℕ → ℕ → ℤ → ℤ → Act Unit → Act ℕ
  unfolding start_up shut_down
  main rounds argc input_device output_device running =
      let ready = start_up rounds input_device output_device in
      cond (ltb argc 3) (pure 1) (do ready; running; shut_down; pure 0)

  -- Everything is stopped.
  abbrev pub IsDown : World → Type 0
  IsDown w =
      (w.voice.stop ≡ true)
      × (w.dial.stop ≡ true)
      × (w.dial.service_suspended ≡ true)
      × (w.audio.started ≡ false)
      × (w.audio.initialized ≡ false)

  -- From whatever world the threads leave, the shutdown comes to its end with everything stopped: the
  -- voice server and the dial service told to stop, the dial service suspended, and the audio module
  -- neither started nor initialised.
  pub shut_down_lem : (w : World) → let (r, w') = shut_down w in (r ≡ ok tt) × IsDown w'
  unfolding shut_down Voice.stop Dial.stop Dial.suspend Control.stop Control.teardown
  shut_down_lem w = ground arith
