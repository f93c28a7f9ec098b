-- ===== src/Volume/Main.antt =====
-- The `main` of volume_mixer/src/volume_mixer.c: it runs until Ctrl-C.
use bbg_vo_ip.Prelude.{
  ℕ, ◌≡◌, ◌||◌, refl, arith, Bool, true, false, cond, List, [], ◌∷◌, codes, if◌then◌else◌, ◌⊎◌,
  Text,
}
use bbg_vo_ip.Prelude.Int.{ℤ, pos}
use bbg_vo_ip.Sys.{Env, ok, unfinished, join, volume, display}
use bbg_vo_ip.World.{World, Act, ◌>>◌, pure, done, out_of_rounds}
use bbg_vo_ip.Volume.Gpio.{write_int_to_file, set_value}
use bbg_vo_ip.Volume.I2c.{disable_digits, close_i2c_bus, pin_left, pin_right}
use bbg_vo_ip.Volume.Mixer.{volume_init, volume_cleanup}
use bbg_vo_ip.Volume.Digits.{Works}

-- `boolHandler`: what `keepRunning` then holds.
abbrev bool_handler : Bool → Bool
bool_handler keep_running = false

-- The busy wait of `main`; the list says for each round that it gets whether SIGINT arrives in it.
unfoldable pub busy_wait : Bool → List Bool → Act Unit
busy_wait keep_running [] = cond keep_running out_of_rounds done
busy_wait keep_running (signal ∷ signals) =
    let next = busy_wait (if signal then bool_handler keep_running else keep_running) signals in
    cond keep_running next done

-- `main`
unfoldable pub main : Env → List Bool → Act ℕ
unfolding busy_wait
main env signals = do volume_init env; busy_wait true signals; volume_cleanup env; pure 0

-- Whether SIGINT arrives at all.
abbrev pub interrupted : List Bool → Bool
interrupted [] = false
interrupted (signal ∷ signals) = signal || interrupted signals

busy_wait-false : (signals : List Bool) (w : World) → busy_wait false signals w ≡ (ok tt, w)
unfolding busy_wait
busy_wait-false [] w = refl
busy_wait-false (signal ∷ signals) w = refl

busy_wait_lem :
    (signals : List Bool) (w : World)
    → busy_wait true signals w ≡ (if interrupted signals then (ok tt, w) else (unfinished, w))
unfolding busy_wait
busy_wait_lem [] w = refl
busy_wait_lem (true ∷ signals) w = busy_wait-false signals w
busy_wait_lem (false ∷ signals) w = busy_wait_lem signals w

module _ (env : Env) (works : Works env) where
  write_int_to_file-mixer :
      (path : Text) (level : ℤ) (w : World)
      → let (r, w') = write_int_to_file env path level w in (r ≡ ok tt) × (w'.mixer ≡ w.mixer)
  unfolding write_int_to_file
  write_int_to_file-mixer path level w = ground (arith, works.opens w.log path (codes "w"))

  set_value-mixer :
      (pin : ℕ) (level : ℤ) (w : World)
      → let (r, w') = set_value env pin level w in (r ≡ ok tt) × (w'.mixer ≡ w.mixer)
  unfolding set_value
  set_value-mixer pin level w = write_int_to_file-mixer _ level w

  disable_digits-mixer :
      (w : World) → let (r, w') = disable_digits env w in (r ≡ ok tt) × (w'.mixer ≡ w.mixer)
  unfolding disable_digits
  disable_digits-mixer w = ground (
    arith,
    set_value-mixer pin_left (pos 0) w,
    set_value-mixer pin_right (pos 0) (set_value env pin_left (pos 0) w).1,
  )

  -- The world in which both threads were told to stop and joined.
  abbrev joined : World → World
  joined w =
      let log = (join volume, env.result w.log (join volume)) ∷ w.log in
      record w {
        log = (join display, env.result log (join display)) ∷ log;
        mixer = record w.mixer { stopping_volume = true; stopping_i2c = true };
      }

  volume_cleanup_lem :
      (w : World)
      → let (r, w') = volume_cleanup env w in
        (r ≡ ok tt) × (w'.mixer.stopping_volume ≡ true) × (w'.mixer.stopping_i2c ≡ true)
  unfolding volume_cleanup close_i2c_bus
  volume_cleanup_lem w = ground (arith, disable_digits-mixer (joined w))

  -- If files can be opened, then once the display is set up the volume control ends exactly if Ctrl-C is
  -- pressed: then with status 0 and both of its threads told to stop, and otherwise it waits for ever.
  pub main-interrupted :
      (signals : List Bool) (w w1 : World)
      → volume_init env w ≡ (ok tt, w1)
      → let (r, w') = main env signals w in
        ((interrupted signals ≡ true)
          × (r ≡ ok 0)
          × (w'.mixer.stopping_volume ≡ true)
          × (w'.mixer.stopping_i2c ≡ true))
        ⊎ ((interrupted signals ≡ false) × (r ≡ unfinished))
  unfolding main
  main-interrupted signals w w1 e = ground (arith, busy_wait_lem signals w1, volume_cleanup_lem w1)
