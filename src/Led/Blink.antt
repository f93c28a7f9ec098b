-- ===== src/Led/Blink.antt =====
-- The blinking of the red light of src/led.c: its thread, its flag, and what the light's file is told.
use bbg_vo_ip.Prelude.{
  ℕ, ◌+◌, ◌≡◌, ◌⊎◌, Bool, true, false, List, [], ◌∷◌, arith, codes, if◌then◌else◌,
}
use bbg_vo_ip.Sys.{
  Env, Call, ok, exits, create, cancel, join, blink, times, open_file, print_file, close_file,
  is_negative, is_zero,
}
use bbg_vo_ip.World.{World, ◌>>◌}
use bbg_vo_ip.Led.{Light, value_path, write_light, red_blink_start, red_blink_stop}

-- Tests for the calls that make, cancel and join the thread that blinks.
abbrev pub makes_blink : Call → Bool
makes_blink (create blink) = true
makes_blink _ = false

abbrev pub cancels_blink : Call → Bool
cancels_blink (cancel blink) = true
cancels_blink _ = false

abbrev pub joins_blink : Call → Bool
joins_blink (join blink) = true
joins_blink _ = false

-- One thread blinks more than was stopped exactly when the flag is set.
abbrev pub OneBlinks : World → Type 0
OneBlinks w =
    (times makes_blink w.log
      ≡ times cancels_blink w.log + (if w.blink_thread_running then 1 else 0))
    × (times joins_blink w.log ≡ times cancels_blink w.log)

-- What the program can do to the blinking.
pub data Switch : Type 0 where
  start stop : Switch

abbrev pub after : Env → List Switch → World → World
after env [] w = w
after env (start ∷ switches) w = after env switches (red_blink_start env w).1
after env (stop ∷ switches) w = after env switches (red_blink_stop env w).1

red_blink_start-OneBlinks :
    (env : Env) (w : World) → OneBlinks w → OneBlinks (red_blink_start env w).1
unfolding red_blink_start times
red_blink_start-OneBlinks env w h = ground arith

red_blink_stop-OneBlinks :
    (env : Env) (w : World) → OneBlinks w → OneBlinks (red_blink_stop env w).1
unfolding red_blink_stop times
red_blink_stop-OneBlinks env w h = ground arith

-- Through any sequence of starts and stops, however often each is repeated, at most one blinking thread
-- exists: as many were made as were cancelled, and one more while the flag is set; each cancelled one
-- was joined.
pub after-OneBlinks :
    (env : Env) (switches : List Switch) (w : World)
    → OneBlinks w
    → OneBlinks (after env switches w)
after-OneBlinks env [] w h = h
after-OneBlinks env (start ∷ switches) w h =
    after-OneBlinks env switches (red_blink_start env w).1 (red_blink_start-OneBlinks env w h)
after-OneBlinks env (stop ∷ switches) w h =
    after-OneBlinks env switches (red_blink_stop env w).1 (red_blink_stop-OneBlinks env w h)

-- Starting the blinking and stopping it again, once each, leaves the flag cleared whatever it was
-- before, and both succeed.
pub red_blink_start-stop :
    (env : Env) (w : World)
    → let (r, w') = (red_blink_start env >> red_blink_stop env) w in
      (r ≡ ok tt) × (w'.blink_thread_running ≡ false)
unfolding red_blink_start red_blink_stop
red_blink_start-stop env w = ground arith

-- Switching a light writes the text to the value file of that light's pin and closes it, or ends the
-- program with status 1: before writing if the file cannot be opened, and before closing if nothing
-- could be written.
pub write_light_lem :
    (env : Env) (text : List ℕ) (light : Light) (w : World)
    → let path = open_file (value_path light) (codes "w") in
      let file = env.result w.log path in
      let log = (path, file) ∷ w.log in
      let written = env.result log (print_file text) in
      let log' = (print_file text, written) ∷ log in
      let (r, w') = write_light env text light w in
      ((is_zero file ≡ true) × (r ≡ exits 1) × (w'.log ≡ log))
      ⊎ ((is_zero file ≡ false)
          × (((r ≡ exits 1)
                × (w'.log ≡ log')
                × ((is_negative written ≡ true) ⊎ (is_zero written ≡ true)))
              ⊎ ((r ≡ ok tt)
                  × (w'.log ≡ (close_file, env.result log' close_file) ∷ log')
                  × (is_negative written ≡ false)
                  × (is_zero written ≡ false))))
unfolding write_light
write_light_lem env text light w = ground arith
