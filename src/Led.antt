-- ===== src/Led.antt =====
-- src/led.c and include/led.h: the red and the blue light, each a file of the kernel's GPIO folder.
pub mod Blink
mod Tests
use bbg_vo_ip.Prelude.{ℕ, Bool, true, false, not, cond, ◌||◌, ◌++◌, List, [], ◌∷◌, Text, codes}
use bbg_vo_ip.Prelude.Int.{ℤ}
use bbg_vo_ip.Sys.{
  Env, Call, open_file, print_file, close_file, wait, create, cancel, join, blink, is_negative,
  is_zero,
}
use bbg_vo_ip.World.{World, Act, ◌>>=◌, ◌>>◌, exit_if, gets, modify, done, ask, call, access_fault}

pub data Light : Type 0 where
  red blue : Light

-- `GPIO`
abbrev pub pin : Light → Text
pin red = codes "46"
pin blue = codes "26"

abbrev gpio_path : Light → Text → Text
gpio_path light file = codes "/sys/class/gpio/gpio" ++ (pin light ++ file)

abbrev pub value_path : Light → Text
value_path light = gpio_path light (codes "/value")

abbrev pub direction_path : Light → Text
direction_path light = gpio_path light (codes "/direction")

module _ (env : Env) where
  -- A file that cannot be opened is only reported here, and then written to through NULL.
  write_unchecked : Text → Text → Act Unit
  write_unchecked path text = do
    file ← ask env (open_file path (codes "w"))
    cond (is_zero file) access_fault (do call env (print_file text); call env close_file)

  -- `LED_init`
  unfoldable pub init : Act Unit
  unfolding write_unchecked
  init = do
    write_unchecked (codes "/sys/class/gpio/export") (pin red)
    write_unchecked (codes "/sys/class/gpio/export") (pin blue)
    call env (wait 1000000000)
    write_unchecked (direction_path red) (codes "out")
    write_unchecked (direction_path blue) (codes "out")
    call env (wait 5000000)

  -- `LED_on` and `LED_off`, which differ in the text alone: `openFile`, `fprintf`, `fclose`
  unfoldable pub write_light : Text → Light → Act Unit
  write_light text light = do
    file ← ask env (open_file (value_path light) (codes "w"))
    exit_if (is_zero file) 1
    written ← ask env (print_file text)
    exit_if (is_negative written || is_zero written) 1
    call env close_file

  -- `LED_red_on`, `LED_blu_on`
  abbrev pub turn_on : Light → Act Unit
  turn_on = write_light (codes "1")

  -- `LED_red_off`, `LED_blu_off`
  abbrev pub turn_off : Light → Act Unit
  turn_off = write_light (codes "0")

  -- One round of `led_red_blink_loop`
  unfoldable pub blink_round : Act Unit
  blink_round = do turn_on red; call env (wait 100000000); turn_off red; call env (wait 100000000)

  -- `LED_red_blink_start`
  unfoldable pub red_blink_start : Act Unit
  red_blink_start = do
    running ← gets (λ w. w.blink_thread_running)
    cond running done
        (do modify (λ w. record w { blink_thread_running = true }); call env (create blink))

  -- `LED_red_blink_stop`
  unfoldable pub red_blink_stop : Act Unit
  red_blink_stop = do
    running ← gets (λ w. w.blink_thread_running)
    cond (not running) done (do
      modify (λ w. record w { blink_thread_running = false })
      call env (cancel blink)
      call env (join blink))
