-- ===== src/Keypad.antt =====
-- src/keypad.c and include/keypad.h: a number typed on the twelve keys, each a pin of the kernel's GPIO
-- folder.
pub mod Typing
pub mod Number
mod Tests
use bbg_vo_ip.Prelude.{
  ℕ, zero, suc, ◌+◌, ◌==◌, Bool, true, false, not, cond, ◌&&◌, List, [], ◌∷◌, ◌++◌, Text, String,
  codes, length, ltb, if◌then◌else◌, Option, none, some, store, replicate, before,
}
use bbg_vo_ip.Prelude.Int.{ℤ, pos, negsuc}
use bbg_vo_ip.Sys.{Env, open_file, read_line, close_file, print_file, wait, is_zero}
use bbg_vo_ip.World.{
  World, Act, ◌>>=◌, ◌>>◌, pure, access_fault, out_of_rounds, gets, modify, done, ask, call,
  ask_text,
}

abbrev pub dial_length : ℕ
dial_length = 15

-- An entry of `GPIO` and the entry of `KEYS` at the same index
pub record Key : Type 0 where
  pub gpio : Text
  pub char : ℕ

abbrev key : String → ℕ → Key
key gpio char = record { gpio = codes gpio; char = char }

-- `GPIO` and `KEYS`
abbrev pub keys : List Key
keys =
    key "71" b'3'
    ∷ key "70" b'6'
    ∷ key "75" b'9'
    ∷ key "77" b'#'
    ∷ key "76" b'2'
    ∷ key "79" b'5'
    ∷ key "78" b'8'
    ∷ key "80" b'0'
    ∷ key "8" b'1'
    ∷ key "81" b'4'
    ∷ key "9" b'7'
    ∷ key "11" b'.'
    ∷ []

-- `i == 3`
abbrev pub is_hash : Key → Bool
is_hash k = k.char == b'#'

abbrev gpio_path : Key → Text → Text
gpio_path k file = codes "/sys/class/gpio/gpio" ++ (k.gpio ++ file)

-- The local variables of `KEYPAD_getDial` that the loops change: `result`, `input` and `iter`
pub record Scan : Type 0 where
  pub result : Text
  pub input : Text
  pub iter : ℕ

-- `result[0] == '1'`, and `'0'`
abbrev pub is_pressed : Text → Bool
is_pressed [] = false
is_pressed (c ∷ s) = c == b'1'

abbrev pub is_released : Text → Bool
is_released [] = false
is_released (c ∷ s) = c == b'0'

abbrev pub set_stop : Bool → Act Unit
set_stop b = modify (λ w. record w { keypad_stop = b })

abbrev pub set_print_flag : Bool → Act Unit
set_print_flag b = modify (λ w. record w { print_flag = b })

-- `sprintf(input, "%s%c", input, KEYS[i])`, and `iter++`
abbrev pub type_key : Key → Scan → Scan
type_key k s = record s { input = s.input ++ (k.char ∷ []); iter = s.iter + 1 }

module _ (env : Env) where
  -- A file that cannot be opened is only reported, and then written to through NULL.
  write_pin : Text → Text → Act Unit
  write_pin path text = do
    file ← ask env (open_file path (codes "w"))
    cond (is_zero file) access_fault (do call env (print_file text); call env close_file)

  export_pins : List Key → Act Unit
  export_pins [] = done
  export_pins (k ∷ ks) = do write_pin (codes "/sys/class/gpio/export") k.gpio; export_pins ks

  input_pins : List Key → Act Unit
  input_pins [] = done
  input_pins (k ∷ ks) = do write_pin (gpio_path k (codes "/direction")) (codes "in"); input_pins ks

  -- `KEYPAD_init`
  unfoldable pub init : Act Unit
  unfolding write_pin export_pins input_pins
  init = do
    export_pins keys
    call env (wait 2000000000)
    input_pins keys
    call env (wait 1000000000)

  -- `fopen`, `fgets` and `fclose` of a pin's value: what `result` then holds.
  unfoldable pub read_pin : Key → Text → Act Text
  read_pin k result = do
    file ← ask env (open_file (gpio_path k (codes "/value")) (codes "r"))
    cond (is_zero file) access_fault (do
      (got, text) ← ask_text env (read_line 256)
      call env close_file
      pure (if is_zero got then result else text))

  -- `while(i == 3)`: until `#` is released
  unfoldable pub release : ℕ → Key → Text → Act Text
  unfolding read_pin
  release zero k result = out_of_rounds
  release (suc rounds) k result = do
    set_stop true
    result' ← read_pin k result
    let again = release rounds k result'
    cond (is_released result') (pure result') (do call env (wait 50000000); again)

  -- `while(result[0] == '1')`
  unfoldable pub hold : ℕ → Key → Scan → Act Scan
  unfolding release
  hold zero k s = out_of_rounds
  hold (suc rounds) k s = cond (not (is_pressed s.result)) (pure s) (do
    read ← read_pin k s.result
    result ← cond (is_hash k) (release rounds k read) (pure read)
    flag ← gets (λ w. w.print_flag)
    let s' = record s { result = result }
    let typed = type_key k s'
    let again = hold rounds k s'
    let again' = hold rounds k typed
    cond (flag && not (is_hash k))
        (do
          set_print_flag false
          cond (typed.iter == dial_length) (do set_stop true; pure typed) again')
        again)

  -- The `for` over the pins
  unfoldable pub scan : ℕ → List Key → Scan → Act Scan
  unfolding hold
  scan rounds [] s = pure s
  scan rounds (k ∷ ks) s = do
    result ← read_pin k s.result
    set_print_flag true
    s' ← hold rounds k (record s { result = result })
    scan rounds ks s'

  -- `while(!stop)`
  unfoldable pub scan_all : ℕ → Scan → Act Scan
  unfolding scan
  scan_all zero s = out_of_rounds
  scan_all (suc rounds) s = do
    stopped ← gets (λ w. w.keypad_stop)
    cond stopped (pure s) (do call env (wait 50000000); s' ← scan rounds keys s; scan_all rounds s')

  -- `KEYPAD_getDial`; `unset` is what `result` holds when it comes to be. The text goes with its NUL into
  -- the fifteen bytes that are allocated for `ret_string`, whose contents before make no difference. The
  -- "-1" of a number without digits is overwritten at once.
  unfoldable pub get_dial : ℕ → Text → Act Text
  unfolding scan_all
  get_dial rounds unset = do
    s ← scan_all rounds (record { result = unset; input = []; iter = 0 })
    set_stop false
    elim (store 0 (s.input ++ (0 ∷ [])) (replicate dial_length 0)) [
      | none ↦ access_fault
      | some ret_string ↦ pure (before 0 ret_string)
    ]
