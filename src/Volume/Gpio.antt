-- ===== src/Volume/Gpio.antt =====
-- volume_mixer/src/file.c and volume_mixer/src/gpio.c: files of the kernel read and written as a whole.
use bbg_vo_ip.Prelude.{
  ℕ, zero, suc, ◌+◌, ◌-◌, ◌*◌, ◌/◌, ◌%◌, ◌==◌, Bool, ◌&&◌, ◌||◌, if◌then◌else◌, [], ◌∷◌, ◌++◌, Text,
  codes, leb, ltb,
}
use bbg_vo_ip.Prelude.Int.{ℤ, pos, negsuc}
use bbg_vo_ip.Sys.{Env, open_file, print_file, print_number, read_line, close_file, is_zero}
use bbg_vo_ip.World.{Act, ◌>>=◌, ◌>>◌, exit_if, pure, ask, call, ask_text}

-- `%d` of a number that is not negative: ten digits are enough for 32 bits.
unfoldable pub digits : ℕ → ℕ → Text
digits zero n = []
digits (suc left) n =
    if ltb n 10 then (n + b'0') ∷ [] else digits left (n / 10) ++ ((n % 10 + b'0') ∷ [])

unfoldable pub decimal : ℕ → Text
unfolding digits
decimal = digits 10

-- `-n`
abbrev pub negative : ℕ → ℤ
negative zero = pos 0
negative (suc n) = negsuc n

-- `atoi`: white space, a sign, digits.
abbrev is_digit : ℕ → Bool
is_digit c = leb b'0' c && leb c b'9'

unfoldable pub value : ℕ → Text → ℕ
value n [] = n
value n (c ∷ s) = let more = value (n * 10 + (c - b'0')) s in if is_digit c then more else n

unfoldable pub signed : Text → ℤ
unfolding value
signed [] = pos 0
signed (c ∷ s) =
    if c == b'-'
    then negative (value 0 s)
    else if c == b'+'
    then pos (value 0 s)
    else pos (value 0 (c ∷ s))

abbrev is_space : ℕ → Bool
is_space c = c == 32 || (leb 9 c && leb c 13)

unfoldable pub atoi : Text → ℤ
unfolding signed
atoi [] = pos 0
atoi (c ∷ s) = let more = atoi s in if is_space c then more else signed (c ∷ s)

abbrev pub gpio_path : ℕ → Text → Text
gpio_path pin file = codes "/sys/class/gpio/gpio" ++ (decimal pin ++ file)

module _ (env : Env) where
  -- `readFromFile`: what the buffer then holds; `buffer` is what it held before.
  unfoldable pub read_from_file : Text → Text → ℕ → Act Text
  read_from_file filename buffer max_length = do
    file ← ask env (open_file filename (codes "r"))
    exit_if (is_zero file) 255
    (got, text) ← ask_text env (read_line max_length)
    call env close_file
    pure (if is_zero got then buffer else text)

  -- `writeIntToFile`
  unfoldable pub write_int_to_file : Text → ℤ → Act Unit
  write_int_to_file filename number = do
    file ← ask env (open_file filename (codes "w"))
    exit_if (is_zero file) 1
    call env (print_number number)
    call env close_file

  -- `writeStringToFile`
  unfoldable pub write_string_to_file : Text → Text → Act Unit
  write_string_to_file filename text = do
    file ← ask env (open_file filename (codes "w"))
    exit_if (is_zero file) 1
    call env (print_file text)
    call env close_file

  -- `Gpio_getString`
  unfoldable pub get_string : ℕ → Text → ℕ → Act Text
  get_string pin buffer max_length =
      read_from_file (gpio_path pin (codes "/value")) buffer max_length

  -- `Gpio_getInt`; `unset` is what its buffer holds when it comes to be.
  unfoldable pub get_int : Text → ℕ → Act ℤ
  get_int unset pin = do text ← get_string pin unset 1024; pure (atoi text)

  -- `Gpio_enablePin`
  unfoldable pub enable_pin : ℕ → Act Unit
  unfolding write_int_to_file
  enable_pin pin = write_int_to_file (codes "/sys/class/gpio/export") (pos pin)

  -- `Gpio_enablePinOutput`
  unfoldable pub enable_pin_output : ℕ → Act Unit
  unfolding enable_pin
  enable_pin_output pin = do
    enable_pin pin
    write_string_to_file (gpio_path pin (codes "/direction")) (codes "out")

  -- `Gpio_disablePin`
  unfoldable pub disable_pin : ℕ → Act Unit
  disable_pin pin = write_int_to_file (codes "/sys/class/gpio/unexport") (pos pin)

  -- `Gpio_setValue`
  unfoldable pub set_value : ℕ → ℤ → Act Unit
  set_value pin level = write_int_to_file (gpio_path pin (codes "/value")) level
