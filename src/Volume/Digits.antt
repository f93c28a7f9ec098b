-- ===== src/Volume/Digits.antt =====
-- What the display of volume_mixer/src/i2c.c shows.
use bbg_vo_ip.Prelude.{
  ℕ, ◌/◌, ◌%◌, ◌<◌, ◌≡◌, refl, ap, subst, arith, true, false, List, [], ◌∷◌, ◌++◌, Text, ltb,
  if◌then◌else◌, codes, same_text, not, Bool, ◌==◌,
}
use bbg_vo_ip.Prelude.Int.{ℤ, pos}
use bbg_vo_ip.Sys.{
  Env, Log, ok, open_file, write_device, is_zero, wait, ◌==ℤ◌, Call, print_number, print_file,
  close_file,
}
use bbg_vo_ip.World.{World, Act, ◌>>◌, call}
use bbg_vo_ip.Volume.Gpio.{
  write_int_to_file, write_string_to_file, enable_pin, enable_pin_output, set_value, gpio_path,
  decimal, digits,
}
use bbg_vo_ip.Volume.I2c.{
  segments, write_value, write_digit, write_two_digits, disable_digits, enable_digit,
  to_register_address, Register, register_upper, register_lower, pin_left, pin_right,
}

-- No two digits look the same.
pub segments_injective : (a b : ℕ) → a < 10 → b < 10 → segments a ≡ segments b → a ≡ b
segments_injective a b ha hb e = ground (arith, ap (λ p. p.0) e, ap (λ p. p.1) e)

-- The calls of a log, newest first, with the display's bus left out.
abbrev pub made : Log → List Call
made [] = []
made ((write_device bus bytes, n) ∷ log) = write_device (pos 0) bytes ∷ made log
made ((c, n) ∷ log) = c ∷ made log

-- What can be seen of the display: which of its two digits have power, and the halves of the pattern on its
-- bus; with the file that is written to.
pub record Panel : Type 0 where
  pub file : Text
  pub left : Bool
  pub right : Bool
  pub upper : ℕ
  pub lower : ℕ

abbrev pub dark : Panel
dark = record { file = []; left = false; right = false; upper = 0; lower = 0 }

-- A number written to a pin's value, and a byte written to a register.
abbrev pub powered : ℤ → Panel → Panel
powered n p =
    if same_text p.file (codes "/sys/class/gpio/gpio61/value")
    then record p { left = not (is_zero n) }
    else if same_text p.file (codes "/sys/class/gpio/gpio44/value")
    then record p { right = not (is_zero n) }
    else p

abbrev pub registered : ℕ → ℕ → Panel → Panel
registered r level p =
    if r == 0x15
    then record p { upper = level }
    else if r == 0x14
    then record p { lower = level }
    else p

-- The panel after the calls, from a dark one before the oldest.
abbrev pub panel : List Call → Panel
panel [] = dark
panel (open_file path mode ∷ cs) = record (panel cs) { file = path }
panel (print_number n ∷ cs) = powered n (panel cs)
panel (write_device bus (r ∷ level ∷ []) ∷ cs) = registered r level (panel cs)
panel (_ ∷ cs) = panel cs

-- What is looked at during each `nanosleep`, newest first: the left digit's power, the right one's, and the
-- pattern.
pub record Look : Type 0 where
  pub left : Bool
  pub right : Bool
  pub pattern : ℕ × ℕ

abbrev pub look : Panel → Look
look p = record { left = p.left; right = p.right; pattern = (p.upper, p.lower) }

abbrev pub looks : List Call → List Look
looks [] = []
looks (wait n ∷ cs) = look (panel cs) ∷ looks cs
looks (_ ∷ cs) = looks cs

-- A system on which files can be opened and a write to the bus takes both bytes.
pub record Works (env : Env) : Type 0 where
  pub opens :
      (log : Log) (path mode : Text) → is_zero (env.result log (open_file path mode)) ≡ false
  pub takes :
      (log : Log) (bus : ℤ) (bytes : List ℕ)
      → (env.result log (write_device bus bytes) ==ℤ pos 2) ≡ true

-- Whatever the world, the action succeeds and makes these calls, the newest first.
data Puts (m : Act Unit) (calls : List Call) : Type 0 where
  puts : ((w : World) → ((m w).0 ≡ ok tt) × (made (m w).1.log ≡ calls ++ made w.log)) → Puts m calls

put :
    {m : Act Unit} {bytes : List Call}
    → Puts m bytes
    → (w : World) → ((m w).0 ≡ ok tt) × (made (m w).1.log ≡ bytes ++ made w.log)
put (puts h) = h

append_assoc : (xs ys zs : List Call) → (xs ++ ys) ++ zs ≡ xs ++ (ys ++ zs)
append_assoc [] ys zs = refl
append_assoc (x ∷ xs) ys zs = ap (λ l. x ∷ l) (append_assoc xs ys zs)

Puts->> : (m k : Act Unit) (a b : List Call) → Puts m a → Puts k b → Puts (m >> k) (b ++ a)
Puts->> m k a b hm hk =
    puts (λ w. ground (arith, put hm w, put hk (m w).1, append_assoc b a (made w.log)))

-- The calls for a number or a text in a file, for a digit switched off or on, and for a digit's two halves.
abbrev number_calls : Text → ℤ → List Call
number_calls path n = close_file ∷ print_number n ∷ open_file path (codes "w") ∷ []

abbrev text_calls : Text → Text → List Call
text_calls path text = close_file ∷ print_file text ∷ open_file path (codes "w") ∷ []

abbrev value_path : ℕ → Text
value_path pin = gpio_path pin (codes "/value")

abbrev dark_calls : List Call
dark_calls =
    number_calls (value_path pin_right) (pos 0) ++ number_calls (value_path pin_left) (pos 0)

abbrev enable_calls : ℕ → List Call
enable_calls pin =
    number_calls (value_path pin) (pos 1)
    ++ (text_calls (gpio_path pin (codes "/direction")) (codes "out")
        ++ number_calls (codes "/sys/class/gpio/export") (pos pin))

abbrev digit_writes : ℕ → List Call
digit_writes digit =
    write_device (pos 0) (0x14 ∷ (segments digit).1 ∷ [])
    ∷ write_device (pos 0) (0x15 ∷ (segments digit).0 ∷ [])
    ∷ []

module _ (env : Env) (works : Works env) where
  write_int_to_file-Puts :
      (path : Text) (n : ℤ) → Puts (write_int_to_file env path n) (number_calls path n)
  unfolding write_int_to_file
  write_int_to_file-Puts path n = puts (λ w. ground (arith, works.opens w.log path (codes "w")))

  write_string_to_file-Puts :
      (path text : Text) → Puts (write_string_to_file env path text) (text_calls path text)
  unfolding write_string_to_file
  write_string_to_file-Puts path text =
      puts (λ w. ground (arith, works.opens w.log path (codes "w")))

  set_value-Puts :
      (pin : ℕ) (level : ℤ) → Puts (set_value env pin level) (number_calls (value_path pin) level)
  unfolding set_value
  set_value-Puts pin level = write_int_to_file-Puts _ level

  wait-Puts : (n : ℕ) → Puts (call env (wait n)) (wait n ∷ [])
  wait-Puts n = puts (λ w. (refl, refl))

  disable_digits-Puts : Puts (disable_digits env) dark_calls
  unfolding disable_digits
  disable_digits-Puts =
      Puts->> (set_value env pin_left (pos 0)) (set_value env pin_right (pos 0)) _ _
        (set_value-Puts pin_left (pos 0)) (set_value-Puts pin_right (pos 0))

  enable_pin_output-Puts :
      (pin : ℕ)
      → Puts (enable_pin_output env pin) (
          text_calls (gpio_path pin (codes "/direction")) (codes "out")
          ++ number_calls (codes "/sys/class/gpio/export") (pos pin))
  unfolding enable_pin_output enable_pin
  enable_pin_output-Puts pin =
      Puts->> (write_int_to_file env _ (pos pin)) (write_string_to_file env _ _) _ _
        (write_int_to_file-Puts _ (pos pin)) (write_string_to_file-Puts _ _)

  enable_digit-Puts : (pin : ℕ) → Puts (enable_digit env pin) (enable_calls pin)
  unfolding enable_digit
  enable_digit-Puts pin =
      Puts->> (enable_pin_output env pin) (set_value env pin (pos 1)) _ _
        (enable_pin_output-Puts pin) (set_value-Puts pin (pos 1))

  write_value-Puts :
      (r : Register) (level : ℕ)
      → Puts
          (write_value env r level)
          (write_device (pos 0) (to_register_address r ∷ level ∷ []) ∷ [])
  unfolding write_value
  write_value-Puts r level =
      puts (λ w. ground (arith, works.takes w.log w.mixer.bus (to_register_address r ∷ level ∷ [])))

  -- A digit's two halves.
  abbrev halves : ℕ → Act Unit
  halves shown =
      write_value env register_upper (segments shown).0
      >> write_value env register_lower (segments shown).1

  halves-Puts : (shown : ℕ) → Puts (halves shown) (digit_writes shown)
  halves-Puts shown =
      Puts->> (write_value env register_upper (segments shown).0)
        (write_value env register_lower (segments shown).1) _ _
        (write_value-Puts register_upper (segments shown).0)
        (write_value-Puts register_lower (segments shown).1)

  write_digit-Puts : (digit : ℕ) → digit < 10 → Puts (write_digit env digit) (digit_writes digit)
  unfolding write_digit
  write_digit-Puts digit h =
      let same : digit ≡ (if ltb 9 digit then digit % 10 else digit) = ground arith in
      subst (λ d. Puts (halves d) (digit_writes digit)) same (halves-Puts digit)

  -- A digit shown, and what comes then.
  abbrev shows : ℕ → ℕ → Act Unit → Act Unit
  shows pin digit rest =
      disable_digits env >> (enable_digit env pin >> (write_digit env digit >> rest))

  shows-Puts :
      (pin digit : ℕ) (rest : Act Unit) (calls : List Call)
      → digit < 10
      → Puts rest calls
      → Puts
          (shows pin digit rest)
          (((calls ++ digit_writes digit) ++ enable_calls pin) ++ dark_calls)
  shows-Puts pin digit rest calls h hr =
      Puts->> (disable_digits env) (enable_digit env pin >> (write_digit env digit >> rest)) _ _
        disable_digits-Puts
        (Puts->> (enable_digit env pin) (write_digit env digit >> rest) _ _ (enable_digit-Puts pin)
          (Puts->> (write_digit env digit) rest _ calls (write_digit-Puts digit h) hr))

  -- On a system on which nothing fails, a number is shown by its two digits in decimal, a number above 99 as 99:
  -- during the first of the two waits only the left digit has power and the bus holds the pattern of
  -- the tens, and during the second only the right one has, with the pattern of the units.
  pub write_two_digits_lem :
      (num nanosecs : ℕ) (w : World)
      → let shown = if ltb 99 num then 99 else num in
        let (r, w') = write_two_digits env num nanosecs w in
        (r ≡ ok tt)
        × (looks (made w'.log)
            ≡ record { left = false; right = true; pattern = segments (shown % 10) }
              ∷ record { left = true; right = false; pattern = segments (shown / 10) }
              ∷ looks (made w.log))
  unfolding write_two_digits decimal digits same_text
  write_two_digits_lem num nanosecs w =
      let shown = if ltb 99 num then 99 else num in
      let delay : Act Unit = call env (wait nanosecs) in
      let right =
        shows-Puts pin_right (shown % 10) delay (wait nanosecs ∷ []) (omega arith)
          (wait-Puts nanosecs) in
      let both =
        shows-Puts pin_left (shown / 10) (delay >> shows pin_right (shown % 10) delay) _
          (ground arith)
          (Puts->> delay (shows pin_right (shown % 10) delay) (wait nanosecs ∷ []) _
            (wait-Puts nanosecs) right) in
      let (done, calls) = put both w in (done, ap looks calls)
