-- ===== src/Volume/I2c.antt =====
-- volume_mixer/src/i2c.c: the display's registers and the pins that select a digit.
use bbg_vo_ip.Prelude.{ℕ, ◌/◌, ◌%◌, ◌==◌, not, if◌then◌else◌, [], ◌∷◌, codes, ltb}
use bbg_vo_ip.Prelude.Int.{pos}
use bbg_vo_ip.Sys.{Env, open_device, bind_device, write_device, close, wait, is_negative, ◌==ℤ◌}
use bbg_vo_ip.World.{Act, ◌>>=◌, ◌>>◌, exit_if, gets, modify, ask, call}
use bbg_vo_ip.Volume.Gpio.{enable_pin_output, set_value}

-- `Register`
pub data Register : Type 0 where
  register_lower register_upper register_output_1 register_output_2 : Register

-- `toRegisterAddress`
abbrev pub to_register_address : Register → ℕ
to_register_address register_lower = 0x14
to_register_address register_upper = 0x15
to_register_address register_output_1 = 0
to_register_address register_output_2 = 1

abbrev pub pin_left : ℕ
pin_left = 61

abbrev pub pin_right : ℕ
pin_right = 44

-- The `switch` of `writeDigitToI2cRegister`: `upper` and `lower`
abbrev pub segments : ℕ → ℕ × ℕ
segments digit =
    if digit == 0
    then (0x86, 0xA1)
    else if digit == 1
    then (0x02, 0x80)
    else if digit == 2
    then (0x0E, 0x31)
    else if digit == 3
    then (0x0E, 0xB0)
    else if digit == 4
    then (0x8A, 0x90)
    else if digit == 5
    then (0x8C, 0xB0)
    else if digit == 6
    then (0x8C, 0xB1)
    else if digit == 7
    then (0x06, 0x80)
    else if digit == 8
    then (0x8E, 0xB1)
    else (0x8E, 0x90)

module _ (env : Env) where
  -- `writeValueToI2cRegister`
  unfoldable pub write_value : Register → ℕ → Act Unit
  write_value r level = do
    bus ← gets (λ w. w.mixer.bus)
    written ← ask env (write_device bus (to_register_address r ∷ level ∷ []))
    exit_if (not (written ==ℤ pos 2)) 1

  -- `initializeI2cBus`
  unfoldable pub initialize_i2c_bus : Act Unit
  unfolding write_value
  initialize_i2c_bus = do
    enable_pin_output env pin_left
    enable_pin_output env pin_right
    set_value env pin_left (pos 1)
    set_value env pin_right (pos 1)
    bus ← ask env (open_device (codes "/dev/i2c-1"))
    bound ← ask env (bind_device bus 0x20)
    exit_if (is_negative bound) 1
    modify (λ w. record w { mixer = record w.mixer { bus = bus } })
    write_value register_output_1 0
    write_value register_output_2 0

  -- `disableDigits`
  unfoldable pub disable_digits : Act Unit
  disable_digits = do set_value env pin_left (pos 0); set_value env pin_right (pos 0)

  -- `enableLeftDigit` and `enableRightDigit`
  unfoldable pub enable_digit : ℕ → Act Unit
  enable_digit pin = do enable_pin_output env pin; set_value env pin (pos 1)

  -- `writeDigitToI2cRegister`
  unfoldable pub write_digit : ℕ → Act Unit
  write_digit digit =
      let shown = if ltb 9 digit then digit % 10 else digit in
      let (upper, lower) = segments shown in
      (do write_value register_upper upper; write_value register_lower lower)

  -- `writeTwoDigitsToI2cRegister`
  unfoldable pub write_two_digits : ℕ → ℕ → Act Unit
  unfolding disable_digits enable_digit write_digit
  write_two_digits num nanosecs =
      let capped = if ltb 99 num then 99 else num in
      (do
        disable_digits
        enable_digit pin_left
        write_digit (capped / 10)
        call env (wait nanosecs)
        disable_digits
        enable_digit pin_right
        write_digit (capped % 10)
        call env (wait nanosecs))

  -- `closeI2cBus`
  unfoldable pub close_i2c_bus : Act Unit
  close_i2c_bus = do bus ← gets (λ w. w.mixer.bus); call env (close bus)
