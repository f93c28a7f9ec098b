-- ===== src/Volume/Mixer.antt =====
-- volume_mixer/src/volume_mixer.c without its `main`.
use bbg_vo_ip.Prelude.{ℕ, zero, suc, ◌+◌, ◌*◌, ◌/◌, true, cond, Text, codes, ◌++◌}
use bbg_vo_ip.Prelude.Int.{ℤ, pos, negsuc}
use bbg_vo_ip.Sys.{
  Env, create, join, volume, display, snd_open, snd_attach, snd_register, snd_load, snd_find,
  snd_range, snd_close, snd_set, unsigned, ◌==ℤ◌,
}
use bbg_vo_ip.World.{Mixer, Act, ◌>>=◌, ◌>>◌, pure, out_of_rounds, gets, modify, done, ask, call}
use bbg_vo_ip.Volume.Gpio.{read_from_file, decimal, negative, atoi}
use bbg_vo_ip.Volume.I2c.{initialize_i2c_bus, write_two_digits, disable_digits, close_i2c_bus}

-- `reading_to_volume`: the quotient of doubles is cut off where it becomes a `long`, so that `round`
-- finds nothing to round. For an `int` the cut-off quotient of doubles is that of the exact numbers,
-- which are no closer to a whole number than 1/4095 unless they are one.
unfoldable pub reading_to_volume : ℤ → ℤ
reading_to_volume (pos n) = pos (n * 100 / 4095)
reading_to_volume (negsuc n) = negative ((n + 1) * 100 / 4095)

-- `volume * max / 100`
abbrev pub percent : ℤ → ℤ → ℤ
percent (pos n) (pos max) = pos (n * max / 100)
percent (pos n) (negsuc max) = negative (n * (max + 1) / 100)
percent (negsuc n) (pos max) = negative ((n + 1) * max / 100)
percent (negsuc n) (negsuc max) = pos ((n + 1) * (max + 1) / 100)

abbrev set_mixer : (Mixer → Mixer) → Act Unit
set_mixer f = modify (λ w. record w { mixer = f w.mixer })

module _ (env : Env) where
  -- `readVoltageRawFromChannel`; `unset` is what its buffer holds when it comes to be.
  unfoldable pub read_voltage_raw : Text → ℕ → Act ℤ
  read_voltage_raw unset channel = do
    text ←
        read_from_file env
          (codes "/sys/bus/iio/devices/iio:device0/in_voltage" ++ (decimal channel ++ codes "_raw"))
          unset 1024
    pure (atoi text)

  -- `set_volume`
  unfoldable pub set_volume : ℤ → Act Unit
  set_volume level = do
    current ← gets (λ w. w.mixer.current_volume)
    cond (level ==ℤ current) done (do
      call env snd_open
      call env snd_attach
      call env snd_register
      call env snd_load
      call env snd_find
      max ← ask env snd_range
      call env (snd_set (percent level max))
      set_mixer (λ m. record m { current_volume = level })
      call env snd_close)

  -- `volumeThread`
  unfoldable pub volume_thread : Text → ℕ → Act Unit
  unfolding read_voltage_raw set_volume reading_to_volume
  volume_thread unset zero = out_of_rounds
  volume_thread unset (suc rounds) = do
    stopping ← gets (λ w. w.mixer.stopping_volume)
    let again = volume_thread unset rounds
    cond stopping done
        (do reading ← read_voltage_raw unset 0; set_volume (reading_to_volume reading); again)

  -- `i2cThread`
  unfoldable pub i2c_thread : ℕ → Act Unit
  i2c_thread zero = out_of_rounds
  i2c_thread (suc rounds) = do
    mixer ← gets (λ w. w.mixer)
    let again = i2c_thread rounds
    cond mixer.stopping_i2c done
        (do write_two_digits env (unsigned mixer.current_volume) 7000000; again)

  -- `volume_init`
  unfoldable pub volume_init : Act Unit
  volume_init = do initialize_i2c_bus env; call env (create volume); call env (create display)

  -- `volume_cleanup`
  unfoldable pub volume_cleanup : Act Unit
  volume_cleanup = do
    set_mixer (λ m. record m { stopping_volume = true })
    call env (join volume)
    set_mixer (λ m. record m { stopping_i2c = true })
    call env (join display)
    disable_digits env
    close_i2c_bus env
