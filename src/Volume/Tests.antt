-- ===== src/Volume/Tests.antt =====
-- The theorems about volume_mixer/ at concrete readings and numbers.
use bbg_vo_ip.Prelude.{ℕ, ◌+◌, ◌*◌, ◌≤◌, ◌<◌, ◌≡◌, ◌↔◌, refl, arith, [], ◌∷◌, true, false}
use bbg_vo_ip.Prelude.Int.{pos}
use bbg_vo_ip.Sys.{Env, ok}
use bbg_vo_ip.Testing.{answering, quiet}
use bbg_vo_ip.Volume.Mixer.{reading_to_volume}
use bbg_vo_ip.Volume.I2c.{write_two_digits, segments}
use bbg_vo_ip.Volume.Reading.{reading_to_volume_lem}
use bbg_vo_ip.Volume.Digits.{Works, write_two_digits_lem, made, looks}

abbrev fine : Env
fine = answering (pos 2) [] []

fine-Works : Works fine
fine-Works = record { opens = λ log path mode. refl; takes = λ log bus bytes. refl }

write_two_digits_lem_example :
    let (r, w') = write_two_digits fine 42 7000000 quiet in
    (r ≡ ok tt)
    × (looks (made w'.log)
        ≡ record { left = false; right = true; pattern = segments 2 }
          ∷ record { left = true; right = false; pattern = segments 4 }
          ∷ [])
write_two_digits_lem_example = write_two_digits_lem fine fine-Works 42 7000000 quiet

reading_to_volume_lem_example :
    (v : ℕ) × (reading_to_volume (pos 2048) ≡ pos v)
    × (v ≤ 100)
    × ((v ≡ 100) ↔ (◌≡◌ {A = ℕ} 2048 4095))
    × (v * 4095 ≤ 2048 * 100)
    × (2048 * 100 < (v + 1) * 4095)
reading_to_volume_lem_example = reading_to_volume_lem 2048 (omega arith)
