-- ===== src/Volume/Reading.antt =====
-- What volume_mixer/src/volume_mixer.c makes of the knob's reading, and that a volume is set once.
use bbg_vo_ip.Prelude.{
  ℕ, suc, ◌+◌, ◌*◌, ◌/◌, ◌≤◌, ◌<◌, ◌≡◌, ◌↔◌, ◌⊎◌, refl, arith, Bool, true, false, ◌≢◌, ap,
}
use bbg_vo_ip.Prelude.Int.{ℤ, pos, negsuc}
use bbg_vo_ip.Sys.{Env, Call, ok, times, snd_open, snd_close, ◌==ℤ◌}
use bbg_vo_ip.World.{World, ◌>>◌}
use bbg_vo_ip.Volume.Mixer.{reading_to_volume, set_volume}

-- A reading of the 12-bit converter gives a volume from 0 to 100, and 100 for the largest reading only;
-- it is the largest whole number of percents that the reading reaches.
pub reading_to_volume_lem :
    (n : ℕ)
    → n ≤ 4095
    → (v : ℕ) × (reading_to_volume (pos n) ≡ pos v)
      × (v ≤ 100)
      × ((v ≡ 100) ↔ (n ≡ 4095))
      × (v * 4095 ≤ n * 100)
      × (n * 100 < (v + 1) * 4095)
unfolding reading_to_volume
reading_to_volume_lem n h = (
  n * 100 / 4095,
  refl,
  omega arith,
  (λ e. omega arith, λ e. omega arith),
  omega arith,
  omega arith,
)

-- A larger reading never gives a smaller volume.
pub reading_to_volume_mono :
    (m n : ℕ)
    → m ≤ n
    → (u : ℕ) × (v : ℕ) × (reading_to_volume (pos m) ≡ pos u)
      × (reading_to_volume (pos n) ≡ pos v)
      × (u ≤ v)
unfolding reading_to_volume
reading_to_volume_mono m n h = (m * 100 / 4095, n * 100 / 4095, refl, refl, omega arith)

same_refl : (n : ℤ) → (n ==ℤ n) ≡ true
same_refl (pos n) = ground arith
same_refl (negsuc n) = ground arith

eq_of_same : (m n : ℤ) → (m ==ℤ n) ≡ true → m ≡ n
eq_of_same (pos m) (pos n) h = ap pos (ground arith)
eq_of_same (pos m) (negsuc n) h = cc
eq_of_same (negsuc m) (pos n) h = cc
eq_of_same (negsuc m) (negsuc n) h = ap negsuc (ground arith)

-- A volume that was just set is not set again: the second call makes no call of ALSA and changes
-- nothing.
pub set_volume_twice :
    (env : Env) (level : ℤ) (w : World)
    → (set_volume env level >> set_volume env level) w ≡ set_volume env level w
unfolding set_volume
set_volume_twice env level w = ground (arith, same_refl level)

abbrev pub opens : Call → Bool
opens snd_open = true
opens _ = false

abbrev pub closes : Call → Bool
closes snd_close = true
closes _ = false

-- Setting a volume always ends with that volume as the current one, and closes ALSA's mixer as often as it
-- opens it: once if the volume is a new one, and otherwise not at all.
pub set_volume_lem :
    (env : Env) (level : ℤ) (w : World)
    → let (r, w') = set_volume env level w in
      (r ≡ ok tt)
      × (w'.mixer.current_volume ≡ level)
      × (((w.mixer.current_volume ≡ level) × (w' ≡ w))
          ⊎ ((w.mixer.current_volume ≢ level)
              × (times opens w'.log ≡ suc (times opens w.log))
              × (times closes w'.log ≡ suc (times closes w.log))))
unfolding set_volume times
set_volume_lem env level w =
    ground (arith, same_refl level, eq_of_same level w.mixer.current_volume)
