-- ===== src/Bench/Tests.antt =====
-- The theorems about the programs beside the phone on concrete runs.
use bbg_vo_ip.Prelude.{
  ℕ, ◌+◌, ◌-◌, ◌*◌, ◌/◌, ◌%◌, ◌<◌, ◌≤◌, ◌≡◌, ◌≢◌, ◌⊎◌, refl, List, [], ◌∷◌, ◌++◌, arith, replicate,
}
use bbg_vo_ip.Prelude.Int.{ℤ, pos, negsuc}
use bbg_vo_ip.Sys.{Result, ok, fault}
use bbg_vo_ip.Audio.Frames.{malloced, only, Items}
use bbg_vo_ip.Audio.Frames.Listed.{listed}
use bbg_vo_ip.Bench.Noise.{uniform_rand, uniform_rand_lem, hits, gives, uniform_rand_uniform}
use bbg_vo_ip.Bench.Bars.{bars, loudest, AllBelow, Reaches, bars_lem}
use bbg_vo_ip.Bench.Loop.{
  Loop, Reach, started, add_buffers, move_fill, move_callback, fills, calls_back, here, next,
  fill_put, fill_take,
}
use bbg_vo_ip.Bench.Loop.Conserve.{places, Reach-once}

-- Of the numbers up to 10, the first two are rejected for a draw below 4.
uniform_rand_lem_example :
    (uniform_rand 10 4 (9 ∷ 8 ∷ 7 ∷ 2 ∷ []) ≡ ok (7 % 4, 2 ∷ [])) × (7 % 4 < 4)
uniform_rand_lem_example =
    uniform_rand_lem 10 4 7 (9 ∷ 8 ∷ []) (2 ∷ []) (omega arith) (omega arith, (omega arith, tt))
      (omega arith)

uniform_rand_uniform_example : hits (gives 10 4 3) 11 ≡ 10 / 4
uniform_rand_uniform_example = uniform_rand_uniform 10 4 3 (omega arith)

abbrev sound : List ℤ
sound = pos 20 ∷ negsuc 900 ∷ pos 1700 ∷ []

bars_lem_example :
    (n : ℕ) × (bars sound 50 ≡ ok (replicate n b'|' ++ replicate (50 - n) 0))
    × (n ≤ 40)
    × AllBelow ((n + 1) * 815) sound
    × ((n ≡ 0) ⊎ Reaches (n * 815) sound)
bars_lem_example = bars_lem sound 50 (omega arith, (omega arith, tt)) (omega arith)

bars-sound : bars sound 50 ≡ ok (b'|' ∷ b'|' ∷ replicate 48 0)
unfolding bars loudest
bars-sound = refl

-- The receiving thread takes buffer 0 and queues it, and the callback plays it.
abbrev go_on : Result (Loop Items) → Loop Items → Loop Items
go_on (ok u) t = u
go_on _ t = t

abbrev begun : Loop Items
begun = started listed 2

abbrev filled : Loop Items
filled = go_on (move_fill listed 2 fill_take (5 ∷ 6 ∷ []) begun) begun

abbrev queued : Loop Items
queued = go_on (move_fill listed 2 (fill_put (malloced 0)) [] filled) filled

playing : Reach listed 2 begun queued
unfolding move_fill add_buffers
playing = next (next here (fills (5 ∷ 6 ∷ []))) (fills [])

Reach-once_example :
    (move_callback listed 2 queued.callback (8 ∷ 9 ∷ []) queued ≢ fault)
    × (places listed (only 0) queued ≡ 1)
Reach-once_example =
    Reach-once listed 2 0 queued (move_callback listed 2 queued.callback (8 ∷ 9 ∷ []) queued)
      (omega arith) playing (calls_back (8 ∷ 9 ∷ []))
