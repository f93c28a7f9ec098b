-- ===== src/Bench/Bars.antt =====
-- bars of src/main_nonblocking_audio.c and consumer of src/main_audio_test.c: how loud a frame is, as a
-- line of bars.
use bbg_vo_ip.Prelude.{
  ℕ, zero, suc, ◌+◌, ◌-◌, ◌*◌, ◌/◌, ◌^◌, ◌≡◌, ◌<◌, ◌≤◌, ◌⊎◌, inl, inr, List, [], ◌∷◌, ◌++◌, arith,
  ltb, leb, if◌then◌else◌, ap, ◌∙◌, overwrite, replicate,
}
use bbg_vo_ip.Prelude.Int.{ℤ, pos, negsuc}
use bbg_vo_ip.Sys.{Result, ok, exits, fault, unfinished}
use bbg_vo_ip.Call.Datagram.{AudioCallbackResult, audio_continue}

-- The loop over the samples: `max` starts at 0, so no negative sample counts.
unfoldable pub loudest : ℕ → List ℤ → ℕ
loudest max [] = max
loudest max (pos n ∷ sound) = loudest (if ltb max n then n else max) sound
loudest max (negsuc n ∷ sound) = loudest max sound

-- `numBars`: for every `short` the product and quotient of doubles is cut off to that of the exact numbers.
abbrev pub num_bars : ℕ → ℕ
num_bars max = 40 * max / 32600

-- `bars` on the samples of a frame and a `barsBuf` of `size` bytes: what the bytes then are. Where there is
-- no byte, `barsBufSz - 1` is the largest `size_t`, and the bars are written past the buffer.
unfoldable pub bars : List ℤ → ℕ → Result (List ℕ)
unfolding loudest
bars sound zero = fault
bars sound (suc n) =
    let shown = num_bars (loudest 0 sound) in
    ok (overwrite (replicate (if leb (suc n) shown then n else shown) b'|') (replicate (suc n) 0))

-- `consumer`
abbrev pub consumer : List ℤ → Result AudioCallbackResult
consumer sound = elim (bars sound 50) [
  | ok text ↦ ok audio_continue
  | exits code ↦ exits code
  | fault ↦ fault
  | unfinished ↦ unfinished
]

-- Every sample is less than a bound, and some sample is at least as great.
abbrev pub AllBelow : ℕ → List ℤ → Type 0
AllBelow bound [] = Unit
AllBelow bound (pos n ∷ sound) = (n < bound) × AllBelow bound sound
AllBelow bound (negsuc n ∷ sound) = AllBelow bound sound

abbrev pub Reaches : ℕ → List ℤ → Type 0
Reaches bound [] = ⊥
Reaches bound (pos n ∷ sound) = (bound ≤ n) ⊎ Reaches bound sound
Reaches bound (negsuc n ∷ sound) = Reaches bound sound

loudest-le : (max : ℕ) (sound : List ℤ) → max ≤ loudest max sound
unfolding loudest
loudest-le max [] = omega arith
loudest-le max (pos n ∷ sound) = ground (arith, loudest-le (if ltb max n then n else max) sound)
loudest-le max (negsuc n ∷ sound) = loudest-le max sound

loudest-AllBelow :
    (max bound : ℕ) (sound : List ℤ) → loudest max sound < bound → AllBelow bound sound
unfolding loudest
loudest-AllBelow max bound [] h = tt
loudest-AllBelow max bound (pos n ∷ sound) h = (
  ground (arith, loudest-le (if ltb max n then n else max) sound),
  loudest-AllBelow (if ltb max n then n else max) bound sound h,
)
loudest-AllBelow max bound (negsuc n ∷ sound) h = loudest-AllBelow max bound sound h

loudest_below :
    (max bound : ℕ) (sound : List ℤ)
    → AllBelow bound sound
    → max < bound
    → loudest max sound < bound
unfolding loudest
loudest_below max bound [] h m = m
loudest_below max bound (pos n ∷ sound) (h, more) m =
    loudest_below (if ltb max n then n else max) bound sound more (ground arith)
loudest_below max bound (negsuc n ∷ sound) h m = loudest_below max bound sound h m

loudest-Reaches :
    (max bound : ℕ) (sound : List ℤ)
    → bound ≤ loudest max sound
    → (bound ≤ max) ⊎ Reaches bound sound
unfolding loudest
loudest-Reaches max bound [] h = inl h
loudest-Reaches max bound (pos n ∷ sound) h =
    elim (loudest-Reaches (if ltb max n then n else max) bound sound h) [
      | inl at ↦ ground arith
      | inr later ↦ inr (inr later)
    ]
loudest-Reaches max bound (negsuc n ∷ sound) h = loudest-Reaches max bound sound h

-- A sample is a `short`.
abbrev pub AllShort : List ℤ → Type 0
AllShort sound = AllBelow (2 ^ 15) sound

overwrite-replicate :
    (a b k n : ℕ)
    → k ≤ n
    → overwrite (replicate k a) (replicate n b) ≡ replicate k a ++ replicate (n - k) b
overwrite-replicate a b zero n h = ap (λ m. replicate m b) (omega arith)
overwrite-replicate a b (suc k) zero h = absurd (omega arith)
overwrite-replicate a b (suc k) (suc n) h =
    ap (λ l. a ∷ l)
      (overwrite-replicate a b k n (omega arith) ∙ ap (λ m. replicate k a ++ replicate m b) less)
  where
    less : n - k ≡ suc n - suc k
    less = omega arith

-- `bars` on shorts and a buffer of more than 40 bytes: the text is `n` bars with a NUL behind them, for an
-- `n` of at most 40, so the bound by the size of the buffer is never needed; every sample is less than
-- `n + 1` times 815, and some sample is at least `n` times 815, unless `n` is 0.
pub bars_lem :
    (sound : List ℤ) (size : ℕ)
    → AllShort sound
    → 40 < size
    → (n : ℕ) × (bars sound size ≡ ok (replicate n b'|' ++ replicate (size - n) 0))
      × (n ≤ 40)
      × AllBelow ((n + 1) * 815) sound
      × ((n ≡ 0) ⊎ Reaches (n * 815) sound)
unfolding bars
bars_lem sound zero short room = absurd (omega arith)
bars_lem sound (suc s) short room = (
  n,
  ap ok (
      ap (λ m. overwrite (replicate m b'|') (replicate (suc s) 0)) shown
      ∙ overwrite-replicate b'|' 0 n (suc s) (omega (arith, few))),
  few,
  loudest-AllBelow 0 ((n + 1) * 815) sound (omega arith),
  elim (loudest-Reaches 0 (n * 815) sound (omega arith)) [
    | inl none_counts ↦ inl (omega arith)
    | inr reached ↦ inr reached
  ],
)
  where
    top : ℕ
    top = loudest 0 sound

    n : ℕ
    n = num_bars top

    few : n ≤ 40
    few = omega (arith, loudest_below 0 (2 ^ 15) sound short (omega arith))

    shown : (if leb (suc s) n then s else n) ≡ n
    shown = ground (arith, few)
