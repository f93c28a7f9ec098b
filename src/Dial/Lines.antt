-- ===== src/Dial/Lines.antt =====
-- How getInput of src/dialservice.c cuts the terminal's input into names.
use bbg_vo_ip.Prelude.{
  ℕ, zero, suc, ◌+◌, ◌<◌, ◌≤◌, ◌≡◌, ◌≢◌, refl, ◌⊎◌, ap, ◌==◌, if◌then◌else◌, List, [], ◌∷◌, ◌++◌,
  arith, length, take, drop, before, Text, some, length-append, length-take, inl, inr,
}
use bbg_vo_ip.Sys.{ok}
use bbg_vo_ip.World.{World}
use bbg_vo_ip.Terminal.{newline, line, after_fgets, after_line, get_line, skip_line}
use bbg_vo_ip.Dial.{read_name, dialled}

-- A text on one line, without a NUL.
abbrev pub OneLine : Text → Type 0
OneLine [] = Unit
OneLine (c ∷ s) = (c ≢ newline) × (c ≢ 0) × OneLine s

OneLine-take : (n : ℕ) (s : Text) → OneLine s → OneLine (take n s)
OneLine-take zero s h = tt
OneLine-take (suc n) [] h = tt
OneLine-take (suc n) (c ∷ s) h = (h.0, h.1, OneLine-take n s h.2)

OneLine-drop : (n : ℕ) (s : Text) → OneLine s → OneLine (drop n s)
OneLine-drop zero s h = h
OneLine-drop (suc n) [] h = tt
OneLine-drop (suc n) (c ∷ s) h = OneLine-drop n s h.2

before-nul-OneLine : (s : Text) → OneLine s → before 0 s ≡ s
unfolding before
before-nul-OneLine [] h = refl
before-nul-OneLine (c ∷ s) h = ground (arith, before-nul-OneLine s h.2)

before-newline-OneLine : (s : Text) → OneLine s → before newline s ≡ s
unfolding before
before-newline-OneLine [] h = refl
before-newline-OneLine (c ∷ s) h = ground (arith, before-newline-OneLine s h.2)

before-line_nul : (s : Text) → OneLine s → before 0 (s ++ newline ∷ []) ≡ s ++ newline ∷ []
unfolding before
before-line_nul [] h = refl
before-line_nul (c ∷ s) h = ground (arith, before-line_nul s h.2)

before-line_newline : (s : Text) → OneLine s → before newline (s ++ newline ∷ []) ≡ s
unfolding before
before-line_newline [] h = refl
before-line_newline (c ∷ s) h = ground (arith, before-line_newline s h.2)

after_line-append : (s rest : Text) → OneLine s → after_line (s ++ newline ∷ rest) ≡ rest
unfolding after_line
after_line-append [] rest h = refl
after_line-append (c ∷ s) rest h = ground (arith, after_line-append s rest h.2)

-- A line that fits is read with its newline.
line-short :
    (n : ℕ) (s rest : Text)
    → OneLine s
    → length s < n
    → (line n (s ++ newline ∷ rest) ≡ s ++ newline ∷ [])
      × (after_fgets n (s ++ newline ∷ rest) ≡ rest)
unfolding line after_fgets
line-short zero s rest h fits = absurd (omega arith)
line-short (suc n) [] rest h fits = ground arith
line-short (suc n) (c ∷ s) rest h fits = ground (arith, line-short n s rest h.2 (omega arith))

-- A longer one is cut.
line-long :
    (n : ℕ) (s rest : Text)
    → OneLine s
    → n ≤ length s
    → (line n (s ++ newline ∷ rest) ≡ take n s)
      × (after_fgets n (s ++ newline ∷ rest) ≡ drop n s ++ newline ∷ rest)
unfolding line after_fgets
line-long zero s rest h cut = (refl, refl)
line-long (suc n) [] rest h cut = absurd (omega arith)
line-long (suc n) (c ∷ s) rest h cut = ground (arith, line-long n s rest h.2 (omega arith))

take-all : {A : Type 0} (n : ℕ) (s : List A) → length s ≤ n → take n s ≡ s
take-all zero [] h = refl
take-all zero (c ∷ s) h = absurd (omega arith)
take-all (suc n) [] h = refl
take-all (suc n) (c ∷ s) h = ap (λ l. c ∷ l) (take-all n s (omega arith))

length-line : (s : Text) → length (s ++ newline ∷ []) ≡ length s + 1
length-line s = length-append s (newline ∷ [])

dialled-line : (s : Text) → OneLine s → dialled (s ++ newline ∷ []) ≡ s
dialled-line s h = rw (before-line_nul s h) (before-line_newline s h)

dialled-OneLine : (s : Text) → OneLine s → dialled s ≡ s
dialled-OneLine s h = rw (before-nul-OneLine s h) (before-newline-OneLine s h)

some_name : (s rest : Text) → (c : ℕ) × (t : Text) × (s ++ newline ∷ rest ≡ c ∷ t)
some_name [] rest = (newline, rest, refl)
some_name (c ∷ s) rest = (c, s ++ newline ∷ rest, refl)

read_name_short :
    (s rest : Text) (w : World)
    → OneLine s
    → length s < 30
    → w.stdin ≡ s ++ newline ∷ rest
    → read_name w ≡ (ok (some s), record w { stdin = rest })
unfolding read_name get_line
read_name_short s rest w h short input =
    let (c, t, e) = some_name s rest in
    ground (
      arith,
      line-short 31 s rest h (omega arith),
      before-line_nul s h,
      dialled-line s h,
      length-line s,
    )

read_name_full :
    (s rest : Text) (w : World)
    → OneLine s
    → length s ≡ 30
    → w.stdin ≡ s ++ newline ∷ rest
    → read_name w ≡ (ok (some s), record w { stdin = after_line rest })
unfolding read_name get_line skip_line
read_name_full s rest w h full input =
    let (c, t, e) = some_name s rest in
    ground (
      arith,
      line-short 31 s rest h (omega arith),
      before-line_nul s h,
      dialled-line s h,
      length-line s,
    )

read_name_long :
    (s rest : Text) (w : World)
    → OneLine s
    → 30 < length s
    → w.stdin ≡ s ++ newline ∷ rest
    → read_name w ≡ (ok (some (take 31 s)), record w { stdin = rest })
unfolding read_name get_line skip_line
read_name_long s rest w h long input =
    let (c, t, e) = some_name s rest in
    let cut = OneLine-take 31 s h in
    ground (
      arith,
      line-long 31 s rest h (omega arith),
      before-nul-OneLine (take 31 s) cut,
      dialled-OneLine (take 31 s) cut,
      length-take 31 s,
      after_line-append (drop 31 s) rest (OneLine-drop 31 s h),
    )

-- A line of input without a NUL byte is dialled as its first 31 bytes and read to its end, with one
-- exception: where it has exactly 30 bytes, the line that follows it is thrown away too.
pub read_name_lem :
    (s rest : Text) (w : World)
    → OneLine s
    → w.stdin ≡ s ++ newline ∷ rest
    → read_name w ≡ (
      ok (some (take 31 s)),
      record w { stdin = if length s == 30 then after_line rest else rest },
    )
read_name_lem s rest w h input = elim (Nat_cases (length s)) [
  | inl short ↦ ground (arith, read_name_short s rest w h short input, take-all 31 s (omega arith))
  | inr (inl full) ↦
      ground (arith, read_name_full s rest w h full input, take-all 31 s (omega arith))
  | inr (inr long) ↦ ground (arith, read_name_long s rest w h long input)
]
  where
    Nat_cases : (n : ℕ) → (n < 30) ⊎ ((n ≡ 30) ⊎ (30 < n))
    Nat_cases n = ground arith
