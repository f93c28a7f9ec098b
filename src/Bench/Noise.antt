-- ===== src/Bench/Noise.antt =====
-- uniformRand of src/main_nonblocking_audio.c, which draws a delay.
use bbg_vo_ip.Prelude.{
  ℕ, zero, suc, ◌+◌, ◌-◌, ◌*◌, ◌/◌, ◌%◌, ◌==◌, ◌≡◌, ◌<◌, ◌≤◌, refl, Bool, false, List, [], ◌∷◌,
  ◌++◌, arith, ltb, if◌then◌else◌, ap, ◌∙◌,
}
use bbg_vo_ip.Sys.{Result, ok, fault, unfinished, exits}
use native.Mathlib.Nat

-- `range_max`
abbrev pub range_max : ℕ → ℕ → ℕ
range_max rand_max modulus = rand_max - rand_max % modulus

-- The loop of `uniformRand`: the calls of `rand` give the numbers of the list, one after the other, and the
-- loop is unfinished where they run out. The result is the number drawn and what is left of the list.
unfoldable pub draw : ℕ → ℕ → List ℕ → Result (ℕ × List ℕ)
draw range modulus [] = unfinished
draw range modulus (x ∷ xs) =
    let again = draw range modulus xs in if ltb x range then ok (x % modulus, xs) else again

-- `uniformRand`; `rand_max` is RAND_MAX. The remainder by zero is a fault.
unfoldable pub uniform_rand : ℕ → ℕ → List ℕ → Result (ℕ × List ℕ)
unfolding draw
uniform_rand rand_max zero xs = fault
uniform_rand rand_max (suc m) xs = draw (range_max rand_max (suc m)) (suc m) xs

-- Every number of the list is rejected.
abbrev pub Rejected : ℕ → List ℕ → Type 0
Rejected range [] = Unit
Rejected range (x ∷ xs) = (range ≤ x) × Rejected range xs

draw_lem :
    (range modulus x : ℕ) (xs rest : List ℕ)
    → Rejected range xs
    → x < range
    → draw range modulus (xs ++ x ∷ rest) ≡ ok (x % modulus, rest)
unfolding draw
draw_lem range modulus x [] rest h below = ground arith
draw_lem range modulus x (y ∷ xs) rest h below =
    ground (arith, draw_lem range modulus x xs rest h.1 below)

-- `uniformRand` draws until a number lies below the largest multiple of `modulus` up to RAND_MAX, uses up
-- what it rejects and no more, and returns that number's remainder, which is less than `modulus`.
pub uniform_rand_lem :
    (rand_max modulus x : ℕ) (xs rest : List ℕ)
    → 0 < modulus
    → Rejected (range_max rand_max modulus) xs
    → x < range_max rand_max modulus
    → (uniform_rand rand_max modulus (xs ++ x ∷ rest) ≡ ok (x % modulus, rest))
      × (x % modulus < modulus)
unfolding uniform_rand
uniform_rand_lem rand_max zero x xs rest positive h below = absurd (omega arith)
uniform_rand_lem rand_max (suc m) x xs rest positive h below =
    (draw_lem (range_max rand_max (suc m)) (suc m) x xs rest h below, omega arith)

-- How many of the numbers below `n` pass a test.
unfoldable pub hits : (ℕ → Bool) → ℕ → ℕ
hits p zero = 0
hits p (suc n) = hits p n + (if p n then 1 else 0)

hits_at : (p : ℕ → Bool) (m n : ℕ) → m ≡ n → hits p m ≡ hits p n
hits_at p m n e = ap (hits p) e

hits-add : (p : ℕ → Bool) (a b : ℕ) → hits p (a + b) ≡ hits p a + hits (λ j. p (a + j)) b
unfolding hits
hits-add p a zero = hits_at p (a + 0) a (omega arith) ∙ omega arith
hits-add p a (suc b) =
    hits_at p (a + suc b) (suc (a + b)) (omega arith) ∙ omega (arith, hits-add p a b)

hits_same : (p q : ℕ → Bool) (n : ℕ) → ((j : ℕ) → j < n → p j ≡ q j) → hits p n ≡ hits q n
unfolding hits
hits_same p q zero h = refl
hits_same p q (suc n) h =
    ground (arith, hits_same p q n (λ j below. h j (omega arith)), h n (omega arith))

hits_none : (n : ℕ) → hits (λ j. false) n ≡ 0
unfolding hits
hits_none zero = refl
hits_none (suc n) = omega (arith, hits_none n)

-- One number below `m` is `r`, if `r` is one of them.
hits_one : (r m : ℕ) → hits (λ j. j == r) m ≡ (if ltb r m then 1 else 0)
unfolding hits
hits_one r zero = ground arith
hits_one r (suc m) = ground (arith, hits_one r m)

-- Of the numbers below a multiple of `m`, each remainder has as many as the multiple says.
hits_blocks : (r m q : ℕ) → r < m → hits (λ x. x % m == r) (m * q) ≡ q
unfolding hits
hits_blocks r m zero below = hits_at _ (m * 0) 0 (omega arith)
hits_blocks r m (suc q) below =
    ap (hits (λ x. x % m == r)) (omega arith)
    ∙ hits-add (λ x. x % m == r) (m * q) m
    ∙ ground (arith, hits_blocks r m q below, hits_one r m, block)
  where
    block : hits (λ j. (m * q + j) % m == r) m ≡ hits (λ j. j == r) m
    block =
        hits_same _ _ m
          (λ j h. ap (λ y. y == r) (Nat.mul-add-mod_self_left m q j ∙ Nat.mod-eq_of_lt h))

-- Whether a first number is taken, and gives `r`.
abbrev pub gives : ℕ → ℕ → ℕ → ℕ → Bool
gives rand_max modulus r x = elim (uniform_rand rand_max modulus (x ∷ [])) [
  | ok (y, rest) ↦ y == r
  | exits code ↦ false
  | fault ↦ false
  | unfinished ↦ false
]

gives_below :
    (rand_max m r x : ℕ)
    → x < range_max rand_max (suc m)
    → gives rand_max (suc m) r x ≡ (x % suc m == r)
unfolding uniform_rand draw
gives_below rand_max m r x below = ground arith

gives_above :
    (rand_max m r x : ℕ) → range_max rand_max (suc m) ≤ x → gives rand_max (suc m) r x ≡ false
unfolding uniform_rand draw
gives_above rand_max m r x above = ground arith

-- `uniformRand` is uniform: of the numbers from 0 to RAND_MAX that `rand` can give, the same number,
-- RAND_MAX / modulus, is taken and gives each remainder `r` below `modulus`.
pub uniform_rand_uniform :
    (rand_max modulus r : ℕ)
    → r < modulus
    → hits (gives rand_max modulus r) (suc rand_max) ≡ rand_max / modulus
uniform_rand_uniform rand_max zero r below = absurd (omega arith)
uniform_rand_uniform rand_max (suc m) r below =
    ap (hits (gives rand_max (suc m) r)) split
    ∙ hits-add (gives rand_max (suc m) r) range (suc rand_max - range)
    ∙ omega (arith, taken, left_out)
  where
    range : ℕ
    range = range_max rand_max (suc m)

    split : suc rand_max ≡ range + (suc rand_max - range)
    split = omega arith

    multiple : range ≡ suc m * (rand_max / suc m)
    multiple = omega (arith, Nat.div-add-mod rand_max (suc m))

    taken : hits (gives rand_max (suc m) r) range ≡ rand_max / suc m
    taken =
        hits_same _ (λ x. x % suc m == r) range (λ x h. gives_below rand_max m r x h)
        ∙ ap (hits (λ x. x % suc m == r)) multiple
        ∙ hits_blocks r (suc m) (rand_max / suc m) below

    left_out : hits (λ j. gives rand_max (suc m) r (range + j)) (suc rand_max - range) ≡ 0
    left_out =
        hits_same _ (λ j. false) (suc rand_max - range)
          (λ j h. gives_above rand_max m r (range + j) (omega arith))
        ∙ hits_none (suc rand_max - range)
