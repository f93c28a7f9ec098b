-- ===== src/Ring/Window.antt =====
-- The elements that lie one after another in the allocation of a ring of src/ringbuffer.c, going round its end.
use native.Mathlib.Decide.{dec_lt}
use bbg_vo_ip.Prelude.{
  ℕ, zero, suc, ◌+◌, ◌*◌, ◌%◌, ◌<◌, ◌≡◌, ◌≢◌, refl, sym, ap, ◌∙◌, List, [], ◌∷◌, ◌++◌, arith,
  length, splice, slice, slice-splice_self, slice-splice_below, slice-splice_above,
}
use bbg_vo_ip.Ring.{Ring}
use bbg_vo_ip.Ring.Inv.{IsAfter, next_cases}
use bbg_vo_ip.Ring.Queue.{Element}

module _ (m size : ℕ) where
  -- The `n` elements from index `h` on, going round at `m`.
  abbrev pub window : List ℕ → ℕ → ℕ → List Element
  window buf h zero = []
  window buf h (suc n) = slice (h * size) size buf ∷ window buf ((h + 1) % m) n

  pub length-window : (buf : List ℕ) (h n : ℕ) → length (window buf h n) ≡ n
  length-window buf h zero = refl
  length-window buf h (suc n) = ap suc (length-window buf ((h + 1) % m) n)

  -- Where the place after a window is one place further.
  pub IsAfter-next :
      (h n i : ℕ) → h < m → i < m → suc n < m → IsAfter m h (suc n) i → IsAfter m ((h + 1) % m) n i
  IsAfter-next h n i hh hi hn a = ground (arith, next_cases m h)

  -- An element that is not the one written keeps its bytes.
  slice-splice_ne :
      (buf e : List ℕ) (h i : ℕ)
      → length e ≡ size
      → h ≢ i
      → slice (h * size) size (splice (i * size) e buf) ≡ slice (h * size) size buf
  slice-splice_ne buf e h i w ne = elim (dec_lt h i) [
    | yes below ↦ slice-splice_below (i * size) (h * size) size e buf (grind arith)
    | no above ↦ slice-splice_above (i * size) (h * size) size e buf (grind arith)
  ]

  slice-splice_eq :
      (buf e : List ℕ) (i : ℕ)
      → length e ≡ size
      → length buf ≡ m * size
      → i < m
      → slice (i * size) size (splice (i * size) e buf) ≡ e
  slice-splice_eq buf e i w s hi =
      ap (λ n. slice (i * size) n (splice (i * size) e buf)) (sym w)
      ∙ slice-splice_self (i * size) e buf (grind arith)

  -- A window with the place after it overwritten is the window and the new element.
  pub window-splice :
      (buf e : List ℕ) (n h i : ℕ)
      → length e ≡ size
      → length buf ≡ m * size
      → h < m
      → i < m
      → n < m
      → IsAfter m h n i
      → window (splice (i * size) e buf) h (suc n) ≡ window buf h n ++ e ∷ []
  window-splice buf e zero h i w s hh hi hn a =
      let at : h ≡ i = ground arith in
      ap (λ x. x ∷ [])
        (ap (λ k. slice (k * size) size (splice (i * size) e buf)) at
          ∙ slice-splice_eq buf e i w s hi)
  window-splice buf e (suc n) h i w s hh hi hn a = cc (
    slice-splice_ne buf e h i w (ground arith),
    window-splice buf e n ((h + 1) % m) i w s (ground (arith, next_cases m h)) hi (omega arith)
        (IsAfter-next h n i hh hi hn a),
  )

  -- A window of one more element is the window and the element after it.
  pub window_snoc :
      (buf : List ℕ) (n h i : ℕ)
      → h < m
      → i < m
      → n < m
      → IsAfter m h n i
      → window buf h (suc n) ≡ window buf h n ++ slice (i * size) size buf ∷ []
  window_snoc buf zero h i hh hi hn a =
      let at : h ≡ i = ground arith in ap (λ k. slice (k * size) size buf ∷ []) at
  window_snoc buf (suc n) h i hh hi hn a =
      ap (λ q. slice (h * size) size buf ∷ q)
        (window_snoc buf n ((h + 1) % m) i (ground (arith, next_cases m h)) hi (omega arith)
          (IsAfter-next h n i hh hi hn a))

-- The elements that a ring holds, oldest first.
abbrev pub contents : Ring → List Element
contents r = window r.max_elements r.element_size r.buffer r.head r.count

pub window-none : (m size : ℕ) (buf : List ℕ) (h n : ℕ) → n ≡ 0 → window m size buf h n ≡ []
window-none m size buf h zero e = refl
window-none m size buf h (suc n) e = absurd (omega arith)
