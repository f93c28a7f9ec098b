-- ===== src/Ring/Drain.antt =====
-- `RingBuffer_dequeueN` of src/ringbuffer.c where all elements are asked for.
use native.Mathlib.Decide.{dec_lt}
use native.Mathlib.Nat.{suc-mul, mul_comm}
use mathlib.Core.List.{append_assoc, append-nil}
use mathlib.Core.Path.{ap₂}
use bbg_vo_ip.Prelude.{
  ℕ, zero, suc, ◌+◌, ◌-◌, ◌*◌, ◌%◌, ◌^◌, ◌≤◌, ◌<◌, ◌≡◌, refl, sym, ap, ◌∙◌, false, some, List, [],
  ◌∷◌, ◌++◌, arith, take, drop, slice, ltb, lt→ltb,
}
use bbg_vo_ip.Ring.{Ring, before_tail, batch_end, dequeue_n}
use bbg_vo_ip.Ring.Inv.{IsValid, next_cases}
use bbg_vo_ip.Ring.Queue.{Element}
use bbg_vo_ip.Ring.Window.{window, window-none, contents}
use bbg_vo_ip.Ring.Batch.{add_cases, batch, after_batch, dequeue_n_lem}

-- The bytes of elements in a row.
abbrev pub join : List Element → List ℕ
join [] = []
join (x ∷ q) = x ++ join q

take-add : (a b : ℕ) (xs : List ℕ) → take (a + b) xs ≡ take a xs ++ take b (drop a xs)
take-add zero b xs = ap (λ n. take n xs) {y = b} (omega arith)
take-add (suc a) zero [] = ap (λ n. take {A = ℕ} n []) {y = suc a} (omega arith)
take-add (suc a) (suc b) [] = ap (λ n. take {A = ℕ} n []) {y = suc (a + suc b)} (omega arith)
take-add (suc a) b (x ∷ xs) =
    let e : suc a + b ≡ suc (a + b) = omega arith in
    ap (λ n. take n (x ∷ xs)) e ∙ ap (λ l. x ∷ l) (take-add a b xs)

drop-add : (a b : ℕ) (xs : List ℕ) → drop (a + b) xs ≡ drop b (drop a xs)
drop-add zero b xs = ap (λ n. drop n xs) {y = b} (omega arith)
drop-add (suc a) zero [] = ap (λ n. drop {A = ℕ} n []) {y = suc a} (omega arith)
drop-add (suc a) (suc b) [] =
    let e : suc a + suc b ≡ suc (a + suc b) = omega arith in ap (λ n. drop {A = ℕ} n []) e
drop-add (suc a) b (x ∷ xs) =
    let e : suc a + b ≡ suc (a + b) = omega arith in ap (λ n. drop n (x ∷ xs)) e ∙ drop-add a b xs

slice-add : (i a b : ℕ) (mem : List ℕ) → slice i (a + b) mem ≡ slice i a mem ++ slice (i + a) b mem
slice-add i a b mem =
    take-add a b (drop i mem) ∙ ap (λ l. slice i a mem ++ take b l) (sym (drop-add i a mem))

module _ (m size : ℕ) (buf : List ℕ) where
  -- Elements that do not go round lie in a row.
  join-window :
      (h n : ℕ) → h + n ≤ m → join (window m size buf h n) ≡ slice (h * size) (n * size) buf
  join-window h zero fits =
      sym (ap (λ k. slice (h * size) k buf) {x = 0 * size} {y = 0} (omega arith))
  join-window h (suc zero) fits =
      append-nil _ ∙ ap (λ k. slice (h * size) k buf) {x = size} {y = 1 * size} (omega arith)
  join-window h (suc (suc n)) fits =
      let next : (h + 1) % m ≡ suc h = ground (arith, next_cases m h) in
      ap (λ k. slice (h * size) size buf ++ join (window m size buf k (suc n))) next
      ∙ ap (λ l. slice (h * size) size buf ++ l) (join-window (suc h) (suc n) (omega arith))
      ∙ ap (λ k. slice (h * size) size buf ++ slice k (suc n * size) buf) {y = h * size + size}
          (omega (arith, suc-mul h size))
      ∙ sym (slice-add (h * size) size (suc n * size) buf)
      ∙ ap (λ k. slice (h * size) k buf) (omega (arith, suc-mul (suc n) size))

  -- Elements that go round are those up to the end and those from the start.
  window_split :
      (h a b : ℕ)
      → 0 < a
      → h + a ≡ m
      → window m size buf h (a + b) ≡ window m size buf h a ++ window m size buf 0 b
  window_split h zero b pos e = absurd (omega arith)
  window_split h (suc zero) b pos e =
      let one_more : 1 + b ≡ suc b = omega arith in
      let next : (h + 1) % m ≡ 0 = ground (arith, next_cases m h) in
      ap (window m size buf h) one_more
      ∙ ap (λ k. slice (h * size) size buf ∷ window m size buf k b) next
  window_split h (suc (suc a)) b pos e =
      let one_more : suc (suc a) + b ≡ suc (suc a + b) = omega arith in
      let next : (h + 1) % m ≡ suc h = ground (arith, next_cases m h) in
      ap (window m size buf h) one_more
      ∙ ap (λ l. slice (h * size) size buf ∷ l)
          (ap (λ k. window m size buf k (suc a + b)) next
            ∙ window_split (suc h) (suc a) b (omega arith) (omega arith)
            ∙ ap (λ k. window m size buf k (suc a) ++ window m size buf 0 b) (sym next))

  join-append : (p q : List Element) → join (p ++ q) ≡ join p ++ join q
  join-append [] q = refl
  join-append (x ∷ p) q =
      ap (λ l. x ++ l) (join-append p q) ∙ sym (append_assoc x (join p) (join q))

  join-window_split :
      (h a b : ℕ)
      → 0 < a
      → h + a ≡ m
      → b ≤ m
      → join (window m size buf h (a + b))
        ≡ slice (h * size) (a * size) buf ++ slice 0 (b * size) buf
  join-window_split h a b pos e fits =
      ap join (window_split h a b pos e)
      ∙ join-append (window m size buf h a) (window m size buf 0 b)
      ∙ ap₂ ◌++◌ (join-window h a (omega arith))
          (join-window 0 b (omega arith) ∙ ap (λ k. slice k (b * size) buf) {y = 0} (omega arith))

-- The end index of a request for all elements is the newest one.
batch_end_all : (r : Ring) → IsValid r → 0 < r.count → batch_end r r.count ≡ before_tail r
unfolding batch_end
batch_end_all r v hc = ground (arith, add_cases r.max_elements r.head r.count)

module _ (r : Ring) (v : IsValid r) (some_left : 0 < r.count) where
  open r use {max_elements as m, element_size as size, buffer, head, count}

  batch_around :
      (e : ℕ)
      → e < m
      → e < head
      → head + (count - 1) ≡ e + m
      → batch r e ≡ (count, join (contents r))
  batch_around e he around at =
      let parts : count ≡ (m - head) + (e + 1) = omega (arith, v.head_in) in
      let up = mul_comm size (m - head) in
      let low = mul_comm size (e + 1) in
      rw (lt→ltb e head around) (
        ap₂ (λ k l. (k, l)) (omega arith)
          (ap₂ (λ k l. slice (head * size) k buffer ++ slice 0 l buffer) up low
            ∙ sym (
                ap (λ k. join (window m size buffer head k)) parts
                ∙ join-window_split m size buffer head (m - head) (e + 1) (omega (arith, v.head_in))
                    (omega (arith, v.head_in)) (omega arith))))

  batch_in_row :
      (e : ℕ)
      → e < m
      → ¬ (e < head)
      → head + (count - 1) ≡ e
      → batch r e ≡ (count, join (contents r))
  batch_in_row e he in_row at =
      let size_of : e - head + 1 ≡ count = omega arith in
      let test : ltb e head ≡ false = ground arith in
      rw test (
        ap₂ (λ k l. (k, l)) size_of
          (ap (λ k. slice (head * size) (k * size) buffer) size_of
            ∙ sym (join-window m size buffer head count (omega arith))))

  batch_all : batch r (before_tail r) ≡ (count, join (contents r))
  batch_all = elim (dec_lt (before_tail r) head) [
    | yes around ↦ batch_around (before_tail r) (ground (arith, v)) around (ground (arith, v))
    | no in_row ↦ batch_in_row (before_tail r) (ground (arith, v)) in_row (ground (arith, v))
  ]

-- From a valid ring whose sizes fit an `int`, a request for all the elements that it holds returns 1,
-- hands out their bytes, oldest first, and leaves a ring with none.
pub dequeue_n-all :
    (r : Ring)
    → IsValid r
    → 0 < r.count
    → r.max_elements < 2 ^ 31
    → (r' : Ring) × (dequeue_n r r.count ≡ some (1, join (contents r), r'))
      × IsValid r'
      × (contents r' ≡ [])
dequeue_n-all r v hc hm = (
  after_batch r r.count r.count,
  dequeue_n_lem r r.count v hc v.counted hc
      ∙ ap (λ b. some (1, b.1, after_batch r r.count b.0))
          (ap (batch r) (batch_end_all r v hc) ∙ batch_all r v hc),
  ground (arith, add_cases r.max_elements r.head r.count),
  window-none r.max_elements r.element_size r.buffer ((r.head + r.count) % r.max_elements)
      ((r.count + 2 ^ 32 - r.count) % 2 ^ 32) (omega (arith, v.counted)),
)
