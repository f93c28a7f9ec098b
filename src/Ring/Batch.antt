-- ===== src/Ring/Batch.antt =====
-- `RingBuffer_dequeueN` of src/ringbuffer.c: where it does what it means to, and where it does not.
use native.Mathlib.Decide.{dec_lt}
use native.Mathlib.Nat.{mod-eq_of_lt, mod-eq-sub-mod, mul-le-mul_right, add-mul}
use bbg_vo_ip.Prelude.{
  ℕ, ◌+◌, ◌-◌, ◌*◌, ◌%◌, ◌^◌, ◌≤◌, ◌<◌, ◌≡◌, ◌∙◌, ◌⊎◌, inl, inr, false, some, List, [], ◌++◌, arith,
  slice, ltb, if◌then◌else◌,
}
use bbg_vo_ip.Ring.{Ring, batch_end, batch_copy, dequeue_n}
use bbg_vo_ip.Ring.Inv.{IsValid}

-- Where `n` places further is.
pub add_cases :
    (m h n : ℕ)
    → h < m
    → n ≤ m
    → ((h + n < m) × ((h + n) % m ≡ h + n)) ⊎ ((m ≤ h + n) × ((h + n) % m ≡ h + n - m))
add_cases m h n hh hn = elim (dec_lt (h + n) m) [
  | yes p ↦ inl (p, mod-eq_of_lt p)
  | no p ↦ inr (
    omega arith,
    mod-eq-sub-mod {n = h + n} {m = m} (omega arith)
        ∙ mod-eq_of_lt {n = h + n - m} {m = m} (omega arith),
  )
]

-- The element count and the bytes that `batch_copy` finds inside the allocation.
abbrev pub batch : Ring → ℕ → ℕ × List ℕ
batch r end_index =
    if ltb end_index r.head
    then (
      r.max_elements - r.head + end_index + 1,
      slice (r.head * r.element_size) (r.element_size * (r.max_elements - r.head)) r.buffer
          ++ slice 0 (r.element_size * (end_index + 1)) r.buffer,
    )
    else (
      end_index - r.head + 1,
      slice (r.head * r.element_size) ((end_index - r.head + 1) * r.element_size) r.buffer,
    )

span_fits : (m size a b : ℕ) → a + b ≤ m → a * size + b * size ≤ m * size
span_fits m size a b h =
    omega (arith, mul-le-mul_right {m = a + b} {n = m} size h, add-mul a b size)

batch_copy_lem :
    (r : Ring) (e : ℕ) → IsValid r → e < r.max_elements → batch_copy r e ≡ some (batch r e)
unfolding batch_copy
batch_copy_lem r e v he = ground (
  arith,
  span_fits r.max_elements r.element_size r.head (r.max_elements - r.head),
  span_fits r.max_elements r.element_size 0 (e + 1),
  span_fits r.max_elements r.element_size r.head (e - r.head + 1),
)

batch_end_in : (r : Ring) (n : ℕ) → IsValid r → n ≤ r.max_elements → batch_end r n < r.max_elements
unfolding batch_end
batch_end_in r n v hn = ground (arith, add_cases r.max_elements r.head n)

-- The ring that `RingBuffer_dequeueN` leaves.
abbrev pub after_batch : Ring → ℕ → ℕ → Ring
after_batch r n removed = record r {
  head = (r.head + n) % r.max_elements;
  full = false;
  count = (r.count + 2 ^ 32 - removed) % 2 ^ 32;
}

pub dequeue_n_lem :
    (r : Ring) (n : ℕ)
    → IsValid r
    → 0 < n
    → n ≤ r.max_elements
    → 0 < r.count
    → dequeue_n r n
      ≡ some (1, (batch r (batch_end r n)).1, after_batch r n (batch r (batch_end r n)).0)
unfolding dequeue_n
dequeue_n_lem r n v hn hm hc =
    ground (arith, batch_copy_lem r (batch_end r n) v (batch_end_in r n v hm))

-- A request for no elements or for more than the ring can hold, or a request to an empty ring, is
-- refused: 0 is returned and the ring is as it was.
pub dequeue_n_refused :
    (r : Ring) (n : ℕ)
    → (n ≡ 0) ⊎ (r.count ≡ 0) ⊎ (r.max_elements < n)
    → dequeue_n r n ≡ some (0, [], r)
unfolding dequeue_n
dequeue_n_refused r n h = ground arith

-- How many elements are taken off the count when fewer are asked for than the ring holds.
removed_early :
    (r : Ring) (n : ℕ)
    → IsValid r
    → 0 < n
    → n < r.count
    → ((batch r (batch_end r n)).0 ≡ n + 1) ⊎ ((batch r (batch_end r n)).0 ≡ r.count)
unfolding batch_end
removed_early r n v hn hc = ground (arith, add_cases r.max_elements r.head n)

not-IsValid-after_batch :
    (r : Ring) (n removed : ℕ)
    → IsValid r
    → 0 < n
    → n < r.count
    → r.max_elements < 2 ^ 31
    → (removed ≡ n + 1) ⊎ (removed ≡ r.count)
    → ¬ IsValid (after_batch r n removed)
not-IsValid-after_batch r n removed v hn hc hm h w =
    ground (arith, add_cases r.max_elements r.head n)

-- From a valid ring whose sizes fit an `int`, a request for some of the elements but not all of them
-- returns 1 and leaves a ring that is not valid: its head has moved by `n` places and its count has
-- gone down by another number.
pub dequeue_n-breaks_ring :
    (r : Ring) (n : ℕ)
    → IsValid r
    → 0 < n
    → n < r.count
    → r.max_elements < 2 ^ 31
    → (bytes : List ℕ) × (r' : Ring) × (dequeue_n r n ≡ some (1, bytes, r')) × ¬ IsValid r'
dequeue_n-breaks_ring r n v hn hc hm = (
  (batch r (batch_end r n)).1,
  after_batch r n (batch r (batch_end r n)).0,
  dequeue_n_lem r n v hn (omega (arith, v.counted)) (omega arith),
  not-IsValid-after_batch r n (batch r (batch_end r n)).0 v hn hc hm (removed_early r n v hn hc),
)
