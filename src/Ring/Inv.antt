-- ===== src/Ring/Inv.antt =====
-- When a ring of src/ringbuffer.c is well formed, and that its operations keep it so.
use native.Mathlib.Nat.{mod-eq_of_lt}
use bbg_vo_ip.Prelude.{
  ℕ, suc, ◌+◌, ◌-◌, ◌*◌, ◌%◌, ◌≤◌, ◌<◌, ◌≡◌, ◌⊎◌, Bool, false, Option, none, some, List, arith,
  length, take, length-take, length-splice, splice, slice, ◌==◌, if◌then◌else◌, ◌↔◌,
}
use native.Mathlib.Decide.{dec_lt}
use bbg_vo_ip.Ring.{Ring, init, copy_in, buffer_loc, before_tail, enqueue, dequeue}

-- `i` lies `n` places after `h`, going round at `m`.
abbrev pub IsAfter : ℕ → ℕ → ℕ → ℕ → Type 0
IsAfter m h n i = (h + n ≡ i) ⊎ (h + n ≡ i + m)

pub record IsValid (r : Ring) : Type 0 where
  pub positive : 0 < r.max_elements
  pub storage : length r.buffer ≡ r.max_elements * r.element_size
  pub head_in : r.head < r.max_elements
  pub tail_in : r.tail < r.max_elements
  pub counted : r.count ≤ r.max_elements
  pub placed : IsAfter r.max_elements r.head r.count r.tail
  pub full_exact : r.full ≡ (r.count == r.max_elements)

-- The next index: one more, or 0 at the end.
pub next_cases :
    (m i : ℕ) → i < m → ((suc i < m) × ((i + 1) % m ≡ i + 1)) ⊎ ((i + 1 ≡ m) × ((i + 1) % m ≡ 0))
next_cases m i h = grind (arith, mod-eq_of_lt)

-- An element's bytes lie inside the allocation.
pub fits_in :
    (r : Ring) (i : ℕ)
    → length r.buffer ≡ r.max_elements * r.element_size
    → i < r.max_elements
    → buffer_loc r i + r.element_size ≤ length r.buffer
fits_in r i s h = grind arith

-- A write of a whole element at an index of the ring is never a fault.
pub copy_in_lem :
    (r : Ring) (i : ℕ) (e : List ℕ)
    → length r.buffer ≡ r.max_elements * r.element_size
    → i < r.max_elements
    → r.element_size ≤ length e
    → copy_in r i e ≡ some (splice (buffer_loc r i) (take r.element_size e) r.buffer)
unfolding copy_in
copy_in_lem r i e s h w = ground (arith, fits_in r i s h, length-take r.element_size e)

-- The rings that `enqueue` and `dequeue` leave.
module _ (r : Ring) where
  abbrev pub grown : List ℕ → Ring
  grown e =
      let tail = (r.tail + 1) % r.max_elements in
      record r {
        buffer = splice (buffer_loc r r.tail) (take r.element_size e) r.buffer;
        tail = tail;
        full = tail == r.head;
        count = r.count + 1;
      }

  abbrev pub overwritten : List ℕ → Ring
  overwritten e = record r {
    buffer = splice (buffer_loc r (before_tail r)) (take r.element_size e) r.buffer;
  }

  abbrev pub shrunk : Ring
  shrunk = record r { head = (r.head + 1) % r.max_elements; full = false; count = r.count - 1 }

pub enqueue-room :
    (r : Ring) (e : List ℕ)
    → IsValid r
    → r.element_size ≤ length e
    → r.count < r.max_elements
    → enqueue r e ≡ some (grown r e)
unfolding enqueue
enqueue-room r e v w room = ground (arith, copy_in_lem r r.tail e)

pub enqueue-full :
    (r : Ring) (e : List ℕ)
    → IsValid r
    → r.element_size ≤ length e
    → r.count ≡ r.max_elements
    → enqueue r e ≡ some (overwritten r e)
unfolding enqueue
enqueue-full r e v w full = ground (arith, copy_in_lem r (before_tail r) e)

pub grown-IsValid :
    (r : Ring) (e : List ℕ) → IsValid r → r.count < r.max_elements → IsValid (grown r e)
grown-IsValid r e v room = ground (
  arith,
  next_cases r.max_elements r.tail,
  length-splice (buffer_loc r r.tail) (take r.element_size e) r.buffer,
)

pub overwritten-IsValid : (r : Ring) (e : List ℕ) → IsValid r → IsValid (overwritten r e)
overwritten-IsValid r e v =
    ground (arith, length-splice (buffer_loc r (before_tail r)) (take r.element_size e) r.buffer)

pub shrunk-IsValid : (r : Ring) → IsValid r → 0 < r.count → IsValid (shrunk r)
shrunk-IsValid r v some_left = ground (arith, next_cases r.max_elements r.head)

-- What `RingBuffer_dequeue` hands out of a valid ring that is not empty.
abbrev pub front : Ring → Bool → Option (List ℕ)
front r wanted = if wanted then some (slice (buffer_loc r r.head) r.element_size r.buffer) else none

pub dequeue-some :
    (r : Ring) (wanted : Bool)
    → IsValid r
    → 0 < r.count
    → dequeue r wanted ≡ some (1, front r wanted, shrunk r)
unfolding dequeue
dequeue-some r wanted v left = ground (arith, fits_in r r.head)

pub dequeue-empty : (r : Ring) (wanted : Bool) → r.count ≡ 0 → dequeue r wanted ≡ some (0, none, r)
unfolding dequeue
dequeue-empty r wanted e = ground arith

-- A ring made over an allocation of the size asked for is valid and empty.
pub init-IsValid :
    (memory : List ℕ) (n size : ℕ) → 0 < n → length memory ≡ n * size → IsValid (init memory n size)
unfolding init
init-IsValid memory n size h s = ground arith

-- On a valid ring, `RingBuffer_enqueue` of a whole element makes no access outside the allocation
-- and leaves a valid ring.
pub enqueue-IsValid :
    (r : Ring) (e : List ℕ)
    → IsValid r
    → r.element_size ≤ length e
    → (r' : Ring) × (enqueue r e ≡ some r') × IsValid r'
enqueue-IsValid r e v w = elim (dec_lt r.count r.max_elements) [
  | yes room ↦ (grown r e, enqueue-room r e v w room, grown-IsValid r e v room)
  | no none_left ↦
      (overwritten r e, enqueue-full r e v w (omega (arith, v.counted)), overwritten-IsValid r e v)
]

-- On a valid ring, `RingBuffer_dequeue` makes no access outside the allocation and leaves a valid
-- ring; it returns 1 exactly when the ring held an element.
pub dequeue-IsValid :
    (r : Ring) (wanted : Bool)
    → IsValid r
    → (n : ℕ) × (out : Option (List ℕ)) × (r' : Ring) × (dequeue r wanted ≡ some (n, out, r'))
      × IsValid r'
      × ((n ≡ 1) ↔ (0 < r.count))
dequeue-IsValid r wanted v = elim (dec_lt 0 r.count) [
  | yes left ↦ (
    1,
    front r wanted,
    shrunk r,
    dequeue-some r wanted v left,
    shrunk-IsValid r v left,
    ground arith,
  )
  | no empty ↦ (0, none, r, dequeue-empty r wanted (omega arith), v, ground arith)
]
