-- ===== src/Ring/Printed.antt =====
-- printBuf of src/main_ringbuffer.c: the slots of a ring on the terminal, with an X for one that holds nothing.
use bbg_vo_ip.Prelude.{
  ℕ, zero, suc, ◌+◌, ◌≤◌, ◌<◌, ◌≡◌, refl, ◌⊎◌, inl, inr, ◌==◌, Bool, true, false, not, ◌&&◌, Option,
  none, some, List, [], ◌∷◌, arith, length, ltb, leb, if◌then◌else◌, slice, ◌-◌, Bool-cases, ap,
}
use native.Mathlib.Decide.{dec_lt}
use bbg_vo_ip.Prelude.Fault.{◌>>=◌}
use bbg_vo_ip.Ring.{Ring, is_empty, get_int, get_char, buffer_loc}
use bbg_vo_ip.Ring.Inv.{IsAfter, IsValid, fits_in}

-- `a <= i && i < b` for the two indices where they differ.
abbrev between : ℕ → ℕ → ℕ → Bool
between a b i = if ltb a b then leb a i && ltb i b else not (leb b i && ltb i a)

-- Whether `printBuf` prints a slot's number, and not an X.
abbrev pub shows : Ring → ℕ → Bool
shows ring i =
    if is_empty ring
    then false
    else if ring.head == ring.tail
    then true
    else between ring.head ring.tail i

-- One slot: its bytes as an `int` or a `char`, or none for an X.
abbrev pub print_slot : Ring → ℕ → Option (Option (List ℕ))
print_slot ring i =
    if shows ring i
    then (do
      bytes ← if ring.element_size == 4 then get_int ring i else get_char ring i
      some (some bytes))
    else some none

-- The `for` from `i` on
unfoldable pub print_from : Ring → ℕ → ℕ → Option (List (Option (List ℕ)))
print_from ring zero i = some []
print_from ring (suc left) i = do
  slot ← print_slot ring i
  rest ← print_from ring left (suc i)
  some (slot ∷ rest)

-- `printBuf`
unfoldable pub print_buf : Ring → Option (List (Option (List ℕ)))
unfolding print_from
print_buf ring = print_from ring ring.max_elements 0

-- The slots that hold an element of the ring.
abbrev pub IsOccupied : Ring → ℕ → Type 0
IsOccupied r i = (k : ℕ) × (k < r.count) × IsAfter r.max_elements r.head k i

-- What is right to print for slot `i`.
abbrev pub IsSlot : Ring → ℕ → Option (List ℕ) → Type 0
IsSlot r i none = ¬ IsOccupied r i
IsSlot r i (some bytes) = IsOccupied r i × (bytes ≡ slice (buffer_loc r i) 4 r.buffer)

-- And for the slots from `i` on.
unfoldable pub AreSlots : Ring → ℕ → List (Option (List ℕ)) → Type 0
AreSlots r i [] = Unit
AreSlots r i (slot ∷ row) = IsSlot r i slot × AreSlots r (suc i) row

-- How far each slot is from the head.
distance :
    (m h i : ℕ)
    → h < m
    → i < m
    → ((h ≤ i) × IsAfter m h (i - h) i) ⊎ ((i < h) × IsAfter m h (i + m - h) i)
distance m h i hm im = elim (dec_lt i h) [
  | yes below ↦ inr (below, inr (omega arith))
  | no above ↦ inl (omega arith, inl (omega arith))
]

shows-IsOccupied :
    (r : Ring) (i : ℕ) → IsValid r → i < r.max_elements → shows r i ≡ true → IsOccupied r i
unfolding is_empty
shows-IsOccupied r i v h s = elim (distance r.max_elements r.head i v.head_in h) [
  | inl (above, after) ↦ (i - r.head, ground arith, after)
  | inr (below, after) ↦ (i + r.max_elements - r.head, ground arith, after)
]

hides-IsOccupied :
    (r : Ring) (i : ℕ) → IsValid r → i < r.max_elements → shows r i ≡ false → ¬ IsOccupied r i
unfolding is_empty
hides-IsOccupied r i v h s (k, below, after) = ground arith

-- A slot of a ring of `int`s is printed without a fault.
print_slot-IsSlot :
    (r : Ring) (i : ℕ)
    → IsValid r
    → r.element_size ≡ 4
    → i < r.max_elements
    → (slot : Option (List ℕ)) × (print_slot r i ≡ some slot) × IsSlot r i slot
unfolding get_int
print_slot-IsSlot r i v four h = elim (Bool-cases (shows r i)) [
  | inl shown ↦ (
    some (slice (buffer_loc r i) 4 r.buffer),
    ground (arith, fits_in r i v.storage h),
    (shows-IsOccupied r i v h shown, refl),
  )
  | inr hidden ↦ (none, ground arith, hides-IsOccupied r i v h hidden)
]

print_from-AreSlots :
    (r : Ring) (left i : ℕ)
    → IsValid r
    → r.element_size ≡ 4
    → left + i ≡ r.max_elements
    → (row : List (Option (List ℕ))) × (print_from r left i ≡ some row)
      × (length row ≡ left)
      × AreSlots r i row
unfolding print_from AreSlots
print_from-AreSlots r zero i v four h = ([], refl, refl, tt)
print_from-AreSlots r (suc left) i v four h =
    let (slot, printed, right) = print_slot-IsSlot r i v four (omega arith) in
    let (row, later, long, rights) = print_from-AreSlots r left (suc i) v four (omega arith) in
    (slot ∷ row, rw (printed, later) refl, ap suc long, (right, rights))

-- `printBuf` of a well-formed ring of `int`s prints as many slots as the ring has, in order and without a fault: the
-- four bytes of each slot that holds an element, and an X for each other one.
pub print_buf-AreSlots :
    (r : Ring)
    → IsValid r
    → r.element_size ≡ 4
    → (row : List (Option (List ℕ))) × (print_buf r ≡ some row)
      × (length row ≡ r.max_elements)
      × AreSlots r 0 row
unfolding print_buf
print_buf-AreSlots r v four = print_from-AreSlots r r.max_elements 0 v four (omega arith)
