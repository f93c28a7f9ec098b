-- ===== src/Ring/Tests.antt =====
-- Runs of the ring of src/ringbuffer.c, and the theorems about it at concrete rings.
use bbg_vo_ip.Prelude.{ℕ, ◌≡◌, refl, inr, false, none, some, List, [], ◌∷◌, arith, length, Option}
use bbg_vo_ip.Ring.{Ring, enqueue, dequeue, dequeue_n, is_empty, get_int}
use bbg_vo_ip.Ring.Inv.{IsValid}
use bbg_vo_ip.Ring.Printed.{print_buf, print_from, AreSlots, print_buf-AreSlots}
use bbg_vo_ip.Ring.Queue
use bbg_vo_ip.Ring.Queue.{put, get, stored, got, Call, Reply}
use bbg_vo_ip.Ring.Window.{contents}
use bbg_vo_ip.Ring.Refine.{run, run_refines}
use bbg_vo_ip.Ring.Drain.{dequeue_n-all}

abbrev memory : List ℕ
memory = 1 ∷ 1 ∷ 1 ∷ 1 ∷ 1 ∷ 1 ∷ []

-- Three elements of two bytes; two are held, round the end of the allocation.
abbrev around : Ring
around = record {
  buffer = 7 ∷ 8 ∷ 1 ∷ 1 ∷ 5 ∷ 6 ∷ [];
  head = 2;
  tail = 1;
  max_elements = 3;
  element_size = 2;
  count = 2;
  full = false;
}

abbrev calls : List Call
calls = put (1 ∷ 2 ∷ []) ∷ put (3 ∷ 4 ∷ []) ∷ get ∷ get ∷ get ∷ get ∷ []

around-IsValid : IsValid around
around-IsValid = record {
  positive = omega arith;
  storage = refl;
  head_in = omega arith;
  tail_in = omega arith;
  counted = omega arith;
  placed = inr refl;
  full_exact = refl;
}

-- The newest element, (1, 2), gave way to (3, 4).
run-around :
    run around calls
    ≡ some (
        stored
        ∷ stored
        ∷ got 1 (some (5 ∷ 6 ∷ []))
        ∷ got 1 (some (7 ∷ 8 ∷ []))
        ∷ got 1 (some (3 ∷ 4 ∷ []))
        ∷ got 0 none
        ∷ [])
unfolding run enqueue dequeue
run-around = refl

run_refines_example : run around calls ≡ some (Queue.run 3 ((5 ∷ 6 ∷ []) ∷ (7 ∷ 8 ∷ []) ∷ []) calls)
run_refines_example = run_refines calls around around-IsValid (refl, (refl, tt))

dequeue_n-all_example :
    (r' : Ring) × (dequeue_n around 2 ≡ some (1, 5 ∷ 6 ∷ 7 ∷ 8 ∷ [], r'))
    × IsValid r'
    × (contents r' ≡ [])
dequeue_n-all_example = dequeue_n-all around around-IsValid (omega arith) (omega arith)

-- Three slots for an `int`, of which the middle one holds nothing.
abbrev ints : Ring
ints = record {
  buffer = 1 ∷ 0 ∷ 0 ∷ 0 ∷ 2 ∷ 0 ∷ 0 ∷ 0 ∷ 3 ∷ 0 ∷ 0 ∷ 0 ∷ [];
  head = 2;
  tail = 1;
  max_elements = 3;
  element_size = 4;
  count = 2;
  full = false;
}

ints_printed :
    print_buf ints ≡ some (some (1 ∷ 0 ∷ 0 ∷ 0 ∷ []) ∷ none ∷ some (3 ∷ 0 ∷ 0 ∷ 0 ∷ []) ∷ [])
unfolding print_buf print_from is_empty get_int
ints_printed = refl

print_buf-AreSlots_example :
    (row : List (Option (List ℕ))) × (print_buf ints ≡ some row)
    × (length row ≡ 3)
    × AreSlots ints 0 row
print_buf-AreSlots_example = print_buf-AreSlots ints (ground arith) refl
