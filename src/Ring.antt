-- ===== src/Ring.antt =====
-- src/ringbuffer.c and include/ringbuffer.h: a ring of elements of equal size over one allocation.
-- A function that updates `*ring` returns the new ring; `none` is a fault of a `memcpy` that leaves
-- the allocation. The `int` fields are numbers, and `count` wraps where the source may take it
-- below zero. Printing is left out.
pub mod Inv
pub mod Queue
pub mod Window
pub mod Refine
pub mod Batch
pub mod Drain
pub mod Printed
mod Tests
use bbg_vo_ip.Prelude.{
  ℕ, ◌+◌, ◌-◌, ◌*◌, ◌%◌, ◌^◌, Bool, true, false, ◌||◌, Option, none, some, List, [], ◌++◌, length,
  take, load, store, ltb, leb, ◌==◌, if◌then◌else◌,
}
use bbg_vo_ip.Prelude.Fault.{◌>>=◌}

-- `RingBuffer`
pub record Ring : Type 0 where
  pub buffer : List ℕ
  pub head : ℕ
  pub tail : ℕ
  pub max_elements : ℕ
  pub element_size : ℕ
  pub count : ℕ
  pub full : Bool

-- `RingBuffer_init`; `memory` is what `malloc(maxElements * elementSize)` hands out, with whatever
-- bytes it holds.
unfoldable pub init : List ℕ → ℕ → ℕ → Ring
init memory max_elements element_size = record {
  buffer = memory;
  head = 0;
  tail = 0;
  max_elements = max_elements;
  element_size = element_size;
  count = 0;
  full = false;
}

-- `RingBuffer_destroy`: nothing of the freed allocation can be accessed any more.
pub destroy : Ring → Ring
destroy ring = record ring { buffer = [] }

-- `RingBuffer_isEmpty`
pub is_empty : Ring → Bool
is_empty ring = ring.count == 0

-- `getBufferLoc`, as an offset into the allocation
abbrev pub buffer_loc : Ring → ℕ → ℕ
buffer_loc ring i = i * ring.element_size

-- `memcpy(getBufferLoc(ring, i), elementPtr, ring->elementSize)`
pub copy_in : Ring → ℕ → List ℕ → Option (List ℕ)
copy_in ring i element =
    if leb ring.element_size (length element)
    then store (buffer_loc ring i) (take ring.element_size element) ring.buffer
    else none

-- `tail - 1`, and `maxElements` added where that is below zero
abbrev pub before_tail : Ring → ℕ
before_tail ring = if ring.tail == 0 then ring.max_elements - 1 else ring.tail - 1

-- `RingBuffer_enqueue`
pub enqueue : Ring → List ℕ → Option Ring
unfolding copy_in
enqueue ring element =
    if ring.full
    then (do bytes ← copy_in ring (before_tail ring) element; some (record ring { buffer = bytes }))
    else (do
      bytes ← copy_in ring ring.tail element
      let tail = (ring.tail + 1) % ring.max_elements
      some (record ring {
        buffer = bytes;
        tail = tail;
        full = tail == ring.head;
        count = ring.count + 1;
      }))

-- `RingBuffer_getChar`
pub get_char : Ring → ℕ → Option (List ℕ)
get_char ring i = load (buffer_loc ring i) 1 ring.buffer

-- `RingBuffer_getInt`: the four bytes of the `int`; a failed `assert` is a fault too.
pub get_int : Ring → ℕ → Option (List ℕ)
get_int ring i = if ring.element_size % 4 == 0 then load (buffer_loc ring i) 4 ring.buffer else none

-- What `e` receives: nothing if it is NULL.
copy_out : Ring → Bool → Option (Option (List ℕ))
copy_out ring false = some none
copy_out ring true = do
  bytes ← load (buffer_loc ring ring.head) ring.element_size ring.buffer
  some (some bytes)

-- `RingBuffer_dequeue`; `wanted` says whether `e` is not NULL. The result is the number returned,
-- what `e` received, and the ring.
pub dequeue : Ring → Bool → Option (ℕ × Option (List ℕ) × Ring)
unfolding copy_out
dequeue ring wanted = if ring.count == 0 then some (0, none, ring) else (do
  e ← copy_out ring wanted
  let head = (ring.head + 1) % ring.max_elements
  some (1, e, record ring { head = head; full = false; count = ring.count - 1 }))

-- `end` in `RingBuffer_dequeueN`
pub batch_end : Ring → ℕ → ℕ
batch_end ring n =
    let end_index = (ring.head + n) % ring.max_elements in
    if leb ring.tail end_index then before_tail ring else end_index

-- `elementsRemoved` and the bytes that `e` receives
pub batch_copy : Ring → ℕ → Option (ℕ × List ℕ)
batch_copy ring end_index =
    if ltb end_index ring.head
    then (do
      first ←
          load (buffer_loc ring ring.head) (ring.element_size * (ring.max_elements - ring.head))
            ring.buffer
      second ← load 0 (ring.element_size * (end_index + 1)) ring.buffer
      some (ring.max_elements - ring.head + end_index + 1, first ++ second))
    else (do
      let removed = end_index - ring.head + 1
      bytes ← load (buffer_loc ring ring.head) (removed * ring.element_size) ring.buffer
      some (removed, bytes))

-- `RingBuffer_dequeueN` for an `n` that is not negative.
pub dequeue_n : Ring → ℕ → Option (ℕ × List ℕ × Ring)
unfolding batch_end batch_copy
dequeue_n ring n =
    if n == 0 || ring.count == 0 || ltb ring.max_elements n then some (0, [], ring) else (do
      (removed, bytes) ← batch_copy ring (batch_end ring n)
      some (
        1,
        bytes,
        record ring {
          head = (ring.head + n) % ring.max_elements;
          full = false;
          count = (ring.count + 2 ^ 32 - removed) % 2 ^ 32;
        },
      ))
