-- ===== src/Audio/Frames.antt =====
-- The frame buffers of src/audio.c and the containers that they travel through. The ring buffer of
-- src/lfringbuffer.c and the queue of src/lfqueue.c are other projects' libraries: what they promise is
-- the record `Queues`.
pub mod Listed
use bbg_vo_ip.Prelude.{
  ℕ, ◌+◌, ◌==◌, ◌≡◌, ◌⊎◌, Bool, true, false, List, [], ◌∷◌, ◌++◌, Option, none, some, if◌then◌else◌,
}

-- A `FrameBuffer`: the constant `totalSilence`, or what one of the calls of `malloc` returned.
pub data Frame : Type 0 where
  total_silence : Frame
  malloced : ℕ → Frame

-- `freeBuffers`, `playbackBufferQueue` and `recordBufferQueue`
pub data Place : Type 0 where
  free_buffers playback_queue record_queue : Place

-- What the three hold, the oldest first.
pub record Items : Type 0 where
  pub free : List Frame
  pub playback : List Frame
  pub recorded : List Frame

abbrev pub held_at : Place → Items → List Frame
held_at free_buffers it = it.free
held_at playback_queue it = it.playback
held_at record_queue it = it.recorded

-- The items with one more at the end of a container, and at its front.
abbrev pub add_last : Place → Frame → Items → Items
add_last free_buffers f it = record it { free = it.free ++ f ∷ [] }
add_last playback_queue f it = record it { playback = it.playback ++ f ∷ [] }
add_last record_queue f it = record it { recorded = it.recorded ++ f ∷ [] }

abbrev pub add_first : Place → Frame → Items → Items
add_first free_buffers f it = record it { free = f ∷ it.free }
add_first playback_queue f it = record it { playback = f ∷ it.playback }
add_first record_queue f it = record it { recorded = f ∷ it.recorded }

abbrev pub emptied : Place → Items → Items
emptied free_buffers it = record it { free = [] }
emptied playback_queue it = record it { playback = [] }
emptied record_queue it = record it { recorded = [] }

-- The three containers together, since the two queues take their nodes from one pool. `put` is
-- `RingBuffer_enqueue` or `lfqueue_enq` and tells whether it succeeded; `get` is `RingBuffer_dequeue`
-- or `lfqueue_single_deq`. Each is one step for the threads. They are queues: a frame is put last or
-- refused, and the first one is taken unless there is none. `created` is what `RingBuffer_init` and
-- `lfqueue_init_mf` make, with the node pool filled, and `reset` is `lfqueue_destroy`.
pub record Queues : Type 1 where
  pub Store : Type 0
  pub items : Store → Items
  pub put : Place → Frame → Store → Bool × Store
  pub get : Place → Store → Option Frame × Store
  pub created : Store
  pub reset : Place → Store → Store
  pub created_empty : items created ≡ record { free = []; playback = []; recorded = [] }
  pub reset_empties : (p : Place) (s : Store) → items (reset p s) ≡ emptied p (items s)
  pub put_cases :
      (p : Place) (f : Frame) (s : Store)
      → (((put p f s).0 ≡ true) × (items (put p f s).1 ≡ add_last p f (items s)))
        ⊎ (((put p f s).0 ≡ false) × (items (put p f s).1 ≡ items s))
  pub get_cases :
      (p : Place) (s : Store)
      → (((get p s).0 ≡ none) × (held_at p (items s) ≡ []) × (items (get p s).1 ≡ items s))
        ⊎ ((f : Frame) × ((get p s).0 ≡ some f) × (items s ≡ add_first p f (items (get p s).1)))

-- What the buffers that a pointer, and a list of them, stands for weigh together.
abbrev pub weight : (ℕ → ℕ) → Frame → ℕ
weight v total_silence = 0
weight v (malloced a) = v a

unfoldable pub total : (ℕ → ℕ) → List Frame → ℕ
total v [] = 0
total v (f ∷ fs) = weight v f + total v fs

-- Two ways to weigh: the buffer `a` alone, and every buffer.
abbrev pub only : ℕ → ℕ → ℕ
only a b = if a == b then 1 else 0

abbrev pub each : ℕ → ℕ
each b = 1
