-- ===== src/Audio/Pools.antt =====
-- initFreeBuffers and clearAllQueues of src/audio.c, and the end of Audio_teardown: how the frame
-- buffers come into the pool, return to it, and are freed. The loops until NULL take a number of rounds.
pub mod Drain
pub mod Counts
pub mod Life
mod Tests
use bbg_vo_ip.Prelude.{
  ℕ, zero, suc, ◌+◌, ◌<◌, ◌≡◌, Bool, true, false, List, [], ◌∷◌, Option, none, some, length,
}
use bbg_vo_ip.Sys.{Result, ok, exits, fault, unfinished}
use bbg_vo_ip.Audio.Frames.{
  Frame, total_silence, malloced, Place, free_buffers, playback_queue, record_queue, Queues,
}

-- FREE_BUFFERS
abbrev pub free_buffer_count : ℕ
free_buffer_count = 300

module _ (q : Queues) where
  -- The `for` of `initFreeBuffers`: `malloc` gives a buffer that it has not given before.
  unfoldable pub add_buffers : ℕ → ℕ → q.Store → q.Store
  add_buffers zero a s = s
  add_buffers (suc left) a s = add_buffers left (suc a) (q.put free_buffers (malloced a) s).1

  -- `initFreeBuffers`
  abbrev pub init_free_buffers : q.Store
  init_free_buffers = add_buffers free_buffer_count 0 q.created

  -- A `while` of `clearAllQueues`
  unfoldable pub clear_queue : Place → ℕ → q.Store → Result q.Store
  clear_queue p zero s = unfinished
  clear_queue p (suc rounds) s =
      let (discard, s') = q.get p s in
      elim discard [ none ↦ ok s' | some f ↦ clear_queue p rounds (q.put free_buffers f s').1 ]

  -- `clearAllQueues`
  unfoldable pub clear_all_queues : ℕ → q.Store → Result q.Store
  unfolding clear_queue
  clear_all_queues rounds s = elim (clear_queue playback_queue rounds s) [
    | ok s' ↦ clear_queue record_queue rounds s'
    | exits code ↦ exits code
    | fault ↦ fault
    | unfinished ↦ unfinished
  ]

  -- The `while` of `Audio_teardown` that frees the buffers, the last one freed first in the list. The
  -- constant silence is nothing that `malloc` returned.
  unfoldable pub free_all : ℕ → List ℕ → q.Store → Result (List ℕ)
  free_all zero freed s = unfinished
  free_all (suc rounds) freed s =
      let (buf, s') = q.get free_buffers s in
      elim buf [
        | none ↦ ok freed
        | some total_silence ↦ fault
        | some (malloced a) ↦ free_all rounds (a ∷ freed) s'
      ]

  -- `Audio_teardown` from the queues on: which buffers are freed.
  unfoldable pub teardown_pools : ℕ → q.Store → Result (List ℕ)
  unfolding free_all
  teardown_pools rounds s = free_all rounds [] (q.reset record_queue (q.reset playback_queue s))
