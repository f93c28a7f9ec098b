-- ===== src/Audio/Threads/Playing.antt =====
-- Frames are played by src/audio.c in the order in which they were queued.
use bbg_vo_ip.Prelude.{ℕ, ◌≤◌, ◌≡◌, refl, inl, inr, List, [], ◌∷◌, ◌++◌, arith, take, overwrite}
use bbg_vo_ip.Sys.{ok}
use bbg_vo_ip.Call.Datagram.{AudioCallbackResult}
use bbg_vo_ip.Audio.Frames.{
  total_silence, malloced, free_buffers, playback_queue, record_queue, Queues, only,
}
use bbg_vo_ip.Audio.Threads.{
  Fill, fill_test, fill_produced, fill_copy, fill_enqueue, fill_done, Flush, flush_test,
  flush_consume, flush_return, flush_done, Stream, stream_idle, stream_played, stream_record,
  stream_copy, stream_enqueue, Threads, move_fill, move_flush, move_stream, Step, fills, flushes,
  streams, stops, Reach, here, next, samples,
}
use bbg_vo_ip.Audio.Threads.Conserve.{places, places-Reach}
use bbg_vo_ip.Audio.Threads.Views.{frames, frames-append, frames-write}
use mathlib.Core.List.{append_assoc}

module _ (q : Queues) (frame_count : ℕ) where
  -- What was queued to be played was played or is in the queue, in this order.
  abbrev pub PlaysInOrder : Threads q.Store → Type 0
  PlaysInOrder t =
      t.queued ≡ t.played ++ frames (take frame_count) t.memory (q.items t.store).playback

  move_fill-PlaysInOrder :
      (pc : Fill) (result : AudioCallbackResult) (source : List ℕ) (t u : Threads q.Store)
      → t.fill ≡ pc
      → ((a : ℕ) → places q (only a) t ≤ 1)
      → move_fill q frame_count pc result source t ≡ ok u
      → PlaysInOrder t
      → PlaysInOrder u
  unfolding move_fill
  move_fill-PlaysInOrder fill_test result source t u at sole e h = ground arith
  move_fill-PlaysInOrder (fill_produced frame) result source t u at sole e h =
      elim (q.get_cases free_buffers t.store) [
        | inl (none_left, _, same) ↦ ground arith
        | inr (f, taken, before) ↦ ground arith
      ]
  move_fill-PlaysInOrder (fill_copy frame total_silence) result source t u at sole e h =
      ground arith
  move_fill-PlaysInOrder (fill_copy frame (malloced b)) result source t u at sole e h =
      ground
        (arith, sole b, frames-write (take frame_count) t.memory b frame (q.items t.store).playback)
  move_fill-PlaysInOrder (fill_enqueue f) result source t u at sole e h =
      elim (q.put_cases playback_queue f t.store) [
        | inl (done, added) ↦ ground (
          arith,
          frames-append (take frame_count) t.memory (q.items t.store).playback f,
          append_assoc t.played (frames (take frame_count) t.memory (q.items t.store).playback)
              (take frame_count (samples t.memory f) ∷ []),
        )
        | inr (refused, same) ↦ ground arith
      ]
  move_fill-PlaysInOrder fill_done result source t u at sole e h = ground arith

  move_flush-PlaysInOrder :
      (pc : Flush) (result : AudioCallbackResult) (t u : Threads q.Store)
      → t.flush ≡ pc
      → move_flush q frame_count pc result t ≡ ok u
      → PlaysInOrder t
      → PlaysInOrder u
  unfolding move_flush
  move_flush-PlaysInOrder flush_test result t u at e h = elim (q.get_cases record_queue t.store) [
    | inl (none_left, _, same) ↦ ground arith
    | inr (f, taken, before) ↦ ground arith
  ]
  move_flush-PlaysInOrder (flush_consume f) result t u at e h = ground arith
  move_flush-PlaysInOrder (flush_return total_silence result') result t u at e h = ground arith
  move_flush-PlaysInOrder (flush_return (malloced b) result') result t u at e h =
      elim (q.put_cases free_buffers (malloced b) t.store) [
        | inl (done, added) ↦ ground arith
        | inr (refused, same) ↦ ground arith
      ]
  move_flush-PlaysInOrder flush_done result t u at e h = ground arith

  move_stream-PlaysInOrder :
      (pc : Stream) (input : List ℕ) (t u : Threads q.Store)
      → t.stream ≡ pc
      → ((a : ℕ) → places q (only a) t ≤ 1)
      → move_stream q frame_count pc input t ≡ ok u
      → PlaysInOrder t
      → PlaysInOrder u
  unfolding move_stream frames
  move_stream-PlaysInOrder stream_idle input t u at sole e h =
      elim (q.get_cases playback_queue t.store) [
        | inl (none_left, _, same) ↦ ground arith
        | inr (f, taken, before) ↦ ground (
          arith,
          append_assoc t.played (take frame_count (samples t.memory f) ∷ []) (
              frames (take frame_count) t.memory
                (q.items (q.get playback_queue t.store).1).playback),
        )
      ]
  move_stream-PlaysInOrder (stream_played f input) input' t u at sole e h =
      elim (q.put_cases free_buffers f t.store) [
        | inl (done, added) ↦ ground arith
        | inr (refused, same) ↦ ground arith
      ]
  move_stream-PlaysInOrder (stream_record input) input' t u at sole e h =
      elim (q.get_cases free_buffers t.store) [
        | inl (none_left, _, same) ↦ ground arith
        | inr (f, taken, before) ↦ ground arith
      ]
  move_stream-PlaysInOrder (stream_copy total_silence input) input' t u at sole e h = ground arith
  move_stream-PlaysInOrder (stream_copy (malloced b) input) input' t u at sole e h = ground (
    arith,
    sole b,
    frames-write (take frame_count) t.memory b (overwrite (take frame_count input) (t.memory b))
        (q.items t.store).playback,
  )
  move_stream-PlaysInOrder (stream_enqueue f) input t u at sole e h =
      elim (q.put_cases record_queue f t.store) [
        | inl (done, added) ↦ ground arith
        | inr (refused, same) ↦ absurd (ground arith)
      ]

  Step-PlaysInOrder :
      {t u : Threads q.Store}
      → Step q frame_count t u
      → ((a : ℕ) → places q (only a) t ≤ 1)
      → PlaysInOrder t
      → PlaysInOrder u
  Step-PlaysInOrder (fills result source e) sole h =
      move_fill-PlaysInOrder _ result source _ _ refl sole e h
  Step-PlaysInOrder (flushes result e) sole h = move_flush-PlaysInOrder _ result _ _ refl e h
  Step-PlaysInOrder (streams input e) sole h = move_stream-PlaysInOrder _ input _ _ refl sole e h
  Step-PlaysInOrder stops sole h = h

  -- If at the start no buffer is in two places, and the frames played followed by those in the queue are those
  -- queued to be played, then the latter holds after every interleaving: frames are played in
  -- their order and unchanged, and although the buffers are used again and again, none is written to before it
  -- was played.
  pub Reach-PlaysInOrder :
      {t u : Threads q.Store}
      → Reach q frame_count t u
      → ((a : ℕ) → places q (only a) t ≤ 1)
      → PlaysInOrder t
      → PlaysInOrder u
  Reach-PlaysInOrder here sole h = h
  Reach-PlaysInOrder (next r s) sole h =
      Step-PlaysInOrder s (λ a. omega (arith, places-Reach q frame_count (only a) r, sole a))
        (Reach-PlaysInOrder r sole h)
