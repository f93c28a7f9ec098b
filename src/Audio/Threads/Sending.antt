-- ===== src/Audio/Threads/Sending.antt =====
-- Frames are handed to the sender by src/audio.c in the order in which they were recorded.
use bbg_vo_ip.Prelude.{
  ℕ, ◌+◌, ◌≤◌, ◌≡◌, refl, ap, inl, inr, List, [], ◌∷◌, ◌++◌, arith, take, overwrite,
}
use bbg_vo_ip.Sys.{ok}
use bbg_vo_ip.Call.Datagram.{AudioCallbackResult}
use bbg_vo_ip.Audio.Frames.{
  total_silence, malloced, free_buffers, playback_queue, record_queue, Queues, total, only,
}
use bbg_vo_ip.Audio.Threads.{
  Fill, fill_test, fill_produced, fill_copy, fill_enqueue, fill_done, Flush, flush_test,
  flush_consume, flush_return, flush_done, Stream, stream_idle, stream_played, stream_record,
  stream_copy, stream_enqueue, Threads, move_fill, move_flush, move_stream, Step, fills, flushes,
  streams, stops, Reach, here, next, samples, write,
}
use bbg_vo_ip.Audio.Threads.Conserve.{places, places-Reach, held_by_flush}
use bbg_vo_ip.Audio.Threads.Views.{frames, frames-append, frames-write, samples-write}
use mathlib.Core.List.{append_assoc}

module _ (q : Queues) (frame_count : ℕ) where
  -- The frame in the hands of `flushRecordQueue` before it is handed out.
  abbrev in_hand : (ℕ → List ℕ) → Flush → List (List ℕ)
  in_hand memory (flush_consume f) = samples memory f ∷ []
  in_hand memory _ = []

  abbrev whole : List ℕ → List ℕ
  whole frame = frame

  -- What was queued to be sent was handed to the sender, is about to be, or is in the queue, in this order.
  abbrev pub SendsInOrder : Threads q.Store → Type 0
  SendsInOrder t =
      t.recorded
      ≡ t.sent ++ (in_hand t.memory t.flush ++ frames whole t.memory (q.items t.store).recorded)

  move_flush-SendsInOrder :
      (pc : Flush) (result : AudioCallbackResult) (t u : Threads q.Store)
      → t.flush ≡ pc
      → move_flush q frame_count pc result t ≡ ok u
      → SendsInOrder t
      → SendsInOrder u
  unfolding move_flush frames
  move_flush-SendsInOrder flush_test result t u at e h = elim (q.get_cases record_queue t.store) [
    | inl (none_left, _, same) ↦ ground arith
    | inr (f, taken, before) ↦ ground arith
  ]
  move_flush-SendsInOrder (flush_consume f) result t u at e h = ground (
    arith,
    append_assoc t.sent (samples t.memory f ∷ [])
        (frames whole t.memory (q.items t.store).recorded),
  )
  move_flush-SendsInOrder (flush_return total_silence result') result t u at e h = ground arith
  move_flush-SendsInOrder (flush_return (malloced b) result') result t u at e h =
      elim (q.put_cases free_buffers (malloced b) t.store) [
        | inl (done, added) ↦ ground arith
        | inr (refused, same) ↦ ground arith
      ]
  move_flush-SendsInOrder flush_done result t u at e h = ground arith

  in_hand-write :
      (memory : ℕ → List ℕ) (a : ℕ) (x : List ℕ) (pc : Flush)
      → held_by_flush (only a) pc ≡ 0
      → in_hand (write a x memory) pc ≡ in_hand memory pc
  in_hand-write memory a x (flush_consume f) h = ap (λ l. l ∷ []) (samples-write memory a x f h)
  in_hand-write memory a x flush_test h = refl
  in_hand-write memory a x (flush_return f result) h = refl
  in_hand-write memory a x flush_done h = refl

  -- A write to a buffer that only another thread holds.
  SendsInOrder-write :
      (a : ℕ) (x : List ℕ) (t : Threads q.Store)
      → total (only a) (q.items t.store).recorded + held_by_flush (only a) t.flush ≡ 0
      → SendsInOrder t
      → t.recorded
        ≡ t.sent
          ++ (in_hand (write a x t.memory) t.flush
              ++ frames whole (write a x t.memory) (q.items t.store).recorded)
  SendsInOrder-write a x t alone h =
      rw
        (
          in_hand-write t.memory a x t.flush (omega (arith, alone)),
          frames-write whole t.memory a x (q.items t.store).recorded (omega (arith, alone)),
        )
        h

  move_fill-SendsInOrder :
      (pc : Fill) (result : AudioCallbackResult) (source : List ℕ) (t u : Threads q.Store)
      → t.fill ≡ pc
      → ((a : ℕ) → places q (only a) t ≤ 1)
      → move_fill q frame_count pc result source t ≡ ok u
      → SendsInOrder t
      → SendsInOrder u
  unfolding move_fill
  move_fill-SendsInOrder fill_test result source t u at sole e h = ground arith
  move_fill-SendsInOrder (fill_produced frame) result source t u at sole e h =
      elim (q.get_cases free_buffers t.store) [
        | inl (none_left, _, same) ↦ ground arith
        | inr (f, taken, before) ↦ ground arith
      ]
  move_fill-SendsInOrder (fill_copy frame total_silence) result source t u at sole e h =
      ground arith
  move_fill-SendsInOrder (fill_copy frame (malloced b)) result source t u at sole e h =
      ground (arith, sole b, SendsInOrder-write b frame t)
  move_fill-SendsInOrder (fill_enqueue f) result source t u at sole e h =
      elim (q.put_cases playback_queue f t.store) [
        | inl (done, added) ↦ ground arith
        | inr (refused, same) ↦ ground arith
      ]
  move_fill-SendsInOrder fill_done result source t u at sole e h = ground arith

  move_stream-SendsInOrder :
      (pc : Stream) (input : List ℕ) (t u : Threads q.Store)
      → t.stream ≡ pc
      → ((a : ℕ) → places q (only a) t ≤ 1)
      → move_stream q frame_count pc input t ≡ ok u
      → SendsInOrder t
      → SendsInOrder u
  unfolding move_stream
  move_stream-SendsInOrder stream_idle input t u at sole e h =
      elim (q.get_cases playback_queue t.store) [
        | inl (none_left, _, same) ↦ ground arith
        | inr (f, taken, before) ↦ ground arith
      ]
  move_stream-SendsInOrder (stream_played f input) input' t u at sole e h =
      elim (q.put_cases free_buffers f t.store) [
        | inl (done, added) ↦ ground arith
        | inr (refused, same) ↦ ground arith
      ]
  move_stream-SendsInOrder (stream_record input) input' t u at sole e h =
      elim (q.get_cases free_buffers t.store) [
        | inl (none_left, _, same) ↦ ground arith
        | inr (f, taken, before) ↦ ground arith
      ]
  move_stream-SendsInOrder (stream_copy total_silence input) input' t u at sole e h = ground arith
  move_stream-SendsInOrder (stream_copy (malloced b) input) input' t u at sole e h =
      ground
        (arith, sole b, SendsInOrder-write b (overwrite (take frame_count input) (t.memory b)) t)
  move_stream-SendsInOrder (stream_enqueue f) input t u at sole e h =
      elim (q.put_cases record_queue f t.store) [
        | inl (done, added) ↦ ground (
          arith,
          frames-append whole t.memory (q.items t.store).recorded f,
          append_assoc t.sent
              (in_hand t.memory t.flush ++ frames whole t.memory (q.items t.store).recorded)
              (samples t.memory f ∷ []),
          append_assoc (in_hand t.memory t.flush) (frames whole t.memory (q.items t.store).recorded)
              (samples t.memory f ∷ []),
        )
        | inr (refused, same) ↦ absurd (ground arith)
      ]

  Step-SendsInOrder :
      {t u : Threads q.Store}
      → Step q frame_count t u
      → ((a : ℕ) → places q (only a) t ≤ 1)
      → SendsInOrder t
      → SendsInOrder u
  Step-SendsInOrder (fills result source e) sole h =
      move_fill-SendsInOrder _ result source _ _ refl sole e h
  Step-SendsInOrder (flushes result e) sole h = move_flush-SendsInOrder _ result _ _ refl e h
  Step-SendsInOrder (streams input e) sole h = move_stream-SendsInOrder _ input _ _ refl sole e h
  Step-SendsInOrder stops sole h = h

  -- If at the start no buffer is in two places, and the frames handed to the sender, the one in the hands of
  -- `flushRecordQueue` and those in the queue are, in this order, those recorded, then the latter holds
  -- after every interleaving: what was recorded is sent in its order and unchanged.
  pub Reach-SendsInOrder :
      {t u : Threads q.Store}
      → Reach q frame_count t u
      → ((a : ℕ) → places q (only a) t ≤ 1)
      → SendsInOrder t
      → SendsInOrder u
  Reach-SendsInOrder here sole h = h
  Reach-SendsInOrder (next r s) sole h =
      Step-SendsInOrder s (λ a. omega (arith, places-Reach q frame_count (only a) r, sole a))
        (Reach-SendsInOrder r sole h)
