-- ===== src/Audio/Threads/Conserve.antt =====
-- No frame buffer of src/audio.c is lost or doubled by the three threads.
use bbg_vo_ip.Prelude.{
  ℕ, ◌+◌, ◌≡◌, refl, ◌∙◌, inl, inr, List, [], ◌∷◌, ◌++◌, Option, none, some, arith, if◌then◌else◌,
}
use bbg_vo_ip.Sys.{ok}
use bbg_vo_ip.Call.Datagram.{AudioCallbackResult}
use bbg_vo_ip.Audio.Frames.{
  Frame, total_silence, malloced, Place, free_buffers, playback_queue, record_queue, Items,
  add_last, add_first, Queues, weight, total,
}
use bbg_vo_ip.Audio.Threads.{
  Fill, fill_test, fill_produced, fill_copy, fill_enqueue, fill_done, Flush, flush_test,
  flush_consume, flush_return, flush_done, Stream, stream_idle, stream_played, stream_record,
  stream_copy, stream_enqueue, Threads, move_fill, move_flush, move_stream, Step, fills, flushes,
  streams, stops, Reach, here, next,
}

-- What a thread holds weighs.
abbrev pub held_by_fill : (ℕ → ℕ) → Fill → ℕ
held_by_fill v (fill_copy frame f) = weight v f
held_by_fill v (fill_enqueue f) = weight v f
held_by_fill v _ = 0

abbrev pub held_by_flush : (ℕ → ℕ) → Flush → ℕ
held_by_flush v (flush_consume f) = weight v f
held_by_flush v (flush_return f result) = weight v f
held_by_flush v _ = 0

abbrev pub held_by_stream : (ℕ → ℕ) → Stream → ℕ
held_by_stream v (stream_played f input) = weight v f
held_by_stream v (stream_copy f input) = weight v f
held_by_stream v (stream_enqueue f) = weight v f
held_by_stream v _ = 0

-- And what the containers hold.
abbrev pub stored : (ℕ → ℕ) → Items → ℕ
stored v it = total v it.free + total v it.playback + total v it.recorded

abbrev pub is_taken : (ℕ → ℕ) → Option Frame → ℕ
is_taken v none = 0
is_taken v (some f) = weight v f

pub total-append :
    (v : ℕ → ℕ) (fs : List Frame) (f : Frame) → total v (fs ++ f ∷ []) ≡ total v fs + weight v f
unfolding total
total-append v [] f = omega arith
total-append v (g ∷ fs) f = omega (arith, total-append v fs f)

stored-add_last :
    (v : ℕ → ℕ) (p : Place) (f : Frame) (it : Items)
    → stored v (add_last p f it) ≡ stored v it + weight v f
stored-add_last v free_buffers f it = omega (arith, total-append v it.free f)
stored-add_last v playback_queue f it = omega (arith, total-append v it.playback f)
stored-add_last v record_queue f it = omega (arith, total-append v it.recorded f)

stored-add_first :
    (v : ℕ → ℕ) (p : Place) (f : Frame) (it : Items)
    → stored v (add_first p f it) ≡ stored v it + weight v f
unfolding total
stored-add_first v free_buffers f it = omega arith
stored-add_first v playback_queue f it = omega arith
stored-add_first v record_queue f it = omega arith

module _ (q : Queues) where
  -- A frame put is in a container or was refused.
  pub stored-put :
      (v : ℕ → ℕ) (p : Place) (f : Frame) (s : q.Store)
      → stored v (q.items (q.put p f s).1) + (if (q.put p f s).0 then 0 else weight v f)
        ≡ stored v (q.items s) + weight v f
  stored-put v p f s = ground (arith, q.put_cases p f s, stored-add_last v p f (q.items s))

  -- A frame taken is no longer in a container.
  pub stored-get :
      (v : ℕ → ℕ) (p : Place) (s : q.Store)
      → stored v (q.items (q.get p s).1) + is_taken v (q.get p s).0 ≡ stored v (q.items s)
  stored-get v p s = elim (q.get_cases p s) [
    | inl (none_left, _, same) ↦ ground arith
    | inr (f, taken, before) ↦ ground (arith, stored-add_first v p f (q.items (q.get p s).1))
  ]

  -- What all buffers weigh, wherever they are.
  abbrev pub places : (ℕ → ℕ) → Threads q.Store → ℕ
  places v t =
      stored v (q.items t.store)
      + (held_by_fill v t.fill + held_by_flush v t.flush + held_by_stream v t.stream)
      + total v t.leaked

  module _ (frame_count : ℕ) (v : ℕ → ℕ) where
    places-move_fill :
        (pc : Fill) (result : AudioCallbackResult) (source : List ℕ) (t u : Threads q.Store)
        → t.fill ≡ pc
        → move_fill q frame_count pc result source t ≡ ok u
        → places v u ≡ places v t
    unfolding move_fill total
    places-move_fill fill_test result source t u at e = ground arith
    places-move_fill (fill_produced frame) result source t u at e =
        elim (q.get_cases free_buffers t.store) [
          | inl (none_left, _, same) ↦ ground (arith, stored-get v free_buffers t.store)
          | inr (f, taken, before) ↦ ground (arith, stored-get v free_buffers t.store)
        ]
    places-move_fill (fill_copy frame total_silence) result source t u at e = ground arith
    places-move_fill (fill_copy frame (malloced b)) result source t u at e = ground arith
    places-move_fill (fill_enqueue f) result source t u at e =
        ground (arith, stored-put v playback_queue f t.store)
    places-move_fill fill_done result source t u at e = ground arith

    places-move_flush :
        (pc : Flush) (result : AudioCallbackResult) (t u : Threads q.Store)
        → t.flush ≡ pc
        → move_flush q frame_count pc result t ≡ ok u
        → places v u ≡ places v t
    unfolding move_flush total
    places-move_flush flush_test result t u at e = elim (q.get_cases record_queue t.store) [
      | inl (none_left, _, same) ↦ ground (arith, stored-get v record_queue t.store)
      | inr (f, taken, before) ↦ ground (arith, stored-get v record_queue t.store)
    ]
    places-move_flush (flush_consume f) result t u at e = ground arith
    places-move_flush (flush_return total_silence result') result t u at e = ground arith
    places-move_flush (flush_return (malloced b) result') result t u at e =
        ground (arith, stored-put v free_buffers (malloced b) t.store)
    places-move_flush flush_done result t u at e = ground arith

    places-move_stream :
        (pc : Stream) (input : List ℕ) (t u : Threads q.Store)
        → t.stream ≡ pc
        → move_stream q frame_count pc input t ≡ ok u
        → places v u ≡ places v t
    unfolding move_stream total
    places-move_stream stream_idle input t u at e = elim (q.get_cases playback_queue t.store) [
      | inl (none_left, _, same) ↦ ground (arith, stored-get v playback_queue t.store)
      | inr (f, taken, before) ↦ ground (arith, stored-get v playback_queue t.store)
    ]
    places-move_stream (stream_played f input) input' t u at e =
        ground (arith, stored-put v free_buffers f t.store)
    places-move_stream (stream_record input) input' t u at e =
        elim (q.get_cases free_buffers t.store) [
          | inl (none_left, _, same) ↦ ground (arith, stored-get v free_buffers t.store)
          | inr (f, taken, before) ↦ ground (arith, stored-get v free_buffers t.store)
        ]
    places-move_stream (stream_copy total_silence input) input' t u at e = ground arith
    places-move_stream (stream_copy (malloced b) input) input' t u at e = ground arith
    places-move_stream (stream_enqueue f) input t u at e =
        elim (q.put_cases record_queue f t.store) [
          | inl (done, added) ↦ ground (arith, stored-put v record_queue f t.store)
          | inr (refused, same) ↦ absurd (ground arith)
        ]

    pub places-Step : {t u : Threads q.Store} → Step q frame_count t u → places v u ≡ places v t
    places-Step (fills result source e) = places-move_fill _ result source _ _ refl e
    places-Step (flushes result e) = places-move_flush _ result _ _ refl e
    places-Step (streams input e) = places-move_stream _ input _ _ refl e
    places-Step stops = refl

    -- However the buffers are weighed, in every interleaving of the two threads and the callback those in the
    -- containers, in the hands of a thread and leaked by a refused `put` weigh together what they weighed at
    -- the start: weighing one buffer alone, none is lost or doubled.
    pub places-Reach : {t u : Threads q.Store} → Reach q frame_count t u → places v u ≡ places v t
    places-Reach here = refl
    places-Reach (next r s) = places-Step s ∙ places-Reach r
