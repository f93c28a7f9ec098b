-- ===== src/Audio/Threads/Exclusive.antt =====
-- The constant silence of src/audio.c is never written to and never taken for a free buffer.
use bbg_vo_ip.Prelude.{
  ℕ, ◌+◌, ◌≤◌, ◌≡◌, ◌≢◌, refl, inl, inr, List, [], ◌∷◌, ◌++◌, Option, none, some, arith,
}
use bbg_vo_ip.Sys.{ok, fault}
use bbg_vo_ip.Call.Datagram.{AudioCallbackResult}
use bbg_vo_ip.Audio.Frames.{
  Frame, total_silence, malloced, Place, free_buffers, playback_queue, record_queue, Items,
  add_last, add_first, Queues,
}
use bbg_vo_ip.Audio.Threads.{
  Fill, fill_test, fill_produced, fill_copy, fill_enqueue, fill_done, Flush, flush_test,
  flush_consume, flush_return, flush_done, Stream, stream_idle, stream_played, stream_record,
  stream_copy, stream_enqueue, Threads, move_fill, move_flush, move_stream, Step, fills, flushes,
  streams, stops, Reach, here, next,
}

-- Whether a pointer is the constant silence, and how many of a list are.
abbrev pub is_silence : Frame → ℕ
is_silence total_silence = 1
is_silence (malloced a) = 0

unfoldable pub silences : List Frame → ℕ
silences [] = 0
silences (f ∷ fs) = is_silence f + silences fs

pub silences-append :
    (fs : List Frame) (f : Frame) → silences (fs ++ f ∷ []) ≡ silences fs + is_silence f
unfolding silences
silences-append [] f = omega arith
silences-append (g ∷ fs) f = omega (arith, silences-append fs f)

-- The silence that is where a frame is going to be written to.
abbrev pub misplaced : Items → ℕ
misplaced it = silences it.free + silences it.playback

abbrev pub silence_for : Place → Frame → ℕ
silence_for free_buffers f = is_silence f
silence_for playback_queue f = is_silence f
silence_for record_queue f = 0

misplaced-add_last :
    (p : Place) (f : Frame) (it : Items)
    → misplaced (add_last p f it) ≡ misplaced it + silence_for p f
misplaced-add_last free_buffers f it = omega (arith, silences-append it.free f)
misplaced-add_last playback_queue f it = omega (arith, silences-append it.playback f)
misplaced-add_last record_queue f it = omega arith

misplaced-add_first :
    (p : Place) (f : Frame) (it : Items)
    → misplaced (add_first p f it) ≡ misplaced it + silence_for p f
unfolding silences
misplaced-add_first free_buffers f it = omega arith
misplaced-add_first playback_queue f it = omega arith
misplaced-add_first record_queue f it = omega arith

abbrev pub silence_taken : Place → Option Frame → ℕ
silence_taken p none = 0
silence_taken p (some f) = silence_for p f

abbrev pub silence_in_fill : Fill → ℕ
silence_in_fill (fill_copy frame f) = is_silence f
silence_in_fill (fill_enqueue f) = is_silence f
silence_in_fill _ = 0

abbrev pub silence_in_stream : Stream → ℕ
silence_in_stream (stream_played f input) = is_silence f
silence_in_stream (stream_copy f input) = is_silence f
silence_in_stream _ = 0

module _ (q : Queues) where
  pub misplaced-put :
      (p : Place) (f : Frame) (s : q.Store)
      → misplaced (q.items (q.put p f s).1) ≤ misplaced (q.items s) + silence_for p f
  misplaced-put p f s = ground (arith, q.put_cases p f s, misplaced-add_last p f (q.items s))

  pub misplaced-get :
      (p : Place) (s : q.Store)
      → misplaced (q.items (q.get p s).1) + silence_taken p (q.get p s).0 ≡ misplaced (q.items s)
  misplaced-get p s = elim (q.get_cases p s) [
    | inl (none_left, _, same) ↦ ground arith
    | inr (f, taken, before) ↦ ground (arith, misplaced-add_first p f (q.items (q.get p s).1))
  ]

  -- No silence is in the pool of free buffers, in the playback queue, or in the hands of a thread that writes to
  -- it or returns it to the pool.
  abbrev pub IsSound : Threads q.Store → Type 0
  IsSound t = misplaced (q.items t.store) + silence_in_fill t.fill + silence_in_stream t.stream ≡ 0

  module _ (frame_count : ℕ) where
    move_fill-IsSound :
        (pc : Fill) (result : AudioCallbackResult) (source : List ℕ) (t u : Threads q.Store)
        → t.fill ≡ pc
        → move_fill q frame_count pc result source t ≡ ok u
        → IsSound t
        → IsSound u
    unfolding move_fill
    move_fill-IsSound fill_test result source t u at e h = ground arith
    move_fill-IsSound (fill_produced frame) result source t u at e h =
        elim (q.get_cases free_buffers t.store) [
          | inl (none_left, _, same) ↦ ground (arith, misplaced-get free_buffers t.store)
          | inr (f, taken, before) ↦ ground (arith, misplaced-get free_buffers t.store)
        ]
    move_fill-IsSound (fill_copy frame total_silence) result source t u at e h = ground arith
    move_fill-IsSound (fill_copy frame (malloced b)) result source t u at e h = ground arith
    move_fill-IsSound (fill_enqueue f) result source t u at e h =
        ground (arith, misplaced-put playback_queue f t.store)
    move_fill-IsSound fill_done result source t u at e h = ground arith

    move_flush-IsSound :
        (pc : Flush) (result : AudioCallbackResult) (t u : Threads q.Store)
        → t.flush ≡ pc
        → move_flush q frame_count pc result t ≡ ok u
        → IsSound t
        → IsSound u
    unfolding move_flush
    move_flush-IsSound flush_test result t u at e h = elim (q.get_cases record_queue t.store) [
      | inl (none_left, _, same) ↦ ground (arith, misplaced-get record_queue t.store)
      | inr (f, taken, before) ↦ ground (arith, misplaced-get record_queue t.store)
    ]
    move_flush-IsSound (flush_consume f) result t u at e h = ground arith
    move_flush-IsSound (flush_return total_silence result') result t u at e h = ground arith
    move_flush-IsSound (flush_return (malloced b) result') result t u at e h =
        ground (arith, misplaced-put free_buffers (malloced b) t.store)
    move_flush-IsSound flush_done result t u at e h = ground arith

    move_stream-IsSound :
        (pc : Stream) (input : List ℕ) (t u : Threads q.Store)
        → t.stream ≡ pc
        → move_stream q frame_count pc input t ≡ ok u
        → IsSound t
        → IsSound u
    unfolding move_stream
    move_stream-IsSound stream_idle input t u at e h = elim (q.get_cases playback_queue t.store) [
      | inl (none_left, _, same) ↦ ground (arith, misplaced-get playback_queue t.store)
      | inr (f, taken, before) ↦ ground (arith, misplaced-get playback_queue t.store)
    ]
    move_stream-IsSound (stream_played f input) input' t u at e h =
        ground (arith, misplaced-put free_buffers f t.store)
    move_stream-IsSound (stream_record input) input' t u at e h =
        elim (q.get_cases free_buffers t.store) [
          | inl (none_left, _, same) ↦ ground (arith, misplaced-get free_buffers t.store)
          | inr (f, taken, before) ↦ ground (arith, misplaced-get free_buffers t.store)
        ]
    move_stream-IsSound (stream_copy total_silence input) input' t u at e h = ground arith
    move_stream-IsSound (stream_copy (malloced b) input) input' t u at e h = ground arith
    move_stream-IsSound (stream_enqueue f) input t u at e h =
        elim (q.put_cases record_queue f t.store) [
          | inl (done, added) ↦ ground (arith, misplaced-put record_queue f t.store)
          | inr (refused, same) ↦ absurd (ground arith)
        ]

    pub Step-IsSound : {t u : Threads q.Store} → Step q frame_count t u → IsSound t → IsSound u
    Step-IsSound (fills result source e) h = move_fill-IsSound _ result source _ _ refl e h
    Step-IsSound (flushes result e) h = move_flush-IsSound _ result _ _ refl e h
    Step-IsSound (streams input e) h = move_stream-IsSound _ input _ _ refl e h
    Step-IsSound stops h = h

    pub Reach-IsSound : {t u : Threads q.Store} → Reach q frame_count t u → IsSound t → IsSound u
    Reach-IsSound here h = h
    Reach-IsSound (next r s) h = Step-IsSound s (Reach-IsSound r h)

    move_fill-ne-fault :
        (pc : Fill) (result : AudioCallbackResult) (source : List ℕ) (t : Threads q.Store)
        → silence_in_fill pc ≡ 0
        → move_fill q frame_count pc result source t ≢ fault
    unfolding move_fill
    move_fill-ne-fault fill_test result source t h = ground arith
    move_fill-ne-fault (fill_produced frame) result source t h = ground arith
    move_fill-ne-fault (fill_copy frame total_silence) result source t h = absurd (omega arith)
    move_fill-ne-fault (fill_copy frame (malloced b)) result source t h = λ e. cc
    move_fill-ne-fault (fill_enqueue f) result source t h = λ e. cc
    move_fill-ne-fault fill_done result source t h = λ e. cc

    move_stream-ne-fault :
        (pc : Stream) (input : List ℕ) (t : Threads q.Store)
        → silence_in_stream pc ≡ 0
        → move_stream q frame_count pc input t ≢ fault
    unfolding move_stream
    move_stream-ne-fault stream_idle input t h = ground arith
    move_stream-ne-fault (stream_played f input) input' t h = λ e. cc
    move_stream-ne-fault (stream_record input) input' t h = ground arith
    move_stream-ne-fault (stream_copy total_silence input) input' t h = absurd (omega arith)
    move_stream-ne-fault (stream_copy (malloced b) input) input' t h = λ e. cc
    move_stream-ne-fault (stream_enqueue f) input t h = ground arith

    -- From a start in which no silence is where a buffer belongs, no interleaving comes to a state in which the
    -- next move of the playback thread or of the callback writes to the constant silence.
    pub Reach-ne-fault :
        {t u : Threads q.Store} (result : AudioCallbackResult) (source input : List ℕ)
        → Reach q frame_count t u
        → IsSound t
        → (move_fill q frame_count u.fill result source u ≢ fault)
          × (move_stream q frame_count u.stream input u ≢ fault)
    Reach-ne-fault {u} result source input r h =
        let sound = Reach-IsSound r h in
        (
          move_fill-ne-fault u.fill result source u (omega (arith, sound)),
          move_stream-ne-fault u.stream input u (omega (arith, sound)),
        )
