-- ===== src/Audio/Threads/Wait.antt =====
-- Whether the wait of Audio_start in src/audio.c for the playback queue comes to an end.
use bbg_vo_ip.Prelude.{ℕ, zero, suc, ◌≤◌, ◌≡◌, refl, inl, inr, List, ◌∷◌, arith, length}
use bbg_vo_ip.Sys.{ok, Env, Log, playback_size, unfinished}
use bbg_vo_ip.Prelude.Int.{pos}
use bbg_vo_ip.World.{World}
use bbg_vo_ip.Call.Datagram.{AudioCallbackResult}
use bbg_vo_ip.Audio.Frames.{
  total_silence, malloced, free_buffers, playback_queue, record_queue, Queues,
}
use bbg_vo_ip.Audio.Threads.{
  Fill, fill_test, fill_produced, fill_copy, fill_enqueue, fill_done, Flush, flush_test,
  flush_consume, flush_return, flush_done, Stream, stream_idle, stream_played, stream_record,
  stream_copy, stream_enqueue, Threads, move_fill, move_flush, move_stream, Step, fills, flushes,
  streams, stops, Reach, here, next,
}
use bbg_vo_ip.Audio.Control.{buffer_playback_queue}

module _ (q : Queues) (frame_count : ℕ) where
  -- `fillPlaybackQueue` has left its loop, and the playback queue holds at most `n` frames.
  abbrev pub IsDry : ℕ → Threads q.Store → Type 0
  IsDry n t = (t.fill ≡ fill_done) × (length (q.items t.store).playback ≤ n)

  IsDry-flush :
      (n : ℕ) (pc : Flush) (result : AudioCallbackResult) (t u : Threads q.Store)
      → move_flush q frame_count pc result t ≡ ok u
      → IsDry n t
      → IsDry n u
  unfolding move_flush
  IsDry-flush n flush_test result t u e h = elim (q.get_cases record_queue t.store) [
    | inl (none_left, _, same) ↦ ground arith
    | inr (f, taken, before) ↦ ground arith
  ]
  IsDry-flush n (flush_consume f) result t u e h = ground arith
  IsDry-flush n (flush_return total_silence result') result t u e h = ground arith
  IsDry-flush n (flush_return (malloced b) result') result t u e h =
      elim (q.put_cases free_buffers (malloced b) t.store) [
        | inl (done, added) ↦ ground arith
        | inr (refused, same) ↦ ground arith
      ]
  IsDry-flush n flush_done result t u e h = ground arith

  IsDry-stream :
      (n : ℕ) (pc : Stream) (input : List ℕ) (t u : Threads q.Store)
      → move_stream q frame_count pc input t ≡ ok u
      → IsDry n t
      → IsDry n u
  unfolding move_stream
  IsDry-stream n stream_idle input t u e h = elim (q.get_cases playback_queue t.store) [
    | inl (none_left, _, same) ↦ ground arith
    | inr (f, taken, before) ↦ ground arith
  ]
  IsDry-stream n (stream_played f input) input' t u e h =
      elim (q.put_cases free_buffers f t.store) [
        | inl (done, added) ↦ ground arith
        | inr (refused, same) ↦ ground arith
      ]
  IsDry-stream n (stream_record input) input' t u e h = elim (q.get_cases free_buffers t.store) [
    | inl (none_left, _, same) ↦ ground arith
    | inr (f, taken, before) ↦ ground arith
  ]
  IsDry-stream n (stream_copy total_silence input) input' t u e h = ground arith
  IsDry-stream n (stream_copy (malloced b) input) input' t u e h = ground arith
  IsDry-stream n (stream_enqueue f) input t u e h = elim (q.put_cases record_queue f t.store) [
    | inl (done, added) ↦ ground arith
    | inr (refused, same) ↦ absurd (ground arith)
  ]

  IsDry-fill :
      (n : ℕ) (pc : Fill) (result : AudioCallbackResult) (source : List ℕ) (t u : Threads q.Store)
      → t.fill ≡ pc
      → move_fill q frame_count pc result source t ≡ ok u
      → IsDry n t
      → IsDry n u
  unfolding move_fill
  IsDry-fill n fill_done result source t u at e h = ground arith
  IsDry-fill n fill_test result source t u at e h = absurd (ground arith)
  IsDry-fill n (fill_produced frame) result source t u at e h = absurd (ground arith)
  IsDry-fill n (fill_copy frame f) result source t u at e h = absurd (ground arith)
  IsDry-fill n (fill_enqueue f) result source t u at e h = absurd (ground arith)

  Step-IsDry : {t u : Threads q.Store} (n : ℕ) → Step q frame_count t u → IsDry n t → IsDry n u
  Step-IsDry n (fills result source e) h = IsDry-fill n _ result source _ _ refl e h
  Step-IsDry n (flushes result e) h = IsDry-flush n _ result _ _ e h
  Step-IsDry n (streams input e) h = IsDry-stream n _ input _ _ e h
  Step-IsDry n stops h = h

  -- Once `fillPlaybackQueue` has left its loop, as it does when the peer hangs up, the playback queue never
  -- gets longer: if it holds fewer frames than `Audio_start` waits for, it always will.
  pub Reach-IsDry :
      {t u : Threads q.Store} (n : ℕ) → Reach q frame_count t u → IsDry n t → IsDry n u
  Reach-IsDry n here h = h
  Reach-IsDry n (next r s) h = Step-IsDry n s (Reach-IsDry n r h)

  -- The world after `Audio_start` looked at the length of the queue.
  abbrev looked : Env → World → World
  looked env w = record w { log = (playback_size, env.result w.log playback_size) ∷ w.log }

  -- Each time `Audio_start` looks at the queue's length, it is that of a state which the threads can reach.
  abbrev pub Follows : Env → Threads q.Store → Type 0
  Follows env t =
      (log : Log)
      → (u : Threads q.Store) × Reach q frame_count t u
        × (env.result log playback_size ≡ pos (length (q.items u.store).playback))

  -- If `fillPlaybackQueue` has left its loop while the playback queue held fewer than 20 frames, as it does when
  -- the peer hangs up early, the wait of `Audio_start` for the queue never ends, however long it looks.
  pub buffer_playback_queue-IsDry :
      (env : Env) (t : Threads q.Store)
      → Follows env t
      → IsDry 19 t
      → (rounds : ℕ) (w : World) → (buffer_playback_queue env rounds w).0 ≡ unfinished
  unfolding buffer_playback_queue
  buffer_playback_queue-IsDry env t follows dry zero w = refl
  buffer_playback_queue-IsDry env t follows dry (suc rounds) w =
      let (u, r, size) = follows w.log in
      let (_, short) = Reach-IsDry 19 r dry in
      ground
        (arith, size, short, buffer_playback_queue-IsDry env t follows dry rounds (looked env w))
