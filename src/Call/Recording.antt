-- ===== src/Call/Recording.antt =====
-- flushRecordQueue of src/audio.c with sendDatagram of src/call.c as its consumer, as beginCall starts it.
use bbg_vo_ip.Prelude.{
  ℕ, ◌<◌, ◌^◌, ◌≡◌, refl, Bool, true, false, List, arith, length, inl, inr, subst,
}
use bbg_vo_ip.Prelude.Int.{ℤ}
use bbg_vo_ip.Sys.{Env, ok}
use bbg_vo_ip.World.{World}
use bbg_vo_ip.Audio.Frames.{total_silence, malloced, record_queue, Queues}
use bbg_vo_ip.Audio.Threads.{
  Fill, Flush, flush_test, flush_consume, flush_return, flush_done, Stream, Threads, move_fill,
  move_flush, move_stream, fill_test, fill_produced, fill_copy, fill_enqueue, fill_done,
  stream_idle, stream_played, stream_record, stream_copy, stream_enqueue,
}
use bbg_vo_ip.Call.Datagram.{AudioCallbackResult, audio_continue, audio_stop, send_datagram}
use bbg_vo_ip.Call.Sending.{SendReplies, send_datagram-ne-stop}

module _ (q : Queues) (frame_count : ℕ) (env : Env) (socket : ℤ) where
  -- A step of the module in a call: where the recording thread gets a result, `sendDatagram` returned it for
  -- some frame and world.
  pub data CallStep (t : Threads q.Store) : Threads q.Store → Type 0 where
    fills :
        {u : Threads q.Store} (result : AudioCallbackResult) (source : List ℕ)
        → move_fill q frame_count t.fill result source t ≡ ok u
        → CallStep t u
    flushes :
        {u : Threads q.Store} (rounds : ℕ) (frame : List ℕ) (w : World)
        (result : AudioCallbackResult)
        → length frame < 2 ^ 31
        → (send_datagram env socket rounds frame (length frame) w).0 ≡ ok result
        → move_flush q frame_count t.flush result t ≡ ok u
        → CallStep t u
    streams :
        {u : Threads q.Store} (input : List ℕ)
        → move_stream q frame_count t.stream input t ≡ ok u
        → CallStep t u
    stops : CallStep t (record t { stop_playback = true; stop_recording = true })

  pub data CallReach (t : Threads q.Store) : Threads q.Store → Type 0 where
    here : CallReach t t
    next : {u v : Threads q.Store} → CallReach t u → CallStep u v → CallReach t v

  -- The recording thread has left its loop only if it was told to, and holds no AUDIO_STOP.
  unfoldable pub goes_on : Flush → Bool → Bool
  goes_on flush_test stopped = true
  goes_on (flush_consume f) stopped = true
  goes_on (flush_return f audio_continue) stopped = true
  goes_on (flush_return f audio_stop) stopped = false
  goes_on flush_done stopped = stopped

  abbrev pub GoesOn : Threads q.Store → Type 0
  GoesOn t = goes_on t.flush t.stop_recording ≡ true

  module _ (replies : SendReplies env socket) where
    result-continue :
        (rounds : ℕ) (frame : List ℕ) (w : World) (result : AudioCallbackResult)
        → length frame < 2 ^ 31
        → (send_datagram env socket rounds frame (length frame) w).0 ≡ ok result
        → result ≡ audio_continue
    result-continue rounds frame w audio_continue small e = refl
    result-continue rounds frame w audio_stop small e =
        absurd (send_datagram-ne-stop env socket replies rounds frame w small e)

    GoesOn-flush :
        (pc : Flush) (t u : Threads q.Store)
        → t.flush ≡ pc
        → move_flush q frame_count pc audio_continue t ≡ ok u
        → GoesOn t
        → GoesOn u
    unfolding move_flush goes_on
    GoesOn-flush flush_test t u at e h = elim (q.get_cases record_queue t.store) [
      | inl (none_left, _, same) ↦ ground arith
      | inr (f, taken, before) ↦ ground arith
    ]
    GoesOn-flush (flush_consume f) t u at e h = ground arith
    GoesOn-flush (flush_return total_silence audio_continue) t u at e h = ground arith
    GoesOn-flush (flush_return total_silence audio_stop) t u at e h = absurd (ground arith)
    GoesOn-flush (flush_return (malloced b) audio_continue) t u at e h = ground arith
    GoesOn-flush (flush_return (malloced b) audio_stop) t u at e h = absurd (ground arith)
    GoesOn-flush flush_done t u at e h = ground arith

    GoesOn-fill :
        (pc : Fill) (result : AudioCallbackResult) (source : List ℕ) (t u : Threads q.Store)
        → move_fill q frame_count pc result source t ≡ ok u
        → GoesOn t
        → GoesOn u
    unfolding move_fill
    GoesOn-fill fill_test result source t u e h = ground arith
    GoesOn-fill (fill_produced frame) result source t u e h = ground arith
    GoesOn-fill (fill_copy frame total_silence) result source t u e h = absurd (ground arith)
    GoesOn-fill (fill_copy frame (malloced b)) result source t u e h = ground arith
    GoesOn-fill (fill_enqueue f) result source t u e h = ground arith
    GoesOn-fill fill_done result source t u e h = ground arith

    GoesOn-stream :
        (pc : Stream) (input : List ℕ) (t u : Threads q.Store)
        → move_stream q frame_count pc input t ≡ ok u
        → GoesOn t
        → GoesOn u
    unfolding move_stream
    GoesOn-stream stream_idle input t u e h = ground arith
    GoesOn-stream (stream_played f frame) input t u e h = ground arith
    GoesOn-stream (stream_record frame) input t u e h = ground arith
    GoesOn-stream (stream_copy total_silence frame) input t u e h = absurd (ground arith)
    GoesOn-stream (stream_copy (malloced b) frame) input t u e h = ground arith
    GoesOn-stream (stream_enqueue f) input t u e h = ground arith

    goes_on-stopped : (pc : Flush) (b : Bool) → goes_on pc b ≡ true → goes_on pc true ≡ true
    unfolding goes_on
    goes_on-stopped flush_test b h = refl
    goes_on-stopped (flush_consume f) b h = refl
    goes_on-stopped (flush_return f audio_continue) b h = refl
    goes_on-stopped (flush_return f audio_stop) b h = h
    goes_on-stopped flush_done b h = refl

    CallStep-GoesOn : {t u : Threads q.Store} → CallStep t u → GoesOn t → GoesOn u
    CallStep-GoesOn (fills result source e) h = GoesOn-fill _ result source _ _ e h
    CallStep-GoesOn {t} {u} (flushes rounds frame w result small sent e) h =
        let same = result-continue rounds frame w result small sent in
        GoesOn-flush _ t u refl (subst (λ r. move_flush q frame_count t.flush r t ≡ ok u) same e) h
    CallStep-GoesOn (streams input e) h = GoesOn-stream _ input _ _ e h
    CallStep-GoesOn {t} stops h = goes_on-stopped t.flush t.stop_recording h

    CallReach-GoesOn : {t u : Threads q.Store} → CallReach t u → GoesOn t → GoesOn u
    CallReach-GoesOn here h = h
    CallReach-GoesOn (next r s) h = CallStep-GoesOn s (CallReach-GoesOn r h)

    -- However `send` answers, -1 or a number of bytes that it was given, the thread that sends what was recorded
    -- leaves its loop only after it was told to: a peer that is gone does not end it, although
    -- `flushRecordQueue` is made to end on AUDIO_STOP.
    pub CallReach-stop_recording :
        {t u : Threads q.Store}
        → CallReach t u
        → t.flush ≡ flush_test
        → u.flush ≡ flush_done
        → u.stop_recording ≡ true
    unfolding goes_on
    CallReach-stop_recording {t} {u} r at left =
        let on : GoesOn t = ground arith in ground (arith, CallReach-GoesOn r on)
