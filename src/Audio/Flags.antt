-- ===== src/Audio/Flags.antt =====
-- What the results of Audio_start and Audio_stop of src/audio.c say of the module's flags and threads.
use bbg_vo_ip.Prelude.{ℕ, zero, suc, ◌≡◌, refl, ◌⊎◌, Bool, true, false, none, some, arith, ◌∷◌, ◌+◌}
use bbg_vo_ip.Prelude.Int.{ℤ}
use bbg_vo_ip.Sys.{
  Env, Call, times, create, join, fill_playback, flush_record, playback_size, pa_realtime, ok,
  pa_open,
}
use bbg_vo_ip.World.{World, call, ◌>>◌}
use bbg_vo_ip.Audio.Control.{
  AudioResult, audio_ok, audio_not_initialized, audio_open_stream_fail, audio_close_stream_fail,
  audio_already_started, audio_already_stopped, start, stop, buffer_playback_queue, run_stream,
  start_fresh, set_audio,
}

-- Tests for the calls that make and join the two audio threads.
abbrev pub makes_fill : Call → Bool
makes_fill (create fill_playback) = true
makes_fill _ = false

abbrev pub makes_flush : Call → Bool
makes_flush (create flush_record) = true
makes_flush _ = false

abbrev pub joins_fill : Call → Bool
joins_fill (join fill_playback) = true
joins_fill _ = false

abbrev pub joins_flush : Call → Bool
joins_flush (join flush_record) = true
joins_flush _ = false

module _ (env : Env) where
  -- Waiting for the queue touches nothing but the log.
  buffer_playback_queue-audio :
      (rounds : ℕ) (w : World) → (buffer_playback_queue env rounds w).1.audio ≡ w.audio
  unfolding buffer_playback_queue
  buffer_playback_queue-audio zero w = refl
  buffer_playback_queue-audio (suc rounds) w = ground (
    arith,
    buffer_playback_queue-audio rounds
        (record w { log = (playback_size, env.result w.log playback_size) ∷ w.log }),
  )

  -- It makes and joins no thread.
  pub buffer_playback_queue-times :
      (p : Call → Bool) (rounds : ℕ) (w : World)
      → p playback_size ≡ false
      → times p (buffer_playback_queue env rounds w).1.log ≡ times p w.log
  unfolding buffer_playback_queue times
  buffer_playback_queue-times p zero w h = refl
  buffer_playback_queue-times p (suc rounds) w h = ground (
    arith,
    buffer_playback_queue-times p rounds
        (record w { log = (playback_size, env.result w.log playback_size) ∷ w.log }) h,
  )

  -- The world in which `Audio_start` waits for the queue, from the one with the opened stream.
  abbrev pub waiting : World → World
  waiting w = ((call env pa_realtime >> call env (create fill_playback)) w).1

  started-run_stream :
      (rounds : ℕ) (w : World)
      → w.audio.started ≡ true
      → (run_stream env rounds w).1.audio.started ≡ true
  unfolding run_stream
  started-run_stream rounds w h = ground (arith, buffer_playback_queue-audio rounds (waiting w))

  -- The world with the opened stream.
  abbrev pub opened : ℤ → World → World
  opened connection w =
      ((set_audio (λ a. record a {
        callback_data = some connection;
        stop_recording = false;
        stop_playback = false;
        started = true;
      })
          >> call env pa_open)
        w).1

  -- Whatever `Audio_start` answers, and also if it never comes back from its wait, the module counts as
  -- started afterwards.
  pub started-start :
      (rounds : ℕ) (connection : ℤ) (w : World)
      → (start env rounds connection w).1.audio.started ≡ true
  unfolding start start_fresh
  started-start rounds connection w =
      ground (arith, started-run_stream rounds (opened connection w))

  callback_data-run_stream :
      (rounds : ℕ) (w : World)
      → (run_stream env rounds w).1.audio.callback_data ≡ w.audio.callback_data
  unfolding run_stream
  callback_data-run_stream rounds w = ground (arith, buffer_playback_queue-audio rounds (waiting w))

  -- Where it did not count as started, it is then kept for the connection that it was called with.
  pub callback_data-start :
      (rounds : ℕ) (connection : ℤ) (w : World)
      → w.audio.started ≡ false
      → (start env rounds connection w).1.audio.callback_data ≡ some connection
  unfolding start start_fresh
  callback_data-start rounds connection w h =
      ground (arith, callback_data-run_stream rounds (opened connection w))

  -- Once `Audio_start` has come back, whatever its answer, the next call of it is refused as already
  -- started and changes nothing.
  pub start-start :
      (rounds : ℕ) (connection other : ℤ) (w w' : World) (r : AudioResult)
      → start env rounds connection w ≡ (ok r, w')
      → start env rounds other w' ≡ (ok audio_already_started, w')
  unfolding start
  start-start rounds connection other w w' r e = ground (arith, started-start rounds connection w)

  -- `Audio_stop` refuses exactly when the module does not count as started, initialised or not, and then
  -- changes nothing; otherwise both threads are told to stop and joined, and the module counts as
  -- stopped exactly when the stream could be closed.
  pub stop_lem :
      (w : World)
      → let (r, w') = stop env w in
        ((w.audio.started ≡ false) × (r ≡ ok audio_already_stopped) × (w' ≡ w))
        ⊎ ((w.audio.started ≡ true)
            × (w'.audio.stop_playback ≡ true)
            × (w'.audio.stop_recording ≡ true)
            × (times joins_fill w'.log ≡ times joins_fill w.log + 1)
            × (times joins_flush w'.log ≡ times joins_flush w.log + 1)
            × (((r ≡ ok audio_ok) × (w'.audio.started ≡ false) × (w'.audio.callback_data ≡ none))
                ⊎ ((r ≡ ok audio_close_stream_fail)
                    × (w'.audio.started ≡ true)
                    × (w'.audio.callback_data ≡ w.audio.callback_data))))
  unfolding stop times
  stop_lem w = ground arith

-- How many threads of each kind `Audio_start` makes before it gives an answer other than that it had
-- been started.
abbrev pub fills_made : AudioResult → ℕ
fills_made audio_not_initialized = 0
fills_made audio_open_stream_fail = 0
fills_made _ = 1

abbrev pub flushes_made : AudioResult → ℕ
flushes_made audio_ok = 1
flushes_made _ = 0

module _ (env : Env) where
  times-run_stream :
      (rounds : ℕ) (w w' : World) (r : AudioResult)
      → run_stream env rounds w ≡ (ok r, w')
      → (times makes_fill w'.log ≡ times makes_fill w.log + fills_made r)
        × (times makes_flush w'.log ≡ times makes_flush w.log + flushes_made r)
        × (times joins_fill w'.log ≡ times joins_fill w.log)
        × (times joins_flush w'.log ≡ times joins_flush w.log)
  unfolding run_stream times
  times-run_stream rounds w w' r e = ground (
    arith,
    buffer_playback_queue-times env makes_fill rounds (waiting env w) refl,
    buffer_playback_queue-times env makes_flush rounds (waiting env w) refl,
    buffer_playback_queue-times env joins_fill rounds (waiting env w) refl,
    buffer_playback_queue-times env joins_flush rounds (waiting env w) refl,
  )

  pub times-start :
      (rounds : ℕ) (connection : ℤ) (w w' : World) (r : AudioResult)
      → w.audio.started ≡ false
      → start env rounds connection w ≡ (ok r, w')
      → (times makes_fill w'.log ≡ times makes_fill w.log + fills_made r)
        × (times makes_flush w'.log ≡ times makes_flush w.log + flushes_made r)
        × (times joins_fill w'.log ≡ times joins_fill w.log)
        × (times joins_flush w'.log ≡ times joins_flush w.log)
  unfolding start start_fresh times
  times-start rounds connection w w' r h e =
      ground (arith, times-run_stream rounds (opened env connection w) w' r)

  -- From a module that does not count as started, `Audio_start` with any answer and then `Audio_stop`
  -- join each audio thread once. They make each once if the answer was AUDIO_OK; otherwise the record
  -- thread that is joined was never made, and where the module was not initialised or no stream could
  -- be opened, neither was the playback thread.
  pub start-stop_threads :
      (rounds : ℕ) (connection : ℤ) (w w' : World) (r : AudioResult)
      → w.audio.started ≡ false
      → start env rounds connection w ≡ (ok r, w')
      → let log = (stop env w').1.log in
        (times joins_fill log ≡ times joins_fill w.log + 1)
        × (times joins_flush log ≡ times joins_flush w.log + 1)
        × (times makes_fill log ≡ times makes_fill w.log + fills_made r)
        × (times makes_flush log ≡ times makes_flush w.log + flushes_made r)
  unfolding stop times
  start-stop_threads rounds connection w w' r h e =
      ground
        (arith, times-start rounds connection w w' r h e, started-start env rounds connection w)
