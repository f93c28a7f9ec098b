-- ===== src/Audio/Control.antt =====
-- Audio_init, Audio_start, Audio_stop and Audio_teardown of src/audio.c: flags, threads and stream.
-- The device parameters handed to PortAudio are left out, and so is what DEBUG_AUDIO adds. The calls
-- that make, empty and free the buffer pools stand in the log.
use bbg_vo_ip.Prelude.{ℕ, zero, suc, true, false, not, cond, none, some, ltb}
use bbg_vo_ip.Prelude.Int.{ℤ}
use bbg_vo_ip.Sys.{
  Env, create, join, fill_playback, flush_record, wait, pa_initialize, pa_terminate, pa_open,
  pa_start, pa_close, pa_realtime, pa_device, playback_size, clear_queues, make_pools, free_pools,
  unsigned, is_zero,
}
use bbg_vo_ip.World.{
  Audio, Act, ◌>>=◌, ◌>>◌, pure, exit, exit_if, out_of_rounds, gets, modify, done, ask, call,
}

-- `AudioResult`
pub data AudioResult : Type 0 where
  audio_ok audio_not_initialized audio_open_stream_fail audio_start_stream_fail : AudioResult
  audio_close_stream_fail audio_already_started audio_already_stopped : AudioResult

abbrev pub frames_per_buffer : ℕ
frames_per_buffer = 512

-- FRAMEBUFFER_SIZE, in bytes: a `Sample` is a `short`.
abbrev pub framebuffer_size : ℕ
framebuffer_size = 1024

abbrev pub min_playback_queue_length : ℕ
min_playback_queue_length = 20

abbrev pub set_audio : (Audio → Audio) → Act Unit
set_audio f = modify (λ w. record w { audio = f w.audio })

module _ (env : Env) where
  -- `checkDevice(idx) == 0` ends the program, PortAudio first.
  unfoldable pub require_device : ℤ → Act Unit
  require_device device = do
    info ← ask env (pa_device device)
    cond (is_zero info) (do call env pa_terminate; exit 1) done

  -- `Audio_init`
  unfoldable pub init : ℤ → ℤ → Act Unit
  unfolding require_device
  init input_device output_device = do
    initialized ← gets (λ w. w.audio.initialized)
    cond initialized done (do
      result ← ask env pa_initialize
      exit_if (not (is_zero result)) 1
      require_device input_device
      require_device output_device
      set_audio (λ a. record a { stop_recording = false; stop_playback = false; started = false })
      call env make_pools
      call env (pa_device input_device)
      call env (pa_device output_device)
      set_audio (λ a. record a { initialized = true }))

  -- `Audio_teardown`
  unfoldable pub teardown : Act Unit
  teardown = do
    call env pa_terminate
    call env free_pools
    set_audio (λ a. record a { initialized = false; started = false })

  -- `bufferPlaybackQueue`: the queue's length is looked at until it is long enough.
  unfoldable pub buffer_playback_queue : ℕ → Act Unit
  buffer_playback_queue zero = out_of_rounds
  buffer_playback_queue (suc rounds) = do
    size ← ask env playback_size
    let again = buffer_playback_queue rounds
    cond (ltb (unsigned size) min_playback_queue_length) again done

  -- `Audio_start` from the opened stream on
  unfoldable pub run_stream : ℕ → Act AudioResult
  unfolding buffer_playback_queue
  run_stream rounds = do
    call env pa_realtime
    call env (create fill_playback)
    buffer_playback_queue rounds
    result ← ask env pa_start
    cond (is_zero result)
        (do
          call env (create flush_record)
          set_audio (λ a. record a { started = true })
          pure audio_ok)
        (do
          closed ← ask env pa_close
          pure (cond (is_zero closed) audio_start_stream_fail audio_close_stream_fail))

  -- `Audio_start` from the flags on
  unfoldable pub start_fresh : ℕ → ℤ → Act AudioResult
  unfolding run_stream
  start_fresh rounds connection = do
    set_audio (λ a. record a {
      callback_data = some connection;
      stop_recording = false;
      stop_playback = false;
      started = true;
    })
    initialized ← gets (λ w. w.audio.initialized)
    cond initialized
        (do
          result ← ask env pa_open
          cond (is_zero result) (run_stream rounds) (pure audio_open_stream_fail))
        (pure audio_not_initialized)

  -- `Audio_start`; `connection` is the socket behind the `data` pointer.
  unfoldable pub start : ℕ → ℤ → Act AudioResult
  unfolding start_fresh
  start rounds connection = do
    started ← gets (λ w. w.audio.started)
    cond started (pure audio_already_started) (start_fresh rounds connection)

  -- `Audio_stop`
  unfoldable pub stop : Act AudioResult
  stop = do
    started ← gets (λ w. w.audio.started)
    cond (not started) (pure audio_already_stopped) (do
      set_audio (λ a. record a { stop_playback = true; stop_recording = true })
      call env (join fill_playback)
      call env (wait 1000000000)
      call env (join flush_record)
      res ← ask env pa_close
      cond (is_zero res)
          (do
            call env clear_queues
            set_audio (λ a. record a { started = false; callback_data = none })
            pure audio_ok)
          (pure audio_close_stream_fail))
