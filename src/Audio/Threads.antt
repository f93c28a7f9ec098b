-- ===== src/Audio/Threads.antt =====
-- fillPlaybackQueue, flushRecordQueue and streamCallback of src/audio.c, which run at the same time: each is
-- cut where it uses a container or calls out, and one move takes it to the next cut.
pub mod Conserve
pub mod Exclusive
pub mod Views
pub mod Playing
pub mod Sending
pub mod Wait
pub mod Filling
pub mod Runs
mod Tests
use bbg_vo_ip.Prelude.{
  ℕ, zero, suc, ◌+◌, ◌==◌, ◌≡◌, Bool, true, false, List, [], ◌∷◌, ◌++◌, Option, none, some, take,
  replicate, overwrite, if◌then◌else◌,
}
use bbg_vo_ip.Sys.{Result, ok, exits, fault}
use bbg_vo_ip.Call.Datagram.{AudioCallbackResult, audio_continue, audio_stop}
use bbg_vo_ip.Audio.Control.{frames_per_buffer}
use bbg_vo_ip.Audio.Frames.{
  Frame, total_silence, malloced, Place, free_buffers, playback_queue, record_queue, Queues,
}

-- Where `fillPlaybackQueue` is: before the test of its `while`, with a frame in
-- `playbackSourceBuffer`, with a buffer for it, with the buffer filled, after the loop.
pub data Fill : Type 0 where
  fill_test : Fill
  fill_produced : List ℕ → Fill
  fill_copy : List ℕ → Frame → Fill
  fill_enqueue : Frame → Fill
  fill_done : Fill

-- Where `flushRecordQueue` is: before the test, with a frame to hand out, with one handed out.
pub data Flush : Type 0 where
  flush_test : Flush
  flush_consume : Frame → Flush
  flush_return : Frame → AudioCallbackResult → Flush
  flush_done : Flush

-- Where `streamCallback` is: not called, with a played buffer, before and after it takes a buffer for
-- the samples from the microphone, and with that to put.
pub data Stream : Type 0 where
  stream_idle : Stream
  stream_played : Frame → List ℕ → Stream
  stream_record : List ℕ → Stream
  stream_copy : Frame → List ℕ → Stream
  stream_enqueue : Frame → Stream

pub record Threads (Store : Type 0) : Type 0 where
  pub store : Store
  -- the samples in each buffer
  pub memory : ℕ → List ℕ
  pub stop_playback : Bool
  pub stop_recording : Bool
  pub fill : Fill
  pub flush : Flush
  pub stream : Stream
  -- buffers that a refused `put` left without an owner
  pub leaked : List Frame
  -- the frames queued to be played, those played, those queued to be sent, and those handed to the sender
  pub queued : List (List ℕ)
  pub played : List (List ℕ)
  pub recorded : List (List ℕ)
  pub sent : List (List ℕ)

abbrev is_stop : AudioCallbackResult → Bool
is_stop audio_continue = false
is_stop audio_stop = true

-- The samples behind a pointer.
abbrev pub samples : (ℕ → List ℕ) → Frame → List ℕ
samples memory total_silence = replicate frames_per_buffer 0
samples memory (malloced a) = memory a

abbrev pub write : ℕ → List ℕ → (ℕ → List ℕ) → ℕ → List ℕ
write a frame memory b = if a == b then frame else memory b

-- What a refused `put` loses.
abbrev pub unless : Bool → Frame → List Frame → List Frame
unless true f leaked = leaked
unless false f leaked = f ∷ leaked

-- `frame_count` is the `frameCount` that PortAudio passes, FRAMES_PER_BUFFER as the stream was opened.
module _ (q : Queues) (frame_count : ℕ) where
  -- `fillPlaybackQueue`, given what `produceBuffer` would return and leave in `playbackSourceBuffer`
  unfoldable pub move_fill :
      Fill → AudioCallbackResult → List ℕ → Threads q.Store → Result (Threads q.Store)
  move_fill fill_test result source t =
      if t.stop_playback
      then ok (record t { fill = fill_done })
      else if is_stop result
      then ok (record t { fill = fill_done })
      else ok (record t { fill = fill_produced source })
  move_fill (fill_produced frame) result source t =
      let (buffer, store) = q.get free_buffers t.store in
      elim buffer [
        | none ↦ ok (record t { store = store; fill = fill_test })
        | some f ↦ ok (record t { store = store; fill = fill_copy frame f })
      ]
  move_fill (fill_copy frame total_silence) result source t = fault
  move_fill (fill_copy frame (malloced a)) result source t =
      ok (record t { memory = write a frame t.memory; fill = fill_enqueue (malloced a) })
  move_fill (fill_enqueue f) result source t =
      let (done, store) = q.put playback_queue f t.store in
      ok (record t {
        store = store;
        fill = fill_test;
        leaked = unless done f t.leaked;
        queued = if done then t.queued ++ take frame_count (samples t.memory f) ∷ [] else t.queued;
      })
  move_fill fill_done result source t = ok t

  -- `flushRecordQueue`, given what `consumeBuffer` would return
  unfoldable pub move_flush :
      Flush → AudioCallbackResult → Threads q.Store → Result (Threads q.Store)
  move_flush flush_test result t =
      let (buffer, store) = q.get record_queue t.store in
      let taken : Result (Threads q.Store) = elim buffer [
        | none ↦ ok (record t { store = store })
        | some f ↦ ok (record t { store = store; flush = flush_consume f })
      ] in
      if t.stop_recording then ok (record t { flush = flush_done }) else taken
  move_flush (flush_consume f) result t =
      ok (record t { flush = flush_return f result; sent = t.sent ++ samples t.memory f ∷ [] })
  move_flush (flush_return total_silence result') result t =
      ok (record t { flush = if is_stop result' then flush_done else flush_test })
  move_flush (flush_return (malloced a) result') result t =
      let (done, store) = q.put free_buffers (malloced a) t.store in
      ok (record t {
        store = store;
        flush = if is_stop result' then flush_done else flush_test;
        leaked = unless done (malloced a) t.leaked;
      })
  move_flush flush_done result t = ok t

  -- `streamCallback`, given the samples from the microphone
  unfoldable pub move_stream : Stream → List ℕ → Threads q.Store → Result (Threads q.Store)
  move_stream stream_idle input t =
      let (buffer, store) = q.get playback_queue t.store in
      elim buffer [
        | none ↦ ok (record t { store = store; stream = stream_record input })
        | some f ↦ ok (record t {
          store = store;
          stream = stream_played f input;
          played = t.played ++ take frame_count (samples t.memory f) ∷ [];
        })
      ]
  move_stream (stream_played f input) input' t =
      let (done, store) = q.put free_buffers f t.store in
      ok (record t { store = store; stream = stream_record input; leaked = unless done f t.leaked })
  move_stream (stream_record input) input' t =
      let (buffer, store) = q.get free_buffers t.store in
      elim buffer [
        | none ↦ ok (record t { store = store; stream = stream_enqueue total_silence })
        | some f ↦ ok (record t { store = store; stream = stream_copy f input })
      ]
  move_stream (stream_copy total_silence input) input' t = fault
  move_stream (stream_copy (malloced a) input) input' t = ok (record t {
    memory = write a (overwrite (take frame_count input) (t.memory a)) t.memory;
    stream = stream_enqueue (malloced a);
  })
  move_stream (stream_enqueue f) input t =
      let (done, store) = q.put record_queue f t.store in
      if done
      then ok (record t {
        store = store;
        stream = stream_idle;
        recorded = t.recorded ++ samples t.memory f ∷ [];
      })
      else exits 1

  -- One step of the module: a move of a thread or of the callback, or `Audio_stop` telling the threads to
  -- stop. The outside chooses which, and what its calls give.
  pub data Step (t : Threads q.Store) : Threads q.Store → Type 0 where
    fills :
        {u : Threads q.Store} (result : AudioCallbackResult) (source : List ℕ)
        → move_fill t.fill result source t ≡ ok u
        → Step t u
    flushes :
        {u : Threads q.Store} (result : AudioCallbackResult)
        → move_flush t.flush result t ≡ ok u
        → Step t u
    streams :
        {u : Threads q.Store} (input : List ℕ) → move_stream t.stream input t ≡ ok u → Step t u
    stops : Step t (record t { stop_playback = true; stop_recording = true })

  pub data Reach (t : Threads q.Store) : Threads q.Store → Type 0 where
    here : Reach t t
    next : {u v : Threads q.Store} → Reach t u → Step u v → Reach t v
