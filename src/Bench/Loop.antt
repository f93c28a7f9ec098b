-- ===== src/Bench/Loop.antt =====
-- fillRecvBuffer, flushSendBuffer and rwAudio of src/main_nonblocking_audio.c, which run at the same time: a
-- move of one of them ends with its next use of a container. `recvBufferQueue` is the playback queue
-- and `sendBufferQueue` the record queue of `Queues`. Delays and printed bars are left out.
pub mod Conserve
use bbg_vo_ip.Prelude.{
  ℕ, zero, suc, ◌≡◌, List, [], ◌∷◌, ◌++◌, Option, none, some, take, replicate, overwrite,
}
use bbg_vo_ip.Sys.{Result, ok, fault}
use bbg_vo_ip.Audio.Frames.{
  Frame, total_silence, malloced, free_buffers, playback_queue, record_queue, Queues,
}
use bbg_vo_ip.Audio.Threads.{samples, write, unless}

-- Where `fillRecvBuffer` is: about to take a buffer, with a full one to put.
pub data Fill : Type 0 where
  fill_take : Fill
  fill_put : Frame → Fill

-- Where `flushSendBuffer` is: about to take a frame, with one to give back that it has written out.
pub data Flush : Type 0 where
  flush_take : Flush
  flush_give_back : Frame → Flush

-- Where `rwAudio` is: not called, with a played buffer to give back, about to take a buffer for the
-- samples from the microphone, with what it sends.
pub data Callback : Type 0 where
  idle : Callback
  give_back : Frame → List ℕ → Callback
  take_free : List ℕ → Callback
  send : Frame → Callback

-- FREE_BUFFERS
abbrev pub free_buffer_count : ℕ
free_buffer_count = 300

pub record Loop (Store : Type 0) : Type 0 where
  pub store : Store
  -- the samples in each buffer
  pub memory : ℕ → List ℕ
  pub fill : Fill
  pub flush : Flush
  pub callback : Callback
  -- what a refused `put`, which no caller looks at, left without an owner
  pub leaked : List Frame
  -- the frames written to the device and to the file
  pub played : List (List ℕ)
  pub written : List (List ℕ)

module _ (q : Queues) (frame_count : ℕ) where
  -- `fillRecvBuffer`, given the samples of a frame of noise
  unfoldable pub move_fill : Fill → List ℕ → Loop q.Store → Result (Loop q.Store)
  move_fill fill_take noise t =
      let (buffer, store) = q.get free_buffers t.store in
      elim buffer [
        | none ↦ ok (record t { store = store })
        | some total_silence ↦ fault
        | some (malloced a) ↦ ok (record t {
          store = store;
          memory = write a noise t.memory;
          fill = fill_put (malloced a);
        })
      ]
  move_fill (fill_put f) noise t =
      let (done, store) = q.put playback_queue f t.store in
      ok (record t { store = store; fill = fill_take; leaked = unless done f t.leaked })

  -- `flushSendBuffer`
  unfoldable pub move_flush : Flush → Loop q.Store → Result (Loop q.Store)
  move_flush flush_take t =
      let (buffer, store) = q.get record_queue t.store in
      elim buffer [
        | none ↦ ok (record t { store = store })
        | some total_silence ↦ ok (record t { store = store })
        | some (malloced a) ↦ ok (record t {
          store = store;
          flush = flush_give_back (malloced a);
          written = t.written ++ t.memory a ∷ [];
        })
      ]
  move_flush (flush_give_back f) t =
      let (done, store) = q.put free_buffers f t.store in
      ok (record t { store = store; flush = flush_take; leaked = unless done f t.leaked })

  -- `rwAudio`, given the samples from the microphone
  unfoldable pub move_callback : Callback → List ℕ → Loop q.Store → Result (Loop q.Store)
  move_callback idle input t =
      let (buffer, store) = q.get playback_queue t.store in
      elim buffer [
        | none ↦ ok (record t {
          store = store;
          callback = take_free input;
          played = t.played ++ replicate frame_count 0 ∷ [];
        })
        | some f ↦ ok (record t {
          store = store;
          callback = give_back f input;
          played = t.played ++ take frame_count (samples t.memory f) ∷ [];
        })
      ]
  move_callback (give_back f input) input' t =
      let (done, store) = q.put free_buffers f t.store in
      ok (record t { store = store; callback = take_free input; leaked = unless done f t.leaked })
  move_callback (take_free input) input' t =
      let (buffer, store) = q.get free_buffers t.store in
      elim buffer [
        | none ↦ ok (record t { store = store; callback = send total_silence })
        | some total_silence ↦ fault
        | some (malloced a) ↦ ok (record t {
          store = store;
          memory = write a (overwrite (take frame_count input) (t.memory a)) t.memory;
          callback = send (malloced a);
        })
      ]
  move_callback (send f) input t =
      let (done, store) = q.put record_queue f t.store in
      ok (record t { store = store; callback = idle; leaked = unless done f t.leaked })

  -- The `for` of `main` that fills the pool: `malloc` gives a buffer that it has not given before.
  unfoldable pub add_buffers : ℕ → ℕ → Loop q.Store → Loop q.Store
  add_buffers zero a t = t
  add_buffers (suc left) a t =
      let (done, store) = q.put free_buffers (malloced a) t.store in
      add_buffers left (suc a)
        (record t { store = store; leaked = unless done (malloced a) t.leaked })

  -- How `main` starts the three; nothing is in the buffers.
  abbrev pub started : Loop q.Store
  started = add_buffers free_buffer_count 0 (record {
    store = q.created;
    memory = λ a. [];
    fill = fill_take;
    flush = flush_take;
    callback = idle;
    leaked = [];
    played = [];
    written = [];
  })

  -- What comes of one of them going on; the outside chooses which, and what it is given.
  pub data Move (t : Loop q.Store) : Result (Loop q.Store) → Type 0 where
    fills : (noise : List ℕ) → Move t (move_fill t.fill noise t)
    flushes : Move t (move_flush t.flush t)
    calls_back : (input : List ℕ) → Move t (move_callback t.callback input t)

  pub data Reach (t : Loop q.Store) : Loop q.Store → Type 0 where
    here : Reach t t
    next : {u v : Loop q.Store} → Reach t u → Move u (ok v) → Reach t v
