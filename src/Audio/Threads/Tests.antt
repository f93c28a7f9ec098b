-- ===== src/Audio/Threads/Tests.antt =====
-- Two buffers of src/audio.c moved by its threads, and the theorems about the threads at this run.
use bbg_vo_ip.Prelude.{ℕ, ◌≤◌, ◌≡◌, ◌≢◌, refl, List, [], ◌∷◌, arith, false, length, ◌⊎◌, ◌<◌}
use bbg_vo_ip.Sys.{Result, ok, fault, Env, unfinished}
use bbg_vo_ip.Prelude.Int.{pos}
use bbg_vo_ip.Testing.{answering, quiet}
use bbg_vo_ip.Audio.Control.{buffer_playback_queue}
use bbg_vo_ip.Call.Datagram.{audio_continue}
use bbg_vo_ip.Audio.Frames.{malloced, Items, only, total}
use bbg_vo_ip.Audio.Frames.Listed.{listed}
use bbg_vo_ip.Audio.Threads.{
  Threads, fill_test, fill_done, flush_test, stream_idle, stream_record, Reach, move_fill,
  move_stream, move_flush,
}
use bbg_vo_ip.Audio.Threads.Runs.{Move, fill, flush, stream, stop, run, run-Reach}
use bbg_vo_ip.Audio.Threads.Conserve.{places, places-Reach}
use bbg_vo_ip.Audio.Threads.Exclusive.{IsSound, Reach-ne-fault, silences}
use bbg_vo_ip.Audio.Threads.Views.{frames}
use bbg_vo_ip.Audio.Threads.Playing.{PlaysInOrder, Reach-PlaysInOrder}
use bbg_vo_ip.Audio.Threads.Sending.{SendsInOrder, Reach-SendsInOrder}
use bbg_vo_ip.Audio.Threads.Filling.{Reach-filled}
use bbg_vo_ip.Audio.Threads.Wait.{buffer_playback_queue-IsDry}

-- Two buffers in the pool, and nothing moved yet.
abbrev two : Threads Items
two = record {
  store = record { free = malloced 0 ∷ malloced 1 ∷ []; playback = []; recorded = [] };
  memory = λ a. 9 ∷ 9 ∷ [];
  stop_playback = false;
  stop_recording = false;
  fill = fill_test;
  flush = flush_test;
  stream = stream_idle;
  leaked = [];
  queued = [];
  played = [];
  recorded = [];
  sent = [];
}

-- A frame that comes from the peer is played while another one is recorded and sent.
abbrev moves : List Move
moves =
    fill audio_continue (7 ∷ 8 ∷ [])
    ∷ fill audio_continue []
    ∷ fill audio_continue []
    ∷ fill audio_continue []
    ∷ stream (5 ∷ 6 ∷ [])
    ∷ stream []
    ∷ stream []
    ∷ stream []
    ∷ stream []
    ∷ flush audio_continue
    ∷ flush audio_continue
    ∷ flush audio_continue
    ∷ stop
    ∷ fill audio_continue []
    ∷ flush audio_continue
    ∷ []

abbrev result : Result (Threads Items) → Threads Items
result (ok t) = t
result _ = two

abbrev after : Threads Items
unfolding run
after = result (run listed 2 moves two)

after-run : run listed 2 moves two ≡ ok after
unfolding run move_fill move_flush move_stream
after-run = refl

after_sound : (after.played ≡ (7 ∷ 8 ∷ []) ∷ []) × (after.sent ≡ (5 ∷ 6 ∷ []) ∷ [])
unfolding run move_fill move_flush move_stream
after_sound = (refl, refl)

two-after : Reach listed 2 two after
two-after = run-Reach listed 2 moves two after after-run

two-alone : (a : ℕ) → places listed (only a) two ≤ 1
unfolding total
two-alone a = ground arith

places-Reach_example : places listed (only 1) after ≡ places listed (only 1) two
places-Reach_example = places-Reach listed 2 (only 1) two-after

two-IsSound : IsSound listed two
unfolding silences
two-IsSound = refl

Reach-ne-fault_example :
    (move_fill listed 2 after.fill audio_continue [] after ≢ fault)
    × (move_stream listed 2 after.stream [] after ≢ fault)
Reach-ne-fault_example = Reach-ne-fault listed 2 audio_continue [] [] two-after two-IsSound

two-PlaysInOrder : PlaysInOrder listed 2 two
unfolding frames
two-PlaysInOrder = refl

Reach-PlaysInOrder_example : PlaysInOrder listed 2 after
Reach-PlaysInOrder_example = Reach-PlaysInOrder listed 2 two-after two-alone two-PlaysInOrder

two-SendsInOrder : SendsInOrder listed 2 two
unfolding frames
two-SendsInOrder = refl

Reach-SendsInOrder_example : SendsInOrder listed 2 after
Reach-SendsInOrder_example = Reach-SendsInOrder listed 2 two-after two-alone two-SendsInOrder

-- The peer has hung up before the first frame.
abbrev dry : Threads Items
dry = record two { fill = fill_done }

abbrev dry_after : Threads Items
dry_after = record dry { stream = stream_record (5 ∷ 6 ∷ []) }

dry-run : run listed 2 (stream (5 ∷ 6 ∷ []) ∷ flush audio_continue ∷ []) dry ≡ ok (dry_after)
unfolding run move_flush move_stream
dry-run = refl

-- A system that tells the length of the queue of the run above, which is empty.
abbrev empty_queue : Env
empty_queue = answering (pos 0) [] []

buffer_playback_queue-IsDry_example : (buffer_playback_queue empty_queue 100 quiet).0 ≡ unfinished
buffer_playback_queue-IsDry_example =
    buffer_playback_queue-IsDry listed 2 empty_queue dry
      (λ log. (
        dry_after,
        run-Reach listed 2 (stream (5 ∷ 6 ∷ []) ∷ flush audio_continue ∷ []) dry dry_after dry-run,
        refl,
      ))
      (refl, omega arith) 100 quiet

Reach-filled_example :
    (u : Threads Items) × Reach listed 2 two u
    × (length u.store.playback ≡ 2)
    × (((20 ≤ 2)
          × ((buffer_playback_queue (answering (pos (length u.store.playback)) [] []) 4 quiet).0
              ≡ ok tt))
        ⊎ ((2 < 20)
            × ((buffer_playback_queue (answering (pos (length u.store.playback)) [] []) 1 quiet).0
                ≡ unfinished)))
unfolding silences
Reach-filled_example =
    Reach-filled listed 2 (λ f s small. refl) 2 3 two
      (λ u. answering (pos (length u.store.playback)) [] []) quiet (λ u. refl) refl refl refl
      (omega arith) (omega arith)
