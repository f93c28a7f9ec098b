-- ===== src/Audio/Pools/Tests.antt =====
-- The pool of src/audio.c filled, emptied and freed, and the theorems about that at plain lists.
use bbg_vo_ip.Prelude.{ℕ, ◌+◌, ◌<◌, ◌≡◌, refl, ◌⊎◌, List, [], ◌∷◌, arith, true}
use bbg_vo_ip.Sys.{ok, fault}
use bbg_vo_ip.Call.Datagram.{audio_continue}
use bbg_vo_ip.Audio.Frames.{total_silence, malloced, Items, only, total}
use bbg_vo_ip.Audio.Frames.Listed.{listed}
use bbg_vo_ip.Audio.Threads.{
  Threads, Reach, here, next, fills, flushes, fill_done, flush_done, stops, move_fill, move_flush,
}
use bbg_vo_ip.Audio.Threads.Exclusive.{silences}
use bbg_vo_ip.Audio.Pools.{clear_queue, clear_all_queues, free_all, teardown_pools, add_buffers}
use bbg_vo_ip.Audio.Pools.Drain.{HasRoom}
use bbg_vo_ip.Audio.Pools.Life.{fresh, AtRest, frees_once, free_all_lem, times_freed}

listed-HasRoom : HasRoom listed
listed-HasRoom f s h = ground arith

-- One buffer in the pool, one played; the microphone found the pool empty once.
abbrev ended : Items
ended = record {
  free = malloced 2 ∷ [];
  playback = malloced 1 ∷ [];
  recorded = total_silence ∷ malloced 0 ∷ [];
}

-- The silence comes into the pool, and `Audio_teardown` frees it.
silence_freed :
    (clear_all_queues listed 4 ended
      ≡ ok (record {
        free = malloced 2 ∷ malloced 1 ∷ total_silence ∷ malloced 0 ∷ [];
        playback = [];
        recorded = [];
      }))
    × (teardown_pools listed 9 (record {
      free = malloced 2 ∷ malloced 1 ∷ total_silence ∷ malloced 0 ∷ [];
      playback = [];
      recorded = [];
    })
        ≡ fault)
unfolding clear_all_queues clear_queue teardown_pools free_all
silence_freed = (refl, refl)

free_all_lem_example :
    ((0 < silences ended.free) × (free_all listed 3 [] ended ≡ fault))
    ⊎ ((silences ended.free ≡ 0)
        × ((freed' : List ℕ) × (free_all listed 3 [] ended ≡ ok freed')
            × (times_freed 2 freed' ≡ times_freed 2 [] + total (only 2) ended.free)))
free_all_lem_example = free_all_lem listed 3 [] ended 2 (omega arith)

abbrev unset : ℕ → List ℕ
unset a = []

abbrev start : Threads Items
start = fresh listed listed-HasRoom unset

-- Both threads are told to stop before they have moved.
abbrev rest : Threads Items
rest = record start {
  stop_playback = true;
  stop_recording = true;
  fill = fill_done;
  flush = flush_done;
}

start-rest : Reach listed 2 start rest
unfolding move_fill move_flush
start-rest =
    next (next (next here stops) (fills audio_continue [] refl)) (flushes audio_continue refl)

rest-AtRest : AtRest listed listed-HasRoom rest
unfolding silences add_buffers
rest-AtRest = record {
  fill_over = refl;
  flush_over = refl;
  no_callback = refl;
  kept_all = refl;
  no_silence = refl;
}

frees_once_example :
    (s : Items) × (freed : List ℕ) × (clear_all_queues listed 301 rest.store ≡ ok s)
    × (teardown_pools listed 301 s ≡ ok freed)
    × (times_freed 7 freed ≡ 1)
frees_once_example =
    frees_once listed listed-HasRoom 2 301 7 unset rest start-rest rest-AtRest (omega arith)
