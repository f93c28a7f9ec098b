-- ===== src/Audio/Pools/Life.antt =====
-- The frame buffers of src/audio.c from Audio_init to Audio_teardown: each is freed once.
use bbg_vo_ip.Prelude.{
  ℕ, zero, suc, ◌+◌, ◌<◌, ◌≤◌, ◌==◌, ◌≡◌, ap, sym, ◌∙◌, ◌⊎◌, inl, inr, false, List, [], ◌∷◌, ◌++◌,
  arith, length, length-append, if◌then◌else◌, ltb,
}
use bbg_vo_ip.Sys.{ok, fault}
use bbg_vo_ip.Audio.Frames.{
  total_silence, malloced, free_buffers, playback_queue, record_queue, Queues, total, only, each,
}
use bbg_vo_ip.Audio.Threads.{
  Threads, fill_test, fill_done, flush_test, flush_done, stream_idle, Reach,
}
use bbg_vo_ip.Audio.Threads.Conserve.{places, places-Reach}
use bbg_vo_ip.Audio.Threads.Exclusive.{silences, IsSound, Reach-IsSound}
use bbg_vo_ip.Audio.Pools.{
  free_buffer_count, add_buffers, init_free_buffers, clear_all_queues, free_all, teardown_pools,
}
use bbg_vo_ip.Audio.Pools.Counts.{
  numbered, silences-numbered, only-numbered, each-numbered, total-join, silences-join,
  length-frames,
}
use bbg_vo_ip.Audio.Pools.Drain.{HasRoom, pooled, items-put_free, clear_all_queues_lem}
use mathlib.Core.List.{append_assoc, append-nil}

-- How often `a` was freed.
unfoldable pub times_freed : ℕ → List ℕ → ℕ
times_freed a [] = 0
times_freed a (b ∷ freed) = (if a == b then 1 else 0) + times_freed a freed

module _ (q : Queues) where
  -- Given more rounds than the pool holds frames, to `free` what it holds is a fault where the constant
  -- silence is in it, and otherwise ends with each buffer freed as often as it is in the pool.
  pub free_all_lem :
      (rounds : ℕ) (freed : List ℕ) (s : q.Store) (a : ℕ)
      → length (q.items s).free < rounds
      → ((0 < silences (q.items s).free) × (free_all q rounds freed s ≡ fault))
        ⊎ ((silences (q.items s).free ≡ 0)
            × ((freed' : List ℕ) × (free_all q rounds freed s ≡ ok freed')
                × (times_freed a freed' ≡ times_freed a freed + total (only a) (q.items s).free)))
  unfolding free_all silences total times_freed
  free_all_lem zero freed s a h = absurd (omega arith)
  free_all_lem (suc rounds) freed s a h = elim (q.get_cases free_buffers s) [
    | inl (none_left, empty, same) ↦ inr (ground arith, (freed, ground arith, ground arith))
    | inr (total_silence, taken, before) ↦ inl (ground arith, ground arith)
    | inr (malloced b, taken, before) ↦
        let s1 = (q.get free_buffers s).1 in
        let free1 : (q.items s).free ≡ malloced b ∷ (q.items s1).free = ap (λ it. it.free) before in
        elim (free_all_lem rounds (b ∷ freed) s1 a (ground arith)) [
          | inl (silent, faulty) ↦ inl (ground arith, ground arith)
          | inr (clean, (freed', done, count)) ↦
              inr (ground arith, (freed', ground arith, ground arith))
        ]
  ]

  module _ (room : HasRoom q) where
    add_buffers_lem :
        (n a : ℕ) (s : q.Store)
        → length (q.items s).free + n ≤ free_buffer_count
        → q.items (add_buffers q n a s) ≡ pooled (numbered n a) (q.items s)
    unfolding add_buffers numbered
    add_buffers_lem zero a s h =
        ap (λ l. record (q.items s) { free = l }) (sym (append-nil (q.items s).free))
    add_buffers_lem (suc n) a s h =
        let s1 = (q.put free_buffers (malloced a) s).1 in
        let added = items-put_free q room (malloced a) s (omega arith) in
        let free1 : (q.items s1).free ≡ (q.items s).free ++ malloced a ∷ [] =
          ap (λ it. it.free) added in
        add_buffers_lem n (suc a) s1
          (ground (arith, length-append (q.items s).free (malloced a ∷ [])))
        ∙ ap (pooled (numbered n (suc a))) added
        ∙ ap (λ l. record (q.items s) { free = l })
            (append_assoc (q.items s).free (malloced a ∷ []) (numbered n (suc a)))

    -- The threads as they are before any has moved, over the pool that `Audio_init` fills.
    abbrev pub fresh : (ℕ → List ℕ) → Threads q.Store
    fresh memory = record {
      store = init_free_buffers q;
      memory = memory;
      stop_playback = false;
      stop_recording = false;
      fill = fill_test;
      flush = flush_test;
      stream = stream_idle;
      leaked = [];
      queued = [];
      played = [];
      recorded = [];
      sent = [];
    }

    items-init_free_buffers :
        q.items (init_free_buffers q)
        ≡ record { free = numbered free_buffer_count 0; playback = []; recorded = [] }
    items-init_free_buffers =
        add_buffers_lem free_buffer_count 0 q.created
          (ground (arith, ap (λ it. length it.free) q.created_empty))
        ∙ ap (pooled (numbered free_buffer_count 0)) q.created_empty

    places-fresh :
        (v : ℕ → ℕ) (memory : ℕ → List ℕ)
        → places q v (fresh memory) ≡ total v (numbered free_buffer_count 0)
    unfolding total
    places-fresh v memory = rw items-init_free_buffers (omega arith)

    fresh-IsSound : (memory : ℕ → List ℕ) → IsSound q (fresh memory)
    unfolding silences
    fresh-IsSound memory =
        rw items-init_free_buffers (omega (arith, silences-numbered free_buffer_count 0))

    -- At rest: the threads are done, the callback is not called, no `put` was refused, and no silence waits
    -- to be sent.
    pub record AtRest (t : Threads q.Store) : Type 0 where
      pub fill_over : t.fill ≡ fill_done
      pub flush_over : t.flush ≡ flush_done
      pub no_callback : t.stream ≡ stream_idle
      pub kept_all : t.leaked ≡ []
      pub no_silence : silences (q.items t.store).recorded ≡ 0

    -- All buffers are then in the containers.
    stored_all :
        (v : ℕ → ℕ) (frame_count : ℕ) (memory : ℕ → List ℕ) (t : Threads q.Store)
        → Reach q frame_count (fresh memory) t
        → AtRest t
        → total v (q.items t.store).free
            + total v (q.items t.store).playback
            + total v (q.items t.store).recorded
          ≡ total v (numbered free_buffer_count 0)
    unfolding total
    stored_all v frame_count memory t r rest =
        let kept = places-Reach q frame_count v r ∙ places-fresh v memory in
        ground (arith, kept, rest.fill_over, rest.flush_over, rest.no_callback, rest.kept_all)

    -- There are as many frames as buffers were allocated.
    length_all :
        (frame_count : ℕ) (memory : ℕ → List ℕ) (t : Threads q.Store)
        → Reach q frame_count (fresh memory) t
        → AtRest t
        → (length (q.items t.store).free
              + length (q.items t.store).playback
              + length (q.items t.store).recorded
            ≡ free_buffer_count)
          × (silences (q.items t.store).free + silences (q.items t.store).playback ≡ 0)
    length_all frame_count memory t r rest =
        let sound = Reach-IsSound q frame_count r (fresh-IsSound memory) in
        let it = q.items t.store in
        let clean : silences it.free + silences it.playback ≡ 0 = omega (arith, sound) in
        (
          omega (
            arith,
            clean,
            rest.no_silence,
            stored_all each frame_count memory t r rest,
            each-numbered free_buffer_count 0,
            length-frames it.free,
            length-frames it.playback,
            length-frames it.recorded,
          ),
          clean,
        )

    -- If the pool takes 300 frames, then whatever the two threads and the callback did since `Audio_init`, once
    -- they are at rest, with no frame refused by a queue and no silence left to be sent, `clearAllQueues` and
    -- then `Audio_teardown` end in any number of rounds above 300, and each of the buffers that
    -- `Audio_init` allocated is freed exactly once, and nothing else is.
    pub frees_once :
        (frame_count rounds a : ℕ) (memory : ℕ → List ℕ) (t : Threads q.Store)
        → Reach q frame_count (fresh memory) t
        → AtRest t
        → free_buffer_count < rounds
        → (s : q.Store) × (freed : List ℕ) × (clear_all_queues q rounds t.store ≡ ok s)
          × (teardown_pools q rounds s ≡ ok freed)
          × (times_freed a freed ≡ (if ltb a free_buffer_count then 1 else 0))
    unfolding teardown_pools times_freed
    frees_once frame_count rounds a memory t r rest enough =
        let it = q.items t.store in
        let (lengths, clean) = length_all frame_count memory t r rest in
        let (s, cleared, left) =
          clear_all_queues_lem q room rounds t.store (omega (arith, lengths, enough))
            (omega (arith, lengths, enough)) (omega (arith, lengths)) in
        let s1 = q.reset record_queue (q.reset playback_queue s) in
        let free1 : (q.items s1).free ≡ (it.free ++ it.playback) ++ it.recorded =
          ap (λ i. i.free) (q.reset_empties record_queue (q.reset playback_queue s))
          ∙ ap (λ i. i.free) (q.reset_empties playback_queue s)
          ∙ ap (λ i. i.free) left in
        let short : length (q.items s1).free < rounds = omega (
          arith,
          ap (length) free1,
          length-append (it.free ++ it.playback) it.recorded,
          length-append it.free it.playback,
          lengths,
          enough,
        ) in
        let silent : silences (q.items s1).free ≡ 0 = omega (
          arith,
          ap (silences) free1,
          silences-join (it.free ++ it.playback) it.recorded,
          silences-join it.free it.playback,
          clean,
          rest.no_silence,
        ) in
        let count : total (only a) (q.items s1).free ≡ (if ltb a free_buffer_count then 1 else 0) =
          ground (
            arith,
            ap (total (only a)) free1,
            total-join (only a) (it.free ++ it.playback) it.recorded,
            total-join (only a) it.free it.playback,
            stored_all (only a) frame_count memory t r rest,
            only-numbered free_buffer_count 0 a,
          ) in
        elim (free_all_lem rounds [] s1 a short) [
          | inl (bad, _) ↦ absurd (omega (arith, bad, silent))
          | inr (_, (freed, done, times)) ↦ (s, freed, cleared, done, omega (arith, times, count))
        ]
