-- ===== src/Audio/Threads/Filling.antt =====
-- That the playback queue of src/audio.c gets as long as Audio_start waits for, while frames come.
use bbg_vo_ip.Prelude.{
  ℕ, zero, suc, ◌+◌, ◌<◌, ◌≤◌, ◌≡◌, refl, ap, inl, inr, true, false, List, [], ◌∷◌, ◌++◌, arith,
  length, length-append, take, ◌⊎◌, ◌∙◌,
}
use bbg_vo_ip.Call.Datagram.{audio_continue}
use bbg_vo_ip.Audio.Frames.{
  Frame, total_silence, malloced, free_buffers, playback_queue, Items, Queues,
}
use bbg_vo_ip.Audio.Pools.{free_buffer_count}
use bbg_vo_ip.Audio.Threads.{
  fill_test, fill_produced, fill_copy, fill_enqueue, Threads, move_fill, Step, fills, Reach, here,
  next, write,
}
use bbg_vo_ip.Audio.Threads.Exclusive.{silences}
use bbg_vo_ip.Sys.{Env, ok, unfinished, playback_size, word}
use bbg_vo_ip.World.{World}
use bbg_vo_ip.Prelude.Int.{pos}
use bbg_vo_ip.Audio.Control.{buffer_playback_queue, min_playback_queue_length}

module _ (q : Queues) (frame_count : ℕ) where
  -- The playback queue takes a frame as long as the two queues hold fewer than there are frame buffers; there are
  -- twice as many nodes.
  abbrev pub Accepts : Type 0
  Accepts =
      (f : Frame) (s : q.Store)
      → length (q.items s).playback + length (q.items s).recorded < free_buffer_count
      → (q.put playback_queue f s).0 ≡ true

  -- No more frames are in the containers than there are frame buffers.
  abbrev pub IsWithin : Items → Type 0
  IsWithin it = length it.free + length it.playback + length it.recorded ≤ free_buffer_count

  -- Before the test of the loop, and not told to stop, with these items.
  abbrev pub IsFilling : Items → Threads q.Store → Type 0
  IsFilling it t = (t.fill ≡ fill_test) × (t.stop_playback ≡ false) × (q.items t.store ≡ it)

  -- A round of `fillPlaybackQueue` in which a frame comes.
  fill_round :
      Accepts
      → (it : Items) (a : ℕ) (rest : List Frame) (t : Threads q.Store) → it.free ≡ malloced a ∷ rest
      → IsWithin it
      → IsFilling it t
      → (u : Threads q.Store) × Reach q frame_count t u
        × IsFilling (record it { free = rest; playback = it.playback ++ malloced a ∷ [] }) u
  unfolding move_fill
  fill_round accepts it a rest t free within h = elim (q.get_cases free_buffers t.store) [
    | inl (none_left, empty, same) ↦ absurd (ground arith)
    | inr (f, taken, before) ↦
        let t1 : Threads q.Store = record t { fill = fill_produced [] } in
        let s1 = (q.get free_buffers t.store).1 in
        let t2 : Threads q.Store = record t { store = s1; fill = fill_copy [] (malloced a) } in
        let t3 : Threads q.Store = record t2 {
          memory = write a [] t.memory;
          fill = fill_enqueue (malloced a);
        } in
        let s2 = (q.put playback_queue (malloced a) s1).1 in
        let t4 : Threads q.Store = record t3 {
          store = s2;
          fill = fill_test;
          queued = t.queued ++ take frame_count [] ∷ [];
        } in
        let small : length (q.items s1).playback + length (q.items s1).recorded
            < free_buffer_count =
          ground (
            arith,
            ap length free,
            ap (λ it. length it.playback) before,
            ap (λ it. length it.recorded) before,
          ) in
        let same_f : f ≡ malloced a = ground arith in
        let st1 : Step q frame_count t t1 = fills audio_continue [] (ground arith) in
        let st2 : Step q frame_count t1 t2 = fills audio_continue [] (ground arith) in
        let st3 : Step q frame_count t2 t3 = fills audio_continue [] refl in
        let st4 : Step q frame_count t3 t4 =
          fills audio_continue [] (ground (arith, accepts (malloced a) s1 small)) in
        (
          t4,
          next (next (next (next here st1) st2) st3) st4,
          ground (arith, accepts (malloced a) s1 small, q.put_cases playback_queue (malloced a) s1),
        )
  ]

  Reach-trans :
      {t u v : Threads q.Store}
      → Reach q frame_count t u
      → Reach q frame_count u v
      → Reach q frame_count t v
  Reach-trans r here = r
  Reach-trans r (next r' s) = next (Reach-trans r r') s

  -- A frame that goes from the pool to the queue changes no sum.
  IsWithin-moved :
      (a : ℕ) (rest : List Frame) (t u : Threads q.Store)
      → q.items u.store ≡ record (q.items t.store) {
        free = rest;
        playback = (q.items t.store).playback ++ malloced a ∷ [];
      }
      → (q.items t.store).free ≡ malloced a ∷ rest
      → IsWithin (q.items t.store)
      → IsWithin (q.items u.store)
  IsWithin-moved a rest t u it' e within = ground (
    arith,
    ap length e,
    ap (λ it. length it.free) it',
    ap (λ it. length it.playback) it',
    ap (λ it. length it.recorded) it',
    length-append (q.items t.store).playback (malloced a ∷ []),
  )

  Reach-filled_from :
      Accepts
      → (n : ℕ) (free : List Frame) (t : Threads q.Store) → t.fill ≡ fill_test
      → t.stop_playback ≡ false
      → (q.items t.store).free ≡ free
      → silences free ≡ 0
      → IsWithin (q.items t.store)
      → n ≤ length free
      → (u : Threads q.Store) × Reach q frame_count t u
        × (length (q.items u.store).playback ≡ length (q.items t.store).playback + n)
  unfolding silences
  Reach-filled_from accepts zero free t at on e clean within many = (t, here, omega arith)
  Reach-filled_from accepts (suc n) [] t at on e clean within many = absurd (omega arith)
  Reach-filled_from accepts (suc n) (total_silence ∷ rest) t at on e clean within many =
      absurd (omega arith)
  Reach-filled_from accepts (suc n) (malloced a ∷ rest) t at on e clean within many =
      let (u, r, (at', on', it')) =
        fill_round accepts (q.items t.store) a rest t e within (at, on, refl) in
      let (v, r', l) =
        Reach-filled_from accepts n rest u at' on' (ap (λ it. it.free) it') (omega arith)
          (IsWithin-moved a rest t u it' e within) (omega arith) in
      (
        v,
        Reach-trans r r',
        ground (
          arith,
          ap (λ it. length it.playback) it',
          length-append (q.items t.store).playback (malloced a ∷ []),
        ),
      )

  -- A look at the queue's length, which ends the wait of `Audio_start` exactly if it is 20 or more.
  looked_lem :
      (env : Env) (rounds size : ℕ) (w : World)
      → env.result w.log playback_size ≡ pos size
      → size < word
      → ((min_playback_queue_length ≤ size)
          × ((buffer_playback_queue env (suc rounds) w).0 ≡ ok tt))
        ⊎ ((size < min_playback_queue_length) × ((buffer_playback_queue env 1 w).0 ≡ unfinished))
  unfolding buffer_playback_queue
  looked_lem env rounds size w e small = ground arith

  -- Where the playback queue takes what it has a node for, and the containers hold no more than 300 frames: from
  -- before the loop's test, not told to stop, and with at least `n` buffers and no silence in the pool,
  -- `fillPlaybackQueue` can get to where the playback queue holds `n` frames more. If a look of
  -- `Audio_start` at the queue's length finds that, its wait ends with that look where those are 20
  -- frames or more in all, and does not end with it where they are fewer.
  pub Reach-filled :
      Accepts
      → (n rounds : ℕ) (t : Threads q.Store) (env : Threads q.Store → Env) (w : World)
      → ((u : Threads q.Store)
          → (env u).result w.log playback_size ≡ pos (length (q.items u.store).playback))
      → t.fill ≡ fill_test
      → t.stop_playback ≡ false
      → silences (q.items t.store).free ≡ 0
      → IsWithin (q.items t.store)
      → n ≤ length (q.items t.store).free
      → (u : Threads q.Store) × Reach q frame_count t u
        × (length (q.items u.store).playback ≡ length (q.items t.store).playback + n)
        × (((min_playback_queue_length ≤ length (q.items t.store).playback + n)
              × ((buffer_playback_queue (env u) (suc rounds) w).0 ≡ ok tt))
            ⊎ ((length (q.items t.store).playback + n < min_playback_queue_length)
                × ((buffer_playback_queue (env u) 1 w).0 ≡ unfinished)))
  Reach-filled accepts n rounds t env w looks at on clean within many =
      let (u, r, l) =
        Reach-filled_from accepts n (q.items t.store).free t at on refl clean within many in
      let now : (env u).result w.log playback_size ≡ pos (length (q.items t.store).playback + n) =
        looks u ∙ ap pos l in
      (u, r, l, looked_lem (env u) rounds _ w now (omega arith))
