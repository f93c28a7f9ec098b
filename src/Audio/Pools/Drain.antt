-- ===== src/Audio/Pools/Drain.antt =====
-- The loops of src/audio.c that empty a container of frame buffers come to their end, and what they leave.
use bbg_vo_ip.Prelude.{
  ℕ, zero, suc, ◌+◌, ◌<◌, ◌≤◌, ◌≡◌, ◌≢◌, refl, ap, sym, ◌∙◌, inl, inr, true, List, [], ◌∷◌, ◌++◌,
  arith, length, length-append,
}
use bbg_vo_ip.Sys.{ok}
use bbg_vo_ip.Audio.Frames.{
  Frame, Place, free_buffers, playback_queue, record_queue, Items, Queues, add_last, add_first,
  held_at, emptied,
}
use bbg_vo_ip.Audio.Pools.{free_buffer_count, clear_queue, clear_all_queues}
use mathlib.Core.List.{append_assoc, append-nil}

-- The pool takes a frame as long as it holds fewer than FREE_BUFFERS.
abbrev pub HasRoom : Queues → Type 0
HasRoom q =
    (f : Frame) (s : q.Store)
    → length (q.items s).free < free_buffer_count
    → (q.put free_buffers f s).0 ≡ true

-- `fs` put into the pool, and a container emptied into it.
abbrev pub pooled : List Frame → Items → Items
pooled fs it = record it { free = it.free ++ fs }

abbrev pub emptied_into_pool : Place → Items → Items
emptied_into_pool p it = emptied p (pooled (held_at p it) it)

-- What one round of emptying does to the items.
held_at-add_last :
    (p : Place) (f : Frame) (it : Items)
    → p ≢ free_buffers
    → held_at p (add_last free_buffers f it) ≡ held_at p it
held_at-add_last free_buffers f it h = absurd (h refl)
held_at-add_last playback_queue f it h = refl
held_at-add_last record_queue f it h = refl

held_at-add_first :
    (p : Place) (f : Frame) (it : Items)
    → p ≢ free_buffers
    → (held_at p (add_first p f it) ≡ f ∷ held_at p it) × ((add_first p f it).free ≡ it.free)
held_at-add_first free_buffers f it h = absurd (h refl)
held_at-add_first playback_queue f it h = (refl, refl)
held_at-add_first record_queue f it h = (refl, refl)

emptied_into_pool-add :
    (p : Place) (f : Frame) (it : Items)
    → p ≢ free_buffers
    → emptied_into_pool p (add_last free_buffers f it) ≡ emptied_into_pool p (add_first p f it)
emptied_into_pool-add free_buffers f it h = absurd (h refl)
emptied_into_pool-add playback_queue f it h =
    ap (λ l. record it { free = l; playback = [] }) (append_assoc it.free (f ∷ []) it.playback)
emptied_into_pool-add record_queue f it h =
    ap (λ l. record it { free = l; recorded = [] }) (append_assoc it.free (f ∷ []) it.recorded)

emptied_into_pool-empty :
    (p : Place) (it : Items) → p ≢ free_buffers → held_at p it ≡ [] → emptied_into_pool p it ≡ it
emptied_into_pool-empty free_buffers it h e = absurd (h refl)
emptied_into_pool-empty playback_queue it h e = ground (arith, append-nil it.free)
emptied_into_pool-empty record_queue it h e = ground (arith, append-nil it.free)

module _ (q : Queues) (room : HasRoom q) where
  pub items-put_free :
      (f : Frame) (s : q.Store)
      → length (q.items s).free < free_buffer_count
      → q.items (q.put free_buffers f s).1 ≡ add_last free_buffers f (q.items s)
  items-put_free f s h = ground (arith, room f s h, q.put_cases free_buffers f s)

  -- With more rounds than there are frames, the queue is emptied into the pool, in its order.
  clear_queue_lem :
      (p : Place) (rounds : ℕ) (s : q.Store)
      → p ≢ free_buffers
      → length (held_at p (q.items s)) < rounds
      → length (q.items s).free + length (held_at p (q.items s)) ≤ free_buffer_count
      → (s' : q.Store) × (clear_queue q p rounds s ≡ ok s')
        × (q.items s' ≡ emptied_into_pool p (q.items s))
  unfolding clear_queue
  clear_queue_lem p zero s ne short fits = absurd (omega arith)
  clear_queue_lem p (suc rounds) s ne short fits = elim (q.get_cases p s) [
    | inl (none_left, empty, same) ↦
        ((q.get p s).1, ground arith, same ∙ sym (emptied_into_pool-empty p (q.items s) ne empty))
    | inr (f, taken, before) ↦
        let s1 = (q.get p s).1 in
        let (more, free) = held_at-add_first p f (q.items s1) ne in
        let more' : held_at p (q.items s) ≡ f ∷ held_at p (q.items s1) =
          ap (held_at p) before ∙ more in
        let free' : (q.items s).free ≡ (q.items s1).free = ap (λ it. it.free) before ∙ free in
        let added = items-put_free f s1 (ground arith) in
        let s2 = (q.put free_buffers f s1).1 in
        let same_rest : held_at p (q.items s2) ≡ held_at p (q.items s1) =
          ap (held_at p) added ∙ held_at-add_last p f (q.items s1) ne in
        let free2 : (q.items s2).free ≡ (q.items s1).free ++ f ∷ [] = ap (λ it. it.free) added in
        let (s', cleared, left) =
          clear_queue_lem p rounds s2 ne (ground arith)
            (ground (arith, length-append (q.items s1).free (f ∷ []))) in
        (
          s',
          ground arith,
          left
              ∙ ap (emptied_into_pool p) added
              ∙ emptied_into_pool-add p f (q.items s1) ne
              ∙ sym (ap (emptied_into_pool p) before),
        )
  ]

  -- If the pool takes 300 frames and the three containers hold no more together, `clearAllQueues` ends, given
  -- more rounds than a queue holds frames, and then both queues are empty and the pool holds what
  -- they held, behind what it held before: also the constant silence where the record queue held that.
  pub clear_all_queues_lem :
      (rounds : ℕ) (s : q.Store)
      → length (q.items s).playback < rounds
      → length (q.items s).recorded < rounds
      → length (q.items s).free + length (q.items s).playback + length (q.items s).recorded
        ≤ free_buffer_count
      → (s' : q.Store) × (clear_all_queues q rounds s ≡ ok s')
        × (q.items s' ≡ record {
          free = ((q.items s).free ++ (q.items s).playback) ++ (q.items s).recorded;
          playback = [];
          recorded = [];
        })
  unfolding clear_all_queues
  clear_all_queues_lem rounds s hp hr fits =
      let (s1, cleared, left) =
        clear_queue_lem playback_queue rounds s (λ e. cc) hp (omega arith) in
      let recorded1 : (q.items s1).recorded ≡ (q.items s).recorded = ap (λ it. it.recorded) left in
      let free1 : (q.items s1).free ≡ (q.items s).free ++ (q.items s).playback =
        ap (λ it. it.free) left in
      let total = length-append (q.items s).free (q.items s).playback in
      let (s2, cleared2, left2) =
        clear_queue_lem record_queue rounds s1 (λ e. cc) (ground arith) (ground (arith, total)) in
      (s2, ground arith, left2 ∙ ap (emptied_into_pool record_queue) left)
