-- ===== src/Bench/Loop/Conserve.antt =====
-- Where the frame buffers of src/main_nonblocking_audio.c are.
use bbg_vo_ip.Prelude.{
  ℕ, ◌+◌, ◌≡◌, ◌≢◌, refl, ◌∙◌, inl, inr, List, [], ◌∷◌, arith, if◌then◌else◌, Bool, true, false,
  zero, suc, leb, ltb, ◌&&◌, ◌<◌, ap,
}
use bbg_vo_ip.Sys.{Result, ok, fault, exits, unfinished}
use bbg_vo_ip.Audio.Frames.{
  Frame, total_silence, malloced, free_buffers, playback_queue, record_queue, Queues, weight, total,
  only, each,
}
use bbg_vo_ip.Audio.Threads.{unless}
use bbg_vo_ip.Audio.Threads.Conserve.{stored, stored-put, stored-get}
use bbg_vo_ip.Audio.Threads.Exclusive.{
  is_silence, misplaced, misplaced-put, misplaced-get, silences,
}
use bbg_vo_ip.Bench.Loop.{
  Fill, fill_take, fill_put, Flush, flush_take, flush_give_back, Callback, idle, give_back,
  take_free, send, Loop, move_fill, move_flush, move_callback, Move, fills, flushes, calls_back,
  Reach, here, next, add_buffers, started, free_buffer_count,
}

-- What is in the hands of each of them.
abbrev pub in_fill : Fill → List Frame
in_fill fill_take = []
in_fill (fill_put f) = f ∷ []

abbrev pub in_flush : Flush → List Frame
in_flush flush_take = []
in_flush (flush_give_back f) = f ∷ []

abbrev pub in_callback : Callback → List Frame
in_callback (give_back f input) = f ∷ []
in_callback (send f) = f ∷ []
in_callback _ = []

-- The silence that one of them will give to the pool or to the receiving queue.
abbrev pub silence_in_fill : Fill → ℕ
silence_in_fill fill_take = 0
silence_in_fill (fill_put f) = is_silence f

abbrev pub silence_in_flush : Flush → ℕ
silence_in_flush flush_take = 0
silence_in_flush (flush_give_back f) = is_silence f

abbrev pub silence_in_callback : Callback → ℕ
silence_in_callback (give_back f input) = is_silence f
silence_in_callback _ = 0

module _ (q : Queues) where
  -- What all buffers weigh, wherever they are.
  abbrev pub places : (ℕ → ℕ) → Loop q.Store → ℕ
  places v t =
      stored v (q.items t.store)
      + total v (in_fill t.fill)
      + total v (in_flush t.flush)
      + total v (in_callback t.callback)
      + total v t.leaked

  -- No silence is where a buffer to write to is looked for, or on its way there.
  abbrev pub IsSound : Loop q.Store → Type 0
  IsSound t =
      misplaced (q.items t.store)
        + silence_in_fill t.fill
        + silence_in_flush t.flush
        + silence_in_callback t.callback
      ≡ 0

  module _ (frame_count : ℕ) (v : ℕ → ℕ) where
    -- What a move gives: no fault, and a sound state of the same weight.
    abbrev Good : Loop q.Store → Result (Loop q.Store) → Type 0
    Good t (ok u) = IsSound u × (places v u ≡ places v t)
    Good t _ = ⊥

    -- What a refused `put` leaks weighs what it does not store.
    total-unless :
        (done : Bool) (f : Frame) (fs : List Frame)
        → total v (unless done f fs) ≡ total v fs + (if done then 0 else weight v f)
    unfolding total
    total-unless true f fs = omega arith
    total-unless false f fs = omega arith

    move_fill-Good :
        (pc : Fill) (noise : List ℕ) (t : Loop q.Store)
        → t.fill ≡ pc
        → IsSound t
        → Good t (move_fill q frame_count pc noise t)
    unfolding move_fill total
    move_fill-Good fill_take noise t at h =
        let less = misplaced-get q free_buffers t.store in
        let kept = stored-get q v free_buffers t.store in
        elim (q.get_cases free_buffers t.store) [
          | inl (none_left, _, same) ↦ rw (none_left, Good) (ground arith, ground arith)
          | inr (total_silence, taken, before) ↦ ground arith
          | inr (malloced a, taken, before) ↦ rw (taken, Good) (ground arith, ground arith)
        ]
    move_fill-Good (fill_put f) noise t at h =
        let more = misplaced-put q playback_queue f t.store in
        let kept = stored-put q v playback_queue f t.store in
        let leaks = total-unless (q.put playback_queue f t.store).0 f t.leaked in
        (ground arith, ground arith)

    move_flush-Good :
        (pc : Flush) (t : Loop q.Store)
        → t.flush ≡ pc
        → IsSound t
        → Good t (move_flush q frame_count pc t)
    unfolding move_flush total
    move_flush-Good flush_take t at h =
        let less = misplaced-get q record_queue t.store in
        let kept = stored-get q v record_queue t.store in
        elim (q.get_cases record_queue t.store) [
          | inl (none_left, _, same) ↦ rw (none_left, Good) (ground arith, ground arith)
          | inr (total_silence, taken, before) ↦ rw (taken, Good) (ground arith, ground arith)
          | inr (malloced a, taken, before) ↦ rw (taken, Good) (ground arith, ground arith)
        ]
    move_flush-Good (flush_give_back f) t at h =
        let more = misplaced-put q free_buffers f t.store in
        let kept = stored-put q v free_buffers f t.store in
        let leaks = total-unless (q.put free_buffers f t.store).0 f t.leaked in
        (ground arith, ground arith)

    move_callback-Good :
        (pc : Callback) (input : List ℕ) (t : Loop q.Store)
        → t.callback ≡ pc
        → IsSound t
        → Good t (move_callback q frame_count pc input t)
    unfolding move_callback total
    move_callback-Good idle input t at h =
        let less = misplaced-get q playback_queue t.store in
        let kept = stored-get q v playback_queue t.store in
        elim (q.get_cases playback_queue t.store) [
          | inl (none_left, _, same) ↦ rw (none_left, Good) (ground arith, ground arith)
          | inr (f, taken, before) ↦ rw (taken, Good) (ground arith, ground arith)
        ]
    move_callback-Good (give_back f input) input' t at h =
        let more = misplaced-put q free_buffers f t.store in
        let kept = stored-put q v free_buffers f t.store in
        let leaks = total-unless (q.put free_buffers f t.store).0 f t.leaked in
        (ground arith, ground arith)
    move_callback-Good (take_free input) input' t at h =
        let less = misplaced-get q free_buffers t.store in
        let kept = stored-get q v free_buffers t.store in
        elim (q.get_cases free_buffers t.store) [
          | inl (none_left, _, same) ↦ rw (none_left, Good) (ground arith, ground arith)
          | inr (total_silence, taken, before) ↦ ground arith
          | inr (malloced a, taken, before) ↦ rw (taken, Good) (ground arith, ground arith)
        ]
    move_callback-Good (send f) input t at h =
        let more = misplaced-put q record_queue f t.store in
        let kept = stored-put q v record_queue f t.store in
        let leaks = total-unless (q.put record_queue f t.store).0 f t.leaked in
        (ground arith, ground arith)

    Move-Good :
        {t : Loop q.Store} {r : Result (Loop q.Store)}
        → Move q frame_count t r
        → IsSound t
        → Good t r
    Move-Good {t} (fills noise) h = move_fill-Good t.fill noise t refl h
    Move-Good {t} (flushes) h = move_flush-Good t.flush t refl h
    Move-Good {t} (calls_back input) h = move_callback-Good t.callback input t refl h

    Reach-Good : {t u : Loop q.Store} → Reach q frame_count t u → IsSound t → Good t (ok u)
    Reach-Good here h = (h, refl)
    Reach-Good (next r m) h =
        let (sound, same) = Reach-Good r h in
        let (sound', same') = Move-Good m sound in (sound', same' ∙ same)

  module _ (frame_count : ℕ) (b : ℕ) where
    -- The buffer `b` comes into the pool, or is lost to a refused `put`, just once.
    add_buffers-places :
        (n a : ℕ) (t : Loop q.Store)
        → places (only b) (add_buffers q frame_count n a t)
          ≡ places (only b) t + (if leb a b && ltb b (a + n) then 1 else 0)
    unfolding add_buffers
    add_buffers-places zero a t = ground arith
    add_buffers-places (suc n) a t =
        let kept = stored-put q (only b) free_buffers (malloced a) t.store in
        let leaks =
          total-unless frame_count (only b) (q.put free_buffers (malloced a) t.store).0 (malloced a)
            t.leaked in
        add_buffers-places n (suc a) _ ∙ ground arith

    add_buffers-IsSound :
        (n a : ℕ) (t : Loop q.Store) → IsSound t → IsSound (add_buffers q frame_count n a t)
    unfolding add_buffers
    add_buffers-IsSound zero a t h = h
    add_buffers-IsSound (suc n) a t h =
        let more = misplaced-put q free_buffers (malloced a) t.store in
        add_buffers-IsSound n (suc a) _ (ground arith)

  created_nothing :
      (v : ℕ → ℕ) → (misplaced (q.items q.created) ≡ 0) × (stored v (q.items q.created) ≡ 0)
  unfolding silences total
  created_nothing v = (ap misplaced q.created_empty, ap (stored v) q.created_empty)

  started-IsSound : (frame_count b : ℕ) → IsSound (started q frame_count)
  started-IsSound frame_count b =
      add_buffers-IsSound frame_count b free_buffer_count 0 _
        (omega (arith, (created_nothing each).0))

  started-places :
      (frame_count b : ℕ) → b < free_buffer_count → places (only b) (started q frame_count) ≡ 1
  started-places frame_count b below =
      add_buffers-places frame_count b free_buffer_count 0 _
      ∙ ground (arith, (created_nothing (only b)).1, below)

  -- In every interleaving of the two threads and the callback from the start of `main` on, no move is a
  -- fault, so the constant silence is never written to nor taken for a buffer, and each of the 300 buffers
  -- is in one place: in a container, in the hands of one of the three, or leaked by a refused `put`.
  pub Reach-once :
      (frame_count b : ℕ) (u : Loop q.Store) (r : Result (Loop q.Store))
      → b < free_buffer_count
      → Reach q frame_count (started q frame_count) u
      → Move q frame_count u r
      → (r ≢ fault) × (places (only b) u ≡ 1)
  Reach-once frame_count b u r below reach move =
      let (sound, same) = Reach-Good frame_count (only b) reach (started-IsSound frame_count b) in
      (
        not_fault r (Move-Good frame_count (only b) move sound),
        same ∙ started-places frame_count b below,
      )
    where
      not_fault : (r : Result (Loop q.Store)) → Good frame_count (only b) u r → r ≢ fault
      not_fault (ok w) good = λ e. cc
      not_fault (exits code) good = absurd good
      not_fault fault good = absurd good
      not_fault unfinished good = absurd good
