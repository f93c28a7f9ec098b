-- ===== src/Audio/Threads/Runs.antt =====
-- Interleavings of the threads of src/audio.c as lists of moves, which can be run.
use bbg_vo_ip.Prelude.{ℕ, ◌≡◌, refl, subst, List, [], ◌∷◌, arith, true}
use bbg_vo_ip.Sys.{Result, ok, exits, fault, unfinished}
use bbg_vo_ip.Call.Datagram.{AudioCallbackResult}
use bbg_vo_ip.Audio.Frames.{Queues}
use bbg_vo_ip.Audio.Threads.{
  Threads, move_fill, move_flush, move_stream, Step, fills, flushes, streams, stops, Reach, here,
  next,
}

pub data Move : Type 0 where
  fill : AudioCallbackResult → List ℕ → Move
  flush : AudioCallbackResult → Move
  stream : List ℕ → Move
  stop : Move

abbrev and_then : {A B : Type 0} → Result A → (A → Result B) → Result B
and_then (ok a) f = f a
and_then (exits code) f = exits code
and_then fault f = fault
and_then unfinished f = unfinished

module _ (q : Queues) (frame_count : ℕ) where
  abbrev pub move : Move → Threads q.Store → Result (Threads q.Store)
  move (fill result source) t = move_fill q frame_count t.fill result source t
  move (flush result) t = move_flush q frame_count t.flush result t
  move (stream input) t = move_stream q frame_count t.stream input t
  move stop t = ok (record t { stop_playback = true; stop_recording = true })

  unfoldable pub run : List Move → Threads q.Store → Result (Threads q.Store)
  run [] t = ok t
  run (m ∷ ms) t = and_then (move m t) (run ms)

  move-Step : (m : Move) (t u : Threads q.Store) → move m t ≡ ok u → Step q frame_count t u
  move-Step (fill result source) t u e = fills result source e
  move-Step (flush result) t u e = flushes result e
  move-Step (stream input) t u e = streams input e
  move-Step stop t u e =
      let stopped : record t { stop_playback = true; stop_recording = true } ≡ u = ground arith in
      subst (λ v. Step q frame_count t v) stopped stops

  Reach-before :
      {t u v : Threads q.Store}
      → Step q frame_count t u
      → Reach q frame_count u v
      → Reach q frame_count t v
  Reach-before s here = next here s
  Reach-before s (next r s') = next (Reach-before s r) s'

  first_move :
      (m : Move) (t u : Threads q.Store) (more : Threads q.Store → Result (Threads q.Store))
      → ((v : Threads q.Store) → more v ≡ ok u → Reach q frame_count v u)
      → (r : Result (Threads q.Store)) → move m t ≡ r
      → and_then r more ≡ ok u
      → Reach q frame_count t u
  first_move m t u more rest (ok v) first h = Reach-before (move-Step m t v first) (rest v h)
  first_move m t u more rest (exits code) first h = cc
  first_move m t u more rest fault first h = cc
  first_move m t u more rest unfinished first h = cc

  -- What a list of moves leads to can be reached.
  pub run-Reach :
      (ms : List Move) (t u : Threads q.Store) → run ms t ≡ ok u → Reach q frame_count t u
  unfolding run
  run-Reach [] t u e = let same : t ≡ u = ground arith in subst (Reach q frame_count t) same here
  run-Reach (m ∷ ms) t u e = first_move m t u (run ms) (λ v. run-Reach ms v u) (move m t) refl e
