-- ===== src/Audio/Pools/Counts.antt =====
-- How many buffers a list of pointers of src/audio.c holds.
use bbg_vo_ip.Prelude.{
  ℕ, zero, suc, ◌+◌, ◌≡◌, refl, ap, ◌&&◌, List, [], ◌∷◌, ◌++◌, arith, length, if◌then◌else◌, ltb,
  leb,
}
use bbg_vo_ip.Audio.Frames.{Frame, total_silence, malloced, total, only, each}
use bbg_vo_ip.Audio.Threads.Exclusive.{silences}

-- Buffers numbered from `a` on.
unfoldable pub numbered : ℕ → ℕ → List Frame
numbered zero a = []
numbered (suc n) a = malloced a ∷ numbered n (suc a)

pub length-numbered : (n a : ℕ) → length (numbered n a) ≡ n
unfolding numbered
length-numbered zero a = refl
length-numbered (suc n) a = ap suc (length-numbered n (suc a))

pub silences-numbered : (n a : ℕ) → silences (numbered n a) ≡ 0
unfolding numbered silences
silences-numbered zero a = refl
silences-numbered (suc n) a = omega (arith, silences-numbered n (suc a))

pub only-numbered :
    (n a b : ℕ) → total (only b) (numbered n a) ≡ (if leb a b && ltb b (a + n) then 1 else 0)
unfolding numbered total
only-numbered zero a b = ground arith
only-numbered (suc n) a b = ground (arith, only-numbered n (suc a) b)

pub each-numbered : (n a : ℕ) → total each (numbered n a) ≡ n
unfolding numbered total
each-numbered zero a = refl
each-numbered (suc n) a = omega (arith, each-numbered n (suc a))

pub total-join : (v : ℕ → ℕ) (fs gs : List Frame) → total v (fs ++ gs) ≡ total v fs + total v gs
unfolding total
total-join v [] gs = omega arith
total-join v (f ∷ fs) gs = omega (arith, total-join v fs gs)

pub silences-join : (fs gs : List Frame) → silences (fs ++ gs) ≡ silences fs + silences gs
unfolding silences
silences-join [] gs = omega arith
silences-join (f ∷ fs) gs = omega (arith, silences-join fs gs)

-- A list is as long as it has buffers and silences.
pub length-frames : (fs : List Frame) → length fs ≡ total each fs + silences fs
unfolding total silences
length-frames [] = refl
length-frames (total_silence ∷ fs) = omega (arith, length-frames fs)
length-frames (malloced a ∷ fs) = omega (arith, length-frames fs)
