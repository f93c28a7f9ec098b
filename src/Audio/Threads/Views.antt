-- ===== src/Audio/Threads/Views.antt =====
-- What a list of pointers of src/audio.c stands for, and when a write does not change that.
use bbg_vo_ip.Prelude.{ℕ, ◌≡◌, refl, ap, List, [], ◌∷◌, ◌++◌, arith}
use bbg_vo_ip.Audio.Frames.{Frame, total_silence, malloced, weight, total, only}
use bbg_vo_ip.Audio.Threads.{samples, write}

-- What a list of pointers stands for, each frame cut by `cut`.
unfoldable pub frames : (List ℕ → List ℕ) → (ℕ → List ℕ) → List Frame → List (List ℕ)
frames cut memory [] = []
frames cut memory (f ∷ fs) = cut (samples memory f) ∷ frames cut memory fs

pub frames-append :
    (cut : List ℕ → List ℕ) (memory : ℕ → List ℕ) (fs : List Frame) (f : Frame)
    → frames cut memory (fs ++ f ∷ []) ≡ frames cut memory fs ++ cut (samples memory f) ∷ []
unfolding frames
frames-append cut memory [] f = refl
frames-append cut memory (g ∷ fs) f =
    ap (λ l. cut (samples memory g) ∷ l) (frames-append cut memory fs f)

pub samples-write :
    (memory : ℕ → List ℕ) (a : ℕ) (x : List ℕ) (f : Frame)
    → weight (only a) f ≡ 0
    → samples (write a x memory) f ≡ samples memory f
samples-write memory a x total_silence h = refl
samples-write memory a x (malloced b) h = ground arith

-- Writing to a buffer that is not in a list does not change what the list stands for.
pub frames-write :
    (cut : List ℕ → List ℕ) (memory : ℕ → List ℕ) (a : ℕ) (x : List ℕ) (fs : List Frame)
    → total (only a) fs ≡ 0
    → frames cut (write a x memory) fs ≡ frames cut memory fs
unfolding frames total
frames-write cut memory a x [] h = refl
frames-write cut memory a x (f ∷ fs) h =
    rw (samples-write memory a x f (omega (arith, h)))
      (ap (λ l. cut (samples memory f) ∷ l) (frames-write cut memory a x fs (omega (arith, h))))
