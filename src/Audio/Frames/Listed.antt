-- ===== src/Audio/Frames/Listed.antt =====
-- Containers as plain lists, which keep what `Queues` asks of the two libraries: for the tests.
use bbg_vo_ip.Prelude.{
  ◌≡◌, refl, ◌⊎◌, inl, inr, Bool, true, false, List, [], ◌∷◌, Option, none, some, arith, length,
  ltb, if◌then◌else◌, Bool-cases,
}
use bbg_vo_ip.Audio.Frames.{
  Frame, Place, free_buffers, playback_queue, record_queue, Items, Queues, held_at, add_last,
  add_first, emptied,
}

-- The pool takes 300 frames, the queues any number.
abbrev pub takes : Place → Items → Bool
takes free_buffers it = ltb (length it.free) 300
takes _ it = true

abbrev pub put : Place → Frame → Items → Bool × Items
put p f it = if takes p it then (true, add_last p f it) else (false, it)

abbrev pub take_first : List Frame → (List Frame → Items) → Items → Option Frame × Items
take_first [] rest it = (none, it)
take_first (f ∷ fs) rest it = (some f, rest fs)

abbrev pub get : Place → Items → Option Frame × Items
get free_buffers it = take_first it.free (λ l. record it { free = l }) it
get playback_queue it = take_first it.playback (λ l. record it { playback = l }) it
get record_queue it = take_first it.recorded (λ l. record it { recorded = l }) it

pub put_cases :
    (p : Place) (f : Frame) (s : Items)
    → (((put p f s).0 ≡ true) × ((put p f s).1 ≡ add_last p f s))
      ⊎ (((put p f s).0 ≡ false) × ((put p f s).1 ≡ s))
put_cases p f s = elim (Bool-cases (takes p s)) [
  | inl room ↦ inl (rw room refl, rw room refl)
  | inr full ↦ inr (rw full refl, rw full refl)
]

List_cases : (fs : List Frame) → (fs ≡ []) ⊎ ((f : Frame) × (rest : List Frame) × (fs ≡ f ∷ rest))
List_cases [] = inl refl
List_cases (f ∷ fs) = inr (f, fs, refl)

pub get_cases :
    (p : Place) (s : Items)
    → (((get p s).0 ≡ none) × (held_at p s ≡ []) × ((get p s).1 ≡ s))
      ⊎ ((f : Frame) × ((get p s).0 ≡ some f) × (s ≡ add_first p f (get p s).1))
get_cases free_buffers s = elim (List_cases s.free) [
  | inl e ↦ inl (ground arith)
  | inr (f, rest, e) ↦ inr (f, ground arith, ground arith)
]
get_cases playback_queue s = elim (List_cases s.playback) [
  | inl e ↦ inl (ground arith)
  | inr (f, rest, e) ↦ inr (f, ground arith, ground arith)
]
get_cases record_queue s = elim (List_cases s.recorded) [
  | inl e ↦ inl (ground arith)
  | inr (f, rest, e) ↦ inr (f, ground arith, ground arith)
]

abbrev pub listed : Queues
listed = record {
  Store = Items;
  items = λ s. s;
  put = put;
  get = get;
  created = record { free = []; playback = []; recorded = [] };
  reset = emptied;
  created_empty = refl;
  reset_empties = λ p s. refl;
  put_cases = put_cases;
  get_cases = get_cases;
}
