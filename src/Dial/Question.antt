-- ===== src/Dial/Question.antt =====
-- When the question of DialService_start in src/dialservice.c comes to its end.
use bbg_vo_ip.Prelude.{ℕ, zero, suc, ◌≡◌, refl, ◌⊎◌, true, false, List, [], ◌∷◌, arith}
use bbg_vo_ip.Prelude.Int.{pos}
use bbg_vo_ip.Sys.{Env, unfinished, wait}
use bbg_vo_ip.World.{World, ◌>>=◌, call}
use bbg_vo_ip.Dial.{to_char, is_yes, is_no, ask_for_keypad, start}
use bbg_vo_ip.Terminal.{get_char, after_char, first_char}

-- A character that answers, and input that holds none.
abbrev pub IsAnswer : ℕ → Type 0
IsAnswer c = (is_yes (to_char (pos c)) ≡ true) ⊎ (is_no (to_char (pos c)) ≡ true)

abbrev pub Unanswered : List ℕ → Type 0
Unanswered [] = Unit
Unanswered (c ∷ rest) =
    (is_yes (to_char (pos c)) ≡ false) × (is_no (to_char (pos c)) ≡ false) × Unanswered rest

-- What `fgetc` gives next is no answer either, nor is the end of the file.
pub first_char-Unanswered :
    (input : List ℕ)
    → Unanswered input
    → (is_yes (to_char (first_char input)) ≡ false)
      × (is_no (to_char (first_char input)) ≡ false)
      × Unanswered (after_char input)
first_char-Unanswered [] h = (ground arith, ground arith, tt)
first_char-Unanswered (c ∷ input) h = h

module _ (env : Env) where
  -- The world after a character was read and the wait.
  abbrev waited : World → World
  waited w = ((get_char >>= λ c. call env (wait 100000000)) w).1

  ask_for_keypad-Unanswered :
      (rounds : ℕ) (w : World) → Unanswered w.stdin → (ask_for_keypad env rounds w).0 ≡ unfinished
  unfolding ask_for_keypad get_char
  ask_for_keypad-Unanswered zero w h = refl
  ask_for_keypad-Unanswered (suc rounds) w h =
      let (no_yes, no_no, later) = first_char-Unanswered w.stdin h in
      rw (no_yes, no_no) (ask_for_keypad-Unanswered rounds (waited w) later)

  -- If the terminal's input holds neither a `y` nor an `n`, `DialService_start` does not come back, in whatever
  -- number of rounds: the end of the file is not noticed.
  pub start-Unanswered :
      (rounds : ℕ) (w : World) → Unanswered w.stdin → (start env rounds w).0 ≡ unfinished
  unfolding start
  start-Unanswered rounds w h =
      ask_for_keypad-Unanswered rounds
        (record w { dial = record w.dial { stop = false; service_suspended = false } }) h
