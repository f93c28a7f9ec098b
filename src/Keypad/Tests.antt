-- ===== src/Keypad/Tests.antt =====
-- The keys `3` and `#` of src/keypad.c pressed one after the other.
use bbg_vo_ip.Prelude.{
  ◌≡◌, refl, Bool, true, false, [], Text, codes, ◌==◌, ◌||◌, if◌then◌else◌, none, ◌⊎◌, ◌≤◌, ◌<◌,
  length, before,
}
use bbg_vo_ip.Prelude.Int.{pos}
use bbg_vo_ip.Sys.{Env, Call, Log, ok, times, open_file, fault}
use bbg_vo_ip.Testing.{quiet}
use bbg_vo_ip.Keypad.{get_dial, scan_all, scan, hold, release, read_pin, Scan}
use bbg_vo_ip.Keypad.Typing.{IsTyped}
use bbg_vo_ip.Keypad.Number.{get_dial_lem}

abbrev opens : Call → Bool
opens (open_file path mode) = true
opens _ = false

-- The first pin reads 1 once and the fourth once; every other reading is 0.
abbrev pressed : Log → Text
unfolding times
pressed log =
    let count = times opens log in if (count == 1) || (count == 5) then codes "1\n" else codes "0\n"

abbrev typing : Env
typing = record {
  result = λ _ _. pos 1;
  bytes = λ _ _. [];
  text = λ log _. pressed log;
  inet_pton = λ _. none;
}

dial-three : (get_dial typing 3 [] quiet).0 ≡ ok (codes "3")
unfolding get_dial scan_all scan hold release read_pin times before
dial-three = refl

abbrev typed_three : Scan
typed_three = record { result = codes "0\n"; input = codes "3"; iter = 1 }

get_dial_lem_example :
    IsTyped (codes "3")
    × (length (codes "3") ≤ 26)
    × (((length (codes "3") < 15) × ((get_dial typing 3 [] quiet).0 ≡ ok (codes "3")))
        ⊎ ((15 ≤ length (codes "3")) × ((get_dial typing 3 [] quiet).0 ≡ fault)))
unfolding scan_all scan hold release read_pin times
get_dial_lem_example =
    get_dial_lem typing 3 [] typed_three quiet
      (scan_all typing 3 (record { result = []; input = []; iter = 0 }) quiet).1 refl
