-- ===== src/Keypad/Number.antt =====
-- What KEYPAD_getDial of src/keypad.c can return.
use bbg_vo_ip.Prelude.{
  ℕ, ◌<◌, ◌≤◌, ◌≡◌, refl, arith, ◌⊎◌, inl, false, List, [], ◌∷◌, ◌++◌, Text, length, length-append,
  before, store, replicate, overwrite, none, some,
}
use bbg_vo_ip.Sys.{Env, ok, fault}
use bbg_vo_ip.World.{World, pure, Act, access_fault}
use bbg_vo_ip.Keypad.{Scan, scan_all, get_dial, dial_length, set_stop}
use bbg_vo_ip.World.Triple.{run_triple}
use bbg_vo_ip.Keypad.Typing.{IsTyped, scan_all-Passed}

-- What `ret_string` holds up to the NUL.
before-overwrite :
    (s : Text) (ret : List ℕ)
    → IsTyped s
    → length s < length ret
    → before 0 (overwrite (s ++ 0 ∷ []) ret) ≡ s
unfolding before
before-overwrite s [] t h = absurd (omega arith)
before-overwrite [] (d ∷ ret) t h = refl
before-overwrite (c ∷ s) (d ∷ ret) t h = ground (arith, before-overwrite s ret t.1 (omega arith))

-- What `sprintf` makes of the fifteen bytes.
abbrev printed : Text → Act Text
printed input = elim (store 0 (input ++ (0 ∷ [])) (replicate dial_length 0)) [
  | none ↦ access_fault
  | some ret_string ↦ pure (before 0 ret_string)
]

printed_lem :
    (s : Text) (w : World)
    → IsTyped s
    → ((length s < 15) × ((printed s w).0 ≡ ok s)) ⊎ ((15 ≤ length s) × ((printed s w).0 ≡ fault))
printed_lem s w t =
    ground (arith, length-append s (0 ∷ []), before-overwrite s (replicate dial_length 0) t)

module _ (env : Env) where
  -- Where its loop comes to an end, whatever the pins read, at most 26 characters were typed, each a digit or a
  -- point. If they are fewer than fifteen, `KEYPAD_getDial` returns just them; otherwise it writes past
  -- the fifteen bytes that it allocated.
  pub get_dial_lem :
      (rounds : ℕ) (unset : Text) (s : Scan) (w v : World)
      → scan_all env rounds (record { result = unset; input = []; iter = 0 }) w ≡ (ok s, v)
      → IsTyped s.input
        × (length s.input ≤ 26)
        × (((length s.input < 15) × ((get_dial env rounds unset w).0 ≡ ok s.input))
            ⊎ ((15 ≤ length s.input) × ((get_dial env rounds unset w).0 ≡ fault)))
  unfolding get_dial
  get_dial_lem rounds unset s w v e =
      let passed =
        run_triple (scan_all-Passed env rounds (record { result = unset; input = []; iter = 0 })) w
          v s ((refl, tt), inl (omega arith), omega arith) e in
      let (counted, typed) = passed.0 in
      (typed, ground arith, rw e (printed_lem s.input (set_stop false v).1 typed))
