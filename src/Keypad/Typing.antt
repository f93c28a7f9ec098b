-- ===== src/Keypad/Typing.antt =====
-- What the loops of KEYPAD_getDial in src/keypad.c type, and when they are told to stop.
use bbg_vo_ip.Prelude.{
  ℕ, zero, suc, ◌<◌, ◌≤◌, ◌≡◌, refl, arith, ◌⊎◌, inl, inr, true, false, not, cond, ◌&&◌, List, [],
  ◌∷◌, ◌++◌, Text, length, length-append, ◌==◌, ◌+◌, if◌then◌else◌, Bool,
}
use bbg_vo_ip.Sys.{Env, wait}
use bbg_vo_ip.World.{World, pure, gets, call, Act, ◌>>◌}
use bbg_vo_ip.Keypad.{
  Key, keys, Scan, is_hash, is_pressed, type_key, read_pin, release, hold, scan, scan_all,
  dial_length, set_stop, set_print_flag, is_released,
}
use bbg_vo_ip.World.Keeps.{Keeps}
use bbg_vo_ip.World.Triple.{
  Triple, triple, run_triple, Triple-pure, Triple-cond, Triple-cond_when, Triple->>=,
  Triple-Keeps_where,
}

-- The characters that a key can type: those of `KEYS` but `#`.
abbrev pub IsTyped : Text → Type 0
IsTyped [] = Unit
IsTyped (c ∷ s) = (((b'0' ≤ c) × (c ≤ b'9')) ⊎ (c ≡ b'.')) × IsTyped s

IsTyped-append :
    (s : Text) (c : ℕ) → IsTyped s → ((b'0' ≤ c) × (c ≤ b'9')) ⊎ (c ≡ b'.') → IsTyped (s ++ c ∷ [])
IsTyped-append [] c h hc = (hc, tt)
IsTyped-append (d ∷ s) c h hc = (h.0, IsTyped-append s c h.1 hc)

-- As many characters as `iter` counts.
abbrev pub Counted : Scan → Type 0
Counted s = (length s.input ≡ s.iter) × IsTyped s.input

-- A key is `#` or types a character.
abbrev Types : Key → Type 0
Types k = (is_hash k ≡ false) → (((b'0' ≤ k.char) × (k.char ≤ b'9')) ⊎ (k.char ≡ b'.'))

abbrev AllType : List Key → Type 0
AllType [] = Unit
AllType (k ∷ ks) = Types k × AllType ks

keys-AllType : AllType keys
keys-AllType = (
  (λ h. inl (omega arith, omega arith)),
  (
    (λ h. inl (omega arith, omega arith)),
    (
      (λ h. inl (omega arith, omega arith)),
      (
        (λ h. cc),
        (
          (λ h. inl (omega arith, omega arith)),
          (
            (λ h. inl (omega arith, omega arith)),
            (
              (λ h. inl (omega arith, omega arith)),
              (
                (λ h. inl (omega arith, omega arith)),
                (
                  (λ h. inl (omega arith, omega arith)),
                  (
                    (λ h. inl (omega arith, omega arith)),
                    ((λ h. inl (omega arith, omega arith)), ((λ h. inr refl), tt)),
                  ),
                ),
              ),
            ),
          ),
        ),
      ),
    ),
  ),
)

type_key-Counted :
    (k : Key) (s : Scan) → Types k → is_hash k ≡ false → Counted s → Counted (type_key k s)
type_key-Counted k s t h c = (
  omega (arith, length-append s.input (k.char ∷ []), c.0),
  IsTyped-append s.input k.char c.1 (t h),
)

-- The two flags of the loops: `stop` and `printFlag`.
abbrev flags : World → Bool × Bool
flags w = (w.keypad_stop, w.print_flag)

-- While a key is looked at: `stop` is set once fifteen characters were typed, and with the one that this key may
-- still type there are at most `n`.
abbrev At : ℕ → Scan → Bool × Bool → Type 0
At n s (stop, print) =
    Counted s × ((s.iter < 15) ⊎ (stop ≡ true)) × (s.iter + (if print then 1 else 0) ≤ n)

abbrev Held : ℕ → Scan → World → Type 0
Held n s w = At n s (flags w)

-- Between two keys.
abbrev Between : ℕ → Scan → World → Type 0
Between n s w = Counted s × ((s.iter < 15) ⊎ (w.keypad_stop ≡ true)) × (s.iter ≤ n)

module _ (env : Env) where
  read_pin-Keeps : (k : Key) (result : Text) → Keeps flags (read_pin env k result)
  unfolding read_pin
  read_pin-Keeps k result = record { at = λ w. ground arith }

  release-Held :
      (n rounds : ℕ) (k : Key) (s : Scan) (result : Text)
      → Triple (Held n s) (release env rounds k result) (λ _. Held n s)
  unfolding release
  release-Held n zero k s result = triple (λ w w' r h e. cc)
  release-Held n (suc rounds) k s result =
      Triple->>= (Held n s) (λ _. Held n s) (λ _. Held n s) (set_stop true)
        (triple (λ w w' r h e. ground arith))
        (λ _.
          Triple->>= (Held n s) (λ _. Held n s) (λ _. Held n s) (read_pin env k result)
            (Triple-Keeps_where (At n s) (read_pin-Keeps k result))
            (λ result'.
              Triple-cond (Held n s) (λ _. Held n s) (is_released result')
                (Triple-pure (Held n s) (λ _. Held n s) result' (λ w h. h))
                (Triple->>= (Held n s) (λ _. Held n s) (λ _. Held n s) (call env (wait 50000000))
                  (triple (λ w w' r h e. ground arith)) (λ _. release-Held n rounds k s result'))))

  typed-Held :
      (n : ℕ) (k : Key)
      → Types k
      → (s' : Scan) (rest : Act Scan) → Triple (Held n (type_key k s')) rest (Held n)
      → is_hash k ≡ false
      → Triple
          (λ w. Held n s' w × (w.print_flag ≡ true))
          (do
            set_print_flag false
            cond
                ((type_key k s').iter == dial_length)
                (do set_stop true; pure (type_key k s'))
                rest)
          (Held n)
  typed-Held n k t s' rest hr no_hash =
      Triple->>= (λ w. Held n s' w × (w.print_flag ≡ true)) (Held n)
        (λ _ w. Held n s' w × (s'.iter < n) × (w.print_flag ≡ false)) (set_print_flag false)
        (triple (λ w w' r h e. ground arith))
        (λ _.
          Triple-cond_when (λ w. Held n s' w × (s'.iter < n) × (w.print_flag ≡ false)) (Held n)
            ((type_key k s').iter == dial_length)
            (λ full.
              Triple->>= (λ w. Held n s' w × (s'.iter < n) × (w.print_flag ≡ false)) (Held n)
                (λ _. Held n (type_key k s')) (set_stop true)
                (triple (λ w w' r h e. ground (arith, type_key-Counted k s' t no_hash h.0.0)))
                (λ _. Triple-pure (Held n (type_key k s')) (Held n) (type_key k s') (λ w h. h)))
            (λ more. triple (λ w w' r h e.
              run_triple hr w w' r (ground (arith, type_key-Counted k s' t no_hash h.0.0)) e)))

  printed-Held :
      (n rounds : ℕ) (k : Key) (s' : Scan) (flag : Bool)
      → Types k
      → Triple (Held n (type_key k s')) (hold env rounds k (type_key k s')) (Held n)
      → Triple (Held n s') (hold env rounds k s') (Held n)
      → Triple
          (λ w. Held n s' w × (w.print_flag ≡ flag))
          (cond
            (flag && not (is_hash k))
            (do
              set_print_flag false
              cond
                  ((type_key k s').iter == dial_length)
                  (do set_stop true; pure (type_key k s'))
                  (hold env rounds k (type_key k s')))
            (hold env rounds k s'))
          (Held n)
  printed-Held n rounds k s' flag t again' again =
      Triple-cond_when (λ w. Held n s' w × (w.print_flag ≡ flag)) (Held n) (flag && not (is_hash k))
        (λ on. triple (λ w w' r h e.
          run_triple (typed-Held n k t s' (hold env rounds k (type_key k s')) again' (ground arith))
            w w' r (h.0, ground arith) e))
        (λ off. triple (λ w w' r h e. run_triple again w w' r h.0 e))

  hold-Held :
      (n rounds : ℕ) (k : Key) (s : Scan)
      → Types k
      → Triple (Held n s) (hold env rounds k s) (Held n)
  unfolding hold
  hold-Held n zero k s t = triple (λ w w' r h e. cc)
  hold-Held n (suc rounds) k s t =
      Triple-cond (Held n s) (Held n) (not (is_pressed s.result))
        (Triple-pure (Held n s) (Held n) s (λ w h. h))
        (Triple->>= (Held n s) (Held n) (λ _. Held n s) (read_pin env k s.result)
          (Triple-Keeps_where (At n s) (read_pin-Keeps k s.result))
          (λ read.
            Triple->>= (Held n s) (Held n) (λ _. Held n s)
              (cond (is_hash k) (release env rounds k read) (pure read))
              (Triple-cond (Held n s) (λ _. Held n s) (is_hash k) (release-Held n rounds k s read)
                (Triple-pure (Held n s) (λ _. Held n s) read (λ w h. h)))
              (λ result.
                Triple->>= (Held n s) (Held n) (λ flag w. Held n s w × (w.print_flag ≡ flag))
                  (gets (λ w. w.print_flag)) (triple (λ w w' flag h e. ground arith))
                  (λ flag.
                    printed-Held n rounds k (record s { result = result }) flag t
                      (hold-Held n rounds k (type_key k (record s { result = result })) t)
                      (hold-Held n rounds k (record s { result = result }) t)))))

  scan-Between :
      (n rounds : ℕ) (ks : List Key) (s : Scan)
      → AllType ks
      → Triple (Between n s) (scan env rounds ks s) (Between (n + length ks))
  unfolding scan
  scan-Between n rounds [] s t = Triple-pure (Between n s) (Between (n + 0)) s (λ w h. ground arith)
  scan-Between n rounds (k ∷ ks) s t =
      Triple->>= (Between n s) (Between (n + suc (length ks))) (λ _. Between n s)
        (read_pin env k s.result)
        (Triple-Keeps_where (λ f. Counted s × ((s.iter < 15) ⊎ (f.0 ≡ true)) × (s.iter ≤ n))
          (read_pin-Keeps k s.result))
        (λ result.
          Triple->>= (Between n s) (Between (n + suc (length ks)))
            (λ _. Held (n + 1) (record s { result = result })) (set_print_flag true)
            (triple (λ w w' r h e. ground arith))
            (λ _.
              Triple->>= (Held (n + 1) (record s { result = result }))
                (Between (n + suc (length ks))) (Held (n + 1))
                (hold env rounds k (record s { result = result }))
                (hold-Held (n + 1) rounds k (record s { result = result }) t.0)
                (λ s'. triple (λ w w' r h e. ground (
                  arith,
                  run_triple (scan-Between (n + 1) rounds ks s' t.1) w w' r (ground arith) e,
                )))))

  -- Before a pass over the keys.
  abbrev pub Passed : Scan → World → Type 0
  Passed s w = Counted s × ((s.iter < 15) ⊎ (w.keypad_stop ≡ true)) × (s.iter ≤ 26)

  pub scan_all-Passed : (rounds : ℕ) (s : Scan) → Triple (Passed s) (scan_all env rounds s) Passed
  unfolding scan_all
  scan_all-Passed zero s = triple (λ w w' r h e. cc)
  scan_all-Passed (suc rounds) s =
      Triple->>= (Passed s) Passed (λ stopped w. Passed s w × (w.keypad_stop ≡ stopped))
        (gets (λ w. w.keypad_stop)) (triple (λ w w' r h e. ground arith))
        (λ stopped.
          Triple-cond_when (λ w. Passed s w × (w.keypad_stop ≡ stopped)) Passed stopped
            (λ on. Triple-pure (λ w. Passed s w × (w.keypad_stop ≡ stopped)) Passed s (λ w h. h.0))
            (λ off.
              Triple->>= (λ w. Passed s w × (w.keypad_stop ≡ stopped)) Passed (λ _. Between 14 s)
                (call env (wait 50000000)) (triple (λ w w' r h e. ground arith))
                (λ _.
                  Triple->>= (Between 14 s) Passed (Between 26) (scan env rounds keys s)
                    (scan-Between 14 rounds keys s keys-AllType)
                    (λ s'. scan_all-Passed rounds s'))))
