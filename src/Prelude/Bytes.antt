-- ===== src/Prelude/Bytes.antt =====
-- Memory as a list of bytes: what `memcpy` reads and writes, and when two regions do not meet.
use Prim.Native.Nat.{ℕ, zero, suc, ◌+◌, ◌≤◌}
use mathlib.Core.Path.{◌≡◌, refl, ap}
use mathlib.Core.List.{List, [], ◌∷◌}
use mathlib.Core.Option.{Option, none, some}
use native.Mathlib.Omega.{arith}
use bbg_vo_ip.Prelude.Tests.{leb, if◌then◌else◌}
use bbg_vo_ip.Prelude.Lists.{length, take, drop, length-take, length-drop, take-length}

-- The `n` bytes from offset `i` on.
abbrev pub slice : ℕ → ℕ → List ℕ → List ℕ
slice i n mem = take n (drop i mem)

-- The bytes `src` written over the front of a region.
abbrev pub overwrite : List ℕ → List ℕ → List ℕ
overwrite [] mem = mem
overwrite (s ∷ src) [] = []
overwrite (s ∷ src) (m ∷ mem) = s ∷ overwrite src mem

abbrev pub splice : ℕ → List ℕ → List ℕ → List ℕ
splice zero src mem = overwrite src mem
splice (suc i) src [] = []
splice (suc i) src (m ∷ mem) = m ∷ splice i src mem

-- A read or a write outside the region is a fault.
abbrev pub load : ℕ → ℕ → List ℕ → Option (List ℕ)
load i n mem = if leb (i + n) (length mem) then some (slice i n mem) else none

abbrev pub store : ℕ → List ℕ → List ℕ → Option (List ℕ)
store i src mem = if leb (i + length src) (length mem) then some (splice i src mem) else none

pub length-overwrite : (src mem : List ℕ) → length (overwrite src mem) ≡ length mem
length-overwrite [] mem = refl
length-overwrite (s ∷ src) [] = refl
length-overwrite (s ∷ src) (m ∷ mem) = ap suc (length-overwrite src mem)

pub length-splice : (i : ℕ) (src mem : List ℕ) → length (splice i src mem) ≡ length mem
length-splice zero src mem = length-overwrite src mem
length-splice (suc i) src [] = refl
length-splice (suc i) src (m ∷ mem) = ap suc (length-splice i src mem)

pub length-slice : (i n : ℕ) (mem : List ℕ) → i + n ≤ length mem → length (slice i n mem) ≡ n
length-slice i n mem h = omega (arith, length-take n (drop i mem), length-drop i mem)

take-overwrite :
    (src mem : List ℕ) → length src ≤ length mem → take (length src) (overwrite src mem) ≡ src
take-overwrite [] mem h = refl
take-overwrite (s ∷ src) [] h = absurd (omega arith)
take-overwrite (s ∷ src) (m ∷ mem) h = ap (λ l. s ∷ l) (take-overwrite src mem (omega arith))

-- What was written is read back.
pub slice-splice_self :
    (i : ℕ) (src mem : List ℕ)
    → i + length src ≤ length mem
    → slice i (length src) (splice i src mem) ≡ src
slice-splice_self zero src mem h = take-overwrite src mem (omega arith)
slice-splice_self (suc i) src [] h = absurd (omega arith)
slice-splice_self (suc i) src (m ∷ mem) h = slice-splice_self i src mem (omega arith)

-- A region that the write does not meet keeps its bytes.
pub slice-splice_below :
    (i j n : ℕ) (src mem : List ℕ) → j + n ≤ i → slice j n (splice i src mem) ≡ slice j n mem
slice-splice_below zero zero zero src mem h = refl
slice-splice_below zero zero (suc n) src mem h = absurd (omega arith)
slice-splice_below zero (suc j) n src mem h = absurd (omega arith)
slice-splice_below (suc i) j n src [] h = refl
slice-splice_below (suc i) zero zero src (m ∷ mem) h = refl
slice-splice_below (suc i) zero (suc n) src (m ∷ mem) h =
    ap (λ l. m ∷ l) (slice-splice_below i zero n src mem (omega arith))
slice-splice_below (suc i) (suc j) n src (m ∷ mem) h =
    slice-splice_below i j n src mem (omega arith)

drop-overwrite :
    (j : ℕ) (src mem : List ℕ) → length src ≤ j → drop j (overwrite src mem) ≡ drop j mem
drop-overwrite j [] mem h = refl
drop-overwrite zero (s ∷ src) mem h = absurd (omega arith)
drop-overwrite (suc j) (s ∷ src) [] h = refl
drop-overwrite (suc j) (s ∷ src) (m ∷ mem) h = drop-overwrite j src mem (omega arith)

drop-splice :
    (i j : ℕ) (src mem : List ℕ) → i + length src ≤ j → drop j (splice i src mem) ≡ drop j mem
drop-splice zero j src mem h = drop-overwrite j src mem (omega arith)
drop-splice (suc i) zero src mem h = absurd (omega arith)
drop-splice (suc i) (suc j) src [] h = refl
drop-splice (suc i) (suc j) src (m ∷ mem) h = drop-splice i j src mem (omega arith)

pub slice-splice_above :
    (i j n : ℕ) (src mem : List ℕ)
    → i + length src ≤ j
    → slice j n (splice i src mem) ≡ slice j n mem
slice-splice_above i j n src mem h = ap (take n) (drop-splice i j src mem h)

pub load-whole : (mem : List ℕ) → load 0 (length mem) mem ≡ some mem
load-whole mem = ground (arith, take-length mem)

-- A region written over as a whole.
pub overwrite-whole : (src mem : List ℕ) → length src ≡ length mem → overwrite src mem ≡ src
overwrite-whole [] [] h = refl
overwrite-whole [] (m ∷ mem) h = absurd (omega arith)
overwrite-whole (s ∷ src) [] h = absurd (omega arith)
overwrite-whole (s ∷ src) (m ∷ mem) h = ap (λ l. s ∷ l) (overwrite-whole src mem (omega arith))
