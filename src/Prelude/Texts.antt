-- ===== src/Prelude/Texts.antt =====
-- C strings as lists of bytes, without the NUL that ends them.
use Prim.Native.Nat.{ℕ}
use Prim.Native.Char.{code}
use Prim.Native.String.{String}
use mathlib.Core.Path.{◌≡◌, refl}
use mathlib.Core.Logic.{◌↔◌, ◌≢◌}
use mathlib.Core.Bool.{Bool, true, false, ◌&&◌}
use mathlib.Core.List.{List, [], ◌∷◌}
use native.Mathlib.Omega.{arith}
use bbg_vo_ip.Prelude.Tests.{◌==◌, if◌then◌else◌}

abbrev pub Text : Type 0
Text = List ℕ

-- The bytes of a literal.
abbrev pub codes : String → Text
codes String.[] = []
codes (String.◌∷◌ c s) = code c ∷ codes s

-- `strcmp(s, t) == 0`
unfoldable pub same_text : Text → Text → Bool
same_text [] [] = true
same_text [] (y ∷ t) = false
same_text (x ∷ s) [] = false
same_text (x ∷ s) (y ∷ t) = x == y && same_text s t

pub same_text_iff : (s t : Text) → (same_text s t ≡ true) ↔ (s ≡ t)
unfolding same_text
same_text_iff [] [] = (λ _. refl, λ _. refl)
same_text_iff [] (y ∷ t) = (λ h. cc, λ h. cc)
same_text_iff (x ∷ s) [] = (λ h. cc, λ h. cc)
same_text_iff (x ∷ s) (y ∷ t) = ground (arith, same_text_iff s t)

-- What stands before the first `stop`: the text in a buffer, or a line without its newline.
unfoldable pub before : ℕ → Text → Text
before stop [] = []
before stop (x ∷ s) = let rest = before stop s in if x == stop then [] else x ∷ rest

-- Texts that the test tells apart differ.
pub ne_of_same_text : (s t : Text) → same_text s t ≡ false → s ≢ t
ne_of_same_text s t h e = ground (arith, same_text_iff s t)
