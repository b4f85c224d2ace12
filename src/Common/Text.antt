-- ===== src/Common/Text.antt =====
-- A text is the list of its characters' codes.
use Prim.Native.Nat.{ℕ}
use Prim.Native.Char.{code}
use Prim.Native.String.{String}
use mathlib.Core.Path.{◌≡◌, refl}
use mathlib.Core.Logic.{◌↔◌}
use mathlib.Core.Bool.{Bool, true, false, ◌&&◌}
use mathlib.Core.List.{List, [], ◌∷◌}
use native.Mathlib.Omega.{arith}
use mnser.Common.Tests.{◌==◌}

abbrev pub Text : Type 0
Text = List ℕ

abbrev pub codes : String → Text
codes String.[] = []
codes (String.◌∷◌ c s) = code c ∷ codes s

abbrev pub eq_text : Text → Text → Bool
eq_text [] [] = true
eq_text [] (y ∷ ys) = false
eq_text (x ∷ xs) [] = false
eq_text (x ∷ xs) (y ∷ ys) = x == y && eq_text xs ys

pub eq_text_iff : (s t : Text) → (eq_text s t ≡ true) ↔ (s ≡ t)
eq_text_iff [] [] = ((λ h. refl), (λ h. refl))
eq_text_iff [] (y ∷ ys) = ((λ h. cc), (λ h. cc))
eq_text_iff (x ∷ xs) [] = ((λ h. cc), (λ h. cc))
eq_text_iff (x ∷ xs) (y ∷ ys) =
    let ih = eq_text_iff xs ys in ((λ h. ground arith), (λ h. ground arith))

abbrev pub is_empty : Text → Bool
is_empty [] = true
is_empty (c ∷ s) = false
