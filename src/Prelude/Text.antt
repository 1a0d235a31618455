-- ===== src/Prelude/Text.antt =====
-- The code points of a text: its bytes, if it is ASCII.
use Prim.Native.Nat.{ℕ}
use Prim.Native.Char.{code}
use Prim.Native.String.{String}
use mathlib.Core.Path.{◌≡◌, refl}
use mathlib.Core.Logic.{◌↔◌}
use mathlib.Core.Bool.{Bool, true, false, ◌&&◌}
use mathlib.Core.List.{List, [], ◌∷◌}
use native.Mathlib.Omega.{arith}
use text.Mathlib.Text.{◌==◌}
use text.Mathlib.TextEquality.{eq_iff}

abbrev pub codes : String → List ℕ
codes String.[] = []
codes (String.◌∷◌ c s) = code c ∷ codes s

-- Equality of lists of texts.
unfoldable pub same_strings : List String → List String → Bool
same_strings [] [] = true
same_strings [] (b ∷ bs) = false
same_strings (a ∷ as') [] = false
same_strings (a ∷ as') (b ∷ bs) = a == b && same_strings as' bs

pub same_strings_iff : (xs ys : List String) → (same_strings xs ys ≡ true) ↔ (xs ≡ ys)
unfolding same_strings
same_strings_iff [] [] = ((λ e. refl), (λ e. refl))
same_strings_iff [] (y ∷ ys) = ground arith
same_strings_iff (x ∷ xs) [] = ground arith
same_strings_iff (x ∷ xs) (y ∷ ys) = grind (arith, eq_iff x y, same_strings_iff xs ys)
