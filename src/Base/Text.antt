-- ===== src/Base/Text.antt =====
-- Texts: joining, as `fmt.Sprintf` and `+` do, and `strings.Contains`.
use Prim.Native.Char.{code}
use Prim.Native.String.{String, ◌++◌}
use Prim.Native.Nat.{ℕ}
use mathlib.Core.List.{List, [], ◌∷◌}
use mathlib.Core.Bool.{Bool, true, false, ◌&&◌, ◌||◌}
use rainbond_operator.Base.Tests.{◌==◌, nat_eq}

infixr 65 ◌<>◌
abbrev pub ◌<>◌ : String → String → String
s <> t = s ++ t

abbrev codes : String → List ℕ
codes String.[] = []
codes (String.◌∷◌ c s) = code c ∷ codes s

-- The first list is the start of the second.
unfoldable starts_with : List ℕ → List ℕ → Bool
starts_with [] ys = true
starts_with (x ∷ xs) [] = false
starts_with (x ∷ xs) (y ∷ ys) = x == y && starts_with xs ys

-- The first list stands in the second.
unfoldable occurs_in : List ℕ → List ℕ → Bool
unfolding starts_with
occurs_in xs [] = starts_with xs []
occurs_in xs (y ∷ ys) = starts_with xs (y ∷ ys) || occurs_in xs ys

-- `strings.Contains(s, part)`.
unfoldable pub text_contains : String → String → Bool
unfolding occurs_in
text_contains s part = occurs_in (codes part) (codes s)
