-- ===== src/Base/Order.antt =====
-- The order of texts: comparing the other way round gives the opposite answer.
use Prim.Native.Nat.compare as compare_nat
use Prim.Native.Nat.{ℕ, zero, suc, Ordering, compare as compare_nat}
use Prim.Native.Char.{code}
use Prim.Native.String.compare
use Prim.Native.String.{String, [], ◌∷◌, compare, then}
use mathlib.Core.Path.{◌≡◌, refl, sym, ap, ◌∙◌}

abbrev opposite : Ordering → Ordering
opposite Ordering.lt = Ordering.gt
opposite Ordering.eq = Ordering.eq
opposite Ordering.gt = Ordering.lt

compare_nat-opposite : (m n : ℕ) → compare_nat n m ≡ opposite (compare_nat m n)
compare_nat-opposite zero zero = refl
compare_nat-opposite zero (suc n) =
    compare_nat.suc-zero n ∙ ap opposite (sym (compare_nat.zero-suc n))
compare_nat-opposite (suc m) zero =
    compare_nat.zero-suc m ∙ ap opposite (sym (compare_nat.suc-zero m))
compare_nat-opposite (suc m) (suc n) =
    compare_nat.suc-suc n m ∙ compare_nat-opposite m n ∙ ap opposite (sym (compare_nat.suc-suc m n))

then-opposite : (o p : Ordering) → then (opposite o) (opposite p) ≡ opposite (then o p)
then-opposite Ordering.lt p = refl
then-opposite Ordering.eq p = refl
then-opposite Ordering.gt p = refl

pub compare-opposite : (s t : String) → compare t s ≡ opposite (compare s t)
compare-opposite [] [] = refl
compare-opposite [] (d ∷ t) = compare.cons-nil d t ∙ ap opposite (sym (compare.nil-cons d t))
compare-opposite (c ∷ s) [] = compare.nil-cons c s ∙ ap opposite (sym (compare.cons-nil c s))
compare-opposite (c ∷ s) (d ∷ t) =
    compare.cons-cons d c t s
    ∙ rw (compare_nat-opposite (code c) (code d), compare-opposite s t)
        (then-opposite (compare_nat (code c) (code d)) (compare s t))
    ∙ ap opposite (sym (compare.cons-cons c d s t))
