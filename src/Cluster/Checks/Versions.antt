-- ===== src/Cluster/Checks/Versions.antt =====
-- Which versions of Kubernetes pass the check of precheck/k8sversion.go, which compares texts.
use Prim.Native.Nat.{Ordering, compare as compare_ℕ}
use Prim.Native.Char.{Char, code}
use Prim.Native.String.{◌∷◌ as cons, compare, then as and_then}
use Prim.Native.String.compare
use rainbond_operator.Base.{◌<◌, String, List, ◌∷◌, ◌≡◌, arith, false, ◌==◌, string_eq, ◌∙◌}
use rainbond_operator.Kube.{ok}
use rainbond_operator.Cluster.Checks.{passed, check_k8s_version, str_ltb}

-- A version `v1.d…`.
abbrev pub version_1 : Char → String → String
version_1 d rest = cons "v" (cons "1" (cons "." (cons d rest)))

not_empty : (d : Char) (rest : String) → (version_1 d rest == "") ≡ false
not_empty d rest =
    let e : compare (version_1 d rest) "" ≡ Ordering.gt = compare.cons-nil _ _ in rw e

not_below :
    (d : Char) (rest : String)
    → code "1" < code d
    → compare (version_1 d rest) "v1.13.0" ≡ Ordering.gt
not_below d rest h =
    let a : compare (version_1 d rest) "v1.13.0"
        ≡ compare (cons "1" (cons "." (cons d rest))) "1.13.0" =
      compare.cons-cons "v" "v" _ "1.13.0" in
    let b : compare (cons "1" (cons "." (cons d rest))) "1.13.0"
        ≡ compare (cons "." (cons d rest)) ".13.0" =
      compare.cons-cons "1" "1" _ ".13.0" in
    let c : compare (cons "." (cons d rest)) ".13.0" ≡ compare (cons d rest) "13.0" =
      compare.cons-cons "." "." _ "13.0" in
    let f : compare (cons d rest) "13.0"
        ≡ and_then (compare_ℕ (code d) (code "1")) (compare rest "3.0") =
      compare.cons-cons d "1" rest "3.0" in
    let g : compare_ℕ (code d) (code "1") ≡ Ordering.gt = ground arith in a ∙ (b ∙ (c ∙ (f ∙ rw g)))

-- The check passes every version `v1.d…` whose minor version begins with a digit above 1, so with
-- `v1.2` up to `v1.9` also versions before 1.13.
pub check_k8s_version-minor :
    (d : Char) (rest : String) (others : List String)
    → code "1" < code d
    → check_k8s_version (ok (version_1 d rest ∷ others)) ≡ passed
unfolding check_k8s_version
check_k8s_version-minor d rest others h =
    rw (not_empty d rest) (rw (not_empty d rest) (rw (not_below d rest h, str_ltb)))
