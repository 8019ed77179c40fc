-- ===== src/Package/Moves.antt =====
-- The order of the conditions under the steps of the package reconciler that set a status.
use rainbond_operator.Base.{Bool, true, false, ◌&&◌, ◌==◌, ◌≡◌, refl, arith, ap, ◌∙◌}
use rainbond_operator.Api.{PackageConditionType, PackageConditionStatus, init, completed}
use rainbond_operator.Kube.{Response, ok, err}
use rainbond_operator.Package.Status.{find_condition, type_eq, phase_eq}
use rainbond_operator.Package.Env.{Env, Failure, Pkg, P, ◌>>=◌, ◌>>◌, modify, call}
use rainbond_operator.Package.Pull.{set_status}
use rainbond_operator.Package.Phases.{is_done, is_found, Steady, is_done-update_condition_status}
use rainbond_operator.Package.Order.{
  IsDue, IsOrdered, change, change-IsDue, change-IsOrdered, change_init-IsOrdered, same-IsDue,
  same-IsOrdered,
}

module _ {E : Env} where
  open E use {World, Err}

  -- Which conditions are completed.
  abbrev pub view : Pkg E → PackageConditionType → Bool
  view s t = is_done t s.pkg.status.conditions

  -- A step that keeps the order.
  pub record Keeps {A : Type 0} (m : P E A) : Type 0 where
    pub keeps : (s : Pkg E) → IsOrdered (view s) → IsOrdered (view (m s).1)

  -- A step that keeps the order where it is the turn of a condition.
  pub record KeepsDue {A : Type 0} (t : PackageConditionType) (m : P E A) : Type 0 where
    pub keeps_due : (s : Pkg E) → IsOrdered (view s) → IsDue t (view s) → IsOrdered (view (m s).1)

  -- A question that keeps the order, after whose answer `true` it is the turn of the condition.
  pub record Asks (t : PackageConditionType) (m : P E Bool) : Type 0 where
    pub asks :
        (s : Pkg E)
        → IsOrdered (view s)
        → IsOrdered (view (m s).1) × ((m s).0 ≡ ok true → IsDue t (view (m s).1))

  pub Steady-Keeps : {A : Type 0} (m : P E A) → Steady m → Keeps m
  Steady-Keeps m h = record { keeps = λ s o. same-IsOrdered (view (m s).1) (view s) (h.steady s) o }

  pub bind-Keeps :
      {A B : Type 0} (m : P E A) (f : A → P E B)
      → Keeps m
      → ((a : A) → Keeps (f a))
      → Keeps (m >>= f)
  unfolding ◌>>=◌
  bind-Keeps {A} {B} m f hm hf = record { keeps = λ s o. go (m s) (hm.keeps s o) }
    where
      go :
          (p : Response (Failure Err) A × Pkg E)
          → IsOrdered (view p.1)
          → IsOrdered (
              view
                (let (r, s') = p in
                  let q : Response (Failure Err) B × Pkg E = elim r [
                    | ok a ↦ f a s'
                    | err e ↦ (err e, s')
                  ] in
                  q).1)
      go (ok a, s') o = (hf a).keeps s' o
      go (err e, s') o = o

  pub seq-Keeps : {B : Type 0} (m : P E (Unit {0})) (k : P E B) → Keeps m → Keeps k → Keeps (m >> k)
  unfolding ◌>>◌
  seq-Keeps m k hm hk = bind-Keeps m (λ _. k) hm (λ _. hk)

  pub bind-KeepsDue :
      {A B : Type 0} (t : PackageConditionType) (m : P E A) (f : A → P E B)
      → Steady m
      → ((a : A) → KeepsDue t (f a))
      → KeepsDue t (m >>= f)
  unfolding ◌>>=◌
  bind-KeepsDue {A} {B} t m f hm hf = record {
    keeps_due = λ s o d.
        go (m s) (same-IsOrdered (view (m s).1) (view s) (hm.steady s) o)
          (same-IsDue (view (m s).1) (view s) (hm.steady s) t d);
  }
    where
      go :
          (p : Response (Failure Err) A × Pkg E)
          → IsOrdered (view p.1)
          → IsDue t (view p.1)
          → IsOrdered (
              view
                (let (r, s') = p in
                  let q : Response (Failure Err) B × Pkg E = elim r [
                    | ok a ↦ f a s'
                    | err e ↦ (err e, s')
                  ] in
                  q).1)
      go (ok a, s') o d = (hf a).keeps_due s' o d
      go (err e, s') o d = o

  pub then-KeepsDue :
      {B : Type 0} (t : PackageConditionType) (m : P E (Unit {0})) (k : P E B)
      → KeepsDue t m
      → Steady k
      → KeepsDue t (m >> k)
  unfolding ◌>>=◌ ◌>>◌
  then-KeepsDue {B} t m k hm hk = record { keeps_due = λ s o d. go (m s) (hm.keeps_due s o d) }
    where
      go :
          (p : Response (Failure Err) (Unit {0}) × Pkg E)
          → IsOrdered (view p.1)
          → IsOrdered (
              view
                (let (r, s') = p in
                  let q : Response (Failure Err) B × Pkg E = elim r [
                    | ok a ↦ k s'
                    | err e ↦ (err e, s')
                  ] in
                  q).1)
      go (ok a, s') o = same-IsOrdered (view (k s').1) (view s') (hk.steady s') o
      go (err e, s') o = o

  pub ask-Keeps :
      {B : Type 0} (t : PackageConditionType) (m : P E Bool) (f : Bool → P E B)
      → Asks t m
      → KeepsDue t (f true)
      → Keeps (f false)
      → Keeps (m >>= f)
  unfolding ◌>>=◌
  ask-Keeps {B} t m f hm ht hf = record { keeps = λ s o. let a = hm.asks s o in go (m s) a.0 a.1 }
    where
      go :
          (p : Response (Failure Err) Bool × Pkg E)
          → IsOrdered (view p.1)
          → (p.0 ≡ ok true → IsDue t (view p.1))
          → IsOrdered (
              view
                (let (r, s') = p in
                  let q : Response (Failure Err) B × Pkg E = elim r [
                    | ok a ↦ f a s'
                    | err e ↦ (err e, s')
                  ] in
                  q).1)
      go (ok true, s') o d = ht.keeps_due s' o (d refl)
      go (ok false, s') o d = hf.keeps s' o
      go (err e, s') o d = o

  view-set_status :
      (t u : PackageConditionType) (status : PackageConditionStatus) (s : Pkg E)
      → view (set_status t status s).1 u
        ≡ change t
            (is_found (find_condition t s.pkg.status.conditions) && status == completed)
            (view s)
            u
  unfolding set_status ◌>>=◌ call modify
  view-set_status t u status s =
      is_done-update_condition_status _ t u status s.pkg.status.conditions

  pub set_status-KeepsDue :
      (t : PackageConditionType) (status : PackageConditionStatus)
      → KeepsDue t (set_status {E = E} t status)
  set_status-KeepsDue t status = record {
    keeps_due = λ s o d.
        same-IsOrdered (view (set_status t status s).1) _ (λ u. view-set_status t u status s)
          (change-IsOrdered t _ (view s) o d);
  }

  pub set_status_init-Keeps :
      (status : PackageConditionStatus) → Keeps (set_status {E = E} init status)
  set_status_init-Keeps status = record {
    keeps = λ s o.
        same-IsOrdered (view (set_status init status s).1) _ (λ u. view-set_status init u status s)
          (change_init-IsOrdered _ (view s) o);
  }

  -- A condition that is set to another status than completed still is due.
  pub set_status-IsDue :
      (t : PackageConditionType) (status : PackageConditionStatus) (s : Pkg E)
      → (status == completed) ≡ false
      → IsDue t (view s)
      → IsDue t (view (set_status t status s).1)
  set_status-IsDue t status s n d =
      same-IsDue (view (set_status t status s).1) (change t false (view s))
        (λ u. view-set_status t u status s ∙ ap (λ b. change t b (view s) u) (none_done _)) t
        (change-IsDue t (view s) d)
    where
      none_done : (b : Bool) → (b && status == completed) ≡ false
      none_done b = ground (arith, n)
