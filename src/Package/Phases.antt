-- ===== src/Package/Phases.antt =====
-- Which conditions of a package are completed, and what the steps of `handle` do to this.
use rainbond_operator.Base.{
  ℕ, String, Bool, true, false, ◌&&◌, Option, none, some, List, [], ◌∷◌, ◌==◌, if◌then◌else◌, ◌≡◌,
  refl, Bool-cases, inl, inr, ap, sym, ◌∙◌,
}
use rainbond_operator.Api.{
  PackageConditionType, PackageConditionStatus, PackageCondition, RainbondPackage, completed,
}
use rainbond_operator.Kube.{Response, ok, err}
use rainbond_operator.Package.Status.{
  find_condition, type_eq, type_beq_iff, phase_eq, update_condition_status, update_condition_reason,
  update_condition_progress,
}
use rainbond_operator.Package.Conditions.{renewed, find_condition-update_condition_status}
use rainbond_operator.Package.Progress.{find_condition-update_condition_progress, advanced}
use rainbond_operator.Package.Env.{
  Env, Failure, Pkg, P, ◌>>=◌, ◌>>◌, pure, throw, try, call, call_or, check_or,
}

-- The first condition of the type is completed.
abbrev pub is_done_of : Option PackageCondition → Bool
is_done_of none = false
is_done_of (some c) = c.status == completed

abbrev pub is_done : PackageConditionType → List PackageCondition → Bool
is_done t cs = is_done_of (find_condition t cs)

abbrev pub is_found : Option PackageCondition → Bool
is_found none = false
is_found (some c) = true

-- The server stores a status as it is given and answers with it, and what `RetryOnConflict` answers
-- is an answer of the function that it retries.
pub record Echo (E : Env) : Type 1 where
  pub written :
      (p q : RainbondPackage) (w : E.World)
      → (E.update_package_status p w).0 ≡ ok q
      → q.status ≡ p.status
  pub retried :
      (A : Type 0) (f : E.World → Response E.Err A × E.World) (w : E.World) (a : A)
      → (E.retry_on_conflict A f w).0 ≡ ok a
      → (w' : E.World) × ((f w').0 ≡ ok a)

status_done :
    (now : ℕ) (status : PackageConditionStatus) (o : Option PackageCondition)
    → is_done_of (elim o [ none ↦ none | some c ↦ some (renewed now status c) ])
      ≡ is_found o && status == completed
status_done now status none = refl
status_done now status (some c) = refl

-- Setting the status of a condition that is there decides whether it is completed.
pub is_done-update_condition_status :
    (now : ℕ) (t u : PackageConditionType) (status : PackageConditionStatus)
    (cs : List PackageCondition)
    → is_done u (update_condition_status now t status cs)
      ≡ (if u == t then is_found (find_condition t cs) && status == completed else is_done u cs)
is_done-update_condition_status now t u status cs =
    rw (find_condition-update_condition_status now t u status cs) (elim (Bool-cases (u == t)) [
      | inl p ↦ rw p (status_done now status (find_condition t cs))
      | inr p ↦ rw p refl
    ])

advanced_done :
    (now progress : ℕ) (o : Option PackageCondition)
    → is_done_of (advanced now progress o) ≡ is_done_of o
advanced_done now progress none = refl
advanced_done now progress (some c) = refl

pub is_done-update_condition_progress :
    (now : ℕ) (t u : PackageConditionType) (progress : ℕ) (cs : List PackageCondition)
    → is_done u (update_condition_progress now t progress cs).0 ≡ is_done u cs
is_done-update_condition_progress now t u progress cs =
    rw (find_condition-update_condition_progress now t u progress cs) (elim (Bool-cases (u == t)) [
      | inl p ↦ rw p (
          advanced_done _ _ (find_condition t cs)
          ∙ ap (λ x. is_done x cs) (sym ((type_beq_iff u t).0 p)))
      | inr p ↦ rw p refl
    ])

pub is_done-update_condition_reason :
    (now : ℕ) (t u : PackageConditionType) (reason message : String) (cs : List PackageCondition)
    → is_done u (update_condition_reason now t reason message cs) ≡ is_done u cs
unfolding update_condition_reason find_condition
is_done-update_condition_reason now t u reason message [] = refl
is_done-update_condition_reason now t u reason message (c ∷ cs) =
    let ih = is_done-update_condition_reason now t u reason message cs in
    elim (Bool-cases (c.typ3 == t)) [
      | inl p ↦
          rw (p, update_condition_reason)
            (elim (Bool-cases (c.typ3 == u)) [ inl q ↦ rw q refl | inr q ↦ rw q refl ])
      | inr p ↦
          rw (p, update_condition_reason)
            (elim (Bool-cases (c.typ3 == u)) [ inl q ↦ rw q refl | inr q ↦ rw q ih ])
    ]

module _ {E : Env} where
  open E use {World, Err}

  -- A step after which the same conditions are completed as before it.
  pub record Steady {A : Type 0} (m : P E A) : Type 0 where
    pub steady :
        (s : Pkg E) (u : PackageConditionType)
        → is_done u (m s).1.pkg.status.conditions ≡ is_done u s.pkg.status.conditions

  pub bind-Steady :
      {A B : Type 0} (m : P E A) (f : A → P E B)
      → Steady m
      → ((a : A) → Steady (f a))
      → Steady (m >>= f)
  unfolding ◌>>=◌
  bind-Steady {A} {B} m f hm hf = record { steady = λ s u. go s u (m s) (hm.steady s u) }
    where
      go :
          (s : Pkg E) (u : PackageConditionType) (p : Response (Failure Err) A × Pkg E)
          → is_done u p.1.pkg.status.conditions ≡ is_done u s.pkg.status.conditions
          → is_done u
              (let (r, s') = p in
                let q : Response (Failure Err) B × Pkg E = elim r [
                  | ok a ↦ f a s'
                  | err e ↦ (err e, s')
                ] in
                q).1.pkg.status.conditions
            ≡ is_done u s.pkg.status.conditions
      go s u (ok a, s') h = (hf a).steady s' u ∙ h
      go s u (err e, s') h = h

  pub try-Steady : {A : Type 0} (m : P E A) → Steady m → Steady (try m)
  unfolding try
  try-Steady m h = record { steady = h.steady }

  pub seq-Steady :
      {B : Type 0} (m : P E (Unit {0})) (k : P E B) → Steady m → Steady k → Steady (m >> k)
  unfolding ◌>>◌
  seq-Steady m k hm hk = bind-Steady m (λ _. k) hm (λ _. hk)

  pub pure-Steady : {A : Type 0} (a : A) → Steady (pure a)
  unfolding pure
  pure-Steady a = record { steady = λ s u. refl }

  pub throw-Steady : {A : Type 0} (e : Failure Err) → Steady {A = A} (throw e)
  unfolding throw
  throw-Steady e = record { steady = λ s u. refl }

  pub call-Steady : {A : Type 0} (f : World → A × World) → Steady (call f)
  unfolding call
  call-Steady f = record { steady = λ s u. refl }

  pub call_or-Steady :
      {A : Type 0} (wrap : Err → Err) (f : World → Response Err A × World) → Steady (call_or wrap f)
  unfolding call_or
  call_or-Steady wrap f = record { steady = λ s u. refl }

  pub check_or-Steady :
      (wrap : Err → Err) (f : World → Option Err × World) → Steady (check_or wrap f)
  unfolding check_or
  check_or-Steady wrap f = record { steady = λ s u. refl }
