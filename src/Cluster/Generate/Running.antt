-- ===== src/Cluster/Generate/Running.antt =====
-- When the cluster counts as running.
use rainbond_operator.Base.{
  ℕ, String, true, some, List, [], ◌∷◌, ◌==◌, ltb, length, ◌≡◌, refl, arith, Bool-cases,
  Option-cases, string_eq, inl, inr, ◌↔◌, ◌≤◌,
}
use rainbond_operator.Conditions.{condition_true, condition_false, status_eq, status_beq_iff}
use rainbond_operator.Conditions.Find.{find, get_condition-none, get_condition-some}
use rainbond_operator.Api.{RbdComponent, ComponentCondition}
use rainbond_operator.Api.ComponentConditionType.{rbd_component_ready}
use rainbond_operator.Kube.{Response, ok, err}
use rainbond_operator.Cluster.Generate.{all_ready, running_verdict}

-- The component has the condition `Ready`, and it is not false.
abbrev pub IsUp : RbdComponent → Type 0
IsUp c =
    (r : ComponentCondition) × (find rbd_component_ready c.status.conditions ≡ some r)
    × ¬ (r.status ≡ condition_false)

abbrev pub AllUp : List RbdComponent → Type 0
AllUp [] = Unit
AllUp (c ∷ cs) = IsUp c × AllUp cs

all_ready-AllUp : (cs : List RbdComponent) → ((all_ready cs).status ≡ condition_true) ↔ AllUp cs
unfolding all_ready
all_ready-AllUp [] = ((λ h. tt), (λ h. refl))
all_ready-AllUp (c ∷ cs) =
    let ih = all_ready-AllUp cs in
    elim (Option-cases (find rbd_component_ready c.status.conditions)) [
      | inl p ↦
          rw (get_condition-none _ _ p, all_ready) ((λ h. cc), (λ ((r, q, n), k). absurd (cc)))
      | inr (r, p) ↦
          rw (get_condition-some _ _ r p, all_ready)
            (elim (Bool-cases (r.status == condition_false)) [
              | inl q ↦
                  rw (q, all_ready)
                    (
                      (λ h. cc),
                      (λ ((r', q', n), k).
                          ground (arith, n, p, q', status_beq_iff r.status condition_false)),
                    )
              | inr q ↦
                  rw (q, all_ready)
                    (
                      (λ h. (
                        (r, p, λ e. ground (arith, e, q, status_beq_iff r.status condition_false)),
                        ih.0 h,
                      )),
                      (λ h. ih.1 h.1),
                    )
            ])
    ]

ok_inj :
    (a b : List RbdComponent) → ◌≡◌ {A = Response String (List RbdComponent)} (ok a) (ok b) → a ≡ b
ok_inj a b h = cc

-- The condition `Running` of a cluster becomes true exactly if its components can be listed, there
-- are at least 10 of them, and each has a condition `Ready` that is not false.
pub running_verdict-true_iff :
    (print : ℕ → String) (r : Response String (List RbdComponent))
    → ((running_verdict print r).status ≡ condition_true)
      ↔ ((cs : List RbdComponent) × (r ≡ ok cs) × (10 ≤ length cs) × AllUp cs)
unfolding running_verdict
running_verdict-true_iff print (err e) = ((λ h. cc), (λ (cs, q, le, up). absurd (cc)))
running_verdict-true_iff print (ok cs) = elim (Bool-cases (ltb (length cs) 10)) [
  | inl p ↦ rw (p, running_verdict) ((λ h. cc), (λ (cs', q, le, up). same cs' q p le))
  | inr p ↦
      rw (p, running_verdict)
        (
          (λ h. (cs, refl, ground arith, (all_ready-AllUp cs).0 h)),
          (λ (cs', q, le, up). (all_ready-AllUp cs).1 (up_of cs' q up)),
        )
]
  where
    up_of :
        (cs' : List RbdComponent)
        → ◌≡◌ {A = Response String (List RbdComponent)} (ok cs) (ok cs')
        → AllUp cs'
        → AllUp cs
    up_of cs' q up = rw (ok_inj cs cs' q) up

    same :
        {A : Type 0} (cs' : List RbdComponent)
        → ◌≡◌ {A = Response String (List RbdComponent)} (ok cs) (ok cs')
        → ltb (length cs) 10 ≡ true
        → 10 ≤ length cs'
        → A
    same cs' q p le = ground (arith, ok_inj cs cs' q)
