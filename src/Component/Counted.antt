-- ===== src/Component/Counted.antt =====
-- What `GenerateStatus` and `UpdateStatus` make of the conditions of a component.
use rainbond_operator.Base.{
  ℕ, suc, String, true, ◌&&◌, Option, none, some, List, [], ◌∷◌, sym, ap, ◌⊎◌, ◌==◌, nat_eq,
  string_eq, leb, if◌then◌else◌, ◌≡◌, refl, inl, inr, ◌↔◌, arith, Bool-cases, ◌∙◌,
}
use text.Mathlib.TextEquality.{eq_iff}
use rainbond_operator.Conditions.{condition_true, status_eq, status_beq_iff, stamped}
use rainbond_operator.Conditions.Find.{find, get_condition-some}
use rainbond_operator.Conditions.Update.{find-update_condition}
use rainbond_operator.Api.{RbdComponent, ComponentCondition}
use rainbond_operator.Api.ComponentConditionType.{rbd_component_ready}
use rainbond_operator.Kube.{Pod, PodCondition}
use rainbond_operator.Component.Settled.{IsReady, is_component_ready-IsReady}
use rainbond_operator.Component.Status.{
  is_pod_ready, new_condition, count_ready, wanted_replicas, generated, is_component_ready,
}

IsReady-is_component_ready : (c : RbdComponent) → IsReady c → is_component_ready c ≡ true
unfolding is_component_ready
IsReady-is_component_ready c (r, f, q, e) =
    rw (get_condition-some rbd_component_ready _ r f, is_component_ready) (ground (arith, q, e))

-- One of the conditions says that the pod is ready.
abbrev pub IsPodReady : List PodCondition → Type 0
IsPodReady [] = ⊥
IsPodReady (c ∷ cs) = ((c.typ3 ≡ "Ready") × (c.status ≡ condition_true)) ⊎ IsPodReady cs

-- So many of the pods are ready.
pub data Counts : List Pod → ℕ → Type 0 where
  no_pod : Counts [] 0
  ready_pod :
      {p : Pod} {ps : List Pod} {n : ℕ}
      → IsPodReady p.conditions
      → Counts ps n
      → Counts (p ∷ ps) (suc n)
  other_pod :
      {p : Pod} {ps : List Pod} {n : ℕ}
      → ¬ IsPodReady p.conditions
      → Counts ps n
      → Counts (p ∷ ps) n

is_pod_ready-IsPodReady : (cs : List PodCondition) → (is_pod_ready cs ≡ true) ↔ IsPodReady cs
unfolding is_pod_ready
is_pod_ready-IsPodReady [] = ground arith
is_pod_ready-IsPodReady (c ∷ cs) = ground (
  arith,
  is_pod_ready-IsPodReady cs,
  eq_iff c.typ3 "Ready",
  status_beq_iff c.status condition_true,
)

count_ready-Counts : (ps : List Pod) → Counts ps (count_ready ps)
unfolding count_ready
count_ready-Counts [] = no_pod
count_ready-Counts (p ∷ ps) = elim (Bool-cases (is_pod_ready p.conditions)) [
  | inl q ↦ rw q (ready_pod ((is_pod_ready-IsPodReady p.conditions).0 q) (count_ready-Counts ps))
  | inr q ↦
      rw q (
        other_pod (λ h. cc (q, (is_pod_ready-IsPodReady p.conditions).1 h)) (count_ready-Counts ps))
]

Counts-count_ready : (ps : List Pod) (n : ℕ) → Counts ps n → count_ready ps ≡ n
unfolding count_ready
Counts-count_ready [] _ no_pod = refl
Counts-count_ready (p ∷ ps) _ (ready_pod h c) =
    rw ((is_pod_ready-IsPodReady p.conditions).1 h) (ap suc (Counts-count_ready ps _ c))
Counts-count_ready (p ∷ ps) n (other_pod h c) = elim (Bool-cases (is_pod_ready p.conditions)) [
  | inl q ↦ absurd (h ((is_pod_ready-IsPodReady p.conditions).0 q))
  | inr q ↦ rw q (Counts-count_ready ps n c)
]

-- How many replicas there should be: what the replicaser says, else what is specified, else 1.
abbrev pub IsWanted : Option ℕ → Option ℕ → ℕ → Type 0
IsWanted asked specified n =
    (asked ≡ some n) ⊎ ((asked ≡ none) × ((specified ≡ some n) ⊎ ((specified ≡ none) × (n ≡ 1))))

wanted_replicas-IsWanted :
    (asked specified : Option ℕ) → IsWanted asked specified (wanted_replicas asked specified)
unfolding wanted_replicas
wanted_replicas-IsWanted (some n) specified = inl refl
wanted_replicas-IsWanted none (some n) = inr (refl, inl refl)
wanted_replicas-IsWanted none none = inr (refl, inr (refl, refl))

IsWanted-wanted_replicas :
    (asked specified : Option ℕ) (n : ℕ)
    → IsWanted asked specified n
    → wanted_replicas asked specified ≡ n
unfolding wanted_replicas
IsWanted-wanted_replicas (some m) specified n h = ground arith
IsWanted-wanted_replicas none (some m) n h = ground arith
IsWanted-wanted_replicas none none n h = ground arith

module _ (now : ℕ) (asked : Option ℕ) (pods : List Pod) (cpt : RbdComponent) where
  abbrev pub wanted : ℕ
  wanted = wanted_replicas asked cpt.spec.replicas

  -- `GenerateStatus` sets the condition `Ready` to true if enough pods are ready, and else leaves
  -- it, even a true one; it leaves the conditions of the other types in both cases.
  pub find-generated :
      (t : String)
      → find t (generated now asked pods cpt).status.conditions ≡ (
          if leb wanted (count_ready pods) && t == rbd_component_ready
          then some (
              stamped now
                (new_condition now rbd_component_ready condition_true "Ready" "")
                (find rbd_component_ready cpt.status.conditions))
          else find t cpt.status.conditions)
  unfolding generated
  find-generated t = elim (Bool-cases (leb wanted (count_ready pods))) [
    | inl p ↦ rw p (find-update_condition now t _ cpt.status.conditions)
    | inr p ↦ rw p refl
  ]

  counts :
      ((generated now asked pods cpt).status.ready_replicas ≡ count_ready pods)
      × ((generated now asked pods cpt).status.replicas ≡ wanted)
  unfolding generated
  counts = elim (Bool-cases (leb wanted (count_ready pods))) [
    | inl p ↦ rw p (refl, refl)
    | inr p ↦ rw p (refl, refl)
  ]

  counts_as_ready :
      (is_component_ready (generated now asked pods cpt) ≡ true) ↔ (count_ready pods ≡ wanted)
  counts_as_ready = (
    λ h. let (r, f, q, e) = is_component_ready-IsReady _ h in ground (arith, counts),
    λ e. IsReady-is_component_ready (generated now asked pods cpt) (
      is_ready,
      find-generated rbd_component_ready ∙ rw (enough e) refl,
      refl,
      ground (arith, counts),
    ),
  )
    where
      enough : count_ready pods ≡ wanted → leb wanted (count_ready pods) ≡ true
      enough e = ground arith

      is_ready : ComponentCondition
      is_ready =
          stamped now (new_condition now rbd_component_ready condition_true "Ready" "")
            (find rbd_component_ready cpt.status.conditions)

  -- After `GenerateStatus` the component counts as ready exactly if as many of its pods have a
  -- condition `Ready` that is true as there should be replicas: what the replicaser says, else what
  -- is specified, else 1.
  pub is_component_ready-generated :
      (is_component_ready (generated now asked pods cpt) ≡ true)
      ↔ ((n : ℕ) × IsWanted asked cpt.spec.replicas n × Counts pods n)
  is_component_ready-generated = (
    λ h. (
      wanted,
      wanted_replicas-IsWanted asked cpt.spec.replicas,
      rw (← (counts_as_ready.0 h)) (count_ready-Counts pods),
    ),
    λ (n, w, c).
        counts_as_ready.1 (
          Counts-count_ready pods n c ∙ sym (IsWanted-wanted_replicas asked cpt.spec.replicas n w)),
  )
