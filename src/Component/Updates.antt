-- ===== src/Component/Updates.antt =====
-- Which objects `UpdateOrCreateResource` leaves alone, and on which it panics.
use rainbond_operator.Base.{
  String, true, false, Option, none, some, List, [], ◌∷◌, ◌==◌, string_eq, ◌≢◌, ◌≡◌, refl, ◌⊎◌, inl,
  inr, ◌↔◌, arith, Bool-cases, Option-cases, ap, sym, ◌∙◌,
}
use text.Mathlib.TextEquality.{eq_iff}
use rainbond_operator.Kube.{
  Client, Object, Kind, service, service_monitor, persistent_volume_claim, persistent_volume,
  storage_class, job, Response, ok, err, Result, no_requeue,
}
use rainbond_operator.Component.Flow.{State, Step, next, panic, ◌>>=◌, pure, call, crash}
use rainbond_operator.Component.Objects.{annotation, object_can_update, update_runtime_object}
use rainbond_operator.Component.Manager.{update_or_create_resource}

-- The first pair with the key has the value.
abbrev pub HasValue : String → String → List (String × String) → Type 0
HasValue k v [] = ⊥
HasValue k v ((j, w) ∷ m) = ((j ≡ k) × (w ≡ v)) ⊎ ((j ≢ k) × HasValue k v m)

-- What the operator never updates: an object that says so in its annotations, a volume or a claim
-- of one, a storage class, a job, and what is called rbd-db or rbd-etcd.
abbrev pub IsProtected : {B : Type 0} → Object B → Type 0
IsProtected o =
    HasValue "ignore_controller_update" "true" o.annotations
    ⊎ ((o.kind ≡ persistent_volume_claim)
        ⊎ ((o.kind ≡ persistent_volume)
            ⊎ ((o.kind ≡ storage_class)
                ⊎ ((o.kind ≡ job) ⊎ ((o.name ≡ "rbd-db") ⊎ (o.name ≡ "rbd-etcd"))))))

annotation-HasValue :
    (k v : String) (m : List (String × String))
    → (v == "") ≡ false
    → ((annotation k m == v) ≡ true) ↔ HasValue k v m
unfolding annotation
annotation-HasValue k v [] h = (λ q. ground (arith, eq_iff "" v, eq_iff v ""), λ q. absurd q)
annotation-HasValue k v ((j, w) ∷ m) h =
    let ih = annotation-HasValue k v m h in
    elim (Bool-cases (j == k)) [
      | inl p ↦ rw p (
        λ q. inl ((eq_iff j k).0 p, (eq_iff w v).0 q),
        λ q. elim q [ inl (a, b) ↦ (eq_iff w v).1 b | inr (a, b) ↦ absurd (a ((eq_iff j k).0 p)) ],
      )
      | inr p ↦ rw p (
        λ q. inr ((λ e. cc ((eq_iff j k).1 e, p)), ih.0 q),
        λ q. elim q [ inl (a, b) ↦ cc ((eq_iff j k).1 a, p) | inr (a, b) ↦ ih.1 b ],
      )
    ]

-- `objectCanUpdate` is false exactly on the protected objects.
pub object_can_update-IsProtected :
    {B : Type 0} (o : Object B) → (object_can_update o ≡ false) ↔ IsProtected o
unfolding object_can_update
object_can_update-IsProtected o = ground (
  arith,
  annotation-HasValue "ignore_controller_update" "true" o.annotations refl,
  eq_iff o.name "rbd-db",
  eq_iff o.name "rbd-etcd",
)

-- `Get` fills the object that it is given, so what it answers has the type that was asked for.
abbrev pub GetsKind : Client → Type 0
GetsKind C =
    (k : Kind) (namespace name : String) (w : C.World) (o : Object C.Body)
    → (C.get_object k namespace name w).0 ≡ ok o
    → o.kind ≡ k

response_cases :
    {E A : Type 0} (r : Response E A) → ((a : A) × (r ≡ ok a)) ⊎ ((e : E) × (r ≡ err e))
response_cases (ok a) = inl (a, refl)
response_cases (err e) = inr (e, refl)

ok_inj : {E A : Type 0} (a b : A) → ◌≡◌ {A = Response E A} (ok a) (ok b) → a ≡ b
ok_inj a b h = cc

-- A merge that panics.
abbrev IsUnmerged : {B : Type 0} → Object B → Object B → Type 0
IsUnmerged old o = (o.kind ≡ service_monitor) × ¬ (old.kind ≡ service)

update_runtime_object-none_iff :
    {B : Type 0} (old o : Object B) → (update_runtime_object old o ≡ none) ↔ IsUnmerged old o
unfolding update_runtime_object
update_runtime_object-none_iff old o = ground arith

module _ {C : Client} where
  open C use {World, Err, Body}

  abbrev found : Object Body → State C → Response Err (Object Body)
  found o s = (C.get_object o.kind o.namespace o.name s.world).0

  -- On a protected object that is there `UpdateOrCreateResource` only makes the call that reads it,
  -- and answers no error and no requeue.
  pub update_or_create_resource-protected :
      (o old : Object Body) (s : State C)
      → found o s ≡ ok old
      → IsProtected old
      → update_or_create_resource o s ≡ (
        next (no_requeue, none),
        record s { world = (C.get_object o.kind o.namespace o.name s.world).1 },
      )
  unfolding update_or_create_resource ◌>>=◌ call pure
  update_or_create_resource-protected o old s f h =
      let n = (object_can_update-IsProtected old).1 h in
      rw (f, update_or_create_resource) (rw (n, update_or_create_resource) refl)

  after_merge : Option (Object Body) → State C → Step Err (Result × Option Err)
  after_merge none s = panic
  after_merge (some merged) s = next (no_requeue, (C.update merged s.world).0)

  after_merge-panic_iff :
      (x : Option (Object Body)) (s : State C) → (after_merge x s ≡ panic) ↔ (x ≡ none)
  unfolding after_merge
  after_merge-panic_iff none s = ((λ h. refl), (λ h. refl))
  after_merge-panic_iff (some m) s = ((λ h. absurd (cc)), (λ h. absurd (cc)))

  merge_answer :
      (o old : Object Body) (s : State C)
      → found o s ≡ ok old
      → object_can_update old ≡ true
      → (update_or_create_resource o s).0
        ≡ after_merge
            (update_runtime_object old o)
            (record s { world = (C.get_object o.kind o.namespace o.name s.world).1 })
  unfolding update_or_create_resource ◌>>=◌ call pure crash after_merge
  merge_answer o old s f c =
      rw (f, update_or_create_resource)
        (rw (c, update_or_create_resource)
          (elim (Option-cases (update_runtime_object old o)) [
            | inl m ↦ rw (m, update_or_create_resource, after_merge) refl
            | inr (x, m) ↦ rw (m, update_or_create_resource, after_merge) refl
          ]))

  missing_answer :
      (o : Object Body) (e : Err) (s : State C)
      → found o s ≡ err e
      → ¬ ((update_or_create_resource o s).0 ≡ panic)
  unfolding update_or_create_resource ◌>>=◌ call pure crash
  missing_answer o e s f =
      rw (f, update_or_create_resource)
        (elim (Bool-cases (C.is_not_found e)) [
          | inl p ↦
              rw (p, update_or_create_resource)
                (elim (Option-cases (C.create o w').0) [
                  | inl q ↦ rw (q, update_or_create_resource) (λ h. absurd (cc))
                  | inr (x, q) ↦ rw (q, update_or_create_resource) (λ h. absurd (cc))
                ])
          | inr p ↦ rw (p, update_or_create_resource) (λ h. absurd (cc))
        ])
    where
      w' : World
      w' = (C.get_object o.kind o.namespace o.name s.world).1

  -- If the server answers an object of the type that is asked for, `UpdateOrCreateResource` panics
  -- exactly on a ServiceMonitor that is there and is not protected.
  pub update_or_create_resource-panic_iff :
      (o : Object Body) (s : State C)
      → GetsKind C
      → ((update_or_create_resource o s).0 ≡ panic) ↔ (
          (old : Object Body) × (found o s ≡ ok old)
          × (¬ IsProtected old)
          × (o.kind ≡ service_monitor))
  unfolding update_or_create_resource ◌>>=◌ call pure crash
  update_or_create_resource-panic_iff o s k = elim (response_cases (found o s)) [
    | inl (old, f) ↦ elim (Bool-cases (object_can_update old)) [
      | inl c ↦ rw (merge_answer o old s f c) (
        λ h. (
          old,
          f,
          λ pr. cc (c, (object_can_update-IsProtected old).1 pr),
          ((update_runtime_object-none_iff old o).0 ((after_merge-panic_iff _ _).0 h)).0,
        ),
        λ (x, g, n, q). (after_merge-panic_iff _ _).1 (
            (update_runtime_object-none_iff old o).1
              (q, λ v. cc (v, q, k o.kind o.namespace o.name s.world old f))),
      )
      | inr c ↦
          let pr = (object_can_update-IsProtected old).0 c in
          (
            λ h. absurd (cc (h, ap (λ a. a.0) (update_or_create_resource-protected o old s f pr))),
            λ (x, g, n, q). absurd (n (rw (ok_inj x old (sym g ∙ f)) pr)),
          )
    ]
    | inr (e, f) ↦
        ((λ h. absurd (missing_answer o e s f h)), (λ (old, g, n, m). absurd (cc (f, g))))
  ]
