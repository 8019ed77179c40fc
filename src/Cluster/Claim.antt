-- ===== src/Cluster/Claim.antt =====
-- When `CreateFoobarPVCIfNotExists` panics.
use rainbond_operator.Base.{
  String, Bool, true, false, not, Option, none, some, ◌==◌, string_eq, if◌then◌else◌, ◌≡◌, ◌≢◌, ◌↔◌,
  refl, Option-cases, inl, inr,
}
use rainbond_operator.Kube.{Response, ok, err}
use rainbond_operator.Kube.Action.{◌>>=◌, ◌>>◌, pure, throw, get, bind-ne-err}
use rainbond_operator.Package.Once.{answer_cases}
use rainbond_operator.Cluster.Env.{Env, Pvc, Failure, panic, failure, Mgr, C, call, check}
use rainbond_operator.Cluster.Manager.{
  create_pvc_for_foobar, create_foobar_pvc_if_not_exists, wanted_class,
}

checked-ne-panic :
    {Err : Type 0} (r : Option Err)
    → ◌≢◌ {A = Response (Failure Err) (Unit {0})}
        (elim r [ none ↦ ok tt | some e ↦ err (failure e) ])
        (err panic)
checked-ne-panic none h = cc h
checked-ne-panic (some e) h = cc h

module _ {E : Env} where
  open E use {World, Err}

  -- A method that does not panic.
  record IsSafe {A : Type 0} (m : C E A) : Type 0 where
    safe : (s : Mgr E) → (m s).0 ≢ err panic

  bind-IsSafe :
      {A B : Type 0} (m : C E A) (k : A → C E B)
      → IsSafe m
      → ((a : A) → IsSafe (k a))
      → IsSafe (m >>= k)
  bind-IsSafe m k h g = record {
    safe = λ s. bind-ne-err panic m k s (h.safe s) (λ a s'. (g a).safe s');
  }

  pure-IsSafe : {A : Type 0} (a : A) → IsSafe (pure a)
  unfolding pure
  pure-IsSafe a = record { safe = λ s h. cc h }

  failure-IsSafe : {A : Type 0} (e : Err) → IsSafe {A = A} (throw (failure e))
  unfolding throw
  failure-IsSafe e = record { safe = λ s h. cc h }

  call-IsSafe : {A : Type 0} (f : World → A × World) → IsSafe (call f)
  unfolding call
  call-IsSafe f = record { safe = λ s h. cc h }

  get-IsSafe : IsSafe get
  unfolding get
  get-IsSafe = record { safe = λ s h. cc h }

  check-IsSafe : (f : World → Option Err × World) → IsSafe (check f)
  unfolding check
  check-IsSafe f = record { safe = λ s. checked-ne-panic (f s.world).0 }

  if-IsSafe :
      {A : Type 0} (b : Bool) (m k : C E A) → IsSafe m → IsSafe k → IsSafe (if b then m else k)
  if-IsSafe true m k h g = h
  if-IsSafe false m k h g = g

  option-IsSafe :
      {A B : Type 0} (m : C E B) (f : A → C E B)
      → IsSafe m
      → ((a : A) → IsSafe (f a))
      → (o : Option A) → IsSafe (elim o [ none ↦ m | some a ↦ f a ])
  option-IsSafe m f h g none = h
  option-IsSafe m f h g (some a) = g a

  create_pvc_for_foobar-IsSafe : (name : String) → IsSafe (create_pvc_for_foobar name)
  unfolding create_pvc_for_foobar
  create_pvc_for_foobar-IsSafe name =
      bind-IsSafe _ _ get-IsSafe λ s. if-IsSafe _ _ _ (pure-IsSafe none) (call-IsSafe _)

  -- What `CreateFoobarPVCIfNotExists` does with the answer of the API server.
  abbrev use_claim : String → Response Err Pvc → C E (Unit {0})
  use_claim wanted (err e) = if not (E.is_not_found e) then throw (failure e) else do
    created ← create_pvc_for_foobar wanted
    elim created [ none ↦ pure tt | some f ↦ throw (failure f) ]
  use_claim wanted (ok pvc) = elim pvc.storage_class_name [
    | none ↦ throw panic
    | some class_name ↦ if class_name == wanted then pure tt else do
      check (E.delete_pvc pvc)
      created ← create_pvc_for_foobar wanted
      elim created [
        | none ↦ pure tt
        | some f ↦ if E.is_already_exists f then pure tt else throw (failure f)
      ]
  ]

  create_foobar-use_claim :
      (s : Mgr E)
      → create_foobar_pvc_if_not_exists s
        ≡ use_claim
            (wanted_class s.cluster.spec)
            (E.get_pvc s.cluster.namespace "foobar" s.world).0
            (record s { world = (E.get_pvc s.cluster.namespace "foobar" s.world).1 })
  unfolding create_foobar_pvc_if_not_exists get call ◌>>=◌ ◌>>◌
  create_foobar-use_claim s =
      elim (answer_cases (E.get_pvc s.cluster.namespace "foobar" s.world).0) [
        | inl (pvc, p) ↦ rw p refl
        | inr (e, p) ↦ rw p refl
      ]

  -- The claim that the API server has, without a class.
  abbrev pub HasNoClass : Mgr E → Type 0
  HasNoClass s =
      (pvc : Pvc) × ((E.get_pvc s.cluster.namespace "foobar" s.world).0 ≡ ok pvc)
      × (pvc.storage_class_name ≡ none)

  some_class-IsSafe :
      (wanted class_name : String) (pvc : Pvc)
      → pvc.storage_class_name ≡ some class_name
      → IsSafe (use_claim wanted (ok pvc))
  unfolding ◌>>◌
  some_class-IsSafe wanted class_name pvc h = rw h (
      if-IsSafe (class_name == wanted) _ _ (pure-IsSafe tt) (
        bind-IsSafe _ _ (check-IsSafe _) λ _.
          bind-IsSafe _ _ (create_pvc_for_foobar-IsSafe wanted) (
            option-IsSafe _ _ (pure-IsSafe tt)
              (λ f. if-IsSafe _ _ _ (pure-IsSafe tt) (failure-IsSafe f)))))

  missing-IsSafe : (wanted : String) (e : Err) → IsSafe (use_claim wanted (err e))
  missing-IsSafe wanted e = if-IsSafe _ _ _ (failure-IsSafe e) (
      bind-IsSafe _ _ (create_pvc_for_foobar-IsSafe wanted)
        (option-IsSafe _ _ (pure-IsSafe tt) (λ f. failure-IsSafe f)))

  -- `CreateFoobarPVCIfNotExists` panics exactly if the claim is there and has no class.
  pub create_foobar_pvc_if_not_exists-panic_iff :
      (s : Mgr E) → ((create_foobar_pvc_if_not_exists s).0 ≡ err panic) ↔ HasNoClass s
  unfolding throw
  create_foobar_pvc_if_not_exists-panic_iff s = rw (create_foobar-use_claim s) (to, from)
    where
      wanted : String
      wanted = wanted_class s.cluster.spec

      t : Mgr E
      t = record s { world = (E.get_pvc s.cluster.namespace "foobar" s.world).1 }

      to :
          (use_claim wanted (E.get_pvc s.cluster.namespace "foobar" s.world).0 t).0 ≡ err panic
          → HasNoClass s
      to h = elim (answer_cases (E.get_pvc s.cluster.namespace "foobar" s.world).0) [
        | inr (e, p) ↦ absurd ((missing-IsSafe wanted e).safe t (rw p at h))
        | inl (pvc, p) ↦ elim (Option-cases pvc.storage_class_name) [
          | inl q ↦ (pvc, p, q)
          | inr (class_name, q) ↦
              absurd ((some_class-IsSafe wanted class_name pvc q).safe t (rw p at h))
        ]
      ]

      from :
          HasNoClass s
          → (use_claim wanted (E.get_pvc s.cluster.namespace "foobar" s.world).0 t).0 ≡ err panic
      from (pvc, p, q) = rw p (rw q refl)
