-- ===== src/Component/Protected.antt =====
-- Protected objects survive the update of a component's resources.
use rainbond_operator.Base.{
  String, Bool, true, false, Option, none, some, List, [], ◌∷◌, ◌≡◌, refl, sym, arith,
  if◌then◌else◌, ◌∙◌, ap,
}
use rainbond_operator.Api.{RbdComponent}
use rainbond_operator.Kube.{
  Client, Object, Kind, Response, ok, err, Result, no_requeue, requeue_now,
}
use rainbond_operator.Component.Flow.{State, M, ◌>>=◌, ◌>>◌, pure, call, get_cpt, crash}
use rainbond_operator.Component.Objects.{object_can_update, update_runtime_object}
use rainbond_operator.Component.Manager.{report, update_or_create_resource}
use rainbond_operator.Component.Reconcile.{not_ready, own, update_or_create, update_resources}
use rainbond_operator.Component.Updates.{IsProtected, object_can_update-IsProtected}
use rainbond_operator.Component.Store.{HasKey, Store}
use rainbond_operator.Component.Keeps.{
  Keeps, IsApart, bind-Keeps, then-Keeps, pure-Keeps, get_cpt-Keeps, call-Keeps, report-Keeps,
}

-- A merged object has the key of the new one.
merged_key :
    {B : Type 0} (old o merged : Object B)
    → update_runtime_object old o ≡ some merged
    → (merged.kind ≡ o.kind) × (merged.namespace ≡ o.namespace) × (merged.name ≡ o.name)
unfolding update_runtime_object
merged_key old o merged h = ground arith

some_inj : {A : Type 0} (a b : A) → some a ≡ some b → a ≡ b
some_inj a b h = cc

module _ {C : Client} (S : Store C) (k : Kind) (namespace name : String) (old : Object C.Body) where
  open C use {World, Err, Body}

  abbrev IsStored : World → Type 0
  IsStored w = S.stored w k namespace name ≡ some old

  same : (v w : World) → S.stored v ≡ S.stored w → IsStored w → IsStored v
  same v w h p = ap (λ f. f k namespace name) h ∙ p

  apart : IsApart C IsStored
  apart = record {
    now_keeps = λ w. same _ w (S.now_same w);
    event_keeps = λ c reason text w. same _ w (S.event_same c reason text w);
    status_keeps = λ c w.
        same _ w (S.retry_same RbdComponent (C.update_component_status c) w (S.status_same c));
  }

  own-Keeps : (o : Object Body) → Keeps {C = C} IsStored (own o)
  unfolding own
  own-Keeps o =
      bind-Keeps IsStored get_cpt _ (get_cpt-Keeps IsStored)
        λ cpt. answer-Keeps (C.set_controller_reference cpt o)
    where
      answer-Keeps :
          (r : Response Err (Object Body))
          → Keeps {C = C} IsStored {A = Object Body} (elim r [
            | ok owned ↦ pure owned
            | err e ↦
                report
                  (not_ready "SetControllerReferenceFailed" (C.error e))
                  requeue_now
                  no_requeue
                  (some e)
          ])
      answer-Keeps (ok owned) = pure-Keeps IsStored owned
      answer-Keeps (err e) = report-Keeps IsStored apart _ _ _ _

  -- An update that is made writes another object than a protected one.
  update_keeps :
      (o found merged : Object Body) (w : World)
      → IsProtected old
      → S.stored w o.kind o.namespace o.name ≡ some found
      → object_can_update found ≡ true
      → update_runtime_object found o ≡ some merged
      → IsStored w
      → IsStored (C.update merged w).1
  update_keeps o found merged w protected f c m p =
      S.update_others merged w k namespace name differs ∙ p
    where
      same_object : HasKey k namespace name merged → found ≡ old
      same_object (a, b, d) =
          let (x, y, z) = merged_key found o merged m in
          some_inj found old (sym (rw (← a, x, ← b, y, ← d, z) f) ∙ p)

      differs : ¬ HasKey k namespace name merged
      differs h = cc ((object_can_update-IsProtected old).1 protected, same_object h, c)

  -- `UpdateOrCreateResource` after its first call.
  abbrev after_get : Object Body → Response Err (Object Body) → M C (Result × Option Err)
  after_get o r = elim r [
    | err e ↦
        if C.is_not_found e
        then (do
          failure ← call (C.create o)
          elim failure [ some f ↦ pure (no_requeue, some f) | none ↦ pure (requeue_now, none) ])
        else pure (no_requeue, some e)
    | ok found ↦
        if object_can_update found
        then elim (update_runtime_object found o) [
          | none ↦ crash
          | some merged ↦ do failure ← call (C.update merged); pure (no_requeue, failure)
        ]
        else pure (no_requeue, none)
  ]

  created-Keeps :
      (o : Object Body)
      → Keeps {C = C} IsStored {A = Result × Option Err} (do
        failure ← call (C.create o)
        elim failure [ some f ↦ pure (no_requeue, some f) | none ↦ pure (requeue_now, none) ])
  created-Keeps o =
      bind-Keeps IsStored (call (C.create o)) _
        (call-Keeps IsStored (C.create o) λ w p. S.create_keeps o w k namespace name old p)
        answer-Keeps
    where
      answer-Keeps :
          (failure : Option Err)
          → Keeps {C = C} IsStored {A = Result × Option Err} (elim failure [
            | some f ↦ pure (no_requeue, some f)
            | none ↦ pure (requeue_now, none)
          ])
      answer-Keeps (some f) = pure-Keeps IsStored _
      answer-Keeps none = pure-Keeps IsStored _

  updated-keeps :
      (o found : Object Body) (s : State C) (can : Bool) (m : Option (Object Body))
      → object_can_update found ≡ can
      → update_runtime_object found o ≡ m
      → IsProtected old
      → S.stored s.world o.kind o.namespace o.name ≡ some found
      → IsStored s.world
      → IsStored
          (let step : M C (Result × Option Err) =
              if can
              then elim m [
                | none ↦ crash
                | some merged ↦ do failure ← call (C.update merged); pure (no_requeue, failure)
              ]
              else pure (no_requeue, none) in
            step s).1.world
  unfolding ◌>>=◌ pure call crash
  updated-keeps o found s false m c e protected f p = p
  updated-keeps o found s true none c e protected f p = p
  updated-keeps o found s true (some merged) c e protected f p =
      update_keeps o found merged s.world protected f c e p

  after_get-keeps :
      (o : Object Body) (r : Response Err (Object Body)) (s : State C)
      → IsProtected old
      → ((found : Object Body)
          → r ≡ ok found
          → S.stored s.world o.kind o.namespace o.name ≡ some found)
      → IsStored s.world
      → IsStored (after_get o r s).1.world
  after_get-keeps o (err e) s protected f p = (missing (C.is_not_found e)).keeps s p
    where
      missing :
          (b : Bool)
          → Keeps {C = C} IsStored {A = Result × Option Err} (
              if b
              then (do
                failure ← call (C.create o)
                elim failure [
                  | some f ↦ pure (no_requeue, some f)
                  | none ↦ pure (requeue_now, none)
                ])
              else pure (no_requeue, some e))
      missing true = created-Keeps o
      missing false = pure-Keeps IsStored (no_requeue, some e)
  after_get-keeps o (ok found) s protected f p =
      updated-keeps o found s (object_can_update found) (update_runtime_object found o) refl refl
        protected (f found refl) p

  update_or_create_resource-Keeps :
      (o : Object Body) → IsProtected old → Keeps {C = C} IsStored (update_or_create_resource o)
  unfolding update_or_create_resource ◌>>=◌ call
  update_or_create_resource-Keeps o protected = record {
    keeps = λ s p.
        let w = (C.get_object o.kind o.namespace o.name s.world).1 in
        let moved : S.stored w ≡ S.stored s.world = S.get_same o.kind o.namespace o.name s.world in
        after_get-keeps o (C.get_object o.kind o.namespace o.name s.world).0
          (record s { world = w }) protected
          (λ found e.
            ap (λ f. f o.kind o.namespace o.name) moved
            ∙ S.get_stored o.kind o.namespace o.name s.world found e)
          (same w s.world moved p);
  }

  update_or_create-Keeps :
      (o : Object Body) → IsProtected old → Keeps {C = C} IsStored (update_or_create o)
  unfolding update_or_create
  update_or_create-Keeps o protected =
      bind-Keeps IsStored (update_or_create_resource o) _
        (update_or_create_resource-Keeps o protected)
        (λ (result, failure). answer-Keeps result failure)
    where
      answer-Keeps :
          (result : Result) (failure : Option Err)
          → Keeps {C = C} IsStored {A = Unit {0}} (elim failure [
            | none ↦ pure tt
            | some e ↦
                report (not_ready "ErrCreateResources" (C.error e)) requeue_now result (some e)
          ])
      answer-Keeps result none = pure-Keeps IsStored tt
      answer-Keeps result (some e) = report-Keeps IsStored apart _ _ _ _

  loop-Keeps :
      (os : List (Option (Object Body)))
      → IsProtected old
      → Keeps {C = C} IsStored (update_resources os)
  unfolding update_resources ◌>>◌
  loop-Keeps [] protected = pure-Keeps IsStored tt
  loop-Keeps (none ∷ os) protected = loop-Keeps os protected
  loop-Keeps (some o ∷ os) protected = bind-Keeps IsStored (own o) _ (own-Keeps o) λ owned.
      then-Keeps IsStored (update_or_create owned) (update_resources os)
        (update_or_create-Keeps owned protected) (loop-Keeps os protected)

  -- A protected object that is stored is still stored, and unchanged, after the loop that updates
  -- or creates the resources of a component, whichever they are and however the loop ends; provided
  -- that the server stores objects by their keys, answers what is stored, and writes an object only
  -- by the calls for that.
  pub update_resources-protected :
      (os : List (Option (Object Body))) (s : State C)
      → IsProtected old
      → S.stored s.world k namespace name ≡ some old
      → S.stored (update_resources os s).1.world k namespace name ≡ some old
  update_resources-protected os s protected p = (loop-Keeps os protected).keeps s p
