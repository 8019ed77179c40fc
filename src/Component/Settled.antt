-- ===== src/Component/Settled.antt =====
-- What a reconcile that returns with nothing left to do has reached.
use rainbond_operator.Base.{
  String, true, false, Option, none, some, List, nat_eq, string_eq, if◌then◌else◌, ◌≡◌, refl, ◌⊎◌,
  inl, inr, arith, Bool-cases, Option-cases,
}
use rainbond_operator.Conditions.{condition_true, status_eq, status_beq_iff}
use rainbond_operator.Conditions.Find.{find, get_condition-none, get_condition-some}
use rainbond_operator.Api.{RbdComponent, RainbondCluster, ComponentCondition}
use rainbond_operator.Api.ComponentConditionType.{rbd_component_ready}
use rainbond_operator.Kube.{
  no_requeue, requeue_now, requeue_in, Client, Pod, Response, ok, err, Result, Handler,
}
use rainbond_operator.Component.Flow.{
  State, Step, M, next, stop, panic, ◌>>=◌, ◌>>◌, return, get_cpt,
}
use rainbond_operator.Component.Status.{is_component_ready}
use rainbond_operator.Component.Manager.{update_status, generate_status}
use rainbond_operator.Component.Reconcile.{HandlerFuncs, find_pods}
use rainbond_operator.Component.Loop.{
  prepare, apply_handler, finish, reconcile_component, reconcile,
}
use rainbond_operator.Component.Quiet.{
  is_quiet, NeverQuiet, IsLoud, update_status_loud, get_cpt_loud,
}
use rainbond_operator.Component.Stages.{prepare_loud, apply_handler_loud, find_pods_loud}

-- The component is ready: its condition `Ready` is true, and as many replicas are ready as wanted.
abbrev pub IsReady : RbdComponent → Type 0
IsReady c =
    (r : ComponentCondition) × (find rbd_component_ready c.status.conditions ≡ some r)
    × (r.status ≡ condition_true)
    × (c.status.ready_replicas ≡ c.status.replicas)

pub is_component_ready-IsReady : (c : RbdComponent) → is_component_ready c ≡ true → IsReady c
unfolding is_component_ready
is_component_ready-IsReady c h =
    elim (Option-cases (find rbd_component_ready c.status.conditions)) [
      | inl p ↦ absurd (cc (rw (get_condition-none _ _ p, is_component_ready) at h))
      | inr (r, p) ↦
          let h' = rw (get_condition-some _ _ r p, is_component_ready) at h in
          (r, p, ground (arith, status_beq_iff r.status condition_true), ground arith)
    ]

-- If the run returns with nothing left to do, the state that it leaves meets `P`.
abbrev SettlesAt : {C : Client} {A : Type 0} → (State C → Type 0) → Step C.Err A × State C → Type 0
SettlesAt P (next _, s) = Unit
SettlesAt P (stop r e, s) = is_quiet r e ≡ true → P s
SettlesAt P (panic, s) = Unit

module _ {C : Client} (P : State C → Type 0) where
  bind_settles :
      {A B : Type 0} (m : M C A) (f : A → M C B) (s : State C)
      → NeverQuiet m
      → ((a : A) (s' : State C) → SettlesAt P (f a s'))
      → SettlesAt P ((m >>= f) s)
  unfolding ◌>>=◌
  bind_settles {A} {B} m f s hm hf = go (m s) (hm.loud s)
    where
      go :
          (p : Step C.Err A × State C)
          → IsLoud p.0
          → SettlesAt {A = B} P (
              let (r, s') = p in
              elim r [ next a ↦ f a s' | stop o e ↦ (stop o e, s') | panic ↦ (panic, s') ])
      go (next a, s') h = hf a s'
      go (stop o e, s') h = λ q. cc
      go (panic, s') h = tt

  seq_settles :
      {B : Type 0} (m : M C (Unit {0})) (k : M C B) (s : State C)
      → NeverQuiet m
      → ((s' : State C) → SettlesAt P (k s'))
      → SettlesAt P ((m >> k) s)
  unfolding ◌>>◌
  seq_settles m k s hm hk = bind_settles m (λ _. k) s hm (λ _ s'. hk s')

-- The state of `Reconcile` when the component is ready.
abbrev AtRest : {C : Client} → State C → Type 0
AtRest s = IsReady s.cpt

module _ {C : Client} where
  generate_status_loud : (pods : List Pod) → NeverQuiet (generate_status {C = C} pods)
  unfolding generate_status
  generate_status_loud pods = record { loud = λ s. ground arith }

  answer_settles :
      (s : State C)
      → SettlesAt {A = Unit {0}} AtRest (
          (get_cpt {C = C} >>= λ cpt.
          if is_component_ready cpt then return no_requeue none else return (requeue_in 5) none)
            s)
  unfolding ◌>>=◌ get_cpt return
  answer_settles s = elim (Bool-cases (is_component_ready s.cpt)) [
    | inl p ↦ rw p (λ q. is_component_ready-IsReady s.cpt p)
    | inr p ↦ rw p (λ q. cc)
  ]

  finish_settles : (h : Handler C) (s : State C) → SettlesAt AtRest (finish h s)
  unfolding finish
  finish_settles h s = bind_settles AtRest (find_pods h) _ s (find_pods_loud h) λ pods s1.
      seq_settles AtRest (generate_status pods) _ s1 (generate_status_loud pods) λ s2.
        bind_settles AtRest update_status _ s2 update_status_loud λ ignored s3. answer_settles s3

  run_settles :
      (fn : RbdComponent → RainbondCluster → Handler C) (s : State C)
      → SettlesAt AtRest (
          (prepare >>= λ cluster.
          get_cpt >>= λ cpt. apply_handler (fn cpt cluster) >> finish (fn cpt cluster))
            s)
  run_settles fn s = bind_settles AtRest prepare _ s prepare_loud λ cluster s1.
      bind_settles AtRest get_cpt _ s1 get_cpt_loud λ cpt s2.
        seq_settles AtRest (apply_handler (fn cpt cluster)) _ s2 (apply_handler_loud _)
          λ s3. finish_settles (fn cpt cluster) s3

  reconcile_component_settles :
      (supported : String) (fs : HandlerFuncs C) (s : State C)
      → (fs s.cpt.name ≡ none) ⊎ SettlesAt AtRest (reconcile_component supported fs s)
  unfolding reconcile_component ◌>>=◌ get_cpt
  reconcile_component_settles supported fs s = elim (Option-cases (fs s.cpt.name)) [
    | inl p ↦ inl p
    | inr (fn, p) ↦ inr (rw p (run_settles fn s))
  ]

  -- What `Reconcile` does with the answer to its first call.
  after_get :
      (supported : String) (fs : HandlerFuncs C) (w' : C.World)
      (found : Response C.Err RbdComponent) {r : Result} {s : Option (State C)}
      → (let p : Step C.Err (Unit {0}) × Option (State C) = elim found [
        | ok cpt ↦
            let (r, s) =
              reconcile_component supported fs
                (record { cpt = cpt; replicaser = none; world = w' }) in
            (r, some s)
        | err e ↦
            (if C.is_not_found e then stop no_requeue none else stop requeue_now (some e), none)
      ] in
          p)
        ≡ (stop r none, s)
      → r.requeue ≡ false
      → r.requeue_after ≡ 0
      → ((e : C.Err) × (found ≡ err e) × (C.is_not_found e ≡ true))
        ⊎ (((c : RbdComponent) × (found ≡ ok c) × (fs c.name ≡ none))
            ⊎ ((s' : State C) × (s ≡ some s') × IsReady s'.cpt))
  after_get supported fs w' (err e) h q a = inl (e, refl, ground arith)
  after_get supported fs w' (ok c) {r} {s} h q a =
      let start : State C = record { cpt = c; replicaser = none; world = w' } in
      elim (reconcile_component_settles supported fs start) [
        | inl p ↦ inr (inl (c, refl, p))
        | inr p ↦ inr (inr (rest (reconcile_component supported fs start) p h))
      ]
    where
      rest :
          (p : Step C.Err (Unit {0}) × State C)
          → SettlesAt AtRest p
          → ◌≡◌ {A = Step C.Err (Unit {0}) × Option (State C)} (p.0, some p.1) (stop r none, s)
          → (s' : State C) × (s ≡ some s') × IsReady s'.cpt
      rest (next x, s1) g e = absurd (cc)
      rest (panic, s1) g e = absurd (cc)
      rest (stop r' none, s1) g e = (s1, cc, g (ground arith))
      rest (stop r' (some f), s1) g e = absurd (cc)

  -- If `Reconcile` returns with neither an error nor a request to be called again, then the
  -- component was not found, or its name has no handler, or it is ready in the state that is left:
  -- its condition `Ready` is true and as many replicas are ready as are wanted.
  pub reconcile-settles :
      (supported : String) (fs : HandlerFuncs C) (namespace name : String) (w : C.World)
      {r : Result} {s : Option (State C)}
      → reconcile supported fs namespace name w ≡ (stop r none, s)
      → r.requeue ≡ false
      → r.requeue_after ≡ 0
      → ((e : C.Err) × ((C.get_component namespace name w).0 ≡ err e) × (C.is_not_found e ≡ true))
        ⊎ (((c : RbdComponent) × ((C.get_component namespace name w).0 ≡ ok c) × (fs c.name ≡ none))
            ⊎ ((s' : State C) × (s ≡ some s') × IsReady s'.cpt))
  unfolding reconcile
  reconcile-settles supported fs namespace name w h q a =
      after_get supported fs (C.get_component namespace name w).1
        (C.get_component namespace name w).0 h q a
