-- ===== src/Component/Keeps.antt =====
-- What the steps of a reconcile function keep of the world.
use rainbond_operator.Base.{ℕ, String, Bool, true, false, Option, none, some, if◌then◌else◌}
use rainbond_operator.Api.{RbdComponent, ComponentCondition}
use rainbond_operator.Kube.{Client, Response, ok, err, Result}
use rainbond_operator.Component.Flow.{
  State, Step, next, stop, panic, M, ◌>>=◌, ◌>>◌, pure, return, call, get_cpt, put_cpt, crash,
}
use rainbond_operator.Component.Status.{with_ready_condition}
use rainbond_operator.Component.Manager.{update_component_condition, update_status, report}

-- What holds survives the calls that write no object: the clock, an event, and the status.
pub record IsApart (C : Client) (P : C.World → Type 0) : Type 0 where
  pub now_keeps : (w : C.World) → P w → P (C.now w).1
  pub event_keeps :
      (c : RbdComponent) (reason text : String) (w : C.World) → P w → P (C.event c reason text w)
  pub status_keeps :
      (c : RbdComponent) (w : C.World)
      → P w
      → P (C.retry_on_conflict RbdComponent (C.update_component_status c) w).1

module _ {C : Client} (P : C.World → Type 0) where
  open C use {World, Err, Body}

  -- What holds of the world before a step holds after it, however it ends.
  pub record Keeps {A : Type 0} (m : M C A) : Type 0 where
    pub keeps : (s : State C) → P s.world → P (m s).1.world

  bind_answer :
      {A B : Type 0} (r : Step Err A) (s : State C) (k : A → M C B)
      → ((a : A) → Keeps (k a))
      → P s.world
      → P (((λ _. (r, s)) >>= k) s).1.world
  unfolding ◌>>=◌
  bind_answer (next a) s k h p = (h a).keeps s p
  bind_answer (stop o e) s k h p = p
  bind_answer panic s k h p = p

  pub bind-Keeps :
      {A B : Type 0} (m : M C A) (k : A → M C B)
      → Keeps m
      → ((a : A) → Keeps (k a))
      → Keeps (m >>= k)
  unfolding ◌>>=◌
  bind-Keeps m k h g = record { keeps = λ s p. bind_answer (m s).0 (m s).1 k g (h.keeps s p) }

  pub then-Keeps :
      {B : Type 0} (m : M C (Unit {0})) (k : M C B) → Keeps m → Keeps k → Keeps (m >> k)
  unfolding ◌>>◌
  then-Keeps m k h g = bind-Keeps m (λ _. k) h (λ _. g)

  pub pure-Keeps : {A : Type 0} (a : A) → Keeps (pure a)
  unfolding pure
  pure-Keeps a = record { keeps = λ s p. p }

  pub return-Keeps : {A : Type 0} (r : Result) (e : Option Err) → Keeps {A = A} (return r e)
  unfolding return
  return-Keeps r e = record { keeps = λ s p. p }

  pub crash-Keeps : {A : Type 0} → Keeps {A = A} crash
  unfolding crash
  crash-Keeps = record { keeps = λ s p. p }

  pub get_cpt-Keeps : Keeps {A = RbdComponent} get_cpt
  unfolding get_cpt
  get_cpt-Keeps = record { keeps = λ s p. p }

  pub put_cpt-Keeps : (c : RbdComponent) → Keeps (put_cpt c)
  unfolding put_cpt
  put_cpt-Keeps c = record { keeps = λ s p. p }

  pub call-Keeps :
      {A : Type 0} (f : World → A × World) → ((w : World) → P w → P (f w).1) → Keeps (call f)
  unfolding call
  call-Keeps f h = record { keeps = λ s p. h s.world p }

  module _ (apart : IsApart C P) where
    update_component_condition-Keeps :
        (c : ComponentCondition) → Keeps (update_component_condition c)
    unfolding update_component_condition
    update_component_condition-Keeps c =
        bind-Keeps (call C.now) _ (call-Keeps C.now apart.now_keeps) λ now.
          bind-Keeps get_cpt _ get_cpt-Keeps
            λ cpt. then-Keeps (put_cpt _) _ (put_cpt-Keeps _) (pure-Keeps _)

    update_status-Keeps : Keeps update_status
    unfolding update_status
    update_status-Keeps = bind-Keeps (call C.now) _ (call-Keeps C.now apart.now_keeps) λ now.
        bind-Keeps get_cpt _ get_cpt-Keeps λ cpt.
          then-Keeps (put_cpt (with_ready_condition now cpt)) _ (put_cpt-Keeps _) (
            bind-Keeps
              (call (
                C.retry_on_conflict RbdComponent
                  (C.update_component_status (with_ready_condition now cpt))))
              _ (call-Keeps _ (apart.status_keeps (with_ready_condition now cpt))) answer-Keeps)
      where
        answer-Keeps :
            (r : Response Err RbdComponent)
            → Keeps {A = Option Err}
                (elim r [ ok written ↦ put_cpt written >> pure none | err e ↦ pure (some e) ])
        answer-Keeps (ok written) = then-Keeps _ _ (put_cpt-Keeps written) (pure-Keeps none)
        answer-Keeps (err e) = pure-Keeps (some e)

    pub report-Keeps :
        {A : Type 0} (condition : ℕ → ComponentCondition) (noted kept : Result) (e : Option Err)
        → Keeps {A = A} (report condition noted kept e)
    unfolding report
    report-Keeps {A} condition noted kept e =
        bind-Keeps (call C.now) _ (call-Keeps C.now apart.now_keeps) λ now.
          bind-Keeps (update_component_condition (condition now)) _
            (update_component_condition-Keeps (condition now)) (tell now)
      where
        tell :
            (now : ℕ) (changed : Bool)
            → Keeps {A = A} (
                if changed
                then (do
                  cpt ← get_cpt
                  call (λ w. (tt, C.event cpt (condition now).reason (condition now).message w))
                  failure ← update_status
                  return noted failure)
                else return kept e)
        tell now false = return-Keeps kept e
        tell now true = bind-Keeps get_cpt _ get_cpt-Keeps λ cpt.
            then-Keeps _ _
              (call-Keeps _ (apart.event_keeps cpt (condition now).reason (condition now).message))
              (bind-Keeps update_status _ update_status-Keeps λ failure. return-Keeps noted failure)
