-- ===== src/Component/Quiet.antt =====
-- When a reconcile returns with nothing left to do: neither an error nor a request to be called
-- again.
use rainbond_operator.Base.{
  ℕ, Bool, true, false, not, ◌&&◌, Option, none, some, ◌==◌, nat_eq, string_eq, if◌then◌else◌, ◌≡◌,
  refl, ◌⊎◌, inl, inr, arith, ◌≢◌,
}
use rainbond_operator.Api.{RbdComponent, ComponentCondition}
use rainbond_operator.Kube.{requeue_now, requeue_in, Client, ok, err, Result}
use rainbond_operator.Component.Flow.{
  State, Step, M, next, stop, panic, ◌>>=◌, ◌>>◌, pure, return, call, get_cpt, put_cpt, crash,
}
use rainbond_operator.Component.Manager.{report, update_status, update_component_condition}

-- No error, and no request to be called again.
abbrev pub is_quiet {ℓ} : {E : Type ℓ} → Result → Option E → Bool
is_quiet r none = not r.requeue && r.requeue_after == 0
is_quiet r (some _) = false

abbrev pub IsLoud : {E A : Type 0} → Step E A → Type 0
IsLoud (next _) = Unit
IsLoud (stop r e) = is_quiet r e ≡ false
IsLoud panic = Unit

pub noted_loud {ℓ} :
    {E : Type ℓ} (noted : Result) (e : Option E)
    → (noted.requeue ≡ true) ⊎ (noted.requeue_after ≢ 0)
    → is_quiet noted e ≡ false
noted_loud noted none h = ground arith
noted_loud noted (some e) h = refl

-- No run of the step returns with nothing left to do.
pub record NeverQuiet {C : Client} {A : Type 0} (m : M C A) : Type 0 where
  pub loud : (s : State C) → IsLoud (m s).0

module _ {C : Client} where
  pub bind_loud :
      {A B : Type 0} {m : M C A} {f : A → M C B}
      → NeverQuiet m
      → ((a : A) → NeverQuiet (f a))
      → NeverQuiet (m >>= f)
  unfolding ◌>>=◌
  bind_loud {A} {B} {m} {f} hm hf = record { loud = λ s. go (m s) (hm.loud s) }
    where
      go :
          (p : Step C.Err A × State C)
          → IsLoud p.0
          → IsLoud (
              let (r, s') = p in
              let q : Step C.Err B × State C = elim r [
                | next a ↦ f a s'
                | stop o e ↦ (stop o e, s')
                | panic ↦ (panic, s')
              ] in
              q.0)
      go (next a, s') h = (hf a).loud s'
      go (stop o e, s') h = h
      go (panic, s') h = tt

  pub seq_loud :
      {B : Type 0} {m : M C (Unit {0})} {k : M C B}
      → NeverQuiet m
      → NeverQuiet k
      → NeverQuiet (m >> k)
  unfolding ◌>>◌
  seq_loud hm hk = bind_loud hm (λ _. hk)

  pub pure_loud : {A : Type 0} (a : A) → NeverQuiet (pure {C = C} a)
  unfolding pure
  pure_loud a = record { loud = λ s. tt }

  pub call_loud : {A : Type 0} (f : C.World → A × C.World) → NeverQuiet (call {C = C} f)
  unfolding call
  call_loud f = record { loud = λ s. tt }

  pub get_cpt_loud : NeverQuiet (get_cpt {C = C})
  unfolding get_cpt
  get_cpt_loud = record { loud = λ s. tt }

  pub put_cpt_loud : (c : RbdComponent) → NeverQuiet (put_cpt {C = C} c)
  unfolding put_cpt
  put_cpt_loud c = record { loud = λ s. tt }

  pub crash_loud : {A : Type 0} → NeverQuiet (crash {C = C} {A = A})
  unfolding crash
  crash_loud = record { loud = λ s. tt }

  pub return_loud :
      {A : Type 0} (r : Result) (e : Option C.Err)
      → is_quiet r e ≡ false
      → NeverQuiet (return {C = C} {A = A} r e)
  unfolding return
  return_loud r e h = record { loud = λ s. h }

  pub if_loud :
      {A : Type 0} (b : Bool) {m n : M C A}
      → NeverQuiet m
      → NeverQuiet n
      → NeverQuiet (if b then m else n)
  if_loud true hm hn = hm
  if_loud false hm hn = hn

  pub update_component_condition_loud :
      (c : ComponentCondition) → NeverQuiet (update_component_condition {C = C} c)
  unfolding update_component_condition ◌>>=◌ call get_cpt ◌>>◌ put_cpt pure
  update_component_condition_loud c = record { loud = λ s. tt }

  pub update_status_loud : NeverQuiet (update_status {C = C})
  unfolding update_status
  update_status_loud = bind_loud (call_loud _) λ now. bind_loud get_cpt_loud λ cpt.
      seq_loud (put_cpt_loud _) (
        bind_loud (call_loud _)
          (elim [ ok w ↦ seq_loud (put_cpt_loud _) (pure_loud _) | err e ↦ (pure_loud _) ]))

  pub report_loud :
      {A : Type 0} (c : ℕ → ComponentCondition) (noted kept : Result) (e : Option C.Err)
      → (noted.requeue ≡ true) ⊎ (noted.requeue_after ≢ 0)
      → is_quiet kept e ≡ false
      → NeverQuiet (report {C = C} {A = A} c noted kept e)
  unfolding report
  report_loud c noted kept e hn hk = bind_loud (call_loud _) λ now.
      bind_loud (update_component_condition_loud (c now)) λ changed.
        if_loud changed
          (bind_loud get_cpt_loud λ cpt.
            seq_loud (call_loud _) (
              bind_loud update_status_loud
                λ failure. return_loud _ _ (noted_loud noted failure hn)))
          (return_loud _ _ hk)

  -- The two ways in which the code reports a failure.
  pub report_later_loud :
      {A : Type 0} (c : ℕ → ComponentCondition)
      → NeverQuiet (report {C = C} {A = A} c (requeue_in 3) (requeue_in 3) none)
  report_later_loud c = report_loud c (requeue_in 3) (requeue_in 3) none (inr (omega arith)) refl

  pub report_error_loud :
      {A : Type 0} (c : ℕ → ComponentCondition) (kept : Result) (e : C.Err)
      → NeverQuiet (report {C = C} {A = A} c requeue_now kept (some e))
  report_error_loud c kept e = report_loud c requeue_now kept (some e) (inl refl) refl
