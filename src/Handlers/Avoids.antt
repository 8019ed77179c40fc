-- ===== src/Handlers/Avoids.antt =====
-- Methods of the handlers that do not fail with an ignored error.
use rainbond_operator.Base.{String, string_eq, ◌<>◌, ◌≢◌}
use rainbond_operator.Kube.{Response, ok, err}
use rainbond_operator.Kube.Action.{◌>>=◌, ◌>>◌, pure, throw, try, get, modify, bind-ne-err}
use rainbond_operator.Handlers.Env.{Env, Failure, ignore, failure, Prepared, H, call, call_or}
use rainbond_operator.Handlers.Common.{wrapped, text}

abbrev pub not_ready : String
not_ready = "storage class not ready"

pub err_ne : {F A : Type 0} (e f : F) → e ≢ f → ◌≢◌ {A = Response F A} (err e) (err f)
err_ne e f h = λ q. h (cc)

pub ignore_ne : {Err : Type 0} (a b : String) → a ≢ b → ◌≢◌ {A = Failure Err} (ignore a) (ignore b)
ignore_ne a b h = λ q. h (cc)

answer_ne :
    {Err A : Type 0} (msg : String) (r : Response Err A)
    → (let answer : Response (Failure Err) A = elim r [ ok a ↦ ok a | err e ↦ err (failure e) ] in
        answer)
      ≢ err (ignore msg)
answer_ne msg (ok a) = λ q. absurd (cc q)
answer_ne msg (err e) = λ q. absurd (cc q)

module _ {E : Env} (msg : String) where
  open E use {World, Err}

  -- A method does not fail with the ignored error `msg`.
  pub record Avoids {A : Type 0} (m : H E A) : Type 0 where
    pub avoids : (s : Prepared E) → (m s).0 ≢ err (ignore msg)

  pub bind-Avoids :
      {A B : Type 0} (m : H E A) (k : A → H E B)
      → Avoids m
      → ((a : A) → Avoids (k a))
      → Avoids (m >>= k)
  bind-Avoids m k h g = record {
    avoids = λ s. bind-ne-err (ignore msg) m k s (h.avoids s) (λ a t. (g a).avoids t);
  }

  pub then-Avoids :
      {B : Type 0} (m : H E (Unit {0})) (k : H E B) → Avoids m → Avoids k → Avoids (m >> k)
  unfolding ◌>>◌
  then-Avoids m k h g = bind-Avoids m (λ _. k) h (λ _. g)

  pub pure-Avoids : {A : Type 0} (a : A) → Avoids (pure a)
  unfolding pure
  pure-Avoids a = record { avoids = λ s q. absurd (cc q) }

  pub get-Avoids : Avoids {A = Prepared E} get
  unfolding get
  get-Avoids = record { avoids = λ s q. absurd (cc q) }

  pub modify-Avoids : (f : Prepared E → Prepared E) → Avoids (modify f)
  unfolding modify
  modify-Avoids f = record { avoids = λ s q. absurd (cc q) }

  pub failure-Avoids : {A : Type 0} (e : Err) → Avoids {A = A} (throw (failure e))
  unfolding throw
  failure-Avoids e = record { avoids = λ s q. absurd (cc q) }

  pub ignore-Avoids : {A : Type 0} (a : String) → a ≢ msg → Avoids {A = A} (throw (ignore a))
  unfolding throw
  ignore-Avoids a h = record { avoids = λ s. err_ne (ignore a) (ignore msg) (ignore_ne a msg h) }

  pub call-Avoids : {A : Type 0} (f : World → A × World) → Avoids (call f)
  unfolding call
  call-Avoids f = record { avoids = λ s q. absurd (cc q) }

  pub call_or-Avoids : {A : Type 0} (f : World → Response Err A × World) → Avoids (call_or f)
  unfolding call_or
  call_or-Avoids f = record { avoids = λ s. answer_ne msg (f s.world).0 }

  -- What `fmt.Errorf` wraps is never ignored.
  pub wrapped-Avoids : {A : Type 0} (prefix : String) (m : H E A) → Avoids (wrapped prefix m)
  unfolding wrapped try
  wrapped-Avoids {A} prefix m =
      bind-Avoids (try m) _ (record { avoids = λ s q. absurd (cc q) }) answer
    where
      answer :
          (r : Response (Failure Err) A)
          → Avoids {A = A}
              (elim r [ ok a ↦ pure a | err e ↦ throw (failure (E.errorf (prefix <> text E e))) ])
      answer (ok a) = pure-Avoids a
      answer (err e) = failure-Avoids (E.errorf (prefix <> text E e))
