-- ===== src/Kube/Action.antt =====
-- Methods that act on a shared state and answer Go's `(value, error)`: the monad of the volume and
-- the cluster reconciler.
use rainbond_operator.Base.{List, [], ◌∷◌, ◌≡◌, ◌≢◌, refl, ap}
use rainbond_operator.Kube.{Response, ok, err}

abbrev pub Act : Type 0 → Type 0 → Type 0 → Type 0
Act S F A = S → Response F A × S

infixl 5 ◌>>=◌ ◌>>◌
unfoldable pub ◌>>=◌ : {S F A B : Type 0} → Act S F A → (A → Act S F B) → Act S F B
◌>>=◌ m f s = let (r, s') = m s in elim r [ ok a ↦ f a s' | err e ↦ (err e, s') ]

unfoldable pub ◌>>◌ : {S F B : Type 0} → Act S F (Unit {0}) → Act S F B → Act S F B
unfolding ◌>>=◌
m >> k = m >>= λ _. k

err_inj : {F A : Type 0} (e f : F) → ◌≡◌ {A = Response F A} (err e) (err f) → e ≡ f
err_inj e f h = cc

module _ {S F : Type 0} where
  unfoldable pub pure : {A : Type 0} → A → Act S F A
  pure a s = (ok a, s)

  unfoldable pub throw : {A : Type 0} → F → Act S F A
  throw e s = (err e, s)

  -- The error of a call as a value: `if err := …; err != nil`.
  unfoldable pub try : {A : Type 0} → Act S F A → Act S F (Response F A)
  try m s = let (r, s') = m s in (ok r, s')

  unfoldable pub get : Act S F S
  get s = (ok s, s)

  unfoldable pub modify : (S → S) → Act S F (Unit {0})
  modify f s = (ok tt, f s)

  -- `for … { if err := f(x); err != nil { return err } }`.
  unfoldable pub each : {A : Type 0} → (A → Act S F (Unit {0})) → List A → Act S F (Unit {0})
  unfolding ◌>>◌ pure
  each f [] = pure tt
  each f (x ∷ xs) = f x >> each f xs

  pub bind_ok :
      {A B : Type 0} (m : Act S F A) (k : A → Act S F B) (s s' : S) (a : A)
      → m s ≡ (ok a, s')
      → (m >>= k) s ≡ k a s'
  unfolding ◌>>=◌
  bind_ok {B} m k s s' a h =
      ap {B = Response F B × S} (λ p. elim p.0 [ ok b ↦ k b p.1 | err e ↦ (err e, p.1) ]) h

  pub bind_err :
      {A B : Type 0} (m : Act S F A) (k : A → Act S F B) (s s' : S) (e : F)
      → m s ≡ (err e, s')
      → (m >>= k) s ≡ (err e, s')
  unfolding ◌>>=◌
  bind_err {B} m k s s' e h =
      ap {B = Response F B × S} (λ p. elim p.0 [ ok b ↦ k b p.1 | err x ↦ (err x, p.1) ]) h

  pub then_ok :
      {B : Type 0} (m : Act S F (Unit {0})) (k : Act S F B) (s s' : S)
      → m s ≡ (ok tt, s')
      → (m >> k) s ≡ k s'
  unfolding ◌>>◌
  then_ok m k s s' h = bind_ok m (λ _. k) s s' tt h

  pub then_err :
      {B : Type 0} (m : Act S F (Unit {0})) (k : Act S F B) (s s' : S) (e : F)
      → m s ≡ (err e, s')
      → (m >> k) s ≡ (err e, s')
  unfolding ◌>>◌
  then_err m k s s' e h = bind_err m (λ _. k) s s' e h

  pub try_lem :
      {A : Type 0} (m : Act S F A) (s s' : S) (r : Response F A)
      → m s ≡ (r, s')
      → try m s ≡ (ok r, s')
  unfolding try
  try_lem {A} m s s' r h = ap {B = Response F (Response F A) × S} (λ p. (ok p.0, p.1)) h

  invert :
      {A B : Type 0} (s : S) (p : Response F A × S) (k : A → Act S F B) (b : B)
      → (((λ _. p) >>= k) s).0 ≡ ok b
      → (a : A) × (p.0 ≡ ok a) × ((k a p.1).0 ≡ ok b)
  unfolding ◌>>=◌
  invert s (ok a, s') k b h = (a, refl, h)
  invert s (err e, s') k b h = absurd (cc h)

  -- A bind that succeeds comes from two successes.
  pub bind-eq-ok :
      {A B : Type 0} (m : Act S F A) (k : A → Act S F B) (s : S) (b : B)
      → ((m >>= k) s).0 ≡ ok b
      → (a : A) × ((m s).0 ≡ ok a) × ((k a (m s).1).0 ≡ ok b)
  unfolding ◌>>=◌
  bind-eq-ok m k s b h = invert s (m s) k b h

  carry :
      {A B : Type 0} (P : S → Type 0) (s : S) (p : Response F A × S) (k : A → Act S F B)
      → P p.1
      → ((a : A) (s : S) → P s → P (k a s).1)
      → P (((λ _. p) >>= k) s).1
  unfolding ◌>>=◌
  carry P s (ok a, s') k h g = g a s' h
  carry P s (err e, s') k h g = h

  -- What both parts of a bind keep, the bind keeps.
  pub bind-keeps :
      {A B : Type 0} (P : S → Type 0) (m : Act S F A) (k : A → Act S F B) (s : S)
      → P (m s).1
      → ((a : A) (s' : S) → P s' → P (k a s').1)
      → P ((m >>= k) s).1
  unfolding ◌>>=◌
  bind-keeps P m k s h g = carry P s (m s) k h g

  pass :
      {A B : Type 0} (e : F) (s : S) (p : Response F A × S) (k : A → Act S F B)
      → p.0 ≢ err e
      → ((a : A) (s' : S) → (k a s').0 ≢ err e)
      → (((λ _. p) >>= k) s).0 ≢ err e
  unfolding ◌>>=◌
  pass e s (ok a, s') k h g = g a s'
  pass e s (err f, s') k h g = λ q. h (ap err (err_inj f e q))

  -- An error that neither part of a bind makes, the bind does not make.
  pub bind-ne-err :
      {A B : Type 0} (e : F) (m : Act S F A) (k : A → Act S F B) (s : S)
      → (m s).0 ≢ err e
      → ((a : A) (s' : S) → (k a s').0 ≢ err e)
      → ((m >>= k) s).0 ≢ err e
  unfolding ◌>>=◌
  bind-ne-err e m k s h g = pass e s (m s) k h g

  -- A bind after a success.
  pub bind_after :
      {A B : Type 0} (m : Act S F A) (k : A → Act S F B) (s : S) (a : A)
      → (m s).0 ≡ ok a
      → (m >>= k) s ≡ k a (m s).1
  bind_after {A} m k s a h =
      bind_ok m k s (m s).1 a (ap {B = Response F A × S} (λ r. (r, (m s).1)) h)
