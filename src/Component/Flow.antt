-- ===== src/Component/Flow.antt =====
-- The control flow of a reconcile function: a step goes on with a value, returns from the whole
-- function with a result and an error, or panics. The state holds what the steps share.
use rainbond_operator.Base.{ℕ, Option}
use rainbond_operator.Api.{RbdComponent}
use rainbond_operator.Kube.{Client, Result}

-- `RbdcomponentMgr`: the component that is reconciled and the replicaser, with the world.
pub record State (C : Client) : Type 0 where
  pub cpt : RbdComponent
  pub replicaser : Option (C.World → Option ℕ × C.World)
  pub world : C.World

pub data Step (E A : Type 0) : Type 0 where
  next : A → Step E A
  stop : Result → Option E → Step E A
  panic : Step E A

abbrev pub M : Client → Type 0 → Type 0
M C A = State C → Step C.Err A × State C

infixl 5 ◌>>=◌ ◌>>◌
unfoldable pub ◌>>=◌ : {C : Client} {A B : Type 0} → M C A → (A → M C B) → M C B
◌>>=◌ m f s =
    let (r, s') = m s in
    elim r [ next a ↦ f a s' | stop o e ↦ (stop o e, s') | panic ↦ (panic, s') ]

unfoldable pub ◌>>◌ : {C : Client} {B : Type 0} → M C (Unit {0}) → M C B → M C B
unfolding ◌>>=◌
m >> k = m >>= λ _. k

module _ {C : Client} where
  unfoldable pub pure : {A : Type 0} → A → M C A
  pure a s = (next a, s)

  unfoldable pub return : {A : Type 0} → Result → Option C.Err → M C A
  return o e s = (stop o e, s)

  -- A call of the client or of a handler.
  unfoldable pub call : {A : Type 0} → (C.World → A × C.World) → M C A
  call f s = let (a, w) = f s.world in (next a, record s { world = w })

  unfoldable pub get_cpt : M C RbdComponent
  get_cpt s = (next s.cpt, s)

  unfoldable pub put_cpt : RbdComponent → M C (Unit {0})
  put_cpt c s = (next tt, record s { cpt = c })

  -- A step that panics.
  unfoldable pub crash : {A : Type 0} → M C A
  crash s = (panic, s)
