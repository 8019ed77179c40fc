-- ===== src/Package/Once.antt =====
-- How often `imagePullAndPush` tries an image, and what docker's answer counts for.
use rainbond_operator.Base.{String, none, some, List, [], ◌∷◌, ◌≡◌, refl, arith, ◌↔◌, inl, inr, ◌⊎◌}
use rainbond_operator.Kube.{Response, ok, err}
use rainbond_operator.Retry.{retry, retry_loop}
use rainbond_operator.Package.Env.{StreamItem, message, malformed, cancelled, Env, Failure, P, Pkg}
use rainbond_operator.Package.Docker.{drain}
use rainbond_operator.Package.Pull.{handle_image, handle_image_once, attempt, retry_error}

-- Every item is a message without an error.
abbrev pub AllFine : {E : Type 0} → List (StreamItem E) → Type 0
AllFine [] = Unit
AllFine (message none ∷ items) = AllFine items
AllFine (message (some e) ∷ items) = ⊥
AllFine (malformed e ∷ items) = ⊥
AllFine (cancelled e ∷ items) = ⊥

-- The loop that decodes docker's answer returns no error exactly if every item is a message without
-- an error.
pub drain-none_iff :
    (E : Env) (items : List (StreamItem E.Err)) → (drain E items ≡ none) ↔ AllFine items
unfolding drain
drain-none_iff E [] = ground arith
drain-none_iff E (message none ∷ items) = drain-none_iff E items
drain-none_iff E (message (some e) ∷ items) = ground arith
drain-none_iff E (malformed e ∷ items) = ground arith
drain-none_iff E (cancelled e ∷ items) = ground arith

pub answer_cases :
    {F A : Type 0} (r : Response F A) → ((a : A) × (r ≡ ok a)) ⊎ ((e : F) × (r ≡ err e))
answer_cases (ok a) = inl (a, refl)
answer_cases (err e) = inr (e, refl)

module _ {E : Env} where
  retry_once :
      (m : P E (Unit {0})) (s : Pkg E)
      → (let (r, s') = retry 3 (attempt m) s in
          let answer : Response (Failure E.Err) (Unit {0}) = elim r [
            | none ↦ ok tt
            | some e ↦ err (retry_error E e)
          ] in
          (answer, s'))
        ≡ m s
  unfolding attempt retry retry_loop
  retry_once m s = elim (answer_cases (m s).0) [ inl (a, p) ↦ rw p refl | inr (e, p) ↦ rw p refl ]

  -- An image is tried once: the function that is retried never asks to be called again, since it
  -- answers every failure by an error.
  pub handle_image-once :
      (remote local : String) (s : Pkg E)
      → handle_image remote local s ≡ handle_image_once remote local s
  unfolding handle_image
  handle_image-once remote local s = retry_once (handle_image_once remote local) s
