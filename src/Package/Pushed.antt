-- ===== src/Package/Pushed.antt =====
-- When `imagePush` succeeds.
use rainbond_operator.Base.{
  String, Option, none, some, List, ◌==◌, string_eq, ◌≡◌, ◌≢◌, refl, sym, ◌∙◌, ap, ◌↔◌, inl, inr,
  ◌⊎◌, Bool-cases,
}
use text.Mathlib.TextEquality.{eq_iff}
use rainbond_operator.Api.{ImageHub}
use rainbond_operator.Kube.{Response, ok, err}
use rainbond_operator.Package.Env.{
  StreamItem, Env, Failure, failure, Pkg, P, ◌>>=◌, pure, get, call_or, from_response,
}
use rainbond_operator.Package.Docker.{drain, drain_answer, registry_auth, image_push}
use rainbond_operator.Package.Once.{AllFine, drain-none_iff, answer_cases}

module _ (E : Env) where
  open E use {World, Err}

  -- The authorisation that a hub asks for: none without a user, else its encoded user and password.
  abbrev pub IsAuth : Option ImageHub → Option String → Type 0
  IsAuth none auth = auth ≡ none
  IsAuth (some hub) auth =
      ((hub.username ≡ "") × (auth ≡ none))
      ⊎ ((hub.username ≢ "")
          × ((token : String) × (E.encode_auth hub.username hub.password ≡ ok token)
              × (auth ≡ some token)))

  -- An answer of docker without a failure.
  abbrev pub IsFine : Option (List (StreamItem Err)) → Type 0
  IsFine none = Unit
  IsFine (some items) = AllFine items

  -- `imagePush` with its authorisation.
  abbrev push_with : String → Option String → P E (Unit {0})
  push_with image auth = call_or (λ e. e) (E.image_push image auth) >>= drain_answer

  drain_answer-ok_iff :
      (o : Option (List (StreamItem Err))) (s : Pkg E) → ((drain_answer o s).0 ≡ ok tt) ↔ IsFine o
  unfolding drain_answer
  drain_answer-ok_iff none s = ((λ h. tt), (λ h. refl))
  drain_answer-ok_iff (some items) s = (
    λ h. (drain-none_iff E items).0 (drained (drain E items) h),
    λ h. rw ((drain-none_iff E items).1 h, drain_answer) refl,
  )
    where
      drained :
          (r : Option Err)
          → ◌≡◌ {A = Response (Failure Err) (Unit {0})}
              (elim r [ none ↦ ok tt | some e ↦ err (failure e) ])
              (ok tt)
          → r ≡ none
      drained none h = refl
      drained (some e) h = absurd (cc h)

  -- What docker answers without a failure.
  abbrev pub IsPushed : String → Option String → World → Type 0
  IsPushed image auth w =
      (answer : Option (List (StreamItem Err))) × ((E.image_push image auth w).0 ≡ ok answer)
      × IsFine answer

  push_with-ok_iff :
      (image : String) (auth : Option String) (s : Pkg E)
      → ((push_with image auth s).0 ≡ ok tt) ↔ IsPushed image auth s.world
  unfolding ◌>>=◌ call_or
  push_with-ok_iff image auth s = elim (answer_cases (E.image_push image auth s.world).0) [
    | inl (o, p) ↦ (
      λ h. (o, p, (drain_answer-ok_iff o _).0 (rw p at h)),
      λ (x, q, f). rw p ((drain_answer-ok_iff o _).1 (rw (ok_inj x o (sym q ∙ p)) at f)),
    )
    | inr (e, p) ↦ (λ h. absurd (cc (rw p at h)), λ (x, q, f). absurd (cc (p, q)))
  ]
    where
      ok_inj :
          (x y : Option (List (StreamItem Err)))
          → ◌≡◌ {A = Response Err (Option (List (StreamItem Err)))} (ok x) (ok y)
          → x ≡ y
      ok_inj x y h = cc

  -- `imagePush` with an answer of the encoding.
  abbrev push_encoded : String → Response Err String → P E (Unit {0})
  push_encoded image r =
      (from_response (λ e. e) r >>= (λ auth. pure (some auth))) >>= push_with image

  after_encoding : String → Response Err String → Pkg E → Response (Failure Err) (Unit {0}) × Pkg E
  after_encoding image (ok token) s = push_with image (some token) s
  after_encoding image (err e) s = (err (failure e), s)

  push_encoded-after_encoding :
      (image : String) (r : Response Err String) (s : Pkg E)
      → push_encoded image r s ≡ after_encoding image r s
  unfolding ◌>>=◌ pure from_response after_encoding
  push_encoded-after_encoding image (ok token) s = refl
  push_encoded-after_encoding image (err e) s = refl

  push_hub-ok_iff :
      (image : String) (hub : Option ImageHub) (s : Pkg E)
      → (((let auth : P E (Option String) = elim hub [
        | none ↦ pure none
        | some h ↦ registry_auth h.username h.password
      ] in
              auth >>= push_with image)
            s).0
          ≡ ok tt)
        ↔ ((auth : Option String) × IsAuth hub auth × IsPushed image auth s.world)
  unfolding ◌>>=◌ pure registry_auth after_encoding
  push_hub-ok_iff image none s = (
    λ h. (none, refl, (push_with-ok_iff image none s).0 h),
    λ (auth, e, p). (push_with-ok_iff image none s).1 (rw e at p),
  )
  push_hub-ok_iff image (some hub) s = elim (Bool-cases (hub.username == "")) [
    | inl b ↦
        rw (b, registry_auth)
          (
            λ h. (
              none,
              inl ((eq_iff hub.username "").0 b, refl),
              (push_with-ok_iff image none s).0 h,
            ),
            λ (auth, a, p). elim a [
              | inl (u, e) ↦ (push_with-ok_iff image none s).1 (rw e at p)
              | inr (u, x) ↦ absurd (u ((eq_iff hub.username "").0 b))
            ],
          )
    | inr b ↦
        let named : hub.username ≢ "" = λ u. cc (b, (eq_iff hub.username "").1 u) in
        elim (answer_cases (E.encode_auth hub.username hub.password)) [
          | inl (token, q) ↦
              let step : (push_encoded image (E.encode_auth hub.username hub.password) s).0
                  ≡ (push_with image (some token) s).0 =
                ap (λ x. x.0) (push_encoded-after_encoding image _ s)
                ∙ ap (λ r. (after_encoding image r s).0) q in
              rw (b, registry_auth)
                (
                  λ h. (
                    some token,
                    inr (named, (token, q, refl)),
                    (push_with-ok_iff image (some token) s).0 (sym step ∙ h),
                  ),
                  λ (auth, a, p). elim a [
                    | inl (u, e) ↦ absurd (named u)
                    | inr (u, (y, f, g)) ↦
                        step
                        ∙ (push_with-ok_iff image (some token) s).1
                            (rw (g ∙ ap some (token_inj y token (sym f ∙ q))) at p)
                  ],
                )
          | inr (e, q) ↦
              let step : (push_encoded image (E.encode_auth hub.username hub.password) s).0
                  ≡ err (failure e) =
                ap (λ x. x.0) (push_encoded-after_encoding image _ s)
                ∙ ap (λ r. (after_encoding image r s).0) q in
              rw (b, registry_auth)
                (
                  λ h. absurd (cc (sym step ∙ h)),
                  λ (auth, a, p). elim a [
                    | inl (u, f) ↦ absurd (named u)
                    | inr (u, (y, f, g)) ↦ absurd (cc (q, f))
                  ],
                )
        ]
  ]
    where
      token_inj : (x y : String) → ◌≡◌ {A = Response Err String} (ok x) (ok y) → x ≡ y
      token_inj x y h = cc

  -- `imagePush` succeeds exactly if docker answers the push without an error, and every item of its
  -- answer, if it has one, is a message without an error; the push is made with the encoded user and
  -- password of the image hub, whose encoding has to succeed, if the hub is set and has a user, and
  -- else without an authorisation.
  pub image_push-ok_iff :
      (image : String) (s : Pkg E)
      → ((image_push image s).0 ≡ ok tt) ↔ (
          (auth : Option String) × IsAuth s.cluster.spec.image_hub auth
          × IsPushed image auth s.world)
  unfolding image_push ◌>>=◌ get
  image_push-ok_iff image s = push_hub-ok_iff image s.cluster.spec.image_hub s
