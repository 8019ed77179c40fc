-- ===== src/Package/Docker.antt =====
-- controllers/rainbondpackage_controller.go: `imagePush`, `imagePull`, `checkIfImageExists` and
-- `updateCRStatus`.
use rainbond_operator.Base.{
  String, Bool, Option, none, some, List, [], ◌∷◌, ◌==◌, string_eq, ◌<>◌, ltb, if◌then◌else◌,
}
use rainbond_operator.Api.{RainbondPackage}
use rainbond_operator.Kube.{Response, ok, err}
use rainbond_operator.Package.Env.{
  StreamItem, message, malformed, cancelled, Env, failure, P, ◌>>=◌, pure, get, modify, call_or,
  from_response,
}

-- The loop that decodes docker's answer: it ends at `io.EOF`, and returns the first error.
unfoldable pub drain : (E : Env) → List (StreamItem E.Err) → Option E.Err
drain E [] = none
drain E (cancelled e ∷ items) = some e
drain E (malformed e ∷ items) = some (E.errorf ("failed to decode json message: " <> E.error e))
drain E (message none ∷ items) = drain E items
drain E (message (some e) ∷ items) = some (E.errorf ("error detail: " <> E.error e))

-- What `updateCRStatus` retries: it takes the latest resource version, and writes the status.
unfoldable pub write_latest :
    (E : Env) → RainbondPackage → E.World → Response E.Err RainbondPackage × E.World
write_latest E pkg w =
    let (latest, w') = E.get_package pkg.namespace pkg.name w in
    elim latest [
      | err e ↦ (err (E.errorf ("getting latest rainbond package: " <> E.error e)), w')
      | ok found ↦
          E.update_package_status (record pkg { resource_version = found.resource_version }) w'
    ]

-- `updateCRStatus` of a package: the package as it is after the write. The resource version that a
-- failed write leaves in the package is left out, since each write sets it anew.
unfoldable pub update_cr_status_of :
    (E : Env) → RainbondPackage → E.World → Response E.Err RainbondPackage × E.World
unfolding write_latest
update_cr_status_of E pkg w =
    let (r, w') = E.retry_on_conflict RainbondPackage (write_latest E pkg) w in
    elim r [
      | ok p ↦ (ok p, w')
      | err e ↦ (err (E.errorf ("failed to update rainbondpackage status: " <> E.error e)), w')
    ]

module _ {E : Env} where
  open E use {World, Err}

  -- `res != nil`: there is an answer to decode.
  unfoldable pub drain_answer : Option (List (StreamItem Err)) → P E (Unit {0})
  unfolding drain
  drain_answer none s = (ok tt, s)
  drain_answer (some items) s =
      (elim (drain E items) [ none ↦ ok tt | some e ↦ err (failure e) ], s)

  -- `RegistryAuth`: set if there is a user.
  unfoldable pub registry_auth : String → String → P E (Option String)
  registry_auth user password =
      if user == ""
      then pure none
      else (do auth ← from_response (λ e. e) (E.encode_auth user password); pure (some auth))

  -- `imagePush`.
  unfoldable pub image_push : String → P E (Unit {0})
  image_push image = do
    p ← get
    auth ← elim p.cluster.spec.image_hub [
      | none ↦ pure none
      | some hub ↦ registry_auth hub.username hub.password
    ]
    res ← call_or (λ e. e) (E.image_push image auth)
    drain_answer res

  -- `imagePull`.
  unfoldable pub image_pull : String → P E (Unit {0})
  image_pull image = do
    rf ← from_response (λ e. e) (E.parse_any_reference image)
    p ← get
    auth ← registry_auth p.pkg.image_hub_user p.pkg.image_hub_pass
    res ←
        call_or (λ e. E.errorf ("pull image " <> image <> " failure " <> E.error e))
          (E.image_pull rf auth)
    drain_answer res

  -- `checkIfImageExists`. The assertion that the reference is `Named` holds for each reference that
  -- `reference.Parse` answers.
  unfoldable pub check_if_image_exists : String → P E Bool
  check_if_image_exists image = do
    parsed ←
        from_response (λ e. E.errorf ("parse image " <> image <> ": " <> E.error e))
          (E.parse_reference image)
    let tag : String = elim parsed.1 [ none ↦ "latest" | some t ↦ t ]
    listed ←
        call_or (λ e. E.errorf ("list images: " <> E.error e))
          (E.image_list (parsed.0 <> ":" <> tag))
    pure (ltb 0 listed)

  -- `(*pkg).updateCRStatus`.
  unfoldable pub update_cr_status : P E (Unit {0})
  update_cr_status = do
    p ← get
    written ← call_or (λ e. e) (update_cr_status_of E p.pkg)
    modify (λ s. record s { pkg = written })
