-- ===== src/Handlers/Claims/Sizes.antt =====
-- The sizes of the claims.
use rainbond_operator.Base.{
  ℕ, ◌*◌, ◌%◌, ◌<◌, String, Bool, true, false, none, some, List, [], ◌∷◌, ◌==◌, string_eq,
  if◌then◌else◌, ◌≡◌, refl, sym, ◌∙◌, ap, arith, Bool-cases, inl, inr,
}
use rainbond_operator.Kube.{Response, ok}
use rainbond_operator.Package.Turns.{ok_inj}
use rainbond_operator.Volume.Types.{RainbondVolume}
use rainbond_operator.Handlers.Env.{Env, Failure, PvcParameters, Prepared}
use rainbond_operator.Handlers.Common.{
  first_class, labels_for_access_mode_rwo, labels_for_access_mode_rwx,
  storage_class_name_from_rainbond_volume_rwo,
}
use rainbond_operator.Handlers.Classes.{
  chosen_class, storage_class_name_from_rainbond_volume_rwo_lem,
}
use rainbond_operator.Handlers.Claims.{
  create_persistent_volume_claim_rwo, create_persistent_volume_claim,
}

-- How many gibibytes are asked for: as many as are set, if a volume for one writer is listed, else
-- one.
abbrev pub asked : List RainbondVolume → ℕ → ℕ
asked [] n = 1
asked (v ∷ vs) n = n

-- The size of a claim with these parameters.
abbrev size_with : PvcParameters → ℕ → ℕ
size_with p n = elim p.storage_request [ none ↦ n | some k ↦ k ]

size_first :
    {Err : Type 0} (rwo : Bool) (v : RainbondVolume) (vs : List RainbondVolume) (p : PvcParameters)
    (n : ℕ)
    → ◌≡◌ {A = Response (Failure Err) PvcParameters} (first_class rwo (v ∷ vs)) (ok p)
    → size_with p n ≡ (if rwo then n else 1)
unfolding first_class
size_first rwo v vs p n h = elim (Bool-cases (v.spec.storage_class_name == "")) [
  | inl q ↦ absurd (cc (rw q at h))
  | inr q ↦
      ap (λ x. size_with x n) (sym (ok_inj _ _ (rw q at h)))
      ∙ elim (Bool-cases rwo) [ inl b ↦ rw b refl | inr b ↦ rw b refl ]
]

size_chosen :
    {Err : Type 0} (vs us : List RainbondVolume) (p : PvcParameters) (n : ℕ)
    → ◌≡◌ {A = Response (Failure Err) PvcParameters} (chosen_class vs us) (ok p)
    → size_with p n ≡ asked vs n
unfolding first_class
size_chosen [] [] p n h = absurd (cc h)
size_chosen [] (u ∷ us) p n h = size_first false u us p n h
size_chosen (v ∷ vs) us p n h = size_first true v [] p n h

module _ {E : Env} where
  open E use {World, Err}

  -- A claim for one writer, with the parameters that are found for it, asks for the gibibytes that
  -- are set only if a volume for one writer is listed; on a volume for many writers it asks for one.
  -- The size in bytes does not wrap around below 2 ^ 33 gibibytes.
  pub create_persistent_volume_claim_rwo-size :
      (ns name : String) (labels : List (String × String)) (n : ℕ) (s : Prepared E)
      (vs us : List RainbondVolume) (w u : World) (p : PvcParameters)
      → E.list_volumes ns labels_for_access_mode_rwo s.world ≡ (ok vs, w)
      → E.list_volumes ns labels_for_access_mode_rwx w ≡ (ok us, u)
      → (storage_class_name_from_rainbond_volume_rwo ns s).0 ≡ ok p
      → n < 8589934592
      → (create_persistent_volume_claim_rwo ns name p labels n).claim_size ≡ asked vs n * 1073741824
  unfolding create_persistent_volume_claim_rwo create_persistent_volume_claim
  create_persistent_volume_claim_rwo-size ns name labels n s vs us w u p h k found small =
      let e : size_with p n ≡ asked vs n =
        size_chosen vs us p n
          (sym (storage_class_name_from_rainbond_volume_rwo_lem ns s vs us w u h k) ∙ found) in
      ap (λ x. (x * 1073741824) % 18446744073709551616) e ∙ fits vs
    where
      fits :
          (vs : List RainbondVolume)
          → (asked vs n * 1073741824) % 18446744073709551616 ≡ asked vs n * 1073741824
      fits [] = refl
      fits (v ∷ vs) = omega arith
