-- ===== src/Handlers/Claims.antt =====
-- controllers/handler/common.go: the claims on storage that the handlers make.
pub mod Sizes
use rainbond_operator.Base.{
  ℕ, ◌*◌, ◌%◌, String, none, some, List, [], ◌∷◌, nat_eq, ◌==◌, if◌then◌else◌,
}
use rainbond_operator.Handlers.Env.{PvcParameters}

-- What is set of a PersistentVolumeClaim; the size is in bytes.
pub record PersistentVolumeClaim : Type 0 where
  pub claim_namespace : String
  pub claim_name : String
  pub claim_labels : List (String × String)
  pub claim_modes : List String
  pub claim_size : ℕ
  pub claim_class : String

-- `getStorageRequest`, after the text of the variable is parsed, to 0 if it is no number.
unfoldable pub get_storage_request : ℕ → ℕ → ℕ
get_storage_request parsed def_size = if parsed == 0 then def_size else parsed

-- `createPersistentVolumeClaim`; an int64 is taken modulo 2 ^ 64.
unfoldable pub create_persistent_volume_claim :
    String
    → String
    → List String
    → PvcParameters
    → List (String × String)
    → ℕ
    → PersistentVolumeClaim
create_persistent_volume_claim ns claim_name modes parameters labels storage_request =
    let request : ℕ = elim parameters.storage_request [ none ↦ storage_request | some n ↦ n ] in
    record {
      claim_namespace = ns;
      claim_name = claim_name;
      claim_labels = labels;
      claim_modes = modes;
      claim_size = (request * 1073741824) % 18446744073709551616;
      claim_class = parameters.storage_class_name;
    }

-- `createPersistentVolumeClaimRWX`.
unfoldable pub create_persistent_volume_claim_rwx :
    String → String → PvcParameters → List (String × String) → PersistentVolumeClaim
unfolding create_persistent_volume_claim
create_persistent_volume_claim_rwx ns claim_name parameters labels =
    create_persistent_volume_claim ns claim_name ("ReadWriteMany" ∷ []) parameters labels 1

-- `createPersistentVolumeClaimRWO`.
unfoldable pub create_persistent_volume_claim_rwo :
    String → String → PvcParameters → List (String × String) → ℕ → PersistentVolumeClaim
unfolding create_persistent_volume_claim
create_persistent_volume_claim_rwo ns claim_name parameters labels storage_request =
    create_persistent_volume_claim ns claim_name ("ReadWriteOnce" ∷ []) parameters labels
      storage_request
