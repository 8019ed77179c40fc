-- ===== src/Merge.antt =====
-- controllers/handler/common.go: what a handler's own settings and those of the component's
-- specification give together, and the labels of a component. A Go map whose values are not read is the list of its keys; a map
-- of labels is an association list with each key once.
pub mod Keyed
pub mod Labels
use rainbond_operator.Base.{
  ℕ, String, Bool, true, false, Option, none, some, List, [], ◌∷◌, ◌++◌, map, Eq, ◌==◌, string_eq,
  if◌then◌else◌,
}

-- `_, ok := set[k]`.
unfoldable pub contains : String → List String → Bool
contains k [] = false
contains k (j ∷ ks) = if k == j then true else contains k ks

module _ {A : Type 0} (key : A → String) where
  -- The loop that appends what has a key outside the set.
  unfoldable pub append_missing : List String → List A → List A → List A
  unfolding contains
  append_missing keys [] acc = acc
  append_missing keys (x ∷ xs) acc =
      append_missing keys xs (if contains (key x) keys then acc else acc ++ (x ∷ []))

  -- The set of the keys is filled before the loop, and does not grow in it.
  unfoldable pub merge : List A → List A → List A
  unfolding append_missing
  merge common priority = append_missing (map key priority) common priority

pub record EnvVar : Type 0 where
  pub name : String
  pub value : String

pub record Volume : Type 0 where
  pub name : String
  pub source : String

pub record VolumeMount : Type 0 where
  pub name : String
  pub mount_path : String

-- `mergeArgs`; `flag` is `strings.Split(arg, "=")[0]`.
unfoldable pub merge_args : (String → String) → List String → List String → List String
unfolding merge
merge_args flag common_args priority_args = merge flag common_args priority_args

-- `mergeEnvs`, `mergeVolumes` and `mergeVolumeMounts`.
unfoldable pub merge_envs : List EnvVar → List EnvVar → List EnvVar
unfolding merge
merge_envs common priority = merge (λ e. e.name) common priority

unfoldable pub merge_volumes : List Volume → List Volume → List Volume
unfolding merge
merge_volumes common priority = merge (λ v. v.name) common priority

unfoldable pub merge_volume_mounts : List VolumeMount → List VolumeMount → List VolumeMount
unfolding merge
merge_volume_mounts common priority = merge (λ v. v.name) common priority

-- `corev1.ResourceRequirements`: each part is a map that may be nil.
pub record ResourceRequirements : Type 0 where
  pub requests : Option (List (String × ℕ))
  pub limits : Option (List (String × ℕ))

-- `mergeResources`.
unfoldable pub merge_resources : ResourceRequirements → ResourceRequirements → ResourceRequirements
merge_resources common priority = record {
  requests = elim priority.requests [ none ↦ common.requests | some r ↦ some r ];
  limits = elim priority.limits [ none ↦ common.limits | some l ↦ some l ];
}

-- `labels[k]`, where a missing key gives the empty text, and `labels[k] = v`.
unfoldable pub label : String → List (String × String) → String
label k [] = ""
label k ((j, v) ∷ m) = if j == k then v else label k m

unfoldable pub put_label : String → String → List (String × String) → List (String × String)
put_label k v [] = (k, v) ∷ []
put_label k v ((j, u) ∷ m) = if j == k then (k, v) ∷ m else (j, u) ∷ put_label k v m

-- The loop of `LabelsForRainbond` (util/rbdutil/rbdutil.go).
unfoldable pub add_labels : List (String × String) → List (String × String) → List (String × String)
unfolding label put_label
add_labels [] acc = acc
add_labels ((k, v) ∷ m) acc = add_labels m (if label k acc == "" then put_label k v acc else acc)

unfoldable pub labels_for_rainbond : List (String × String) → List (String × String)
unfolding add_labels
labels_for_rainbond labels =
    add_labels labels (("creator", "Rainbond") ∷ ("belongTo", "rainbond-operator") ∷ [])

-- `LabelsForRainbondComponent` of a component's name.
unfoldable pub labels_for_rainbond_component : String → List (String × String)
unfolding labels_for_rainbond put_label
labels_for_rainbond_component name = put_label "name" name (labels_for_rainbond [])
