-- ===== src/Package/Env.antt =====
-- What the package reconciler uses of the code that is not in the repository, as a parameter: the
-- API server through controller-runtime, docker's client with docker/distribution's references,
-- encoding/json and encoding/base64. And the monad of its methods: they act on `pkg` and answer
-- `(value, error)`.
use rainbond_operator.Base.{ℕ, String, Bool, Option, none, some, List}
use rainbond_operator.Api.{RainbondCluster, RainbondPackage}
use rainbond_operator.Kube.{Response, ok, err}

-- What one round of the loop over docker's answer meets: a message, with an error in it or not, a
-- text that is no message, or a cancelled context. The end of the list is `io.EOF`.
pub data StreamItem (E : Type 0) : Type 0 where
  message : Option E → StreamItem E
  malformed : E → StreamItem E
  cancelled : E → StreamItem E

pub record Env : Type 1 where
  pub World : Type 0
  pub Err : Type 0
  pub is_not_found : Err → Bool
  -- `err.Error()` and `fmt.Errorf`.
  pub error : Err → String
  pub errorf : String → Err
  pub now : World → ℕ × World
  pub get_package : String → String → World → Response Err RainbondPackage × World
  pub get_cluster : String → String → World → Response Err RainbondCluster × World
  -- `Status().Update`, which fills the package from the answer.
  pub update_package_status : RainbondPackage → World → Response Err RainbondPackage × World
  pub retry_on_conflict :
      (A : Type 0) → (World → Response Err A × World) → World → Response Err A × World
  -- `path.Join`.
  pub path_join : String → String → String
  -- `reference.Parse`: the name, and the tag if there is one. Its grammar,
  -- `name [":" tag] ["@" digest]`, has no reference without a name, so each one that it answers is
  -- `Named`. `reference.ParseAnyReference`.
  pub parse_reference : String → Response Err (String × Option String)
  pub parse_any_reference : String → Response Err String
  -- `json.Marshal` and `base64.URLEncoding` of a user and a password.
  pub encode_auth : String → String → Response Err String
  pub new_docker_client : World → Option Err × World
  -- `ImageList` with the filter `reference`: how many images it lists.
  pub image_list : String → World → Response Err ℕ × World
  -- `ImagePull` and `ImagePush`, with `RegistryAuth` where it is set.
  pub image_pull :
      String → Option String → World → Response Err (Option (List (StreamItem Err))) × World
  pub image_push :
      String → Option String → World → Response Err (Option (List (StreamItem Err))) × World
  pub image_tag : String → String → World → Option Err × World
  -- The order in which a loop over a map meets its pairs, which is another one each time.
  pub range : List (String × String) → World → List (String × String) × World

-- The errors that the code tells apart: its two variables, and all others.
pub data Failure (E : Type 0) : Type 0 where
  cluster_config_not_ready cluster_config_no_local_hub : Failure E
  failure : E → Failure E

-- `pkg`. `image` pairs hold what to pull and what to push, without the domains.
pub record Pkg (E : Env) : Type 0 where
  pub pkg : RainbondPackage
  pub cluster : RainbondCluster
  pub download_package : Bool
  pub local_package_path : String
  pub download_image_domain : String
  pub push_image_domain : String
  pub images : List (String × String)
  pub version : String
  pub world : E.World

abbrev pub P : Env → Type 0 → Type 0
P E A = Pkg E → Response (Failure E.Err) A × Pkg E

infixl 5 ◌>>=◌ ◌>>◌
unfoldable pub ◌>>=◌ : {E : Env} {A B : Type 0} → P E A → (A → P E B) → P E B
◌>>=◌ m f s = let (r, s') = m s in elim r [ ok a ↦ f a s' | err e ↦ (err e, s') ]

unfoldable pub ◌>>◌ : {E : Env} {B : Type 0} → P E (Unit {0}) → P E B → P E B
unfolding ◌>>=◌
m >> k = m >>= λ _. k

module _ {E : Env} where
  open E use {World, Err}

  unfoldable pub pure : {A : Type 0} → A → P E A
  pure a s = (ok a, s)

  unfoldable pub throw : {A : Type 0} → Failure Err → P E A
  throw e s = (err e, s)

  -- The error of a call as a value: `if err := …; err != nil`.
  unfoldable pub try : {A : Type 0} → P E A → P E (Response (Failure Err) A)
  try m s = let (r, s') = m s in (ok r, s')

  unfoldable pub get : P E (Pkg E)
  get s = (ok s, s)

  unfoldable pub modify : (Pkg E → Pkg E) → P E (Unit {0})
  modify f s = (ok tt, f s)

  unfoldable pub call : {A : Type 0} → (World → A × World) → P E A
  call f s = let (a, w) = f s.world in (ok a, record s { world = w })

  -- A call whose error is returned, as the text that `wrap` makes of it.
  unfoldable pub call_or : {A : Type 0} → (Err → Err) → (World → Response Err A × World) → P E A
  call_or wrap f s =
      let (r, w) = f s.world in
      (elim r [ ok a ↦ ok a | err e ↦ err (failure (wrap e)) ], record s { world = w })

  unfoldable pub check_or : (Err → Err) → (World → Option Err × World) → P E (Unit {0})
  check_or wrap f s =
      let (r, w) = f s.world in
      (elim r [ none ↦ ok tt | some e ↦ err (failure (wrap e)) ], record s { world = w })

  unfoldable pub from_response : {A : Type 0} → (Err → Err) → Response Err A → P E A
  from_response wrap r s = (elim r [ ok a ↦ ok a | err e ↦ err (failure (wrap e)) ], s)
