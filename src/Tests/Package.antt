-- ===== src/Tests/Package.antt =====
-- A package, in a world where docker and the server answer at once and everything succeeds.
use rainbond_operator.Base.{
  ℕ, String, false, Option, none, some, List, [], ◌∷◌, ◌==◌, string_eq, ◌≡◌, refl, ◌↔◌, ◌⊎◌, ◌<>◌,
}
use rainbond_operator.Api.{
  PackageConditionType, PackageConditionStatus, PackageCondition, RainbondPackage, RainbondCluster,
  ImageHub, init, download_package, unpack_package, push_image, ready, waiting, completed,
}
use rainbond_operator.Kube.{Response, ok}
use rainbond_operator.Package.Status.{
  find_condition, update_condition_status, update_condition_progress, check_status_can_return,
  leave,
}
use rainbond_operator.Package.Conditions.{find_condition-update_condition_status}
use rainbond_operator.Package.Progress.{find_condition-update_condition_progress}
use rainbond_operator.Package.Return.{
  AllCompleted, RunsBeforeFailing, check_status_can_return-leave_iff,
}
use rainbond_operator.Package.Env.{message, Env, Pkg, pure}
use rainbond_operator.Package.Docker.{image_push}
use rainbond_operator.Package.Pull.{handle_image, handle_image_once}
use rainbond_operator.Package.Once.{handle_image-once}
use rainbond_operator.Package.Pushed.{IsAuth, IsPushed, image_push-ok_iff}
use rainbond_operator.Package.Handle.{Tasks, handle}
use rainbond_operator.Package.Phases.{Echo, pure-Steady}
use rainbond_operator.Package.Order.{IsOrdered}
use rainbond_operator.Package.Moves.{view}
use rainbond_operator.Package.Steps.{AreSteady, handle-IsOrdered}
use rainbond_operator.Conditions.{condition_true}
use rainbond_operator.Tests.Conditions.{condition_of}
use rainbond_operator.Tests.Cluster.{spec}

abbrev condition : PackageConditionType → PackageConditionStatus → ℕ → PackageCondition
condition t status progress = record {
  typ3 = t;
  status = status;
  last_heartbeat_time = 0;
  last_transition_time = 0;
  reason = "";
  message = "";
  progress = progress;
}

-- The package is downloaded, and its images are being pushed.
abbrev pub pushing : List PackageCondition
pushing =
    condition init completed 100
    ∷ condition download_package completed 100
    ∷ condition unpack_package completed 100
    ∷ condition push_image waiting 40
    ∷ condition ready waiting 0
    ∷ []

find_condition-update_condition_status_example :
    find_condition push_image (update_condition_status 9 push_image completed pushing)
    ≡ some (record (condition push_image completed 100) {
      last_heartbeat_time = 9;
      last_transition_time = 9;
    })
unfolding find_condition
find_condition-update_condition_status_example =
    find_condition-update_condition_status 9 push_image push_image completed pushing

find_condition-update_condition_progress_example :
    find_condition push_image (update_condition_progress 9 push_image 120 pushing).0
    ≡ some (record (condition push_image waiting 100) { last_heartbeat_time = 9 })
unfolding find_condition
find_condition-update_condition_progress_example =
    find_condition-update_condition_progress 9 push_image push_image 120 pushing

check_status_can_return-leave_iff_example :
    (check_status_can_return pushing ≡ leave)
    ↔ ((¬ (pushing ≡ []) × AllCompleted pushing) ⊎ RunsBeforeFailing pushing)
check_status_can_return-leave_iff_example = check_status_can_return-leave_iff pushing

-- The world counts the calls that change it.
abbrev package_of : List PackageCondition → RainbondPackage
package_of cs = record {
  namespace = "rbd-system";
  name = "rainbondpackage";
  resource_version = "1";
  pkg_path = "/opt/rainbond/pkg/tgz/rainbond.tgz";
  image_hub_user = "";
  image_hub_pass = "";
  status = record { conditions = cs; images_number = 0; images_pushed = [] };
}

abbrev cluster : RainbondCluster
cluster = record {
  namespace = "rbd-system";
  name = "rainbondcluster";
  spec = spec;
  status = record {
    master_role_label = "";
    storage_classes = [];
    image_pull_secret = none;
    gateway_available_nodes = none;
    chaos_available_nodes = none;
    conditions = condition_of "ImageRepository" condition_true 1 "" ∷ [];
  };
}

abbrev env : Env
env = record {
  World = ℕ;
  Err = String;
  is_not_found = λ e. e == "not found";
  error = λ e. e;
  errorf = λ e. e;
  now = λ w. (w, w);
  get_package = λ namespace name w. (ok (package_of pushing), w);
  get_cluster = λ namespace name w. (ok cluster, w);
  update_package_status = λ p w. (ok p, w);
  retry_on_conflict = λ A f w. f w;
  path_join = λ a b. a <> b;
  parse_reference = λ image. ok (image, none);
  parse_any_reference = λ image. ok image;
  encode_auth = λ user password. ok user;
  new_docker_client = λ w. (none, w);
  image_list = λ image w. (ok 0, w);
  image_pull = λ image auth w. (ok (some (message none ∷ [])), w);
  image_push = λ image auth w. (ok (some []), w);
  image_tag = λ a b w. (none, w);
  range = λ images w. (images, w);
}

ok_inj : {F A : Type 0} (a b : A) → ◌≡◌ {A = Response F A} (ok a) (ok b) → b ≡ a
ok_inj a b h = cc

echo : Echo env
echo = record {
  written = λ p q w h. rw (ok_inj {F = String} p q h) refl;
  retried = λ A f w a h. (w, h);
}

abbrev tasks : Tasks env
tasks = record { download = pure tt; untar = pure tt; images_load_and_push = pure tt }

tasks-AreSteady : AreSteady {E = env} tasks
tasks-AreSteady = record {
  download_steady = pure-Steady tt;
  untar_steady = pure-Steady tt;
  load_steady = pure-Steady tt;
}

abbrev start : Pkg env
start = record {
  pkg = package_of pushing;
  cluster = cluster;
  download_package = false;
  local_package_path = "";
  download_image_domain = "";
  push_image_domain = "";
  images = [];
  version = "v5.3.0";
  world = 0;
}

start-IsOrdered : IsOrdered (view start)
unfolding find_condition
start-IsOrdered init h = refl
start-IsOrdered download_package h = refl
start-IsOrdered unpack_package h = refl
start-IsOrdered push_image h = refl
start-IsOrdered ready h = absurd (cc)

handle-IsOrdered_example : IsOrdered (view (handle tasks start).1)
handle-IsOrdered_example = handle-IsOrdered echo tasks tasks-AreSteady start start-IsOrdered

handle_image-once_example :
    handle_image {E = env} "rainbond/builder" "goodrain.me/builder" start
    ≡ handle_image_once "rainbond/builder" "goodrain.me/builder" start
handle_image-once_example = handle_image-once "rainbond/builder" "goodrain.me/builder" start

abbrev hub : ImageHub
hub = record { domain = "goodrain.me"; namespace = ""; username = "admin"; password = "12345678" }

abbrev with_hub : Pkg env
with_hub =
    let spec = cluster.spec in
    record start { cluster = record cluster { spec = record spec { image_hub = some hub } } }

image_push-ok_iff_example : ((image_push "goodrain.me/builder" with_hub).0 ≡ ok tt) ↔ (
    (auth : Option String) × IsAuth env (some hub) auth × IsPushed env "goodrain.me/builder" auth 0)
image_push-ok_iff_example = image_push-ok_iff env "goodrain.me/builder" with_hub
