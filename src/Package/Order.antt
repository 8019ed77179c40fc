-- ===== src/Package/Order.antt =====
-- The order of the conditions of a package, on a table of those that are completed.
use rainbond_operator.Base.{Bool, true, false, if◌then◌else◌, ◌≡◌, arith, ◌⊎◌}
use rainbond_operator.Api.{
  PackageConditionType, init, download_package, unpack_package, push_image, ready,
}
use rainbond_operator.Package.Status.{type_eq, type_beq, phase_eq}

-- The condition that has to be completed before the given one: a download before the unpacking,
-- that before the images are pushed, and that before the package is ready.
abbrev pub before_done : PackageConditionType → (PackageConditionType → Bool) → Bool
before_done init done = true
before_done download_package done = true
before_done unpack_package done = done download_package
before_done push_image done = done unpack_package
before_done ready done = done push_image

-- No condition is completed unless the one before it is.
abbrev pub IsOrdered : (PackageConditionType → Bool) → Type 0
IsOrdered done = (t : PackageConditionType) → done t ≡ true → before_done t done ≡ true

-- A condition whose turn it is: the one before it is completed, and it is not, or is the last.
abbrev pub IsDue : PackageConditionType → (PackageConditionType → Bool) → Type 0
IsDue t done = ((done t ≡ false) ⊎ (t ≡ ready)) × (before_done t done ≡ true)

abbrev pub change :
    PackageConditionType → Bool → (PackageConditionType → Bool) → PackageConditionType → Bool
change t b done u = if type_beq u t then b else done u

pub change-IsOrdered :
    (t : PackageConditionType) (b : Bool) (done : PackageConditionType → Bool)
    → IsOrdered done
    → IsDue t done
    → IsOrdered (change t b done)
change-IsOrdered t b done h d u =
    ground (arith, h u, h unpack_package, h push_image, h ready, d.0, d.1)

pub change_init-IsOrdered :
    (b : Bool) (done : PackageConditionType → Bool)
    → IsOrdered done
    → IsOrdered (change init b done)
change_init-IsOrdered b done h u = ground (arith, h u)

pub change-IsDue :
    (t : PackageConditionType) (done : PackageConditionType → Bool)
    → IsDue t done
    → IsDue t (change t false done)
change-IsDue t done d = ground (arith, d.0, d.1)

module _ (new old : PackageConditionType → Bool)
    (same : (t : PackageConditionType) → new t ≡ old t) where
  pub same-IsOrdered : IsOrdered old → IsOrdered new
  same-IsOrdered h t =
      ground (arith, h t, same t, same download_package, same unpack_package, same push_image)

  pub same-IsDue : (t : PackageConditionType) → IsDue t old → IsDue t new
  same-IsDue t d =
      ground (arith, d.0, d.1, same t, same download_package, same unpack_package, same push_image)
