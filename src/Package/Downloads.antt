-- ===== src/Package/Downloads.antt =====
-- What `canDownload` and `canUnpack` answer, and what they mark.
use rainbond_operator.Base.{
  Bool, true, false, Option, none, some, ◌==◌, if◌then◌else◌, ◌≡◌, refl, Bool-cases, inl, inr, ap,
  ◌∙◌,
}
use rainbond_operator.Api.{
  PackageConditionType, PackageCondition, download_package, unpack_package, completed, running,
}
use rainbond_operator.Kube.{ok}
use rainbond_operator.Package.Status.{find_condition, type_eq, phase_eq}
use rainbond_operator.Package.Env.{Env, Pkg, P, ◌>>=◌, ◌>>◌, pure, try, get, modify, call}
use rainbond_operator.Package.Pull.{set_status}
use rainbond_operator.Package.Checks.{mark, can_download, can_unpack, condition}
use rainbond_operator.Package.Phases.{is_done_of, Echo}
use rainbond_operator.Package.Order.{IsOrdered, IsDue}
use rainbond_operator.Package.Moves.{view, Asks}
use rainbond_operator.Package.Turns.{mark-IsDue, mark-Keeps, ok_inj}

module _ {E : Env} (echo : Echo E) where
  open E use {World, Err}

  abbrev Answers : PackageConditionType → P E Bool → Pkg E → Type 0
  Answers t m s = IsOrdered (view (m s).1) × ((m s).0 ≡ ok true → IsDue t (view (m s).1))

  no_answer : (t : PackageConditionType) (s : Pkg E) → IsOrdered (view s) → Answers t (pure false) s
  unfolding pure
  no_answer t s o = (o, λ h. absurd (cc (ok_inj _ _ h)))

  mark_completed_answer :
      (t : PackageConditionType) (s : Pkg E)
      → ¬ ((mark {E = E} t completed >> pure false) s).0 ≡ ok true
  unfolding mark ◌>>◌ ◌>>=◌ set_status call modify try pure
  mark_completed_answer t s h = cc (ok_inj _ _ h)

  mark_choice :
      (t : PackageConditionType) (downloads : Bool) (s : Pkg E)
      → IsOrdered (view s)
      → IsDue t (view s)
      → Answers t
          (if downloads then mark t running >> pure true else mark t completed >> pure false)
          s
  mark_choice t true s o d =
      (mark-Keeps echo t running true s o d, λ h. mark-IsDue echo t running true s refl d)
  mark_choice t false s o d =
      (mark-Keeps echo t completed false s o d, λ h. absurd (mark_completed_answer t s h))

  download_choice :
      (found : Option PackageCondition) (s : Pkg E)
      → find_condition download_package s.pkg.status.conditions ≡ found
      → IsOrdered (view s)
      → Answers download_package
          (elim found [
            | none ↦ pure false
            | some con ↦
                if con.status == completed
                then pure false
                else if s.download_package
                then mark download_package running >> pure true
                else mark download_package completed >> pure false
          ])
          s
  download_choice none s f o = no_answer download_package s o
  download_choice (some c) s f o = elim (Bool-cases (c.status == completed)) [
    | inl p ↦ rw p (no_answer download_package s o)
    | inr p ↦
        rw p (mark_choice download_package s.download_package s o (inl (ap is_done_of f ∙ p), refl))
  ]

  pub can_download-Asks : Asks {E = E} download_package can_download
  unfolding can_download ◌>>=◌ condition get
  can_download-Asks = record {
    asks =
        λ s o. download_choice (find_condition download_package s.pkg.status.conditions) s refl o;
  }

  unpack_choice :
      (found unpack : Option PackageCondition) (s : Pkg E)
      → find_condition download_package s.pkg.status.conditions ≡ found
      → find_condition unpack_package s.pkg.status.conditions ≡ unpack
      → IsOrdered (view s)
      → Answers unpack_package
          (elim found [
            | none ↦ pure false
            | some con ↦
                if con.status == completed
                then elim unpack [
                  | none ↦ pure false
                  | some uncon ↦
                      if uncon.status == completed
                      then pure false
                      else if s.download_package
                      then mark unpack_package running >> pure true
                      else mark unpack_package completed >> pure false
                ]
                else pure false
          ])
          s
  unpack_choice none unpack s f g o = no_answer unpack_package s o
  unpack_choice (some c) none s f g o = elim (Bool-cases (c.status == completed)) [
    | inl p ↦ rw p (no_answer unpack_package s o)
    | inr p ↦ rw p (no_answer unpack_package s o)
  ]
  unpack_choice (some c) (some u) s f g o = elim (Bool-cases (c.status == completed)) [
    | inl p ↦ rw p (elim (Bool-cases (u.status == completed)) [
      | inl q ↦ rw q (no_answer unpack_package s o)
      | inr q ↦ rw q (
          mark_choice unpack_package s.download_package s o
            (inl (ap is_done_of g ∙ q), ap is_done_of f ∙ p))
    ])
    | inr p ↦ rw p (no_answer unpack_package s o)
  ]

  pub can_unpack-Asks : Asks {E = E} unpack_package can_unpack
  unfolding can_unpack ◌>>=◌ condition get
  can_unpack-Asks = record {
    asks = λ s o.
        unpack_choice (find_condition download_package s.pkg.status.conditions)
          (find_condition unpack_package s.pkg.status.conditions) s refl refl o;
  }
