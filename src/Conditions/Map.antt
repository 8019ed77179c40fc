-- ===== src/Conditions/Map.antt =====
-- A status is a map from types to conditions: what a sequence of operations on the list of
-- conditions does, seen through the types.
use rainbond_operator.Base.{
  ℕ, Option, none, some, List, [], ◌∷◌, Eq, ◌==◌, if◌then◌else◌, ◌≡◌, refl, ◌∙◌,
}
use rainbond_operator.Conditions.{
  Condition, stamped, update_condition, set_condition, delete_condition,
}
use rainbond_operator.Conditions.Find.{find}
use rainbond_operator.Conditions.Update.{
  IsUnique, kept, find-update_condition, find-set_condition, update_condition-IsUnique,
  set_condition-IsUnique,
}
use rainbond_operator.Conditions.Delete.{find-delete_condition, delete_condition-IsUnique}

-- What the controllers do to the conditions of a status; an update happens at a time.
pub data Operation (T X : Type 0) : Type 0 where
  update : ℕ → Condition T X → Operation T X
  assign : Condition T X → Operation T X
  delete : T → Operation T X

-- A status as a map.
abbrev pub View : Type 0 → Type 0 → Type 0
View T X = T → Option (Condition T X)

module _ {T X : Type 0} ⦃e : Eq T⦄ where
  -- An operation on the list, by the code.
  unfoldable pub perform : Operation T X → List (Condition T X) → List (Condition T X)
  perform (update now c) cs = (update_condition now c cs).0
  perform (assign c) cs = set_condition c cs
  perform (delete t) cs = delete_condition t cs

  unfoldable pub perform_all : List (Operation T X) → List (Condition T X) → List (Condition T X)
  unfolding perform
  perform_all [] cs = cs
  perform_all (op ∷ ops) cs = perform_all ops (perform op cs)

  -- A map with the value of a type changed.
  abbrev pub with_value : T → Option (Condition T X) → View T X → View T X
  with_value t v m u = if u == t then v else m u

  -- An operation on the map.
  abbrev pub replay : Operation T X → View T X → View T X
  replay (update now c) m = with_value c.typ3 (some (stamped now c (m c.typ3))) m
  replay (assign c) m = with_value c.typ3 (some (kept c (m c.typ3))) m
  replay (delete t) m = with_value t none m

  abbrev pub replay_all : List (Operation T X) → View T X → View T X
  replay_all [] m = m
  replay_all (op ∷ ops) m = replay_all ops (replay op m)

  perform-IsUnique :
      (op : Operation T X) (cs : List (Condition T X)) → IsUnique cs → IsUnique (perform op cs)
  unfolding perform
  perform-IsUnique (update now c) cs h = update_condition-IsUnique now c cs h
  perform-IsUnique (assign c) cs h = set_condition-IsUnique c cs h
  perform-IsUnique (delete t) cs h = delete_condition-IsUnique t cs h

  -- The list stands for the map.
  abbrev Shows : List (Condition T X) → View T X → Type 0
  Shows cs m = (t : T) → find t cs ≡ m t

  perform-Shows :
      (op : Operation T X) (cs : List (Condition T X)) (m : View T X)
      → IsUnique cs
      → Shows cs m
      → Shows (perform op cs) (replay op m)
  unfolding perform
  perform-Shows (update now c) cs m u h t =
      find-update_condition now t c cs ∙ rw (h c.typ3, h t) refl
  perform-Shows (assign c) cs m u h t = find-set_condition t c cs ∙ rw (h c.typ3, h t) refl
  perform-Shows (delete s) cs m u h t = find-delete_condition s t cs u ∙ rw (h t) refl

  perform_all-Shows :
      (ops : List (Operation T X)) (cs : List (Condition T X)) (m : View T X)
      → IsUnique cs
      → Shows cs m
      → Shows (perform_all ops cs) (replay_all ops m)
  unfolding perform_all
  perform_all-Shows [] cs m u h = h
  perform_all-Shows (op ∷ ops) cs m u h =
      perform_all-Shows ops (perform op cs) (replay op m) (perform-IsUnique op cs u)
        (perform-Shows op cs m u h)

  -- Where no type occurs twice, any sequence of updates, assignments and deletions on the list of
  -- conditions does what it does on a map from types to conditions: an update puts the stamped
  -- condition at its type, an assignment the given one or the old one if it says the same, and a
  -- deletion leaves nothing there.
  pub perform_all-replay_all :
      (ops : List (Operation T X)) (cs : List (Condition T X)) (t : T)
      → IsUnique cs
      → find t (perform_all ops cs) ≡ replay_all ops (λ u. find u cs) t
  perform_all-replay_all ops cs t u = perform_all-Shows ops cs (λ u. find u cs) u (λ u. refl) t
