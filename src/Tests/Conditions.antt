-- ===== src/Tests/Conditions.antt =====
-- Conditions of a cluster: the storage is down and the memory is enough.
use rainbond_operator.Base.{ℕ, String, false, none, some, List, [], ◌∷◌, string_eq, ◌≡◌, refl, ◌↔◌}
use rainbond_operator.Conditions.{
  Condition, ConditionStatus, condition_true, condition_false, set_condition, update_condition,
  delete_condition,
}
use rainbond_operator.Conditions.Find.{find}
use rainbond_operator.Conditions.Update.{
  find-update_condition, update_condition-unchanged_iff, update_condition-IsUnique,
  find-set_condition, IsUnique,
}
use rainbond_operator.Conditions.Map.{
  Operation, update, assign, delete, perform_all, replay_all, perform_all-replay_all,
}
use rainbond_operator.Conditions.Delete.{find-delete_condition}

abbrev pub condition_of : String → ConditionStatus → ℕ → String → Condition String ℕ
condition_of t status time reason = record {
  typ3 = t;
  status = status;
  last_transition_time = time;
  reason = reason;
  message = "";
  extra = 0;
}

abbrev pub down : Condition String ℕ
down = condition_of "Storage" condition_false 1 "StorageFailed"

abbrev pub up : Condition String ℕ
up = condition_of "Storage" condition_true 0 ""

abbrev pub enough : Condition String ℕ
enough = condition_of "Memory" condition_true 2 ""

abbrev pub conditions : List (Condition String ℕ)
conditions = down ∷ enough ∷ []

pub conditions-IsUnique : IsUnique conditions
conditions-IsUnique = (refl, (refl, tt))

find-update_condition_example :
    find "Storage" (update_condition 7 up conditions).0
    ≡ some (condition_of "Storage" condition_true 7 "")
find-update_condition_example = find-update_condition 7 "Storage" up conditions

update_condition-unchanged_iff_example : ((update_condition 7 down conditions).1 ≡ false) ↔ (
    (old : Condition String ℕ) × (some down ≡ some old)
    × (condition_false ≡ old.status)
    × ("StorageFailed" ≡ old.reason)
    × ("" ≡ old.message))
update_condition-unchanged_iff_example = update_condition-unchanged_iff 7 down conditions

update_condition-IsUnique_example : IsUnique (update_condition 7 up conditions).0
update_condition-IsUnique_example = update_condition-IsUnique 7 up conditions conditions-IsUnique

find-set_condition_example : find "Storage" (set_condition up conditions) ≡ some up
find-set_condition_example = find-set_condition "Storage" up conditions

find-delete_condition_example : find "Storage" (delete_condition "Storage" conditions) ≡ none
find-delete_condition_example =
    find-delete_condition "Storage" "Storage" conditions conditions-IsUnique

abbrev operations : List (Operation String ℕ)
operations = update 7 up ∷ delete "Memory" ∷ assign enough ∷ []

perform_all-replay_all_example :
    find "Memory" (perform_all operations conditions)
    ≡ replay_all operations (λ t. find t conditions) "Memory"
perform_all-replay_all_example =
    perform_all-replay_all operations conditions "Memory" conditions-IsUnique
