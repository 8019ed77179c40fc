-- ===== src/Tests/Merge.antt =====
-- Environment variables, labels, and a function that is retried.
use rainbond_operator.Base.{
  ℕ, zero, suc, String, none, some, List, [], ◌∷◌, ◌++◌, string_eq, ◌≡◌, refl, arith,
}
use rainbond_operator.Merge.{EnvVar, merge}
use rainbond_operator.Merge.Keyed.{first, outside, merge-append-outside, first-merge}
use rainbond_operator.Retry.{Attempt, done, again, still_failing, retry}
use rainbond_operator.Retry.Attempts.{retry-first, retry-exhausted}

abbrev common : List EnvVar
common = record { name = "HOME"; value = "/root" } ∷ record { name = "PORT"; value = "80" } ∷ []

abbrev specified : List EnvVar
specified = record { name = "PORT"; value = "8080" } ∷ []

merge-append-outside_example :
    merge (λ e. e.name) common specified ≡ specified ++ outside (λ e. e.name) ("PORT" ∷ []) common
merge-append-outside_example = merge-append-outside (λ e. e.name) common specified

first-merge_example :
    first (λ e. e.name) "PORT" (merge (λ e. e.name) common specified)
    ≡ some (record { name = "PORT"; value = "8080" })
first-merge_example = first-merge (λ e. e.name) "PORT" common specified

-- It asks to be called again as long as the number is not 0.
abbrev countdown : ℕ → Attempt String × ℕ
countdown zero = (done, zero)
countdown (suc n) = (again, n)

retry-first_example : retry 3 countdown 2 ≡ (none, 0)
retry-first_example =
    retry-first countdown 3 2 2 (omega arith) (omega arith) (refl, (refl, tt)) (λ e. absurd (cc))

retry-exhausted_example : retry 1 countdown 5 ≡ (some (still_failing 1), 3)
retry-exhausted_example = retry-exhausted countdown 1 5 (omega arith) (refl, (refl, tt))
