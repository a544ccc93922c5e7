-- ===== src/Tests.antt =====
-- Witnesses on results and errors (reconcilers/reconcilers.go) and on the stash
-- (reconcilers/stash.go).
use reconciler_runtime.Base.{
  ℕ, String, ◌≡◌, refl, true, false, ◌==◌, none, some, List, [], ◌∷◌, if◌then◌else◌,
}
use reconciler_runtime.Base.Int.{pos}
use reconciler_runtime.Results.{Result, aggregate_results, aggregate_results-IsLeast, IsLeast}
use reconciler_runtime.Base.Map.{Map, string_key, lookup}
use reconciler_runtime.Exec.{returned}
use reconciler_runtime.Stash.{Stashed, stash_value, clear_value}
use reconciler_runtime.Stash.RoundTrip.{Retrieves, stash_value-retrieve_value}

abbrev in_seconds : List Result
in_seconds =
    record { requeue = false; requeue_after = pos 60 }
    ∷ record { requeue = true; requeue_after = pos 0 }
    ∷ []

aggregate_results-IsLeast_example : IsLeast in_seconds (aggregate_results in_seconds)
aggregate_results-IsLeast_example = aggregate_results-IsLeast in_seconds

abbrev stash_of_two : Map String ℕ
stash_of_two = ("first", 1) ∷ ("second", 2) ∷ []

abbrev stashed : Stashed ℕ ℕ
stashed = record { stash = some stash_of_two; cluster = 0 }

stash_value-retrieve_value_example :
    (s' : Stashed ℕ ℕ) × (stash_value "first" 5 stashed ≡ (returned tt, s'))
    × Retrieves s' (λ j. if "first" == j then some 5 else lookup j stash_of_two)
    × ((s'' : Stashed ℕ ℕ) × (clear_value "first" s' ≡ (returned (some 5), s''))
        × Retrieves s'' (λ j. if "first" == j then none else lookup j stash_of_two))
stash_value-retrieve_value_example =
    stash_value-retrieve_value "first" 5 stash_of_two stashed refl (refl, (refl, tt))
