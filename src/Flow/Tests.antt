-- ===== src/Flow/Tests.antt =====
-- Witnesses on the reconcilers that compose others (reconcilers/flow.go, reconcilers/sequence.go,
-- reconcilers/sync.go). The state is a counter.
use reconciler_runtime.Base.{
  ℕ, suc, ◌≤◌, ◌≡◌, refl, String, Bool, true, false, none, some, [], ◌∷◌, ◌++◌, ltb, eqb, ◌||◌,
  arith,
}
use reconciler_runtime.Base.Int.{pos}
use reconciler_runtime.Errors.{Error, errorf, max_iterations}
use reconciler_runtime.Results.{Result, empty_result, aggregate_two, aggregate_results}
use reconciler_runtime.Context.{Context, background}
use reconciler_runtime.Exec.{returned, panicked, nil_dereference, M, pure, Ends, Returns, ◌>>=◌}
use reconciler_runtime.Flow.{SubReconciler}
use reconciler_runtime.Flow.IfThen
use reconciler_runtime.Flow.TryCatch
use reconciler_runtime.Flow.Sequence
use reconciler_runtime.Flow.Sequence.Append
use reconciler_runtime.Flow.While
use reconciler_runtime.Flow.While.Limit
use reconciler_runtime.Flow.Sync
use reconciler_runtime.Flow.Sync.Phases
use reconciler_runtime.Flow.Sync.Validated

abbrev ctx : Context String
ctx = background

abbrev failure : Error
failure = errorf "too many" []

abbrev in_a_minute : Result
in_a_minute = record { requeue = false; requeue_after = pos 60 }

-- Counts up, and asks for a minute.
abbrev count : SubReconciler String ℕ
count = record {
  setup_with_manager = λ c. pure none;
  reconcile = λ c s. (returned (in_a_minute, none), suc s);
}

-- Counts up, and fails.
abbrev fail : SubReconciler String ℕ
fail = record {
  setup_with_manager = λ c. pure none;
  reconcile = λ c s. (returned (in_a_minute, some failure), suc s);
}

abbrev below_three : Context String → M ℕ Bool
below_three c s = (returned (ltb s 3), s)

abbrev branching : IfThen.IfThen String ℕ
branching = record {
  name = "";
  setup = none;
  condition = some below_three;
  then_branch = some count;
  else_branch = some fail;
}

abbrev trying : TryCatch.TryCatch String ℕ
trying = record { name = ""; setup = none; try = some fail; catch = none; finally = some count }

reconcile_finally_example :
    TryCatch.reconcile trying ctx 0
    ≡ (returned (aggregate_two in_a_minute in_a_minute, some failure), 2)
unfolding TryCatch.run_catch
reconcile_finally_example =
    TryCatch.reconcile_finally trying ctx fail count 0 1 1 2 (in_a_minute, some failure)
      (in_a_minute, some failure) (in_a_minute, none) refl refl refl refl refl

reconcile-append_example :
    Sequence.reconcile ((count ∷ []) ++ fail ∷ count ∷ []) ctx 0
    ≡ (Sequence.reconcile (count ∷ []) ctx >>= Append.then_rest ctx (fail ∷ count ∷ [])) 0
reconcile-append_example = Append.reconcile-append ctx (count ∷ []) (fail ∷ count ∷ []) 0

-- A loop of at most three rounds.
abbrev looping : While.While String ℕ
looping = Limit.while_up_to below_three count 2 ctx "" none

reconcile-Rounds_example :
    (n : ℕ) × (n ≤ 3)
    × Limit.RoundsUpTo below_three count 2 ctx 0 empty_result 0 n
        (in_a_minute, some (max_iterations 3))
        3
unfolding While.reconcile While.loop aggregate_results
reconcile-Rounds_example =
    Limit.reconcile-Rounds below_three count 2 ctx "" none 10 0 3
      (in_a_minute, some (max_iterations 3)) refl

reconcile-Ends_example : Ends (While.reconcile 10 looping ctx 0)
reconcile-Ends_example =
    Limit.reconcile-Ends below_three count 2 ctx (λ c u. tt) (λ c u. tt) "" none 10 0 (omega arith)

-- Is the counter odd?
abbrev odd : ℕ → Bool
odd s = eqb s 1 || eqb s 3

abbrev syncing : Bool → Sync.SyncReconciler String ℕ
syncing during = record {
  name = "";
  setup = none;
  sync_during_finalization = during;
  sync = none;
  sync_with_result = some count.reconcile;
  finalize = none;
  finalize_with_result = some fail.reconcile;
}

reconcile-Returns_example : Returns (Sync.reconcile odd (syncing true) ctx 1)
unfolding Sync.validate
reconcile-Returns_example =
    Validated.reconcile-Returns odd (syncing true) refl tt (λ c s. tt) tt (λ c s. tt) ctx 1

abbrev unsynced : Sync.SyncReconciler String ℕ
unsynced = record (syncing false) { sync_with_result = none }

accepted_then_panics_example :
    (Sync.setup_with_manager unsynced ctx 0 ≡ (returned none, 0))
    × (Sync.reconcile odd unsynced ctx 0 ≡ (panicked nil_dereference, 0))
accepted_then_panics_example = Phases.accepted_then_panics odd unsynced ctx 0 refl refl refl refl
