-- ===== src/Flow/Sync/Phases.antt =====
-- What of a `SyncReconciler` runs when (reconcilers/sync.go).
use reconciler_runtime.Base.{Option, none, some, Bool, true, false, not, ◌||◌, ◌≡◌, refl, ap}
use reconciler_runtime.Errors.{Error}
use reconciler_runtime.Results.{Result, empty_result, aggregate_two, aggregate_empty_two}
use reconciler_runtime.Context.{Context}
use reconciler_runtime.Exec.{
  Outcome, returned, panicked, exhausted, pure, continue, nil_dereference,
}
use reconciler_runtime.Flow.{Reply}
use reconciler_runtime.Flow.Sync.{
  SyncReconciler, setup_with_manager, run_sync, run_finalize, add_reply, reconcile,
}

add_to_empty :
    {S : Type 0} (run : Outcome Reply × S)
    → continue run.0 (λ reply. add_reply empty_result reply (λ result. pure (result, none))) run.1
      ≡ run
add_to_empty (returned (result, none), s) =
    ap (λ (r : Result). (returned (r, none), s)) (aggregate_empty_two result)
add_to_empty (returned (result, some e), s) =
    ap (λ (r : Result). (returned (r, some e), s)) (aggregate_empty_two result)
add_to_empty (panicked e, s) = refl
add_to_empty (exhausted, s) = refl

or_true : (b : Bool) → (b || true) ≡ true
or_true true = refl
or_true false = refl

module _ {Config S : Type 0} (is_deleting : S → Bool) where
  -- While the resource is being deleted, and `SyncDuringFinalization` is off, a reconcile is a run of
  -- the finalize method, whatever comes of it, and `Sync` does not run.
  reconcile-run_finalize :
      (r : SyncReconciler Config S) (ctx : Context Config) (s : S)
      → is_deleting s ≡ true
      → r.sync_during_finalization ≡ false
      → reconcile is_deleting r ctx s ≡ run_finalize r ctx s
  unfolding reconcile
  reconcile-run_finalize r ctx s d off =
      simp (d, off, reconcile) (add_to_empty (run_finalize r ctx s))

  -- When neither before nor after `Sync` the resource is being deleted, a reconcile is a run of
  -- `Sync`, and the finalize method does not run.
  reconcile-run_sync :
      (r : SyncReconciler Config S) (ctx : Context Config) (s t : S) (reply : Reply)
      → is_deleting s ≡ false
      → run_sync r ctx s ≡ (returned reply, t)
      → is_deleting t ≡ false
      → reconcile is_deleting r ctx s ≡ (returned reply, t)
  unfolding reconcile
  reconcile-run_sync r ctx s t (result, none) d h d' =
      rw (d, reconcile)
        (rw h (rw d' (ap (λ (x : Result). (returned (x, none), t)) (aggregate_empty_two result))))
  reconcile-run_sync r ctx s t (result, some e) d h d' =
      rw (d, reconcile)
        (rw h (ap (λ (x : Result). (returned (x, some e), t)) (aggregate_empty_two result)))

  -- Both methods run, `Sync` first, when the resource is being deleted and `SyncDuringFinalization`
  -- is on; the results are aggregated.
  reconcile_both :
      (r : SyncReconciler Config S) (ctx : Context Config) (s t u : S) (result result' : Result)
      (err : Option Error)
      → r.sync_during_finalization ≡ true
      → run_sync r ctx s ≡ (returned (result, none), t)
      → is_deleting t ≡ true
      → run_finalize r ctx t ≡ (returned (result', err), u)
      → reconcile is_deleting r ctx s ≡ (returned (aggregate_two result result', err), u)
  unfolding reconcile
  reconcile_both r ctx s t u result result' none on h d f =
      simp (on, or_true (not (is_deleting s)), h, d, f, reconcile, aggregate_empty_two)
  reconcile_both r ctx s t u result result' (some e) on h d f =
      simp (on, or_true (not (is_deleting s)), h, d, f, reconcile, aggregate_empty_two)

  -- A reconciler without a `Setup` is accepted without being validated: one with no `Sync` method
  -- then panics when it reconciles a resource that is not being deleted.
  pub accepted_then_panics :
      (r : SyncReconciler Config S) (ctx : Context Config) (s : S)
      → r.setup ≡ none
      → r.sync ≡ none
      → r.sync_with_result ≡ none
      → is_deleting s ≡ false
      → (setup_with_manager r ctx s ≡ (returned none, s))
        × (reconcile is_deleting r ctx s ≡ (panicked nil_dereference, s))
  unfolding setup_with_manager reconcile run_sync
  accepted_then_panics r ctx s no_setup no_sync no_result d =
      (simp (no_setup, setup_with_manager), simp (d, no_sync, no_result, reconcile, run_sync))
