-- ===== src/Flow/Sync/Validated.antt =====
-- A validated `SyncReconciler` (reconcilers/sync.go).
use reconciler_runtime.Base.{
  Option, none, some, Bool, not, ◌||◌, Option-cases, Bool-cases, inl, inr, ◌≡◌, subst,
}
use reconciler_runtime.Results.{Result, empty_result}
use reconciler_runtime.Context.{Context}
use reconciler_runtime.Exec.{Outcome, returned, panicked, exhausted, M, pure, continue, Returns}
use reconciler_runtime.Flow.{Reply}
use reconciler_runtime.Flow.Sync.{
  SyncReconciler, validate, run_sync, run_finalize, add_reply, reconcile, finalize_phase,
}

-- A method returns, if it is there.
abbrev pub MethodReturns : {Config S A : Type 0} → Option (Context Config → M S A) → Type 0
MethodReturns {Config} {S} none = Unit
MethodReturns {Config} {S} (some f) = (ctx : Context Config) (s : S) → Returns (f ctx s)

continue-Returns :
    {S A B : Type 0} (run : Outcome A × S) (k : A → M S B)
    → Returns run
    → ((a : A) (t : S) → Returns (k a t))
    → Returns (continue run.0 k run.1)
continue-Returns (returned a, s) k h all = all a s
continue-Returns (panicked e, s) k h all = absurd h
continue-Returns (exhausted, s) k h all = absurd h

add_reply-Returns :
    {S : Type 0} (result : Result) (rest : Result → M S Reply)
    → ((r : Result) (t : S) → Returns (rest r t))
    → (reply : Reply) (t : S) → Returns (add_reply result reply rest t)
add_reply-Returns result rest h (r, none) t = h _ t
add_reply-Returns result rest h (r, some e) t = tt

module _ {Config S : Type 0} (is_deleting : S → Bool) (r : SyncReconciler Config S)
    (valid : validate r ≡ none) (sync : MethodReturns r.sync)
    (sync_with_result : MethodReturns r.sync_with_result) (finalize : MethodReturns r.finalize)
    (finalize_with_result : MethodReturns r.finalize_with_result) where
  run_sync-Returns : (ctx : Context Config) (s : S) → Returns (run_sync r ctx s)
  unfolding run_sync validate
  run_sync-Returns ctx s = elim (Option-cases r.sync) [
    | inr (f, e) ↦
        rw (e, run_sync)
          (continue-Returns (f ctx s) (λ err. pure (empty_result, err))
            (subst MethodReturns e sync ctx s) (λ a t. tt))
    | inl e ↦ elim (Option-cases r.sync_with_result) [
      | inl e' ↦ absurd (cc (rw (e, e') at valid))
      | inr (f, e') ↦ rw (e, run_sync) (rw e' (subst MethodReturns e' sync_with_result ctx s))
    ]
  ]

  run_finalize-Returns : (ctx : Context Config) (s : S) → Returns (run_finalize r ctx s)
  unfolding run_finalize
  run_finalize-Returns ctx s = elim (Option-cases r.finalize) [
    | inr (f, e) ↦
        rw (e, run_finalize)
          (continue-Returns (f ctx s) (λ err. pure (empty_result, err))
            (subst MethodReturns e finalize ctx s) (λ a t. tt))
    | inl e ↦ elim (Option-cases r.finalize_with_result) [
      | inl e' ↦ rw (e, run_finalize) (rw e' tt)
      | inr (f, e') ↦
          rw (e, run_finalize) (rw e' (subst MethodReturns e' finalize_with_result ctx s))
    ]
  ]

  finalize_phase-Returns :
      (ctx : Context Config) (result : Result) (s : S)
      → Returns (finalize_phase is_deleting r ctx result s)
  finalize_phase-Returns ctx result s = elim (Bool-cases (is_deleting s)) [
    | inl d ↦ rw d (
        continue-Returns (run_finalize r ctx s)
          (λ reply. add_reply result reply (λ result'. pure (result', none)))
          (run_finalize-Returns ctx s)
          (add_reply-Returns result (λ result'. pure (result', none)) (λ a t. tt)))
    | inr d ↦ rw d tt
  ]

  -- A validated reconciler never calls a method that is not there: if the methods that are there
  -- return, whatever they do to the state, so does a reconcile.
  pub reconcile-Returns : (ctx : Context Config) (s : S) → Returns (reconcile is_deleting r ctx s)
  unfolding reconcile
  reconcile-Returns ctx s = elim (Bool-cases (not (is_deleting s) || r.sync_during_finalization)) [
    | inl d ↦
        rw (d, reconcile)
          (continue-Returns (run_sync r ctx s)
            (λ reply. add_reply empty_result reply (finalize_phase is_deleting r ctx))
            (run_sync-Returns ctx s)
            (add_reply-Returns empty_result (finalize_phase is_deleting r ctx)
              (finalize_phase-Returns ctx)))
    | inr d ↦ rw (d, reconcile) (finalize_phase-Returns ctx empty_result s)
  ]
