-- ===== src/Flow/Sync.antt =====
-- `SyncReconciler` (reconcilers/sync.go). What is logged is left out; `is_deleting` tells whether the
-- resource has a deletion timestamp in a state, and is asked again after `Sync` has run.
pub mod Phases
pub mod Validated
use reconciler_runtime.Base.{
  Option, none, some, String, Bool, true, false, not, ◌&&◌, ◌||◌, [], ◌∷◌, if◌then◌else◌, is_none,
  is_some, Option-cases, Bool-cases, inl, inr, ◌≡◌, refl, arith,
}
use reconciler_runtime.Errors.{Error, errorf}
use reconciler_runtime.Results.{Result, empty_result, aggregate_two}
use reconciler_runtime.Context.{Context}
use reconciler_runtime.Exec.{
  Outcome, returned, panicked, M, pure, gets, call, continue, nil_dereference, ◌>>=◌,
}
use reconciler_runtime.Flow.{Reply, Setup, SubReconciler, name_or, run_setup}

pub record SyncReconciler (Config S : Type 0) : Type 0 where
  pub name : String
  pub setup : Option (Setup Config S)
  pub sync_during_finalization : Bool
  pub sync : Option (Context Config → M S (Option Error))
  pub sync_with_result : Option (Context Config → M S Reply)
  pub finalize : Option (Context Config → M S (Option Error))
  pub finalize_with_result : Option (Context Config → M S Reply)

-- What a method returns is added to the result; its error ends the reconcile.
abbrev pub add_reply : {S : Type 0} → Result → Reply → (Result → M S Reply) → M S Reply
add_reply result (r, some e) rest = pure (aggregate_two result r, some e)
add_reply result (r, none) rest = rest (aggregate_two result r)

module _ {Config S : Type 0} where
  abbrev pub init : SyncReconciler Config S → SyncReconciler Config S
  init r = record r { name = name_or r.name "SyncReconciler" }

  unfoldable pub validate : SyncReconciler Config S → Option Error
  validate r =
      if is_none r.sync && is_none r.sync_with_result
      then some (errorf "SyncReconciler %q must implement Sync or SyncWithResult" (r.name ∷ []))
      else if is_some r.sync && is_some r.sync_with_result
      then some
          (errorf "SyncReconciler %q may not implement both Sync and SyncWithResult" (r.name ∷ []))
      else if is_some r.finalize && is_some r.finalize_with_result
      then some (
          errorf "SyncReconciler %q may not implement both Finalize and FinalizeWithResult"
            (r.name ∷ []))
      else none

  -- Without a `Setup` nothing is validated.
  unfoldable pub setup_with_manager : SyncReconciler Config S → Context Config → M S (Option Error)
  unfolding validate
  setup_with_manager r0 ctx =
      let r = init r0 in
      elim r.setup [
        | none ↦ pure none
        | some setup ↦ elim (validate r) [ some e ↦ pure (some e) | none ↦ setup ctx ]
      ]

  unfoldable pub run_sync : SyncReconciler Config S → Context Config → M S Reply
  run_sync r ctx = elim r.sync [
    | some sync ↦ sync ctx >>= λ err. pure (empty_result, err)
    | none ↦ call r.sync_with_result (λ sync. sync ctx)
  ]

  unfoldable pub run_finalize : SyncReconciler Config S → Context Config → M S Reply
  run_finalize r ctx = elim r.finalize [
    | some finalize ↦ finalize ctx >>= λ err. pure (empty_result, err)
    | none ↦ elim r.finalize_with_result [
      | some finalize ↦ finalize ctx
      | none ↦ pure (empty_result, none)
    ]
  ]

  module _ (is_deleting : S → Bool) where
    abbrev pub sync_phase :
        SyncReconciler Config S → Context Config → (Result → M S Reply) → M S Reply
    sync_phase r ctx rest s =
        if not (is_deleting s) || r.sync_during_finalization
        then (run_sync r ctx >>= λ reply. add_reply empty_result reply rest) s
        else rest empty_result s

    abbrev pub finalize_phase : SyncReconciler Config S → Context Config → Result → M S Reply
    finalize_phase r ctx result s =
        if is_deleting s
        then (run_finalize r ctx >>= λ reply.
              add_reply result reply (λ result'. pure (result', none)))
            s
        else (returned (result, none), s)

    unfoldable pub reconcile : SyncReconciler Config S → Context Config → M S Reply
    unfolding run_sync run_finalize
    reconcile r ctx = sync_phase r ctx (finalize_phase r ctx)
