-- ===== src/Flow/OverrideSetup.antt =====
-- `OverrideSetup` (reconcilers/flow.go).
use reconciler_runtime.Base.{
  Option, none, some, String, ◌&&◌, [], ◌∷◌, if◌then◌else◌, is_none, ◌≡◌, refl,
}
use reconciler_runtime.Errors.{Error, errorf}
use reconciler_runtime.Results.{empty_result}
use reconciler_runtime.Context.{Context}
use reconciler_runtime.Exec.{M, pure}
use reconciler_runtime.Flow.{Reply, Setup, SubReconciler, name_or, run_setup, then_if_ok}

pub record OverrideSetup (Config S : Type 0) : Type 0 where
  pub name : String
  pub setup : Option (Setup Config S)
  pub reconciler : Option (SubReconciler Config S)

module _ {Config S : Type 0} where
  abbrev pub init : OverrideSetup Config S → OverrideSetup Config S
  init r = record r { name = name_or r.name "SkipSetup" }

  unfoldable pub validate : OverrideSetup Config S → Option Error
  validate r =
      if is_none r.setup && is_none r.reconciler
      then some (
          errorf "OverrideSetup %q must implement at least one of Setup or Reconciler"
            (r.name ∷ []))
      else none

  unfoldable pub setup_with_manager : OverrideSetup Config S → Context Config → M S (Option Error)
  unfolding validate
  setup_with_manager r0 ctx = let r = init r0 in then_if_ok (validate r) (run_setup r.setup ctx)

  unfoldable pub reconcile : OverrideSetup Config S → Context Config → M S Reply
  reconcile r0 ctx = elim r0.reconciler [
    | none ↦ pure (empty_result, none)
    | some nested ↦ nested.reconcile ctx
  ]

  -- The setup of the nested reconciler is never called: the setup is the same for any other.
  pub setup_ignores_nested :
      (r : OverrideSetup Config S) (ctx : Context Config) (nested other : SubReconciler Config S)
      → setup_with_manager (record r { reconciler = some nested }) ctx
        ≡ setup_with_manager (record r { reconciler = some other }) ctx
  unfolding setup_with_manager
  setup_ignores_nested r ctx nested other = refl
