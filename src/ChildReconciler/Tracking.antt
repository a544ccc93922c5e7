-- ===== src/ChildReconciler/Tracking.antt =====
-- Where a child reconciler does not do what it is meant to (reconcilers/child.go).
use reconciler_runtime.Base.{String, true, false, ◌==◌, Option, none, some, List, ◌≡◌, refl}
use reconciler_runtime.Errors.{wrapped, api_status, already_exists, has_reason}
use reconciler_runtime.Context.{Context, retrieve_config_some}
use reconciler_runtime.Exec.{returned, panicked}
use reconciler_runtime.Flow.Finalizer.{State, is_deleting}
use reconciler_runtime.Flow.{name_or, run_setup}
use reconciler_runtime.Manager.{ResourceManager}
use reconciler_runtime.ChildReconciler.{
  External, ChildReconciler, init, validate, missing, with_implicit, new_stamp, setup_with_manager,
}
use reconciler_runtime.ChildReconciler.Methods.{
  Reconciler, reconcile_child, reconcile, not_api_status,
}

validate_complete :
    {T L Config B S : Type 0} (r : ChildReconciler T L Config B S)
    → missing (with_implicit r) ≡ none
    → validate r ≡ (with_implicit r, none)
unfolding validate
validate_complete r h = λ i. (with_implicit r, h i)

-- A reconciler with a finalizer, that does not ask to skip owner references itself, has nothing
-- missing and has been given no resource manager, and whose Setup, if it has one, succeeds, watches
-- its children when it is set up, as those without owner references are; but the resource manager
-- that it is set up with does not track what it creates, so that nothing leads from a change of a
-- child back to the resource.
pub setup_without_tracking :
    {T L Config B S : Type 0} (default_name : String) (watches owns : S → S)
    (r : ChildReconciler T L Config B S) (ctx : Context Config) (config : Config) (s t : S)
    → ctx.config ≡ some config
    → (r.finalizer == "") ≡ false
    → r.skip_owner_reference ≡ false
    → r.stamp ≡ none
    → run_setup r.setup ctx (watches s) ≡ (returned none, t)
    → missing (with_implicit (init default_name r)) ≡ none
    → (r' : ChildReconciler T L Config B S) × (stamp : ResourceManager T) × (setup_with_manager
          default_name watches owns r ctx s
        ≡ (returned (r', none), t))
      × (r'.skip_owner_reference ≡ true)
      × (r'.stamp ≡ some stamp)
      × (stamp.finalizer ≡ r.finalizer)
      × (stamp.track_desired ≡ false)
unfolding setup_with_manager init
setup_without_tracking default_name watches owns r ctx config s t has_config finalized unskipped
      unstamped sets_up complete =
    let name = name_or r.name default_name in
    let skips : (with_implicit (init default_name r)).skip_owner_reference ≡ true =
      rw (finalized, init) refl in
    (
      with_implicit (init default_name r),
      new_stamp name r,
      rw (retrieve_config_some ctx config s has_config, setup_with_manager)
          (rw (validate_complete (init default_name r) complete) (rw skips (rw sets_up refl))),
      skips,
      rw (unstamped, init) refl,
      refl,
      unskipped,
    )

module _ {T Bytes L Config B W : Type 0} (ext : External T Bytes L Config B W) where
  -- An "already exists" error that is wrapped, as one that `DesiredChild` has wrapped, makes the
  -- reconcile of a resource that is not being deleted panic: the test looks through the wrapping, the
  -- conversion that follows it does not.
  pub reconcile_wrapped_conflict :
      (default_name : String) (r : Reconciler ext) (known : Option (List T)) (ctx : Context Config)
      (config : Config) (child : Option T) (text : String) (details : Option String)
      (s t : State B W)
      → ctx.config ≡ some config
      → reconcile_child ext (init default_name r) known ctx s
        ≡ (returned (child, some (wrapped text (api_status already_exists details))), t)
      → is_deleting t ≡ false
      → reconcile ext default_name r known ctx s ≡ (panicked not_api_status, t)
  unfolding reconcile has_reason
  reconcile_wrapped_conflict default_name r known ctx config child text name s t q run d =
      rw (retrieve_config_some ctx config s q, reconcile) (rw run (rw d refl))
