-- ===== src/ChildReconciler.antt =====
-- `ChildReconciler` (reconcilers/child.go): one child of the reconciled resource. It finds the actual
-- child, asks for the desired one, has a resource manager bring the first to the second, and reflects
-- the outcome on the resource. The children that the context holds under the key of the known
-- children (reconcilers/childset.go) are an argument. Logging, and with it `Sanitize`, is left out.
pub mod Methods
pub mod Deleting
pub mod Kept
pub mod Tracking
mod Tests
use reconciler_runtime.Base.{
  String, Bool, true, false, not, ◌&&◌, Option, none, some, List, [], ◌∷◌, ◌==◌, if◌then◌else◌,
  is_none, is_some,
}
use reconciler_runtime.Errors.{
  Error, errorf, api_status, is_error, err_quiet, only_reconcile_child_status, has_reason,
  already_exists, invalid,
}
use reconciler_runtime.Results.{Result, empty_result}
use reconciler_runtime.Context.{Context, retrieve_original_config_or_die, retrieve_config_or_die}
use reconciler_runtime.Exec.{Outcome, returned, M, pure, panic, call, continue, ◌>>=◌}
use reconciler_runtime.Flow
use reconciler_runtime.Flow.{Setup, SubReconciler, name_or, run_setup, then_if_ok}
use reconciler_runtime.Flow.Finalizer.{
  Resource, State, Event, is_deleting, record_event, record_failure,
}
use reconciler_runtime.Manager
use reconciler_runtime.Manager.{ResourceManager, Managed, manage}

pub data Listed (T : Type 0) : Type 0 where
  items : List T → Listed T
  list_failed : Error → Listed T

-- What is called beside the resource manager's own calls. `new_child` is an empty child, and `get`
-- reads the live object of a namespace and a name, which stays empty when the read fails.
pub record External (T Bytes L Config B W : Type 0) : Type 0 where
  pub managing : Manager.External T Bytes Config B W
  pub new_child : T
  pub child_type : String
  pub list : Config → L → W → Listed T
  pub get : Config → String → String → W → T
  pub namespace : Resource B → String
  pub in_namespace : String → L
  pub is_controlled_by : T → Resource B → Bool
  pub has_controller : T → Bool
  pub set_controller_reference : Resource B → T → Option Error × T

pub record ChildReconciler (T L Config B S : Type 0) : Type 0 where
  pub name : String
  pub finalizer : String
  pub skip_owner_reference : Bool
  pub setup : Option (Setup Config S)
  pub desired_child : Option (Context Config → M S (Managed T))
  pub reflect_child_status_on_parent :
      Option (Context Config → Option T → Option Error → M S (Unit {0}))
  pub harmonize_immutable_fields : Option (T → T → T × T)
  pub merge_before_update : Option (T → T → T)
  pub list_options : Option (Context Config → Resource B → L)
  pub our_child : Option (Resource B → T → Bool)
  pub stamp : Option (ResourceManager T)

abbrev pub or_stamp :
    {T : Type 0} → ResourceManager T → Option (ResourceManager T) → ResourceManager T
or_stamp new none = new
or_stamp new (some stamp) = stamp

abbrev pub already_managed : Error
already_managed = errorf "cannot call SetResourceManager after a resource manager is defined" []

module _ {T L Config B S : Type 0} where
  -- The resource manager that `init` makes where there is none.
  abbrev pub new_stamp : String → ChildReconciler T L Config B S → ResourceManager T
  new_stamp name r = record {
    name = name;
    finalizer = r.finalizer;
    track_desired = r.skip_owner_reference;
    harmonize_immutable_fields = r.harmonize_immutable_fields;
    merge_before_update = r.merge_before_update;
  }

  unfoldable pub init : String → ChildReconciler T L Config B S → ChildReconciler T L Config B S
  init default_name r =
      let name = name_or r.name default_name in
      record r { name = name; stamp = some (or_stamp (new_stamp name r) r.stamp) }

  -- `validate` sets what a finalizer implies,
  abbrev pub with_implicit : ChildReconciler T L Config B S → ChildReconciler T L Config B S
  with_implicit r = record r {
    skip_owner_reference = if not (r.finalizer == "") then true else r.skip_owner_reference;
  }

  -- and then asks for what is missing.
  unfoldable pub missing : ChildReconciler T L Config B S → Option Error
  missing r =
      if is_none r.desired_child
      then some (errorf "ChildReconciler %q must implement DesiredChild" (r.name ∷ []))
      else if is_none r.reflect_child_status_on_parent
      then some
          (errorf "ChildReconciler %q must implement ReflectChildStatusOnParent" (r.name ∷ []))
      else if is_none r.our_child && r.skip_owner_reference
      then some (
          errorf "ChildReconciler %q must implement OurChild since owner references are not used"
            (r.name ∷ []))
      else if is_none r.list_options && r.skip_owner_reference
      then some (
          errorf "ChildReconciler %q must implement ListOptions since owner references are not used"
            (r.name ∷ []))
      else if is_none r.merge_before_update
      then some (errorf "ChildReconciler %q must implement MergeBeforeUpdate" (r.name ∷ []))
      else none

  unfoldable pub validate :
      ChildReconciler T L Config B S → ChildReconciler T L Config B S × Option Error
  unfolding missing
  validate r = let r' = with_implicit r in (r', missing r')

  -- The end of the setup: the children are watched, or owned.
  abbrev pub build :
      (watches owns : S → S)
      → Context Config
      → ChildReconciler T L Config B S × Option Error
      → M S (ChildReconciler T L Config B S × Option Error)
  build watches owns ctx (r, some e) s = (returned (r, some e), s)
  build watches owns ctx (r, none) s =
      (run_setup r.setup ctx >>= λ e. pure (r, e))
        (if r.skip_owner_reference then watches s else owns s)

  -- `SetupWithManager` on a builder that watches the children, or owns them. The reconciler comes back
  -- as it has been written.
  unfoldable pub setup_with_manager :
      String
      → (watches owns : S → S) → ChildReconciler T L Config B S
      → Context Config
      → M S (ChildReconciler T L Config B S × Option Error)
  unfolding init validate
  setup_with_manager default_name watches owns r0 ctx = retrieve_config_or_die ctx >>= λ config.
      build watches owns ctx (validate (init default_name r0))

  unfoldable pub set_resource_manager :
      ResourceManager T → ChildReconciler T L Config B S → M S (ChildReconciler T L Config B S)
  set_resource_manager rm r = elim r.stamp [
    | some _ ↦ panic already_managed
    | none ↦ pure (record r { stamp = some rm })
  ]
