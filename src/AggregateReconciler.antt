-- ===== src/AggregateReconciler.antt =====
-- `AggregateReconciler` (reconcilers/aggregate.go): one named resource, which the reconciler creates,
-- reconciles and brings to what is desired of it. It acts on the same parts as the resource
-- reconciler (`Outside`). Logs are left out.
pub mod Validated
pub mod Unchanged
mod Tests
use reconciler_runtime.Base.{
  ℕ, String, Bool, true, false, not, ◌&&◌, ◌||◌, Option, none, some, List, [], ◌∷◌, ◌==◌,
  if◌then◌else◌, is_none,
}
use reconciler_runtime.Errors.{
  Error, errorf, is_error, err_halt_sub_reconcilers, has_reason, not_found,
}
use reconciler_runtime.Results.{empty_result}
use reconciler_runtime.Context.{
  Request, Context, stash_now, stash_request, stash_config, stash_original_config,
}
use reconciler_runtime.Exec.{Outcome, returned, M, pure, call, continue, ◌>>=◌}
use reconciler_runtime.Flow.{Reply, Setup, SubReconciler, name_or, run_setup, then_if_ok}
use reconciler_runtime.Flow.Sequence
use reconciler_runtime.Flow.Finalizer.{Resource, State, is_deleting}
use reconciler_runtime.Manager
use reconciler_runtime.Manager.{ResourceManager, Managed, manage}
use reconciler_runtime.ResourceReconciler.{Outside, Builder, watch}
use reconciler_runtime.Stash.{Stashed, with_stash}

-- What a read leaves: its error, and the object that it was given.
pub record Read (R : Type 0) : Type 0 where
  pub error : Option Error
  pub object : R

-- What is called: the manager's calls, the client's read into an empty resource, the setter of the
-- resource's namespace and name, and the config whose tracker is new and tracks nothing.
pub record External (Bytes Config B V W : Type 0) : Type 0 where
  pub managing : Manager.External (Resource B) Bytes Config B (Stashed V W)
  pub get : Config → Request → W → Read (Resource B)
  pub named : Request → Resource B → Resource B
  pub untracked : Config → Config

pub record AggregateReconciler (B Config S : Type 0) : Type 0 where
  pub name : String
  pub setup : Option (Setup Config S)
  pub request : Request
  pub reconciler : Option (SubReconciler Config S)
  pub desired_resource : Option (Context Config → Resource B → M S (Managed (Resource B)))
  pub harmonize_immutable_fields : Option (Resource B → Resource B → Resource B × Resource B)
  pub merge_before_update : Option (Resource B → Resource B → Resource B)
  pub config : Config
  pub stamp : Option (ResourceManager (Resource B))

abbrev pub empty_sequence : {Config S : Type 0} → SubReconciler Config S
empty_sequence = record {
  setup_with_manager = Sequence.setup_with_manager [];
  reconcile = Sequence.reconcile [];
}

abbrev pub or_default : {A : Type 0} → A → Option A → A
or_default d none = d
or_default d (some a) = a

abbrev pub setup_stamp :
    {R S : Type 0} → (stamp_name : String) → Option (ResourceManager R) → M S (Option Error)
setup_stamp stamp_name stamp = call stamp (λ m. pure (Manager.setup stamp_name m))

module _ {B Config S : Type 0} where
  -- The resource as it is.
  abbrev pub as_it_is : Context Config → Resource B → M S (Managed (Resource B))
  as_it_is ctx resource s = (returned (some resource, none), s)

  abbrev pub new_stamp : String → AggregateReconciler B Config S → ResourceManager (Resource B)
  new_stamp name r = record {
    name = name;
    finalizer = "";
    track_desired = false;
    harmonize_immutable_fields = r.harmonize_immutable_fields;
    merge_before_update = r.merge_before_update;
  }

  abbrev pub first_init : String → AggregateReconciler B Config S → AggregateReconciler B Config S
  first_init default_name r =
      let name = name_or r.name default_name in
      record r {
        name = name;
        reconciler = some (or_default empty_sequence r.reconciler);
        desired_resource = some (or_default as_it_is r.desired_resource);
        stamp = some (new_stamp name r);
      }

  -- The lazy initialization, which only the first call makes.
  unfoldable pub init : String → AggregateReconciler B Config S → AggregateReconciler B Config S
  init default_name r = elim r.stamp [ none ↦ first_init default_name r | some _ ↦ r ]

  unfoldable pub validate : AggregateReconciler B Config S → Option Error
  validate r =
      if r.request.name == ""
      then some (errorf "AggregateReconciler %q must define Request" (r.name ∷ []))
      else if is_none r.reconciler && is_none r.desired_resource
      then some (
          errorf "AggregateReconciler %q must define Reconciler and/or DesiredResource"
            (r.name ∷ []))
      else none

  -- `SetupWithManagerYieldingController`; the controller is the builder's.
  unfoldable pub setup_with_manager :
      (default_name stamp_name : String)
      → Builder S
      → AggregateReconciler B Config S
      → Context Config
      → M S (Option Error)
  unfolding init validate Manager.setup
  setup_with_manager default_name stamp_name b r0 ctx0 =
      let r = init default_name r0 in
      let ctx = stash_original_config (stash_config ctx0 r.config) r.config in
      then_if_ok (validate r) (
        watch b >>= λ err. then_if_ok err (
          run_setup r.setup ctx >>= λ err. then_if_ok err (
            call r.reconciler (λ nested. nested.setup_with_manager ctx) >>= λ err.
            then_if_ok err (setup_stamp stamp_name r.stamp >>= λ err. then_if_ok err b.build))))

abbrev pub same_request : Request → Request → Bool
same_request a b = a.namespace == b.namespace && a.name == b.name

-- What the reconciler acts on.
abbrev pub Held : (B V W : Type 0) → Type 0
Held B V W = State B (Stashed V W)

-- An error that does not halt.
abbrev pub fails : Option Error → Option Error
fails none = none
fails (some e) = if is_error e err_halt_sub_reconcilers then none else some e

abbrev pub outside_of : {A B V W : Type 0} → Outcome A × Held B V W → Outcome A × Outside V W
outside_of (reply, s) = (reply, record { events = s.events; world = s.world })

module _ {Bytes Config B V W : Type 0} (ext : External Bytes Config B V W) where
  -- The resource that is there, or an empty one with the name asked for.
  abbrev pub fetched : Request → Read (Resource B) → Option Error × Resource B
  fetched req read = elim read.error [
    | none ↦ (none, read.object)
    | some e ↦
        if has_reason not_found e then (none, ext.named req read.object) else (some e, read.object)
  ]

  -- `desiredResource`
  unfoldable pub desired_resource :
      AggregateReconciler B Config (Held B V W)
      → Context Config
      → M (Held B V W) (Managed (Resource B))
  desired_resource r ctx s =
      if is_deleting s
      then (returned (none, none), s)
      else call r.desired_resource (λ f. f ctx s.resource) s

  -- The resource itself is brought to the desired one; what that leaves of it is not looked at.
  abbrev pub manage_desired :
      AggregateReconciler B Config (Held B V W)
      → Context Config
      → Reply
      → Managed (Resource B)
      → M (Held B V W) Reply
  manage_desired r ctx reply (desired, some e) s = (returned (empty_result, some e), s)
  manage_desired r ctx reply (desired, none) s =
      (call r.stamp (λ stamp. manage ext.managing stamp ctx (some s.resource) desired)
          >>= λ managed. elim managed.1 [
            | some e ↦ pure (empty_result, some e)
            | none ↦ pure (reply.0, none)
          ])
        s

  abbrev pub after_reconciler :
      AggregateReconciler B Config (Held B V W) → Context Config → Reply → M (Held B V W) Reply
  after_reconciler r ctx reply = elim (fails reply.1) [
    | some e ↦ pure (reply.0, some e)
    | none ↦
        let ctx' = stash_config ctx (ext.untracked r.config) in
        desired_resource r ctx' >>= manage_desired r ctx' reply
  ]

  -- The context of a request.
  abbrev pub request_context :
      AggregateReconciler B Config (Held B V W) → Context Config → ℕ → Request → Context Config
  request_context r ctx clock req =
      stash_original_config (stash_config (stash_request (stash_now ctx clock) req) r.config)
        r.config

  abbrev pub reconcile_resource :
      AggregateReconciler B Config (Held B V W) → Context Config → M (Held B V W) Reply
  reconcile_resource r ctx s =
      if is_deleting s
      then (returned (empty_result, none), s)
      else (call r.reconciler (λ nested. nested.reconcile ctx) >>= after_reconciler r ctx) s

  abbrev pub with_fetched :
      AggregateReconciler B Config (Held B V W)
      → Context Config
      → Option Error × Resource B
      → M (Outside V W) Reply
  with_fetched r ctx (some e, resource) o = (returned (empty_result, some e), o)
  with_fetched r ctx (none, resource) o = outside_of (
      reconcile_resource r ctx (record { resource = resource; events = o.events; world = o.world }))

  -- Other requests are ignored.
  abbrev pub reconcile_inited :
      AggregateReconciler B Config (Held B V W)
      → Context Config
      → ℕ
      → Request
      → M (Outside V W) Reply
  reconcile_inited r ctx0 clock req o =
      let o' = record o { world = with_stash o.world } in
      if not (same_request req r.request)
      then (returned (empty_result, none), o)
      else with_fetched r (request_context r ctx0 clock req)
          (fetched r.request (ext.get r.config req o.world.cluster)) o'

  -- `Reconcile`, at the time `clock`.
  unfoldable pub reconcile :
      String
      → AggregateReconciler B Config (Held B V W)
      → Context Config
      → ℕ
      → Request
      → M (Outside V W) Reply
  unfolding init desired_resource
  reconcile default_name r ctx clock req = reconcile_inited (init default_name r) ctx clock req
