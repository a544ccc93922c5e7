-- ===== src/ChildSetReconciler.antt =====
-- `ChildSetReconciler` (reconcilers/childset.go): a set of children of the reconciled resource. For
-- each identifier of a desired or a known child it makes a child reconciler, and runs them in the
-- order of the identifiers; what they reflect is collected in the stash, and handed over at the end.
-- The known children, that the code puts in the context, are an argument. Logs are left out.
pub mod Methods
pub mod Identified
pub mod Composed
pub mod Collected
pub mod Reflected
pub mod Finalized
mod Tests
use reconciler_runtime.Base.{
  String, Bool, true, false, not, ◌&&◌, ◌||◌, Option, none, some, List, [], ◌∷◌, ◌++◌, ◌==◌,
  if◌then◌else◌, is_none, map,
}
use reconciler_runtime.Errors.{Error, errorf}
use reconciler_runtime.Context.{Context, retrieve_config_or_die}
use reconciler_runtime.Exec.{returned, M, pure, call, continue, ◌>>=◌}
use reconciler_runtime.Flow.{Setup, name_or, run_setup, then_if_ok}
use reconciler_runtime.Flow.Finalizer
use reconciler_runtime.Flow.Finalizer.{Resource, State}
use reconciler_runtime.Manager.{ResourceManager}
use reconciler_runtime.ChildReconciler
use reconciler_runtime.ChildReconciler.{ChildReconciler}
use reconciler_runtime.Stash.{Stashed, stash_value, retrieve_value, clear_value}

-- `ChildSetPartialResult`
pub record PartialResult (T : Type 0) : Type 0 where
  pub id : String
  pub child : Option T
  pub err : Option Error

-- `ChildSetResult`
abbrev pub SetResult : Type 0 → Type 0
SetResult T = List (PartialResult T)

-- What `init` makes on its first call.
pub record Lazy (T L Config B S : Type 0) : Type 0 where
  pub stamp : ResourceManager T
  pub void_reconciler : ChildReconciler T L Config B S

pub record ChildSetReconciler (T L Config B S : Type 0) : Type 0 where
  pub name : String
  pub finalizer : String
  pub skip_owner_reference : Bool
  pub setup : Option (Setup Config S)
  pub desired_children : Option (Context Config → List T → M S (List T × Option Error))
  pub reflect_children_status_on_parent :
      Option (Context Config → List T → SetResult T → M S (Unit {0}))
  pub harmonize_immutable_fields : Option (T → T → T × T)
  pub merge_before_update : Option (T → T → T)
  pub list_options : Option (Context Config → Resource B → L)
  pub our_child : Option (Resource B → T → Bool)
  pub identify_child : Option (T → String)
  pub lazy_init : Option (Lazy T L Config B S)

-- The error of the first child that has one, and so on: `NewAggregate` takes them all.
abbrev pub aggregate_error :
    {T : Type 0} → (new_aggregate : List (Option Error) → Option Error) → SetResult T → Option Error
aggregate_error new_aggregate r = new_aggregate (map (λ p. p.err) r)

abbrev pub result_key : String
result_key = "reconciler-runtime:childSetResult"

-- The types of results in a stash: how a result is put in, and whether a value is one.
pub record Boxed (T V : Type 0) : Type 0 where
  pub box : SetResult T → V
  pub unbox : V → Option (SetResult T)

-- What is called or set beside: what the child reconcilers call, the helpers of the finalizer, the
-- order in which `sets.String.List` puts the members of a set, the builder that watches the children
-- or owns them, and the name that a child reconciler takes when it has none.
pub record External (T Bytes V L Config B W : Type 0) : Type 0 where
  pub child : ChildReconciler.External T Bytes L Config B (Stashed V W)
  pub finalizing : Finalizer.External Config B (Stashed V W)
  pub boxed : Boxed T V
  pub sort : List String → List String
  pub watches : State B (Stashed V W) → State B (Stashed V W)
  pub owns : State B (Stashed V W) → State B (Stashed V W)
  pub child_name : String

-- The stash is part of what the reconcilers reach.
abbrev pub in_world : {B W A : Type 0} → M W A → M (State B W) A
in_world m s = let (out, w) = m s.world in (out, record s { world = w })

module _ {T V : Type 0} (boxed : Boxed T V) where
  abbrev pub or_empty : Option V → SetResult T
  or_empty none = []
  or_empty (some v) = elim (boxed.unbox v) [ none ↦ [] | some r ↦ r ]

  module _ {B W : Type 0} where
    unfoldable pub retrieve_child_set_result : M (State B (Stashed V W)) (SetResult T)
    unfolding retrieve_value
    retrieve_child_set_result = in_world (retrieve_value result_key) >>= λ v. pure (or_empty v)

    unfoldable pub stash_child_set_result : SetResult T → M (State B (Stashed V W)) (Unit {0})
    unfolding stash_value
    stash_child_set_result r = in_world (stash_value result_key (boxed.box r))

    unfoldable pub clear_child_set_result : M (State B (Stashed V W)) (SetResult T)
    unfolding clear_value
    clear_child_set_result = in_world (clear_value result_key) >>= λ v. pure (or_empty v)

    -- What the child reconciler of an identifier does with the status of its child.
    unfoldable pub collect : String → Option T → Option Error → M (State B (Stashed V W)) (Unit {0})
    unfolding retrieve_child_set_result stash_child_set_result
    collect id child err = retrieve_child_set_result >>= λ result.
        stash_child_set_result (result ++ record { id = id; child = child; err = err } ∷ [])

module _ {T L Config B S : Type 0} where
  -- `OurChild` of the child reconciler of an identifier, or of the void one. A nil `IdentifyChild`
  -- is turned away by `validate`.
  abbrev pub matches :
      ChildSetReconciler T L Config B S → (id : String) → (void : Bool) → Resource B → T → Bool
  matches r id void resource child =
      if elim r.our_child [ none ↦ false | some f ↦ not (f resource child) ]
      then false
      else void || elim r.identify_child [ none ↦ false | some f ↦ id == f child ]

  abbrev pub new_stamp : ChildSetReconciler T L Config B S → ResourceManager T
  new_stamp r = record {
    name = r.name;
    finalizer = "";
    track_desired = r.skip_owner_reference;
    harmonize_immutable_fields = r.harmonize_immutable_fields;
    merge_before_update = r.merge_before_update;
  }

  abbrev pub with_implicit : ChildSetReconciler T L Config B S → ChildSetReconciler T L Config B S
  with_implicit r = record r {
    skip_owner_reference = if not (r.finalizer == "") then true else r.skip_owner_reference;
  }

  unfoldable pub missing : ChildSetReconciler T L Config B S → Option Error
  missing r =
      let named : String → Option Error = λ format. some (errorf format (r.name ∷ [])) in
      if is_none r.desired_children
      then named "ChildSetReconciler %q must implement DesiredChildren"
      else if is_none r.reflect_children_status_on_parent
      then named "ChildSetReconciler %q must implement ReflectChildrenStatusOnParent"
      else if is_none r.our_child && r.skip_owner_reference
      then named "ChildSetReconciler %q must implement OurChild since owner references are not used"
      else if is_none r.list_options && r.skip_owner_reference
      then named
          "ChildSetReconciler %q must implement ListOptions since owner references are not used"
      else if is_none r.identify_child
      then named "ChildSetReconciler %q must implement IdentifyChild"
      else none

  unfoldable pub validate :
      ChildSetReconciler T L Config B S → ChildSetReconciler T L Config B S × Option Error
  unfolding missing
  validate r = let r' = with_implicit r in (r', missing r')

-- A reconciler that has the stash within reach.
abbrev pub Set : (T V L Config B W : Type 0) → Type 0
Set T V L Config B W = ChildSetReconciler T L Config B (State B (Stashed V W))

module _ {T V L Config B W : Type 0} (boxed : Boxed T V) where
  unfoldable pub child_reconciler_for :
      Set T V L Config B W
      → (desired : Option T) → Option Error
      → (id : String) → (void : Bool) → ChildReconciler T L Config B (State B (Stashed V W))
  unfolding collect
  child_reconciler_for r desired desired_err id void = record {
    name = id;
    finalizer = "";
    skip_owner_reference = r.skip_owner_reference;
    setup = none;
    desired_child = some (λ ctx. λ s. (returned (desired, desired_err), s));
    reflect_child_status_on_parent = some (λ ctx child err. collect boxed id child err);
    harmonize_immutable_fields = r.harmonize_immutable_fields;
    merge_before_update = r.merge_before_update;
    list_options = r.list_options;
    our_child = some (matches r id void);
    stamp = none;
  }

  abbrev pub first_init : String → Set T V L Config B W → Set T V L Config B W
  first_init default_name r0 =
      let r = record r0 { name = name_or r0.name default_name } in
      record r {
        lazy_init = some (record {
          stamp = new_stamp r;
          void_reconciler = child_reconciler_for r none none "" true;
        });
      }

  unfoldable pub init : String → Set T V L Config B W → Set T V L Config B W
  unfolding child_reconciler_for
  init default_name r = elim r.lazy_init [ none ↦ first_init default_name r | some _ ↦ r ]

  -- The void reconciler is set up in place of those that are made later.
  abbrev pub setup_void :
      String
      → (watches owns : State B (Stashed V W) → State B (Stashed V W)) → Context Config
      → Set T V L Config B W
      → Option (Lazy T L Config B (State B (Stashed V W)))
      → M (State B (Stashed V W)) (Set T V L Config B W × Option Error)
  setup_void void_name watches owns ctx r lazy = call lazy (λ made.
      ChildReconciler.setup_with_manager void_name watches owns made.void_reconciler ctx >>= λ done.
      λ s.
        let r' = record r { lazy_init = some (record made { void_reconciler = done.0 }) } in
        (then_if_ok done.1 (run_setup r.setup ctx) >>= λ err. pure (r', err)) s)

  abbrev pub setup_validated :
      String
      → (watches owns : State B (Stashed V W) → State B (Stashed V W)) → Context Config
      → Set T V L Config B W × Option Error
      → M (State B (Stashed V W)) (Set T V L Config B W × Option Error)
  setup_validated void_name watches owns ctx (r, some e) s = (returned (r, some e), s)
  setup_validated void_name watches owns ctx (r, none) s =
      setup_void void_name watches owns ctx r r.lazy_init s

  -- `SetupWithManager`; the reconciler comes back as it has been written. The builder is told to
  -- watch the children, or that the resource owns them.
  unfoldable pub setup_with_manager :
      (default_name void_name : String)
      → (watches owns : State B (Stashed V W) → State B (Stashed V W)) → Set T V L Config B W
      → Context Config
      → M (State B (Stashed V W)) (Set T V L Config B W × Option Error)
  unfolding init validate ChildReconciler.setup_with_manager
  setup_with_manager default_name void_name watches owns r0 ctx =
      retrieve_config_or_die ctx >>= λ config.
      setup_validated void_name watches owns ctx (validate (init default_name r0))
