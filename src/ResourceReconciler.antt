-- ===== src/ResourceReconciler.antt =====
-- `ResourceReconciler` (reconcilers/resource.go): the reconciler at the root of a tree. It fetches the
-- resource, runs the tree on it, and writes its status back where that has changed. The code finds the
-- status, its conditions and its observed generation by reflection: `Status` says what there is to
-- find. Logs, and the warnings of `validate`, are left out.
pub mod Times
pub mod Quiet
mod Tests
use reconciler_runtime.Base.{
  ℕ, String, Bool, true, false, not, ◌&&◌, Option, none, some, List, [], ◌∷◌, ◌==◌, if◌then◌else◌,
  eqb, is_none, is_some,
}
use reconciler_runtime.Base.Int.{ℤ}
use reconciler_runtime.Errors.{
  Error, errorf, is_error?, is_error, err_halt_sub_reconcilers, has_reason, not_found,
}
use reconciler_runtime.Results.{Result, empty_result}
use reconciler_runtime.Context.{
  Request, Context, stash_now, stash_request, stash_config, stash_original_config,
}
use reconciler_runtime.Exec.{Outcome, returned, M, pure, call, continue, ◌>>=◌}
use reconciler_runtime.Flow.{Reply, Setup, SubReconciler, name_or, run_setup, then_if_ok}
use reconciler_runtime.Flow.Finalizer.{
  Resource, State, Event, PatchReply, is_deleting, record_event, record_failure,
}
use reconciler_runtime.Conditions.{Condition}
use reconciler_runtime.Stash.{Stashed, with_stash}

-- The fields of a status: `none` where there is no field of that name and type.
pub record StatusFields (X : Type 0) : Type 0 where
  pub observed_generation : Option ℤ
  pub conditions : Option (List Condition)
  pub others : X

-- What `status` returns: nil, the content of an unstructured object, or a pointer to a struct.
pub data Status (X : Type 0) : Type 0 where
  no_status : Status X
  content : X → Status X
  struct : StatusFields X → Status X

-- The `InitializeConditions` method of a struct: there is none that can be called, or it takes no
-- argument, or a context.
pub data InitializeMethod (Config X : Type 0) : Type 0 where
  no_method : InitializeMethod Config X
  plain : (StatusFields X → StatusFields X) → InitializeMethod Config X
  with_context : (Context Config → StatusFields X → StatusFields X) → InitializeMethod Config X

-- What a resource holds beside its metadata.
pub record Body (X Y : Type 0) : Type 0 where
  pub status : Status X
  pub rest : Y

pub data Got (A : Type 0) : Type 0 where
  found : A → Got A
  get_failed : Error → Got A

-- The client, the scheme and the methods of the resource's type. `patch_status` gets the original
-- resource too.
pub record External (Config X Y W : Type 0) : Type 0 where
  pub get : Config → Request → W → Got (Resource (Body X Y))
  pub default : Option (Resource (Body X Y) → Resource (Body X Y))
  pub initialize : InitializeMethod Config X
  pub is_duck : Resource (Body X Y) → Bool
  pub semantic_equal : Status X → Status X → Bool
  pub update_status : Config → Resource (Body X Y) → W → PatchReply (Body X Y) W
  pub patch_status : Config → (original current : Resource (Body X Y)) → W → PatchReply (Body X Y) W

pub record ResourceReconciler (Config S : Type 0) : Type 0 where
  pub name : String
  pub setup : Option (Setup Config S)
  pub skip_status_update : Bool
  pub reconciler : Option (SubReconciler Config S)
  pub config : Config

-- All but the resource: the events recorded so far, the stash and the cluster.
pub record Outside (V W : Type 0) : Type 0 where
  pub events : List Event
  pub world : Stashed V W

abbrev pub init :
    {Config S : Type 0} → String → ResourceReconciler Config S → ResourceReconciler Config S
init default_name r = record r { name = name_or r.name default_name }

unfoldable pub validate : {Config S : Type 0} → ResourceReconciler Config S → Option Error
validate r =
    if is_none r.reconciler
    then some (errorf "ResourceReconciler %q must define Reconciler" (r.name ∷ []))
    else none

-- The builder of the controller: `For` on the type, or on an unstructured object of the duck type's
-- kind where that is known, and `Build`.
pub record Builder (S : Type 0) : Type 0 where
  pub is_duck_type : Bool
  pub kind_error : Option Error
  pub watch_type : S → S
  pub watch_unstructured : S → S
  pub build : M S (Option Error)

abbrev pub watch : {S : Type 0} → Builder S → M S (Option Error)
watch b s = if not b.is_duck_type then (returned none, b.watch_type s) else elim b.kind_error [
  | some e ↦ (returned (some e), s)
  | none ↦ (returned none, b.watch_unstructured s)
]

unfoldable pub setup_with_manager :
    {Config S : Type 0}
    → String
    → Builder S
    → ResourceReconciler Config S
    → Context Config
    → M S (Option Error)
unfolding validate
setup_with_manager default_name b r0 ctx0 =
    let r = init default_name r0 in
    let ctx = stash_original_config (stash_config ctx0 r.config) r.config in
    then_if_ok (validate r) (
      watch b >>= λ err. then_if_ok err (
        run_setup r.setup ctx >>= λ err. then_if_ok err (
          call r.reconciler (λ nested. nested.setup_with_manager ctx) >>= λ err.
          then_if_ok err b.build)))

module _ {X : Type 0} where
  abbrev pub conditions : Status X → List Condition
  conditions no_status = []
  conditions (content x) = []
  conditions (struct f) = elim f.conditions [ none ↦ [] | some cs ↦ cs ]

  -- The conditions are written where they are read.
  abbrev pub with_conditions : List Condition → Status X → Status X
  with_conditions cs no_status = no_status
  with_conditions cs (content x) = content x
  with_conditions cs (struct f) = elim f.conditions [
    | none ↦ struct f
    | some _ ↦ struct (record f { conditions = some cs })
  ]

  abbrev pub with_generation : ℤ → Status X → Status X
  with_generation g no_status = no_status
  with_generation g (content x) = content x
  with_generation g (struct f) = elim f.observed_generation [
    | none ↦ struct f
    | some _ ↦ struct (record f { observed_generation = some g })
  ]

  abbrev pub initialized :
      {Config : Type 0} → InitializeMethod Config X → Context Config → Status X → Status X
  initialized (plain f) ctx (struct fields) = struct (f fields)
  initialized (with_context f) ctx (struct fields) = struct (f ctx fields)
  initialized _ ctx s = s

module _ {X Y : Type 0} where
  abbrev pub status : Resource (Body X Y) → Status X
  status r = r.body.status

  abbrev pub with_status : (Status X → Status X) → Resource (Body X Y) → Resource (Body X Y)
  with_status f r = record r { body = record r.body { status = f r.body.status } }

  -- `copyGeneration`
  unfoldable pub copy_generation : Resource (Body X Y) → Resource (Body X Y)
  copy_generation r = with_status (with_generation r.generation) r

-- A condition's other fields: is it otherwise equivalent?
abbrev pub same_otherwise : Condition → Condition → Bool
same_otherwise o p =
    o.status == p.status
    && o.reason == p.reason
    && o.message == p.message
    && eqb o.observed_generation p.observed_generation

abbrev pub restored : Condition → Condition → Condition
restored o p =
    if same_otherwise o p then record p { last_transition_time = o.last_transition_time } else p

-- The inner loop: the first proposed condition of the original's type.
unfoldable pub sync_condition : Condition → List Condition → List Condition
sync_condition o [] = []
sync_condition o (p ∷ proposed) =
    let rest = sync_condition o proposed in
    if o.type == p.type then restored o p ∷ proposed else p ∷ rest

unfoldable pub sync_last_transition_time : List Condition → List Condition → List Condition
unfolding sync_condition
sync_last_transition_time proposed [] = proposed
sync_last_transition_time proposed (o ∷ original) =
    sync_last_transition_time (sync_condition o proposed) original

abbrev pub no_finalizers : List String → Bool
no_finalizers [] = true
no_finalizers (_ ∷ _) = false

-- What the tree acts on.
abbrev pub St : (V W X Y : Type 0) → Type 0
St V W X Y = State (Body X Y) (Stashed V W)

abbrev pub reason : Bool → String → String → String
reason duck patched updated = if duck then patched else updated

module _ {X Y : Type 0} where
  abbrev pub synced : Resource (Body X Y) → Resource (Body X Y) → Resource (Body X Y)
  synced original r =
      with_status
        (with_conditions
          (sync_last_transition_time (conditions (status r)) (conditions (status original))))
        r

module _ {V W X Y : Type 0} where
  -- After the tree has run: an error is returned with no result, unless it halts the tree.
  abbrev pub after_tree : Reply → M (St V W X Y) Reply
  after_tree (result, some e) s =
      if not (is_error e err_halt_sub_reconcilers)
      then (returned (empty_result, some e), s)
      else (returned (result, none), record s { resource = copy_generation s.resource })
  after_tree (result, none) s =
      (returned (result, none), record s { resource = copy_generation s.resource })

  abbrev pub without_resource : Outcome Reply × (St V W X Y) → Outcome Reply × Outside V W
  without_resource (reply, s) = (reply, record { events = s.events; world = s.world })

  abbrev pub after_write : Reply → Bool → PatchReply (Body X Y) W → M (St V W X Y) Reply
  after_write reply duck written s =
      let s' = record s {
        resource = written.patched;
        world = record s.world { cluster = written.after };
      } in
      elim written.error [
        | some e ↦ (
          returned (empty_result, some e),
          record_failure (reason duck "StatusPatchFailed" "StatusUpdateFailed") [] e s',
        )
        | none ↦ (
          returned reply,
          record_event
              (record {
                warning = false;
                reason = reason duck "StatusPatched" "StatusUpdated";
                args = [];
                cause = none;
              })
              s',
        )
      ]

module _ {Config X Y W : Type 0} (ext : External Config X Y W) where
  -- `initializeConditions`
  abbrev pub initialize_conditions : Context Config → Resource (Body X Y) → Resource (Body X Y)
  initialize_conditions ctx r = with_status (initialized ext.initialize ctx) r

  abbrev pub defaulted : Resource (Body X Y) → Resource (Body X Y)
  defaulted r = elim ext.default [ none ↦ r | some f ↦ f r ]

module _ {Config V W X Y : Type 0} where
  -- `reconcile`
  unfoldable pub reconcile_tree :
      ResourceReconciler Config (St V W X Y) → Context Config → M (St V W X Y) Reply
  unfolding copy_generation
  reconcile_tree r ctx s =
      if is_deleting s && no_finalizers s.resource.finalizers
      then (returned (empty_result, none), s)
      else (call r.reconciler (λ nested. nested.reconcile ctx) >>= after_tree) s

  -- The context of the tree.
  abbrev pub request_context :
      ResourceReconciler Config (St V W X Y) → Context Config → ℕ → Request → Context Config
  request_context r ctx clock req =
      stash_original_config (stash_config (stash_request (stash_now ctx clock) req) r.config)
        r.config

module _ {Config V W X Y : Type 0} (ext : External Config X Y W) where
  -- `Status().Update`, or `Status().Patch` for a duck type.
  abbrev pub write_status : Config → Resource (Body X Y) → St V W X Y → PatchReply (Body X Y) W
  write_status config original s =
      if ext.is_duck s.resource
      then ext.patch_status config original s.resource s.world.cluster
      else ext.update_status config s.resource s.world.cluster

  -- The end of `Reconcile`: the status is written where it has changed.
  unfoldable pub finish :
      ResourceReconciler Config (St V W X Y) → Resource (Body X Y) → Reply → M (St V W X Y) Reply
  unfolding sync_last_transition_time
  finish r original reply s =
      if r.skip_status_update
      then (returned reply, s)
      else (let s' = record s { resource = synced original s.resource } in
          if not (ext.semantic_equal (status s'.resource) (status original)) && not (is_deleting s')
          then after_write reply (ext.is_duck s'.resource) (write_status r.config original s') s'
          else (returned reply, s'))

  -- The resource as the tree gets it.
  abbrev pub prepared : Context Config → Resource (Body X Y) → Outside V W → St V W X Y
  prepared ctx original o = record {
    resource = initialize_conditions ext ctx (defaulted ext original);
    events = o.events;
    world = o.world;
  }

  -- `Reconcile`, at the time `clock`.
  unfoldable pub reconcile :
      String
      → ResourceReconciler Config (St V W X Y)
      → Context Config
      → ℕ
      → Request
      → M (Outside V W) Reply
  unfolding reconcile_tree finish
  reconcile default_name r0 ctx0 clock req o0 =
      let r = init default_name r0 in
      let o = record o0 { world = with_stash o0.world } in
      let ctx = request_context r ctx0 clock req in
      elim (ext.get r.config req o.world.cluster) [
        | get_failed e ↦
            (returned (empty_result, if has_reason not_found e then none else some e), o)
        | found original ↦
            without_resource
              ((reconcile_tree r ctx >>= finish r original) (prepared ctx original o))
      ]
