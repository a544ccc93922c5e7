-- ===== src/Manager.antt =====
-- `ResourceManager` (reconcilers/resourcemanager.go): one managed resource is created, updated or
-- deleted. `External` is what `Manage` calls beside the finalizers: the client, the tracker, the
-- expiring cache (a part of the world), JSON patches and the accessors of the managed type `T`.
-- Logging, and with it `Sanitize`, is left out.
pub mod Contract
pub mod Kept
pub mod Unchanged
mod Tests
use reconciler_runtime.Base.{
  String, Bool, true, false, not, ◌&&◌, ◌||◌, Option, none, some, List, [], ◌∷◌, ◌==◌,
  if◌then◌else◌, is_none, is_some, ◌≡◌, refl,
}
use reconciler_runtime.Base.Int.{ℤ, eq_ℤ}
use reconciler_runtime.Errors.{Error, errorf, sentinel, patch_generation_mismatch}
use reconciler_runtime.Context.{Context, retrieve_original_config_or_die, retrieve_config_or_die}
use reconciler_runtime.Exec.{
  Outcome, returned, M, pure, call, continue, panic, nil_dereference, ◌>>=◌,
}
use reconciler_runtime.Flow.{name_or}
use reconciler_runtime.Flow.Finalizer.{
  Resource, State, Event, add_finalizer, clear_finalizer, record_event, record_failure,
}
use reconciler_runtime.Flow.Finalizer

-- `Patch`
pub record Patch (Bytes : Type 0) : Type 0 where
  pub generation : ℤ
  pub bytes : Bytes

-- What a client call leaves: its error, the object it was given, and the world.
pub record Reply (T W : Type 0) : Type 0 where
  pub error : Option Error
  pub object : T
  pub after : W

pub data Diff (Bytes : Type 0) : Type 0 where
  diff : Bytes → Diff Bytes
  no_diff : Error → Diff Bytes

-- `is_created` tells whether the creation timestamp is set, `is_terminating` whether the deletion
-- timestamp is. `create_patch` is the JSON patch from one object to another, `merge_patch` applies its
-- bytes to an object and returns that, with the error if there is one.
pub record External (T Bytes Config B W : Type 0) : Type 0 where
  pub finalizing : Finalizer.External Config B W
  pub is_created : T → Bool
  pub is_terminating : T → Bool
  pub uid : T → String
  pub object_name : T → String
  pub type_name : T → String
  pub generation : T → ℤ
  pub semantic_equal : T → T → Bool
  pub create : Config → T → W → Reply T W
  pub update : Config → T → W → Reply T W
  pub delete : Config → T → W → Reply T W
  pub track_object : Config → T → Resource B → W → Option Error × W
  pub cache_get : W → String → Option (Patch Bytes)
  pub cache_set : String → Patch Bytes → W → W
  pub create_patch : T → T → Diff Bytes
  pub merge_patch : Bytes → T → T × Option Error

-- `harmonize` may write to both of its arguments, `merge_before_update` writes to its first one.
pub record ResourceManager (T : Type 0) : Type 0 where
  pub name : String
  pub finalizer : String
  pub track_desired : Bool
  pub harmonize_immutable_fields : Option (T → T → T × T)
  pub merge_before_update : Option (T → T → T)

-- The managed resource that `Manage` returns, which may be nil, and its error.
abbrev pub Managed : Type 0 → Type 0
Managed T = Option T × Option Error

module _ {T : Type 0} where
  unfoldable pub validate : ResourceManager T → Option Error
  validate r =
      if is_none r.merge_before_update
      then some (errorf "ResourceManager %q must define MergeBeforeUpdate" (r.name ∷ []))
      else none

  -- `default_name` is made of the name of the managed type.
  unfoldable pub setup : (default_name : String) → ResourceManager T → Option Error
  unfolding validate
  setup default_name r = validate (record r { name = name_or r.name default_name })

module _ {T Bytes Config B W : Type 0} (ext : External T Bytes Config B W) where
  unfoldable pub new_patch : T → T → Option (Patch Bytes)
  new_patch base update = elim (ext.create_patch base update) [
    | diff bytes ↦ some (record { generation = ext.generation base; bytes = bytes })
    | no_diff e ↦ none
  ]

  unfoldable pub apply : Patch Bytes → T → T × Option Error
  apply p rebase =
      if eq_ℤ (ext.generation rebase) p.generation
      then ext.merge_patch p.bytes rebase
      else (rebase, some (sentinel patch_generation_mismatch))

  -- Neither nil nor without a creation timestamp.
  abbrev pub exists? : Option T → Bool
  exists? none = false
  exists? (some actual) = ext.is_created actual

  abbrev pub args_of : T → List String
  args_of t = ext.type_name t ∷ ext.object_name t ∷ []

  abbrev pub success : String → T → Event
  success reason t = record { warning = false; reason = reason; args = args_of t; cause = none }

  abbrev pub put_world : W → State B W → State B W
  put_world w s = record s { world = w }

  -- `if err != nil { return nilT, err }`
  abbrev pub or_fail : Option Error → M (State B W) (Managed T) → M (State B W) (Managed T)
  or_fail none k = k
  or_fail (some e) k = pure (none, some e)

  -- A client call has been made: its error is recorded and returned.
  abbrev pub after_client :
      String → Reply T W → (T → M (State B W) (Managed T)) → M (State B W) (Managed T)
  after_client reason reply k s =
      let s' = put_world reply.after s in
      elim reply.error [
        | some e ↦ (returned (none, some e), record_failure reason (args_of reply.object) e s')
        | none ↦ k reply.object s'
      ]

  abbrev pub track : Bool → Config → T → M (State B W) (Option Error)
  track false config t s = (returned none, s)
  track true config t s =
      let (err, w) = ext.track_object config t s.resource s.world in (returned err, put_world w s)

  unfoldable pub delete_unwanted : Config → Option T → M (State B W) (Managed T)
  delete_unwanted config none s = (returned (none, none), s)
  delete_unwanted config (some actual) s =
      if ext.is_created actual && not (ext.is_terminating actual)
      then after_client "DeleteFailed" (ext.delete config actual s.world)
          (λ t s'. (returned (none, none), record_event (success "Deleted" t) s')) s
      else (returned (none, none), s)

  unfoldable pub create_desired : ResourceManager T → Config → T → M (State B W) (Managed T)
  create_desired r config desired s =
      after_client "CreationFailed" (ext.create config desired s.world)
        (λ created. track r.track_desired config created >>= λ err.
          or_fail err
            (λ s'. (returned (some created, none), record_event (success "Created" created) s')))
        s

  abbrev pub harmonized : Option (T → T → T × T) → T → T → T × T
  harmonized none actual desired = (actual, desired)
  harmonized (some f) actual desired = f actual desired

  -- The desired object with the cached patch applied, whether or not that has an error.
  unfoldable pub with_mutations : Option (Patch Bytes) → T → T
  unfolding apply
  with_mutations none desired = desired
  with_mutations (some p) desired = (apply p desired).0

  abbrev pub remember : String → Option (Patch Bytes) → W → W
  remember uid none w = w
  remember uid (some p) w = ext.cache_set uid p w

  -- After an update the patch from what was asked for to what the server has made of it is cached.
  unfoldable pub update_changed : (T → T → T) → Config → T → T → M (State B W) (Managed T)
  unfolding new_patch
  update_changed merge config current desired s =
      after_client "UpdateFailed" (ext.update config current s.world)
        (λ updated s'. (
          returned (some updated, none),
          record_event (success "Updated" updated) (
              put_world
                (remember (ext.uid updated) (new_patch (merge updated desired) updated) s'.world)
                s'),
        ))
        s

  unfoldable pub update_actual : ResourceManager T → Config → T → T → M (State B W) (Managed T)
  unfolding with_mutations update_changed
  update_actual r config actual0 desired0 s =
      let (actual, desired) = harmonized r.harmonize_immutable_fields actual0 desired0 in
      let patched = with_mutations (ext.cache_get s.world (ext.uid actual)) desired in
      (track r.track_desired config actual >>= λ err. or_fail err (
          call r.merge_before_update (λ merge.
            let current = merge actual patched in
            if ext.semantic_equal current actual
            then pure (some actual, none)
            else update_changed merge config current desired)))
        s

  abbrev pub create_or_update :
      ResourceManager T → Config → Option T → T → M (State B W) (Managed T)
  create_or_update r config none desired = create_desired r config desired
  create_or_update r config (some actual) desired =
      if ext.is_created actual
      then update_actual r config actual desired
      else create_desired r config desired

  -- What is done once both configs are there.
  abbrev pub manage_with :
      ResourceManager T → Context Config → Config → Option T → Option T → M (State B W) (Managed T)
  manage_with r ctx config actual none =
      if exists? actual
      then delete_unwanted config actual
      else clear_finalizer ext.finalizing ctx r.finalizer >>= λ err. or_fail err (pure (none, none))
  manage_with r ctx config actual (some desired) =
      add_finalizer ext.finalizing ctx r.finalizer >>= λ err.
      or_fail err (create_or_update r config actual desired)

  unfoldable pub manage :
      ResourceManager T → Context Config → Option T → Option T → M (State B W) (Managed T)
  unfolding delete_unwanted create_desired update_actual
  manage r ctx actual desired = retrieve_original_config_or_die ctx >>= λ original.
      retrieve_config_or_die ctx >>= λ config. manage_with r ctx config actual desired
