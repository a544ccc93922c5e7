-- ===== src/CastResource.antt =====
-- `CastResource` (reconcilers/cast.go): a reconciler of one type that acts on a resource of another,
-- by way of JSON; what it changes is patched into the resource. Logs are left out, and so is the type
-- of the resource on the context.
pub mod Patched
mod Tests
use reconciler_runtime.Base.{
  String, Bool, true, false, Option, none, some, List, [], ◌∷◌, ◌++◌, if◌then◌else◌, is_none,
}
use reconciler_runtime.Errors.{Error, errorf}
use reconciler_runtime.Results.{Result, empty_result}
use reconciler_runtime.Context.{Context, retrieve_config_or_die}
use reconciler_runtime.Exec.{
  Or, ok, failed, and_then, Outcome, returned, panicked, exhausted, M, pure, panic, call, continue,
  ◌>>=◌,
}
use reconciler_runtime.Flow.{Reply, SubReconciler, name_or, then_if_ok}
use reconciler_runtime.Flow.Finalizer.{Resource, State}
use reconciler_runtime.Manager
use reconciler_runtime.Manager.{Diff, diff, no_diff, Patch, apply}

-- JSON between the two types; `kind_is_empty` and `set_kind` are those of the cast resource, and get
-- the kind of the resource from a config; the comparison; the JSON patches of each type; the
-- aggregate of errors, which is nil where there are none.
pub record External (Bytes Config B C W : Type 0) : Type 0 where
  pub marshal : Resource B → Or Bytes
  pub unmarshal : Bytes → Or (Resource C)
  pub kind_is_empty : Resource C → Bool
  pub set_kind : Config → Resource B → Resource C → Resource C
  pub semantic_equal : Resource C → Resource C → Bool
  pub create_patch : Resource C → Resource C → Diff Bytes
  pub rebasing : Manager.External (Resource B) Bytes Config B W
  pub new_aggregate : List Error → Option Error
  -- `client.Object(resource).(CT)`, where the cast type is an interface
  pub implements : Resource B → Bool

-- The reconciler of the cast type, by what that is: an interface, which the resource is passed as, or
-- a type of its own.
pub data Casting (Config B C W : Type 0) : Type 0 where
  noop : Option (SubReconciler Config (State B W)) → Casting Config B C W
  convert : Option (SubReconciler Config (State C W)) → Casting Config B C W

pub record CastResource (Config B C W : Type 0) : Type 0 where
  pub name : String
  pub casting : Casting Config B C W

abbrev pub not_an_instance : Error
not_an_instance = errorf "interface conversion: missing method" []

-- The state with another resource.
abbrev pub state_with : {B C W : Type 0} → Resource C → State B W → State C W
state_with resource s = record { resource = resource; events = s.events; world = s.world }

-- A setup that sees the resource as one of another type, which it is not yet there for.
abbrev pub setup_as : {B C W A : Type 0} → Resource C → M (State C W) A → M (State B W) A
setup_as empty m s =
    let (out, t) = m (state_with empty s) in (out, record s { events = t.events; world = t.world })

unfoldable pub validate :
    {Config S : Type 0} → String → Option (SubReconciler Config S) → Option Error
validate name nested =
    if is_none nested
    then some (errorf "CastResource %q must define Reconciler" (name ∷ []))
    else none

module _ {Config B C W : Type 0} where
  unfoldable pub init : String → CastResource Config B C W → CastResource Config B C W
  init default_name r = elim r.casting [
    | noop nested ↦ r
    | convert nested ↦ record r { name = name_or r.name default_name }
  ]

  abbrev pub setup_casting :
      (empty : Resource C)
      → String
      → Casting Config B C W
      → Context Config
      → M (State B W) (Option Error)
  setup_casting empty name (noop nested) ctx = call nested (λ n. n.setup_with_manager ctx)
  setup_casting empty name (convert nested) ctx =
      then_if_ok (validate name nested)
        (setup_as empty (call nested (λ n. n.setup_with_manager ctx)))

  unfoldable pub setup_with_manager :
      (default_name : String)
      → (empty : Resource C) → CastResource Config B C W
      → Context Config
      → M (State B W) (Option Error)
  unfolding init validate
  setup_with_manager default_name empty r0 ctx =
      let r = init default_name r0 in setup_casting empty r.name r.casting ctx

module _ {Bytes Config B C W : Type 0} (ext : External Bytes Config B C W) where
  -- The kind of the resource is the default.
  abbrev pub with_kind : Context Config → Resource B → Resource C → M (State B W) (Or (Resource C))
  with_kind ctx resource cast_resource =
      if ext.kind_is_empty cast_resource
      then (retrieve_config_or_die ctx >>= λ c. pure (ok (ext.set_kind c resource cast_resource)))
      else pure (ok cast_resource)

  abbrev pub or_else_failed :
      {A D : Type 0} → Or A → (A → M (State B W) (Or D)) → M (State B W) (Or D)
  or_else_failed (failed e) k = pure (failed e)
  or_else_failed (ok a) k = k a

  unfoldable pub cast : Context Config → Resource B → M (State B W) (Or (Resource C))
  cast ctx resource = or_else_failed (ext.marshal resource) (λ text.
      or_else_failed (ext.unmarshal text) (λ cast_resource. with_kind ctx resource cast_resource))

  -- `NewPatch`
  abbrev pub new_patch : Resource C → Resource C → Or (Patch Bytes)
  new_patch base update = elim (ext.create_patch base update) [
    | no_diff e ↦ failed e
    | diff bytes ↦ ok (record { generation = base.generation; bytes = bytes })
  ]

  abbrev pub errors_of : Option Error → List Error
  errors_of none = []
  errors_of (some e) = e ∷ []

  -- The patch is made and applied, where there is something to patch.
  unfoldable pub patched :
      List Error → (original cast_resource : Resource C) → Resource B → List Error × Resource B
  unfolding apply
  patched errs original cast_resource resource =
      if ext.semantic_equal cast_resource original
      then (errs, resource)
      else elim (new_patch original cast_resource) [
        | failed e ↦ (errs ++ e ∷ [], resource)
        | ok p ↦
            let (rebased, err) = apply ext.rebasing p resource in (errs ++ errors_of err, rebased)
      ]

  -- After the run of the nested reconciler
  abbrev pub after_nested :
      (original : Resource C) → Resource B → Outcome Reply × State C W → Outcome Reply × State B W
  after_nested original resource (returned (result, err), t) =
      let (errs, resource') = patched (errors_of err) original t.resource resource in
      (returned (result, ext.new_aggregate errs), state_with resource' t)
  after_nested original resource (panicked e, t) = (panicked e, state_with resource t)
  after_nested original resource (exhausted, t) = (exhausted, state_with resource t)

  abbrev pub reconcile_cast :
      Option (SubReconciler Config (State C W))
      → Context Config
      → Or (Resource C)
      → M (State B W) Reply
  reconcile_cast nested ctx (failed e) s = (returned (empty_result, some e), s)
  reconcile_cast nested ctx (ok cast_resource) s =
      after_nested cast_resource s.resource
        (call nested (λ n. n.reconcile ctx) (state_with cast_resource s))

  abbrev pub reconcile_casting : Casting Config B C W → Context Config → M (State B W) Reply
  reconcile_casting (noop nested) ctx s =
      if ext.implements s.resource
      then call nested (λ n. n.reconcile ctx) s
      else (panicked not_an_instance, s)
  reconcile_casting (convert nested) ctx s = (cast ctx s.resource >>= reconcile_cast nested ctx) s

  unfoldable pub reconcile :
      String → CastResource Config B C W → Context Config → M (State B W) Reply
  unfolding init cast patched
  reconcile default_name r ctx = reconcile_casting (init default_name r).casting ctx
