-- ===== src/Flow/Finalizer.antt =====
-- `WithFinalizer` and what sets and clears finalizers (reconcilers/finalizer.go). `External` is what
-- the code calls: the helpers of controllerutil on the list of finalizers, and `config.Patch`, which
-- gets the resource to compare with and the desired one, and updates the latter.
pub mod Patching
pub mod Lifecycle
mod Tests
use reconciler_runtime.Base.{
  ℕ, String, Bool, true, false, Option, none, some, List, [], ◌∷◌, ◌++◌, ◌==◌, ◌||◌, if◌then◌else◌,
  is_none, is_some, ◌≡◌, refl, arith, not,
}
use reconciler_runtime.Base.Int.{ℤ}
use reconciler_runtime.Errors.{Error, errorf, is_error, err_quiet}
use reconciler_runtime.Results.{Result, empty_result}
use reconciler_runtime.Context.{Context, retrieve_original_config_or_die}
use reconciler_runtime.Exec.{Outcome, returned, M, pure, call, continue, ◌>>=◌}
use reconciler_runtime.Flow.{Reply, SubReconciler, name_or, then_if_ok}

-- The reconciled resource: what of its metadata is read or written, and the rest of it.
pub record Resource (B : Type 0) : Type 0 where
  pub finalizers : List String
  pub resource_version : String
  pub generation : ℤ
  pub deletion_timestamp : Option ℕ
  pub body : B

-- What is recorded on the resource; an error is formatted into the message.
pub record Event : Type 0 where
  pub warning : Bool
  pub reason : String
  pub args : List String
  pub cause : Option Error

-- The resource, the events recorded so far, the newest first, and all else: the cluster, caches.
pub record State (B W : Type 0) : Type 0 where
  pub resource : Resource B
  pub events : List Event
  pub world : W

pub record PatchReply (B W : Type 0) : Type 0 where
  pub error : Option Error
  pub patched : Resource B
  pub after : W

pub record External (Config B W : Type 0) : Type 0 where
  pub contains_finalizer : List String → String → Bool
  pub add_finalizer : List String → String → List String
  pub remove_finalizer : List String → String → List String
  pub patch : Config → (current desired : Resource B) → W → PatchReply B W

pub record WithFinalizer (Config S : Type 0) : Type 0 where
  pub name : String
  pub finalizer : String
  pub reconciler : Option (SubReconciler Config S)

abbrev pub same_bool : Bool → Bool → Bool
same_bool true b = b
same_bool false b = not b

-- `Recorder.Eventf`
abbrev pub record_event : {B W : Type 0} → Event → State B W → State B W
record_event e s = record s { events = e ∷ s.events }

-- A warning, unless the error is quiet.
abbrev pub record_failure : {B W : Type 0} → String → List String → Error → State B W → State B W
record_failure reason args e s =
    if is_error e err_quiet
    then s
    else record_event (record { warning = true; reason = reason; args = args; cause = some e }) s

module _ {Config B W : Type 0} (ext : External Config B W) where
  abbrev pub desired_finalizers : Bool → List String → String → List String
  desired_finalizers true fs finalizer = ext.add_finalizer fs finalizer
  desired_finalizers false fs finalizer = ext.remove_finalizer fs finalizer

  -- What the patch leaves: a warning for an error that is not quiet, and otherwise an event and the
  -- server's values on the current resource.
  abbrev pub after_patch : String → State B W → PatchReply B W → Outcome (Option Error) × State B W
  after_patch finalizer s reply =
      let s' = record s { world = reply.after } in
      elim reply.error [
        | some e ↦ (returned (some e), record_failure "FinalizerPatchFailed" (finalizer ∷ []) e s')
        | none ↦ (
          returned none,
          record (record_event
              (record {
                warning = false;
                reason = "FinalizerPatched";
                args = finalizer ∷ [];
                cause = none;
              })
              s') {
                resource = record s.resource {
                  finalizers = reply.patched.finalizers;
                  resource_version = reply.patched.resource_version;
                  generation = reply.patched.generation;
                };
              },
        )
      ]

  unfoldable pub ensure_finalizer :
      Context Config → String → (add : Bool) → M (State B W) (Option Error)
  ensure_finalizer ctx finalizer add s =
      if finalizer == "" || same_bool (ext.contains_finalizer s.resource.finalizers finalizer) add
      then (returned none, s)
      else (retrieve_original_config_or_die ctx >>= λ config. λ t. after_patch finalizer t (
            ext.patch config t.resource
              (record t.resource {
                finalizers = desired_finalizers add t.resource.finalizers finalizer;
              })
              t.world))
          s

  abbrev pub add_finalizer : Context Config → String → M (State B W) (Option Error)
  add_finalizer ctx finalizer = ensure_finalizer ctx finalizer true

  abbrev pub clear_finalizer : Context Config → String → M (State B W) (Option Error)
  clear_finalizer ctx finalizer = ensure_finalizer ctx finalizer false

abbrev pub is_deleting : {B W : Type 0} → State B W → Bool
is_deleting s = is_some s.resource.deletion_timestamp

module _ {Config S : Type 0} where
  unfoldable pub validate : WithFinalizer Config S → Option Error
  validate r =
      if r.finalizer == ""
      then some (errorf "WithFinalizer %q must define Finalizer" (r.name ∷ []))
      else if is_none r.reconciler
      then some (errorf "WithFinalizer %q must define Reconciler" (r.name ∷ []))
      else none

  unfoldable pub setup_with_manager : WithFinalizer Config S → Context Config → M S (Option Error)
  unfolding validate
  setup_with_manager r0 ctx =
      let r = record r0 { name = name_or r0.name "WithFinalizer" } in
      then_if_ok (validate r) (call r.reconciler (λ nested. nested.setup_with_manager ctx))

-- On an error an empty result is returned with it, and the rest does not run.
abbrev pub unless_error : {S : Type 0} → Option Error → M S Reply → M S Reply
unless_error none rest = rest
unless_error (some e) rest = pure (empty_result, some e)

module _ {Config B W : Type 0} (ext : External Config B W) where
  abbrev pub add_phase :
      WithFinalizer Config (State B W) → Context Config → M (State B W) Reply → M (State B W) Reply
  add_phase r ctx rest s =
      if is_deleting s
      then rest s
      else (add_finalizer ext ctx r.finalizer >>= λ err. unless_error err rest) s

  abbrev pub clear_phase :
      WithFinalizer Config (State B W) → Context Config → Reply → M (State B W) Reply
  clear_phase r ctx (result, some e) s = (returned (result, some e), s)
  clear_phase r ctx (result, none) s =
      if is_deleting s
      then (clear_finalizer ext ctx r.finalizer >>= λ err. unless_error err (pure (result, none))) s
      else (returned (result, none), s)

  unfoldable pub reconcile : WithFinalizer Config (State B W) → Context Config → M (State B W) Reply
  unfolding ensure_finalizer
  reconcile r ctx =
      add_phase r ctx (call r.reconciler (λ nested. nested.reconcile ctx) >>= clear_phase r ctx)
