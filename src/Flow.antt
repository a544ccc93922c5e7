-- ===== src/Flow.antt =====
-- Sub reconcilers and what composes them (reconcilers/reconcilers.go, reconcilers/flow.go,
-- reconcilers/sequence.go, reconcilers/sync.go, reconcilers/config.go). A sub reconciler acts on
-- one state: the resource that it is handed by pointer, and all that it reaches beside it.
pub mod IfThen
pub mod While
pub mod TryCatch
pub mod OverrideSetup
pub mod Sequence
pub mod Sync
pub mod WithConfig
pub mod Finalizer
mod Tests
use reconciler_runtime.Base.{Option, none, some, String, ◌==◌, if◌then◌else◌, Bool}
use reconciler_runtime.Errors.{Error}
use reconciler_runtime.Results.{Result}
use reconciler_runtime.Context.{Context}
use reconciler_runtime.Exec.{M, pure}

-- What a Go call that returns `(Result, error)` hands back.
abbrev pub Reply : Type 0
Reply = Result × Option Error

-- `Setup` functions; the manager and the builder are part of the state.
abbrev pub Setup : Type 0 → Type 0 → Type 0
Setup Config S = Context Config → M S (Option Error)

pub record SubReconciler (Config S : Type 0) : Type 0 where
  pub setup_with_manager : Setup Config S
  pub reconcile : Context Config → M S Reply

-- A name that is left empty takes its default.
abbrev pub name_or : String → String → String
name_or name default = if name == "" then default else name

-- `if err != nil { return err }`
abbrev pub then_if_ok : {S : Type 0} → Option Error → M S (Option Error) → M S (Option Error)
then_if_ok none k = k
then_if_ok (some e) k = pure (some e)

module _ {Config S : Type 0} where
  -- `Setup` is called if it is there.
  abbrev pub run_setup : Option (Setup Config S) → Context Config → M S (Option Error)
  run_setup none ctx = pure none
  run_setup (some f) ctx = f ctx

  -- A nested reconciler is set up if it is there.
  abbrev pub setup_nested : Option (SubReconciler Config S) → Context Config → M S (Option Error)
  setup_nested none ctx = pure none
  setup_nested (some r) ctx = r.setup_with_manager ctx
