-- ===== src/Context.antt =====
-- The values that reconcilers put on a `context.Context` (reconcilers/reconcilers.go,
-- reconcilers/flow.go, time/now.go), one field for each key. The logger is left out.
use reconciler_runtime.Base.{ℕ, String, Option, none, some, [], ◌≡◌, refl, is_some, if◌then◌else◌}
use reconciler_runtime.Base.Int.{ℤ, pos, negsuc}
use reconciler_runtime.Errors.{Error, errorf}
use reconciler_runtime.Exec.{M, pure, panic, returned}

-- `Request`
pub record Request : Type 0 where
  pub namespace : String
  pub name : String

pub record Context (Config : Type 0) : Type 0 where
  pub iteration : Option ℕ
  pub now : Option ℕ
  pub request : Option Request
  pub config : Option Config
  pub original_config : Option Config

-- `context.Background()`
abbrev pub background : {Config : Type 0} → Context Config
background = record {
  iteration = none;
  now = none;
  request = none;
  config = none;
  original_config = none;
}

abbrev pub config_missing : Error
config_missing =
    errorf
      "config must exist on the context. Check that the context is from a ResourceReconciler or WithConfig"
      []

abbrev pub original_config_missing : Error
original_config_missing =
    errorf
      "resource config must exist on the context. Check that the context is from a ResourceReconciler"
      []

module _ {Config : Type 0} where
  abbrev pub stash_iteration : Context Config → ℕ → Context Config
  stash_iteration ctx i = record ctx { iteration = some i }

  abbrev pub retrieve_iteration : Context Config → ℤ
  retrieve_iteration ctx = elim ctx.iteration [ none ↦ negsuc 0 | some i ↦ pos i ]

  -- A time that is there already is not overwritten.
  abbrev pub stash_now : Context Config → ℕ → Context Config
  stash_now ctx now = if is_some ctx.now then ctx else record ctx { now = some now }

  -- `clock` is what `time.Now()` returns.
  abbrev pub retrieve_now : Context Config → (clock : ℕ) → ℕ
  retrieve_now ctx clock = elim ctx.now [ none ↦ clock | some now ↦ now ]

  abbrev pub stash_request : Context Config → Request → Context Config
  stash_request ctx req = record ctx { request = some req }

  abbrev pub retrieve_request : Context Config → Request
  retrieve_request ctx = elim ctx.request [
    | none ↦ record { namespace = ""; name = "" }
    | some req ↦ req
  ]

  abbrev pub stash_config : Context Config → Config → Context Config
  stash_config ctx config = record ctx { config = some config }

  abbrev pub retrieve_config_or_die : {S : Type 0} → Context Config → M S Config
  retrieve_config_or_die ctx = elim ctx.config [
    | none ↦ panic config_missing
    | some config ↦ pure config
  ]

  abbrev pub stash_original_config : Context Config → Config → Context Config
  stash_original_config ctx config = record ctx { original_config = some config }

  abbrev pub retrieve_original_config_or_die : {S : Type 0} → Context Config → M S Config
  retrieve_original_config_or_die ctx = elim ctx.original_config [
    | none ↦ panic original_config_missing
    | some config ↦ pure config
  ]

  pub retrieve_original_some :
      {S : Type 0} (ctx : Context Config) (c : Config) (s : S)
      → ctx.original_config ≡ some c
      → retrieve_original_config_or_die ctx s ≡ (returned c, s)
  retrieve_original_some ctx c s h = rw h refl

  pub retrieve_config_some :
      {S : Type 0} (ctx : Context Config) (c : Config) (s : S)
      → ctx.config ≡ some c
      → retrieve_config_or_die ctx s ≡ (returned c, s)
  retrieve_config_some ctx c s h = rw h refl
