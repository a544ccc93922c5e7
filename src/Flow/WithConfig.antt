-- ===== src/Flow/WithConfig.antt =====
-- `WithConfig` (reconcilers/config.go).
use reconciler_runtime.Base.{Option, none, some, String, [], ◌∷◌, if◌then◌else◌, is_none}
use reconciler_runtime.Errors.{Error, errorf}
use reconciler_runtime.Results.{empty_result}
use reconciler_runtime.Context.{Context, retrieve_config_or_die, stash_config}
use reconciler_runtime.Exec.{M, pure, call, ◌>>=◌}
use reconciler_runtime.Flow.{Reply, SubReconciler, name_or, then_if_ok}

-- What the `Config` function of a `WithConfig` returns.
pub data ConfigReply (Config : Type 0) : Type 0 where
  config : Config → ConfigReply Config
  failed : Error → ConfigReply Config

pub record WithConfig (Config S : Type 0) : Type 0 where
  pub name : String
  pub config : Option (Context Config → Config → M S (ConfigReply Config))
  pub reconciler : Option (SubReconciler Config S)

module _ {Config S : Type 0} where
  unfoldable pub validate : WithConfig Config S → Option Error
  validate r =
      if is_none r.config
      then some (errorf "WithConfig %q must define Config" (r.name ∷ []))
      else if is_none r.reconciler
      then some (errorf "WithConfig %q must define Reconciler" (r.name ∷ []))
      else none

  unfoldable pub setup_with_manager : WithConfig Config S → Context Config → M S (Option Error)
  unfolding validate
  setup_with_manager r0 ctx =
      let r = record r0 { name = name_or r0.name "WithConfig" } in
      then_if_ok (validate r) (
        retrieve_config_or_die ctx >>= λ c. call r.config (λ f. f ctx c) >>= λ reply. elim reply [
          | failed e ↦ pure (some e)
          | config c' ↦
              call r.reconciler (λ nested. nested.setup_with_manager (stash_config ctx c'))
        ])

  unfoldable pub reconcile : WithConfig Config S → Context Config → M S Reply
  reconcile r ctx = retrieve_config_or_die ctx >>= λ c. call r.config (λ f. f ctx c) >>= λ reply.
      elim reply [
        | failed e ↦ pure (empty_result, some e)
        | config c' ↦ call r.reconciler (λ nested. nested.reconcile (stash_config ctx c'))
      ]
