-- ===== src/Stash.antt =====
-- The stash of a request (reconcilers/stash.go): one map that the context points to, which every
-- reconciler of the request shares and writes. It stands in the state, beside the cluster; `none` is
-- a context that was never given one.
pub mod RoundTrip
use reconciler_runtime.Base.{String, Option, none, some, [], ◌∷◌, ◌≡◌, refl, ◌≢◌, arith, eq_iff}
use reconciler_runtime.Base.Map.{
  Map, string_key, lookup, insert, erase, lookup-insert, lookup-erase, IsKeyed, insert-IsKeyed,
}
use reconciler_runtime.Errors.{Error, errorf}
use reconciler_runtime.Exec.{Outcome, returned, panicked, M, panic, continue, ◌>>=◌, ◌>>◌}

pub record Stashed (V W : Type 0) : Type 0 where
  pub stash : Option (Map String V)
  pub cluster : W

abbrev pub not_configured : Error
not_configured = errorf "context not configured for stashing, call `ctx = WithStash(ctx)`" []

module _ {V W : Type 0} where
  abbrev pub with_stash : Stashed V W → Stashed V W
  with_stash s = record s { stash = some [] }

  unfoldable pub retrieve_stash_map : M (Stashed V W) (Map String V)
  retrieve_stash_map s = elim s.stash [
    | none ↦ (panicked not_configured, s)
    | some m ↦ (returned m, s)
  ]

  unfoldable pub stash_value : String → V → M (Stashed V W) (Unit {0})
  unfolding retrieve_stash_map
  stash_value key value =
      retrieve_stash_map >>= λ m. λ s. (returned tt, record s { stash = some (insert key value m) })

  unfoldable pub retrieve_value : String → M (Stashed V W) (Option V)
  unfolding retrieve_stash_map
  retrieve_value key = retrieve_stash_map >>= λ m. λ s. (returned (lookup key m), s)

  unfoldable pub clear_value : String → M (Stashed V W) (Option V)
  unfolding retrieve_stash_map
  clear_value key = retrieve_stash_map >>= λ m.
      λ s. (returned (lookup key m), record s { stash = some (erase key m) })
