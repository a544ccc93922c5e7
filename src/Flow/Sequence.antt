-- ===== src/Flow/Sequence.antt =====
-- `Sequence` (reconcilers/sequence.go). The index of a reconciler only names its logger.
pub mod Append
use reconciler_runtime.Base.{
  Option, none, some, String, true, false, List, [], ◌∷◌, ◌++◌, if◌then◌else◌, is_none, ◌≡◌, refl,
  sym, ap, ◌∙◌, arith,
}
use reconciler_runtime.Errors.{Error, errorf}
use reconciler_runtime.Results.{Result, empty_result, aggregate_two}
use reconciler_runtime.Context.{Context}
use reconciler_runtime.Exec.{Outcome, returned, panicked, exhausted, M, pure, continue, ◌>>=◌}
use reconciler_runtime.Flow.{Reply, Setup, SubReconciler, name_or, then_if_ok}

-- `Sequence`
abbrev pub Sequence : Type 0 → Type 0 → Type 0
Sequence Config S = List (SubReconciler Config S)

-- On an error the result of the reconciler that erred is returned alone.
abbrev pub after_call : {S : Type 0} → Result → Reply → (Result → M S Reply) → M S Reply
after_call aggregate (result, some e) rest = pure (result, some e)
after_call aggregate (result, none) rest = rest (aggregate_two result aggregate)

module _ {Config S : Type 0} where
  unfoldable pub setup_with_manager : Sequence Config S → Context Config → M S (Option Error)
  setup_with_manager [] ctx = pure none
  setup_with_manager (reconciler ∷ r) ctx =
      reconciler.setup_with_manager ctx >>= λ err. then_if_ok err (setup_with_manager r ctx)

  unfoldable pub loop : Sequence Config S → Context Config → Result → M S Reply
  loop [] ctx aggregate = pure (aggregate, none)
  loop (reconciler ∷ r) ctx aggregate =
      reconciler.reconcile ctx >>= λ reply. after_call aggregate reply (loop r ctx)

  unfoldable pub reconcile : Sequence Config S → Context Config → M S Reply
  unfolding loop
  reconcile r ctx = loop r ctx empty_result

-- What comes of two parts of a sequence, one after the other.
abbrev pub joined : Result → Reply → Reply
joined first (result, some e) = (result, some e)
joined first (result, none) = (aggregate_two result first, none)
