-- ===== src/Flow/While.antt =====
-- `While` (reconcilers/flow.go). The loop takes fuel, one for each round.
pub mod Rounds
pub mod Limit
use reconciler_runtime.Base.{
  ℕ, zero, suc, ◌+◌, ◌≤◌, ◌<◌, Option, none, some, String, Bool, true, false, not, ◌&&◌, ◌≢◌, [],
  ◌∷◌, if◌then◌else◌, is_none, Option-cases, Bool-cases, inl, inr, ◌≡◌, refl, sym, ◌∙◌, subst,
  arith, leb,
}
use reconciler_runtime.Base.Int.{ℤ, pos, negsuc, leb_ℤ, is_zero_ℤ}
use reconciler_runtime.Errors.{Error, errorf, max_iterations}
use reconciler_runtime.Results.{Result, empty_result, aggregate_two}
use reconciler_runtime.Context.{Context, stash_iteration}
use reconciler_runtime.Exec.{
  Outcome, returned, panicked, exhausted, M, pure, out_of_fuel, call, continue, Ends, ◌>>=◌,
}
use reconciler_runtime.Flow.{Reply, Setup, SubReconciler, name_or, run_setup, then_if_ok}

pub record While (Config S : Type 0) : Type 0 where
  pub name : String
  pub setup : Option (Setup Config S)
  pub condition : Option (Context Config → M S Bool)
  pub reconciler : Option (SubReconciler Config S)
  pub max_iterations : Option ℤ

-- `*r.MaxIterations != 0 && i >= *r.MaxIterations`
abbrev pub limit_reached : ℤ → ℕ → Bool
limit_reached max i = not (is_zero_ℤ max) && leb_ℤ max (pos i)

-- `pointer.Int(100)` where it is nil
abbrev pub limit_or_default : Option ℤ → ℤ
limit_or_default none = pos 100
limit_or_default (some max) = max

-- What follows a call of the nested reconciler: on to the next round, unless it erred.
abbrev pub next_round : {S : Type 0} → Result → Reply → (Result → M S Reply) → M S Reply
next_round aggregate (result, some e) rest = pure (aggregate_two aggregate result, some e)
next_round aggregate (result, none) rest = rest (aggregate_two aggregate result)

module _ {Config S : Type 0} where
  abbrev pub init : While Config S → While Config S
  init r = record r {
    name = name_or r.name "While";
    max_iterations = some (limit_or_default r.max_iterations);
  }

  unfoldable pub validate : While Config S → Option Error
  validate r =
      if is_none r.condition
      then some (errorf "While %q must implement Condition" (r.name ∷ []))
      else if is_none r.reconciler
      then some (errorf "While %q must implement Reconciler" (r.name ∷ []))
      else none

  unfoldable pub setup_with_manager : While Config S → Context Config → M S (Option Error)
  unfolding validate
  setup_with_manager r0 ctx =
      let r = init r0 in
      then_if_ok (validate r) (
        run_setup r.setup ctx >>= λ err.
        then_if_ok err (call r.reconciler (λ nested. nested.setup_with_manager ctx)))

  -- The loop from round `i` on.
  unfoldable pub loop : ℕ → While Config S → Context Config → ℕ → Result → M S Reply
  loop zero r ctx i aggregate = out_of_fuel
  loop (suc fuel) r ctx i aggregate = elim (limit_reached (limit_or_default r.max_iterations) i) [
    | true ↦ pure (aggregate, some (max_iterations i))
    | false ↦
        let ctx' = stash_iteration ctx i in
        call r.condition (λ test. test ctx' >>= λ holds. elim holds [
          | false ↦ pure (aggregate, none)
          | true ↦ call r.reconciler (λ nested. nested.reconcile ctx' >>= λ reply.
              next_round aggregate reply (loop fuel r ctx (suc i)))
        ])
  ]

  unfoldable pub reconcile : ℕ → While Config S → Context Config → M S Reply
  unfolding loop
  reconcile fuel r ctx = loop fuel (init r) ctx 0 empty_result
