-- ===== src/Flow/IfThen.antt =====
-- `IfThen` (reconcilers/flow.go).
use reconciler_runtime.Base.{
  Option, none, some, String, Bool, [], ◌∷◌, if◌then◌else◌, is_none, Option-cases, inl, inr, ◌≡◌,
  arith,
}
use reconciler_runtime.Errors.{Error, errorf}
use reconciler_runtime.Results.{empty_result}
use reconciler_runtime.Context.{Context}
use reconciler_runtime.Exec.{returned, M, pure, call, ◌>>=◌}
use reconciler_runtime.Flow.{
  Reply, Setup, SubReconciler, name_or, run_setup, then_if_ok, setup_nested,
}

pub record IfThen (Config S : Type 0) : Type 0 where
  pub name : String
  pub setup : Option (Setup Config S)
  pub condition : Option (Context Config → M S Bool)
  pub then_branch : Option (SubReconciler Config S)
  pub else_branch : Option (SubReconciler Config S)

module _ {Config S : Type 0} where
  abbrev pub init : IfThen Config S → IfThen Config S
  init r = record r { name = name_or r.name "IfThen" }

  unfoldable pub validate : IfThen Config S → Option Error
  validate r =
      if is_none r.condition
      then some (errorf "IfThen %q must implement If" (r.name ∷ []))
      else if is_none r.then_branch
      then some (errorf "IfThen %q must implement Then" (r.name ∷ []))
      else none

  unfoldable pub setup_with_manager : IfThen Config S → Context Config → M S (Option Error)
  unfolding validate
  setup_with_manager r0 ctx =
      let r = init r0 in
      then_if_ok (validate r) (
        run_setup r.setup ctx >>= λ err. then_if_ok err (
          call r.then_branch (λ branch. branch.setup_with_manager ctx) >>= λ err.
          then_if_ok err (setup_nested r.else_branch ctx)))

  -- The second branch, or an empty result.
  abbrev pub or_nothing : Option (SubReconciler Config S) → Context Config → M S Reply
  or_nothing none ctx = pure (empty_result, none)
  or_nothing (some branch) ctx = branch.reconcile ctx

  unfoldable pub reconcile : IfThen Config S → Context Config → M S Reply
  reconcile r0 ctx =
      let r = init r0 in
      call r.condition (λ test. test ctx >>= λ holds.
      if holds
      then call r.then_branch (λ branch. branch.reconcile ctx)
      else or_nothing r.else_branch ctx)

  -- A validated `IfThen` runs the first branch when its condition holds, and otherwise the second
  -- one, or nothing when there is none; the branch starts in the state that the condition leaves.
  reconcile_branches :
      (r : IfThen Config S) (ctx : Context Config) (s s' : S) (b : Bool)
      (test : Context Config → M S Bool)
      → validate r ≡ none
      → r.condition ≡ some test
      → test ctx s ≡ (returned b, s')
      → (branch : SubReconciler Config S) × (r.then_branch ≡ some branch)
        × (reconcile r ctx s
            ≡ (if b then branch.reconcile ctx s' else or_nothing r.else_branch ctx s'))
  unfolding validate reconcile
  reconcile_branches r ctx s s' b test h c t = elim (Option-cases r.then_branch) [
    | inl e ↦ absurd (cc (rw (c, e) at h))
    | inr (branch, e) ↦ (branch, e, rw (c, reconcile) (rw t (ground arith)))
  ]
