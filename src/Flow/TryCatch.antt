-- ===== src/Flow/TryCatch.antt =====
-- `TryCatch` (reconcilers/flow.go).
use reconciler_runtime.Base.{Option, none, some, String, [], ◌∷◌, if◌then◌else◌, is_none, ◌≡◌}
use reconciler_runtime.Errors.{Error, errorf}
use reconciler_runtime.Results.{Result, aggregate_two}
use reconciler_runtime.Context.{Context}
use reconciler_runtime.Exec.{returned, M, pure, call, ◌>>=◌}
use reconciler_runtime.Flow.{
  Reply, Setup, SubReconciler, name_or, run_setup, then_if_ok, setup_nested,
}

pub record TryCatch (Config S : Type 0) : Type 0 where
  pub name : String
  pub setup : Option (Setup Config S)
  pub try : Option (SubReconciler Config S)
  pub catch : Option (Context Config → Result → Option Error → M S Reply)
  pub finally : Option (SubReconciler Config S)

-- An error from `Finally` overrides the existing one.
unfoldable pub after_finally : Reply → Reply → Reply
after_finally (result, err) (fresult, some ferr) = (aggregate_two result fresult, some ferr)
after_finally (result, err) (fresult, none) = (aggregate_two result fresult, err)

-- The error that wins.
abbrev pub either_error : Option Error → Option Error → Option Error
either_error (some e) other = some e
either_error none other = other

module _ {Config S : Type 0} where
  abbrev pub init : TryCatch Config S → TryCatch Config S
  init r = record r { name = name_or r.name "TryCatch" }

  unfoldable pub validate : TryCatch Config S → Option Error
  validate r =
      if is_none r.try then some (errorf "TryCatch %q must implement Try" (r.name ∷ [])) else none

  unfoldable pub setup_with_manager : TryCatch Config S → Context Config → M S (Option Error)
  unfolding validate
  setup_with_manager r0 ctx =
      let r = init r0 in
      then_if_ok (validate r) (
        run_setup r.setup ctx >>= λ err. then_if_ok err (
          call r.try (λ nested. nested.setup_with_manager ctx) >>= λ err.
          then_if_ok err (setup_nested r.finally ctx)))

  unfoldable pub run_catch :
      Option (Context Config → Result → Option Error → M S Reply)
      → Context Config
      → Reply
      → M S Reply
  run_catch none ctx reply = pure reply
  run_catch (some catch) ctx (result, err) = catch ctx result err

  unfoldable pub run_finally : Option (SubReconciler Config S) → Context Config → Reply → M S Reply
  unfolding after_finally
  run_finally none ctx reply = pure reply
  run_finally (some finally) ctx reply =
      finally.reconcile ctx >>= λ freply. pure (after_finally reply freply)

  unfoldable pub reconcile : TryCatch Config S → Context Config → M S Reply
  unfolding run_catch run_finally
  reconcile r0 ctx =
      let r = init r0 in
      call r.try (λ nested. nested.reconcile ctx >>= λ reply.
      run_catch r.catch ctx reply >>= λ reply'. run_finally r.finally ctx reply')

  -- When `Try` and `Catch` return, with an error or without, `Finally` runs in the state that they
  -- leave; the results are aggregated, and the error is that of `Finally` or else the one before
  -- it.
  pub reconcile_finally :
      (r : TryCatch Config S) (ctx : Context Config) (nested finally : SubReconciler Config S)
      (s s' s'' s''' : S) (reply reply' freply : Reply)
      → r.try ≡ some nested
      → r.finally ≡ some finally
      → nested.reconcile ctx s ≡ (returned reply, s')
      → run_catch r.catch ctx reply s' ≡ (returned reply', s'')
      → finally.reconcile ctx s'' ≡ (returned freply, s''')
      → reconcile r ctx s
        ≡ (returned (aggregate_two reply'.0 freply.0, either_error freply.1 reply'.1), s''')
  unfolding reconcile
  reconcile_finally r ctx nested finally s s' s'' s''' reply reply' (fresult, none) t f a b c =
      rw (t, reconcile) (rw a (rw b (rw f (rw c))))
  reconcile_finally r ctx nested finally s s' s'' s''' reply reply' (fresult, some e) t f a b c =
      rw (t, reconcile) (rw a (rw b (rw f (rw c))))
