-- ===== src/Flow/Finalizer/Lifecycle.antt =====
-- When a `WithFinalizer` holds its finalizer (reconcilers/finalizer.go).
use reconciler_runtime.Base.{Bool, true, false, Option, none, some, ◌==◌, ◌≡◌, refl, inl, inr, ◌⊎◌}
use reconciler_runtime.Errors.{Error}
use reconciler_runtime.Results.{Result, empty_result}
use reconciler_runtime.Context.{Context}
use reconciler_runtime.Exec.{Outcome, returned, M, pure, continue, ◌>>=◌}
use reconciler_runtime.Flow.{Reply, SubReconciler}
use reconciler_runtime.Flow.Finalizer.{
  External, State, WithFinalizer, ensure_finalizer, is_deleting, unless_error, reconcile,
  clear_phase,
}
use reconciler_runtime.Flow.Finalizer.Patching.{
  AreLists, AnswersWithDesired, Ensured, patch_reply, ensure_finalizer-Ensured,
}

module _ {Config B W : Type 0} (ext : External Config B W) (lists : AreLists ext)
    (answers : AnswersWithDesired ext) (r : WithFinalizer Config (State B W))
    (nested : SubReconciler Config (State B W)) (has_nested : r.reconciler ≡ some nested)
    (named : (r.finalizer == "") ≡ false) (ctx : Context Config) (config : Config)
    (has_config : ctx.original_config ≡ some config) where
  -- Does the resource have the finalizer?
  abbrev Has : State B W → Bool → Type 0
  Has s b = ext.contains_finalizer s.resource.finalizers r.finalizer ≡ b

  -- The nested reconciler, and the finalizer cleared after it.
  abbrev rest : M (State B W) Reply
  rest = nested.reconcile ctx >>= clear_phase ext r ctx

  -- With a finalizer that is not empty, the original config on the context, helpers that put a
  -- finalizer into the list and take it out, and a patch that answers with the finalizers it is
  -- sent: a resource that is not being deleted gets to the nested reconciler with the finalizer on
  -- it, or not at all: then the error of the patch that sets it is returned with an empty result,
  -- and the resource is left.
  pub reconcile_guards :
      (s : State B W)
      → is_deleting s ≡ false
      → ((t : State B W) × Has t true
          × (t.resource.body ≡ s.resource.body)
          × (reconcile ext r ctx s ≡ rest t))
        ⊎ ((e : Error) × (t : State B W) × ((patch_reply ext config r.finalizer true s).error
              ≡ some e)
            × (t.resource ≡ s.resource)
            × (reconcile ext r ctx s ≡ (returned (empty_result, some e), t)))
  unfolding reconcile
  reconcile_guards s d =
      rw (d, reconcile)
        (rw has_nested (
          after (ensure_finalizer ext ctx r.finalizer true s) (
            ensure_finalizer-Ensured ext lists answers ctx config r.finalizer true s has_config
              named)))
    where
      after :
          (run : Outcome (Option Error) × State B W)
          → Ensured ext config r.finalizer true s run
          → ((t : State B W) × Has t true
              × (t.resource.body ≡ s.resource.body)
              × (continue run.0 (λ err. unless_error err rest) run.1 ≡ rest t))
            ⊎ ((e : Error) × (t : State B W) × ((patch_reply ext config r.finalizer true s).error
                  ≡ some e)
                × (t.resource ≡ s.resource)
                × (continue run.0 (λ err. unless_error err rest) run.1
                    ≡ (returned (empty_result, some e), t)))
      after (o, t) (inl (ok, has), body, deletion) = inl (t, has, body, rw ok refl)
      after (o, t) (inr (e, of_patch, failed, same), body, deletion) =
          inr (e, t, of_patch, same, rw failed refl)

  -- With a finalizer that is not empty, the original config on the context, helpers that put a
  -- finalizer into the list and take it out, and a patch that answers with the finalizers it is
  -- sent: while the resource is being deleted, before and after the nested reconciler, and that
  -- returns without an error, a reconcile ends with the finalizer taken out, or with an empty
  -- result and the error of the patch that takes it out.
  pub reconcile_clears :
      (s t : State B W) (result : Result)
      → is_deleting s ≡ true
      → nested.reconcile ctx s ≡ (returned (result, none), t)
      → is_deleting t ≡ true
      → (u : State B W) × (((reconcile ext r ctx s ≡ (returned (result, none), u)) × Has u false)
          ⊎ ((e : Error) × ((patch_reply ext config r.finalizer false t).error ≡ some e)
              × (reconcile ext r ctx s ≡ (returned (empty_result, some e), u))))
  unfolding reconcile
  reconcile_clears s t result d h d' =
      rw (d, reconcile)
        (rw has_nested (
          rw h (
            rw d' (
              after (ensure_finalizer ext ctx r.finalizer false t) (
                ensure_finalizer-Ensured ext lists answers ctx config r.finalizer false t has_config
                  named)))))
    where
      after :
          (run : Outcome (Option Error) × State B W)
          → Ensured ext config r.finalizer false t run
          → (u : State B W) × (((continue run.0
                    (λ err. unless_error err (pure (result, none)))
                    run.1
                  ≡ (returned (result, none), u))
                × Has u false)
              ⊎ ((e : Error) × ((patch_reply ext config r.finalizer false t).error ≡ some e)
                  × (continue run.0 (λ err. unless_error err (pure (result, none))) run.1
                      ≡ (returned (empty_result, some e), u))))
      after (o, u) (inl (ok, has), body, deletion) = (u, inl (rw ok refl, has))
      after (o, u) (inr (e, of_patch, failed, same), body, deletion) =
          (u, inr (e, of_patch, rw failed refl))
