-- ===== src/ChildReconciler/Kept.antt =====
-- What the reconcile of a child leaves as it is (reconcilers/child.go), before its status is
-- reflected.
use reconciler_runtime.Base.{String, false, Option, none, some, List, [], ◌∷◌, ◌≡◌, refl, ap, ◌∙◌}
use reconciler_runtime.Errors.{Error, is_error, only_reconcile_child_status}
use reconciler_runtime.Context.{
  Context, original_config_missing, config_missing, retrieve_original_config_or_die,
  retrieve_config_or_die,
}
use reconciler_runtime.Exec.{
  Outcome, returned, M, pure, call, ◌>>=◌, Keeps, Keeps-bind, Keeps-or_panic, if-keeps,
}
use reconciler_runtime.Flow.Finalizer.{State, Event, is_deleting, record_event, record_failure}
use reconciler_runtime.Manager.{ResourceManager, Managed, manage}
use reconciler_runtime.Manager.Kept.{IsUnseen, failure-kept, manage-kept}
use reconciler_runtime.ChildReconciler.{Listed, items, list_failed, External}
use reconciler_runtime.ChildReconciler.Methods.{
  Reconciler, filter_children, children_of, delete_extras, actual_child, desired_child, with_owner,
  manage_desired, bring_to, from_actual, from_listed, reconcile_child,
}

module _ {T Bytes L Config B W O : Type 0} (ext : External T Bytes L Config B W)
    (view : State B W → O) (unseen : IsUnseen ext.managing view) where
  extras-kept :
      (config : Config) (children : List T) → Keeps view (delete_extras ext config children)
  unfolding delete_extras
  extras-kept config [] s = refl
  extras-kept config (extra ∷ children) s =
      by_error (extras-kept config children) (ext.managing.delete config extra s.world).error
    where
      args : List String
      args = ext.child_type ∷ ext.managing.object_name extra ∷ []

      after : State B W
      after = record s { world = (ext.managing.delete config extra s.world).after }

      deleted : Event
      deleted = record { warning = false; reason = "Deleted"; args = args; cause = none }

      by_error :
          Keeps view (delete_extras ext config children)
          → (o : Option Error)
          → view
              (elim o as (λ x. Outcome (Option Error) × State B W) [
                | some e ↦ (returned (some e), record_failure "DeleteFailed" args e after)
                | none ↦ delete_extras ext config children (record_event deleted after)
              ]).1
            ≡ view s
      by_error rest none =
          rest (record_event deleted after)
          ∙ unseen.event deleted after
          ∙ unseen.delete config extra s
      by_error rest (some e) =
          failure-kept ext.managing view unseen "DeleteFailed" args e after
          ∙ unseen.delete config extra s

  abbrev or_new_child : Option Error → M (State B W) (Managed T)
  or_new_child err = elim err [
    | some e ↦ pure (none, some e)
    | none ↦ pure (some ext.new_child, none)
  ]

  actual-kept :
      (config : Config) (children : List T) → Keeps view (actual_child ext config children)
  unfolding actual_child
  actual-kept config [] s = refl
  actual-kept config (child ∷ []) s = refl
  actual-kept config (child ∷ other ∷ children) s =
      Keeps-bind view (delete_extras ext config (child ∷ other ∷ children)) or_new_child
        (extras-kept config (child ∷ other ∷ children)) new_kept s
    where
      new_kept : (err : Option Error) → Keeps view (or_new_child err)
      new_kept none s = refl
      new_kept (some e) s = refl

  module _ (r : Reconciler ext) (stamp : ResourceManager T) (has_stamp : r.stamp ≡ some stamp)
      (no_finalizer : stamp.finalizer ≡ "")
      (desired_kept : (ctx : Context Config) → Keeps view (call r.desired_child (λ f. f ctx))) where
    managed-kept :
        (ctx : Context Config) (actual desired : Option T)
        → Keeps view (manage_desired ext r ctx actual desired)
    managed-kept ctx actual desired s =
        ap (λ o. view (call o (λ m. manage ext.managing m ctx actual desired) s).1) has_stamp
        ∙ manage-kept ext.managing view unseen stamp ctx actual desired no_finalizer s

    bring-kept :
        (ctx : Context Config) (actual : Option T) (desired : Managed T)
        → Keeps view (bring_to ext r ctx actual desired)
    bring-kept ctx actual (desired, some e) s =
        if-keeps view (is_error e only_reconcile_child_status) (returned (actual, none), s)
          (returned (none, some e), s) s refl refl
    bring-kept ctx actual (none, none) s = managed-kept ctx actual none s
    bring-kept ctx actual (some d, none) s = owned (with_owner ext r s.resource d)
      where
        owned :
            (o : Option Error × T)
            → view
                (elim o.0 as (λ x. Outcome (Managed T) × State B W) [
                  | some e ↦ (returned (none, some e), s)
                  | none ↦ manage_desired ext r ctx actual (some o.1) s
                ]).1
              ≡ view s
        owned (none, d') = managed-kept ctx actual (some d') s
        owned (some e, d') = refl

    desired-kept : (ctx : Context Config) → Keeps view (desired_child ext r ctx)
    unfolding desired_child
    desired-kept ctx s =
        if-keeps view (is_deleting s) (returned (none, none), s)
          (call r.desired_child (λ f. f ctx) s) s refl (desired_kept ctx s)

    from_actual-kept :
        (ctx : Context Config) (actual : Managed T) → Keeps view (from_actual ext r ctx actual)
    from_actual-kept ctx (actual, some e) s = refl
    from_actual-kept ctx (actual, none) s =
        Keeps-bind view (desired_child ext r ctx) (bring_to ext r ctx actual) (desired-kept ctx)
          (bring-kept ctx actual) s

    from_listed-kept :
        (ctx : Context Config) (config : Config) (listed : Listed T)
        → Keeps view (from_listed ext r ctx config listed)
    from_listed-kept ctx config (list_failed e) s = refl
    from_listed-kept ctx config (items children) s =
        let ours = filter_children ext r s.resource children in
        Keeps-bind view (actual_child ext config ours) (from_actual ext r ctx)
          (actual-kept config ours) (from_actual-kept ctx) s

    -- A child reconciler whose manager has no finalizer leaves as it is what its calls do, as far as
    -- `DesiredChild` does too.
    pub reconcile_child-kept :
        (known : Option (List T)) (ctx : Context Config)
        → Keeps view (reconcile_child ext r known ctx)
    unfolding reconcile_child
    reconcile_child-kept known ctx =
        Keeps-bind view (retrieve_original_config_or_die ctx)
          (λ original. retrieve_config_or_die ctx >>= from_config)
          (Keeps-or_panic view ctx.original_config original_config_missing)
          (λ original.
            Keeps-bind view (retrieve_config_or_die ctx) from_config
              (Keeps-or_panic view ctx.config config_missing)
              (λ config s. from_listed-kept ctx config (children_of ext r known ctx config s) s))
      where
        from_config : Config → M (State B W) (Managed T)
        from_config config s = from_listed ext r ctx config (children_of ext r known ctx config s) s
