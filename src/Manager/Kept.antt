-- ===== src/Manager/Kept.antt =====
-- What `Manage` leaves as it is (reconcilers/resourcemanager.go): whatever the calls of the client,
-- the tracker and the cache do not change, and the recorder does not either.
use reconciler_runtime.Base.{
  String, Bool, true, false, not, ◌&&◌, Option, none, some, List, ◌≡◌, refl, sym, subst, ◌∙◌,
  if◌then◌else◌, Bool-cases, inl, inr,
}
use reconciler_runtime.Errors.{Error, is_error, err_quiet}
use reconciler_runtime.Context.{
  Context, original_config_missing, config_missing, retrieve_original_config_or_die,
  retrieve_config_or_die,
}
use reconciler_runtime.Exec.{
  Outcome, returned, M, pure, call, ◌>>=◌, Keeps, Keeps-bind, Keeps-call, Keeps-or_panic, if-keeps,
  if-Keeps,
}
use reconciler_runtime.Flow.Finalizer.{State, Event, ensure_finalizer, record_event, record_failure}
use reconciler_runtime.Manager.{
  External, Reply, ResourceManager, Managed, Patch, put_world, or_fail, after_client, track,
  delete_unwanted, create_desired, harmonized, with_mutations, remember, update_changed,
  update_actual, create_or_update, manage_with, manage, args_of, success, new_patch,
}

module _ {T Bytes Config B W O : Type 0} (ext : External T Bytes Config B W)
    (view : State B W → O) where
  -- The calls do not change what is seen.
  pub record IsUnseen : Type 0 where
    pub event : (e : Event) (s : State B W) → view (record_event e s) ≡ view s
    pub create :
        (config : Config) (t : T) (s : State B W)
        → view (put_world ext (ext.create config t s.world).after s) ≡ view s
    pub update :
        (config : Config) (t : T) (s : State B W)
        → view (put_world ext (ext.update config t s.world).after s) ≡ view s
    pub delete :
        (config : Config) (t : T) (s : State B W)
        → view (put_world ext (ext.delete config t s.world).after s) ≡ view s
    pub tracked :
        (config : Config) (t : T) (s : State B W)
        → view (put_world ext (ext.track_object config t s.resource s.world).1 s) ≡ view s
    pub cached :
        (uid : String) (p : Patch Bytes) (s : State B W)
        → view (put_world ext (ext.cache_set uid p s.world) s) ≡ view s

  module _ (unseen : IsUnseen) where
    pub failure-kept :
        (reason : String) (args : List String) (e : Error) (s : State B W)
        → view (record_failure reason args e s) ≡ view s
    failure-kept reason args e s = elim (Bool-cases (is_error e err_quiet)) [
      | inl q ↦ rw q refl
      | inr q ↦ rw q (unseen.event _ s)
    ]

    after_client-kept :
        (reason : String) (reply : Reply T W) (k : T → M (State B W) (Managed T)) (s : State B W)
        → view (put_world ext reply.after s) ≡ view s
        → ((t : T) → Keeps view (k t))
        → view (after_client ext reason reply k s).1 ≡ view s
    after_client-kept reason reply k s quiet h =
        by_error reply.error (put_world ext reply.after s) quiet
      where
        by_error :
            (o : Option Error) (s' : State B W)
            → view s' ≡ view s
            → view
                (elim o as (λ x. Outcome (Managed T) × State B W) [
                  | some e ↦ (
                    returned (none, some e),
                    record_failure reason (args_of ext reply.object) e s',
                  )
                  | none ↦ k reply.object s'
                ]).1
              ≡ view s
        by_error none s' q = h reply.object s' ∙ q
        by_error (some e) s' q = failure-kept reason (args_of ext reply.object) e s' ∙ q

    track-kept : (b : Bool) (config : Config) (t : T) → Keeps view (track ext b config t)
    track-kept false config t s = refl
    track-kept true config t s = unseen.tracked config t s

    or_fail-kept :
        (o : Option Error) (k : M (State B W) (Managed T))
        → Keeps view k
        → Keeps view (or_fail ext o k)
    or_fail-kept none k h s = h s
    or_fail-kept (some e) k h s = refl

    delete-kept :
        (config : Config) (actual : Option T) → Keeps view (delete_unwanted ext config actual)
    unfolding delete_unwanted
    delete-kept config none s = refl
    delete-kept config (some actual) s =
        let deleted : T → M (State B W) (Managed T) =
          λ t s'. (returned (none, none), record_event (success ext "Deleted" t) s') in
        if-keeps view (ext.is_created actual && not (ext.is_terminating actual))
          (after_client ext "DeleteFailed" (ext.delete config actual s.world) deleted s)
          (returned (none, none), s) s
          (after_client-kept "DeleteFailed" (ext.delete config actual s.world) deleted s
            (unseen.delete config actual s) (λ t s'. unseen.event (success ext "Deleted" t) s'))
          refl

    create-kept :
        (r : ResourceManager T) (config : Config) (desired : T)
        → Keeps view (create_desired ext r config desired)
    unfolding create_desired
    create-kept r config desired s =
        let recorded : T → M (State B W) (Managed T) = λ created s'.
          (returned (some created, none), record_event (success ext "Created" created) s') in
        after_client-kept "CreationFailed" (ext.create config desired s.world)
          (λ created.
            track ext r.track_desired config created >>= λ err. or_fail ext err (recorded created))
          s (unseen.create config desired s)
          (λ created.
            Keeps-bind view (track ext r.track_desired config created)
              (λ err. or_fail ext err (recorded created))
              (track-kept r.track_desired config created)
              (λ err.
                or_fail-kept err (recorded created)
                  (λ s'. unseen.event (success ext "Created" created) s')))

    update_changed-kept :
        (merge : T → T → T) (config : Config) (current desired : T)
        → Keeps view (update_changed ext merge config current desired)
    unfolding update_changed
    update_changed-kept merge config current desired s =
        after_client-kept "UpdateFailed" (ext.update config current s.world)
          (λ updated s'. (
            returned (some updated, none),
            record_event (success ext "Updated" updated) (cache_of updated s'),
          ))
          s (unseen.update config current s)
          (λ updated s'.
            unseen.event (success ext "Updated" updated) (cache_of updated s')
            ∙ remembered (ext.uid updated) (new_patch ext (merge updated desired) updated) s')
      where
        cache_of : T → State B W → State B W
        cache_of updated s' =
            put_world ext
              (remember ext (ext.uid updated) (new_patch ext (merge updated desired) updated)
                s'.world)
              s'

        remembered :
            (uid : String) (o : Option (Patch Bytes)) (s' : State B W)
            → view (put_world ext (remember ext uid o s'.world) s') ≡ view s'
        remembered uid none s' = refl
        remembered uid (some p) s' = unseen.cached uid p s'

    abbrev merge_with :
        ResourceManager T
        → Config
        → (actual desired patched : T) → (T → T → T)
        → M (State B W) (Managed T)
    merge_with r config actual desired patched merge =
        let current = merge actual patched in
        if ext.semantic_equal current actual
        then pure (some actual, none)
        else update_changed ext merge config current desired

    merge-kept :
        (r : ResourceManager T) (config : Config) (actual desired patched : T)
        → Keeps view (call r.merge_before_update (merge_with r config actual desired patched))
    merge-kept r config actual desired patched =
        Keeps-call view r.merge_before_update (merge_with r config actual desired patched) (λ merge.
          if-Keeps view (ext.semantic_equal (merge actual patched) actual)
            (pure (some actual, none))
            (update_changed ext merge config (merge actual patched) desired) (λ s. refl)
            (update_changed-kept merge config (merge actual patched) desired))

    update_actual-kept :
        (r : ResourceManager T) (config : Config) (actual desired : T)
        → Keeps view (update_actual ext r config actual desired)
    unfolding update_actual
    update_actual-kept r config actual0 desired0 s =
        let (actual, desired) = harmonized ext r.harmonize_immutable_fields actual0 desired0 in
        let patched = with_mutations ext (ext.cache_get s.world (ext.uid actual)) desired in
        let merged = call r.merge_before_update (merge_with r config actual desired patched) in
        Keeps-bind view (track ext r.track_desired config actual) (λ err. or_fail ext err merged)
          (track-kept r.track_desired config actual)
          (λ err. or_fail-kept err merged (merge-kept r config actual desired patched)) s

    create_or_update-kept :
        (r : ResourceManager T) (config : Config) (actual : Option T) (desired : T)
        → Keeps view (create_or_update ext r config actual desired)
    create_or_update-kept r config none desired = create-kept r config desired
    create_or_update-kept r config (some actual) desired =
        if-Keeps view (ext.is_created actual) (update_actual ext r config actual desired)
          (create_desired ext r config desired) (update_actual-kept r config actual desired)
          (create-kept r config desired)

    ensure-kept :
        (ctx : Context Config) (finalizer : String) (add : Bool)
        → finalizer ≡ ""
        → Keeps view (ensure_finalizer ext.finalizing ctx finalizer add)
    unfolding ensure_finalizer
    ensure-kept ctx finalizer add none_wanted =
        subst (λ f. Keeps view (ensure_finalizer ext.finalizing ctx f add)) (sym none_wanted)
          (λ s. refl)

    abbrev cleared : ResourceManager T → Context Config → M (State B W) (Managed T)
    cleared r ctx = ensure_finalizer ext.finalizing ctx r.finalizer false >>= λ err.
        or_fail ext err (pure (none, none))

    cleared-kept :
        (r : ResourceManager T) (ctx : Context Config)
        → r.finalizer ≡ ""
        → Keeps view (cleared r ctx)
    cleared-kept r ctx none_wanted =
        Keeps-bind view (ensure_finalizer ext.finalizing ctx r.finalizer false)
          (λ err. or_fail ext err (pure (none, none)))
          (ensure-kept ctx r.finalizer false none_wanted)
          (λ err. or_fail-kept err (pure (none, none)) (λ s. refl))

    manage_with-kept :
        (r : ResourceManager T) (ctx : Context Config) (config : Config) (actual desired : Option T)
        → r.finalizer ≡ ""
        → Keeps view (manage_with ext r ctx config actual desired)
    manage_with-kept r ctx config actual (some desired) none_wanted =
        Keeps-bind view (ensure_finalizer ext.finalizing ctx r.finalizer true)
          (λ err. or_fail ext err (create_or_update ext r config actual desired))
          (ensure-kept ctx r.finalizer true none_wanted)
          (λ err.
            or_fail-kept err (create_or_update ext r config actual desired)
              (create_or_update-kept r config actual desired))
    manage_with-kept r ctx config none none none_wanted = cleared-kept r ctx none_wanted
    manage_with-kept r ctx config (some actual) none none_wanted =
        if-Keeps view (ext.is_created actual) (delete_unwanted ext config (some actual))
          (cleared r ctx) (delete-kept config (some actual)) (cleared-kept r ctx none_wanted)

    -- `Manage` with no finalizer leaves as it is what its calls leave as it is.
    pub manage-kept :
        (r : ResourceManager T) (ctx : Context Config) (actual desired : Option T)
        → r.finalizer ≡ ""
        → Keeps view (manage ext r ctx actual desired)
    unfolding manage
    manage-kept r ctx actual desired none_wanted =
        Keeps-bind view (retrieve_original_config_or_die ctx)
          (λ original.
            retrieve_config_or_die ctx >>= λ config. manage_with ext r ctx config actual desired)
          (Keeps-or_panic view ctx.original_config original_config_missing)
          (λ original.
            Keeps-bind view (retrieve_config_or_die ctx)
              (λ config. manage_with ext r ctx config actual desired)
              (Keeps-or_panic view ctx.config config_missing)
              (λ config. manage_with-kept r ctx config actual desired none_wanted))
