-- ===== src/Manager/Contract.antt =====
-- What `Manage` hands back (reconcilers/resourcemanager.go).
use reconciler_runtime.Base.{
  not, ◌&&◌, Option, none, some, if◌then◌else◌, is_some, ◌≡◌, refl, Bool-cases, Option-cases, inl,
  inr,
}
use reconciler_runtime.Errors.{Error}
use reconciler_runtime.Context.{Context, retrieve_original_some, retrieve_config_some}
use reconciler_runtime.Exec.{Outcome, returned, panicked, exhausted, M, pure, continue, call}
use reconciler_runtime.Flow.Finalizer.{State, add_finalizer, clear_finalizer, record_event}
use reconciler_runtime.Manager.{
  External, ResourceManager, Managed, manage, manage_with, or_fail, track, create_desired,
  update_actual, update_changed, delete_unwanted, create_or_update, exists?, success, harmonized,
  with_mutations, put_world,
}

-- With an error there is no object, and without one there is an object just if one is desired.
unfoldable pub Answers : {T S : Type 0} → Option T → Outcome (Managed T) × S → Type 0
Answers desired (returned (managed, some e), s) = managed ≡ none
Answers desired (returned (managed, none), s) = is_some managed ≡ is_some desired
Answers desired (panicked e, s) = Unit
Answers desired (exhausted, s) = Unit

module _ {T Bytes Config B W : Type 0} (ext : External T Bytes Config B W) (d : Option T) where
  or_fail-Answers :
      (k : M (State B W) (Managed T))
      → ((t : State B W) → Answers d (k t))
      → (run : Outcome (Option Error) × State B W)
      → Answers d (continue run.0 (λ err. or_fail ext err k) run.1)
  unfolding Answers
  or_fail-Answers k h (returned none, s) = h s
  or_fail-Answers k h (returned (some e), s) = refl
  or_fail-Answers k h (panicked e, s) = tt
  or_fail-Answers k h (exhausted, s) = tt

module _ {T Bytes Config B W : Type 0} (ext : External T Bytes Config B W) where
  delete-Answers :
      (config : Config) (actual : Option T) (s : State B W)
      → Answers none (delete_unwanted ext config actual s)
  unfolding delete_unwanted Answers
  delete-Answers config none s = refl
  delete-Answers config (some actual) s =
      elim (Bool-cases (ext.is_created actual && not (ext.is_terminating actual))) [
        | inl q ↦ elim (Option-cases (ext.delete config actual s.world).error) [
          | inl ok ↦ rw (q, delete_unwanted) (rw ok refl)
          | inr (e, failed) ↦ rw (q, delete_unwanted) (rw failed refl)
        ]
        | inr q ↦ rw (q, delete_unwanted) refl
      ]

  create-Answers :
      (r : ResourceManager T) (config : Config) (desired : T) (s : State B W)
      → Answers (some desired) (create_desired ext r config desired s)
  unfolding create_desired Answers
  create-Answers r config desired s =
      elim (Option-cases (ext.create config desired s.world).error) [
        | inr (e, failed) ↦ rw (failed, create_desired) refl
        | inl ok ↦
            let created = (ext.create config desired s.world).object in
            let after = put_world ext (ext.create config desired s.world).after s in
            rw (ok, create_desired)
              (or_fail-Answers ext (some desired)
                (λ t.
                  (returned (some created, none), record_event (success ext "Created" created) t))
                (λ t. refl) (track ext r.track_desired config created after))
      ]

  update_changed-Answers :
      (merge : T → T → T) (config : Config) (current desired d : T) (s : State B W)
      → Answers (some d) (update_changed ext merge config current desired s)
  unfolding update_changed Answers
  update_changed-Answers merge config current desired d s =
      elim (Option-cases (ext.update config current s.world).error) [
        | inl ok ↦ rw (ok, update_changed) refl
        | inr (e, failed) ↦ rw (failed, update_changed) refl
      ]

  -- The end of an update, given what follows a merge.
  abbrev merged :
      Option (T → T → T) → Config → (actual desired patched : T) → M (State B W) (Managed T)
  merged before config actual desired patched = call before (λ merge.
      if ext.semantic_equal (merge actual patched) actual
      then pure (some actual, none)
      else update_changed ext merge config (merge actual patched) desired)

  merged-Answers :
      (before : Option (T → T → T)) (config : Config) (actual desired patched d : T) (s : State B W)
      → Answers (some d) (merged before config actual desired patched s)
  unfolding Answers
  merged-Answers none config actual desired patched d s = tt
  merged-Answers (some merge) config actual desired patched d s =
      elim (Bool-cases (ext.semantic_equal (merge actual patched) actual)) [
        | inl same ↦ rw same refl
        | inr different ↦
            rw different (update_changed-Answers merge config (merge actual patched) desired d s)
      ]

  update-Answers :
      (r : ResourceManager T) (config : Config) (actual desired : T) (s : State B W)
      → Answers (some desired) (update_actual ext r config actual desired s)
  unfolding update_actual
  update-Answers r config actual0 desired0 s =
      let (actual, desired) = harmonized ext r.harmonize_immutable_fields actual0 desired0 in
      let patched = with_mutations ext (ext.cache_get s.world (ext.uid actual)) desired in
      or_fail-Answers ext (some desired0)
        (merged r.merge_before_update config actual desired patched)
        (λ t. merged-Answers r.merge_before_update config actual desired patched desired0 t)
        (track ext r.track_desired config actual s)

  create_or_update-Answers :
      (r : ResourceManager T) (config : Config) (actual : Option T) (desired : T) (s : State B W)
      → Answers (some desired) (create_or_update ext r config actual desired s)
  create_or_update-Answers r config none desired s = create-Answers r config desired s
  create_or_update-Answers r config (some actual) desired s =
      elim (Bool-cases (ext.is_created actual)) [
        | inl q ↦ rw q (update-Answers r config actual desired s)
        | inr q ↦ rw q (create-Answers r config desired s)
      ]

  manage_with-Answers :
      (r : ResourceManager T) (ctx : Context Config) (config : Config) (actual desired : Option T)
      (s : State B W)
      → Answers desired (manage_with ext r ctx config actual desired s)
  unfolding Answers
  manage_with-Answers r ctx config actual none s = elim (Bool-cases (exists? ext actual)) [
    | inl q ↦ rw q (delete-Answers config actual s)
    | inr q ↦ rw q (
        or_fail-Answers ext none (pure (none, none)) (λ t. refl)
          (clear_finalizer ext.finalizing ctx r.finalizer s))
  ]
  manage_with-Answers r ctx config actual (some desired) s =
      or_fail-Answers ext (some desired) (create_or_update ext r config actual desired)
        (create_or_update-Answers r config actual desired)
        (add_finalizer ext.finalizing ctx r.finalizer s)

  pub manage_with_configs :
      (r : ResourceManager T) (ctx : Context Config) (original config : Config)
      (actual desired : Option T) (s : State B W)
      → ctx.original_config ≡ some original
      → ctx.config ≡ some config
      → manage ext r ctx actual desired s ≡ manage_with ext r ctx config actual desired s
  unfolding manage
  manage_with_configs r ctx original config actual desired s q q' =
      rw (retrieve_original_some ctx original s q, manage)
        (rw (retrieve_config_some ctx config s q') refl)

  -- Whenever `Manage` returns: with an error no object is returned, and without one an object is
  -- returned just if one is desired.
  pub manage-Answers :
      (r : ResourceManager T) (ctx : Context Config) (actual desired : Option T) (s : State B W)
      → Answers desired (manage ext r ctx actual desired s)
  unfolding manage Answers
  manage-Answers r ctx actual desired s = elim (Option-cases ctx.original_config) [
    | inl q ↦ rw (q, manage) tt
    | inr (original, q) ↦ elim (Option-cases ctx.config) [
      | inl q' ↦ rw (q, manage) (rw q' tt)
      | inr (config, q') ↦
          rw (manage_with_configs r ctx original config actual desired s q q')
            (manage_with-Answers r ctx config actual desired s)
    ]
  ]
