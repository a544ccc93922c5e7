-- ===== src/Manager/Unchanged.antt =====
-- When `Manage` leaves the managed resource alone (reconcilers/resourcemanager.go).
use reconciler_runtime.Base.{
  String, Bool, true, false, ◌||◌, ◌==◌, Option, none, some, if◌then◌else◌, ◌≡◌, refl, subst, sym,
  ap, ◌∙◌,
}
use reconciler_runtime.Base.Int.{eq_ℤ}
use reconciler_runtime.Context.{Context}
use reconciler_runtime.Exec.{returned, M}
use reconciler_runtime.Flow.Finalizer.{State, ensure_finalizer, same_bool, record_event}
use reconciler_runtime.Manager.{
  External, ResourceManager, Patch, diff, manage, update_actual, update_changed, with_mutations,
  new_patch, apply, success, put_world,
}
use reconciler_runtime.Manager.Contract.{manage_with_configs}

if_call :
    {S A : Type 0} (b : Bool) (f g : M S A) (s : S)
    → (if b then f else g) s ≡ (if b then f s else g s)
if_call true f g s = refl
if_call false f g s = refl

module _ {T Bytes Config B W : Type 0} (ext : External T Bytes Config B W) (r : ResourceManager T)
    (merge : T → T → T) (has_merge : r.merge_before_update ≡ some merge)
    (untracked : r.track_desired ≡ false) (mutable : r.harmonize_immutable_fields ≡ none)
    (ctx : Context Config) (original config : Config)
    (has_original : ctx.original_config ≡ some original)
    (has_config : ctx.config ≡ some config) where
  -- No finalizer is wanted, or the resource has it.
  abbrev IsSettled : State B W → Type 0
  IsSettled s =
      (r.finalizer == "" || ext.finalizing.contains_finalizer s.resource.finalizers r.finalizer)
      ≡ true

  -- What is merged into the actual object.
  abbrev wanted : T → T → State B W → T
  wanted actual desired s =
      merge actual (with_mutations ext (ext.cache_get s.world (ext.uid actual)) desired)

  -- After an update: its event is recorded, and the patch cached.
  abbrev updated_state : T → Patch Bytes → State B W → State B W
  updated_state current patch s =
      let reply = ext.update config current s.world in
      record_event (success ext "Updated" reply.object)
        (put_world ext (ext.cache_set (ext.uid reply.object) patch reply.after) s)

  same_true : (b : Bool) → same_bool b true ≡ b
  same_true true = refl
  same_true false = refl

  manage-merge :
      (actual desired : T) (s : State B W)
      → IsSettled s
      → ext.is_created actual ≡ true
      → manage ext r ctx (some actual) (some desired) s ≡ (
          if ext.semantic_equal (wanted actual desired s) actual
          then (returned (some actual, none), s)
          else update_changed ext merge config (wanted actual desired s) desired s)
  unfolding manage update_actual ensure_finalizer
  manage-merge actual desired s settled created =
      manage_with_configs ext r ctx original config (some actual) (some desired) s has_original
        has_config
      ∙ simp
          (
            same_true, settled, created, untracked, mutable, has_merge, update_actual,
            ensure_finalizer,
          )
          (if_call (ext.semantic_equal (wanted actual desired s) actual) _ _ s)

  -- For a manager that neither tracks nor harmonizes, and a finalizer that is set or not wanted: an
  -- object that exists, and that is already as the merge would have it, is returned, and nothing is
  -- called or recorded.
  pub manage_in_sync :
      (actual desired : T) (s : State B W)
      → IsSettled s
      → ext.is_created actual ≡ true
      → ext.semantic_equal (wanted actual desired s) actual ≡ true
      → manage ext r ctx (some actual) (some desired) s ≡ (returned (some actual, none), s)
  manage_in_sync actual desired s settled created same =
      manage-merge actual desired s settled created ∙ rw same refl

  update_changed_ok :
      (current desired : T) (patch : Patch Bytes) (s : State B W)
      → (ext.update config current s.world).error ≡ none
      → new_patch ext
          (merge (ext.update config current s.world).object desired)
          (ext.update config current s.world).object
        ≡ some patch
      → update_changed ext merge config current desired s ≡ (
        returned (some (ext.update config current s.world).object, none),
        updated_state current patch s,
      )
  unfolding update_changed
  update_changed_ok current desired patch s ok captured = rw (ok, update_changed) (rw captured refl)

  captured_patch :
      (base updated desired : T) (bytes : Bytes)
      → ext.create_patch base updated ≡ diff bytes
      → eq_ℤ (ext.generation desired) (ext.generation base) ≡ true
      → (patch : Patch Bytes) × (new_patch ext base updated ≡ some patch)
        × (with_mutations ext (some patch) desired ≡ (ext.merge_patch bytes desired).0)
  unfolding new_patch with_mutations apply
  captured_patch base updated desired bytes made same = (
    record { generation = ext.generation base; bytes = bytes },
    rw (made, new_patch) refl,
    rw (same, with_mutations, apply) refl,
  )

  -- For a manager that neither tracks nor harmonizes, and a finalizer that is set or not wanted, an
  -- update settles, though the server changes what it is sent. Say that the update succeeds, that
  -- what is made of it can be captured as a patch, that the cache holds a patch it is given, that the
  -- desired object has the generation of the object that the patch is captured from, and that the
  -- patch makes the desired object merge into what the server has made of it. Then `Manage` returns
  -- the server's object, and with that one as the actual object it calls nothing more.
  pub manage_settles :
      (actual desired : T) (bytes : Bytes) (s : State B W)
      → IsSettled s
      → ext.is_created actual ≡ true
      → ext.semantic_equal (wanted actual desired s) actual ≡ false
      → (ext.update config (wanted actual desired s) s.world).error ≡ none
      → (updated : T) → (ext.update config (wanted actual desired s) s.world).object ≡ updated
      → ext.is_created updated ≡ true
      → ext.create_patch (merge updated desired) updated ≡ diff bytes
      → ((uid : String) (p : Patch Bytes) (w : W)
          → ext.cache_get (ext.cache_set uid p w) uid ≡ some p)
      → eq_ℤ (ext.generation desired) (ext.generation (merge updated desired)) ≡ true
      → ext.semantic_equal (merge updated (ext.merge_patch bytes desired).0) updated ≡ true
      → (t : State B W) × (manage ext r ctx (some actual) (some desired) s
          ≡ (returned (some updated, none), t))
        × (manage ext r ctx (some updated) (some desired) t ≡ (returned (some updated, none), t))
  manage_settles actual desired bytes s settled created differs ok updated is_updated created' made
        holds same redone =
      let (patch, captured, applied) =
        captured_patch (merge updated desired) updated desired bytes made same in
      let current = wanted actual desired s in
      let first = update_changed_ok current desired patch s ok (
        subst (λ (u : T). new_patch ext (merge u desired) u ≡ some patch) (sym is_updated)
          captured) in
      (
        updated_state current patch s,
        manage-merge actual desired s settled created
            ∙ rw differs (
                first
                ∙ ap (λ (u : T). (returned (some u, none), updated_state current patch s))
                    is_updated),
        manage_in_sync updated desired (updated_state current patch s) settled created' (
            ap
              (λ (o : Option (Patch Bytes)).
                ext.semantic_equal (merge updated (with_mutations ext o desired)) updated)
              (subst
                (λ (u : T).
                  ext.cache_get (updated_state current patch s).world (ext.uid u) ≡ some patch)
                is_updated
                (holds (ext.uid (ext.update config current s.world).object) patch
                  (ext.update config current s.world).after))
            ∙ ap (λ (x : T). ext.semantic_equal (merge updated x) updated) applied
            ∙ redone),
      )
