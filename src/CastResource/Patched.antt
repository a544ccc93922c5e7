-- ===== src/CastResource/Patched.antt =====
-- What a cast reconciler does to its resource (reconcilers/cast.go).
use reconciler_runtime.Base.{
  String, true, false, Option, none, some, List, [], ◌∷◌, ◌++◌, ◌≡◌, refl, ap, ◌∙◌, if◌then◌else◌,
  Bool-cases, inl, inr,
}
use reconciler_runtime.Base.Int.{eq_ℤ}
use reconciler_runtime.Errors.{Error}
use reconciler_runtime.Results.{Result}
use reconciler_runtime.Context.{Context}
use reconciler_runtime.Exec.{ok, returned, bind_returned}
use reconciler_runtime.Flow.{Reply, SubReconciler}
use reconciler_runtime.Flow.Finalizer.{Resource, State}
use reconciler_runtime.Manager.{diff, apply}
use reconciler_runtime.CastResource.{
  External, convert, state_with, init, cast, patched, errors_of, after_nested, reconcile_cast,
  reconcile,
}

module _ {Bytes Config B C W : Type 0} (ext : External Bytes Config B C W) where
  -- The resource as JSON tells it to the cast type; where that is told no kind, it has the one that
  -- the config knows for the resource.
  abbrev pub IsCastOf : Config → Resource C → Resource B → Type 0
  IsCastOf config c resource =
      (text : Bytes) × (told : Resource C) × (ext.marshal resource ≡ ok text)
      × (ext.unmarshal text ≡ ok told)
      × (c ≡ (if ext.kind_is_empty told then ext.set_kind config resource told else told))

  cast-IsCastOf :
      (ctx : Context Config) (config : Config) (resource : Resource B) (c : Resource C)
      (s : State B W)
      → ctx.config ≡ some config
      → IsCastOf config c resource
      → cast ext ctx resource s ≡ (returned (ok c), s)
  unfolding cast
  cast-IsCastOf ctx config resource c s has_config (text, told, encoded, decoded, kinded) =
      rw (encoded, cast)
        (rw decoded (elim (Bool-cases (ext.kind_is_empty told)) [
          | inl kindless ↦ rw kindless (rw has_config (rw kinded (rw kindless refl)))
          | inr kind ↦ rw kind (rw kinded (rw kind refl))
        ]))

  reconcile-convert :
      (default_name name : String) (nested : SubReconciler Config (State C W))
      (ctx : Context Config) (config : Config) (c : Resource C) (s : State B W) (reply : Reply)
      (t : State C W)
      → ctx.config ≡ some config
      → IsCastOf config c s.resource
      → nested.reconcile ctx (state_with c s) ≡ (returned reply, t)
      → reconcile ext default_name (record { name = name; casting = convert (some nested) }) ctx s
        ≡ after_nested ext c s.resource (returned reply, t)
  unfolding reconcile init
  reconcile-convert default_name name nested ctx config c s reply t has_config is_cast run =
      bind_returned (cast ext ctx s.resource) (reconcile_cast ext (some nested) ctx) s s (ok c)
        (cast-IsCastOf ctx config s.resource c s has_config is_cast)
      ∙ ap (after_nested ext c s.resource) run

  -- A nested reconciler that leaves its cast resource semantically as it was does not touch the
  -- resource, whatever it returns: its result is returned, with its error or none.
  reconcile_untouched :
      (default_name name : String) (nested : SubReconciler Config (State C W))
      (ctx : Context Config) (config : Config) (c : Resource C) (s : State B W) (result : Result)
      (err : Option Error) (t : State C W)
      → ctx.config ≡ some config
      → IsCastOf config c s.resource
      → nested.reconcile ctx (state_with c s) ≡ (returned (result, err), t)
      → ext.semantic_equal t.resource c ≡ true
      → reconcile ext default_name (record { name = name; casting = convert (some nested) }) ctx s
        ≡ (returned (result, ext.new_aggregate (errors_of ext err)), state_with s.resource t)
  unfolding patched
  reconcile_untouched default_name name nested ctx config c s result err t has_config is_cast run
        same =
      reconcile-convert default_name name nested ctx config c s (result, err) t has_config is_cast
        run
      ∙ ap
          (λ (p : List Error × Resource B).
            (returned (result, ext.new_aggregate p.0), state_with p.1 t))
          (untouched (errors_of ext err) c t.resource s.resource same)
    where
      untouched :
          (errs : List Error) (original now : Resource C) (resource : Resource B)
          → ext.semantic_equal now original ≡ true
          → patched ext errs original now resource ≡ (errs, resource)
      untouched errs original now resource same = rw (same, patched) refl

  -- Say that a JSON patch between two cast resources of one kind, applied to a resource of the first,
  -- gives one of the second, and that the resource and its cast have one generation. Where the nested
  -- reconciler changes its cast resource, but not the kind, there is a patch for that, and a config is
  -- on the context, the resource that is left is one whose cast is what the nested reconciler has
  -- left, and the reply is the same as without a change.
  pub reconcile_patches :
      {K : Type 0} (kind_of : Resource C → K) (config : Config)
      → ((base update : Resource C) (resource : Resource B) (bytes : Bytes)
          → kind_of base ≡ kind_of update
          → ext.create_patch base update ≡ diff bytes
          → IsCastOf config base resource
          → (rebased : Resource B) × (ext.rebasing.merge_patch bytes resource ≡ (rebased, none))
            × IsCastOf config update rebased)
      → (default_name name : String) (nested : SubReconciler Config (State C W))
        (ctx : Context Config) (c : Resource C) (s : State B W) (result : Result)
        (err : Option Error) (t : State C W) (bytes : Bytes)
      → ctx.config ≡ some config
      → IsCastOf config c s.resource
      → nested.reconcile ctx (state_with c s) ≡ (returned (result, err), t)
      → kind_of c ≡ kind_of t.resource
      → ext.semantic_equal t.resource c ≡ false
      → ext.create_patch c t.resource ≡ diff bytes
      → eq_ℤ (ext.rebasing.generation s.resource) c.generation ≡ true
      → (rebased : Resource B) × (reconcile ext default_name
            (record { name = name; casting = convert (some nested) })
            ctx
            s
          ≡ (returned (result, ext.new_aggregate (errors_of ext err)), state_with rebased t))
        × IsCastOf config t.resource rebased
  unfolding patched apply
  reconcile_patches kind_of config merges default_name name nested ctx c s result err t bytes
        has_config is_cast run same_kind changed made same_generation =
      let (rebased, applied, is_cast') =
        merges c t.resource s.resource bytes same_kind made is_cast in
      (
        rebased,
        reconcile-convert default_name name nested ctx config c s (result, err) t has_config is_cast
              run
            ∙ ap
                (λ (p : List Error × Resource B).
                  (returned (result, ext.new_aggregate p.0), state_with p.1 t))
                (touched (errors_of ext err) c t.resource s.resource rebased changed made
                  same_generation applied),
        is_cast',
      )
    where
      append_none : (errs : List Error) → (errs ++ []) ≡ errs
      append_none [] = refl
      append_none (e ∷ errs) = ap (λ l. e ∷ l) (append_none errs)

      touched :
          (errs : List Error) (original now : Resource C) (resource rebased : Resource B)
          → ext.semantic_equal now original ≡ false
          → ext.create_patch original now ≡ diff bytes
          → eq_ℤ (ext.rebasing.generation resource) original.generation ≡ true
          → ext.rebasing.merge_patch bytes resource ≡ (rebased, none)
          → patched ext errs original now resource ≡ (errs, rebased)
      touched errs original now resource rebased changed made same applied =
          rw (changed, patched)
            (rw made (rw same (rw applied (λ i. (append_none errs i, rebased)))))
