-- ===== src/AggregateReconciler/Unchanged.antt =====
-- When an aggregate reconciler leaves its resource alone (reconcilers/aggregate.go).
use reconciler_runtime.Base.{
  ℕ, String, true, false, not, Option, none, some, ◌≡◌, refl, ap, ◌∙◌, if◌then◌else◌, is_some,
}
use reconciler_runtime.Errors.{Error}
use reconciler_runtime.Results.{Result, empty_result}
use reconciler_runtime.Context.{Context, Request, stash_config}
use reconciler_runtime.Exec.{returned, M, call, pure, ◌>>=◌, bind_returned}
use reconciler_runtime.Flow.{Reply, name_or}
use reconciler_runtime.Flow.Finalizer.{Resource, is_deleting}
use reconciler_runtime.Manager.{manage, with_mutations}
use reconciler_runtime.Manager.Unchanged.{manage_in_sync}
use reconciler_runtime.ResourceReconciler.{Outside}
use reconciler_runtime.Stash.{with_stash}
use reconciler_runtime.AggregateReconciler.{
  External, AggregateReconciler, Held, first_init, or_default, as_it_is, empty_sequence, fails,
  fetched, same_request, desired_resource, manage_desired, after_reconciler, request_context,
  with_fetched, reconcile, reconcile_inited, new_stamp, outside_of,
}
use reconciler_runtime.AggregateReconciler.Validated.{init-first_init}

module _ {Bytes Config B V W : Type 0} (ext : External Bytes Config B V W) where
  -- What is merged into the resource that the reconciler has left, with the mutations of the server
  -- that are known for it.
  abbrev pub merged : (Resource B → Resource B → Resource B) → Resource B → Held B V W → Resource B
  merged merge desired s = merge s.resource (
      with_mutations ext.managing (ext.managing.cache_get s.world (ext.managing.uid s.resource))
        desired)

  manage_unchanged :
      (r : AggregateReconciler B Config (Held B V W)) (name : String)
      (merge : Resource B → Resource B → Resource B) (ctx : Context Config) (desired : Resource B)
      (reply : Reply) (s : Held B V W) (original config : Config)
      → r.merge_before_update ≡ some merge
      → r.harmonize_immutable_fields ≡ none
      → r.stamp ≡ some (new_stamp name r)
      → ctx.original_config ≡ some original
      → ctx.config ≡ some config
      → ext.managing.is_created s.resource ≡ true
      → ext.managing.semantic_equal (merged merge desired s) s.resource ≡ true
      → manage_desired ext r ctx reply (some desired, none) s ≡ (returned (reply.0, none), s)
  manage_unchanged r name merge ctx desired reply s original config merges mutable made has_original
        has_config created same =
      bind_returned
        (call r.stamp (λ stamp. manage ext.managing stamp ctx (some s.resource) (some desired)))
        (λ managed. elim managed.1 [
          | some e ↦ pure (empty_result, some e)
          | none ↦ pure (reply.0, none)
        ])
        s s (some s.resource, none)
        (ap
            (λ o.
              call o (λ stamp. manage ext.managing stamp ctx (some s.resource) (some desired)) s)
            made
          ∙ manage_in_sync ext.managing (new_stamp name r) merge merges refl mutable ctx original
              config has_original has_config s.resource desired s refl created same)

  unless_deleting :
      (r : AggregateReconciler B Config (Held B V W)) (ctx : Context Config) (s : Held B V W)
      → is_deleting s ≡ false
      → desired_resource ext r ctx s ≡ call r.desired_resource (λ f. f ctx s.resource) s
  unfolding desired_resource
  unless_deleting r ctx s here =
      ap
        (λ b.
          if b
          then (returned (none, none), s)
          else call r.desired_resource (λ f. f ctx s.resource) s)
        here

  continues :
      (r : AggregateReconciler B Config (Held B V W)) (ctx : Context Config) (reply : Reply)
      (s : Held B V W)
      → fails reply.1 ≡ none
      → after_reconciler ext r ctx reply s
        ≡ (desired_resource ext r (stash_config ctx (ext.untracked r.config))
              >>= manage_desired ext r (stash_config ctx (ext.untracked r.config)) reply)
            s
  continues r ctx reply s goes_on =
      let from : Option Error → M (Held B V W) Reply = λ e. elim e [
        | some e ↦ pure (reply.0, some e)
        | none ↦
            desired_resource ext r (stash_config ctx (ext.untracked r.config))
            >>= manage_desired ext r (stash_config ctx (ext.untracked r.config)) reply
      ] in
      ap (λ e. from e s) goes_on

  -- A request for the resource of a reconciler that has no HarmonizeImmutableFields and has been given
  -- no resource manager; the resource exists and is not being deleted. Where the
  -- Reconciler succeeds or halts and leaves it not being deleted, and the desired resource, merged
  -- into what it has left, changes nothing, its result is returned, and nothing is created, updated,
  -- deleted or recorded beyond what the Reconciler and DesiredResource have done. A Reconciler that
  -- is left out does nothing, and a DesiredResource that is left out desires what is there.
  pub reconcile_in_sync :
      (default_name : String) (r : AggregateReconciler B Config (Held B V W))
      (merge : Resource B → Resource B → Resource B) (ctx : Context Config) (clock : ℕ)
      (req : Request) (resource desired : Resource B) (result : Result) (err : Option Error)
      (o : Outside V W) (s t : Held B V W)
      → r.stamp ≡ none
      → r.merge_before_update ≡ some merge
      → r.harmonize_immutable_fields ≡ none
      → same_request req r.request ≡ true
      → ext.get r.config req o.world.cluster ≡ record { error = none; object = resource }
      → is_some resource.deletion_timestamp ≡ false
      → (or_default empty_sequence r.reconciler).reconcile
          (request_context ext r ctx clock req)
          (record { resource = resource; events = o.events; world = with_stash o.world })
        ≡ (returned (result, err), s)
      → fails err ≡ none
      → is_deleting s ≡ false
      → or_default as_it_is r.desired_resource
          (stash_config (request_context ext r ctx clock req) (ext.untracked r.config))
          s.resource
          s
        ≡ (returned (some desired, none), t)
      → ext.managing.is_created t.resource ≡ true
      → ext.managing.semantic_equal (merged merge desired t) t.resource ≡ true
      → reconcile ext default_name r ctx clock req o
        ≡ (returned (result, none), record { events = t.events; world = t.world })
  unfolding reconcile
  reconcile_in_sync default_name r merge ctx clock req resource desired result err o s t first
        merges mutable asked got here run goes_on here' desires created same =
      let x = first_init default_name r in
      let ctx' = request_context ext r ctx clock req in
      let ctx'' = stash_config ctx' (ext.untracked r.config) in
      let o' = record o { world = with_stash o.world } in
      let s0 : Held B V W = record {
        resource = resource;
        events = o.events;
        world = with_stash o.world;
      } in
      let desired_there : desired_resource ext x ctx'' s ≡ (returned (some desired, none), t) =
        unless_deleting x ctx'' s here' ∙ desires in
      ap (λ y. reconcile_inited ext y ctx clock req o) (init-first_init default_name r first)
      ∙ ap
          (λ b.
            if not b
            then (returned (empty_result, none), o)
            else with_fetched ext x ctx'
                (fetched ext r.request (ext.get r.config req o.world.cluster)) o')
          asked
      ∙ ap (λ read. with_fetched ext x ctx' (fetched ext r.request read) o') got
      ∙ ap outside_of (
          ap
            (λ b.
              if b
              then (returned (empty_result, none), s0)
              else (call x.reconciler (λ nested. nested.reconcile ctx')
                    >>= after_reconciler ext x ctx')
                  s0)
            here
          ∙ bind_returned (call x.reconciler (λ nested. nested.reconcile ctx'))
              (after_reconciler ext x ctx') s0 s (result, err) run
          ∙ continues x ctx' (result, err) s goes_on
          ∙ bind_returned (desired_resource ext x ctx'') (manage_desired ext x ctx'' (result, err))
              s t (some desired, none) desired_there
          ∙ manage_unchanged x (name_or r.name default_name) merge ctx'' desired (result, err) t
              r.config (ext.untracked r.config) merges mutable refl refl refl created same)
