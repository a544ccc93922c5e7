-- ===== src/ChildReconciler/Deleting.antt =====
-- A child reconciler while its resource is being deleted (reconcilers/child.go).
use reconciler_runtime.Base.{
  String, true, Option, none, some, List, [], ◌∷◌, ◌≡◌, refl, ap, ◌∙◌, Option-cases, inl, inr,
  is_some,
}
use reconciler_runtime.Errors.{Error}
use reconciler_runtime.Context.{Context, retrieve_original_some, retrieve_config_some}
use reconciler_runtime.Exec.{Outcome, returned, panicked, exhausted, continue}
use reconciler_runtime.Flow.Finalizer.{Resource, State, is_deleting}
use reconciler_runtime.Flow.Finalizer.Patching.{failure_keeps_resource}
use reconciler_runtime.Manager
use reconciler_runtime.Manager.{ResourceManager, Managed, manage, delete_unwanted}
use reconciler_runtime.ChildReconciler.{Listed, items, list_failed, External, init}
use reconciler_runtime.ChildReconciler.Methods.{
  Reconciler, our_child, filter_children, delete_extras, actual_child, desired_child, from_actual,
  from_listed, reconcile_child, reconcile, children_of,
}

module _ {T Bytes L Config B W : Type 0} (ext : External T Bytes L Config B W)
    (create update : Config → T → W → Manager.Reply T W) where
  -- The same surroundings, but for what a create and an update do.
  abbrev pub elsewhere : External T Bytes L Config B W
  elsewhere = record ext { managing = record ext.managing { create = create; update = update } }

  filter-elsewhere :
      (r : Reconciler ext) (resource : Resource B) (children : List T)
      → filter_children ext r resource children ≡ filter_children elsewhere r resource children
  unfolding filter_children our_child
  filter-elsewhere r resource [] = refl
  filter-elsewhere r resource (child ∷ children) = rw (filter-elsewhere r resource children) refl

  extras-elsewhere :
      (config : Config) (children : List T) (s : State B W)
      → delete_extras ext config children s ≡ delete_extras elsewhere config children s
  unfolding delete_extras
  extras-elsewhere config [] s = refl
  extras-elsewhere config (child ∷ children) s =
      elim (Option-cases (ext.managing.delete config child s.world).error) [
        | inl ok ↦ rw (ok, delete_extras) (extras-elsewhere config children _)
        | inr (e, failed) ↦ rw (failed, delete_extras) refl
      ]

  extras-resource :
      (config : Config) (children : List T) (s : State B W)
      → (delete_extras ext config children s).1.resource ≡ s.resource
  unfolding delete_extras
  extras-resource config [] s = refl
  extras-resource config (child ∷ children) s =
      elim (Option-cases (ext.managing.delete config child s.world).error) [
        | inl ok ↦ rw (ok, delete_extras) (extras-resource config children _)
        | inr (e, failed) ↦ rw (failed, delete_extras) (failure_keeps_resource _ _ _ _)
      ]

  actual-elsewhere :
      (config : Config) (children : List T) (s : State B W)
      → actual_child ext config children s ≡ actual_child elsewhere config children s
  unfolding actual_child
  actual-elsewhere config [] s = refl
  actual-elsewhere config (child ∷ []) s = refl
  actual-elsewhere config (child ∷ other ∷ children) s =
      rw (extras-elsewhere config (child ∷ other ∷ children) s) refl

  actual-resource :
      (config : Config) (children : List T) (s : State B W)
      → (actual_child ext config children s).1.resource ≡ s.resource
  unfolding actual_child
  actual-resource config [] s = refl
  actual-resource config (child ∷ []) s = refl
  actual-resource config (child ∷ other ∷ children) s =
      after (delete_extras ext config (child ∷ other ∷ children) s)
        (extras-resource config (child ∷ other ∷ children) s)
    where
      after :
          (run : Outcome (Option Error) × State B W)
          → run.1.resource ≡ s.resource
          → (continue {S = State B W} {B = Managed T} run.0
              (λ err. elim err [
                | some e ↦ λ t. (returned (none, some e), t)
                | none ↦ λ t. (returned (some ext.new_child, none), t)
              ])
              run.1).1.resource
            ≡ s.resource
      after (returned none, t) h = h
      after (returned (some e), t) h = h
      after (panicked e, t) h = h
      after (exhausted, t) h = h

  -- With no child desired neither a create nor an update is made.
  managed-elsewhere :
      (stamp : ResourceManager T) (ctx : Context Config) (actual : Option T) (s : State B W)
      → manage ext.managing stamp ctx actual none s
        ≡ manage elsewhere.managing stamp ctx actual none s
  unfolding manage delete_unwanted
  managed-elsewhere stamp ctx none s = refl
  managed-elsewhere stamp ctx (some actual) s = refl

  from_actual-elsewhere :
      (r : Reconciler ext) (ctx : Context Config) (run : Outcome (Managed T) × State B W)
      → is_deleting run.1 ≡ true
      → continue run.0 (from_actual ext r ctx) run.1
        ≡ continue run.0 (from_actual elsewhere r ctx) run.1
  unfolding desired_child
  from_actual-elsewhere r ctx (panicked e, s) d = refl
  from_actual-elsewhere r ctx (exhausted, s) d = refl
  from_actual-elsewhere r ctx (returned (actual, some e), s) d = refl
  from_actual-elsewhere r ctx (returned (actual, none), s) d = elim (Option-cases r.stamp) [
    | inl e ↦ rw (d, desired_child) (rw e refl)
    | inr (stamp, e) ↦ rw (d, desired_child) (rw e (managed-elsewhere stamp ctx actual s))
  ]

  from_listed-elsewhere :
      (r : Reconciler ext) (ctx : Context Config) (config : Config) (listed : Listed T)
      (s : State B W)
      → is_deleting s ≡ true
      → from_listed ext r ctx config listed s ≡ from_listed elsewhere r ctx config listed s
  from_listed-elsewhere r ctx config (list_failed e) s d = refl
  from_listed-elsewhere r ctx config (items children) s d =
      let ours = filter_children ext r s.resource children in
      from_actual-elsewhere r ctx (actual_child ext config ours s)
        (ap (λ (x : Resource B). is_some x.deletion_timestamp) (actual-resource config ours s) ∙ d)
      ∙ rw (actual-elsewhere config ours s) (rw (filter-elsewhere r s.resource children) refl)

  reconcile_child-elsewhere :
      (r : Reconciler ext) (known : Option (List T)) (ctx : Context Config) (s : State B W)
      → is_deleting s ≡ true
      → reconcile_child ext r known ctx s ≡ reconcile_child elsewhere r known ctx s
  unfolding reconcile_child
  reconcile_child-elsewhere r known ctx s d = elim (Option-cases ctx.original_config) [
    | inl q ↦ rw (q, reconcile_child) refl
    | inr (original, q) ↦ elim (Option-cases ctx.config) [
      | inl q' ↦ rw (q, reconcile_child) (rw q' refl)
      | inr (config, q') ↦
          rw (retrieve_original_some ctx original s q, reconcile_child)
            (rw (retrieve_config_some ctx config s q')
              (from_listed-elsewhere r ctx config (children_of ext r known ctx config s) s d))
    ]
  ]

  -- While its resource is being deleted, a child reconciler neither creates a child nor updates one:
  -- whatever a create and an update would do, the outcome, the resource, the events and the cluster
  -- are the same.
  pub reconcile-elsewhere :
      (default_name : String) (r : Reconciler ext) (known : Option (List T)) (ctx : Context Config)
      (s : State B W)
      → is_deleting s ≡ true
      → reconcile ext default_name r known ctx s ≡ reconcile elsewhere default_name r known ctx s
  unfolding reconcile reconcile_child our_child
  reconcile-elsewhere default_name r known ctx s d = elim (Option-cases ctx.config) [
    | inl q ↦ rw (q, reconcile) refl
    | inr (config, q) ↦
        rw (retrieve_config_some ctx config s q, reconcile)
          (rw (reconcile_child-elsewhere (init default_name r) known ctx s d) refl)
  ]
