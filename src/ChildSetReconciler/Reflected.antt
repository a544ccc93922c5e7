-- ===== src/ChildSetReconciler/Reflected.antt =====
-- What a whole set of children reflects (reconcilers/childset.go, reconcilers/child.go).
use reconciler_runtime.Base.{
  ℕ, String, Bool, true, false, Option, none, some, List, [], ◌∷◌, ◌++◌, map, is_some, ◌≡◌, refl,
  sym, ap, subst, ◌∙◌, if◌then◌else◌,
}
use reconciler_runtime.Base.Map.{Map, string_key, lookup, erase}
use reconciler_runtime.Errors.{
  Error, sentinel, max_iterations, api_status, errorf, wrapped, has_reason, already_exists, invalid,
}
use reconciler_runtime.Results.{Result, empty_result}
use reconciler_runtime.Context.{Context, config_missing}
use reconciler_runtime.Exec.{
  Outcome, returned, panicked, exhausted, M, pure, panic, call, continue, ◌>>=◌,
}
use reconciler_runtime.Flow.{Reply}
use reconciler_runtime.Flow.Sequence
use reconciler_runtime.Flow.Finalizer.{State}
use reconciler_runtime.Manager.{Managed}
use reconciler_runtime.Manager.Kept.{IsUnseen}
use reconciler_runtime.Stash.{Stashed, clear_value, retrieve_stash_map}
use reconciler_runtime.ChildReconciler
use reconciler_runtime.ChildReconciler.{ChildReconciler}
use reconciler_runtime.ChildReconciler.Methods
use reconciler_runtime.ChildReconciler.Methods.{
  reconcile_child, after_child, handle, details_name, not_api_status, our_child, reflect,
}
use reconciler_runtime.ChildReconciler.Kept.{reconcile_child-kept}
use reconciler_runtime.ChildSetReconciler.{
  PartialResult, SetResult, External, Set, Lazy, child_reconciler_for, or_empty, result_key,
  clear_child_set_result,
}
use reconciler_runtime.ChildSetReconciler.Methods.{reflect_status}
use reconciler_runtime.ChildSetReconciler.Composed.{child_for}
use reconciler_runtime.ChildSetReconciler.Collected.{
  stashing, collected, or_empty-collected, append_assoc, append_nil,
}

-- What is seen of a state: its stash, and whether the resource is being deleted.
abbrev pub seen : {B V W : Type 0} → State B (Stashed V W) → Option (Map String V) × Option ℕ
seen s = (s.world.stash, s.resource.deletion_timestamp)

abbrev pub ids_of : {T : Type 0} → SetResult T → List String
ids_of = map (λ p. p.id)

module _ {T Bytes V L Config B W : Type 0} (ext : External T Bytes V L Config B W) where
  abbrev St : Type 0
  St = State B (Stashed V W)

  -- A run that returns no error has collected the result of the child of the identifier.
  abbrev Reflected : String → Map String V → Outcome Reply × State B (Stashed V W) → Type 0
  Reflected id m (returned (result, none), t) =
      (p : PartialResult T) × (p.id ≡ id) × (seen t ≡ (some (collected ext.boxed p m), none))
  Reflected id m (returned (result, some e), t) = Unit
  Reflected id m (panicked e, t) = Unit
  Reflected id m (exhausted, t) = Unit

  -- One that has run a child reconciler for each of the identifiers has collected them all.
  abbrev ReflectedAll : List String → Map String V → Outcome Reply × State B (Stashed V W) → Type 0
  ReflectedAll ids m (returned (result, none), t) =
      (ps : SetResult T) × (m' : Map String V) × (ids_of ps ≡ ids)
      × (seen t ≡ (some m', none))
      × (or_empty ext.boxed (lookup result_key m')
          ≡ (or_empty ext.boxed (lookup result_key m) ++ ps))
  ReflectedAll ids m (returned (result, some e), t) = Unit
  ReflectedAll ids m (panicked e, t) = Unit
  ReflectedAll ids m (exhausted, t) = Unit

  if-Reflected :
      (id : String) (m : Map String V) (b : Bool) (x y : Outcome Reply × State B (Stashed V W))
      → Reflected id m x
      → Reflected id m y
      → Reflected id m (if b then x else y)
  if-Reflected id m true x y hx hy = hx
  if-Reflected id m false x y hx hy = hy

  details-Reflected :
      (id : String) (m : Map String V) (e : Error) (k : String → M (State B (Stashed V W)) Reply)
      (s : State B (Stashed V W))
      → ((name : String) → Reflected id m (k name s))
      → Reflected id m (details_name ext.child e k s)
  details-Reflected id m (api_status reason (some name)) k s h = h name
  details-Reflected id m (api_status reason none) k s h = tt
  details-Reflected id m (sentinel e) k s h = tt
  details-Reflected id m (max_iterations n) k s h = tt
  details-Reflected id m (errorf f args) k s h = tt
  details-Reflected id m (wrapped f e) k s h = tt

  module _ (r : Set T V L Config B W) (lazy : Lazy T L Config B (State B (Stashed V W)))
      (known : List T) (err : Option Error) (desired : String → Option T)
      (unseen : IsUnseen ext.child.managing seen) (no_finalizer : lazy.stamp.finalizer ≡ "") where
    -- The child reconciler of an identifier, initialized.
    abbrev child_of_id : String → ChildReconciler T L Config B (State B (Stashed V W))
    child_of_id id =
        ChildReconciler.init ext.child_name
          (record (child_reconciler_for ext.boxed r (desired id) err id false) {
            stamp = some lazy.stamp;
          })

    reflect-Reflected :
        (id : String) (m : Map String V) (ctx : Context Config) (child : Option T)
        (e : Option Error) (t : State B (Stashed V W))
        → seen t ≡ (some m, none)
        → Reflected id m (reflect ext.child (child_of_id id) ctx child e t)
    unfolding child_reconciler_for ChildReconciler.init
    reflect-Reflected id m ctx child e t see =
        subst (λ t'. Reflected id m (reflect ext.child (child_of_id id) ctx child e t'))
          (λ i. record t { world = record t.world { stash = (sym see i).0 } })
          (
            record { id = id; child = child; err = e },
            refl,
            ap
                (λ (v : Option (Map String V) × Option ℕ).
                  (some (collected ext.boxed (record { id = id; child = child; err = e }) m), v.1))
                see,
          )

    handle-Reflected :
        (id : String) (m : Map String V) (ctx : Context Config) (config : Config) (child : Option T)
        (e : Error) (t : State B (Stashed V W))
        → seen t ≡ (some m, none)
        → Reflected id m (handle ext.child (child_of_id id) ctx config child e t)
    handle-Reflected id m ctx config child e t see =
        if-Reflected id m (has_reason already_exists e) (details_name ext.child e conflict t)
          (if has_reason invalid e then reflected t else (returned (empty_result, some e), t))
          (details-Reflected id m e conflict t (λ name.
            if-Reflected id m (ours name) (returned (empty_result, some e), t) (reflected t) tt
              here))
          (if-Reflected id m (has_reason invalid e) (reflected t)
            (returned (empty_result, some e), t) here tt)
      where
        reflected : M (State B (Stashed V W)) Reply
        reflected = reflect ext.child (child_of_id id) ctx child (some e)

        here : Reflected id m (reflected t)
        here = reflect-Reflected id m ctx child (some e) t see

        ours : String → Bool
        ours name =
            our_child ext.child (child_of_id id) t.resource
              (ext.child.get config (ext.child.namespace t.resource) name t.world)

        conflict : String → M (State B (Stashed V W)) Reply
        conflict name t' =
            if our_child ext.child (child_of_id id) t'.resource
              (ext.child.get config (ext.child.namespace t'.resource) name t'.world)
            then (returned (empty_result, some e), t')
            else reflected t'

    after-Reflected :
        (id : String) (m : Map String V) (ctx : Context Config) (config : Config)
        (managed : Managed T) (t : State B (Stashed V W))
        → seen t ≡ (some m, none)
        → Reflected id m (after_child ext.child (child_of_id id) ctx config managed t)
    after-Reflected id m ctx config (child, e) t see =
        subst (λ b. Reflected id m (if b then (returned (empty_result, e), t) else by_error e))
          (sym (ap (λ (v : Option (Map String V) × Option ℕ). is_some v.1) see)) (handled e)
      where
        by_error : Option Error → Outcome Reply × State B (Stashed V W)
        by_error o = elim o [
          | some e' ↦ handle ext.child (child_of_id id) ctx config child e' t
          | none ↦ reflect ext.child (child_of_id id) ctx child none t
        ]

        handled : (o : Option Error) → Reflected id m (by_error o)
        handled none = reflect-Reflected id m ctx child none t see
        handled (some e') = handle-Reflected id m ctx config child e' t see

    -- One child: either an error is returned, or exactly one result is collected for it.
    child-Reflected :
        (id : String) (m : Map String V) (ctx : Context Config) (s : State B (Stashed V W))
        → seen s ≡ (some m, none)
        → Reflected id m ((child_for ext r lazy known err desired id).reconcile ctx s)
    unfolding Methods.reconcile child_reconciler_for
    child-Reflected id m ctx s see = with_config ctx.config
      where
        run : Outcome (Managed T) × State B (Stashed V W)
        run = reconcile_child ext.child (child_of_id id) (some known) ctx s

        unseen_run : seen run.1 ≡ seen s
        unseen_run =
            reconcile_child-kept ext.child seen unseen (child_of_id id) lazy.stamp refl no_finalizer
              (λ ctx' s'. refl) (some known) ctx s

        goes_on :
            (config : Config) (o : Outcome (Managed T) × State B (Stashed V W))
            → seen o.1 ≡ (some m, none)
            → Reflected id m (continue o.0 (after_child ext.child (child_of_id id) ctx config) o.1)
        goes_on config (returned managed, t) h = after-Reflected id m ctx config managed t h
        goes_on config (panicked e, t) h = tt
        goes_on config (exhausted, t) h = tt

        with_config :
            (o : Option Config)
            → Reflected id m (
                ((elim o as (λ x. M (State B (Stashed V W)) Config) [
                  | none ↦ panic config_missing
                  | some c ↦ pure c
                ])
                    >>= λ config.
                        reconcile_child ext.child (child_of_id id) (some known) ctx
                        >>= after_child ext.child (child_of_id id) ctx config)
                  s)
        with_config none = tt
        with_config (some config) = goes_on config run (unseen_run ∙ see)

    module _ (boxes : (x : SetResult T) → ext.boxed.unbox (ext.boxed.box x) ≡ some x) where
      all-ReflectedAll :
          (id : String) (ids : List String) (m : Map String V) (p : PartialResult T)
          (run : Outcome Reply × State B (Stashed V W))
          → p.id ≡ id
          → ReflectedAll ids (collected ext.boxed p m) run
          → ReflectedAll (id ∷ ids) m run
      all-ReflectedAll id ids m p (returned (result, none), t) same (ps, m', named, see, all) = (
        p ∷ ps,
        m',
        (λ i. same i ∷ named i),
        see,
        all
            ∙ ap (λ (l : SetResult T). l ++ ps) (or_empty-collected ext.boxed boxes p m)
            ∙ append_assoc (or_empty ext.boxed (lookup result_key m)) (p ∷ []) ps,
      )
      all-ReflectedAll id ids m p (returned (result, some e), t) same h = tt
      all-ReflectedAll id ids m p (panicked e, t) same h = tt
      all-ReflectedAll id ids m p (exhausted, t) same h = tt

      loop-ReflectedAll :
          (ids : List String) (m : Map String V) (ctx : Context Config) (aggregate : Result)
          (s : State B (Stashed V W))
          → seen s ≡ (some m, none)
          → ReflectedAll ids m
              (Sequence.loop (map (child_for ext r lazy known err desired) ids) ctx aggregate s)
      unfolding Sequence.loop
      loop-ReflectedAll [] m ctx aggregate s see =
          ([], m, refl, see, sym (append_nil (or_empty ext.boxed (lookup result_key m))))
      loop-ReflectedAll (id ∷ ids) m ctx aggregate s see =
          goes_on (λ m' aggregate' t. loop-ReflectedAll ids m' ctx aggregate' t)
            ((child_for ext r lazy known err desired id).reconcile ctx s)
            (child-Reflected id m ctx s see)
        where
          goes_on :
              ((m' : Map String V) (aggregate' : Result) (t : State B (Stashed V W))
                → seen t ≡ (some m', none)
                → ReflectedAll ids m' (
                    Sequence.loop
                      (map (child_for ext r lazy known err desired) ids)
                      ctx
                      aggregate'
                      t))
              → (run : Outcome Reply × State B (Stashed V W)) → Reflected id m run
              → ReflectedAll (id ∷ ids) m (
                  continue run.0
                    (λ reply.
                      Sequence.after_call aggregate reply
                        (Sequence.loop (map (child_for ext r lazy known err desired) ids) ctx))
                    run.1)
          goes_on rest (returned (result, none), t) (p, same, h) =
              all-ReflectedAll id ids m p _ same (rest (collected ext.boxed p m) _ t h)
          goes_on rest (returned (result, some e), t) h = tt
          goes_on rest (panicked e, t) h = tt
          goes_on rest (exhausted, t) h = tt

      reflected_status :
          (f : Context Config → List T → SetResult T → M (State B (Stashed V W)) (Unit {0}))
          (ctx : Context Config) (ps : SetResult T) (m : Map String V) (t : State B (Stashed V W))
          → r.reflect_children_status_on_parent ≡ some f
          → t.world.stash ≡ some m
          → or_empty ext.boxed (lookup result_key m) ≡ ps
          → reflect_status ext r ctx known t ≡ f ctx known ps (stashing (erase result_key m) t)
      unfolding reflect_status clear_child_set_result clear_value retrieve_stash_map
      reflected_status f ctx ps m t reflects has_stash all =
          subst
            (λ t'.
              reflect_status ext r ctx known t' ≡ f ctx known ps (stashing (erase result_key m) t'))
            (λ i. record t { world = record t.world { stash = sym has_stash i } })
            (ap
                (λ o.
                  call o (λ h. h ctx known (or_empty ext.boxed (lookup result_key m)))
                    (stashing (erase result_key m) t))
                reflects
              ∙ ap (λ x. f ctx known x (stashing (erase result_key m) t)) all)

      -- Where the sequence of the child reconcilers of a set, for any identifiers, returns no error,
      -- on a resource that is not being deleted and with nothing collected before, the results that
      -- are then handed over are one for each identifier, in their order. It is assumed that the calls
      -- on the cluster do not touch the stash or the resource's deletion timestamp, that the resource
      -- manager has no finalizer, as that of a set has none, and that a boxed result comes out of its
      -- box.
      pub reconcile-reflect_status :
          (f : Context Config → List T → SetResult T → M (State B (Stashed V W)) (Unit {0}))
          (ids : List String) (m : Map String V) (ctx : Context Config) (result : Result)
          (s t : State B (Stashed V W))
          → r.reflect_children_status_on_parent ≡ some f
          → seen s ≡ (some m, none)
          → lookup result_key m ≡ none
          → Sequence.reconcile (map (child_for ext r lazy known err desired) ids) ctx s
            ≡ (returned (result, none), t)
          → (ps : SetResult T) × (m' : Map String V) × (ids_of ps ≡ ids)
            × (reflect_status ext r ctx known t ≡ f ctx known ps (stashing m' t))
      unfolding Sequence.reconcile
      reconcile-reflect_status f ids m ctx result s t reflects see fresh run =
          let (ps, m', named, see', all) =
            subst (ReflectedAll ids m) run (loop-ReflectedAll ids m ctx empty_result s see) in
          (
            ps,
            erase result_key m',
            named,
            reflected_status f ctx ps m' t reflects
                (ap (λ (v : Option (Map String V) × Option ℕ). v.0) see')
                (all ∙ ap (λ o. or_empty ext.boxed o ++ ps) fresh),
          )
