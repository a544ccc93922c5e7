-- ===== src/ChildSetReconciler/Methods.antt =====
-- The reconcile of a set of children (reconcilers/childset.go).
use reconciler_runtime.Base.{
  String, false, not, Option, none, some, List, [], ◌∷◌, ◌==◌, if◌then◌else◌,
}
use reconciler_runtime.Base.Map.{Map, string_key, lookup, insert, has, add}
use reconciler_runtime.Errors.{Error, errorf, is_error, only_reconcile_child_status}
use reconciler_runtime.Results.{empty_result}
use reconciler_runtime.Context.{Context, retrieve_config_or_die}
use reconciler_runtime.Exec.{Or, ok, failed, and_then, returned, M, pure, call, ◌>>=◌}
use reconciler_runtime.Flow
use reconciler_runtime.Flow.{SubReconciler}
use reconciler_runtime.Flow.Sequence
use reconciler_runtime.Flow.Sequence.{Sequence}
use reconciler_runtime.Flow.Finalizer
use reconciler_runtime.Flow.Finalizer.{Resource, State}
use reconciler_runtime.Stash.{Stashed}
use reconciler_runtime.ChildReconciler
use reconciler_runtime.ChildReconciler.{
  Listed, items, list_failed, ChildReconciler, set_resource_manager,
}
use reconciler_runtime.ChildReconciler.Methods
use reconciler_runtime.ChildReconciler.Methods.{filter_children, list_options}
use reconciler_runtime.ChildSetReconciler.{
  External, Set, init, child_reconciler_for, clear_child_set_result,
}

abbrev pub empty_id : Error
empty_id = errorf "desired child id may not be empty" []

abbrev pub duplicate_id : String → Error
duplicate_id id = errorf "duplicate child id found: %s" (id ∷ [])

-- The identifiers so far, and the desired child of each.
pub record Claims (T : Type 0) : Type 0 where
  pub ids : List String
  pub by_id : Map String T

abbrev pub no_claims : {T : Type 0} → Claims T
no_claims = record { ids = []; by_id = [] }

abbrev pub claimed : {T : Type 0} → String → T → Claims T → Claims T
claimed id child c = record { ids = add id c.ids; by_id = insert id child c.by_id }

abbrev pub claim : {T : Type 0} → String → T → Claims T → Or (Claims T)
claim id child c =
    if id == ""
    then failed empty_id
    else if has id c.ids
    then failed (duplicate_id id)
    else ok (claimed id child c)

module _ {T S : Type 0} where
  -- The loop over the desired children,
  unfoldable pub claim_desired : Option (T → String) → List T → Claims T → M S (Or (Claims T))
  claim_desired identify [] c s = (returned (ok c), s)
  claim_desired identify (child ∷ children) c s =
      (call identify (λ f. pure (claim (f child) child c))
          >>= and_then (claim_desired identify children))
        s

  -- and over those that are known.
  unfoldable pub claim_known : Option (T → String) → List T → Claims T → M S (Claims T)
  claim_known identify [] c s = (returned c, s)
  claim_known identify (child ∷ children) c s =
      (call identify (λ f. pure (record c { ids = add (f child) c.ids }))
          >>= claim_known identify children)
        s

-- An error of `DesiredChildren` ends it, unless it only asks to leave the children alone.
abbrev pub stops : Option Error → Option Error
stops none = none
stops (some e) = if is_error e only_reconcile_child_status then none else some e

module _ {T Bytes V L Config B W : Type 0} (ext : External T Bytes V L Config B W) where
  -- The children that are ours, of those listed.
  unfoldable pub known_children :
      Set T V L Config B W → Context Config → M (State B (Stashed V W)) (Or (List T))
  unfolding filter_children
  known_children r ctx = retrieve_config_or_die ctx >>= λ config. call r.lazy_init (λ lazy. λ s.
      let void = lazy.void_reconciler in
      elim (ext.child.list config (list_options ext.child void ctx s.resource) s.world) [
        | list_failed e ↦ (returned (failed e), s)
        | items children ↦ (returned (ok (filter_children ext.child void s.resource children)), s)
      ])

  -- A child reconciler, that finds the known children in the context.
  abbrev pub as_sub :
      List T
      → ChildReconciler T L Config B (State B (Stashed V W))
      → SubReconciler Config (State B (Stashed V W))
  as_sub known cr = record {
    setup_with_manager = λ ctx.
        ChildReconciler.setup_with_manager ext.child_name ext.watches ext.owns cr ctx >>= λ done.
        pure done.1;
    reconcile = λ ctx. Methods.reconcile ext.child ext.child_name cr (some known) ctx;
  }

  abbrev pub sequence_as_sub :
      Sequence Config (State B (Stashed V W)) → SubReconciler Config (State B (Stashed V W))
  sequence_as_sub sequence = record {
    setup_with_manager = Sequence.setup_with_manager sequence;
    reconcile = Sequence.reconcile sequence;
  }

  abbrev pub finalizer_as_sub :
      Finalizer.WithFinalizer Config (State B (Stashed V W))
      → SubReconciler Config (State B (Stashed V W))
  finalizer_as_sub r = record {
    setup_with_manager = Finalizer.setup_with_manager r;
    reconcile = Finalizer.reconcile ext.finalizing r;
  }

  -- The child reconciler of an identifier, given the resource manager of the set.
  abbrev pub managed_child :
      Set T V L Config B W
      → Option Error
      → Claims T
      → String
      → M (State B (Stashed V W)) (ChildReconciler T L Config B (State B (Stashed V W)))
  managed_child r err c id = call r.lazy_init (λ lazy.
      set_resource_manager lazy.stamp
        (child_reconciler_for ext.boxed r (lookup id c.by_id) err id false))

  -- The loop over the identifiers.
  unfoldable pub child_sequence :
      Set T V L Config B W
      → List T
      → Option Error
      → Claims T
      → List String
      → M (State B (Stashed V W)) (Sequence Config (State B (Stashed V W)))
  unfolding child_reconciler_for set_resource_manager
  child_sequence r known err c [] = pure []
  child_sequence r known err c (id ∷ ids) = managed_child r err c id >>= λ cr.
      child_sequence r known err c ids >>= λ rest. pure (as_sub known cr ∷ rest)

  -- With a finalizer the sequence runs within it.
  abbrev pub finalized :
      Set T V L Config B W
      → Sequence Config (State B (Stashed V W))
      → SubReconciler Config (State B (Stashed V W))
  finalized r sequence =
      if not (r.finalizer == "")
      then finalizer_as_sub (record {
        name = "";
        finalizer = r.finalizer;
        reconciler = some (sequence_as_sub sequence);
      })
      else sequence_as_sub sequence

  abbrev pub for_claims :
      Set T V L Config B W
      → List T
      → Option Error
      → Claims T
      → M (State B (Stashed V W)) (Or (SubReconciler Config (State B (Stashed V W))))
  for_claims r known err c = claim_known r.identify_child known c >>= λ c'.
      child_sequence r known err c' (ext.sort c'.ids) >>= λ sequence.
      pure (ok (finalized r sequence))

  abbrev pub compose_desired :
      Set T V L Config B W
      → List T
      → List T × Option Error
      → M (State B (Stashed V W)) (Or (SubReconciler Config (State B (Stashed V W))))
  compose_desired r known (desired, err) s = elim (stops err) [
    | some e ↦ (returned (failed e), s)
    | none ↦
        (claim_desired r.identify_child desired no_claims >>= and_then (for_claims r known err)) s
  ]

  unfoldable pub compose_child_reconcilers :
      Set T V L Config B W
      → Context Config
      → List T
      → M (State B (Stashed V W)) (Or (SubReconciler Config (State B (Stashed V W))))
  unfolding claim_desired claim_known child_sequence Finalizer.setup_with_manager
      Finalizer.reconcile Sequence.setup_with_manager Sequence.reconcile
  compose_child_reconcilers r ctx known =
      call r.desired_children (λ f. f ctx known) >>= compose_desired r known

  unfoldable pub reflect_status :
      Set T V L Config B W → Context Config → List T → M (State B (Stashed V W)) (Unit {0})
  unfolding clear_child_set_result
  reflect_status r ctx known = clear_child_set_result ext.boxed >>= λ result.
      call r.reflect_children_status_on_parent (λ f. f ctx known result)

  abbrev pub run_composed :
      Set T V L Config B W
      → Context Config
      → List T
      → Or (SubReconciler Config (State B (Stashed V W)))
      → M (State B (Stashed V W)) Flow.Reply
  run_composed r ctx known (failed e) s = (returned (empty_result, some e), s)
  run_composed r ctx known (ok cr) s =
      (cr.reconcile ctx >>= λ reply. reflect_status r ctx known >>= λ _. pure reply) s

  abbrev pub with_known :
      Set T V L Config B W → Context Config → Or (List T) → M (State B (Stashed V W)) Flow.Reply
  with_known r ctx (failed e) s = (returned (empty_result, some e), s)
  with_known r ctx (ok known) s =
      (compose_child_reconcilers r ctx known >>= run_composed r ctx known) s

  unfoldable pub reconcile :
      String → Set T V L Config B W → Context Config → M (State B (Stashed V W)) Flow.Reply
  unfolding init known_children compose_child_reconcilers reflect_status
  reconcile default_name r0 ctx =
      let r = init ext.boxed default_name r0 in known_children r ctx >>= with_known r ctx
