-- ===== src/ChildReconciler/Methods.antt =====
-- The reconcile of a child (reconcilers/child.go).
use reconciler_runtime.Base.{
  String, Bool, true, false, not, ◌&&◌, Option, none, some, List, [], ◌∷◌, if◌then◌else◌,
}
use reconciler_runtime.Errors.{
  Error, errorf, api_status, is_error, only_reconcile_child_status, has_reason, already_exists,
  invalid,
}
use reconciler_runtime.Results.{empty_result}
use reconciler_runtime.Context.{Context, retrieve_original_config_or_die, retrieve_config_or_die}
use reconciler_runtime.Exec.{returned, M, pure, panic, call, ◌>>=◌}
use reconciler_runtime.Flow
use reconciler_runtime.Flow.{Setup, SubReconciler, name_or, run_setup, then_if_ok}
use reconciler_runtime.Flow.Finalizer.{Resource, State, is_deleting, record_event, record_failure}
use reconciler_runtime.Manager.{Managed, manage}
use reconciler_runtime.ChildReconciler.{Listed, items, list_failed, External, ChildReconciler, init}

-- `err.(apierrs.APIStatus)`, which does not look through a wrapped error
abbrev pub not_api_status : Error
not_api_status = errorf "interface conversion: error is not errors.APIStatus" []

module _ {T Bytes L Config B W : Type 0} (ext : External T Bytes L Config B W) where
  abbrev pub Reconciler : Type 0
  Reconciler = ChildReconciler T L Config B (State B W)

  unfoldable pub our_child : Reconciler → Resource B → T → Bool
  our_child r resource obj =
      if not r.skip_owner_reference && not (ext.is_controlled_by obj resource)
      then false
      else elim r.our_child [ none ↦ true | some f ↦ f resource obj ]

  unfoldable pub filter_children : Reconciler → Resource B → List T → List T
  unfolding our_child
  filter_children r resource [] = []
  filter_children r resource (child ∷ children) =
      let rest = filter_children r resource children in
      if our_child r resource child then child ∷ rest else rest

  abbrev pub list_options : Reconciler → Context Config → Resource B → L
  list_options r ctx resource = elim r.list_options [
    | none ↦ ext.in_namespace (ext.namespace resource)
    | some f ↦ f ctx resource
  ]

  -- The desired child: none while the resource is being deleted.
  unfoldable pub desired_child : Reconciler → Context Config → M (State B W) (Managed T)
  desired_child r ctx s =
      if is_deleting s then (returned (none, none), s) else call r.desired_child (λ f. f ctx) s

  -- The known children, or else those that are listed.
  abbrev pub children_of :
      Reconciler → Option (List T) → Context Config → Config → State B W → Listed T
  children_of r (some children) ctx config s = items children
  children_of r none ctx config s = ext.list config (list_options r ctx s.resource) s.world

  -- The loop that deletes every child where there are too many.
  unfoldable pub delete_extras : Config → List T → M (State B W) (Option Error)
  delete_extras config [] s = (returned none, s)
  delete_extras config (extra ∷ children) s =
      let reply = ext.managing.delete config extra s.world in
      let args = ext.child_type ∷ ext.managing.object_name extra ∷ [] in
      let s' = record s { world = reply.after } in
      elim reply.error [
        | some e ↦ (returned (some e), record_failure "DeleteFailed" args e s')
        | none ↦ delete_extras config children (
            record_event (record { warning = false; reason = "Deleted"; args = args; cause = none })
              s')
      ]

  -- The actual child, of those that are ours; more than one are all deleted.
  unfoldable pub actual_child : Config → List T → M (State B W) (Managed T)
  unfolding delete_extras
  actual_child config [] s = (returned (some ext.new_child, none), s)
  actual_child config (child ∷ []) s = (returned (some child, none), s)
  actual_child config (child ∷ other ∷ children) s =
      (delete_extras config (child ∷ other ∷ children) >>= λ err. elim err [
        | some e ↦ pure (none, some e)
        | none ↦ pure (some ext.new_child, none)
      ])
        s

  -- The desired child gets an owner, where owners are used and it has none.
  abbrev pub with_owner : Reconciler → Resource B → T → Option Error × T
  with_owner r resource desired =
      if not r.skip_owner_reference && not (ext.has_controller desired)
      then ext.set_controller_reference resource desired
      else (none, desired)

  abbrev pub manage_desired :
      Reconciler → Context Config → Option T → Option T → M (State B W) (Managed T)
  manage_desired r ctx actual desired =
      call r.stamp (λ stamp. manage ext.managing stamp ctx actual desired)

  abbrev pub bring_to :
      Reconciler → Context Config → Option T → Managed T → M (State B W) (Managed T)
  bring_to r ctx actual (desired, some e) s =
      if is_error e only_reconcile_child_status
      then (returned (actual, none), s)
      else (returned (none, some e), s)
  bring_to r ctx actual (none, none) s = manage_desired r ctx actual none s
  bring_to r ctx actual (some d, none) s =
      let (err, d') = with_owner r s.resource d in
      elim err [
        | some e ↦ (returned (none, some e), s)
        | none ↦ manage_desired r ctx actual (some d') s
      ]

  -- From the actual child on, unless finding it has failed.
  abbrev pub from_actual : Reconciler → Context Config → Managed T → M (State B W) (Managed T)
  from_actual r ctx (actual, some e) s = (returned (none, some e), s)
  from_actual r ctx (actual, none) s = (desired_child r ctx >>= bring_to r ctx actual) s

  abbrev pub from_listed :
      Reconciler → Context Config → Config → Listed T → M (State B W) (Managed T)
  from_listed r ctx config (list_failed e) s = (returned (none, some e), s)
  from_listed r ctx config (items children) s =
      (actual_child config (filter_children r s.resource children) >>= from_actual r ctx) s

  -- `reconcile`
  unfoldable pub reconcile_child :
      Reconciler → Option (List T) → Context Config → M (State B W) (Managed T)
  unfolding filter_children desired_child actual_child
  reconcile_child r known ctx = retrieve_original_config_or_die ctx >>= λ original.
      retrieve_config_or_die ctx >>= λ config.
      λ s. from_listed r ctx config (children_of r known ctx config s) s

  abbrev pub reflect :
      Reconciler → Context Config → Option T → Option Error → M (State B W) Flow.Reply
  reflect r ctx child err = call r.reflect_child_status_on_parent (λ f. f ctx child err) >>= λ _.
      pure (empty_result, none)

  abbrev pub details_name : Error → (String → M (State B W) Flow.Reply) → M (State B W) Flow.Reply
  details_name (api_status _ details) k = call details k
  details_name _ k = panic not_api_status

  -- How an error is handled, while the resource is not being deleted.
  abbrev pub handle :
      Reconciler → Context Config → Config → Option T → Error → M (State B W) Flow.Reply
  handle r ctx config child e s =
      if has_reason already_exists e
      then details_name e
          (λ name. λ t.
            if our_child r t.resource (ext.get config (ext.namespace t.resource) name t.world)
            then (returned (empty_result, some e), t)
            else reflect r ctx child (some e) t)
          s
      else if has_reason invalid e
      then reflect r ctx child (some e) s
      else (returned (empty_result, some e), s)

  abbrev pub after_child :
      Reconciler → Context Config → Config → Managed T → M (State B W) Flow.Reply
  after_child r ctx config (child, err) s =
      if is_deleting s
      then (returned (empty_result, err), s)
      else elim err [ some e ↦ handle r ctx config child e s | none ↦ reflect r ctx child none s ]

  unfoldable pub reconcile :
      String → Reconciler → Option (List T) → Context Config → M (State B W) Flow.Reply
  unfolding init our_child reconcile_child
  reconcile default_name r0 known ctx =
      let r = init default_name r0 in
      retrieve_config_or_die ctx >>= λ config.
      reconcile_child r known ctx >>= after_child r ctx config
