-- ===== src/ChildReconciler/Tests.antt =====
-- Witnesses on the child reconciler (reconcilers/child.go). A child is a number, 0 for one that is
-- not created, and the world counts the calls that write.
use reconciler_runtime.Base.{
  ℕ, suc, String, Bool, true, false, not, Option, none, some, [], ◌∷◌, ◌≡◌, refl, eqb,
}
use reconciler_runtime.Base.Int.{pos}
use reconciler_runtime.Errors.{wrapped, api_status, already_exists, is_error}
use reconciler_runtime.Context.{Context, background, stash_config, stash_original_config}
use reconciler_runtime.Exec.{returned, panicked}
use reconciler_runtime.Flow.Finalizer
use reconciler_runtime.Flow.Finalizer.{State}
use reconciler_runtime.Manager
use reconciler_runtime.Manager.{ResourceManager, diff}
use reconciler_runtime.ChildReconciler.{
  items, External, ChildReconciler, init, missing, setup_with_manager,
}
use reconciler_runtime.ChildReconciler.Methods.{
  reconcile, reconcile_child, not_api_status, desired_child, filter_children, our_child,
  actual_child,
}
use reconciler_runtime.ChildReconciler.Deleting.{elsewhere, reconcile-elsewhere}
use reconciler_runtime.ChildReconciler.Tracking.{setup_without_tracking, reconcile_wrapped_conflict}

abbrev finalizing : Finalizer.External String Bool ℕ
finalizing = record {
  contains_finalizer = λ fs f. true;
  add_finalizer = λ fs f. fs;
  remove_finalizer = λ fs f. fs;
  patch = λ config current desired w. record { error = none; patched = desired; after = suc w };
}

abbrev managing : Manager.External ℕ ℕ String Bool ℕ
managing = record {
  finalizing = finalizing;
  is_created = λ t. not (eqb t 0);
  is_terminating = λ t. false;
  uid = λ t. "uid";
  object_name = λ t. "number";
  type_name = λ t. "ℕ";
  generation = λ t. pos 0;
  semantic_equal = eqb;
  create = λ config t w. record { error = none; object = t; after = suc w };
  update = λ config t w. record { error = none; object = t; after = suc w };
  delete = λ config t w. record { error = none; object = t; after = suc w };
  track_object = λ config t resource w. (none, w);
  cache_get = λ w uid. none;
  cache_set = λ uid p w. w;
  create_patch = λ base update. diff update;
  merge_patch = λ bytes t. (bytes, none);
}

-- Two children, both of the resource.
abbrev numbers : External ℕ ℕ String String Bool ℕ
numbers = record {
  managing = managing;
  new_child = 0;
  child_type = "ℕ";
  list = λ config options w. items (3 ∷ 4 ∷ []);
  get = λ config namespace name w. 3;
  namespace = λ resource. "default";
  in_namespace = λ namespace. namespace;
  is_controlled_by = λ t resource. true;
  has_controller = λ t. true;
  set_controller_reference = λ resource t. (none, t);
}

abbrev failing_create : String → ℕ → ℕ → Manager.Reply ℕ ℕ
failing_create config t w = record {
  error = some (api_status already_exists (some "number"));
  object = t;
  after = w;
}

abbrev one_child : ChildReconciler ℕ String String Bool (State Bool ℕ)
one_child = record {
  name = "";
  finalizer = "";
  skip_owner_reference = false;
  setup = none;
  desired_child = some (λ ctx s. (returned (some 5, none), s));
  reflect_child_status_on_parent = some (λ ctx child err s. (returned tt, s));
  harmonize_immutable_fields = none;
  merge_before_update = some (λ current desired. desired);
  list_options = none;
  our_child = none;
  stamp = none;
}

abbrev ctx : Context String
ctx = stash_config (stash_original_config background "original") "config"

abbrev state : Option ℕ → State Bool ℕ
state deletion = record {
  resource = record {
    finalizers = [];
    resource_version = "1";
    generation = pos 1;
    deletion_timestamp = deletion;
    body = true;
  };
  events = [];
  world = 0;
}

reconcile-elsewhere_example :
    reconcile numbers "Child" one_child none ctx (state (some 1))
    ≡ reconcile
        (elsewhere numbers failing_create failing_create)
        "Child"
        one_child
        none
        ctx
        (state (some 1))
reconcile-elsewhere_example =
    reconcile-elsewhere numbers failing_create failing_create "Child" one_child none ctx
      (state (some 1)) refl

-- A child reconciler with a finalizer.
abbrev held : ChildReconciler ℕ String String Bool (State Bool ℕ)
held = record one_child {
  finalizer = "example.com/held";
  list_options = some (λ ctx resource. "everywhere");
  our_child = some (λ resource child. true);
  setup = some (λ ctx s. (returned none, record s { world = 5 }));
}

setup_without_tracking_example :
    (r' : ChildReconciler ℕ String String Bool (State Bool ℕ)) × (stamp : ResourceManager ℕ)
    × (setup_with_manager "Child"
          (λ s. record s { world = 1 })
          (λ s. record s { world = 2 })
          held
          ctx
          (state none)
        ≡ (returned (r', none), record (state none) { world = 5 }))
    × (r'.skip_owner_reference ≡ true)
    × (r'.stamp ≡ some stamp)
    × (stamp.finalizer ≡ "example.com/held")
    × (stamp.track_desired ≡ false)
unfolding missing init
setup_without_tracking_example =
    setup_without_tracking "Child" (λ s. record s { world = 1 }) (λ s. record s { world = 2 }) held
      ctx "config" (state none) (record (state none) { world = 5 }) refl refl refl refl refl refl

-- `DesiredChild` wraps the error of a call that it has made.
abbrev conflicting : ChildReconciler ℕ String String Bool (State Bool ℕ)
conflicting = record one_child {
  desired_child = some (λ ctx s. (
    returned (none, some (wrapped "unable to make it" (api_status already_exists (some "number")))),
    s,
  ));
}

reconcile_wrapped_conflict_example :
    reconcile numbers "Child" conflicting (some (3 ∷ [])) ctx (state none)
    ≡ (panicked not_api_status, state none)
unfolding reconcile_child desired_child filter_children our_child actual_child init is_error
reconcile_wrapped_conflict_example =
    reconcile_wrapped_conflict numbers "Child" conflicting (some (3 ∷ [])) ctx "config" none
      "unable to make it" (some "number") (state none) (state none) refl refl refl
