-- ===== src/ChildSetReconciler/Tests.antt =====
-- Witnesses on the child set reconciler (reconcilers/childset.go). A child is its identifier, and the
-- world counts the calls that write.
mod Sorting
use reconciler_runtime.Base.{
  ℕ, suc, String, Bool, true, false, not, ◌==◌, ◌||◌, ◌⊎◌, Option, none, some, List, [], ◌∷◌, ◌++◌,
  map, ◌≡◌, refl,
}
use reconciler_runtime.Base.Int.{pos}
use reconciler_runtime.Base.Map.{Map, string_key, has, lookup}
use reconciler_runtime.Errors.{Error}
use reconciler_runtime.Context.{Context, background, stash_config, stash_original_config}
use reconciler_runtime.Exec.{ok, failed, Outcome, returned, ◌>>=◌}
use reconciler_runtime.Flow.Finalizer
use reconciler_runtime.Flow.Finalizer.{State}
use reconciler_runtime.Stash.{Stashed}
use reconciler_runtime.Flow.{Reply}
use reconciler_runtime.Flow.Sequence
use reconciler_runtime.Results.{empty_result, aggregate_results}
use reconciler_runtime.ChildReconciler.Methods
use reconciler_runtime.Manager
use reconciler_runtime.Manager.Kept.{IsUnseen}
use reconciler_runtime.ChildSetReconciler.Reflected.{seen, ids_of, reconcile-reflect_status}
use reconciler_runtime.Manager.{ResourceManager, diff}
use reconciler_runtime.ChildReconciler
use reconciler_runtime.ChildReconciler.{items}
use reconciler_runtime.ChildSetReconciler.{
  PartialResult, SetResult, Boxed, External, Set, Lazy, result_key, child_reconciler_for,
}
use reconciler_runtime.ChildSetReconciler.Methods.{
  compose_child_reconcilers, finalized, reflect_status, empty_id, duplicate_id,
}
use reconciler_runtime.ChildSetReconciler.Identified.{child_of, identified, FailsFor}
use reconciler_runtime.ChildSetReconciler.Composed.{
  IsAscending, child_for, compose-children, compose-refused,
}
use reconciler_runtime.ChildSetReconciler.Collected.{stashing}
use reconciler_runtime.ChildSetReconciler.Tests.Sorting.{sort_strings, sort_strings-IsSort}

abbrev Results : Type 0
Results = SetResult String

abbrev boxed : Boxed String Results
boxed = record { box = λ r. r; unbox = λ v. some v }

abbrev finalizing : Finalizer.External String Bool (Stashed Results ℕ)
finalizing = record {
  contains_finalizer = λ fs f. true;
  add_finalizer = λ fs f. fs;
  remove_finalizer = λ fs f. fs;
  patch = λ config current desired w. record { error = none; patched = desired; after = w };
}

abbrev managing : Manager.External String String String Bool (Stashed Results ℕ)
managing = record {
  finalizing = finalizing;
  is_created = λ t. not (t == "");
  is_terminating = λ t. false;
  uid = λ t. t;
  object_name = λ t. t;
  type_name = λ t. "Child";
  generation = λ t. pos 0;
  semantic_equal = λ a b. a == b;
  create = λ config t w. record {
    error = none;
    object = t;
    after = record w { cluster = suc w.cluster };
  };
  update = λ config t w. record {
    error = none;
    object = t;
    after = record w { cluster = suc w.cluster };
  };
  delete = λ config t w. record {
    error = none;
    object = t;
    after = record w { cluster = suc w.cluster };
  };
  track_object = λ config t resource w. (none, w);
  cache_get = λ w uid. none;
  cache_set = λ uid p w. w;
  create_patch = λ base update. diff update;
  merge_patch = λ bytes t. (bytes, none);
}

-- Two children, which the resource does not control.
abbrev listing : ChildReconciler.External String String String String Bool (Stashed Results ℕ)
listing = record {
  managing = managing;
  new_child = "";
  child_type = "Child";
  list = λ config options w. items ("blue" ∷ "green" ∷ []);
  get = λ config namespace name w. name;
  namespace = λ resource. "default";
  in_namespace = λ namespace. namespace;
  is_controlled_by = λ t resource. false;
  has_controller = λ t. false;
  set_controller_reference = λ resource t. (none, t);
}

abbrev strings : External String String Results String String Bool ℕ
strings = record {
  child = listing;
  finalizing = finalizing;
  boxed = boxed;
  sort = sort_strings;
  watches = λ s. s;
  owns = λ s. s;
  child_name = "ChildReconciler";
}

abbrev ctx : Context String
ctx = stash_config (stash_original_config background "original") "config"

abbrev state : State Bool (Stashed Results ℕ)
state = record {
  resource = record {
    finalizers = [];
    resource_version = "1";
    generation = pos 1;
    deletion_timestamp = none;
    body = true;
  };
  events = [];
  world = record { stash = some []; cluster = 0 };
}

-- A set that wants the given children.
abbrev wanting : List String → Set String Results String String Bool ℕ
wanting desired = record {
  name = "";
  finalizer = "example.com/held";
  skip_owner_reference = false;
  setup = none;
  desired_children = some (λ ctx known s. (returned (desired, none), s));
  reflect_children_status_on_parent = some (λ ctx known result s. (returned tt, s));
  harmonize_immutable_fields = none;
  merge_before_update = some (λ current desired. desired);
  list_options = some (λ ctx resource. "everywhere");
  our_child = some (λ resource child. true);
  identify_child = some (λ child. child);
  lazy_init = none;
}

abbrev lazy : Lazy String String String Bool (State Bool (Stashed Results ℕ))
lazy = record {
  stamp = record {
    name = "";
    finalizer = "";
    track_desired = false;
    harmonize_immutable_fields = none;
    merge_before_update = some (λ current desired. desired);
  };
  void_reconciler = child_reconciler_for boxed (wanting []) none none "" true;
}

abbrev made : List String → Set String Results String String Bool ℕ
made desired = record (wanting desired) { lazy_init = some lazy }

compose-children_example :
    (ids : List String) × IsAscending ids
    × ((j : String) → has j ids ≡ (has j ("red" ∷ "blue" ∷ []) || has j ("blue" ∷ "green" ∷ [])))
    × (compose_child_reconcilers strings
          (made ("red" ∷ "blue" ∷ []))
          ctx
          ("blue" ∷ "green" ∷ [])
          state
        ≡ (
          returned (
              ok (
                finalized strings (made ("red" ∷ "blue" ∷ [])) (
                  map
                    (child_for strings
                      (made ("red" ∷ "blue" ∷ []))
                      lazy
                      ("blue" ∷ "green" ∷ [])
                      none
                      (λ j. child_of (λ child. child) j ("red" ∷ "blue" ∷ [])))
                    ids))),
          state,
        ))
compose-children_example =
    compose-children strings sort_strings-IsSort (made ("red" ∷ "blue" ∷ [])) lazy
      (λ ctx known s. (returned ("red" ∷ "blue" ∷ [], none), s)) (λ child. child) ctx
      ("blue" ∷ "green" ∷ []) ("red" ∷ "blue" ∷ []) none state state refl refl refl refl refl refl

compose-refused_example :
    (e : Error) × (compose_child_reconcilers strings (made ("red" ∷ "red" ∷ [])) ctx [] state
      ≡ (returned (failed e), state))
    × (before : List String) × (child : String) × (rest : List String) × (("red" ∷ "red" ∷ [])
        ≡ before ++ child ∷ rest)
    × (identified (λ id. id) before ≡ true)
    × FailsFor (λ id. id) [] before child e
compose-refused_example =
    compose-refused strings (made ("red" ∷ "red" ∷ []))
      (λ ctx known s. (returned ("red" ∷ "red" ∷ [], none), s)) (λ child. child) ctx []
      ("red" ∷ "red" ∷ []) none state state refl refl refl refl refl

unseen : IsUnseen managing (seen {B = Bool} {V = Results} {W = ℕ})
unseen = record {
  event = λ e s. refl;
  create = λ config t s. refl;
  update = λ config t s. refl;
  delete = λ config t s. refl;
  tracked = λ config t s. refl;
  cached = λ uid p s. refl;
}

abbrev wanted : String → Option String
wanted j = child_of (λ child. child) j ("red" ∷ "blue" ∷ [])

-- Two identifiers, of which the children are made.
abbrev children_made : Outcome Reply × State Bool (Stashed Results ℕ)
children_made =
    Sequence.reconcile (map (child_for strings (made []) lazy [] none wanted) ("blue" ∷ "red" ∷ []))
      ctx state

reconcile-reflect_status_example :
    (ps : Results) × (m' : Map String Results) × (ids_of ps ≡ "blue" ∷ "red" ∷ [])
    × (reflect_status strings (made []) ctx [] children_made.1
        ≡ (returned tt, stashing m' children_made.1))
unfolding Sequence.reconcile Sequence.loop Methods.reconcile child_reconciler_for Manager.manage
    Finalizer.ensure_finalizer aggregate_results
reconcile-reflect_status_example =
    reconcile-reflect_status strings (made []) lazy [] none wanted unseen refl (λ x. refl)
      (λ ctx known result s. (returned tt, s)) ("blue" ∷ "red" ∷ []) [] ctx empty_result state
      children_made.1 refl refl refl refl
