-- ===== src/AggregateReconciler/Tests.antt =====
-- Witnesses on the aggregate reconciler (reconcilers/aggregate.go). The body of a resource is a
-- number, 0 for one that is not created, and the cluster counts the writes.
use reconciler_runtime.Base.{ℕ, suc, String, true, false, not, none, some, [], ◌≡◌, refl, eqb}
use reconciler_runtime.Base.Int.{pos}
use reconciler_runtime.Errors.{sentinel, err_halt_sub_reconcilers, is_error}
use reconciler_runtime.Results.{Result}
use reconciler_runtime.Context.{Request, background}
use reconciler_runtime.Exec.{returned, pure}
use reconciler_runtime.Flow.{SubReconciler}
use reconciler_runtime.Flow.Finalizer
use reconciler_runtime.Flow.Finalizer.{Resource}
use reconciler_runtime.Manager
use reconciler_runtime.Manager.{diff, with_mutations}
use reconciler_runtime.ResourceReconciler.{Outside}
use reconciler_runtime.Stash.{Stashed}
use reconciler_runtime.AggregateReconciler.{External, AggregateReconciler, Held, reconcile}
use reconciler_runtime.AggregateReconciler.Unchanged.{reconcile_in_sync}

abbrev World : Type 0
World = Stashed ℕ ℕ

abbrev finalizing : Finalizer.External String ℕ World
finalizing = record {
  contains_finalizer = λ fs f. true;
  add_finalizer = λ fs f. fs;
  remove_finalizer = λ fs f. fs;
  patch = λ config current desired w. record { error = none; patched = desired; after = w };
}

abbrev counted : Resource ℕ → World → Manager.Reply (Resource ℕ) World
counted r w = record { error = none; object = r; after = record w { cluster = suc w.cluster } }

abbrev managing : Manager.External (Resource ℕ) (Resource ℕ) String ℕ World
managing = record {
  finalizing = finalizing;
  is_created = λ t. not (eqb t.body 0);
  is_terminating = λ t. false;
  uid = λ t. "uid";
  object_name = λ t. "example";
  type_name = λ t. "ℕ";
  generation = λ t. t.generation;
  semantic_equal = λ a b. eqb a.body b.body;
  create = λ config t w. counted t w;
  update = λ config t w. counted t w;
  delete = λ config t w. counted t w;
  track_object = λ config t resource w. (none, w);
  cache_get = λ w uid. none;
  cache_set = λ uid p w. w;
  create_patch = λ base update. diff update;
  merge_patch = λ bytes t. (bytes, none);
}

abbrev resource : Resource ℕ
resource = record {
  finalizers = [];
  resource_version = "1";
  generation = pos 1;
  deletion_timestamp = none;
  body = 3;
}

abbrev server : External (Resource ℕ) String ℕ ℕ ℕ
server = record {
  managing = managing;
  get = λ config req w. record { error = none; object = resource };
  named = λ req r. r;
  untracked = λ config. config;
}

abbrev in_a_minute : Result
in_a_minute = record { requeue = false; requeue_after = pos 60 }

-- A reconciler that halts.
abbrev halting : SubReconciler String (Held ℕ ℕ ℕ)
halting = record {
  setup_with_manager = λ c. pure none;
  reconcile = λ c s. (returned (in_a_minute, some (sentinel err_halt_sub_reconcilers)), s);
}

abbrev request : Request
request = record { namespace = "default"; name = "example" }

abbrev aggregate : AggregateReconciler ℕ String (Held ℕ ℕ ℕ)
aggregate = record {
  name = "Example";
  setup = none;
  request = request;
  reconciler = some halting;
  desired_resource = none;
  harmonize_immutable_fields = none;
  merge_before_update = some (λ current desired. record current { body = desired.body });
  config = "cluster";
  stamp = none;
}

abbrev outside : Outside ℕ ℕ
outside = record { events = []; world = record { stash = none; cluster = 0 } }

reconcile_in_sync_example : reconcile server "Aggregate" aggregate background 5 request outside ≡ (
  returned (in_a_minute, none),
  record { events = []; world = record { stash = some []; cluster = 0 } },
)
unfolding is_error with_mutations
reconcile_in_sync_example =
    reconcile_in_sync server "Aggregate" aggregate
      (λ current desired. record current { body = desired.body }) background 5 request resource
      resource in_a_minute (some (sentinel err_halt_sub_reconcilers)) outside
      (record { resource = resource; events = []; world = record { stash = some []; cluster = 0 } })
      (record { resource = resource; events = []; world = record { stash = some []; cluster = 0 } })
      refl refl refl refl refl refl refl refl refl refl refl refl
