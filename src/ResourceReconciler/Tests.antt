-- ===== src/ResourceReconciler/Tests.antt =====
-- Witnesses on the resource reconciler (reconcilers/resource.go). The world counts the writes.
use reconciler_runtime.Base.{
  ℕ, suc, String, Bool, true, false, ◌&&◌, none, some, List, [], ◌∷◌, ◌≡◌, refl, eqb, arith,
}
use reconciler_runtime.Base.Int.{pos}
use reconciler_runtime.Errors.{wrapped, sentinel, err_halt_sub_reconcilers, is_error}
use reconciler_runtime.Results.{Result}
use reconciler_runtime.Context.{Request, background}
use reconciler_runtime.Exec.{returned, pure}
use reconciler_runtime.Flow.{SubReconciler}
use reconciler_runtime.Flow.Finalizer.{Resource}
use reconciler_runtime.Conditions.{Condition, find_condition}
use reconciler_runtime.Conditions.Setting.{Agrees}
use reconciler_runtime.ResourceReconciler.{
  StatusFields, Status, no_status, content, struct, Body, no_method, External, found,
  ResourceReconciler, Outside, St, conditions, with_conditions, with_status, reconcile,
  reconcile_tree, sync_last_transition_time,
}
use reconciler_runtime.ResourceReconciler.Times.{nil, cons, find-sync_last_transition_time}
use reconciler_runtime.ResourceReconciler.Quiet.{reconcile_unchanged, reconcile_halted}

abbrev ready_at : ℕ → Condition
ready_at t = record {
  type = "Ready";
  status = "True";
  reason = "Ready";
  message = "";
  observed_generation = 1;
  last_transition_time = t;
}

abbrev fields_at : ℕ → StatusFields ℕ
fields_at t = record {
  observed_generation = some (pos 1);
  conditions = some (ready_at t ∷ []);
  others = 7;
}

abbrev same_times : List Condition → List Condition → Bool
same_times [] [] = true
same_times (c ∷ cs) (d ∷ ds) = eqb c.last_transition_time d.last_transition_time && same_times cs ds
same_times _ _ = false

abbrev same_status : Status ℕ → Status ℕ → Bool
same_status no_status no_status = true
same_status (content x) (content y) = eqb x y
same_status (struct f) (struct g) =
    eqb f.others g.others && same_times (conditions (struct f)) (conditions (struct g))
same_status _ _ = false

same_times_refl : (cs : List Condition) → same_times cs cs ≡ true
same_times_refl [] = refl
same_times_refl (c ∷ cs) = ground (arith, same_times_refl cs)

same_status_refl : (x : Status ℕ) → same_status x x ≡ true
same_status_refl no_status = refl
same_status_refl (content x) = ground arith
same_status_refl (struct f) = ground (arith, same_times_refl (conditions (struct f)))

abbrev resource_at : ℕ → Resource (Body ℕ Bool)
resource_at t = record {
  finalizers = [];
  resource_version = "1";
  generation = pos 1;
  deletion_timestamp = none;
  body = record { status = struct (fields_at t); rest = true };
}

abbrev server : External String ℕ Bool ℕ
server = record {
  get = λ config req w. found (resource_at 4);
  default = none;
  initialize = no_method;
  is_duck = λ r. false;
  semantic_equal = same_status;
  update_status = λ config r w. record { error = none; patched = r; after = suc w };
  patch_status = λ config original r w. record { error = none; patched = r; after = suc w };
}

abbrev in_a_minute : Result
in_a_minute = record { requeue = false; requeue_after = pos 60 }

-- A tree that sets the condition anew, at another time.
abbrev touching : SubReconciler String (St ℕ ℕ ℕ Bool)
touching = record {
  setup_with_manager = λ c. pure none;
  reconcile = λ c s. (
    returned (in_a_minute, none),
    record s { resource = with_status (with_conditions (ready_at 9 ∷ [])) s.resource },
  );
}

abbrev halting : SubReconciler String (St ℕ ℕ ℕ Bool)
halting = record {
  setup_with_manager = λ c. pure none;
  reconcile =
      λ c s. (returned (in_a_minute, some (wrapped "stop" (sentinel err_halt_sub_reconcilers))), s);
}

abbrev leaving : SubReconciler String (St ℕ ℕ ℕ Bool)
leaving = record {
  setup_with_manager = λ c. pure none;
  reconcile = λ c s. (returned (in_a_minute, none), s);
}

abbrev root : ResourceReconciler String (St ℕ ℕ ℕ Bool)
root = record {
  name = "";
  setup = none;
  skip_status_update = false;
  reconciler = some touching;
  config = "cluster";
}

abbrev request : Request
request = record { namespace = "default"; name = "example" }

abbrev outside : Outside ℕ ℕ
outside = record { events = []; world = record { stash = none; cluster = 0 } }

abbrev outside_after : Outside ℕ ℕ
outside_after = record { events = []; world = record { stash = some []; cluster = 0 } }

abbrev after_touching : St ℕ ℕ ℕ Bool
after_touching = record { resource = resource_at 9; events = []; world = outside_after.world }

find-sync_last_transition_time_example :
    find_condition "Ready" (sync_last_transition_time (ready_at 9 ∷ []) (ready_at 4 ∷ []))
    ≡ some (ready_at 4)
find-sync_last_transition_time_example =
    find-sync_last_transition_time (ready_at 9 ∷ []) (ready_at 4 ∷ []) "Ready" (tt, tt)

same_ready : Agrees (ready_at 9) (ready_at 4)
same_ready = record {
  type = refl;
  status = refl;
  reason = refl;
  message = refl;
  observed_generation = refl;
}

reconcile_unchanged_example :
    reconcile server "Root" root background 5 request outside
    ≡ (returned (in_a_minute, none), outside_after)
unfolding reconcile_tree
reconcile_unchanged_example =
    reconcile_unchanged server "Root" background 5 request outside root (resource_at 4)
      (in_a_minute, none) after_touching same_status_refl refl refl
      (refl, refl, (cons same_ready nil, (tt, tt)))

reconcile_halted_example :
    reconcile server "Root" (record root { reconciler = some halting }) background 5 request outside
    ≡ reconcile server "Root"
        (record root { reconciler = some leaving })
        background
        5
        request
        outside
unfolding is_error
reconcile_halted_example =
    reconcile_halted server "Root" background 5 request outside root halting leaving (resource_at 4)
      in_a_minute (wrapped "stop" (sentinel err_halt_sub_reconcilers))
      (record after_touching { resource = resource_at 4 }) refl refl refl refl
