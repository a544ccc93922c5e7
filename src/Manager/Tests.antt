-- ===== src/Manager/Tests.antt =====
-- Witnesses on the manager of a resource (reconcilers/resourcemanager.go). The managed type is a
-- number, 0 for one that is not created, and the server doubles what an update sends it. The world
-- is the cache.
use reconciler_runtime.Base.{
  ℕ, ◌+◌, ◌≡◌, refl, String, Bool, true, false, not, Option, none, some, [], eqb,
}
use reconciler_runtime.Base.Int.{pos}
use reconciler_runtime.Context.{Context, background, stash_config, stash_original_config}
use reconciler_runtime.Exec.{returned}
use reconciler_runtime.Flow.Finalizer
use reconciler_runtime.Flow.Finalizer.{State}
use reconciler_runtime.Manager.{External, ResourceManager, Patch, diff, manage, with_mutations}
use reconciler_runtime.Manager.Contract.{Answers, manage-Answers}
use reconciler_runtime.Manager.Unchanged.{manage_in_sync, manage_settles}

abbrev Cache : Type 0
Cache = Option (Patch ℕ)

abbrev finalizing : Finalizer.External String Bool Cache
finalizing = record {
  contains_finalizer = λ fs f. true;
  add_finalizer = λ fs f. fs;
  remove_finalizer = λ fs f. fs;
  patch = λ config current desired w. record { error = none; patched = desired; after = w };
}

abbrev numbers : External ℕ ℕ String Bool Cache
numbers = record {
  finalizing = finalizing;
  is_created = λ t. not (eqb t 0);
  is_terminating = λ t. false;
  uid = λ t. "uid";
  object_name = λ t. "number";
  type_name = λ t. "ℕ";
  generation = λ t. pos 0;
  semantic_equal = eqb;
  create = λ config t w. record { error = none; object = t; after = w };
  update = λ config t w. record { error = none; object = t + t; after = w };
  delete = λ config t w. record { error = none; object = t; after = w };
  track_object = λ config t resource w. (none, w);
  cache_get = λ w uid. w;
  cache_set = λ uid p w. some p;
  create_patch = λ base update. diff update;
  merge_patch = λ bytes t. (bytes, none);
}

-- The desired number replaces the actual one.
abbrev replace : ℕ → ℕ → ℕ
replace current desired = desired

abbrev manager : ResourceManager ℕ
manager = record {
  name = "";
  finalizer = "";
  track_desired = false;
  harmonize_immutable_fields = none;
  merge_before_update = some replace;
}

abbrev ctx : Context String
ctx = stash_config (stash_original_config background "original") "config"

abbrev state : State Bool Cache
state = record {
  resource = record {
    finalizers = [];
    resource_version = "1";
    generation = pos 1;
    deletion_timestamp = none;
    body = true;
  };
  events = [];
  world = none;
}

manage-Answers_example : Answers (some 4) (manage numbers manager ctx (some 3) (some 4) state)
manage-Answers_example = manage-Answers numbers manager ctx (some 3) (some 4) state

manage_in_sync_example :
    manage numbers manager ctx (some 3) (some 3) state ≡ (returned (some 3, none), state)
unfolding with_mutations
manage_in_sync_example =
    manage_in_sync numbers manager replace refl refl refl ctx "original" "config" refl refl 3 3
      state refl refl refl

manage_settles_example :
    (t : State Bool Cache) × (manage numbers manager ctx (some 3) (some 4) state
      ≡ (returned (some 8, none), t))
    × (manage numbers manager ctx (some 8) (some 4) t ≡ (returned (some 8, none), t))
unfolding with_mutations
manage_settles_example =
    manage_settles numbers manager replace refl refl refl ctx "original" "config" refl refl 3 4 8
      state refl refl refl refl 8 refl refl refl (λ uid p w. refl) refl refl
