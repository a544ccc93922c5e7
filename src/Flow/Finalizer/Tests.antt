-- ===== src/Flow/Finalizer/Tests.antt =====
-- Witnesses on finalizers (reconcilers/finalizer.go). The world counts the patches.
use reconciler_runtime.Base.{
  ℕ, suc, ◌≡◌, refl, String, Bool, true, false, Option, none, some, List, [], ◌∷◌, ◌==◌, ◌⊎◌, inl,
  inr, if◌then◌else◌, arith, eq_iff, Bool-cases,
}
use reconciler_runtime.Base.Int.{pos}
use reconciler_runtime.Errors.{Error}
use reconciler_runtime.Results.{Result, empty_result}
use reconciler_runtime.Context.{Context, background, stash_original_config}
use reconciler_runtime.Exec.{returned, pure, ◌>>=◌}
use reconciler_runtime.Flow.{SubReconciler}
use reconciler_runtime.Flow.Finalizer
use reconciler_runtime.Flow.Finalizer.{Resource, State}
use reconciler_runtime.Flow.Finalizer.Patching
use reconciler_runtime.Flow.Finalizer.Lifecycle

abbrev in_a_minute : Result
in_a_minute = record { requeue = false; requeue_after = pos 60 }

-- Finalizers as lists, and a server that makes every change.
abbrev contains_finalizer : List String → String → Bool
contains_finalizer [] f = false
contains_finalizer (x ∷ fs) f = if x == f then true else contains_finalizer fs f

abbrev remove_finalizer : List String → String → List String
remove_finalizer [] f = []
remove_finalizer (x ∷ fs) f = if x == f then remove_finalizer fs f else x ∷ remove_finalizer fs f

abbrev server : Finalizer.External String Bool ℕ
server = record {
  contains_finalizer = contains_finalizer;
  add_finalizer = λ fs f. f ∷ fs;
  remove_finalizer = remove_finalizer;
  patch = λ config current desired w. record {
    error = none;
    patched = record desired { resource_version = "2" };
    after = suc w;
  };
}

removed : (fs : List String) (f : String) → contains_finalizer (remove_finalizer fs f) f ≡ false
removed [] f = refl
removed (x ∷ fs) f = elim (Bool-cases (x == f)) [
  | inl same ↦ rw same (removed fs f)
  | inr other ↦ rw other (rw other (removed fs f))
]

server-AreLists : Patching.AreLists server
server-AreLists = record { added = λ fs f. ground (arith, eq_iff f f); removed = removed }

server_answers : Patching.AnswersWithDesired server
server_answers c current desired w h = refl

abbrev with_config : Context String
with_config = stash_original_config background "cluster"

abbrev work : SubReconciler String (State Bool ℕ)
work = record {
  setup_with_manager = λ c. pure none;
  reconcile = λ c s. (returned (in_a_minute, none), s);
}

abbrev holding : Finalizer.WithFinalizer String (State Bool ℕ)
holding = record { name = ""; finalizer = "example.com/held"; reconciler = some work }

abbrev resource : List String → Option ℕ → State Bool ℕ
resource fs deletion = record {
  resource = record {
    finalizers = fs;
    resource_version = "1";
    generation = pos 1;
    deletion_timestamp = deletion;
    body = true;
  };
  events = [];
  world = 0;
}

ensure_finalizer-Ensured_example :
    Patching.Ensured server "cluster" "example.com/held" true
      (resource [] none)
      (Finalizer.ensure_finalizer server with_config "example.com/held" true (resource [] none))
ensure_finalizer-Ensured_example =
    Patching.ensure_finalizer-Ensured server server-AreLists server_answers with_config "cluster"
      "example.com/held" true (resource [] none) refl refl

reconcile_guards_example :
    ((t : State Bool ℕ) × (contains_finalizer t.resource.finalizers "example.com/held" ≡ true)
      × (t.resource.body ≡ true)
      × (Finalizer.reconcile server holding with_config (resource [] none)
          ≡ (work.reconcile with_config >>= Finalizer.clear_phase server holding with_config) t))
    ⊎ ((e : Error) × (t : State Bool ℕ) × ((Patching.patch_reply server "cluster" "example.com/held"
            true
            (resource [] none)).error
          ≡ some e)
        × (t.resource ≡ (resource [] none).resource)
        × (Finalizer.reconcile server holding with_config (resource [] none)
            ≡ (returned (empty_result, some e), t)))
reconcile_guards_example =
    Lifecycle.reconcile_guards server server-AreLists server_answers holding work refl refl
      with_config "cluster" refl (resource [] none) refl

abbrev held : State Bool ℕ
held = resource ("example.com/held" ∷ []) (some 8)

reconcile_clears_example :
    (u : State Bool ℕ) × (((Finalizer.reconcile server holding with_config held
          ≡ (returned (in_a_minute, none), u))
        × (contains_finalizer u.resource.finalizers "example.com/held" ≡ false))
      ⊎ ((e : Error) × ((Patching.patch_reply server "cluster" "example.com/held" false held).error
            ≡ some e)
          × (Finalizer.reconcile server holding with_config held
              ≡ (returned (empty_result, some e), u))))
reconcile_clears_example =
    Lifecycle.reconcile_clears server server-AreLists server_answers holding work refl refl
      with_config "cluster" refl held held in_a_minute refl refl refl
