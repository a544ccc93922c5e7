-- ===== src/Webhook/Tests.antt =====
-- Witnesses on admission webhooks (reconcilers/webhook.go). A text and the body of a resource are
-- numbers, and a patch is the number that it leads to.
use reconciler_runtime.Base.{ℕ, suc, false, String, none, some, [], ◌≡◌, refl, sym, eqb}
use reconciler_runtime.Base.Int.{pos}
use reconciler_runtime.Errors.{sentinel, err_quiet}
use reconciler_runtime.Results.{empty_result}
use reconciler_runtime.Context.{background}
use reconciler_runtime.Exec.{Or, ok, returned, pure}
use reconciler_runtime.Flow.{SubReconciler}
use reconciler_runtime.Flow.Finalizer.{Resource}
use reconciler_runtime.Webhook.{
  other_operation, AdmissionRequest, StatusResult, Response, Around, External,
  AdmissionWebhookAdapter, Held, allowed_by_default, handle, admitted,
}
use reconciler_runtime.Webhook.Answered.{handle_refused, handle_patches}

abbrev resource_of : ℕ → Resource ℕ
resource_of n = record {
  finalizers = [];
  resource_version = "1";
  generation = pos 1;
  deletion_timestamp = none;
  body = n;
}

abbrev numbers : External ℕ ℕ ℕ
numbers = record {
  unmarshal = λ n. ok (resource_of n);
  marshal = λ r. ok r.body;
  create_patch = λ a b. ok b;
  default = none;
  semantic_equal = λ a b. eqb a.body b.body;
}

abbrev request : AdmissionRequest ℕ
request = record {
  uid = "uid";
  namespace = "default";
  name = "example";
  operation = other_operation;
  object = 3;
  old_object = 0;
}

abbrev refusing : SubReconciler String (Held ℕ ℕ ℕ ℕ)
refusing = record {
  setup_with_manager = λ c. pure none;
  reconcile = λ c s. (returned (empty_result, some (sentinel err_quiet)), s);
}

-- It adds one to the body.
abbrev mutating : SubReconciler String (Held ℕ ℕ ℕ ℕ)
mutating = record {
  setup_with_manager = λ c. pure none;
  reconcile = λ c s.
      (returned (empty_result, none), record s { resource = resource_of (suc s.resource.body) });
}

abbrev webhook : SubReconciler String (Held ℕ ℕ ℕ ℕ) → AdmissionWebhookAdapter String (Held ℕ ℕ ℕ ℕ)
webhook nested = record { name = ""; reconciler = some nested; config = "cluster" }

abbrev outside : Around ℕ ℕ ℕ
outside = record {
  events = [];
  world = record { admission_request = none; admission_response = none; outer = 0 };
}

abbrev held : ℕ → Held ℕ ℕ ℕ ℕ
held n = record { resource = resource_of n; events = []; world = admitted request outside.world }

handle_refused_example :
    (resp' : Response ℕ ℕ) × (handle numbers "Webhook"
        (webhook refusing)
        background
        5
        request
        outside
      ≡ (returned resp', record { events = []; world = admitted request outside.world }))
    × (resp'.allowed ≡ false)
    × ((allowed_by_default {Bytes = ℕ} {Patches = ℕ} "uid").result ≡ none
        → resp'.result ≡ some (record { code = 500; message = sentinel err_quiet }))
    × ((old : StatusResult)
        → (allowed_by_default {Bytes = ℕ} {Patches = ℕ} "uid").result ≡ some old
        → resp'.result ≡ some old)
    × (resp'.patches ≡ none)
handle_refused_example =
    handle_refused numbers "Webhook" (webhook refusing) refusing background 5 request outside
      (resource_of 3) refl refl empty_result (sentinel err_quiet) (held 3)
      (allowed_by_default "uid") refl refl

abbrev apply_number : ℕ → ℕ → Or ℕ
apply_number n p = ok p

handle_patches_example :
    (p : ℕ) × (bytes : ℕ) × (handle numbers "Webhook"
        (webhook mutating)
        background
        5
        request
        outside
      ≡ (
        returned (record (allowed_by_default "uid") { patches = some p }),
        record {
          events = [];
          world = record (admitted request outside.world) {
            admission_response = some (record (allowed_by_default "uid") { patches = some p });
          };
        },
      ))
    × (apply_number 3 p ≡ ok bytes)
    × (numbers.unmarshal bytes ≡ ok (resource_of 4))
handle_patches_example =
    handle_patches numbers "Webhook" (webhook mutating) mutating background 5 request outside
      (resource_of 3) refl refl apply_number (λ a b p h. sym h) empty_result (held 4)
      (allowed_by_default "uid") 4 4 refl refl refl refl refl refl refl
