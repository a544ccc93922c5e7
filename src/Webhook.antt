-- ===== src/Webhook.antt =====
-- `AdmissionWebhookAdapter` (reconcilers/webhook.go): sub reconcilers that answer admission requests.
-- The response that the context points to is shared: the reconcilers read and write it in the state,
-- where the request is too. HTTP requests and logs are left out.
pub mod Answered
mod Tests
use reconciler_runtime.Base.{
  ℕ, String, Bool, true, false, not, ◌&&◌, Option, none, some, List, [], ◌∷◌, ◌==◌, if◌then◌else◌,
  is_none,
}
use reconciler_runtime.Errors.{Error}
use reconciler_runtime.Context.{
  Request, Context, stash_now, stash_request, stash_config, stash_original_config,
}
use reconciler_runtime.Exec.{
  Or, ok, failed, Outcome, returned, panicked, exhausted, M, pure, call, continue, ◌>>=◌,
}
use reconciler_runtime.Flow.{Reply, SubReconciler, name_or}
use reconciler_runtime.Flow.Finalizer.{Resource, State, Event}
use reconciler_runtime.Stash.{Stashed, with_stash}

pub data Operation : Type 0 where
  delete other_operation : Operation

-- `admission.Request`
pub record AdmissionRequest (Bytes : Type 0) : Type 0 where
  pub uid : String
  pub namespace : String
  pub name : String
  pub operation : Operation
  pub object : Bytes
  pub old_object : Bytes

-- `metav1.Status`, its code and the error that its message is made of.
pub record StatusResult : Type 0 where
  pub code : ℕ
  pub message : Error

-- `admission.Response`
pub record Response (Bytes Patches : Type 0) : Type 0 where
  pub uid : String
  pub allowed : Bool
  pub result : Option StatusResult
  pub patches : Option Patches
  pub patch : Option Bytes
  pub patch_type : Option String

-- The request and the response that are on the context, and all else.
pub record Admitted (Bytes Patches W : Type 0) : Type 0 where
  pub admission_request : Option (AdmissionRequest Bytes)
  pub admission_response : Option (Response Bytes Patches)
  pub outer : W

-- What is there around a resource: the events recorded so far, and the rest.
pub record Around (Bytes Patches W : Type 0) : Type 0 where
  pub events : List Event
  pub world : Admitted Bytes Patches W

-- JSON, the JSON patch of two texts, what the resource's type does to default itself, and the
-- comparison.
pub record External (Bytes Patches B : Type 0) : Type 0 where
  pub unmarshal : Bytes → Or (Resource B)
  pub marshal : Resource B → Or Bytes
  pub create_patch : Bytes → Bytes → Or Patches
  pub default : Option (Resource B → Resource B)
  pub semantic_equal : Resource B → Resource B → Bool

pub record AdmissionWebhookAdapter (Config S : Type 0) : Type 0 where
  pub name : String
  pub reconciler : Option (SubReconciler Config S)
  pub config : Config

abbrev pub init :
    {Config S : Type 0}
    → String
    → AdmissionWebhookAdapter Config S
    → AdmissionWebhookAdapter Config S
init default_name r = record r { name = name_or r.name default_name }

-- The context that `Build` makes for a request; its stash is new.
abbrev pub webhook_context :
    {Config S : Type 0} → AdmissionWebhookAdapter Config S → Context Config → Context Config
webhook_context r ctx = stash_original_config (stash_config ctx r.config) r.config

module _ {Bytes Patches W : Type 0} where
  abbrev pub stash_admission_request :
      AdmissionRequest Bytes → Admitted Bytes Patches W → Admitted Bytes Patches W
  stash_admission_request req s = record s { admission_request = some req }

  abbrev pub stash_admission_response :
      Response Bytes Patches → Admitted Bytes Patches W → Admitted Bytes Patches W
  stash_admission_response resp s = record s { admission_response = some resp }

  -- The response, or nil where there is none.
  abbrev pub retrieve_admission_response :
      Admitted Bytes Patches W → Option (Response Bytes Patches)
  retrieve_admission_response s = s.admission_response

abbrev pub is_delete : Operation → Bool
is_delete delete = true
is_delete other_operation = false

-- Nothing of a patch is there yet.
abbrev pub without_patch : {Bytes Patches : Type 0} → Response Bytes Patches → Bool
without_patch resp = is_none resp.patches && is_none resp.patch && is_none resp.patch_type

abbrev pub allowed_by_default : {Bytes Patches : Type 0} → String → Response Bytes Patches
allowed_by_default uid = record {
  uid = uid;
  allowed = true;
  result = none;
  patches = none;
  patch = none;
  patch_type = none;
}

abbrev pub or_allowed :
    {Bytes Patches : Type 0} → String → Option (Response Bytes Patches) → Response Bytes Patches
or_allowed uid none = allowed_by_default uid
or_allowed uid (some resp) = resp

-- The response to an error; a result that is there already stays.
abbrev pub refused :
    {Bytes Patches : Type 0} → Error → Response Bytes Patches → Response Bytes Patches
refused e resp = record resp {
  allowed = false;
  result = elim resp.result [
    | none ↦ some (record { code = 500; message = e })
    | some old ↦ some old
  ];
}

-- What the reconcilers act on, beside the response: the response is a variable of `Handle`.
abbrev pub Held : (Bytes Patches B W : Type 0) → Type 0
Held Bytes Patches B W = State B (Admitted Bytes Patches W)

abbrev pub resource_bytes : {Bytes : Type 0} → AdmissionRequest Bytes → Bytes
resource_bytes req = if is_delete req.operation then req.old_object else req.object

abbrev pub request_of : {Bytes : Type 0} → AdmissionRequest Bytes → Request
request_of req = record { namespace = req.namespace; name = req.name }

-- The context of the reconcilers.
abbrev pub handle_context :
    {Bytes Config : Type 0} → Context Config → ℕ → AdmissionRequest Bytes → Context Config
handle_context ctx clock req = stash_request (stash_now ctx clock) (request_of req)

module _ {Bytes Patches B : Type 0} (ext : External Bytes Patches B) where
  abbrev pub defaulted : Resource B → Resource B
  defaulted r = elim ext.default [ none ↦ r | some f ↦ f r ]

  -- The response gets a patch.
  abbrev pub patched :
      Bytes → Resource B → Response Bytes Patches → Option Error × Response Bytes Patches
  patched bytes resource resp = elim (ext.marshal resource) [
    | failed e ↦ (some e, resp)
    | ok mutation ↦ elim (ext.create_patch bytes mutation) [
      | failed e ↦ (some e, resp)
      | ok patch ↦ (none, record resp { patches = some patch })
    ]
  ]

  -- A patch is computed where there is none and the resource has changed.
  abbrev pub with_patch :
      Bytes
      → (original resource : Resource B) → Response Bytes Patches
      → Option Error × Response Bytes Patches
  with_patch bytes original resource resp =
      if without_patch resp && not (ext.semantic_equal original resource)
      then patched bytes resource resp
      else (none, resp)

module _ {Bytes Patches W : Type 0} where
  -- The variable that the context points to.
  abbrev pub response_of : String → Admitted Bytes Patches W → Response Bytes Patches
  response_of uid s = or_allowed uid s.admission_response

  -- The response of `Handle`, after an error or none.
  abbrev pub answered : String → Admitted Bytes Patches W → Option Error → Response Bytes Patches
  answered uid w none = response_of uid w
  answered uid w (some e) = refused e (response_of uid w)

  abbrev pub admitted : AdmissionRequest Bytes → Admitted Bytes Patches W → Admitted Bytes Patches W
  admitted req w =
      stash_admission_response (allowed_by_default req.uid) (stash_admission_request req w)

module _ {Bytes Patches B W : Type 0} where
  abbrev pub answer :
      String
      → Outcome (Option Error) × Held Bytes Patches B W
      → Outcome (Response Bytes Patches) × Around Bytes Patches W
  answer uid (returned err, s) =
      (returned (answered uid s.world err), record { events = s.events; world = s.world })
  answer uid (panicked e, s) = (panicked e, record { events = s.events; world = s.world })
  answer uid (exhausted, s) = (exhausted, record { events = s.events; world = s.world })

  abbrev pub start :
      AdmissionRequest Bytes → Resource B → Around Bytes Patches W → Held Bytes Patches B W
  start req resource o = record {
    resource = resource;
    events = o.events;
    world = admitted req o.world;
  }

module _ {Bytes Patches B W : Type 0} (ext : External Bytes Patches B) where
  abbrev pub after_tree :
      AdmissionRequest Bytes
      → (original : Resource B) → Reply
      → M (Held Bytes Patches B W) (Option Error)
  after_tree req original (result, some e) s = (returned (some e), s)
  after_tree req original (result, none) s =
      let (err, resp) =
        with_patch ext (resource_bytes req) original s.resource (response_of req.uid s.world) in
      (returned err, record s { world = stash_admission_response resp s.world })

module _ {Bytes Patches Config B W : Type 0} (ext : External Bytes Patches B) where
  -- `reconcile`, from the resource on
  abbrev pub reconcile_resource :
      AdmissionWebhookAdapter Config (Held Bytes Patches B W)
      → Context Config
      → AdmissionRequest Bytes
      → Resource B
      → M (Held Bytes Patches B W) (Option Error)
  reconcile_resource r ctx req original =
      call r.reconciler (λ nested. nested.reconcile ctx) >>= after_tree ext req original

  -- `Handle`, at the time `clock`
  unfoldable pub handle :
      String
      → AdmissionWebhookAdapter Config (Held Bytes Patches B W)
      → Context Config
      → ℕ
      → AdmissionRequest Bytes
      → M (Around Bytes Patches W) (Response Bytes Patches)
  handle default_name r0 ctx clock req o = elim (ext.unmarshal (resource_bytes req)) [
    | failed e ↦ (
      returned (refused e (allowed_by_default req.uid)),
      record o { world = admitted req o.world },
    )
    | ok parsed ↦
        let original = defaulted ext parsed in
        answer req.uid (
          reconcile_resource (init default_name r0) (handle_context ctx clock req) req original
            (start req original o))
  ]
