-- ===== src/Watching/Tests.antt =====
-- Witnesses on watching through a config (reconcilers/config.go, reconcilers/reconcilers.go), with
-- objects that are names with one label. The cluster is a text, of which the client returns the
-- missing object and no list.
use reconciler_runtime.Base.{
  ℕ, true, ◌≡◌, refl, String, ◌==◌, none, some, List, [], ◌∷◌, if◌then◌else◌,
}
use reconciler_runtime.Base.Map.{nil-IsMapOf}
use reconciler_runtime.Errors.{api_status, not_found}
use reconciler_runtime.Exec.{returned}
use reconciler_runtime.Context.{Context, background, retrieve_request, stash_config, stash_request}
use reconciler_runtime.Tracker.{NamespacedName, ObjectReference, name_key, ok, new, reference_key}
use reconciler_runtime.Tracker.Methods.{field_errors}
use reconciler_runtime.Tracker.Leases.{IsKept}
use reconciler_runtime.Watching.{External, State, track_and_get, track_and_list, trim_suffix}
use reconciler_runtime.Watching.Delivered.{
  SettersSet, Enqueues, track_and_get-enqueue_tracked, track_and_list-enqueue_tracked,
}

record Thing : Type 0 where
  namespace : String
  name : String
  label : String

abbrev non_empty : String → List String
non_empty s = if s == "" then "must not be empty" ∷ [] else []

abbrev config_map : Thing → ObjectReference
config_map t = record {
  api_version = "v1";
  kind = "ConfigMap";
  namespace = t.namespace;
  name = t.name;
}

abbrev things : External
things = record {
  tracker = record {
    Object = Thing;
    Labels = String;
    Selector = String;
    get_namespace = λ t. t.namespace;
    get_name = λ t. t.name;
    get_labels = λ t. t.label;
    get_reference = λ t. ok (config_map t);
    group_of = λ v. "";
    parse_group_version = λ v. ok "";
    is_c_identifier = non_empty;
    is_dns1123_subdomain = non_empty;
    is_dns1123_label = non_empty;
    selector_text = λ s. s;
    selector_matches = λ s l. if s == "" then true else s == l;
  };
  set_namespace = λ namespace t. record t { namespace = namespace };
  set_name = λ name t. record t { name = name };
  ObjectList = String;
  GetOption = Unit {0};
  ListOption = String;
  Cluster = String;
  get_list_reference = λ l. ok (record { api_version = "v1"; kind = l; namespace = ""; name = "" });
  list_namespace = λ opts. "apps";
  list_selector = λ opts. elim opts [ [] ↦ none | s ∷ rest ↦ some s ];
  everything = "";
  get = λ key t opts c. (some (api_status not_found (some key.name)), t);
  list = λ l opts c. (none, l);
}

abbrev setup : Context ℕ
setup = stash_config background 1

abbrev ctx : Context ℕ
ctx = stash_request setup (record { namespace = "apps"; name = "web" })

abbrev web_type : Thing
web_type = record { namespace = ""; name = ""; label = "" }

abbrev blank : Thing
blank = record { namespace = ""; name = ""; label = "" }

abbrev settings : NamespacedName
settings = record { namespace = "apps"; name = "settings" }

abbrev observed : Thing
observed = record { namespace = "apps"; name = "settings"; label = "tier-config" }

abbrev start : State String String
start = record { tracker = new 20; cluster = "empty" }

start-IsKept : IsKept start.tracker
start-IsKept = record { exact = nil-IsMapOf _; inexact = nil-IsMapOf _ }

things-SettersSet : SettersSet things
things-SettersSet namespace name obj = (refl, refl)

trim_suffix_example : trim_suffix "ConfigMapList" "List" ≡ "ConfigMap"
trim_suffix_example = refl

trim_suffix_inner_example : trim_suffix "ListOfThings" "List" ≡ "ListOfThings"
trim_suffix_inner_example = refl

-- An object that is not there is watched, and its creation enqueues the request.
track_and_get-enqueue_tracked_example :
    let run = track_and_get things 100 ctx (some web_type) settings blank [] start in
    (run.0 ≡ returned (some (api_status not_found (some "settings")), blank))
    × Enqueues things 110 setup observed run.1 (retrieve_request ctx)
unfolding field_errors
track_and_get-enqueue_tracked_example =
    track_and_get-enqueue_tracked things 110 100 ctx setup 1 web_type blank observed settings []
      start (config_map observed) (config_map observed) "" start-IsKept things-SettersSet refl refl
      refl refl refl refl refl

-- The ConfigMaps of a namespace, whichever their labels, are watched.
track_and_list-enqueue_tracked_example :
    let run = track_and_list things 100 ctx (some web_type) "ConfigMapList" [] start in
    (run.0 ≡ returned (none, "ConfigMapList"))
    × Enqueues things 110 setup observed run.1 (retrieve_request ctx)
unfolding field_errors
track_and_list-enqueue_tracked_example =
    track_and_list-enqueue_tracked things 110 100 ctx setup 1 web_type observed "ConfigMapList" []
      start (record { api_version = "v1"; kind = "ConfigMapList"; namespace = ""; name = "" })
      (config_map observed) "" start-IsKept things-SettersSet refl refl refl refl refl refl refl
      refl refl refl
