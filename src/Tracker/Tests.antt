-- ===== src/Tracker/Tests.antt =====
-- Witnesses on the tracker (tracker/enqueue.go), with objects that are names with one label.
use reconciler_runtime.Base.{
  ◌≡◌, refl, String, ◌==◌, ◌||◌, arith, none, some, List, [], ◌∷◌, if◌then◌else◌,
}
use reconciler_runtime.Base.Map.{insert, has, ◌=?◌, nil-IsMapOf}
use reconciler_runtime.Tracker.{
  matcher_key, NamespacedName, ObjectReference, External, ok, Reference, ReferenceKey, Impl, new,
  name_key, reference_key,
}
use reconciler_runtime.Tracker.Methods.{
  field_errors, track_reference, get_observers, exact_key, partial_key,
}
use reconciler_runtime.Tracker.Leases.{
  IsKept, exact_lease, inexact_lease, is_live, unexpired, watches?,
}
use reconciler_runtime.Tracker.Invariant.{track_reference-IsKept}
use reconciler_runtime.Tracker.Contract.{
  track_reference-exact_lease, get_observers-leases, reference_of,
}
use reconciler_runtime.Tracker.Reached.{
  Promises, no_promises, promise, Reached, fresh, named, Reached-get_observers,
}
use reconciler_runtime.Tracker.Delivery.{selector_key, track_reference-inexact_lease}

record Thing : Type 0 where
  name : String
  label : String

abbrev non_empty : String → List String
non_empty s = if s == "" then "must not be empty" ∷ [] else []

abbrev config_map : Thing → ObjectReference
config_map t = record { api_version = "v1"; kind = "ConfigMap"; namespace = "apps"; name = t.name }

abbrev things : External
things = record {
  Object = Thing;
  Labels = String;
  Selector = String;
  get_namespace = λ t. "apps";
  get_name = λ t. t.name;
  get_labels = λ t. t.label;
  get_reference = λ t. ok (config_map t);
  group_of = λ v. "";
  parse_group_version = λ v. ok "";
  is_c_identifier = non_empty;
  is_dns1123_subdomain = non_empty;
  is_dns1123_label = non_empty;
  selector_text = λ s. s;
  selector_matches = λ s l. s == l;
}

abbrev settings : Reference String
settings = record {
  api_group = "";
  kind = "ConfigMap";
  namespace = "apps";
  name = "settings";
  selector = none;
}

abbrev kindless : Reference String
kindless = record {
  api_group = "";
  kind = "";
  namespace = "apps";
  name = "settings";
  selector = none;
}

abbrev observer : Thing
observer = record { name = "web"; label = "tier-web" }

abbrev observed : Thing
observed = record { name = "settings"; label = "tier-config" }

abbrev web : NamespacedName
web = record { namespace = "apps"; name = "web" }

abbrev empty : Impl String
empty = new 20

empty-IsKept : IsKept empty
empty-IsKept = record { exact = nil-IsMapOf _; inexact = nil-IsMapOf _ }

abbrev tracking : Impl String
tracking = (track_reference things 100 settings observer empty).0

tracking-IsKept : IsKept tracking
tracking-IsKept = track_reference-IsKept things 100 settings observer empty empty-IsKept

-- The observer tracks the object, which is observed after its lease has run out and dropped, and tracks
-- it again.
abbrev once_more : Impl String
once_more =
    (track_reference things 130 settings observer (get_observers things 125 observed tracking).0).0

abbrev promised : Promises
promised =
    promise (exact_key things settings) web 150
      (promise (exact_key things settings) web 120 no_promises)

once_more-Reached : Reached things 20 130 once_more promised
unfolding field_errors
once_more-Reached =
    named 130 settings observer
      (Reached.observed 125 observed (named 100 settings observer fresh (omega arith) refl refl)
        (omega arith))
      (omega arith) refl refl

Reached-get_observers_example :
    (keys : List NamespacedName) × ((get_observers things 140 observed once_more).1 ≡ ok keys)
    × ((k : NamespacedName)
        → has k keys ≡ (
            is_live 140 (promised (reference_of "" (config_map observed)) k)
            || watches? things 140 "apps" "tier-config"
                (inexact_lease once_more (partial_key things "" "ConfigMap") k)))
Reached-get_observers_example =
    Reached-get_observers things 20 140 observed (config_map observed) "" once_more-Reached
      (omega arith) refl refl

track_reference-exact_lease_example :
    ((track_reference things 100 settings observer empty).1 ≡ none)
    × (tracking.inexact ≡ [])
    × (exact_lease tracking (exact_key things settings) web ≡ some 120)
unfolding field_errors
track_reference-exact_lease_example =
    track_reference-exact_lease things 100 settings observer empty (exact_key things settings) web
      refl refl

get_observers-leases_example :
    (keys : List NamespacedName) × ((get_observers things 110 observed tracking).1 ≡ ok keys)
    × ((k : NamespacedName)
        → has k keys ≡ (
            is_live 110 (exact_lease tracking (reference_of "" (config_map observed)) k)
            || watches? things 110 "apps" "tier-config"
                (inexact_lease tracking (partial_key things "" "ConfigMap") k)))
    × ((r : ReferenceKey) (k : NamespacedName)
        → exact_lease (get_observers things 110 observed tracking).0 r k ≡ (
            if reference_of "" (config_map observed) =? r
            then unexpired 110 (exact_lease tracking r k)
            else exact_lease tracking r k))
get_observers-leases_example =
    get_observers-leases things 110 observed tracking (config_map observed) "" tracking-IsKept refl
      refl

-- Every object with the label `tier-config`, in any namespace.
abbrev selected : Reference String
selected = record {
  api_group = "";
  kind = "ConfigMap";
  namespace = "";
  name = "";
  selector = some "tier-config";
}

track_reference-inexact_lease_example :
    ((track_reference things 100 selected observer empty).1 ≡ none)
    × ((track_reference things 100 selected observer empty).0.exact ≡ [])
    × (inexact_lease
          (track_reference things 100 selected observer empty).0
          (partial_key things "" "ConfigMap")
          web
        ≡ some (
            insert
              (selector_key things 100 selected "tier-config")
              (record { selector = "tier-config"; expiry = 120 })
              []))
unfolding field_errors
track_reference-inexact_lease_example =
    track_reference-inexact_lease things 100 selected "tier-config" observer empty
      (partial_key things "" "ConfigMap") web refl refl
