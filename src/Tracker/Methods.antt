-- ===== src/Tracker/Methods.antt =====
-- The methods of the tracker (tracker/enqueue.go).
use Prim.Native.String.{◌++◌ as str_append}
use reconciler_runtime.Base.{
  ◌+◌, Bool, true, false, not, ◌&&◌, Option, none, some, List, [], ◌∷◌, ◌++◌, map, String, ◌==◌,
  ltb, is_some, if◌then◌else◌,
}
use reconciler_runtime.Base.Map.{Map, lookup, insert, erase, add}
use reconciler_runtime.Base.Text.{str_lt}
use reconciler_runtime.Errors.{Error, errorf}
use reconciler_runtime.Tracker.{
  Time, NamespacedName, Returned, ok, err, External, ReferenceKey, MatcherKey, name_key,
  matcher_key, reference_key, ExactSet, Matcher, Matchers, InexactSet, Reference, Impl,
}

-- `sort.Strings`
abbrev insert_text : String → List String → List String
insert_text s [] = s ∷ []
insert_text s (t ∷ ts) = if str_lt t s then t ∷ insert_text s ts else s ∷ t ∷ ts

abbrev pub sort_strings : List String → List String
sort_strings [] = []
sort_strings (s ∷ ts) = insert_text s (sort_strings ts)

-- `fmt.Sprintf("%s: %s", k, msg)`, for each message of a field
abbrev pub labelled : String → List String → List String
labelled k msgs = map (λ msg. str_append k (str_append ": " msg)) msgs

abbrev pub or_empty : {A : Type 0} → Option A → A → A
or_empty none d = d
or_empty (some a) d = a

abbrev pub after : Time → Time → Bool
after now expiry = ltb expiry now

-- A map is stored back, or its key is deleted when nothing is left of it.
abbrev pub store_left :
    {V : Type 0} → ReferenceKey → List V → Map ReferenceKey (List V) → Map ReferenceKey (List V)
store_left ref [] m = erase ref m
store_left ref (x ∷ xs) m = insert ref (x ∷ xs) m

module _ (ext : External) where
  open ext use {
    Object, Labels, Selector, get_namespace, get_name, get_labels, get_reference, group_of,
    parse_group_version, is_c_identifier, is_dns1123_subdomain, is_dns1123_label, selector_text,
    selector_matches,
  }

  -- The field errors of `TrackReference`, which are sorted before they are returned.
  unfoldable pub field_errors : Reference Selector → List String
  field_errors ref =
      (labelled "Kind" (is_c_identifier ref.kind)
        ++ (if not (ref.api_group == "")
            then labelled "APIGroup" (is_dns1123_subdomain ref.api_group)
            else [])
        ++ (if not (ref.namespace == "")
            then labelled "Namespace" (is_dns1123_label ref.namespace)
            else []))
      ++ (if is_some ref.selector && not (ref.name == "")
          then "cannot provide both Name and Selector" ∷ []
          else if not (ref.name == "")
          then labelled "Name" (is_dns1123_subdomain ref.name)
          else if is_some ref.selector
          then []
          else "must provide either Name or Selector" ∷ [])

  abbrev pub exact_key : Reference Selector → ReferenceKey
  exact_key ref = record {
    api_group = ref.api_group;
    kind = ref.kind;
    namespace = ref.namespace;
    name = ref.name;
  }

  -- `partialRef`: the namespace and the selector are in the matcher.
  abbrev pub partial_key : String → String → ReferenceKey
  partial_key api_group kind = record {
    api_group = api_group;
    kind = kind;
    namespace = "";
    name = "";
  }

  abbrev pub observer_key : Object → NamespacedName
  observer_key obj = record { namespace = get_namespace obj; name = get_name obj }

  -- `TrackReference`, at the time `now`.
  unfoldable pub track_reference :
      Time → Reference Selector → Object → Impl Selector → Impl Selector × Option Error
  unfolding field_errors
  track_reference now ref obj i = elim (field_errors ref) [
    | e ∷ es ↦ (i, some (errorf "invalid Reference:\n%s" (sort_strings (e ∷ es))))
    | [] ↦
        let key = observer_key obj in
        elim ref.selector [
          | none ↦
              let l = or_empty (lookup (exact_key ref) i.exact) [] in
              let l' = insert key (now + i.lease_duration) l in
              (record i { exact = insert (exact_key ref) l' i.exact }, none)
          | some selector ↦
              let partial_ref = partial_key ref.api_group ref.kind in
              let is = or_empty (lookup partial_ref i.inexact) [] in
              let m = or_empty (lookup key is) [] in
              let k : MatcherKey = record {
                selector = selector_text selector;
                namespace = ref.namespace;
              } in
              let m' =
                insert k (record { selector = selector; expiry = now + i.lease_duration }) m in
              (record i { inexact = insert partial_ref (insert key m' is) i.inexact }, none)
        ]
  ]

  -- `TrackObject`
  unfoldable pub track_object :
      Time → Object → Object → Impl Selector → Impl Selector × Option Error
  unfolding track_reference
  track_object now ref obj i = elim (get_reference ref) [
    | err e ↦ (i, some e)
    | ok or ↦
        track_reference now
          (record {
            api_group = group_of or.api_version;
            kind = or.kind;
            namespace = or.namespace;
            name = or.name;
            selector = none;
          })
          obj i
  ]

  -- The loop over the exact matches: the keys that are left, and the observers.
  unfoldable pub observe_exact :
      Time → ExactSet → List NamespacedName → ExactSet × List NamespacedName
  observe_exact now [] keys = ([], keys)
  observe_exact now ((key, expiry) ∷ s) keys = elim (after now expiry) [
    | true ↦ observe_exact now s keys
    | false ↦ let (s', keys') = observe_exact now s (add key keys) in ((key, expiry) ∷ s', keys')
  ]

  -- May the matcher's namespace and selector match?
  abbrev pub admits : String → Labels → MatcherKey → Matcher Selector → Bool
  admits namespace ls k m =
      not (not (k.namespace == "") && not (k.namespace == namespace))
      && selector_matches m.selector ls

  -- The loop over the matchers of one observer.
  unfoldable pub observe_matchers :
      Time
      → String
      → Labels
      → NamespacedName
      → Matchers Selector
      → List NamespacedName
      → Matchers Selector × List NamespacedName
  observe_matchers now namespace ls key [] keys = ([], keys)
  observe_matchers now namespace ls key ((k, m) ∷ ms) keys = elim (after now m.expiry) [
    | true ↦ observe_matchers now namespace ls key ms keys
    | false ↦
        let keys' = if admits namespace ls k m then add key keys else keys in
        let (ms', keys'') = observe_matchers now namespace ls key ms keys' in ((k, m) ∷ ms', keys'')
  ]

  -- An observer with no matcher left is deleted.
  abbrev pub keep_left :
      NamespacedName → Matchers Selector → InexactSet Selector → InexactSet Selector
  keep_left key [] is = is
  keep_left key (x ∷ ms) is = (key, x ∷ ms) ∷ is

  -- The loop over the inexact matches.
  unfoldable pub observe_inexact :
      Time
      → String
      → Labels
      → InexactSet Selector
      → List NamespacedName
      → InexactSet Selector × List NamespacedName
  unfolding observe_matchers
  observe_inexact now namespace ls [] keys = ([], keys)
  observe_inexact now namespace ls ((key, ms) ∷ is) keys =
      let (ms', keys') = observe_matchers now namespace ls key ms keys in
      let (is', keys'') = observe_inexact now namespace ls is keys' in
      (keep_left key ms' is', keys'')

  unfoldable pub exact_observers :
      Time
      → ReferenceKey
      → Map ReferenceKey ExactSet
      → Map ReferenceKey ExactSet × List NamespacedName
  unfolding observe_exact
  exact_observers now ref exact = elim (lookup ref exact) [
    | none ↦ (exact, [])
    | some s ↦ let (s', keys) = observe_exact now s [] in (store_left ref s' exact, keys)
  ]

  unfoldable pub inexact_observers :
      Time
      → ReferenceKey
      → String
      → Labels
      → Map ReferenceKey (InexactSet Selector)
      → List NamespacedName
      → Map ReferenceKey (InexactSet Selector) × List NamespacedName
  unfolding observe_inexact
  inexact_observers now ref namespace ls inexact keys = elim (lookup ref inexact) [
    | none ↦ (inexact, keys)
    | some is ↦
        let (is', keys') = observe_inexact now namespace ls is keys in
        (store_left ref is' inexact, keys')
  ]

  -- `GetObservers`, at the time `now`.
  unfoldable pub get_observers :
      Time → Object → Impl Selector → Impl Selector × Returned (List NamespacedName)
  unfolding exact_observers inexact_observers
  get_observers now obj i = elim (get_reference obj) [
    | err e ↦ (i, err e)
    | ok or ↦ elim (parse_group_version or.api_version) [
      | err e ↦ (i, err e)
      | ok group ↦
          let ref : ReferenceKey = record {
            api_group = group;
            kind = or.kind;
            namespace = or.namespace;
            name = or.name;
          } in
          let (exact, keys) = exact_observers now ref i.exact in
          let (inexact, keys') =
            inexact_observers now (partial_key group or.kind) (get_namespace obj) (get_labels obj)
              i.inexact keys in
          (record i { exact = exact; inexact = inexact }, ok keys')
    ]
  ]
