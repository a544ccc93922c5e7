-- ===== src/Watching/Delivered.antt =====
-- What is read by way of a config is watched: events on it enqueue the request
-- (reconcilers/config.go, reconcilers/reconcilers.go).
use reconciler_runtime.Base.{
  ◌+◌, ◌≡◌, refl, subst, sym, ap, ◌∙◌, inl, inr, Bool-cases, true, false, not, ◌&&◌, none, some,
  List, [], ◌∷◌, ◌==◌, map, String,
}
use reconciler_runtime.Base.Lists.{In}
use reconciler_runtime.Base.Map.{has, ◌=?◌}
use reconciler_runtime.Exec.{◌>>=◌, returned}
use reconciler_runtime.Context.{Context, Request, retrieve_request}
use reconciler_runtime.Tracker.{
  Time, NamespacedName, ObjectReference, Reference, Impl, ok, name_key,
}
use reconciler_runtime.Tracker.Methods.{
  observer_key, field_errors, track_reference, track_object, get_observers, exact_key, after,
  or_empty,
}
use reconciler_runtime.Tracker.Leases.{IsKept}
use reconciler_runtime.Tracker.Contract.{reference_of}
use reconciler_runtime.Tracker.Delivery.{get_observers-track_reference, get_observers_selected}
use reconciler_runtime.Watching.{
  External, State, request_for, renamed, synthetic, track_and_get, track_and_list, listed_reference,
  enqueue_tracked, trim_suffix,
}

In-requests :
    (k : NamespacedName) (ks : List NamespacedName)
    → has k ks ≡ true
    → In (request_for k) (map request_for ks)
In-requests k [] h = absurd (cc h)
In-requests k (x ∷ xs) h = elim (Bool-cases (x =? k)) [
  | inl same ↦ inl (sym (ap request_for ((name_key.same_iff x k).0 same)))
  | inr other ↦ inr (In-requests k xs (rw other at h))
]

-- The setters of an object set what they say.
abbrev pub SettersSet : External → Type 0
SettersSet ext =
    (namespace name : String) (obj : ext.tracker.Object)
    → (ext.tracker.get_namespace (renamed ext namespace name obj) ≡ namespace)
      × (ext.tracker.get_name (renamed ext namespace name obj) ≡ name)

-- `TrackObject` tracks this reference.
abbrev pub object_reference : (ext : External) → ObjectReference → Reference ext.tracker.Selector
object_reference ext or = record {
  api_group = ext.tracker.group_of or.api_version;
  kind = or.kind;
  namespace = or.namespace;
  name = or.name;
  selector = none;
}

-- Tracking an object is tracking its reference.
track_object_lem :
    (ext : External) (now : Time) (ref obj : ext.tracker.Object) (target : ObjectReference)
    (i : Impl ext.tracker.Selector)
    → ext.tracker.get_reference ref ≡ ok target
    → track_object ext.tracker now ref obj i
      ≡ track_reference ext.tracker now (object_reference ext target) obj i
unfolding track_object
track_object_lem ext now ref obj target i h = rw (h, track_object) refl

module _ (ext : External) {Config : Type 0} (later : Time) where
  -- The handler that `EnqueueTracked` makes answers an event on `watched`, and enqueues the request.
  abbrev pub Enqueues :
      Context Config
      → ext.tracker.Object
      → State ext.tracker.Selector ext.Cluster
      → Request
      → Type 0
  Enqueues ctx watched s req =
      (reqs : List Request) × (((enqueue_tracked ext ctx >>= λ handler. handler later watched) s).0
        ≡ returned reqs)
      × In req reqs

  enqueues :
      (ctx : Context Config) (config : Config) (watched : ext.tracker.Object)
      (s : State ext.tracker.Selector ext.Cluster) (keys : List NamespacedName) (k : NamespacedName)
      → ctx.config ≡ some config
      → (get_observers ext.tracker later watched s.tracker).1 ≡ ok keys
      → has k keys ≡ true
      → Enqueues ctx watched s (request_for k)
  unfolding enqueue_tracked
  enqueues ctx config watched s keys k c observed h =
      (map request_for keys, rw (c, observed) refl, In-requests k keys h)

  -- The request is the one that the tracker holds of the synthetic resource.
  request_for-synthetic :
      (ctx : Context Config) (current : ext.tracker.Object)
      → SettersSet ext
      → request_for (observer_key ext.tracker (synthetic ext ctx current)) ≡ retrieve_request ctx
  request_for-synthetic ctx current set =
      let req = retrieve_request ctx in
      let (namespace, name) = set req.namespace req.name current in rw (namespace, name) refl

  -- After TrackAndGet, for an object whose reference is known and valid, an event on the object with
  -- that reference enqueues the request of its context as long as the lease has not run out. That is
  -- so whatever the client returns, which is what TrackAndGet returns. The maps of the
  -- tracker have no key twice, a config is on the context of EnqueueTracked, and the setters of an
  -- object set what they say.
  pub track_and_get-enqueue_tracked :
      (now : Time) (ctx setup : Context Config) (config : Config)
      (current obj watched : ext.tracker.Object) (key : NamespacedName) (opts : List ext.GetOption)
      (s : State ext.tracker.Selector ext.Cluster) (target or : ObjectReference) (group : String)
      → IsKept s.tracker
      → SettersSet ext
      → setup.config ≡ some config
      → ext.tracker.get_reference (renamed ext key.namespace key.name obj) ≡ ok target
      → field_errors ext.tracker (object_reference ext target) ≡ []
      → ext.tracker.get_reference watched ≡ ok or
      → ext.tracker.parse_group_version or.api_version ≡ ok group
      → exact_key ext.tracker (object_reference ext target) ≡ reference_of group or
      → after later (now + s.tracker.lease_duration) ≡ false
      → let run = track_and_get ext now ctx (some current) key obj opts s in
        (run.0 ≡ returned (ext.get key obj opts s.cluster))
        × Enqueues setup watched run.1 (retrieve_request ctx)
  unfolding track_and_get
  track_and_get-enqueue_tracked now ctx setup config current obj watched key opts s target or group
        kept set c tracked valid known parsed same live =
      let resource = synthetic ext ctx current in
      let (keys, observed, held) =
        get_observers-track_reference ext.tracker now later (object_reference ext target) resource
          watched s.tracker or group kept valid refl known parsed same in
      let tracks =
        track_object_lem ext now (renamed ext key.namespace key.name obj) resource target s.tracker
          tracked in
      let s' = (track_and_get ext now ctx (some current) key obj opts s).1 in
      (
        refl,
        subst (Enqueues setup watched s') (request_for-synthetic ctx current set) (
            enqueues setup config watched s' keys (observer_key ext.tracker resource) c
              (ap (λ run. (get_observers ext.tracker later watched run.0).1) tracks ∙ observed)
              (held ∙ rw live refl)),
      )

  -- After TrackAndList, for a list whose reference is known and valid, an event on an object of the
  -- listed group and kind, in the listed namespace or any if none is given, with labels that the
  -- selector matches, enqueues the request of its context as long as the lease has not run out.
  -- Without a selector it is the one for everything. That is so whatever the client returns, which
  -- is what TrackAndList returns. The maps of the tracker have no key twice, a config is on the
  -- context of EnqueueTracked, and the setters of an object set what they say.
  pub track_and_list-enqueue_tracked :
      (now : Time) (ctx setup : Context Config) (config : Config)
      (current watched : ext.tracker.Object) (objs : ext.ObjectList) (opts : List ext.ListOption)
      (s : State ext.tracker.Selector ext.Cluster) (target or : ObjectReference) (group : String)
      → IsKept s.tracker
      → SettersSet ext
      → setup.config ≡ some config
      → ext.get_list_reference objs ≡ ok target
      → field_errors ext.tracker (listed_reference ext target opts) ≡ []
      → ext.tracker.get_reference watched ≡ ok or
      → ext.tracker.parse_group_version or.api_version ≡ ok group
      → ext.tracker.group_of target.api_version ≡ group
      → trim_suffix target.kind "List" ≡ or.kind
      → (not (ext.list_namespace opts == "")
          && not (ext.list_namespace opts == ext.tracker.get_namespace watched))
        ≡ false
      → ext.tracker.selector_matches
          (or_empty (ext.list_selector opts) ext.everything)
          (ext.tracker.get_labels watched)
        ≡ true
      → after later (now + s.tracker.lease_duration) ≡ false
      → let run = track_and_list ext now ctx (some current) objs opts s in
        (run.0 ≡ returned (ext.list objs opts s.cluster))
        × Enqueues setup watched run.1 (retrieve_request ctx)
  unfolding track_and_list
  track_and_list-enqueue_tracked now ctx setup config current watched objs opts s target or group
        kept set c tracked valid known parsed same_group same_kind near match live =
      let resource = synthetic ext ctx current in
      let ref = listed_reference ext target opts in
      let (keys, observed, held) =
        get_observers_selected ext.tracker now later ref
          (or_empty (ext.list_selector opts) ext.everything) resource watched s.tracker or group
          kept valid refl known parsed (rw (same_group, same_kind) refl) near match live in
      let s' = (track_and_list ext now ctx (some current) objs opts s).1 in
      (
        rw tracked refl,
        subst (Enqueues setup watched s') (request_for-synthetic ctx current set) (
            enqueues setup config watched s' keys (observer_key ext.tracker resource) c
              (rw tracked observed) held),
      )
