-- ===== src/Watching.antt =====
-- Watching through a config: `Config.TrackAndGet` and `Config.TrackAndList`
-- (reconcilers/config.go), which track what they read, and `EnqueueTracked`
-- (reconcilers/reconcilers.go), which turns an event on an object into requests for its observers.
-- The state is the tracker of the config and the cluster that its client reads. The resource type
-- of the context is an argument.
pub mod Delivered
mod Tests
use reconciler_runtime.Base.{Option, none, some, List, [], map, String, ◌==◌, if◌then◌else◌}
use reconciler_runtime.Errors.{Error}
use reconciler_runtime.Exec.{M, pure, call, ◌>>=◌, ◌>>◌, returned}
use reconciler_runtime.Context.{Context, Request, retrieve_request, retrieve_config_or_die}
use reconciler_runtime.Tracker.{
  Time, NamespacedName, ObjectReference, Returned, ok, err, Reference, Impl,
}
use reconciler_runtime.Tracker.Methods.{track_object, track_reference, get_observers, or_empty}

-- The setters of an object's metadata, `reference.GetReference` of a list, the list options after
-- `ApplyOptions`, and the client's reads: what is read with what is returned.
pub record External : Type 1 where
  pub tracker : reconciler_runtime.Tracker.External
  pub set_namespace : String → tracker.Object → tracker.Object
  pub set_name : String → tracker.Object → tracker.Object
  pub ObjectList : Type 0
  pub GetOption : Type 0
  pub ListOption : Type 0
  pub Cluster : Type 0
  pub get_list_reference : ObjectList → Returned ObjectReference
  pub list_namespace : List ListOption → String
  pub list_selector : List ListOption → Option tracker.Selector
  pub everything : tracker.Selector
  pub get :
      NamespacedName → tracker.Object → List GetOption → Cluster → Option Error × tracker.Object
  pub list : ObjectList → List ListOption → Cluster → Option Error × ObjectList

-- `strings.TrimSuffix`
abbrev pub trim_suffix : String → String → String
trim_suffix String.[] suffix = String.[]
trim_suffix (String.◌∷◌ c s) suffix =
    let rest = trim_suffix s suffix in
    if String.◌∷◌ c s == suffix then String.[] else String.◌∷◌ c rest

pub record State (Selector Cluster : Type 0) : Type 0 where
  pub tracker : Impl Selector
  pub cluster : Cluster

abbrev pub request_for : NamespacedName → Request
request_for item = record { namespace = item.namespace; name = item.name }

-- The requests that an event brings about; an error brings none.
abbrev pub requests_for : Returned (List NamespacedName) → List Request
requests_for (err e) = []
requests_for (ok items) = map request_for items

module _ (ext : External) where
  open ext use {
    tracker, set_namespace, set_name, ObjectList, GetOption, ListOption, Cluster,
    get_list_reference, list_namespace, list_selector, everything,
  }

  abbrev pub Store : Type 0
  Store = State tracker.Selector Cluster

  -- A copy of an object, with another namespace and name.
  abbrev pub renamed : String → String → tracker.Object → tracker.Object
  renamed namespace name obj = set_name name (set_namespace namespace obj)

  -- The synthetic resource, from the type and the request of the context.
  abbrev pub synthetic : {Config : Type 0} → Context Config → tracker.Object → tracker.Object
  synthetic ctx current = let req = retrieve_request ctx in renamed req.namespace req.name current

  -- A call of the tracker whose error is dropped.
  abbrev pub tracking :
      (Impl tracker.Selector → Impl tracker.Selector × Option Error) → M Store (Unit {0})
  tracking track s = (returned tt, record s { tracker = (track s.tracker).0 })

  -- `Config.TrackAndGet`
  unfoldable pub track_and_get :
      {Config : Type 0}
      → Time
      → Context Config
      → (current_type : Option tracker.Object) → NamespacedName
      → tracker.Object
      → List GetOption
      → M Store (Option Error × tracker.Object)
  track_and_get now ctx current_type key obj opts = call current_type (λ current.
      let resource = synthetic ctx current in
      let ref = renamed key.namespace key.name obj in
      tracking (track_object tracker now ref resource) >> λ s.
      (returned (ext.get key obj opts s.cluster), s))

  -- The reference to what a list holds.
  abbrev pub listed_reference : ObjectReference → List ListOption → Reference tracker.Selector
  listed_reference or opts = record {
    api_group = tracker.group_of or.api_version;
    kind = trim_suffix or.kind "List";
    namespace = list_namespace opts;
    name = "";
    selector = some (or_empty (list_selector opts) everything);
  }

  -- `Config.TrackAndList`
  unfoldable pub track_and_list :
      {Config : Type 0}
      → Time
      → Context Config
      → (current_type : Option tracker.Object) → ObjectList
      → List ListOption
      → M Store (Option Error × ObjectList)
  track_and_list now ctx current_type objs opts = call current_type (λ current.
      let resource = synthetic ctx current in
      elim (get_list_reference objs) [
        | err e ↦ pure (some e, objs)
        | ok or ↦ tracking (track_reference tracker now (listed_reference or opts) resource) >> λ s.
            (returned (ext.list objs opts s.cluster), s)
      ])

  -- `EnqueueTracked`: the handler takes the time and the object of the event.
  unfoldable pub enqueue_tracked :
      {Config : Type 0} → Context Config → M Store (Time → tracker.Object → M Store (List Request))
  enqueue_tracked ctx = retrieve_config_or_die ctx >>= λ c. pure (λ now obj s.
      let (i, items) = get_observers tracker now obj s.tracker in
      (returned (requests_for items), record s { tracker = i }))
