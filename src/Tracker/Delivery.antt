-- ===== src/Tracker/Delivery.antt =====
-- From tracking an object to observing it (tracker/enqueue.go).
use reconciler_runtime.Base.{
  ◌+◌, ◌≡◌, refl, ap, ◌∙◌, Bool, true, false, not, ◌&&◌, ◌||◌, ◌==◌, Option, none, some, List, [],
  ◌∷◌, if◌then◌else◌, arith, Bool-cases, inl, inr, String,
}
use reconciler_runtime.Base.Map.{◌=?◌, lookup, insert, has, lookup-insert}
use reconciler_runtime.Tracker.{
  Time, NamespacedName, ObjectReference, External, ReferenceKey, MatcherKey, Matcher, Matchers,
  Impl, Reference, name_key, reference_key, matcher_key, ok,
}
use reconciler_runtime.Tracker.Methods.{
  after, admits, track_reference, get_observers, field_errors, exact_key, partial_key, observer_key,
  or_empty,
}
use reconciler_runtime.Tracker.Leases.{
  IsKept, exact_lease, inexact_lease, is_live, watches, watches?, lookup?,
}
use reconciler_runtime.Tracker.Invariant.{track_reference-IsKept}
use reconciler_runtime.Tracker.Contract.{
  reference_of, lookup?-or_empty, track_reference-exact_lease, get_observers-leases,
}

or_true : (b : Bool) → (b || true) ≡ true
or_true true = refl
or_true false = refl

module _ (ext : External) (now : Time) where
  -- The key of a lease by selector among those of its observer.
  abbrev pub selector_key : Reference ext.Selector → ext.Selector → MatcherKey
  selector_key ref selector = record {
    selector = ext.selector_text selector;
    namespace = ref.namespace;
  }

  -- `TrackReference` by selector: for a valid reference exactly the observer's lease on the group and
  -- kind is set, for this selector and namespace, to run out after the lease duration; its other
  -- leases stay, no other observer's lease by selector changes, none by name does, and no error is
  -- returned.
  pub track_reference-inexact_lease :
      (ref : Reference ext.Selector) (selector : ext.Selector) (obj : ext.Object)
      (i : Impl ext.Selector) (r : ReferenceKey) (k : NamespacedName)
      → field_errors ext ref ≡ []
      → ref.selector ≡ some selector
      → let (i', error) = track_reference ext now ref obj i in
        (error ≡ none)
        × (i'.exact ≡ i.exact)
        × (inexact_lease i' r k ≡ (
            if partial_key ext ref.api_group ref.kind =? r && observer_key ext obj =? k
            then some (
                insert
                  (selector_key ref selector)
                  (record { selector = selector; expiry = now + i.lease_duration })
                  (or_empty (inexact_lease i r k) []))
            else inexact_lease i r k))
  unfolding track_reference
  track_reference-inexact_lease ref selector obj i r k q p =
      let p_key = partial_key ext ref.api_group ref.kind in
      let key = observer_key ext obj in
      let is = or_empty (lookup p_key i.inexact) [] in
      let m =
        insert (selector_key ref selector)
          (record { selector = selector; expiry = now + i.lease_duration })
          (or_empty (lookup key is) []) in
      rw (q, p, track_reference)
        (
          refl,
          refl,
          rw (lookup-insert p_key r (insert key m is) i.inexact) (elim (Bool-cases (p_key =? r)) [
            | inr other ↦ rw other
            | inl same ↦
                let held : lookup k is ≡ inexact_lease i r k =
                  lookup?-or_empty k (lookup p_key i.inexact)
                  ∙ ap (λ (x : ReferenceKey). lookup? k (lookup x i.inexact))
                      ((reference_key.same_iff p_key r).0 same) in
                rw same (
                  rw (lookup-insert key k m is) (elim (Bool-cases (key =? k)) [
                    | inr another ↦ rw another held
                    | inl this ↦ rw this (
                        ap
                          (λ (o : Option (Matchers ext.Selector)). some (
                            insert (selector_key ref selector)
                              (record { selector = selector; expiry = now + i.lease_duration })
                              (or_empty o [])))
                          (ap (λ (x : NamespacedName). lookup x is)
                              ((name_key.same_iff key k).0 this)
                            ∙ held))
                  ]))
          ]),
        )

module _ (ext : External) (now later : Time) where
  -- After an object is tracked by name, its observer is among those of the object exactly as long as
  -- the lease has not run out, or while it watches the object by a selector too.
  pub get_observers-track_reference :
      (ref : Reference ext.Selector) (obj watched : ext.Object) (i : Impl ext.Selector)
      (or : ObjectReference) (group : String)
      → IsKept i
      → field_errors ext ref ≡ []
      → ref.selector ≡ none
      → ext.get_reference watched ≡ ok or
      → ext.parse_group_version or.api_version ≡ ok group
      → exact_key ext ref ≡ reference_of group or
      → let i' = (track_reference ext now ref obj i).0 in
        let key = observer_key ext obj in
        (keys : List NamespacedName) × ((get_observers ext later watched i').1 ≡ ok keys)
        × (has key keys ≡ (
            not (after later (now + i.lease_duration))
            || watches? ext later
                (ext.get_namespace watched)
                (ext.get_labels watched)
                (inexact_lease i' (partial_key ext group or.kind) key)))
  get_observers-track_reference ref obj watched i or group h q p known parsed same =
      let i' = (track_reference ext now ref obj i).0 in
      let key = observer_key ext obj in
      let r = reference_of group or in
      let (error, others, lease) = track_reference-exact_lease ext now ref obj i r key q p in
      let (keys, observed, has_key, left) =
        get_observers-leases ext later watched i' or group
          (track_reference-IsKept ext now ref obj i h) known parsed in
      let live : exact_lease i' r key ≡ some (now + i.lease_duration) =
        lease
        ∙ rw ((reference_key.same_iff (exact_key ext ref) r).1 same)
            (rw ((name_key.same_iff key key).1 refl) refl) in
      (
        keys,
        observed,
        has_key key
            ∙ ap
                (λ (o : Option Time).
                  is_live later o
                  || watches? ext later (ext.get_namespace watched) (ext.get_labels watched)
                      (inexact_lease i' (partial_key ext group or.kind) key))
                live,
      )

  watches-insert :
      (namespace : String) (ls : ext.Labels) (k : MatcherKey) (m : Matcher ext.Selector)
      (ms : Matchers ext.Selector)
      → (not (after later m.expiry) && admits ext namespace ls k m) ≡ true
      → watches ext later namespace ls (insert k m ms) ≡ true
  watches-insert namespace ls k m [] h = rw h refl
  watches-insert namespace ls k m ((j, n) ∷ ms) h = elim (Bool-cases (j =? k)) [
    | inl same ↦
        let h' : (not (after later m.expiry) && admits ext namespace ls j m) ≡ true =
          ap (λ (x : MatcherKey). not (after later m.expiry) && admits ext namespace ls x m)
            ((matcher_key.same_iff j k).0 same)
          ∙ h in
        rw same (rw h' refl)
    | inr other ↦ rw other (ground (arith, watches-insert namespace ls k m ms h))
  ]

  -- After an object is tracked by a selector, its observer is among those of every object of the group
  -- and kind that has a matching namespace and labels, as long as the lease has not run out.
  pub get_observers_selected :
      (ref : Reference ext.Selector) (selector : ext.Selector) (obj watched : ext.Object)
      (i : Impl ext.Selector) (or : ObjectReference) (group : String)
      → IsKept i
      → field_errors ext ref ≡ []
      → ref.selector ≡ some selector
      → ext.get_reference watched ≡ ok or
      → ext.parse_group_version or.api_version ≡ ok group
      → partial_key ext ref.api_group ref.kind ≡ partial_key ext group or.kind
      → (not (ref.namespace == "") && not (ref.namespace == ext.get_namespace watched)) ≡ false
      → ext.selector_matches selector (ext.get_labels watched) ≡ true
      → after later (now + i.lease_duration) ≡ false
      → let i' = (track_reference ext now ref obj i).0 in
        (keys : List NamespacedName) × ((get_observers ext later watched i').1 ≡ ok keys)
        × (has (observer_key ext obj) keys ≡ true)
  get_observers_selected ref selector obj watched i or group h q p known parsed same near match
        live =
      let i' = (track_reference ext now ref obj i).0 in
      let key = observer_key ext obj in
      let r = partial_key ext group or.kind in
      let (error, others, lease) =
        track_reference-inexact_lease ext now ref selector obj i r key q p in
      let (keys, observed, has_key, left) =
        get_observers-leases ext later watched i' or group
          (track_reference-IsKept ext now ref obj i h) known parsed in
      let watching : watches? ext later (ext.get_namespace watched) (ext.get_labels watched)
            (inexact_lease i' r key)
          ≡ true =
        rw lease (
          rw ((reference_key.same_iff (partial_key ext ref.api_group ref.kind) r).1 same) (
            rw ((name_key.same_iff key key).1 refl) (
              watches-insert (ext.get_namespace watched) (ext.get_labels watched)
                (selector_key ext now ref selector)
                (record { selector = selector; expiry = now + i.lease_duration })
                (or_empty (inexact_lease i r key) []) (rw live (rw near (rw match refl)))))) in
      (keys, observed, has_key key ∙ rw watching (or_true _))
