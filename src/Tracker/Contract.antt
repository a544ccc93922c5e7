-- ===== src/Tracker/Contract.antt =====
-- What the tracker promises (tracker/interface.go), stated on leases: tracking sets one lease, the
-- observers of an object are those with a lease that matches it and has not run out.
use reconciler_runtime.Base.{
  ◌+◌, ◌≡◌, refl, ap, ◌∙◌, inl, inr, Bool, false, ◌&&◌, ◌||◌, Option, none, some, List, [], String,
  if◌then◌else◌, Bool-cases, Option-cases, is_none,
}
use reconciler_runtime.Base.Lists.{List-cases}
use reconciler_runtime.Base.Map.{Map, ◌=?◌, lookup, insert, has, lookup-insert}
use reconciler_runtime.Tracker.{
  Time, NamespacedName, ObjectReference, External, ReferenceKey, name_key, matcher_key,
  reference_key, Impl, Reference, ok,
}
use reconciler_runtime.Tracker.Methods.{
  exact_observers, get_observers, inexact_observers, track_reference, field_errors, observer_key,
  exact_key, partial_key, or_empty,
}
use reconciler_runtime.Tracker.Leases.{
  IsKept, exact_lease, inexact_lease, lookup?, unexpired, is_live, watches?, has-exact_observers,
  has-inexact_observers, exact_observers-exact_lease,
}

pub lookup?-or_empty :
    {V : Type 0} (k : NamespacedName) (o : Option (Map NamespacedName V))
    → lookup k (or_empty o []) ≡ lookup? k o
lookup?-or_empty k none = refl
lookup?-or_empty k (some m) = refl

-- The key under which `GetObservers` looks up an object by name.
abbrev pub reference_of : String → ObjectReference → ReferenceKey
reference_of group or = record {
  api_group = group;
  kind = or.kind;
  namespace = or.namespace;
  name = or.name;
}

module _ (ext : External) (now : Time) where
  -- `TrackReference` by name: for a valid reference with no selector, exactly the observer's lease
  -- on that reference is set, to run out after the lease duration; no other lease by name changes,
  -- none by selector does, and no error is returned.
  pub track_reference-exact_lease :
      (ref : Reference ext.Selector) (obj : ext.Object) (i : Impl ext.Selector) (r : ReferenceKey)
      (k : NamespacedName)
      → field_errors ext ref ≡ []
      → ref.selector ≡ none
      → let (i', error) = track_reference ext now ref obj i in
        (error ≡ none)
        × (i'.inexact ≡ i.inexact)
        × (exact_lease i' r k ≡ (
            if exact_key ext ref =? r && observer_key ext obj =? k
            then some (now + i.lease_duration)
            else exact_lease i r k))
  unfolding track_reference
  track_reference-exact_lease ref obj i r k q p =
      let e_key = exact_key ext ref in
      let key = observer_key ext obj in
      let l = or_empty (lookup e_key i.exact) [] in
      rw (q, p, track_reference)
        (
          refl,
          refl,
          rw (lookup-insert e_key r (insert key (now + i.lease_duration) l) i.exact)
              (elim (Bool-cases (e_key =? r)) [
                | inr other ↦ rw other
                | inl same ↦ rw same (
                    rw (lookup-insert key k (now + i.lease_duration) l) (
                      rw (lookup?-or_empty k (lookup e_key i.exact))
                        (rw (← (reference_key.same_iff e_key r).0 same))))
              ]),
        )

  -- An invalid reference is refused with an error, and changes nothing.
  pub track_reference_invalid :
      (ref : Reference ext.Selector) (obj : ext.Object) (i : Impl ext.Selector)
      → is_none (track_reference ext now ref obj i).1 ≡ false
      → (track_reference ext now ref obj i).0 ≡ i
  unfolding track_reference
  track_reference_invalid ref obj i h = elim (List-cases (field_errors ext ref)) [
    | inr (e, es, q) ↦ rw (q, track_reference)
    | inl q ↦ elim (Option-cases ref.selector) [
      | inl p ↦ absurd (cc (rw (q, p, track_reference) at h))
      | inr (s, p) ↦ absurd (cc (rw (q, p, track_reference) at h))
    ]
  ]

  -- `GetObservers`, for an object whose reference and group are known, returns exactly the
  -- observers with a live lease on the object's name, or with a live lease on its group and kind
  -- whose namespace is empty or the object's and whose selector matches its labels. Of the leases
  -- by name it drops those on this reference that have run out, and no others.
  pub get_observers-leases :
      (obj : ext.Object) (i : Impl ext.Selector) (or : ObjectReference) (group : String)
      → IsKept i
      → ext.get_reference obj ≡ ok or
      → ext.parse_group_version or.api_version ≡ ok group
      → let (i', result) = get_observers ext now obj i in
        let ref = reference_of group or in
        (keys : List NamespacedName) × (result ≡ ok keys)
        × ((k : NamespacedName)
            → has k keys ≡ (
                is_live now (exact_lease i ref k)
                || watches? ext now
                    (ext.get_namespace obj)
                    (ext.get_labels obj)
                    (inexact_lease i (partial_key ext group or.kind) k)))
        × ((r : ReferenceKey) (k : NamespacedName)
            → exact_lease i' r k
              ≡ (if ref =? r then unexpired now (exact_lease i r k) else exact_lease i r k))
  unfolding get_observers
  get_observers-leases obj i or group h q p =
      let ref = reference_of group or in
      let partial_ref = partial_key ext group or.kind in
      let namespace = ext.get_namespace obj in
      let ls = ext.get_labels obj in
      let keys = (exact_observers ext now ref i.exact).1 in
      rw (q, p, get_observers)
        (
          (inexact_observers ext now partial_ref namespace ls i.inexact keys).1,
          refl,
          (λ k.
              has-inexact_observers ext now i partial_ref namespace ls keys k h
              ∙ ap
                  (λ (b : Bool). b || watches? ext now namespace ls (inexact_lease i partial_ref k))
                  (has-exact_observers ext now i ref k h)),
          (λ r k. exact_observers-exact_lease ext now i ref r k h),
        )
