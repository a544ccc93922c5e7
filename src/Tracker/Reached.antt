-- ===== src/Tracker/Reached.antt =====
-- The tracker (tracker/enqueue.go) after any calls, one after the other as its lock has it, and as time
-- goes on.
use reconciler_runtime.Base.{
  ◌+◌, ◌≤◌, ◌≡◌, refl, sym, ap, ◌∙◌, Bool, false, ◌&&◌, ◌||◌, Option, none, some, List, String, [],
  arith, if◌then◌else◌, Bool-cases, Option-cases, inl, inr, is_none,
}
use reconciler_runtime.Base.Lists.{List-cases}
use reconciler_runtime.Base.Map.{◌=?◌, has, lookup, nil-IsMapOf}
use reconciler_runtime.Tracker.{
  Time, NamespacedName, ObjectReference, External, ReferenceKey, Impl, Reference, name_key,
  reference_key, ok, new, Returned-cases,
}
use reconciler_runtime.Tracker.Methods.{
  after, track_reference, get_observers, field_errors, exact_key, partial_key, observer_key,
}
use reconciler_runtime.Tracker.Leases.{
  IsKept, exact_lease, inexact_lease, is_live, unexpired, watches?, lookup?,
}
use reconciler_runtime.Tracker.Invariant.{track_reference-IsKept, get_observers-IsKept}
use reconciler_runtime.Tracker.Contract.{
  reference_of, track_reference-exact_lease, track_reference_invalid, get_observers-leases,
}
use reconciler_runtime.Tracker.Delivery.{track_reference-inexact_lease}

-- The abstract view: when the last lease of an observer on a reference by name runs out, whether it has
-- been dropped since or not.
abbrev pub Promises : Type 0
Promises = ReferenceKey → NamespacedName → Option Time

abbrev pub no_promises : Promises
no_promises r k = none

abbrev pub promise : ReferenceKey → NamespacedName → Time → Promises → Promises
promise ref key expiry p r k = if ref =? r && key =? k then some expiry else p r k

unexpired_again :
    (early now : Time) (o : Option Time)
    → early ≤ now
    → unexpired now (unexpired early o) ≡ unexpired now o
unexpired_again early now none h = refl
unexpired_again early now (some expiry) h = ground arith

is_live-unexpired :
    (now : Time) (o p : Option Time)
    → unexpired now o ≡ unexpired now p
    → is_live now o ≡ is_live now p
is_live-unexpired now o p h = sym (kept o) ∙ ap (λ x. is_live now x) h ∙ kept p
  where
    kept : (o : Option Time) → is_live now (unexpired now o) ≡ is_live now o
    kept none = refl
    kept (some expiry) = ground arith

module _ (ext : External) (lease : Time) where
  -- The states that are reached by a time, with what has been promised: `New`, `TrackReference` by
  -- name, by selector or refused, and `GetObservers`, each at a time no earlier than the one
  -- before.
  pub data Reached : Time → Impl ext.Selector → Promises → Type 0 where
    fresh : Reached 0 (new lease) no_promises
    named :
        {at : Time} {i : Impl ext.Selector} {p : Promises} (now : Time)
        (ref : Reference ext.Selector) (obj : ext.Object)
        → Reached at i p
        → at ≤ now
        → field_errors ext ref ≡ []
        → ref.selector ≡ none
        → Reached now
            (track_reference ext now ref obj i).0
            (promise (exact_key ext ref) (observer_key ext obj) (now + lease) p)
    selected :
        {at : Time} {i : Impl ext.Selector} {p : Promises} (now : Time)
        (ref : Reference ext.Selector) (selector : ext.Selector) (obj : ext.Object)
        → Reached at i p
        → at ≤ now
        → field_errors ext ref ≡ []
        → ref.selector ≡ some selector
        → Reached now (track_reference ext now ref obj i).0 p
    refused :
        {at : Time} {i : Impl ext.Selector} {p : Promises} (now : Time)
        (ref : Reference ext.Selector) (obj : ext.Object)
        → Reached at i p
        → at ≤ now
        → is_none (track_reference ext now ref obj i).1 ≡ false
        → Reached now (track_reference ext now ref obj i).0 p
    observed :
        {at : Time} {i : Impl ext.Selector} {p : Promises} (now : Time) (obj : ext.Object)
        → Reached at i p
        → at ≤ now
        → Reached now (get_observers ext now obj i).0 p

  -- The maps tell of every lease that has not run out what has been promised.
  record Honours (at : Time) (i : Impl ext.Selector) (p : Promises) : Type 0 where
    kept : IsKept i
    duration : i.lease_duration ≡ lease
    honours :
        (now : Time) (r : ReferenceKey) (k : NamespacedName)
        → at ≤ now
        → unexpired now (exact_lease i r k) ≡ unexpired now (p r k)

  track_reference-lease_duration :
      (now : Time) (ref : Reference ext.Selector) (obj : ext.Object) (i : Impl ext.Selector)
      → (track_reference ext now ref obj i).0.lease_duration ≡ i.lease_duration
  unfolding track_reference
  track_reference-lease_duration now ref obj i = elim (List-cases (field_errors ext ref)) [
    | inr (e, es, q) ↦ rw (q, track_reference) refl
    | inl q ↦ elim (Option-cases ref.selector) [
      | inl none_given ↦ rw (q, none_given, track_reference) refl
      | inr (s, given) ↦ rw (q, given, track_reference) refl
    ]
  ]

  get_observers-lease_duration :
      (now : Time) (obj : ext.Object) (i : Impl ext.Selector)
      → (get_observers ext now obj i).0.lease_duration ≡ i.lease_duration
  unfolding get_observers
  get_observers-lease_duration now obj i = elim (Returned-cases (ext.get_reference obj)) [
    | inl (e, q) ↦ rw (q, get_observers) refl
    | inr (or, q) ↦ elim (Returned-cases (ext.parse_group_version or.api_version)) [
      | inl (e, q') ↦ rw (q, q', get_observers) refl
      | inr (group, q') ↦ rw (q, q', get_observers) refl
    ]
  ]

  unexpired-get_observers :
      (at now : Time) (obj : ext.Object) (i : Impl ext.Selector) (p : Promises)
      → at ≤ now
      → Honours at i p
      → (later : Time) (r : ReferenceKey) (k : NamespacedName) → now ≤ later
      → unexpired later (exact_lease (get_observers ext now obj i).0 r k) ≡ unexpired later (p r k)
  unfolding get_observers
  unexpired-get_observers at now obj i p before h later r k after =
      let honoured = h.honours later r k (omega arith) in
      elim (Returned-cases (ext.get_reference obj)) [
        | inl (e, q) ↦ rw (q, get_observers) honoured
        | inr (or, q) ↦ elim (Returned-cases (ext.parse_group_version or.api_version)) [
          | inl (e, q') ↦ rw (q, q', get_observers) honoured
          | inr (group, q') ↦
              let (keys, answer, has_key, left) =
                get_observers-leases ext now obj i or group h.kept q q' in
              ap (λ x. unexpired later x) (left r k)
              ∙ elim (Bool-cases (reference_of group or =? r)) [
                | inl same ↦
                    rw same (unexpired_again now later (exact_lease i r k) after ∙ honoured)
                | inr other ↦ rw other honoured
              ]
        ]
      ]

  Reached-Honours :
      {at : Time} {i : Impl ext.Selector} {p : Promises} → Reached at i p → Honours at i p
  Reached-Honours fresh = record {
    kept = record { exact = nil-IsMapOf _; inexact = nil-IsMapOf _ };
    duration = refl;
    honours = λ now r k h. refl;
  }
  Reached-Honours (named {at} {i} {p} now ref obj before later valid by_name) =
      let h = Reached-Honours before in
      record {
        kept = track_reference-IsKept ext now ref obj i h.kept;
        duration = track_reference-lease_duration now ref obj i ∙ h.duration;
        honours = λ now' r k le.
            ap (λ x. unexpired now' x)
              (track_reference-exact_lease ext now ref obj i r k valid by_name).2
            ∙ elim (Bool-cases (exact_key ext ref =? r && observer_key ext obj =? k)) [
              | inl this ↦ rw this (ap (λ d. unexpired now' (some (now + d))) h.duration)
              | inr other ↦ rw other (h.honours now' r k (omega arith))
            ];
      }
  Reached-Honours (selected {at} {i} {p} now ref selector obj before later valid by_selector) =
      let h = Reached-Honours before in
      record {
        kept = track_reference-IsKept ext now ref obj i h.kept;
        duration = track_reference-lease_duration now ref obj i ∙ h.duration;
        honours = λ now' r k le.
            ap (λ x. unexpired now' (lookup? k (lookup r x)))
              (track_reference-inexact_lease ext now ref selector obj i r k valid by_selector).1
            ∙ h.honours now' r k (omega arith);
      }
  Reached-Honours (refused {at} {i} {p} now ref obj before later invalid) =
      let h = Reached-Honours before in
      record {
        kept = track_reference-IsKept ext now ref obj i h.kept;
        duration = track_reference-lease_duration now ref obj i ∙ h.duration;
        honours = λ now' r k le.
            ap (λ x. unexpired now' (exact_lease x r k))
              (track_reference_invalid ext now ref obj i invalid)
            ∙ h.honours now' r k (omega arith);
      }
  Reached-Honours (observed {at} {i} {p} now obj before later) =
      let h = Reached-Honours before in
      record {
        kept = get_observers-IsKept ext now obj i h.kept;
        duration = get_observers-lease_duration now obj i ∙ h.duration;
        honours = unexpired-get_observers at now obj i p later h;
      }

  -- In every state that is reached from `New` by calls of `TrackReference` and `GetObservers` at times
  -- that do not go back, `GetObservers` of an object with a known reference returns exactly the
  -- observers whose last lease on it by name has not run out, whatever earlier calls have dropped, and
  -- those with a matching lease by selector in the maps that has not run out.
  pub Reached-get_observers :
      {at : Time} {i : Impl ext.Selector} {p : Promises} (now : Time) (obj : ext.Object)
      (or : ObjectReference) (group : String)
      → Reached at i p
      → at ≤ now
      → ext.get_reference obj ≡ ok or
      → ext.parse_group_version or.api_version ≡ ok group
      → (keys : List NamespacedName) × ((get_observers ext now obj i).1 ≡ ok keys)
        × ((k : NamespacedName)
            → has k keys ≡ (
                is_live now (p (reference_of group or) k)
                || watches? ext now
                    (ext.get_namespace obj)
                    (ext.get_labels obj)
                    (inexact_lease i (partial_key ext group or.kind) k)))
  Reached-get_observers {at} {i} {p} now obj or group reached later known parsed =
      let h = Reached-Honours reached in
      let ref = reference_of group or in
      let (keys, answer, has_key, left) =
        get_observers-leases ext now obj i or group h.kept known parsed in
      (
        keys,
        answer,
        λ k.
            has_key k
            ∙ ap
                (λ (b : Bool).
                  b
                  || watches? ext now (ext.get_namespace obj) (ext.get_labels obj)
                      (inexact_lease i (partial_key ext group or.kind) k))
                (is_live-unexpired now (exact_lease i ref k) (p ref k) (h.honours now ref k later)),
      )
