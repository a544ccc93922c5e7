-- ===== src/Tracker/Invariant.antt =====
-- Tracking and observing (tracker/enqueue.go) keep the maps free of double keys.
use reconciler_runtime.Base.{
  ◌+◌, ◌≡◌, refl, subst, inl, inr, false, Option, none, some, List, [], ◌∷◌, String, arith,
  if◌then◌else◌, Bool-cases, Option-cases,
}
use reconciler_runtime.Base.Lists.{List-cases}
use reconciler_runtime.Base.Map.{
  Map, Key, ◌=?◌, lookup, add, IsKeyed, insert-IsKeyed, IsMapOf, insert-IsMapOf, erase-IsMapOf,
  nil-IsMapOf,
}
use reconciler_runtime.Tracker.{
  Time, NamespacedName, External, ReferenceKey, name_key, matcher_key, reference_key, ExactSet,
  Matchers, InexactSet, Impl, Reference, Returned-cases,
}
use reconciler_runtime.Tracker.Methods.{
  admits, observe_exact, observe_matchers, observe_inexact, store_left, exact_observers,
  get_observers, inexact_observers, track_reference, field_errors, observer_key, exact_key,
  partial_key, or_empty, keep_left,
}
use reconciler_runtime.Tracker.Leases.{IsKept, lookup-observe_exact, lookup-observe_matchers}

or_empty-IsKeyed :
    {K V : Type 0} ⦃e : Key K⦄ (o : Option (Map K V))
    → ((m : Map K V) → o ≡ some m → IsKeyed m)
    → IsKeyed (or_empty o [])
or_empty-IsKeyed none h = tt
or_empty-IsKeyed (some m) h = h m refl

or_empty-IsMapOf :
    {K V : Type 0} ⦃e : Key K⦄ (P : V → Type 0) (o : Option (Map K V))
    → ((m : Map K V) → o ≡ some m → IsMapOf P m)
    → IsMapOf P (or_empty o [])
or_empty-IsMapOf P none h = nil-IsMapOf P
or_empty-IsMapOf P (some m) h = h m refl

store_left-IsMapOf :
    {V : Type 0} (P : List V → Type 0) (ref : ReferenceKey) (l : List V)
    (m : Map ReferenceKey (List V))
    → P l
    → IsMapOf P m
    → IsMapOf P (store_left ref l m)
store_left-IsMapOf P ref [] m good h = erase-IsMapOf P ref m h
store_left-IsMapOf P ref (x ∷ l) m good h = insert-IsMapOf P ref (x ∷ l) m good h

module _ (ext : External) (now : Time) where
  observe_exact-IsKeyed :
      (s : ExactSet) (keys : List NamespacedName)
      → IsKeyed s
      → IsKeyed (observe_exact ext now s keys).0
  unfolding observe_exact
  observe_exact-IsKeyed [] keys h = tt
  observe_exact-IsKeyed ((key, expiry) ∷ s) keys h = ground (
    arith,
    observe_exact-IsKeyed s keys h.1,
    observe_exact-IsKeyed s (add key keys) h.1,
    lookup-observe_exact ext now s (add key keys) key h.1,
  )

  module _ (namespace : String) (ls : ext.Labels) where
    observe_matchers-IsKeyed :
        (key : NamespacedName) (ms : Matchers ext.Selector) (keys : List NamespacedName)
        → IsKeyed ms
        → IsKeyed (observe_matchers ext now namespace ls key ms keys).0
    unfolding observe_matchers
    observe_matchers-IsKeyed key [] keys h = tt
    observe_matchers-IsKeyed key ((k, m) ∷ ms) keys h =
        let keys' = if admits ext namespace ls k m then add key keys else keys in
        ground (
          arith,
          observe_matchers-IsKeyed key ms keys h.1,
          observe_matchers-IsKeyed key ms keys' h.1,
          lookup-observe_matchers ext now namespace ls key ms keys' k h.1,
        )

    keep_left-none :
        (key k : NamespacedName) (ms : Matchers ext.Selector) (is : InexactSet ext.Selector)
        → (key =? k) ≡ false
        → lookup k is ≡ none
        → lookup k (keep_left ext key ms is) ≡ none
    keep_left-none key k [] is ne h = h
    keep_left-none key k (x ∷ ms) is ne h = rw ne h

    observe_inexact-none :
        (is : InexactSet ext.Selector) (keys : List NamespacedName) (k : NamespacedName)
        → lookup k is ≡ none
        → lookup k (observe_inexact ext now namespace ls is keys).0 ≡ none
    unfolding observe_inexact
    observe_inexact-none [] keys k h = refl
    observe_inexact-none ((key, ms) ∷ is) keys k h =
        let (ms', keys') = observe_matchers ext now namespace ls key ms keys in
        let ne : (key =? k) ≡ false = ground arith in
        keep_left-none key k ms' (observe_inexact ext now namespace ls is keys').0 ne
          (observe_inexact-none is keys' k (rw ne at h))

    keep_left-IsMapOf :
        (key : NamespacedName) (ms : Matchers ext.Selector) (is : InexactSet ext.Selector)
        → IsKeyed ms
        → lookup key is ≡ none
        → IsMapOf IsKeyed is
        → IsMapOf IsKeyed (keep_left ext key ms is)
    keep_left-IsMapOf key [] is good new_key h = h
    keep_left-IsMapOf key (x ∷ ms) is good new_key h = record {
      keyed = (new_key, h.keyed);
      values = λ k v found. elim (Bool-cases (key =? k)) [
        | inl q ↦
            let same : some (x ∷ ms) ≡ some v = rw q at found in
            subst IsKeyed {x = x ∷ ms} (cc) good
        | inr q ↦ h.values k v (rw q at found)
      ];
    }

    tail-IsMapOf :
        (key : NamespacedName) (ms : Matchers ext.Selector) (is : InexactSet ext.Selector)
        → IsMapOf IsKeyed ((key, ms) ∷ is)
        → IsMapOf IsKeyed is
    tail-IsMapOf key ms is h = record {
      keyed = h.keyed.1;
      values = λ k v found. elim (Bool-cases (key =? k)) [
        | inl q ↦
            let absent : lookup k is ≡ none =
              subst (λ x. lookup x is ≡ none) ((name_key.same_iff key k).0 q) h.keyed.0 in
            absurd (cc)
        | inr q ↦ h.values k v (rw q found)
      ];
    }

    observe_inexact-IsMapOf :
        (is : InexactSet ext.Selector) (keys : List NamespacedName)
        → IsMapOf IsKeyed is
        → IsMapOf IsKeyed (observe_inexact ext now namespace ls is keys).0
    unfolding observe_inexact
    observe_inexact-IsMapOf [] keys h = h
    observe_inexact-IsMapOf ((key, ms) ∷ is) keys h =
        let (ms', keys') = observe_matchers ext now namespace ls key ms keys in
        keep_left-IsMapOf key ms' (observe_inexact ext now namespace ls is keys').0
          (observe_matchers-IsKeyed key ms keys
            (h.values key ms (ground (arith, name_key.same_iff key key))))
          (observe_inexact-none is keys' key h.keyed.0)
          (observe_inexact-IsMapOf is keys' (tail-IsMapOf key ms is h))

  exact_observers-IsMapOf :
      (ref : ReferenceKey) (exact : Map ReferenceKey ExactSet)
      → IsMapOf IsKeyed exact
      → IsMapOf IsKeyed (exact_observers ext now ref exact).0
  unfolding exact_observers
  exact_observers-IsMapOf ref exact h = elim (Option-cases (lookup ref exact)) [
    | inl e ↦ rw (e, exact_observers) h
    | inr (s, e) ↦
        rw (e, exact_observers)
          (store_left-IsMapOf IsKeyed ref (observe_exact ext now s []).0 exact
            (observe_exact-IsKeyed s [] (h.values ref s e)) h)
  ]

  inexact_observers-IsMapOf :
      (ref : ReferenceKey) (namespace : String) (ls : ext.Labels)
      (inexact : Map ReferenceKey (InexactSet ext.Selector)) (keys : List NamespacedName)
      → IsMapOf (IsMapOf IsKeyed) inexact
      → IsMapOf (IsMapOf IsKeyed) (inexact_observers ext now ref namespace ls inexact keys).0
  unfolding inexact_observers
  inexact_observers-IsMapOf ref namespace ls inexact keys h =
      elim (Option-cases (lookup ref inexact)) [
        | inl e ↦ rw (e, inexact_observers) h
        | inr (is, e) ↦
            rw (e, inexact_observers)
              (store_left-IsMapOf (IsMapOf IsKeyed) ref
                (observe_inexact ext now namespace ls is keys).0 inexact
                (observe_inexact-IsMapOf namespace ls is keys (h.values ref is e)) h)
      ]

  -- Every call of `GetObservers` keeps the maps free of double keys.
  pub get_observers-IsKept :
      (obj : ext.Object) (i : Impl ext.Selector) → IsKept i → IsKept (get_observers ext now obj i).0
  unfolding get_observers
  get_observers-IsKept obj i h = elim (Returned-cases (ext.get_reference obj)) [
    | inl (e, q) ↦ rw (q, get_observers) h
    | inr (or, q) ↦ elim (Returned-cases (ext.parse_group_version or.api_version)) [
      | inl (e, p) ↦ rw (q, p, get_observers) h
      | inr (group, p) ↦
          rw (q, p, get_observers)
            (record {
              exact = exact_observers-IsMapOf _ i.exact h.exact;
              inexact = inexact_observers-IsMapOf _ _ _ i.inexact _ h.inexact;
            })
    ]
  ]

  -- Every call of `TrackReference` keeps the maps free of double keys.
  pub track_reference-IsKept :
      (ref : Reference ext.Selector) (obj : ext.Object) (i : Impl ext.Selector)
      → IsKept i
      → IsKept (track_reference ext now ref obj i).0
  unfolding track_reference
  track_reference-IsKept ref obj i h = elim (List-cases (field_errors ext ref)) [
    | inr (e, es, q) ↦ rw (q, track_reference) h
    | inl q ↦ elim (Option-cases ref.selector) [
      | inl p ↦
          rw (q, p, track_reference)
            (record {
              exact =
                  insert-IsMapOf IsKeyed (exact_key ext ref) _ i.exact
                    (insert-IsKeyed (observer_key ext obj) (now + i.lease_duration) _ (
                      or_empty-IsKeyed (lookup (exact_key ext ref) i.exact)
                        (h.exact.values (exact_key ext ref))))
                    h.exact;
              inexact = h.inexact;
            })
      | inr (selector, p) ↦
          let partial_ref = partial_key ext ref.api_group ref.kind in
          let is = or_empty (lookup partial_ref i.inexact) [] in
          let is-IsMapOf =
            or_empty-IsMapOf IsKeyed (lookup partial_ref i.inexact)
              (h.inexact.values partial_ref) in
          rw (q, p, track_reference)
            (record {
              exact = h.exact;
              inexact =
                  insert-IsMapOf (IsMapOf IsKeyed) partial_ref _ i.inexact
                    (insert-IsMapOf IsKeyed (observer_key ext obj) _ is
                      (insert-IsKeyed _ _ _ (
                        or_empty-IsKeyed (lookup (observer_key ext obj) is)
                          (is-IsMapOf.values (observer_key ext obj))))
                      is-IsMapOf)
                    h.inexact;
            })
    ]
  ]
