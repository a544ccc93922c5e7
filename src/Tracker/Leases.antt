-- ===== src/Tracker/Leases.antt =====
-- The leases that the tracker holds, as an abstract view of its maps, and what the loops of
-- `GetObservers` (tracker/enqueue.go) keep of them.
use reconciler_runtime.Base.{
  ◌≡◌, refl, subst, ◌∙◌, inl, inr, Bool, false, not, ◌&&◌, ◌||◌, Option, none, some, List, [], ◌∷◌,
  String, arith, if◌then◌else◌, Bool-cases, Option-cases,
}
use reconciler_runtime.Base.Map.{
  Map, ◌=?◌, lookup, add, has, IsKeyed, lookup-insert, lookup-erase, has-add, IsMapOf,
}
use reconciler_runtime.Tracker.{
  Time, NamespacedName, External, ReferenceKey, MatcherKey, name_key, matcher_key, reference_key,
  ExactSet, Matcher, Matchers, InexactSet, Impl,
}
use reconciler_runtime.Tracker.Methods.{
  after, admits, observe_exact, observe_matchers, observe_inexact, store_left, exact_observers,
  inexact_observers,
}

-- A lease that has not run out.
abbrev pub unexpired : Time → Option Time → Option Time
unexpired now none = none
unexpired now (some expiry) = if after now expiry then none else some expiry

abbrev pub is_live : Time → Option Time → Bool
is_live now none = false
is_live now (some expiry) = not (after now expiry)

pub lookup-observe_exact :
    (ext : External) (now : Time) (s : ExactSet) (keys : List NamespacedName) (k : NamespacedName)
    → IsKeyed s
    → lookup k (observe_exact ext now s keys).0 ≡ unexpired now (lookup k s)
unfolding observe_exact
lookup-observe_exact ext now [] keys k h = refl
lookup-observe_exact ext now ((key, expiry) ∷ s) keys k h = ground (
  arith,
  name_key.same_iff key k,
  lookup-observe_exact ext now s keys k h.1,
  lookup-observe_exact ext now s (add key keys) k h.1,
)

has-observe_exact :
    (ext : External) (now : Time) (s : ExactSet) (keys : List NamespacedName) (k : NamespacedName)
    → IsKeyed s
    → has k (observe_exact ext now s keys).1 ≡ (has k keys || is_live now (lookup k s))
unfolding observe_exact
has-observe_exact ext now [] keys k h = ground arith
has-observe_exact ext now ((key, expiry) ∷ s) keys k h = ground (
  arith,
  name_key.same_iff key k,
  has-observe_exact ext now s keys k h.1,
  has-observe_exact ext now s (add key keys) k h.1,
  has-add key k keys,
)

-- Does one of the matchers hold a lease that has not run out, and match?
abbrev pub watches : (ext : External) → Time → String → ext.Labels → Matchers ext.Selector → Bool
watches ext now namespace ls [] = false
watches ext now namespace ls ((k, m) ∷ ms) =
    not (after now m.expiry) && admits ext namespace ls k m || watches ext now namespace ls ms

abbrev pub watches? :
    (ext : External) → Time → String → ext.Labels → Option (Matchers ext.Selector) → Bool
watches? ext now namespace ls none = false
watches? ext now namespace ls (some ms) = watches ext now namespace ls ms

module _ (ext : External) (now : Time) (namespace : String) (ls : ext.Labels) where
  has-observe_matchers :
      (key : NamespacedName) (ms : Matchers ext.Selector) (keys : List NamespacedName)
      (k : NamespacedName)
      → has k (observe_matchers ext now namespace ls key ms keys).1
        ≡ (has k keys || key =? k && watches ext now namespace ls ms)
  unfolding observe_matchers
  has-observe_matchers key [] keys k = ground arith
  has-observe_matchers key ((j, m) ∷ ms) keys k =
      let keys' = if admits ext namespace ls j m then add key keys else keys in
      elim (Bool-cases (after now m.expiry)) [
        | inl lapsed ↦ rw (lapsed, observe_matchers) (has-observe_matchers key ms keys k)
        | inr alive ↦
            rw (alive, observe_matchers)
              (has-observe_matchers key ms keys' k
                ∙ elim (Bool-cases (admits ext namespace ls j m)) [
                  | inl yes_m ↦ rw yes_m (rw (has-add key k keys) (ground arith))
                  | inr no_m ↦ rw no_m
                ])
      ]

  has-observe_inexact :
      (is : InexactSet ext.Selector) (keys : List NamespacedName) (k : NamespacedName)
      → IsKeyed is
      → has k (observe_inexact ext now namespace ls is keys).1
        ≡ (has k keys || watches? ext now namespace ls (lookup k is))
  unfolding observe_inexact
  has-observe_inexact [] keys k h = ground arith
  has-observe_inexact ((key, ms) ∷ is) keys k h =
      let keys' = (observe_matchers ext now namespace ls key ms keys).1 in
      has-observe_inexact is keys' k h.1
      ∙ rw (has-observe_matchers key ms keys k) (elim (Bool-cases (key =? k)) [
        | inl same ↦
            let absent : lookup k is ≡ none =
              subst (λ x. lookup x is ≡ none) ((name_key.same_iff key k).0 same) h.0 in
            rw (same, absent) (ground arith)
        | inr other ↦ rw other (ground arith)
      ])

  -- A matcher is left exactly when its lease has not run out.
  abbrev pub unexpired_matcher : Option (Matcher ext.Selector) → Option (Matcher ext.Selector)
  unexpired_matcher none = none
  unexpired_matcher (some m) = if after now m.expiry then none else some m

  pub lookup-observe_matchers :
      (key : NamespacedName) (ms : Matchers ext.Selector) (keys : List NamespacedName)
      (j : MatcherKey)
      → IsKeyed ms
      → lookup j (observe_matchers ext now namespace ls key ms keys).0
        ≡ unexpired_matcher (lookup j ms)
  unfolding observe_matchers
  lookup-observe_matchers key [] keys j h = refl
  lookup-observe_matchers key ((i, m) ∷ ms) keys j h =
      let keys' = if admits ext namespace ls i m then add key keys else keys in
      ground (
        arith,
        matcher_key.same_iff i j,
        lookup-observe_matchers key ms keys j h.1,
        lookup-observe_matchers key ms keys' j h.1,
      )

-- What a map that may be missing holds.
abbrev pub lookup? : {V : Type 0} → NamespacedName → Option (Map NamespacedName V) → Option V
lookup? key none = none
lookup? key (some m) = lookup key m

-- The lease by name of an observer on a reference.
abbrev pub exact_lease :
    {Selector : Type 0} → Impl Selector → ReferenceKey → NamespacedName → Option Time
exact_lease i ref key = lookup? key (lookup ref i.exact)

-- The leases by selector of an observer on a group and kind.
abbrev pub inexact_lease :
    {Selector : Type 0} → Impl Selector → ReferenceKey → NamespacedName → Option (Matchers Selector)
inexact_lease i ref key = lookup? key (lookup ref i.inexact)

-- No map has a key twice.
pub record IsKept {Selector : Type 0} (i : Impl Selector) : Type 0 where
  pub exact : IsMapOf IsKeyed i.exact
  pub inexact : IsMapOf (IsMapOf IsKeyed) i.inexact

pub has-exact_observers :
    (ext : External) (now : Time) (i : Impl ext.Selector) (ref : ReferenceKey) (k : NamespacedName)
    → IsKept i
    → has k (exact_observers ext now ref i.exact).1 ≡ is_live now (exact_lease i ref k)
unfolding exact_observers
has-exact_observers ext now i ref k h = elim (Option-cases (lookup ref i.exact)) [
  | inl e ↦ rw (e, exact_observers) refl
  | inr (s, e) ↦ rw (e, exact_observers) (has-observe_exact ext now s [] k (h.exact.values ref s e))
]

pub has-inexact_observers :
    (ext : External) (now : Time) (i : Impl ext.Selector) (ref : ReferenceKey) (namespace : String)
    (ls : ext.Labels) (keys : List NamespacedName) (k : NamespacedName)
    → IsKept i
    → has k (inexact_observers ext now ref namespace ls i.inexact keys).1
      ≡ (has k keys || watches? ext now namespace ls (inexact_lease i ref k))
unfolding inexact_observers
has-inexact_observers ext now i ref namespace ls keys k h =
    elim (Option-cases (lookup ref i.inexact)) [
      | inl e ↦ rw (e, inexact_observers) (ground arith)
      | inr (is, e) ↦
          rw (e, inexact_observers)
            (has-observe_inexact ext now namespace ls is keys k (h.inexact.values ref is e).keyed)
    ]

lookup?-store_left :
    {V : Type 0} (k : NamespacedName) (ref r : ReferenceKey) (s : Map NamespacedName V)
    (m : Map ReferenceKey (Map NamespacedName V))
    → IsKeyed m
    → lookup? k (lookup r (store_left ref s m))
      ≡ (if ref =? r then lookup k s else lookup? k (lookup r m))
lookup?-store_left k ref r [] m h =
    rw (lookup-erase ref r m h) (elim (Bool-cases (ref =? r)) [ inl q ↦ rw q | inr q ↦ rw q ])
lookup?-store_left k ref r (x ∷ s) m h =
    rw (lookup-insert ref r (x ∷ s) m)
      (elim (Bool-cases (ref =? r)) [ inl q ↦ rw q | inr q ↦ rw q ])

-- The lookup by name drops the leases on the reference that have run out, and no others.
pub exact_observers-exact_lease :
    (ext : External) (now : Time) (i : Impl ext.Selector) (ref r : ReferenceKey)
    (k : NamespacedName)
    → IsKept i
    → let i' = record i { exact = (exact_observers ext now ref i.exact).0 } in
      exact_lease i' r k
      ≡ (if ref =? r then unexpired now (exact_lease i r k) else exact_lease i r k)
unfolding exact_observers
exact_observers-exact_lease ext now i ref r k h = elim (Option-cases (lookup ref i.exact)) [
  | inl e ↦
      rw (e, exact_observers)
        (elim (Bool-cases (ref =? r)) [
          | inl q ↦
              let absent : lookup r i.exact ≡ none =
                subst (λ x. lookup x i.exact ≡ none) ((reference_key.same_iff ref r).0 q) e in
              rw (q, absent)
          | inr q ↦ rw q
        ])
  | inr (s, e) ↦
      let keyed = h.exact.values ref s e in
      let s' = (observe_exact ext now s []).0 in
      rw (e, exact_observers)
        (lookup?-store_left k ref r s' i.exact h.exact.keyed ∙ elim (Bool-cases (ref =? r)) [
          | inl q ↦
              let found : lookup r i.exact ≡ some s =
                subst (λ x. lookup x i.exact ≡ some s) ((reference_key.same_iff ref r).0 q) e in
              rw (q, found) (lookup-observe_exact ext now s [] k keyed)
          | inr q ↦ rw q
        ])
]
