-- ===== src/Tracker.antt =====
-- tracker/enqueue.go and tracker/interface.go: who watches which objects, by leases that run out.
-- The two maps of `impl` are its state; the lock makes each method one step. `time.Now()` is an
-- argument. The scheme, the validation of names and label selectors are a parameter, `External`.
pub mod Methods
pub mod Invariant
pub mod Leases
pub mod Contract
pub mod Delivery
pub mod Reached
mod Tests
use reconciler_runtime.Base.{
  ℕ, ◌≡◌, refl, ap, ◌↔◌, ◌⊎◌, inl, inr, ◌∙◌, sym, Bool, true, false, ◌&&◌, Option, none, some, List,
  [], ◌∷◌, String, ◌==◌, arith, eq_iff, if◌then◌else◌,
}
use reconciler_runtime.Base.Map.{Key, Map}
use reconciler_runtime.Errors.{Error}

abbrev pub Time : Type 0
Time = ℕ

-- `types.NamespacedName`
pub record NamespacedName : Type 0 where
  pub namespace : String
  pub name : String

-- `corev1.ObjectReference`, as far as the tracker reads it
pub record ObjectReference : Type 0 where
  pub api_version : String
  pub kind : String
  pub namespace : String
  pub name : String

-- A call that returns a value or an error.
pub data Returned (A : Type 0) : Type 0 where
  ok : A → Returned A
  err : Error → Returned A

pub Returned-cases :
    {A : Type 0} (r : Returned A) → ((e : Error) × (r ≡ err e)) ⊎ ((a : A) × (r ≡ ok a))
Returned-cases (ok a) = inr (a, refl)
Returned-cases (err e) = inl (e, refl)

-- What the tracker calls and does not implement: client objects, `reference.GetReference` with the
-- scheme, group versions, the name checks of the validation package (each returns its messages),
-- and label selectors.
pub record External : Type 1 where
  pub Object : Type 0
  pub Labels : Type 0
  pub Selector : Type 0
  pub get_namespace : Object → String
  pub get_name : Object → String
  pub get_labels : Object → Labels
  pub get_reference : Object → Returned ObjectReference
  pub group_of : String → String
  pub parse_group_version : String → Returned String
  pub is_c_identifier : String → List String
  pub is_dns1123_subdomain : String → List String
  pub is_dns1123_label : String → List String
  pub selector_text : Selector → String
  pub selector_matches : Selector → Labels → Bool

-- `Reference` as a key of the two maps: its `Selector` is nil there.
pub record ReferenceKey : Type 0 where
  pub api_group : String
  pub kind : String
  pub namespace : String
  pub name : String

pub record MatcherKey : Type 0 where
  pub selector : String
  pub namespace : String

abbrev pub same_name : NamespacedName → NamespacedName → Bool
same_name a b = a.namespace == b.namespace && a.name == b.name

pub same_name_iff : (a b : NamespacedName) → (same_name a b ≡ true) ↔ (a ≡ b)
same_name_iff a b = ground (arith, eq_iff a.namespace b.namespace, eq_iff a.name b.name)

abbrev pub same_matcher_key : MatcherKey → MatcherKey → Bool
same_matcher_key a b = a.selector == b.selector && a.namespace == b.namespace

pub same_matcher_key_iff : (a b : MatcherKey) → (same_matcher_key a b ≡ true) ↔ (a ≡ b)
same_matcher_key_iff a b =
    ground (arith, eq_iff a.namespace b.namespace, eq_iff a.selector b.selector)

abbrev pub same_reference : ReferenceKey → ReferenceKey → Bool
same_reference a b =
    a.api_group == b.api_group && a.kind == b.kind && a.namespace == b.namespace && a.name == b.name

pub same_reference_iff : (a b : ReferenceKey) → (same_reference a b ≡ true) ↔ (a ≡ b)
same_reference_iff a b = ground (
  arith,
  eq_iff a.api_group b.api_group,
  eq_iff a.kind b.kind,
  eq_iff a.namespace b.namespace,
  eq_iff a.name b.name,
)

instance abbrev pub name_key : Key NamespacedName
name_key = record { same = same_name; same_iff = same_name_iff }

instance abbrev pub matcher_key : Key MatcherKey
matcher_key = record { same = same_matcher_key; same_iff = same_matcher_key_iff }

instance abbrev pub reference_key : Key ReferenceKey
reference_key = record { same = same_reference; same_iff = same_reference_iff }

-- `exactSet`
abbrev pub ExactSet : Type 0
ExactSet = Map NamespacedName Time

-- `matcher`, `matchers`, `inexactSet`
pub record Matcher (Selector : Type 0) : Type 0 where
  pub selector : Selector
  pub expiry : Time

abbrev pub Matchers : Type 0 → Type 0
Matchers Selector = Map MatcherKey (Matcher Selector)

abbrev pub InexactSet : Type 0 → Type 0
InexactSet Selector = Map NamespacedName (Matchers Selector)

-- `Reference`
pub record Reference (Selector : Type 0) : Type 0 where
  pub api_group : String
  pub kind : String
  pub namespace : String
  pub name : String
  pub selector : Option Selector

-- `impl`; a nil map and an empty one are alike.
pub record Impl (Selector : Type 0) : Type 0 where
  pub exact : Map ReferenceKey ExactSet
  pub inexact : Map ReferenceKey (InexactSet Selector)
  pub lease_duration : Time

-- `New`
abbrev pub new : {Selector : Type 0} → Time → Impl Selector
new lease = record { exact = []; inexact = []; lease_duration = lease }
