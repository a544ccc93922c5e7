-- ===== src/Duck/Wrapped.antt =====
-- A client that is wrapped twice (duck/client.go).
use reconciler_runtime.Base.{◌≡◌, refl, ap, Bool, false, inl, inr, Bool-cases, String}
use reconciler_runtime.Tracker.{Returned-cases}
use reconciler_runtime.Duck.{
  External, Form, unstructured, Kin, Call, is_duck, converted, not_supported, Client,
  new_duck_aware_client_wrapper, not_created, not_updated, by_unstructured, convert_back, Query,
  kind_for, namespaced, ask_unstructured,
}

-- The scheme takes an unstructured object for registered, whatever it holds.
abbrev pub KnowsUnstructured : (ext : External) → Kin ext → Type 0
KnowsUnstructured ext k = (u : k.Object unstructured) → k.is_not_registered u ≡ false

module _ (ext : External) (k : Kin ext) {S : Type 0} (call : Call ext k S) where
  converted_once :
      KnowsUnstructured ext k
      → (f : Form) (obj : k.Object f) (s : S)
      → converted ext k (converted ext k call) f obj s ≡ converted ext k call f obj s
  unfolding converted
  converted_once known f obj s = elim (Bool-cases (is_duck ext k obj)) [
    | inr plain ↦ rw plain refl
    | inl duck ↦ elim (Returned-cases (k.to_unstructured obj)) [
      | inl (e, h) ↦ rw (duck, h, by_unstructured) refl
      | inr (u, h) ↦ rw (duck, h, by_unstructured) (rw (known (k.of_map u)) refl)
    ]
  ]

  not_supported_once :
      (message : String) (f : Form) (obj : k.Object f) (s : S)
      → not_supported ext message k (not_supported ext message k call) f obj s
        ≡ not_supported ext message k call f obj s
  unfolding not_supported
  not_supported_once message f obj s = elim (Bool-cases (is_duck ext k obj)) [
    | inr plain ↦ rw plain refl
    | inl duck ↦ rw duck refl
  ]

  converted-converted :
      KnowsUnstructured ext k → converted ext k (converted ext k call) ≡ converted ext k call
  converted-converted known = λ i f obj s. converted_once known f obj s i

  not_supported-not_supported :
      (message : String)
      → not_supported ext message k (not_supported ext message k call)
        ≡ not_supported ext message k call
  not_supported-not_supported message = λ i f obj s. not_supported_once message f obj s i

module _ (ext : External) where
  kind_for_once :
      (query : Query ext ext.Kind) (f : Form) (obj : ext.object.Object f) (s : ext.Cluster)
      → kind_for ext (kind_for ext query) f obj s ≡ kind_for ext query f obj s
  unfolding kind_for
  kind_for_once query f obj s = elim (Bool-cases (is_duck ext ext.object obj)) [
    | inr plain ↦ rw plain refl
    | inl duck ↦ rw duck refl
  ]

  namespaced_once :
      (query : Query ext Bool) (f : Form) (obj : ext.object.Object f) (s : ext.Cluster)
      → KnowsUnstructured ext ext.object
      → namespaced ext (namespaced ext query) f obj s ≡ namespaced ext query f obj s
  unfolding namespaced
  namespaced_once query f obj s known = elim (Bool-cases (is_duck ext ext.object obj)) [
    | inr plain ↦ rw plain refl
    | inl duck ↦ elim (Returned-cases (ext.object.to_unstructured obj)) [
      | inl (e, h) ↦ rw (duck, h, ask_unstructured) refl
      | inr (u, h) ↦ rw (duck, h, ask_unstructured) (rw (known (ext.object.of_map u)) refl)
    ]
  ]

-- Two calls that agree on every object or list that is not duck typed are wrapped to the same calls,
-- those with a conversion as those that are not supported: a duck typed object itself is never
-- handed to what is wrapped. The scheme takes unstructured objects for registered, as documented.
pub converted-not_supported_agree :
    (ext : External) (k : Kin ext) {S : Type 0} (call call' : Call ext k S) (message : String)
    → KnowsUnstructured ext k
    → ((f : Form) (obj : k.Object f) (s : S)
        → is_duck ext k obj ≡ false
        → call f obj s ≡ call' f obj s)
    → (converted ext k call ≡ converted ext k call')
      × (not_supported ext message k call ≡ not_supported ext message k call')
unfolding converted not_supported
converted-not_supported_agree ext k {S = S} call call' message known agree =
    (λ i f obj s. converted_at f obj s i, λ i f obj s. not_supported_at f obj s i)
  where
    converted_at :
        (f : Form) (obj : k.Object f) (s : S)
        → converted ext k call f obj s ≡ converted ext k call' f obj s
    converted_at f obj s = elim (Bool-cases (is_duck ext k obj)) [
      | inr plain ↦ rw plain (agree f obj s plain)
      | inl duck ↦ elim (Returned-cases (k.to_unstructured obj)) [
        | inl (e, h) ↦ rw (duck, h, by_unstructured) refl
        | inr (u, h) ↦
            rw (duck, h, by_unstructured)
              (ap (convert_back ext k obj)
                (agree unstructured (k.of_map u) s (rw (known (k.of_map u)) refl)))
      ]
    ]

    not_supported_at :
        (f : Form) (obj : k.Object f) (s : S)
        → not_supported ext message k call f obj s ≡ not_supported ext message k call' f obj s
    not_supported_at f obj s = elim (Bool-cases (is_duck ext k obj)) [
      | inr plain ↦ rw plain (agree f obj s plain)
      | inl duck ↦ rw duck refl
    ]

-- To wrap a client that is wrapped already changes none of its methods, with any object or list,
-- duck typed or not: as the scheme takes unstructured objects for registered, as documented.
pub new_duck_aware_client_wrapper-new_duck_aware_client_wrapper :
    (ext : External) (c : Client ext)
    → KnowsUnstructured ext ext.object
    → KnowsUnstructured ext ext.list
    → new_duck_aware_client_wrapper ext (new_duck_aware_client_wrapper ext c)
      ≡ new_duck_aware_client_wrapper ext c
new_duck_aware_client_wrapper-new_duck_aware_client_wrapper ext c known known_list = λ i. record {
  reader = record {
    get = λ key opts. converted-converted ext ext.object (c.reader.get key opts) known i;
    list = λ opts. converted-converted ext ext.list (c.reader.list opts) known_list i;
  };
  create = λ opts. not_supported-not_supported ext ext.object (c.create opts) (not_created ext) i;
  update = λ opts. not_supported-not_supported ext ext.object (c.update opts) (not_updated ext) i;
  patch = λ patch opts. converted-converted ext ext.object (c.patch patch opts) known i;
  delete = λ opts. converted-converted ext ext.object (c.delete opts) known i;
  delete_all_of = λ opts. converted-converted ext ext.object (c.delete_all_of opts) known i;
  status = record {
    create = λ g opts.
        not_supported-not_supported ext ext.object (c.status.create g opts) (not_created ext) i;
    update = λ opts.
        not_supported-not_supported ext ext.object (c.status.update opts) (not_updated ext) i;
    patch = λ patch opts. converted-converted ext ext.object (c.status.patch patch opts) known i;
  };
  sub_resource = λ name. record {
    get = λ g opts. converted-converted ext ext.object ((c.sub_resource name).get g opts) known i;
    create = λ g opts.
        not_supported-not_supported ext ext.object ((c.sub_resource name).create g opts)
          (not_created ext) i;
    update = λ opts.
        not_supported-not_supported ext ext.object ((c.sub_resource name).update opts)
          (not_updated ext) i;
    patch = λ patch opts.
        converted-converted ext ext.object ((c.sub_resource name).patch patch opts) known i;
  };
  group_version_kind_for = λ f obj s. kind_for_once ext c.group_version_kind_for f obj s i;
  is_object_namespaced = λ f obj s. namespaced_once ext c.is_object_namespaced f obj s known i;
}
