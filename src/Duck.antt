-- ===== src/Duck.antt =====
-- duck/client.go: a client that takes duck typed objects, which the scheme does not know, by
-- converting them to unstructured objects for the client that it wraps.
pub mod Wrapped
mod Tests
use reconciler_runtime.Base.{Bool, not, ◌&&◌, Option, none, some, List, [], String, if◌then◌else◌}
use reconciler_runtime.Errors.{Error, errorf}
use reconciler_runtime.Tracker.{Returned, ok, err}

-- The dynamic type of an object: `unstructured.Unstructured` or another one.
pub data Form : Type 0 where
  typed unstructured : Form

-- Objects, or lists of them, by their dynamic type: what the scheme and the object kind say of
-- them, and the converter of the runtime package. A conversion from a map goes into an object that
-- is there, which it may have changed when it returns an error. `of_map` and `map_of` are
-- `&unstructured.Unstructured{Object: m}` and `u.Object`. `is_not_registered` is whether
-- `ObjectKinds` returns a not-registered error.
pub record Kindred (Json Kind : Type 0) : Type 1 where
  pub Object : Form → Type 0
  pub is_not_registered : {f : Form} → Object f → Bool
  pub object_kind : {f : Form} → Object f → Option Kind
  pub to_unstructured : {f : Form} → Object f → Returned Json
  pub from_unstructured : {f : Form} → Json → Object f → Option Error × Object f
  pub of_map : Json → Object unstructured
  pub map_of : Object unstructured → Json

-- `Options` are the options of a call.
pub record External : Type 1 where
  pub Json : Type 0
  pub Kind : Type 0
  pub is_empty : Kind → Bool
  pub object : Kindred Json Kind
  pub list : Kindred Json Kind
  pub Key : Type 0
  pub Patch : Type 0
  pub Options : Type 0
  pub Cluster : Type 0

module _ (ext : External) where
  abbrev pub Kin : Type 1
  Kin = Kindred ext.Json ext.Kind

  -- A call with an object that is passed by pointer, on a state.
  abbrev pub Call : Kin → Type 0 → Type 0
  Call k S = (f : Form) → k.Object f → S → (Option Error × k.Object f) × S

  -- What the client knows of an object.
  abbrev pub Query : Type 0 → Type 0
  Query A = (f : Form) → ext.object.Object f → ext.Cluster → Returned A

  -- `client.SubResourceWriter`; the object of a sub resource is passed by pointer too.
  pub record SubResourceWriter : Type 0 where
    pub create : (g : Form) → ext.Options → Call ext.object (ext.object.Object g × ext.Cluster)
    pub update : ext.Options → Call ext.object ext.Cluster
    pub patch : ext.Patch → ext.Options → Call ext.object ext.Cluster

  -- `client.SubResourceClient`
  pub record SubResourceClient : Type 0 where
    pub get : (g : Form) → ext.Options → Call ext.object (ext.object.Object g × ext.Cluster)
    pub create : (g : Form) → ext.Options → Call ext.object (ext.object.Object g × ext.Cluster)
    pub update : ext.Options → Call ext.object ext.Cluster
    pub patch : ext.Patch → ext.Options → Call ext.object ext.Cluster

  -- `client.Reader`
  pub record Reader : Type 0 where
    pub get : ext.Key → ext.Options → Call ext.object ext.Cluster
    pub list : ext.Options → Call ext.list ext.Cluster

  -- `client.Client`
  pub record Client : Type 0 where
    pub reader : Reader
    pub create : ext.Options → Call ext.object ext.Cluster
    pub update : ext.Options → Call ext.object ext.Cluster
    pub patch : ext.Patch → ext.Options → Call ext.object ext.Cluster
    pub delete : ext.Options → Call ext.object ext.Cluster
    pub delete_all_of : ext.Options → Call ext.object ext.Cluster
    pub status : SubResourceWriter
    pub sub_resource : String → SubResourceClient
    pub group_version_kind_for : Query ext.Kind
    pub is_object_namespaced : Query Bool

  -- `IsDuck`
  abbrev pub is_duck : (k : Kin) {f : Form} → k.Object f → Bool
  is_duck k obj =
      k.is_not_registered obj
      && elim (k.object_kind obj) [ none ↦ Bool.false | some kind ↦ not (ext.is_empty kind) ]

  module _ {S : Type 0} where
    -- After a call with the unstructured object: what it holds is converted back.
    abbrev pub convert_back :
        (k : Kin) {f : Form}
        → k.Object f
        → (Option Error × k.Object unstructured) × S
        → (Option Error × k.Object f) × S
    convert_back k obj ((some e, u), s) = ((some e, obj), s)
    convert_back k obj ((none, u), s) = (k.from_unstructured (k.map_of u) obj, s)

    -- A call by way of an unstructured object.
    abbrev pub by_unstructured : (k : Kin) → Call k S → Call k S
    by_unstructured k call f obj s = elim (k.to_unstructured obj) [
      | err e ↦ ((some e, obj), s)
      | ok u_obj ↦ convert_back k obj (call unstructured (k.of_map u_obj) s)
    ]

    -- The methods that duck typed objects have.
    unfoldable pub converted : (k : Kin) → Call k S → Call k S
    converted k call f obj s =
        if not (is_duck k obj) then call f obj s else by_unstructured k call f obj s

    -- The methods that they do not have.
    unfoldable pub not_supported : String → (k : Kin) → Call k S → Call k S
    not_supported message k call f obj s =
        if not (is_duck k obj) then call f obj s else ((some (errorf message []), obj), s)

  -- `GroupVersionKindFor`
  unfoldable pub kind_for : Query ext.Kind → Query ext.Kind
  kind_for query f obj s =
      let missing : Returned ext.Kind =
        err (errorf "object must directly define APIVersion and Kind" []) in
      if not (is_duck ext.object obj) then query f obj s else elim (ext.object.object_kind obj) [
        | none ↦ missing
        | some kind ↦ if ext.is_empty kind then missing else ok kind
      ]

  -- A query by way of an unstructured object.
  abbrev pub ask_unstructured : {A : Type 0} → Query A → Query A
  ask_unstructured query f obj s = elim (ext.object.to_unstructured obj) [
    | err e ↦ err e
    | ok u_obj ↦ query unstructured (ext.object.of_map u_obj) s
  ]

  -- `IsObjectNamespaced`
  unfoldable pub namespaced : Query Bool → Query Bool
  namespaced query f obj s =
      if not (is_duck ext.object obj) then query f obj s else ask_unstructured query f obj s

  abbrev pub not_created : String
  not_created = "Create is not supported for the duck typed objects"

  abbrev pub not_updated : String
  not_updated = "Update is not supported for the duck typed objects, use Patch instead"

  -- `NewDuckAwareAPIReaderWrapper` and its methods
  abbrev pub new_duck_aware_api_reader_wrapper : Reader → Reader
  new_duck_aware_api_reader_wrapper r = record {
    get = λ key opts. converted ext.object (r.get key opts);
    list = λ opts. converted ext.list (r.list opts);
  }

  -- `duckAwareSubResourceWriterWrapper` and its methods
  abbrev pub duck_aware_sub_resource_writer_wrapper : SubResourceWriter → SubResourceWriter
  duck_aware_sub_resource_writer_wrapper w = record {
    create = λ g opts. not_supported not_created ext.object (w.create g opts);
    update = λ opts. not_supported not_updated ext.object (w.update opts);
    patch = λ patch opts. converted ext.object (w.patch patch opts);
  }

  -- `duckAwareSubResourceClientWrapper` and its methods
  abbrev pub duck_aware_sub_resource_client_wrapper : SubResourceClient → SubResourceClient
  duck_aware_sub_resource_client_wrapper c = record {
    get = λ g opts. converted ext.object (c.get g opts);
    create = λ g opts. not_supported not_created ext.object (c.create g opts);
    update = λ opts. not_supported not_updated ext.object (c.update opts);
    patch = λ patch opts. converted ext.object (c.patch patch opts);
  }

  -- `NewDuckAwareClientWrapper` and its methods
  abbrev pub new_duck_aware_client_wrapper : Client → Client
  new_duck_aware_client_wrapper c = record {
    reader = new_duck_aware_api_reader_wrapper c.reader;
    create = λ opts. not_supported not_created ext.object (c.create opts);
    update = λ opts. not_supported not_updated ext.object (c.update opts);
    patch = λ patch opts. converted ext.object (c.patch patch opts);
    delete = λ opts. converted ext.object (c.delete opts);
    delete_all_of = λ opts. converted ext.object (c.delete_all_of opts);
    status = duck_aware_sub_resource_writer_wrapper c.status;
    sub_resource = λ name. duck_aware_sub_resource_client_wrapper (c.sub_resource name);
    group_version_kind_for = kind_for c.group_version_kind_for;
    is_object_namespaced = namespaced c.is_object_namespaced;
  }
