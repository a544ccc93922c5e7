-- ===== src/Duck/Tests.antt =====
-- Witnesses on the client for duck typed objects (duck/client.go). The scheme knows ConfigMaps. The
-- cluster is the body of one object.
use reconciler_runtime.Base.{◌≡◌, refl, Bool, false, not, none, some, String, ◌==◌, if◌then◌else◌}
use reconciler_runtime.Errors.{errorf}
use reconciler_runtime.Base.{[]}
use reconciler_runtime.Tracker.{ok}
use reconciler_runtime.Duck.{
  Form, typed, unstructured, Kindred, External, Call, Client, is_duck, converted, not_supported,
  new_duck_aware_client_wrapper,
}
use reconciler_runtime.Duck.Wrapped.{
  KnowsUnstructured, converted-not_supported_agree,
  new_duck_aware_client_wrapper-new_duck_aware_client_wrapper,
}

record Thing : Type 0 where
  kind : String
  body : String

abbrev unknown : Form → Thing → Bool
unknown typed t = not (t.kind == "ConfigMap")
unknown unstructured t = false

abbrev thing : Kindred Thing String
thing = record {
  Object = λ f. Thing;
  is_not_registered = λ {f} t. unknown f t;
  object_kind = λ {f} t. some t.kind;
  to_unstructured = λ {f} t. ok t;
  from_unstructured = λ {f} m t. (none, record t { body = m.body });
  of_map = λ m. m;
  map_of = λ u. u;
}

abbrev things : External
things = record {
  Json = Thing;
  Kind = String;
  is_empty = λ kind. kind == "";
  object = thing;
  list = thing;
  Key = String;
  Patch = String;
  Options = Unit {0};
  Cluster = String;
}

abbrev load : Call things thing String
load f t s = ((none, record t { body = s }), s)

abbrev store : Call things thing String
store f t s = ((none, t), t.body)

abbrev with_sub : Call things thing (Thing × String)
with_sub f t (sub, s) = ((none, t), (record sub { body = s }, s))

abbrev client : Client things
client = record {
  reader = record { get = λ key opts. load; list = λ opts. load };
  create = λ opts. store;
  update = λ opts. store;
  patch = λ patch opts. store;
  delete = λ opts. store;
  delete_all_of = λ opts. store;
  status = record {
    create = λ g opts. with_sub;
    update = λ opts. store;
    patch = λ patch opts. store;
  };
  sub_resource = λ name. record {
    get = λ g opts. with_sub;
    create = λ g opts. with_sub;
    update = λ opts. store;
    patch = λ patch opts. store;
  };
  group_version_kind_for = λ f t s. ok t.kind;
  is_object_namespaced = λ f t s. ok false;
}

things-KnowsUnstructured : KnowsUnstructured things thing
things-KnowsUnstructured u = refl

abbrev service : Thing
service = record { kind = "Service"; body = "" }

-- A read of a duck typed object goes by way of the unstructured one.
converted_example :
    converted things thing load typed service "stored"
    ≡ ((none, record { kind = "Service"; body = "stored" }), "stored")
unfolding converted
converted_example = refl

new_duck_aware_client_wrapper-new_duck_aware_client_wrapper_example :
    new_duck_aware_client_wrapper things (new_duck_aware_client_wrapper things client)
    ≡ new_duck_aware_client_wrapper things client
new_duck_aware_client_wrapper-new_duck_aware_client_wrapper_example =
    new_duck_aware_client_wrapper-new_duck_aware_client_wrapper things client
      things-KnowsUnstructured things-KnowsUnstructured

-- A call that fails on every duck typed object.
abbrev load_known : Call things thing String
load_known f t s =
    if is_duck things thing {f = f} t then ((some (errorf "no kind" []), t), s) else load f t s

load-load_known :
    (f : Form) (t : Thing) (s : String)
    → is_duck things thing {f = f} t ≡ false
    → load f t s ≡ load_known f t s
load-load_known f t s h = rw h refl

converted-not_supported_agree_example :
    (converted things thing load ≡ converted things thing load_known)
    × (not_supported things "no" thing load ≡ not_supported things "no" thing load_known)
converted-not_supported_agree_example =
    converted-not_supported_agree things thing load load_known "no" things-KnowsUnstructured
      load-load_known
