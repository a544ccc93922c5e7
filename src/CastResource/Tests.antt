-- ===== src/CastResource/Tests.antt =====
-- Witnesses on casts (reconcilers/cast.go). The body of a resource is a pair of numbers, that of its
-- cast is the first of them and a kind; a text is a resource, which says no kind, and a patch holds the
-- first number to be there.
use reconciler_runtime.Base.{
  ℕ, suc, true, false, String, Option, none, some, [], ◌∷◌, ◌≡◌, refl, sym, ap, ◌∙◌, eqb,
}
use reconciler_runtime.Base.Int.{pos}
use reconciler_runtime.Errors.{Error}
use reconciler_runtime.Results.{empty_result}
use reconciler_runtime.Context.{Context, background, stash_config}
use reconciler_runtime.Exec.{ok, returned, pure}
use reconciler_runtime.Flow.{SubReconciler}
use reconciler_runtime.Flow.Finalizer
use reconciler_runtime.Flow.Finalizer.{Resource, State}
use reconciler_runtime.Manager
use reconciler_runtime.Manager.{Diff, diff, no_diff}
use reconciler_runtime.CastResource.{External, convert, state_with, reconcile}
use reconciler_runtime.CastResource.Patched.{IsCastOf, reconcile_patches}

abbrev Full : Type 0
Full = Resource (ℕ × ℕ)

abbrev finalizing : Finalizer.External String (ℕ × ℕ) ℕ
finalizing = record {
  contains_finalizer = λ fs f. true;
  add_finalizer = λ fs f. fs;
  remove_finalizer = λ fs f. fs;
  patch = λ config current desired w. record { error = none; patched = desired; after = w };
}

abbrev merge_first : Full → Full → Full × Option Error
merge_first p r = (record p { body = (p.body.0, r.body.1) }, none)

abbrev rebasing : Manager.External Full Full String (ℕ × ℕ) ℕ
rebasing = record {
  finalizing = finalizing;
  is_created = λ t. true;
  is_terminating = λ t. false;
  uid = λ t. "uid";
  object_name = λ t. "example";
  type_name = λ t. "Full";
  generation = λ t. t.generation;
  semantic_equal = λ a b. eqb a.body.0 b.body.0;
  create = λ config t w. record { error = none; object = t; after = w };
  update = λ config t w. record { error = none; object = t; after = w };
  delete = λ config t w. record { error = none; object = t; after = w };
  track_object = λ config t resource w. (none, w);
  cache_get = λ w uid. none;
  cache_set = λ uid p w. w;
  create_patch = λ base update. diff update;
  merge_patch = merge_first;
}

abbrev Short : Type 0
Short = Resource (ℕ × String)

abbrev cast_of : Full → Short
cast_of r = record {
  finalizers = r.finalizers;
  resource_version = r.resource_version;
  generation = r.generation;
  deletion_timestamp = r.deletion_timestamp;
  body = (r.body.0, "");
}

abbrev full_of : Short → ℕ → Full
full_of c n = record {
  finalizers = c.finalizers;
  resource_version = c.resource_version;
  generation = c.generation;
  deletion_timestamp = c.deletion_timestamp;
  body = (c.body.0, n);
}

abbrev kinded : Short → Short
kinded c = record c { body = (c.body.0, "Example") }

abbrev kind_of : Short → String
kind_of c = c.body.1

abbrev firsts : External Full String (ℕ × ℕ) (ℕ × String) ℕ
firsts = record {
  marshal = λ r. ok r;
  unmarshal = λ text. ok (cast_of text);
  kind_is_empty = λ c. true;
  set_kind = λ config r c. kinded c;
  semantic_equal = λ a b. eqb a.body.0 b.body.0;
  create_patch = λ base update. diff (full_of update 0);
  rebasing = rebasing;
  new_aggregate = λ errs. elim errs [ [] ↦ none | ◌∷◌ e es ↦ some e ];
  implements = λ r. true;
}

abbrev bytes_of : Diff Full → Full → Full
bytes_of (diff bytes) d = bytes
bytes_of (no_diff e) d = d

merges :
    (base update : Short) (resource bytes : Full)
    → kind_of base ≡ kind_of update
    → firsts.create_patch base update ≡ diff bytes
    → IsCastOf firsts "config" base resource
    → (rebased : Full) × (merge_first bytes resource ≡ (rebased, none))
      × IsCastOf firsts "config" update rebased
merges base update resource bytes same made (text, told, encoded, decoded, is_base) = (
  record bytes { body = (bytes.body.0, resource.body.1) },
  refl,
  (
    record bytes { body = (bytes.body.0, resource.body.1) },
    cast_of bytes,
    refl,
    refl,
    ap (λ (kind : String). record update { body = (update.body.0, kind) })
          (sym same ∙ ap kind_of is_base)
        ∙ ap (λ d. kinded (cast_of (bytes_of d bytes))) made,
  ),
)

abbrev resource : Full
resource = record {
  finalizers = [];
  resource_version = "1";
  generation = pos 1;
  deletion_timestamp = none;
  body = (3, 7);
}

abbrev held : State (ℕ × ℕ) ℕ
held = record { resource = resource; events = []; world = 0 }

-- It adds one to the body.
abbrev counting : SubReconciler String (State (ℕ × String) ℕ)
counting = record {
  setup_with_manager = λ c. pure none;
  reconcile = λ c s. (
    returned (empty_result, none),
    record s { resource = record s.resource { body = (suc s.resource.body.0, s.resource.body.1) } },
  );
}

abbrev with_config : Context String
with_config = stash_config background "config"

abbrev counted : State (ℕ × String) ℕ
counted = state_with (record (cast_of resource) { body = (4, "Example") }) held

reconcile_patches_example :
    (rebased : Full) × (reconcile firsts "Cast"
        (record { name = ""; casting = convert (some counting) })
        with_config
        held
      ≡ (returned (empty_result, none), state_with rebased counted))
    × IsCastOf firsts "config" (record (cast_of resource) { body = (4, "Example") }) rebased
reconcile_patches_example =
    reconcile_patches firsts kind_of "config" merges "Cast" "" counting with_config
      (kinded (cast_of resource)) held empty_result none counted
      (full_of (record (cast_of resource) { body = (4, "Example") }) 0) refl
      (resource, cast_of resource, refl, refl, refl) refl refl refl refl refl
