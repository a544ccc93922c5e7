-- ===== src/AggregateReconciler/Validated.antt =====
-- What an aggregate reconciler is turned away for (reconcilers/aggregate.go).
use reconciler_runtime.Base.{
  String, ◌==◌, Option, none, some, [], ◌∷◌, ◌≡◌, refl, ap, ◌∙◌, if◌then◌else◌,
}
use reconciler_runtime.Errors.{errorf}
use reconciler_runtime.Flow.{name_or}
use reconciler_runtime.AggregateReconciler.{AggregateReconciler, first_init, init, validate}

pub init-first_init :
    {B Config S : Type 0} (default_name : String) (r : AggregateReconciler B Config S)
    → r.stamp ≡ none
    → init default_name r ≡ first_init default_name r
unfolding init
init-first_init default_name r first = pick r r.stamp first
  where
    pick :
        {A C : Type 0} {x : C} (y : C) (o : Option A)
        → o ≡ none
        → (elim o [ none ↦ x | some _ ↦ y ]) ≡ x
    pick y none e = refl
    pick y (some a) e = absurd (cc)

-- A reconciler that is validated where it always is, after its initialization, is refused only for a
-- request without a name: one with neither Reconciler nor DesiredResource is accepted.
validate-init :
    {B Config S : Type 0} (default_name : String) (r : AggregateReconciler B Config S)
    → r.stamp ≡ none
    → validate (init default_name r) ≡ (
        if r.request.name == ""
        then some
            (errorf "AggregateReconciler %q must define Request" (name_or r.name default_name ∷ []))
        else none)
unfolding validate
validate-init default_name r first = ap validate (init-first_init default_name r first) ∙ refl
