-- ===== src/Results.antt =====
-- The `Result` of a reconciler and `AggregateResults` (reconcilers/reconcilers.go).
-- A duration is a signed number of nanoseconds.
use reconciler_runtime.Base.{
  ◌≡◌, refl, sym, ap, subst, ◌∙◌, ◌⊎◌, inl, inr, Bool, true, false, not, ◌&&◌, ◌||◌, List, [], ◌∷◌,
  ◌++◌, arith, if◌then◌else◌,
}
use reconciler_runtime.Base.Lists.{All, In}
use reconciler_runtime.Base.Int.{ℤ, pos, ltb_ℤ, is_zero_ℤ}

pub record Result : Type 0 where
  pub requeue : Bool
  pub requeue_after : ℤ

-- `Result{}`
abbrev pub empty_result : Result
empty_result = record { requeue = false; requeue_after = pos 0 }

-- The body of the loop.
unfoldable pub aggregate_step : Result → Result → Result
aggregate_step aggregate result =
    let aggregate' =
      if not (is_zero_ℤ result.requeue_after)
        && (is_zero_ℤ aggregate.requeue_after || ltb_ℤ result.requeue_after aggregate.requeue_after)
      then record aggregate { requeue_after = result.requeue_after }
      else aggregate in
    if result.requeue then record aggregate' { requeue = true } else aggregate'

aggregate_from : Result → List Result → Result
aggregate_from aggregate [] = aggregate
aggregate_from aggregate (result ∷ results) =
    aggregate_from (aggregate_step aggregate result) results

-- `AggregateResults(results...)`
unfoldable pub aggregate_results : List Result → Result
unfolding aggregate_from aggregate_step
aggregate_results = aggregate_from empty_result

-- `AggregateResults(a, b)`
abbrev pub aggregate_two : Result → Result → Result
aggregate_two a b = aggregate_results (a ∷ b ∷ [])

pub aggregate_step_comm : (a b : Result) → aggregate_step a b ≡ aggregate_step b a
unfolding aggregate_step
aggregate_step_comm a b = ground arith

pub aggregate_step_assoc :
    (a b c : Result) → aggregate_step (aggregate_step a b) c ≡ aggregate_step a (aggregate_step b c)
unfolding aggregate_step
aggregate_step_assoc a b c = ground arith

-- With an empty result before, a step takes the other result over.
pub aggregate_step_empty : (a : Result) → aggregate_step empty_result a ≡ a
unfolding aggregate_step
aggregate_step_empty a = ground arith

pub aggregate_two-step : (a b : Result) → aggregate_two a b ≡ aggregate_step a b
unfolding aggregate_from aggregate_results
aggregate_two-step a b = ap (λ (x : Result). aggregate_step x b) (aggregate_step_empty a)

pub aggregate_two_assoc :
    (a b c : Result) → aggregate_two (aggregate_two a b) c ≡ aggregate_two a (aggregate_two b c)
aggregate_two_assoc a b c = simp aggregate_two-step (aggregate_step_assoc a b c)

pub aggregate_empty_two : (a : Result) → aggregate_two empty_result a ≡ a
aggregate_empty_two a = aggregate_two-step empty_result a ∙ aggregate_step_empty a

pub aggregate_two_empty : (a : Result) → aggregate_two a empty_result ≡ a
aggregate_two_empty a =
    aggregate_two-step a empty_result ∙ aggregate_step_comm a empty_result ∙ aggregate_step_empty a

aggregate_from-step :
    (a : Result) (rs : List Result) → aggregate_from a rs ≡ aggregate_step a (aggregate_results rs)
unfolding aggregate_results
aggregate_from-step a [] = sym (aggregate_step_comm a empty_result ∙ aggregate_step_empty a)
aggregate_from-step a (r ∷ rs) =
    aggregate_from-step (aggregate_step a r) rs
    ∙ aggregate_step_assoc a r (aggregate_results rs)
    ∙ ap (aggregate_step a) (
        ap (λ (x : Result). aggregate_step x (aggregate_results rs)) (sym (aggregate_step_empty r))
        ∙ sym (aggregate_from-step (aggregate_step empty_result r) rs))

aggregate_results-cons :
    (r : Result) (rs : List Result)
    → aggregate_results (r ∷ rs) ≡ aggregate_step r (aggregate_results rs)
unfolding aggregate_results
aggregate_results-cons r rs =
    aggregate_from-step (aggregate_step empty_result r) rs
    ∙ ap (λ (x : Result). aggregate_step x (aggregate_results rs)) (aggregate_step_empty r)

aggregate_results-nil : aggregate_results [] ≡ empty_result
unfolding aggregate_results
aggregate_results-nil = refl

aggregate_append-step :
    (xs ys : List Result)
    → aggregate_results (xs ++ ys) ≡ aggregate_step (aggregate_results xs) (aggregate_results ys)
aggregate_append-step [] ys = sym (
    ap (λ (r : Result). aggregate_step r (aggregate_results ys)) aggregate_results-nil
    ∙ aggregate_step_empty (aggregate_results ys))
aggregate_append-step (x ∷ xs) ys =
    aggregate_results-cons x (xs ++ ys)
    ∙ ap (aggregate_step x) (aggregate_append-step xs ys)
    ∙ sym (aggregate_step_assoc x (aggregate_results xs) (aggregate_results ys))
    ∙ ap (λ (r : Result). aggregate_step r (aggregate_results ys))
        (sym (aggregate_results-cons x xs))

-- The aggregate of two lists of results, one after the other, is the aggregate of their aggregates,
-- and the same as with the lists the other way around.
aggregate_results-append :
    (xs ys : List Result)
    → (aggregate_results (xs ++ ys) ≡ aggregate_two (aggregate_results xs) (aggregate_results ys))
      × (aggregate_results (xs ++ ys) ≡ aggregate_results (ys ++ xs))
aggregate_results-append xs ys = (
  aggregate_append-step xs ys
      ∙ sym (aggregate_two-step (aggregate_results xs) (aggregate_results ys)),
  aggregate_append-step xs ys
      ∙ aggregate_step_comm (aggregate_results xs) (aggregate_results ys)
      ∙ sym (aggregate_append-step ys xs),
)

-- No result of the list asks for an earlier requeue than the aggregate, unless it asks for none.
abbrev pub IsNotLater : Result → Result → Type 0
IsNotLater a r =
    (is_zero_ℤ r.requeue_after ≡ true)
    ⊎ ((is_zero_ℤ a.requeue_after ≡ false) × (ltb_ℤ r.requeue_after a.requeue_after ≡ false))

step-IsNotLater_left : (r a : Result) → IsNotLater (aggregate_step r a) r
unfolding aggregate_step
step-IsNotLater_left r a = ground arith

step-IsNotLater_right : (r a x : Result) → IsNotLater a x → IsNotLater (aggregate_step r a) x
unfolding aggregate_step
step-IsNotLater_right r a x h = ground arith

step-origin :
    (r a : Result)
    → ((aggregate_step r a).requeue_after ≡ r.requeue_after)
      ⊎ ((aggregate_step r a).requeue_after ≡ a.requeue_after)
unfolding aggregate_step
step-origin r a = ground arith

All-later :
    (r a : Result) (rs : List Result)
    → All (IsNotLater a) rs
    → All (IsNotLater (aggregate_step r a)) rs
All-later r a [] h = tt
All-later r a (x ∷ rs) h = (step-IsNotLater_right r a x h.0, All-later r a rs h.1)

-- The delay of a step comes from the result or from what the aggregate's comes from.
step_origin :
    (r a : Result) (rs : List Result) {d : ℤ}
    → (d ≡ r.requeue_after) ⊎ (d ≡ a.requeue_after)
    → (a.requeue_after ≡ pos 0) ⊎ ((x : Result) × In x rs × (a.requeue_after ≡ x.requeue_after))
    → (d ≡ pos 0) ⊎ ((x : Result) × In x (r ∷ rs) × (d ≡ x.requeue_after))
step_origin r a rs (inl e) h = inr (r, inl refl, e)
step_origin r a rs (inr e) (inl z) = inl (e ∙ z)
step_origin r a rs (inr e) (inr (x, m, q)) = inr (x, inr m, e ∙ q)

abbrev pub any_requeue : List Result → Bool
any_requeue [] = false
any_requeue (r ∷ rs) = r.requeue || any_requeue rs

step-requeue : (r a : Result) → (aggregate_step r a).requeue ≡ (r.requeue || a.requeue)
unfolding aggregate_step
step-requeue r a = ground arith

-- What an aggregate is of a list of results.
abbrev pub IsLeast : List Result → Result → Type 0
IsLeast rs a =
    All (IsNotLater a) rs
    × ((a.requeue_after ≡ pos 0) ⊎ ((r : Result) × In r rs × (a.requeue_after ≡ r.requeue_after)))
    × (a.requeue ≡ any_requeue rs)

-- The aggregate waits no longer than any result that asks for a delay; its delay is zero or that
-- of one of the results; and it asks for a requeue exactly when one of the results does.
pub aggregate_results-IsLeast : (rs : List Result) → IsLeast rs (aggregate_results rs)
aggregate_results-IsLeast [] = subst (IsLeast []) (sym aggregate_results-nil) (tt, inl refl, refl)
aggregate_results-IsLeast (r ∷ rs) =
    let a = aggregate_results rs in
    let (least, origin, any) = aggregate_results-IsLeast rs in
    subst (IsLeast (r ∷ rs)) (sym (aggregate_results-cons r rs)) (
      (step-IsNotLater_left r a, All-later r a rs least),
      step_origin r a rs (step-origin r a) origin,
      step-requeue r a ∙ ap (λ (b : Bool). r.requeue || b) any,
    )
