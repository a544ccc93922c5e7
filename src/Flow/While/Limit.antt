-- ===== src/Flow/While/Limit.antt =====
-- The limit of `While` (reconcilers/flow.go), and the end of its loop.
use reconciler_runtime.Base.{
  ℕ, zero, suc, ◌+◌, ◌≤◌, ◌<◌, Option, none, some, String, Bool, true, false, Bool-cases, inl, inr,
  ◌≡◌, subst, arith,
}
use reconciler_runtime.Base.Int.{pos}
use reconciler_runtime.Results.{Result, empty_result, aggregate_two}
use reconciler_runtime.Context.{Context, stash_iteration}
use reconciler_runtime.Exec.{Outcome, returned, panicked, exhausted, M, pure, continue, Ends, ◌>>=◌}
use reconciler_runtime.Flow.{Reply, Setup, SubReconciler, name_or}
use reconciler_runtime.Flow.While.{While, limit_reached, next_round, loop, reconcile}
use reconciler_runtime.Flow.While.Rounds.{
  while_of, Rounds, limited, stopped, erred, round, ByRounds, loop-ByRounds,
}

module _ {Config S : Type 0} (test : Context Config → M S Bool) (nested : SubReconciler Config S)
    (m : ℕ) (ctx : Context Config) where
  -- The limit is positive.
  abbrev pub while_up_to : String → Option (Setup Config S) → While Config S
  while_up_to = while_of test nested (pos (suc m)) ctx

  abbrev pub RoundsUpTo : ℕ → Result → S → ℕ → Reply → S → Type 0
  RoundsUpTo = Rounds test nested (pos (suc m)) ctx

  under_limit : (i : ℕ) → limit_reached (pos (suc m)) i ≡ false → i < suc m
  under_limit i l = ground arith

  Rounds-bound :
      {i n : ℕ} {agg : Result} {s t : S} {reply : Reply}
      → RoundsUpTo i agg s n reply t
      → i ≤ suc m
      → i + n ≤ suc m
  Rounds-bound (limited l) h = omega arith
  Rounds-bound (stopped l c) h = omega arith
  Rounds-bound {i = i} (erred result e l c b) h = let u = under_limit i l in omega arith
  Rounds-bound {i = i} (round {n = n} result l c b r) h =
      let u = under_limit i l in let ih = Rounds-bound r (omega arith) in omega arith

  module _ (name : String) (setup : Option (Setup Config S)) where
    -- With a positive limit, all that the loop returns it returns after at most that many calls of the
    -- nested reconciler: in the rounds that `Rounds` describes, each in the state that the one before
    -- it has left.
    pub reconcile-Rounds :
        (fuel : ℕ) (s t : S) (reply : Reply)
        → reconcile fuel (while_up_to name setup) ctx s ≡ (returned reply, t)
        → (n : ℕ) × (n ≤ suc m) × RoundsUpTo 0 empty_result s n reply t
    unfolding ByRounds reconcile
    reconcile-Rounds fuel s t reply h =
        let (n, r) =
          subst
            (ByRounds test nested (pos (suc m)) ctx (name_or name "While") setup 0 empty_result s) h
            (loop-ByRounds test nested (pos (suc m)) ctx (name_or name "While") setup fuel 0
              empty_result s) in
        let bound = Rounds-bound r (omega arith) in (n, omega arith, r)

    loop-Ends :
        ((c : Context Config) (u : S) → Ends (test c u))
        → ((c : Context Config) (u : S) → Ends (nested.reconcile c u))
        → (fuel i : ℕ) (agg : Result) (s : S) → suc m < i + fuel
        → i ≤ suc m
        → Ends (loop fuel (while_up_to name setup) ctx i agg s)
    unfolding loop
    loop-Ends ends_test ends_nested zero i agg s h k = absurd (omega arith)
    loop-Ends ends_test ends_nested (suc fuel) i agg s h k =
        elim (Bool-cases (limit_reached (pos (suc m)) i)) [
          | inl l ↦ rw (l, loop) tt
          | inr l ↦
              let u = under_limit i l in
              rw (l, loop)
                (after_test
                  (λ a t.
                    loop-Ends ends_test ends_nested fuel (suc i) a t (omega arith) (omega arith))
                  (test (stash_iteration ctx i) s) (ends_test (stash_iteration ctx i) s))
        ]
      where
        after_call :
            ((a : Result) (t : S) → Ends (loop fuel (while_up_to name setup) ctx (suc i) a t))
            → (o : Outcome Reply × S) → Ends o
            → Ends (
                continue o.0
                  (λ reply. next_round agg reply (loop fuel (while_up_to name setup) ctx (suc i)))
                  o.1)
        after_call ih (panicked e, t) b = tt
        after_call ih (exhausted, t) b = absurd b
        after_call ih (returned (result, some e), t) b = tt
        after_call ih (returned (result, none), t) b = ih (aggregate_two agg result) t

        after_test :
            ((a : Result) (t : S) → Ends (loop fuel (while_up_to name setup) ctx (suc i) a t))
            → (o : Outcome Bool × S) → Ends o
            → Ends {A = Reply} (
                continue o.0
                  (λ holds. elim holds [
                    | false ↦ pure (agg, none)
                    | true ↦ nested.reconcile (stash_iteration ctx i) >>= λ reply.
                        next_round agg reply (loop fuel (while_up_to name setup) ctx (suc i))
                  ])
                  o.1)
        after_test ih (panicked e, t) c = tt
        after_test ih (exhausted, t) c = absurd c
        after_test ih (returned false, t) c = tt
        after_test ih (returned true, s') c =
            after_call ih (nested.reconcile (stash_iteration ctx i) s')
              (ends_nested (stash_iteration ctx i) s')

  -- With a positive limit the loop comes to an end of its own, if the condition and the nested
  -- reconciler do: fuel for one round more than the limit is enough.
  pub reconcile-Ends :
      ((c : Context Config) (u : S) → Ends (test c u))
      → ((c : Context Config) (u : S) → Ends (nested.reconcile c u))
      → (name : String) (setup : Option (Setup Config S)) (fuel : ℕ) (s : S) → suc m < fuel
      → Ends (reconcile fuel (while_up_to name setup) ctx s)
  unfolding reconcile
  reconcile-Ends ends_test ends_nested name setup fuel s h =
      loop-Ends (name_or name "While") setup ends_test ends_nested fuel 0 empty_result s
        (omega arith) (omega arith)
