-- ===== src/Flow/While/Rounds.antt =====
-- The loop of `While` (reconcilers/flow.go) against a relation of its rounds.
use reconciler_runtime.Base.{
  ℕ, zero, suc, ◌<◌, Option, none, some, String, Bool, true, false, Bool-cases, inl, inr, ◌≡◌, refl,
  arith,
}
use reconciler_runtime.Base.Int.{ℤ}
use reconciler_runtime.Errors.{Error, max_iterations}
use reconciler_runtime.Results.{Result, aggregate_two}
use reconciler_runtime.Context.{Context, stash_iteration}
use reconciler_runtime.Exec.{Outcome, returned, panicked, exhausted, M, pure, continue, ◌>>=◌}
use reconciler_runtime.Flow.{Reply, Setup, SubReconciler}
use reconciler_runtime.Flow.While.{While, limit_reached, next_round, loop}

module _ {Config S : Type 0} (test : Context Config → M S Bool) (nested : SubReconciler Config S)
    (max : ℤ) (ctx : Context Config) where
  -- A `While` with these parts.
  abbrev pub while_of : String → Option (Setup Config S) → While Config S
  while_of name setup = record {
    name = name;
    setup = setup;
    condition = some test;
    reconciler = some nested;
    max_iterations = some max;
  }

  -- `Rounds i agg s n reply t`: from round `i` on, with the aggregate `agg` and in the state `s`, the
  -- nested reconciler is called `n` times, and the loop ends with `reply` in the state `t`.
  pub data Rounds : ℕ → Result → S → ℕ → Reply → S → Type 0 where
    limited :
        {i : ℕ} {agg : Result} {s : S}
        → limit_reached max i ≡ true
        → Rounds i agg s zero (agg, some (max_iterations i)) s
    stopped :
        {i : ℕ} {agg : Result} {s t : S}
        → limit_reached max i ≡ false
        → test (stash_iteration ctx i) s ≡ (returned false, t)
        → Rounds i agg s zero (agg, none) t
    erred :
        {i : ℕ} {agg : Result} {s s' t : S} (result : Result) (e : Error)
        → limit_reached max i ≡ false
        → test (stash_iteration ctx i) s ≡ (returned true, s')
        → nested.reconcile (stash_iteration ctx i) s' ≡ (returned (result, some e), t)
        → Rounds i agg s 1 (aggregate_two agg result, some e) t
    round :
        {i n : ℕ} {agg : Result} {s s' s'' t : S} {reply : Reply} (result : Result)
        → limit_reached max i ≡ false
        → test (stash_iteration ctx i) s ≡ (returned true, s')
        → nested.reconcile (stash_iteration ctx i) s' ≡ (returned (result, none), s'')
        → Rounds (suc i) (aggregate_two agg result) s'' n reply t
        → Rounds i agg s (suc n) reply t

  module _ (name : String) (setup : Option (Setup Config S)) where
    abbrev run : ℕ → ℕ → Result → M S Reply
    run fuel i agg = loop fuel (while_of name setup) ctx i agg

    -- Enough fuel for its rounds, and the loop runs them.
    pub Rounds-loop :
        {i n : ℕ} {agg : Result} {s t : S} {reply : Reply} (fuel : ℕ)
        → Rounds i agg s n reply t
        → n < fuel
        → run fuel i agg s ≡ (returned reply, t)
    unfolding loop
    Rounds-loop zero r h = absurd (omega arith)
    Rounds-loop (suc fuel) (limited l) h = rw (l, loop)
    Rounds-loop (suc fuel) (stopped l c) h = rw (l, loop) (rw c)
    Rounds-loop (suc fuel) (erred result e l c b) h = rw (l, loop) (rw c (rw b))
    Rounds-loop {i = i} {agg = agg} {s = s} {t = t} {reply = reply} (suc fuel)
          (round {n = n} {s' = s'} {s'' = s''} result l c b r) h =
        rw (l, loop) (rw c (rw b (Rounds-loop {i = suc i} fuel r (omega arith))))

    -- What a run from round `i` on has to do with the rounds: what it returns, it returns by rounds.
    unfoldable pub ByRounds : ℕ → Result → S → Outcome Reply × S → Type 0
    ByRounds i agg s (returned reply, t) = (n : ℕ) × Rounds i agg s n reply t
    ByRounds i agg s (panicked e, t) = Unit
    ByRounds i agg s (exhausted, t) = Unit

    another_round :
        {i : ℕ} (agg : Result) {s s' s'' : S} (result : Result)
        → limit_reached max i ≡ false
        → test (stash_iteration ctx i) s ≡ (returned true, s')
        → nested.reconcile (stash_iteration ctx i) s' ≡ (returned (result, none), s'')
        → (run : Outcome Reply × S) → ByRounds (suc i) (aggregate_two agg result) s'' run
        → ByRounds i agg s run
    unfolding ByRounds
    another_round agg result l c b (returned reply, t) (n, r) = (suc n, round result l c b r)
    another_round agg result l c b (panicked e, t) r = tt
    another_round agg result l c b (exhausted, t) r = tt

    pub loop-ByRounds : (fuel i : ℕ) (agg : Result) (s : S) → ByRounds i agg s (run fuel i agg s)
    unfolding loop ByRounds
    loop-ByRounds zero i agg s = tt
    loop-ByRounds (suc fuel) i agg s = elim (Bool-cases (limit_reached max i)) [
      | inl l ↦ rw (l, loop) (zero, limited l)
      | inr l ↦
          rw (l, loop)
            (after_test l (loop-ByRounds fuel (suc i)) (test (stash_iteration ctx i) s) refl)
    ]
      where
        after_call :
            limit_reached max i ≡ false
            → ((a : Result) (t : S) → ByRounds (suc i) a t (run fuel (suc i) a t))
            → (s' : S) → test (stash_iteration ctx i) s ≡ (returned true, s')
            → (o : Outcome Reply × S) → nested.reconcile (stash_iteration ctx i) s' ≡ o
            → ByRounds i agg s (continue o.0 (λ reply. next_round agg reply (run fuel (suc i))) o.1)
        after_call l ih s' c (panicked e, t) b = tt
        after_call l ih s' c (exhausted, t) b = tt
        after_call l ih s' c (returned (result, some e), t) b = (1, erred result e l c b)
        after_call l ih s' c (returned (result, none), t) b =
            another_round agg result l c b (run fuel (suc i) (aggregate_two agg result) t)
              (ih (aggregate_two agg result) t)

        after_test :
            limit_reached max i ≡ false
            → ((a : Result) (t : S) → ByRounds (suc i) a t (run fuel (suc i) a t))
            → (o : Outcome Bool × S) → test (stash_iteration ctx i) s ≡ o
            → ByRounds i agg s (
                continue o.0
                  (λ holds. elim holds [
                    | false ↦ pure (agg, none)
                    | true ↦ nested.reconcile (stash_iteration ctx i) >>= λ reply.
                        next_round agg reply (run fuel (suc i))
                  ])
                  o.1)
        after_test l ih (panicked e, t) c = tt
        after_test l ih (exhausted, t) c = tt
        after_test l ih (returned false, t) c = (zero, stopped l c)
        after_test l ih (returned true, s') c =
            after_call l ih s' c (nested.reconcile (stash_iteration ctx i) s') refl
