-- ===== src/Flow/Sequence/Append.antt =====
-- A sequence of two parts (reconcilers/sequence.go).
use reconciler_runtime.Base.{none, some, [], ◌∷◌, ◌++◌, ◌≡◌, refl, sym, ap, ◌∙◌}
use reconciler_runtime.Results.{
  Result, empty_result, aggregate_two, aggregate_two_assoc, aggregate_two_empty,
  aggregate_empty_two,
}
use reconciler_runtime.Context.{Context}
use reconciler_runtime.Exec.{Outcome, returned, panicked, exhausted, M, pure, continue, ◌>>=◌}
use reconciler_runtime.Flow.{Reply}
use reconciler_runtime.Flow.Sequence.{Sequence, after_call, loop, reconcile, joined}

-- The replies of a run, changed.
abbrev map_reply : {S : Type 0} → (Reply → Reply) → Outcome Reply × S → Outcome Reply × S
map_reply f (returned reply, s) = (returned (f reply), s)
map_reply f (panicked e, s) = (panicked e, s)
map_reply f (exhausted, s) = (exhausted, s)

joined-joined :
    (a b : Result) (reply : Reply) → joined (aggregate_two b a) reply ≡ joined a (joined b reply)
joined-joined a b (result, none) =
    ap (λ (r : Result). (r, none)) (sym (aggregate_two_assoc result b a))
joined-joined a b (result, some e) = refl

map_reply-joined :
    {S : Type 0} (a b : Result) (run : Outcome Reply × S)
    → map_reply (joined (aggregate_two b a)) run ≡ map_reply (joined a) (map_reply (joined b) run)
map_reply-joined a b (returned reply, s) =
    ap (λ (r : Reply). (returned r, s)) (joined-joined a b reply)
map_reply-joined a b (panicked e, s) = refl
map_reply-joined a b (exhausted, s) = refl

module _ {Config S : Type 0} (ctx : Context Config) where
  -- The loop adds what it has to what it would return from the start.
  loop-joined :
      (r : Sequence Config S) (aggregate : Result) (s : S)
      → loop r ctx aggregate s ≡ map_reply (joined aggregate) (loop r ctx empty_result s)
  unfolding loop
  loop-joined [] aggregate s =
      ap (λ (r : Result). (returned (r, none), s)) (sym (aggregate_empty_two aggregate))
  loop-joined (x ∷ r) aggregate s = after (loop-joined r) (x.reconcile ctx s)
    where
      after :
          ((a : Result) (t : S) → loop r ctx a t ≡ map_reply (joined a) (loop r ctx empty_result t))
          → (run : Outcome Reply × S)
          → continue run.0 (λ reply. after_call aggregate reply (loop r ctx)) run.1
            ≡ map_reply
                (joined aggregate)
                (continue run.0 (λ reply. after_call empty_result reply (loop r ctx)) run.1)
      after ih (panicked e, t) = refl
      after ih (exhausted, t) = refl
      after ih (returned (result, some e), t) = refl
      after ih (returned (result, none), t) =
          ih (aggregate_two result aggregate) t
          ∙ map_reply-joined aggregate result (loop r ctx empty_result t)
          ∙ ap (map_reply (joined aggregate)) (
              sym (
                ih (aggregate_two result empty_result) t
                ∙ ap (λ (a : Result). map_reply (joined a) (loop r ctx empty_result t))
                    (aggregate_two_empty result)))

  -- The second part of a run, given how the first has ended.
  abbrev pub then_rest : Sequence Config S → Reply → M S Reply
  then_rest ys (result, some e) = pure (result, some e)
  then_rest ys (result, none) = λ s. map_reply (joined result) (reconcile ys ctx s)

  loop-append :
      (xs ys : Sequence Config S) (aggregate : Result) (s : S)
      → loop (xs ++ ys) ctx aggregate s ≡ (loop xs ctx aggregate >>= then_rest ys) s
  unfolding loop reconcile
  loop-append [] ys aggregate s = loop-joined ys aggregate s
  loop-append (x ∷ xs) ys aggregate s = after (loop-append xs ys) (x.reconcile ctx s)
    where
      after :
          ((a : Result) (t : S) → loop (xs ++ ys) ctx a t ≡ (loop xs ctx a >>= then_rest ys) t)
          → (run : Outcome Reply × S)
          → continue run.0 (λ reply. after_call aggregate reply (loop (xs ++ ys) ctx)) run.1 ≡ (
              let (o, t) =
                continue run.0 (λ reply. after_call aggregate reply (loop xs ctx)) run.1 in
              continue o (then_rest ys) t)
      after ih (panicked e, t) = refl
      after ih (exhausted, t) = refl
      after ih (returned (result, some e), t) = refl
      after ih (returned (result, none), t) = ih (aggregate_two result aggregate) t

  -- A sequence of two parts runs the first and then, unless that has erred, the second in the state
  -- that the first has left. Without an error the results are aggregated; an error of the first part
  -- is returned as it is, and one of the second with the result that came with it alone.
  pub reconcile-append :
      (xs ys : Sequence Config S) (s : S)
      → reconcile (xs ++ ys) ctx s ≡ (reconcile xs ctx >>= then_rest ys) s
  unfolding reconcile
  reconcile-append xs ys s = loop-append xs ys empty_result s
