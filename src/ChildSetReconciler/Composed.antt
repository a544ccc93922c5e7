-- ===== src/ChildSetReconciler/Composed.antt =====
-- What a set of children is composed of (reconcilers/childset.go).
use reconciler_runtime.Base.{
  String, true, false, ◌||◌, Option, none, some, List, [], ◌∷◌, ◌++◌, map, ◌≡◌, refl, sym, ap, ◌∙◌,
}
use reconciler_runtime.Base.Text.{str_lt}
use reconciler_runtime.Base.Lists.{All}
use reconciler_runtime.Base.Map.{Map, string_key, lookup, has}
use reconciler_runtime.Errors.{Error}
use reconciler_runtime.Context.{Context}
use reconciler_runtime.Exec.{
  ok, failed, and_then, Outcome, returned, pure, call, continue, ◌>>=◌, bind_returned,
}
use reconciler_runtime.Flow.{SubReconciler}
use reconciler_runtime.Flow.Finalizer.{State}
use reconciler_runtime.Stash.{Stashed}
use reconciler_runtime.ChildReconciler.{set_resource_manager}
use reconciler_runtime.ChildSetReconciler.{External, Set, Lazy, child_reconciler_for}
use reconciler_runtime.ChildSetReconciler.Methods.{
  Claims, no_claims, as_sub, child_sequence, finalized, for_claims, stops,
  compose_child_reconcilers, compose_desired, claim_desired, claim_known,
}
use reconciler_runtime.ChildSetReconciler.Identified.{
  identified, identified-fresh, child_of, or_else, claim_desired-Claimed, claim_desired-failed,
  FailsFor, claim_known-Claimed,
}

abbrev pub IsAscending : List String → Type 0
IsAscending [] = Unit
IsAscending (x ∷ xs) = All (λ y. str_lt x y ≡ true) xs × IsAscending xs

-- `sets.String.List`: the members, each once, in ascending order.
pub record IsSort (sort : List String → List String) : Type 0 where
  pub ascending : (xs : List String) → IsAscending (sort xs)
  pub same_members : (xs : List String) (j : String) → has j (sort xs) ≡ has j xs

or_else-none : {A : Type 0} (o : Option A) → or_else o none ≡ o
or_else-none none = refl
or_else-none (some a) = refl

module _ {T Bytes V L Config B W : Type 0} (ext : External T Bytes V L Config B W) where
  abbrev pub Sub : Type 0
  Sub = SubReconciler Config (State B (Stashed V W))

  -- The reconciler of an identifier: for the desired child that has it, if there is one, and with the
  -- resource manager of the set.
  abbrev pub child_for :
      Set T V L Config B W
      → Lazy T L Config B (State B (Stashed V W))
      → List T
      → Option Error
      → (String → Option T)
      → String
      → Sub
  child_for r lazy known err desired id =
      as_sub ext known (record (child_reconciler_for ext.boxed r (desired id) err id false) {
        stamp = some lazy.stamp;
      })

  child_sequence-map :
      (r : Set T V L Config B W) (lazy : Lazy T L Config B (State B (Stashed V W))) (known : List T)
      (err : Option Error) (c : Claims T) (ids : List String) (s : State B (Stashed V W))
      → r.lazy_init ≡ some lazy
      → child_sequence ext r known err c ids s
        ≡ (returned (map (child_for r lazy known err (λ id. lookup id c.by_id)) ids), s)
  unfolding child_sequence set_resource_manager child_reconciler_for
  child_sequence-map r lazy known err c [] s made = refl
  child_sequence-map r lazy known err c (id ∷ ids) s made =
      ap
        (λ (o : Option (Lazy T L Config B (State B (Stashed V W)))).
          (call o (λ z.
                set_resource_manager z.stamp
                  (child_reconciler_for ext.boxed r (lookup id c.by_id) err id false))
              >>= λ cr. child_sequence ext r known err c ids >>= λ rest.
                  pure (as_sub ext known cr ∷ rest))
            s)
        made
      ∙ ap
          (λ run.
            continue run.0
              (λ rest. pure (child_for r lazy known err (λ j. lookup j c.by_id) id ∷ rest)) run.1)
          (child_sequence-map r lazy known err c ids s made)

  map-child_for :
      (r : Set T V L Config B W) (lazy : Lazy T L Config B (State B (Stashed V W))) (known : List T)
      (err : Option Error) (by_id by_id' : String → Option T) (ids : List String)
      → ((j : String) → by_id j ≡ by_id' j)
      → map (child_for r lazy known err by_id) ids ≡ map (child_for r lazy known err by_id') ids
  map-child_for r lazy known err by_id by_id' ids same =
      λ i. map (child_for r lazy known err (λ j. same j i)) ids

  for_claims-children :
      (r : Set T V L Config B W) (lazy : Lazy T L Config B (State B (Stashed V W))) (f : T → String)
      (known : List T) (err : Option Error) (c : Claims T) (s : State B (Stashed V W))
      → r.identify_child ≡ some f
      → r.lazy_init ≡ some lazy
      → (ids : List String) × ((j : String) → has j ids ≡ (has j c.ids || has j (map f known)))
        × (for_claims ext r known err c s ≡ (
          returned (
              ok (
                finalized ext r
                  (map (child_for r lazy known err (λ j. lookup j c.by_id)) (ext.sort ids)))),
          s,
        ))
  for_claims-children r lazy f known err c s identify made =
      let (c', run, same, ids) = claim_known-Claimed f known c s in
      (
        c'.ids,
        ids,
        bind_returned (claim_known r.identify_child known c)
              (λ c''. child_sequence ext r known err c'' (ext.sort c''.ids) >>= λ sequence.
                pure (ok (finalized ext r sequence)))
              s s c' (ap (λ o. claim_known o known c s) identify ∙ run)
            ∙ bind_returned (child_sequence ext r known err c' (ext.sort c'.ids))
                (λ sequence. pure (ok (finalized ext r sequence))) s s
                (map (child_for r lazy known err (λ j. lookup j c'.by_id)) (ext.sort c'.ids))
                (child_sequence-map r lazy known err c' (ext.sort c'.ids) s made)
            ∙ ap
                (λ (m : Map String T). (
                  returned (
                      ok (
                        finalized ext r
                          (map (child_for r lazy known err (λ j. lookup j m)) (ext.sort c'.ids)))),
                  s,
                ))
                same,
      )

  -- Unless its error stops it, the desired children are claimed.
  compose-claims :
      (r : Set T V L Config B W)
      (g : Context Config
        → List T
        → State B (Stashed V W)
        → Outcome (List T × Option Error) × State B (Stashed V W))
      (f : T → String) (ctx : Context Config) (known desired : List T) (err : Option Error)
      (s t : State B (Stashed V W))
      → r.desired_children ≡ some g
      → r.identify_child ≡ some f
      → g ctx known s ≡ (returned (desired, err), t)
      → stops err ≡ none
      → compose_child_reconcilers ext r ctx known s
        ≡ (claim_desired (some f) desired no_claims >>= and_then (for_claims ext r known err)) t
  unfolding compose_child_reconcilers
  compose-claims r g f ctx known desired err s t desires identify run on =
      bind_returned (call r.desired_children (λ h. h ctx known)) (compose_desired ext r known) s t
        (desired, err) (ap (λ o. call o (λ h. h ctx known) s) desires ∙ run)
      ∙ rw (on, compose_desired)
          (ap (λ o. (claim_desired o desired no_claims >>= and_then (for_claims ext r known err)) t)
            identify)

  -- Where `DesiredChildren` returns children with identifiers that are not empty and all distinct,
  -- and no error, or one that only asks to leave the children alone, the set is composed of one child
  -- reconciler for each identifier of a desired or a known child, in ascending order. Each is for the
  -- desired child of its identifier, or for none, and has the set's resource manager; with a finalizer
  -- they run within it. The order of `sets.String.List` is assumed, as documented.
  pub compose-children :
      IsSort ext.sort
      → (r : Set T V L Config B W) (lazy : Lazy T L Config B (State B (Stashed V W)))
        (g : Context Config
          → List T
          → State B (Stashed V W)
          → Outcome (List T × Option Error) × State B (Stashed V W))
        (f : T → String) (ctx : Context Config) (known desired : List T) (err : Option Error)
        (s t : State B (Stashed V W))
      → r.desired_children ≡ some g
      → r.identify_child ≡ some f
      → r.lazy_init ≡ some lazy
      → g ctx known s ≡ (returned (desired, err), t)
      → stops err ≡ none
      → identified f desired ≡ true
      → (ids : List String) × IsAscending ids
        × ((j : String) → has j ids ≡ (has j (map f desired) || has j (map f known)))
        × (compose_child_reconcilers ext r ctx known s ≡ (
          returned (
              ok (
                finalized ext r
                  (map (child_for r lazy known err (λ j. child_of f j desired)) ids))),
          t,
        ))
  compose-children sorts r lazy g f ctx known desired err s t desires identify made run on
        distinct =
      let (c, claims, (ids, by_id)) =
        claim_desired-Claimed f desired no_claims t (identified-fresh f desired ∙ distinct) in
      let (all, members, composed) = for_claims-children r lazy f known err c t identify made in
      (
        ext.sort all,
        sorts.ascending all,
        (λ j. sorts.same_members all j ∙ members j ∙ ap (λ b. b || has j (map f known)) (ids j)),
        compose-claims r g f ctx known desired err s t desires identify run on
            ∙ bind_returned (claim_desired (some f) desired no_claims)
                (and_then (for_claims ext r known err)) t t (ok c) claims
            ∙ composed
            ∙ ap (λ (subs : List Sub). (returned (ok (finalized ext r subs)), t))
                (map-child_for r lazy known err (λ j. lookup j c.by_id) (λ j. child_of f j desired)
                  (ext.sort all) (λ j. by_id j ∙ or_else-none (child_of f j desired))),
      )

  -- Where `DesiredChildren` returns children of which one has an empty identifier or that of an earlier
  -- one, and no error, or one that only asks to leave the children alone, the set is refused. The error
  -- is about the first such child: it says that its identifier is empty, or else which one it repeats.
  pub compose-refused :
      (r : Set T V L Config B W)
      (g : Context Config
        → List T
        → State B (Stashed V W)
        → Outcome (List T × Option Error) × State B (Stashed V W))
      (f : T → String) (ctx : Context Config) (known desired : List T) (err : Option Error)
      (s t : State B (Stashed V W))
      → r.desired_children ≡ some g
      → r.identify_child ≡ some f
      → g ctx known s ≡ (returned (desired, err), t)
      → stops err ≡ none
      → identified f desired ≡ false
      → (e : Error) × (compose_child_reconcilers ext r ctx known s ≡ (returned (failed e), t))
        × (before : List T) × (child : T) × (rest : List T) × (desired ≡ before ++ child ∷ rest)
        × (identified f before ≡ true)
        × FailsFor f [] before child e
  compose-refused r g f ctx known desired err s t desires identify run on not_distinct =
      let (e, refused, at) =
        claim_desired-failed f desired no_claims t (identified-fresh f desired ∙ not_distinct) in
      let (before, child, rest, split, distinct, why) = at in
      (
        e,
        compose-claims r g f ctx known desired err s t desires identify run on
            ∙ bind_returned (claim_desired (some f) desired no_claims)
                (and_then (for_claims ext r known err)) t t (failed e) refused,
        before,
        child,
        rest,
        split,
        sym (identified-fresh f before) ∙ distinct,
        why,
      )
