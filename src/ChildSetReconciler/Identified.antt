-- ===== src/ChildSetReconciler/Identified.antt =====
-- The identifiers of a set of children (reconcilers/childset.go).
use reconciler_runtime.Base.{
  String, Bool, true, false, not, ◌&&◌, ◌||◌, ◌==◌, Option, none, some, List, [], ◌∷◌, ◌++◌, map,
  ◌≡◌, refl, sym, ap, subst, ◌∙◌, ◌⊎◌, inl, inr, arith, if◌then◌else◌, Bool-cases, eq_iff,
}
use reconciler_runtime.Base.Map.{string_key, lookup, insert, has, add, has-add, lookup-insert}
use reconciler_runtime.Errors.{Error, errorf}
use reconciler_runtime.Exec.{and_then, ok, failed, returned}
use reconciler_runtime.ChildSetReconciler.Methods.{
  Claims, claimed, claim, empty_id, duplicate_id, claim_desired, claim_known,
}

-- Does every child have an identifier that is not empty, and that no later child has?
abbrev pub identified : {T : Type 0} → (T → String) → List T → Bool
identified f [] = true
identified f (d ∷ ds) = not (f d == "") && not (has (f d) (map f ds)) && identified f ds

-- The first child with the identifier.
abbrev pub child_of : {T : Type 0} → (T → String) → String → List T → Option T
child_of f j [] = none
child_of f j (d ∷ ds) = if f d == j then some d else child_of f j ds

abbrev pub or_else : {A : Type 0} → Option A → Option A → Option A
or_else (some a) b = some a
or_else none b = b

-- Is none of the first among the others?
abbrev pub apart : List String → List String → Bool
apart [] ids = true
apart (x ∷ xs) ids = not (has x ids) && apart xs ids

apart-add :
    (k : String) (xs ids : List String) → apart xs (add k ids) ≡ (apart xs ids && not (has k xs))
apart-add k [] ids = refl
apart-add k (x ∷ xs) ids =
    ground (arith, has-add k x ids, apart-add k xs ids, eq_iff k x, eq_iff x k)

pub identified-fresh :
    {T : Type 0} (f : T → String) (ds : List T)
    → (identified f ds && apart (map f ds) []) ≡ identified f ds
identified-fresh f ds = rw (apart_nil (map f ds)) (ground arith)
  where
    apart_nil : (xs : List String) → apart xs [] ≡ true
    apart_nil [] = refl
    apart_nil (x ∷ xs) = apart_nil xs

-- The same test, child by child.
identified-step :
    {T : Type 0} (f : T → String) (d : T) (ds : List T) (ids : List String)
    → (identified f (d ∷ ds) && apart (map f (d ∷ ds)) ids) ≡ (
        not (f d == "")
        && not (has (f d) ids)
        && (identified f ds && apart (map f ds) (add (f d) ids)))
identified-step f d ds ids = rw (apart-add (f d) (map f ds) ids) (
    booleans (f d == "") (has (f d) (map f ds)) (identified f ds) (has (f d) ids)
      (apart (map f ds) ids))
  where
    booleans :
        (a b c d e : Bool)
        → ((not a && not b && c) && (not d && e)) ≡ (not a && not d && (c && (e && not b)))
    booleans a b c d e = ground arith

and_parts : (a b c : Bool) → (not a && not b && c) ≡ true → (a ≡ false) × (b ≡ false) × (c ≡ true)
and_parts false false true h = (refl, refl, refl)
and_parts false false false h = absurd (cc)
and_parts false true c h = absurd (cc)
and_parts true b c h = absurd (cc)

all_three : (a b c : Bool) → a ≡ false → b ≡ false → c ≡ true → (not a && not b && c) ≡ true
all_three a b c p q r = rw (p, q, r) refl

later : (a b c d : Bool) → ((not a && not b && c) && d) ≡ true → b ≡ false
later false false c d h = refl
later true b c d h = absurd (cc)
later false true c d h = absurd (cc)

and_last : (a b c : Bool) → a ≡ false → b ≡ false → (not a && not b && c) ≡ false → c ≡ false
and_last false false c p q h = h
and_last true b c p q h = absurd (cc)
and_last false true c p q h = absurd (cc)

third :
    {A : Type 0} (a b : Bool) (x y z : A)
    → a ≡ false
    → b ≡ false
    → (if a then x else if b then y else z) ≡ z
third false false x y z p q = refl
third true b x y z p q = absurd (cc)
third false true x y z p q = absurd (cc)

child_of-none :
    {T : Type 0} (f : T → String) (j : String) (ds : List T)
    → has j (map f ds) ≡ false
    → child_of f j ds ≡ none
child_of-none f j [] h = refl
child_of-none f j (d ∷ ds) h = ground (arith, child_of-none f j ds)

module _ {T : Type 0} (f : T → String) where
  -- What the loop leaves, with identifiers and children claimed before.
  abbrev pub Claimed : List T → Claims T → Claims T → Type 0
  Claimed ds c c' =
      ((j : String) → has j c'.ids ≡ (has j c.ids || has j (map f ds)))
      × ((j : String) → lookup j c'.by_id ≡ or_else (child_of f j ds) (lookup j c.by_id))

  claim_fresh :
      (d : T) (c : Claims T)
      → (f d == "") ≡ false
      → has (f d) c.ids ≡ false
      → claim (f d) d c ≡ ok (claimed (f d) d c)
  claim_fresh d c filled new =
      third (f d == "") (has (f d) c.ids) (failed empty_id) (failed (duplicate_id (f d)))
        (ok (claimed (f d) d c)) filled new

  claimed-Claimed :
      (d : T) (ds : List T) (c c' : Claims T)
      → has (f d) (map f ds) ≡ false
      → Claimed ds (claimed (f d) d c) c'
      → Claimed (d ∷ ds) c c'
  claimed-Claimed d ds c c' last (ids, by_id) =
      ((λ j. ids j ∙ ground (arith, has-add (f d) j c.ids)), λ j. by_id j ∙ child j)
    where
      child :
          (j : String)
          → or_else (child_of f j ds) (lookup j (insert (f d) d c.by_id))
            ≡ or_else (child_of f j (d ∷ ds)) (lookup j c.by_id)
      child j = elim (Bool-cases (f d == j)) [
        | inl q ↦
            rw (lookup-insert (f d) j d c.by_id, q)
              (rw
                (child_of-none f j ds
                  (subst (λ i. has i (map f ds) ≡ false) ((eq_iff (f d) j).0 q) last))
                refl)
        | inr q ↦ rw (lookup-insert (f d) j d c.by_id, q) refl
      ]

  -- What fails the first child whose identifier is empty or taken, by those before it or before.
  abbrev pub FailsFor : List String → List T → T → Error → Type 0
  FailsFor ids before child e =
      ((f child ≡ "") × (e ≡ errorf "desired child id may not be empty" []))
      ⊎ (((f child == "") ≡ false)
          × ((has (f child) ids || has (f child) (map f before)) ≡ true)
          × (e ≡ errorf "duplicate child id found: %s" (f child ∷ [])))

  abbrev pub FailsAt : List String → List T → Error → Type 0
  FailsAt ids ds e =
      (before : List T) × (child : T) × (rest : List T) × (ds ≡ before ++ child ∷ rest)
      × ((identified f before && apart (map f before) ids) ≡ true)
      × FailsFor ids before child e

  taken :
      (d child : T) (before : List T) (ids : List String)
      → (has (f child) (add (f d) ids) || has (f child) (map f before)) ≡ true
      → (has (f child) ids || has (f child) (map f (d ∷ before))) ≡ true
  taken d child before ids h = ground (arith, has-add (f d) (f child) ids)

  FailsAt-later :
      (d : T) (ds : List T) (ids : List String) (e : Error)
      → (f d == "") ≡ false
      → has (f d) ids ≡ false
      → FailsAt (add (f d) ids) ds e
      → FailsAt ids (d ∷ ds) e
  FailsAt-later d ds ids e filled new (before, child, rest, split, distinct, why) = (
    d ∷ before,
    child,
    rest,
    ap (λ l. d ∷ l) split,
    identified-step f d before ids ∙ all_three _ _ _ filled new distinct,
    elim why [
      | inl empty ↦ inl empty
      | inr (other, old, which) ↦ inr (other, taken d child before ids old, which)
    ],
  )

  module _ {S : Type 0} where
    pub claim_desired-Claimed :
        (ds : List T) (c : Claims T) (s : S)
        → (identified f ds && apart (map f ds) c.ids) ≡ true
        → (c' : Claims T) × (claim_desired (some f) ds c s ≡ (returned (ok c'), s))
          × Claimed ds c c'
    unfolding claim_desired
    claim_desired-Claimed [] c s h = (c, refl, ((λ j. ground arith), λ j. refl))
    claim_desired-Claimed (d ∷ ds) c s h =
        let (filled, new, rest) =
          and_parts (f d == "") (has (f d) c.ids)
            (identified f ds && apart (map f ds) (add (f d) c.ids))
            (sym (identified-step f d ds c.ids) ∙ h) in
        let (c', run, (ids, by_id)) = claim_desired-Claimed ds (claimed (f d) d c) s rest in
        (
          c',
          ap (λ o. and_then (claim_desired (some f) ds) o s) (claim_fresh d c filled new) ∙ run,
          claimed-Claimed d ds c c'
              (later (f d == "") (has (f d) (map f ds)) (identified f ds)
                (apart (map f (d ∷ ds)) c.ids) h)
              (ids, by_id),
        )

    pub claim_desired-failed :
        (ds : List T) (c : Claims T) (s : S)
        → (identified f ds && apart (map f ds) c.ids) ≡ false
        → (e : Error) × (claim_desired (some f) ds c s ≡ (returned (failed e), s))
          × FailsAt c.ids ds e
    unfolding claim_desired
    claim_desired-failed [] c s h = absurd (cc)
    claim_desired-failed (d ∷ ds) c s h = elim (Bool-cases (f d == "")) [
      | inl empty ↦
          (empty_id, rw empty refl, ([], d, ds, refl, refl, inl ((eq_iff (f d) "").0 empty, refl)))
      | inr filled ↦ elim (Bool-cases (has (f d) c.ids)) [
        | inl old ↦ (
          duplicate_id (f d),
          rw (filled, old) refl,
          ([], d, ds, refl, refl, inr (filled, rw old refl, refl)),
        )
        | inr new ↦
            let (e, run, fails) = claim_desired-failed ds (claimed (f d) d c) s (
              and_last (f d == "") (has (f d) c.ids)
                (identified f ds && apart (map f ds) (add (f d) c.ids)) filled new
                (sym (identified-step f d ds c.ids) ∙ h)) in
            (
              e,
              ap (λ o. and_then (claim_desired (some f) ds) o s) (claim_fresh d c filled new) ∙ run,
              FailsAt-later d ds c.ids e filled new fails,
            )
      ]
    ]

    pub claim_known-Claimed :
        (ks : List T) (c : Claims T) (s : S)
        → (c' : Claims T) × (claim_known (some f) ks c s ≡ (returned c', s))
          × (c'.by_id ≡ c.by_id)
          × ((j : String) → has j c'.ids ≡ (has j c.ids || has j (map f ks)))
    unfolding claim_known
    claim_known-Claimed [] c s = (c, refl, refl, λ j. ground arith)
    claim_known-Claimed (k ∷ ks) c s =
        let (c', run, same, ids) = claim_known-Claimed ks (record c { ids = add (f k) c.ids }) s in
        (c', run, same, λ j. ids j ∙ ground (arith, has-add (f k) j c.ids))
