-- ===== src/Conditions/Views.antt =====
-- `SetCondition` against `GetCondition` (apis/conditionset.go), for a manager whose accessor holds
-- sorted conditions: what is set is found, and every other type is left alone.
use reconciler_runtime.Base.{
  ◌≡◌, refl, sym, ap, subst, ◌∙◌, ◌≢◌, inl, inr, String, Option, none, some, List, [], ◌∷◌, ◌++◌,
  arith, ◌==◌, eq_iff, if◌then◌else◌, Option-cases,
}
use reconciler_runtime.Base.Lists.{In}
use reconciler_runtime.Conditions.{Time, Condition, Status, find_condition, sort_conditions}
use reconciler_runtime.Conditions.Manager.{
  ConditionsImpl, get_condition, set_loop, without_type, set_condition,
}
use reconciler_runtime.Conditions.Sorted.{
  IsSorted, IsDistinct, AllOther, IsSorted-IsDistinct, find-sort, find-append_one, find-without,
  replace-IsSorted,
}
use reconciler_runtime.Conditions.Setting.{Agrees, LoopEnds, set_loop-LoopEnds}

abbrev pub IsManagedBy : Option Status → Type 0
IsManagedBy none = ⊥
IsManagedBy (some s) = IsSorted s.conditions

-- The accessor is not nil, and its conditions are sorted by type with no type twice.
abbrev pub IsManaged : ConditionsImpl → Type 0
IsManaged r = IsManagedBy r.accessor

find-AllOther :
    (c d : Condition) (cs : List Condition) → In c cs → AllOther d.type cs → d.type ≢ c.type
find-AllOther c d [] m o e = absurd m
find-AllOther c d (x ∷ cs) (inl h) o e = o.0 (ap (λ (y : Condition). y.type) (sym h) ∙ sym e)
find-AllOther c d (x ∷ cs) (inr h) o e = find-AllOther c d cs h o.1 e

find-In :
    (c : Condition) (cs : List Condition)
    → In c cs
    → IsDistinct cs
    → find_condition c.type cs ≡ some c
find-In c [] m h = absurd m
find-In c (d ∷ cs) (inl e) h = ground (arith, eq_iff d.type c.type)
find-In c (d ∷ cs) (inr m) h =
    ground (arith, eq_iff d.type c.type, find-AllOther c d cs m h.0, find-In c cs m h.1)

abbrev replaced : List Condition → Condition → List Condition
replaced cs c = sort_conditions (without_type c.type cs ++ c ∷ [])

find-replaced :
    (t : String) (cs : List Condition) (c : Condition)
    → find_condition t (replaced cs c) ≡ (if c.type == t then some c else find_condition t cs)
find-replaced t cs c = rw (find-sort t (without_type c.type cs ++ c ∷ [])) (
    rw (find-append_one t (without_type c.type cs) c)
      (rw (find-without t c.type cs) (ground arith)))

-- What `SetCondition` leaves behind.
record Sets (new : Condition) (cs cs' : List Condition) : Type 0 where
  sorted : IsSorted cs'
  found : (c : Condition) × (find_condition new.type cs' ≡ some c) × Agrees c new
  others : (t : String) → t ≢ new.type → find_condition t cs' ≡ find_condition t cs

replaced-Sets :
    (new : Condition) (time : Time) (cs : List Condition)
    → IsSorted cs
    → Sets new cs (replaced cs (record new { last_transition_time = time }))
replaced-Sets new time cs h =
    let new' = record new { last_transition_time = time } in
    record {
      sorted = replace-IsSorted cs new' h;
      found = (
        new',
        (rw (find-replaced new.type cs new') (ground (arith, eq_iff new.type new.type))),
        record {
          type = refl;
          status = refl;
          observed_generation = refl;
          reason = refl;
          message = refl;
        },
      );
      others = λ t ne. rw (find-replaced t cs new') (ground (arith, eq_iff new.type t));
    }

kept-Sets :
    (new c : Condition) (cs : List Condition)
    → IsSorted cs
    → In c cs
    → Agrees c new
    → Sets new cs cs
kept-Sets new c cs h m a = record {
  sorted = h;
  found = (c, (rw (← a.type) (find-In c cs m (IsSorted-IsDistinct cs h))), a);
  others = λ t ne. refl;
}

abbrev conditions_of : Option Status → List Condition
conditions_of none = []
conditions_of (some s) = s.conditions

module _ (rfc3339_copy : Time → Time) where
  set_condition-Sets :
      (r : ConditionsImpl) (new : Condition) (o : Option Status)
      → IsManagedBy o
      → let r' = set_condition rfc3339_copy (record r { accessor = o }) new in
        IsManaged r' × Sets new (conditions_of o) (conditions_of r'.accessor)
  unfolding set_condition
  set_condition-Sets r new none h = absurd h
  set_condition-Sets r new (some s) h =
      let ends = set_loop-LoopEnds new [] s.conditions in
      elim (Option-cases (set_loop new [] s.conditions)) [
        | inl e ↦
            let (c, m, a) = subst (LoopEnds new [] s.conditions) e ends in
            rw (e, set_condition) (h, kept-Sets new c s.conditions h m a)
        | inr (l, e) ↦
            let same = subst (LoopEnds new [] s.conditions) e ends in
            let sets = replaced-Sets new (rfc3339_copy r.now) s.conditions h in
            rw (e, set_condition) (rw same (sets.sorted, sets))
      ]

  pub set_condition-set :
      (r : ConditionsImpl) (new : Condition) → (set_condition rfc3339_copy r new).set ≡ r.set
  unfolding set_condition
  set_condition-set r new = ground arith

  -- Setting a condition keeps the conditions sorted, with no type twice.
  pub set_condition-IsManaged :
      (r : ConditionsImpl) (new : Condition)
      → IsManaged r
      → IsManaged (set_condition rfc3339_copy r new)
  set_condition-IsManaged r new h = (set_condition-Sets r new r.accessor h).0

  get_condition-conditions_of :
      (r : ConditionsImpl) (t : String)
      → get_condition r t ≡ find_condition t (conditions_of r.accessor)
  get_condition-conditions_of r t = ground arith

  -- What is set is found, with the fields that it was given and at most another time of its last
  -- transition; every other type is left alone.
  pub get-set_condition :
      (r : ConditionsImpl) (new : Condition)
      → IsManaged r
      → let r' = set_condition rfc3339_copy r new in
        ((c : Condition) × (get_condition r' new.type ≡ some c) × Agrees c new)
        × ((t : String) → t ≢ new.type → get_condition r' t ≡ get_condition r t)
  get-set_condition r new h =
      let r' = set_condition rfc3339_copy r new in
      let sets = (set_condition-Sets r new r.accessor h).1 in
      let (c, e, a) = sets.found in
      (
        (c, get_condition-conditions_of r' new.type ∙ e, a),
        λ t ne.
            get_condition-conditions_of r' t
            ∙ sets.others t ne
            ∙ sym (get_condition-conditions_of r t),
      )
