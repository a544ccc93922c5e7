-- ===== src/Conditions/Verdicts.antt =====
-- Further promises of `conditionsImpl` and `newConditionSet` (apis/conditionset.go): a condition set
-- again keeps its time, initialization fills in what is missing, and an unknown dependent leaves the
-- happy condition unknown unless another dependent has failed.
use reconciler_runtime.Base.{
  ◌≡◌, refl, ap, ◌∙◌, inl, inr, String, false, not, Option, none, some, List, [], ◌∷◌, ◌++◌, ◌||◌,
  ◌&&◌, arith, ◌==◌, eq_iff, if◌then◌else◌, Option-cases,
}
use reconciler_runtime.Base.Lists.{In}
use reconciler_runtime.Conditions.{
  Time, Condition, Status, find_condition, contains, condition_true, condition_unknown,
  distinct_dependents, new_condition_set,
}
use reconciler_runtime.Conditions.Manager.{
  ConditionsImpl, get_condition, new_condition, set_condition, set_loop,
  initialize_terminal_condition, initialize_all, initialize_conditions,
}
use reconciler_runtime.Conditions.Views.{IsManaged, set_condition-IsManaged, get-set_condition}
use reconciler_runtime.Conditions.Setting.{Agrees}
use reconciler_runtime.Conditions.Marking.{initialize-IsManaged}

-- A condition that is found with the fields of the new one stops the loop.
set_loop_agreeing :
    (new c : Condition) (acc cs : List Condition)
    → find_condition new.type cs ≡ some c
    → Agrees c new
    → set_loop new acc cs ≡ none
unfolding set_loop
set_loop_agreeing new c acc [] e a = cc
set_loop_agreeing new c acc (x ∷ cs) e a = ground (
  arith,
  set_loop_agreeing new c (acc ++ x ∷ []) cs,
  eq_iff new.type x.type,
  eq_iff new.status x.status,
  eq_iff new.reason x.reason,
  eq_iff new.message x.message,
  a.type,
  a.status,
  a.reason,
  a.message,
  a.observed_generation,
)

module _ (rfc3339_copy : Time → Time) where
  set_again :
      (r : ConditionsImpl) (new c : Condition) (o : Option Status)
      → get_condition (record r { accessor = o }) new.type ≡ some c
      → Agrees c new
      → set_condition rfc3339_copy (record r { accessor = o }) new ≡ record r { accessor = o }
  unfolding set_condition
  set_again r new c none e a = refl
  set_again r new c (some s) e a = rw (set_loop_agreeing new c [] s.conditions e a, set_condition)

  -- Setting a condition again, at whatever later time, changes nothing: the time of the last
  -- transition stays, so that a status that says nothing new stays equal.
  pub set_condition_again :
      (r : ConditionsImpl) (new : Condition) (later : Time)
      → IsManaged r
      → let r' = record (set_condition rfc3339_copy r new) { now = later } in
        set_condition rfc3339_copy r' new ≡ r'
  set_condition_again r new later h =
      let r' = set_condition rfc3339_copy r new in
      let ((c, e, a), others) = get-set_condition rfc3339_copy r new h in
      set_again (record r' { now = later }) new c r'.accessor e a

  initialize_found :
      (r : ConditionsImpl) (u reason status t : String) (c : Condition)
      → IsManaged r
      → get_condition r t ≡ some c
      → get_condition (initialize_terminal_condition rfc3339_copy r u reason status) t ≡ some c
  unfolding initialize_terminal_condition
  initialize_found r u reason status t c h e = elim (Option-cases (get_condition r u)) [
    | inr (c', e') ↦ rw (e', initialize_terminal_condition) e
    | inl absent ↦
        let (found, others) =
          get-set_condition rfc3339_copy r (new_condition u status reason "") h in
        rw (absent, initialize_terminal_condition) (others t (λ q. cc (ap (get_condition r) q)) ∙ e)
  ]

  initialize_some :
      (r : ConditionsImpl) (u reason status : String)
      → IsManaged r
      → (c : Condition) × (get_condition
            (initialize_terminal_condition rfc3339_copy r u reason status)
            u
          ≡ some c)
  unfolding initialize_terminal_condition
  initialize_some r u reason status h = elim (Option-cases (get_condition r u)) [
    | inr (c', e') ↦ (c', rw (e', initialize_terminal_condition) e')
    | inl absent ↦
        let ((c, e, a), others) =
          get-set_condition rfc3339_copy r (new_condition u status reason "") h in
        (c, rw (absent, initialize_terminal_condition) e)
  ]

  initialize_all_found :
      (r : ConditionsImpl) (status t : String) (c : Condition) (ds : List String)
      → IsManaged r
      → get_condition r t ≡ some c
      → get_condition (initialize_all rfc3339_copy r status ds) t ≡ some c
  unfolding initialize_all
  initialize_all_found r status t c [] h e = e
  initialize_all_found r status t c (u ∷ ds) h e =
      initialize_all_found (initialize_terminal_condition rfc3339_copy r u "Initializing" status)
        status t c ds (initialize-IsManaged rfc3339_copy r u "Initializing" status h)
        (initialize_found r u "Initializing" status t c h e)

  initialize_all-some :
      (r : ConditionsImpl) (status t : String) (ds : List String)
      → IsManaged r
      → In t ds
      → (c : Condition) × (get_condition (initialize_all rfc3339_copy r status ds) t ≡ some c)
  unfolding initialize_all
  initialize_all-some r status t [] h m = absurd m
  initialize_all-some r status t (u ∷ ds) h (inl q) =
      let r' = initialize_terminal_condition rfc3339_copy r u "Initializing" status in
      let (c, e) = initialize_some r u "Initializing" status h in
      (
        c,
        initialize_all_found r' status t c ds
            (initialize-IsManaged rfc3339_copy r u "Initializing" status h)
            (ap (get_condition r') q ∙ e),
      )
  initialize_all-some r status t (u ∷ ds) h (inr m) =
      initialize_all-some (initialize_terminal_condition rfc3339_copy r u "Initializing" status)
        status t ds (initialize-IsManaged rfc3339_copy r u "Initializing" status h) m

  -- `InitializeConditions` leaves every condition that is there as it is, and afterwards the happy
  -- condition and every dependent's condition are there.
  initialize_conditions_fills :
      (r : ConditionsImpl)
      → IsManaged r
      → let r' = initialize_conditions rfc3339_copy r in
        ((t : String) (c : Condition) → get_condition r t ≡ some c → get_condition r' t ≡ some c)
        × ((t : String)
            → In t (r.set.happy_type ∷ r.set.dependents)
            → (c : Condition) × (get_condition r' t ≡ some c))
  unfolding initialize_conditions
  initialize_conditions_fills r h = elim (Option-cases (get_condition r r.set.happy_type)) [
    | inl absent ↦
        let happy = new_condition r.set.happy_type condition_unknown "Initializing" "" in
        let r1 = set_condition rfc3339_copy r happy in
        let h1 = set_condition-IsManaged rfc3339_copy r happy h in
        let ((c1, e1, a1), others) = get-set_condition rfc3339_copy r happy h in
        rw (absent, initialize_conditions)
          (
            (λ t c e.
                initialize_all_found r1 condition_unknown t c r.set.dependents h1
                  (others t (λ q. cc (ap (get_condition r) q)) ∙ e)),
            (λ t m. elim m [
              | inl q ↦ (
                c1,
                initialize_all_found r1 condition_unknown t c1 r.set.dependents h1
                    (ap (get_condition r1) q ∙ e1),
              )
              | inr d ↦ initialize_all-some r1 condition_unknown t r.set.dependents h1 d
            ]),
          )
    | inr (c1, e1) ↦
        let status = if c1.status == condition_true then condition_true else condition_unknown in
        rw (e1, initialize_conditions)
          (
            (λ t c e. initialize_all_found r status t c r.set.dependents h e),
            (λ t m. elim m [
              | inl q ↦ (
                c1,
                initialize_all_found r status t c1 r.set.dependents h (ap (get_condition r) q ∙ e1),
              )
              | inr d ↦ initialize_all-some r status t r.set.dependents h d
            ]),
          )
  ]

-- No type twice.
abbrev pub IsUnique : List String → Type 0
IsUnique [] = Unit
IsUnique (t ∷ ts) = (contains ts t ≡ false) × IsUnique ts

contains-append_one :
    (ts : List String) (u t : String) → contains (ts ++ u ∷ []) t ≡ (contains ts t || u == t)
contains-append_one [] u t = ground arith
contains-append_one (s ∷ ts) u t = ground (arith, contains-append_one ts u t)

append_one-IsUnique :
    (ts : List String) (u : String) → contains ts u ≡ false → IsUnique ts → IsUnique (ts ++ u ∷ [])
append_one-IsUnique [] u e h = (refl, tt)
append_one-IsUnique (t ∷ ts) u e h =
    ground
      (arith, contains-append_one ts u t, eq_iff t u, eq_iff u t, append_one-IsUnique ts u, h.0)

distinct-IsUnique :
    (happy : String) (deps ds : List String)
    → IsUnique deps
    → IsUnique (distinct_dependents happy deps ds)
distinct-IsUnique happy deps [] h = h
distinct-IsUnique happy deps (d ∷ ds) h =
    distinct-IsUnique happy (if d == happy || contains deps d then deps else deps ++ d ∷ []) ds
      (ground (arith, append_one-IsUnique deps d))

distinct-contains :
    (happy : String) (deps ds : List String) (t : String)
    → contains (distinct_dependents happy deps ds) t
      ≡ (contains deps t || contains ds t && not (t == happy))
distinct-contains happy deps [] t = ground arith
distinct-contains happy deps (d ∷ ds) t =
    let deps' = if d == happy || contains deps d then deps else deps ++ d ∷ [] in
    distinct-contains happy deps' ds t
    ∙ ground (
      arith,
      contains-append_one deps d t,
      eq_iff d t,
      eq_iff t happy,
      eq_iff d happy,
      same deps d t,
    )
  where
    same : (ts : List String) (a b : String) → a ≡ b → contains ts a ≡ contains ts b
    same ts a b e = ap (contains ts) e

-- The dependents of a new set are the given types other than the happy one, each once.
new_condition_set-dependents :
    (happy reason : String) (ds : List String)
    → let s = new_condition_set happy reason ds in
      IsUnique s.dependents
      × ((t : String) → contains s.dependents t ≡ (contains ds t && not (t == happy)))
new_condition_set-dependents happy reason ds =
    (distinct-IsUnique happy [] ds tt, λ t. distinct-contains happy [] ds t)
