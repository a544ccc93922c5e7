-- ===== src/Conditions/Failing.antt =====
-- `MarkFalse`, `MarkUnknown`, `ClearCondition` and `InitializeConditions`
-- (apis/conditionset.go) keep the happy condition the sum of the dependents.
use reconciler_runtime.Base.{
  ◌≡◌, refl, sym, subst, ◌∙◌, ◌≢◌, ◌⊎◌, inl, inr, String, Bool, true, false, Option, none, List, [],
  ◌∷◌, arith, ◌==◌, Bool-cases, Option-cases,
}
use reconciler_runtime.Conditions.{
  Time, Condition, Status, ConditionSet, contains, condition_true, condition_false,
  condition_unknown,
}
use reconciler_runtime.Conditions.Manager.{
  ConditionsImpl, get_condition, new_condition, set_condition, all_true, check_dependents, Checked,
  failed, finished, false_types, initialize_terminal_condition, initialize_all,
  initialize_conditions, mark_false, mark_unknown, set_all_false,
}
use reconciler_runtime.Conditions.Views.{IsManaged, set_condition-set, set_condition-IsManaged}
use reconciler_runtime.Conditions.Marking.{
  is_true, is_false, all_true-set_other, all_true-set_lost, all_true-SameTruth, false-not_true,
  failed-all_true, finished-contains, initialize-SameTruth, initialize-IsManaged,
}
use reconciler_runtime.Conditions.Happy

Checked-cases : (c : Checked) → (c ≡ failed) ⊎ ((b : Bool) × (c ≡ finished b))
Checked-cases failed = inl refl
Checked-cases (finished b) = inr (b, refl)

-- All the types that `MarkFalse` adds are the happy one, and there is one just for a dependent.
abbrev Only : String → List String → Type 0
Only happy [] = Unit
Only happy (t ∷ ts) = (t ≡ happy) × Only happy ts

false_types-none :
    (s : ConditionSet) (t : String) (ds : List String)
    → contains ds t ≡ false
    → false_types s t ds ≡ []
unfolding false_types
false_types-none s t [] h = refl
false_types-none s t (d ∷ ds) h = ground (arith, false_types-none s t ds)

false_types-Only :
    (s : ConditionSet) (t : String) (ds : List String) → Only s.happy_type (false_types s t ds)
unfolding false_types
false_types-Only s t [] = tt
false_types-Only s t (d ∷ ds) = ground (arith, false_types-Only s t ds)

false_types-some :
    (s : ConditionSet) (t : String) (ds : List String)
    → contains ds t ≡ true
    → (ts : List String) × (false_types s t ds ≡ s.happy_type ∷ ts) × Only s.happy_type ts
unfolding false_types
false_types-some s t [] h = cc
false_types-some s t (d ∷ ds) h = elim (Bool-cases (d == t)) [
  | inl e ↦ rw (e, false_types) (false_types s t ds, refl, false_types-Only s t ds)
  | inr e ↦ rw (e, false_types) (false_types-some s t ds (rw e at h))
]

module _ (rfc3339_copy : Time → Time) (happy happy_reason d : String) (ds : List String)
    (apart : contains (d ∷ ds) happy ≡ false) where
  abbrev put : ConditionsImpl → Condition → ConditionsImpl
  put = set_condition rfc3339_copy

  abbrev manager : Option Status → Time → ConditionsImpl
  manager = Happy.manager rfc3339_copy happy happy_reason d ds apart

  abbrev SumsUp : ConditionsImpl → Type 0
  SumsUp = Happy.SumsUp rfc3339_copy happy happy_reason d ds apart

  -- Marking the happy condition false, as often as it is listed.
  set_happy_false-SumsUp :
      (r : ConditionsImpl) (reason message : String) (ts : List String)
      → Only happy ts
      → IsManaged r
      → all_true r (d ∷ ds) ≡ false
      → SumsUp r ⊎ (ts ≢ [])
      → SumsUp (set_all_false rfc3339_copy r reason message ts)
  unfolding set_all_false
  set_happy_false-SumsUp r reason message [] only h lost (inl s) = s
  set_happy_false-SumsUp r reason message [] only h lost (inr e) = absurd (e refl)
  set_happy_false-SumsUp r reason message (t ∷ ts) only h lost s =
      let new = new_condition t condition_false reason message in
      let out : contains (d ∷ ds) t ≡ false = rw only.0 apart in
      let sums : SumsUp (put r new) =
        subst (λ x. SumsUp (put r (new_condition x condition_false reason message))) (sym only.0)
          (Happy.put_unhappy-SumsUp rfc3339_copy happy happy_reason d ds apart r condition_false
            reason message h refl lost) in
      set_happy_false-SumsUp (put r new) reason message ts only.1 sums.managed
        (all_true-set_other rfc3339_copy r new (d ∷ ds) h out ∙ lost) (inl sums)

  pub mark_false-SumsUp :
      (o : Option Status) (now : Time) (t reason message : String)
      → t ≢ happy
      → SumsUp (manager o now)
      → SumsUp (mark_false rfc3339_copy (manager o now) t reason message)
  unfolding mark_false
  mark_false-SumsUp o now t reason message ne h =
      let r = manager o now in
      let new = new_condition t condition_false reason message in
      elim (Bool-cases (contains (d ∷ ds) t)) [
        | inr out ↦
            rw (false_types-none r.set t (d ∷ ds) out)
              (Happy.put_other-SumsUp rfc3339_copy happy happy_reason d ds apart r new h ne out)
        | inl dep ↦
            let (ts, e, only) = false_types-some r.set t (d ∷ ds) dep in
            rw e (
              set_happy_false-SumsUp (put r new) reason message (happy ∷ ts) (refl, only)
                (set_condition-IsManaged rfc3339_copy r new h.managed)
                (all_true-set_lost rfc3339_copy r new (d ∷ ds) h.managed refl dep) (inr (λ q. cc)))
      ]

  mark_happy_false :
      (r : ConditionsImpl) (reason message : String) (s : ConditionSet)
      → s ≡ (manager none 0).set
      → mark_false rfc3339_copy (record r { set = s }) happy reason message
        ≡ put (record r { set = s }) (new_condition happy condition_false reason message)
  unfolding mark_false set_all_false
  mark_happy_false r reason message s e =
      subst
        (λ x.
          mark_false rfc3339_copy (record r { set = x }) happy reason message
          ≡ put (record r { set = x }) (new_condition happy condition_false reason message))
        (sym e) (rw (false_types-none (manager none 0).set happy (d ∷ ds) apart))

  pub mark_unknown-SumsUp :
      (o : Option Status) (now : Time) (t reason message : String)
      → t ≢ happy
      → SumsUp (manager o now)
      → SumsUp (mark_unknown rfc3339_copy (manager o now) t reason message)
  unfolding mark_unknown
  mark_unknown-SumsUp o now t reason message ne h =
      let r = manager o now in
      let new = new_condition t condition_unknown reason message in
      let r' = put r new in
      let managed = set_condition-IsManaged rfc3339_copy r new h.managed in
      elim (Checked-cases (check_dependents r' t false (d ∷ ds))) [
        | inl e ↦
            let lost = failed-all_true r' t false (d ∷ ds) e in
            elim (Bool-cases (is_false r' happy)) [
              | inl already ↦
                  rw (e, already)
                    (record {
                      managed = managed;
                      agrees = rw lost (false-not_true (get_condition r' happy) already);
                    })
              | inr other ↦
                  rw (e, other)
                    (rw
                      (mark_happy_false r' reason message r'.set
                        (set_condition-set rfc3339_copy r new))
                      (Happy.put_unhappy-SumsUp rfc3339_copy happy happy_reason d ds apart r'
                        condition_false reason message managed refl lost))
            ]
        | inr (b, e) ↦
            let is_dependent = finished-contains r' t false b (d ∷ ds) e in
            elim (Bool-cases b) [
              | inl yes_b ↦
                  rw (e, yes_b)
                    (Happy.put_unhappy-SumsUp rfc3339_copy happy happy_reason d ds apart r'
                      condition_unknown reason message managed refl
                      (all_true-set_lost rfc3339_copy r new (d ∷ ds) h.managed refl
                        (sym is_dependent ∙ yes_b)))
              | inr no_b ↦
                  rw (e, no_b)
                    (Happy.put_other-SumsUp rfc3339_copy happy happy_reason d ds apart r new h ne
                      (sym is_dependent ∙ no_b))
            ]
      ]

  initialize-SumsUp :
      (r : ConditionsImpl) (t status : String)
      → SumsUp r
      → ((status == condition_true) ≡ false) ⊎ (is_true r t ≡ true)
      → SumsUp (initialize_terminal_condition rfc3339_copy r t "Initializing" status)
  initialize-SumsUp r t status h cause =
      let r' = initialize_terminal_condition rfc3339_copy r t "Initializing" status in
      let same = initialize-SameTruth rfc3339_copy r t "Initializing" status h.managed cause in
      record {
        managed = initialize-IsManaged rfc3339_copy r t "Initializing" status h.managed;
        agrees = same happy ∙ h.agrees ∙ sym (all_true-SameTruth r r' (d ∷ ds) same);
      }

  initialize_unknown-SumsUp :
      (r : ConditionsImpl) (ts : List String)
      → SumsUp r
      → SumsUp (initialize_all rfc3339_copy r condition_unknown ts)
  unfolding initialize_all
  initialize_unknown-SumsUp r [] h = h
  initialize_unknown-SumsUp r (t ∷ ts) h =
      initialize_unknown-SumsUp
        (initialize_terminal_condition rfc3339_copy r t "Initializing" condition_unknown) ts
        (initialize-SumsUp r t condition_unknown h (inl refl))

  initialize_true-SumsUp :
      (r : ConditionsImpl) (ts : List String)
      → SumsUp r
      → all_true r ts ≡ true
      → SumsUp (initialize_all rfc3339_copy r condition_true ts)
  unfolding initialize_all all_true
  initialize_true-SumsUp r [] h e = h
  initialize_true-SumsUp r (t ∷ ts) h e =
      let this : is_true r t ≡ true = ground arith in
      let r' = initialize_terminal_condition rfc3339_copy r t "Initializing" condition_true in
      let same =
        initialize-SameTruth rfc3339_copy r t "Initializing" condition_true h.managed (inr this) in
      let rest : all_true r ts ≡ true = ground arith in
      initialize_true-SumsUp r' ts (initialize-SumsUp r t condition_true h (inr this))
        (all_true-SameTruth r r' ts same ∙ rest)

  pub initialize_conditions-SumsUp :
      (o : Option Status) (now : Time)
      → SumsUp (manager o now)
      → SumsUp (initialize_conditions rfc3339_copy (manager o now))
  unfolding initialize_conditions
  initialize_conditions-SumsUp o now h =
      let r = manager o now in
      elim (Option-cases (get_condition r happy)) [
        | inl e ↦
            rw (e, initialize_conditions)
              (initialize_unknown-SumsUp _ (d ∷ ds) (
                Happy.put_unhappy-SumsUp rfc3339_copy happy happy_reason d ds apart r
                  condition_unknown "Initializing" "" h.managed refl (sym h.agrees ∙ rw e)))
        | inr (c, e) ↦ elim (Bool-cases (c.status == condition_true)) [
          | inl glad ↦
              rw (e, glad, initialize_conditions)
                (initialize_true-SumsUp r (d ∷ ds) h (sym h.agrees ∙ rw e glad))
          | inr sad ↦ rw (e, sad, initialize_conditions) (initialize_unknown-SumsUp r (d ∷ ds) h)
        ]
      ]
