-- ===== src/Conditions/Marking.antt =====
-- Which conditions are true and false after the methods of `conditionsImpl`
-- (apis/conditionset.go), for a manager whose accessor holds sorted conditions.
use reconciler_runtime.Base.{
  ◌≡◌, refl, sym, subst, ◌≢◌, ◌⊎◌, inl, inr, String, Bool, true, false, Option, none, some, List,
  [], ◌∷◌, ◌||◌, arith, ◌==◌, eq_iff, if◌then◌else◌, Bool-cases, Option-cases,
}
use reconciler_runtime.Conditions.{
  Time, Condition, contains, condition_true, condition_false, condition_is_true, condition_is_false,
}
use reconciler_runtime.Conditions.Manager.{
  ConditionsImpl, get_condition, new_condition, set_condition, all_true, check_dependents, failed,
  finished, initialize_terminal_condition,
}
use reconciler_runtime.Conditions.Views.{
  IsManaged, set_condition-set, set_condition-IsManaged, get-set_condition,
}

abbrev pub is_true : ConditionsImpl → String → Bool
is_true r t = condition_is_true (get_condition r t)

abbrev pub is_false : ConditionsImpl → String → Bool
is_false r t = condition_is_false (get_condition r t)

-- The two managers find the same types true.
abbrev pub SameTruth : ConditionsImpl → ConditionsImpl → Type 0
SameTruth r r' = (t : String) → is_true r' t ≡ is_true r t

contains-ne : (ds : List String) (d t : String) → contains (d ∷ ds) t ≡ false → d ≢ t
contains-ne ds d t h e = ground (arith, eq_iff d t)

module _ (rfc3339_copy : Time → Time) where
  abbrev set : ConditionsImpl → Condition → ConditionsImpl
  set = set_condition rfc3339_copy

  pub is_true-set :
      (r : ConditionsImpl) (new : Condition) (t : String)
      → IsManaged r
      → is_true (set r new) t
        ≡ (if new.type == t then new.status == condition_true else is_true r t)
  is_true-set r new t h =
      let ((c, e, a), others) = get-set_condition rfc3339_copy r new h in
      elim (Bool-cases (new.type == t)) [
        | inl same ↦ rw same (
            subst (λ x. is_true (set r new) x ≡ (new.status == condition_true))
              ((eq_iff new.type t).0 same) (rw e (rw a.status refl)))
        | inr differs ↦ rw differs (rw (others t (λ q. ground (arith, eq_iff new.type t))) refl)
      ]

  pub is_false-set :
      (r : ConditionsImpl) (new : Condition) (t : String)
      → IsManaged r
      → is_false (set r new) t
        ≡ (if new.type == t then new.status == condition_false else is_false r t)
  is_false-set r new t h =
      let ((c, e, a), others) = get-set_condition rfc3339_copy r new h in
      elim (Bool-cases (new.type == t)) [
        | inl same ↦ rw same (
            subst (λ x. is_false (set r new) x ≡ (new.status == condition_false))
              ((eq_iff new.type t).0 same) (rw e (rw a.status refl)))
        | inr differs ↦ rw differs (rw (others t (λ q. ground (arith, eq_iff new.type t))) refl)
      ]

  -- Dependents that are all true stay so when one more condition is set to true.
  pub all_true-set_true :
      (r : ConditionsImpl) (new : Condition) (ds : List String)
      → IsManaged r
      → new.status ≡ condition_true
      → all_true r ds ≡ true
      → all_true (set r new) ds ≡ true
  unfolding all_true
  all_true-set_true r new [] h s e = refl
  all_true-set_true r new (d ∷ ds) h s e = ground (
    arith,
    is_true-set r new d h,
    eq_iff new.status condition_true,
    all_true-set_true r new ds h s,
  )

  pub all_true-set_other :
      (r : ConditionsImpl) (new : Condition) (ds : List String)
      → IsManaged r
      → contains ds new.type ≡ false
      → all_true (set r new) ds ≡ all_true r ds
  unfolding all_true
  all_true-set_other r new [] h s = refl
  all_true-set_other r new (d ∷ ds) h s = ground (
    arith,
    is_true-set r new d h,
    eq_iff d new.type,
    eq_iff new.type d,
    all_true-set_other r new ds h,
  )

  pub all_true-set_lost :
      (r : ConditionsImpl) (new : Condition) (ds : List String)
      → IsManaged r
      → (new.status == condition_true) ≡ false
      → contains ds new.type ≡ true
      → all_true (set r new) ds ≡ false
  unfolding all_true
  all_true-set_lost r new [] h s e = cc
  all_true-set_lost r new (d ∷ ds) h s e = ground (
    arith,
    is_true-set r new d h,
    eq_iff d new.type,
    eq_iff new.type d,
    all_true-set_lost r new ds h s,
  )

pub all_true-SameTruth :
    (r r' : ConditionsImpl) (ds : List String) → SameTruth r r' → all_true r' ds ≡ all_true r ds
unfolding all_true
all_true-SameTruth r r' [] h = refl
all_true-SameTruth r r' (d ∷ ds) h = ground (arith, h d, all_true-SameTruth r r' ds h)

pub false-not_true :
    (o : Option Condition) → condition_is_false o ≡ true → condition_is_true o ≡ false
false-not_true none h = refl
false-not_true (some c) h =
    subst (λ x. (x == condition_true) ≡ false) (sym ((eq_iff c.status condition_false).0 h)) refl

-- A dependent that is found failed is not true.
pub failed-all_true :
    (r : ConditionsImpl) (t : String) (b : Bool) (ds : List String)
    → check_dependents r t b ds ≡ failed
    → all_true r ds ≡ false
unfolding check_dependents all_true
failed-all_true r t b [] h = cc
failed-all_true r t b (d ∷ ds) h =
    ground (
      arith,
      false-not_true (get_condition r d),
      failed-all_true r t (if d == t then true else b) ds,
    )

-- The loop of `MarkUnknown` that reaches its end has seen whether the type is a dependent.
pub finished-contains :
    (r : ConditionsImpl) (t : String) (b b' : Bool) (ds : List String)
    → check_dependents r t b ds ≡ finished b'
    → b' ≡ (b || contains ds t)
unfolding check_dependents
finished-contains r t b b' [] h = ground arith
finished-contains r t b b' (d ∷ ds) h =
    ground (arith, finished-contains r t (if d == t then true else b) b' ds)

-- One step of `InitializeConditions` that adds no truth finds the same types true.
module _ (rfc3339_copy : Time → Time) where
  pub initialize-SameTruth :
      (r : ConditionsImpl) (t reason status : String)
      → IsManaged r
      → ((status == condition_true) ≡ false) ⊎ (is_true r t ≡ true)
      → SameTruth r (initialize_terminal_condition rfc3339_copy r t reason status)
  unfolding initialize_terminal_condition
  initialize-SameTruth r t reason status h cause s =
      let new = new_condition t status reason "" in
      elim (Option-cases (get_condition r t)) [
        | inl e ↦
            rw (e, initialize_terminal_condition)
              (rw (is_true-set rfc3339_copy r new s h) (elim (Bool-cases (t == s)) [
                | inl q ↦
                    let same : is_true r s ≡ false =
                      subst (λ x. is_true r x ≡ false) ((eq_iff t s).0 q) (rw e) in
                    rw (q, same) (elim cause [ inl n ↦ n | inr y ↦ cc ])
                | inr q ↦ rw q
              ]))
        | inr (c, e) ↦ rw (e, initialize_terminal_condition)
      ]

  pub initialize-IsManaged :
      (r : ConditionsImpl) (t reason status : String)
      → IsManaged r
      → IsManaged (initialize_terminal_condition rfc3339_copy r t reason status)
  unfolding initialize_terminal_condition
  initialize-IsManaged r t reason status h = elim (Option-cases (get_condition r t)) [
    | inl e ↦
        rw (e, initialize_terminal_condition)
          (set_condition-IsManaged rfc3339_copy r (new_condition t status reason "") h)
    | inr (c, e) ↦ rw (e, initialize_terminal_condition) h
  ]

  pub initialize-set :
      (r : ConditionsImpl) (t reason status : String)
      → (initialize_terminal_condition rfc3339_copy r t reason status).set ≡ r.set
  unfolding initialize_terminal_condition
  initialize-set r t reason status = elim (Option-cases (get_condition r t)) [
    | inl e ↦
        rw (e, initialize_terminal_condition)
          (set_condition-set rfc3339_copy r (new_condition t status reason ""))
    | inr (c, e) ↦ rw (e, initialize_terminal_condition)
  ]
