-- ===== src/Conditions/Happy.antt =====
-- The happy condition sums up the dependents (apis/conditionset.go): it is true exactly when every
-- dependent is, in every state that the manager's methods reach.
use reconciler_runtime.Base.{
  ◌≡◌, refl, ◌≢◌, inl, inr, String, false, Option, List, ◌∷◌, arith, ◌==◌, eq_iff, Bool-cases,
}
use reconciler_runtime.Conditions.{Time, Condition, Status, contains, condition_true}
use reconciler_runtime.Conditions.Manager.{
  ConditionsImpl, new_condition, set_condition, all_true, mark_true,
}
use reconciler_runtime.Conditions.Views.{IsManaged, set_condition-IsManaged}
use reconciler_runtime.Conditions.Marking.{
  is_true, is_true-set, all_true-set_true, all_true-set_other,
}

-- The types found true are as they were for a set that holds at least one dependent.
module _ (rfc3339_copy : Time → Time) (happy happy_reason d : String) (ds : List String)
    (apart : contains (d ∷ ds) happy ≡ false) where
  abbrev pub put : ConditionsImpl → Condition → ConditionsImpl
  put = set_condition rfc3339_copy

  -- A manager of the set, over an accessor at a time.
  abbrev pub manager : Option Status → Time → ConditionsImpl
  manager o now = record {
    set = record { happy_type = happy; happy_reason = happy_reason; dependents = d ∷ ds };
    accessor = o;
    now = now;
  }

  -- The conditions are sorted, and the happy condition is true exactly when all dependents are.
  pub record SumsUp (r : ConditionsImpl) : Type 0 where
    pub managed : IsManaged r
    pub agrees : is_true r happy ≡ all_true r (d ∷ ds)

  -- Setting a condition that is neither happy nor a dependent.
  pub put_other-SumsUp :
      (r : ConditionsImpl) (new : Condition)
      → SumsUp r
      → new.type ≢ happy
      → contains (d ∷ ds) new.type ≡ false
      → SumsUp (put r new)
  put_other-SumsUp r new h ne out = record {
    managed = set_condition-IsManaged rfc3339_copy r new h.managed;
    agrees = rw (is_true-set rfc3339_copy r new happy h.managed) (
        rw (all_true-set_other rfc3339_copy r new (d ∷ ds) h.managed out)
          (ground (arith, eq_iff new.type happy, h.agrees)));
  }

  -- Setting the happy condition to something that is not true, where a dependent is not true.
  pub put_unhappy-SumsUp :
      (r : ConditionsImpl) (status reason message : String)
      → IsManaged r
      → (status == condition_true) ≡ false
      → all_true r (d ∷ ds) ≡ false
      → SumsUp (put r (new_condition happy status reason message))
  put_unhappy-SumsUp r status reason message h s e =
      let new = new_condition happy status reason message in
      record {
        managed = set_condition-IsManaged rfc3339_copy r new h;
        agrees = rw (is_true-set rfc3339_copy r new happy h) (
            rw (all_true-set_other rfc3339_copy r new (d ∷ ds) h apart)
              (ground (arith, eq_iff happy happy)));
      }

  pub mark_true-SumsUp :
      (o : Option Status) (now : Time) (t reason message : String)
      → t ≢ happy
      → SumsUp (manager o now)
      → SumsUp (mark_true rfc3339_copy (manager o now) t reason message)
  unfolding mark_true
  mark_true-SumsUp o now t reason message ne h =
      let r = manager o now in
      let new = new_condition t condition_true reason message in
      let r' = put r new in
      let managed = set_condition-IsManaged rfc3339_copy r new h.managed in
      let glad = new_condition happy condition_true happy_reason "" in
      elim (Bool-cases (all_true r' (d ∷ ds))) [
        | inl e ↦ rw e (record {
          managed = set_condition-IsManaged rfc3339_copy r' glad managed;
          agrees = rw (is_true-set rfc3339_copy r' glad happy managed) (
              rw (all_true-set_other rfc3339_copy r' glad (d ∷ ds) managed apart)
                (ground (arith, eq_iff happy happy)));
        })
        | inr e ↦ rw e (record {
          managed = managed;
          agrees = rw e (
              rw (is_true-set rfc3339_copy r new happy h.managed) (
                ground (
                  arith,
                  eq_iff t happy,
                  h.agrees,
                  all_true-set_true rfc3339_copy r new (d ∷ ds) h.managed refl,
                )));
        })
      ]
