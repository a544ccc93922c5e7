-- ===== src/Conditions/Reached.antt =====
-- The states of a resource's status that the methods of `conditionsImpl` (apis/conditionset.go)
-- reach. Each call is made through a manager of its own, at its own time.
use reconciler_runtime.Base.{
  ℕ, ◌≡◌, refl, sym, ap, subst, ◌∙◌, ◌≢◌, ◌↔◌, inl, inr, String, true, false, not, Option, none,
  some, List, [], ◌∷◌, ◌&&◌, arith, ◌==◌, eq_iff, if◌then◌else◌, Bool-cases, Option-cases, is_none,
}
use reconciler_runtime.Base.Lists.{All}
use reconciler_runtime.Errors.{Error}
use reconciler_runtime.Conditions.{
  Time, Condition, Status, find_condition, contains, condition_is_true, sort_conditions,
}
use reconciler_runtime.Conditions.Manager.{
  ConditionsImpl, get_condition, is_happy, set_condition, all_true, is_terminal, clear_condition,
  without_type, initialize_conditions, mark_true, mark_false, mark_unknown,
}
use reconciler_runtime.Conditions.Sorted.{
  IsSorted-IsDistinct, sort-IsSorted, without-IsDistinct, find-sort, find-without,
}
use reconciler_runtime.Conditions.Views.{IsManagedBy, IsManaged}
use reconciler_runtime.Conditions.Marking.{is_true, SameTruth, all_true-SameTruth}
use reconciler_runtime.Conditions.Happy
use reconciler_runtime.Conditions.Failing

contains-ne :
    (ds : List String) (t s : String) → contains ds t ≡ false → contains ds s ≡ true → t ≢ s
contains-ne ds t s out into e = cc

all_true-All :
    (r : ConditionsImpl) (ds : List String)
    → (all_true r ds ≡ true) ↔ All (λ t. is_true r t ≡ true) ds
unfolding all_true
all_true-All r [] = (λ h. tt, λ h. refl)
all_true-All r (d ∷ ds) =
    let rest = all_true-All r ds in
    (λ h. (ground arith, rest.0 (ground arith)), λ h. ground (arith, h.0, rest.1 h.1))

-- The types of a list other than the one that is cleared.
all_true_cleared :
    (r r' : ConditionsImpl) (t : String) (ds : List String)
    → ((s : String) → t ≢ s → is_true r' s ≡ is_true r s)
    → contains ds t ≡ false
    → all_true r' ds ≡ all_true r ds
unfolding all_true
all_true_cleared r r' t [] h out = refl
all_true_cleared r r' t (d ∷ ds) h out =
    let apart : (t ≡ d) → ⊥ = λ e. ground (arith, eq_iff d t, e) in
    ground (arith, h d apart, eq_iff d t, all_true_cleared r r' t ds h)

-- What `ClearCondition` promises, by the manager and the error that it returns.
abbrev pub Clears : ConditionsImpl → String → ConditionsImpl × Option Error → Type 0
Clears r t (r', err) =
    IsManaged r'
    × ((s : String)
        → get_condition r' s
          ≡ (if not (is_terminal r t) && t == s then none else get_condition r s))
    × (is_none err ≡ not (is_terminal r t))
    × (r'.set ≡ r.set)

cleared-find :
    (s : Status) (t u : String)
    → find_condition u (sort_conditions (without_type t s.conditions))
      ≡ (if t == u then none else find_condition u s.conditions)
cleared-find s t u = find-sort u (without_type t s.conditions) ∙ find-without u t s.conditions

-- Nothing to clear.
absent-find :
    (r : ConditionsImpl) (t u : String)
    → get_condition r t ≡ none
    → get_condition r u ≡ (if t == u then none else get_condition r u)
absent-find r t u e = elim (Bool-cases (t == u)) [
  | inl q ↦ rw q (subst (λ x. get_condition r x ≡ none) ((eq_iff t u).0 q) e)
  | inr q ↦ rw q
]

module _ (rfc3339_copy : Time → Time) where
  clear_accessor-Clears :
      (r : ConditionsImpl) (t : String) (o : Option Status)
      → IsManagedBy o
      → let r' = record r { accessor = o } in Clears r' t (clear_condition rfc3339_copy r' t)
  unfolding clear_condition
  clear_accessor-Clears r t none h = absurd h
  clear_accessor-Clears r t (some s) h =
      let r' = record r { accessor = some s } in
      elim (Bool-cases (is_terminal r' t)) [
        | inl terminal ↦ rw (terminal, clear_condition) (h, (λ u. refl), refl, refl)
        | inr other ↦ elim (Option-cases (get_condition r' t)) [
          | inl e ↦ rw (other, e, clear_condition) (h, (λ u. absent-find r' t u e), refl, refl)
          | inr (c, e) ↦
              rw (other, e, clear_condition)
                (
                  sort-IsSorted (without_type t s.conditions)
                      (without-IsDistinct t s.conditions (IsSorted-IsDistinct s.conditions h)),
                  (λ u. cleared-find s t u),
                  refl,
                  refl,
                )
        ]
      ]

  -- Clearing a condition that is no terminal one removes it, leaves all others alone and returns
  -- no error; clearing a terminal one returns an error and changes nothing. The conditions stay
  -- sorted, with no type twice.
  pub clear_condition_lem :
      (r : ConditionsImpl) (t : String)
      → IsManaged r
      → Clears r t (clear_condition rfc3339_copy r t)
  clear_condition_lem r t h = clear_accessor-Clears r t r.accessor h

module _ (rfc3339_copy : Time → Time) (happy happy_reason d : String) (ds : List String)
    (apart : contains (d ∷ ds) happy ≡ false) where
  abbrev pub manager : Option Status → Time → ConditionsImpl
  manager = Happy.manager rfc3339_copy happy happy_reason d ds apart

  abbrev SumsUp : ConditionsImpl → Type 0
  SumsUp = Happy.SumsUp rfc3339_copy happy happy_reason d ds apart

  -- A call of a method on a type other than the happy one. `SetCondition` is called for types that
  -- are not terminal.
  pub data Step (o : Option Status) : Option Status → Type 0 where
    initialize : (now : Time) → Step o (initialize_conditions rfc3339_copy (manager o now)).accessor
    true_marked :
        (now : Time) (t reason message : String)
        → t ≢ happy
        → Step o (mark_true rfc3339_copy (manager o now) t reason message).accessor
    false_marked :
        (now : Time) (t reason message : String)
        → t ≢ happy
        → Step o (mark_false rfc3339_copy (manager o now) t reason message).accessor
    unknown_marked :
        (now : Time) (t reason message : String)
        → t ≢ happy
        → Step o (mark_unknown rfc3339_copy (manager o now) t reason message).accessor
    cleared :
        (now : Time) (t : String)
        → Step o (clear_condition rfc3339_copy (manager o now) t).0.accessor
    other_set :
        (now : Time) (new : Condition)
        → new.type ≢ happy
        → contains (d ∷ ds) new.type ≡ false
        → Step o (set_condition rfc3339_copy (manager o now) new).accessor

  -- The states that are reached from a status with no conditions.
  pub data Reached : Option Status → Type 0 where
    fresh :
        (generation : ℕ)
        → Reached (some (record { observed_generation = generation; conditions = [] }))
    later : {o o' : Option Status} → Reached o → Step o o' → Reached o'

  -- Only the accessor counts.
  SumsUp-accessor : (r : ConditionsImpl) (now : Time) → SumsUp r → SumsUp (manager r.accessor now)
  SumsUp-accessor r now h = record {
    managed = h.managed;
    agrees = h.agrees ∙ all_true-SameTruth (manager r.accessor now) r (d ∷ ds) (λ t. refl);
  }

  clear-SumsUp :
      (o : Option Status) (now : Time) (t : String)
      → SumsUp (manager o now)
      → SumsUp (clear_condition rfc3339_copy (manager o now) t).0
  unfolding is_terminal
  clear-SumsUp o now t h =
      let r = manager o now in
      let r' = (clear_condition rfc3339_copy r t).0 in
      let (managed, found, err, same) = clear_condition_lem rfc3339_copy r t h.managed in
      elim (Bool-cases (is_terminal r t)) [
        | inl terminal ↦
            let truth : SameTruth r r' =
              λ u. ap condition_is_true {y = get_condition r u} (found u ∙ rw terminal) in
            record {
              managed = managed;
              agrees = truth happy ∙ h.agrees ∙ sym (all_true-SameTruth r r' (d ∷ ds) truth);
            }
        | inr other ↦
            let truth : (u : String) → t ≢ u → is_true r' u ≡ is_true r u = λ u ne.
              ap condition_is_true {y = get_condition r u} (found u ∙ ground (arith, eq_iff t u)) in
            let out : contains (d ∷ ds) t ≡ false = ground arith in
            let unhappy : t ≢ happy = λ e. ground (arith, eq_iff t happy) in
            record {
              managed = managed;
              agrees =
                  truth happy unhappy ∙ h.agrees ∙ sym (all_true_cleared r r' t (d ∷ ds) truth out);
            }
      ]

  Step-SumsUp :
      {o o' : Option Status} (at : Time) → Step o o' → SumsUp (manager o 0) → SumsUp (manager o' at)
  Step-SumsUp {o} at (initialize now) h = SumsUp-accessor _ at (
      Failing.initialize_conditions-SumsUp rfc3339_copy happy happy_reason d ds apart o now
        (SumsUp-accessor (manager o 0) now h))
  Step-SumsUp {o} at (true_marked now t reason message ne) h = SumsUp-accessor _ at (
      Happy.mark_true-SumsUp rfc3339_copy happy happy_reason d ds apart o now t reason message ne
        (SumsUp-accessor (manager o 0) now h))
  Step-SumsUp {o} at (false_marked now t reason message ne) h = SumsUp-accessor _ at (
      Failing.mark_false-SumsUp rfc3339_copy happy happy_reason d ds apart o now t reason message ne
        (SumsUp-accessor (manager o 0) now h))
  Step-SumsUp {o} at (unknown_marked now t reason message ne) h = SumsUp-accessor _ at (
      Failing.mark_unknown-SumsUp rfc3339_copy happy happy_reason d ds apart o now t reason message
        ne (SumsUp-accessor (manager o 0) now h))
  Step-SumsUp {o} at (cleared now t) h =
      SumsUp-accessor _ at (clear-SumsUp o now t (SumsUp-accessor (manager o 0) now h))
  Step-SumsUp {o} at (other_set now new ne out) h = SumsUp-accessor _ at (
      Happy.put_other-SumsUp rfc3339_copy happy happy_reason d ds apart (manager o now) new
        (SumsUp-accessor (manager o 0) now h) ne out)

  Reached-SumsUp : {o : Option Status} (now : Time) → Reached o → SumsUp (manager o now)
  unfolding all_true
  Reached-SumsUp now (fresh generation) = record { managed = tt; agrees = refl }
  Reached-SumsUp now (later r st) = Step-SumsUp now st (Reached-SumsUp 0 r)

  -- In every state that is reached from a status with no conditions, by calls of
  -- InitializeConditions and ClearCondition, of MarkTrue, MarkFalse and MarkUnknown on types other
  -- than the happy one, and of SetCondition on types that are neither the happy one nor a
  -- dependent, for a set with at least one dependent that does not list the happy type among them:
  -- the happy condition is true exactly when every dependent's condition is, and the conditions are
  -- sorted by type with no type twice.
  pub Reached-is_happy :
      {o : Option Status} (now : Time)
      → Reached o
      → ((is_happy (manager o now) ≡ true) ↔ All (λ t. is_true (manager o now) t ≡ true) (d ∷ ds))
        × IsManaged (manager o now)
  Reached-is_happy {o} now r =
      let h = Reached-SumsUp now r in
      let spelled = all_true-All (manager o now) (d ∷ ds) in
      ((λ e. spelled.0 (sym h.agrees ∙ e), λ e. h.agrees ∙ spelled.1 e), h.managed)
