-- ===== src/Conditions/Manager.antt =====
-- The methods of `conditionsImpl` (apis/conditionset.go). A method that writes returns the manager
-- with its accessor changed.
use reconciler_runtime.Base.{
  String, Bool, true, false, not, ◌||◌, Option, none, some, List, [], ◌∷◌, ◌++◌, ◌==◌,
  if◌then◌else◌, is_none,
}
use reconciler_runtime.Errors.{Error, errorf}
use reconciler_runtime.Conditions.{
  Time, Condition, Status, ConditionSet, get_conditions, set_conditions, find_condition, contains,
  condition_true, condition_false, condition_unknown, condition_is_true, condition_is_false,
  same_condition, sort_conditions,
}

-- `conditionsImpl`; an accessor of `none` is a nil interface.
pub record ConditionsImpl : Type 0 where
  pub set : ConditionSet
  pub accessor : Option Status
  pub now : Time

-- `ManageWithContext`; `now` is what `rtime.RetrieveNow` finds.
abbrev pub manage_with_context : Time → ConditionSet → Option Status → ConditionsImpl
manage_with_context now r status = record { set = r; accessor = status; now = now }

abbrev pub get_condition : ConditionsImpl → String → Option Condition
get_condition r t = elim r.accessor [ none ↦ none | some s ↦ find_condition t (get_conditions s) ]

abbrev pub is_happy : ConditionsImpl → Bool
is_happy r = condition_is_true (get_condition r r.set.happy_type)

-- A condition with the fields that the callers of `SetCondition` leave out at zero.
abbrev pub new_condition : String → String → String → String → Condition
new_condition t status reason message = record {
  type = t;
  status = status;
  observed_generation = 0;
  last_transition_time = 0;
  reason = reason;
  message = message;
}

-- The loop of `SetCondition`: `none` is its early return.
unfoldable pub set_loop : Condition → List Condition → List Condition → Option (List Condition)
set_loop new conditions [] = some conditions
set_loop new conditions (c ∷ cs) = elim (c.type == new.type) [
  | false ↦ set_loop new (conditions ++ c ∷ []) cs
  | true ↦
      let new' = record new { last_transition_time = c.last_transition_time } in
      elim (same_condition new' c) [ true ↦ none | false ↦ set_loop new' conditions cs ]
]

-- The types that `MarkFalse` writes.
unfoldable pub false_types : ConditionSet → String → List String → List String
false_types r t [] = []
false_types r t (cond ∷ dependents) =
    if cond == t then r.happy_type ∷ false_types r t dependents else false_types r t dependents

unfoldable pub is_terminal : ConditionsImpl → String → Bool
is_terminal r t = contains r.set.dependents t || t == r.set.happy_type

-- The loop of `MarkTrue` over the dependents: are they all true?
unfoldable pub all_true : ConditionsImpl → List String → Bool
all_true r [] = true
all_true r (cond ∷ dependents) =
    if not (condition_is_true (get_condition r cond)) then false else all_true r dependents

-- How the loop of `MarkUnknown` ends: at a dependent that has failed, or at its end, with
-- `isDependent`.
pub data Checked : Type 0 where
  failed : Checked
  finished : (is_dependent : Bool) → Checked

unfoldable pub check_dependents : ConditionsImpl → String → Bool → List String → Checked
check_dependents r t is_dependent [] = finished is_dependent
check_dependents r t is_dependent (cond ∷ dependents) =
    if condition_is_false (get_condition r cond)
    then failed
    else check_dependents r t (if cond == t then true else is_dependent) dependents

-- The loop of `ClearCondition`.
abbrev pub without_type : String → List Condition → List Condition
without_type t [] = []
without_type t (c ∷ cs) = if not (c.type == t) then c ∷ without_type t cs else without_type t cs

module _ (rfc3339_copy : Time → Time) where
  unfoldable pub set_condition : ConditionsImpl → Condition → ConditionsImpl
  unfolding set_loop
  set_condition r new = elim r.accessor [
    | none ↦ r
    | some s ↦ elim (set_loop new [] (get_conditions s)) [
      | none ↦ r
      | some conditions ↦
          let new' = record new { last_transition_time = rfc3339_copy r.now } in
          record r {
            accessor = some (set_conditions (sort_conditions (conditions ++ new' ∷ [])) s);
          }
    ]
  ]

  unfoldable pub clear_condition : ConditionsImpl → String → ConditionsImpl × Option Error
  unfolding is_terminal
  clear_condition r t = elim r.accessor [
    | none ↦ (r, none)
    | some s ↦
        if is_terminal r t
        then (r, some (errorf "Clearing terminal conditions not implemented" []))
        else if is_none (get_condition r t)
        then (r, none)
        else (
          record r {
            accessor =
                some (set_conditions (sort_conditions (without_type t (get_conditions s))) s);
          },
          none,
        )
  ]

  unfoldable pub mark_true : ConditionsImpl → String → String → String → ConditionsImpl
  unfolding set_condition all_true
  mark_true r t reason message =
      let r' = set_condition r (new_condition t condition_true reason message) in
      elim r.set.dependents [
        | [] ↦ r'
        | _ ∷ _ ↦
            if all_true r' r.set.dependents
            then set_condition r'
                (new_condition r.set.happy_type condition_true r.set.happy_reason "")
            else r'
      ]

  unfoldable pub set_all_false : ConditionsImpl → String → String → List String → ConditionsImpl
  set_all_false r reason message [] = r
  set_all_false r reason message (t ∷ types) =
      set_all_false (set_condition r (new_condition t condition_false reason message)) reason
        message types

  unfoldable pub mark_false : ConditionsImpl → String → String → String → ConditionsImpl
  unfolding set_condition set_all_false false_types
  mark_false r t reason message =
      set_all_false r reason message (t ∷ false_types r.set t r.set.dependents)

  unfoldable pub mark_unknown : ConditionsImpl → String → String → String → ConditionsImpl
  unfolding set_condition check_dependents mark_false
  mark_unknown r t reason message =
      let r' = set_condition r (new_condition t condition_unknown reason message) in
      elim r.set.dependents [
        | [] ↦ r'
        | _ ∷ _ ↦ elim (check_dependents r' t false r.set.dependents) [
          | failed ↦
              if not (condition_is_false (get_condition r' r.set.happy_type))
              then mark_false r' r.set.happy_type reason message
              else r'
          | finished is_dependent ↦
              if is_dependent
              then set_condition r'
                  (new_condition r.set.happy_type condition_unknown reason message)
              else r'
        ]
      ]

  unfoldable pub initialize_terminal_condition :
      ConditionsImpl → String → String → String → ConditionsImpl
  unfolding set_condition
  initialize_terminal_condition r t reason status = elim (get_condition r t) [
    | some c ↦ r
    | none ↦ set_condition r (new_condition t status reason "")
  ]

  unfoldable pub initialize_all : ConditionsImpl → String → List String → ConditionsImpl
  initialize_all r status [] = r
  initialize_all r status (t ∷ dependents) =
      initialize_all (initialize_terminal_condition r t "Initializing" status) status dependents

  unfoldable pub initialize_conditions : ConditionsImpl → ConditionsImpl
  unfolding set_condition initialize_all
  initialize_conditions r = elim (get_condition r r.set.happy_type) [
    | none ↦
        let happy = new_condition r.set.happy_type condition_unknown "Initializing" "" in
        initialize_all (set_condition r happy) condition_unknown r.set.dependents
    | some happy ↦
        initialize_all r
          (if happy.status == condition_true then condition_true else condition_unknown)
          r.set.dependents
  ]
