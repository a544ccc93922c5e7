-- ===== src/Conditions.antt =====
-- apis/conditionset.go and apis/status_types.go: a resource's conditions, kept sorted by type, and
-- the happy condition that sums up the dependents. The accessor is the `Status` of
-- status_types.go, or nil. Times are numbers, and `rfc3339_copy`, which cuts a time down to
-- seconds, is a parameter. A message is the text that `fmt.Sprintf` makes of its format.
pub mod Manager
pub mod Sorted
pub mod Setting
pub mod Views
pub mod Marking
pub mod Happy
pub mod Failing
pub mod Reached
pub mod Verdicts
mod Tests
use reconciler_runtime.Base.{
  ℕ, ◌≡◌, String, Bool, true, false, not, ◌&&◌, ◌||◌, Option, none, some, List, [], ◌∷◌, ◌++◌, ◌==◌,
  eqb, if◌then◌else◌,
}
use reconciler_runtime.Base.Text.{str_lt}

abbrev pub Time : Type 0
Time = ℕ

-- `metav1.Condition`
pub record Condition : Type 0 where
  pub type : String
  pub status : String
  pub observed_generation : ℕ
  pub last_transition_time : Time
  pub reason : String
  pub message : String

abbrev pub condition_true : String
condition_true = "True"

abbrev pub condition_false : String
condition_false = "False"

abbrev pub condition_unknown : String
condition_unknown = "Unknown"

abbrev pub condition_ready : String
condition_ready = "Ready"

abbrev pub condition_succeeded : String
condition_succeeded = "Succeeded"

-- `apis.Status`
pub record Status : Type 0 where
  pub observed_generation : ℕ
  pub conditions : List Condition

-- `Status.GetConditions`
abbrev pub get_conditions : Status → List Condition
get_conditions s = s.conditions

-- `Status.SetConditions`
abbrev pub set_conditions : List Condition → Status → Status
set_conditions c s = record s { conditions = c }

-- The first condition of a type.
abbrev pub find_condition : String → List Condition → Option Condition
find_condition t [] = none
find_condition t (c ∷ cs) = if c.type == t then some c else find_condition t cs

-- `Status.GetCondition`
abbrev pub status_get_condition : String → Status → Option Condition
status_get_condition t s = find_condition t s.conditions

pub record ConditionSet : Type 0 where
  pub happy_type : String
  pub happy_reason : String
  pub dependents : List String

abbrev pub contains : List String → String → Bool
contains [] t = false
contains (c ∷ ct) t = if c == t then true else contains ct t

-- The loop of `newConditionSet`, which skips duplicates and the happy type.
abbrev pub distinct_dependents : String → List String → List String → List String
distinct_dependents happy_type deps [] = deps
distinct_dependents happy_type deps (d ∷ dependents) =
    distinct_dependents happy_type
      (if d == happy_type || contains deps d then deps else deps ++ d ∷ []) dependents

abbrev pub new_condition_set : String → String → List String → ConditionSet
new_condition_set happy_type happy_reason dependents = record {
  happy_type = happy_type;
  happy_reason = happy_reason;
  dependents = distinct_dependents happy_type [] dependents;
}

abbrev pub new_living_condition_set_with_happy_reason : String → List String → ConditionSet
new_living_condition_set_with_happy_reason reason d = new_condition_set condition_ready reason d

abbrev pub new_living_condition_set : List String → ConditionSet
new_living_condition_set d = new_living_condition_set_with_happy_reason "Ready" d

abbrev pub new_batch_condition_set_with_happy_reason : String → List String → ConditionSet
new_batch_condition_set_with_happy_reason reason d = new_condition_set condition_succeeded reason d

abbrev pub new_batch_condition_set : List String → ConditionSet
new_batch_condition_set d = new_batch_condition_set_with_happy_reason "Succeeded" d

-- `ConditionIsTrue`, on a nil pointer too
abbrev pub condition_is_true : Option Condition → Bool
condition_is_true none = false
condition_is_true (some c) = c.status == condition_true

-- `ConditionIsFalse`
abbrev pub condition_is_false : Option Condition → Bool
condition_is_false none = false
condition_is_false (some c) = c.status == condition_false

-- `ConditionIsUnknown`
abbrev pub condition_is_unknown : Option Condition → Bool
condition_is_unknown c = not (condition_is_true c) && not (condition_is_false c)

-- `reflect.DeepEqual` on two conditions
abbrev pub same_condition : Condition → Condition → Bool
same_condition a b =
    a.type == b.type
    && a.status == b.status
    && eqb a.observed_generation b.observed_generation
    && eqb a.last_transition_time b.last_transition_time
    && a.reason == b.reason
    && a.message == b.message

-- `sort.Slice` by type: insertion into a sorted rest.
abbrev pub insert_condition : Condition → List Condition → List Condition
insert_condition c [] = c ∷ []
insert_condition c (d ∷ cs) = if str_lt d.type c.type then d ∷ insert_condition c cs else c ∷ d ∷ cs

abbrev pub sort_conditions : List Condition → List Condition
sort_conditions [] = []
sort_conditions (c ∷ cs) = insert_condition c (sort_conditions cs)
