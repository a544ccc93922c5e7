-- ===== src/Conditions/Tests.antt =====
-- Witnesses on condition sets (apis/conditionset.go).
use reconciler_runtime.Base.{
  String, ◌≡◌, ◌≢◌, ◌↔◌, refl, true, Option, some, List, [], ◌∷◌, eq_iff, arith,
}
use reconciler_runtime.Base.Lists.{All}
use reconciler_runtime.Conditions.{Time, Condition, Status, new_living_condition_set}
use reconciler_runtime.Conditions.Manager.{
  ConditionsImpl, manage_with_context, get_condition, is_happy, new_condition, set_condition,
  clear_condition, initialize_conditions, mark_true,
}
use reconciler_runtime.Conditions.Marking.{is_true}
use reconciler_runtime.Conditions.Setting.{Agrees}
use reconciler_runtime.Conditions.Views.{IsManaged, get-set_condition}
use reconciler_runtime.Conditions.Reached.{
  Clears, clear_condition_lem, manager, Reached, fresh, later, initialize, true_marked,
  Reached-is_happy,
}
use reconciler_runtime.Conditions.Verdicts.{set_condition_again}

abbrev copy : Time → Time
copy t = t

abbrev bound : Condition
bound = new_condition "Bound" "True" "Found" ""

-- `Bound` and `Ready`, with no condition but `Bound` yet.
abbrev starting : ConditionsImpl
starting =
    manage_with_context 7 (new_living_condition_set ("Bound" ∷ "Served" ∷ []))
      (some (record { observed_generation = 1; conditions = bound ∷ [] }))

abbrev served : Condition
served = new_condition "Served" "False" "Timeout" "no answer"

get-set_condition_example :
    ((c : Condition) × (get_condition (set_condition copy starting served) "Served" ≡ some c)
      × Agrees c served)
    × ((t : String)
        → t ≢ "Served"
        → get_condition (set_condition copy starting served) t ≡ get_condition starting t)
get-set_condition_example = get-set_condition copy starting served (tt, tt)

clear_condition_lem_example : Clears starting "Bound" (clear_condition copy starting "Bound")
clear_condition_lem_example = clear_condition_lem copy starting "Bound" (tt, tt)

set_condition_again_example :
    set_condition copy (record (set_condition copy starting served) { now = 9 }) served
    ≡ record (set_condition copy starting served) { now = 9 }
set_condition_again_example = set_condition_again copy starting served 9 (tt, tt)

abbrev listed : List String
listed = "Bound" ∷ "Ready" ∷ "Bound" ∷ []

abbrev blank : Option Status
blank = some (record { observed_generation = 1; conditions = [] })

abbrev managed : Option Status → Time → ConditionsImpl
managed = manager copy "Ready" "Ready" "Bound" [] refl

abbrev initialized : Option Status
initialized = (initialize_conditions copy (managed blank 3)).accessor

-- Initialized, and then `Bound` marked true.
abbrev marked : Option Status
marked = (mark_true copy (managed initialized 4) "Bound" "Found" "").accessor

Bound-ne-Ready : (bound.type ≡ "Ready") → ⊥
Bound-ne-Ready e = absurd (ground (arith, eq_iff "Bound" "Ready", e))

abbrev marked-Reached : Reached copy "Ready" "Ready" "Bound" [] refl marked
marked-Reached =
    later (later (fresh 1) (initialize 3)) (true_marked 4 "Bound" "Found" "" Bound-ne-Ready)

Reached-is_happy_example :
    ((is_happy (managed marked 5) ≡ true)
      ↔ All (λ t. is_true (managed marked 5) t ≡ true) ("Bound" ∷ []))
    × IsManaged (managed marked 5)
Reached-is_happy_example = Reached-is_happy copy "Ready" "Ready" "Bound" [] refl 5 marked-Reached
