-- ===== src/ResourceReconciler/Times.antt =====
-- Transition times that are restored (`syncLastTransitionTime` of reconcilers/resource.go).
use reconciler_runtime.Base.{
  String, true, Option, none, some, List, [], ◌∷◌, ◌==◌, ◌≡◌, ◌≢◌, refl, sym, ap, ◌∙◌, arith, subst,
  eq_iff, if◌then◌else◌, Bool-cases, inl, inr,
}
use reconciler_runtime.Conditions.{Condition, find_condition}
use reconciler_runtime.Conditions.Sorted.{AllOther, IsDistinct}
use reconciler_runtime.Conditions.Setting.{Agrees}
use reconciler_runtime.ResourceReconciler.{
  same_otherwise, restored, sync_condition, sync_last_transition_time,
}

-- A proposed condition, given the original one of its type.
abbrev pub restored? : Option Condition → Option Condition → Option Condition
restored? none p = p
restored? (some o) none = none
restored? (some o) (some p) = some (restored o p)

restored-type : (o p : Condition) → (restored o p).type ≡ p.type
restored-type o p = elim (Bool-cases (same_otherwise o p)) [ inl e ↦ rw e refl | inr e ↦ rw e refl ]

find-sync_condition :
    (t : String) (o : Condition) (ps : List Condition)
    → find_condition t (sync_condition o ps)
      ≡ (if o.type == t then restored? (some o) (find_condition t ps) else find_condition t ps)
unfolding sync_condition
find-sync_condition t o [] = ground arith
find-sync_condition t o (p ∷ ps) = ground (
  arith,
  restored-type o p,
  eq_iff o.type p.type,
  eq_iff o.type t,
  eq_iff p.type t,
  find-sync_condition t o ps,
)

find-AllOther-none : (t : String) (cs : List Condition) → AllOther t cs → find_condition t cs ≡ none
find-AllOther-none t [] h = refl
find-AllOther-none t (c ∷ cs) h = ground (arith, eq_iff c.type t, h.0, find-AllOther-none t cs h.1)

-- After the sync, for an original with no type twice: the proposed condition of a type has the time
-- of the original one of the type, if all else of the two is the same; it is as proposed otherwise.
pub find-sync_last_transition_time :
    (proposed original : List Condition) (t : String)
    → IsDistinct original
    → find_condition t (sync_last_transition_time proposed original)
      ≡ restored? (find_condition t original) (find_condition t proposed)
unfolding sync_last_transition_time
find-sync_last_transition_time proposed [] t h = refl
find-sync_last_transition_time proposed (o ∷ os) t h =
    find-sync_last_transition_time (sync_condition o proposed) os t h.1
    ∙ rw (find-sync_condition t o proposed) (elim (Bool-cases (o.type == t)) [
      | inl e ↦
          let gone : find_condition t os ≡ none =
            find-AllOther-none t os
              (subst (λ (x : String). AllOther x os) ((eq_iff o.type t).0 e) h.0) in
          rw e (rw gone refl)
      | inr e ↦ rw e refl
    ])

-- The same conditions in the same order, but for their times.
pub data OnlyTimes : List Condition → List Condition → Type 0 where
  nil : OnlyTimes [] []
  cons :
      {p o : Condition} {ps os : List Condition}
      → Agrees p o
      → OnlyTimes ps os
      → OnlyTimes (p ∷ ps) (o ∷ os)

sync_condition-restores :
    (p o : Condition) (ps : List Condition) → Agrees p o → sync_condition o (p ∷ ps) ≡ o ∷ ps
unfolding sync_condition
sync_condition-restores p o ps h =
    let same : same_otherwise o p ≡ true = ground (
      arith,
      eq_iff o.status p.status,
      eq_iff o.reason p.reason,
      eq_iff o.message p.message,
      h.status,
      h.reason,
      h.message,
      h.observed_generation,
    ) in
    let type : (o.type == p.type) ≡ true = (eq_iff o.type p.type).1 (sym h.type) in
    rw (type, sync_condition) (rw same (λ i. timed p o h i ∷ ps))
  where
    timed :
        (p o : Condition)
        → Agrees p o
        → ◌≡◌ {A = Condition} (record p { last_transition_time = o.last_transition_time }) o
    timed p o h i = record {
      type = h.type i;
      status = h.status i;
      observed_generation = h.observed_generation i;
      last_transition_time = o.last_transition_time;
      reason = h.reason i;
      message = h.message i;
    }

sync_condition-other :
    (p o : Condition) (ps : List Condition)
    → o.type ≢ p.type
    → sync_condition o (p ∷ ps) ≡ p ∷ sync_condition o ps
unfolding sync_condition
sync_condition-other p o ps h = ground (arith, eq_iff o.type p.type, h)

sync-head :
    (p : Condition) (ps os : List Condition)
    → AllOther p.type os
    → sync_last_transition_time (p ∷ ps) os ≡ p ∷ sync_last_transition_time ps os
unfolding sync_last_transition_time
sync-head p ps [] h = refl
sync-head p ps (o ∷ os) h =
    rw (sync_condition-other p o ps h.0) (sync-head p (sync_condition o ps) os h.1)

-- Conditions that differ from the original ones only in their times become the original ones, if no
-- type is there twice.
pub sync-OnlyTimes :
    {proposed original : List Condition}
    → OnlyTimes proposed original
    → IsDistinct original
    → sync_last_transition_time proposed original ≡ original
unfolding sync_last_transition_time
sync-OnlyTimes nil h = refl
sync-OnlyTimes (cons {p} {o} {ps} {os} a r) h =
    rw (sync_condition-restores p o ps a)
      (sync-head o ps os h.0 ∙ ap (λ (cs : List Condition). o ∷ cs) (sync-OnlyTimes r h.1))
