-- ===== src/Conditions/Setting.antt =====
-- What `SetCondition` (apis/conditionset.go) does to what `GetCondition` finds.
use reconciler_runtime.Base.{
  ◌≡◌, refl, ap, ◌∙◌, inl, inr, true, false, Option, none, some, List, [], ◌∷◌, ◌++◌, arith, ◌==◌,
  eq_iff, Bool-cases,
}
use reconciler_runtime.Base.Lists.{In}
use reconciler_runtime.Conditions.{Time, Condition, same_condition}
use reconciler_runtime.Conditions.Manager.{set_loop, without_type}

-- Two conditions that differ in the time of their last transition at most.
pub record Agrees (c d : Condition) : Type 0 where
  pub type : c.type ≡ d.type
  pub status : c.status ≡ d.status
  pub observed_generation : c.observed_generation ≡ d.observed_generation
  pub reason : c.reason ≡ d.reason
  pub message : c.message ≡ d.message

same_condition-Agrees :
    (new c : Condition) (time : Time)
    → same_condition (record new { last_transition_time = time }) c ≡ true
    → Agrees c new
same_condition-Agrees new c time h = ground (
  arith,
  eq_iff new.type c.type,
  eq_iff new.status c.status,
  eq_iff new.reason c.reason,
  eq_iff new.message c.message,
)

append_cons : {A : Type 0} (xs : List A) (y : A) (zs : List A) → (xs ++ y ∷ []) ++ zs ≡ xs ++ y ∷ zs
append_cons [] y zs = refl
append_cons (x ∷ xs) y zs = ap (λ l. x ∷ l) (append_cons xs y zs)

-- How the loop ends: at a condition that agrees with the new one, or with the others.
abbrev pub LoopEnds : Condition → List Condition → List Condition → Option (List Condition) → Type 0
LoopEnds new acc cs none = (c : Condition) × In c cs × Agrees c new
LoopEnds new acc cs (some l) = l ≡ acc ++ without_type new.type cs

append-nil : {A : Type 0} (xs : List A) → xs ≡ xs ++ []
append-nil [] = refl
append-nil (x ∷ xs) = ap (λ l. x ∷ l) (append-nil xs)

LoopEnds-later :
    (new : Condition) (acc cs : List Condition) (c : Condition) (o : Option (List Condition))
    → LoopEnds new acc cs o
    → (c.type == new.type) ≡ true
    → LoopEnds new acc (c ∷ cs) o
LoopEnds-later new acc cs c none (d, m, a) e = (d, inr m, a)
LoopEnds-later new acc cs c (some l) h e = rw e h

LoopEnds-kept :
    (new : Condition) (acc cs : List Condition) (c : Condition) (o : Option (List Condition))
    → LoopEnds new (acc ++ c ∷ []) cs o
    → (c.type == new.type) ≡ false
    → LoopEnds new acc (c ∷ cs) o
LoopEnds-kept new acc cs c none (d, m, a) e = (d, inr m, a)
LoopEnds-kept new acc cs c (some l) h e = rw e (h ∙ append_cons acc c _)

LoopEnds-time :
    (new : Condition) (time : Time) (acc cs : List Condition) (o : Option (List Condition))
    → LoopEnds (record new { last_transition_time = time }) acc cs o
    → LoopEnds new acc cs o
LoopEnds-time new time acc cs none (d, m, a) = (
  d,
  m,
  record {
    type = a.type;
    status = a.status;
    observed_generation = a.observed_generation;
    reason = a.reason;
    message = a.message;
  },
)
LoopEnds-time new time acc cs (some l) h = h

pub set_loop-LoopEnds :
    (new : Condition) (acc cs : List Condition) → LoopEnds new acc cs (set_loop new acc cs)
unfolding set_loop
set_loop-LoopEnds new acc [] = append-nil acc
set_loop-LoopEnds new acc (c ∷ cs) =
    let new' = record new { last_transition_time = c.last_transition_time } in
    elim (Bool-cases (c.type == new.type)) [
      | inr e ↦
          rw (e, set_loop)
            (LoopEnds-kept new acc cs c _ (set_loop-LoopEnds new (acc ++ c ∷ []) cs) e)
      | inl e ↦ elim (Bool-cases (same_condition new' c)) [
        | inl s ↦
            rw (e, s, set_loop) (c, inl refl, same_condition-Agrees new c c.last_transition_time s)
        | inr d ↦
            rw (e, d, set_loop)
              (LoopEnds-later new acc cs c _
                (LoopEnds-time new c.last_transition_time acc cs _ (set_loop-LoopEnds new' acc cs))
                e)
      ]
    ]
