-- ===== src/Conditions/Sorted.antt =====
-- Lists of conditions (apis/conditionset.go): strict order by type, and what sorting and filtering
-- do to a lookup.
use reconciler_runtime.Base.{
  ◌≡◌, refl, sym, ◌≢◌, inl, inr, String, true, none, some, List, [], ◌∷◌, ◌++◌, arith, ◌==◌, eq_iff,
  if◌then◌else◌,
}
use reconciler_runtime.Base.Text.{str_lt, str_lt_irrefl, str_lt_trans, str_lt_total}
use reconciler_runtime.Base.Lists.{All}
use reconciler_runtime.Conditions.{Condition, find_condition, insert_condition, sort_conditions}
use reconciler_runtime.Conditions.Manager.{without_type}

-- Every condition has a type above the given one.
abbrev pub AllAbove : String → List Condition → Type 0
AllAbove t = All (λ c. str_lt t c.type ≡ true)

-- No condition has the given type.
abbrev pub AllOther : String → List Condition → Type 0
AllOther t = All (λ c. c.type ≢ t)

-- Sorted by type, with no type twice.
abbrev pub IsSorted : List Condition → Type 0
IsSorted [] = Unit
IsSorted (c ∷ cs) = AllAbove c.type cs × IsSorted cs

-- No type twice.
abbrev pub IsDistinct : List Condition → Type 0
IsDistinct [] = Unit
IsDistinct (c ∷ cs) = AllOther c.type cs × IsDistinct cs

str_lt-ne : (s t : String) → str_lt s t ≡ true → t ≢ s
str_lt-ne s t h e = ground (arith, str_lt_irrefl s)

AllAbove-AllOther : (t : String) (cs : List Condition) → AllAbove t cs → AllOther t cs
AllAbove-AllOther t [] h = tt
AllAbove-AllOther t (c ∷ cs) h = (str_lt-ne t c.type h.0, AllAbove-AllOther t cs h.1)

pub IsSorted-IsDistinct : (cs : List Condition) → IsSorted cs → IsDistinct cs
IsSorted-IsDistinct [] h = tt
IsSorted-IsDistinct (c ∷ cs) h = (AllAbove-AllOther c.type cs h.0, IsSorted-IsDistinct cs h.1)

AllAbove-lower :
    (s t : String) (cs : List Condition) → str_lt s t ≡ true → AllAbove t cs → AllAbove s cs
AllAbove-lower s t [] p h = tt
AllAbove-lower s t (c ∷ cs) p h = (str_lt_trans s t c.type p h.0, AllAbove-lower s t cs p h.1)

AllAbove-insert :
    (t : String) (c : Condition) (cs : List Condition)
    → str_lt t c.type ≡ true
    → AllAbove t cs
    → AllAbove t (insert_condition c cs)
AllAbove-insert t c [] p h = (p, tt)
AllAbove-insert t c (d ∷ cs) p h = ground (arith, AllAbove-insert t c cs p h.1)

insert-IsSorted :
    (c : Condition) (cs : List Condition)
    → AllOther c.type cs
    → IsSorted cs
    → IsSorted (insert_condition c cs)
insert-IsSorted c [] o h = (tt, tt)
insert-IsSorted c (d ∷ cs) o h = elim (str_lt_total d.type c.type) [
  | inl below ↦ rw below (AllAbove-insert d.type c cs below h.0, insert-IsSorted c cs o.1 h.1)
  | inr (inl e) ↦ absurd (o.0 e)
  | inr (inr above) ↦ ground (
    arith,
    str_lt_trans d.type c.type d.type,
    str_lt_irrefl d.type,
    AllAbove-lower c.type d.type cs above h.0,
  )
]

AllOther-insert :
    (t : String) (c : Condition) (cs : List Condition)
    → c.type ≢ t
    → AllOther t cs
    → AllOther t (insert_condition c cs)
AllOther-insert t c [] p h = (p, tt)
AllOther-insert t c (d ∷ cs) p h = ground (arith, AllOther-insert t c cs p h.1)

AllOther-sort : (t : String) (cs : List Condition) → AllOther t cs → AllOther t (sort_conditions cs)
AllOther-sort t [] h = tt
AllOther-sort t (c ∷ cs) h = AllOther-insert t c (sort_conditions cs) h.0 (AllOther-sort t cs h.1)

pub sort-IsSorted : (cs : List Condition) → IsDistinct cs → IsSorted (sort_conditions cs)
sort-IsSorted [] h = tt
sort-IsSorted (c ∷ cs) h =
    insert-IsSorted c (sort_conditions cs) (AllOther-sort c.type cs h.0) (sort-IsSorted cs h.1)

find-insert :
    (t : String) (c : Condition) (cs : List Condition)
    → find_condition t (insert_condition c cs)
      ≡ (if c.type == t then some c else find_condition t cs)
find-insert t c [] = refl
find-insert t c (d ∷ cs) =
    ground (arith, eq_iff c.type t, eq_iff d.type t, str_lt_irrefl t, find-insert t c cs)

-- Sorting does not change what is found.
pub find-sort :
    (t : String) (cs : List Condition) → find_condition t (sort_conditions cs) ≡ find_condition t cs
find-sort t [] = refl
find-sort t (c ∷ cs) = rw (find-insert t c (sort_conditions cs), find-sort t cs)

pub find-append_one :
    (t : String) (cs : List Condition) (c : Condition)
    → find_condition t (cs ++ c ∷ []) ≡ (elim (find_condition t cs) [
      | some d ↦ some d
      | none ↦ if c.type == t then some c else none
    ])
find-append_one t [] c = refl
find-append_one t (d ∷ cs) c = ground (arith, find-append_one t cs c)

pub find-without :
    (t s : String) (cs : List Condition)
    → find_condition t (without_type s cs) ≡ (if s == t then none else find_condition t cs)
find-without t s [] = ground arith
find-without t s (c ∷ cs) =
    ground (arith, eq_iff c.type s, eq_iff c.type t, eq_iff s t, find-without t s cs)

AllOther-without :
    (s t : String) (cs : List Condition) → AllOther t cs → AllOther t (without_type s cs)
AllOther-without s t [] h = tt
AllOther-without s t (c ∷ cs) h = ground (arith, AllOther-without s t cs h.1)

without-AllOther : (t : String) (cs : List Condition) → AllOther t (without_type t cs)
without-AllOther t [] = tt
without-AllOther t (c ∷ cs) = ground (arith, eq_iff c.type t, without-AllOther t cs)

pub without-IsDistinct :
    (t : String) (cs : List Condition) → IsDistinct cs → IsDistinct (without_type t cs)
without-IsDistinct t [] h = tt
without-IsDistinct t (c ∷ cs) h =
    ground (arith, without-IsDistinct t cs h.1, AllOther-without t c.type cs h.0)

AllOther-append_one :
    (t : String) (cs : List Condition) (c : Condition)
    → c.type ≢ t
    → AllOther t cs
    → AllOther t (cs ++ c ∷ [])
AllOther-append_one t [] c p h = (p, tt)
AllOther-append_one t (d ∷ cs) c p h = (h.0, AllOther-append_one t cs c p h.1)

append_one-IsDistinct :
    (cs : List Condition) (c : Condition)
    → AllOther c.type cs
    → IsDistinct cs
    → IsDistinct (cs ++ c ∷ [])
append_one-IsDistinct [] c o h = (tt, tt)
append_one-IsDistinct (d ∷ cs) c o h =
    (AllOther-append_one d.type cs c (λ e. o.0 (sym e)) h.0, append_one-IsDistinct cs c o.1 h.1)

-- What `SetCondition` stores is sorted, and has no type twice.
pub replace-IsSorted :
    (cs : List Condition) (c : Condition)
    → IsSorted cs
    → IsSorted (sort_conditions (without_type c.type cs ++ c ∷ []))
replace-IsSorted cs c h = sort-IsSorted _ (
    append_one-IsDistinct (without_type c.type cs) c (without-AllOther c.type cs)
      (without-IsDistinct c.type cs (IsSorted-IsDistinct cs h)))
