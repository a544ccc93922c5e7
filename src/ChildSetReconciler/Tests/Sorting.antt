-- ===== src/ChildSetReconciler/Tests/Sorting.antt =====
-- A sort of strings, each once, as `sets.String.List` (reconcilers/childset.go) needs it.
use reconciler_runtime.Base.{
  String, true, ◌||◌, ◌==◌, List, [], ◌∷◌, ◌≡◌, refl, arith, if◌then◌else◌, eq_iff,
}
use reconciler_runtime.Base.Text.{str_lt, str_lt_trans, str_lt_total}
use reconciler_runtime.Base.Lists.{All}
use reconciler_runtime.Base.Map.{string_key, has}
use reconciler_runtime.ChildSetReconciler.Composed.{IsAscending, IsSort}

abbrev pub insert_string : String → List String → List String
insert_string x [] = x ∷ []
insert_string x (y ∷ ys) =
    let rest = insert_string x ys in
    if str_lt x y then x ∷ y ∷ ys else if x == y then y ∷ ys else y ∷ rest

abbrev pub sort_strings : List String → List String
sort_strings [] = []
sort_strings (x ∷ xs) = insert_string x (sort_strings xs)

abbrev AllAbove : String → List String → Type 0
AllAbove x = All (λ y. str_lt x y ≡ true)

AllAbove-lower :
    (x y : String) (ys : List String) → str_lt x y ≡ true → AllAbove y ys → AllAbove x ys
AllAbove-lower x y [] p h = tt
AllAbove-lower x y (z ∷ zs) p h = (str_lt_trans x y z p h.0, AllAbove-lower x y zs p h.1)

AllAbove-insert_string :
    (x y : String) (ys : List String)
    → str_lt y x ≡ true
    → AllAbove y ys
    → AllAbove y (insert_string x ys)
AllAbove-insert_string x y [] p h = (p, tt)
AllAbove-insert_string x y (z ∷ zs) p h = ground (arith, AllAbove-insert_string x y zs p h.1)

insert_string-IsAscending :
    (x : String) (ys : List String) → IsAscending ys → IsAscending (insert_string x ys)
insert_string-IsAscending x [] h = (tt, tt)
insert_string-IsAscending x (y ∷ ys) h = ground (
  arith,
  str_lt_total x y,
  eq_iff x y,
  AllAbove-lower x y ys,
  AllAbove-insert_string x y ys,
  insert_string-IsAscending x ys h.1,
)

has-insert_string :
    (x j : String) (ys : List String) → has j (insert_string x ys) ≡ (x == j || has j ys)
has-insert_string x j [] = refl
has-insert_string x j (y ∷ ys) =
    ground (arith, eq_iff x y, eq_iff x j, eq_iff y j, has-insert_string x j ys)

sort-IsAscending : (xs : List String) → IsAscending (sort_strings xs)
sort-IsAscending [] = tt
sort-IsAscending (x ∷ xs) = insert_string-IsAscending x (sort_strings xs) (sort-IsAscending xs)

has-sort : (xs : List String) (j : String) → has j (sort_strings xs) ≡ has j xs
has-sort [] j = refl
has-sort (x ∷ xs) j = rw (has-insert_string x j (sort_strings xs)) (rw (has-sort xs j) refl)

pub sort_strings-IsSort : IsSort sort_strings
sort_strings-IsSort = record { ascending = sort-IsAscending; same_members = has-sort }
