-- ===== src/Base/Map.antt =====
-- Go maps as association lists with no key twice. Their order is not the program's: what is stated
-- of a map is stated through `lookup` or `In`.
use reconciler_runtime.Base.{
  ◌≡◌, refl, sym, subst, ◌∙◌, ◌↔◌, inl, inr, Bool, true, false, ◌||◌, Option, none, some, List, [],
  ◌∷◌, arith, String, eq_iff, if◌then◌else◌, Bool-cases,
}
use text.Mathlib.Text.{◌==◌ as str_eq}

-- A type of keys: what `==` decides.
pub record Key (K : Type 0) : Type 0 where
  pub same : K → K → Bool
  pub same_iff : (a b : K) → (same a b ≡ true) ↔ (a ≡ b)

infix 50 ◌=?◌
abbrev pub ◌=?◌ : {K : Type 0} ⦃e : Key K⦄ → K → K → Bool
◌=?◌ ⦃e⦄ = e.same

instance abbrev pub string_key : Key String
string_key = record { same = str_eq; same_iff = eq_iff }

abbrev pub Map : Type 0 → Type 0 → Type 0
Map K V = List (K × V)

module _ {K V : Type 0} ⦃e : Key K⦄ where
  abbrev pub lookup : K → Map K V → Option V
  lookup k [] = none
  lookup k ((j, v) ∷ m) = if j =? k then some v else lookup k m

  -- `m[k] = v`
  abbrev pub insert : K → V → Map K V → Map K V
  insert k v [] = (k, v) ∷ []
  insert k v ((j, w) ∷ m) = if j =? k then (j, v) ∷ m else (j, w) ∷ insert k v m

  -- `delete(m, k)`
  abbrev pub erase : K → Map K V → Map K V
  erase k [] = []
  erase k ((j, w) ∷ m) = if j =? k then m else (j, w) ∷ erase k m

  -- No key twice.
  abbrev pub IsKeyed : Map K V → Type 0
  IsKeyed [] = Unit
  IsKeyed ((j, w) ∷ m) = (lookup j m ≡ none) × IsKeyed m

  pub lookup-insert :
      (k j : K) (v : V) (m : Map K V)
      → lookup j (insert k v m) ≡ (if k =? j then some v else lookup j m)
  lookup-insert k j v [] = refl
  lookup-insert k j v ((i, w) ∷ m) =
      ground (arith, e.same_iff k j, e.same_iff i k, e.same_iff i j, lookup-insert k j v m)

  pub insert-IsKeyed : (k : K) (v : V) (m : Map K V) → IsKeyed m → IsKeyed (insert k v m)
  insert-IsKeyed k v [] h = (refl, tt)
  insert-IsKeyed k v ((i, w) ∷ m) h =
      ground
        (arith, e.same_iff i k, e.same_iff k i, lookup-insert k i v m, insert-IsKeyed k v m h.1)

  pub lookup-erase :
      (k j : K) (m : Map K V)
      → IsKeyed m
      → lookup j (erase k m) ≡ (if k =? j then none else lookup j m)
  lookup-erase k j [] h = ground arith
  lookup-erase k j ((i, w) ∷ m) h =
      ground (arith, e.same_iff k j, e.same_iff i k, e.same_iff i j, lookup-erase k j m h.1)

  pub erase-IsKeyed : (k : K) (m : Map K V) → IsKeyed m → IsKeyed (erase k m)
  erase-IsKeyed k [] h = tt
  erase-IsKeyed k ((i, w) ∷ m) h = ground (arith, lookup-erase k i m h.1, erase-IsKeyed k m h.1)

-- No key twice, and every value is good.
module _ {K V : Type 0} ⦃e : Key K⦄ (P : V → Type 0) where
  pub record IsMapOf (m : Map K V) : Type 0 where
    pub keyed : IsKeyed m
    pub values : (k : K) (v : V) → lookup k m ≡ some v → P v

  pub nil-IsMapOf : IsMapOf []
  nil-IsMapOf = record { keyed = tt; values = λ k v h. absurd (cc) }

  pub insert-IsMapOf : (k : K) (v : V) (m : Map K V) → P v → IsMapOf m → IsMapOf (insert k v m)
  insert-IsMapOf k v m good h = record {
    keyed = insert-IsKeyed k v m h.keyed;
    values = λ j w found.
        let found' = sym (lookup-insert k j v m) ∙ found in
        elim (Bool-cases (k =? j)) [
          | inl q ↦
              let same : some v ≡ some w =
                subst (λ b. (if b then some v else lookup j m) ≡ some w) q found' in
              subst P (cc) good
          | inr q ↦ h.values j w (subst (λ b. (if b then some v else lookup j m) ≡ some w) q found')
        ];
  }

  pub erase-IsMapOf : (k : K) (m : Map K V) → IsMapOf m → IsMapOf (erase k m)
  erase-IsMapOf k m h = record {
    keyed = erase-IsKeyed k m h.keyed;
    values = λ j w found.
        let found' = sym (lookup-erase k j m h.keyed) ∙ found in
        elim (Bool-cases (k =? j)) [
          | inl q ↦
              let same : none ≡ some w =
                subst (λ b. (if b then none else lookup j m) ≡ some w) q found' in
              absurd (cc)
          | inr q ↦ h.values j w (subst (λ b. (if b then none else lookup j m) ≡ some w) q found')
        ];
  }

module _ {K : Type 0} ⦃e : Key K⦄ where
  -- `sets.Set.Has`, on the members of a set in some order.
  abbrev pub has : K → List K → Bool
  has k [] = false
  has k (x ∷ xs) = x =? k || has k xs

  -- `sets.Set.Insert`
  abbrev pub add : K → List K → List K
  add k xs = if has k xs then xs else k ∷ xs

  pub has-add : (k j : K) (xs : List K) → has j (add k xs) ≡ (k =? j || has j xs)
  has-add k j xs = elim (Bool-cases (k =? j)) [
    | inl q ↦ elim (Bool-cases (has k xs)) [
      | inl old ↦ rw (old, q) (rw (← (e.same_iff k j).0 q) old)
      | inr new ↦ rw new
    ]
    | inr q ↦ elim (Bool-cases (has k xs)) [ inl old ↦ rw (old, q) | inr new ↦ rw new ]
  ]
