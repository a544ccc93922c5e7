-- ===== src/ChildSetReconciler/Collected.antt =====
-- What a set of children reflects (reconcilers/childset.go).
use reconciler_runtime.Base.{
  String, false, ◌==◌, none, some, List, [], ◌∷◌, ◌++◌, ◌≡◌, refl, sym, ap, subst, ◌∙◌, Bool-cases,
  inl, inr, eq_iff,
}
use reconciler_runtime.Base.Map.{
  Map, string_key, lookup, insert, erase, IsKeyed, lookup-insert, lookup-erase, insert-IsKeyed,
}
use reconciler_runtime.Context.{Context}
use reconciler_runtime.Exec.{returned, M, pure, call, ◌>>=◌, bind_returned}
use reconciler_runtime.Flow.Finalizer.{State}
use reconciler_runtime.Stash.{Stashed, stash_value, retrieve_value, clear_value, retrieve_stash_map}
use reconciler_runtime.ChildSetReconciler.{
  PartialResult, SetResult, Boxed, External, Set, or_empty, collect, result_key,
  clear_child_set_result, stash_child_set_result, retrieve_child_set_result,
}
use reconciler_runtime.ChildSetReconciler.Methods.{reflect_status}

pub append_assoc : {A : Type 0} (xs ys zs : List A) → ((xs ++ ys) ++ zs) ≡ (xs ++ (ys ++ zs))
append_assoc [] ys zs = refl
append_assoc (x ∷ xs) ys zs = ap (λ l. x ∷ l) (append_assoc xs ys zs)

pub append_nil : {A : Type 0} (xs : List A) → (xs ++ []) ≡ xs
append_nil [] = refl
append_nil (x ∷ xs) = ap (λ l. x ∷ l) (append_nil xs)

lookup_inserted :
    {V : Type 0} (v : V) (m : Map String V) → lookup result_key (insert result_key v m) ≡ some v
lookup_inserted v m = lookup-insert result_key result_key v m

-- The state with the given stash.
abbrev pub stashing :
    {B V W : Type 0} → Map String V → State B (Stashed V W) → State B (Stashed V W)
stashing m s = record s { world = record s.world { stash = some m } }

module _ {T V : Type 0} (boxed : Boxed T V) where
  abbrev pub collected : PartialResult T → Map String V → Map String V
  collected p m = insert result_key (boxed.box (or_empty boxed (lookup result_key m) ++ p ∷ [])) m

  -- The stash after them.
  abbrev Kept : SetResult T → Map String V → Map String V → Type 0
  Kept ps m m' =
      IsKeyed m'
      × (or_empty boxed (lookup result_key m') ≡ (or_empty boxed (lookup result_key m) ++ ps))
      × ((j : String) → (result_key == j) ≡ false → lookup j m' ≡ lookup j m)

  pub or_empty-collected :
      ((x : SetResult T) → boxed.unbox (boxed.box x) ≡ some x)
      → (p : PartialResult T) (m : Map String V)
      → or_empty boxed (lookup result_key (collected p m))
        ≡ (or_empty boxed (lookup result_key m) ++ p ∷ [])
  or_empty-collected boxes p m =
      let all = or_empty boxed (lookup result_key m) ++ p ∷ [] in
      ap (or_empty boxed) (lookup_inserted (boxed.box all) m) ∙ rw (boxes all, or_empty) refl

module _ {T V B W : Type 0} (boxed : Boxed T V) where
  -- What the child reconcilers of a set reflect, one after the other.
  abbrev collect_all : SetResult T → M (State B (Stashed V W)) (Unit {0})
  collect_all [] = pure tt
  collect_all (p ∷ ps) = collect boxed p.id p.child p.err >>= λ _. collect_all ps

  pub collect-insert :
      (p : PartialResult T) (m : Map String V) (s : State B (Stashed V W))
      → collect boxed p.id p.child p.err (stashing m s)
        ≡ (returned tt, stashing (collected boxed p m) s)
  unfolding collect retrieve_child_set_result stash_child_set_result retrieve_value stash_value
      retrieve_stash_map
  collect-insert p m s = refl

  module _ (boxes : (r : SetResult T) → boxed.unbox (boxed.box r) ≡ some r) where
    collect_all-Kept :
        (ps : SetResult T) (m : Map String V) (s : State B (Stashed V W))
        → IsKeyed m
        → (m' : Map String V) × (collect_all ps (stashing m s) ≡ (returned tt, stashing m' s))
          × Kept boxed ps m m'
    collect_all-Kept [] m s keyed = (m, refl, (keyed, sym (append_nil _), λ j other. refl))
    collect_all-Kept (p ∷ ps) m s keyed =
        let (m', run, (keyed', all, others)) =
          collect_all-Kept ps (collected boxed p m) s (insert-IsKeyed result_key _ m keyed) in
        (
          m',
          bind_returned (collect boxed p.id p.child p.err) (λ _. collect_all ps) (stashing m s)
                (stashing (collected boxed p m) s) tt (collect-insert p m s)
              ∙ run,
          (
            keyed',
            all
                ∙ ap (λ (l : SetResult T). l ++ ps) (or_empty-collected boxed boxes p m)
                ∙ append_assoc (or_empty boxed (lookup result_key m)) (p ∷ []) ps,
            λ j other. others j other ∙ lookup-insert result_key j _ m ∙ rw other refl,
          ),
        )

module _ {T Bytes V L Config B W : Type 0} (ext : External T Bytes V L Config B W) where
  -- Where nothing is collected yet, what the child reconcilers of a set reflect is handed over at the
  -- end as it came, in that order, and then the stash holds what it held before, with nothing under
  -- the key of the results. A boxed result is assumed to come out of its box.
  collect_all-reflect_status :
      ((x : SetResult T) → ext.boxed.unbox (ext.boxed.box x) ≡ some x)
      → (r : Set T V L Config B W)
        (f : Context Config → List T → SetResult T → M (State B (Stashed V W)) (Unit {0}))
        (ctx : Context Config) (known : List T) (ps : SetResult T) (m : Map String V)
        (s : State B (Stashed V W))
      → r.reflect_children_status_on_parent ≡ some f
      → IsKeyed m
      → lookup result_key m ≡ none
      → (m' : Map String V) × ((collect_all ext.boxed ps >>= λ _. reflect_status ext r ctx known)
            (stashing m s)
          ≡ f ctx known ps (stashing m' s))
        × ((j : String) → lookup j m' ≡ lookup j m)
  unfolding reflect_status clear_child_set_result clear_value retrieve_stash_map
  collect_all-reflect_status boxes r f ctx known ps m s reflects keyed fresh =
      let (m', run, (keyed', all, others)) = collect_all-Kept ext.boxed boxes ps m s keyed in
      (
        erase result_key m',
        bind_returned (collect_all ext.boxed ps) (λ _. reflect_status ext r ctx known)
              (stashing m s) (stashing m' s) tt run
            ∙ ap
                (λ o.
                  call o (λ h. h ctx known (or_empty ext.boxed (lookup result_key m')))
                    (stashing (erase result_key m') s))
                reflects
            ∙ ap (λ x. f ctx known x (stashing (erase result_key m') s))
                (all ∙ ap (λ o. or_empty ext.boxed o ++ ps) fresh),
        λ j. lookup-erase result_key j m' keyed' ∙ elim (Bool-cases (result_key == j)) [
          | inl q ↦ rw q (sym (subst (λ i. lookup i m ≡ none) ((eq_iff result_key j).0 q) fresh))
          | inr q ↦ rw q (others j q)
        ],
      )
