-- ===== src/Stash/RoundTrip.antt =====
-- What is stashed is retrieved, until it is cleared (reconcilers/stash.go).
use reconciler_runtime.Base.{
  String, Option, none, some, ◌==◌, ◌≡◌, refl, ap, ◌∙◌, if◌then◌else◌, eq_iff, Bool-cases, inl, inr,
}
use reconciler_runtime.Base.Map.{
  Map, string_key, lookup, insert, erase, lookup-insert, lookup-erase, IsKeyed, insert-IsKeyed,
}
use reconciler_runtime.Exec.{returned}
use reconciler_runtime.Stash.{Stashed, stash_value, retrieve_value, clear_value}

module _ {V W : Type 0} where
  -- What every key retrieves.
  abbrev pub Retrieves : Stashed V W → (String → Option V) → Type 0
  Retrieves s values = (j : String) → retrieve_value j s ≡ (returned (values j), s)

  -- On a context with a stash, a value that is stashed under a key is what the key retrieves, and all
  -- other keys retrieve what they did; clearing the key returns the value, and then the key retrieves
  -- nothing and all others what they did.
  pub stash_value-retrieve_value :
      (key : String) (value : V) (m : Map String V) (s : Stashed V W)
      → s.stash ≡ some m
      → IsKeyed m
      → (s' : Stashed V W) × (stash_value key value s ≡ (returned tt, s'))
        × Retrieves s' (λ j. if key == j then some value else lookup j m)
        × ((s'' : Stashed V W) × (clear_value key s' ≡ (returned (some value), s''))
            × Retrieves s'' (λ j. if key == j then none else lookup j m))
  unfolding stash_value retrieve_value clear_value
  stash_value-retrieve_value key value m s configured keyed =
      let m' = insert key value m in
      let kept = insert-IsKeyed key value m keyed in
      let here : lookup key m' ≡ some value =
        lookup-insert key key value m ∙ rw ((eq_iff key key).1 refl) refl in
      (
        record s { stash = some m' },
        rw configured refl,
        (λ j.
            ap (λ (o : Option V). (returned o, record s { stash = some m' }))
              (lookup-insert key j value m)),
        (
          record s { stash = some (erase key m') },
          ap (λ (o : Option V). (returned o, record s { stash = some (erase key m') })) here,
          λ j.
              ap (λ (o : Option V). (returned o, record s { stash = some (erase key m') }))
                (lookup-erase key j m' kept ∙ after j),
        ),
      )
    where
      after :
          (j : String)
          → (if key == j then none else lookup j (insert key value m))
            ≡ (if key == j then none else lookup j m)
      after j = elim (Bool-cases (key == j)) [
        | inl q ↦ rw q refl
        | inr q ↦ rw (lookup-insert key j value m) (rw q refl)
      ]
