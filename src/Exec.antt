-- ===== src/Exec.antt =====
-- Go code that runs against mutable state: it returns, or panics. `exhausted` is a loop that has
-- used up its fuel; the code has no such outcome.
use reconciler_runtime.Base.{
  Bool, true, false, Option, none, some, [], ◌≡◌, refl, ap, ◌∙◌, if◌then◌else◌,
}
use reconciler_runtime.Errors.{Error, errorf}

pub data Outcome (A : Type 0) : Type 0 where
  returned : A → Outcome A
  panicked : Error → Outcome A
  exhausted : Outcome A

abbrev pub M : Type 0 → Type 0 → Type 0
M S A = S → Outcome A × S

module _ {S A : Type 0} where
  abbrev pub pure : A → M S A
  pure a s = (returned a, s)

  abbrev pub panic : Error → M S A
  panic e s = (panicked e, s)

  abbrev pub out_of_fuel : M S A
  out_of_fuel s = (exhausted, s)

  abbrev pub gets : (S → A) → M S A
  gets f s = (returned (f s), s)

abbrev pub modify : {S : Type 0} → (S → S) → M S (Unit {0})
modify f s = (returned tt, f s)

abbrev pub continue : {S A B : Type 0} → Outcome A → (A → M S B) → M S B
continue (returned a) f s = f a s
continue (panicked e) f s = (panicked e, s)
continue exhausted f s = (exhausted, s)

infixl 5 ◌>>=◌ ◌>>◌
abbrev pub ◌>>=◌ : {S A B : Type 0} → M S A → (A → M S B) → M S B
◌>>=◌ m f s = let (r, s') = m s in continue r f s'

abbrev pub ◌>>◌ : {S A B : Type 0} → M S A → M S B → M S B
m >> k = m >>= λ _. k

-- A call through a nil function or interface.
abbrev pub nil_dereference : Error
nil_dereference = errorf "invalid memory address or nil pointer dereference" []

abbrev pub call : {S A F : Type 0} → Option F → (F → M S A) → M S A
call none k = panic nil_dereference
call (some f) k = k f

-- Does the run come to an end of its own?
abbrev pub Ends : {A S : Type 0} → Outcome A × S → Type 0
Ends (returned _, _) = Unit
Ends (panicked _, _) = Unit
Ends (exhausted, _) = ⊥

-- Does the run return?
abbrev pub Returns : {A S : Type 0} → Outcome A × S → Type 0
Returns (returned _, _) = Unit
Returns (panicked _, _) = ⊥
Returns (exhausted, _) = ⊥

-- What comes of a step that an error may end, with no result.
pub data Or (A : Type 0) : Type 0 where
  ok : A → Or A
  failed : Error → Or A

abbrev pub and_then : {S A B : Type 0} → (A → M S (Or B)) → Or A → M S (Or B)
and_then f (failed e) s = (returned (failed e), s)
and_then f (ok a) s = f a s

-- What follows a run that returns starts from where that run ends.
pub bind_returned :
    {S A B : Type 0} (m : M S A) (k : A → M S B) (s t : S) (a : A)
    → m s ≡ (returned a, t)
    → (m >>= k) s ≡ k a t
bind_returned m k s t a e = ap (λ run. continue run.0 k run.1) e

-- What a run leaves as it is, however it ends.
module _ {S O : Type 0} (view : S → O) where
  abbrev pub Keeps : {A : Type 0} → M S A → Type 0
  Keeps m = (s : S) → view (m s).1 ≡ view s

  pub Keeps-bind :
      {A B : Type 0} (m : M S A) (k : A → M S B)
      → Keeps m
      → ((a : A) → Keeps (k a))
      → Keeps (m >>= k)
  Keeps-bind {A = A} m k hm hk s = go (m s) (hm s)
    where
      go : (run : Outcome A × S) → view run.1 ≡ view s → view (continue run.0 k run.1).1 ≡ view s
      go (returned a, t) h = hk a t ∙ h
      go (panicked e, t) h = h
      go (exhausted, t) h = h

  pub Keeps-call :
      {A F : Type 0} (o : Option F) (k : F → M S A) → ((f : F) → Keeps (k f)) → Keeps (call o k)
  Keeps-call none k h s = refl
  Keeps-call (some f) k h s = h f s

  pub Keeps-or_panic :
      {A : Type 0} (o : Option A) (e : Error)
      → Keeps {A = A} (elim o [ none ↦ panic e | some a ↦ pure a ])
  Keeps-or_panic none e s = refl
  Keeps-or_panic (some a) e s = refl

  pub if-keeps :
      {A : Type 0} (b : Bool) (x y : Outcome A × S) (s : S)
      → view x.1 ≡ view s
      → view y.1 ≡ view s
      → view (if b then x else y).1 ≡ view s
  if-keeps true x y s hx hy = hx
  if-keeps false x y s hx hy = hy

  pub if-Keeps :
      {A : Type 0} (b : Bool) (m n : M S A) → Keeps m → Keeps n → Keeps (if b then m else n)
  if-Keeps true m n hm hn = hm
  if-Keeps false m n hm hn = hn
