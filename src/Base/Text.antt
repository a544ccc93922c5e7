-- ===== src/Base/Text.antt =====
-- The order of Go strings. Strings hold code points; for valid UTF-8 their order is that of the
-- bytes, which is the order that `<` has in Go.
use Prim.Native.Nat.{compare, Ordering}
use Prim.Native.Char.{code}
use Prim.Native.String.{String}
use mathlib.Core.Path.{◌≡◌, refl}
use mathlib.Core.Logic.{◌⊎◌, inl, inr}
use mathlib.Core.Bool.{Bool, true, false}
use native.Mathlib.Omega.{arith}
use text.Mathlib.TextEquality.{Char-path}

abbrev lex : Ordering → Bool → Bool
lex Ordering.lt rest = true
lex Ordering.eq rest = rest
lex Ordering.gt rest = false

abbrev pub str_lt : String → String → Bool
str_lt String.[] String.[] = false
str_lt String.[] (String.◌∷◌ d t) = true
str_lt (String.◌∷◌ c s) String.[] = false
str_lt (String.◌∷◌ c s) (String.◌∷◌ d t) = lex (compare (code c) (code d)) (str_lt s t)

pub str_lt_irrefl : (s : String) → str_lt s s ≡ false
str_lt_irrefl String.[] = refl
str_lt_irrefl (String.◌∷◌ c s) = ground (arith, str_lt_irrefl s)

pub str_lt_trans : (s t u : String) → str_lt s t ≡ true → str_lt t u ≡ true → str_lt s u ≡ true
str_lt_trans String.[] String.[] u p q = q
str_lt_trans String.[] (String.◌∷◌ d t) String.[] p q = q
str_lt_trans String.[] (String.◌∷◌ d t) (String.◌∷◌ e u) p q = refl
str_lt_trans (String.◌∷◌ c s) String.[] u p q = cc
str_lt_trans (String.◌∷◌ c s) (String.◌∷◌ d t) String.[] p q = cc
str_lt_trans (String.◌∷◌ c s) (String.◌∷◌ d t) (String.◌∷◌ e u) p q =
    ground (arith, str_lt_trans s t u)

-- The order is total.
pub str_lt_total : (s t : String) → (str_lt s t ≡ true) ⊎ (s ≡ t) ⊎ (str_lt t s ≡ true)
str_lt_total String.[] String.[] = inr (inl refl)
str_lt_total String.[] (String.◌∷◌ d t) = inl refl
str_lt_total (String.◌∷◌ c s) String.[] = inr (inr refl)
str_lt_total (String.◌∷◌ c s) (String.◌∷◌ d t) = ground (arith, str_lt_total s t, Char-path c d)
