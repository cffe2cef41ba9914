-- ===== src/Prelude/Text.antt =====
-- `std::string` as a list of bytes, and the operations on it that the library calls.
use Prim.Native.Nat.{ℕ}
use Prim.Native.Char.{code}
use Prim.Native.String.{String}
use mathlib.Core.Path.{◌≡◌, refl}
use mathlib.Core.Logic.{◌↔◌, ◌≢◌}
use mathlib.Core.Bool.{Bool, true, false, ◌&&◌}
use mathlib.Core.List.{List, [], ◌∷◌, ◌++◌}
use native.Mathlib.Omega.{arith}
use scitokens_cpp.Prelude.Tests.{◌==◌, if◌then◌else◌}
use scitokens_cpp.Prelude.Lists.{take, length, take-append}

abbrev pub Str : Type 0
Str = List ℕ

codes : String → Str
codes String.[] = []
codes (String.◌∷◌ c s) = code c ∷ codes s

-- A literal of the source.
unfoldable pub str : String → Str
unfolding codes
str s = codes s

unfoldable pub str_eq : Str → Str → Bool
str_eq [] [] = true
str_eq [] (y ∷ ys) = false
str_eq (x ∷ xs) [] = false
str_eq (x ∷ xs) (y ∷ ys) = x == y && str_eq xs ys

pub str_eq_iff : (s t : Str) → (str_eq s t ≡ true) ↔ (s ≡ t)
unfolding str_eq
str_eq_iff [] [] = ground arith
str_eq_iff [] (y ∷ ys) = ground arith
str_eq_iff (x ∷ xs) [] = ground arith
str_eq_iff (x ∷ xs) (y ∷ ys) = ground (arith, str_eq_iff xs ys)

pub str_eq_refl : (s : Str) → str_eq s s ≡ true
str_eq_refl s = (str_eq_iff s s).1 refl

-- `s.substr(0, p.size()) == p`
unfoldable pub has_prefix : Str → Str → Bool
has_prefix s p = str_eq (take (length p) s) p

pub has_prefix-append : (p s : Str) → has_prefix (p ++ s) p ≡ true
unfolding has_prefix
has_prefix-append p s = (str_eq_iff _ p).1 (take-append p s)

-- `std::find(begin, end, c)` splits a range at the first `c`, which stays in the second part.
unfoldable pub until : ℕ → Str → Str
until c [] = []
until c (x ∷ s) = if x == c then [] else x ∷ until c s

unfoldable pub from : ℕ → Str → Str
from c [] = []
from c (x ∷ s) = if x == c then x ∷ s else from c s

-- `while (*iter == c) iter++`
unfoldable pub skip : ℕ → Str → Str
skip c [] = []
skip c (x ∷ s) = if x == c then skip c s else x ∷ s

pub until-append-from : (c : ℕ) (s : Str) → until c s ++ from c s ≡ s
unfolding until from
until-append-from c [] = refl
until-append-from c (x ∷ s) = ground (arith, until-append-from c s)

-- A byte does not occur in a text.
abbrev pub Free : ℕ → Str → Type 0
Free c [] = Unit
Free c (x ∷ s) = (x ≢ c) × Free c s

pub until-Free : (c : ℕ) (s : Str) → Free c (until c s)
unfolding until
until-Free c [] = tt
until-Free c (x ∷ s) = ground (arith, until-Free c s)

pub until_of_Free : (c : ℕ) (s r : Str) → Free c s → until c (s ++ c ∷ r) ≡ s
unfolding until
until_of_Free c [] r h = ground arith
until_of_Free c (x ∷ s) r h = ground (arith, until_of_Free c s r)

pub from_of_Free : (c : ℕ) (s r : Str) → Free c s → from c (s ++ c ∷ r) ≡ c ∷ r
unfolding from
from_of_Free c [] r h = ground arith
from_of_Free c (x ∷ s) r h = ground (arith, from_of_Free c s r)

pub until_end : (c : ℕ) (s : Str) → Free c s → until c s ≡ s
unfolding until
until_end c [] h = refl
until_end c (x ∷ s) h = ground (arith, until_end c s)

pub from_end : (c : ℕ) (s : Str) → Free c s → from c s ≡ []
unfolding from
from_end c [] h = refl
from_end c (x ∷ s) h = ground (arith, from_end c s)
