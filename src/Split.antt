-- ===== src/Split.antt =====
-- The tokenizing loop that `normalize_absolute_path` and `Enforcer::scope_validator` of
-- src/scitokens_internal.cpp share: skip separators, take what stands before the next one.
use mathlib.Core.List.{append-nil}
use scitokens_cpp.Prelude.{
  ℕ, zero, suc, ◌≤◌, ◌≡◌, refl, ap, ◌≢◌, List, [], ◌∷◌, ◌++◌, arith, Str, until, from, skip, Free,
  until-Free, until_of_Free, from_of_Free, until_end, from_end, length, length-append, All,
}

-- One round takes at least one byte, so the length of the text is fuel enough. At the end of the
-- text the source reads the terminating NUL, which is no separator; a text that ends in separators
-- therefore gives one empty token.
unfoldable pub tokens : ℕ → ℕ → Str → List Str
tokens sep zero s = []
tokens sep (suc fuel) [] = []
tokens sep (suc fuel) (c ∷ s) =
    let rest = skip sep (c ∷ s) in until sep rest ∷ tokens sep fuel (from sep rest)

unfoldable pub split : ℕ → Str → List Str
split sep s = tokens sep (length s) s

length-skip : (sep : ℕ) (s : Str) → length (skip sep s) ≤ length s
unfolding skip
length-skip sep [] = omega arith
length-skip sep (c ∷ s) = ground (arith, length-skip sep s)

length-from : (sep : ℕ) (s : Str) → length (from sep s) ≤ length s
unfolding from
length-from sep [] = omega arith
length-from sep (c ∷ s) = ground (arith, length-from sep s)

-- Each round makes progress.
length-from-skip : (sep c : ℕ) (s : Str) → length (from sep (skip sep (c ∷ s))) ≤ length s
unfolding skip from
length-from-skip sep c s =
    ground (arith, length-skip sep s, length-from sep (skip sep s), length-from sep s)

pub tokens_fuel :
    (sep f g : ℕ) (s : Str) → length s ≤ f → length s ≤ g → tokens sep f s ≡ tokens sep g s
unfolding tokens
tokens_fuel sep zero zero s h k = refl
tokens_fuel sep zero (suc g) [] h k = refl
tokens_fuel sep zero (suc g) (c ∷ s) h k = absurd (omega arith)
tokens_fuel sep (suc f) zero [] h k = refl
tokens_fuel sep (suc f) zero (c ∷ s) h k = absurd (omega arith)
tokens_fuel sep (suc f) (suc g) [] h k = refl
tokens_fuel sep (suc f) (suc g) (c ∷ s) h k =
    ap (λ l. until sep (skip sep (c ∷ s)) ∷ l)
      (tokens_fuel sep f g _ (omega (arith, length-from-skip sep c s))
        (omega (arith, length-from-skip sep c s)))

tokens-Free : (sep f : ℕ) (s : Str) → All (Free sep) (tokens sep f s)
unfolding tokens
tokens-Free sep zero s = tt
tokens-Free sep (suc f) [] = tt
tokens-Free sep (suc f) (c ∷ s) = (until-Free sep _, tokens-Free sep f _)

-- No token holds a separator.
pub split-Free : (sep : ℕ) (s : Str) → All (Free sep) (split sep s)
unfolding split
split-Free sep s = tokens-Free sep (length s) s

-- The text in which every token follows a separator.
unfoldable pub join : ℕ → List Str → Str
join sep [] = []
join sep (t ∷ ts) = sep ∷ t ++ join sep ts

abbrev pub IsToken : ℕ → Str → Type 0
IsToken sep t = (t ≢ []) × Free sep t

skip_of_IsToken : (sep : ℕ) (t r : Str) → IsToken sep t → skip sep (sep ∷ t ++ r) ≡ t ++ r
unfolding skip
skip_of_IsToken sep [] r h = absurd (h.0 refl)
skip_of_IsToken sep (c ∷ t) r h = ground arith

until-join : (sep : ℕ) (t : Str) (ts : List Str) → Free sep t → until sep (t ++ join sep ts) ≡ t
unfolding join
until-join sep t [] h = rw append-nil (until_end sep t h)
until-join sep t (u ∷ us) h = until_of_Free sep t (u ++ join sep us) h

from-join :
    (sep : ℕ) (t : Str) (ts : List Str) → Free sep t → from sep (t ++ join sep ts) ≡ join sep ts
unfolding join
from-join sep t [] h = rw append-nil (from_end sep t h)
from-join sep t (u ∷ us) h = from_of_Free sep t (u ++ join sep us) h

tokens-join :
    (sep f : ℕ) (ts : List Str)
    → All (IsToken sep) ts
    → length (join sep ts) ≤ f
    → tokens sep f (join sep ts) ≡ ts
unfolding tokens join
tokens-join sep zero [] h k = refl
tokens-join sep zero (t ∷ ts) h k = absurd (omega arith)
tokens-join sep (suc f) [] h k = refl
tokens-join sep (suc f) (t ∷ ts) h k =
    rw
      (skip_of_IsToken sep t (join sep ts) h.0, until-join sep t ts h.0.1, from-join sep t ts h.0.1)
      (ap (λ l. t ∷ l)
        (tokens-join sep f ts h.1 (omega (arith, length-append {0} t (join sep ts)))))

-- Splitting undoes joining.
pub split-join : (sep : ℕ) (ts : List Str) → All (IsToken sep) ts → split sep (join sep ts) ≡ ts
unfolding split
split-join sep ts h = tokens-join sep (length (join sep ts)) ts h (omega arith)
