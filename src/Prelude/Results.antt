-- ===== src/Prelude/Results.antt =====
-- Exceptions as values. `undefined` is a call that the C++ standard gives no meaning, such as
-- `pop_back` on an empty vector; no handler catches it.
use mathlib.Core.Path.{◌≡◌, refl}
use mathlib.Core.Bool.{Bool, true, false}
use mathlib.Core.Logic.{◌⊎◌, inl, inr}
use mathlib.Core.List.{◌++◌}
use native.Mathlib.Omega.{arith}
use scitokens_cpp.Prelude.Text.{Str, str}

-- The exception classes of scitokens_internal.h, then those of the libraries.
pub data Exn : Type 0 where
  unsupported_key : Str → Exn
  jwt_verification : Str → Exn
  curl : Str → Exn
  missing_issuer : Exn
  invalid_issuer : Str → Exn
  json : Str → Exn
  runtime : Str → Exn
  bad_cast : Exn
  claim_not_present : Exn
  logic : Str → Exn

-- `exc.what()`
unfoldable pub what : Exn → Str
what (unsupported_key msg) = msg
what (jwt_verification msg) = str "token verification failed: " ++ msg
what (curl msg) = msg
what missing_issuer = str "Issuer not specified in claims"
what (invalid_issuer msg) = msg
what (json msg) = msg
what (runtime msg) = msg
what bad_cast = str "std::bad_cast"
what claim_not_present = str "claim not found"
what (logic msg) = msg

-- Which of them `catch (std::runtime_error &)` takes: jwt-cpp's `claim_not_present_exception` is a
-- `std::out_of_range`, and so a `std::logic_error`.
unfoldable pub is_runtime_error : Exn → Bool
is_runtime_error bad_cast = false
is_runtime_error claim_not_present = false
is_runtime_error (logic msg) = false
is_runtime_error e = true

pub data Result {ℓ} (A : Type ℓ) : Type ℓ where
  ok : A → Result A
  throw : Exn → Result A
  undefined : Result A

module _ {ℓ κ} {A : Type ℓ} {B : Type κ} where
  infixl 5 ◌>>=◌
  abbrev pub ◌>>=◌ : Result A → (A → Result B) → Result B
  ok value >>= next = next value
  throw e >>= next = throw e
  undefined >>= next = undefined

  -- A successful sequence has a successful first part.
  pub >>=-eq-ok :
      (first : Result A) (next : A → Result B) {end : B}
      → (first >>= next) ≡ ok end
      → (value : A) × (first ≡ ok value) × (next value ≡ ok end)
  >>=-eq-ok (ok value) next succeeds = (value, refl, succeeds)
  >>=-eq-ok (throw e) next succeeds = ground arith
  >>=-eq-ok undefined next succeeds = ground arith

infixl 5 ◌>>◌
abbrev pub ◌>>◌ {ℓ} : {B : Type ℓ} → Result (Unit {0}) → Result B → Result B
check >> next = check >>= λ _. next

-- `if (!test) throw e`
abbrev pub require : Bool → Exn → Result (Unit {0})
require true e = ok tt
require false e = throw e

pub ok-injective {ℓ} : {A : Type ℓ} {a b : A} → ok a ≡ ok b → a ≡ b
ok-injective h = cc

pub ok-ne-throw {ℓ} : {A : Type ℓ} {a : A} {e : Exn} → ok a ≡ throw e → ⊥
ok-ne-throw h = cc

pub ok-ne-undefined {ℓ} : {A : Type ℓ} {a : A} → ok a ≡ undefined → ⊥
ok-ne-undefined h = cc

-- To split on a computed result and keep the equation.
pub Result-cases {ℓ} :
    {A : Type ℓ} (r : Result A)
    → (((a : A) × (r ≡ ok a)) ⊎ ((e : Exn) × (r ≡ throw e))) ⊎ (r ≡ undefined)
Result-cases (ok a) = inl (inl (a, refl))
Result-cases (throw e) = inl (inr (e, refl))
Result-cases undefined = inr refl
