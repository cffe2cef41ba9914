-- ===== src/SciToken/Signed.antt =====
-- Tokens that jwt-cpp has signed with a `SciTokenKey`.
use scitokens_cpp.Prelude.{
  ◌≡◌, sym, false, [], Option, none, some, Str, str, str_eq, inl, inr, Result, ok, ok-ne-throw,
  integer, Members, find, ℤ, ◌≤ℤ◌, Bool-cases,
}
use scitokens_cpp.Token
use scitokens_cpp.Token.{DecodedJwt, JwtLibrary, SciTokenKey, is_some, has_payload_claim}

-- What one function signs, the other one accepts.
abbrev pub Verifies : (Str → Result Str) → (Str → Str → Result (Option Str)) → Type 0
Verifies sign verify =
    (text signature : Str) → sign text ≡ ok signature → verify text signature ≡ ok none

-- The key pair of jwt-cpp's two algorithms.
pub record IsPair (lib : JwtLibrary) (key : SciTokenKey) (public : Str) : Type 0 where
  pub rs256 : Verifies (lib.rs256_sign key.m_public key.m_private) (lib.rs256_verify public [])
  pub es256 : Verifies (lib.es256_sign key.m_public key.m_private) (lib.es256_verify public [])

-- The dates of a payload allow the time.
pub record IsCurrent (now : ℤ) (payload : Members) : Type 0 where
  pub iat : ℤ
  pub nbf : ℤ
  pub exp : ℤ
  pub has_iat : find (str "iat") payload ≡ some (integer iat)
  pub has_nbf : find (str "nbf") payload ≡ some (integer nbf)
  pub has_exp : find (str "exp") payload ≡ some (integer exp)
  pub issued : iat ≤ℤ now
  pub begun : nbf ≤ℤ now
  pub not_over : now ≤ℤ exp

-- What jwt-cpp documents of a text that its builder made: it is decoded to the header, to which the
-- builder adds "alg", and to the payload, and the verifier accepts it with a key that accepts what was
-- signed, at a time that the dates allow.
pub record IsJwt (lib : JwtLibrary) (header payload : Members) (name : Str)
    (sign : Str → Result Str) (text : Str) : Type 0 where
  pub jwt : DecodedJwt
  pub decoded : lib.decode text ≡ ok jwt
  pub of_text : jwt.token ≡ text
  pub of_header :
      (claim : Str) → str_eq (str "alg") claim ≡ false → find claim jwt.header ≡ find claim header
  pub of_payload : (claim : Str) → find claim jwt.payload ≡ find claim payload
  pub accepted :
      (verify : Str → Str → Result (Option Str)) (now : ℤ)
      → Verifies sign verify
      → IsCurrent now payload
      → lib.run_verifier name verify now jwt ≡ ok tt

-- `SciTokenKey::verify` with the public key accepts what `SciTokenKey::sign` signs.
pub sign-verify :
    (lib : JwtLibrary) (key : SciTokenKey) (public m_kid : Str)
    → IsPair lib key public
    → Verifies (Token.sign lib key) (
        Token.verify lib
          (record { m_kid = m_kid; m_name = key.m_name; m_public = public; m_private = [] }))
unfolding Token.sign Token.verify
sign-verify lib key public m_kid pair text signature h =
    elim (Bool-cases (str_eq key.m_name (str "RS256"))) [
      | inl rsa ↦ rw rsa (pair.rs256 text signature (rw rsa at h))
      | inr other ↦ elim (Bool-cases (str_eq key.m_name (str "ES256"))) [
        | inl ec ↦ rw (other, ec) (pair.es256 text signature (rw (other, ec) at h))
        | inr neither ↦ absurd (ok-ne-throw (sym (rw (other, neither) at h)))
      ]
    ]
