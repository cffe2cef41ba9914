-- ===== src/Validator/Verify/Accepted.antt =====
-- Whole verifications that are accepted: of a token that is complete, by a new validator, and of a
-- token by a validator that has verified another one.
use scitokens_cpp.Prelude.{◌≡◌, ℕ, zero, suc, true, find, string, List, [], some, Str, str, ok, ℤ}
use scitokens_cpp.Profile.{Profile, compat}
use scitokens_cpp.Keys.{PublicKey}
use scitokens_cpp.Validator.Early.{check_typ, check_required}
use scitokens_cpp.Fetch.{Services, Status, new_status, get_public_key_pem}
use scitokens_cpp.Token
use scitokens_cpp.Token.{DecodedJwt, JwtLibrary, payload_string, members}
use scitokens_cpp.Validator.Verify.{
  with_key, check_signature, verify_token, verify_async_continue, check_token, verify_async,
  verify_loop, verify,
}
use scitokens_cpp.Validator.Verify.Accepts.{
  produced, early, IsComplete, Expects, Allows, plain, check_typ-accepts, check_required-accepts,
  get_key_id-accepts, HasVersion, payload_string-accepts, select_profile-accepts,
  run_claims-accepts,
}

-- jwt-cpp's verifier accepts a token with a key, as `SciTokenKey::verify` calls it, at a time.
abbrev pub Signed : JwtLibrary → DecodedJwt → ℤ → Str → PublicKey → Type 0
Signed lib jwt now m_kid key =
    lib.run_verifier key.algorithm
      (Token.verify lib (record {
        m_kid = m_kid;
        m_name = key.algorithm;
        m_public = key.public_pem;
        m_private = [];
      }))
      now jwt
    ≡ ok tt

module _ (env : Services) (lib : JwtLibrary) (now : ℤ) (allowed : List Str) (mode : Profile) where
  -- A verification from a validator whose profile is `start`, of a token that passes the first checks
  -- and has the claims of the version of `profile`.
  module _ (start profile : Profile) (issuer kid : Str) (jwt : DecodedJwt)
      (decoded : lib.decode jwt.token ≡ ok jwt)
      (typ : check_typ mode start jwt ≡ ok (early profile))
      (required : check_required (early profile) allowed [] jwt ≡ ok tt)
      (key_id : find (str "kid") jwt.header ≡ some (string kid))
      (iss : find (str "iss") jwt.payload ≡ some (string issuer)) (version : HasVersion profile jwt)
      (expects : Expects mode profile) (w w₂ : env.W) (status : Status env) (key : PublicKey)
      (found : get_public_key_pem env issuer kid w ≡ (ok (status, key), w₂))
      (over : status.m_done ≡ true) (signed : Signed lib jwt now status.m_kid key) where
    check_token-passes :
        check_token env lib (Unit {0}) jwt (plain w now allowed mode start)
        ≡ (ok tt, plain w now allowed mode (early profile))
    unfolding check_token
    check_token-passes = rw (typ, required)

    verify_token-passes :
        verify_token env lib
          (Unit {0})
          (record (with_key env status key) { m_jwt_string = jwt.token })
          (plain w₂ now allowed mode (early profile))
        ≡ (ok (record new_status { m_done = true }), plain w₂ now allowed mode (produced profile))
    unfolding verify_token check_signature
    verify_token-passes = rw (
      decoded,
      signed,
      select_profile-accepts w₂ now allowed mode profile jwt expects version,
      run_claims-accepts w₂ now allowed mode (produced profile) (members jwt.payload),
    )

    verify_async-passes :
        verify_async env lib (Unit {0}) jwt (plain w now allowed mode start)
        ≡ (ok (record new_status { m_done = true }), plain w₂ now allowed mode (produced profile))
    unfolding verify_async verify_async_continue
    verify_async-passes = rw (
      check_token-passes,
      get_key_id-accepts jwt key_id,
      payload_string-accepts jwt (str "iss") iss,
      found,
      over,
      verify_token-passes,
    )

    verify-passes :
        (fuel : ℕ)
        → verify env lib (Unit {0}) fuel jwt (plain w now allowed mode start) ≡ (
          ok (some (record new_status { m_done = true })),
          plain w₂ now allowed mode (produced profile),
        )
    unfolding verify verify_loop
    verify-passes zero = rw verify_async-passes
    verify-passes (suc fuel) = rw verify_async-passes

-- A new validator accepts a token that is complete for a profile.
pub verify-accepts :
    (env : Services) (lib : JwtLibrary) (profile : Profile) (issuer kid : Str) (jwt : DecodedJwt)
    (now : ℤ) (allowed : List Str) (mode : Profile)
    → lib.decode jwt.token ≡ ok jwt
    → IsComplete profile issuer kid jwt
    → Expects mode profile
    → Allows allowed issuer
    → (w w₂ : env.W) (status : Status env) (key : PublicKey)
    → get_public_key_pem env issuer kid w ≡ (ok (status, key), w₂)
    → status.m_done ≡ true
    → Signed lib jwt now status.m_kid key
    → (fuel : ℕ)
    → verify env lib (Unit {0}) fuel jwt (plain w now allowed mode compat) ≡ (
      ok (some (record new_status { m_done = true })),
      plain w₂ now allowed mode (produced profile),
    )
verify-accepts env lib profile issuer kid jwt now allowed mode decoded complete expects allows w w₂
      status key found over signed fuel =
    verify-passes env lib now allowed mode compat profile issuer kid jwt decoded
      (check_typ-accepts mode profile jwt expects complete.typ)
      (check_required-accepts profile profile issuer kid allowed jwt complete allows)
      complete.key_id complete.iss complete.version expects w w₂ status key found over signed fuel
