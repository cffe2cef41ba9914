-- ===== src/Validator/Verify.antt =====
-- `Validator::verify_async`, `verify_async_continue` and `verify` of src/scitokens_internal.h.
pub mod Sound
pub mod Rounds
pub mod Runs
pub mod Ends
pub mod Kept
pub mod Accepts
pub mod Accepted
use scitokens_cpp.Prelude
use scitokens_cpp.Prelude.{
  [], ℕ, zero, suc, Bool, true, false, not, Option, none, some, Str, str, str_eq, Result, ok, throw,
  undefined, curl, jwt_verification, if◌then◌else◌, ℤ, ltb_ℤ,
}
use scitokens_cpp.Exec.{Exec, pure, fail, lift, gets, call, ◌>>=◌, ◌>>◌, continue}
use scitokens_cpp.Profile.{Profile}
use scitokens_cpp.Keys.{PublicKey}
use scitokens_cpp.Fetch.{
  Services, AsyncStatus, new_status, Status, get_public_key_pem, get_public_key_pem_continue,
}
use scitokens_cpp.Token
use scitokens_cpp.Token.{DecodedJwt, JwtLibrary, SciTokenKey, payload_string, members}
use scitokens_cpp.Validator.{Validator}
use scitokens_cpp.Validator.Early.{check_typ, check_required, get_key_id}
use scitokens_cpp.Validator.Late.{Running, set_profile, select_profile, run_claims}

abbrev pub decoded_or_throw : Option DecodedJwt → Result DecodedJwt
decoded_or_throw none = throw (jwt_verification (str "Token is not deserialized from string."))
decoded_or_throw (some jwt) = ok jwt

-- A call of a static function, which reads and writes what is outside.
abbrev pub on_outside : {W S A : Type 0} → Exec W A → Exec (Running W S) A
on_outside m r = ((m r.outside).0, record r { outside = (m r.outside).1 })

module _ (env : Services) where
  abbrev pub with_key : Status env → PublicKey → Status env
  with_key status key = record status { m_public_pem = key.public_pem; m_algorithm = key.algorithm }

  -- `SciTokenKey key(status->m_kid, status->m_algorithm, status->m_public_pem, "")`
  abbrev pub key_of : Status env → SciTokenKey
  key_of status = record {
    m_kid = status.m_kid;
    m_name = status.m_algorithm;
    m_public = status.m_public_pem;
    m_private = [];
  }

  -- The decoded token, if the verifier accepts it with the key of the status at the time `now`.
  unfoldable pub check_signature : JwtLibrary → Status env → ℤ → Result DecodedJwt
  check_signature lib status now = Prelude.◌>>=◌ (lib.decode status.m_jwt_string) λ jwt.
      Prelude.◌>>=◌ (lib.run_verifier status.m_algorithm (Token.verify lib (key_of status)) now jwt)
        (λ _. ok jwt)

-- The verification, over the retrieval of keys and jwt-cpp.
module _ (env : Services) (lib : JwtLibrary) (S : Type 0) where
  abbrev pub Run : Type 0
  Run = Running env.W S

  -- The part of `verify_async_continue` that follows the retrieval of the key.
  unfoldable pub verify_token : Status env → Exec Run (Status env)
  unfolding check_signature
  verify_token status = do
    now ← gets (λ r. r.validator.m_now)
    jwt ← lift (check_signature env lib status now)
    must_verify_everything ← select_profile jwt
    run_claims must_verify_everything (members jwt.payload)
    pure (record new_status { m_done = true })

  unfoldable pub verify_async_continue : Status env → Exec Run (Status env)
  unfolding verify_token
  verify_async_continue status =
      if not status.m_done
      then (do
        got ← on_outside (get_public_key_pem_continue env status)
        let next = with_key env got.0 got.1
        if not next.m_done then pure next else verify_token next)
      else verify_token status

  -- The first half of `verify_async`: the checks that need no key.
  unfoldable pub check_token : DecodedJwt → Exec Run (Unit {0})
  check_token jwt = do
    v ← gets (λ r. r.validator)
    profile ← lift (check_typ v.m_validate_profile v.m_profile jwt)
    set_profile profile
    lift (check_required profile v.m_allowed_issuers v.m_critical_claims jwt)

  unfoldable pub verify_async : DecodedJwt → Exec Run (Status env)
  unfolding check_token verify_async_continue
  verify_async jwt = do
    check_token jwt
    key_id ← lift (get_key_id jwt)
    issuer ← lift (payload_string jwt (str "iss"))
    got ← on_outside (get_public_key_pem env issuer key_id)
    verify_async_continue (record (with_key env got.0 got.1) { m_jwt_string = jwt.token })

  -- `while (!result->m_done)`: `fuel` bounds the rounds, and `none` is a loop that is not over.
  unfoldable pub verify_loop : ℕ → Status env → Exec Run (Option (Status env))
  unfolding verify_async_continue
  verify_loop zero status = pure (if status.m_done then some status else none)
  verify_loop (suc fuel) status =
      if status.m_done
      then pure (some status)
      else (do next ← verify_async_continue status; verify_loop fuel next)

  -- `verify(const decoded_jwt &)`
  unfoldable pub verify : ℕ → DecodedJwt → Exec Run (Option (Status env))
  unfolding verify_async verify_loop
  verify fuel jwt = do status ← verify_async jwt; verify_loop fuel status

  -- The loop of `verify(const SciToken &, time_t)`; `select` only waits.
  unfoldable pub verify_until : ℕ → ℤ → Status env → Exec Run (Option (Status env))
  unfolding verify_async_continue
  verify_until zero expiry_time status = pure (if status.m_done then some status else none)
  verify_until (suc fuel) expiry_time status = if status.m_done then pure (some status) else (do
    now ← on_outside (call env.time)
    if not (ltb_ℤ now expiry_time)
        then fail (curl (str "Timeout when loading the OIDC metadata."))
        else (do next ← verify_async_continue status; verify_until fuel expiry_time next))

  -- `verify(const SciToken &, time_t)`, given the token's `m_decoded`.
  unfoldable pub verify_scitoken : ℕ → Option DecodedJwt → ℤ → Exec Run (Option (Status env))
  unfolding verify_async verify_until
  verify_scitoken fuel m_decoded expiry_time = do
    jwt ← lift (decoded_or_throw m_decoded)
    status ← verify_async jwt
    verify_until fuel expiry_time status
