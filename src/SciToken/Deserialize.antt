-- ===== src/SciToken/Deserialize.antt =====
-- `SciToken::deserialize`, `deserialize_start` and `deserialize_continue` of
-- src/scitokens_internal.cpp.
pub mod Outcome
pub mod Accepts
pub mod Sound
use scitokens_cpp.Prelude.{
  ℕ, Bool, true, false, List, Option, none, some, Str, Result, ok, throw, undefined, ℤ,
}
use scitokens_cpp.Exec.{Exec, pure, lift, gets, call, ◌>>=◌, ◌>>◌}
use scitokens_cpp.Profile.{Profile}
use scitokens_cpp.Scope.{get_profile}
use scitokens_cpp.Token.{DecodedJwt, JwtLibrary}
use scitokens_cpp.Fetch.{Services, Status}
use scitokens_cpp.Validator.{Validator, new_validator}
use scitokens_cpp.Validator.Late.{Running}
use scitokens_cpp.Validator.Verify.{verify, verify_async, verify_async_continue}
use scitokens_cpp.SciToken.{SciToken}

-- The token's validator has no claim validators, so nothing stands behind their pointers.
abbrev pub TokenValidator : Type 0
TokenValidator = Validator (Unit {0})

-- `SciTokenAsyncStatus`
pub record SciTokenAsyncStatus (env : Services) : Type 0 where
  pub m_validator : TokenValidator
  pub m_status : Option (Status env)

-- The validator that a deserialization makes at the time `now`.
unfoldable pub deserialize_validator : ℤ → List Str → Profile → TokenValidator
deserialize_validator now allowed_issuers profile = record (new_validator now) {
  m_allowed_issuers = allowed_issuers;
  m_validate_all_claims = false;
  m_validate_profile = profile;
}

module _ (env : Services) (lib : JwtLibrary) where
  -- What is outside, with the token.
  abbrev pub Held : Type 0
  Held = env.W × SciToken

  abbrev pub set_token : (SciToken → SciToken) → Exec Held (Unit {0})
  set_token f (w, t) = (ok tt, (w, f t))

  abbrev pub time_call : Exec Held ℤ
  time_call (w, t) = (ok (env.time w).0, ((env.time w).1, t))

  abbrev pub beside : {A : Type 0} → Result A → TokenValidator → Result (A × TokenValidator)
  beside (ok a) v = ok (a, v)
  beside (throw e) v = throw e
  beside undefined v = undefined

  -- Runs the validator `v`, and returns it as it is left.
  abbrev pub run_validator :
      {A : Type 0}
      → TokenValidator
      → Exec (Running env.W (Unit {0})) A
      → Exec Held (A × TokenValidator)
  run_validator v m (w, t) =
      let run = m (record { outside = w; validator = v; user = tt }) in
      (beside run.0 run.1.validator, (run.1.outside, t))

  -- `m_claims = m_decoded->get_payload_claims(); m_profile = val.get_profile();`
  unfoldable pub take_claims : DecodedJwt → TokenValidator → Exec Held (Unit {0})
  unfolding get_profile
  take_claims jwt v = do
    set_token (λ t. record t { m_claims = jwt.payload })
    profile ← lift (get_profile v.m_profile)
    set_token (λ t. record t { m_profile = profile })

  -- `fuel` bounds the rounds of the verification's loop; `none` is a loop that is not over by then.
  unfoldable pub deserialize : ℕ → Str → List Str → Exec Held (Option (Unit {0}))
  unfolding take_claims deserialize_validator
  deserialize fuel text allowed_issuers = do
    jwt ← lift (lib.decode text)
    set_token (λ t. record t { m_decoded = some jwt })
    now ← time_call
    profile ← gets (λ h. h.1.m_deserialize_profile)
    done ←
        run_validator (deserialize_validator now allowed_issuers profile)
          (verify env lib (Unit {0}) fuel jwt)
    elim done.0 [ none ↦ pure none | some status ↦ (do take_claims jwt done.1; pure (some tt)) ]

  abbrev the_decoded : Option DecodedJwt → Result DecodedJwt
  the_decoded none = undefined
  the_decoded (some jwt) = ok jwt

  -- The test is whether there is a status, not whether the status is done.
  unfoldable pub deserialize_continue :
      SciTokenAsyncStatus env → Exec Held (SciTokenAsyncStatus env)
  unfolding take_claims
  deserialize_continue status = elim status.m_status [
    | some done ↦ (do
      jwt ← gets (λ h. h.1.m_decoded)
      decoded ← lift (the_decoded jwt)
      take_claims decoded status.m_validator
      pure status)
    | none ↦ lift undefined
  ]

  unfoldable pub deserialize_start : Str → List Str → Exec Held (SciTokenAsyncStatus env)
  unfolding deserialize_continue deserialize_validator
  deserialize_start text allowed_issuers = do
    jwt ← lift (lib.decode text)
    set_token (λ t. record t { m_decoded = some jwt })
    now ← time_call
    profile ← gets (λ h. h.1.m_deserialize_profile)
    started ←
        run_validator (deserialize_validator now allowed_issuers profile)
          (verify_async env lib (Unit {0}) jwt)
    deserialize_continue (record { m_validator = started.1; m_status = some started.0 })
