-- ===== src/SciToken/Deserialize/Outcome.antt =====
-- What a deserialization leaves in the token.
use scitokens_cpp.Prelude.{◌≡◌, refl, List, some, arith, Str, ok}
use scitokens_cpp.Profile.{at_jwt}
use scitokens_cpp.Scope.{get_profile}
use scitokens_cpp.Token.{DecodedJwt, JwtLibrary}
use scitokens_cpp.Fetch.{Services, Status}
use scitokens_cpp.Validator.Late.{Running}
use scitokens_cpp.Validator.Verify.{verify_async}
use scitokens_cpp.SciToken.{SciToken}
use scitokens_cpp.SciToken.Deserialize.{
  SciTokenAsyncStatus, deserialize_validator, deserialize_continue, deserialize_start,
}

module _ (env : Services) (lib : JwtLibrary) where
  -- Continuing a deserialization never changes its status: a download that is pending stays so.
  pub deserialize_continue-status :
      (status next : SciTokenAsyncStatus env) (h h' : env.W × SciToken)
      → deserialize_continue env lib status h ≡ (ok next, h')
      → (next ≡ status) × (h'.0 ≡ h.0)
  unfolding deserialize_continue
  deserialize_continue-status status next h h' e = ground arith

  -- The state in which the validator of a deserialization starts.
  abbrev pub starting : env.W → List Str → SciToken → Running env.W (Unit {0})
  starting w allowed t = record {
    outside = (env.time w).1;
    validator = deserialize_validator (env.time w).0 allowed t.m_deserialize_profile;
    user = tt;
  }

  -- The token that was given the claims of `jwt` and the profile AT_JWT.
  abbrev pub taken : DecodedJwt → SciToken → SciToken
  taken jwt t = record t { m_decoded = some jwt; m_claims = jwt.payload; m_profile = at_jwt }

  continue_at_jwt :
      (jwt : DecodedJwt) (status : Status env) (r : Running env.W (Unit {0})) (t : SciToken)
      → r.validator.m_profile ≡ at_jwt
      → t.m_decoded ≡ some jwt
      → deserialize_continue env lib
          (record { m_validator = r.validator; m_status = some status })
          (r.outside, t)
        ≡ (
          ok (record { m_validator = r.validator; m_status = some status }),
          (r.outside, taken jwt t),
        )
  unfolding deserialize_continue get_profile
  continue_at_jwt jwt status r t p d = simp (p, d)

  -- If the 'typ' header has set the profile to AT_JWT, starting a deserialization succeeds and gives
  -- the token its claims whatever the status of the verification is, also while the key is still
  -- being downloaded and no signature has been checked.
  pub deserialize_start_unverified :
      (text : Str) (allowed : List Str) (t : SciToken) (w : env.W) (jwt : DecodedJwt)
      (status : Status env) (r : Running env.W (Unit {0}))
      → lib.decode text ≡ ok jwt
      → verify_async env lib (Unit {0}) jwt (starting w allowed t) ≡ (ok status, r)
      → r.validator.m_profile ≡ at_jwt
      → deserialize_start env lib text allowed (w, t) ≡ (
        ok (record { m_validator = r.validator; m_status = some status }),
        (r.outside, taken jwt t),
      )
  unfolding deserialize_start
  deserialize_start_unverified text allowed t w jwt status r d v p =
      rw (d, v) (continue_at_jwt jwt status r (record t { m_decoded = some jwt }) p refl)
