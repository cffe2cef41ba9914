-- ===== src/SciToken/Deserialize/Accepts.antt =====
-- Which tokens a deserialization accepts, and what it makes of them.
use scitokens_cpp.Prelude.{◌≡◌, refl, ℕ, true, List, some, Str, ok}
use scitokens_cpp.Profile.{Profile, compat, scitokens_1_0, scitokens_2_0, wlcg_1_0, at_jwt}
use scitokens_cpp.Keys.{PublicKey}
use scitokens_cpp.Scope.{get_profile}
use scitokens_cpp.Fetch.{Services, Status, get_public_key_pem}
use scitokens_cpp.Token.{DecodedJwt, JwtLibrary}
use scitokens_cpp.Validator.Verify.Accepts.{produced, IsComplete, Expects, Allows}
use scitokens_cpp.Validator.Verify.Accepted.{Signed, verify-accepts}
use scitokens_cpp.SciToken.{SciToken}
use scitokens_cpp.SciToken.Deserialize.{deserialize_validator, take_claims, deserialize}

get_profile-produced : (profile : Profile) → get_profile (produced profile) ≡ ok (produced profile)
unfolding get_profile
get_profile-produced compat = refl
get_profile-produced scitokens_1_0 = refl
get_profile-produced scitokens_2_0 = refl
get_profile-produced wlcg_1_0 = refl
get_profile-produced at_jwt = refl

-- The text of a token that is complete for a profile is deserialized, if the mode expects that profile,
-- the issuer is allowed, the key that is at hand is one with which jwt-cpp's verifier accepts the
-- token at the present time, and the text is decoded to that token: the result has its claims and its
-- profile, however few rounds the fuel allows.
pub deserialize-accepts :
    (env : Services) (lib : JwtLibrary) (profile : Profile) (issuer kid : Str) (jwt : DecodedJwt)
    (allowed : List Str) (fuel : ℕ) (t : SciToken) (w w₂ : env.W) (status : Status env)
    (key : PublicKey)
    → lib.decode jwt.token ≡ ok jwt
    → IsComplete profile issuer kid jwt
    → Expects t.m_deserialize_profile profile
    → Allows allowed issuer
    → get_public_key_pem env issuer kid (env.time w).1 ≡ (ok (status, key), w₂)
    → status.m_done ≡ true
    → Signed lib jwt (env.time w).0 status.m_kid key
    → deserialize env lib fuel jwt.token allowed (w, t) ≡ (
      ok (some tt),
      (w₂, record t { m_decoded = some jwt; m_claims = jwt.payload; m_profile = produced profile }),
    )
unfolding deserialize deserialize_validator take_claims
deserialize-accepts env lib profile issuer kid jwt allowed fuel t w w₂ status key decoded complete
      expects allows found over signed =
    rw (
      decoded,
      verify-accepts env lib profile issuer kid jwt (env.time w).0 allowed t.m_deserialize_profile
          decoded complete expects allows (env.time w).1 w₂ status key found over signed fuel,
      get_profile-produced profile,
    )
