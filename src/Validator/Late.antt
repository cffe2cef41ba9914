-- ===== src/Validator/Late.antt =====
-- The checks of `Validator::verify_async_continue` (src/scitokens_internal.h) behind the signature:
-- the choice of the profile, and the claims.
pub mod Selected
pub mod Claims
pub mod Kept
use scitokens_cpp.Prelude.{
  Bool, true, false, not, ◌&&◌, ◌||◌, List, [], ◌∷◌, ◌++◌, Option, none, some, Str, str, str_eq,
  Result, ok, throw, jwt_verification, is_empty, any, if◌then◌else◌, Json, as_string, get_type,
  is_string_type,
}
use scitokens_cpp.Exec.{Exec, pure, fail, lift, gets, ◌>>=◌, ◌>>◌}
use scitokens_cpp.Profile.{
  Profile, compat, scitokens_1_0, scitokens_2_0, wlcg_1_0, at_jwt, profile_eq,
}
use scitokens_cpp.Token.{DecodedJwt, has_payload_claim, get_payload_claim, members}
use scitokens_cpp.Validator.{
  Validator, Verdict, accepted, rejected, StringValidatorFunction, ClaimValidatorFunction,
  functions,
}

-- A validator at work: the state outside, the validator itself, and the state behind the pointers of
-- its claim validators.
pub record Running (W S : Type 0) : Type 0 where
  pub outside : W
  pub validator : Validator S
  pub user : S

abbrev pub is_timestamp : Str → Bool
is_timestamp key =
    str_eq key (str "iat")
    || str_eq key (str "nbf")
    || str_eq key (str "exp")
    || str_eq key (str "ver")

module _ {S : Type 0} where
  -- Whether a claim without validators is an error.
  unfoldable pub is_unverified : Bool → Str → Validator S → Bool
  is_unverified must_verify_everything key v =
      is_empty (functions key v.m_validators)
      && is_empty (functions key v.m_claim_validators)
      && not (str_eq key (str "iss") && not (is_empty v.m_allowed_issuers))
      && must_verify_everything

module _ {W S : Type 0} where
  abbrev pub set_profile : Profile → Exec (Running W S) (Unit {0})
  set_profile profile r =
      (ok tt, record r { validator = record r.validator { m_profile = profile } })

  abbrev pub failed : Str → Exec (Running W S) (Unit {0})
  failed msg = fail (jwt_verification msg)

  abbrev pub check : Bool → Str → Exec (Running W S) (Unit {0})
  check test msg = if test then pure tt else failed msg

  -- `m_validate_profile` is COMPAT or `profile`; otherwise the token is not expected.
  abbrev pub expected : Profile → Str → Exec (Running W S) (Unit {0})
  expected profile msg r =
      check
        (profile_eq r.validator.m_validate_profile compat
          || profile_eq r.validator.m_validate_profile profile)
        msg r

  -- The value of a version claim.
  unfoldable pub version : DecodedJwt → Str → Exec (Running W S) Str
  version jwt name = do
    claim ← lift (get_payload_claim jwt name)
    t ← lift (get_type claim)
    check (is_string_type t) (str "'ver' claim value must be a string (if present)")
    lift (as_string claim)

  -- What the value of "ver" selects.
  unfoldable pub choose_ver : DecodedJwt → Str → Exec (Running W S) Bool
  choose_ver jwt ver_string =
      if str_eq ver_string (str "scitokens:2.0") || str_eq ver_string (str "scitoken:2.0")
      then (do
        expected scitokens_2_0 (str "Invalidate token type; not expecting a SciToken 2.0.")
        set_profile scitokens_2_0
        check (has_payload_claim jwt (str "aud"))
            (str "'aud' claim required for SciTokens 2.0 profile")
        pure false)
      else if str_eq ver_string (str "scitokens:1.0")
      then (do
        must_verify_everything ← gets (λ r. r.validator.m_validate_all_claims)
        expected scitokens_1_0 (str "Invalidate token type; not expecting a SciToken 1.0.")
        set_profile scitokens_1_0
        pure must_verify_everything)
      else fail (jwt_verification (str "Unknown profile version in token: " ++ ver_string))

  -- The branch of a token with "ver".
  unfoldable pub select_ver : DecodedJwt → Exec (Running W S) Bool
  unfolding version choose_ver
  select_ver jwt = do ver_string ← version jwt (str "ver"); choose_ver jwt ver_string

  -- What the value of "wlcg.ver" must be.
  unfoldable pub check_wlcg : DecodedJwt → Str → Exec (Running W S) Bool
  check_wlcg jwt ver_string = do
    check (str_eq ver_string (str "1.0"))
        (str "Unknown WLCG profile version in token: " ++ ver_string)
    check (has_payload_claim jwt (str "aud"))
        (str "Malformed token: 'aud' claim required for WLCG profile")
    pure false

  -- The branch of a token with "wlcg.ver" and without "ver".
  unfoldable pub select_wlcg : DecodedJwt → Exec (Running W S) Bool
  unfolding version check_wlcg
  select_wlcg jwt = do
    expected wlcg_1_0 (str "Invalidate token type; not expecting a WLCG 1.0.")
    set_profile wlcg_1_0
    ver_string ← version jwt (str "wlcg.ver")
    check_wlcg jwt ver_string

  -- The branch of a token without either.
  unfoldable pub select_default : Exec (Running W S) Bool
  select_default = do
    expected scitokens_1_0 (str "Invalidate token type; not expecting a SciToken 1.0.")
    set_profile scitokens_1_0
    gets (λ r. r.validator.m_validate_all_claims)

  -- Sets `m_profile`, and answers `must_verify_everything`.
  unfoldable pub select_profile : DecodedJwt → Exec (Running W S) Bool
  unfolding select_ver select_wlcg select_default
  select_profile jwt r =
      if has_payload_claim jwt (str "ver")
      then select_ver jwt r
      else if has_payload_claim jwt (str "wlcg.ver")
      then select_wlcg jwt r
      else if profile_eq r.validator.m_profile at_jwt
      then (ok false, r)
      else select_default r

  abbrev pub verdict_error : Str → Verdict → Exec (Running W S) (Unit {0})
  verdict_error key accepted = pure tt
  verdict_error key (rejected none) = failed (str "'" ++ key ++ str "' claim verification failed.")
  verdict_error key (rejected (some err_msg)) = failed err_msg

  -- The loop over the string validators of a claim.
  unfoldable pub run_string_validators :
      Str → Json → List StringValidatorFunction → Exec (Running W S) (Unit {0})
  run_string_validators key claim [] = pure tt
  run_string_validators key claim (f ∷ fs) = do
    t ← lift (get_type claim)
    check (is_string_type t) (str "'" ++ key ++ str "' claim value must be a string to verify.")
    value ← lift (as_string claim)
    verdict_error key (f value)
    run_string_validators key claim fs

  -- A call of a claim validator.
  abbrev pub call_validator : ClaimValidatorFunction S → Json → Exec (Running W S) Bool
  call_validator f claim r =
      let (answer, user) = f r.validator.m_profile claim r.user in
      (answer, record r { user = user })

  -- The loop over the claim validators of a claim.
  unfoldable pub run_claim_validators :
      Str → Json → List (ClaimValidatorFunction S) → Exec (Running W S) (Unit {0})
  run_claim_validators key claim [] = pure tt
  run_claim_validators key claim (f ∷ fs) = do
    answer ← call_validator f claim
    check answer (str "'" ++ key ++ str "' claim verification failed.")
    run_claim_validators key claim fs

  -- The body of the loop over the claims.
  unfoldable pub run_claim : Bool → Str → Json → Exec (Running W S) (Unit {0})
  unfolding is_unverified run_string_validators run_claim_validators
  run_claim must_verify_everything key claim r =
      if is_timestamp key
      then (ok tt, r)
      else (do
        check (not (is_unverified must_verify_everything key r.validator))
            (str "'" ++ key ++ str "' claim verification is mandatory")
        run_string_validators key claim (functions key r.validator.m_validators)
        run_claim_validators key claim (functions key r.validator.m_claim_validators))
          r

  unfoldable pub run_claims : Bool → List (Str × Json) → Exec (Running W S) (Unit {0})
  unfolding run_claim
  run_claims must_verify_everything [] = pure tt
  run_claims must_verify_everything ((key, claim) ∷ rest) = do
    run_claim must_verify_everything key claim
    run_claims must_verify_everything rest
