-- ===== src/Validator/Verify/Sound.antt =====
-- What a successful verification establishes, and a token without a key ID.
use scitokens_cpp.Prelude
use scitokens_cpp.Prelude.{
  ◌≡◌, refl, ap, sym, ◌∙◌, ◌≢◌, ◌⊎◌, inl, inr, Bool, true, false, not, List, Str, str, Result, ok,
  throw, Json, ℤ, All, none, some, Option, find, claim_not_present, str_eq,
}
use scitokens_cpp.Exec.{lift, >>=-eq-ok}
use scitokens_cpp.Fetch.{Services, Status}
use scitokens_cpp.Token
use scitokens_cpp.Token.{
  DecodedJwt, JwtLibrary, members, payload_string, has_payload_claim, header_string,
}
use scitokens_cpp.Validator.Early.Required.{get_key_id_missing}
use scitokens_cpp.Validator.Late.{Running, select_profile, run_claims}
use scitokens_cpp.Validator.Late.Selected.{Selected, select_profile-Selected}
use scitokens_cpp.Validator.Late.Claims.{IsChecked, Stays-Unit, run_claims-IsChecked}
use scitokens_cpp.Validator.Verify.{
  key_of, check_signature, verify_token, check_token, verify_async,
}

module _ (env : Services) (lib : JwtLibrary) (S : Type 0) where
  -- A token is verified: the verifier of jwt-cpp accepts it with the key of the status, for the key's
  -- algorithm and at the validator's time; a profile is chosen for it; every claim passed.
  pub record IsVerified (status : Status env) (r r' : Running env.W S) : Type 0 where
    pub jwt : DecodedJwt
    pub decoded : lib.decode status.m_jwt_string ≡ ok jwt
    pub signed :
        lib.run_verifier status.m_algorithm
          (Token.verify lib (key_of env status))
          r.validator.m_now
          jwt
        ≡ ok tt
    pub must : Bool
    pub chosen : Running env.W S
    pub selected : Selected jwt r chosen must
    pub checked :
        All (IsChecked (λ (user : S). Unit {0}) must chosen.validator) (members jwt.payload)
    pub ran : run_claims must (members jwt.payload) chosen ≡ (ok tt, r')
    pub kept : r'.validator ≡ chosen.validator

  check_signature-eq-ok :
      (status : Status env) (now : ℤ) {jwt : DecodedJwt}
      → check_signature env lib status now ≡ ok jwt
      → (lib.decode status.m_jwt_string ≡ ok jwt)
        × (lib.run_verifier status.m_algorithm (Token.verify lib (key_of env status)) now jwt
            ≡ ok tt)
  unfolding check_signature
  check_signature-eq-ok status now {jwt} h =
      let (found, e, h₁) = Prelude.>>=-eq-ok (lib.decode status.m_jwt_string) _ h in
      let (u, signed, h₂) =
        Prelude.>>=-eq-ok
          (lib.run_verifier status.m_algorithm (Token.verify lib (key_of env status)) now found) _
          h₁ in
      let same : found ≡ jwt = Prelude.ok-injective h₂ in (rw (← same) e, rw (← same) signed)

  -- If the second half of the verification succeeds, jwt-cpp's verifier accepted the token with the
  -- key and the algorithm of the status at the validator's time, a profile was chosen for it, and
  -- every claim of its payload passed.
  pub verify_token-IsVerified :
      (status t : Status env) (r r' : Running env.W S)
      → verify_token env lib S status r ≡ (ok t, r')
      → IsVerified status r r'
  unfolding verify_token
  verify_token-IsVerified status t r r' h =
      let (jwt, e, h₁) =
        >>=-eq-ok (lift (check_signature env lib status r.validator.m_now)) _ r h in
      let (decoded, signed) = check_signature-eq-ok status r.validator.m_now e in
      let (must, e₂, h₂) = >>=-eq-ok (select_profile jwt) _ r h₁ in
      let chosen = (select_profile jwt r).1 in
      let (u, e₃, h₃) = >>=-eq-ok (run_claims must (members jwt.payload)) _ chosen h₂ in
      let ran : run_claims must (members jwt.payload) chosen ≡ (ok tt, r') =
        (λ i. (e₃ i, (h₃ i).1)) in
      let (checked, kept, _) =
        run_claims-IsChecked (λ (user : S). Unit {0}) must (members jwt.payload) chosen r'
          (Stays-Unit chosen.validator.m_claim_validators) tt ran in
      record {
        jwt = jwt;
        decoded = decoded;
        signed = signed;
        must = must;
        chosen = chosen;
        selected = select_profile-Selected jwt r chosen must (λ i. (e₂ i, chosen));
        checked = checked;
        ran = ran;
        kept = kept;
      }

  -- A token that passes the first checks and has no key ID is refused, whatever its key set: the
  -- exception that jwt-cpp throws for the missing ID is not caught.
  pub verify_async_no_kid :
      (jwt : DecodedJwt) (r r₁ : Running env.W S)
      → check_token env lib S jwt r ≡ (ok tt, r₁)
      → find (str "kid") jwt.header ≡ none
      → verify_async env lib S jwt r ≡ (throw claim_not_present, r₁)
  unfolding verify_async
  verify_async_no_kid jwt r r₁ h none_there = rw (h, get_key_id_missing jwt none_there)
