-- ===== src/Validator/Late/Kept.antt =====
-- What the checks behind the signature leave alone: all of the validator but its profile, and what
-- the claim validators leave alone of the state behind their pointers.
use scitokens_cpp.Prelude.{
  ◌≡◌, ap, Bool, true, false, ◌||◌, List, [], ◌∷◌, ◌++◌, none, some, Str, str, str_eq, ok, throw,
  Json, as_string, get_type, is_string_type, jwt_verification, All,
}
use scitokens_cpp.Exec.{lift, gets, ◌>>◌}
use scitokens_cpp.Exec.Keeps.{Keeps, >>=-Keeps, lift-Keeps, gets-Keeps, if-Keeps, if_end}
use scitokens_cpp.Profile.{
  Profile, compat, scitokens_1_0, scitokens_2_0, wlcg_1_0, at_jwt, profile_eq,
}
use scitokens_cpp.Token.{DecodedJwt, has_payload_claim, get_payload_claim}
use scitokens_cpp.Validator.{
  Validator, Verdict, accepted, rejected, StringValidatorFunction, ClaimValidatorFunction,
}
use scitokens_cpp.Validator.Late.{
  Running, set_profile, check, expected, version, choose_ver, select_ver, check_wlcg, select_wlcg,
  select_default, select_profile, verdict_error, run_string_validators, call_validator,
  run_claim_validators, is_timestamp, run_claim, run_claims,
}
use scitokens_cpp.Validator.Late.Claims.{Stays, AllFunctions, functions-All}

-- The part of a validator that is set before a verification: all but the profile.
abbrev pub configuration : {S : Type 0} → Validator S → Validator S
configuration v = record v { m_profile = compat }

module _ {W S : Type 0} (c : Validator S) (Q : S → Type 0)
    (stays : AllFunctions (Stays Q) c.m_claim_validators) where
  pub record IsKept (r : Running W S) : Type 0 where
    pub configured : configuration r.validator ≡ c
    pub behind : Q r.user

  check-Keeps : (test : Bool) (msg : Str) → Keeps IsKept (check {W = W} {S = S} test msg)
  check-Keeps true msg = record { at = λ r h. h }
  check-Keeps false msg = record { at = λ r h. h }

  version-Keeps : (jwt : DecodedJwt) (name : Str) → Keeps IsKept (version jwt name)
  unfolding version
  version-Keeps jwt name = >>=-Keeps (lift (get_payload_claim jwt name)) _ (lift-Keeps _) λ claim.
      >>=-Keeps (lift (get_type claim)) _ (lift-Keeps _)
        λ t. >>=-Keeps (check _ _) _ (check-Keeps _ _) λ u. lift-Keeps (as_string claim)

  expected-Keeps : (p : Profile) (msg : Str) → Keeps IsKept (expected {W = W} {S = S} p msg)
  expected-Keeps p msg = record { at = λ r. (check-Keeps _ msg).at r }

  pub set_profile-Keeps : (p : Profile) → Keeps IsKept (set_profile {W = W} {S = S} p)
  set_profile-Keeps p = record {
    at = λ r h. record { configured = h.configured; behind = h.behind };
  }

  choose_ver-Keeps : (jwt : DecodedJwt) (ver : Str) → Keeps IsKept (choose_ver jwt ver)
  unfolding choose_ver
  choose_ver-Keeps jwt ver =
      if-Keeps (str_eq ver (str "scitokens:2.0") || str_eq ver (str "scitoken:2.0")) _ _
        (>>=-Keeps
          (expected scitokens_2_0 (str "Invalidate token type; not expecting a SciToken 2.0.")) _
          (expected-Keeps _ _)
          λ u. >>=-Keeps (set_profile scitokens_2_0) _ (set_profile-Keeps _) λ u.
            >>=-Keeps
              (check (has_payload_claim jwt (str "aud"))
                (str "'aud' claim required for SciTokens 2.0 profile"))
              _ (check-Keeps _ _) λ u. lift-Keeps (ok false))
        (if-Keeps (str_eq ver (str "scitokens:1.0")) _ _
          (>>=-Keeps (gets (λ r. r.validator.m_validate_all_claims)) _ (gets-Keeps _) λ must.
            >>=-Keeps
              (expected scitokens_1_0 (str "Invalidate token type; not expecting a SciToken 1.0."))
              _ (expected-Keeps _ _)
              λ u.
                >>=-Keeps (set_profile scitokens_1_0) _ (set_profile-Keeps _)
                  λ u. lift-Keeps (ok must))
          (lift-Keeps (throw (jwt_verification (str "Unknown profile version in token: " ++ ver)))))

  check_wlcg-Keeps : (jwt : DecodedJwt) (ver : Str) → Keeps IsKept (check_wlcg jwt ver)
  unfolding check_wlcg
  check_wlcg-Keeps jwt ver = >>=-Keeps (check (str_eq ver (str "1.0")) _) _ (check-Keeps _ _) λ u.
      >>=-Keeps (check (has_payload_claim jwt (str "aud")) _) _ (check-Keeps _ _) λ u. lift-Keeps _

  select_ver-Keeps : (jwt : DecodedJwt) → Keeps IsKept (select_ver jwt)
  unfolding select_ver
  select_ver-Keeps jwt =
      >>=-Keeps (version jwt (str "ver")) _ (version-Keeps jwt _) λ ver. choose_ver-Keeps jwt ver

  select_wlcg-Keeps : (jwt : DecodedJwt) → Keeps IsKept (select_wlcg jwt)
  unfolding select_wlcg
  select_wlcg-Keeps jwt = >>=-Keeps (expected wlcg_1_0 _) _ (expected-Keeps _ _) λ u.
      >>=-Keeps (set_profile wlcg_1_0) _ (set_profile-Keeps _) λ u.
        >>=-Keeps (version jwt (str "wlcg.ver")) _ (version-Keeps jwt _)
          λ ver. check_wlcg-Keeps jwt ver

  select_default-Keeps : Keeps IsKept select_default
  unfolding select_default
  select_default-Keeps = >>=-Keeps (expected scitokens_1_0 _) _ (expected-Keeps _ _) λ u.
      >>=-Keeps (set_profile scitokens_1_0) _ (set_profile-Keeps _)
        λ u. gets-Keeps (λ r. r.validator.m_validate_all_claims)

  pub select_profile-Keeps : (jwt : DecodedJwt) → Keeps IsKept (select_profile jwt)
  unfolding select_profile
  select_profile-Keeps jwt = record {
    at = λ r h.
        if_end IsKept (has_payload_claim jwt (str "ver")) _ _ ((select_ver-Keeps jwt).at r h) (
          if_end IsKept (has_payload_claim jwt (str "wlcg.ver")) _ _
            ((select_wlcg-Keeps jwt).at r h)
            (if_end IsKept (profile_eq r.validator.m_profile at_jwt) _ _ h
              (select_default-Keeps.at r h)));
  }

  verdict_error-Keeps :
      (key : Str) (answer : Verdict) → Keeps IsKept (verdict_error {W = W} {S = S} key answer)
  verdict_error-Keeps key accepted = lift-Keeps _
  verdict_error-Keeps key (rejected none) = lift-Keeps _
  verdict_error-Keeps key (rejected (some msg)) = lift-Keeps _

  run_string_validators-Keeps :
      (key : Str) (claim : Json) (fs : List StringValidatorFunction)
      → Keeps IsKept (run_string_validators key claim fs)
  unfolding run_string_validators
  run_string_validators-Keeps key claim [] = lift-Keeps _
  run_string_validators-Keeps key claim (f ∷ fs) =
      >>=-Keeps (lift (get_type claim)) _ (lift-Keeps _) λ t.
        >>=-Keeps (check (is_string_type t) _) _ (check-Keeps _ _) λ u.
          >>=-Keeps (lift (as_string claim)) _ (lift-Keeps _) λ value.
            >>=-Keeps (verdict_error key (f value)) _ (verdict_error-Keeps key _)
              λ u. run_string_validators-Keeps key claim fs

  call_validator-Keeps :
      (f : ClaimValidatorFunction S) (claim : Json)
      → Stays Q f
      → Keeps IsKept (call_validator {W = W} f claim)
  call_validator-Keeps f claim stay = record {
    at = λ r h. record {
      configured = h.configured;
      behind = stay r.validator.m_profile claim r.user h.behind;
    };
  }

  run_claim_validators-Keeps :
      (key : Str) (claim : Json) (fs : List (ClaimValidatorFunction S))
      → All (Stays Q) fs
      → Keeps IsKept (run_claim_validators key claim fs)
  unfolding run_claim_validators
  run_claim_validators-Keeps key claim [] stay = lift-Keeps _
  run_claim_validators-Keeps key claim (f ∷ fs) stay =
      >>=-Keeps (call_validator f claim) _ (call_validator-Keeps f claim stay.0) λ answer.
        >>=-Keeps (check answer _) _ (check-Keeps _ _)
          λ u. run_claim_validators-Keeps key claim fs stay.1

  registered : (r : Running W S) → IsKept r → AllFunctions (Stays Q) r.validator.m_claim_validators
  registered r h = rw (ap (λ (v : Validator S). v.m_claim_validators) h.configured) stays

  run_registered-Keeps :
      (test : Bool) (msg key : Str) (claim : Json) (fs : List StringValidatorFunction)
      (gs : List (ClaimValidatorFunction S))
      → All (Stays Q) gs
      → Keeps IsKept (
          check test msg
          >> (run_string_validators key claim fs >> run_claim_validators key claim gs))
  run_registered-Keeps test msg key claim fs gs stay =
      >>=-Keeps (check test msg) _ (check-Keeps _ _) λ u.
        >>=-Keeps (run_string_validators key claim fs) _ (run_string_validators-Keeps key claim fs)
          λ u. run_claim_validators-Keeps key claim gs stay

  run_claim-Keeps :
      (must : Bool) (key : Str) (claim : Json) → Keeps IsKept (run_claim must key claim)
  unfolding run_claim
  run_claim-Keeps must key claim = record {
    at = λ r h. if_end IsKept (is_timestamp key) _ _ h (
        (run_registered-Keeps _ _ key claim _ _
            (functions-All (Stays Q) key r.validator.m_claim_validators (registered r h))).at
          r h);
  }

  pub run_claims-Keeps :
      (must : Bool) (claims : List (Str × Json)) → Keeps IsKept (run_claims must claims)
  unfolding run_claims
  run_claims-Keeps must [] = lift-Keeps _
  run_claims-Keeps must ((key, claim) ∷ rest) =
      >>=-Keeps (run_claim must key claim) _ (run_claim-Keeps must key claim)
        λ u. run_claims-Keeps must rest
