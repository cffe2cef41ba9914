-- ===== src/Tests/Verifying.antt =====
-- Tokens: the checks of the validator, deserialization and claims.
use scitokens_cpp.Prelude.{
  ◌≡◌, refl, ℕ, List, true, false, [], ◌∷◌, none, Str, str, str_eq, All, ok, throw,
  claim_not_present, find, as_string, get_type, pos,
}
use scitokens_cpp.Profile.{compat, scitokens_2_0}
use scitokens_cpp.Fetch.{new_status}
use scitokens_cpp.Token.{members, has_payload_claim, get_payload_claim, payload_string}
use scitokens_cpp.Validator.{new_validator, functions, Validator}
use scitokens_cpp.Validator.Early.{
  check_typ, typed_profile, check_required, mandatory, check_critical, check_issuer,
}
use scitokens_cpp.Validator.Late.{
  Running, select_profile, select_ver, version, choose_ver, run_claims, run_claim, is_unverified,
  run_string_validators, run_claim_validators,
}
use scitokens_cpp.Validator.Late.Selected.{Selected, select_profile-Selected}
use scitokens_cpp.Validator.Late.Claims.{IsChecked, run_claims-IsChecked}
use scitokens_cpp.Validator.Verify.{check_token, check_signature, verify_token, verify_async}
use scitokens_cpp.Validator.Verify.Sound.{IsVerified, verify_token-IsVerified, verify_async_no_kid}
use scitokens_cpp.Tests.Instances.{fresh, token, no_kid_token, payload, jwt_library, running}

abbrev issuers : List Str
issuers = str "https://h/i" ∷ []

abbrev validator : Validator (Unit {0})
validator = record (new_validator (pos 100)) {
  m_allowed_issuers = issuers;
  m_validate_all_claims = false;
}

required : check_required compat issuers (str "ver" ∷ []) token ≡ ok tt
unfolding check_required mandatory check_critical check_issuer has_payload_claim get_payload_claim
    payload_string as_string find str_eq str
required = refl

abbrev before : Running ℕ (Unit {0})
before = running 0 validator

abbrev after : Running ℕ (Unit {0})
after = running 0 (record validator { m_profile = scitokens_2_0 })

selected : select_profile token before ≡ (ok false, after)
unfolding select_profile select_ver version choose_ver has_payload_claim get_payload_claim as_string
    get_type find str_eq str
selected = refl

select_profile-Selected_example : Selected token before after false
select_profile-Selected_example = select_profile-Selected token before after false selected

passed : run_claims false (members payload) after ≡ (ok tt, after)
unfolding run_claims run_claim is_unverified run_string_validators run_claim_validators functions
    members str_eq str
passed = refl

run_claims-IsChecked_example :
    All (IsChecked (λ (user : Unit {0}). Unit {0}) false after.validator) (members payload)
    × (after.validator ≡ after.validator)
    × Unit {0}
run_claims-IsChecked_example =
    run_claims-IsChecked (λ (user : Unit {0}). Unit {0}) false (members payload) after after tt tt
      passed

verified :
    verify_token fresh (jwt_library token) (Unit {0}) new_status before
    ≡ (ok (record new_status { m_done = true }), after)
unfolding verify_token check_signature select_profile select_ver version choose_ver
    has_payload_claim get_payload_claim as_string get_type find run_claims run_claim is_unverified
    run_string_validators run_claim_validators functions members str_eq str
verified = refl

verify_token-IsVerified_example :
    IsVerified fresh (jwt_library token) (Unit {0}) new_status before after
verify_token-IsVerified_example =
    verify_token-IsVerified fresh (jwt_library token) (Unit {0}) new_status
      (record new_status { m_done = true }) before after verified

early : check_token fresh (jwt_library token) (Unit {0}) no_kid_token before ≡ (ok tt, before)
unfolding check_token check_typ typed_profile check_required mandatory check_critical check_issuer
    has_payload_claim get_payload_claim payload_string as_string find str_eq str
early = refl

no_kid : find (str "kid") no_kid_token.header ≡ none
unfolding find
no_kid = refl

verify_async_no_kid_example :
    verify_async fresh (jwt_library token) (Unit {0}) no_kid_token before
    ≡ (throw claim_not_present, before)
verify_async_no_kid_example =
    verify_async_no_kid fresh (jwt_library token) (Unit {0}) no_kid_token before before early no_kid
