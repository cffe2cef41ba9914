-- ===== src/Tests/Authorizing.antt =====
-- A text that is read, and then tested by an enforcer.
use scitokens_cpp.Prelude.{
  ◌≡◌, refl, [], ◌∷◌, Str, str, str_eq, until, from, skip, has_prefix, find, find_string, items,
  of_items, as_string, get_type, ◌+ℤ◌, pos, ok, missing_issuer, throw, ok-injective, ok-ne-throw,
  ap, sym, ◌∙◌, inl, inr, Bool-cases, str_eq_iff, if◌then◌else◌, some, true,
}
use scitokens_cpp.Split.{split, tokens, join}
use scitokens_cpp.Path.{
  pop_back, filter_component, filter_components, render, normalize_absolute_path,
}
use scitokens_cpp.Keys.{
  public_key, supported_key, key_pem, key_algorithm, algorithm_of_type, find_key_id, find_kid,
  has_kid,
}
use scitokens_cpp.Scope.{
  scope_validator, scope_loop, scope_step, scope_end, authorize, translate, is_translated,
  get_profile, raw_path, acls_of, matches, EnforcerState,
}
use scitokens_cpp.Fetch.{get_public_key_pem, find_keys, get_public_key_pem_continue, finish_key}
use scitokens_cpp.Token.{
  members, has_payload_claim, get_payload_claim, header_string, payload_string, DecodedJwt,
  JwtLibrary,
}
use scitokens_cpp.Validator.{functions, add_function}
use scitokens_cpp.Validator.Early.{
  check_typ, typed_profile, check_required, check_critical, check_issuer, get_key_id,
}
use scitokens_cpp.Validator.Late.{
  select_profile, select_ver, version, choose_ver, run_claims, run_claim, is_unverified,
  run_string_validators, run_claim_validators,
}
use scitokens_cpp.Validator.Verify.{
  check_token, check_signature, verify_token, verify_async, verify_async_continue, verify_until,
  verify_scitoken, verify, verify_loop,
}
use scitokens_cpp.Enforcer.{
  new_enforcer_validator, reset_state, all_validator, str_validator, aud_validator, claim_audiences,
  get_strings, match_audience, test,
}
use scitokens_cpp.Tests.Instances.{fresh}
use scitokens_cpp.SciToken.Deserialize.{deserialize, deserialize_validator, take_claims}
use scitokens_cpp.Api.Serialized.{scitoken_deserialize, scitoken_deserialize_v2, no_signing_key}
use scitokens_cpp.Api.Trust.{enforcer_test}
use mathlib.Core.Path.{subst}
use scitokens_cpp.SciToken.Maps.{IsMap}
use scitokens_cpp.Tests.Enforcing.{scoped-IsMap, lib, scoped, auds, before, tested, asks}
use scitokens_cpp.Profile.{scitokens_2_0, compat}
use scitokens_cpp.SciToken.{SciToken, new_scitoken}
use scitokens_cpp.SciToken.Deserialize.Sound.{IsRead, deserialize-IsRead}
use scitokens_cpp.Validator.Verify.Rounds.{WasVerified}
use scitokens_cpp.Enforcer.Life.{created}
use scitokens_cpp.Enforcer.Authorized.{IsAuthorized}
use scitokens_cpp.Api.{success}
use scitokens_cpp.Api.Trust.Authorized.{enforcer_test-scitoken_deserialize}

-- jwt-cpp decodes one text.
abbrev pub strict : JwtLibrary
strict = record lib {
  decode = λ text. if str_eq (str "a.b.c") text then ok scoped else throw missing_issuer;
}

pub strict-token : (x : Str) (jwt : DecodedJwt) → strict.decode x ≡ ok jwt → jwt.token ≡ x
strict-token x jwt h = elim (Bool-cases (str_eq (str "a.b.c") x)) [
  | inl same ↦
      ap (λ (j : DecodedJwt). j.token) (sym (ok-injective (rw same at h)))
      ∙ (str_eq_iff (str "a.b.c") x).0 same
  | inr other ↦ absurd (ok-ne-throw (sym (rw other at h)))
]

pub strict-IsMap : (x : Str) (jwt : DecodedJwt) → strict.decode x ≡ ok jwt → IsMap jwt.payload
strict-IsMap x jwt h = elim (Bool-cases (str_eq (str "a.b.c") x)) [
  | inl same ↦
      subst (λ (j : DecodedJwt). IsMap j.payload) (ok-injective (rw same at h)) scoped-IsMap
  | inr other ↦ absurd (ok-ne-throw (sym (rw other at h)))
]

abbrev read_token : SciToken
read_token = record (new_scitoken no_signing_key) {
  m_decoded = some scoped;
  m_claims = scoped.payload;
  m_profile = scitokens_2_0;
}

a_reading :
    deserialize fresh strict 0
      (str "a.b.c")
      (str "https://h/i" ∷ [])
      (0, new_scitoken no_signing_key)
    ≡ (ok (some tt), (2, read_token))
unfolding scitoken_deserialize scitoken_deserialize_v2 deserialize deserialize_validator take_claims
    verify verify_loop enforcer_test test verify_scitoken verify_until ◌+ℤ◌ reset_state verify_async
    check_token check_typ typed_profile check_required check_critical check_issuer get_key_id
    verify_async_continue verify_token check_signature get_public_key_pem find_keys
    get_public_key_pem_continue finish_key public_key supported_key key_pem key_algorithm
    algorithm_of_type find_key_id find_kid has_kid find_string items of_items select_profile
    select_ver version choose_ver has_payload_claim get_payload_claim header_string payload_string
    as_string get_type find run_claims run_claim is_unverified run_string_validators
    run_claim_validators functions members str_eq str new_enforcer_validator add_function
    all_validator str_validator aud_validator claim_audiences get_strings match_audience
    scope_validator scope_loop scope_step scope_end authorize translate is_translated get_profile
    raw_path acls_of matches normalize_absolute_path split tokens filter_components filter_component
    pop_back render join until from skip has_prefix
a_reading = refl

deserialize-IsRead_example :
    IsRead fresh strict 0 0 compat (str "a.b.c") (str "https://h/i" ∷ []) read_token
deserialize-IsRead_example =
    deserialize-IsRead fresh strict 0 (str "a.b.c") (str "https://h/i" ∷ []) 0 2
      (new_scitoken no_signing_key) read_token a_reading

a_c_reading :
    scitoken_deserialize fresh strict 0 (some (str "a.b.c")) true (some (str "https://h/i" ∷ [])) 0
    ≡ (success (some read_token), 2)
unfolding scitoken_deserialize scitoken_deserialize_v2
a_c_reading = rw a_reading

a_c_answer :
    enforcer_test fresh strict 0 (some read_token) (some (str "read", str "/bar/x")) (some before)
    ≡ (success (some tt), some tested)
unfolding scitoken_deserialize scitoken_deserialize_v2 deserialize deserialize_validator take_claims
    verify verify_loop enforcer_test test verify_scitoken verify_until ◌+ℤ◌ reset_state verify_async
    check_token check_typ typed_profile check_required check_critical check_issuer get_key_id
    verify_async_continue verify_token check_signature get_public_key_pem find_keys
    get_public_key_pem_continue finish_key public_key supported_key key_pem key_algorithm
    algorithm_of_type find_key_id find_kid has_kid find_string items of_items select_profile
    select_ver version choose_ver has_payload_claim get_payload_claim header_string payload_string
    as_string get_type find run_claims run_claim is_unverified run_string_validators
    run_claim_validators functions members str_eq str new_enforcer_validator add_function
    all_validator str_validator aud_validator claim_audiences get_strings match_audience
    scope_validator scope_loop scope_step scope_end authorize translate is_translated get_profile
    raw_path acls_of matches normalize_absolute_path split tokens filter_components filter_component
    pop_back render join until from skip has_prefix
a_c_answer = refl

enforcer_test-scitoken_deserialize_example :
    (read : IsRead fresh strict 0 0 compat (str "a.b.c") (str "https://h/i" ∷ []) read_token)
    × IsAuthorized fresh strict
        (str "https://h/i")
        auds
        compat
        scitokens_2_0
        (str "read")
        (str "/bar/x")
        read.jwt
    × WasVerified fresh strict EnforcerState read.jwt tested
enforcer_test-scitoken_deserialize_example =
    enforcer_test-scitoken_deserialize fresh strict (str "https://h/i") auds 0 0 (str "a.b.c")
      (str "read") (str "/bar/x") (some (str "https://h/i" ∷ [])) 0 2 read_token before tested
      strict-token a_c_reading (created (pos 100) 0) asks a_c_answer
