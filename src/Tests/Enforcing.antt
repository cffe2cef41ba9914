-- ===== src/Tests/Enforcing.antt =====
-- An enforcer's runs over a whole verification.
use scitokens_cpp.Prelude.{
  ◌≡◌, ◌≢◌, none, Option, refl, ℕ, true, [], ◌∷◌, some, Str, str, str_eq, until, from, skip,
  has_prefix, find, find_string, items, of_items, List, as_string, get_type, ok, string, integer,
  member, no_members, pos, ◌+ℤ◌, is_empty, ap, false,
}
use scitokens_cpp.Profile.{compat, scitokens_2_0}
use scitokens_cpp.Split.{split, tokens, join}
use scitokens_cpp.Path.{
  pop_back, filter_component, filter_components, render, normalize_absolute_path,
}
use scitokens_cpp.Keys.{
  public_key, supported_key, key_pem, key_algorithm, algorithm_of_type, find_key_id, find_kid,
  has_kid,
}
use scitokens_cpp.Scope.{
  EnforcerState, scope_validator, scope_loop, scope_step, scope_end, authorize, translate,
  is_translated, get_profile, raw_path, acls_of, matches,
}
use scitokens_cpp.Fetch.{
  get_public_key_pem, find_keys, get_public_key_pem_continue, finish_key, new_status,
}
use scitokens_cpp.Token.{
  DecodedJwt, JwtLibrary, default_key, members, has_payload_claim, get_payload_claim, header_string,
  payload_string,
}
use scitokens_cpp.Validator.{functions, add_function}
use scitokens_cpp.Validator.Early.{
  check_typ, typed_profile, check_required, check_critical, check_issuer, get_key_id,
}
use scitokens_cpp.Validator.Late.{
  Running, select_profile, select_ver, version, choose_ver, run_claims, run_claim, is_unverified,
  run_string_validators, run_claim_validators,
}
use scitokens_cpp.Validator.Verify.{
  check_token, check_signature, verify_token, verify_async, verify_async_continue, verify_until,
  verify_scitoken,
}
use scitokens_cpp.Validator.Verify.Rounds.{WasVerified}
use scitokens_cpp.Validator.Verify.Runs.{verify_scitoken-WasVerified}
use scitokens_cpp.Enforcer.{
  new_enforcer_state, new_enforcer_validator, reset_state, test, generate_acls, generate_acls_start,
  all_validator, str_validator, aud_validator, claim_audiences, get_strings, match_audience,
}
use mathlib.Core.Path.{subst}
use scitokens_cpp.Enforcer.Life.{Lives, created, after, Step, Lives-IsEnforcer}
use scitokens_cpp.Enforcer.Kept.{IsEnforcer}
use scitokens_cpp.Enforcer.Listed.{IsListed, generate_acls-IsListed}
use scitokens_cpp.SciToken.Maps.{IsMap}
use scitokens_cpp.Enforcer.Authorized.{IsAuthorized, test-IsAuthorized}
use scitokens_cpp.SciToken.{SciToken, new_scitoken}
use scitokens_cpp.Api.{success}
use scitokens_cpp.Api.Async.{enforcer_generate_acls_start}
use scitokens_cpp.Api.Async.Run.{started, Holds, AclsRun-sound}
use scitokens_cpp.Scope.{AclsList}
use scitokens_cpp.Api.Trust.{enforcer_test}
use scitokens_cpp.Api.Trust.Answers.{enforcer_test-WasVerified}
use scitokens_cpp.Tests.Instances.{fresh, token, jwt_library}

abbrev pub scoped : DecodedJwt
scoped = record token {
  payload = member (str "aud") (string (str "ANY")) (
      member (str "exp") (integer (pos 200)) (
        member (str "iat") (integer (pos 50)) (
          member (str "iss") (string (str "https://h/i")) (
            member (str "scope") (string (str "read:/bar"))
              (member (str "ver") (string (str "scitokens:2.0")) no_members)))));
}

abbrev pub lib : JwtLibrary
lib = jwt_library scoped

abbrev pub auds : List Str
auds = str "https://s" ∷ []

abbrev pub before : Running ℕ EnforcerState
before = record {
  outside = 0;
  validator = new_enforcer_validator (pos 100) (str "https://h/i") auds;
  user = new_enforcer_state (str "https://h/i") auds;
}

abbrev verified : Running ℕ EnforcerState
verified = record before {
  outside = 2;
  validator = record before.validator { m_profile = scitokens_2_0 };
}

abbrev pub tested : Running ℕ EnforcerState
tested = record verified {
  user = record before.user { m_test_path = str "/bar/x"; m_test_authz = str "read" };
}

abbrev listed : Running ℕ EnforcerState
listed = record verified {
  user = record before.user { m_gen_acls = (str "read", str "/bar") ∷ [] };
}

a_test :
    test fresh lib 0 (some scoped) (str "read") (str "/bar/x") before ≡ (ok (some true), tested)
unfolding test reset_state verify_scitoken verify_async check_token check_typ typed_profile
    check_required check_critical check_issuer get_key_id verify_async_continue verify_until
    verify_token check_signature get_public_key_pem find_keys get_public_key_pem_continue finish_key
    public_key supported_key key_pem key_algorithm algorithm_of_type find_key_id find_kid has_kid
    find_string items of_items select_profile select_ver version choose_ver has_payload_claim
    get_payload_claim header_string payload_string as_string get_type find run_claims run_claim
    is_unverified run_string_validators run_claim_validators functions members str_eq str
    new_enforcer_validator add_function all_validator str_validator aud_validator claim_audiences
    get_strings match_audience scope_validator scope_loop scope_step scope_end authorize translate
    is_translated get_profile raw_path acls_of matches normalize_absolute_path split tokens
    filter_components filter_component pop_back render join until from skip has_prefix ◌+ℤ◌
a_test = refl

a_listing :
    generate_acls fresh lib 0 (some scoped) before
    ≡ (ok (some ((str "read", str "/bar") ∷ [])), listed)
unfolding generate_acls reset_state verify_scitoken verify_async check_token check_typ typed_profile
    check_required check_critical check_issuer get_key_id verify_async_continue verify_until
    verify_token check_signature get_public_key_pem find_keys get_public_key_pem_continue finish_key
    public_key supported_key key_pem key_algorithm algorithm_of_type find_key_id find_kid has_kid
    find_string items of_items select_profile select_ver version choose_ver has_payload_claim
    get_payload_claim header_string payload_string as_string get_type find run_claims run_claim
    is_unverified run_string_validators run_claim_validators functions members str_eq str
    new_enforcer_validator add_function all_validator str_validator aud_validator claim_audiences
    get_strings match_audience scope_validator scope_loop scope_step scope_end authorize translate
    is_translated get_profile raw_path acls_of matches normalize_absolute_path split tokens
    filter_components filter_component pop_back render join until from skip has_prefix ◌+ℤ◌
a_listing = refl

pub scoped-IsMap : IsMap scoped.payload
unfolding find str str_eq
scoped-IsMap = (refl, (refl, (refl, (refl, (refl, (refl, tt))))))

generate_acls-IsListed_example :
    IsListed fresh lib (str "https://h/i") auds compat scitokens_2_0 scoped listed.user.m_gen_acls
    × WasVerified fresh lib EnforcerState scoped listed
generate_acls-IsListed_example =
    generate_acls-IsListed fresh lib (str "https://h/i") auds 0 scoped
      {acls = listed.user.m_gen_acls} before listed (created (pos 100) 0) refl scoped-IsMap
      a_listing

a_verification :
    verify_scitoken fresh lib EnforcerState 0
      (some scoped)
      (pos 120)
      (record before { outside = 1 })
    ≡ (ok (some (record new_status { m_done = true })), listed)
unfolding verify_scitoken verify_async check_token check_typ typed_profile check_required
    check_critical check_issuer get_key_id verify_async_continue verify_until verify_token
    check_signature get_public_key_pem find_keys get_public_key_pem_continue finish_key public_key
    supported_key key_pem key_algorithm algorithm_of_type find_key_id find_kid has_kid find_string
    items of_items select_profile select_ver version choose_ver has_payload_claim get_payload_claim
    header_string payload_string as_string get_type find run_claims run_claim is_unverified
    run_string_validators run_claim_validators functions members str_eq str new_enforcer_validator
    add_function all_validator str_validator aud_validator claim_audiences get_strings
    match_audience scope_validator scope_loop scope_step scope_end authorize translate is_translated
    get_profile raw_path acls_of matches normalize_absolute_path split tokens filter_components
    filter_component pop_back render join until from skip has_prefix ◌+ℤ◌
a_verification = refl

verify_scitoken-WasVerified_example :
    (jwt : DecodedJwt) × (some scoped ≡ some jwt) × WasVerified fresh lib EnforcerState jwt listed
verify_scitoken-WasVerified_example =
    verify_scitoken-WasVerified fresh lib EnforcerState 0 (some scoped) (pos 120)
      (record new_status { m_done = true }) (record before { outside = 1 }) listed a_verification

abbrev pub deserialized : SciToken
deserialized = record (new_scitoken default_key) { m_decoded = some scoped }

a_c_test :
    enforcer_test fresh lib 0 (some deserialized) (some (str "read", str "/bar/x")) (some before)
    ≡ (success (some tt), some tested)
unfolding enforcer_test
a_c_test = rw a_test

enforcer_test-WasVerified_example :
    (◌≢◌ {A = Option (Str × Str)} (some (str "read", str "/bar/x")) none)
    × ((t : SciToken) × (jwt : DecodedJwt) × (some deserialized ≡ some t)
        × (t.m_decoded ≡ some jwt)
        × WasVerified fresh lib EnforcerState jwt tested)
enforcer_test-WasVerified_example =
    enforcer_test-WasVerified fresh lib 0 (some deserialized) (some (str "read", str "/bar/x"))
      before tested a_c_test

abbrev acls : AclsList
acls = (str "read", str "/bar") ∷ []

abbrev handed : Running ℕ EnforcerState
handed = record listed { outside = 1 }

a_start :
    enforcer_generate_acls_start fresh lib (some deserialized) (some before)
    ≡ (success (none, some acls), some handed)
unfolding enforcer_generate_acls_start generate_acls_start reset_state verify_async check_token
    check_typ typed_profile check_required check_critical check_issuer get_key_id
    verify_async_continue verify_token check_signature get_public_key_pem find_keys
    get_public_key_pem_continue finish_key public_key supported_key key_pem key_algorithm
    algorithm_of_type find_key_id find_kid has_kid find_string items of_items select_profile
    select_ver version choose_ver has_payload_claim get_payload_claim header_string payload_string
    as_string get_type find run_claims run_claim is_unverified run_string_validators
    run_claim_validators functions members str_eq str new_enforcer_validator add_function
    all_validator str_validator aud_validator claim_audiences get_strings match_audience
    scope_validator scope_loop scope_step scope_end authorize translate is_translated get_profile
    raw_path acls_of matches normalize_absolute_path split tokens filter_components filter_component
    pop_back render join until from skip has_prefix
a_start = refl

AclsRun-sound_example :
    (jwt : DecodedJwt) × (deserialized.m_decoded ≡ some jwt)
    × Holds fresh lib jwt (none, some acls) handed
AclsRun-sound_example =
    AclsRun-sound fresh lib deserialized (none, some acls) handed
      (started before handed (none, some acls) a_start)

-- The enforcer of these tests lives.
alive : Lives fresh lib (str "https://h/i") auds before
alive = created (pos 100) 0

pub asks : is_empty (str "read") ≡ false
unfolding str
asks = refl

test-IsAuthorized_example :
    IsAuthorized fresh lib
      (str "https://h/i")
      auds
      compat
      scitokens_2_0
      (str "read")
      (str "/bar/x")
      scoped
    × WasVerified fresh lib EnforcerState scoped tested
test-IsAuthorized_example =
    test-IsAuthorized fresh lib (str "https://h/i") auds 0 scoped (str "read") (str "/bar/x")
      {answer = true} before tested alive asks refl a_test

Lives-IsEnforcer_example : IsEnforcer fresh lib (str "https://h/i") auds tested
Lives-IsEnforcer_example = Lives-IsEnforcer fresh lib (str "https://h/i") auds {r = tested} (
    subst (Lives fresh lib (str "https://h/i") auds) (ap (λ p. p.1) a_test)
      (after alive (Step.tested 0 (some scoped) (str "read") (str "/bar/x"))))
