-- ===== src/Tests/Listing.antt =====
-- A run of the tool that lists the ACLs of a token.
use scitokens_cpp.Prelude.{
  ◌≡◌, refl, [], ◌∷◌, Str, str, str_eq, until, from, skip, has_prefix, find, find_string, items,
  of_items, List, as_string, get_type, ◌+ℤ◌,
}
use scitokens_cpp.Split.{split, tokens, join}
use scitokens_cpp.Path.{
  pop_back, filter_component, filter_components, render, normalize_absolute_path,
}
use scitokens_cpp.Keys.{
  public_key, supported_key, key_pem, key_algorithm, algorithm_of_type, find_key_id, find_kid,
  has_kid,
}
use scitokens_cpp.Scope.{
  scope_validator, scope_loop, scope_step, scope_end, authorize, translate, is_translated,
  get_profile, raw_path, acls_of, matches,
}
use scitokens_cpp.Fetch.{get_public_key_pem, find_keys, get_public_key_pem_continue, finish_key}
use scitokens_cpp.Token.{
  members, has_payload_claim, get_payload_claim, header_string, payload_string,
}
use scitokens_cpp.Validator.{functions, add_function}
use scitokens_cpp.Validator.Early.{
  check_typ, typed_profile, check_required, check_critical, check_issuer, get_key_id,
}
use scitokens_cpp.Validator.Late.{
  select_profile, select_ver, version, choose_ver, run_claims, run_claim, is_unverified,
  run_string_validators, run_claim_validators,
}
use scitokens_cpp.Validator.Verify.{
  check_token, check_signature, verify_token, verify_async, verify_async_continue, verify_until,
  verify_scitoken,
}
use scitokens_cpp.Enforcer.{
  new_enforcer_validator, reset_state, generate_acls, all_validator, str_validator, aud_validator,
  claim_audiences, get_strings, match_audience,
}
use scitokens_cpp.Tests.Instances.{fresh}
use scitokens_cpp.SciToken.Deserialize.{deserialize, deserialize_validator, take_claims}
use scitokens_cpp.Validator.Verify.{verify, verify_loop}
use scitokens_cpp.Api.Serialized.{scitoken_deserialize, scitoken_deserialize_v2, enforcer_create}
use scitokens_cpp.Api.Trust.{enforcer_generate_acls}
use scitokens_cpp.Tools.{exited}
use scitokens_cpp.Tools.ListAccess.{list_access, acl_line, acl_lines}
use scitokens_cpp.Tools.ListAccess.Trusted.{IsListing, list_access-IsListing}
use scitokens_cpp.Tests.Authorizing.{strict, strict-token, strict-IsMap}

abbrev arguments : List Str
arguments = str "list" ∷ str "a.b.c" ∷ str "https://h/i" ∷ str "https://s" ∷ []

abbrev printed : List Str
printed = acl_lines ((str "read", str "/bar") ∷ [])

a_list : list_access fresh strict 0 arguments 0 ≡ exited 0 printed
unfolding list_access acl_lines acl_line scitoken_deserialize scitoken_deserialize_v2 deserialize
    deserialize_validator take_claims verify verify_loop enforcer_create enforcer_generate_acls
    generate_acls verify_scitoken verify_until ◌+ℤ◌ reset_state verify_async check_token check_typ
    typed_profile check_required check_critical check_issuer get_key_id verify_async_continue
    verify_token check_signature get_public_key_pem find_keys get_public_key_pem_continue finish_key
    public_key supported_key key_pem key_algorithm algorithm_of_type find_key_id find_kid has_kid
    find_string items of_items select_profile select_ver version choose_ver has_payload_claim
    get_payload_claim header_string payload_string as_string get_type find run_claims run_claim
    is_unverified run_string_validators run_claim_validators functions members str_eq str
    new_enforcer_validator add_function all_validator str_validator aud_validator claim_audiences
    get_strings match_audience scope_validator scope_loop scope_step scope_end authorize translate
    is_translated get_profile raw_path acls_of matches normalize_absolute_path split tokens
    filter_components filter_component pop_back render join until from skip has_prefix
a_list = refl

list_access-IsListing_example : IsListing fresh strict 0 arguments 0 printed
list_access-IsListing_example =
    list_access-IsListing fresh strict strict-token strict-IsMap 0 arguments 0 a_list
