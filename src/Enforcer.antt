-- ===== src/Enforcer.antt =====
-- `Enforcer` of src/scitokens_internal.h: its validators and its operations.
pub mod Audience
pub mod Answers
pub mod Kept
pub mod Life
pub mod Authorized
pub mod Behind
pub mod Listed
use scitokens_cpp.Prelude
use scitokens_cpp.Prelude.{
  ℕ, Bool, true, false, not, ◌&&◌, ◌||◌, List, [], ◌∷◌, ◌++◌, Option, none, some, Str, str, str_eq,
  Result, ok, throw, undefined, is_empty, any, if◌then◌else◌, Json, string, array, items, get_type,
  is_string_type, get_string, ℤ, pos, ◌+ℤ◌,
}
use scitokens_cpp.Exec.{Exec, pure, gets, call, ◌>>=◌, ◌>>◌}
use scitokens_cpp.Profile.{Profile, compat, scitokens_2_0, wlcg_1_0, profile_eq}
use scitokens_cpp.Fetch.{Services, Status, AsyncStatus}
use scitokens_cpp.Token.{DecodedJwt, JwtLibrary}
use scitokens_cpp.Validator.{
  Validator, new_validator, ClaimValidatorFunction, add_claim_validator, add_critical_claims,
  add_allowed_issuers,
}
use scitokens_cpp.Validator.Late.{Running}
use scitokens_cpp.Validator.Verify.{
  on_outside, decoded_or_throw, verify_async, verify_async_continue, verify_scitoken,
}
use scitokens_cpp.Scope.{EnforcerState, AclsList, get_profile, scope_validator}

-- `all_validator` and `str_validator`
unfoldable pub all_validator : ClaimValidatorFunction EnforcerState
all_validator profile claim me = (ok true, me)

unfoldable pub str_validator : ClaimValidatorFunction EnforcerState
str_validator profile claim me = (Prelude.◌>>=◌ (get_type claim) (λ t. ok (is_string_type t)), me)

-- `jwt_audiences` of an array
unfoldable pub get_strings : List Json → Result (List Str)
get_strings [] = ok []
get_strings (v ∷ vs) =
    Prelude.◌>>=◌ (get_string v) λ s. Prelude.◌>>=◌ (get_strings vs) λ rest. ok (s ∷ rest)

-- The vector `jwt_audiences`; null throws, and any other value gives no audience.
unfoldable pub claim_audiences : Json → Result (List Str)
unfolding get_strings
claim_audiences (string audience) = ok (audience ∷ [])
claim_audiences (array vs) = get_strings (items vs)
claim_audiences claim = Prelude.◌>>=◌ (get_type claim) λ _. ok []

-- The wildcard of a profile.
abbrev pub is_wildcard : Profile → Str → Bool
is_wildcard profile aud =
    profile_eq profile scitokens_2_0 && str_eq aud (str "ANY")
    || profile_eq profile wlcg_1_0 && str_eq aud (str "https://wlcg.cern.ch/jwt/v1/any")

-- The loop over `jwt_audiences`.
unfoldable pub match_audience : Profile → List Str → List Str → Result Bool
unfolding get_profile
match_audience profile audiences [] = ok false
match_audience profile audiences (aud ∷ rest) =
    let others = match_audience profile audiences rest in
    Prelude.◌>>=◌ (get_profile profile)
      λ p. if is_wildcard p aud || any (λ a. str_eq a aud) audiences then ok true else others

unfoldable pub aud_validator : ClaimValidatorFunction EnforcerState
unfolding claim_audiences match_audience
aud_validator profile claim me =
    (Prelude.◌>>=◌ (claim_audiences claim) (match_audience profile me.m_audiences), me)

-- `Enforcer(issuer, audience_list)`: its fields, and its validator at the time `now`.
abbrev pub new_enforcer_state : Str → List Str → EnforcerState
new_enforcer_state issuer audience_list = record {
  m_validate_profile = compat;
  m_test_path = [];
  m_test_authz = [];
  m_gen_acls = [];
  m_issuer = issuer;
  m_audiences = audience_list;
}

unfoldable pub new_enforcer_validator : ℤ → Str → List Str → Validator EnforcerState
new_enforcer_validator now issuer audience_list =
    add_critical_claims
      (if not (is_empty audience_list) then str "scope" ∷ str "aud" ∷ [] else str "scope" ∷ [])
      (add_claim_validator (str "scope") scope_validator (
        add_claim_validator (str "aud") aud_validator (
          add_claim_validator (str "opt") all_validator (
            add_claim_validator (str "sub") str_validator (
              add_claim_validator (str "jti") str_validator
                (add_allowed_issuers (issuer ∷ []) (new_validator now)))))))

-- An enforcer at work is its validator with the fields that the claim validators reach.
module _ (env : Services) (lib : JwtLibrary) where
  abbrev pub Enforcing : Type 0
  Enforcing = Running env.W EnforcerState

  unfoldable pub set_validate_profile : Profile → Enforcing → Enforcing
  set_validate_profile profile r = record r {
    user = record r.user { m_validate_profile = profile };
  }

  unfoldable pub reset_state : Enforcing → Enforcing
  reset_state r = record r {
    user = record r.user { m_test_path = []; m_test_authz = []; m_gen_acls = [] };
    validator = record r.validator { m_validate_profile = r.user.m_validate_profile };
  }

  abbrev pub modify : (Enforcing → Enforcing) → Exec Enforcing (Unit {0})
  modify f r = (ok tt, f r)

  abbrev pub set_test : Str → Str → Enforcing → Enforcing
  set_test authz path r = record r {
    user = record r.user { m_test_path = path; m_test_authz = authz };
  }

  -- `fuel` bounds the rounds of the verification's loop; `none` is a loop that is not over by then.
  unfoldable pub test : ℕ → Option DecodedJwt → Str → Str → Exec Enforcing (Option Bool)
  unfolding reset_state
  test fuel m_decoded authz path = do
    modify reset_state
    modify (set_test authz path)
    now ← on_outside (call env.time)
    ended ← verify_scitoken env lib EnforcerState fuel m_decoded (now +ℤ pos 20)
    pure (elim ended [ none ↦ none | some status ↦ some true ])

  unfoldable pub generate_acls : ℕ → Option DecodedJwt → Exec Enforcing (Option AclsList)
  unfolding reset_state
  generate_acls fuel m_decoded = do
    modify reset_state
    now ← on_outside (call env.time)
    ended ← verify_scitoken env lib EnforcerState fuel m_decoded (now +ℤ pos 20)
    acls ← gets (λ r. r.user.m_gen_acls)
    pure (elim ended [ none ↦ none | some status ↦ some acls ])

  -- The status, and the value of the output `acls` if it is written.
  abbrev pub with_acls : Status env → Exec Enforcing (Status env × Option AclsList)
  with_acls status r = (ok (status, if status.m_done then some r.user.m_gen_acls else none), r)

  unfoldable pub generate_acls_start :
      Option DecodedJwt → Exec Enforcing (Status env × Option AclsList)
  unfolding reset_state
  generate_acls_start m_decoded = do
    modify reset_state
    jwt ← (λ r. (decoded_or_throw m_decoded, r))
    status ← verify_async env lib EnforcerState jwt
    with_acls status

  unfoldable pub generate_acls_continue : Status env → Exec Enforcing (Status env × Option AclsList)
  generate_acls_continue status = do
    result ← verify_async_continue env lib EnforcerState status
    with_acls result
