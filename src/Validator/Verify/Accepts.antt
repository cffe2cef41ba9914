-- ===== src/Validator/Verify/Accepts.antt =====
-- Which tokens a validator accepts that has no validators of its own for claims.
use scitokens_cpp.Prelude.{
  ◌≡◌, refl, ◌⊎◌, inl, inr, true, false, ◌||◌, List, [], ◌∷◌, none, some, arith, Str, str, str_eq,
  ok, any, is_empty, Json, string, find, as_string, get_type, ℤ, Bool-cases,
}
use scitokens_cpp.Profile.{
  Profile, compat, scitokens_1_0, scitokens_2_0, wlcg_1_0, at_jwt, profile_eq,
}
use scitokens_cpp.Token.{
  DecodedJwt, has_payload_claim, get_payload_claim, header_string, payload_string,
}
use scitokens_cpp.Validator.{Validator, new_validator, functions}
use scitokens_cpp.Validator.Early.{
  check_typ, typed_profile, check_issuer, check_required, get_key_id,
}
use scitokens_cpp.Validator.Late.{
  Running, is_timestamp, is_unverified, version, choose_ver, select_ver, check_wlcg, select_wlcg,
  select_default, select_profile, run_string_validators, run_claim_validators, run_claim,
  run_claims,
}

-- The profile of a token that was serialized for a profile: COMPAT writes SciTokens 1.0.
abbrev pub produced : Profile → Profile
produced compat = scitokens_1_0
produced profile = profile

-- The profile that is known before the claims are read.
abbrev pub early : Profile → Profile
early at_jwt = at_jwt
early profile = compat

-- The claims of a profile that say which it is.
abbrev pub HasVersion : Profile → DecodedJwt → Type 0
HasVersion scitokens_2_0 jwt =
    (find (str "ver") jwt.payload ≡ some (string (str "scitoken:2.0")))
    × (has_payload_claim jwt (str "aud") ≡ true)
HasVersion wlcg_1_0 jwt =
    (find (str "ver") jwt.payload ≡ none)
    × (find (str "wlcg.ver") jwt.payload ≡ some (string (str "1.0")))
    × (has_payload_claim jwt (str "aud") ≡ true)
HasVersion profile jwt =
    (find (str "ver") jwt.payload ≡ none) × (find (str "wlcg.ver") jwt.payload ≡ none)

abbrev pub HasTyp : Profile → DecodedJwt → Type 0
HasTyp at_jwt jwt = find (str "typ") jwt.header ≡ some (string (str "at+jwt"))
HasTyp profile jwt = find (str "typ") jwt.header ≡ none

-- A token that is complete for a profile. The date "nbf" is not asked for.
pub record IsComplete (profile : Profile) (issuer kid : Str) (jwt : DecodedJwt) : Type 0 where
  pub typ : HasTyp profile jwt
  pub key_id : find (str "kid") jwt.header ≡ some (string kid)
  pub iat : has_payload_claim jwt (str "iat") ≡ true
  pub exp : has_payload_claim jwt (str "exp") ≡ true
  pub iss : find (str "iss") jwt.payload ≡ some (string issuer)
  pub version : HasVersion profile jwt

-- A mode in which tokens of a profile are expected.
abbrev pub Expects : Profile → Profile → Type 0
Expects mode profile = (mode ≡ compat) ⊎ (mode ≡ produced profile)

pub check_typ-accepts :
    (mode profile : Profile) (jwt : DecodedJwt)
    → Expects mode profile
    → HasTyp profile jwt
    → check_typ mode compat jwt ≡ ok (early profile)
unfolding check_typ typed_profile header_string as_string str str_eq
check_typ-accepts mode at_jwt jwt (inl e) h = rw (h, e)
check_typ-accepts mode at_jwt jwt (inr e) h = rw (h, e)
check_typ-accepts mode compat jwt (inl e) h = rw (h, e)
check_typ-accepts mode compat jwt (inr e) h = rw (h, e)
check_typ-accepts mode scitokens_1_0 jwt (inl e) h = rw (h, e)
check_typ-accepts mode scitokens_1_0 jwt (inr e) h = rw (h, e)
check_typ-accepts mode scitokens_2_0 jwt (inl e) h = rw (h, e)
check_typ-accepts mode scitokens_2_0 jwt (inr e) h = rw (h, e)
check_typ-accepts mode wlcg_1_0 jwt (inl e) h = rw (h, e)
check_typ-accepts mode wlcg_1_0 jwt (inr e) h = rw (h, e)

-- An issuer is allowed by an empty list, and by a list that has it.
abbrev pub Allows : List Str → Str → Type 0
Allows allowed issuer = (is_empty allowed ≡ true) ⊎ (any (str_eq issuer) allowed ≡ true)

pub payload_string-accepts :
    (jwt : DecodedJwt) (name : Str) {value : Str}
    → find name jwt.payload ≡ some (string value)
    → payload_string jwt name ≡ ok value
unfolding payload_string as_string
payload_string-accepts jwt name h = rw h

check_issuer-accepts :
    (jwt : DecodedJwt) (allowed : List Str) {issuer : Str}
    → find (str "iss") jwt.payload ≡ some (string issuer)
    → Allows allowed issuer
    → check_issuer jwt allowed ≡ ok tt
unfolding check_issuer
check_issuer-accepts jwt allowed h (inl none_named) = rw none_named
check_issuer-accepts jwt allowed h (inr named) = elim (Bool-cases (is_empty allowed)) [
  | inl e ↦ rw e
  | inr e ↦ rw (e, payload_string-accepts jwt (str "iss") h, named)
]

-- The profiles that ask for "nbf" are not known before the claims are read.
early_not_dated :
    (profile : Profile)
    → profile_eq (early profile) scitokens_1_0 || profile_eq (early profile) scitokens_2_0 ≡ false
early_not_dated compat = refl
early_not_dated scitokens_1_0 = refl
early_not_dated scitokens_2_0 = refl
early_not_dated wlcg_1_0 = refl
early_not_dated at_jwt = refl

pub check_required-accepts :
    (known profile : Profile) (issuer kid : Str) (allowed : List Str) (jwt : DecodedJwt)
    → IsComplete profile issuer kid jwt
    → Allows allowed issuer
    → check_required (early known) allowed [] jwt ≡ ok tt
unfolding check_required has_payload_claim
check_required-accepts known profile issuer kid allowed jwt h allows =
    rw (h.iat, early_not_dated known, h.exp, h.iss, check_issuer-accepts jwt allowed h.iss allows)

pub get_key_id-accepts :
    (jwt : DecodedJwt) {kid : Str}
    → find (str "kid") jwt.header ≡ some (string kid)
    → get_key_id jwt ≡ ok kid
unfolding get_key_id header_string as_string
get_key_id-accepts jwt h = rw h

-- A validator that looks into no claim, such as that of a deserialization, with its profile.
abbrev pub plain_validator : ℤ → List Str → Profile → Profile → Validator (Unit {0})
plain_validator now allowed mode profile = record (new_validator now) {
  m_allowed_issuers = allowed;
  m_validate_all_claims = false;
  m_validate_profile = mode;
  m_profile = profile;
}

is_unverified-false : (key : Str) (v : Validator (Unit {0})) → is_unverified false key v ≡ false
unfolding is_unverified
is_unverified-false key v = ground arith

module _ {W : Type 0} (w : W) (now : ℤ) (allowed : List Str) (mode : Profile) where
  abbrev pub plain : Profile → Running W (Unit {0})
  plain profile = record {
    outside = w;
    validator = plain_validator now allowed mode profile;
    user = tt;
  }

  pub run_claims-accepts :
      (profile : Profile) (claims : List (Str × Json))
      → run_claims false claims (plain profile) ≡ (ok tt, plain profile)
  unfolding run_claims run_claim run_string_validators run_claim_validators functions
  run_claims-accepts profile [] = refl
  run_claims-accepts profile ((key, claim) ∷ rest) = elim (Bool-cases (is_timestamp key)) [
    | inl e ↦ rw e (run_claims-accepts profile rest)
    | inr e ↦
        rw (e, is_unverified-false key (plain_validator now allowed mode profile))
          (run_claims-accepts profile rest)
  ]

  pub select_profile-accepts :
      (profile : Profile) (jwt : DecodedJwt)
      → Expects mode profile
      → HasVersion profile jwt
      → select_profile jwt (plain (early profile)) ≡ (ok false, plain (produced profile))
  unfolding select_profile select_ver select_wlcg select_default version choose_ver check_wlcg
      has_payload_claim get_payload_claim as_string get_type str str_eq
  select_profile-accepts compat jwt (inl e) (v, g) = rw (v, g, e)
  select_profile-accepts compat jwt (inr e) (v, g) = rw (v, g, e)
  select_profile-accepts scitokens_1_0 jwt (inl e) (v, g) = rw (v, g, e)
  select_profile-accepts scitokens_1_0 jwt (inr e) (v, g) = rw (v, g, e)
  select_profile-accepts scitokens_2_0 jwt (inl e) (v, a) = rw (v, a, e)
  select_profile-accepts scitokens_2_0 jwt (inr e) (v, a) = rw (v, a, e)
  select_profile-accepts wlcg_1_0 jwt (inl e) (v, g, a) = rw (v, g, a, e)
  select_profile-accepts wlcg_1_0 jwt (inr e) (v, g, a) = rw (v, g, a, e)
  select_profile-accepts at_jwt jwt (inl e) (v, g) = rw (v, g, e)
  select_profile-accepts at_jwt jwt (inr e) (v, g) = rw (v, g, e)
