-- ===== src/Validator/Early/Required.antt =====
-- What the checks before the signature establish, and what they do not.
use mathlib.Core.List.{Memᴰ}
use scitokens_cpp.Prelude.{
  ◌≡◌, refl, sym, ◌⊎◌, inl, inr, true, false, ◌||◌, List, [], ◌∷◌, none, arith, Str, str, str_eq,
  str_eq_iff, ok, throw, claim_not_present, is_runtime_error, >>=-eq-ok, ok-ne-throw, any, All,
  if◌then◌else◌, find, Bool-cases,
}
use scitokens_cpp.Profile.{Profile, scitokens_1_0, scitokens_2_0, at_jwt, profile_eq}
use scitokens_cpp.Token.{DecodedJwt, is_some, has_payload_claim, header_string, payload_string}
use scitokens_cpp.Validator.Early.{
  is_at_jwt, typed_profile, check_typ, mandatory, check_critical, check_issuer, check_required,
  get_key_id,
}

mandatory-eq-ok :
    (jwt : DecodedJwt) (claim : Str) {u : Unit {0}}
    → mandatory jwt claim ≡ ok u
    → has_payload_claim jwt claim ≡ true
mandatory-eq-ok jwt claim h = ground arith

nbf-eq-ok :
    (profile : Profile) (jwt : DecodedJwt) {u : Unit {0}}
    → (if profile_eq profile scitokens_1_0 || profile_eq profile scitokens_2_0
        then mandatory jwt (str "nbf")
        else ok tt)
      ≡ ok u
    → (profile ≡ scitokens_1_0) ⊎ (profile ≡ scitokens_2_0)
    → has_payload_claim jwt (str "nbf") ≡ true
nbf-eq-ok profile jwt h p = ground arith

check_critical-All :
    (jwt : DecodedJwt) (claims : List Str) {u : Unit {0}}
    → check_critical jwt claims ≡ ok u
    → All (λ claim. has_payload_claim jwt claim ≡ true) claims
unfolding check_critical
check_critical-All jwt [] h = tt
check_critical-All jwt (claim ∷ claims) h =
    let (_, first, rest) = >>=-eq-ok (mandatory jwt claim) _ h in
    (mandatory-eq-ok jwt claim first, check_critical-All jwt claims rest)

false-ne-true : false ≡ true → ⊥
false-ne-true h = cc

any-Memᴰ : (s : Str) (l : List Str) → any (str_eq s) l ≡ true → Memᴰ s l
any-Memᴰ s [] h = absurd (false-ne-true h)
any-Memᴰ s (x ∷ l) h = elim (Bool-cases (str_eq s x)) [
  | inl same ↦ Memᴰ.head ((str_eq_iff s x).0 same)
  | inr other ↦ Memᴰ.tail (any-Memᴰ s l (rw other at h))
]

check_issuer-Memᴰ :
    (jwt : DecodedJwt) (allowed : List Str) {u : Unit {0}}
    → check_issuer jwt allowed ≡ ok u
    → (allowed ≡ [])
      ⊎ ((issuer : Str) × (payload_string jwt (str "iss") ≡ ok issuer) × Memᴰ issuer allowed)
unfolding check_issuer
check_issuer-Memᴰ jwt [] h = inl refl
check_issuer-Memᴰ jwt (a ∷ allowed) h =
    let (issuer, e, permitted) = >>=-eq-ok (payload_string jwt (str "iss")) _ h in
    inr (issuer, e, any-Memᴰ issuer (a ∷ allowed) (ground arith))

-- What a token has that passes the checks.
pub record HasRequired (profile : Profile) (allowed critical : List Str) (jwt : DecodedJwt)
    : Type 0 where
  pub iat : has_payload_claim jwt (str "iat") ≡ true
  pub nbf :
      (profile ≡ scitokens_1_0) ⊎ (profile ≡ scitokens_2_0)
      → has_payload_claim jwt (str "nbf") ≡ true
  pub exp : has_payload_claim jwt (str "exp") ≡ true
  pub iss : has_payload_claim jwt (str "iss") ≡ true
  pub issuer :
      (allowed ≡ [])
      ⊎ ((issuer : Str) × (payload_string jwt (str "iss") ≡ ok issuer) × Memᴰ issuer allowed)
  pub critical_claims : All (λ claim. has_payload_claim jwt claim ≡ true) critical

-- A token that passes has the mandatory claims, an allowed issuer if the list of allowed issuers is
-- not empty, and every critical claim.
pub check_required-HasRequired :
    (profile : Profile) (allowed critical : List Str) (jwt : DecodedJwt)
    → check_required profile allowed critical jwt ≡ ok tt
    → HasRequired profile allowed critical jwt
unfolding check_required
check_required-HasRequired profile allowed critical jwt h =
    let (_, iat, h₁) = >>=-eq-ok (mandatory jwt (str "iat")) _ h in
    let (_, nbf, h₂) =
      >>=-eq-ok
        (if profile_eq profile scitokens_1_0 || profile_eq profile scitokens_2_0
          then mandatory jwt (str "nbf")
          else ok tt)
        _ h₁ in
    let (_, exp, h₃) = >>=-eq-ok (mandatory jwt (str "exp")) _ h₂ in
    let (_, iss, h₄) = >>=-eq-ok (mandatory jwt (str "iss")) _ h₃ in
    let (_, issuer, h₅) = >>=-eq-ok (check_issuer jwt allowed) _ h₄ in
    record {
      iat = mandatory-eq-ok jwt (str "iat") iat;
      nbf = nbf-eq-ok profile jwt nbf;
      exp = mandatory-eq-ok jwt (str "exp") exp;
      iss = mandatory-eq-ok jwt (str "iss") iss;
      issuer = check_issuer-Memᴰ jwt allowed issuer;
      critical_claims = check_critical-All jwt critical h₅;
    }

typed_profile-at_jwt :
    (profile : Profile) (typ : Str) {p : Profile}
    → typed_profile at_jwt profile typ ≡ ok p
    → (p ≡ at_jwt) × (is_at_jwt typ ≡ true)
unfolding typed_profile
typed_profile-at_jwt profile typ h = ground arith

-- In AT_JWT mode a token without a 'typ' header that is "at+jwt" or "application/at+jwt" is refused,
-- and the profile is AT_JWT for any other.
pub check_typ-at_jwt :
    (profile : Profile) (jwt : DecodedJwt) {p : Profile}
    → check_typ at_jwt profile jwt ≡ ok p
    → (p ≡ at_jwt)
      × ((typ : Str) × (header_string jwt (str "typ") ≡ ok typ) × (is_at_jwt typ ≡ true))
unfolding check_typ
check_typ-at_jwt profile jwt h = elim (Bool-cases (is_some (find (str "typ") jwt.header))) [
  | inl given ↦
      let (typ, e, rest) = >>=-eq-ok (header_string jwt (str "typ")) _ (rw given at h) in
      let (same, right) = typed_profile-at_jwt profile typ rest in (same, (typ, e, right))
  | inr missing ↦ absurd (ok-ne-throw (sym (rw missing at h)))
]

-- A token without a key ID is refused, though the ID is meant to be optional: what jwt-cpp throws
-- is no `std::runtime_error`.
pub get_key_id_missing :
    (jwt : DecodedJwt)
    → find (str "kid") jwt.header ≡ none
    → get_key_id jwt ≡ throw claim_not_present
unfolding get_key_id header_string is_runtime_error
get_key_id_missing jwt h = rw h
