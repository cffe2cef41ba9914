-- ===== src/SciToken/RoundTrip.antt =====
-- A token that `SciToken::serialize` wrote, read by `SciToken::deserialize`.
use scitokens_cpp.Prelude.{
  ◌≡◌, refl, ap, sym, ◌∙◌, ℕ, false, true, List, some, Str, str, str_eq, ok, Json, string, Members,
  find, ℤ, ◌+ℤ◌, ◌≤ℤ◌,
}
use scitokens_cpp.Profile.{Profile, compat, scitokens_1_0, scitokens_2_0, wlcg_1_0, at_jwt}
use scitokens_cpp.Fetch.{Services, Status, get_public_key_pem}
use scitokens_cpp.Token
use scitokens_cpp.Token.{DecodedJwt, JwtLibrary, SciTokenKey, is_some, has_payload_claim}
use scitokens_cpp.Validator.Verify.Accepts.{
  produced, HasTyp, HasVersion, IsComplete, Expects, Allows,
}
use scitokens_cpp.SciToken.{SciToken, Builder, header_of, serialize}
use scitokens_cpp.SciToken.Deserialize.{deserialize}
use scitokens_cpp.SciToken.Deserialize.Accepts.{deserialize-accepts}
use scitokens_cpp.SciToken.Signed.{IsPair, IsCurrent, IsJwt, sign-verify}
use scitokens_cpp.SciToken.Profiles.{Versioned}
use scitokens_cpp.SciToken.Issued.{
  IsIssuable, issued_payload, serialize-ok, payload-iat, payload-nbf, payload-exp, payload-claim,
  payload-own, payload-Versioned,
}

header_typ :
    (profile : Profile) (kid : Str) (jwt : DecodedJwt)
    → find (str "typ") jwt.header ≡ find (str "typ") (header_of profile kid)
    → HasTyp profile jwt
unfolding str str_eq find
header_typ at_jwt kid jwt h = h
header_typ compat kid jwt h = h
header_typ scitokens_1_0 kid jwt h = h
header_typ scitokens_2_0 kid jwt h = h
header_typ wlcg_1_0 kid jwt h = h

header_kid :
    (profile : Profile) (kid : Str) → find (str "kid") (header_of profile kid) ≡ some (string kid)
unfolding str str_eq find
header_kid at_jwt kid = refl
header_kid compat kid = refl
header_kid scitokens_1_0 kid = refl
header_kid scitokens_2_0 kid = refl
header_kid wlcg_1_0 kid = refl

module _ (jwt : DecodedJwt) (payload : Members)
    (same : (claim : Str) → find claim jwt.payload ≡ find claim payload) where
  has_claim :
      (claim : Str) {value : Json}
      → find claim payload ≡ some value
      → has_payload_claim jwt claim ≡ true
  unfolding has_payload_claim
  has_claim claim h = rw (same claim, h)

  version : (profile : Profile) → Versioned profile payload → HasVersion profile jwt
  version scitokens_2_0 (v, (aud, a)) = (same (str "ver") ∙ v, has_claim (str "aud") a)
  version wlcg_1_0 (v, g, (aud, a)) =
      (same (str "ver") ∙ v, same (str "wlcg.ver") ∙ g, has_claim (str "aud") a)
  version compat (v, g) = (same (str "ver") ∙ v, same (str "wlcg.ver") ∙ g)
  version scitokens_1_0 (v, g) = (same (str "ver") ∙ v, same (str "wlcg.ver") ∙ g)
  version at_jwt (v, g) = (same (str "ver") ∙ v, same (str "wlcg.ver") ∙ g)

module _ (env : Services) (lib : JwtLibrary) (uuid : env.W → Str × env.W) (w : env.W) (t : SciToken)
    (issuer text : Str) (issuable : IsIssuable issuer t)
    (token : IsJwt lib
      (header_of t.m_serialize_profile t.m_key.m_kid)
      (issued_payload env uuid w t)
      t.m_key.m_name
      (Token.sign lib t.m_key)
      text) where
  issued_payload-IsCurrent :
      (now : ℤ)
      → (env.time w).0 ≤ℤ now
      → now ≤ℤ (env.time w).0 +ℤ t.m_lifetime
      → IsCurrent now (issued_payload env uuid w t)
  issued_payload-IsCurrent now begun not_over = record {
    iat = (env.time w).0;
    nbf = (env.time w).0;
    exp = (env.time w).0 +ℤ t.m_lifetime;
    has_iat = payload-iat env uuid w t issuer issuable;
    has_nbf = payload-nbf env uuid w t issuer issuable;
    has_exp = payload-exp env uuid w t issuer issuable;
    issued = begun;
    begun = begun;
    not_over = not_over;
  }

  issued-IsComplete : IsComplete t.m_serialize_profile issuer t.m_key.m_kid token.jwt
  unfolding str str_eq
  issued-IsComplete =
      let payload = issued_payload env uuid w t in
      record {
        typ =
            header_typ t.m_serialize_profile t.m_key.m_kid token.jwt
              (token.of_header (str "typ") refl);
        key_id = token.of_header (str "kid") refl ∙ header_kid t.m_serialize_profile t.m_key.m_kid;
        iat =
            has_claim token.jwt payload token.of_payload (str "iat")
              (payload-iat env uuid w t issuer issuable);
        exp =
            has_claim token.jwt payload token.of_payload (str "exp")
              (payload-exp env uuid w t issuer issuable);
        iss =
            token.of_payload (str "iss")
            ∙ payload-own env uuid w t issuer issuable (str "iss") refl issuable.iss;
        version =
            version token.jwt payload token.of_payload t.m_serialize_profile
              (payload-Versioned env uuid w t issuer issuable);
      }

-- If a token is serialized whose claims name an issuer and leave the dates and the versions to the
-- serialization, if jwt-cpp reads and verifies what its builder made as it documents, and if the text is
-- read within the token's lifetime, with the public key of the token's pair at hand under its issuer and
-- its key ID, in a mode that expects the profile and with a list that allows the issuer, then the
-- deserialization succeeds, and the result has the profile that was written (SciTokens 1.0 for COMPAT),
-- each claim that the token had before except "jti", and each claim that it has after the serialization.
pub deserialize-serialize :
    (env : Services) (lib : JwtLibrary) (builder : Builder) (uuid : env.W → Str × env.W)
    (w w₁ w₂ w₃ : env.W) (t t₁ t₂ : SciToken) (issuer text public : Str) (allowed : List Str)
    (fuel : ℕ) (status : Status env)
    → serialize env lib builder uuid (w, t) ≡ (ok text, (w₁, t₁))
    → IsIssuable issuer t
    → (builder.run_builder
            (header_of t.m_serialize_profile t.m_key.m_kid)
            (issued_payload env uuid w t)
            t.m_key.m_name
            (Token.sign lib t.m_key)
          ≡ ok text
        → IsJwt lib
            (header_of t.m_serialize_profile t.m_key.m_kid)
            (issued_payload env uuid w t)
            t.m_key.m_name
            (Token.sign lib t.m_key)
            text)
    → IsPair lib t.m_key public
    → (env.time w).0 ≤ℤ (env.time w₂).0
    → (env.time w₂).0 ≤ℤ (env.time w).0 +ℤ t.m_lifetime
    → Expects t₂.m_deserialize_profile t.m_serialize_profile
    → Allows allowed issuer
    → get_public_key_pem env issuer t.m_key.m_kid (env.time w₂).1
      ≡ (ok (status, record { public_pem = public; algorithm = t.m_key.m_name }), w₃)
    → status.m_done ≡ true
    → (t₃ : SciToken) × (deserialize env lib fuel text allowed (w₂, t₂) ≡ (ok (some tt), (w₃, t₃)))
      × (t₃.m_profile ≡ produced t.m_serialize_profile)
      × ((name : Str) (value : Json)
          → str_eq (str "jti") name ≡ false
          → find name t.m_claims ≡ some value
          → find name t₃.m_claims ≡ some value)
      × ((name : Str) (value : Json)
          → find name t₁.m_claims ≡ some value
          → find name t₃.m_claims ≡ some value)
deserialize-serialize env lib builder uuid w w₁ w₂ w₃ t t₁ t₂ issuer text public allowed fuel status
      serialized issuable documented pair begun not_over expects allows found over =
    let (kept, built) = serialize-ok env uuid w t lib builder serialized in
    let token = documented built in
    let signed =
      token.accepted _ (env.time w₂).0 (sign-verify lib t.m_key public status.m_kid pair) (
        issued_payload-IsCurrent env lib uuid w t issuer text issuable token (env.time w₂).0 begun
          not_over) in
    (
      record t₂ {
        m_decoded = some token.jwt;
        m_claims = token.jwt.payload;
        m_profile = produced t.m_serialize_profile;
      },
      ap (λ text. deserialize env lib fuel text allowed (w₂, t₂)) (sym token.of_text)
          ∙ (deserialize-accepts env lib t.m_serialize_profile issuer t.m_key.m_kid token.jwt
              allowed fuel t₂ w₂ w₃ status
              (record { public_pem = public; algorithm = t.m_key.m_name })
              (ap lib.decode token.of_text ∙ token.decoded)
              (issued-IsComplete env lib uuid w t issuer text issuable token) expects allows found
              over signed),
      refl,
      λ name value other own.
          token.of_payload name ∙ payload-own env uuid w t issuer issuable name other own,
      λ name value own.
          token.of_payload name ∙ payload-claim env uuid w t issuer issuable name (rw kept at own),
    )
