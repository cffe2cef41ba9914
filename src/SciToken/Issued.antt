-- ===== src/SciToken/Issued.antt =====
-- What a serialization puts into a token.
use scitokens_cpp.Prelude.{
  ◌≡◌, refl, ap, sym, ◌∙◌, false, not, none, some, Str, str, str_eq, inl, inr, ok, ok-ne-throw,
  Json, string, integer, Members, find, put, ◌+ℤ◌,
}
use scitokens_cpp.Exec.{if-cases}
use scitokens_cpp.Profile.{Profile, compat, scitokens_1_0, scitokens_2_0, wlcg_1_0, at_jwt}
use scitokens_cpp.Fetch.{Services}
use scitokens_cpp.Token
use scitokens_cpp.Token.{JwtLibrary, is_some}
use scitokens_cpp.SciToken.{
  SciToken, Builder, profile_claims, set_payload_claims, dates, header_of, serialize,
}
use scitokens_cpp.SciToken.Maps.{IsMap, find-put_other, put-IsMap, find-set_free, find-set}
use scitokens_cpp.SciToken.Profiles.{
  Versioned, profile_claims-IsMap, find-profile_claims, profile_claims-Versioned,
  profile_claims_keeps,
}

-- A token that is to be issued: its claims name the issuer and leave the dates and the versions to
-- the serialization.
pub record IsIssuable (issuer : Str) (t : SciToken) : Type 0 where
  pub is_map : IsMap t.m_claims
  pub iss : find (str "iss") t.m_claims ≡ some (string issuer)
  pub iat : find (str "iat") t.m_claims ≡ none
  pub nbf : find (str "nbf") t.m_claims ≡ none
  pub exp : find (str "exp") t.m_claims ≡ none
  pub ver : find (str "ver") t.m_claims ≡ none
  pub wlcg : find (str "wlcg.ver") t.m_claims ≡ none

module _ (env : Services) (uuid : env.W → Str × env.W) (w : env.W) (t : SciToken) where
  -- The claims of a token that is issued, and its payload.
  abbrev pub issued_claims : Members
  issued_claims =
      profile_claims t.m_serialize_profile
        (put (str "jti") (string (uuid (env.time w).1).0) t.m_claims)

  abbrev pub issued_payload : Members
  issued_payload = set_payload_claims issued_claims (dates (env.time w).0 t.m_lifetime)

  pub serialize-ok :
      (lib : JwtLibrary) (builder : Builder) {text : Str} {w₁ : env.W} {t₁ : SciToken}
      → serialize env lib builder uuid (w, t) ≡ (ok text, (w₁, t₁))
      → (t₁ ≡ record t { m_claims = issued_claims })
        × (builder.run_builder
              (header_of t.m_serialize_profile t.m_key.m_kid)
              issued_payload
              t.m_key.m_name
              (Token.sign lib t.m_key)
            ≡ ok text)
  unfolding serialize
  serialize-ok lib builder {text} h = elim (if-cases (not t.m_issuer_set) _ _ (w, t) h) [
    | inl (unset, h₁) ↦ absurd (ok-ne-throw (sym (ap (λ p. p.0) h₁)))
    | inr (set, h₁) ↦ (sym (ap (λ p. p.1.1) h₁), ap (λ p. p.0) h₁)
  ]

  module _ (issuer : Str) (h : IsIssuable issuer t) where
    -- Where no profile sets a claim, the payload has the date that the builder starts with.
    date :
        (name : Str)
        → str_eq (str "aud") name ≡ false
        → str_eq (str "ver") name ≡ false
        → str_eq (str "wlcg.ver") name ≡ false
        → str_eq (str "jti") name ≡ false
        → find name t.m_claims ≡ none
        → find name issued_payload ≡ find name (dates (env.time w).0 t.m_lifetime)
    date name a v g j free = find-set_free name issued_claims (dates (env.time w).0 t.m_lifetime) (
        find-profile_claims t.m_serialize_profile name _ a v g
        ∙ find-put_other (str "jti") name _ t.m_claims j
        ∙ free)

    pub payload-iat : find (str "iat") issued_payload ≡ some (integer (env.time w).0)
    unfolding str str_eq find
    payload-iat = date (str "iat") refl refl refl refl h.iat

    pub payload-nbf : find (str "nbf") issued_payload ≡ some (integer (env.time w).0)
    unfolding str str_eq find
    payload-nbf = date (str "nbf") refl refl refl refl h.nbf

    pub payload-exp :
        find (str "exp") issued_payload ≡ some (integer ((env.time w).0 +ℤ t.m_lifetime))
    unfolding str str_eq find
    payload-exp = date (str "exp") refl refl refl refl h.exp

    issued_claims-IsMap : IsMap issued_claims
    issued_claims-IsMap =
        profile_claims-IsMap t.m_serialize_profile _ (put-IsMap (str "jti") _ t.m_claims h.is_map)

    -- What is among the claims that are issued stands in the payload.
    pub payload-claim :
        (name : Str) {value : Json}
        → find name issued_claims ≡ some value
        → find name issued_payload ≡ some value
    payload-claim name found =
        find-set name issued_claims (dates (env.time w).0 t.m_lifetime) issued_claims-IsMap found

    pub payload-own :
        (name : Str) {value : Json}
        → str_eq (str "jti") name ≡ false
        → find name t.m_claims ≡ some value
        → find name issued_payload ≡ some value
    unfolding str str_eq
    payload-own name other found = payload-claim name (
        profile_claims_keeps t.m_serialize_profile name _
          (find-put_other (str "jti") (str "ver") _ t.m_claims refl ∙ h.ver)
          (find-put_other (str "jti") (str "wlcg.ver") _ t.m_claims refl ∙ h.wlcg)
          (find-put_other (str "jti") name _ t.m_claims other ∙ found))

    issued_claims-Versioned : Versioned t.m_serialize_profile issued_claims
    unfolding str str_eq
    issued_claims-Versioned =
        profile_claims-Versioned t.m_serialize_profile _
          (find-put_other (str "jti") (str "ver") _ t.m_claims refl ∙ h.ver)
          (find-put_other (str "jti") (str "wlcg.ver") _ t.m_claims refl ∙ h.wlcg)

    -- A version that is not among the claims is not in the payload.
    absent :
        (name : Str)
        → find name (dates (env.time w).0 t.m_lifetime) ≡ none
        → find name issued_claims ≡ none
        → find name issued_payload ≡ none
    absent name undated free =
        find-set_free name issued_claims (dates (env.time w).0 t.m_lifetime) free ∙ undated

    payload_version :
        (profile : Profile) → Versioned profile issued_claims → Versioned profile issued_payload
    unfolding str str_eq find
    payload_version scitokens_2_0 (v, (aud, a)) =
        (payload-claim (str "ver") v, (aud, payload-claim (str "aud") a))
    payload_version wlcg_1_0 (v, g, (aud, a)) = (
      absent (str "ver") refl v,
      payload-claim (str "wlcg.ver") g,
      (aud, payload-claim (str "aud") a),
    )
    payload_version compat (v, g) = (absent (str "ver") refl v, absent (str "wlcg.ver") refl g)
    payload_version scitokens_1_0 (v, g) =
        (absent (str "ver") refl v, absent (str "wlcg.ver") refl g)
    payload_version at_jwt (v, g) = (absent (str "ver") refl v, absent (str "wlcg.ver") refl g)

    pub payload-Versioned : Versioned t.m_serialize_profile issued_payload
    payload-Versioned = payload_version t.m_serialize_profile issued_claims-Versioned
