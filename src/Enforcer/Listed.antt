-- ===== src/Enforcer/Listed.antt =====
-- What an enforcer has checked when it lists ACLs, and which they are.
use mathlib.Core.Path.{subst}
use scitokens_cpp.Prelude.{
  ◌≡◌, ap, sym, ◌∙◌, ℕ, true, false, some-injective, List, [], some, Str, str, ok, ok-injective,
  is_empty, any, All, Json, find,
}
use scitokens_cpp.Profile.{Profile}
use scitokens_cpp.Fetch.{Services}
use scitokens_cpp.Token.{DecodedJwt, JwtLibrary, has_payload_claim, payload_string}
use scitokens_cpp.Scope.{AclsList, EnforcerState, scope_validator}
use scitokens_cpp.SciToken.Maps.{IsMap}
use scitokens_cpp.Validator.{Validator}
use scitokens_cpp.Validator.Verify.Rounds.{WasVerified, Reached}
use scitokens_cpp.Validator.Verify.Runs.{verify_scitoken-Reached, verify_scitoken-HasRequired}
use scitokens_cpp.Enforcer.{
  Enforcing, reset_state, generate_acls, claim_audiences, new_enforcer_state,
  new_enforcer_validator,
}
use scitokens_cpp.Enforcer.Audience.{permits}
use scitokens_cpp.Enforcer.Answers.{listing, deadline, generate_acls-ends}
use scitokens_cpp.Enforcer.Kept.{IsEnforcer, settings, Verifies-IsEnforcer, listing-IsEnforcer}
use scitokens_cpp.Enforcer.Life.{Lives, Lives-IsEnforcer}
use scitokens_cpp.Enforcer.Authorized.{
  critical-All, present, aud-permits, issuer-eq, ended-Verifies,
}
use scitokens_cpp.Enforcer.Behind.{run_claims-scope}

module _ (env : Services) (lib : JwtLibrary) (issuer : Str) (audiences : List Str) where
  -- A new enforcer in a mode, which has no ACLs and tests nothing.
  abbrev pub lister : Profile → EnforcerState
  lister validate_profile = record (new_enforcer_state issuer audiences) {
    m_validate_profile = validate_profile;
  }

  -- A token for which an enforcer of the mode `validate_profile` lists `acls`, as a token of the profile
  -- `profile`.
  pub record IsListed (validate_profile profile : Profile) (jwt : DecodedJwt) (acls : AclsList)
      : Type 0 where
    pub of_issuer : payload_string jwt (str "iss") ≡ ok issuer
    pub scope : Json
    pub has_scope : find (str "scope") jwt.payload ≡ some scope
    pub valid : (scope_validator profile scope (lister validate_profile)).0 ≡ ok true
    pub of_scope : acls ≡ (scope_validator profile scope (lister validate_profile)).1.m_gen_acls
    pub for_audience :
        (claim : Json)
        → find (str "aud") jwt.payload ≡ some claim
        → (auds : List Str) × (claim_audiences claim ≡ ok auds)
          × (any (permits profile audiences) auds ≡ true)
    pub has_audience : is_empty audiences ≡ false → has_payload_claim jwt (str "aud") ≡ true

  -- The fields from which a listing starts are those of a new enforcer in the mode.
  listing-lister :
      (r : Enforcing env lib)
      → IsEnforcer env lib issuer audiences r
      → (listing env lib r).user ≡ lister r.user.m_validate_profile
  unfolding reset_state
  listing-lister r h = λ i. record {
    m_validate_profile = r.user.m_validate_profile;
    m_test_path = [];
    m_test_authz = [];
    m_gen_acls = [];
    m_issuer = h.of_issuer i;
    m_audiences = h.of_audiences i;
  }

  -- The enforcer's fields behind the checks of a token: what the scope validator leaves of the fields
  -- with which they started.
  scope-left :
      (me : EnforcerState) (jwt : DecodedJwt) (r' : Enforcing env lib) {scope : Json}
      → lib.decode jwt.token ≡ ok jwt
      → IsMap jwt.payload
      → Reached env lib EnforcerState me jwt r'
      → IsEnforcer env lib issuer audiences r'
      → find (str "scope") jwt.payload ≡ some scope
      → ((scope_validator r'.validator.m_profile scope me).0 ≡ ok true)
        × (r'.user ≡ (scope_validator r'.validator.m_profile scope me).1)
  unfolding new_enforcer_validator
  scope-left me jwt r' {scope} decoded is_map (w, start) h found =
      let checks = w.verified in
      let same : jwt ≡ checks.jwt =
        sym (ok-injective (sym checks.decoded ∙ ap lib.decode w.of_token.0 ∙ decoded)) in
      let left =
        run_claims-scope issuer audiences checks.must checks.jwt.payload checks.chosen r'
          {scope = scope}
          (ap (λ (v : Validator EnforcerState). v.m_claim_validators)
            (ap settings (sym checks.kept) ∙ h.configured))
          (subst (λ (j : DecodedJwt). IsMap j.payload) same is_map)
          (ap (λ (j : DecodedJwt). find (str "scope") j.payload) (sym same) ∙ found) checks.ran in
      let from : checks.chosen.user ≡ me =
        ap (λ (x : Enforcing env lib). x.user) checks.selected.only_profile ∙ start in
      subst
        (λ (p : Profile × EnforcerState).
          ((scope_validator p.0 scope p.1).0 ≡ ok true)
          × (r'.user ≡ (scope_validator p.0 scope p.1).1))
        (λ i. ((sym checks.kept i).m_profile, from i)) left

  -- An enforcer that was made for an issuer and some audiences, and has been through any operations,
  -- generates ACLs only if the decoded token, whose text jwt-cpp decodes to it, is from that issuer, has
  -- an audience claim if the enforcer has audiences, names in an audience claim one of them or the
  -- wildcard of its profile, and was verified: jwt-cpp's verifier accepted its text with the key that a
  -- key set publishes under its key ID, and every claim passed. The ACLs are then those that the scope
  -- validator lists for the scope of that token in a new enforcer of the same mode: none are left of an
  -- earlier token. No name stands twice in the payload.
  pub generate_acls-IsListed :
      (fuel : ℕ) (jwt : DecodedJwt) {acls : AclsList} (r r' : Enforcing env lib)
      → Lives env lib issuer audiences r
      → lib.decode jwt.token ≡ ok jwt
      → IsMap jwt.payload
      → generate_acls env lib fuel (some jwt) r ≡ (ok (some acls), r')
      → IsListed r.user.m_validate_profile r'.validator.m_profile jwt acls
        × WasVerified env lib EnforcerState jwt r'
  unfolding new_enforcer_validator reset_state
  generate_acls-IsListed fuel jwt {acls} r r' life decoded is_map h =
      let (held, (status, ends)) = generate_acls-ends env lib fuel (some jwt) r r' h in
      let r₁ = listing env lib r in
      let e = Lives-IsEnforcer env lib issuer audiences life in
      let e₁ = listing-IsEnforcer env lib issuer audiences r e in
      let (found, same, (w, start)) =
        verify_scitoken-Reached env lib EnforcerState fuel (some jwt) (deadline env lib r) status r₁
          r' ends in
      let reached =
        subst (λ j. Reached env lib EnforcerState r₁.user j r') (sym (some-injective same))
          (w, start) in
      let e' = Verifies-IsEnforcer env lib issuer audiences r₁ e₁ r' (
        ended-Verifies env lib issuer audiences fuel (some jwt) (deadline env lib r) r₁ r' e₁
          ends) in
      let (profile, required) =
        verify_scitoken-HasRequired env lib EnforcerState fuel jwt (deadline env lib r) r₁ r'
          ends in
      let (has_scope, has_audience) =
        critical-All (λ claim. has_payload_claim jwt claim ≡ true) audiences
          (subst (All (λ claim. has_payload_claim jwt claim ≡ true))
            (ap (λ (v : Validator EnforcerState). v.m_critical_claims) e₁.configured)
            required.critical_claims) in
      let (scope, there) = present jwt (str "scope") has_scope in
      let (valid, left) = scope-left r₁.user jwt r' decoded is_map reached e' there in
      let fields = listing-lister r e in
      let p = r'.validator.m_profile in
      (
        record {
          of_issuer =
              issuer-eq env lib issuer audiences jwt
                (ap (λ (v : Validator EnforcerState). v.m_allowed_issuers) e₁.configured) required;
          scope = scope;
          has_scope = there;
          valid = ap (λ me. (scope_validator p scope me).0) (sym fields) ∙ valid;
          of_scope =
              held
              ∙ ap (λ (me : EnforcerState). me.m_gen_acls) left
              ∙ ap (λ me. (scope_validator p scope me).1.m_gen_acls) fields;
          for_audience =
              λ claim. aud-permits env lib issuer audiences jwt r' claim decoded reached.0 e';
          has_audience = has_audience;
        },
        reached.0,
      )
