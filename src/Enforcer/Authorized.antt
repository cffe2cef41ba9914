-- ===== src/Enforcer/Authorized.antt =====
-- What an enforcer has checked when it answers a test with yes.
use mathlib.Core.List.{Memᴰ}
use mathlib.Core.Path.{subst}
use scitokens_cpp.Prelude.{
  none-ne-some, some-injective, true-ne-false, ◌≡◌, refl, ap, sym, ◌∙◌, ◌⊎◌, inl, inr, ℕ, Bool,
  true, false, not, List, [], ◌∷◌, Option, some, Str, str, str_eq, str_eq_iff, ok, ok-injective,
  Bool-cases, is_empty, any, All, if◌then◌else◌, Json, Members, no_members, member, find, pos, ℤ,
}
use scitokens_cpp.Profile.{Profile}
use scitokens_cpp.Fetch.{Services, Status}
use scitokens_cpp.Token.{
  DecodedJwt, JwtLibrary, is_some-eq, has_payload_claim, payload_string, members,
}
use scitokens_cpp.Scope.{EnforcerState, scope_validator}
use scitokens_cpp.Scope.Granted.{fixed, IsGranted, scope_validator-IsGranted}
use scitokens_cpp.Validator.{Validator, ClaimValidatorFunction, functions, add_function}
use scitokens_cpp.Validator.Early.Required.{HasRequired}
use scitokens_cpp.Validator.Late.{is_timestamp}
use scitokens_cpp.Validator.Late.Claims.{AcceptsClaim, IsChecked, run_claims-IsChecked}
use scitokens_cpp.Validator.Verify.{verify_scitoken}
use scitokens_cpp.Validator.Verify.Rounds.{WasVerified}
use scitokens_cpp.Validator.Verify.Runs.{verify_scitoken-WasVerified, verify_scitoken-HasRequired}
use scitokens_cpp.Validator.Late.Kept.{configuration}
use scitokens_cpp.Validator.Verify.Kept.{verify_scitoken-Keeps}
use scitokens_cpp.Enforcer.{
  Enforcing, reset_state, test, new_enforcer_validator, claim_audiences, aud_validator,
}
use scitokens_cpp.Enforcer.Audience.{permits, aud_validator-ok}
use scitokens_cpp.Enforcer.Answers.{testing, deadline, test-ends}
use scitokens_cpp.Enforcer.Kept.{
  IsFixed, settings, IsEnforcer, settings-Stays, Verifies, Verifies-self, Verifies-IsEnforcer,
  testing-IsEnforcer,
}
use scitokens_cpp.Enforcer.Life.{Lives, Lives-IsEnforcer}

-- What holds of every member of an object holds of one that is found.
find-All :
    (P : Str × Json → Type 0) (key : Str) (ms : Members) {claim : Json}
    → find key ms ≡ some claim
    → All P (members ms)
    → P (key, claim)
unfolding find members
find-All P key no_members h all = absurd (none-ne-some h)
find-All P key (member k v ms) {claim} h all = elim (Bool-cases (str_eq k key)) [
  | inl same ↦
      let here : v ≡ claim = some-injective (rw same at h) in
      subst P (λ i. ((str_eq_iff k key).0 same i, here i)) all.0
  | inr other ↦ find-All P key ms (rw other at h) all.1
]

cons-ne-nil : {a : Str} {l : List Str} → (a ∷ l) ≡ [] → ⊥
cons-ne-nil h = cc

only-Memᴰ : {a b : Str} → Memᴰ a (b ∷ []) → a ≡ b
only-Memᴰ (Memᴰ.head e) = e
only-Memᴰ (Memᴰ.tail m) = elim m [ ]

not-stamp : (key : Str) {A : Type 0} → is_timestamp key ≡ false → (is_timestamp key ≡ true) ⊎ A → A
not-stamp key other (inl stamp) = absurd (true-ne-false (sym stamp ∙ other))
not-stamp key other (inr a) = a

-- The critical claims of an enforcer.
abbrev pub critical : List Str → List Str
critical audiences =
    if not (is_empty audiences) then str "scope" ∷ str "aud" ∷ [] else str "scope" ∷ []

pub critical-All :
    (P : Str → Type 0) (audiences : List Str)
    → All P (critical audiences)
    → P (str "scope") × (is_empty audiences ≡ false → P (str "aud"))
critical-All P [] h = (h.0, λ e. absurd (true-ne-false e))
critical-All P (a ∷ rest) h = (h.0, λ e. h.1.0)

-- A claim that is there, with its value.
pub present :
    (jwt : DecodedJwt) (name : Str)
    → has_payload_claim jwt name ≡ true
    → (claim : Json) × (find name jwt.payload ≡ some claim)
unfolding has_payload_claim
present jwt name h = is_some-eq (find name jwt.payload) h

module _ (env : Services) (lib : JwtLibrary) (issuer : Str) (audiences : List Str) where
  -- A token that an enforcer has found to authorize `authz` on `path` with its mode
  -- `validate_profile`, as a token of the profile `profile`.
  pub record IsAuthorized (validate_profile profile : Profile) (authz path : Str) (jwt : DecodedJwt)
      : Type 0 where
    pub of_issuer : payload_string jwt (str "iss") ≡ ok issuer
    pub scope : Json
    pub has_scope : find (str "scope") jwt.payload ≡ some scope
    pub granted : IsGranted validate_profile profile authz path scope
    pub for_audience :
        (claim : Json)
        → find (str "aud") jwt.payload ≡ some claim
        → (auds : List Str) × (claim_audiences claim ≡ ok auds)
          × (any (permits profile audiences) auds ≡ true)
    pub has_audience : is_empty audiences ≡ false → has_payload_claim jwt (str "aud") ≡ true

  -- The claim validators of the two claims.
  pub registered :
      (v : Validator EnforcerState)
      → settings v ≡ settings (new_enforcer_validator (pos 0) issuer audiences)
      → (functions (str "scope") v.m_claim_validators ≡ scope_validator ∷ [])
        × (functions (str "aud") v.m_claim_validators ≡ aud_validator ∷ [])
  unfolding new_enforcer_validator add_function functions str_eq str
  registered v h = (
    ap (λ (u : Validator EnforcerState). functions (str "scope") u.m_claim_validators) h,
    ap (λ (u : Validator EnforcerState). functions (str "aud") u.m_claim_validators) h,
  )

  -- The checks that the claims of a verified token have passed, in the state behind the validators
  -- that the end of the verification shows.
  WasVerified-claims :
      (jwt : DecodedJwt) (r' : Enforcing env lib)
      → lib.decode jwt.token ≡ ok jwt
      → WasVerified env lib EnforcerState jwt r'
      → IsEnforcer env lib issuer audiences r'
      → (must : Bool) × (v : Validator EnforcerState) × (v ≡ r'.validator)
        × All (IsChecked (IsFixed r'.user) must v) (members jwt.payload)
  WasVerified-claims jwt r' decoded w h =
      let checks = w.verified in
      let same : checks.jwt ≡ jwt =
        ok-injective (sym checks.decoded ∙ ap lib.decode w.of_token.0 ∙ decoded) in
      let chosen = checks.chosen in
      let (checked, kept, last) =
        run_claims-IsChecked (IsFixed chosen.user) checks.must (members checks.jwt.payload) chosen
          r'
          (settings-Stays issuer audiences chosen.validator chosen.user
            (ap settings (sym checks.kept) ∙ h.configured))
          refl checks.ran in
      (
        checks.must,
        chosen.validator,
        sym kept,
        subst
            (λ (x : EnforcerState × DecodedJwt).
              All
                (IsChecked (λ (user : EnforcerState). fixed user ≡ x.0) checks.must
                  chosen.validator)
                (members x.1.payload))
            (λ i. (sym last i, same i)) checked,
      )

  -- The one claim validator of a claim of a verified token accepted it, in a state behind it that
  -- differs from the last one in the list of ACLs alone.
  validator-accepts :
      (jwt : DecodedJwt) (r' : Enforcing env lib) (name : Str)
      (f : ClaimValidatorFunction EnforcerState) {claim : Json}
      → lib.decode jwt.token ≡ ok jwt
      → WasVerified env lib EnforcerState jwt r'
      → IsEnforcer env lib issuer audiences r'
      → is_timestamp name ≡ false
      → functions name r'.validator.m_claim_validators ≡ f ∷ []
      → find name jwt.payload ≡ some claim
      → AcceptsClaim (IsFixed r'.user) r'.validator.m_profile claim f
  validator-accepts jwt r' name f {claim} decoded w h other only found =
      let (must, v, same, checked) = WasVerified-claims jwt r' decoded w h in
      let (_, (strings, claims)) =
        not-stamp name other
          (find-All (IsChecked (IsFixed r'.user) must v) name jwt.payload found checked) in
      let accepted =
        subst
          (λ (u : Validator EnforcerState).
            All (AcceptsClaim (IsFixed r'.user) u.m_profile claim)
              (functions name u.m_claim_validators))
          same claims in
      (subst (All (AcceptsClaim (IsFixed r'.user) r'.validator.m_profile claim)) only accepted).0

  scope-IsGranted :
      (jwt : DecodedJwt) (r' : Enforcing env lib) {claim : Json}
      → lib.decode jwt.token ≡ ok jwt
      → WasVerified env lib EnforcerState jwt r'
      → IsEnforcer env lib issuer audiences r'
      → is_empty r'.user.m_test_authz ≡ false
      → find (str "scope") jwt.payload ≡ some claim
      → IsGranted r'.user.m_validate_profile r'.validator.m_profile r'.user.m_test_authz
          r'.user.m_test_path claim
  unfolding str str_eq
  scope-IsGranted jwt r' {claim} decoded w h test found =
      let (user, next, user_fixed, accepted) =
        validator-accepts jwt r' (str "scope") scope_validator decoded w h refl
          (registered r'.validator h.configured).0 found in
      let test_here : is_empty user.m_test_authz ≡ false =
        ap (λ (me : EnforcerState). is_empty me.m_test_authz) user_fixed ∙ test in
      subst
        (λ (me : EnforcerState).
          IsGranted me.m_validate_profile r'.validator.m_profile me.m_test_authz me.m_test_path
            claim)
        user_fixed (scope_validator-IsGranted r'.validator.m_profile user claim test_here accepted)

  pub aud-permits :
      (jwt : DecodedJwt) (r' : Enforcing env lib) (claim : Json)
      → lib.decode jwt.token ≡ ok jwt
      → WasVerified env lib EnforcerState jwt r'
      → IsEnforcer env lib issuer audiences r'
      → find (str "aud") jwt.payload ≡ some claim
      → (auds : List Str) × (claim_audiences claim ≡ ok auds)
        × (any (permits r'.validator.m_profile audiences) auds ≡ true)
  unfolding str str_eq
  aud-permits jwt r' claim decoded w h found =
      let (user, next, user_fixed, accepted) =
        validator-accepts jwt r' (str "aud") aud_validator decoded w h refl
          (registered r'.validator h.configured).1 found in
      let (auds, read, permitted) = aud_validator-ok r'.validator.m_profile claim user accepted in
      let own : user.m_audiences ≡ audiences =
        ap (λ (me : EnforcerState). me.m_audiences) user_fixed ∙ h.of_audiences in
      (auds, read, subst (λ l. any (permits r'.validator.m_profile l) auds ≡ true) own permitted)

  pub issuer-eq :
      (jwt : DecodedJwt) {profile : Profile} {allowed claims : List Str}
      → allowed ≡ issuer ∷ []
      → HasRequired profile allowed claims jwt
      → payload_string jwt (str "iss") ≡ ok issuer
  issuer-eq jwt e required = elim required.issuer [
    | inl none_allowed ↦ absurd (cons-ne-nil (sym e ∙ none_allowed))
    | inr (found, read, allowed_here) ↦ read ∙ ap ok (only-Memᴰ (subst (Memᴰ found) e allowed_here))
  ]

  -- The state in which a verification has ended.
  pub ended-Verifies :
      (fuel : ℕ) (m_decoded : Option DecodedJwt) (expiry_time : ℤ) (r r' : Enforcing env lib)
      (h : IsEnforcer env lib issuer audiences r) {t : Option (Status env)}
      → verify_scitoken env lib EnforcerState fuel m_decoded expiry_time r ≡ (ok t, r')
      → Verifies env lib issuer audiences r h r'
  ended-Verifies fuel m_decoded expiry_time r r' h ends =
      let keeps =
        verify_scitoken-Keeps env lib (configuration r.validator) (IsFixed r.user)
          (settings-Stays issuer audiences r.validator r.user h.configured) fuel m_decoded
          expiry_time in
      subst (Verifies env lib issuer audiences r h) (ap (λ p. p.1) ends)
        (keeps.at r (Verifies-self env lib issuer audiences r h))

  verified-IsAuthorized :
      (fuel : ℕ) (jwt : DecodedJwt) (expiry_time : ℤ) (status : Status env)
      (r r' : Enforcing env lib)
      → IsEnforcer env lib issuer audiences r
      → is_empty r.user.m_test_authz ≡ false
      → lib.decode jwt.token ≡ ok jwt
      → WasVerified env lib EnforcerState jwt r'
      → verify_scitoken env lib EnforcerState fuel (some jwt) expiry_time r ≡ (ok (some status), r')
      → IsAuthorized r.user.m_validate_profile r'.validator.m_profile r.user.m_test_authz
          r.user.m_test_path jwt
  unfolding new_enforcer_validator
  verified-IsAuthorized fuel jwt expiry_time status r r' e asked decoded w ends =
      let (_, required) =
        verify_scitoken-HasRequired env lib EnforcerState fuel jwt expiry_time r r' ends in
      let k = ended-Verifies fuel (some jwt) expiry_time r r' e ends in
      let e' = Verifies-IsEnforcer env lib issuer audiences r e r' k in
      let (has_scope, has_audience) =
        critical-All (λ claim. has_payload_claim jwt claim ≡ true) audiences
          (subst (All (λ claim. has_payload_claim jwt claim ≡ true))
            (ap (λ (v : Validator EnforcerState). v.m_critical_claims) e.configured)
            required.critical_claims) in
      let (scope, found) = present jwt (str "scope") has_scope in
      let asked' : is_empty r'.user.m_test_authz ≡ false =
        ap (λ (me : EnforcerState). is_empty me.m_test_authz) k.behind ∙ asked in
      record {
        of_issuer =
            issuer-eq jwt (ap (λ (v : Validator EnforcerState). v.m_allowed_issuers) e.configured)
              required;
        scope = scope;
        has_scope = found;
        granted =
            subst
              (λ (me : EnforcerState).
                IsGranted me.m_validate_profile r'.validator.m_profile me.m_test_authz
                  me.m_test_path scope)
              k.behind (scope-IsGranted jwt r' decoded w e' asked' found);
        for_audience = λ claim there. aud-permits jwt r' claim decoded w e' there;
        has_audience = has_audience;
      }

  -- An enforcer that was made for an issuer and some audiences, and has been through any operations,
  -- answers a test of an authorization on a path with yes only if the decoded token, whose text jwt-cpp
  -- decodes to it, is from that issuer; has a scope claim that grants the authorization on the
  -- normalized path; has an audience claim if the enforcer has audiences; names in an audience claim
  -- one of them or the wildcard of its profile; and was verified: jwt-cpp's verifier accepted its text
  -- with the key that a key set publishes under its key ID, and every claim passed. The authorization
  -- tested is not empty.
  pub test-IsAuthorized :
      (fuel : ℕ) (jwt : DecodedJwt) (authz path : Str) {answer : Bool} (r r' : Enforcing env lib)
      → Lives env lib issuer audiences r
      → is_empty authz ≡ false
      → lib.decode jwt.token ≡ ok jwt
      → test env lib fuel (some jwt) authz path r ≡ (ok (some answer), r')
      → IsAuthorized r.user.m_validate_profile r'.validator.m_profile authz path jwt
        × WasVerified env lib EnforcerState jwt r'
  test-IsAuthorized fuel jwt authz path r r' life asked decoded h =
      let (_, (status, ends)) = test-ends env lib fuel (some jwt) authz path r r' h in
      let r₁ = testing env lib authz path r in
      let e₁ =
        testing-IsEnforcer env lib issuer audiences authz path r
          (Lives-IsEnforcer env lib issuer audiences life) in
      let (found, same, w) =
        verify_scitoken-WasVerified env lib EnforcerState fuel (some jwt) (deadline env lib r)
          status r₁ r' ends in
      let w' = subst (λ j. WasVerified env lib EnforcerState j r') (sym (some-injective same)) w in
      (
        unfold reset_state in
            verified-IsAuthorized fuel jwt (deadline env lib r) status r₁ r' e₁ asked decoded w'
              ends,
        w',
      )
