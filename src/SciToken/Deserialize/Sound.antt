-- ===== src/SciToken/Deserialize/Sound.antt =====
-- What a deserialization that succeeds has checked.
use scitokens_cpp.Prelude.{
  false, none-ne-some, ◌≡◌, refl, ap, sym, ◌∙◌, ℕ, List, [], Option, none, some, Str, Result, ok,
  throw, undefined, ok-injective, ok-ne-throw, ok-ne-undefined,
}
use scitokens_cpp.Exec.{Exec, lift, pure, ◌>>◌, >>=-eq-ok}
use scitokens_cpp.Profile.{Profile}
use scitokens_cpp.Scope.{get_profile}
use scitokens_cpp.Fetch.{Services, Status}
use scitokens_cpp.Token.{DecodedJwt, JwtLibrary}
use scitokens_cpp.Validator.{new_validator}
use scitokens_cpp.Validator.Early.Required.{HasRequired}
use scitokens_cpp.Validator.Late.{Running}
use scitokens_cpp.Validator.Verify.{verify}
use scitokens_cpp.Validator.Verify.Rounds.{WasVerified}
use scitokens_cpp.Validator.Verify.Runs.{verify-WasVerified}
use scitokens_cpp.SciToken.{SciToken}
use scitokens_cpp.SciToken.Deserialize.{
  TokenValidator, deserialize_validator, beside, run_validator, take_claims, deserialize,
}

module _ (env : Services) (lib : JwtLibrary) where
  -- The state in which the validator of a deserialization starts, in a mode.
  abbrev pub reading : env.W → List Str → Profile → Running env.W (Unit {0})
  reading w allowed mode = record {
    outside = (env.time w).1;
    validator = record (new_validator (env.time w).0) {
      m_allowed_issuers = allowed;
      m_validate_all_claims = false;
      m_validate_profile = mode;
    };
    user = tt;
  }

  -- A token that was read from a text in a world and a mode: it holds the claims of the token that the
  -- text is decoded to, which has an allowed issuer and was verified, and the profile with which the
  -- verification of that token ended.
  pub record IsRead (fuel : ℕ) (w : env.W) (mode : Profile) (text : Str) (allowed : List Str)
      (t : SciToken) : Type 0 where
    pub jwt : DecodedJwt
    pub decoded : lib.decode text ≡ ok jwt
    pub kept : t.m_decoded ≡ some jwt
    pub claims : t.m_claims ≡ jwt.payload
    pub early_profile : Profile
    pub required : HasRequired early_profile allowed [] jwt
    pub ended : Running env.W (Unit {0})
    pub status : Status env
    pub ran :
        verify env lib (Unit {0}) fuel jwt (reading w allowed mode) ≡ (ok (some status), ended)
    pub verified : WasVerified env lib (Unit {0}) jwt ended
    pub profile : get_profile ended.validator.m_profile ≡ ok t.m_profile

  beside-ok :
      {A : Type 0} (r : Result A) (v : TokenValidator) {p : A × TokenValidator}
      → beside env lib r v ≡ ok p
      → (r ≡ ok p.0) × (v ≡ p.1)
  beside-ok (ok a) v h = (ap (λ q. ok q.0) (ok-injective h), ap (λ q. q.1) (ok-injective h))
  beside-ok (throw e) v h = absurd (ok-ne-throw (sym h))
  beside-ok undefined v h = absurd (ok-ne-undefined (sym h))

  take_claims-ok :
      (jwt : DecodedJwt) (v : TokenValidator) (w w' : env.W) (t t' : SciToken) {u : Unit {0}}
      → take_claims env lib jwt v (w, t) ≡ (ok u, (w', t'))
      → (t'.m_decoded ≡ t.m_decoded)
        × (t'.m_claims ≡ jwt.payload)
        × (get_profile v.m_profile ≡ ok t'.m_profile)
  unfolding take_claims
  take_claims-ok jwt v w w' t t' h =
      let (profile, e, h₁) = >>=-eq-ok (lift (get_profile v.m_profile)) _ _ h in
      let same = ap (λ p. p.1.1) h₁ in
      (
        ap (λ (s : SciToken). s.m_decoded) (sym same),
        ap (λ (s : SciToken). s.m_claims) (sym same),
        e ∙ ap (λ (s : SciToken). ok s.m_profile) same,
      )

  abbrev finish :
      DecodedJwt
      → TokenValidator
      → Option (Status env)
      → Exec (env.W × SciToken) (Option (Unit {0}))
  finish jwt v done = elim done [
    | none ↦ pure none
    | some status ↦ (do take_claims env lib jwt v; pure (some tt))
  ]

  -- The end of a deserialization whose verification is over.
  finished :
      (jwt : DecodedJwt) (done : Option (Status env)) (v : TokenValidator) (s s' : env.W × SciToken)
      → finish jwt v done s ≡ (ok (some tt), s')
      → (status : Status env) × (done ≡ some status) × (take_claims env lib jwt v s ≡ (ok tt, s'))
  finished jwt none v s s' h = absurd (none-ne-some (ok-injective (ap (λ p. p.0) h)))
  finished jwt (some status) v s s' h =
      let (u, e, h₁) = >>=-eq-ok (take_claims env lib jwt v) _ s h in
      (status, refl, λ i. (e i, (h₁ i).1))

  -- A token that is deserialized from a text holds the claims of the token that jwt-cpp decodes the
  -- text to. That token was verified, however many rounds the verification took: jwt-cpp's verifier
  -- accepted its text with the key that a key set publishes under its key ID, a profile was chosen
  -- for it, and every claim passed. The profile that is held is the one with which the run of that
  -- verification, by a new validator in the mode of the token object, ended. It has the mandatory claims and an
  -- issuer among those that are allowed, if any are named.
  pub deserialize-IsRead :
      (fuel : ℕ) (text : Str) (allowed : List Str) (w w' : env.W) (t t' : SciToken)
      → deserialize env lib fuel text allowed (w, t) ≡ (ok (some tt), (w', t'))
      → IsRead fuel w t.m_deserialize_profile text allowed t'
  unfolding deserialize deserialize_validator
  deserialize-IsRead fuel text allowed w w' t t' h =
      let (jwt, e, h₁) = >>=-eq-ok (lift (lib.decode text)) _ (w, t) h in
      let v = deserialize_validator (env.time w).0 allowed t.m_deserialize_profile in
      let t₁ : SciToken = record t { m_decoded = some jwt } in
      let s : env.W × SciToken = ((env.time w).1, t₁) in
      let r : Running env.W (Unit {0}) = record {
        outside = (env.time w).1;
        validator = v;
        user = tt;
      } in
      let run = verify env lib (Unit {0}) fuel jwt r in
      let (done, e₁, h₂) =
        >>=-eq-ok (run_validator env lib v (verify env lib (Unit {0}) fuel jwt)) _ s h₁ in
      let (ran, left) = beside-ok run.0 run.1.validator e₁ in
      let (status, over, h₃) = finished jwt done.0 done.1 _ (w', t') h₂ in
      let (kept, claims, profile) = take_claims-ok jwt done.1 run.1.outside w' t₁ t' h₃ in
      let ends : run ≡ (ok (some status), run.1) = λ i. ((ran ∙ ap ok over) i, run.1) in
      let ((early_profile, required), verified) =
        verify-WasVerified env lib (Unit {0}) fuel jwt status r run.1 ends in
      record {
        jwt = jwt;
        decoded = e;
        kept = kept;
        claims = claims;
        early_profile = early_profile;
        required = required;
        ended = run.1;
        status = status;
        ran = ends;
        verified = verified;
        profile = ap (λ (u : TokenValidator). get_profile u.m_profile) left ∙ profile;
      }
