-- ===== src/Api/Trust/Authorized.antt =====
-- A token that `scitoken_deserialize` gave, and `enforcer_test` accepts, of src/scitokens.cpp.
use scitokens_cpp.Prelude.{
  some-injective, ◌≡◌, refl, ap, sym, ◌∙◌, ℕ, true, false, List, Option, none, some, Str, Result,
  ok, throw, undefined, is_empty,
}
use scitokens_cpp.Fetch.{Services}
use scitokens_cpp.Token.{DecodedJwt, JwtLibrary}
use scitokens_cpp.Profile.{compat}
use scitokens_cpp.Scope.{EnforcerState}
use scitokens_cpp.SciToken.{SciToken, new_scitoken}
use scitokens_cpp.SciToken.Deserialize.{deserialize}
use scitokens_cpp.SciToken.Deserialize.Sound.{IsRead, deserialize-IsRead}
use scitokens_cpp.Validator.Verify.Rounds.{WasVerified}
use scitokens_cpp.Enforcer.{Enforcing, test}
use scitokens_cpp.Enforcer.Life.{Lives}
use scitokens_cpp.Enforcer.Authorized.{IsAuthorized, test-IsAuthorized}
use scitokens_cpp.Api.{success, reply}
use scitokens_cpp.Api.Serialized.{
  no_signing_key, or_empty, written_token, scitoken_deserialize, scitoken_deserialize_v2,
}
use scitokens_cpp.Api.Trust.{enforcer_test}
use scitokens_cpp.Api.Trust.Answers.{test_reply-success}

success-injective : {a b : Option SciToken} → success a ≡ success b → a ≡ b
success-injective h = cc

module _ (env : Services) (lib : JwtLibrary) where
  -- A token that is written was read.
  written :
      (token : Option SciToken) (r : Result (Option (Unit {0}))) {t : SciToken}
      → written_token env lib token (reply r) ≡ success (some t)
      → (r ≡ ok (some tt)) × (token ≡ some t)
  written token (ok none) h = absurd (cc)
  written token (ok (some done)) h = (refl, success-injective h)
  written token (throw e) h = absurd (cc)
  written token undefined h = absurd (cc)

  pub scitoken_deserialize-IsRead :
      (fuel : ℕ) (text : Str) (allowed : Option (List Str)) (w w₁ : env.W) (t : SciToken)
      → scitoken_deserialize env lib fuel (some text) true allowed w ≡ (success (some t), w₁)
      → IsRead env lib fuel w compat text (or_empty allowed) t
  unfolding scitoken_deserialize scitoken_deserialize_v2
  scitoken_deserialize-IsRead fuel text allowed w w₁ t h =
      let run = deserialize env lib fuel text (or_empty allowed) (w, new_scitoken no_signing_key) in
      let (ended, same) = written (some run.1.1) run.0 (ap (λ p. p.0) h) in
      deserialize-IsRead env lib fuel text (or_empty allowed) w run.1.0
        (new_scitoken no_signing_key) t (λ i. (ended i, (run.1.0, some-injective same i)))

  -- If `scitoken_deserialize` gave a token for a text, and `enforcer_test` answers 0 for that token and
  -- an authorization that is not empty, with an enforcer that was made for an issuer and some
  -- audiences and has been through any operations, then the token that jwt-cpp decodes the text to is
  -- authorized: it is from that issuer, its scope grants the authorization on the normalized path, and
  -- it is for one of the audiences or for the wildcard of its profile. That token was verified twice,
  -- by the deserialization and by the test. A token that jwt-cpp decodes has the text it is decoded from.
  pub enforcer_test-scitoken_deserialize :
      (issuer : Str) (audiences : List Str) (fuel fuel' : ℕ) (text authz path : Str)
      (allowed : Option (List Str)) (w w₁ : env.W) (t : SciToken) (enf enf' : Enforcing env lib)
      → ((x : Str) (jwt : DecodedJwt) → lib.decode x ≡ ok jwt → jwt.token ≡ x)
      → scitoken_deserialize env lib fuel (some text) true allowed w ≡ (success (some t), w₁)
      → Lives env lib issuer audiences enf
      → is_empty authz ≡ false
      → enforcer_test env lib fuel' (some t) (some (authz, path)) (some enf)
        ≡ (success (some tt), some enf')
      → (read : IsRead env lib fuel w compat text (or_empty allowed) t) × IsAuthorized env lib
          issuer audiences enf.user.m_validate_profile enf'.validator.m_profile authz path read.jwt
        × WasVerified env lib EnforcerState read.jwt enf'
  unfolding enforcer_test
  enforcer_test-scitoken_deserialize issuer audiences fuel fuel' text authz path allowed w w₁ t enf
        enf' of_text deserialized life asked h =
      let read = scitoken_deserialize-IsRead fuel text allowed w w₁ t deserialized in
      let run = test env lib fuel' t.m_decoded authz path enf in
      let answered = test_reply-success run.0 (ap (λ p. p.0) h) in
      let same : run.1 ≡ enf' = some-injective (ap (λ p. p.1) h) in
      let tested : test env lib fuel' (some read.jwt) authz path enf ≡ (ok (some true), enf') =
        ap (λ d. test env lib fuel' d authz path enf) (sym read.kept)
        ∙ (λ i. (answered i, same i)) in
      let own = ap lib.decode (of_text text read.jwt read.decoded) ∙ read.decoded in
      let (authorized, verified) =
        test-IsAuthorized env lib issuer audiences fuel' read.jwt authz path enf enf' life asked own
          tested in
      (read, authorized, verified)
