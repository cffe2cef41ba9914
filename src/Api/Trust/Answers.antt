-- ===== src/Api/Trust/Answers.antt =====
-- What a 0 of `enforcer_test` in src/scitokens.cpp says.
use scitokens_cpp.Prelude.{
  some-injective, some-ne-none, ◌≡◌, ◌≢◌, refl, ap, ℕ, Bool, true, false, Option, none, some, Str,
  Result, ok, throw, undefined,
}
use scitokens_cpp.Fetch.{Services}
use scitokens_cpp.Token.{DecodedJwt, JwtLibrary}
use scitokens_cpp.SciToken.{SciToken}
use scitokens_cpp.Scope.{EnforcerState}
use scitokens_cpp.Enforcer.{Enforcing, test}
use scitokens_cpp.Enforcer.Answers.{test-WasVerified}
use scitokens_cpp.Validator.Verify.Rounds.{WasVerified}
use scitokens_cpp.Api.{Reply, failure, success}
use scitokens_cpp.Api.Trust.{test_reply, enforcer_test}

pub test_reply-success :
    (r : Result (Option Bool)) → test_reply r ≡ success (some tt) → r ≡ ok (some true)
test_reply-success (ok none) h = cc
test_reply-success (ok (some true)) h = refl
test_reply-success (ok (some false)) h = cc
test_reply-success (throw e) h = cc
test_reply-success undefined h = cc

reply-differs :
    {msg : Str} → ◌≡◌ {A = Reply (Option (Unit {0}))} (failure msg) (success (some tt)) → ⊥
reply-differs h = cc

module _ (env : Services) (lib : JwtLibrary) where
  -- If `enforcer_test` answers 0, a token, which had been decoded, and an ACL were given, and the run
  -- ended with that token verified: jwt-cpp's verifier accepted its text with the key that a key set
  -- publishes under its key ID, a profile was chosen for it, and every claim passed.
  pub enforcer_test-WasVerified :
      (fuel : ℕ) (scitoken : Option SciToken) (acl : Option (Str × Str))
      (enf enf' : Enforcing env lib)
      → enforcer_test env lib fuel scitoken acl (some enf) ≡ (success (some tt), some enf')
      → (acl ≢ none)
        × ((t : SciToken) × (jwt : DecodedJwt) × (scitoken ≡ some t)
            × (t.m_decoded ≡ some jwt)
            × WasVerified env lib EnforcerState jwt enf')
  unfolding enforcer_test
  enforcer_test-WasVerified fuel none acl enf enf' h = absurd (reply-differs (ap (λ p. p.0) h))
  enforcer_test-WasVerified fuel (some t) none enf enf' h = absurd (reply-differs (ap (λ p. p.0) h))
  enforcer_test-WasVerified fuel (some t) (some acl) enf enf' h =
      let run = test env lib fuel t.m_decoded acl.0 acl.1 enf in
      let answered = test_reply-success run.0 (ap (λ p. p.0) h) in
      let same : run.1 ≡ enf' = some-injective (ap (λ p. p.1) h) in
      let (answered_yes, (jwt, decoded, verified)) =
        test-WasVerified env lib fuel t.m_decoded acl.0 acl.1 enf enf'
          (λ i. (answered i, same i)) in
      (some-ne-none, (t, jwt, refl, decoded, verified))
