-- ===== src/Enforcer/Answers.antt =====
-- What an answer of the enforcer rests on.
use scitokens_cpp.Prelude.{
  some-injective, some-ne-none, ◌≡◌, refl, ap, sym, ◌∙◌, ℕ, Bool, true, Option, none, some, Str, ok,
  ok-injective, ℤ, pos, ◌+ℤ◌,
}
use scitokens_cpp.Exec.{pure, >>=-eq-ok}
use scitokens_cpp.Fetch.{Services, Status}
use scitokens_cpp.Token.{DecodedJwt, JwtLibrary}
use scitokens_cpp.Scope.{AclsList, EnforcerState}
use scitokens_cpp.Validator.Verify.{verify_scitoken}
use scitokens_cpp.Validator.Verify.Rounds.{WasVerified}
use scitokens_cpp.Validator.Verify.Runs.{verify_scitoken-WasVerified}
use scitokens_cpp.Enforcer.{Enforcing, test, generate_acls, reset_state, set_test}

module _ (env : Services) (lib : JwtLibrary) where
  -- The state behind the reading of the clock.
  abbrev pub timed : Enforcing env lib → Enforcing env lib
  timed r = record r { outside = (env.time r.outside).1 }

  abbrev pub deadline : Enforcing env lib → ℤ
  deadline r = (env.time r.outside).0 +ℤ pos 20

  -- The answer to a test that ended.
  abbrev answer_of : Option (Status env) → Option Bool
  answer_of ended = elim ended [ none ↦ none | some status ↦ some true ]

  answer_of-some :
      (ended : Option (Status env)) {b : Bool}
      → answer_of ended ≡ some b
      → (b ≡ true) × ((status : Status env) × (ended ≡ some status))
  answer_of-some none h = absurd (some-ne-none (sym h))
  answer_of-some (some status) h = (sym (some-injective h), (status, refl))

  -- The state in which a test starts its verification.
  abbrev pub testing : Str → Str → Enforcing env lib → Enforcing env lib
  testing authz path r = timed (set_test env lib authz path (reset_state env lib r))

  -- If a test is answered, the answer is yes, and its verification has ended.
  pub test-ends :
      (fuel : ℕ) (m_decoded : Option DecodedJwt) (authz path : Str) {answer : Bool}
      (r r' : Enforcing env lib)
      → test env lib fuel m_decoded authz path r ≡ (ok (some answer), r')
      → (answer ≡ true)
        × ((status : Status env) × (verify_scitoken env lib EnforcerState fuel m_decoded
                (deadline r)
                (testing authz path r)
              ≡ (ok (some status), r')))
  unfolding test
  test-ends fuel m_decoded authz path r r' h =
      let (ended, e, h₁) =
        >>=-eq-ok (verify_scitoken env lib EnforcerState fuel m_decoded (deadline r))
          (λ ended. pure (answer_of ended)) (testing authz path r) h in
      let (answered, (status, done)) = answer_of-some ended (ok-injective (ap (λ p. p.0) h₁)) in
      (answered, (status, λ i. ((e ∙ ap ok done) i, (h₁ i).1)))

  -- If a test is answered, the answer is yes, the token had been decoded, and the run ended with that
  -- token verified: jwt-cpp's verifier accepted its text with the key that a key set publishes under
  -- its key ID, a profile was chosen for it, and every claim passed.
  pub test-WasVerified :
      (fuel : ℕ) (m_decoded : Option DecodedJwt) (authz path : Str) {answer : Bool}
      (r r' : Enforcing env lib)
      → test env lib fuel m_decoded authz path r ≡ (ok (some answer), r')
      → (answer ≡ true)
        × ((jwt : DecodedJwt) × (m_decoded ≡ some jwt) × WasVerified env lib EnforcerState jwt r')
  test-WasVerified fuel m_decoded authz path r r' h =
      let (answered, (status, ends)) = test-ends fuel m_decoded authz path r r' h in
      (
        answered,
        verify_scitoken-WasVerified env lib EnforcerState fuel m_decoded (deadline r) status
            (testing authz path r) r' ends,
      )

  abbrev listed_of : Option (Status env) → AclsList → Option AclsList
  listed_of ended acls = elim ended [ none ↦ none | some status ↦ some acls ]

  listed_of-some :
      (ended : Option (Status env)) (listed : AclsList) {acls : AclsList}
      → listed_of ended listed ≡ some acls
      → (listed ≡ acls) × ((status : Status env) × (ended ≡ some status))
  listed_of-some none listed h = absurd (some-ne-none (sym h))
  listed_of-some (some status) listed h = (some-injective h, (status, refl))

  -- The state in which a listing starts its verification.
  abbrev pub listing : Enforcing env lib → Enforcing env lib
  listing r = timed (reset_state env lib r)

  -- ACLs that are generated are those that the enforcer holds when its verification has ended.
  pub generate_acls-ends :
      (fuel : ℕ) (m_decoded : Option DecodedJwt) {acls : AclsList} (r r' : Enforcing env lib)
      → generate_acls env lib fuel m_decoded r ≡ (ok (some acls), r')
      → (acls ≡ r'.user.m_gen_acls)
        × ((status : Status env) × (verify_scitoken env lib EnforcerState fuel m_decoded
                (deadline r)
                (listing r)
              ≡ (ok (some status), r')))
  unfolding generate_acls
  generate_acls-ends fuel m_decoded r r' h =
      let r₁ = listing r in
      let run = verify_scitoken env lib EnforcerState fuel m_decoded (deadline r) r₁ in
      let (ended, e, h₁) =
        >>=-eq-ok (verify_scitoken env lib EnforcerState fuel m_decoded (deadline r))
          (λ ended r. (ok (listed_of ended r.user.m_gen_acls), r)) r₁ h in
      let (listed, (status, done)) = listed_of-some ended _ (ok-injective (ap (λ p. p.0) h₁)) in
      (sym listed ∙ ap (λ p. p.1.user.m_gen_acls) h₁, (status, λ i. ((e ∙ ap ok done) i, (h₁ i).1)))
