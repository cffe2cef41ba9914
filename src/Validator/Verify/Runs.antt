-- ===== src/Validator/Verify/Runs.antt =====
-- Whole verifications: what stands behind the end of their loops.
use scitokens_cpp.Prelude.{
  refl, some-ne-none, true-ne-false, ◌≡◌, ap, sym, ◌∙◌, inl, inr, ℕ, zero, suc, true, false, not,
  Option, none, some, ok, ok-ne-throw, ok-injective, Bool-cases, if◌then◌else◌, ℤ, ltb_ℤ, str, curl,
}
use mathlib.Core.Path.{subst}
use scitokens_cpp.Exec.{if-cases, lift, fail, call, >>=-eq-ok}
use scitokens_cpp.Fetch.{Services, Status}
use scitokens_cpp.Token.{DecodedJwt, JwtLibrary}
use scitokens_cpp.Profile.{Profile}
use scitokens_cpp.Validator.Early.{check_typ}
use scitokens_cpp.Validator.Early.Required.{HasRequired, check_required-HasRequired}
use scitokens_cpp.Validator.Late.{Running}
use scitokens_cpp.Validator.Verify.{
  on_outside, decoded_or_throw, check_token, verify_async_continue, verify_async, verify_loop,
  verify, verify_until, verify_scitoken,
}
use scitokens_cpp.Validator.Verify.Rounds.{
  WasVerified, Reached, Outcome, Ready, verify_async-Outcome, verify_async_continue-Outcome,
}

pub decoded-eq-ok :
    (m_decoded : Option DecodedJwt) {jwt : DecodedJwt}
    → decoded_or_throw m_decoded ≡ ok jwt
    → m_decoded ≡ some jwt
decoded-eq-ok none h = absurd (ok-ne-throw (sym h))
decoded-eq-ok (some found) h = ap some (ok-injective h)

module _ (env : Services) (lib : JwtLibrary) (S : Type 0) where
  -- What a loop ends with was verified, if what it starts with waits or was.
  ended-Reached :
      (user : S) (jwt : DecodedJwt) (status : Status env) {r : Running env.W S}
      → Outcome env lib S user jwt status r
      → status.m_done ≡ true
      → Reached env lib S user jwt r
  ended-Reached user jwt status (inr (done, reached)) over = reached
  ended-Reached user jwt status (inl (waits, same)) over =
      absurd (true-ne-false (sym over ∙ waits.pending.open_end))

  Outcome-waits :
      (user : S) (jwt : DecodedJwt) (status : Status env) {r : Running env.W S}
      → Outcome env lib S user jwt status r
      → status.m_done ≡ false
      → Ready env lib S jwt status × (r.user ≡ user)
  Outcome-waits user jwt status (inl (waits, same)) open_end = (inl waits, same)
  Outcome-waits user jwt status (inr (done, reached)) open_end =
      absurd (true-ne-false (sym done ∙ open_end))

  -- A round of a loop, which starts where an earlier one has left a status that is not done.
  round-Outcome :
      (user : S) (jwt : DecodedJwt) (status next : Status env) (r t r' : Running env.W S)
      → Outcome env lib S user jwt status r
      → status.m_done ≡ false
      → t.user ≡ r.user
      → verify_async_continue env lib S status t ≡ (ok next, r')
      → Outcome env lib S user jwt next r'
  round-Outcome user jwt status next r t r' o open_end moved h =
      let (ready, same) = Outcome-waits user jwt status o open_end in
      subst (λ u. Outcome env lib S u jwt next r') (moved ∙ same)
        (verify_async_continue-Outcome env lib S jwt status next t r' ready h)

  verify_until-Reached :
      (user : S) (jwt : DecodedJwt) (fuel : ℕ) (expiry_time : ℤ) (status t : Status env)
      (r r' : Running env.W S)
      → Outcome env lib S user jwt status r
      → verify_until env lib S fuel expiry_time status r ≡ (ok (some t), r')
      → Reached env lib S user jwt r'
  unfolding verify_until
  verify_until-Reached user jwt zero expiry_time status t r r' o h =
      elim (Bool-cases status.m_done) [
        | inl over ↦
            subst (Reached env lib S user jwt) (ap (λ p. p.1) h)
              (ended-Reached user jwt status o over)
        | inr waits ↦
            let e : (if status.m_done then some status else none) ≡ some t =
              ok-injective (ap (λ p. p.0) h) in
            absurd (some-ne-none (sym (rw waits at e)))
      ]
  verify_until-Reached user jwt (suc fuel) expiry_time status t r r' o h =
      elim (if-cases status.m_done _ _ r h) [
        | inl (over, h₁) ↦
            subst (Reached env lib S user jwt) (ap (λ p. p.1) h₁)
              (ended-Reached user jwt status o over)
        | inr (waits, h₁) ↦
            let now = (env.time r.outside).0 in
            let r₁ = (on_outside {S = S} (call env.time) r).1 in
            elim (if-cases (not (ltb_ℤ now expiry_time))
              (fail (curl (str "Timeout when loading the OIDC metadata."))) _ r₁ h₁) [
                | inl (late, h₃) ↦ absurd (ok-ne-throw (sym (ap (λ p. p.0) h₃)))
                | inr (early, h₃) ↦
                    let (next, e₂, h₄) =
                      >>=-eq-ok (verify_async_continue env lib S status) _ r₁ h₃ in
                    verify_until-Reached user jwt fuel expiry_time next t _ r'
                      (round-Outcome user jwt status next r r₁
                        (verify_async_continue env lib S status r₁).1 o waits refl
                        (λ i. (e₂ i, (verify_async_continue env lib S status r₁).1)))
                      h₄
              ]
      ]

  -- The checks of the token that a verification ends with start from what stood behind the claim
  -- validators before it.
  pub verify_scitoken-Reached :
      (fuel : ℕ) (m_decoded : Option DecodedJwt) (expiry_time : ℤ) (t : Status env)
      (r r' : Running env.W S)
      → verify_scitoken env lib S fuel m_decoded expiry_time r ≡ (ok (some t), r')
      → (jwt : DecodedJwt) × (m_decoded ≡ some jwt) × Reached env lib S r.user jwt r'
  unfolding verify_scitoken
  verify_scitoken-Reached fuel m_decoded expiry_time t r r' h =
      let (jwt, e, h₁) = >>=-eq-ok (lift (decoded_or_throw m_decoded)) _ r h in
      let (status, e₁, h₂) = >>=-eq-ok (verify_async env lib S jwt) _ r h₁ in
      let r₁ = (verify_async env lib S jwt r).1 in
      let reached =
        verify_until-Reached r.user jwt fuel expiry_time status t r₁ r'
          (verify_async-Outcome env lib S jwt status r r₁ (λ i. (e₁ i, r₁))) h₂ in
      (jwt, decoded-eq-ok m_decoded e, reached)

  -- If a verification ends without an error, then, however many rounds it took, the token had been
  -- decoded and it ended with the checks of that token: jwt-cpp's verifier accepted the token's text
  -- with the key that a key set publishes under the token's key ID, for the key's algorithm, a
  -- profile was chosen for it, and every claim passed.
  pub verify_scitoken-WasVerified :
      (fuel : ℕ) (m_decoded : Option DecodedJwt) (expiry_time : ℤ) (t : Status env)
      (r r' : Running env.W S)
      → verify_scitoken env lib S fuel m_decoded expiry_time r ≡ (ok (some t), r')
      → (jwt : DecodedJwt) × (m_decoded ≡ some jwt) × WasVerified env lib S jwt r'
  verify_scitoken-WasVerified fuel m_decoded expiry_time t r r' h =
      let (jwt, decoded, (verified, start)) =
        verify_scitoken-Reached fuel m_decoded expiry_time t r r' h in
      (jwt, decoded, verified)

  -- A verification that gets as far as its loop has passed the checks of the mandatory, the critical
  -- and the issuer's claims.
  pub verify_async-HasRequired :
      (jwt : DecodedJwt) {status : Status env} (r r' : Running env.W S)
      → verify_async env lib S jwt r ≡ (ok status, r')
      → (profile : Profile) × HasRequired profile r.validator.m_allowed_issuers
          r.validator.m_critical_claims jwt
  unfolding verify_async check_token
  verify_async-HasRequired jwt r r' h =
      let (u, e₁, h₂) = >>=-eq-ok (check_token env lib S jwt) _ r h in
      let v = r.validator in
      let (profile, e₂, h₃) =
        >>=-eq-ok (lift (check_typ v.m_validate_profile v.m_profile jwt)) _ r
          (λ i. (e₁ i, (check_token env lib S jwt r).1)) in
      (
        profile,
        check_required-HasRequired profile v.m_allowed_issuers v.m_critical_claims jwt
            (ap (λ p. p.0) h₃),
      )

  pub verify_scitoken-HasRequired :
      (fuel : ℕ) (jwt : DecodedJwt) (expiry_time : ℤ) {t : Option (Status env)}
      (r r' : Running env.W S)
      → verify_scitoken env lib S fuel (some jwt) expiry_time r ≡ (ok t, r')
      → (profile : Profile) × HasRequired profile r.validator.m_allowed_issuers
          r.validator.m_critical_claims jwt
  unfolding verify_scitoken
  verify_scitoken-HasRequired fuel jwt expiry_time r r' h =
      let (status, e, h₁) = >>=-eq-ok (verify_async env lib S jwt) _ r h in
      verify_async-HasRequired jwt r (verify_async env lib S jwt r).1
        (λ i. (e i, (verify_async env lib S jwt r).1))

  verify_loop-Reached :
      (user : S) (jwt : DecodedJwt) (fuel : ℕ) (status t : Status env) (r r' : Running env.W S)
      → Outcome env lib S user jwt status r
      → verify_loop env lib S fuel status r ≡ (ok (some t), r')
      → Reached env lib S user jwt r'
  unfolding verify_loop
  verify_loop-Reached user jwt zero status t r r' o h = elim (Bool-cases status.m_done) [
    | inl over ↦
        subst (Reached env lib S user jwt) (ap (λ p. p.1) h) (ended-Reached user jwt status o over)
    | inr waits ↦
        let e : (if status.m_done then some status else none) ≡ some t =
          ok-injective (ap (λ p. p.0) h) in
        absurd (some-ne-none (sym (rw waits at e)))
  ]
  verify_loop-Reached user jwt (suc fuel) status t r r' o h =
      elim (if-cases status.m_done _ _ r h) [
        | inl (over, h₁) ↦
            subst (Reached env lib S user jwt) (ap (λ p. p.1) h₁)
              (ended-Reached user jwt status o over)
        | inr (waits, h₁) ↦
            let (next, e, h₂) = >>=-eq-ok (verify_async_continue env lib S status) _ r h₁ in
            let r₁ = (verify_async_continue env lib S status r).1 in
            verify_loop-Reached user jwt fuel next t r₁ r'
              (round-Outcome user jwt status next r r r₁ o waits refl (λ i. (e i, r₁))) h₂
      ]

  -- What a verification without a deadline ends with.
  pub verify-WasVerified :
      (fuel : ℕ) (jwt : DecodedJwt) (t : Status env) (r r' : Running env.W S)
      → verify env lib S fuel jwt r ≡ (ok (some t), r')
      → ((profile : Profile) × HasRequired profile r.validator.m_allowed_issuers
            r.validator.m_critical_claims jwt)
        × WasVerified env lib S jwt r'
  unfolding verify
  verify-WasVerified fuel jwt t r r' h =
      let (status, e, h₁) = >>=-eq-ok (verify_async env lib S jwt) _ r h in
      let r₁ = (verify_async env lib S jwt r).1 in
      let started : verify_async env lib S jwt r ≡ (ok status, r₁) = λ i. (e i, r₁) in
      (
        verify_async-HasRequired jwt r r₁ started,
        (verify_loop-Reached r.user jwt fuel status t r₁ r'
            (verify_async-Outcome env lib S jwt status r r₁ started) h₁).0,
      )
