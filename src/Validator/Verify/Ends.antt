-- ===== src/Validator/Verify/Ends.antt =====
-- The loop of a verification ends where the transfers of the HTTP client end.
use scitokens_cpp.Prelude.{
  some-ne-none, true-ne-false, ℕ, zero, suc, ◌*◌, ◌≡◌, ◌≢◌, sym, ap, inl, inr, Option, none, arith,
  str, ok, ok-injective, ok-ne-throw, not, if◌then◌else◌, ℤ, ltb_ℤ, curl,
}
use mathlib.Core.Path.{subst}
use scitokens_cpp.Exec.{if-cases, pure, fail, lift, call, >>=-eq-ok}
use scitokens_cpp.Fetch.{Services, Status, get_public_key_pem, get_public_key_pem_continue}
use scitokens_cpp.Fetch.Bounded.{EndsTransfers, Nearer-≤}
use scitokens_cpp.Fetch.Refresh.{left}
use scitokens_cpp.Token.{DecodedJwt, JwtLibrary, payload_string}
use scitokens_cpp.Validator.Early.{get_key_id}
use scitokens_cpp.Validator.Late.{Running}
use scitokens_cpp.Validator.Verify.{
  on_outside, with_key, decoded_or_throw, check_token, verify_token, verify_async,
  verify_async_continue, verify_until, verify_scitoken,
}
use scitokens_cpp.Validator.Verify.Rounds.{verify_token-done}
use scitokens_cpp.Fetch.KeyBounded.{
  Near, rounds, get_public_key_pem-Near, get_public_key_pem_continue-Near,
}

module _ (env : Services) (most : ℕ) (ends : EndsTransfers env most) (lib : JwtLibrary)
    (S : Type 0) where
  abbrev NearTo : ℕ → Status env → Type 0
  NearTo = Near env most ends

  -- What follows the retrieval, for a status that is as near.
  ready-Near :
      (n : ℕ) (next t : Status env) (r r' : Running env.W S)
      → NearTo n next
      → (if not next.m_done then pure next else verify_token env lib S next) r ≡ (ok t, r')
      → NearTo n t
  ready-Near n next t r r' near h = elim (if-cases (not next.m_done) _ _ r h) [
    | inl (waits, h₁) ↦ subst (NearTo n) (ok-injective (ap (λ p. p.0) h₁)) near
    | inr (over, h₁) ↦ inl (verify_token-done env lib S next t r r' h₁)
  ]

  verify_async_continue-Near :
      (status t : Status env) (r r' : Running env.W S)
      → verify_async_continue env lib S status r ≡ (ok t, r')
      → NearTo (rounds env most ends status) t
  unfolding verify_async_continue
  verify_async_continue-Near status t r r' h = elim (if-cases (not status.m_done) _ _ r h) [
    | inr (over, h₁) ↦ inl (verify_token-done env lib S status t r r' h₁)
    | inl (waits, h₁) ↦
        let (got, e, h₂) = >>=-eq-ok (on_outside (get_public_key_pem_continue env status)) _ r h₁ in
        let w₁ = (get_public_key_pem_continue env status r.outside).1 in
        ready-Near (rounds env most ends status) (with_key env got.0 got.1) t _ r'
          (get_public_key_pem_continue-Near env most ends status got.0 got.1 r.outside w₁
            (λ i. (e i, w₁)))
          h₂
  ]

  stays-Near :
      (n : ℕ) (status t : Status env) (r r' : Running env.W S)
      → NearTo n status
      → verify_async_continue env lib S status r ≡ (ok t, r')
      → NearTo n t
  unfolding verify_async_continue
  stays-Near n status t r r' (inr less) h =
      Nearer-≤ env most ends (rounds env most ends status) n t (omega arith)
        (verify_async_continue-Near status t r r' h)
  stays-Near n status t r r' (inl over) h = elim (if-cases (not status.m_done) _ _ r h) [
    | inl (waits, h₁) ↦ absurd (true-ne-false (sym (rw over at waits)))
    | inr (done, h₁) ↦ inl (verify_token-done env lib S status t r r' h₁)
  ]

  verify_async-Near :
      (jwt : DecodedJwt) (t : Status env) (r r' : Running env.W S)
      → verify_async env lib S jwt r ≡ (ok t, r')
      → NearTo (3 * suc most) t
  unfolding verify_async
  verify_async-Near jwt t r r' h =
      let (u, e, h₁) = >>=-eq-ok (check_token env lib S jwt) _ r h in
      let r₁ = (check_token env lib S jwt r).1 in
      let (key_id, e₁, h₂) = >>=-eq-ok (lift (get_key_id jwt)) _ r₁ h₁ in
      let (issuer, e₂, h₃) = >>=-eq-ok (lift (payload_string jwt (str "iss"))) _ r₁ h₂ in
      let (got, e₃, h₄) = >>=-eq-ok (on_outside (get_public_key_pem env issuer key_id)) _ r₁ h₃ in
      let w₁ = (get_public_key_pem env issuer key_id r₁.outside).1 in
      let near =
        get_public_key_pem-Near env most ends issuer key_id got.0 got.1 r₁.outside w₁
          (λ i. (e₃ i, w₁)) in
      stays-Near (3 * suc most) (record (with_key env got.0 got.1) { m_jwt_string = jwt.token }) t _
        r' near h₄

  verify_until-ends :
      (fuel : ℕ) (expiry_time : ℤ) (status : Status env) (r r' : Running env.W S)
      → NearTo fuel status
      → verify_until env lib S fuel expiry_time status r ≢ (ok none, r')
  unfolding verify_until
  verify_until-ends zero expiry_time status r r' (inl over) h =
      some-ne-none (ok-injective (rw over at (ap (λ p. p.0) h)))
  verify_until-ends zero expiry_time status r r' (inr less) h = omega arith
  verify_until-ends (suc fuel) expiry_time status r r' near h =
      elim (if-cases status.m_done _ _ r h) [
        | inl (over, h₁) ↦ some-ne-none (ok-injective (ap (λ p. p.0) h₁))
        | inr (waits, h₁) ↦
            let now = (env.time r.outside).0 in
            let r₁ = (on_outside {S = S} (call env.time) r).1 in
            elim (if-cases (not (ltb_ℤ now expiry_time))
              (fail (curl (str "Timeout when loading the OIDC metadata."))) _ r₁ h₁) [
                | inl (late, h₃) ↦ ok-ne-throw (sym (ap (λ p. p.0) h₃))
                | inr (early, h₃) ↦
                    let (next, e₂, h₄) =
                      >>=-eq-ok (verify_async_continue env lib S status) _ r₁ h₃ in
                    let r₂ = (verify_async_continue env lib S status r₁).1 in
                    verify_until-ends fuel expiry_time next r₂ r'
                      (Nearer-≤ env most ends (rounds env most ends status) fuel next
                        (left env most ends status fuel near waits)
                        (verify_async_continue-Near status next r₁ r₂ (λ i. (e₂ i, r₂))))
                      h₄
              ]
      ]

  -- If every transfer of the HTTP client ends within `most` rounds, the loop of a verification, with
  -- its at most three transfers, is over after three times that number of rounds and three more: the
  -- verification ends or throws.
  pub verify_scitoken-ends :
      (m_decoded : Option DecodedJwt) (expiry_time : ℤ) (r r' : Running env.W S)
      → verify_scitoken env lib S (3 * suc most) m_decoded expiry_time r ≢ (ok none, r')
  unfolding verify_scitoken
  verify_scitoken-ends m_decoded expiry_time r r' h =
      let (jwt, e, h₁) = >>=-eq-ok (lift (decoded_or_throw m_decoded)) _ r h in
      let (status, e₁, h₂) = >>=-eq-ok (verify_async env lib S jwt) _ r h₁ in
      let r₁ = (verify_async env lib S jwt r).1 in
      verify_until-ends (3 * suc most) expiry_time status r₁ r'
        (verify_async-Near jwt status r r₁ (λ i. (e₁ i, r₁))) h₂
