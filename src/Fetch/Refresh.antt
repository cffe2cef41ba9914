-- ===== src/Fetch/Refresh.antt =====
-- The loop of `refresh_jwks` ends where the transfers of the HTTP client end.
use scitokens_cpp.Prelude.{
  some-ne-none, true-ne-false, ℕ, zero, suc, ◌*◌, ◌≤◌, ◌≡◌, ◌≢◌, sym, ap, ◌∙◌, inl, inr, true,
  false, Option, none, some, arith, Str, ok, ok-injective, not,
}
use mathlib.Core.Path.{subst}
use scitokens_cpp.Exec.{if-cases, lift, >>=-eq-ok}
use scitokens_cpp.Url.{get_metadata_endpoint}
use scitokens_cpp.Fetch.{
  Services, Status, new_status, default_maxbytes, extended_timeout, get_public_keys_from_web,
  get_public_keys_from_web_continue, refresh_loop, refresh_jwks, store_ended,
}
use scitokens_cpp.Fetch.Bounded.{
  EndsTransfers, Nearer, rounds_left, Nearer-≤, get_public_keys_from_web_continue-Nears,
}

module _ (env : Services) (most : ℕ) (ends : EndsTransfers env most) where
  pub left :
      (s : Status env) (fuel : ℕ)
      → Nearer env most ends (suc fuel) s
      → s.m_done ≡ false
      → rounds_left env most ends s ≤ fuel
  left s fuel (inl over) waits = absurd (true-ne-false (sym over ∙ waits))
  left s fuel (inr less) waits = omega arith

  -- The loop is over with as much fuel as rounds are left.
  refresh_loop-ends :
      (fuel : ℕ) (s : Status env) (w w' : env.W)
      → Nearer env most ends fuel s
      → refresh_loop env fuel s w ≢ (ok none, w')
  unfolding refresh_loop
  refresh_loop-ends zero s w w' (inl over) h =
      some-ne-none (ok-injective (rw over at (ap (λ r. r.0) h)))
  refresh_loop-ends zero s w w' (inr less) h = omega arith
  refresh_loop-ends (suc fuel) s w w' near h = elim (if-cases s.m_done _ _ w h) [
    | inl (over, h₁) ↦ some-ne-none (ok-injective (ap (λ r. r.0) h₁))
    | inr (waits, h₁) ↦
        let (next, e, h₂) = >>=-eq-ok (get_public_keys_from_web_continue env s) _ w h₁ in
        let w₁ = (get_public_keys_from_web_continue env s w).1 in
        refresh_loop-ends fuel next w₁ w'
          (Nearer-≤ env most ends (rounds_left env most ends s) fuel next (left s fuel near waits)
            (get_public_keys_from_web_continue-Nears env most ends s next w w₁ (λ i. (e i, w₁))))
          h₂
  ]

  -- What a new download may take.
  pub get_public_keys_from_web-Nearer :
      (issuer : Str) (timeout : ℕ) (t : Status env) (w w' : env.W)
      → get_public_keys_from_web env issuer timeout w ≡ (ok t, w')
      → Nearer env most ends (3 * suc most) t
  unfolding get_public_keys_from_web
  get_public_keys_from_web-Nearer issuer timeout t w w' h =
      let (endpoints, e, h₁) = >>=-eq-ok (lift (get_metadata_endpoint issuer)) _ w h in
      let client = env.new_get default_maxbytes timeout in
      let (started, e₁, h₂) =
        >>=-eq-ok (env.perform_start client endpoints.openid_metadata) _ w h₁ in
      let w₁ = (env.perform_start client endpoints.openid_metadata w).1 in
      let few =
        ends.started client started.1 endpoints.openid_metadata started.0 w w₁ (λ i. (e₁ i, w₁)) in
      let status : Status env = record new_status {
        m_oauth_metadata_url = endpoints.oauth_metadata;
        m_cget = some started.1;
        m_continue_fetch = true;
      } in
      elim (if-cases (not started.0.m_done) _ _ w₁ h₂) [
        | inl (waits, h₃) ↦
            subst (Nearer env most ends (3 * suc most)) (ok-injective (ap (λ r. r.0) h₃))
              (inr (omega (arith, few)))
        | inr (over, h₃) ↦
            Nearer-≤ env most ends (rounds_left env most ends status) (3 * suc most) t
              (omega (arith, few))
              (get_public_keys_from_web_continue-Nears env most ends status t w₁ w' h₃)
      ]

  -- If every transfer of the HTTP client ends within `most` rounds, the loop of `refresh_jwks`, with
  -- its at most three transfers, is over after three times that number of rounds and three more: the
  -- call answers or throws.
  pub refresh_jwks-ends :
      (issuer : Str) (w w' : env.W) → refresh_jwks env (3 * suc most) issuer w ≢ (ok none, w')
  unfolding refresh_jwks
  refresh_jwks-ends issuer w w' h =
      let (started, e, h₁) =
        >>=-eq-ok (get_public_keys_from_web env issuer extended_timeout) _ w h in
      let w₁ = (get_public_keys_from_web env issuer extended_timeout w).1 in
      let (ended, e₁, h₂) = >>=-eq-ok (refresh_loop env (3 * suc most) started) _ w₁ h₁ in
      let w₂ = (refresh_loop env (3 * suc most) started w₁).1 in
      ended-not-none ended started w₁ w₂ w'
        (get_public_keys_from_web-Nearer issuer extended_timeout started w w₁ (λ i. (e i, w₁)))
        (λ i. (e₁ i, w₂)) h₂
    where
      ended-not-none :
          (ended : Option (Status env)) (started : Status env) (w₁ w₂ w' : env.W)
          → Nearer env most ends (3 * suc most) started
          → refresh_loop env (3 * suc most) started w₁ ≡ (ok ended, w₂)
          → store_ended env issuer ended w₂ ≢ (ok none, w')
      ended-not-none none started w₁ w₂ w' near e h =
          refresh_loop-ends (3 * suc most) started w₁ w₂ near e
      ended-not-none (some status) started w₁ w₂ w' near e h =
          let (stored, e₁, h₁) =
            >>=-eq-ok
              (env.store_public_keys issuer status.m_keys status.m_next_update status.m_expires) _
              w₂ h in
          some-ne-none (ok-injective (ap (λ r. r.0) h₁))
