-- ===== src/Fetch/KeyBounded.antt =====
-- How many rounds the retrieval of a key takes over an HTTP client whose transfers end.
use scitokens_cpp.Prelude.{
  true-ne-false, ℕ, suc, ◌*◌, ◌≤◌, ◌≡◌, sym, ap, ◌∙◌, ◌⊎◌, inl, inr, false, Option, none, some,
  arith, Str, ok, ok-injective, ℤ, ltb_ℤ, Json,
}
use mathlib.Core.Path.{subst}
use scitokens_cpp.Exec.{if-cases, lift, catch-eq-ok, >>=-eq-ok}
use scitokens_cpp.Keys.{PublicKey, public_key}
use scitokens_cpp.Fetch.{
  Services, Status, default_timeout, get_public_keys_from_web, get_public_keys_from_web_continue,
  finish_key, use_cached, find_keys, get_public_key_pem, get_public_key_pem_continue,
}
use scitokens_cpp.Fetch.Key.{store_if_wanted, find_keys-ends}
use scitokens_cpp.Fetch.Downloaded.{IsPending}
use scitokens_cpp.Fetch.Bounded.{
  EndsTransfers, Nearer, rounds_left, Nearer-≤, get_public_keys_from_web_continue-Nears,
}
use scitokens_cpp.Fetch.Refresh.{get_public_keys_from_web-Nearer}

module _ (env : Services) (most : ℕ) (ends : EndsTransfers env most) where
  abbrev pub Near : ℕ → Status env → Type 0
  Near = Nearer env most ends

  abbrev pub rounds : Status env → ℕ
  rounds = rounds_left env most ends

  finish_key-Near :
      (n : ℕ) (s t : Status env) (key : PublicKey) (w w' : env.W)
      → finish_key env s w ≡ (ok (t, key), w')
      → Near n t
  unfolding finish_key
  finish_key-Near n s t key w w' h =
      let (u, e, h₁) = >>=-eq-ok (store_if_wanted env s) _ w h in
      let (found, e₁, h₂) = >>=-eq-ok (lift (public_key env.coords s.m_keys s.m_kid)) _ _ h₁ in
      inl (ap (λ p. p.0.m_done) (sym (ok-injective (ap (λ r. r.0) h₂))))

  pub get_public_key_pem_continue-Near :
      (s t : Status env) (key : PublicKey) (w w' : env.W)
      → get_public_key_pem_continue env s w ≡ (ok (t, key), w')
      → Near (rounds s) t
  unfolding get_public_key_pem_continue
  get_public_key_pem_continue-Near s t key w w' h = elim (if-cases s.m_continue_fetch _ _ w h) [
    | inr (over, h₁) ↦ finish_key-Near (rounds s) s t key w w' h₁
    | inl (fetches, h₁) ↦
        let (next, e, h₂) = >>=-eq-ok (get_public_keys_from_web_continue env s) _ w h₁ in
        let w₁ = (get_public_keys_from_web_continue env s w).1 in
        elim (if-cases next.m_continue_fetch _ _ w₁ h₂) [
          | inr (over, h₃) ↦ finish_key-Near (rounds s) next t key w₁ w' h₃
          | inl (more, h₃) ↦
              subst (Near (rounds s)) (ap (λ p. p.0) (ok-injective (ap (λ r. r.0) h₃)))
                (get_public_keys_from_web_continue-Nears env most ends s next w w₁ (λ i. (e i, w₁)))
        ]
  ]

  abbrev pub limit : ℕ
  limit = 3 * suc most

  -- A download within the limit, or a key set to choose from.
  use_cached-Near :
      (issuer : Str) (now : ℤ) (cached : Option (Json × ℤ)) (t : Status env) (w w' : env.W)
      → use_cached env issuer now cached w ≡ (ok t, w')
      → Near limit t ⊎ (t.m_continue_fetch ≡ false)
  use_cached-Near issuer now none t w w' h =
      inl (get_public_keys_from_web-Nearer env most ends issuer default_timeout t w w' h)
  use_cached-Near issuer now (some (keys, next_update)) t w w' h =
      elim (if-cases (ltb_ℤ next_update now) _ _ w h) [
        | inr (current, h₁) ↦
            inr (ap (λ s. s.m_continue_fetch) (sym (ok-injective (ap (λ r. r.0) h₁))))
        | inl (old, h₁) ↦
            elim (catch-eq-ok (get_public_keys_from_web env issuer default_timeout) _ w h₁) [
              | inl started ↦ inl (
                  get_public_keys_from_web-Nearer env most ends issuer default_timeout t w w'
                    (λ i. (started.0 i, started.1 i)))
              | inr kept ↦
                  inr (ap (λ s. s.m_continue_fetch) (sym (ok-injective (ap (λ r. r.0) kept))))
            ]
      ]

  find_keys-Near :
      (issuer : Str) (t : Status env) (w w' : env.W)
      → find_keys env issuer w ≡ (ok t, w')
      → Near limit t ⊎ (t.m_continue_fetch ≡ false)
  unfolding find_keys
  find_keys-Near issuer t w w' h =
      let now = (env.time w).0 in
      let (cached, e, h₁) =
        >>=-eq-ok (env.get_public_keys_from_db issuer now) (use_cached env issuer now)
          (env.time w).1 h in
      use_cached-Near issuer now cached t _ w' h₁

  pending-rounds : (n : ℕ) (s : Status env) → Near n s → IsPending env s → rounds s ≤ n
  pending-rounds n s (inl over) pending = absurd (true-ne-false (sym over ∙ pending.open_end))
  pending-rounds n s (inr less) pending = omega arith

  pub get_public_key_pem-Near :
      (issuer kid : Str) (t : Status env) (key : PublicKey) (w w' : env.W)
      → get_public_key_pem env issuer kid w ≡ (ok (t, key), w')
      → Near limit t
  unfolding get_public_key_pem get_public_key_pem_continue
  get_public_key_pem-Near issuer kid t key w w' h =
      let (result, e, h₁) = >>=-eq-ok (find_keys env issuer) _ w h in
      let w₁ = (find_keys env issuer w).1 in
      let status : Status env = record result { m_issuer = issuer; m_kid = kid } in
      let over : result.m_continue_fetch ≡ false → Near limit t = (λ none_left.
        elim (if-cases result.m_continue_fetch _ _ w₁ h₁) [
          | inl (more, h₂) ↦ absurd (true-ne-false (sym more ∙ none_left))
          | inr (same, h₂) ↦ finish_key-Near limit status t key w₁ w' h₂
        ]) in
      elim (find_keys-Near issuer result w w₁ (λ i. (e i, w₁))) [
        | inr chosen ↦ over chosen
        | inl near ↦ elim (find_keys-ends env issuer result w w₁ (λ i. (e i, w₁))) [
          | inr chosen ↦ over chosen
          | inl pending ↦
              Nearer-≤ env most ends (rounds status) limit t
                (pending-rounds limit result near pending)
                (get_public_key_pem_continue-Near status t key w₁ w' h₁)
        ]
      ]
