-- ===== src/Fetch/Key.antt =====
-- The key that the retrieval ends with.
use mathlib.Core.Path.{subst}
use scitokens_cpp.Prelude.{
  true-ne-false, ℕ, ◌≡◌, refl, sym, ap, ◌∙◌, ◌⊎◌, inl, inr, true, false, none, some, Option, Str,
  ok, ok-injective, if◌then◌else◌, not, Json, ℤ, ltb_ℤ,
}
use scitokens_cpp.Exec.{if-cases, Exec, pure, lift, catch-eq-ok, ◌>>◌, >>=-eq-ok}
use scitokens_cpp.Keys.{PublicKey, public_key}
use scitokens_cpp.Url.{get_metadata_endpoint}
use scitokens_cpp.Fetch.{
  Services, Status, new_status, default_timeout, default_maxbytes, get_public_keys_from_web,
  get_public_keys_from_web_continue, finish_key, find_keys, use_cached, get_public_key_pem,
  get_public_key_pem_continue,
}
use scitokens_cpp.Fetch.Downloaded.{IsPending, IsComplete}
use scitokens_cpp.Fetch.Progress.{get_public_keys_from_web_continue-ends}
use scitokens_cpp.Fetch.Kept.{IsFor, get_public_keys_from_web_continue-Keeps}

module _ (env : Services) where
  -- The retrieval is done, and the key is the one that the key set publishes under the key ID.
  pub record HasKey (key : PublicKey) (s : Status env) : Type 0 where
    pub over : s.m_done ≡ true
    pub published : public_key env.coords s.m_keys s.m_kid ≡ ok key

  -- A status that still downloads, or has its key.
  abbrev pub Got : PublicKey → Status env → Type 0
  Got key s = IsPending env s ⊎ HasKey key s

  abbrev pub store_if_wanted : Status env → Exec env.W (Unit {0})
  store_if_wanted status =
      if status.m_do_store
      then (env.store_public_keys status.m_issuer status.m_keys status.m_next_update
            status.m_expires
          >> pure tt)
      else pure tt

  still-IsPending :
      (s : Status env)
      → s.m_continue_fetch ≡ true
      → IsPending env s ⊎ IsComplete env s
      → IsPending env s
  still-IsPending s more (inl pending) = pending
  still-IsPending s more (inr complete) = absurd (true-ne-false (sym more ∙ complete.fetched))

  or_fetched :
      (s : Status env)
      → IsPending env s ⊎ IsComplete env s
      → IsPending env s ⊎ (s.m_continue_fetch ≡ false)
  or_fetched s (inl pending) = inl pending
  or_fetched s (inr complete) = inr complete.fetched

  module _ (text issuer kid : Str) where
    abbrev For : Status env → Type 0
    For = IsFor env text issuer kid

    finish_key-HasKey :
        (s t : Status env) (key : PublicKey) (w w' : env.W)
        → For s
        → finish_key env s w ≡ (ok (t, key), w')
        → For t × HasKey key t
    unfolding finish_key
    finish_key-HasKey s t key w w' p h =
        let (u, e, h₁) = >>=-eq-ok (store_if_wanted s) _ w h in
        let (found, e₁, h₂) = >>=-eq-ok (lift (public_key env.coords s.m_keys s.m_kid)) _ _ h₁ in
        let ends : (record s { m_done = true }, found) ≡ (t, key) =
          ok-injective (ap (λ r. r.0) h₂) in
        (
          subst For (ap (λ r. r.0) ends)
              (record { of_token = p.of_token; of_issuer = p.of_issuer; of_key = p.of_key }),
          subst (λ r. HasKey r.1 r.0) ends (record { over = refl; published = e₁ }),
        )

    -- A round on a status that waits.
    pub get_public_key_pem_continue-Got :
        (s t : Status env) (key : PublicKey) (w w' : env.W)
        → For s
        → IsPending env s
        → get_public_key_pem_continue env s w ≡ (ok (t, key), w')
        → For t × Got key t
    unfolding get_public_key_pem_continue
    get_public_key_pem_continue-Got s t key w w' p pending h =
        elim (if-cases s.m_continue_fetch _ _ w h) [
          | inr (over, h₁) ↦ let (q, has) = finish_key-HasKey s t key w w' p h₁ in (q, inr has)
          | inl (fetches, h₁) ↦
              let (next, e, h₂) = >>=-eq-ok (get_public_keys_from_web_continue env s) _ w h₁ in
              let w₁ = (get_public_keys_from_web_continue env s w).1 in
              let for_next =
                get_public_keys_from_web_continue-Keeps env text issuer kid s next w w₁ p
                  (λ i. (e i, w₁)) in
              let ends =
                get_public_keys_from_web_continue-ends env s next w w₁ pending (λ i. (e i, w₁)) in
              elim (if-cases next.m_continue_fetch _ _ w₁ h₂) [
                | inr (over, h₃) ↦
                    let (q, has) = finish_key-HasKey next t key w₁ w' for_next h₃ in (q, inr has)
                | inl (more, h₃) ↦
                    let same : next ≡ t = ap (λ r. r.0) (ok-injective (ap (λ r. r.0) h₃)) in
                    (
                      subst For same for_next,
                      inl (subst (IsPending env) same (still-IsPending next more ends)),
                    )
              ]
        ]

  get_public_keys_from_web-ends :
      (issuer : Str) (timeout : ℕ) (t : Status env) (w w' : env.W)
      → get_public_keys_from_web env issuer timeout w ≡ (ok t, w')
      → IsPending env t ⊎ IsComplete env t
  unfolding get_public_keys_from_web
  get_public_keys_from_web-ends issuer timeout t w w' h =
      let (endpoints, e, h₁) = >>=-eq-ok (lift (get_metadata_endpoint issuer)) _ w h in
      let (started, e₁, h₂) =
        >>=-eq-ok
          (env.perform_start (env.new_get default_maxbytes timeout) endpoints.openid_metadata) _ w
          h₁ in
      let status : Status env = record new_status {
        m_oauth_metadata_url = endpoints.oauth_metadata;
        m_cget = some started.1;
        m_continue_fetch = true;
      } in
      let pending : IsPending env status = record {
        fetching = refl;
        open_end = refl;
        not_done = λ e. cc;
        transfer = λ e. cc;
      } in
      elim (if-cases (not started.0.m_done) _ _ _ h₂) [
        | inl (waits, h₃) ↦ inl (subst (IsPending env) (ok-injective (ap (λ r. r.0) h₃)) pending)
        | inr (over, h₃) ↦ get_public_keys_from_web_continue-ends env status t _ w' pending h₃
      ]

  -- What a download or the cache leaves: a download, or a key set to choose from.
  use_cached-ends :
      (issuer : Str) (now : ℤ) (cached : Option (Json × ℤ)) (t : Status env) (w w' : env.W)
      → use_cached env issuer now cached w ≡ (ok t, w')
      → IsPending env t ⊎ (t.m_continue_fetch ≡ false)
  use_cached-ends issuer now none t w w' h =
      or_fetched t (get_public_keys_from_web-ends issuer default_timeout t w w' h)
  use_cached-ends issuer now (some (keys, next_update)) t w w' h =
      elim (if-cases (ltb_ℤ next_update now) _ _ w h) [
        | inr (current, h₁) ↦
            inr (ap (λ s. s.m_continue_fetch) (sym (ok-injective (ap (λ r. r.0) h₁))))
        | inl (old, h₁) ↦
            elim (catch-eq-ok (get_public_keys_from_web env issuer default_timeout) _ w h₁) [
              | inl started ↦ or_fetched t (
                  get_public_keys_from_web-ends issuer default_timeout t w w'
                    (λ i. (started.0 i, started.1 i)))
              | inr kept ↦
                  inr (ap (λ s. s.m_continue_fetch) (sym (ok-injective (ap (λ r. r.0) kept))))
            ]
      ]

  pub find_keys-ends :
      (issuer : Str) (t : Status env) (w w' : env.W)
      → find_keys env issuer w ≡ (ok t, w')
      → IsPending env t ⊎ (t.m_continue_fetch ≡ false)
  unfolding find_keys
  find_keys-ends issuer t w w' h =
      let now = (env.time w).0 in
      let (cached, e, h₁) =
        >>=-eq-ok (env.get_public_keys_from_db issuer now) (use_cached env issuer now)
          (env.time w).1 h in
      use_cached-ends issuer now cached t _ w' h₁

  pending-as :
      (s : Status env) (issuer kid : Str)
      → IsPending env s
      → IsPending env (record s { m_issuer = issuer; m_kid = kid })
  pending-as s issuer kid p = record {
    fetching = p.fetching;
    open_end = p.open_end;
    not_done = p.not_done;
    transfer = p.transfer;
  }

  -- What the retrieval of the key of an issuer under an ID returns waits for the download, or has
  -- the key that a key set publishes under that ID.
  pub get_public_key_pem-Got :
      (issuer kid : Str) (t : Status env) (key : PublicKey) (w w' : env.W)
      → get_public_key_pem env issuer kid w ≡ (ok (t, key), w')
      → (text : Str) × IsFor env text issuer kid t × Got key t
  unfolding get_public_key_pem get_public_key_pem_continue
  get_public_key_pem-Got issuer kid t key w w' h =
      let (result, e, h₁) = >>=-eq-ok (find_keys env issuer) _ w h in
      let w₁ = (find_keys env issuer w).1 in
      let status : Status env = record result { m_issuer = issuer; m_kid = kid } in
      let for_status : IsFor env result.m_jwt_string issuer kid status = record {
        of_token = refl;
        of_issuer = refl;
        of_key = refl;
      } in
      elim (find_keys-ends issuer result w w₁ (λ i. (e i, w₁))) [
        | inl pending ↦
            let (q, got) =
              get_public_key_pem_continue-Got result.m_jwt_string issuer kid status t key w₁ w'
                for_status (pending-as result issuer kid pending) h₁ in
            (result.m_jwt_string, q, got)
        | inr chosen ↦ elim (if-cases result.m_continue_fetch _ _ w₁ h₁) [
          | inl (more, h₄) ↦ absurd (true-ne-false (sym more ∙ chosen))
          | inr (none_left, h₄) ↦
              let (q, has) =
                finish_key-HasKey result.m_jwt_string issuer kid status t key w₁ w' for_status h₄ in
              (result.m_jwt_string, q, inr has)
        ]
      ]
