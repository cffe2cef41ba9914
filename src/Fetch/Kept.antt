-- ===== src/Fetch/Kept.antt =====
-- What a round of the download leaves of the status: the token's text, the key ID and the issuer.
use mathlib.Core.Path.{subst}
use scitokens_cpp.Prelude.{
  ℕ, zero, suc, ◌≡◌, refl, sym, ap, ◌∙◌, true, some, arith, Str, ok, ok-ne-throw, ok-injective, inl,
  inr, find_string, str, not,
}
use scitokens_cpp.Exec.{if-cases, Exec, pure, lift, >>=-eq-ok}
use scitokens_cpp.Keys.{or_throw}
use scitokens_cpp.Fetch.{
  Services, AsyncState, Status, download_metadata, download_public_key, done,
  get_public_keys_from_web_continue, fetch_metadata, by_state, fetch_switch, fetch_keys,
  fetch_jwks_uri, fall_back, metadata_reply, parsed_object, the_cget, default_maxbytes,
  extended_timeout, is_200, GetStatus,
}

module _ (env : Services) where
  -- What the status is for.
  pub record IsFor (text issuer kid : Str) (s : Status env) : Type 0 where
    pub of_token : s.m_jwt_string ≡ text
    pub of_issuer : s.m_issuer ≡ issuer
    pub of_key : s.m_kid ≡ kid

  module _ (text issuer kid : Str) where
    abbrev For : Status env → Type 0
    For = IsFor text issuer kid

    For-same :
        (s t : Status env)
        → t.m_jwt_string ≡ s.m_jwt_string
        → t.m_issuer ≡ s.m_issuer
        → t.m_kid ≡ s.m_kid
        → For s
        → For t
    For-same s t e f g p = record {
      of_token = e ∙ p.of_token;
      of_issuer = f ∙ p.of_issuer;
      of_key = g ∙ p.of_key;
    }

    abbrev Keeps : (Status env → Exec env.W (Status env)) → Type 0
    Keeps again = (u t : Status env) (v w' : env.W) → For u → again u v ≡ (ok t, w') → For t

    fetch_keys-Keeps : Keeps (fetch_keys env)
    unfolding fetch_keys
    fetch_keys-Keeps s t w w' p h = For-same s t (ground arith) (ground arith) (ground arith) p

    fetch_jwks_uri-Keeps : (get : env.Get) → Keeps (fetch_jwks_uri env get)
    unfolding fetch_jwks_uri
    fetch_jwks_uri-Keeps get s t w w' p h =
        let (top_obj, e₀, h₁) =
          >>=-eq-ok (lift (parsed_object (env.parse (env.get_data get)))) _ w h in
        let (uri, e₁, h₂) =
          >>=-eq-ok
            (lift (
              or_throw (find_string (str "jwks_uri") top_obj)
                (str "Metadata resource is missing 'jwks_uri' string value")))
            _ w h₁ in
        let (started, e₂, h₃) =
          >>=-eq-ok (env.perform_start (env.new_get default_maxbytes extended_timeout) uri) _ w
            h₂ in
        let next : Status env = record s {
          m_has_metadata = true;
          m_state = download_public_key;
          m_cget = some started.1;
        } in
        fetch_keys-Keeps next t _ w' (For-same s next refl refl refl p) h₃

    fall_back-Keeps :
        (again : Status env → Exec env.W (Status env)) → Keeps again → Keeps (fall_back env again)
    unfolding fall_back
    fall_back-Keeps again ih s t w w' p h =
        let (started, e, h₁) =
          >>=-eq-ok
            (env.perform_start (env.new_get default_maxbytes extended_timeout)
              s.m_oauth_metadata_url)
            _ w h in
        let next : Status env = record s { m_oauth_fallback = true; m_cget = some started.1 } in
        let for_next = For-same s next refl refl refl p in
        elim (if-cases (not started.0.m_done) _ _ _ h₁) [
          | inl (waits, h₂) ↦ subst For (ok-injective (ap (λ r. r.0) h₂)) for_next
          | inr (over, h₂) ↦ ih next t _ w' for_next h₂
        ]

    metadata_reply-Keeps :
        (again : Status env → Exec env.W (Status env)) (reply : GetStatus × env.Get)
        → Keeps again
        → Keeps (λ s. metadata_reply env again s reply)
    unfolding metadata_reply
    metadata_reply-Keeps again reply ih s t w w' p h =
        let next : Status env = record s { m_cget = some reply.1 } in
        let for_next = For-same s next refl refl refl p in
        elim (if-cases (not reply.0.m_done) _ _ w h) [
          | inl (waits, h₁) ↦ subst For (ok-injective (ap (λ r. r.0) h₁)) for_next
          | inr (over, h₁) ↦ elim (if-cases (is_200 reply.0) _ _ w h₁) [
            | inl (found, h₂) ↦ fetch_jwks_uri-Keeps reply.1 next t w w' for_next h₂
            | inr (missing, h₂) ↦ elim (if-cases s.m_oauth_fallback _ _ w h₂) [
              | inl (used, h₃) ↦ absurd (ok-ne-throw (sym (ap (λ r. r.0) h₃)))
              | inr (unused, h₃) ↦ fall_back-Keeps again ih s t w w' p h₃
            ]
          ]
        ]

    fetch_metadata-Keeps :
        (again : Status env → Exec env.W (Status env))
        → Keeps again
        → Keeps (fetch_metadata env again)
    unfolding fetch_metadata
    fetch_metadata-Keeps again ih s t w w' p h =
        let (get, e₀, h₁) = >>=-eq-ok (lift (the_cget s.m_cget)) _ w h in
        let (reply, e₁, h₂) = >>=-eq-ok (env.perform_continue get) _ w h₁ in
        metadata_reply-Keeps again reply ih s t _ w' p h₂

    by_state-Keeps :
        (again : Status env → Exec env.W (Status env)) (state : AsyncState)
        → Keeps again
        → Keeps (λ s.
          by_state state
            (fetch_metadata env again s)
            (fetch_keys env s)
            (pure (record s { m_done = true })))
    by_state-Keeps again download_metadata ih s t w w' p h =
        fetch_metadata-Keeps again ih s t w w' p h
    by_state-Keeps again download_public_key ih s t w w' p h = fetch_keys-Keeps s t w w' p h
    by_state-Keeps again done ih s t w w' p h =
        subst For (ok-injective (ap (λ r. r.0) h))
          (For-same s (record s { m_done = true }) refl refl refl p)

    fetch_switch-Keeps : (f : ℕ) → Keeps (fetch_switch env f)
    unfolding fetch_switch
    fetch_switch-Keeps zero s t w w' p h = ground arith
    fetch_switch-Keeps (suc f) s t w w' p h =
        by_state-Keeps (fetch_switch env f) s.m_state (fetch_switch-Keeps f) s t w w' p h

    -- A round of the download that does not throw keeps what the status is for.
    pub get_public_keys_from_web_continue-Keeps : Keeps (get_public_keys_from_web_continue env)
    unfolding get_public_keys_from_web_continue
    get_public_keys_from_web_continue-Keeps = fetch_switch-Keeps 2
