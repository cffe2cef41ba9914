-- ===== src/Fetch/Downloaded.antt =====
-- What a download is while it goes on, and when it is over: the reply with the key set.
use scitokens_cpp.Prelude.{
  ◌≡◌, ◌≢◌, ◌⊎◌, true, false, none, some, arith, ok, if◌then◌else◌, str, not, ap, sym, ◌∙◌, ◌+ℤ◌,
  ok-injective, ok-ne-throw, curl, inl, inr,
}
use scitokens_cpp.Exec.{Exec, pure, fail, call, gets, if-cases, lift, ◌>>=◌, >>=-eq-ok}
use scitokens_cpp.Fetch.{Services, GetStatus, Status, done, parsed_value, is_200}

module _ (env : Services) where
  -- A download that goes on.
  pub record IsPending (s : Status env) : Type 0 where
    pub fetching : s.m_continue_fetch ≡ true
    pub open_end : s.m_done ≡ false
    pub not_done : s.m_state ≢ done
    pub transfer : s.m_cget ≢ none

  -- A key set that was downloaded: its text came with a reply 200 of the HTTP client, and the times of
  -- its update and its expiry count from that reply.
  pub record IsDownloaded (s : Status env) : Type 0 where
    pub get : env.Get
    pub before : env.W
    pub after : env.W
    pub reply : GetStatus × env.Get
    pub came : env.perform_continue get before ≡ (ok reply, after)
    pub over : reply.0.m_done ≡ true
    pub success : is_200 reply.0 ≡ true
    pub keys : parsed_value (env.parse (env.get_data reply.1)) ≡ ok s.m_keys
    pub next_update :
        s.m_next_update ≡ (env.time after).0 +ℤ env.get_next_update_delta (env.time after).1
    pub expires : s.m_expires ≡ (env.time after).0 +ℤ env.get_expiry_delta (env.time after).1

  -- A download that is over.
  pub record IsComplete (s : Status env) : Type 0 where
    pub fetched : s.m_continue_fetch ≡ false
    pub ended : s.m_done ≡ true
    pub at_done : s.m_state ≡ done
    pub released : s.m_cget ≡ none
    pub downloaded : IsDownloaded s

  -- What follows a reply 200 with the key set.
  abbrev keys_ending : Status env → env.Get → Exec env.W (Status env)
  keys_ending s get = do
    keys ← lift (parsed_value (env.parse (env.get_data get)))
    now ← call env.time
    next_update_delta ← gets env.get_next_update_delta
    expiry_delta ← gets env.get_expiry_delta
    pure (record s {
      m_cget = none;
      m_next_update = now +ℤ next_update_delta;
      m_expires = now +ℤ expiry_delta;
      m_keys = keys;
      m_continue_fetch = false;
      m_done = true;
      m_state = done;
    })

  keys_ending-IsComplete :
      (s t : Status env) (get : env.Get) (reply : GetStatus × env.Get) (v w w' : env.W)
      → env.perform_continue get v ≡ (ok reply, w)
      → reply.0.m_done ≡ true
      → is_200 reply.0 ≡ true
      → keys_ending s reply.1 w ≡ (ok t, w')
      → IsComplete t
  keys_ending-IsComplete s t get reply v w w' came over success h =
      let (keys, e, h₁) =
        >>=-eq-ok (lift (parsed_value (env.parse (env.get_data reply.1)))) _ w h in
      let same = ok-injective (ap (λ p. p.0) h₁) in
      record {
        fetched = ap (λ u. u.m_continue_fetch) (sym same);
        ended = ap (λ u. u.m_done) (sym same);
        at_done = ap (λ u. u.m_state) (sym same);
        released = ap (λ u. u.m_cget) (sym same);
        downloaded = record {
          get = get;
          before = v;
          after = w;
          reply = reply;
          came = came;
          over = over;
          success = success;
          keys = e ∙ ap (λ u. ok u.m_keys) same;
          next_update = ap (λ u. u.m_next_update) (sym same);
          expires = ap (λ u. u.m_expires) (sym same);
        };
      }

  pub keys_reply-ends :
      (s t : Status env) (get : env.Get) (reply : GetStatus × env.Get) (v w w' : env.W)
      → IsPending s
      → env.perform_continue get v ≡ (ok reply, w)
      → (if not reply.0.m_done
            then pure (record s { m_cget = some reply.1 })
            else if not (is_200 reply.0)
            then fail (curl (str "Failed to retrieve the issuer's key set"))
            else keys_ending s reply.1)
          w
        ≡ (ok t, w')
      → IsPending t ⊎ IsComplete t
  keys_reply-ends s t get reply v w w' p came h = elim (if-cases (not reply.0.m_done) _ _ w h) [
    | inl (waits, h₁) ↦ inl (ground arith)
    | inr (over, h₁) ↦ elim (if-cases (not (is_200 reply.0)) _ _ w h₁) [
      | inl (bad, h₂) ↦ absurd (ok-ne-throw (sym (ap (λ p. p.0) h₂)))
      | inr (good, h₂) ↦
          inr (keys_ending-IsComplete s t get reply v w w' came (ground arith) (ground arith) h₂)
    ]
  ]
