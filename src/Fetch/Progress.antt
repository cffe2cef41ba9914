-- ===== src/Fetch/Progress.antt =====
-- The download as a state machine: what a round can leave, and that it ends.
use mathlib.Core.Path.{fun_ext}
use scitokens_cpp.Prelude.{
  ℕ, zero, suc, ◌≡◌, refl, ◌⊎◌, Bool, true, false, some, arith, ok, if◌then◌else◌, find_string, str,
  not,
}
use scitokens_cpp.Exec.{Exec, pure, lift, ◌>>=◌, >>=-eq-ok, >>=-cong}
use scitokens_cpp.Keys.{or_throw}
use scitokens_cpp.Fetch.{
  Services, GetStatus, AsyncState, Status, download_metadata, download_public_key, done,
  get_public_keys_from_web_continue, fetch_metadata, by_state, fetch_switch, fetch_keys,
  fetch_jwks_uri, fall_back, metadata_reply, parsed_object, the_cget, is_200, default_maxbytes,
  extended_timeout,
}
use scitokens_cpp.Fetch.Downloaded.{IsPending, IsComplete, keys_reply-ends}

module _ (env : Services) where
  -- With the fallback used up, the switch makes no nested call.
  fetch_metadata_fallback :
      (a b : Status env → Exec env.W (Status env)) (s : Status env) (w : env.W)
      → s.m_oauth_fallback ≡ true
      → fetch_metadata env a s w ≡ fetch_metadata env b s w
  unfolding fetch_metadata
  fetch_metadata_fallback a b s w used = rw used

  fetch_by_state :
      (state : AsyncState) (f g : ℕ) (s : Status env) (w : env.W)
      → s.m_oauth_fallback ≡ true
      → by_state state
          (fetch_metadata env (fetch_switch env f) s)
          (fetch_keys env s)
          (pure (record s { m_done = true }))
          w
        ≡ by_state state
            (fetch_metadata env (fetch_switch env g) s)
            (fetch_keys env s)
            (pure (record s { m_done = true }))
            w
  fetch_by_state download_metadata f g s w used =
      fetch_metadata_fallback (fetch_switch env f) (fetch_switch env g) s w used
  fetch_by_state download_public_key f g s w used = refl
  fetch_by_state done f g s w used = refl

  fetch_switch_fallback :
      (f g : ℕ) (s : Status env) (w : env.W)
      → s.m_oauth_fallback ≡ true
      → fetch_switch env (suc f) s w ≡ fetch_switch env (suc g) s w
  unfolding fetch_switch
  fetch_switch_fallback f g s w used = fetch_by_state s.m_state f g s w used

  fetch_keys-ends :
      (s t : Status env) (w w' : env.W)
      → IsPending env s
      → fetch_keys env s w ≡ (ok t, w')
      → IsPending env t ⊎ IsComplete env t
  unfolding fetch_keys
  fetch_keys-ends s t w w' p h =
      let (get, e, h₁) = >>=-eq-ok (lift (the_cget s.m_cget)) _ w h in
      let (reply, e₁, h₂) = >>=-eq-ok (env.perform_continue get) _ w h₁ in
      keys_reply-ends env s t get reply w (env.perform_continue get w).1 w' p
        (λ i. (e₁ i, (env.perform_continue get w).1)) h₂

  fetch_jwks_uri-ends :
      (get : env.Get) (s t : Status env) (w w' : env.W)
      → IsPending env s
      → fetch_jwks_uri env get s w ≡ (ok t, w')
      → IsPending env t ⊎ IsComplete env t
  unfolding fetch_jwks_uri
  fetch_jwks_uri-ends get s t w w' p h =
      let (top_obj, e₀, h₁) =
        >>=-eq-ok (lift (parsed_object (env.parse (env.get_data get)))) _ w h in
      let (uri, e₁, h₂) =
        >>=-eq-ok
          (lift (
            or_throw (find_string (str "jwks_uri") top_obj)
              (str "Metadata resource is missing 'jwks_uri' string value")))
          _ w h₁ in
      let (started, e₂, h₃) =
        >>=-eq-ok (env.perform_start (env.new_get default_maxbytes extended_timeout) uri) _ w h₂ in
      fetch_keys-ends
        (record s { m_has_metadata = true; m_state = download_public_key; m_cget = some started.1 })
        t _ w' (ground arith) h₃

  abbrev Ends : (Status env → Exec env.W (Status env)) → Status env → env.W → Type 0
  Ends again t w' =
      (u : Status env) (v : env.W)
      → IsPending env u
      → again u v ≡ (ok t, w')
      → IsPending env t ⊎ IsComplete env t

  fall_back-Ends :
      (again : Status env → Exec env.W (Status env)) (s t : Status env) (w w' : env.W)
      → Ends again t w'
      → IsPending env s
      → fall_back env again s w ≡ (ok t, w')
      → IsPending env t ⊎ IsComplete env t
  unfolding fall_back
  fall_back-Ends again s t w w' ih p h =
      let (started, e, h₁) =
        >>=-eq-ok
          (env.perform_start (env.new_get default_maxbytes extended_timeout) s.m_oauth_metadata_url)
          _ w h in
      let next : Status env = record s { m_oauth_fallback = true; m_cget = some started.1 } in
      ground (
        arith,
        ih next
            (env.perform_start (env.new_get default_maxbytes extended_timeout)
              s.m_oauth_metadata_url w).1,
      )

  metadata_reply-Ends :
      (again : Status env → Exec env.W (Status env)) (s t : Status env) (w w' : env.W)
      (reply : GetStatus × env.Get)
      → Ends again t w'
      → IsPending env s
      → metadata_reply env again s reply w ≡ (ok t, w')
      → IsPending env t ⊎ IsComplete env t
  unfolding metadata_reply
  metadata_reply-Ends again s t w w' reply ih p h = ground (
    arith,
    fall_back-Ends again s t w w' ih p,
    fetch_jwks_uri-ends reply.1 (record s { m_cget = some reply.1 }) t w w',
  )

  fetch_metadata-Ends :
      (again : Status env → Exec env.W (Status env)) (s t : Status env) (w w' : env.W)
      → Ends again t w'
      → IsPending env s
      → fetch_metadata env again s w ≡ (ok t, w')
      → IsPending env t ⊎ IsComplete env t
  unfolding fetch_metadata
  fetch_metadata-Ends again s t w w' ih p h =
      let (get, e₀, h₁) = >>=-eq-ok (lift (the_cget s.m_cget)) _ w h in
      let (reply, e₁, h₂) = >>=-eq-ok (env.perform_continue get) _ w h₁ in
      metadata_reply-Ends again s t _ w' reply ih p h₂

  by_state-Ends :
      (f : ℕ) (state : AsyncState) (t u : Status env) (v w' : env.W)
      → Ends (fetch_switch env f) t w'
      → u.m_state ≡ state
      → IsPending env u
      → by_state state
          (fetch_metadata env (fetch_switch env f) u)
          (fetch_keys env u)
          (pure (record u { m_done = true }))
          v
        ≡ (ok t, w')
      → IsPending env t ⊎ IsComplete env t
  by_state-Ends f download_metadata t u v w' ih e p h =
      fetch_metadata-Ends (fetch_switch env f) u t v w' ih p h
  by_state-Ends f download_public_key t u v w' ih e p h = fetch_keys-ends u t v w' p h
  by_state-Ends f done t u v w' ih e p h = absurd (p.not_done e)

  fetch_switch-Ends : (f : ℕ) (t : Status env) (w' : env.W) → Ends (fetch_switch env f) t w'
  unfolding fetch_switch
  fetch_switch-Ends zero t w' u v p h = ground arith
  fetch_switch-Ends (suc f) t w' u v p h =
      by_state-Ends f u.m_state t u v w' (fetch_switch-Ends f t w') refl p h

  -- A round on a pending download that does not throw leaves it pending, or complete: its keys are
  -- then those that the parser reads from a reply 200 of the HTTP client, and the times of their update
  -- and their expiry count from that reply.
  pub get_public_keys_from_web_continue-ends :
      (s t : Status env) (w w' : env.W)
      → IsPending env s
      → get_public_keys_from_web_continue env s w ≡ (ok t, w')
      → IsPending env t ⊎ IsComplete env t
  unfolding get_public_keys_from_web_continue
  get_public_keys_from_web_continue-ends s t w w' p h = fetch_switch-Ends 2 t w' s w p h

  -- Two functions that agree where the fallback is used up.
  abbrev Agree : (a b : Status env → Exec env.W (Status env)) → Type 0
  Agree a b = (u : Status env) (v : env.W) → u.m_oauth_fallback ≡ true → a u v ≡ b u v

  if_same :
      (test : Bool) (x y z : Exec env.W (Status env)) (w : env.W)
      → y w ≡ z w
      → (if test then x else y) w ≡ (if test then x else z) w
  if_same true x y z w h = refl
  if_same false x y z w h = h

  fall_back_again :
      (a b : Status env → Exec env.W (Status env)) (s : Status env) (w : env.W)
      → Agree a b
      → fall_back env a s w ≡ fall_back env b s w
  unfolding fall_back
  fall_back_again a b s w agree =
      >>=-cong
        (env.perform_start (env.new_get default_maxbytes extended_timeout) s.m_oauth_metadata_url) _
        _ w (λ started v. if_same (not started.0.m_done) _ _ _ v (agree _ v refl))

  metadata_reply_again :
      (a b : Status env → Exec env.W (Status env)) (s : Status env)
      → Agree a b
      → metadata_reply env a s ≡ metadata_reply env b s
  unfolding metadata_reply
  metadata_reply_again a b s agree = fun_ext λ reply. fun_ext λ w.
      if_same (not reply.0.m_done) _ _ _ w (
        if_same (is_200 reply.0) _ _ _ w
          (if_same s.m_oauth_fallback _ _ _ w (fall_back_again a b s w agree)))

  fetch_metadata_again :
      (a b : Status env → Exec env.W (Status env)) (s : Status env) (w : env.W)
      → Agree a b
      → fetch_metadata env a s w ≡ fetch_metadata env b s w
  unfolding fetch_metadata
  fetch_metadata_again a b s w agree = λ i.
      (do
        get ← lift (the_cget s.m_cget)
        reply ← env.perform_continue get
        metadata_reply_again a b s agree i reply)
        w

  by_state_fuel :
      (state : AsyncState) (f : ℕ) (s : Status env) (w : env.W)
      → by_state state
          (fetch_metadata env (fetch_switch env (suc f)) s)
          (fetch_keys env s)
          (pure (record s { m_done = true }))
          w
        ≡ by_state state
            (fetch_metadata env (fetch_switch env 1) s)
            (fetch_keys env s)
            (pure (record s { m_done = true }))
            w
  by_state_fuel download_metadata f s w =
      fetch_metadata_again (fetch_switch env (suc f)) (fetch_switch env 1) s w
        (λ u v used. fetch_switch_fallback f 0 u v used)
  by_state_fuel download_public_key f s w = refl
  by_state_fuel done f s w = refl

  -- The function does not depend on its fuel beyond two: the nested call makes no further one.
  pub fetch_switch_fuel :
      (f : ℕ) (s : Status env) (w : env.W)
      → fetch_switch env (suc (suc f)) s w ≡ get_public_keys_from_web_continue env s w
  unfolding get_public_keys_from_web_continue
  fetch_switch_fuel f s w = by_state_fuel s.m_state f s w
