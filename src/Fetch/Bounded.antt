-- ===== src/Fetch/Bounded.antt =====
-- How many rounds a download takes over an HTTP client whose transfers end.
use mathlib.Core.Path.{subst}
use scitokens_cpp.Prelude.{
  ℕ, zero, suc, ◌+◌, ◌*◌, ◌≤◌, ◌<◌, ◌≡◌, refl, sym, ap, ◌⊎◌, inl, inr, Bool, true, false, Option,
  none, some, arith, Str, str, ok, ok-injective, ok-ne-throw, not, find_string,
}
use scitokens_cpp.Exec.{if-cases, Exec, pure, lift, >>=-eq-ok}
use scitokens_cpp.Keys.{or_throw}
use scitokens_cpp.Fetch.{
  Services, GetStatus, AsyncState, Status, download_metadata, download_public_key, done,
  get_public_keys_from_web_continue, fetch_metadata, by_state, fetch_switch, fetch_keys,
  fetch_jwks_uri, fall_back, metadata_reply, parsed_object, the_cget, is_200, default_maxbytes,
  extended_timeout,
}

-- Every transfer ends: a new one takes at most `most` rounds more, and each round that does not end it
-- leaves fewer.
pub record EndsTransfers (env : Services) (most : ℕ) : Type 0 where
  pub rounds : env.Get → ℕ
  pub started :
      (get get' : env.Get) (url : Str) (reply : GetStatus) (w w' : env.W)
      → env.perform_start get url w ≡ (ok (reply, get'), w')
      → rounds get' ≤ most
  pub continued :
      (get get' : env.Get) (reply : GetStatus) (w w' : env.W)
      → env.perform_continue get w ≡ (ok (reply, get'), w')
      → reply.m_done ≡ false
      → rounds get' < rounds get

-- The transfers that a download may still start.
abbrev pub transfers_left : AsyncState → Bool → ℕ
transfers_left download_metadata false = 2
transfers_left download_metadata true = 1
transfers_left _ fallback = 0

one_left : (fallback : Bool) → 1 ≤ transfers_left download_metadata fallback
one_left true = omega arith
one_left false = omega arith

at_least : (k n : ℕ) {m : ℕ} → 1 ≤ k → suc m ≤ k * suc m + n
at_least (suc k) n h = omega arith
at_least zero n h = absurd (omega arith)

module _ (env : Services) (most : ℕ) (ends : EndsTransfers env most) where
  abbrev pub rounds_of : Option env.Get → ℕ
  rounds_of none = 0
  rounds_of (some get) = ends.rounds get

  -- The rounds that a download may still take.
  abbrev pub rounds_left : Status env → ℕ
  rounds_left s = transfers_left s.m_state s.m_oauth_fallback * suc most + rounds_of s.m_cget

  -- A download that is over, or has come nearer to its end than so many rounds.
  abbrev pub Nearer : ℕ → Status env → Type 0
  Nearer n t = (t.m_done ≡ true) ⊎ (rounds_left t < n)

  pub Nearer-≤ : (m n : ℕ) (t : Status env) → m ≤ n → Nearer m t → Nearer n t
  Nearer-≤ m n t h (inl over) = inl over
  Nearer-≤ m n t h (inr less) = inr (omega arith)

  abbrev pub Nears : (Status env → Exec env.W (Status env)) → Type 0
  Nears again =
      (u t : Status env) (v w' : env.W) → again u v ≡ (ok t, w') → Nearer (rounds_left u) t

  the_cget-eq-ok : (o : Option env.Get) {get : env.Get} → the_cget o ≡ ok get → o ≡ some get
  the_cget-eq-ok none h = cc
  the_cget-eq-ok (some get) h = ap some (ok-injective h)

  -- A round that only waits.
  waited :
      (s : Status env) (get get' : env.Get) (reply : GetStatus) (w w' : env.W)
      → s.m_cget ≡ some get
      → env.perform_continue get w ≡ (ok (reply, get'), w')
      → not reply.m_done ≡ true
      → Nearer (rounds_left s) (record s { m_cget = some get' })
  waited s get get' reply w w' e h waits =
      let less = ends.continued get get' reply w w' h (ground (arith, waits)) in
      let same : rounds_of s.m_cget ≡ ends.rounds get = ap rounds_of e in
      inr (omega (arith, less, same))

  fetch_keys-Nears : Nears (fetch_keys env)
  unfolding fetch_keys
  fetch_keys-Nears s t w w' h =
      let (get, e, h₁) = >>=-eq-ok (lift (the_cget s.m_cget)) _ w h in
      let (reply, e₁, h₂) = >>=-eq-ok (env.perform_continue get) _ w h₁ in
      let w₁ = (env.perform_continue get w).1 in
      elim (if-cases (not reply.0.m_done) _ _ w₁ h₂) [
        | inl (waits, h₃) ↦
            subst (Nearer (rounds_left s)) (ok-injective (ap (λ r. r.0) h₃)) (
              waited s get reply.1 reply.0 w w₁ (the_cget-eq-ok s.m_cget e) (λ i. (e₁ i, w₁)) waits)
        | inr (over, h₃) ↦ inl (ground (arith, h₃))
      ]

  -- A new transfer for the key set.
  fetch_jwks_uri-Nears :
      (get : env.Get) (s t : Status env) (w w' : env.W)
      → fetch_jwks_uri env get s w ≡ (ok t, w')
      → Nearer (suc most) t
  unfolding fetch_jwks_uri
  fetch_jwks_uri-Nears get s t w w' h =
      let (top_obj, e₀, h₁) =
        >>=-eq-ok (lift (parsed_object (env.parse (env.get_data get)))) _ w h in
      let (uri, e₁, h₂) =
        >>=-eq-ok
          (lift (
            or_throw (find_string (str "jwks_uri") top_obj)
              (str "Metadata resource is missing 'jwks_uri' string value")))
          _ w h₁ in
      let client = env.new_get default_maxbytes extended_timeout in
      let (started, e₂, h₃) = >>=-eq-ok (env.perform_start client uri) _ w h₂ in
      let w₁ = (env.perform_start client uri w).1 in
      let few = ends.started client started.1 uri started.0 w w₁ (λ i. (e₂ i, w₁)) in
      let next : Status env = record s {
        m_has_metadata = true;
        m_state = download_public_key;
        m_cget = some started.1;
      } in
      Nearer-≤ (rounds_left next) (suc most) t (omega arith) (fetch_keys-Nears next t w₁ w' h₃)

  fall_back-Nears :
      (again : Status env → Exec env.W (Status env)) (s t : Status env) (w w' : env.W)
      → Nears again
      → s.m_state ≡ download_metadata
      → fall_back env again s w ≡ (ok t, w')
      → Nearer (suc most + suc most) t
  unfolding fall_back
  fall_back-Nears again s t w w' ih state h =
      let client = env.new_get default_maxbytes extended_timeout in
      let (started, e, h₁) = >>=-eq-ok (env.perform_start client s.m_oauth_metadata_url) _ w h in
      let w₁ = (env.perform_start client s.m_oauth_metadata_url w).1 in
      let few =
        ends.started client started.1 s.m_oauth_metadata_url started.0 w w₁ (λ i. (e i, w₁)) in
      let next : Status env = record s { m_oauth_fallback = true; m_cget = some started.1 } in
      let one : transfers_left s.m_state true ≡ 1 = ap (λ a. transfers_left a true) state in
      let within : rounds_left next < suc most + suc most = rw one (omega (arith, few)) in
      elim (if-cases (not started.0.m_done) _ _ w₁ h₁) [
        | inl (waits, h₂) ↦
            subst (Nearer (suc most + suc most)) (ok-injective (ap (λ r. r.0) h₂)) (inr within)
        | inr (over, h₂) ↦
            Nearer-≤ (rounds_left next) (suc most + suc most) t (omega (arith, within))
              (ih next t w₁ w' h₂)
      ]

  fetch_metadata-Nears :
      (again : Status env → Exec env.W (Status env)) (s t : Status env) (w w' : env.W)
      → Nears again
      → s.m_state ≡ download_metadata
      → fetch_metadata env again s w ≡ (ok t, w')
      → Nearer (rounds_left s) t
  unfolding fetch_metadata metadata_reply
  fetch_metadata-Nears again s t w w' ih state h =
      let (get, e, h₁) = >>=-eq-ok (lift (the_cget s.m_cget)) _ w h in
      let (reply, e₁, h₂) = >>=-eq-ok (env.perform_continue get) _ w h₁ in
      let w₁ = (env.perform_continue get w).1 in
      let some_left : 1 ≤ transfers_left s.m_state s.m_oauth_fallback =
        rw state (one_left s.m_oauth_fallback) in
      elim (if-cases (not reply.0.m_done) _ _ w₁ h₂) [
        | inl (waits, h₃) ↦
            subst (Nearer (rounds_left s)) (ok-injective (ap (λ r. r.0) h₃)) (
              waited s get reply.1 reply.0 w w₁ (the_cget-eq-ok s.m_cget e) (λ i. (e₁ i, w₁)) waits)
        | inr (over, h₃) ↦ elim (if-cases (is_200 reply.0) _ _ w₁ h₃) [
          | inl (found, h₄) ↦
              Nearer-≤ (suc most) (rounds_left s) t
                (at_least (transfers_left s.m_state s.m_oauth_fallback) _ some_left)
                (fetch_jwks_uri-Nears reply.1 (record s { m_cget = some reply.1 }) t w₁ w' h₄)
          | inr (missing, h₄) ↦ elim (if-cases s.m_oauth_fallback _ _ w₁ h₄) [
            | inl (used, h₅) ↦ absurd (ok-ne-throw (sym (ap (λ r. r.0) h₅)))
            | inr (unused, h₅) ↦
                let two : transfers_left s.m_state s.m_oauth_fallback ≡ 2 =
                  (λ i. transfers_left (state i) (unused i)) in
                Nearer-≤ (suc most + suc most) (rounds_left s) t (rw two (omega arith))
                  (fall_back-Nears again s t w₁ w' ih state h₅)
          ]
        ]
      ]

  by_state-Nears :
      (f : ℕ) (state : AsyncState) (u t : Status env) (v w' : env.W)
      → Nears (fetch_switch env f)
      → u.m_state ≡ state
      → by_state state
          (fetch_metadata env (fetch_switch env f) u)
          (fetch_keys env u)
          (pure (record u { m_done = true }))
          v
        ≡ (ok t, w')
      → Nearer (rounds_left u) t
  by_state-Nears f download_metadata u t v w' ih e h =
      fetch_metadata-Nears (fetch_switch env f) u t v w' ih e h
  by_state-Nears f download_public_key u t v w' ih e h = fetch_keys-Nears u t v w' h
  by_state-Nears f done u t v w' ih e h =
      inl (ap (λ s. s.m_done) (sym (ok-injective (ap (λ r. r.0) h))))

  fetch_switch-Nears : (f : ℕ) → Nears (fetch_switch env f)
  unfolding fetch_switch
  fetch_switch-Nears zero u t v w' h = ground arith
  fetch_switch-Nears (suc f) u t v w' h =
      by_state-Nears f u.m_state u t v w' (fetch_switch-Nears f) refl h

  pub get_public_keys_from_web_continue-Nears : Nears (get_public_keys_from_web_continue env)
  unfolding get_public_keys_from_web_continue
  get_public_keys_from_web_continue-Nears = fetch_switch-Nears 2
