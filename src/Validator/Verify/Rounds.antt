-- ===== src/Validator/Verify/Rounds.antt =====
-- One round of a verification: the token that it is for, and what it leaves.
use scitokens_cpp.Prelude.{
  true-ne-false, ◌≡◌, refl, ap, sym, ◌∙◌, ◌⊎◌, inl, inr, Bool, true, false, not, ok, ok-injective,
  if◌then◌else◌, Str, str, arith,
}
use mathlib.Core.Path.{subst}
use scitokens_cpp.Exec.{if-cases, pure, ◌>>=◌, lift, >>=-eq-ok}
use scitokens_cpp.Fetch.{Services, Status, get_public_key_pem, get_public_key_pem_continue}
use scitokens_cpp.Fetch.Downloaded.{IsPending}
use scitokens_cpp.Fetch.Key.{Got, get_public_key_pem-Got, get_public_key_pem_continue-Got}
use scitokens_cpp.Keys.{PublicKey, public_key}
use scitokens_cpp.Token.{DecodedJwt, JwtLibrary, members, payload_string}
use scitokens_cpp.Validator.Early.{check_typ, get_key_id}
use scitokens_cpp.Validator.Late.{Running, select_profile, run_claims}
use scitokens_cpp.Validator.Verify.{
  on_outside, with_key, check_token, check_signature, verify_token, verify_async_continue,
  verify_async,
}
use scitokens_cpp.Validator.Verify.Sound.{IsVerified, verify_token-IsVerified}

not-true : {b : Bool} → not b ≡ true → b ≡ false
not-true {b} h = ground arith

module _ (env : Services) (lib : JwtLibrary) (S : Type 0) where
  -- The status of a token: its text, its issuer and its key ID.
  abbrev pub IsOf : DecodedJwt → Status env → Type 0
  IsOf jwt status =
      (status.m_jwt_string ≡ jwt.token)
      × (payload_string jwt (str "iss") ≡ ok status.m_issuer)
      × (get_key_id jwt ≡ ok status.m_kid)

  -- The key of a status is the one that its key set publishes under its key ID.
  abbrev pub HasPublishedKey : Status env → Type 0
  HasPublishedKey status =
      public_key env.coords status.m_keys status.m_kid
      ≡ ok (record { public_pem = status.m_public_pem; algorithm = status.m_algorithm })

  -- A token was verified on the way to a state: some status held its text and the key that a key set
  -- publishes under the token's key ID, and the checks of that text passed.
  pub record WasVerified (jwt : DecodedJwt) (r' : Running env.W S) : Type 0 where
    pub status : Status env
    pub before : Running env.W S
    pub of_token : IsOf jwt status
    pub key : HasPublishedKey status
    pub verified : IsVerified env lib S status before r'

  -- A status of the token that waits for the download.
  pub record IsWaiting (jwt : DecodedJwt) (status : Status env) : Type 0 where
    pub token : IsOf jwt status
    pub pending : IsPending env status

  -- A token was verified, with `user` behind the claim validators when its checks started.
  abbrev pub Reached : S → DecodedJwt → Running env.W S → Type 0
  Reached user jwt r' = (w : WasVerified jwt r') × (w.before.user ≡ user)

  -- A status that waits, in a state that still has `user`, or a state behind a verification that
  -- started from it.
  abbrev pub Outcome : S → DecodedJwt → Status env → Running env.W S → Type 0
  Outcome user jwt t r' =
      (IsWaiting jwt t × (r'.user ≡ user)) ⊎ ((t.m_done ≡ true) × Reached user jwt r')

  with_key-IsPending :
      (s : Status env) (key : PublicKey) (text : Str)
      → IsPending env s
      → IsPending env (record (with_key env s key) { m_jwt_string = text })
  with_key-IsPending s key text p = record {
    fetching = p.fetching;
    open_end = p.open_end;
    not_done = p.not_done;
    transfer = p.transfer;
  }

  -- A status of the token that waits or has its key.
  abbrev pub Ready : DecodedJwt → Status env → Type 0
  Ready jwt s = IsWaiting jwt s ⊎ ((s.m_done ≡ true) × IsOf jwt s × HasPublishedKey s)

  -- What the retrieval leaves, with its key.
  Got-Ready :
      (jwt : DecodedJwt) (s : Status env) (key : PublicKey) (text : Str)
      → IsOf jwt (record s { m_jwt_string = text })
      → Got env key s
      → Ready jwt (record (with_key env s key) { m_jwt_string = text })
  Got-Ready jwt s key text (e, f, g) (inl pending) =
      inl (record { token = (e, f, g); pending = with_key-IsPending s key text pending })
  Got-Ready jwt s key text (e, f, g) (inr has) = inr (has.over, (e, f, g), has.published)

  pub verify_token-done :
      (status t : Status env) (r r' : Running env.W S)
      → verify_token env lib S status r ≡ (ok t, r')
      → t.m_done ≡ true
  unfolding verify_token
  verify_token-done status t r r' h =
      let (jwt, e, h₁) =
        >>=-eq-ok (lift (check_signature env lib status r.validator.m_now)) _ r h in
      let (must, e₁, h₂) = >>=-eq-ok (select_profile jwt) _ r h₁ in
      let (u, e₂, h₃) =
        >>=-eq-ok (run_claims must (members jwt.payload)) _ (select_profile jwt r).1 h₂ in
      ap (λ s. s.m_done) (sym (ok-injective (ap (λ p. p.0) h₃)))

  verify_token-Outcome :
      (jwt : DecodedJwt) (status t : Status env) (r r' : Running env.W S)
      → IsOf jwt status
      → HasPublishedKey status
      → verify_token env lib S status r ≡ (ok t, r')
      → Outcome r.user jwt t r'
  verify_token-Outcome jwt status t r r' token key h = inr (
    verify_token-done status t r r' h,
    (
      record {
        status = status;
        before = r;
        of_token = token;
        key = key;
        verified = verify_token-IsVerified env lib S status t r r' h;
      },
      refl,
    ),
  )

  -- What follows the retrieval.
  Ready-Outcome :
      (jwt : DecodedJwt) (next t : Status env) (r r' : Running env.W S)
      → Ready jwt next
      → (if not next.m_done then pure next else verify_token env lib S next) r ≡ (ok t, r')
      → Outcome r.user jwt t r'
  Ready-Outcome jwt next t r r' (inl waits) h = elim (if-cases (not next.m_done) _ _ r h) [
    | inl (open_end, h₁) ↦
        inl (
          subst (IsWaiting jwt) (ok-injective (ap (λ p. p.0) h₁)) waits,
          ap (λ p. p.1.user) (sym h₁),
        )
    | inr (done, h₁) ↦ absurd (true-ne-false (sym (ap not waits.pending.open_end) ∙ done))
  ]
  Ready-Outcome jwt next t r r' (inr (over, token, key)) h =
      elim (if-cases (not next.m_done) _ _ r h) [
        | inl (open_end, h₁) ↦ absurd (true-ne-false (sym over ∙ not-true open_end))
        | inr (done, h₁) ↦ verify_token-Outcome jwt next t r r' token key h₁
      ]

  waiting-Outcome :
      (jwt : DecodedJwt) (status t : Status env) (r r' : Running env.W S)
      → IsWaiting jwt status
      → (on_outside (get_public_key_pem_continue env status) >>= λ got.
            let next = with_key env got.0 got.1 in
            if not next.m_done then pure next else verify_token env lib S next)
          r
        ≡ (ok t, r')
      → Outcome r.user jwt t r'
  waiting-Outcome jwt status t r r' waits h =
      let (got, e, h₂) = >>=-eq-ok (on_outside (get_public_key_pem_continue env status)) _ r h in
      let w₁ = (get_public_key_pem_continue env status r.outside).1 in
      let (kept, has) =
        get_public_key_pem_continue-Got env status.m_jwt_string status.m_issuer status.m_kid status
          got.0 got.1 r.outside w₁ (record { of_token = refl; of_issuer = refl; of_key = refl })
          waits.pending (λ i. (e i, w₁)) in
      let (of_text, of_issuer, of_kid) = waits.token in
      let token : IsOf jwt got.0 = (
        kept.of_token ∙ of_text,
        of_issuer ∙ ap ok (sym kept.of_issuer),
        of_kid ∙ ap ok (sym kept.of_key),
      ) in
      Ready-Outcome jwt (with_key env got.0 got.1) t _ r'
        (Got-Ready jwt got.0 got.1 got.0.m_jwt_string token has) h₂

  pub verify_async_continue-Outcome :
      (jwt : DecodedJwt) (status t : Status env) (r r' : Running env.W S)
      → Ready jwt status
      → verify_async_continue env lib S status r ≡ (ok t, r')
      → Outcome r.user jwt t r'
  unfolding verify_async_continue
  verify_async_continue-Outcome jwt status t r r' (inr (over, token, key)) h =
      elim (if-cases (not status.m_done) _ _ r h) [
        | inl (open_end, h₁) ↦ absurd (true-ne-false (sym over ∙ not-true open_end))
        | inr (done, h₁) ↦ verify_token-Outcome jwt status t r r' token key h₁
      ]
  verify_async_continue-Outcome jwt status t r r' (inl waits) h =
      elim (if-cases (not status.m_done) _ _ r h) [
        | inl (open_end, h₁) ↦ waiting-Outcome jwt status t r r' waits h₁
        | inr (done, h₁) ↦ absurd (true-ne-false (sym (ap not waits.pending.open_end) ∙ done))
      ]

  check_token-user :
      (jwt : DecodedJwt) (r : Running env.W S) {u : Unit {0}}
      → (check_token env lib S jwt r).0 ≡ ok u
      → (check_token env lib S jwt r).1.user ≡ r.user
  unfolding check_token
  check_token-user jwt r h =
      let v = r.validator in
      let (profile, e, h₁) =
        >>=-eq-ok (lift (check_typ v.m_validate_profile v.m_profile jwt)) _ r
          (λ i. (h i, (check_token env lib S jwt r).1)) in
      ap (λ p. p.1.user) (sym h₁)

  pub verify_async-Outcome :
      (jwt : DecodedJwt) (t : Status env) (r r' : Running env.W S)
      → verify_async env lib S jwt r ≡ (ok t, r')
      → Outcome r.user jwt t r'
  unfolding verify_async
  verify_async-Outcome jwt t r r' h =
      let (u, e, h₁) = >>=-eq-ok (check_token env lib S jwt) _ r h in
      let r₁ = (check_token env lib S jwt r).1 in
      let (key_id, e₁, h₂) = >>=-eq-ok (lift (get_key_id jwt)) _ r₁ h₁ in
      let (issuer, e₂, h₃) = >>=-eq-ok (lift (payload_string jwt (str "iss"))) _ r₁ h₂ in
      let (got, e₃, h₄) = >>=-eq-ok (on_outside (get_public_key_pem env issuer key_id)) _ r₁ h₃ in
      let w₁ = (get_public_key_pem env issuer key_id r₁.outside).1 in
      let (text, kept, has) =
        get_public_key_pem-Got env issuer key_id got.0 got.1 r₁.outside w₁ (λ i. (e₃ i, w₁)) in
      let token : IsOf jwt (record got.0 { m_jwt_string = jwt.token }) =
        (refl, e₂ ∙ ap ok (sym kept.of_issuer), e₁ ∙ ap ok (sym kept.of_key)) in
      subst (λ user. Outcome user jwt t r') (check_token-user jwt r e)
        (verify_async_continue-Outcome jwt
          (record (with_key env got.0 got.1) { m_jwt_string = jwt.token }) t _ r'
          (Got-Ready jwt got.0 got.1 jwt.token token has) h₄)
