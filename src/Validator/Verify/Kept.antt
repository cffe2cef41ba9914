-- ===== src/Validator/Verify/Kept.antt =====
-- What a whole verification leaves alone.
use scitokens_cpp.Prelude.{ℕ, zero, suc, true, not, Option, str, ok, throw, curl, ℤ, ltb_ℤ}
use scitokens_cpp.Exec.{Exec, lift, gets, call}
use scitokens_cpp.Exec.Keeps.{Keeps, >>=-Keeps, lift-Keeps, gets-Keeps, if-Keeps}
use scitokens_cpp.Fetch.{
  Services, Status, new_status, get_public_key_pem, get_public_key_pem_continue,
}
use scitokens_cpp.Token.{DecodedJwt, JwtLibrary, members, payload_string}
use scitokens_cpp.Validator.{Validator}
use scitokens_cpp.Validator.Early.{check_typ, check_required, get_key_id}
use scitokens_cpp.Validator.Late.{Running, set_profile, select_profile, run_claims}
use scitokens_cpp.Validator.Late.Claims.{Stays, AllFunctions}
use scitokens_cpp.Validator.Verify.{
  on_outside, with_key, decoded_or_throw, check_signature, verify_token, verify_async_continue,
  check_token, verify_async, verify_until, verify_scitoken,
}
use scitokens_cpp.Validator.Late.Kept.{
  IsKept, set_profile-Keeps, select_profile-Keeps, run_claims-Keeps,
}

module _ (env : Services) (lib : JwtLibrary) {S : Type 0} (c : Validator S) (Q : S → Type 0)
    (stays : AllFunctions (Stays Q) c.m_claim_validators) where
  abbrev K : Running env.W S → Type 0
  K = IsKept c Q stays

  on_outside-Keeps : {A : Type 0} (m : Exec env.W A) → Keeps K (on_outside {S = S} m)
  on_outside-Keeps m = record {
    at = λ r h. record { configured = h.configured; behind = h.behind };
  }

  verify_token-Keeps : (status : Status env) → Keeps K (verify_token env lib S status)
  unfolding verify_token
  verify_token-Keeps status = >>=-Keeps (gets (λ r. r.validator.m_now)) _ (gets-Keeps _) λ now.
      >>=-Keeps (lift (check_signature env lib status now)) _ (lift-Keeps _) λ jwt.
        >>=-Keeps (select_profile jwt) _ (select_profile-Keeps c Q stays jwt) λ must.
          >>=-Keeps (run_claims must (members jwt.payload)) _
            (run_claims-Keeps c Q stays must (members jwt.payload))
            λ u. lift-Keeps (ok (record new_status { m_done = true }))

  pub verify_async_continue-Keeps :
      (status : Status env) → Keeps K (verify_async_continue env lib S status)
  unfolding verify_async_continue
  verify_async_continue-Keeps status =
      if-Keeps (not status.m_done) _ _
        (>>=-Keeps (on_outside (get_public_key_pem_continue env status)) _ (on_outside-Keeps _)
          λ got.
            let next = with_key env got.0 got.1 in
            if-Keeps (not next.m_done) _ _ (lift-Keeps (ok next)) (verify_token-Keeps next))
        (verify_token-Keeps status)

  check_token-Keeps : (jwt : DecodedJwt) → Keeps K (check_token env lib S jwt)
  unfolding check_token
  check_token-Keeps jwt = >>=-Keeps (gets (λ r. r.validator)) _ (gets-Keeps _) λ v.
      >>=-Keeps (lift (check_typ v.m_validate_profile v.m_profile jwt)) _ (lift-Keeps _) λ profile.
        >>=-Keeps (set_profile profile) _ (set_profile-Keeps c Q stays _)
          λ u. lift-Keeps (check_required profile v.m_allowed_issuers v.m_critical_claims jwt)

  pub verify_async-Keeps : (jwt : DecodedJwt) → Keeps K (verify_async env lib S jwt)
  unfolding verify_async
  verify_async-Keeps jwt = >>=-Keeps (check_token env lib S jwt) _ (check_token-Keeps jwt) λ u.
      >>=-Keeps (lift (get_key_id jwt)) _ (lift-Keeps _) λ key_id.
        >>=-Keeps (lift (payload_string jwt (str "iss"))) _ (lift-Keeps _) λ issuer.
          >>=-Keeps (on_outside (get_public_key_pem env issuer key_id)) _ (on_outside-Keeps _)
            λ got.
              verify_async_continue-Keeps
                (record (with_key env got.0 got.1) { m_jwt_string = jwt.token })

  verify_until-Keeps :
      (fuel : ℕ) (expiry_time : ℤ) (status : Status env)
      → Keeps K (verify_until env lib S fuel expiry_time status)
  unfolding verify_until
  verify_until-Keeps zero expiry_time status = lift-Keeps _
  verify_until-Keeps (suc fuel) expiry_time status = if-Keeps status.m_done _ _ (lift-Keeps _) (
      >>=-Keeps (on_outside (call env.time)) _ (on_outside-Keeps _) λ now.
        if-Keeps (not (ltb_ℤ now expiry_time)) _ _
          (lift-Keeps (throw (curl (str "Timeout when loading the OIDC metadata."))))
          (>>=-Keeps (verify_async_continue env lib S status) _ (verify_async_continue-Keeps status)
            λ next. verify_until-Keeps fuel expiry_time next))

  -- A verification, however it ends, leaves all of the validator but its profile as it was, and true
  -- what its claim validators leave true of the state behind their pointers.
  pub verify_scitoken-Keeps :
      (fuel : ℕ) (m_decoded : Option DecodedJwt) (expiry_time : ℤ)
      → Keeps K (verify_scitoken env lib S fuel m_decoded expiry_time)
  unfolding verify_scitoken
  verify_scitoken-Keeps fuel m_decoded expiry_time =
      >>=-Keeps (lift (decoded_or_throw m_decoded)) _ (lift-Keeps _) λ jwt.
        >>=-Keeps (verify_async env lib S jwt) _ (verify_async-Keeps jwt)
          λ status. verify_until-Keeps fuel expiry_time status
