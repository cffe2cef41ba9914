-- ===== src/Api/Async/Run.antt =====
-- Runs of `enforcer_generate_acls_start` and `enforcer_generate_acls_continue` as a step relation.
use mathlib.Core.Path.{subst}
use scitokens_cpp.Prelude.{
  some-injective, ◌≡◌, refl, ap, inl, inr, Option, none, some, Result, ok, throw, undefined,
  ok-injective,
}
use scitokens_cpp.Exec.{>>=-eq-ok}
use scitokens_cpp.Fetch.{Services, Status}
use scitokens_cpp.Token.{DecodedJwt, JwtLibrary}
use scitokens_cpp.Scope.{AclsList, EnforcerState}
use scitokens_cpp.SciToken.{SciToken}
use scitokens_cpp.Validator.Verify.{decoded_or_throw, verify_async, verify_async_continue}
use scitokens_cpp.Validator.Verify.Rounds.{
  WasVerified, IsWaiting, Outcome, verify_async-Outcome, verify_async_continue-Outcome,
}
use scitokens_cpp.Validator.Verify.Runs.{decoded-eq-ok}
use scitokens_cpp.Enforcer.{
  Enforcing, reset_state, generate_acls_start, generate_acls_continue, with_acls,
}
use scitokens_cpp.Api.{success}
use scitokens_cpp.Api.Async.{
  Step, handed_out, step_reply, enforcer_generate_acls_start, enforcer_generate_acls_continue,
}

success-injective : {A : Type 0} {a b : A} → success a ≡ success b → a ≡ b
success-injective h = cc

module _ (env : Services) (lib : JwtLibrary) where
  -- The steps of a caller: a start with a token, and rounds on the status that was handed out, while
  -- the world outside the process changes in any way between them. `AclsRun t step enf` says that the
  -- last call handed out `step` and left the enforcer `enf`.
  pub data AclsRun (t : SciToken) : Step env lib → Enforcing env lib → Type 0 where
    started :
        (enf enf' : Enforcing env lib) (step : Step env lib)
        → enforcer_generate_acls_start env lib (some t) (some enf) ≡ (success step, some enf')
        → AclsRun t step enf'
    continued :
        (status : Status env) (enf enf' : Enforcing env lib) (w : env.W) (step : Step env lib)
        → AclsRun t (some status, none) enf
        → enforcer_generate_acls_continue env lib
            (some (some status))
            (some (record enf { outside = w }))
          ≡ (success step, some enf')
        → AclsRun t step enf'

  -- What a step of the run of a token stands for.
  abbrev pub Holds : DecodedJwt → Step env lib → Enforcing env lib → Type 0
  Holds jwt (some status, acls) enf = IsWaiting env lib EnforcerState jwt status × (acls ≡ none)
  Holds jwt (none, acls) enf = WasVerified env lib EnforcerState jwt enf

  handed_out-Holds :
      (user : EnforcerState) (jwt : DecodedJwt) (status : Status env) (acls : Option AclsList)
      (enf : Enforcing env lib)
      → Outcome env lib EnforcerState user jwt status enf
      → Holds jwt (handed_out env lib status acls) enf
  handed_out-Holds user jwt status acls enf (inl (waits, same)) =
      simp (waits.pending.open_end) (waits, refl)
  handed_out-Holds user jwt status acls enf (inr (done, (verified, start))) = simp (done) verified

  -- A reply with a step comes from a call that returned.
  step_reply-success :
      (r : Result (Status env × Option AclsList)) (step : Step env lib)
      → step_reply env lib r ≡ success step
      → (status : Status env) × (acls : Option AclsList) × (r ≡ ok (status, acls))
        × (handed_out env lib status acls ≡ step)
  step_reply-success (ok (status, acls)) step h = (status, acls, refl, success-injective h)
  step_reply-success (throw e) step h = cc
  step_reply-success undefined step h = cc

  with_acls-Outcome :
      (user : EnforcerState) (jwt : DecodedJwt) (found status : Status env) (acls : Option AclsList)
      (r enf' : Enforcing env lib)
      → Outcome env lib EnforcerState user jwt found r
      → with_acls env lib found r ≡ (ok (status, acls), enf')
      → Outcome env lib EnforcerState user jwt status enf'
  with_acls-Outcome user jwt found status acls r enf' outcome h =
      let ends : ◌≡◌ {A = Status env × Enforcing env lib} (found, r) (status, enf') =
        λ i. (ap (λ p. p.0) (ok-injective (ap (λ p. p.0) h)) i, (h i).1) in
      subst (λ p. Outcome env lib EnforcerState user jwt p.0 p.1) ends outcome

  start-Outcome :
      (m_decoded : Option DecodedJwt) (status : Status env) (acls : Option AclsList)
      (enf enf' : Enforcing env lib)
      → generate_acls_start env lib m_decoded enf ≡ (ok (status, acls), enf')
      → (jwt : DecodedJwt) × (m_decoded ≡ some jwt)
        × Outcome env lib EnforcerState (reset_state env lib enf).user jwt status enf'
  unfolding generate_acls_start
  start-Outcome m_decoded status acls enf enf' h =
      let (jwt, e, h₁) =
        >>=-eq-ok (λ r. (decoded_or_throw m_decoded, r)) _ (reset_state env lib enf) h in
      let (found, e₁, h₂) =
        >>=-eq-ok (verify_async env lib EnforcerState jwt) (with_acls env lib)
          (reset_state env lib enf) h₁ in
      (
        jwt,
        decoded-eq-ok m_decoded e,
        with_acls-Outcome (reset_state env lib enf).user jwt found status acls
            (verify_async env lib EnforcerState jwt (reset_state env lib enf)).1 enf'
            (verify_async-Outcome env lib EnforcerState jwt found (reset_state env lib enf) _
              (λ i. (e₁ i, (verify_async env lib EnforcerState jwt (reset_state env lib enf)).1)))
            h₂,
      )

  continue-Outcome :
      (jwt : DecodedJwt) (status t : Status env) (acls : Option AclsList)
      (enf enf' : Enforcing env lib)
      → IsWaiting env lib EnforcerState jwt status
      → generate_acls_continue env lib status enf ≡ (ok (t, acls), enf')
      → Outcome env lib EnforcerState enf.user jwt t enf'
  unfolding generate_acls_continue
  continue-Outcome jwt status t acls enf enf' waits h =
      let (found, e, h₁) =
        >>=-eq-ok (verify_async_continue env lib EnforcerState status) (with_acls env lib) enf h in
      with_acls-Outcome enf.user jwt found t acls
        (verify_async_continue env lib EnforcerState status enf).1 enf'
        (verify_async_continue-Outcome env lib EnforcerState jwt status found enf _ (inl waits)
          (λ i. (e i, (verify_async_continue env lib EnforcerState status enf).1)))
        h₁

  -- In a run of a token, ACLs are handed out only once the token, which had been decoded, has been
  -- verified in the state that the last call left: jwt-cpp's verifier accepted its text with the key
  -- that a key set publishes under its key ID, a profile was chosen for it, and every claim passed.
  -- Until then the status that is handed out waits for a download for that token.
  pub AclsRun-sound :
      (t : SciToken) (step : Step env lib) (enf : Enforcing env lib)
      → AclsRun t step enf
      → (jwt : DecodedJwt) × (t.m_decoded ≡ some jwt) × Holds jwt step enf
  unfolding enforcer_generate_acls_start enforcer_generate_acls_continue
  AclsRun-sound t step enf (started enf₀ enf' step' h) =
      let run = generate_acls_start env lib t.m_decoded enf₀ in
      let (status, acls, e, hands) = step_reply-success run.0 step (ap (λ p. p.0) h) in
      let same : run.1 ≡ enf = some-injective (ap (λ p. p.1) h) in
      let (jwt, decoded, outcome) =
        start-Outcome t.m_decoded status acls enf₀ enf (λ i. (e i, same i)) in
      (
        jwt,
        decoded,
        subst (λ s. Holds jwt s enf) hands (handed_out-Holds _ jwt status acls enf outcome),
      )
  AclsRun-sound t step enf (continued status enf₀ enf' w step' before h) =
      let r = record enf₀ { outside = w } in
      let run = generate_acls_continue env lib status r in
      let (jwt, decoded, (waits, no_acls)) = AclsRun-sound t (some status, none) enf₀ before in
      let (next, acls, e, hands) = step_reply-success run.0 step (ap (λ p. p.0) h) in
      let same : run.1 ≡ enf = some-injective (ap (λ p. p.1) h) in
      (
        jwt,
        decoded,
        subst (λ s. Holds jwt s enf) hands
            (handed_out-Holds _ jwt next acls enf
              (continue-Outcome jwt status next acls r enf waits (λ i. (e i, same i)))),
      )
