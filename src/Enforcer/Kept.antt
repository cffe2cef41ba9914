-- ===== src/Enforcer/Kept.antt =====
-- The settings of an enforcer: what its constructor sets, and no operation changes.
use scitokens_cpp.Prelude.{
  ◌≡◌, refl, ap, sym, ◌∙◌, true, ℕ, List, Option, none, some, Str, str, str_eq, ok, ℤ, pos, ◌+ℤ◌,
}
use mathlib.Core.Path.{subst}
use scitokens_cpp.Exec.{Exec, call, gets, lift}
use scitokens_cpp.Exec.Keeps.{Keeps, >>=-Keeps, lift-Keeps, gets-Keeps}
use scitokens_cpp.Profile.{compat}
use scitokens_cpp.Fetch.{Services, Status}
use scitokens_cpp.Token.{DecodedJwt, JwtLibrary}
use scitokens_cpp.Scope.{EnforcerState}
use scitokens_cpp.Scope.Granted.{fixed, scope_validator-fixed}
use scitokens_cpp.Validator.{Validator, add_function}
use scitokens_cpp.Validator.Late.Claims.{Stays, AllFunctions}
use scitokens_cpp.Validator.Verify.{
  on_outside, decoded_or_throw, verify_async, verify_async_continue, verify_scitoken,
}
use scitokens_cpp.Validator.Late.Kept.{configuration, IsKept}
use scitokens_cpp.Validator.Verify.Kept.{
  verify_scitoken-Keeps, verify_async-Keeps, verify_async_continue-Keeps,
}
use scitokens_cpp.Enforcer.{
  Enforcing, all_validator, str_validator, aud_validator, new_enforcer_validator, set_test,
  reset_state, test, generate_acls, generate_acls_start, generate_acls_continue, modify, with_acls,
}
use scitokens_cpp.Enforcer.Answers.{testing, listing}

-- The fields of the enforcer that its claim validators leave as they are.
abbrev pub IsFixed : EnforcerState → EnforcerState → Type 0
IsFixed me user = fixed user ≡ fixed me

-- The claim validators of a new enforcer change only the list of ACLs.
pub new_enforcer_validator-Stays :
    (now : ℤ) (issuer : Str) (audiences : List Str) (me : EnforcerState)
    → AllFunctions
        (Stays (IsFixed me))
        (new_enforcer_validator now issuer audiences).m_claim_validators
unfolding new_enforcer_validator add_function str_eq str str_validator all_validator aud_validator
new_enforcer_validator-Stays now issuer audiences me = (
  (λ profile claim user h. h, tt),
  (
    (λ profile claim user h. h, tt),
    (
      (λ profile claim user h. h, tt),
      (
        (λ profile claim user h. h, tt),
        ((λ profile claim user h. scope_validator-fixed profile claim user ∙ h, tt), tt),
      ),
    ),
  ),
)

-- What a constructor of an enforcer sets of its validator; the profiles and the time vary.
abbrev pub settings : Validator EnforcerState → Validator EnforcerState
settings v = record v { m_profile = compat; m_validate_profile = compat; m_now = pos 0 }

pub settings-Stays :
    (issuer : Str) (audiences : List Str) (v : Validator EnforcerState) (me : EnforcerState)
    → settings v ≡ settings (new_enforcer_validator (pos 0) issuer audiences)
    → AllFunctions (Stays (IsFixed me)) v.m_claim_validators
settings-Stays issuer audiences v me h =
    subst (AllFunctions (Stays (IsFixed me)))
      (sym (ap (λ (u : Validator EnforcerState). u.m_claim_validators) h))
      (new_enforcer_validator-Stays (pos 0) issuer audiences me)

module _ (env : Services) (lib : JwtLibrary) (issuer : Str) (audiences : List Str) where
  -- An enforcer of an issuer and some audiences.
  pub record IsEnforcer (r : Enforcing env lib) : Type 0 where
    pub configured :
        settings r.validator ≡ settings (new_enforcer_validator (pos 0) issuer audiences)
    pub of_issuer : r.user.m_issuer ≡ issuer
    pub of_audiences : r.user.m_audiences ≡ audiences

  module _ (r : Enforcing env lib) (h : IsEnforcer r) where
    -- What a verification by the enforcer keeps.
    abbrev pub Verifies : Enforcing env lib → Type 0
    Verifies =
        IsKept (configuration r.validator) (IsFixed r.user)
          (settings-Stays issuer audiences r.validator r.user h.configured)

    pub Verifies-self : Verifies r
    Verifies-self = record { configured = refl; behind = refl }

    pub Verifies-IsEnforcer : (t : Enforcing env lib) → Verifies t → IsEnforcer t
    Verifies-IsEnforcer t k = record {
      configured = ap settings k.configured ∙ h.configured;
      of_issuer = ap (λ (me : EnforcerState). me.m_issuer) k.behind ∙ h.of_issuer;
      of_audiences = ap (λ (me : EnforcerState). me.m_audiences) k.behind ∙ h.of_audiences;
    }

  -- A part of a verification, which keeps what every verification keeps, keeps the settings.
  verifying-Keeps :
      {A : Type 0} (m : Exec (Enforcing env lib) A)
      → ((r : Enforcing env lib) (h : IsEnforcer r) → Keeps (Verifies r h) m)
      → Keeps IsEnforcer m
  verifying-Keeps m keeps = record {
    at = λ r h. Verifies-IsEnforcer r h (m r).1 ((keeps r h).at r (Verifies-self r h));
  }

  reset_state-Keeps : Keeps IsEnforcer (modify env lib (reset_state env lib))
  unfolding reset_state
  reset_state-Keeps = record {
    at = λ r h. record {
      configured = h.configured;
      of_issuer = h.of_issuer;
      of_audiences = h.of_audiences;
    };
  }

  set_test-Keeps :
      (authz path : Str) → Keeps IsEnforcer (modify env lib (set_test env lib authz path))
  set_test-Keeps authz path = record {
    at = λ r h. record {
      configured = h.configured;
      of_issuer = h.of_issuer;
      of_audiences = h.of_audiences;
    };
  }

  time-Keeps : Keeps IsEnforcer (on_outside (call env.time))
  time-Keeps = record {
    at = λ r h. record {
      configured = h.configured;
      of_issuer = h.of_issuer;
      of_audiences = h.of_audiences;
    };
  }

  -- The state in which a test starts its verification.
  pub testing-IsEnforcer :
      (authz path : Str) (r : Enforcing env lib)
      → IsEnforcer r
      → IsEnforcer (testing env lib authz path r)
  testing-IsEnforcer authz path r h =
      time-Keeps.at _ ((set_test-Keeps authz path).at _ (reset_state-Keeps.at r h))

  -- The state in which a listing starts its verification.
  pub listing-IsEnforcer : (r : Enforcing env lib) → IsEnforcer r → IsEnforcer (listing env lib r)
  listing-IsEnforcer r h = time-Keeps.at _ (reset_state-Keeps.at r h)

  verify_scitoken-IsEnforcer :
      (fuel : ℕ) (m_decoded : Option DecodedJwt) (expiry_time : ℤ)
      → Keeps IsEnforcer (verify_scitoken env lib EnforcerState fuel m_decoded expiry_time)
  verify_scitoken-IsEnforcer fuel m_decoded expiry_time =
      verifying-Keeps (verify_scitoken env lib EnforcerState fuel m_decoded expiry_time) λ r h.
        verify_scitoken-Keeps env lib (configuration r.validator) (IsFixed r.user)
          (settings-Stays issuer audiences r.validator r.user h.configured) fuel m_decoded
          expiry_time

  with_acls-Keeps : (status : Status env) → Keeps IsEnforcer (with_acls env lib status)
  with_acls-Keeps status = record { at = λ r h. h }

  pub test-Keeps :
      (fuel : ℕ) (m_decoded : Option DecodedJwt) (authz path : Str)
      → Keeps IsEnforcer (test env lib fuel m_decoded authz path)
  unfolding test
  test-Keeps fuel m_decoded authz path =
      >>=-Keeps (modify env lib (reset_state env lib)) _ reset_state-Keeps λ u.
        >>=-Keeps (modify env lib (set_test env lib authz path)) _ (set_test-Keeps authz path) λ u.
          >>=-Keeps (on_outside (call env.time)) _ time-Keeps λ now.
            >>=-Keeps (verify_scitoken env lib EnforcerState fuel m_decoded (now +ℤ pos 20)) _
              (verify_scitoken-IsEnforcer fuel m_decoded _)
              λ ended. lift-Keeps (ok (elim ended [ none ↦ none | some status ↦ some true ]))

  pub generate_acls-Keeps :
      (fuel : ℕ) (m_decoded : Option DecodedJwt)
      → Keeps IsEnforcer (generate_acls env lib fuel m_decoded)
  unfolding generate_acls
  generate_acls-Keeps fuel m_decoded =
      >>=-Keeps (modify env lib (reset_state env lib)) _ reset_state-Keeps λ u.
        >>=-Keeps (on_outside (call env.time)) _ time-Keeps λ now.
          >>=-Keeps (verify_scitoken env lib EnforcerState fuel m_decoded (now +ℤ pos 20)) _
            (verify_scitoken-IsEnforcer fuel m_decoded _)
            λ ended.
              >>=-Keeps (gets (λ r. r.user.m_gen_acls)) _ (gets-Keeps _)
                λ acls. lift-Keeps (ok (elim ended [ none ↦ none | some status ↦ some acls ]))

  pub generate_acls_start-Keeps :
      (m_decoded : Option DecodedJwt) → Keeps IsEnforcer (generate_acls_start env lib m_decoded)
  unfolding generate_acls_start
  generate_acls_start-Keeps m_decoded =
      >>=-Keeps (modify env lib (reset_state env lib)) _ reset_state-Keeps λ u.
        >>=-Keeps (lift (decoded_or_throw m_decoded)) _ (lift-Keeps _) λ jwt.
          >>=-Keeps (verify_async env lib EnforcerState jwt) _
            (verifying-Keeps (verify_async env lib EnforcerState jwt) λ r h.
              verify_async-Keeps env lib (configuration r.validator) (IsFixed r.user)
                (settings-Stays issuer audiences r.validator r.user h.configured) jwt)
            λ status. with_acls-Keeps status

  pub generate_acls_continue-Keeps :
      (status : Status env) → Keeps IsEnforcer (generate_acls_continue env lib status)
  unfolding generate_acls_continue
  generate_acls_continue-Keeps status =
      >>=-Keeps (verify_async_continue env lib EnforcerState status) _
        (verifying-Keeps (verify_async_continue env lib EnforcerState status) λ r h.
          verify_async_continue-Keeps env lib (configuration r.validator) (IsFixed r.user)
            (settings-Stays issuer audiences r.validator r.user h.configured) status)
        λ next. with_acls-Keeps next
