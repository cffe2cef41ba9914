-- ===== src/Enforcer/Life.antt =====
-- The life of an enforcer: its constructor, and its operations in any order.
use scitokens_cpp.Prelude.{refl, ℕ, Option, List, Str, ℤ}
use scitokens_cpp.Profile.{Profile}
use scitokens_cpp.Fetch.{Services, Status}
use scitokens_cpp.Token.{DecodedJwt, JwtLibrary}
use scitokens_cpp.Enforcer.{
  Enforcing, new_enforcer_state, new_enforcer_validator, set_validate_profile, test, generate_acls,
  generate_acls_start, generate_acls_continue,
}
use scitokens_cpp.Enforcer.Kept.{
  IsEnforcer, test-Keeps, generate_acls-Keeps, generate_acls_start-Keeps,
  generate_acls_continue-Keeps,
}

module _ (env : Services) (lib : JwtLibrary) where
  -- One operation of an enforcer, however it ends, or a change of what is outside the process.
  pub data Step : Enforcing env lib → Enforcing env lib → Type 0 where
    tested :
        (fuel : ℕ) (m_decoded : Option DecodedJwt) (authz path : Str) {r : Enforcing env lib}
        → Step r (test env lib fuel m_decoded authz path r).1
    listed :
        (fuel : ℕ) (m_decoded : Option DecodedJwt) {r : Enforcing env lib}
        → Step r (generate_acls env lib fuel m_decoded r).1
    started :
        (m_decoded : Option DecodedJwt) {r : Enforcing env lib}
        → Step r (generate_acls_start env lib m_decoded r).1
    continued :
        (status : Status env) {r : Enforcing env lib}
        → Step r (generate_acls_continue env lib status r).1
    profile_set :
        (profile : Profile) {r : Enforcing env lib}
        → Step r (set_validate_profile env lib profile r)
    time_set :
        (now : ℤ) {r : Enforcing env lib}
        → Step r (record r { validator = record r.validator { m_now = now } })
    moved : (w : env.W) {r : Enforcing env lib} → Step r (record r { outside = w })

  -- The states of an enforcer that was made for an issuer and some audiences.
  pub data Lives (issuer : Str) (audiences : List Str) : Enforcing env lib → Type 0 where
    created :
        (now : ℤ) (w : env.W)
        → Lives issuer audiences (record {
          outside = w;
          validator = new_enforcer_validator now issuer audiences;
          user = new_enforcer_state issuer audiences;
        })
    after :
        {r t : Enforcing env lib} → Lives issuer audiences r → Step r t → Lives issuer audiences t

module _ (env : Services) (lib : JwtLibrary) (issuer : Str) (audiences : List Str) where
  Step-IsEnforcer :
      {r t : Enforcing env lib}
      → Step env lib r t
      → IsEnforcer env lib issuer audiences r
      → IsEnforcer env lib issuer audiences t
  unfolding set_validate_profile
  Step-IsEnforcer (tested fuel m_decoded authz path {r}) h =
      (test-Keeps env lib issuer audiences fuel m_decoded authz path).at r h
  Step-IsEnforcer (listed fuel m_decoded {r}) h =
      (generate_acls-Keeps env lib issuer audiences fuel m_decoded).at r h
  Step-IsEnforcer (started m_decoded {r}) h =
      (generate_acls_start-Keeps env lib issuer audiences m_decoded).at r h
  Step-IsEnforcer (continued status {r}) h =
      (generate_acls_continue-Keeps env lib issuer audiences status).at r h
  Step-IsEnforcer (profile_set profile) h = record {
    configured = h.configured;
    of_issuer = h.of_issuer;
    of_audiences = h.of_audiences;
  }
  Step-IsEnforcer (time_set now) h = record {
    configured = h.configured;
    of_issuer = h.of_issuer;
    of_audiences = h.of_audiences;
  }
  Step-IsEnforcer (moved w) h = record {
    configured = h.configured;
    of_issuer = h.of_issuer;
    of_audiences = h.of_audiences;
  }

  -- An enforcer keeps what it was made with: its validators, its critical claims, its allowed issuers,
  -- its issuer and its audiences are the same after any operations in any order, also after those that
  -- throw.
  pub Lives-IsEnforcer :
      {r : Enforcing env lib}
      → Lives env lib issuer audiences r
      → IsEnforcer env lib issuer audiences r
  unfolding new_enforcer_validator
  Lives-IsEnforcer (created now w) = record {
    configured = refl;
    of_issuer = refl;
    of_audiences = refl;
  }
  Lives-IsEnforcer (after life step) = Step-IsEnforcer step (Lives-IsEnforcer life)
