-- ===== src/Api/Trust.antt =====
-- The functions of src/scitokens.cpp on validators, enforcers and the key cache. Their loops and
-- their calls outside are those of the classes: `fuel` bounds a loop that waits for the network,
-- and `none` is a loop that is not over by then.
pub mod Answers
pub mod Authorized
use scitokens_cpp.Prelude.{
  ℕ, Bool, true, false, List, map, Option, none, some, Str, str, Result, ok, throw, undefined, what,
  ℤ,
}
use scitokens_cpp.Fetch.{Services, get_jwks, store_jwks, refresh_jwks}
use scitokens_cpp.Token.{JwtLibrary}
use scitokens_cpp.SciToken.{SciToken}
use scitokens_cpp.Scope.{AclsList}
use scitokens_cpp.Validator.{
  Validator, StringValidatorFunction, add_string_validator, add_critical_claims,
}
use scitokens_cpp.Enforcer.{Enforcing, test, generate_acls}
use scitokens_cpp.Api.{
  Reply, success, failure, failure_without_message, undefined_behaviour, reply, map_reply, c_str,
  Call,
}

module _ {S : Type 0} where
  unfoldable pub validator_add :
      Option Str → Option StringValidatorFunction → Call (Validator S) (Unit {0})
  validator_add claim f none = (failure (str "Validator may not be a null pointer"), none)
  validator_add none f (some v) = (failure (str "Claim name may not be a null pointer"), some v)
  validator_add (some claim) none (some v) =
      (failure (str "Validator function may not be a null pointer"), some v)
  validator_add (some claim) (some f) (some v) = (success tt, some (add_string_validator claim f v))

  unfoldable pub validator_add_critical_claims : Option (List Str) → Call (Validator S) (Unit {0})
  validator_add_critical_claims claims none =
      (failure (str "Validator may not be a null pointer"), none)
  validator_add_critical_claims none (some v) =
      (failure (str "Claim list may not be a null pointer"), some v)
  validator_add_critical_claims (some claims) (some v) =
      (success tt, some (add_critical_claims claims v))

  unfoldable pub validator_set_time : ℤ → Call (Validator S) (Unit {0})
  validator_set_time now none = (failure (str "Validator may not be a null pointer"), none)
  validator_set_time now (some v) = (success tt, some (record v { m_now = now }))

-- The array that ends in a pair of null pointers holds copies of the pairs as C strings.
abbrev pub convert_acls : AclsList → AclsList
convert_acls acls = map (λ acl. (c_str acl.0, c_str acl.1)) acls

-- `== true ? 0 : -1`
abbrev pub test_reply : Result (Option Bool) → Reply (Option (Unit {0}))
test_reply (ok none) = success none
test_reply (ok (some true)) = success (some tt)
test_reply (ok (some false)) = failure_without_message
test_reply (throw e) = failure (what e)
test_reply undefined = undefined_behaviour

abbrev pub acls_reply : Option AclsList → Option AclsList
acls_reply none = none
acls_reply (some acls) = some (convert_acls acls)

module _ (env : Services) (lib : JwtLibrary) where
  -- The enforcer's handle; `scitoken` and `acl` are only read.
  abbrev pub EnforcerCall : Type 0 → Type 0
  EnforcerCall A = Call (Enforcing env lib) A

  unfoldable pub enforcer_set_time : ℤ → EnforcerCall (Unit {0})
  enforcer_set_time now none = (failure (str "Enforcer may not be a null pointer"), none)
  enforcer_set_time now (some enf) =
      (success tt, some (record enf { validator = record enf.validator { m_now = now } }))

  unfoldable pub enforcer_generate_acls : ℕ → Option SciToken → EnforcerCall (Option AclsList)
  enforcer_generate_acls fuel scitoken none =
      (failure (str "Enforcer may not be a null pointer"), none)
  enforcer_generate_acls fuel none (some enf) =
      (failure (str "SciToken may not be a null pointer"), some enf)
  enforcer_generate_acls fuel (some t) (some enf) =
      let run = generate_acls env lib fuel t.m_decoded enf in
      (map_reply acls_reply (reply run.0), some run.1)

  -- `acl` is the authorization and the resource.
  unfoldable pub enforcer_test :
      ℕ → Option SciToken → Option (Str × Str) → EnforcerCall (Option (Unit {0}))
  enforcer_test fuel scitoken acl none = (failure (str "Enforcer may not be a null pointer"), none)
  enforcer_test fuel none acl (some enf) =
      (failure (str "SciToken may not be a null pointer"), some enf)
  enforcer_test fuel (some t) none (some enf) =
      (failure (str "ACL may not be a null pointer"), some enf)
  enforcer_test fuel (some t) (some acl) (some enf) =
      let run = test env lib fuel t.m_decoded acl.0 acl.1 enf in (test_reply run.0, some run.1)

  abbrev false_is : Str → Result Bool → Reply (Unit {0})
  false_is msg (ok true) = success tt
  false_is msg (ok false) = failure msg
  false_is msg (throw e) = failure (what e)
  false_is msg undefined = undefined_behaviour

  unfoldable pub keycache_set_jwks : Option Str → Option Str → env.W → Reply (Unit {0}) × env.W
  keycache_set_jwks none jwks w = (failure (str "Issuer may not be a null pointer"), w)
  keycache_set_jwks (some issuer) none w = (failure (str "JWKS pointer may not be null."), w)
  keycache_set_jwks (some issuer) (some jwks) w =
      let run = store_jwks env issuer jwks w in
      (false_is (str "Failed to set the JWKS cache for issuer.") run.0, run.1)

  -- The second argument is whether there is an output pointer.
  unfoldable pub keycache_get_cached_jwks : Option Str → Bool → env.W → Reply Str × env.W
  keycache_get_cached_jwks none output w = (failure (str "Issuer may not be a null pointer"), w)
  keycache_get_cached_jwks (some issuer) false w =
      (failure (str "JWKS output pointer may not be null."), w)
  keycache_get_cached_jwks (some issuer) true w =
      let run = get_jwks env issuer w in (map_reply c_str (reply run.0), run.1)

  abbrev pub refreshed : Option Bool → Reply (Option (Unit {0}))
  refreshed none = success none
  refreshed (some true) = success (some tt)
  refreshed (some false) = failure (str "Failed to refresh JWKS cache for issuer.")

  abbrev pub refresh_reply : Result (Option Bool) → Reply (Option (Unit {0}))
  refresh_reply (ok done) = refreshed done
  refresh_reply (throw e) = failure (what e)
  refresh_reply undefined = undefined_behaviour

  unfoldable pub keycache_refresh_jwks : ℕ → Option Str → env.W → Reply (Option (Unit {0})) × env.W
  keycache_refresh_jwks fuel none w = (failure (str "Issuer may not be a null pointer"), w)
  keycache_refresh_jwks fuel (some issuer) w =
      let run = refresh_jwks env fuel issuer w in (refresh_reply run.0, run.1)
