-- ===== src/Api/Serialized.antt =====
-- The functions of src/scitokens.cpp that serialize, deserialize and validate tokens and store keys.
-- `fuel` bounds a loop that waits for the network, and `none` is a loop that is not over by then.
use scitokens_cpp.Prelude.{
  ℕ, Bool, true, false, List, [], Option, none, some, Str, str, Result, ok, throw, undefined, what,
  ℤ, pos, ◌+ℤ◌,
}
use scitokens_cpp.Profile.{Profile}
use scitokens_cpp.Fetch.{Services}
use scitokens_cpp.Token.{JwtLibrary, SciTokenKey}
use scitokens_cpp.SciToken.{SciToken, Builder, new_scitoken, serialize}
use scitokens_cpp.SciToken.Deserialize.{deserialize}
use scitokens_cpp.Validator.{Validator}
use scitokens_cpp.Validator.Late.{Running}
use scitokens_cpp.Validator.Verify.{verify_scitoken}
use scitokens_cpp.Enforcer.{
  Enforcing, set_validate_profile, new_enforcer_state, new_enforcer_validator,
}
use scitokens_cpp.Scope.{EnforcerState}
use scitokens_cpp.Openssl.{Base64Url, Openssl}
use scitokens_cpp.Openssl.Publish.{store_public_ec_key}
use scitokens_cpp.Api.{
  Reply, success, failure, failure_without_message, undefined_behaviour, reply, map_reply, c_str,
  Call,
}

-- `SciTokenKey()`
abbrev pub no_signing_key : SciTokenKey
no_signing_key = record { m_kid = str "none"; m_name = str "none"; m_public = []; m_private = [] }

-- A list that may be a null pointer.
abbrev pub or_empty : Option (List Str) → List Str
or_empty none = []
or_empty (some entries) = entries

module _ (env : Services) (lib : JwtLibrary) where
  -- `value` is whether there is an output pointer; a null token is dereferenced.
  unfoldable pub scitoken_serialize :
      Builder
      → (env.W → Str × env.W)
      → Bool
      → Option SciToken
      → env.W
      → Reply Str × (env.W × Option SciToken)
  unfolding serialize
  scitoken_serialize builder uuid false token w =
      (failure (str "Output variable not provided"), (w, token))
  scitoken_serialize builder uuid true none w = (undefined_behaviour, (w, none))
  scitoken_serialize builder uuid true (some t) w =
      let run = serialize env lib builder uuid (w, t) in
      (map_reply c_str (reply run.0), (run.1.0, some run.1.1))

  -- A null value makes a string of a null pointer, and a null token is dereferenced.
  unfoldable pub scitoken_deserialize_v2 :
      ℕ
      → Option Str
      → Option (List Str)
      → Option SciToken
      → env.W
      → Reply (Option (Unit {0})) × (env.W × Option SciToken)
  unfolding deserialize
  scitoken_deserialize_v2 fuel none allowed_issuers token w = (undefined_behaviour, (w, token))
  scitoken_deserialize_v2 fuel (some value) allowed_issuers none w =
      (undefined_behaviour, (w, none))
  scitoken_deserialize_v2 fuel (some value) allowed_issuers (some t) w =
      let run = deserialize env lib fuel value (or_empty allowed_issuers) (w, t) in
      (reply run.0, (run.1.0, some run.1.1))

  -- The new token is written to the output only on success.
  abbrev pub written_token : Option SciToken → Reply (Option (Unit {0})) → Reply (Option SciToken)
  written_token token (success none) = success none
  written_token token (success (some done)) = success token
  written_token token (failure msg) = failure msg
  written_token token failure_without_message = failure_without_message
  written_token token undefined_behaviour = undefined_behaviour

  -- The second argument is whether there is an output pointer.
  unfoldable pub scitoken_deserialize :
      ℕ → Option Str → Bool → Option (List Str) → env.W → Reply (Option SciToken) × env.W
  unfolding scitoken_deserialize_v2
  scitoken_deserialize fuel none output allowed_issuers w =
      (failure (str "Token may not be NULL"), w)
  scitoken_deserialize fuel (some value) false allowed_issuers w =
      (failure (str "Output token not provided"), w)
  scitoken_deserialize fuel (some value) true allowed_issuers w =
      let run =
        scitoken_deserialize_v2 fuel (some value) allowed_issuers
          (some (new_scitoken no_signing_key)) w in
      (written_token run.1.1 run.0, run.1.0)

  abbrev pub ended_reply : {A : Type 0} → Result (Option A) → Reply (Option (Unit {0}))
  ended_reply (ok none) = success none
  ended_reply (ok (some status)) = success (some tt)
  ended_reply (throw e) = failure (what e)
  ended_reply undefined = undefined_behaviour

  -- The validator's handle, with what is behind the pointers of its claim validators.
  unfoldable pub validator_validate :
      {S : Type 0} → ℕ → Option SciToken → Call (Running env.W S) (Option (Unit {0}))
  unfolding verify_scitoken
  validator_validate fuel scitoken none =
      (failure (str "Validator may not be a null pointer"), none)
  validator_validate fuel none (some v) =
      (failure (str "SciToken may not be a null pointer"), some v)
  validator_validate {S} fuel (some t) (some v) =
      let (now, w) = env.time v.outside in
      let run =
        verify_scitoken env lib S fuel t.m_decoded (now +ℤ pos 20) (record v { outside = w }) in
      (ended_reply run.0, some run.1)

  abbrev pub or_failed : Result Bool → Reply (Unit {0})
  or_failed (ok true) = success tt
  or_failed (ok false) = failure_without_message
  or_failed (throw e) = failure (what e)
  or_failed undefined = undefined_behaviour

  -- The three strings are not null.
  unfoldable pub scitoken_store_public_ec_key :
      Openssl → Base64Url → Str → Str → Str → env.W → Reply (Unit {0}) × env.W
  unfolding store_public_ec_key
  scitoken_store_public_ec_key ssl b64 issuer keyid key w =
      let run = store_public_ec_key ssl b64 env issuer keyid key w in (or_failed run.0, run.1)

unfoldable pub validator_set_token_profile :
    {S : Type 0} → Profile → Option (Validator S) → Option (Validator S)
validator_set_token_profile profile none = none
validator_set_token_profile profile (some v) = some (record v { m_validate_profile = profile })

-- The new enforcer at the time `now`; a null audience list is an empty one.
unfoldable pub enforcer_create :
    ℤ → Option Str → Option (List Str) → Reply (Validator EnforcerState × EnforcerState)
unfolding new_enforcer_validator
enforcer_create now none audience_list = failure (str "Issuer may not be a null pointer")
enforcer_create now (some issuer) audience_list = success (
  new_enforcer_validator now issuer (or_empty audience_list),
  new_enforcer_state issuer (or_empty audience_list),
)

unfoldable pub enforcer_set_validate_profile :
    (env : Services) (lib : JwtLibrary)
    → Profile
    → Option (Enforcing env lib)
    → Option (Enforcing env lib)
unfolding set_validate_profile
enforcer_set_validate_profile env lib profile none = none
enforcer_set_validate_profile env lib profile (some enf) =
    some (set_validate_profile env lib profile enf)
