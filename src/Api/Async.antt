-- ===== src/Api/Async.antt =====
-- The functions of src/scitokens.cpp that do not wait, with their status handles. A handle is the
-- object behind it, and the place of a handle holds `none` for a null pointer.
pub mod Run
use scitokens_cpp.Prelude.{
  ℕ, Bool, true, false, List, [], Option, none, some, Str, str, Result, ok, throw, undefined, what,
  if◌then◌else◌,
}
use scitokens_cpp.Exec.{Exec}
use scitokens_cpp.Fetch.{Services, Status}
use scitokens_cpp.Token.{JwtLibrary}
use scitokens_cpp.SciToken.{SciToken, new_scitoken}
use scitokens_cpp.SciToken.Deserialize.{SciTokenAsyncStatus, deserialize_start}
use scitokens_cpp.Scope.{AclsList}
use scitokens_cpp.Enforcer.{Enforcing, generate_acls_start, generate_acls_continue}
use scitokens_cpp.Api.{Reply, success, failure, undefined_behaviour, reply, Call}
use scitokens_cpp.Api.Trust.{convert_acls}
use scitokens_cpp.Api.Serialized.{no_signing_key, or_empty}

module _ (env : Services) (lib : JwtLibrary) where
  -- The outputs `*token` and `*status_out` of a start, by `status->m_status->m_done`; a null
  -- `m_status` is dereferenced.
  abbrev pub started_token :
      SciToken
      → SciTokenAsyncStatus env
      → Option (Status env)
      → Reply (SciToken × Option (SciTokenAsyncStatus env))
  started_token t status none = undefined_behaviour
  started_token t status (some inner) = success (t, if inner.m_done then none else some status)

  abbrev pub start_reply :
      Result (SciTokenAsyncStatus env)
      → SciToken
      → Reply (SciToken × Option (SciTokenAsyncStatus env))
  start_reply (ok status) t = started_token t status status.m_status
  start_reply (throw e) t = failure (what e)
  start_reply undefined t = undefined_behaviour

  -- The second argument is whether there is an output pointer.
  unfoldable pub scitoken_deserialize_start :
      Option Str
      → Bool
      → Option (List Str)
      → env.W
      → Reply (SciToken × Option (SciTokenAsyncStatus env)) × env.W
  unfolding deserialize_start
  scitoken_deserialize_start none output allowed_issuers w =
      (failure (str "Token may not be NULL"), w)
  scitoken_deserialize_start (some value) false allowed_issuers w =
      (failure (str "Output token not provided"), w)
  scitoken_deserialize_start (some value) true allowed_issuers w =
      let run =
        deserialize_start env lib value (or_empty allowed_issuers)
          (w, new_scitoken no_signing_key) in
      (start_reply run.0 run.1.1, run.1.0)

  -- A status that is not done is handed to `deserialize_continue` of the place of the token, which is
  -- no token: that is undefined.
  abbrev pub continued_token : Option (Status env) → Reply (Unit {0})
  continued_token none = undefined_behaviour
  continued_token (some inner) = if inner.m_done then success tt else undefined_behaviour

  -- The first argument is whether there is a place of the token; the place of the status is null
  -- after a success.
  unfoldable pub scitoken_deserialize_continue :
      Bool → Option (SciTokenAsyncStatus env) → Reply (Unit {0})
  scitoken_deserialize_continue false status = failure (str "Output token not provided")
  scitoken_deserialize_continue true none = success tt
  scitoken_deserialize_continue true (some status) = continued_token status.m_status

  -- What a start or a round hands out: the status that waits, or the ACLs.
  abbrev pub Step : Type 0
  Step = Option (Status env) × Option AclsList

  abbrev pub handed_out : Status env → Option AclsList → Step
  handed_out status acls =
      if status.m_done then (none, some (convert_acls (or_none acls))) else (some status, none)
    where
      or_none : Option AclsList → AclsList
      or_none none = []
      or_none (some listed) = listed

  abbrev pub step_reply : Result (Status env × Option AclsList) → Reply Step
  step_reply (ok (status, acls)) = success (handed_out status acls)
  step_reply (throw e) = failure (what e)
  step_reply undefined = undefined_behaviour

  unfoldable pub enforcer_generate_acls_start : Option SciToken → Call (Enforcing env lib) Step
  unfolding generate_acls_start
  enforcer_generate_acls_start scitoken none =
      (failure (str "Enforcer may not be a null pointer"), none)
  enforcer_generate_acls_start none (some enf) =
      (failure (str "SciToken may not be a null pointer"), some enf)
  enforcer_generate_acls_start (some t) (some enf) =
      let run = generate_acls_start env lib t.m_decoded enf in (step_reply run.0, some run.1)

  -- The argument is the pointer to the place of the status. The place is null after an exception; a
  -- null place is dereferenced.
  unfoldable pub enforcer_generate_acls_continue :
      Option (Option (Status env)) → Call (Enforcing env lib) Step
  unfolding generate_acls_continue
  enforcer_generate_acls_continue status none =
      (failure (str "Enforcer may not be a null pointer"), none)
  enforcer_generate_acls_continue none (some enf) =
      (failure (str "Status may not be a null pointer"), some enf)
  enforcer_generate_acls_continue (some none) (some enf) = (undefined_behaviour, some enf)
  enforcer_generate_acls_continue (some (some status)) (some enf) =
      let run = generate_acls_continue env lib status enf in (step_reply run.0, some run.1)
