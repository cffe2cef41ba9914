-- ===== src/Tools/ListAccess.antt =====
-- src/list_access.cpp: the ACLs of a token.
pub mod Trusted
use scitokens_cpp.Prelude.{ℕ, List, [], ◌∷◌, ◌++◌, map, Option, none, some, Str, str, true, ℤ}
use scitokens_cpp.Fetch.{Services}
use scitokens_cpp.Token.{JwtLibrary}
use scitokens_cpp.SciToken.{SciToken}
use scitokens_cpp.Scope.{AclsList, EnforcerState}
use scitokens_cpp.Validator.{Validator}
use scitokens_cpp.Enforcer.{Enforcing}
use scitokens_cpp.Api.{Reply, success, failure, failure_without_message, undefined_behaviour}
use scitokens_cpp.Api.Serialized.{scitoken_deserialize, enforcer_create}
use scitokens_cpp.Api.Trust.{enforcer_generate_acls}
use scitokens_cpp.Tools.{Ending, exited, still_waiting, undefined_ending}

-- The text behind a failure; a null message is printed.
abbrev pub failed : {A : Type 0} → List Str → Str → Reply A → Ending
failed lines text (failure msg) = exited 1 (lines ++ (text ++ msg) ∷ [])
failed lines text reply = undefined_ending

unfoldable pub acl_line : Str × Str → Str
acl_line (authz, resource) = str "ACL: " ++ (authz ++ 58 ∷ resource)

abbrev pub deserialized_line : Str
deserialized_line = str "Token deserialization successful.  Checking authorizations."

unfoldable pub acl_lines : AclsList → List Str
unfolding acl_line
acl_lines acls =
    deserialized_line ∷ str "Start of ACLs:" ∷ (map acl_line acls ++ str "End of ACLs:" ∷ [])

module _ (env : Services) (lib : JwtLibrary) where
  abbrev pub list_reply : Reply (Option AclsList) → Ending
  list_reply (success (some acls)) = exited 0 (acl_lines acls)
  list_reply (success none) = still_waiting
  list_reply reply = failed (deserialized_line ∷ []) (str "ACL generation failed: ") reply

  -- The enforcer that `enforcer_create` makes in the world `w`.
  abbrev pub list_acls :
      ℕ → SciToken → Reply (Validator EnforcerState × EnforcerState) → env.W → Ending
  list_acls fuel t (success (validator, state)) w =
      list_reply
        (enforcer_generate_acls env lib fuel (some t)
          (some (record { outside = w; validator = validator; user = state }))).0
  list_acls fuel t reply w =
      failed (deserialized_line ∷ []) (str "Failed to create a new enforcer object: ") reply

  abbrev pub list_token : ℕ → Str → Str → Reply (Option SciToken) × env.W → Ending
  list_token fuel issuer audience (success (some t), w) =
      list_acls fuel t (enforcer_create (env.time w).0 (some issuer) (some (audience ∷ [])))
        (env.time w).1
  list_token fuel issuer audience (success none, w) = still_waiting
  list_token fuel issuer audience (reply, w) =
      failed [] (str "Failed to deserialize a token: ") reply

  -- `main`, whose arguments start with the name of the program.
  unfoldable pub list_access : ℕ → List Str → env.W → Ending
  unfolding acl_lines scitoken_deserialize enforcer_create enforcer_generate_acls
  list_access fuel (program ∷ token ∷ issuer ∷ audience ∷ more) w =
      list_token fuel issuer audience (scitoken_deserialize env lib fuel (some token) true none w)
  list_access fuel arguments w = exited 1 []
