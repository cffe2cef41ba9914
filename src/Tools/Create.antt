-- ===== src/Tools/Create.antt =====
-- src/create.cpp: a new token.
use scitokens_cpp.Prelude.{
  ℕ, true, List, [], ◌∷◌, Option, none, some, Str, str, str_eq, until, from, is_empty,
  if◌then◌else◌,
}
use scitokens_cpp.Profile.{Profile, wlcg_1_0, scitokens_1_0, scitokens_2_0, at_jwt}
use scitokens_cpp.Fetch.{Services}
use scitokens_cpp.Token.{JwtLibrary}
use scitokens_cpp.SciToken.{SciToken, Builder}
use scitokens_cpp.Api.{Reply, success, failure, failure_without_message, undefined_behaviour, c_str}
use scitokens_cpp.Api.Tokens.{
  scitoken_key_create, scitoken_create, scitoken_set_claim_string, scitoken_set_serialize_mode,
}
use scitokens_cpp.Api.Serialized.{scitoken_serialize}
use scitokens_cpp.Tools.{Ending, exited, undefined_ending}
use scitokens_cpp.Tools.Options.{Arguments, Flow, exit, undefined_flow, go_on, ◌>>=◌, init_create}

-- A failure ends the tool; `err_msg` is printed and freed, and is not set before the calls.
abbrev pub or_exit : {A : Type 0} → Reply A → Flow A
or_exit (success a) = go_on a
or_exit (failure msg) = exit 1
or_exit failure_without_message = undefined_flow
or_exit undefined_behaviour = undefined_flow

abbrev pub with_claim : Str → Str → SciToken → Flow (Option SciToken)
with_claim key value t =
    let set = scitoken_set_claim_string (some (c_str key)) (some (c_str value)) (some t) in
    or_exit set.0 >>= λ _. go_on set.1

abbrev pub the_token : Option SciToken → Flow SciToken
the_token none = exit 1
the_token (some t) = go_on t

-- `claim.find("=")` splits a claim; 61 is `=`.
abbrev pub claim_value : Str → Flow Str
claim_value [] = exit 1
claim_value (equals ∷ value) = go_on value

unfoldable pub set_claims : List Str → SciToken → Flow SciToken
unfolding scitoken_set_claim_string
set_claims [] t = go_on t
set_claims (claim ∷ claims) t = do
  value ← claim_value (from 61 claim)
  next ← with_claim (until 61 claim) value t
  token ← the_token next
  set_claims claims token

unfoldable pub profile_named : Str → Flow Profile
profile_named name =
    if str_eq name (str "wlcg")
    then go_on wlcg_1_0
    else if str_eq name (str "scitokens1")
    then go_on scitokens_1_0
    else if str_eq name (str "scitokens2")
    then go_on scitokens_2_0
    else if str_eq name (str "atjwt")
    then go_on at_jwt
    else exit 1

abbrev pub with_profile : Str → SciToken → Flow SciToken
with_profile name t =
    if is_empty name
    then go_on t
    else (do profile ← profile_named name; the_token (scitoken_set_serialize_mode profile (some t)))

-- The token of the arguments, before it is serialized.
unfoldable pub create_token : (Str → Str) → Arguments → Flow SciToken
unfolding set_claims profile_named scitoken_key_create scitoken_create scitoken_set_serialize_mode
create_token file a = do
  key ← or_exit (
      scitoken_key_create (some (c_str a.g_kid)) (some (str "ES256")) (some (c_str (file a.g_cred)))
        (some (c_str (file a.g_key))))
  token ← or_exit (scitoken_create (some key))
  issued ← with_claim (str "iss") a.g_issuer token
  with_issuer ← the_token issued
  claimed ← set_claims a.g_claims with_issuer
  with_profile a.g_profile claimed

module _ (env : Services) (lib : JwtLibrary) (builder : Builder) (uuid : env.W → Str × env.W)
    (file : Str → Str) where
  abbrev pub printed_reply : Reply Str → Ending
  printed_reply (success value) = exited 0 (value ∷ [])
  printed_reply (failure msg) = exited 1 []
  printed_reply failure_without_message = undefined_ending
  printed_reply undefined_behaviour = undefined_ending

  abbrev pub run_create : Flow SciToken → env.W → Ending
  run_create (exit code) w = exited code []
  run_create undefined_flow w = undefined_ending
  run_create (go_on t) w = printed_reply (scitoken_serialize env lib builder uuid true (some t) w).0

  -- `main`: the options, and the number of arguments behind them.
  unfoldable pub create_main : List (ℕ × Str) → ℕ → env.W → Ending
  unfolding create_token init_create scitoken_serialize
  create_main options left w = run_create (init_create options left >>= create_token file) w
