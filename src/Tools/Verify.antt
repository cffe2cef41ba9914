-- ===== src/Tools/Verify.antt =====
-- src/verify.cpp: the verification of a token, with a key of the issuer if one is given.
use scitokens_cpp.Prelude.{
  ℕ, ltb, true, List, [], ◌∷◌, Option, none, some, Str, str, is_empty, if◌then◌else◌,
}
use scitokens_cpp.Fetch.{Services}
use scitokens_cpp.Token.{JwtLibrary}
use scitokens_cpp.SciToken.{SciToken}
use scitokens_cpp.Openssl.{Base64Url, Openssl}
use scitokens_cpp.Api.{Reply, success, failure, failure_without_message, undefined_behaviour, c_str}
use scitokens_cpp.Api.Serialized.{scitoken_deserialize, scitoken_store_public_ec_key}
use scitokens_cpp.Tools.{Ending, exited, still_waiting, undefined_ending}
use scitokens_cpp.Tools.ListAccess.{failed}
use scitokens_cpp.Tools.Options.{Arguments, Flow, exit, undefined_flow, go_on, init_verify}

module _ (env : Services) (lib : JwtLibrary) (ssl : Openssl) (b64 : Base64Url)
    (file : Str → Str) where
  abbrev pub verified_reply : Reply (Option SciToken) → Ending
  verified_reply (success (some t)) = exited 0 (str "Token deserialization successful." ∷ [])
  verified_reply (success none) = still_waiting
  verified_reply reply = failed [] (str "Failed to deserialize a token: ") reply

  unfoldable pub verify_text : ℕ → Str → env.W → Ending
  unfolding scitoken_deserialize
  verify_text fuel token w =
      verified_reply (scitoken_deserialize env lib fuel (some token) true none w).0

  -- A failure of the store without a message prints and frees a pointer that was never set.
  abbrev pub stored_then : ℕ → Str → Reply (Unit {0}) × env.W → Ending
  stored_then fuel token (success done, w) = verify_text fuel token w
  stored_then fuel token (failure msg, w) = exited 1 []
  stored_then fuel token (failure_without_message, w) = undefined_ending
  stored_then fuel token (undefined_behaviour, w) = undefined_ending

  abbrev pub run_verify : ℕ → Str → Flow Arguments → env.W → Ending
  run_verify fuel token (exit code) w = exited code []
  run_verify fuel token undefined_flow w = undefined_ending
  run_verify fuel token (go_on a) w =
      if is_empty a.g_issuer
      then verify_text fuel token w
      else stored_then fuel token (
          scitoken_store_public_ec_key env lib ssl b64 a.g_issuer a.g_kid (c_str (file a.g_cred)) w)

  -- `main`: the number of arguments with the program's name, the options, the arguments behind them,
  -- and the last argument.
  unfoldable pub verify_main : ℕ → ℕ → List (ℕ × Str) → ℕ → Str → env.W → Ending
  unfolding verify_text init_verify scitoken_store_public_ec_key
  verify_main fuel argc options left token w =
      if ltb argc 2 then exited 1 [] else run_verify fuel token (init_verify options left) w
