-- ===== src/Api/Tokens.antt =====
-- The functions of src/scitokens.cpp on keys and tokens.
pub mod Strings
use scitokens_cpp.Prelude.{
  Bool, true, false, not, List, [], ◌∷◌, map, Option, none, some, Str, str, if◌then◌else◌, string,
  as_int, ℤ, pos, negsuc,
}
use scitokens_cpp.Exec.{Exec, pure, lift, call, ◌>>=◌}
use scitokens_cpp.Profile.{Profile}
use scitokens_cpp.Token.{SciTokenKey}
use scitokens_cpp.SciToken.{
  SciToken, new_scitoken, set_claim, get_claim, has_claim, set_claim_list, get_claim_string,
  get_claim_list,
}
use scitokens_cpp.Api.{
  Reply, success, failure, undefined_behaviour, reply, map_reply, c_str, Call, on_object, answer,
}

unfoldable pub scitoken_key_create :
    Option Str → Option Str → Option Str → Option Str → Reply SciTokenKey
scitoken_key_create none alg public_contents private_contents =
    failure (str "Key ID cannot be NULL.")
scitoken_key_create (some key_id) none public_contents private_contents =
    failure (str "Algorithm cannot be NULL.")
scitoken_key_create (some key_id) (some alg) none private_contents =
    failure (str "Public key contents cannot be NULL.")
scitoken_key_create (some key_id) (some alg) (some public_contents) none =
    failure (str "Private key contents cannot be NULL.")
scitoken_key_create (some key_id) (some alg) (some public_contents) (some private_contents) =
    success (record {
      m_kid = key_id;
      m_name = alg;
      m_public = public_contents;
      m_private = private_contents;
    })

-- A null handle is dereferenced.
unfoldable pub scitoken_create : Option SciTokenKey → Reply SciToken
scitoken_create none = undefined_behaviour
scitoken_create (some key) = success (new_scitoken key)

unfoldable pub scitoken_set_claim_string : Option Str → Option Str → Call SciToken (Unit {0})
scitoken_set_claim_string key value none = (failure (str "Token passed is not initialized."), none)
scitoken_set_claim_string none value (some t) =
    (failure (str "Claim key passed is not initialized."), some t)
scitoken_set_claim_string (some key) none (some t) =
    (failure (str "Claim value passed is not initialized."), some t)
scitoken_set_claim_string (some key) (some value) (some t) =
    (success tt, some (set_claim key (string value) t))

unfoldable pub scitoken_set_serialize_mode : Profile → Option SciToken → Option SciToken
scitoken_set_serialize_mode profile none = none
scitoken_set_serialize_mode profile (some t) = some (record t { m_serialize_profile = profile })

unfoldable pub scitoken_set_deserialize_profile : Profile → Option SciToken → Option SciToken
scitoken_set_deserialize_profile profile none = none
scitoken_set_deserialize_profile profile (some t) =
    some (record t { m_deserialize_profile = profile })

unfoldable pub scitoken_get_claim_string : Str → Call SciToken Str
scitoken_get_claim_string key none = (undefined_behaviour, none)
scitoken_get_claim_string key (some t) =
    let result = on_object (get_claim_string key) t in (map_reply c_str result.0, result.1)

unfoldable pub scitoken_set_claim_string_list : Str → List Str → Call SciToken (Unit {0})
scitoken_set_claim_string_list key value none =
    (failure (str "NULL scitoken passed to scitoken_get_claim_string_list"), none)
scitoken_set_claim_string_list key value (some t) = (success tt, some (set_claim_list key value t))

unfoldable pub scitoken_get_claim_string_list : Str → Call SciToken (List Str)
scitoken_get_claim_string_list key none =
    (failure (str "NULL scitoken passed to scitoken_get_claim_string_list"), none)
scitoken_get_claim_string_list key (some t) =
    let result = on_object (get_claim_list key) t in (map_reply (map c_str) result.0, result.1)

abbrev get_expiration : Exec SciToken ℤ
get_expiration = do value ← call (get_claim (str "exp")); lift (as_int value)

unfoldable pub scitoken_get_expiration : Call SciToken ℤ
scitoken_get_expiration none = (undefined_behaviour, none)
scitoken_get_expiration (some t) =
    if not (has_claim (str "exp") t)
    then (success (negsuc 0), some t)
    else on_object get_expiration t

unfoldable pub scitoken_set_lifetime : ℤ → Option SciToken → Option SciToken
scitoken_set_lifetime lifetime none = none
scitoken_set_lifetime lifetime (some t) = some (record t { m_lifetime = lifetime })
