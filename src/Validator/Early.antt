-- ===== src/Validator/Early.antt =====
-- The checks of `Validator::verify_async` (src/scitokens_internal.h) before the key is looked up.
pub mod Required
use scitokens_cpp.Prelude.{
  Bool, true, false, not, ◌&&◌, ◌||◌, List, [], ◌∷◌, ◌++◌, Option, none, some, Str, str, str_eq,
  Result, ok, throw, undefined, jwt_verification, is_runtime_error, Exn, ◌>>=◌, ◌>>◌, require,
  is_empty, any, if◌then◌else◌, find, as_string,
}
use scitokens_cpp.Profile.{Profile, compat, scitokens_1_0, scitokens_2_0, at_jwt, profile_eq}
use scitokens_cpp.Token.{DecodedJwt, is_some, has_payload_claim, header_string, payload_string}
use scitokens_cpp.Validator.{Validator}

abbrev pub is_at_jwt : Str → Bool
is_at_jwt typ = str_eq typ (str "at+jwt") || str_eq typ (str "application/at+jwt")

-- With a 'typ' header claim: in COMPAT mode it is trusted, in AT_JWT mode it must be right.
unfoldable pub typed_profile : Profile → Profile → Str → Result Profile
typed_profile validate_profile profile t_type =
    if profile_eq validate_profile compat
    then ok (if is_at_jwt t_type then at_jwt else profile)
    else if profile_eq validate_profile at_jwt
    then (if not (is_at_jwt t_type)
        then throw (jwt_verification (str "'typ' header claim must be at+jwt"))
        else ok at_jwt)
    else ok profile

-- The first step: the 'typ' header claim, and the value of `m_profile` after it.
unfoldable pub check_typ : Profile → Profile → DecodedJwt → Result Profile
unfolding typed_profile
check_typ validate_profile profile jwt =
    if is_some (find (str "typ") jwt.header)
    then (do t_type ← header_string jwt (str "typ"); typed_profile validate_profile profile t_type)
    else if profile_eq validate_profile at_jwt
    then throw (jwt_verification (str "'typ' header claim must be set for at+jwt tokens"))
    else ok profile

abbrev pub mandatory : DecodedJwt → Str → Result (Unit {0})
mandatory jwt claim =
    require (has_payload_claim jwt claim)
      (jwt_verification (str "'" ++ claim ++ str "' claim is mandatory"))

-- The loop over `m_critical_claims`.
unfoldable pub check_critical : DecodedJwt → List Str → Result (Unit {0})
check_critical jwt [] = ok tt
check_critical jwt (claim ∷ claims) = do mandatory jwt claim; check_critical jwt claims

unfoldable pub check_issuer : DecodedJwt → List Str → Result (Unit {0})
check_issuer jwt allowed_issuers =
    if not (is_empty allowed_issuers)
    then (do
      issuer ← payload_string jwt (str "iss")
      require (any (str_eq issuer) allowed_issuers)
          (jwt_verification (str "Token issuer is not in list of allowed issuers.")))
    else ok tt

-- The checks behind the first step, for the value of `m_profile` that it has left.
unfoldable pub check_required : Profile → List Str → List Str → DecodedJwt → Result (Unit {0})
unfolding check_critical check_issuer
check_required profile allowed_issuers critical_claims jwt = do
  mandatory jwt (str "iat")
  (if profile_eq profile scitokens_1_0 || profile_eq profile scitokens_2_0
      then mandatory jwt (str "nbf")
      else ok tt)
  mandatory jwt (str "exp")
  mandatory jwt (str "iss")
  check_issuer jwt allowed_issuers
  check_critical jwt critical_claims

abbrev no_key_id : Bool → Exn → Result Str
no_key_id true e = ok []
no_key_id false e = throw e

abbrev key_id_or_empty : Result Str → Result Str
key_id_or_empty (ok kid) = ok kid
key_id_or_empty (throw e) = no_key_id (is_runtime_error e) e
key_id_or_empty undefined = undefined

-- `try { key_id = jwt.get_key_id(); } catch (const std::runtime_error &) {}`
unfoldable pub get_key_id : DecodedJwt → Result Str
get_key_id jwt = key_id_or_empty (header_string jwt (str "kid"))
