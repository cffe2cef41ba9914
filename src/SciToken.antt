-- ===== src/SciToken.antt =====
-- `SciToken` of src/scitokens_internal.h, and its deserialization of src/scitokens_internal.cpp.
pub mod Claims
pub mod Maps
pub mod Profiles
pub mod Issued
pub mod Signed
pub mod RoundTrip
pub mod Deserialize
use scitokens_cpp.Prelude
use scitokens_cpp.Prelude.{
  ℕ, Bool, true, false, not, ◌||◌, List, [], ◌∷◌, Option, none, some, Str, str, str_eq, Result, ok,
  throw, undefined, missing_issuer, json, Exn, if◌then◌else◌, Json, null, string, integer, array,
  Members, no_members, member, find, put, as_string, as_array, of_items, get_string, ℤ, pos, ◌+ℤ◌,
}
use scitokens_cpp.Exec.{Exec, pure, fail, lift, gets, call, ◌>>=◌, ◌>>◌}
use scitokens_cpp.Profile.{
  Profile, compat, scitokens_1_0, scitokens_2_0, wlcg_1_0, at_jwt, profile_eq,
}
use scitokens_cpp.Token
use scitokens_cpp.Token.{DecodedJwt, JwtLibrary, SciTokenKey, is_some}
use scitokens_cpp.Fetch.{Services}

pub record SciToken : Type 0 where
  pub m_issuer_set : Bool
  pub m_lifetime : ℤ
  pub m_profile : Profile
  pub m_serialize_profile : Profile
  pub m_deserialize_profile : Profile
  pub m_claims : Members
  pub m_decoded : Option DecodedJwt
  pub m_key : SciTokenKey

-- `SciToken(signing_algorithm)`
abbrev pub new_scitoken : SciTokenKey → SciToken
new_scitoken key = record {
  m_issuer_set = false;
  m_lifetime = pos 600;
  m_profile = scitokens_1_0;
  m_serialize_profile = compat;
  m_deserialize_profile = compat;
  m_claims = no_members;
  m_decoded = none;
  m_key = key;
}

unfoldable pub set_claim : Str → Json → SciToken → SciToken
set_claim key value t = record t {
  m_claims = put key value t.m_claims;
  m_issuer_set = str_eq key (str "iss") || t.m_issuer_set;
}

abbrev or_inserted : Option Json → Str → SciToken → Json × SciToken
or_inserted (some value) key t = (value, t)
or_inserted none key t = (null, record t { m_claims = put key null t.m_claims })

-- `m_claims[key]`, which inserts a null claim if there is none.
unfoldable pub get_claim : Str → SciToken → Json × SciToken
get_claim key t = or_inserted (find key t.m_claims) key t

unfoldable pub has_claim : Str → SciToken → Bool
has_claim key t = is_some (find key t.m_claims)

strings : List Str → List Json
strings [] = []
strings (s ∷ ss) = string s ∷ strings ss

unfoldable pub set_claim_list : Str → List Str → SciToken → SciToken
unfolding strings
set_claim_list claim claim_list t = record t {
  m_claims = put claim (array (of_items (strings claim_list))) t.m_claims;
}

unfoldable pub get_claim_string : Str → Exec SciToken Str
unfolding get_claim
get_claim_string key = do value ← call (get_claim key); lift (as_string value)

-- `value.get<std::string>()` of each entry
unfoldable pub get_entries : List Json → Result (List Str)
get_entries [] = ok []
get_entries (v ∷ vs) =
    Prelude.◌>>=◌ (get_string v) λ s. Prelude.◌>>=◌ (get_entries vs) λ rest. ok (s ∷ rest)

abbrev list_or_throw : Result (List Json) → Result (List Json)
list_or_throw (throw Exn.bad_cast) = throw (json (str "Claim's value is not a JSON list"))
list_or_throw r = r

unfoldable pub get_claim_list : Str → Exec SciToken (List Str)
unfolding get_claim get_entries
get_claim_list key = do
  value ← call (get_claim key)
  entries ← lift (list_or_throw (as_array value))
  lift (get_entries entries)

-- `if (m_claims.find(key) == m_claims.end()) m_claims[key] = value;`
abbrev pub put_if_missing : Str → Json → Members → Members
put_if_missing key value claims = if is_some (find key claims) then claims else put key value claims

-- The claims that a serialization adds for the profile.
unfoldable pub profile_claims : Profile → Members → Members
profile_claims profile claims =
    if profile_eq profile scitokens_2_0
    then put_if_missing (str "aud") (string (str "ANY"))
        (put (str "ver") (string (str "scitoken:2.0")) claims)
    else if profile_eq profile wlcg_1_0
    then put_if_missing (str "aud") (string (str "https://wlcg.cern.ch/jwt/v1/any"))
        (put (str "wlcg.ver") (string (str "1.0")) claims)
    else claims

-- `builder.set_payload_claim` for each claim, over those that are set already.
unfoldable pub set_payload_claims : Members → Members → Members
set_payload_claims no_members payload = payload
set_payload_claims (member key value rest) payload = set_payload_claims rest (put key value payload)

-- jwt-cpp's builder: header, payload, and the name and `sign` of the algorithm.
pub record Builder : Type 0 where
  pub run_builder : Members → Members → Str → (Str → Result Str) → Result Str

-- The dates that the builder starts with.
abbrev pub dates : ℤ → ℤ → Members
dates now lifetime =
    member (str "iat") (integer now)
      (member (str "nbf") (integer now) (member (str "exp") (integer (now +ℤ lifetime)) no_members))

abbrev pub header_of : Profile → Str → Members
header_of profile kid =
    if profile_eq profile at_jwt
    then member (str "typ") (string (str "at+jwt")) (member (str "kid") (string kid) no_members)
    else member (str "kid") (string kid) no_members

module _ (env : Services) (lib : JwtLibrary) (builder : Builder) (uuid : env.W → Str × env.W) where
  -- A token with what is outside.
  abbrev pub Held : Type 0
  Held = env.W × SciToken

  abbrev pub outside_call : {A : Type 0} → (env.W → A × env.W) → Exec Held A
  outside_call f (w, t) = (ok (f w).0, ((f w).1, t))

  abbrev pub put_claims : Members → Exec Held (Unit {0})
  put_claims claims (w, t) = (ok tt, (w, record t { m_claims = claims }))

  -- `SciToken::serialize` and `SciTokenKey::serialize`
  unfoldable pub serialize : Exec Held Str
  serialize = do
    t ← gets (λ h. h.1)
    if not t.m_issuer_set then fail missing_issuer else (do
      now ← outside_call env.time
      id ← outside_call uuid
      let claims = profile_claims t.m_serialize_profile (put (str "jti") (string id) t.m_claims)
      put_claims claims
      lift (
          builder.run_builder (header_of t.m_serialize_profile t.m_key.m_kid)
            (set_payload_claims claims (dates now t.m_lifetime)) t.m_key.m_name
            (Token.sign lib t.m_key)))
