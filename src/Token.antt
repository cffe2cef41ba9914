-- ===== src/Token.antt =====
-- Decoded tokens as jwt-cpp hands them on, and `SciTokenKey` of src/scitokens_internal.h.
use scitokens_cpp.Prelude.{
  ◌≡◌, refl, sym, true-ne-false, Bool, true, false, List, [], ◌∷◌, Option, none, some, Str, str,
  str_eq, Result, ok, throw, unsupported_key, claim_not_present, ◌>>=◌, if◌then◌else◌, Json,
  Members, no_members, member, find, as_string, ℤ,
}

-- `jwt::decoded_jwt`: the token's text, and the claims of its header and of its payload.
pub record DecodedJwt : Type 0 where
  pub token : Str
  pub header : Members
  pub payload : Members

abbrev pub is_some {ℓ} : {A : Type ℓ} → Option A → Bool
is_some none = false
is_some (some a) = true

pub is_some-eq {ℓ} : {A : Type ℓ} (x : Option A) → is_some x ≡ true → (a : A) × (x ≡ some a)
is_some-eq none h = absurd (true-ne-false (sym h))
is_some-eq (some a) h = (a, refl)

-- `has_payload_claim`, `get_payload_claim`, `has_type`, `get_type`, `get_issuer`, `get_key_id`
unfoldable pub has_payload_claim : DecodedJwt → Str → Bool
has_payload_claim jwt name = is_some (find name jwt.payload)

abbrev pub claim_or_throw : Option Json → Result Json
claim_or_throw none = throw claim_not_present
claim_or_throw (some claim) = ok claim

unfoldable pub get_payload_claim : DecodedJwt → Str → Result Json
get_payload_claim jwt name = claim_or_throw (find name jwt.payload)

unfoldable pub header_string : DecodedJwt → Str → Result Str
header_string jwt name = do claim ← claim_or_throw (find name jwt.header); as_string claim

unfoldable pub payload_string : DecodedJwt → Str → Result Str
unfolding get_payload_claim
payload_string jwt name = do claim ← get_payload_claim jwt name; as_string claim

-- `get_payload_claims()`, in the order of the container
unfoldable pub members : Members → List (Str × Json)
members no_members = []
members (member key value rest) = (key, value) ∷ members rest

-- What the library takes from jwt-cpp: the decoder, the two signature algorithms with their public
-- and private key (an error code is a text), and the verifier, which is given the name and the
-- `verify` of the one algorithm that it allows, and the time that its clock shows.
pub record JwtLibrary : Type 0 where
  pub decode : Str → Result DecodedJwt
  pub rs256_sign : Str → Str → Str → Result Str
  pub es256_sign : Str → Str → Str → Result Str
  pub rs256_verify : Str → Str → Str → Str → Result (Option Str)
  pub es256_verify : Str → Str → Str → Str → Result (Option Str)
  pub run_verifier : Str → (Str → Str → Result (Option Str)) → ℤ → DecodedJwt → Result (Unit {0})

pub record SciTokenKey : Type 0 where
  pub m_kid : Str
  pub m_name : Str
  pub m_public : Str
  pub m_private : Str

-- `SciTokenKey()`
abbrev pub default_key : SciTokenKey
default_key = record { m_kid = str "none"; m_name = str "none"; m_public = []; m_private = [] }

module _ (lib : JwtLibrary) where
  -- `SciTokenKey::sign`
  unfoldable pub sign : SciTokenKey → Str → Result Str
  sign key text =
      if str_eq key.m_name (str "RS256")
      then lib.rs256_sign key.m_public key.m_private text
      else if str_eq key.m_name (str "ES256")
      then lib.es256_sign key.m_public key.m_private text
      else throw (unsupported_key (str "Provided algorithm name is not supported"))

  -- `SciTokenKey::verify`
  unfoldable pub verify : SciTokenKey → Str → Str → Result (Option Str)
  verify key text signature =
      if str_eq key.m_name (str "RS256")
      then lib.rs256_verify key.m_public key.m_private text signature
      else if str_eq key.m_name (str "ES256")
      then lib.es256_verify key.m_public key.m_private text signature
      else throw (unsupported_key (str "Provided algorithm is not supported."))
