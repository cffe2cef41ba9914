-- ===== src/Keys.antt =====
-- The choice of a key from an issuer's key set: `find_key_id` and the second half of
-- `Validator::get_public_key_pem_continue` of src/scitokens_internal.cpp.
pub mod Chosen
use scitokens_cpp.Prelude.{
  ◌==◌, Bool, true, false, not, ◌&&◌, List, [], ◌∷◌, Option, none, some, Str, str, str_eq, Result,
  ok, throw, undefined, json, unsupported_key, ◌>>=◌, is_empty, length, if◌then◌else◌, Json, object,
  array, Members, items, find, find_string, get_object,
}

-- `iter == end() || !iter->second.is<T>()` guards a throw, and otherwise the value is read.
abbrev pub or_throw {ℓ} : {A : Type ℓ} → Option A → Str → Result A
or_throw none msg = throw (json msg)
or_throw (some a) msg = ok a

abbrev pub as_keys : Option Json → Result (List Json)
as_keys (some (array keys)) = ok (items keys)
as_keys _ = throw (json (str "Metadata resource is missing 'keys' array value"))

-- The test of one key of the array; a key that is no object, or has no string "kid", is passed over.
abbrev pub kid_is : Str → Members → Option Str → Option Members
kid_is kid key none = none
kid_is kid key (some cur_kid) = if str_eq cur_kid kid then some key else none

unfoldable pub has_kid : Str → Json → Option Members
has_kid kid (object key) = kid_is kid key (find_string (str "kid") key)
has_kid kid _ = none

-- `return key_obj`, or the rest of the loop
abbrev pub found_or : Option Members → Result Members → Result Members
found_or (some key) rest = ok key
found_or none rest = rest

unfoldable pub find_kid : Str → List Json → Result Members
find_kid kid [] = throw (json (str "Key ID is not published by the issuer."))
find_kid kid (key ∷ keys) = found_or (has_kid kid key) (find_kid kid keys)

abbrev pub only_key : List Json → Result Members
only_key (key ∷ []) = get_object key
only_key _ = throw (json (str "Key ID empty but multiple keys published."))

abbrev pub keys_of : Json → Result (List Json)
keys_of (object top_obj) = as_keys (find (str "keys") top_obj)
keys_of _ = throw (json (str "Top-level JSON is not an object."))

unfoldable pub find_key_id : Json → Str → Result Members
find_key_id value kid = do
  keys ← keys_of value
  if is_empty kid then only_key keys else find_kid kid keys

-- The algorithm of a key without "alg".
unfoldable pub algorithm_of_type : Members → Result Str
algorithm_of_type key = do
  kty ← or_throw (find_string (str "kty") key) (str "Key is missing key type")
  if str_eq kty (str "RSA")
      then ok (str "RS256")
      else if str_eq kty (str "EC")
      then (do
        crv ← or_throw (find_string (str "crv") key) (str "EC key is missing curve name")
        if str_eq crv (str "P-256")
            then ok (str "ES256")
            else throw (json (str "Unsupported EC curve in public key")))
      else throw (json (str "Unknown public key type"))

abbrev pub algorithm_or : Option Str → Result Str → Result Str
algorithm_or (some alg) otherwise = ok alg
algorithm_or none otherwise = otherwise

unfoldable pub key_algorithm : Members → Result Str
unfolding algorithm_of_type
key_algorithm key = algorithm_or (find_string (str "alg") key) (algorithm_of_type key)

-- A public key as the library hands it on.
pub record PublicKey : Type 0 where
  pub public_pem : Str
  pub algorithm : Str

-- `es256_from_coords` and `rs256_from_coords`.
pub record Coords : Type 0 where
  pub es256_from_coords : Str → Str → Result Str
  pub rs256_from_coords : Str → Str → Result Str

module _ (coords : Coords) where
  unfoldable pub key_pem : Str → Members → Result Str
  key_pem alg key =
      if str_eq alg (str "ES256")
      then (do
        x ← or_throw (find_string (str "x") key) (str "Elliptic curve is missing x-coordinate")
        y ← or_throw (find_string (str "y") key) (str "Elliptic curve is missing y-coordinate")
        coords.es256_from_coords x y)
      else do
        e ← or_throw (find_string (str "e") key) (str "Public key is missing exponent")
        n ← or_throw (find_string (str "n") key) (str "Public key is missing n-value")
        coords.rs256_from_coords e n

  -- The check of the algorithm and the assignments of `public_pem` and `algorithm`.
  unfoldable pub supported_key : Str → Members → Result PublicKey
  supported_key alg key =
      if not (str_eq alg (str "RS256")) && not (str_eq alg (str "ES256"))
      then throw (unsupported_key (str "Issuer is using an unsupported algorithm"))
      else do pem ← key_pem alg key; ok (record { public_pem = pem; algorithm = alg })

  -- What `get_public_key_pem_continue` does once the key set is there.
  unfoldable pub public_key : Json → Str → Result PublicKey
  unfolding supported_key
  public_key keys kid = do
    key ← find_key_id keys kid
    alg ← key_algorithm key
    supported_key alg key
