-- ===== src/Openssl.antt =====
-- Public keys between JWKs and PEM: `b64url_decode_nopadding`, `b64url_encode_nopadding`,
-- `es256_from_coords`, `rs256_from_coords` and `Validator::store_public_ec_key` of
-- src/scitokens_internal.cpp, as built with OpenSSL 3. OpenSSL and jwt-cpp's base64 are parameters.
pub mod Base64
pub mod Publish
pub mod Published
use scitokens_cpp.Prelude.{
  ℕ, ◌%◌, ◌==◌, Bool, true, false, not, List, [], ◌∷◌, ◌++◌, Option, none, some, Str, str, Exn,
  Result, ok, throw, unsupported_key, ◌>>=◌, is_empty, length, replicate, until, if◌then◌else◌,
  Json, string, array, object, of_items, Members, no_members, put, ◌+ℤ◌,
}
use scitokens_cpp.Keys.{Coords}

-- `jwt::base::encode<local_base64url>` and `decode`, which throws on a text that is no base64url.
pub record Base64Url : Type 0 where
  pub encode : Str → Str
  pub decode : Str → Result Str

-- `switch (result.size() % 4)`, whose cases fall through; 61 is `=`.
unfoldable pub padding : ℕ → ℕ
padding r = if r == 1 then 3 else if r == 2 then 2 else if r == 3 then 1 else 0

unfoldable pub b64url_decode_nopadding : Base64Url → Str → Result Str
unfolding padding
b64url_decode_nopadding b64 input = b64.decode (input ++ replicate (padding (length input % 4)) 61)

unfoldable pub b64url_encode_nopadding : Base64Url → Str → Str
b64url_encode_nopadding b64 input = until 61 (b64.encode input)

-- OpenSSL. A null pointer, and a call that fails, is `none`.
pub record Openssl : Type 1 where
  pub Bignum : Type 0
  pub Group : Type 0
  pub Point : Type 0
  pub Builder : Type 0
  pub Params : Type 0
  pub Context : Type 0
  pub Key : Type 0
  pub bn_bin2bn : Str → Bignum
  -- the bytes that it writes, `BN_num_bytes` of them
  pub bn_bn2bin : Bignum → Str
  -- `EC_GROUP_new_by_curve_name(EC_NAME)`
  pub ec_group_new : Option Group
  pub ec_point_new : Group → Option Point
  pub ec_point_set_affine_coordinates : Group → Point → Bignum → Bignum → Option Point
  pub ec_point_get_affine_coordinates : Group → Point → Option (Bignum × Bignum)
  -- in uncompressed form
  pub ec_point_point2buf : Group → Point → Str
  pub ec_point_oct2point : Group → Point → Str → Option Point
  pub ossl_param_bld_new : Option Builder
  pub ossl_param_bld_push_utf8_string : Builder → Str → Str → Option Builder
  pub ossl_param_bld_push_octet_string : Builder → Str → Str → Option Builder
  pub ossl_param_bld_push_bn_pad : Builder → Str → Bignum → Option Builder
  pub ossl_param_bld_to_param : Builder → Option Params
  -- `OSSL_PARAM_locate`, and `OSSL_PARAM_get_octet_string` of at most that many bytes
  pub get_octet_string : Params → Str → ℕ → Option Str
  pub evp_pkey_ctx_new_from_name : Str → Option Context
  -- `EVP_PKEY_fromdata_init` and `EVP_PKEY_fromdata` with `EVP_PKEY_PUBLIC_KEY`
  pub evp_pkey_fromdata_init : Context → Option Context
  pub evp_pkey_fromdata : Context → Params → Option Key
  pub evp_pkey_todata : Key → Option Params
  -- what is in the memory BIO afterwards
  pub pem_write_bio_pubkey : Key → Option Str
  -- how many bytes a new memory BIO takes, and the key of a BIO that holds the text
  pub bio_write : Str → ℕ
  pub pem_read_bio_pubkey : Str → Option Key

abbrev pub or_unsupported {ℓ} : {A : Type ℓ} → Option A → Str → Result A
or_unsupported none msg = throw (unsupported_key msg)
or_unsupported (some a) msg = ok a

-- A chain of `||` over calls that fail with null or 0.
abbrev pub and_then {ℓ} : {A B : Type ℓ} → Option A → (A → Option B) → Option B
and_then none next = none
and_then (some a) next = next a

abbrev pub nonempty : Str → Option Str
nonempty [] = none
nonempty (b ∷ bytes) = some (b ∷ bytes)

module _ (ssl : Openssl) where
  open ssl use {Bignum, Params, Key}

  -- `EVP_PKEY_fromdata` behind its `_init`
  abbrev pub key_of : ssl.Context → Params → Option Key
  key_of ctx params =
      and_then (ssl.evp_pkey_fromdata_init ctx) (λ ready. ssl.evp_pkey_fromdata ready params)

  abbrev pub ec_params : Str → Option Params
  ec_params buf = and_then ssl.ossl_param_bld_new (λ build.
      and_then (ssl.ossl_param_bld_push_utf8_string build (str "group") (str "prime256v1"))
        (λ grouped.
          and_then (ssl.ossl_param_bld_push_octet_string grouped (str "pub") buf)
            ssl.ossl_param_bld_to_param))

  -- `es256_from_coords` from the two numbers on.
  unfoldable pub ec_pem : Bignum → Bignum → Result Str
  ec_pem x y = do
    ec_group ← or_unsupported ssl.ec_group_new (str "Unable to get OpenSSL EC group")
    new_point ← or_unsupported (ssl.ec_point_new ec_group) (str "Unable to allocate new EC point")
    point ←
        or_unsupported (ssl.ec_point_set_affine_coordinates ec_group new_point x y)
          (str "Invalid elliptic curve point in key")
    buf ←
        or_unsupported (nonempty (ssl.ec_point_point2buf ec_group point))
          (str "Failed to convert EC point to octet base buffer")
    params ← or_unsupported (ec_params buf) (str "Failed to build EC public key parameters")
    ctx ←
        or_unsupported (ssl.evp_pkey_ctx_new_from_name (str "EC"))
          (str "Failed to set EC PKEY context")
    pkey ← or_unsupported (key_of ctx params) (str "Failed to set the EC public key")
    or_unsupported (ssl.pem_write_bio_pubkey pkey) (str "Failed to serialize EC public key")

  unfoldable pub es256_from_coords : Base64Url → Str → Str → Result Str
  unfolding b64url_decode_nopadding ec_pem
  es256_from_coords b64 x_str y_str = do
    x ← b64url_decode_nopadding b64 x_str
    y ← b64url_decode_nopadding b64 y_str
    ec_pem (ssl.bn_bin2bn x) (ssl.bn_bin2bn y)

  abbrev pub rsa_params : Bignum → Bignum → Option Params
  rsa_params e n = and_then ssl.ossl_param_bld_new (λ build.
      and_then (ssl.ossl_param_bld_push_bn_pad build (str "e") e) (λ with_e.
        and_then (ssl.ossl_param_bld_push_bn_pad with_e (str "n") n) ssl.ossl_param_bld_to_param))

  unfoldable pub rs256_from_coords : Base64Url → Str → Str → Result Str
  unfolding b64url_decode_nopadding
  rs256_from_coords b64 e_str n_str = do
    e ← b64url_decode_nopadding b64 e_str
    n ← b64url_decode_nopadding b64 n_str
    ctx ←
        or_unsupported (ssl.evp_pkey_ctx_new_from_name (str "RSA"))
          (str "Failed to set RSA PKEY context")
    params ←
        or_unsupported (rsa_params (ssl.bn_bin2bn e) (ssl.bn_bin2bn n))
          (str "Failed to build RSA public key parameters")
    pkey ← or_unsupported (key_of ctx params) (str "Failed to set the RSA public key")
    or_unsupported (ssl.pem_write_bio_pubkey pkey) (str "Failed to serialize RSA public key")

  abbrev pub coords : Base64Url → Coords
  unfolding es256_from_coords rs256_from_coords
  coords b64 = record {
    es256_from_coords = es256_from_coords b64;
    rs256_from_coords = rs256_from_coords b64;
  }

  -- The coordinates of the point of a key.
  unfoldable pub coordinates : Key → Result (Bignum × Bignum)
  coordinates pkey = do
    ec_group ← or_unsupported ssl.ec_group_new (str "Unable to get OpenSSL EC group")
    new_point ← or_unsupported (ssl.ec_point_new ec_group) (str "Unable to get OpenSSL EC point")
    params ←
        or_unsupported (ssl.evp_pkey_todata pkey)
          (str "Unable to get OpenSSL public key parameters")
    q_point ←
        or_unsupported
          (and_then (ssl.get_octet_string params (str "pub") 256)
            (ssl.ec_point_oct2point ec_group new_point))
          (str "Failed to to set OpenSSL EC point with public key information")
    or_unsupported (ssl.ec_point_get_affine_coordinates ec_group q_point)
        (str "Unable to get OpenSSL affine coordinates")

  -- The key set that publishes a key of those coordinates. The bytes of a number go to the reserved
  -- memory of a vector.
  unfoldable pub ec_key_set : Base64Url → Str → Bignum × Bignum → Json
  unfolding b64url_encode_nopadding put of_items
  ec_key_set b64 keyid (x, y) =
      let key_obj = put (str "y") (string (b64url_encode_nopadding b64 (ssl.bn_bn2bin y))) (
        put (str "x") (string (b64url_encode_nopadding b64 (ssl.bn_bn2bin x))) (
          put (str "kty") (string (str "EC")) (
            put (str "use") (string (str "sig")) (
              put (str "kid") (string keyid)
                (put (str "alg") (string (str "ES256")) no_members))))) in
      object (put (str "keys") (array (of_items (object key_obj ∷ []))) no_members)
