-- ===== src/Openssl/Published.antt =====
-- The key set that `store_public_ec_key` stores gives back the key.
use scitokens_cpp.Prelude.{
  ◌≡◌, true, Bool-cases, inl, inr, some, Option-cases, Str, str, Result, ok, ◌==◌, arith, ◌>>=◌,
  length, is_empty, find, find_string, put, items, of_items, str_eq, str_eq_refl, get_object, ℤ,
}
use scitokens_cpp.Exec.{lift, >>=-eq-ok}
use scitokens_cpp.Keys.{
  PublicKey, public_key, find_key_id, find_kid, has_kid, key_algorithm, supported_key, key_pem,
}
use scitokens_cpp.Fetch.{Services}
use scitokens_cpp.Openssl.{
  Base64Url, Openssl, coords, coordinates, ec_key_set, ec_pem, es256_from_coords,
  b64url_encode_nopadding,
}
use scitokens_cpp.Openssl.Base64.{IsBase64, decode_nopadding-encode_nopadding}
use scitokens_cpp.Openssl.Publish.{store_public_ec_key}

module _ (ssl : Openssl) (b64 : Base64Url) where
  -- OpenSSL reads the number that it wrote.
  abbrev pub ReadsNumbers : Type 0
  ReadsNumbers = (n : ssl.Bignum) → ssl.bn_bin2bn (ssl.bn_bn2bin n) ≡ n

  es256_pem : ssl.Bignum → ssl.Bignum → Result PublicKey
  es256_pem x y = do pem ← ec_pem ssl x y; ok (record { public_pem = pem; algorithm = str "ES256" })

  es256_from_coords-encode :
      (x y : ssl.Bignum)
      → IsBase64 b64
      → ReadsNumbers
      → es256_from_coords ssl b64
          (b64url_encode_nopadding b64 (ssl.bn_bn2bin x))
          (b64url_encode_nopadding b64 (ssl.bn_bn2bin y))
        ≡ ec_pem ssl x y
  unfolding es256_from_coords
  es256_from_coords-encode x y is reads = rw (
    decode_nopadding-encode_nopadding b64 (ssl.bn_bn2bin x) is,
    decode_nopadding-encode_nopadding b64 (ssl.bn_bn2bin y) is,
    reads x,
    reads y,
  )

  -- Where base64 and numbers are read as they are written, the key that the key set of two
  -- coordinates publishes under an ID, which may be empty, is the PEM of the point of those
  -- coordinates, with ES256; what fails is that PEM.
  pub public_key-ec_key_set :
      (keyid : Str) (x y : ssl.Bignum)
      → IsBase64 b64
      → ReadsNumbers
      → public_key (coords ssl b64) (ec_key_set ssl b64 keyid (x, y)) keyid
        ≡ (ec_pem ssl x y >>= λ pem. ok (record { public_pem = pem; algorithm = str "ES256" }))
  unfolding public_key ec_key_set find_key_id find_kid has_kid key_algorithm supported_key key_pem
      find_string find put items of_items str_eq str get_object coords ec_pem
  public_key-ec_key_set keyid x y is reads =
      let pem = es256_from_coords-encode x y is reads in
      elim (Bool-cases (is_empty keyid)) [
        | inl none_given ↦ rw (none_given, pem)
        | inr given ↦ rw (given, str_eq_refl keyid, pem)
      ]

  -- A stored key: the text is a PEM key with coordinates, and the key set that was stored for the
  -- issuer publishes the PEM of its point under the ID, with ES256.
  pub record IsPublished (env : Services) (issuer keyid text : Str) (w' : env.W) : Type 1 where
    pub pkey : ssl.Key
    pub numbers : ssl.Bignum × ssl.Bignum
    pub next_update : ℤ
    pub expires : ℤ
    pub before : env.W
    pub read : ssl.pem_read_bio_pubkey text ≡ some pkey
    pub on_curve : coordinates ssl pkey ≡ ok numbers
    pub stored :
        env.store_public_keys issuer (ec_key_set ssl b64 keyid numbers) next_update expires before
        ≡ (ok true, w')
    pub published : public_key (coords ssl b64) (ec_key_set ssl b64 keyid numbers) keyid ≡ (
        ec_pem ssl numbers.0 numbers.1 >>= λ pem.
        ok (record { public_pem = pem; algorithm = str "ES256" }))

  -- Where base64 and numbers are read as they are written, `store_public_ec_key` answers true only
  -- if the text is a PEM key and the key set that it stored for the issuer gives, under the ID, the
  -- PEM of the key's point with ES256.
  pub store_public_ec_key-IsPublished :
      (env : Services) (issuer keyid text : Str) (w w' : env.W)
      → IsBase64 b64
      → ReadsNumbers
      → store_public_ec_key ssl b64 env issuer keyid text w ≡ (ok true, w')
      → IsPublished env issuer keyid text w'
  unfolding store_public_ec_key
  store_public_ec_key-IsPublished env issuer keyid text w w' is reads h =
      elim (Bool-cases (ssl.bio_write text == length text)) [
        | inl whole ↦ elim (Option-cases (ssl.pem_read_bio_pubkey text)) [
          | inl none_read ↦ absurd (ground (arith, h, whole, none_read))
          | inr (pkey, read) ↦
              let h₁ = rw (whole, read) at h in
              let (numbers, on_curve, h₂) = >>=-eq-ok (lift (coordinates ssl pkey)) _ w h₁ in
              record {
                pkey = pkey;
                numbers = numbers;
                next_update = _;
                expires = _;
                before = _;
                read = read;
                on_curve = on_curve;
                stored = h₂;
                published = public_key-ec_key_set keyid numbers.0 numbers.1 is reads;
              }
        ]
        | inr cut ↦ absurd (ground (arith, h, cut))
      ]
