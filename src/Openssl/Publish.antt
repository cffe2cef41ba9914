-- ===== src/Openssl/Publish.antt =====
-- `Validator::store_public_ec_key` of src/scitokens_internal.cpp: a PEM key as an issuer's key set.
use scitokens_cpp.Prelude.{◌==◌, Bool, false, not, none, some, Str, length, if◌then◌else◌, ◌+ℤ◌}
use scitokens_cpp.Exec.{Exec, pure, lift, gets, call, ◌>>=◌}
use scitokens_cpp.Fetch.{Services}
use scitokens_cpp.Openssl.{Base64Url, Openssl, coordinates, ec_key_set}

module _ (ssl : Openssl) (b64 : Base64Url) (env : Services) where
  unfoldable pub store_public_ec_key : Str → Str → Str → Exec env.W Bool
  unfolding coordinates ec_key_set
  store_public_ec_key issuer keyid public_key =
      if not (ssl.bio_write public_key == length public_key)
      then pure false
      else elim (ssl.pem_read_bio_pubkey public_key) [
        | none ↦ pure false
        | some pkey ↦ (do
          numbers ← lift (coordinates ssl pkey)
          now ← call env.time
          next_update_delta ← gets env.get_next_update_delta
          expiry_delta ← gets env.get_expiry_delta
          env.store_public_keys issuer (ec_key_set ssl b64 keyid numbers) (now +ℤ next_update_delta)
              (now +ℤ expiry_delta))
      ]
