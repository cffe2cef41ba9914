-- ===== src/Tests/Publishing.antt =====
-- A key that is published, over concrete libraries, and arrays that are freed.
use scitokens_cpp.Prelude.{
  ℕ, suc, ◌-◌, ◌*◌, ◌≡◌, refl, sym, undefined, true, [], ◌∷◌, ◌++◌, some, Str, str, Result, ok,
  throw, runtime, length, Free, ltb, if◌then◌else◌, ◌>>=◌, arith,
}
use mathlib.Core.List.{append-nil}
use scitokens_cpp.Openssl.{Base64Url, Openssl, coordinates, ec_key_set}
use scitokens_cpp.Openssl.Base64.{IsBase64}
use scitokens_cpp.Openssl.Publish.{store_public_ec_key}
use scitokens_cpp.Openssl.Published.{IsPublished, store_public_ec_key-IsPublished}
use scitokens_cpp.Api.Memory.{
  string_array, acl_array, scitoken_free_string_list, enforcer_acl_free, free-arrays,
}
use scitokens_cpp.Tests.Instances.{fresh}

-- Four characters for a byte, none of them `=`.
abbrev shift : ℕ → ℕ
shift b = if ltb b 61 then b else suc b

abbrev unshift : ℕ → ℕ
unshift b = if ltb b 61 then b else b - 1

abbrev spread : Str → Str
spread [] = []
spread (b ∷ s) = shift b ∷ 65 ∷ 65 ∷ 65 ∷ spread s

abbrev gather : Str → Result Str
gather [] = ok []
gather (a ∷ b ∷ c ∷ d ∷ s) = gather s >>= λ rest. ok (unshift a ∷ rest)
gather _ = throw (runtime [])

abbrev b64 : Base64Url
b64 = record { encode = spread; decode = gather }

spread-Free : (s : Str) → Free 61 (spread s)
spread-Free [] = tt
spread-Free (b ∷ s) = (ground arith, (ground arith, (ground arith, (ground arith, spread-Free s))))

length-spread : (s : Str) → length (spread s) ≡ 4 * length s
length-spread [] = refl
length-spread (b ∷ s) = omega (arith, length-spread s)

unshift-shift : (b : ℕ) → unshift (shift b) ≡ b
unshift-shift b = ground arith

gather-spread : (s : Str) → gather (spread s) ≡ ok s
gather-spread [] = refl
gather-spread (b ∷ s) = rw (gather-spread s, unshift-shift b) refl

b64-IsBase64 : IsBase64 b64
b64-IsBase64 = record {
  body = spread;
  fill = λ s. 0;
  encoded = λ s. sym (append-nil (spread s));
  body-Free = spread-Free;
  fill_small = λ s. omega arith;
  in_fours = λ s. omega (arith, length-spread s);
  decode-encode = gather-spread;
}

-- Keys whose text is their point, with 7 for the second coordinate.
abbrev ssl : Openssl
ssl = record {
  Bignum = Str;
  Group = Unit {0};
  Point = Str × Str;
  Builder = Str;
  Params = Str;
  Context = Unit {0};
  Key = Str;
  bn_bin2bn = λ bytes. bytes;
  bn_bn2bin = λ n. n;
  ec_group_new = some tt;
  ec_point_new = λ g. some ([], []);
  ec_point_set_affine_coordinates = λ g p x y. some (x, y);
  ec_point_get_affine_coordinates = λ g p. some p;
  ec_point_point2buf = λ g p. p.0 ++ p.1;
  ec_point_oct2point = λ g p bytes. some (bytes, 7 ∷ []);
  ossl_param_bld_new = some [];
  ossl_param_bld_push_utf8_string = λ b key value. some b;
  ossl_param_bld_push_octet_string = λ b key value. some value;
  ossl_param_bld_push_bn_pad = λ b key value. some (b ++ value);
  ossl_param_bld_to_param = λ b. some b;
  get_octet_string = λ params key most. some params;
  evp_pkey_ctx_new_from_name = λ name. some tt;
  evp_pkey_fromdata_init = λ ctx. some ctx;
  evp_pkey_fromdata = λ ctx params. some params;
  evp_pkey_todata = λ key. some key;
  pem_write_bio_pubkey = λ key. some key;
  bio_write = λ text. length text;
  pem_read_bio_pubkey = λ text. some text;
}

a_store : store_public_ec_key ssl b64 fresh (str "https://h/i") (str "k9") (5 ∷ []) 0 ≡ (ok true, 1)
unfolding store_public_ec_key coordinates ec_key_set
a_store = refl

store_public_ec_key-IsPublished_example :
    IsPublished ssl b64 fresh (str "https://h/i") (str "k9") (5 ∷ []) 1
store_public_ec_key-IsPublished_example =
    store_public_ec_key-IsPublished ssl b64 fresh (str "https://h/i") (str "k9") (5 ∷ []) 0 1
      b64-IsBase64 (λ n. refl) a_store

free-arrays_example :
    (scitoken_free_string_list (string_array (str "a" ∷ str "b" ∷ []))
      ≡ ok (str "a" ∷ str "b" ∷ []))
    × (scitoken_free_string_list (string_array []) ≡ undefined)
    × (enforcer_acl_free (acl_array ((str "read", str "/") ∷ [])) ≡ ok [])
    × (enforcer_acl_free (acl_array []) ≡ undefined)
free-arrays_example = free-arrays (str "b" ∷ []) (str "a") [] (str "read", str "/")
