-- ===== src/Openssl/Base64.antt =====
-- Base64url with and without its padding.
use mathlib.Core.List.{append-nil}
use scitokens_cpp.Prelude.{
  ℕ, zero, suc, ◌+◌, ◌%◌, ◌≤◌, ◌≡◌, ap, sym, ◌∙◌, ◌++◌, Str, ok, length, replicate, until, Free,
  until_end, until_of_Free, arith,
}
use scitokens_cpp.Openssl.{Base64Url, padding, b64url_decode_nopadding, b64url_encode_nopadding}

-- What jwt-cpp's base64 does: a text is filled up with `=` to a multiple of four, no other place
-- has one, and decoding undoes encoding.
pub record IsBase64 (b64 : Base64Url) : Type 0 where
  pub body : Str → Str
  pub fill : Str → ℕ
  pub encoded : (s : Str) → b64.encode s ≡ body s ++ replicate (fill s) 61
  pub body-Free : (s : Str) → Free 61 (body s)
  pub fill_small : (s : Str) → fill s ≤ 2
  pub in_fours : (s : Str) → (length (body s) + fill s) % 4 ≡ 0
  pub decode-encode : (s : Str) → b64.decode (b64.encode s) ≡ ok s

until-fill : (n : ℕ) (s : Str) → Free 61 s → until 61 (s ++ replicate n 61) ≡ s
until-fill zero s free = rw (append-nil s) (until_end 61 s free)
until-fill (suc n) s free = until_of_Free 61 s (replicate n 61) free

padding-fill : (n fill : ℕ) → fill ≤ 2 → (n + fill) % 4 ≡ 0 → padding (n % 4) ≡ fill
unfolding padding
padding-fill n fill small fours = ground arith

-- With jwt-cpp's base64, decoding without padding undoes encoding without padding.
pub decode_nopadding-encode_nopadding :
    (b64 : Base64Url) (s : Str)
    → IsBase64 b64
    → b64url_decode_nopadding b64 (b64url_encode_nopadding b64 s) ≡ ok s
unfolding b64url_decode_nopadding b64url_encode_nopadding
decode_nopadding-encode_nopadding b64 s is =
    let cut : b64url_encode_nopadding b64 s ≡ is.body s =
      ap (until 61) (is.encoded s) ∙ until-fill (is.fill s) (is.body s) (is.body-Free s) in
    let fill = padding-fill (length (is.body s)) (is.fill s) (is.fill_small s) (is.in_fours s) in
    ap (b64url_decode_nopadding b64) cut
    ∙ ap (λ k. b64.decode (is.body s ++ replicate k 61)) fill
    ∙ ap b64.decode (sym (is.encoded s))
    ∙ is.decode-encode s
