-- ===== src/Tests/Issuing.antt =====
-- A token that is issued, and read with the key that its issuer publishes.
use scitokens_cpp.Prelude.{
  ◌≡◌, refl, ℕ, ◌++◌, true, false, missing_issuer, [], ◌∷◌, none, some, inl, inr, Str, str, str_eq,
  str_eq_refl, ◌>>=◌, Result, ok, throw, Json, string, Members, no_members, member, find, pos,
  arith, if◌then◌else◌, ◌+ℤ◌, Option, ok-injective, items, of_items, find_string, ◌≤ℤ◌,
}
use scitokens_cpp.Profile.{wlcg_1_0, at_jwt}
use scitokens_cpp.Keys.{
  public_key, find_key_id, find_kid, has_kid, key_algorithm, supported_key, key_pem,
}
use scitokens_cpp.Fetch.{
  Status, new_status, get_public_key_pem, find_keys, get_public_key_pem_continue, finish_key,
}
use scitokens_cpp.Exec
use scitokens_cpp.Token
use scitokens_cpp.Token.{DecodedJwt, JwtLibrary, SciTokenKey, has_payload_claim}
use scitokens_cpp.SciToken.{SciToken, Builder, new_scitoken, header_of, serialize}
use scitokens_cpp.SciToken.Deserialize.{deserialize}
use scitokens_cpp.SciToken.Deserialize.Accepts.{deserialize-accepts}
use scitokens_cpp.SciToken.Issued.{IsIssuable, issued_claims, issued_payload}
use scitokens_cpp.SciToken.Signed.{IsPair, IsJwt, Verifies}
use scitokens_cpp.SciToken.RoundTrip.{deserialize-serialize}
use scitokens_cpp.Validator.Verify.Accepts.{IsComplete}
use scitokens_cpp.Validator.Verify.{verify}
use scitokens_cpp.Tests.Instances.{fresh, key_set, jwt_library, plain_at_token, plain_token}

abbrev issuing_key : SciTokenKey
issuing_key = record {
  m_kid = str "k1";
  m_name = str "RS256";
  m_public = str "AQABxyz";
  m_private = str "private";
}

-- A token of WLCG for "https://h/i".
abbrev own_token : SciToken
own_token = record (new_scitoken issuing_key) {
  m_issuer_set = true;
  m_serialize_profile = wlcg_1_0;
  m_claims =
      member (str "iss") (string (str "https://h/i"))
        (member (str "scope") (string (str "storage.read:/")) no_members);
}

abbrev id_source : ℕ → Str × ℕ
id_source w = (str "1-2-3", w)

abbrev written_payload : Members
written_payload = issued_payload fresh id_source 0 own_token

-- A signature is the text itself, after the token's own text.
abbrev signed_builder : Builder
signed_builder = record {
  run_builder =
      λ header payload name sign. sign (str "h.p") >>= λ signature. ok (str "h.p." ++ signature);
}

abbrev issued_jwt : DecodedJwt
issued_jwt = record {
  token = str "h.p.h.p";
  header = member (str "alg") (string (str "RS256")) (header_of wlcg_1_0 (str "k1"));
  payload = written_payload;
}

abbrev accept : Option Str → Result (Unit {0})
accept none = ok tt
accept (some e) = throw missing_issuer

abbrev copying : JwtLibrary
copying = record {
  decode = λ text. ok issued_jwt;
  rs256_sign = λ public private text. ok text;
  es256_sign = λ public private text. ok text;
  rs256_verify = λ public private text signature.
      ok (if str_eq text signature then none else some (str "differs"));
  es256_verify = λ public private text signature.
      ok (if str_eq text signature then none else some (str "differs"));
  run_verifier = λ algorithm verify now jwt. verify (str "h.p") (str "h.p") >>= accept;
}

copying-Verifies :
    Verifies
      (λ text. ok text)
      (λ text signature. ok (if str_eq text signature then none else some (str "differs")))
copying-Verifies text signature h = rw (← ok-injective h, str_eq_refl text)

copying-IsPair : IsPair copying issuing_key (str "AQABxyz")
copying-IsPair = record { rs256 = copying-Verifies; es256 = copying-Verifies }

issued_serialized : serialize fresh copying signed_builder id_source (0, own_token) ≡ (
  ok (str "h.p.h.p"),
  (1, record own_token { m_claims = issued_claims fresh id_source 0 own_token }),
)
unfolding serialize Token.sign str str_eq
issued_serialized = refl

own_token-IsIssuable : IsIssuable (str "https://h/i") own_token
unfolding str str_eq find
own_token-IsIssuable = record {
  is_map = (refl, (refl, tt));
  iss = refl;
  iat = refl;
  nbf = refl;
  exp = refl;
  ver = refl;
  wlcg = refl;
}

issued-IsJwt :
    IsJwt copying
      (header_of wlcg_1_0 (str "k1"))
      written_payload
      (str "RS256")
      (Token.sign copying issuing_key)
      (str "h.p.h.p")
unfolding str str_eq find Token.sign
issued-IsJwt = record {
  jwt = issued_jwt;
  decoded = refl;
  of_text = refl;
  of_header = λ claim other. rw other;
  of_payload = λ claim. refl;
  accepted = λ verify now verifies current. rw (verifies (str "h.p") (str "h.p") refl);
}

abbrev at_hand : Status fresh
at_hand = record new_status {
  m_keys = key_set;
  m_next_update = pos 200;
  m_continue_fetch = false;
  m_do_store = false;
  m_done = true;
  m_issuer = str "https://h/i";
  m_kid = str "k1";
}

key_at_hand :
    get_public_key_pem fresh (str "https://h/i") (str "k1") 2
    ≡ (ok (at_hand, record { public_pem = str "AQABxyz"; algorithm = str "RS256" }), 3)
unfolding get_public_key_pem find_keys get_public_key_pem_continue finish_key public_key find_key_id
    find_kid has_kid key_algorithm supported_key key_pem str str_eq find items of_items find_string
key_at_hand = refl

not_over : pos 100 ≤ℤ pos 100 +ℤ pos 600
unfolding ◌+ℤ◌
not_over = ground arith

plain_at_token-IsComplete : IsComplete at_jwt (str "https://h/i") (str "k1") plain_at_token
unfolding has_payload_claim str str_eq find
plain_at_token-IsComplete = record {
  typ = refl;
  key_id = refl;
  iat = refl;
  exp = refl;
  iss = refl;
  version = (refl, refl);
}

deserialize-accepts_example :
    deserialize fresh
      (jwt_library plain_at_token)
      0
      (str "a.b.c")
      (str "https://h/i" ∷ [])
      (1, new_scitoken issuing_key)
    ≡ (
      ok (some tt),
      (
        3,
        record (new_scitoken issuing_key) {
          m_decoded = some plain_at_token;
          m_claims = plain_at_token.payload;
          m_profile = at_jwt;
        },
      ),
    )
unfolding str str_eq
deserialize-accepts_example =
    deserialize-accepts fresh (jwt_library plain_at_token) at_jwt (str "https://h/i") (str "k1")
      plain_at_token (str "https://h/i" ∷ []) 0 (new_scitoken issuing_key) 1 3 at_hand
      (record { public_pem = str "AQABxyz"; algorithm = str "RS256" }) refl
      plain_at_token-IsComplete (inl refl) (inr refl) key_at_hand refl refl

deserialize-serialize_example :
    (t₃ : SciToken) × (deserialize fresh copying 0 (str "h.p.h.p") [] (1, new_scitoken issuing_key)
      ≡ (ok (some tt), (3, t₃)))
    × (t₃.m_profile ≡ wlcg_1_0)
    × ((name : Str) (value : Json)
        → str_eq (str "jti") name ≡ false
        → find name own_token.m_claims ≡ some value
        → find name t₃.m_claims ≡ some value)
    × ((name : Str) (value : Json)
        → find name (issued_claims fresh id_source 0 own_token) ≡ some value
        → find name t₃.m_claims ≡ some value)
deserialize-serialize_example =
    deserialize-serialize fresh copying signed_builder id_source 0 1 1 3 own_token
      (record own_token { m_claims = issued_claims fresh id_source 0 own_token })
      (new_scitoken issuing_key) (str "https://h/i") (str "h.p.h.p") (str "AQABxyz") [] 0 at_hand
      issued_serialized own_token-IsIssuable (λ built. issued-IsJwt) copying-IsPair (ground arith)
      not_over (inl refl) (inl refl) key_at_hand refl

-- A token of SciTokens 1.0 with another text.
abbrev later_token : DecodedJwt
later_token = record plain_token { token = str "d.e.f" }

-- jwt-cpp decodes two texts.
abbrev two_tokens : JwtLibrary
two_tokens = record (jwt_library plain_at_token) {
  decode = λ text. ok (if str_eq text (str "d.e.f") then later_token else plain_at_token);
}
