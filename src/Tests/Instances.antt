-- ===== src/Tests/Instances.antt =====
-- Concrete libraries, tokens and states for the tests.
use scitokens_cpp.Prelude.{
  ℕ, suc, true, false, [], ◌∷◌, ◌++◌, Option, none, some, str, Result, ok, throw, curl, Exn, Json,
  string, integer, object, array, of_items, Members, no_members, member, ℤ, pos,
}
use scitokens_cpp.Profile.{compat}
use scitokens_cpp.Scope.{EnforcerState}
use scitokens_cpp.Keys.{Coords}
use scitokens_cpp.Fetch.{Services, GetStatus}
use scitokens_cpp.Token.{DecodedJwt, JwtLibrary}
use scitokens_cpp.Validator.{Validator}
use scitokens_cpp.Validator.Late.{Running}

abbrev pub a_key : Members
a_key = member (str "alg") (string (str "RS256")) (
    member (str "e") (string (str "AQAB"))
      (member (str "kid") (string (str "k1")) (member (str "n") (string (str "xyz")) no_members)))

abbrev pub key_set : Json
key_set = object (member (str "keys") (array (of_items (object a_key ∷ []))) no_members)

abbrev pub coords : Coords
coords = record { es256_from_coords = λ x y. ok (x ++ y); rs256_from_coords = λ e n. ok (e ++ n) }

abbrev pub reply_200 : GetStatus
reply_200 = record { m_done = true; m_status_code = pos 200 }

abbrev pub key_reply : Json
key_reply = object (
    member (str "jwks_uri") (string (str "https://h/keys"))
      (member (str "keys") (array (of_items (object a_key ∷ []))) no_members))

-- A world that counts readings of the clock, with what the cache and the network answer.
abbrev pub services : Option (Json × ℤ) → Result (GetStatus × Unit {0}) → Services
services cached started = record {
  W = ℕ;
  Get = Unit {0};
  new_get = λ maxbytes timeout. tt;
  perform_start = λ get url w. (started, w);
  perform_continue = λ get w. (ok (reply_200, tt), w);
  get_data = λ get. [];
  parse = λ text. ([], key_reply);
  serialize = λ value. [];
  time = λ w. (pos 100, suc w);
  get_next_update_delta = λ w. pos 600;
  get_expiry_delta = λ w. pos 345600;
  get_public_keys_from_db = λ issuer now w. (ok cached, w);
  store_public_keys = λ issuer keys next_update expires w. (ok true, w);
  coords = coords;
}

-- The cache holds current keys.
abbrev pub fresh : Services
fresh = services (some (key_set, pos 200)) (ok (reply_200, tt))

abbrev pub no_network : Exn
no_network = curl (str "Failed to connect")

-- The cache holds keys that should be updated, and there is no network.
abbrev pub stale : Services
stale = services (some (key_set, pos 50)) (throw no_network)

-- Nothing is cached.
abbrev pub web : Services
web = services none (ok (reply_200, tt))

abbrev pub payload : Members
payload = member (str "aud") (string (str "ANY")) (
    member (str "exp") (integer (pos 200)) (
      member (str "iat") (integer (pos 50)) (
        member (str "iss") (string (str "https://h/i"))
          (member (str "ver") (string (str "scitokens:2.0")) no_members))))

abbrev pub token : DecodedJwt
token = record {
  token = str "a.b.c";
  header = member (str "kid") (string (str "k1")) no_members;
  payload = payload;
}

-- An access token of RFC 9068.
abbrev pub at_token : DecodedJwt
at_token = record token {
  header =
      member (str "kid") (string (str "k1"))
        (member (str "typ") (string (str "at+jwt")) no_members);
}

-- A token without a key ID.
abbrev pub no_kid_token : DecodedJwt
no_kid_token = record token { header = no_members }

-- A token without a version.
abbrev pub plain_token : DecodedJwt
plain_token = record token {
  payload = member (str "exp") (integer (pos 200)) (
      member (str "iat") (integer (pos 50))
        (member (str "iss") (string (str "https://h/i")) no_members));
}

abbrev pub jwt_library : DecodedJwt → JwtLibrary
jwt_library jwt = record {
  decode = λ text. ok jwt;
  rs256_sign = λ key private text. ok [];
  es256_sign = λ key private text. ok [];
  rs256_verify = λ key private text signature. ok none;
  es256_verify = λ key private text signature. ok none;
  run_verifier = λ algorithm verify now jwt. ok tt;
}

abbrev pub running : {W : Type 0} → W → Validator (Unit {0}) → Running W (Unit {0})
running w v = record { outside = w; validator = v; user = tt }

-- An enforcer that tests "read" on "/foo/../bar/x".
abbrev pub enforcer : EnforcerState
enforcer = record {
  m_validate_profile = compat;
  m_test_path = str "/foo/../bar/x";
  m_test_authz = str "read";
  m_gen_acls = [];
  m_issuer = str "https://h/i";
  m_audiences = str "https://s" ∷ [];
}

abbrev pub waiting : GetStatus
waiting = record { m_done = false; m_status_code = pos 0 }

-- Nothing is cached, and no reply comes.
abbrev pub slow : Services
slow = record (services none (ok (waiting, tt))) {
  perform_continue = λ get w. (ok (waiting, tt), w);
}

-- An access token of RFC 9068 without a version.
abbrev pub plain_at_token : DecodedJwt
plain_at_token = record plain_token { header = at_token.header }
