-- ===== src/Lib.antt =====
-- The SciTokens C++ library (the sources in src/ of the repository): creating, verifying and using
-- SciTokens, WLCG and RFC 9068 tokens.
--
-- A token is a `SciToken` with claims; a `Validator` checks a token's text: the claims that need no
-- key, then the issuer's public key, which comes from a key cache or from the issuer's web server,
-- then the signature, the profile and each claim. An `Enforcer` is a validator for one issuer and
-- some audiences that turns the scope of a token into ACLs or tests an authorization against it. The
-- C functions are a layer over these classes.
--
-- Which file models which part (paths from the repository's root):
--   Prelude, Exec: strings as bytes, JSON values, the exceptions of src/scitokens_internal.h as the
--     values of `Result`, and code with state (`Exec`).
--   Split, Path: the tokenizing loop and `normalize_absolute_path` of src/scitokens_internal.cpp.
--   Profile, Token, SciToken: `SciTokenKey` and `SciToken` of src/scitokens_internal.h; the
--     deserialization of src/scitokens_internal.cpp is SciToken/Deserialize. SciToken/Signed says
--     what the model takes jwt-cpp to document of its builder, its decoder and its verifier.
--   Url, Keys, Fetch: the metadata URLs, the choice of a key, and the retrieval of key sets
--     (`AsyncStatus`, `get_public_key_pem`, `get_public_keys_from_web` and their continuations) of
--     src/scitokens_internal.cpp.
--   Validator: the class of src/scitokens_internal.h; Validator/Early is the first half of
--     `verify_async`, Validator/Late the checks behind the signature, Validator/Verify the rest.
--   Scope, Enforcer: `Enforcer::scope_validator` of src/scitokens_internal.cpp and the class
--     `Enforcer` of src/scitokens_internal.h; Enforcer/Life is a relation of its operations in any
--     order.
--   Cache: src/scitokens_cache.cpp.
--   Curl: `SimpleCurlGet` of src/scitokens_internal.cpp: Curl is its buffer, Curl/Transfer the calls
--     of libcurl, Curl/Waiting the getters of a caller that waits, there and in src/scitokens.cpp.
--   Openssl: the keys of `es256_from_coords`, `rs256_from_coords` and, in Openssl/Publish,
--     `store_public_ec_key` of src/scitokens_internal.cpp, as built with OpenSSL 3.
--   Config, Api: `Configuration` of src/scitokens_internal.h and src/scitokens_internal.cpp, and the
--     C functions of src/scitokens.cpp: Api/Tokens, Api/Trust and Api/Serialized those that wait,
--     Api/Async those that do not, Api/Memory those that free lists.
--   Tools: src/list_access.cpp, src/verify.cpp and src/create.cpp; what `getopt_long` returns and
--     the contents of files are parameters.
--   Tests: runs at concrete inputs.
-- A module below one of these holds theorems about it, unless it is named here.
--
-- State is passed explicitly: an operation takes the object and what is outside the process and
-- returns both. What the library calls is a parameter: jwt-cpp (`JwtLibrary`, `Builder`), the HTTP
-- client, the store, the clock and picojson's parser (`Services`), libcurl with `select` (`Curl`),
-- OpenSSL (`Openssl`, and `Coords` for the retrieval), jwt-cpp's base64 (`Base64Url`), SQLite and the
-- file system (`System`, `Directories`). One call of `curl_multi_perform` is a tree of the calls that
-- libcurl makes of the write function (`Performing`). Undefined behaviour of C++ is the result `undefined`.
--
-- Fuel: `split` and `tokens` take the length of the text, since each round takes a byte. The switch
-- of `get_public_keys_from_web_continue` calls itself at most once, and has fuel for two. The loops
-- that wait for the network (`verify_loop`, `verify_until`, `refresh_loop`, `perform_loop`) end only
-- with its help: their fuel is a bound on the rounds, and `none` is a loop that is not over by then.
--
-- Not modelled: what only allocates or deletes an object, and failures of `malloc` and `strdup`;
-- the conversions of keys for OpenSSL before version 3; the file descriptors in the sets of
-- `select`; src/test.cpp and src/test_access.cpp; the vendored libraries. `size_t` wraps in the
-- buffer of a transfer, a `long` of 64 bits overflows in `get_timeout_val`, and the narrowing to an
-- `int` of 32 bits in `SimpleCurlGet::perform` wraps around; the other sums and products that the library
-- forms from times and intervals are unbounded. The time of a validator is in whole seconds. In the
-- loop of `verify_until` the call of `select`, and with it the reading of the clock for its timeout, is
-- left out. The two strings of an ACL that is given to `enforcer_test` are not null pointers.
pub mod Prelude
pub mod Split
pub mod Path
pub mod Profile
pub mod Scope
pub mod Exec
pub mod Keys
pub mod Url
pub mod Fetch
pub mod Token
pub mod Validator
pub mod Enforcer
pub mod SciToken
pub mod Cache
pub mod Config
pub mod Openssl
pub mod Curl
pub mod Api
pub mod Tools
pub mod Tests
