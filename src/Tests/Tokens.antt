-- ===== src/Tests/Tokens.antt =====
-- Claims, deserialization, the cache's entries and the configuration.
use scitokens_cpp.Prelude.{
  ◌≡◌, refl, ℕ, ◌⊎◌, List, true, false, [], ◌∷◌, none, some, Str, str, str_eq, Free, All, ok, Json,
  object, find, no_members, pos, ltb_ℤ, if◌then◌else◌, arith, as_string, until, from, skip,
  has_prefix, suc, ◌++◌, ◌==◌, length,
}
use scitokens_cpp.Profile.{at_jwt, compat}
use scitokens_cpp.Fetch.{
  new_status, Status, get_public_key_pem, find_keys, get_public_key_pem_continue,
  get_public_keys_from_web, get_public_keys_from_web_continue, fetch_switch, fetch_metadata,
  metadata_reply,
}
use scitokens_cpp.Url.{get_metadata_endpoint, parse_url, search_prot}
use scitokens_cpp.Validator.Early.{
  check_typ, typed_profile, check_required, mandatory, check_critical, check_issuer, is_at_jwt,
  get_key_id,
}
use scitokens_cpp.Validator.Verify.{verify_async, check_token, verify_async_continue}
use scitokens_cpp.Validator.Late.{Running}
use scitokens_cpp.Token.{
  default_key, JwtLibrary, has_payload_claim, get_payload_claim, payload_string, header_string,
}
use scitokens_cpp.SciToken.{SciToken, new_scitoken}
use scitokens_cpp.SciToken.Deserialize.{
  SciTokenAsyncStatus, deserialize_continue, deserialize_start, take_claims, deserialize_validator,
}
use scitokens_cpp.SciToken.Deserialize.Outcome.{deserialize_start_unverified, starting, taken}
use scitokens_cpp.Scope.{get_profile}
use scitokens_cpp.Cache.{System, read_entry, entry_of}
use scitokens_cpp.Cache.Entry.{read_entry-entry_of}
use scitokens_cpp.Split.{join, IsToken}
use scitokens_cpp.Config.{
  Configuration, Directories, initial, path_components, path_split, set_cache_home,
  scitoken_config_set_int, scitoken_config_get_int,
}
use scitokens_cpp.Config.Home.{
  path_split-join, levels, Made, Refused, refusal, set_cache_home-outcome,
}
use scitokens_cpp.Config.Ints.{scitoken_config_get_int-scitoken_config_set_int}
use scitokens_cpp.Tests.Instances.{slow, plain_at_token, jwt_library, running}

abbrev empty_token : SciToken
empty_token = new_scitoken default_key

c_string : Free 0 (str "me")
unfolding str
c_string = ground arith

-- A directory tree in which "/a" is there, and the directories below it cannot be made.
abbrev directories : Directories
directories = record {
  W = ℕ;
  mkdir = λ path w. (some (if length path == 2 then 17 else 13), suc w);
  strerror = λ errno. str "Permission denied";
}

a_split : path_split (str "/a//b/") ≡ ok (str "a" ∷ str "b" ∷ [])
unfolding path_split path_components str
a_split = refl

path_split-join_example :
    All (IsToken b'/') (str "a" ∷ str "b" ∷ [])
    × (path_split (join b'/' (str "a" ∷ str "b" ∷ [])) ≡ ok (str "a" ∷ str "b" ∷ []))
path_split-join_example = path_split-join (str "/a//b/") (str "a" ∷ str "b" ∷ []) a_split

set_cache_home-outcome_example :
    ((v : ℕ) × Made directories (levels [] (str "a" ∷ str "b" ∷ [])) 0 v
      × (set_cache_home directories (str "/a//b/") (initial, 0) ≡ (
        ok (true, []),
        (record initial { m_cache_home = join 47 (str "a" ∷ str "b" ∷ []) }, v),
      )))
    ⊎ ((v : ℕ) × (errno : ℕ) × Refused directories errno (levels [] (str "a" ∷ str "b" ∷ [])) 0 v
        × (set_cache_home directories (str "/a//b/") (initial, 0) ≡ (
          ok (
            false,
            str "An issue was encountered with the provided cache home path: "
                ++ refusal directories errno,
          ),
          (initial, v),
        )))
set_cache_home-outcome_example =
    set_cache_home-outcome directories (str "/a//b/") (str "a" ∷ str "b" ∷ []) initial 0 a_split

abbrev changed : Configuration
changed = record initial { m_next_update_delta = pos 60 }

set_interval :
    scitoken_config_set_int (some (str "keycache.update_interval_s")) (pos 60) initial
    ≡ (ok tt, changed)
unfolding scitoken_config_set_int str_eq str
set_interval = refl

scitoken_config_get_int-scitoken_config_set_int_example :
    (ltb_ℤ (pos 60) (pos 0) ≡ false)
    × (scitoken_config_get_int (some (str "keycache.update_interval_s")) changed
        ≡ (ok (pos 60), changed))
    × ((other : Str)
        → str_eq other (str "keycache.update_interval_s") ≡ false
        → (scitoken_config_get_int (some other) changed).0
          ≡ (scitoken_config_get_int (some other) initial).0)
scitoken_config_get_int-scitoken_config_set_int_example =
    scitoken_config_get_int-scitoken_config_set_int (str "keycache.update_interval_s") (pos 60)
      initial changed set_interval

abbrev issuers : List Str
issuers = str "https://h/i" ∷ []

-- A verification that waits for the issuer's metadata.
abbrev waiting_status : Status slow
waiting_status = record new_status {
  m_cget = some tt;
  m_continue_fetch = true;
  m_oauth_metadata_url = str "https://h/.well-known/oauth-authorization-server/i";
  m_issuer = str "https://h/i";
  m_kid = str "k1";
  m_jwt_string = str "a.b.c";
}

abbrev lib : JwtLibrary
lib = jwt_library plain_at_token

abbrev left : Running ℕ (Unit {0})
left = running 2 (record (deserialize_validator (pos 100) issuers compat) { m_profile = at_jwt })

unverified :
    verify_async slow lib (Unit {0}) plain_at_token (starting slow lib 0 issuers empty_token)
    ≡ (ok waiting_status, left)
unfolding verify_async check_token check_typ typed_profile check_required mandatory check_critical
    check_issuer get_key_id has_payload_claim get_payload_claim payload_string header_string
    as_string find str_eq str is_at_jwt get_public_key_pem find_keys get_public_key_pem_continue
    get_public_keys_from_web get_metadata_endpoint parse_url search_prot until from skip has_prefix
    get_public_keys_from_web_continue fetch_switch fetch_metadata metadata_reply
    verify_async_continue deserialize_validator
unverified = refl

deserialize_start_unverified_example :
    deserialize_start slow lib (str "a.b.c") issuers (0, empty_token) ≡ (
      ok (record { m_validator = left.validator; m_status = some waiting_status }),
      (2, taken slow lib plain_at_token empty_token),
    )
deserialize_start_unverified_example =
    deserialize_start_unverified slow lib (str "a.b.c") issuers empty_token 0 plain_at_token
      waiting_status left refl unverified refl

abbrev started : SciTokenAsyncStatus slow
started = record { m_validator = left.validator; m_status = some waiting_status }

abbrev decoded : SciToken
decoded = record empty_token { m_decoded = some plain_at_token }

continued :
    deserialize_continue slow lib started (2, decoded)
    ≡ (ok started, (2, taken slow lib plain_at_token decoded))
unfolding deserialize_continue take_claims get_profile
continued = refl

abbrev entry : Json
entry = entry_of (object no_members) (pos 700) (pos 900)

-- A system in which nothing but the entry is stored.
abbrev system : System
system = record {
  W = Unit {0};
  Db = Unit {0};
  Stmt = Unit {0};
  sqlite3_open = λ file w. ((0, tt), w);
  sqlite3_exec = λ db sql w. (0, w);
  sqlite3_prepare = λ db sql w. ((0, tt), w);
  sqlite3_bind_text = λ stmt n text w. (0, w);
  sqlite3_step = λ stmt w. (100, w);
  sqlite3_column_text = λ stmt n w. ([], w);
  sqlite3_finalize = λ stmt w. (tt, w);
  sqlite3_close = λ db w. (tt, w);
  getenv = λ name w. (none, w);
  home_directory = λ w. (some (str "/home/u"), w);
  mkdir = λ path w. (none, w);
  get_cache_home = λ w. [];
  parse = λ text. ([], entry);
  serialize = λ value. [];
}

read_entry-entry_of_example :
    read_entry (system.parse (system.serialize entry)) (pos 800)
    ≡ (if ltb_ℤ (pos 900) (pos 800) then none else some (object no_members, pos 700))
read_entry-entry_of_example =
    read_entry-entry_of system no_members (pos 700) (pos 900) (pos 800) refl
