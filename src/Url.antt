-- ===== src/Url.antt =====
-- `parse_url` and `get_metadata_endpoint` of src/scitokens_internal.cpp.
pub mod Endpoint
use scitokens_cpp.Prelude.{
  ℕ, ◌+◌, Bool, ◌&&◌, not, List, [], ◌∷◌, ◌++◌, map, Option, none, some, Str, str, str_eq,
  has_prefix, until, from, drop, leb, Result, ok, throw, invalid_issuer, ◌>>=◌, if◌then◌else◌,
}

-- `tolower` in the "C" locale.
unfoldable pub tolower : ℕ → ℕ
tolower c = if leb b'A' c && leb c b'Z' then c + 32 else c

-- What `parse_url` assigns to its three references.
pub record Url : Type 0 where
  pub schema : Str
  pub netloc : Str
  pub path : Str

abbrev pub prot_end : Str
prot_end = b':' ∷ b'/' ∷ b'/' ∷ []

-- `std::search(url.begin(), url.end(), "://")`: the text before the first occurrence, and the text
-- from it on; `none` is `url.end()`.
unfoldable pub search_prot : Str → Option (Str × Str)
search_prot [] = none
search_prot (c ∷ s) =
    let later = search_prot s in
    if has_prefix (c ∷ s) prot_end
    then some ([], c ∷ s)
    else elim later [ none ↦ none | some (before, rest) ↦ some (c ∷ before, rest) ]

abbrev parse_found : Option (Str × Str) → Result Url
parse_found none = throw (invalid_issuer (str "Issuer URL missing hostname."))
parse_found (some (before, rest)) =
    let host = drop 3 rest in
    ok (record {
      schema = map tolower before;
      netloc = map tolower (until b'/' host);
      path = until b'?' (from b'/' host);
    })

unfoldable pub parse_url : Str → Result Url
unfolding search_prot tolower
parse_url url = parse_found (search_prot url)

-- What `get_metadata_endpoint` assigns to its two references.
pub record Endpoints : Type 0 where
  pub openid_metadata : Str
  pub oauth_metadata : Str

unfoldable pub get_metadata_endpoint : Str → Result Endpoints
get_metadata_endpoint issuer = do
  url ← parse_url issuer
  if not (str_eq url.schema (str "https"))
      then throw (invalid_issuer (str "Issuer URL must be HTTPS"))
      else (let path = if str_eq url.path (str "/") then [] else url.path in
          let new_path = str "/.well-known/oauth-authorization-server" ++ path in
          ok (record {
            oauth_metadata = str "https://" ++ url.netloc ++ new_path;
            openid_metadata = issuer ++ str "/.well-known/openid-configuration";
          }))
