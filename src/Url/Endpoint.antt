-- ===== src/Url/Endpoint.antt =====
-- Where the metadata of an issuer is looked up.
use scitokens_cpp.Prelude.{
  ◌≡◌, refl, ◌≢◌, false, [], ◌∷◌, ◌++◌, map, some, arith, Str, str, str_eq, str_eq_refl,
  until_of_Free, from_of_Free, has_prefix, Free, ok,
}
use scitokens_cpp.Url.{tolower, parse_url, search_prot, prot_end, get_metadata_endpoint}

search_prot_https :
    (host : Str) → search_prot (str "https://" ++ host) ≡ some (str "https", prot_end ++ host)
unfolding search_prot str has_prefix str_eq
search_prot_https host = refl

-- The issuer "https://host/path?query".
abbrev pub issuer_url : Str → Str → Str → Str
issuer_url host path query = str "https://" ++ (host ++ b'/' ∷ (path ++ b'?' ∷ query))

parse_url_https :
    (host path query : Str)
    → Free b'/' host
    → Free b'?' path
    → parse_url (issuer_url host path query)
      ≡ ok (record { schema = str "https"; netloc = map tolower host; path = b'/' ∷ path })
unfolding parse_url
parse_url_https host path query h k =
    rw
      (
        search_prot_https (host ++ b'/' ∷ (path ++ b'?' ∷ query)),
        until_of_Free b'/' host (path ++ b'?' ∷ query) h,
        from_of_Free b'/' host (path ++ b'?' ∷ query) h,
        until_of_Free b'?' (b'/' ∷ path) query (ground arith, k),
      )
      (unfold str in refl)

longer_path : (path : Str) → path ≢ [] → str_eq (b'/' ∷ path) (str "/") ≡ false
unfolding str str_eq
longer_path [] ne = absurd (ne refl)
longer_path (c ∷ path) ne = refl

-- For an issuer "https://host/path?query" whose path is not empty, the OAuth metadata URL has the
-- host in lower case and, behind the well-known prefix, the path without the query; the OpenID URL
-- has the issuer as it stands, query included.
pub get_metadata_endpoint_https :
    (host path query : Str)
    → Free b'/' host
    → Free b'?' path
    → path ≢ []
    → get_metadata_endpoint (issuer_url host path query)
      ≡ ok (record {
        openid_metadata = issuer_url host path query ++ str "/.well-known/openid-configuration";
        oauth_metadata =
            str "https://"
            ++ map tolower host
            ++ (str "/.well-known/oauth-authorization-server" ++ b'/' ∷ path);
      })
unfolding get_metadata_endpoint
get_metadata_endpoint_https host path query h k ne =
    rw (parse_url_https host path query h k, str_eq_refl (str "https"), longer_path path ne)
