-- ===== src/Tests/Fetching.antt =====
-- Key sets: the choice of a key, the cache and the web.
use scitokens_cpp.Prelude.{
  ◌≡◌, ◌≢◌, ◌⊎◌, refl, [], ◌∷◌, ◌++◌, some, none, true, false, str, str_eq, ok, throw,
  is_runtime_error, Members, find, find_string, pos, Free, arith, has_prefix, map, ◌+ℤ◌, until,
  from, skip, items, of_items,
}
use scitokens_cpp.Keys.{
  find_key_id, find_kid, has_kid, public_key, supported_key, key_pem, key_algorithm,
  algorithm_of_type, PublicKey,
}
use scitokens_cpp.Keys.Chosen.{IsChosen, public_key-IsChosen}
use scitokens_cpp.Url.{get_metadata_endpoint, tolower, parse_url, search_prot}
use scitokens_cpp.Url.Endpoint.{get_metadata_endpoint_https, issuer_url}
use scitokens_cpp.Fetch.{
  AsyncStatus, new_status, get_public_key_pem, get_public_keys_from_web, default_timeout,
  get_public_keys_from_web_continue, fetch_switch, fetch_metadata, metadata_reply, fetch_jwks_uri,
  fetch_keys, fall_back, done,
}
use scitokens_cpp.Fetch.Cached.{get_public_key_pem_fresh, get_public_key_pem_stale, answer, hit}
use scitokens_cpp.Fetch.Downloaded.{IsPending, IsComplete}
use scitokens_cpp.Fetch.Progress.{get_public_keys_from_web_continue-ends, fetch_switch_fuel}
use scitokens_cpp.Tests.Instances.{key_set, coords, fresh, stale, web, no_network, key_reply}

abbrev a_public_key : PublicKey
a_public_key = record { public_pem = str "AQABxyz"; algorithm = str "RS256" }

a_public : public_key coords key_set (str "k1") ≡ ok a_public_key
unfolding public_key supported_key key_pem key_algorithm algorithm_of_type find_key_id find_kid
    has_kid find find_string str_eq str items of_items
a_public = refl

public_key-IsChosen_example :
    (key : Members) × IsChosen key_set (str "k1") key
    × (key_algorithm key ≡ ok (str "RS256"))
    × (key_pem coords (str "RS256") key ≡ ok (str "AQABxyz"))
    × ((str "RS256" ≡ str "RS256") ⊎ (str "RS256" ≡ str "ES256"))
public_key-IsChosen_example =
    public_key-IsChosen coords key_set (str "k1") {p = a_public_key} a_public

no_slash : Free b'/' (str "H.org")
unfolding str
no_slash = ground arith

no_question : Free b'?' (str "i")
unfolding str
no_question = ground arith

some_path : str "i" ≢ []
unfolding str
some_path h = cc

get_metadata_endpoint_https_example :
    get_metadata_endpoint (issuer_url (str "H.org") (str "i") (str "q=1"))
    ≡ ok (record {
      openid_metadata =
          issuer_url (str "H.org") (str "i") (str "q=1") ++ str "/.well-known/openid-configuration";
      oauth_metadata =
          str "https://"
          ++ map tolower (str "H.org")
          ++ (str "/.well-known/oauth-authorization-server" ++ b'/' ∷ str "i");
    })
get_metadata_endpoint_https_example =
    get_metadata_endpoint_https (str "H.org") (str "i") (str "q=1") no_slash no_question some_path

get_public_key_pem_fresh_example :
    get_public_key_pem fresh (str "https://h/i") (str "k1") 0
    ≡ answer fresh
        (str "https://h/i")
        0
        (hit fresh (str "https://h/i") 0 (str "k1") key_set (pos 200) false true)
        1
get_public_key_pem_fresh_example =
    get_public_key_pem_fresh fresh (str "https://h/i") 0 (str "k1") key_set (pos 200) 1 refl refl

not_started :
    get_public_keys_from_web stale (str "https://h/i") default_timeout 1 ≡ (throw no_network, 1)
unfolding get_public_keys_from_web get_metadata_endpoint parse_url search_prot until from skip
    str_eq str has_prefix
not_started = refl

a_runtime_error : is_runtime_error no_network ≡ true
unfolding is_runtime_error
a_runtime_error = refl

get_public_key_pem_stale_example :
    get_public_key_pem stale (str "https://h/i") (str "k1") 0
    ≡ answer stale
        (str "https://h/i")
        0
        (hit stale (str "https://h/i") 0 (str "k1") key_set (pos 50) true false)
        1
get_public_key_pem_stale_example =
    get_public_key_pem_stale stale (str "https://h/i") 0 (str "k1") key_set (pos 50) 1 refl
      {e = no_network} {w₃ = 1} refl not_started a_runtime_error

-- A download that waits for its first reply.
abbrev pending : AsyncStatus (Unit {0})
pending = record new_status { m_cget = some tt; m_continue_fetch = true }

-- The same download after a round.
abbrev complete : AsyncStatus (Unit {0})
complete = record pending {
  m_cget = none;
  m_has_metadata = true;
  m_next_update = pos 700;
  m_expires = pos 345700;
  m_keys = key_reply;
  m_continue_fetch = false;
  m_done = true;
  m_state = done;
}

a_round : get_public_keys_from_web_continue web pending 0 ≡ (ok complete, 1)
unfolding get_public_keys_from_web_continue fetch_switch fetch_metadata metadata_reply
    fetch_jwks_uri fetch_keys fall_back find_string find str_eq str ◌+ℤ◌
a_round = refl

pending-IsPending : IsPending web pending
pending-IsPending = record {
  fetching = refl;
  open_end = refl;
  not_done = λ h. cc;
  transfer = λ h. cc;
}

get_public_keys_from_web_continue-ends_example : IsPending web complete ⊎ IsComplete web complete
get_public_keys_from_web_continue-ends_example =
    get_public_keys_from_web_continue-ends web pending complete 0 1 pending-IsPending a_round

fetch_switch_fuel_example :
    fetch_switch web 5 pending 0 ≡ get_public_keys_from_web_continue web pending 0
fetch_switch_fuel_example = fetch_switch_fuel web 3 pending 0
