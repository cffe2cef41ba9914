-- ===== src/Fetch.antt =====
-- The retrieval of an issuer's key set: `AsyncStatus`, `Validator::get_public_keys_from_web`,
-- `get_public_key_pem` and their continuations, `get_jwks`, `refresh_jwks` and `store_jwks`, of
-- src/scitokens_internal.h and src/scitokens_internal.cpp.
pub mod Downloaded
pub mod Progress
pub mod Cached
pub mod Kept
pub mod Bounded
pub mod Refresh
pub mod KeyBounded
pub mod Key
use scitokens_cpp.Prelude.{
  ℕ, zero, suc, ◌*◌, Bool, true, false, not, ◌&&◌, Option, none, some, List, [], Str, str, str_eq,
  Result, ok, throw, undefined, curl, json, is_empty, if◌then◌else◌, Json, null, object, Members,
  find_string, ℤ, pos, negsuc, ◌+ℤ◌, ltb_ℤ,
}
use scitokens_cpp.Exec.{Exec, pure, fail, lift, gets, call, catch_runtime_error, ◌>>=◌, ◌>>◌}
use scitokens_cpp.Keys.{Coords, PublicKey, public_key, or_throw}
use scitokens_cpp.Url.{Endpoints, get_metadata_endpoint}

-- `SimpleCurlGet::GetStatus`
pub record GetStatus : Type 0 where
  pub m_done : Bool
  pub m_status_code : ℤ

-- What the retrieval of keys uses: the HTTP client `SimpleCurlGet`, the key cache, the clock,
-- picojson's parser, the configuration, and the conversion of keys to PEM.
pub record Services : Type 1 where
  -- the state outside the process, and one transfer
  pub W : Type 0
  pub Get : Type 0
  pub new_get : ℕ → ℕ → Get
  pub perform_start : Get → Str → Exec W (GetStatus × Get)
  pub perform_continue : Get → Exec W (GetStatus × Get)
  pub get_data : Get → Str
  -- the error text, empty on success, and the value
  pub parse : Str → Str × Json
  pub serialize : Json → Str
  pub time : W → ℤ × W
  pub get_next_update_delta : W → ℤ
  pub get_expiry_delta : W → ℤ
  -- `none` is `false`; otherwise the keys and their time of update
  pub get_public_keys_from_db : Str → ℤ → Exec W (Option (Json × ℤ))
  pub store_public_keys : Str → Json → ℤ → ℤ → Exec W Bool
  pub coords : Coords

pub data AsyncState : Type 0 where
  download_metadata download_public_key done : AsyncState

pub record AsyncStatus (Get : Type 0) : Type 0 where
  pub m_done : Bool
  pub m_continue_fetch : Bool
  pub m_ignore_error : Bool
  pub m_do_store : Bool
  pub m_has_metadata : Bool
  pub m_oauth_fallback : Bool
  pub m_state : AsyncState
  pub m_next_update : ℤ
  pub m_expires : ℤ
  pub m_keys : Json
  pub m_issuer : Str
  pub m_kid : Str
  pub m_oauth_metadata_url : Str
  pub m_cget : Option Get
  pub m_jwt_string : Str
  pub m_public_pem : Str
  pub m_algorithm : Str

-- `new AsyncStatus()`
abbrev pub new_status : {Get : Type 0} → AsyncStatus Get
new_status = record {
  m_done = false;
  m_continue_fetch = false;
  m_ignore_error = false;
  m_do_store = true;
  m_has_metadata = false;
  m_oauth_fallback = false;
  m_state = download_metadata;
  m_next_update = negsuc 0;
  m_expires = negsuc 0;
  m_keys = null;
  m_issuer = [];
  m_kid = [];
  m_oauth_metadata_url = [];
  m_cget = none;
  m_jwt_string = [];
  m_public_pem = [];
  m_algorithm = [];
}

-- The output strings as their callers pass them.
abbrev pub no_key : PublicKey
no_key = record { public_pem = []; algorithm = [] }

-- `SimpleCurlGet::default_timeout` and `extended_timeout`, and the default arguments of its
-- constructor.
abbrev pub default_timeout : ℕ
default_timeout = 4

abbrev pub extended_timeout : ℕ
extended_timeout = 30

abbrev pub default_maxbytes : ℕ
default_maxbytes = 1024 * 1024

abbrev pub is_200 : GetStatus → Bool
is_200 s = not (ltb_ℤ s.m_status_code (pos 200)) && not (ltb_ℤ (pos 200) s.m_status_code)

abbrev pub parsed_object : Str × Json → Result Members
parsed_object (err, value) = if not (is_empty err) then throw (json err) else elim value [
  | object top_obj ↦ ok top_obj
  | _ ↦ throw (json (str "Metadata resource contains improperly-formatted JSON."))
]

abbrev pub parsed_value : Str × Json → Result Json
parsed_value (err, value) = if not (is_empty err) then throw (json err) else ok value

-- A call through `m_cget`, which is undefined behaviour on a null pointer.
abbrev pub the_cget {ℓ} : {Get : Type ℓ} → Option Get → Result Get
the_cget none = undefined
the_cget (some get) = ok get

-- `switch (status->m_state)`, with what each label runs up to the end of the switch.
abbrev pub by_state {ℓ} : {A : Type ℓ} → AsyncState → A → A → A → A
by_state download_metadata a b c = a
by_state download_public_key a b c = b
by_state done a b c = c

module _ (env : Services) where
  open env use {W, Get, new_get, perform_start, perform_continue, get_data, parse}

  abbrev pub Status : Type 0
  Status = AsyncStatus Get

  -- `case AsyncStatus::DOWNLOAD_PUBLIC_KEY`, and `case DONE` behind it
  unfoldable pub fetch_keys : Status → Exec W Status
  fetch_keys status = do
    get ← lift (the_cget status.m_cget)
    reply ← perform_continue get
    if not reply.0.m_done
        then pure (record status { m_cget = some reply.1 })
        else if not (is_200 reply.0)
        then fail (curl (str "Failed to retrieve the issuer's key set"))
        else do
          keys ← lift (parsed_value (parse (get_data reply.1)))
          now ← call env.time
          next_update_delta ← gets env.get_next_update_delta
          expiry_delta ← gets env.get_expiry_delta
          pure (record status {
            m_cget = none;
            m_next_update = now +ℤ next_update_delta;
            m_expires = now +ℤ expiry_delta;
            m_keys = keys;
            m_continue_fetch = false;
            m_done = true;
            m_state = done;
          })

  -- `case AsyncStatus::DOWNLOAD_METADATA` once the metadata is there; it falls through.
  unfoldable pub fetch_jwks_uri : Get → Status → Exec W Status
  unfolding fetch_keys
  fetch_jwks_uri get status = do
    top_obj ← lift (parsed_object (parse (get_data get)))
    jwks_uri ← lift (
        or_throw (find_string (str "jwks_uri") top_obj)
          (str "Metadata resource is missing 'jwks_uri' string value"))
    started ← perform_start (new_get default_maxbytes extended_timeout) jwks_uri
    fetch_keys (record status {
      m_has_metadata = true;
      m_state = download_public_key;
      m_cget = some started.1;
    })

  -- The request to the OAuth metadata URL, after the one to the OpenID URL has failed.
  unfoldable pub fall_back : (Status → Exec W Status) → Status → Exec W Status
  fall_back again status = do
    started ← perform_start (new_get default_maxbytes extended_timeout) status.m_oauth_metadata_url
    let next = record status { m_oauth_fallback = true; m_cget = some started.1 }
    if not started.0.m_done then pure next else again next

  -- `case AsyncStatus::DOWNLOAD_METADATA` from the reply of `perform_continue` on.
  unfoldable pub metadata_reply :
      (Status → Exec W Status) → Status → GetStatus × Get → Exec W Status
  unfolding fetch_jwks_uri fall_back
  metadata_reply again status reply =
      if not reply.0.m_done
      then pure (record status { m_cget = some reply.1 })
      else if is_200 reply.0
      then fetch_jwks_uri reply.1 (record status { m_cget = some reply.1 })
      else if status.m_oauth_fallback
      then fail (curl (str "Failed to retrieve metadata provider information for issuer."))
      else fall_back again status

  -- `case AsyncStatus::DOWNLOAD_METADATA`; `again` is the recursive call.
  unfoldable pub fetch_metadata : (Status → Exec W Status) → Status → Exec W Status
  unfolding metadata_reply
  fetch_metadata again status = do
    get ← lift (the_cget status.m_cget)
    reply ← perform_continue get
    metadata_reply again status reply

  -- The switch on `m_state`. The fuel bounds the nested calls: running out of it is `undefined`.
  unfoldable pub fetch_switch : ℕ → Status → Exec W Status
  unfolding fetch_metadata
  fetch_switch zero status = lift undefined
  fetch_switch (suc fuel) status =
      by_state status.m_state (fetch_metadata (fetch_switch fuel) status) (fetch_keys status)
        (pure (record status { m_done = true }))

  -- A nested call has `m_oauth_fallback` set and makes no further one, so two rounds are enough.
  unfoldable pub get_public_keys_from_web_continue : Status → Exec W Status
  unfolding fetch_switch
  get_public_keys_from_web_continue status = fetch_switch 2 status

  unfoldable pub get_public_keys_from_web : Str → ℕ → Exec W Status
  unfolding get_public_keys_from_web_continue
  get_public_keys_from_web issuer timeout = do
    endpoints ← lift (get_metadata_endpoint issuer)
    started ← perform_start (new_get default_maxbytes timeout) endpoints.openid_metadata
    let status = record new_status {
      m_oauth_metadata_url = endpoints.oauth_metadata;
      m_cget = some started.1;
      m_continue_fetch = true;
    }
    if not started.0.m_done then pure status else get_public_keys_from_web_continue status

  -- What follows the download: the store, whose result is ignored, and the choice of the key.
  unfoldable pub finish_key : Status → Exec W (Status × PublicKey)
  finish_key status = do
    (if status.m_do_store
        then (env.store_public_keys status.m_issuer status.m_keys status.m_next_update
              status.m_expires
            >> pure tt)
        else pure tt)
    key ← lift (public_key env.coords status.m_keys status.m_kid)
    pure (record status { m_done = true }, key)

  unfoldable pub get_public_key_pem_continue : Status → Exec W (Status × PublicKey)
  unfolding finish_key get_public_keys_from_web_continue
  get_public_key_pem_continue status =
      if status.m_continue_fetch
      then (do
        next ← get_public_keys_from_web_continue status
        if next.m_continue_fetch then pure (next, no_key) else finish_key next)
      else finish_key status

  -- A cached key set as it is used at the time `now`, or a download that has been started.
  abbrev pub use_cached : Str → ℤ → Option (Json × ℤ) → Exec W Status
  use_cached issuer now none = get_public_keys_from_web issuer default_timeout
  use_cached issuer now (some (keys, next_update)) =
      let hit = record new_status { m_keys = keys; m_next_update = next_update } in
      if ltb_ℤ next_update now
      then catch_runtime_error (get_public_keys_from_web issuer default_timeout)
          (pure (record hit { m_ignore_error = true; m_do_store = false }))
      else pure (record hit { m_continue_fetch = false; m_do_store = false; m_done = true })

  -- The status before the key is chosen.
  unfoldable pub find_keys : Str → Exec W Status
  unfolding get_public_keys_from_web
  find_keys issuer = do
    now ← call env.time
    cached ← env.get_public_keys_from_db issuer now
    use_cached issuer now cached

  unfoldable pub get_public_key_pem : Str → Str → Exec W (Status × PublicKey)
  unfolding find_keys get_public_key_pem_continue
  get_public_key_pem issuer kid = do
    result ← find_keys issuer
    get_public_key_pem_continue (record result { m_issuer = issuer; m_kid = kid })

  unfoldable pub get_jwks : Str → Exec W Str
  get_jwks issuer = do
    now ← call env.time
    cached ← env.get_public_keys_from_db issuer now
    elim cached [ some (jwks, _) ↦ pure (env.serialize jwks) | none ↦ pure (str "{\"keys\": []}") ]

  unfoldable pub store_jwks : Str → Str → Exec W Bool
  store_jwks issuer jwks_str = do
    now ← call env.time
    next_update_delta ← gets env.get_next_update_delta
    expiry_delta ← gets env.get_expiry_delta
    jwks ← lift (parsed_value (parse jwks_str))
    env.store_public_keys issuer jwks (now +ℤ next_update_delta) (now +ℤ expiry_delta)

  -- `while (!status->m_done)`, which ends only with the network's help: `fuel` bounds its rounds,
  -- and `none` is a loop that is not over by then.
  unfoldable pub refresh_loop : ℕ → Status → Exec W (Option Status)
  unfolding get_public_keys_from_web_continue
  refresh_loop zero status = pure (if status.m_done then some status else none)
  refresh_loop (suc fuel) status =
      if status.m_done
      then pure (some status)
      else do next ← get_public_keys_from_web_continue status; refresh_loop fuel next

  -- What `refresh_jwks` does behind its loop.
  abbrev pub store_ended : Str → Option Status → Exec W (Option Bool)
  store_ended issuer none = pure none
  store_ended issuer (some status) = do
    stored ← env.store_public_keys issuer status.m_keys status.m_next_update status.m_expires
    pure (some stored)

  unfoldable pub refresh_jwks : ℕ → Str → Exec W (Option Bool)
  unfolding get_public_keys_from_web refresh_loop
  refresh_jwks fuel issuer = do
    started ← get_public_keys_from_web issuer extended_timeout
    ended ← refresh_loop fuel started
    store_ended issuer ended
