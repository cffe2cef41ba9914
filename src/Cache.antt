-- ===== src/Cache.antt =====
-- The key cache of src/scitokens_cache.cpp: the choice of its file, and the entries of its table.
-- SQLite, the file system and the user database are parameters.
pub mod Entry
use scitokens_cpp.Prelude.{
  ℕ, ◌==◌, Bool, true, false, not, ◌&&◌, List, [], ◌∷◌, ◌++◌, Option, none, some, Str, str, str_eq,
  Result, is_empty, if◌then◌else◌, Json, object, integer, Members, no_members, find, find_integer,
  put, ℤ, pos, ◌-ℤ◌, ltb_ℤ, ◌*◌,
}
use scitokens_cpp.Exec.{Exec, pure, call, ◌>>=◌, ◌>>◌}

-- The C functions that the cache calls. Codes are numbers: SQLITE_OK is 0, SQLITE_ROW 100 and
-- SQLITE_DONE 101; `mkdir` answers `none` for 0 and otherwise `errno`.
pub record System : Type 1 where
  pub W : Type 0
  pub Db : Type 0
  pub Stmt : Type 0
  pub sqlite3_open : Str → W → (ℕ × Db) × W
  pub sqlite3_exec : Db → Str → W → ℕ × W
  pub sqlite3_prepare : Db → Str → W → (ℕ × Stmt) × W
  pub sqlite3_bind_text : Stmt → ℕ → Str → W → ℕ × W
  pub sqlite3_step : Stmt → W → ℕ × W
  pub sqlite3_column_text : Stmt → ℕ → W → Str × W
  pub sqlite3_finalize : Stmt → W → Unit {0} × W
  pub sqlite3_close : Db → W → Unit {0} × W
  pub getenv : Str → W → Option Str × W
  -- the home directory that `getpwuid_r` finds
  pub home_directory : W → Option Str × W
  pub mkdir : Str → W → Option ℕ × W
  pub get_cache_home : W → Str
  pub parse : Str → Str × Json
  pub serialize : Json → Str

abbrev pub is_ok : ℕ → Bool
is_ok rc = rc == 0

abbrev pub is_row : ℕ → Bool
is_row rc = rc == 100

abbrev pub is_done : ℕ → Bool
is_done rc = rc == 101

-- `r < 0 && errno != EEXIST`
abbrev pub mkdir_failed : Option ℕ → Bool
mkdir_failed none = false
mkdir_failed (some errno) = not (errno == 17)

abbrev integer_or : Option ℤ → ℤ → ℤ
integer_or none n = n
integer_or (some n) m = n

-- The keys of an entry that is not expired; `none` is an entry that is removed.
unfoldable pub live_entry : Members → ℤ → Option ℤ → Json → Option (Json × ℤ)
live_entry top_obj now none keys_local = none
live_entry top_obj now (some expiry) keys_local =
    if ltb_ℤ expiry now
    then none
    else some (
      keys_local,
      integer_or (find_integer (str "next_update") top_obj) (expiry -ℤ pos (4 * 3600)),
    )

abbrev entry_keys : Members → ℤ → Option Json → Option (Json × ℤ)
entry_keys top_obj now (some (object keys)) =
    live_entry top_obj now (find_integer (str "expires") top_obj) (object keys)
entry_keys top_obj now _ = none

abbrev entry_object : Json → ℤ → Option (Json × ℤ)
entry_object (object top_obj) now = entry_keys top_obj now (find (str "jwks") top_obj)
entry_object _ now = none

-- How the text of a row is read: the keys and their time of update, or `none`.
unfoldable pub read_entry : Str × Json → ℤ → Option (Json × ℤ)
unfolding live_entry
read_entry (err, json_obj) now = if not (is_empty err) then none else entry_object json_obj now

-- The object that `store_public_keys` writes.
unfoldable pub entry_of : Json → ℤ → ℤ → Json
entry_of keys next_update expires = object (
    put (str "expires") (integer expires)
      (put (str "next_update") (integer next_update) (put (str "jwks") keys no_members)))

module _ (sys : System) where
  open sys use {
    W, Db, sqlite3_open, sqlite3_exec, sqlite3_prepare, sqlite3_bind_text, sqlite3_step,
    sqlite3_column_text, sqlite3_finalize, sqlite3_close,
  }

  unfoldable pub initialize_cachedb : Str → Exec W (Unit {0})
  initialize_cachedb keycache_file = do
    opened ← call (sqlite3_open keycache_file)
    if not (is_ok opened.0) then call (sqlite3_close opened.1) else (do
      rc ← call (
          sqlite3_exec opened.1 (
            str
              "CREATE TABLE IF NOT EXISTS keycache (issuer text UNIQUE PRIMARY KEY NOT NULL,keys text NOT NULL)"))
      call (sqlite3_close opened.1))

  -- `home_dir`
  abbrev pub home_cache : Option Str → Str
  home_cache none = []
  home_cache (some dir) = dir ++ str "/.cache"

  -- `cache_dir`, by priority: the configuration, XDG_CACHE_HOME, the home directory.
  abbrev pub cache_directory : Str → Option Str → Option Str → Str
  cache_directory (c ∷ configured) xdg home = c ∷ configured
  cache_directory [] (some xdg) home = xdg
  cache_directory [] none home = home_cache home

  -- The second half of `get_cache_file`, for a directory that is there.
  unfoldable pub make_cache_file : Str → Exec W Str
  unfolding initialize_cachedb
  make_cache_file cache_dir = do
    let keycache_dir = cache_dir ++ str "/scitokens"
    r ← call (sys.mkdir keycache_dir)
    if mkdir_failed r then pure [] else (do
      let keycache_file = keycache_dir ++ str "/scitokens_cpp.sqllite"
      initialize_cachedb keycache_file
      pure keycache_file)

  -- The file of the cache, or an empty text.
  unfoldable pub get_cache_file : Exec W Str
  unfolding make_cache_file
  get_cache_file = do
    xdg_cache_home ← call (sys.getenv (str "XDG_CACHE_HOME"))
    home ← call sys.home_directory
    configured ← call (λ w. (sys.get_cache_home w, w))
    let cache_dir = cache_directory configured xdg_cache_home home
    if is_empty cache_dir then pure [] else (do
      r ← call (sys.mkdir cache_dir)
      if mkdir_failed r then pure [] else make_cache_file cache_dir)

  abbrev pub finalize_close : sys.Stmt → Db → Exec W (Unit {0})
  finalize_close stmt db = do call (sqlite3_finalize stmt); call (sqlite3_close db)

  abbrev exec_if : Bool → Db → Str → Exec W (Unit {0})
  exec_if true db sql = do rc ← call (sqlite3_exec db sql); pure tt
  exec_if false db sql = pure tt

  -- Its errors close the database, which its callers go on to use.
  unfoldable pub remove_issuer_entry : Db → Str → Bool → Exec W (Unit {0})
  remove_issuer_entry db issuer new_transaction = do
    exec_if new_transaction db (str "BEGIN")
    prepared ← call (sqlite3_prepare db (str "DELETE FROM keycache WHERE issuer = ?"))
    if not (is_ok prepared.0) then call (sqlite3_close db) else (do
      bound ← call (sqlite3_bind_text prepared.1 1 issuer)
      if not (is_ok bound) then finalize_close prepared.1 db else (do
        rc ← call (sqlite3_step prepared.1)
        if not (is_done rc) then finalize_close prepared.1 db else (do
          call (sqlite3_finalize prepared.1)
          exec_if new_transaction db (str "COMMIT"))))

  -- What a found row gives: the keys, or the removal of the entry.
  abbrev pub taken_entry : Db → Str → Option (Json × ℤ) → Exec W (Option (Json × ℤ))
  taken_entry db issuer none = do
    remove_issuer_entry db issuer true
    call (sqlite3_close db)
    pure none
  taken_entry db issuer (some found) = do call (sqlite3_close db); pure (some found)

  -- `none` is `false`; otherwise the keys and their time of update.
  unfoldable pub get_public_keys_from_db : Str → ℤ → Exec W (Option (Json × ℤ))
  unfolding get_cache_file remove_issuer_entry
  get_public_keys_from_db issuer now = do
    cache_fname ← get_cache_file
    if is_empty cache_fname then pure none else (do
      opened ← call (sqlite3_open cache_fname)
      if not (is_ok opened.0) then (do call (sqlite3_close opened.1); pure none) else (do
        prepared ←
            call (sqlite3_prepare opened.1 (str "SELECT keys from keycache where issuer = ?"))
        if not (is_ok prepared.0) then (do call (sqlite3_close opened.1); pure none) else (do
          bound ← call (sqlite3_bind_text prepared.1 1 issuer)
          if not (is_ok bound) then (do finalize_close prepared.1 opened.1; pure none) else (do
            rc ← call (sqlite3_step prepared.1)
            if is_row rc
                then (do
                  metadata ← call (sqlite3_column_text prepared.1 0)
                  call (sqlite3_finalize prepared.1)
                  taken_entry opened.1 issuer (read_entry (sys.parse metadata) now))
                else (do finalize_close prepared.1 opened.1; pure none)))))

  unfoldable pub insert_entry : Db → sys.Stmt → Str → Str → Exec W Bool
  insert_entry db stmt issuer db_str = do
    first ← call (sqlite3_bind_text stmt 1 issuer)
    if not (is_ok first) then (do finalize_close stmt db; pure false) else (do
      second ← call (sqlite3_bind_text stmt 2 db_str)
      if not (is_ok second) then (do finalize_close stmt db; pure false) else (do
        rc ← call (sqlite3_step stmt)
        if not (is_done rc) then (do finalize_close stmt db; pure false) else (do
          committed ← call (sqlite3_exec db (str "COMMIT"))
          finalize_close stmt db
          pure true)))

  unfoldable pub store_public_keys : Str → Json → ℤ → ℤ → Exec W Bool
  unfolding get_cache_file remove_issuer_entry insert_entry
  store_public_keys issuer keys next_update expires = do
    let db_str = sys.serialize (entry_of keys next_update expires)
    cache_fname ← get_cache_file
    if is_empty cache_fname then pure false else (do
      opened ← call (sqlite3_open cache_fname)
      if not (is_ok opened.0) then (do call (sqlite3_close opened.1); pure false) else (do
        begun ← call (sqlite3_exec opened.1 (str "BEGIN"))
        remove_issuer_entry opened.1 issuer false
        prepared ← call (sqlite3_prepare opened.1 (str "INSERT INTO keycache VALUES (?, ?)"))
        if not (is_ok prepared.0)
            then (do call (sqlite3_close opened.1); pure false)
            else insert_entry opened.1 prepared.1 issuer db_str))
