-- ===== src/Config.antt =====
-- The configuration: `configurer::Configuration` of src/scitokens_internal.h and
-- src/scitokens_internal.cpp, and the functions of src/scitokens.cpp that set and read it.
pub mod Home
pub mod Ints
use scitokens_cpp.Prelude.{
  ℕ, ◌==◌, Bool, true, false, not, ◌&&◌, List, [], ◌∷◌, ◌++◌, Option, none, some, Str, str, str_eq,
  Result, ok, undefined, runtime, is_empty, if◌then◌else◌, ℤ, pos, ltb_ℤ,
}
use scitokens_cpp.Exec.{Exec, pure, fail, lift, ◌>>=◌}
use scitokens_cpp.Split.{join}

pub record Configuration : Type 0 where
  pub m_next_update_delta : ℤ
  pub m_expiry_delta : ℤ
  pub m_cache_home : Str

-- The globals of src/scitokens.cpp.
abbrev pub initial : Configuration
initial = record { m_next_update_delta = pos 600; m_expiry_delta = pos 345600; m_cache_home = [] }

-- `if (!component.empty()) path_components.push_back(component)`
abbrev pub pushed : Str → List Str → List Str
pushed component rest = if is_empty component then rest else component ∷ rest

-- The loop of `std::getline(ss, component, '/')`, with what is read of the current component.
unfoldable pub path_components : Str → Str → List Str
path_components component [] = pushed component []
path_components component (c ∷ s) = elim (c == 47) [
  | true ↦ pushed component (path_components [] s)
  | false ↦ path_components (component ++ c ∷ []) s
]

-- `if (path_components[0] == "")`, which is undefined on an empty vector.
abbrev pub without_empty : List Str → Result (List Str)
without_empty [] = undefined
without_empty (c ∷ cs) = if is_empty c then ok cs else ok (c ∷ cs)

unfoldable pub path_split : Str → Result (List Str)
unfolding path_components
path_split path = without_empty (path_components [] path)

-- What creating directories uses: `mkdir` answers `none` for 0 and otherwise `errno`.
pub record Directories : Type 1 where
  pub W : Type 0
  pub mkdir : Str → W → Option ℕ × W
  pub strerror : ℕ → Str

module _ (dirs : Directories) where
  open dirs use {W}

  abbrev pub Configured : Type 0
  Configured = Configuration × W

  abbrev pub make_directory : Str → Exec Configured (Option ℕ)
  make_directory path (c, w) = (ok (dirs.mkdir path w).0, (c, (dirs.mkdir path w).1))

  abbrev pub set_home : Str → Exec Configured (Bool × Str)
  set_home home (c, w) = (ok (true, []), (record c { m_cache_home = home }, w))

  -- Whether the call of `mkdir` ends the loop.
  abbrev pub mkdir_error : Option ℕ → Option Str
  mkdir_error none = none
  mkdir_error (some errno) =
      if errno == 17
      then none
      else some (
          str "There was an error while creating/checking the directory: mkdir error: "
          ++ dirs.strerror errno)

  abbrev pub or_stop : Option Str → Exec Configured (Option Str) → Exec Configured (Option Str)
  or_stop none rest = rest
  or_stop (some msg) rest = pure (some msg)

  -- `none` is `true` with no message.
  unfoldable pub make_levels : Str → List Str → Exec Configured (Option Str)
  make_levels level [] = pure none
  make_levels level (component ∷ rest) = do
    let next = level ++ 47 ∷ component
    result ← make_directory next
    or_stop (mkdir_error result) (make_levels next rest)

  unfoldable pub mkdir_and_parents_if_needed : Str → Exec Configured (Option Str)
  unfolding make_levels path_split
  mkdir_and_parents_if_needed dir_path = do
    components ← lift (path_split dir_path)
    make_levels [] components

  abbrev pub home_or_error : Str → Option Str → Exec Configured (Bool × Str)
  home_or_error cleaned_dir_path none = set_home cleaned_dir_path
  home_or_error cleaned_dir_path (some msg) =
      pure (false, str "An issue was encountered with the provided cache home path: " ++ msg)

  unfoldable pub set_cache_home : Str → Exec Configured (Bool × Str)
  unfolding mkdir_and_parents_if_needed path_split join
  set_cache_home dir_path = if is_empty dir_path then set_home [] else (do
    components ← lift (path_split dir_path)
    failed ← mkdir_and_parents_if_needed (join 47 components)
    home_or_error (join 47 components) failed)

  abbrev or_fail : Bool × Str → Exec Configured (Unit {0})
  or_fail (true, msg) = pure tt
  or_fail (false, msg) = fail (runtime msg)

  abbrev set_str : Bool → Str → Exec Configured (Unit {0})
  set_str true value = do rp ← set_cache_home value; or_fail rp
  set_str false value = fail (runtime (str "Key not recognized."))

  -- In these functions `none` is a null pointer, and -1 with an error message is the exception.
  unfoldable pub scitoken_config_set_str : Option Str → Str → Exec Configured (Unit {0})
  unfolding set_cache_home
  scitoken_config_set_str none value = fail (runtime (str "A key must be provided."))
  scitoken_config_set_str (some key) value = set_str (str_eq key (str "keycache.cache_home")) value

unfoldable pub scitoken_config_get_str : Option Str → Exec Configuration Str
scitoken_config_get_str none c = fail (runtime (str "A key must be provided.")) c
scitoken_config_get_str (some key) c =
    if str_eq key (str "keycache.cache_home")
    then pure c.m_cache_home c
    else fail (runtime (str "Key not recognized.")) c

unfoldable pub scitoken_config_set_int : Option Str → ℤ → Exec Configuration (Unit {0})
scitoken_config_set_int none value c = fail (runtime (str "A key must be provided.")) c
scitoken_config_set_int (some key) value c =
    if str_eq key (str "keycache.update_interval_s")
    then (if ltb_ℤ value (pos 0)
        then fail (runtime (str "Update interval must be positive.")) c
        else (ok tt, record c { m_next_update_delta = value }))
    else if str_eq key (str "keycache.expiration_interval_s")
    then (if ltb_ℤ value (pos 0)
        then fail (runtime (str "Expiry interval must be positive.")) c
        else (ok tt, record c { m_expiry_delta = value }))
    else fail (runtime (str "Key not recognized.")) c

unfoldable pub scitoken_config_get_int : Option Str → Exec Configuration ℤ
scitoken_config_get_int none c = fail (runtime (str "A key must be provided.")) c
scitoken_config_get_int (some key) c =
    if str_eq key (str "keycache.update_interval_s")
    then pure c.m_next_update_delta c
    else if str_eq key (str "keycache.expiration_interval_s")
    then pure c.m_expiry_delta c
    else fail (runtime (str "Key not recognized.")) c
