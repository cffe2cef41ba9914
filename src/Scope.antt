-- ===== src/Scope.antt =====
-- The part of `Enforcer` that its claim validators reach through `void *`, and
-- `Enforcer::scope_validator` of src/scitokens_internal.cpp.
pub mod Acls
pub mod Grants
pub mod Granted
use scitokens_cpp.Prelude.{
  Bool, true, false, ◌&&◌, ◌||◌, not, List, [], ◌∷◌, ◌++◌, Str, str, str_eq, has_prefix, until,
  from, Result, ok, throw, undefined, jwt_verification, ◌>>=◌, is_empty, if◌then◌else◌, drop, Json,
  as_string, get_type, is_string_type,
}
use scitokens_cpp.Profile.{Profile, compat, wlcg_1_0, profile_eq}
use scitokens_cpp.Split.{split}
use scitokens_cpp.Path.{normalize_absolute_path}

-- `AclsList`: pairs of an authorization and a path.
abbrev pub AclsList : Type 0
AclsList = List (Str × Str)

-- The fields of `Enforcer` except its validator.
pub record EnforcerState : Type 0 where
  pub m_validate_profile : Profile
  pub m_test_path : Str
  pub m_test_authz : Str
  pub m_gen_acls : AclsList
  pub m_issuer : Str
  pub m_audiences : List Str

-- `Validator::get_profile()`, given the validator's `m_profile`.
unfoldable pub get_profile : Profile → Result Profile
get_profile compat = throw (jwt_verification (str "Token profile has not been set."))
get_profile profile = ok profile

-- The flags `compat_modify`, `compat_create` and `compat_cancel`.
pub record Compat : Type 0 where
  pub modify : Bool
  pub create : Bool
  pub cancel : Bool

-- One authorization of a scope, after the translation of names; `alt_authz` is empty if there is
-- none.
pub record Authorization : Type 0 where
  pub authz : Str
  pub alt_authz : Str
  pub path : Str
  pub flags : Compat

-- `me->m_validate_profile == COMPAT && me->m_validator.get_profile() == WLCG_1_0`
unfoldable pub is_translated : Profile → Profile → Result Bool
unfolding get_profile
is_translated validate_profile profile =
    if profile_eq validate_profile compat
    then (do p ← get_profile profile; ok (profile_eq p wlcg_1_0))
    else ok false

-- The ladder that gives WLCG authorizations their SciTokens names.
unfoldable pub translate : Str → Str → Compat → Authorization
translate authz path flags =
    if str_eq authz (str "storage.read")
    then record { authz = str "read"; alt_authz = []; path = path; flags = flags }
    else if str_eq authz (str "storage.create")
    then record { authz = str "write"; alt_authz = str "create"; path = path; flags = flags }
    else if str_eq authz (str "storage.modify")
    then record { authz = str "write"; alt_authz = str "modify"; path = path; flags = flags }
    else if str_eq authz (str "compute.read")
    then record { authz = str "condor"; alt_authz = []; path = str "/READ"; flags = flags }
    else record {
      authz = authz;
      alt_authz = [];
      path = path;
      flags =
          if str_eq authz (str "compute.modify")
          then record flags { modify = true }
          else if str_eq authz (str "compute.create")
          then record flags { create = true }
          else if str_eq authz (str "compute.cancel")
          then record flags { cancel = true }
          else flags;
    }

-- The path of an authorization before it is normalized: what follows the first ':', or "/".
unfoldable pub raw_path : Str → Str
raw_path [] = str "/"
raw_path (colon ∷ path) = path

-- The body of the loop up to the test of `m_test_authz`.
unfoldable pub authorize : Profile → Profile → Str → Compat → Result Authorization
authorize validate_profile profile full_authz flags = do
  path ← normalize_absolute_path (raw_path (from b':' full_authz))
  translated ← is_translated validate_profile profile
  ok (
      if translated
      then translate (until b':' full_authz) path flags
      else record { authz = until b':' full_authz; alt_authz = []; path = path; flags = flags })

-- What one authorization adds to the list of ACLs.
unfoldable pub acls_of : Authorization → AclsList
acls_of a =
    if not (is_empty a.alt_authz)
    then (a.authz, a.path) ∷ (a.alt_authz, a.path) ∷ []
    else (a.authz, a.path) ∷ []

-- The condition under which one authorization answers the test.
unfoldable pub matches : Str → Str → Authorization → Bool
matches test_authz requested a =
    (str_eq test_authz a.authz || (not (is_empty a.alt_authz) && str_eq test_authz a.alt_authz))
    && has_prefix requested a.path

-- How the loop ended: by `return true`, or with the scope read and the flags that were found.
pub data LoopEnd : Type 0 where
  returned_true : LoopEnd
  finished : Compat → LoopEnd

-- The test of `m_test_authz` at the end of a round; `loop` is the rest of the loop.
unfoldable pub scope_step :
    EnforcerState
    → Str
    → AclsList
    → (Compat → AclsList → Result LoopEnd × AclsList)
    → Result Authorization
    → Result LoopEnd × AclsList
scope_step me requested acls loop (ok a) =
    if is_empty me.m_test_authz
    then loop a.flags (acls ++ acls_of a)
    else if matches me.m_test_authz requested a
    then (ok returned_true, acls)
    else loop a.flags acls
scope_step me requested acls loop (throw e) = (throw e, acls)
scope_step me requested acls loop undefined = (undefined, acls)

unfoldable pub scope_loop :
    EnforcerState → Profile → Str → List Str → Compat → AclsList → Result LoopEnd × AclsList
unfolding scope_step
scope_loop me profile requested [] flags acls = (ok (finished flags), acls)
scope_loop me profile requested (full_authz ∷ rest) flags acls =
    scope_step me requested acls (scope_loop me profile requested rest)
      (authorize me.m_validate_profile profile full_authz flags)

-- What follows the loop.
unfoldable pub scope_end : EnforcerState → Str → LoopEnd → AclsList → Bool × AclsList
scope_end me requested returned_true acls = (true, acls)
scope_end me requested (finished flags) acls =
    if flags.modify && (flags.create && flags.cancel)
    then (if is_empty me.m_test_authz
        then (true, acls ++ (str "condor", str "/WRITE") ∷ [])
        else (str_eq me.m_test_authz (str "condor") && has_prefix requested (str "/WRITE"), acls))
    else (is_empty me.m_test_authz, acls)

abbrev pub no_flags : Compat
no_flags = record { modify = false; create = false; cancel = false }

abbrev scope_result : EnforcerState → Str → Result LoopEnd × AclsList → Result Bool × EnforcerState
scope_result me requested (ok end, acls) =
    let (answer, acls') = scope_end me requested end acls in
    (ok answer, record me { m_gen_acls = acls' })
scope_result me requested (throw e, acls) = (throw e, record me { m_gen_acls = acls })
scope_result me requested (undefined, acls) = (undefined, record me { m_gen_acls = acls })

-- The part behind the check of the claim's type.
abbrev scope_of : Profile → EnforcerState → Result Str → Result Str → Result Bool × EnforcerState
scope_of profile me (ok scope) (ok requested) =
    scope_result me requested
      (scope_loop me profile requested (split b' ' scope) no_flags me.m_gen_acls)
scope_of profile me (ok scope) (throw e) = (throw e, me)
scope_of profile me (ok scope) undefined = (undefined, me)
scope_of profile me (throw e) requested = (throw e, me)
scope_of profile me undefined requested = (undefined, me)

abbrev scope_typed : Profile → Json → EnforcerState → Result Bool → Result Bool × EnforcerState
scope_typed profile claim me (ok true) =
    scope_of profile me (as_string claim) (normalize_absolute_path me.m_test_path)
scope_typed profile claim me (ok false) = (ok false, me)
scope_typed profile claim me (throw e) = (throw e, me)
scope_typed profile claim me undefined = (undefined, me)

-- `profile` is the `m_profile` of the validator that calls.
unfoldable pub scope_validator : Profile → Json → EnforcerState → Result Bool × EnforcerState
scope_validator profile claim me =
    scope_typed profile claim me (do t ← get_type claim; ok (is_string_type t))
