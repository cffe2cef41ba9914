-- ===== src/Scope/Acls.antt =====
-- The paths that `Enforcer::scope_validator` writes into the list of ACLs.
use scitokens_cpp.Prelude.{
  ◌≡◌, refl, ◌⊎◌, Bool, true, false, List, [], ◌∷◌, ◌++◌, arith, Str, str, Result, ok, throw,
  undefined, ok-injective, >>=-eq-ok, is_empty, All, All-append, Bool-cases, if_both, get_type,
  is_string_type, ◌>>=◌, Json, not, from, as_string, inl, inr,
}
use scitokens_cpp.Profile.{Profile}
use scitokens_cpp.Path.{normalize_absolute_path, render}
use scitokens_cpp.Path.Normal.{IsNormal, normalize_absolute_path-IsNormal}
use scitokens_cpp.Split.{split, join}
use scitokens_cpp.Scope.{
  EnforcerState, AclsList, Compat, Authorization, LoopEnd, returned_true, finished, is_translated,
  translate, raw_path, authorize, acls_of, matches, scope_step, scope_loop, scope_end, scope_result,
  scope_of, scope_typed, scope_validator, no_flags,
}

abbrev pub HasNormalPath : Str × Str → Type 0
HasNormalPath acl = IsNormal acl.1

-- The paths that the translation writes itself.
IsNormal-read : IsNormal (str "/READ")
unfolding str render join
IsNormal-read = (str "READ" ∷ [], ground arith, refl)

IsNormal-write : IsNormal (str "/WRITE")
unfolding str render join
IsNormal-write = (str "WRITE" ∷ [], ground arith, refl)

translate-path :
    (authz path : Str) (flags : Compat)
    → ((translate authz path flags).path ≡ path) ⊎ ((translate authz path flags).path ≡ str "/READ")
unfolding translate
translate-path authz path flags = ground arith

translate-IsNormal :
    (authz path : Str) (flags : Compat) → IsNormal path → IsNormal (translate authz path flags).path
translate-IsNormal authz path flags h = elim (translate-path authz path flags) [
  | inl same ↦ rw same h
  | inr read ↦ rw read IsNormal-read
]

authorize-IsNormal :
    (validate_profile profile : Profile) (full : Str) (flags : Compat) {a : Authorization}
    → authorize validate_profile profile full flags ≡ ok a
    → IsNormal a.path
unfolding authorize
authorize-IsNormal validate_profile profile full flags {a} h =
    let (path, normal, rest) =
      >>=-eq-ok (normalize_absolute_path (raw_path (from b':' full))) _ h in
    let (translated, _, same) = >>=-eq-ok (is_translated validate_profile profile) _ rest in
    let from_normal : IsNormal path = normalize_absolute_path-IsNormal _ normal in
    elim (Bool-cases translated) [
      | inl yes_it_is ↦
          rw (← ok-injective same, yes_it_is) (translate-IsNormal _ path flags from_normal)
      | inr not_so ↦ rw (← ok-injective same, not_so) from_normal
    ]

acls_of-IsNormal : (a : Authorization) → IsNormal a.path → All HasNormalPath (acls_of a)
unfolding acls_of
acls_of-IsNormal a h = elim (Bool-cases (not (is_empty a.alt_authz))) [
  | inl two ↦ rw two (h, (h, tt))
  | inr one ↦ rw one (h, tt)
]

module _ (me : EnforcerState) (profile : Profile) (requested : Str) where
  scope_step-IsNormal :
      (acls : AclsList) (loop : Compat → AclsList → Result LoopEnd × AclsList)
      (r : Result Authorization)
      → ((a : Authorization) → r ≡ ok a → IsNormal a.path)
      → ((flags : Compat) (next : AclsList)
          → All HasNormalPath next
          → All HasNormalPath (loop flags next).1)
      → All HasNormalPath acls
      → All HasNormalPath (scope_step me requested acls loop r).1
  unfolding scope_step
  scope_step-IsNormal acls loop (throw e) normal ih h = h
  scope_step-IsNormal acls loop undefined normal ih h = h
  scope_step-IsNormal acls loop (ok a) normal ih h = elim (Bool-cases (is_empty me.m_test_authz)) [
    | inl list ↦ rw list (
        ih a.flags (acls ++ acls_of a)
          (All-append HasNormalPath acls (acls_of a) h (acls_of-IsNormal a (normal a refl))))
    | inr test ↦ rw test (elim (Bool-cases (matches me.m_test_authz requested a)) [
      | inl hit ↦ rw hit h
      | inr miss ↦ rw miss (ih a.flags acls h)
    ])
  ]

  scope_loop-IsNormal :
      (rest : List Str) (flags : Compat) (acls : AclsList)
      → All HasNormalPath acls
      → All HasNormalPath (scope_loop me profile requested rest flags acls).1
  unfolding scope_loop
  scope_loop-IsNormal [] flags acls h = h
  scope_loop-IsNormal (full ∷ rest) flags acls h =
      scope_step-IsNormal acls (scope_loop me profile requested rest)
        (authorize me.m_validate_profile profile full flags)
        (λ a e. authorize-IsNormal me.m_validate_profile profile full flags e)
        (λ flags' next k. scope_loop-IsNormal rest flags' next k) h

  scope_end-IsNormal :
      (end : LoopEnd) (acls : AclsList)
      → All HasNormalPath acls
      → All HasNormalPath (scope_end me requested end acls).1
  unfolding scope_end
  scope_end-IsNormal returned_true acls h = h
  scope_end-IsNormal (finished flags) acls h =
      let more : All HasNormalPath (acls ++ (str "condor", str "/WRITE") ∷ []) =
        All-append HasNormalPath acls _ h (IsNormal-write, tt) in
      if_both (λ (r : Bool × AclsList). All HasNormalPath r.1) _ _ _
        (if_both (λ (r : Bool × AclsList). All HasNormalPath r.1) (is_empty me.m_test_authz) _ _
          more h)
        h

  scope_result-IsNormal :
      (r : Result LoopEnd × AclsList)
      → All HasNormalPath r.1
      → All HasNormalPath (scope_result me requested r).1.m_gen_acls
  scope_result-IsNormal (ok end, acls) h = scope_end-IsNormal end acls h
  scope_result-IsNormal (throw e, acls) h = h
  scope_result-IsNormal (undefined, acls) h = h

scope_of-IsNormal :
    (profile : Profile) (me : EnforcerState) (scope requested : Result Str)
    → All HasNormalPath me.m_gen_acls
    → All HasNormalPath (scope_of profile me scope requested).1.m_gen_acls
scope_of-IsNormal profile me (ok scope) (ok requested) h =
    scope_result-IsNormal me profile requested _
      (scope_loop-IsNormal me profile requested (split b' ' scope) no_flags me.m_gen_acls h)
scope_of-IsNormal profile me (ok scope) (throw e) h = h
scope_of-IsNormal profile me (ok scope) undefined h = h
scope_of-IsNormal profile me (throw e) requested h = h
scope_of-IsNormal profile me undefined requested h = h

scope_typed-IsNormal :
    (profile : Profile) (claim : Json) (me : EnforcerState) (is_string : Result Bool)
    → All HasNormalPath me.m_gen_acls
    → All HasNormalPath (scope_typed profile claim me is_string).1.m_gen_acls
scope_typed-IsNormal profile claim me (ok true) h =
    scope_of-IsNormal profile me (as_string claim) (normalize_absolute_path me.m_test_path) h
scope_typed-IsNormal profile claim me (ok false) h = h
scope_typed-IsNormal profile claim me (throw e) h = h
scope_typed-IsNormal profile claim me undefined h = h

-- Whatever the claim and however the validator ends, it adds to the list of ACLs only paths that
-- are normalized: "/" or plain components, each behind a slash.
pub scope_validator-HasNormalPath :
    (profile : Profile) (claim : Json) (me : EnforcerState)
    → All HasNormalPath me.m_gen_acls
    → All HasNormalPath (scope_validator profile claim me).1.m_gen_acls
unfolding scope_validator
scope_validator-HasNormalPath profile claim me h =
    scope_typed-IsNormal profile claim me (do t ← get_type claim; ok (is_string_type t)) h
