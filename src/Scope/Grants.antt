-- ===== src/Scope/Grants.antt =====
-- Testing an authorization and listing the ACLs of a scope agree.
use mathlib.Core.List.{append-nil, append_assoc}
use scitokens_cpp.Prelude.{
  ◌≡◌, refl, sym, ap, ◌∙◌, inl, inr, Bool, true, false, ◌&&◌, ◌||◌, List, [], ◌∷◌, ◌++◌, arith, Str,
  str, str_eq, has_prefix, Result, ok, throw, undefined, Result-cases, Bool-cases, ok-ne-throw,
  ok-ne-undefined, is_empty, any, any-append, ||_false, if◌then◌else◌, Json, null, string,
  as_string, get_type,
}
use scitokens_cpp.Profile.{Profile}
use scitokens_cpp.Path.{normalize_absolute_path}
use scitokens_cpp.Path.Normal.{normalize_absolute_path-root}
use scitokens_cpp.Split.{split}
use scitokens_cpp.Scope.{
  EnforcerState, AclsList, Compat, Authorization, LoopEnd, returned_true, finished, authorize,
  acls_of, matches, scope_loop, scope_end, scope_result, scope_validator, no_flags,
}

-- An ACL answers a test of `authz` on the path `requested`.
abbrev pub grants : Str → Str → Str × Str → Bool
grants authz requested (a, path) = str_eq authz a && has_prefix requested path

-- What `Enforcer::reset_state` leaves of the fields that the scope validator uses.
abbrev pub listing : EnforcerState → EnforcerState
listing me = record me { m_test_path = []; m_test_authz = []; m_gen_acls = [] }

pub matches-acls_of :
    (authz requested : Str) (a : Authorization)
    → matches authz requested a ≡ any (grants authz requested) (acls_of a)
unfolding matches acls_of
matches-acls_of authz requested a = ground arith

-- How the loop ends in a test, given the ACLs that it would list and the flags at its end.
abbrev tested : EnforcerState → Str → AclsList → Compat → AclsList → Result LoopEnd × AclsList
tested me requested new flags acls =
    if any (grants me.m_test_authz requested) new
    then (ok returned_true, acls)
    else (ok (finished flags), acls)

record Agrees (me : EnforcerState) (profile : Profile) (requested : Str) (rest : List Str)
    (flags : Compat) (listed acls out : AclsList) (end : LoopEnd) : Type 0 where
  new : AclsList
  last : Compat
  at_end : end ≡ finished last
  appended : out ≡ listed ++ new
  answer : scope_loop me profile requested rest flags acls ≡ tested me requested new last acls

module _ (me : EnforcerState) (profile : Profile) (requested full : Str) (rest : List Str) where
  scope_loop-listing :
      (flags : Compat) (listed : AclsList) {a : Authorization}
      → authorize me.m_validate_profile profile full flags ≡ ok a
      → scope_loop (listing me) profile requested (full ∷ rest) flags listed
        ≡ scope_loop (listing me) profile requested rest a.flags (listed ++ acls_of a)
  unfolding scope_loop
  scope_loop-listing flags listed e = rw e

  pub scope_loop-testing :
      (flags : Compat) (acls : AclsList) {a : Authorization}
      → is_empty me.m_test_authz ≡ false
      → authorize me.m_validate_profile profile full flags ≡ ok a
      → scope_loop me profile requested (full ∷ rest) flags acls ≡ (
          if matches me.m_test_authz requested a
          then (ok returned_true, acls)
          else scope_loop me profile requested rest a.flags acls)
  unfolding scope_loop
  scope_loop-testing flags acls test e = rw (e, test)

  -- An error in one authorization ends the loop with an error.
  pub scope_loop-ok :
      (flags : Compat) (listed : AclsList) {end : LoopEnd} {out : AclsList}
      → scope_loop me profile requested (full ∷ rest) flags listed ≡ (ok end, out)
      → (a : Authorization) × (authorize me.m_validate_profile profile full flags ≡ ok a)
  unfolding scope_loop
  scope_loop-ok flags listed h =
      elim (Result-cases (authorize me.m_validate_profile profile full flags)) [
        | inl (inl found) ↦ found
        | inl (inr (x, e)) ↦ absurd (ok-ne-throw (ap (λ p. p.0) (sym (rw e at h))))
        | inr e ↦ absurd (ok-ne-undefined (ap (λ p. p.0) (sym (rw e at h))))
      ]

if-|| {ℓ} :
    {A : Type ℓ} (b c : Bool) (x y : A)
    → (if b then x else if c then x else y) ≡ (if b || c then x else y)
if-|| true c x y = refl
if-|| false c x y = refl

Agrees-step :
    (me : EnforcerState) (profile : Profile) (requested full : Str) (rest : List Str)
    (flags : Compat) (listed acls : AclsList) {a : Authorization} {end : LoopEnd} {out : AclsList}
    → is_empty me.m_test_authz ≡ false
    → authorize me.m_validate_profile profile full flags ≡ ok a
    → Agrees me profile requested rest a.flags (listed ++ acls_of a) acls out end
    → Agrees me profile requested (full ∷ rest) flags listed acls out end
Agrees-step me profile requested full rest flags listed acls {a = a} test e ih = record {
  new = acls_of a ++ ih.new;
  last = ih.last;
  at_end = ih.at_end;
  appended = ih.appended ∙ append_assoc listed (acls_of a) ih.new;
  answer =
      scope_loop-testing me profile requested full rest flags acls test e
      ∙ rw
          (
            ih.answer,
            matches-acls_of me.m_test_authz requested a,
            any-append (grants me.m_test_authz requested) (acls_of a) ih.new,
          )
          (if-|| (any (grants me.m_test_authz requested) (acls_of a)) _ _ _);
}

module _ (me : EnforcerState) (profile : Profile) (root requested : Str)
    (test : is_empty me.m_test_authz ≡ false) where
  scope_loop-Agrees :
      (rest : List Str) (flags : Compat) (listed acls : AclsList) {end : LoopEnd} {out : AclsList}
      → scope_loop (listing me) profile root rest flags listed ≡ (ok end, out)
      → Agrees me profile requested rest flags listed acls out end
  scope_loop-Agrees [] flags listed acls {end} {out} h = record {
    new = [];
    last = flags;
    at_end = unfold scope_loop in cc;
    appended = unfold scope_loop in rw append-nil (cc);
    answer = unfold scope_loop in refl;
  }
  scope_loop-Agrees (full ∷ rest) flags listed acls {end} {out} h =
      let (a, e) = scope_loop-ok (listing me) profile root full rest flags listed h in
      Agrees-step me profile requested full rest flags listed acls test e (
        scope_loop-Agrees rest a.flags (listed ++ acls_of a) acls
          (rw (scope_loop-listing me profile root full rest flags listed e) at h))

-- The flags condition and the ACL that it adds, in a listing and in a test.
scope_end-agrees :
    (me : EnforcerState) (requested root : Str) (last : Compat) (new acls : AclsList)
    → is_empty me.m_test_authz ≡ false
    → (any (grants me.m_test_authz requested) new
        || (scope_end me requested (finished last) acls).0)
      ≡ any (grants me.m_test_authz requested) (scope_end (listing me) root (finished last) new).1
unfolding scope_end
scope_end-agrees me requested root last new acls test = ground (
  arith,
  any-append (grants me.m_test_authz requested) new ((str "condor", str "/WRITE") ∷ []),
  ||_false (any (grants me.m_test_authz requested) new),
)

scope_result-ok :
    (me : EnforcerState) (requested : Str) (r : Result LoopEnd × AclsList) {out : EnforcerState}
    → scope_result me requested r ≡ (ok true, out)
    → (end : LoopEnd) × (acls : AclsList) × (r ≡ (ok end, acls))
      × (out.m_gen_acls ≡ (scope_end me requested end acls).1)
scope_result-ok me requested (ok end, acls) h = (end, acls, refl, ap (λ p. p.1.m_gen_acls) (sym h))
scope_result-ok me requested (throw e, acls) h = absurd (ok-ne-throw (ap (λ p. p.0) (sym h)))
scope_result-ok me requested (undefined, acls) h = absurd (ok-ne-undefined (ap (λ p. p.0) (sym h)))

scope_result-tested :
    (me : EnforcerState) (requested : Str) (new acls : AclsList) (last : Compat)
    → (scope_result me requested (tested me requested new last acls)).0
      ≡ ok (
          any (grants me.m_test_authz requested) new
          || (scope_end me requested (finished last) acls).0)
unfolding scope_end
scope_result-tested me requested new acls last =
    elim (Bool-cases (any (grants me.m_test_authz requested) new)) [
      | inl hit ↦ rw hit
      | inr miss ↦ rw miss
    ]

Agrees-result :
    (me : EnforcerState) (profile : Profile) (requested root : Str) (rest : List Str)
    (flags : Compat) (acls out : AclsList) {end : LoopEnd}
    → is_empty me.m_test_authz ≡ false
    → Agrees me profile requested rest flags [] acls out end
    → (scope_result me requested (scope_loop me profile requested rest flags acls)).0
      ≡ ok (any (grants me.m_test_authz requested) (scope_end (listing me) root end out).1)
Agrees-result me profile requested root rest flags acls out test a =
    rw (a.answer, a.at_end, a.appended)
      (scope_result-tested me requested a.new acls a.last
        ∙ ap ok (scope_end-agrees me requested root a.last a.new acls test))

module _ (profile : Profile) (me : EnforcerState) (requested : Str) (out : EnforcerState) where
  string_grants :
      (scope : Str)
      → is_empty me.m_test_authz ≡ false
      → scope_result
          (listing me)
          (str "/")
          (scope_loop (listing me) profile (str "/") (split b' ' scope) no_flags [])
        ≡ (ok true, out)
      → (scope_result me requested
          (scope_loop me profile requested (split b' ' scope) no_flags me.m_gen_acls)).0
        ≡ ok (any (grants me.m_test_authz requested) out.m_gen_acls)
  string_grants scope test h =
      let (end, acls, looped, same) = scope_result-ok (listing me) (str "/") _ h in
      rw same (
        Agrees-result me profile requested (str "/") (split b' ' scope) no_flags me.m_gen_acls acls
          test
          (scope_loop-Agrees me profile (str "/") requested test (split b' ' scope) no_flags []
            me.m_gen_acls looped))

-- If listing the ACLs of a scope succeeds, then a test of an authorization on a path succeeds
-- exactly if one of the listed ACLs has that authorization and a path that is a prefix of the
-- normalized path tested; otherwise it answers false.
pub scope_validator-grants :
    (profile : Profile) (me : EnforcerState) (claim : Json) {requested : Str} {out : EnforcerState}
    → is_empty me.m_test_authz ≡ false
    → normalize_absolute_path me.m_test_path ≡ ok requested
    → scope_validator profile claim (listing me) ≡ (ok true, out)
    → (scope_validator profile claim me).0
      ≡ ok (any (grants me.m_test_authz requested) out.m_gen_acls)
unfolding scope_validator
scope_validator-grants profile me (string scope) {requested} {out} test path h =
    unfold as_string get_type in
    rw path
      (string_grants profile me requested out scope test (rw normalize_absolute_path-root at h))
scope_validator-grants profile me null test path h = unfold get_type in cc
scope_validator-grants profile me _ test path h = unfold get_type in cc
