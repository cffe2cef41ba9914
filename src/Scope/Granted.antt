-- ===== src/Scope/Granted.antt =====
-- What the scope validator reads of a scope, and what it leaves of the enforcer's fields.
use mathlib.Core.List.{Memᴰ}
use mathlib.Core.Path.{subst}
use scitokens_cpp.Prelude.{
  ◌≡◌, refl, ap, sym, ◌∙◌, ◌⊎◌, inl, inr, Bool, true, false, List, [], ◌∷◌, arith, Str, str,
  str_eq_iff, has_prefix, until, from, Result, ok, throw, undefined, Bool-cases, ok-ne-throw,
  ok-ne-undefined, ok-injective, >>=-eq-ok, is_empty, any, if◌then◌else◌, Json, null, string,
  as_string, get_type,
}
use scitokens_cpp.Profile.{Profile}
use scitokens_cpp.Path.{normalize_absolute_path}
use scitokens_cpp.Split.{split}
use scitokens_cpp.Scope.{
  EnforcerState, AclsList, Compat, Authorization, LoopEnd, returned_true, finished, is_translated,
  translate, raw_path, authorize, acls_of, matches, scope_loop, scope_end, scope_result, scope_of,
  scope_typed, scope_validator, no_flags,
}
use scitokens_cpp.Scope.Grants.{grants, matches-acls_of, scope_loop-ok, scope_loop-testing}

-- One authorization of a scope, in any place of it, stands for an ACL that answers the test.
abbrev pub IsGrant : Profile → Profile → Str → Str → Str → Type 0
IsGrant validate_profile profile authz requested full =
    (flags : Compat) × (a : Authorization) × (authorize validate_profile profile full flags ≡ ok a)
    × (any (grants authz requested) (acls_of a) ≡ true)

-- A scope has an authorization of a name, where names are translated.
abbrev pub HasNamed : Profile → Profile → Str → List Str → Type 0
HasNamed validate_profile profile name scopes =
    (full : Str) × Memᴰ full scopes
    × (is_translated validate_profile profile ≡ ok true)
    × (until b':' full ≡ name)

-- A scope grants an authorization on a path: an authorization of it does, or the three that WLCG
-- tokens have for the control of jobs together allow "condor" on "/WRITE".
abbrev pub Grants : Profile → Profile → Str → Str → List Str → Type 0
Grants validate_profile profile authz requested scopes =
    ((full : Str) × Memᴰ full scopes × IsGrant validate_profile profile authz requested full)
    ⊎ ((authz ≡ str "condor")
        × (has_prefix requested (str "/WRITE") ≡ true)
        × HasNamed validate_profile profile (str "compute.modify") scopes
        × HasNamed validate_profile profile (str "compute.create") scopes
        × HasNamed validate_profile profile (str "compute.cancel") scopes)

module _ (authz path : Str) (flags : Compat) where
  translate-modify :
      (translate authz path flags).flags.modify ≡ true
      → (flags.modify ≡ true) ⊎ (authz ≡ str "compute.modify")
  unfolding translate
  translate-modify h = ground (arith, str_eq_iff authz (str "compute.modify"))

  translate-create :
      (translate authz path flags).flags.create ≡ true
      → (flags.create ≡ true) ⊎ (authz ≡ str "compute.create")
  unfolding translate
  translate-create h = ground (arith, str_eq_iff authz (str "compute.create"))

  translate-cancel :
      (translate authz path flags).flags.cancel ≡ true
      → (flags.cancel ≡ true) ⊎ (authz ≡ str "compute.cancel")
  unfolding translate
  translate-cancel h = ground (arith, str_eq_iff authz (str "compute.cancel"))

false-ne-true : false ≡ true → ⊥
false-ne-true h = cc

-- Where a flag of an authorization comes from.
abbrev Sets : Profile → Profile → Str → Str → Bool → Type 0
Sets validate_profile profile full name before =
    (before ≡ true)
    ⊎ ((is_translated validate_profile profile ≡ ok true) × (until b':' full ≡ name))

module _ (validate_profile profile : Profile) (full : Str) (flags : Compat) where
  abbrev authorized : Str → Bool → Authorization
  authorized path translated =
      if translated
      then translate (until b':' full) path flags
      else record { authz = until b':' full; alt_authz = []; path = path; flags = flags }

  authorize-ok :
      {a : Authorization}
      → authorize validate_profile profile full flags ≡ ok a
      → (path : Str) × (translated : Bool) × (is_translated validate_profile profile
          ≡ ok translated)
        × (authorized path translated ≡ a)
  unfolding authorize
  authorize-ok h =
      let (path, e, h₁) = >>=-eq-ok (normalize_absolute_path (raw_path (from b':' full))) _ h in
      let (translated, e₁, h₂) = >>=-eq-ok (is_translated validate_profile profile) _ h₁ in
      (path, translated, e₁, ok-injective h₂)

  authorized-flags :
      (path : Str) (translated : Bool)
      → is_translated validate_profile profile ≡ ok translated
      → let out = (authorized path translated).flags in
        (out.modify ≡ true → Sets validate_profile profile full (str "compute.modify") flags.modify)
        × (out.create ≡ true
            → Sets validate_profile profile full (str "compute.create") flags.create)
        × (out.cancel ≡ true
            → Sets validate_profile profile full (str "compute.cancel") flags.cancel)
  authorized-flags path false e = (λ h. inl h, λ h. inl h, λ h. inl h)
  authorized-flags path true e = (
    λ h. elim (translate-modify (until b':' full) path flags h) [
      | inl b ↦ inl b
      | inr n ↦ inr (e, n)
    ],
    λ h. elim (translate-create (until b':' full) path flags h) [
      | inl b ↦ inl b
      | inr n ↦ inr (e, n)
    ],
    λ h. elim (translate-cancel (until b':' full) path flags h) [
      | inl b ↦ inl b
      | inr n ↦ inr (e, n)
    ],
  )

-- Where a flag at the end of the loop comes from.
abbrev Flagged : Profile → Profile → Str → List Str → Bool → Bool → Type 0
Flagged validate_profile profile name scopes before after =
    after ≡ true → (before ≡ true) ⊎ HasNamed validate_profile profile name scopes

Flagged-step :
    (validate_profile profile : Profile) (name full : Str) (rest : List Str)
    (before between after : Bool)
    → (between ≡ true → Sets validate_profile profile full name before)
    → Flagged validate_profile profile name rest between after
    → Flagged validate_profile profile name (full ∷ rest) before after
Flagged-step validate_profile profile name full rest before between after set later h =
    elim (later h) [
      | inl b ↦ elim (set b) [
        | inl b₀ ↦ inl b₀
        | inr (translated, named) ↦ inr (full, Memᴰ.head refl, translated, named)
      ]
      | inr (other, there, translated, named) ↦ inr (other, Memᴰ.tail there, translated, named)
    ]

module _ (me : EnforcerState) (profile : Profile) (requested : Str)
    (test : is_empty me.m_test_authz ≡ false) where
  -- What the end of the loop in a test says of the authorizations that it went through.
  abbrev Reads : List Str → Compat → LoopEnd → Type 0
  Reads scopes flags returned_true =
      (full : Str) × Memᴰ full scopes
      × IsGrant me.m_validate_profile profile me.m_test_authz requested full
  Reads scopes flags (finished last) =
      Flagged me.m_validate_profile profile (str "compute.modify") scopes flags.modify last.modify
      × Flagged me.m_validate_profile profile (str "compute.create") scopes flags.create last.create
      × Flagged me.m_validate_profile profile (str "compute.cancel") scopes flags.cancel last.cancel

  Reads-step :
      (full : Str) (rest : List Str) (flags : Compat) (a : Authorization) (end : LoopEnd)
      → authorize me.m_validate_profile profile full flags ≡ ok a
      → Reads rest a.flags end
      → Reads (full ∷ rest) flags end
  Reads-step full rest flags a returned_true e (other, there, granted) =
      (other, Memᴰ.tail there, granted)
  Reads-step full rest flags a (finished last) e (modify, create, cancel) =
      let v = me.m_validate_profile in
      let (path, translated, e₁, same) = authorize-ok v profile full flags e in
      let (m, c, x) =
        subst
          (λ (b : Authorization).
            (b.flags.modify ≡ true → Sets v profile full (str "compute.modify") flags.modify)
            × (b.flags.create ≡ true → Sets v profile full (str "compute.create") flags.create)
            × (b.flags.cancel ≡ true → Sets v profile full (str "compute.cancel") flags.cancel))
          same (authorized-flags v profile full flags path translated e₁) in
      (
        Flagged-step v profile (str "compute.modify") full rest flags.modify a.flags.modify
            last.modify m modify,
        Flagged-step v profile (str "compute.create") full rest flags.create a.flags.create
            last.create c create,
        Flagged-step v profile (str "compute.cancel") full rest flags.cancel a.flags.cancel
            last.cancel x cancel,
      )

  scope_loop-nil :
      (flags : Compat) (acls : AclsList)
      → scope_loop me profile requested [] flags acls ≡ (ok (finished flags), acls)
  unfolding scope_loop
  scope_loop-nil flags acls = refl

  scope_loop-Reads :
      (scopes : List Str) (flags : Compat) (acls : AclsList) (end : LoopEnd) (out : AclsList)
      → scope_loop me profile requested scopes flags acls ≡ (ok end, out)
      → Reads scopes flags end
  scope_loop-Reads [] flags acls end out h =
      subst (Reads [] flags) (ok-injective (ap (λ p. p.0) (sym (scope_loop-nil flags acls) ∙ h)))
        (λ b. inl b, λ b. inl b, λ b. inl b)
  scope_loop-Reads (full ∷ rest) flags acls end out h =
      let (a, e) = scope_loop-ok me profile requested full rest flags acls h in
      let step = scope_loop-testing me profile requested full rest flags acls test e in
      elim (Bool-cases (matches me.m_test_authz requested a)) [
        | inl hit ↦
            subst (Reads (full ∷ rest) flags)
              (ok-injective (ap (λ p. p.0) (sym (rw hit at step) ∙ h)))
              (
                full,
                Memᴰ.head refl,
                (flags, a, e, sym (matches-acls_of me.m_test_authz requested a) ∙ hit),
              )
        | inr miss ↦
            Reads-step full rest flags a end e
              (scope_loop-Reads rest a.flags acls end out (sym (rw miss at step) ∙ h))
      ]

  scope_end-true :
      (last : Compat) (acls out : AclsList)
      → scope_end me requested (finished last) acls ≡ (true, out)
      → (last.modify ≡ true)
        × (last.create ≡ true)
        × (last.cancel ≡ true)
        × (me.m_test_authz ≡ str "condor")
        × (has_prefix requested (str "/WRITE") ≡ true)
  unfolding scope_end
  scope_end-true last acls out h = ground (arith, str_eq_iff me.m_test_authz (str "condor"))

  found-HasNamed :
      (name : Str) (scopes : List Str) (after : Bool)
      → Flagged me.m_validate_profile profile name scopes false after
      → after ≡ true
      → HasNamed me.m_validate_profile profile name scopes
  found-HasNamed name scopes after flagged h = elim (flagged h) [
    | inl before ↦ absurd (false-ne-true before)
    | inr there ↦ there
  ]

  scope_end-Grants :
      (scopes : List Str) (end : LoopEnd) (acls out : AclsList)
      → Reads scopes no_flags end
      → scope_end me requested end acls ≡ (true, out)
      → Grants me.m_validate_profile profile me.m_test_authz requested scopes
  scope_end-Grants scopes returned_true acls out found h = inl found
  scope_end-Grants scopes (finished last) acls out (modify, create, cancel) h =
      let (m, c, x, condor, write) = scope_end-true last acls out h in
      inr (
        condor,
        write,
        found-HasNamed (str "compute.modify") scopes last.modify modify m,
        found-HasNamed (str "compute.create") scopes last.create create c,
        found-HasNamed (str "compute.cancel") scopes last.cancel cancel x,
      )

  scope_result-Grants :
      (scope : Str) (acls : AclsList) (r : Result LoopEnd × AclsList) (out : EnforcerState)
      → scope_loop me profile requested (split b' ' scope) no_flags acls ≡ r
      → scope_result me requested r ≡ (ok true, out)
      → Grants me.m_validate_profile profile me.m_test_authz requested (split b' ' scope)
  scope_result-Grants scope acls (ok end, listed) out looped h =
      let answered : (scope_end me requested end listed).0 ≡ true =
        ok-injective (ap (λ p. p.0) h) in
      scope_end-Grants (split b' ' scope) end listed (scope_end me requested end listed).1
        (scope_loop-Reads (split b' ' scope) no_flags acls end listed looped)
        (λ i. (answered i, (scope_end me requested end listed).1))
  scope_result-Grants scope acls (throw e, listed) out looped h =
      absurd (ok-ne-throw (sym (ap (λ p. p.0) h)))
  scope_result-Grants scope acls (undefined, listed) out looped h =
      absurd (ok-ne-undefined (sym (ap (λ p. p.0) h)))

-- What a scope claim that a test has accepted says: it is a text, and grants the authorization on
-- the path that was asked for.
pub record IsGranted (validate_profile profile : Profile) (authz path : Str) (claim : Json)
    : Type 0 where
  pub scope : Str
  pub is_text : claim ≡ string scope
  pub requested : Str
  pub normalized : normalize_absolute_path path ≡ ok requested
  pub by : Grants validate_profile profile authz requested (split b' ' scope)

scope_of-ok :
    (profile : Profile) (me : EnforcerState) (scope requested : Result Str) {out : EnforcerState}
    → scope_of profile me scope requested ≡ (ok true, out)
    → (s : Str) × (p : Str) × (scope ≡ ok s) × (requested ≡ ok p)
scope_of-ok profile me (ok s) (ok p) h = (s, p, refl, refl)
scope_of-ok profile me (ok s) (throw e) h = absurd (ok-ne-throw (sym (ap (λ p. p.0) h)))
scope_of-ok profile me (ok s) undefined h = absurd (ok-ne-undefined (sym (ap (λ p. p.0) h)))
scope_of-ok profile me (throw e) requested h = absurd (ok-ne-throw (sym (ap (λ p. p.0) h)))
scope_of-ok profile me undefined requested h = absurd (ok-ne-undefined (sym (ap (λ p. p.0) h)))

-- If a test accepts a scope claim, the claim grants what was asked for.
pub scope_validator-IsGranted :
    (profile : Profile) (me : EnforcerState) (claim : Json) {out : EnforcerState}
    → is_empty me.m_test_authz ≡ false
    → scope_validator profile claim me ≡ (ok true, out)
    → IsGranted me.m_validate_profile profile me.m_test_authz me.m_test_path claim
unfolding scope_validator
scope_validator-IsGranted profile me (string scope) {out} test h =
    let h₁ : scope_of profile me (ok scope) (normalize_absolute_path me.m_test_path)
        ≡ (ok true, out) =
      unfold as_string get_type in h in
    let (s, requested, _, path) =
      scope_of-ok profile me (ok scope) (normalize_absolute_path me.m_test_path) h₁ in
    record {
      scope = scope;
      is_text = refl;
      requested = requested;
      normalized = path;
      by =
          scope_result-Grants me profile requested test scope me.m_gen_acls _ out refl
            (rw path at h₁);
    }
scope_validator-IsGranted profile me null test h = unfold get_type in cc
scope_validator-IsGranted profile me _ test h = unfold get_type in cc

-- The scope validator changes no field of the enforcer but the list of ACLs.
abbrev pub fixed : EnforcerState → EnforcerState
fixed me = record me { m_gen_acls = [] }

scope_result-fixed :
    (me : EnforcerState) (requested : Str) (r : Result LoopEnd × AclsList)
    → fixed (scope_result me requested r).1 ≡ fixed me
scope_result-fixed me requested (ok end, acls) = refl
scope_result-fixed me requested (throw e, acls) = refl
scope_result-fixed me requested (undefined, acls) = refl

scope_of-fixed :
    (profile : Profile) (me : EnforcerState) (scope requested : Result Str)
    → fixed (scope_of profile me scope requested).1 ≡ fixed me
scope_of-fixed profile me (ok s) (ok p) = scope_result-fixed me p _
scope_of-fixed profile me (ok s) (throw e) = refl
scope_of-fixed profile me (ok s) undefined = refl
scope_of-fixed profile me (throw e) requested = refl
scope_of-fixed profile me undefined requested = refl

scope_typed-fixed :
    (profile : Profile) (claim : Json) (me : EnforcerState) (typed : Result Bool)
    → fixed (scope_typed profile claim me typed).1 ≡ fixed me
scope_typed-fixed profile claim me (ok true) = scope_of-fixed profile me _ _
scope_typed-fixed profile claim me (ok false) = refl
scope_typed-fixed profile claim me (throw e) = refl
scope_typed-fixed profile claim me undefined = refl

pub scope_validator-fixed :
    (profile : Profile) (claim : Json) (me : EnforcerState)
    → fixed (scope_validator profile claim me).1 ≡ fixed me
unfolding scope_validator
scope_validator-fixed profile claim me = scope_typed-fixed profile claim me _
