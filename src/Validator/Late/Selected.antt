-- ===== src/Validator/Late/Selected.antt =====
-- The profile that is chosen for a token, and which claims must then be verified.
use scitokens_cpp.Prelude.{
  ◌≡◌, ◌≢◌, ◌⊎◌, inl, inr, Bool, true, false, ◌||◌, arith, Str, str, str_eq, Result, ok, Bool-cases,
}
use scitokens_cpp.Exec.{>>=-eq-ok}
use scitokens_cpp.Profile.{
  Profile, compat, scitokens_1_0, scitokens_2_0, wlcg_1_0, at_jwt, profile_eq,
}
use scitokens_cpp.Token.{DecodedJwt, has_payload_claim}
use scitokens_cpp.Validator.Late.{
  Running, expected, version, choose_ver, check_wlcg, select_ver, select_wlcg, select_default,
  select_profile,
}

-- The running validator with another profile.
abbrev pub at_profile : {W S : Type 0} → Running W S → Profile → Running W S
at_profile r p = record r { validator = record r.validator { m_profile = p } }

-- The choice of the profile `p` for a token, with the answer `must_verify_everything`.
pub record Selected {W S : Type 0} (jwt : DecodedJwt) (r r' : Running W S) (must : Bool)
    : Type 0 where
  pub profile : Profile
  pub only_profile : r' ≡ at_profile r profile
  pub is_set : profile ≢ compat
  pub expected_one :
      (r.validator.m_validate_profile ≡ compat)
      ⊎ (r.validator.m_validate_profile ≡ profile)
      ⊎ (r.validator.m_profile ≡ at_jwt)
  pub strict : must ≡ true → (profile ≡ scitokens_1_0) × (r.validator.m_validate_all_claims ≡ true)
  pub audience :
      (profile ≡ scitokens_2_0) ⊎ (profile ≡ wlcg_1_0) → has_payload_claim jwt (str "aud") ≡ true

module _ {W S : Type 0} (jwt : DecodedJwt) where
  version-ok :
      (name : Str) (r : Running W S) {v : Str}
      → (version jwt name r).0 ≡ ok v
      → version jwt name r ≡ (ok v, r)
  unfolding version
  version-ok name r h = ground arith

  select_default-Selected :
      (r r' : Running W S) (must : Bool) → select_default r ≡ (ok must, r') → Selected jwt r r' must
  unfolding select_default
  select_default-Selected r r' must h = record {
    profile = scitokens_1_0;
    only_profile = ground arith;
    is_set = ground arith;
    expected_one = ground arith;
    strict = ground arith;
    audience = ground arith;
  }

  -- Behind the version claim of "ver".
  ver-Selected :
      (ver : Str) (r r' : Running W S) (must : Bool)
      → choose_ver jwt ver r ≡ (ok must, r')
      → Selected jwt r r' must
  unfolding choose_ver
  ver-Selected ver r r' must h =
      elim (Bool-cases (str_eq ver (str "scitokens:2.0") || str_eq ver (str "scitoken:2.0"))) [
        | inl two ↦
            (let h₂ = rw two at h in
              record {
                profile = scitokens_2_0;
                only_profile = ground arith;
                is_set = ground arith;
                expected_one = ground arith;
                strict = ground arith;
                audience = ground arith;
              })
        | inr other ↦
            (let h₁ = rw other at h in
              record {
                profile = scitokens_1_0;
                only_profile = ground arith;
                is_set = ground arith;
                expected_one = ground arith;
                strict = ground arith;
                audience = ground arith;
              })
      ]

  select_ver-Selected :
      (r r' : Running W S) (must : Bool) → select_ver jwt r ≡ (ok must, r') → Selected jwt r r' must
  unfolding select_ver
  select_ver-Selected r r' must h =
      let (ver, e, rest) = >>=-eq-ok (version jwt (str "ver")) _ r h in
      ver-Selected ver r r' must (rw (version-ok (str "ver") r e) at rest)

  check_wlcg-ok :
      (ver : Str) (r r' : Running W S) (must : Bool)
      → check_wlcg jwt ver r ≡ (ok must, r')
      → (must ≡ false) × (r' ≡ r) × (has_payload_claim jwt (str "aud") ≡ true)
  unfolding check_wlcg
  check_wlcg-ok ver r r' must h = ground arith

  expected-ok :
      (p : Profile) (msg : Str) (r : Running W S) {u : Unit {0}}
      → (expected p msg r).0 ≡ ok u
      → (expected p msg r ≡ (ok tt, r))
        × ((r.validator.m_validate_profile ≡ compat) ⊎ (r.validator.m_validate_profile ≡ p))
  expected-ok p msg r h = ground arith

  select_wlcg-Selected :
      (r r' : Running W S) (must : Bool)
      → select_wlcg jwt r ≡ (ok must, r')
      → Selected jwt r r' must
  unfolding select_wlcg
  select_wlcg-Selected r r' must h =
      let msg = str "Invalidate token type; not expecting a WLCG 1.0." in
      let (_, e, h₁) = >>=-eq-ok (expected wlcg_1_0 msg) _ r h in
      let (kept, mode) = expected-ok wlcg_1_0 msg r e in
      let h₂ = rw kept at h₁ in
      let (ver, e₂, h₃) = >>=-eq-ok (version jwt (str "wlcg.ver")) _ (at_profile r wlcg_1_0) h₂ in
      let (relaxed, same, aud) =
        check_wlcg-ok ver (at_profile r wlcg_1_0) r' must
          (rw (version-ok (str "wlcg.ver") (at_profile r wlcg_1_0) e₂) at h₃) in
      record {
        profile = wlcg_1_0;
        only_profile = same;
        is_set = ground arith;
        expected_one = ground arith;
        strict = ground arith;
        audience = λ _. aud;
      }

  at_jwt-Selected :
      (r r' : Running W S) (must : Bool)
      → profile_eq r.validator.m_profile at_jwt ≡ true
      → ◌≡◌ {A = Result Bool × Running W S} (ok false, r) (ok must, r')
      → Selected jwt r r' must
  at_jwt-Selected r r' must is_at h = record {
    profile = at_jwt;
    only_profile = ground arith;
    is_set = ground arith;
    expected_one = ground arith;
    strict = ground arith;
    audience = ground arith;
  }

  -- A profile is chosen only if the validator's mode is COMPAT or asks for it, or if the validator
  -- was already in AT_JWT; the profile is never COMPAT; claims without validators are errors only
  -- for SciTokens 1.0 and only if the validator says so; SciTokens 2.0 and WLCG tokens have "aud";
  -- and nothing but the profile changes.
  pub select_profile-Selected :
      (r r' : Running W S) (must : Bool)
      → select_profile jwt r ≡ (ok must, r')
      → Selected jwt r r' must
  unfolding select_profile
  select_profile-Selected r r' must h = elim (Bool-cases (has_payload_claim jwt (str "ver"))) [
    | inl ver ↦ select_ver-Selected r r' must (rw ver at h)
    | inr no_ver ↦ elim (Bool-cases (has_payload_claim jwt (str "wlcg.ver"))) [
      | inl wlcg ↦ select_wlcg-Selected r r' must (rw (no_ver, wlcg) at h)
      | inr no_wlcg ↦ elim (Bool-cases (profile_eq r.validator.m_profile at_jwt)) [
        | inl is_at ↦ at_jwt-Selected r r' must is_at (rw (no_ver, no_wlcg, is_at) at h)
        | inr not_at ↦ select_default-Selected r r' must (rw (no_ver, no_wlcg, not_at) at h)
      ]
    ]
  ]
