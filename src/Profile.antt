-- ===== src/Profile.antt =====
-- `SciToken::Profile` of src/scitokens_internal.h.
use scitokens_cpp.Prelude.{Bool, true, false, ◌≡◌, ◌↔◌, arith}

pub data Profile : Type 0 where
  compat scitokens_1_0 scitokens_2_0 wlcg_1_0 at_jwt : Profile

-- `a == b`
abbrev pub profile_eq : Profile → Profile → Bool
profile_eq compat compat = true
profile_eq scitokens_1_0 scitokens_1_0 = true
profile_eq scitokens_2_0 scitokens_2_0 = true
profile_eq wlcg_1_0 wlcg_1_0 = true
profile_eq at_jwt at_jwt = true
profile_eq _ _ = false

pub profile_eq_iff : (a b : Profile) → (profile_eq a b ≡ true) ↔ (a ≡ b)
profile_eq_iff a b = ground arith
