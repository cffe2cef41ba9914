-- ===== src/Validator.antt =====
-- `Validator` of src/scitokens_internal.h: its fields and setters. The verification is in the
-- modules below.
pub mod Early
pub mod Late
pub mod Verify
use scitokens_cpp.Prelude.{
  Bool, true, false, List, [], ◌∷◌, ◌++◌, Option, none, some, Str, str_eq, Result, if◌then◌else◌,
  Json, ℤ,
}
use scitokens_cpp.Profile.{Profile, compat}

-- What a `StringValidatorFunction` answers: zero, or another number and perhaps an error text.
pub data Verdict : Type 0 where
  accepted : Verdict
  rejected : Option Str → Verdict

abbrev pub StringValidatorFunction : Type 0
StringValidatorFunction = Str → Verdict

-- A `ClaimValidatorFunction` with its `void *`: it reads and writes the state `S` behind the
-- pointer, and can ask the validator that calls it for its profile.
abbrev pub ClaimValidatorFunction : Type 0 → Type 0
ClaimValidatorFunction S = Profile → Json → S → Result Bool × S

-- A `std::map` from claim names to vectors of functions.
abbrev pub ValidatorMap : Type 0 → Type 0
ValidatorMap F = List (Str × List F)

pub record Validator (S : Type 0) : Type 0 where
  pub m_validate_all_claims : Bool
  pub m_profile : Profile
  pub m_validate_profile : Profile
  pub m_validators : ValidatorMap StringValidatorFunction
  pub m_claim_validators : ValidatorMap (ClaimValidatorFunction S)
  pub m_now : ℤ
  pub m_critical_claims : List Str
  pub m_allowed_issuers : List Str

-- `Validator()`, at the time `now`
abbrev pub new_validator : {S : Type 0} → ℤ → Validator S
new_validator now = record {
  m_validate_all_claims = true;
  m_profile = compat;
  m_validate_profile = compat;
  m_validators = [];
  m_claim_validators = [];
  m_now = now;
  m_critical_claims = [];
  m_allowed_issuers = [];
}

module _ {F : Type 0} where
  -- The functions registered for a claim; a claim that is not in the map has none.
  unfoldable pub functions : Str → ValidatorMap F → List F
  functions claim [] = []
  functions claim ((key, fs) ∷ rest) = if str_eq key claim then fs else functions claim rest

  -- `insert({claim, {}})` and `push_back`
  unfoldable pub add_function : Str → F → ValidatorMap F → ValidatorMap F
  add_function claim f [] = (claim, f ∷ []) ∷ []
  add_function claim f ((key, fs) ∷ rest) =
      if str_eq key claim then (key, fs ++ f ∷ []) ∷ rest else (key, fs) ∷ add_function claim f rest

module _ {S : Type 0} where
  abbrev pub add_string_validator : Str → StringValidatorFunction → Validator S → Validator S
  add_string_validator claim f v = record v { m_validators = add_function claim f v.m_validators }

  abbrev pub add_claim_validator : Str → ClaimValidatorFunction S → Validator S → Validator S
  add_claim_validator claim f v = record v {
    m_claim_validators = add_function claim f v.m_claim_validators;
  }

  abbrev pub add_critical_claims : List Str → Validator S → Validator S
  add_critical_claims claims v = record v { m_critical_claims = v.m_critical_claims ++ claims }

  abbrev pub add_allowed_issuers : List Str → Validator S → Validator S
  add_allowed_issuers issuers v = record v { m_allowed_issuers = v.m_allowed_issuers ++ issuers }
