-- ===== src/Enforcer/Behind.antt =====
-- What the claim validators of an enforcer leave of its fields when the claims of a token pass.
use mathlib.Core.Path.{subst}
use scitokens_cpp.Prelude.{
  ◌≡◌, refl, ap, sym, ◌∙◌, ◌⊎◌, inl, inr, Bool, true, false, true-ne-false, some-injective,
  none-ne-some, some-ne-none, List, [], ◌∷◌, none, some, Str, str, str_eq, str_eq_iff, ok,
  Bool-cases, All, Json, Members, no_members, member, find, pos,
}
use scitokens_cpp.Exec.{>>=-eq-ok}
use scitokens_cpp.Profile.{Profile}
use scitokens_cpp.Token.{members}
use scitokens_cpp.Scope.{EnforcerState, scope_validator}
use scitokens_cpp.SciToken.Maps.{IsMap}
use scitokens_cpp.Validator.{
  Validator, ClaimValidatorFunction, ValidatorMap, functions, add_function,
}
use scitokens_cpp.Validator.Late.{Running, is_timestamp, run_claim, run_claims}
use scitokens_cpp.Validator.Late.Claims.{Stays, run_claim-ok, run_claim-one}
use scitokens_cpp.Enforcer.{all_validator, str_validator, aud_validator, new_enforcer_validator}

-- A claim validator that leaves what is behind its pointer.
abbrev IsStill : ClaimValidatorFunction EnforcerState → Type 0
IsStill f = (me : EnforcerState) → Stays (λ user. user ≡ me) f

-- The only claim whose validators need not be still.
abbrev IsStillBut : Str → ValidatorMap (ClaimValidatorFunction EnforcerState) → Type 0
IsStillBut name m = All (λ entry. (str_eq entry.0 name ≡ true) ⊎ All IsStill entry.1) m

functions-IsStill :
    (name key : Str) (m : ValidatorMap (ClaimValidatorFunction EnforcerState))
    → str_eq key name ≡ false
    → IsStillBut name m
    → All IsStill (functions key m)
unfolding functions
functions-IsStill name key [] other h = tt
functions-IsStill name key ((k, fs) ∷ rest) other h = elim (Bool-cases (str_eq k key)) [
  | inr e ↦ rw e (functions-IsStill name key rest other h.1)
  | inl e ↦ elim h.0 [
    | inr still ↦ rw e still
    | inl is ↦
        absurd (true-ne-false (sym is ∙ ap (λ k. str_eq k name) ((str_eq_iff k key).0 e) ∙ other))
  ]
]

new_enforcer_validator-IsStillBut :
    (issuer : Str) (audiences : List Str)
    → IsStillBut (str "scope") (new_enforcer_validator (pos 0) issuer audiences).m_claim_validators
unfolding new_enforcer_validator add_function str_eq str str_validator all_validator aud_validator
new_enforcer_validator-IsStillBut issuer audiences = (
  inr (λ me profile claim user h. h, tt),
  (
    inr (λ me profile claim user h. h, tt),
    (
      inr (λ me profile claim user h. h, tt),
      (inr (λ me profile claim user h. h, tt), (inl refl, tt)),
    ),
  ),
)

stays :
    (me : EnforcerState) (fs : List (ClaimValidatorFunction EnforcerState))
    → All IsStill fs
    → All (Stays (λ user. user ≡ me)) fs
stays me [] h = tt
stays me (f ∷ fs) h = (h.0 me, stays me fs h.1)

scope_not_stamp : is_timestamp (str "scope") ≡ false
unfolding str str_eq
scope_not_stamp = refl

module _ {W : Type 0} (issuer : Str) (audiences : List Str) (must : Bool) where
  -- The claim validators of an enforcer.
  abbrev pub HasOwn : Running W EnforcerState → Type 0
  HasOwn r =
      r.validator.m_claim_validators
      ≡ (new_enforcer_validator (pos 0) issuer audiences).m_claim_validators

  -- A claim that is not the scope.
  run_claim_other :
      (key : Str) (claim : Json) (r r' : Running W EnforcerState)
      → HasOwn r
      → str_eq key (str "scope") ≡ false
      → run_claim must key claim r ≡ (ok tt, r')
      → (r'.user ≡ r.user) × (r'.validator ≡ r.validator)
  run_claim_other key claim r r' own other h =
      let still = functions-IsStill (str "scope") key r.validator.m_claim_validators other (
        subst (IsStillBut (str "scope")) (sym own)
          (new_enforcer_validator-IsStillBut issuer audiences)) in
      let (checked, same, kept) =
        run_claim-ok (λ user. user ≡ r.user) must key claim r r' (stays r.user _ still) refl h in
      (kept, same)

  own_scope :
      (r : Running W EnforcerState)
      → HasOwn r
      → functions (str "scope") r.validator.m_claim_validators ≡ scope_validator ∷ []
  unfolding new_enforcer_validator add_function functions str_eq str
  own_scope r own = ap (functions (str "scope")) own

  -- Without a scope, the claims leave the enforcer's fields.
  run_claims-no_scope :
      (ms : Members) (r r' : Running W EnforcerState)
      → HasOwn r
      → find (str "scope") ms ≡ none
      → run_claims must (members ms) r ≡ (ok tt, r')
      → r'.user ≡ r.user
  unfolding find members run_claims
  run_claims-no_scope no_members r r' own no_scope h = ap (λ p. p.1.user) (sym h)
  run_claims-no_scope (member k v ms) r r' own no_scope h =
      elim (Bool-cases (str_eq k (str "scope"))) [
        | inl same ↦ absurd (some-ne-none (rw same at no_scope))
        | inr other ↦
            let (u, e, h₁) = >>=-eq-ok (run_claim must k v) _ r h in
            let next = (run_claim must k v r).1 in
            let (kept, same) = run_claim_other k v r next own other (λ i. (e i, next)) in
            run_claims-no_scope ms next r'
              (ap (λ (x : Validator EnforcerState). x.m_claim_validators) same ∙ own)
              (rw other at no_scope) h₁
            ∙ kept
      ]

  -- If the claims pass, in which no name stands twice, the enforcer's fields are what the scope
  -- validator leaves of them for the scope.
  pub run_claims-scope :
      (ms : Members) (r r' : Running W EnforcerState) {scope : Json}
      → HasOwn r
      → IsMap ms
      → find (str "scope") ms ≡ some scope
      → run_claims must (members ms) r ≡ (ok tt, r')
      → ((scope_validator r.validator.m_profile scope r.user).0 ≡ ok true)
        × (r'.user ≡ (scope_validator r.validator.m_profile scope r.user).1)
  unfolding find members run_claims
  run_claims-scope no_members r r' own is_map found h = absurd (none-ne-some found)
  run_claims-scope (member k v ms) r r' {scope} own is_map found h =
      let (u, e, h₁) = >>=-eq-ok (run_claim must k v) _ r h in
      let next = (run_claim must k v r).1 in
      let ran : run_claim must k v r ≡ (ok tt, next) = λ i. (e i, next) in
      elim (Bool-cases (str_eq k (str "scope"))) [
        | inl same ↦
            let named = (str_eq_iff k (str "scope")).0 same in
            let here : v ≡ scope = some-injective (rw same at found) in
            let (good, left, kept) =
              run_claim-one must k v scope_validator r next
                (ap is_timestamp named ∙ scope_not_stamp)
                (ap (λ name. functions name r.validator.m_claim_validators) named ∙ own_scope r own)
                ran in
            let rest =
              run_claims-no_scope ms next r'
                (ap (λ (x : Validator EnforcerState). x.m_claim_validators) kept ∙ own)
                (ap (λ name. find name ms) (sym named) ∙ is_map.0) h₁ in
            subst
              (λ claim.
                ((scope_validator r.validator.m_profile claim r.user).0 ≡ ok true)
                × (r'.user ≡ (scope_validator r.validator.m_profile claim r.user).1))
              here (good, rest ∙ left)
        | inr other ↦
            let (kept, same) = run_claim_other k v r next own other ran in
            let rest =
              run_claims-scope ms next r'
                (ap (λ (x : Validator EnforcerState). x.m_claim_validators) same ∙ own) is_map.1
                (rw other at found) h₁ in
            subst
              (λ (p : Profile × EnforcerState).
                ((scope_validator p.0 scope p.1).0 ≡ ok true)
                × (r'.user ≡ (scope_validator p.0 scope p.1).1))
              (λ i. ((same i).m_profile, kept i)) rest
      ]
