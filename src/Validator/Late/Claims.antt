-- ===== src/Validator/Late/Claims.antt =====
-- What the validation of the claims establishes.
use mathlib.Core.Path.{subst}
use scitokens_cpp.Prelude.{
  ◌≡◌, refl, ap, sym, ◌∙◌, ◌⊎◌, inl, inr, Bool, true, false, not, List, [], ◌∷◌, ◌++◌, none, some,
  arith, Str, str, ok, as_string, get_type, is_string_type, Bool-cases, Json, string, All,
  ok-ne-throw, str_eq,
}
use scitokens_cpp.Exec.{Exec, lift, ◌>>◌, >>=-eq-ok, >>-keeps}
use scitokens_cpp.Profile.{Profile}
use scitokens_cpp.Validator.{
  Validator, Verdict, accepted, rejected, StringValidatorFunction, ClaimValidatorFunction,
  functions, ValidatorMap,
}
use scitokens_cpp.Validator.Late.{
  Running, check, verdict_error, is_timestamp, is_unverified, run_string_validators, call_validator,
  run_claim_validators, run_claim, run_claims,
}

-- A string validator accepted the claim, which is a string.
abbrev pub AcceptsString : Json → StringValidatorFunction → Type 0
AcceptsString claim f = (value : Str) × (claim ≡ string value) × (f value ≡ accepted)

-- A claim validator answered true in some state behind its pointer, of which `Q` held.
abbrev pub AcceptsClaim :
    {S : Type 0} → (S → Type 0) → Profile → Json → ClaimValidatorFunction S → Type 0
AcceptsClaim {S} Q profile claim f =
    (user next : S) × Q user × (f profile claim user ≡ (ok true, next))

-- A claim validator leaves `Q` true of the state behind its pointer.
abbrev pub Stays : {S : Type 0} → (S → Type 0) → ClaimValidatorFunction S → Type 0
Stays {S} Q f = (profile : Profile) (claim : Json) (user : S) → Q user → Q (f profile claim user).1

-- A property of every function that is registered.
abbrev pub AllFunctions : {F : Type 0} → (F → Type 0) → ValidatorMap F → Type 0
AllFunctions P m = All (λ entry. All P entry.1) m

pub functions-All :
    {F : Type 0} (P : F → Type 0) (key : Str) (m : ValidatorMap F)
    → AllFunctions P m
    → All P (functions key m)
unfolding functions
functions-All P key [] h = tt
functions-All P key ((k, fs) ∷ rest) h = elim (Bool-cases (str_eq k key)) [
  | inl same ↦ rw same h.0
  | inr other ↦ rw other (functions-All P key rest h.1)
]

abbrev pub IsVerified : {S : Type 0} → (S → Type 0) → Validator S → Str → Json → Type 0
IsVerified Q v key claim =
    All (AcceptsString claim) (functions key v.m_validators)
    × All (AcceptsClaim Q v.m_profile claim) (functions key v.m_claim_validators)

-- What holds of a claim that passed: it is one of the time stamps that the signature check has
-- covered and "ver", or it is not a claim that had to have validators and has none, and all of its
-- validators accepted it.
abbrev pub IsChecked : {S : Type 0} → (S → Type 0) → Bool → Validator S → Str × Json → Type 0
IsChecked Q must v (key, claim) =
    (is_timestamp key ≡ true) ⊎ ((is_unverified must key v ≡ false) × IsVerified Q v key claim)

not-true : {b : Bool} → not b ≡ true → b ≡ false
not-true {b} h = ground arith

string-of : (claim : Json) {s : Str} → as_string claim ≡ ok s → claim ≡ string s
unfolding as_string
string-of (string t) h = ground arith
string-of _ h = ground arith

module _ {W S : Type 0} where
  check-ok :
      (test : Bool) (msg : Str) (r : Running W S) {u : Unit {0}}
      → (check test msg r).0 ≡ ok u
      → (test ≡ true) × (check test msg r ≡ (ok tt, r))
  check-ok true msg r h = (refl, refl)
  check-ok false msg r h = absurd (ok-ne-throw (sym h))

  verdict-ok :
      (key : Str) (answer : Verdict) (r : Running W S) {u : Unit {0}}
      → (verdict_error key answer r).0 ≡ ok u
      → (answer ≡ accepted) × (verdict_error key answer r ≡ (ok tt, r))
  verdict-ok key accepted r h = (refl, refl)
  verdict-ok key (rejected none) r h = absurd (ok-ne-throw (sym h))
  verdict-ok key (rejected (some msg)) r h = absurd (ok-ne-throw (sym h))

  run_string_validators-ok :
      (key : Str) (claim : Json) (fs : List StringValidatorFunction) (r r' : Running W S)
      → run_string_validators key claim fs r ≡ (ok tt, r')
      → All (AcceptsString claim) fs × (r' ≡ r)
  unfolding run_string_validators
  run_string_validators-ok key claim [] r r' h = (tt, ap (λ p. p.1) (sym h))
  run_string_validators-ok key claim (f ∷ fs) r r' h =
      let (t, e₁, h₁) = >>=-eq-ok (lift (get_type claim)) _ r h in
      let (_, e₂, h₂) = >>=-eq-ok (check (is_string_type t) _) _ r h₁ in
      let kept₂ = (check-ok (is_string_type t) _ r e₂).1 in
      let h₂' = rw kept₂ at h₂ in
      let (value, e₃, h₃) = >>=-eq-ok (lift (as_string claim)) _ r h₂' in
      let (_, e₄, h₄) = >>=-eq-ok (verdict_error key (f value)) _ r h₃ in
      let (good, kept₄) = verdict-ok key (f value) r e₄ in
      let (rest, same) = run_string_validators-ok key claim fs r r' (rw kept₄ at h₄) in
      (((value, string-of claim e₃, good), rest), same)

  string_validators-keep :
      (key : Str) (claim : Json) (fs : List StringValidatorFunction) (r : Running W S)
      (u : Unit {0})
      → (run_string_validators key claim fs r).0 ≡ ok u
      → All (AcceptsString claim) fs × (run_string_validators key claim fs r ≡ (ok tt, r))
  string_validators-keep key claim fs r u h =
      let (all, same) =
        run_string_validators-ok key claim fs r (run_string_validators key claim fs r).1
          (λ i. (h i, (run_string_validators key claim fs r).1)) in
      (all, λ i. (h i, same i))

module _ {W S : Type 0} where
  -- The checks of a claim that is no time stamp.
  abbrev checked_claim : Bool → Str → Json → Exec (Running W S) (Unit {0})
  checked_claim must key claim r =
      (check (not (is_unverified must key r.validator))
            (str "'" ++ key ++ str "' claim verification is mandatory")
          >> (run_string_validators key claim (functions key r.validator.m_validators)
              >> run_claim_validators key claim (functions key r.validator.m_claim_validators)))
        r

  checked_claim-ok :
      (must : Bool) (key : Str) (claim : Json) (r r' : Running W S)
      → checked_claim must key claim r ≡ (ok tt, r')
      → (is_unverified must key r.validator ≡ false)
        × All (AcceptsString claim) (functions key r.validator.m_validators)
        × (run_claim_validators key claim (functions key r.validator.m_claim_validators) r
            ≡ (ok tt, r'))
  checked_claim-ok must key claim r r' h =
      let fs = functions key r.validator.m_validators in
      let gs = functions key r.validator.m_claim_validators in
      let msg = str "'" ++ key ++ str "' claim verification is mandatory" in
      let test = not (is_unverified must key r.validator) in
      let (known, h₁) =
        >>-keeps (check test msg)
          (run_string_validators key claim fs >> run_claim_validators key claim gs) r
          (λ u e. check-ok test msg r e) h in
      let (strings, h₂) =
        >>-keeps (run_string_validators key claim fs) (run_claim_validators key claim gs) r
          (string_validators-keep key claim fs r) h₁ in
      (not-true known, strings, h₂)

  -- A claim with one claim validator: it answered true, and what it left stands behind the claim.
  pub run_claim-one :
      (must : Bool) (key : Str) (claim : Json) (f : ClaimValidatorFunction S) (r r' : Running W S)
      → is_timestamp key ≡ false
      → functions key r.validator.m_claim_validators ≡ f ∷ []
      → run_claim must key claim r ≡ (ok tt, r')
      → ((f r.validator.m_profile claim r.user).0 ≡ ok true)
        × (r'.user ≡ (f r.validator.m_profile claim r.user).1)
        × (r'.validator ≡ r.validator)
  unfolding run_claim run_claim_validators
  run_claim-one must key claim f r r' other only h =
      let (known, strings, h₁) = checked_claim-ok must key claim r r' (rw other at h) in
      let h₂ : run_claim_validators key claim (f ∷ []) r ≡ (ok tt, r') =
        sym (ap (λ fs. run_claim_validators key claim fs r) only) ∙ h₁ in
      let (answer, e₁, h₃) = >>=-eq-ok (call_validator f claim) _ r h₂ in
      let next : Running W S = record r { user = (f r.validator.m_profile claim r.user).1 } in
      let (_, e₂, h₄) = >>=-eq-ok (check answer _) _ next h₃ in
      let (good, kept) = check-ok answer _ next e₂ in
      let ends = rw kept at h₄ in
      (e₁ ∙ ap ok good, ap (λ p. p.1.user) (sym ends), ap (λ p. p.1.validator) (sym ends))

module _ {W S : Type 0} (Q : S → Type 0) where
  run_claim_validators-ok :
      (key : Str) (claim : Json) (fs : List (ClaimValidatorFunction S)) (r r' : Running W S)
      → All (Stays Q) fs
      → Q r.user
      → run_claim_validators key claim fs r ≡ (ok tt, r')
      → All (AcceptsClaim Q r.validator.m_profile claim) fs
        × (r'.validator ≡ r.validator)
        × Q r'.user
  unfolding run_claim_validators
  run_claim_validators-ok key claim [] r r' stays q h = (
    tt,
    ap (λ p. p.1.validator) (sym h),
    subst (λ (t : Running W S). Q t.user) (ap (λ p. p.1) h) q,
  )
  run_claim_validators-ok key claim (f ∷ fs) r r' stays q h =
      let (answer, e₁, h₁) = >>=-eq-ok (call_validator f claim) _ r h in
      let next : Running W S = record r { user = (f r.validator.m_profile claim r.user).1 } in
      let (_, e₂, h₂) = >>=-eq-ok (check answer _) _ next h₁ in
      let (good, kept) = check-ok answer _ next e₂ in
      let (rest, same, q') =
        run_claim_validators-ok key claim fs next r' stays.1
          (stays.0 r.validator.m_profile claim r.user q) (rw kept at h₂) in
      (((r.user, next.user, q, λ i. ((e₁ ∙ ap ok good) i, next.user)), rest), same, q')

  run_checked :
      (must : Bool) (key : Str) (claim : Json) (r r' : Running W S)
      → All (Stays Q) (functions key r.validator.m_claim_validators)
      → Q r.user
      → checked_claim must key claim r ≡ (ok tt, r')
      → (is_unverified must key r.validator ≡ false)
        × IsVerified Q r.validator key claim
        × (r'.validator ≡ r.validator)
        × Q r'.user
  run_checked must key claim r r' stays q h =
      let (known, strings, h₂) = checked_claim-ok must key claim r r' h in
      let (claims, same, q') =
        run_claim_validators-ok key claim (functions key r.validator.m_claim_validators) r r' stays
          q h₂ in
      (known, (strings, claims), same, q')

  pub run_claim-ok :
      (must : Bool) (key : Str) (claim : Json) (r r' : Running W S)
      → All (Stays Q) (functions key r.validator.m_claim_validators)
      → Q r.user
      → run_claim must key claim r ≡ (ok tt, r')
      → IsChecked Q must r.validator (key, claim) × (r'.validator ≡ r.validator) × Q r'.user
  unfolding run_claim
  run_claim-ok must key claim r r' stays q h = elim (Bool-cases (is_timestamp key)) [
    | inl stamp ↦
        let same = rw stamp at h in
        (
          inl stamp,
          ap (λ p. p.1.validator) (sym same),
          subst (λ (t : Running W S). Q t.user) (ap (λ p. p.1) same) q,
        )
    | inr other ↦
        let (known, verified, same, q') = run_checked must key claim r r' stays q (rw other at h) in
        (inr (known, verified), same, q')
  ]

  -- If the validation of the claims succeeds, every claim passed, and the validator is unchanged;
  -- what holds of the state behind the claim validators before, and stays true in their calls, held
  -- in each call and holds at the end.
  pub run_claims-IsChecked :
      (must : Bool) (claims : List (Str × Json)) (r r' : Running W S)
      → AllFunctions (Stays Q) r.validator.m_claim_validators
      → Q r.user
      → run_claims must claims r ≡ (ok tt, r')
      → All (IsChecked Q must r.validator) claims × (r'.validator ≡ r.validator) × Q r'.user
  unfolding run_claims
  run_claims-IsChecked must [] r r' stays q h = (
    tt,
    ap (λ p. p.1.validator) (sym h),
    subst (λ (t : Running W S). Q t.user) (ap (λ p. p.1) h) q,
  )
  run_claims-IsChecked must ((key, claim) ∷ rest) r r' stays q h =
      let (u, e, h₁) = >>=-eq-ok (run_claim must key claim) _ r h in
      let next = (run_claim must key claim r).1 in
      let (first, kept, q₁) =
        run_claim-ok must key claim r next
          (functions-All (Stays Q) key r.validator.m_claim_validators stays) q (λ i. (e i, next)) in
      let (others, same, q₂) = run_claims-IsChecked must rest next r' (rw kept stays) q₁ h₁ in
      ((first, rw kept at others), same ∙ kept, q₂)

each : {S : Type 0} (fs : List (ClaimValidatorFunction S)) → All (Stays (λ (user : S). Unit {0})) fs
each [] = tt
each (f ∷ fs) = (λ profile claim user h. tt, each fs)

-- Nothing is asked of the state behind the pointers.
pub Stays-Unit :
    {S : Type 0} (m : ValidatorMap (ClaimValidatorFunction S))
    → AllFunctions (Stays (λ (user : S). Unit {0})) m
Stays-Unit [] = tt
Stays-Unit ((key, fs) ∷ rest) = (each fs, Stays-Unit rest)
