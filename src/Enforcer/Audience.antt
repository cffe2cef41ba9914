-- ===== src/Enforcer/Audience.antt =====
-- Which audiences the enforcer accepts.
use scitokens_cpp.Prelude.{
  ◌≡◌, ◌≢◌, refl, Bool, true, false, ◌||◌, List, [], ◌∷◌, Str, str_eq, ok, any, if◌then◌else◌, Json,
  arith, ok-injective, >>=-eq-ok, sym, ap, ◌∙◌,
}
use scitokens_cpp.Profile.{Profile, compat}
use scitokens_cpp.Scope.{EnforcerState, get_profile}
use scitokens_cpp.Enforcer.{claim_audiences, is_wildcard, match_audience, aud_validator}

-- An audience of a token that the enforcer accepts.
abbrev pub permits : Profile → List Str → Str → Bool
permits profile audiences aud = is_wildcard profile aud || any (λ a. str_eq a aud) audiences

get_profile-set : (p : Profile) → p ≢ compat → get_profile p ≡ ok p
unfolding get_profile
get_profile-set p set = ground arith

if_|| : (b c : Bool) → (if b then ok true else ok c) ≡ ok (b || c)
if_|| true c = refl
if_|| false c = refl

match_audience-any :
    (profile : Profile) (audiences auds : List Str)
    → profile ≢ compat
    → match_audience profile audiences auds ≡ ok (any (permits profile audiences) auds)
unfolding match_audience
match_audience-any profile audiences [] set = refl
match_audience-any profile audiences (aud ∷ rest) set =
    rw (get_profile-set profile set, match_audience-any profile audiences rest set)
      (if_|| (permits profile audiences aud) _)

-- Once a profile is chosen, the audience claim is accepted exactly if one of its audiences is one of
-- the enforcer's or the wildcard of the profile; the enforcer is unchanged.
pub aud_validator-permits :
    (profile : Profile) (claim : Json) (me : EnforcerState) {auds : List Str}
    → profile ≢ compat
    → claim_audiences claim ≡ ok auds
    → aud_validator profile claim me ≡ (ok (any (permits profile me.m_audiences) auds), me)
unfolding aud_validator
aud_validator-permits profile claim me {auds} set e =
    rw e (λ i. (match_audience-any profile me.m_audiences auds set i, me))

match_audience-permits :
    (profile : Profile) (audiences auds : List Str)
    → match_audience profile audiences auds ≡ ok true
    → any (permits profile audiences) auds ≡ true
match_audience-permits compat audiences [] h = unfold match_audience in cc
match_audience-permits compat audiences (aud ∷ rest) h = unfold match_audience get_profile in cc
match_audience-permits profile audiences auds h =
    ok-injective (sym (match_audience-any profile audiences auds (λ e. ground arith)) ∙ h)

-- If the audience claim is accepted, one of its audiences is the wildcard of the profile or one of
-- the enforcer's.
pub aud_validator-ok :
    (profile : Profile) (claim : Json) (me : EnforcerState) {out : EnforcerState}
    → aud_validator profile claim me ≡ (ok true, out)
    → (auds : List Str) × (claim_audiences claim ≡ ok auds)
      × (any (permits profile me.m_audiences) auds ≡ true)
unfolding aud_validator
aud_validator-ok profile claim me h =
    let (auds, e, matched) = >>=-eq-ok (claim_audiences claim) _ (ap (λ p. p.0) h) in
    (auds, e, match_audience-permits profile me.m_audiences auds matched)
