-- ===== src/SciToken/Profiles.antt =====
-- The claims that a serialization adds for a profile.
use scitokens_cpp.Prelude.{
  ◌≡◌, refl, ◌∙◌, false, none, some, Str, str, str_eq, Json, string, Members, find, put, find-put,
}
use scitokens_cpp.Profile.{Profile, compat, scitokens_1_0, scitokens_2_0, wlcg_1_0, at_jwt}
use scitokens_cpp.SciToken.{profile_claims}
use scitokens_cpp.SciToken.Maps.{
  IsMap, find-put_other, put-IsMap, put_if_missing-IsMap, find-put_if_missing_other,
  find-put_if_missing, put_if_missing_keeps, put_keeps,
}

pub profile_claims-IsMap :
    (profile : Profile) (ms : Members) → IsMap ms → IsMap (profile_claims profile ms)
unfolding profile_claims
profile_claims-IsMap scitokens_2_0 ms h =
    put_if_missing-IsMap (str "aud") (string (str "ANY")) _
      (put-IsMap (str "ver") (string (str "scitoken:2.0")) ms h)
profile_claims-IsMap wlcg_1_0 ms h =
    put_if_missing-IsMap (str "aud") (string (str "https://wlcg.cern.ch/jwt/v1/any")) _
      (put-IsMap (str "wlcg.ver") (string (str "1.0")) ms h)
profile_claims-IsMap compat ms h = h
profile_claims-IsMap scitokens_1_0 ms h = h
profile_claims-IsMap at_jwt ms h = h

-- A claim that no profile sets is left alone.
pub find-profile_claims :
    (profile : Profile) (name : Str) (ms : Members)
    → str_eq (str "aud") name ≡ false
    → str_eq (str "ver") name ≡ false
    → str_eq (str "wlcg.ver") name ≡ false
    → find name (profile_claims profile ms) ≡ find name ms
unfolding profile_claims
find-profile_claims scitokens_2_0 name ms a v g =
    find-put_if_missing_other (str "aud") name (string (str "ANY"))
      (put (str "ver") (string (str "scitoken:2.0")) ms) a
    ∙ find-put_other (str "ver") name (string (str "scitoken:2.0")) ms v
find-profile_claims wlcg_1_0 name ms a v g =
    find-put_if_missing_other (str "aud") name (string (str "https://wlcg.cern.ch/jwt/v1/any"))
      (put (str "wlcg.ver") (string (str "1.0")) ms) a
    ∙ find-put_other (str "wlcg.ver") name (string (str "1.0")) ms g
find-profile_claims compat name ms a v g = refl
find-profile_claims scitokens_1_0 name ms a v g = refl
find-profile_claims at_jwt name ms a v g = refl

-- What the claims of a profile say of its version.
abbrev pub Versioned : Profile → Members → Type 0
Versioned scitokens_2_0 ms =
    (find (str "ver") ms ≡ some (string (str "scitoken:2.0")))
    × ((v : Json) × (find (str "aud") ms ≡ some v))
Versioned wlcg_1_0 ms =
    (find (str "ver") ms ≡ none)
    × (find (str "wlcg.ver") ms ≡ some (string (str "1.0")))
    × ((v : Json) × (find (str "aud") ms ≡ some v))
Versioned profile ms = (find (str "ver") ms ≡ none) × (find (str "wlcg.ver") ms ≡ none)

pub profile_claims-Versioned :
    (profile : Profile) (ms : Members)
    → find (str "ver") ms ≡ none
    → find (str "wlcg.ver") ms ≡ none
    → Versioned profile (profile_claims profile ms)
unfolding profile_claims str str_eq
profile_claims-Versioned scitokens_2_0 ms v g = (
  find-put_if_missing_other (str "aud") (str "ver") (string (str "ANY"))
        (put (str "ver") (string (str "scitoken:2.0")) ms) refl
      ∙ rw (find-put (str "ver") (str "ver") (string (str "scitoken:2.0")) ms),
  find-put_if_missing (str "aud") (string (str "ANY"))
      (put (str "ver") (string (str "scitoken:2.0")) ms),
)
profile_claims-Versioned wlcg_1_0 ms v g = (
  find-put_if_missing_other (str "aud") (str "ver") (string (str "https://wlcg.cern.ch/jwt/v1/any"))
        (put (str "wlcg.ver") (string (str "1.0")) ms) refl
      ∙ find-put_other (str "wlcg.ver") (str "ver") (string (str "1.0")) ms refl
      ∙ v,
  find-put_if_missing_other (str "aud") (str "wlcg.ver")
        (string (str "https://wlcg.cern.ch/jwt/v1/any"))
        (put (str "wlcg.ver") (string (str "1.0")) ms) refl
      ∙ rw (find-put (str "wlcg.ver") (str "wlcg.ver") (string (str "1.0")) ms),
  find-put_if_missing (str "aud") (string (str "https://wlcg.cern.ch/jwt/v1/any"))
      (put (str "wlcg.ver") (string (str "1.0")) ms),
)
profile_claims-Versioned compat ms v g = (v, g)
profile_claims-Versioned scitokens_1_0 ms v g = (v, g)
profile_claims-Versioned at_jwt ms v g = (v, g)

-- A serialization keeps the claims that are there, if none of them is a version.
pub profile_claims_keeps :
    (profile : Profile) (name : Str) (ms : Members) {v : Json}
    → find (str "ver") ms ≡ none
    → find (str "wlcg.ver") ms ≡ none
    → find name ms ≡ some v
    → find name (profile_claims profile ms) ≡ some v
unfolding profile_claims
profile_claims_keeps scitokens_2_0 name ms ver wlcg h =
    put_if_missing_keeps (str "aud") name (string (str "ANY")) _
      (put_keeps (str "ver") name (string (str "scitoken:2.0")) ms ver h)
profile_claims_keeps wlcg_1_0 name ms ver wlcg h =
    put_if_missing_keeps (str "aud") name (string (str "https://wlcg.cern.ch/jwt/v1/any")) _
      (put_keeps (str "wlcg.ver") name (string (str "1.0")) ms wlcg h)
profile_claims_keeps compat name ms ver wlcg h = h
profile_claims_keeps scitokens_1_0 name ms ver wlcg h = h
profile_claims_keeps at_jwt name ms ver wlcg h = h
