-- ===== src/SciToken/Maps.antt =====
-- Claims as a `std::map`, and `set_payload_claim` over a payload: where a claim ends up.
use scitokens_cpp.Prelude.{
  some-ne-none, true-ne-false, ◌≡◌, refl, ap, sym, ◌∙◌, false, none, some, arith, Str, str_eq,
  str_eq_iff, str_eq_refl, inl, inr, Bool-cases, Json, Members, no_members, member, find, put,
  find-put,
}
use scitokens_cpp.Token.{is_some, is_some-eq}
use scitokens_cpp.SciToken.{put_if_missing, set_payload_claims}

-- No key stands twice, as in a `std::map`.
abbrev pub IsMap : Members → Type 0
IsMap no_members = Unit {0}
IsMap (member key value rest) = (find key rest ≡ none) × IsMap rest

pub find-put_other :
    (key name : Str) (value : Json) (ms : Members)
    → str_eq key name ≡ false
    → find name (put key value ms) ≡ find name ms
find-put_other key name value ms e = rw (find-put key name value ms, e)

find-put_free :
    (key name : Str) (value : Json) (ms : Members)
    → str_eq name key ≡ false
    → find name ms ≡ none
    → find name (put key value ms) ≡ none
find-put_free key name value ms e free = elim (Bool-cases (str_eq key name)) [
  | inl same ↦ ground (arith, str_eq_iff key name, str_eq_iff name key)
  | inr other ↦ find-put_other key name value ms other ∙ free
]

pub put-IsMap : (key : Str) (value : Json) (ms : Members) → IsMap ms → IsMap (put key value ms)
unfolding put find
put-IsMap key value no_members h = (refl, tt)
put-IsMap key value (member k v rest) h = elim (Bool-cases (str_eq k key)) [
  | inl same ↦ rw same (rw (← (str_eq_iff k key).0 same) h.0, h.1)
  | inr other ↦ rw other (find-put_free key k value rest other h.0, put-IsMap key value rest h.1)
]

-- A key that is not among the claims keeps its value.
pub find-set_free :
    (key : Str) (ms payload : Members)
    → find key ms ≡ none
    → find key (set_payload_claims ms payload) ≡ find key payload
unfolding set_payload_claims find
find-set_free key no_members payload h = refl
find-set_free key (member k v rest) payload h = elim (Bool-cases (str_eq k key)) [
  | inl same ↦ absurd (some-ne-none (rw same at h))
  | inr other ↦
      find-set_free key rest (put k v payload) (rw other at h)
      ∙ unfold find in rw (find-put k key v payload, other)
]

-- A claim that is set has its value in the payload.
pub find-set :
    (key : Str) (ms payload : Members) {value : Json}
    → IsMap ms
    → find key ms ≡ some value
    → find key (set_payload_claims ms payload) ≡ some value
unfolding set_payload_claims find
find-set key no_members payload h found = absurd (some-ne-none (sym found))
find-set key (member k v rest) payload h found = elim (Bool-cases (str_eq k key)) [
  | inl same ↦
      find-set_free key rest (put k v payload) (rw (← (str_eq_iff k key).0 same) h.0)
      ∙ rw (find-put k key v payload, same) (rw same at found)
  | inr other ↦ find-set key rest (put k v payload) h.1 (rw other at found)
]

pub put_if_missing-IsMap :
    (key : Str) (value : Json) (ms : Members) → IsMap ms → IsMap (put_if_missing key value ms)
put_if_missing-IsMap key value ms h = elim (Bool-cases (is_some (find key ms))) [
  | inl there ↦ rw there h
  | inr missing ↦ rw missing (put-IsMap key value ms h)
]

pub find-put_if_missing_other :
    (key name : Str) (value : Json) (ms : Members)
    → str_eq key name ≡ false
    → find name (put_if_missing key value ms) ≡ find name ms
find-put_if_missing_other key name value ms e = elim (Bool-cases (is_some (find key ms))) [
  | inl there ↦ rw there
  | inr missing ↦ rw missing (find-put_other key name value ms e)
]

pub find-put_if_missing :
    (key : Str) (value : Json) (ms : Members)
    → (v : Json) × (find key (put_if_missing key value ms) ≡ some v)
find-put_if_missing key value ms = elim (Bool-cases (is_some (find key ms))) [
  | inl there ↦ rw there (is_some-eq (find key ms) there)
  | inr missing ↦ rw missing (value, rw (find-put key key value ms, str_eq_refl key))
]

pub put_if_missing_keeps :
    (key name : Str) (value : Json) (ms : Members) {v : Json}
    → find name ms ≡ some v
    → find name (put_if_missing key value ms) ≡ some v
put_if_missing_keeps key name value ms h = elim (Bool-cases (is_some (find key ms))) [
  | inl there ↦ rw there h
  | inr missing ↦ elim (Bool-cases (str_eq key name)) [
    | inl same ↦
        absurd
          (true-ne-false (sym (ap is_some (rw (← (str_eq_iff key name).0 same) at h)) ∙ missing))
    | inr other ↦ rw missing (find-put_other key name value ms other ∙ h)
  ]
]

pub put_keeps :
    (key name : Str) (value : Json) (ms : Members) {v : Json}
    → find key ms ≡ none
    → find name ms ≡ some v
    → find name (put key value ms) ≡ some v
put_keeps key name value ms free h = elim (Bool-cases (str_eq key name)) [
  | inl same ↦
      absurd
        (some-ne-none (sym h ∙ ap (λ k. find k ms) (sym ((str_eq_iff key name).0 same)) ∙ free))
  | inr other ↦ find-put_other key name value ms other ∙ h
]
