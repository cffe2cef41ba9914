-- ===== src/Keys/Chosen.antt =====
-- Which key of an issuer's key set is chosen, and for which algorithm.
use mathlib.Core.List.{Memᴰ}
use scitokens_cpp.Prelude.{
  ℕ, ◌≢◌, null, ◌≡◌, refl, sym, ap, ◌⊎◌, inl, inr, List, [], ◌∷◌, Option, none, some, arith, Str,
  str, str_eq_iff, ok, ok-injective, >>=-eq-ok, Option-cases, Json, object, Members, find_string,
  get_object,
}
use scitokens_cpp.Keys.{
  kid_is, has_kid, find_kid, find_key_id, keys_of, only_key, key_algorithm, PublicKey, Coords,
  key_pem, supported_key, public_key,
}

kid_is-eq-some :
    (kid : Str) (key : Members) (o : Option Str) {found : Members}
    → kid_is kid key o ≡ some found
    → (key ≡ found) × (o ≡ some kid)
kid_is-eq-some kid key none h = cc
kid_is-eq-some kid key (some cur) h = ground (arith, str_eq_iff cur kid)

has_kid-eq-some :
    (kid : Str) (key : Json) {found : Members}
    → has_kid kid key ≡ some found
    → (key ≡ object found) × (find_string (str "kid") found ≡ some kid)
unfolding has_kid
has_kid-eq-some kid (object key) h =
    let (same, kids) = kid_is-eq-some kid key (find_string (str "kid") key) h in
    (ap object same, rw (← same) kids)
has_kid-eq-some kid null h = cc
has_kid-eq-some kid _ h = cc

-- The key stands in the array, and bears the key ID that was asked for.
abbrev pub HasKid : Str → List Json → Members → Type 0
HasKid kid keys key = Memᴰ (object key) keys × (find_string (str "kid") key ≡ some kid)

find_kid-HasKid :
    (kid : Str) (keys : List Json) {key : Members}
    → find_kid kid keys ≡ ok key
    → HasKid kid keys key
unfolding find_kid
find_kid-HasKid kid [] h = cc
find_kid-HasKid kid (first ∷ keys) {key} h = elim (Option-cases (has_kid kid first)) [
  | inl other ↦ let (mem, same) = find_kid-HasKid kid keys (rw other at h) in (Memᴰ.tail mem, same)
  | inr (found, here) ↦
      let (same, kids) = has_kid-eq-some kid first here in
      let this : found ≡ key = ok-injective (rw here at h) in
      (Memᴰ.head (rw (← this) (sym same)), rw (← this) kids)
]

only_key-eq-ok :
    (keys : List Json) {key : Members} → only_key keys ≡ ok key → keys ≡ object key ∷ []
unfolding get_object
only_key-eq-ok (object k ∷ []) h = cc
only_key-eq-ok (first ∷ []) h = cc
only_key-eq-ok [] h = cc
only_key-eq-ok (first ∷ second ∷ keys) h = cc

cons≢nil : (c : ℕ) (s : Str) → c ∷ s ≢ []
cons≢nil c s h = cc

-- What a chosen key satisfies: the key set is an object whose "keys" is an array; with a key ID the
-- key is in the array and bears that ID, and without one it is the only key of the array.
pub record IsChosen (keys : Json) (kid : Str) (key : Members) : Type 0 where
  pub published : List Json
  pub key_set : keys_of keys ≡ ok published
  pub choice :
      ((kid ≡ []) × (published ≡ object key ∷ [])) ⊎ ((kid ≢ []) × HasKid kid published key)

-- A key that is found stands in the "keys" array of the key set: with a key ID it bears that ID,
-- and without one it is the only key.
pub find_key_id-IsChosen :
    (keys : Json) (kid : Str) {key : Members}
    → find_key_id keys kid ≡ ok key
    → IsChosen keys kid key
unfolding find_key_id
find_key_id-IsChosen keys [] h =
    let (published, e, chosen) = >>=-eq-ok (keys_of keys) _ h in
    record {
      published = published;
      key_set = e;
      choice = inl (refl, only_key-eq-ok published chosen);
    }
find_key_id-IsChosen keys (c ∷ kid) h =
    let (published, e, chosen) = >>=-eq-ok (keys_of keys) _ h in
    record {
      published = published;
      key_set = e;
      choice = inr (cons≢nil c kid, find_kid-HasKid (c ∷ kid) published chosen);
    }

supported_key-eq-ok :
    (coords : Coords) (alg : Str) (key : Members) {p : PublicKey}
    → supported_key coords alg key ≡ ok p
    → (alg ≡ p.algorithm)
      × (key_pem coords alg key ≡ ok p.public_pem)
      × ((p.algorithm ≡ str "RS256") ⊎ (p.algorithm ≡ str "ES256"))
unfolding supported_key
supported_key-eq-ok coords alg key h =
    ground (arith, str_eq_iff alg (str "RS256"), str_eq_iff alg (str "ES256"))

module _ (coords : Coords) (keys : Json) (kid : Str) where
  -- A public key that is returned comes from the key chosen for the key ID, its PEM text from that
  -- key's coordinates, and its algorithm is RS256 or ES256 and the one of the key.
  pub public_key-IsChosen :
      {p : PublicKey}
      → public_key coords keys kid ≡ ok p
      → (key : Members) × IsChosen keys kid key
        × (key_algorithm key ≡ ok p.algorithm)
        × (key_pem coords p.algorithm key ≡ ok p.public_pem)
        × ((p.algorithm ≡ str "RS256") ⊎ (p.algorithm ≡ str "ES256"))
  unfolding public_key
  public_key-IsChosen {p} h =
      let (key, found, h₁) = >>=-eq-ok (find_key_id keys kid) _ h in
      let (alg, e, h₂) = >>=-eq-ok (key_algorithm key) _ h₁ in
      let (same, pem, supported) = supported_key-eq-ok coords alg key h₂ in
      (key, find_key_id-IsChosen keys kid found, rw (← same) e, rw (← same) pem, supported)
