-- ===== src/SciToken/Claims.antt =====
-- The claims of a token: what is set is read back, and what a serialization adds.
use scitokens_cpp.Prelude.{
  ◌≡◌, refl, ap, List, [], ◌∷◌, Str, str_eq_refl, ok, Json, string, array, items, of_items,
  find-put, as_string, as_array, get_string,
}
use scitokens_cpp.SciToken.{
  SciToken, set_claim, strings, set_claim_list, get_claim_string, get_entries, get_claim_list,
}

-- A string claim that was set is read back, and reading changes nothing.
pub get_claim_string-set_claim :
    (key value : Str) (t : SciToken)
    → get_claim_string key (set_claim key (string value) t)
      ≡ (ok value, set_claim key (string value) t)
unfolding get_claim_string set_claim as_string
get_claim_string-set_claim key value t =
    rw (find-put key key (string value) t.m_claims, str_eq_refl key)

items-of_items : (vs : List Json) → items (of_items vs) ≡ vs
unfolding items of_items
items-of_items [] = refl
items-of_items (v ∷ vs) = ap (λ l. v ∷ l) (items-of_items vs)

get_entries-strings : (ss : List Str) → get_entries (strings ss) ≡ ok ss
unfolding get_entries strings get_string
get_entries-strings [] = refl
get_entries-strings (s ∷ ss) = rw (get_entries-strings ss)

-- A list claim that was set is read back, and reading changes nothing.
pub get_claim_list-set_claim_list :
    (key : Str) (values : List Str) (t : SciToken)
    → get_claim_list key (set_claim_list key values t) ≡ (ok values, set_claim_list key values t)
unfolding get_claim_list set_claim_list as_array
get_claim_list-set_claim_list key values t = rw (
  find-put key key (array (of_items (strings values))) t.m_claims,
  str_eq_refl key,
  items-of_items (strings values),
  get_entries-strings values,
)
