-- ===== src/Api/Tokens/Strings.antt =====
-- What the functions of the C interface set and read.
use scitokens_cpp.Prelude.{◌≡◌, refl, List, [], ◌∷◌, map, some, Str, Free, until_end, All}
use scitokens_cpp.SciToken.{SciToken}
use scitokens_cpp.SciToken.Claims.{get_claim_string-set_claim, get_claim_list-set_claim_list}
use scitokens_cpp.Api.{success, c_str}
use scitokens_cpp.Api.Tokens.{
  scitoken_set_claim_string, scitoken_get_claim_string, scitoken_set_claim_string_list,
  scitoken_get_claim_string_list,
}

-- A C string that is set as a claim of a token is read back, and reading changes nothing.
pub scitoken_get_claim_string-scitoken_set_claim_string :
    (key value : Str) (t : SciToken)
    → Free 0 value
    → scitoken_get_claim_string key (scitoken_set_claim_string (some key) (some value) (some t)).1
      ≡ (success value, (scitoken_set_claim_string (some key) (some value) (some t)).1)
unfolding scitoken_get_claim_string scitoken_set_claim_string
scitoken_get_claim_string-scitoken_set_claim_string key value t h =
    rw (get_claim_string-set_claim key value t, until_end 0 value h)

map-c_str : (ss : List Str) → All (Free 0) ss → map c_str ss ≡ ss
map-c_str [] h = refl
map-c_str (s ∷ ss) h = rw (until_end 0 s h.0, map-c_str ss h.1)

-- A list of C strings that is set as a claim of a token is read back in its order, and reading
-- changes nothing.
pub scitoken_get_claim_string_list-scitoken_set_claim_string_list :
    (key : Str) (values : List Str) (t : SciToken)
    → All (Free 0) values
    → scitoken_get_claim_string_list key (scitoken_set_claim_string_list key values (some t)).1
      ≡ (success values, (scitoken_set_claim_string_list key values (some t)).1)
unfolding scitoken_get_claim_string_list scitoken_set_claim_string_list
scitoken_get_claim_string_list-scitoken_set_claim_string_list key values t h =
    rw (get_claim_list-set_claim_list key values t, map-c_str values h)
