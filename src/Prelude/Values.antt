-- ===== src/Prelude/Values.antt =====
-- picojson's values (vendor/jwt-cpp/include/picojson/picojson.h) as the library reads them. An
-- object is a `std::map` in picojson; here it is a list of its members, looked up by key.
use Prim.Native.Nat.{ℕ}
use mathlib.Core.Path.{◌≡◌, refl}
use mathlib.Core.Bool.{Bool, true, false}
use mathlib.Core.Option.{Option, none, some}
use mathlib.Core.List.{List, [], ◌∷◌}
use native.Mathlib.Omega.{arith}
use scitokens_cpp.Prelude.Tests.{if◌then◌else◌}
use scitokens_cpp.Prelude.Text.{Str, str, str_eq, str_eq_iff}
use scitokens_cpp.Prelude.Int.{ℤ}
use scitokens_cpp.Prelude.Results.{Result, ok, throw, bad_cast, runtime, logic}

mutual
  pub data Json : Type 0 where
    null : Json
    boolean : Bool → Json
    -- the bits of a double
    number : ℕ → Json
    integer : ℤ → Json
    string : Str → Json
    array : Items → Json
    object : Members → Json

  pub data Items : Type 0 where
    no_items : Items
    item : Json → Items → Items

  pub data Members : Type 0 where
    no_members : Members
    member : Str → Json → Members → Members

unfoldable pub items : Items → List Json
items no_items = []
items (item v vs) = v ∷ items vs

unfoldable pub of_items : List Json → Items
of_items [] = no_items
of_items (v ∷ vs) = item v (of_items vs)

-- `object.find(key)`; `none` is `end()`
unfoldable pub find : Str → Members → Option Json
find key no_members = none
find key (member k v ms) = if str_eq k key then some v else find key ms

-- `object[key] = value`
unfoldable pub put : Str → Json → Members → Members
put key value no_members = member key value no_members
put key value (member k v ms) =
    if str_eq k key then member key value ms else member k v (put key value ms)

pub find-put :
    (k j : Str) (v : Json) (ms : Members)
    → find j (put k v ms) ≡ (if str_eq k j then some v else find j ms)
unfolding find put
find-put k j v no_members = refl
find-put k j v (member i w ms) =
    ground (arith, str_eq_iff k j, str_eq_iff i k, str_eq_iff i j, find-put k j v ms)

-- `iter == end() || !iter->second.is<std::string>()` and its like answer `none`.
unfoldable pub find_string : Str → Members → Option Str
find_string key ms = elim (find key ms) [ some (string s) ↦ some s | _ ↦ none ]

unfoldable pub find_integer : Str → Members → Option ℤ
find_integer key ms = elim (find key ms) [ some (integer n) ↦ some n | _ ↦ none ]

-- jwt-cpp's `claim.get_type()`, which throws on null.
pub data JsonType : Type 0 where
  boolean_type integer_type number_type string_type array_type object_type : JsonType

unfoldable pub get_type : Json → Result JsonType
get_type null = throw (logic (str "invalid type"))
get_type (boolean b) = ok boolean_type
get_type (integer n) = ok integer_type
get_type (number n) = ok number_type
get_type (string s) = ok string_type
get_type (array vs) = ok array_type
get_type (object ms) = ok object_type

abbrev pub is_string_type : JsonType → Bool
is_string_type string_type = true
is_string_type _ = false

-- jwt-cpp's `claim.as_string()`, `as_array()` and `as_int()`
unfoldable pub as_string : Json → Result Str
as_string (string s) = ok s
as_string _ = throw bad_cast

unfoldable pub as_array : Json → Result (List Json)
as_array (array vs) = ok (items vs)
as_array _ = throw bad_cast

unfoldable pub as_int : Json → Result ℤ
as_int (integer n) = ok n
as_int _ = throw bad_cast

-- picojson's message also quotes the type that was asked for.
type_mismatch : Str
type_mismatch = str "type mismatch! call is<type>() before get<type>()"

-- picojson's `value.get<T>()` on a value of another type
unfoldable pub get_string : Json → Result Str
unfolding type_mismatch
get_string (string s) = ok s
get_string _ = throw (runtime type_mismatch)

unfoldable pub get_object : Json → Result Members
unfolding type_mismatch
get_object (object ms) = ok ms
get_object _ = throw (runtime type_mismatch)
