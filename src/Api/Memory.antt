-- ===== src/Api/Memory.antt =====
-- The functions of src/scitokens.cpp that free what the library has allocated. A pointer of an array
-- is `none` if it is null, and reading past the end of an array is undefined.
use scitokens_cpp.Prelude.{
  ◌≡◌, refl, Bool, true, false, ◌&&◌, List, [], ◌∷◌, ◌++◌, Option, none, some, Str, Result, ok,
  undefined, ◌>>=◌, if◌then◌else◌,
}
use scitokens_cpp.Scope.{AclsList}

abbrev is_null {ℓ} : {A : Type ℓ} → Option A → Bool
is_null none = true
is_null (some a) = false

-- The arrays that the library hands out: the entries, then one of null pointers.
unfoldable pub string_array : List Str → List (Option Str)
string_array [] = none ∷ []
string_array (s ∷ ss) = some s ∷ string_array ss

unfoldable pub acl_array : AclsList → List (Option Str × Option Str)
acl_array [] = (none, none) ∷ []
acl_array ((authz, resource) ∷ acls) = (some authz, some resource) ∷ acl_array acls

-- What is freed of a pointer; `free` does nothing with null.
abbrev pub freed : Option Str → List Str
freed none = []
freed (some s) = s ∷ []

-- The strings that `scitoken_free_string_list` frees: the loop frees an entry before it tests the
-- next one.
unfoldable pub scitoken_free_string_list : List (Option Str) → Result (List Str)
scitoken_free_string_list [] = undefined
scitoken_free_string_list (entry ∷ []) = undefined
scitoken_free_string_list (entry ∷ next ∷ entries) =
    let others = scitoken_free_string_list (next ∷ entries) in
    if is_null next then ok (freed entry) else (do rest ← others; ok (freed entry ++ rest))

-- The strings that `enforcer_acl_free` frees: the loop goes on while both pointers are null.
unfoldable pub enforcer_acl_free : List (Option Str × Option Str) → Result (List Str)
enforcer_acl_free [] = undefined
enforcer_acl_free ((authz, resource) ∷ acls) =
    let others = enforcer_acl_free acls in
    if is_null authz && is_null resource
    then (do rest ← others; ok (freed authz ++ (freed resource ++ rest)))
    else ok []

-- A list of strings that is not empty is freed completely, each string once and in order, while
-- freeing an empty one reads past its end; and of a list of ACLs no string is freed, while freeing an
-- empty one reads past its end.
pub free-arrays :
    (strings : List Str) (first : Str) (acls : AclsList) (acl : Str × Str)
    → (scitoken_free_string_list (string_array (first ∷ strings)) ≡ ok (first ∷ strings))
      × (scitoken_free_string_list (string_array []) ≡ undefined)
      × (enforcer_acl_free (acl_array (acl ∷ acls)) ≡ ok [])
      × (enforcer_acl_free (acl_array []) ≡ undefined)
unfolding scitoken_free_string_list string_array enforcer_acl_free acl_array
free-arrays [] first acls acl = (refl, refl, refl, refl)
free-arrays (second ∷ strings) first acls acl =
    let (rest, e, f, g) = free-arrays strings second acls acl in (rw rest refl, e, f, g)
