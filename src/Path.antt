-- ===== src/Path.antt =====
-- `normalize_absolute_path` of src/scitokens_internal.cpp.
pub mod Normal
use scitokens_cpp.Prelude.{
  ◌≡◌, refl, ◌||◌, List, [], ◌∷◌, ◌++◌, reverse, Str, str, str_eq, Result, ok, undefined, is_empty,
  if◌then◌else◌, ◌>>=◌,
}
use scitokens_cpp.Split.{split, join}

-- `path_components_filtered.pop_back()`; the vector has its back at the head of the list.
unfoldable pub pop_back : List Str → Result (List Str)
pop_back [] = undefined
pop_back (top ∷ rest) = ok rest

-- One round of the loop that fills `path_components_filtered`.
unfoldable pub filter_component : List Str → Str → Result (List Str)
unfolding pop_back
filter_component stack component =
    if str_eq component (str "..")
    then pop_back stack
    else if is_empty component || str_eq component (str ".")
    then ok stack
    else ok (component ∷ stack)

unfoldable pub filter_components : List Str → List Str → Result (List Str)
filter_components stack [] = ok (reverse stack)
filter_components stack (c ∷ cs) = do stack' ← filter_component stack c; filter_components stack' cs

-- The `stringstream`, and `result.empty() ? "/" : result`.
unfoldable pub render : List Str → Str
render [] = str "/"
render (c ∷ cs) = join b'/' (c ∷ cs)

unfoldable pub normalize_absolute_path : Str → Result Str
normalize_absolute_path path =
    if str_eq path (str "//") || str_eq path (str "/") || str_eq path []
    then ok (str "/")
    else do components ← filter_components [] (split b'/' path); ok (render components)
