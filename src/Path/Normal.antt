-- ===== src/Path/Normal.antt =====
-- What `normalize_absolute_path` returns: "/" or components that each follow a slash, none of them
-- empty, "." or "..".
use mathlib.Core.List.{reverse-cons, append_assoc, append-nil, reverse_aux}
use scitokens_cpp.Prelude.{
  ◌≡◌, refl, sym, ap, ◌∙◌, ◌≢◌, inl, inr, ◌||◌, List, [], ◌∷◌, ◌++◌, reverse, arith, Str, str,
  str_eq, str_eq_iff, Free, false, Bool-cases, ok, All, >>=-eq-ok, ok-injective,
}
use scitokens_cpp.Split.{split, join, split-Free, split-join, IsToken}
use scitokens_cpp.Path.{filter_component, filter_components, render, normalize_absolute_path}

-- A component that stays in a normalized path.
abbrev pub IsPlain : Str → Type 0
IsPlain c = IsToken b'/' c × (c ≢ str ".") × (c ≢ str "..")

abbrev pub IsNormal : Str → Type 0
IsNormal path = (components : List Str) × All IsPlain components × (path ≡ render components)

filter_component-IsPlain :
    (stack : List Str) (c : Str) {next : List Str}
    → All IsPlain stack
    → Free b'/' c
    → filter_component stack c ≡ ok next
    → All IsPlain next
unfolding filter_component
filter_component-IsPlain [] [] h k e =
    ground (arith, str_eq_iff [] (str ".."), str_eq_iff [] (str "."))
filter_component-IsPlain (top ∷ rest) [] h k e =
    ground (arith, str_eq_iff [] (str ".."), str_eq_iff [] (str "."))
filter_component-IsPlain [] (b ∷ c) h k e =
    ground (arith, str_eq_iff (b ∷ c) (str ".."), str_eq_iff (b ∷ c) (str "."))
filter_component-IsPlain (top ∷ rest) (b ∷ c) h k e =
    ground (arith, str_eq_iff (b ∷ c) (str ".."), str_eq_iff (b ∷ c) (str "."))

All-reverse_aux :
    (stack cs : List Str) → All IsPlain stack → All IsPlain cs → All IsPlain (reverse_aux stack cs)
All-reverse_aux [] cs h k = k
All-reverse_aux (s ∷ stack) cs h k = All-reverse_aux stack (s ∷ cs) h.1 (h.0, k)

filter_components-IsPlain :
    (stack cs : List Str) {out : List Str}
    → All IsPlain stack
    → All (Free b'/') cs
    → filter_components stack cs ≡ ok out
    → All IsPlain out
unfolding filter_components
filter_components-IsPlain stack [] {out} h k e =
    let same : reverse stack ≡ out = cc in rw (← same) (All-reverse_aux stack [] h tt)
filter_components-IsPlain stack (c ∷ cs) h k e =
    let (next, step, rest) = >>=-eq-ok (filter_component stack c) _ e in
    filter_components-IsPlain next cs (filter_component-IsPlain stack c h k.0 step) k.1 rest

-- Whatever the path, a successful normalization returns "/" or components that each follow a slash,
-- none of them empty, ".", ".." or with a slash inside.
pub normalize_absolute_path-IsNormal :
    (path : Str) {out : Str} → normalize_absolute_path path ≡ ok out → IsNormal out
unfolding normalize_absolute_path
normalize_absolute_path-IsNormal path {out} e =
    elim (Bool-cases (str_eq path (str "//") || str_eq path (str "/") || str_eq path [])) [
      | inl root ↦ ([], tt, unfold render in sym (ok-injective (rw root at e)))
      | inr other ↦
          let (components, filtered, same) =
            >>=-eq-ok (filter_components [] (split b'/' path)) _ (rw other at e) in
          (
            components,
            filter_components-IsPlain [] (split b'/' path) tt (split-Free b'/' path) filtered,
            sym (ok-injective same),
          )
    ]

All-IsToken : (cs : List Str) → All IsPlain cs → All (IsToken b'/') cs
All-IsToken [] h = tt
All-IsToken (c ∷ cs) h = (h.0.0, All-IsToken cs h.1)

filter_component_of_IsPlain :
    (stack : List Str) (c : Str) → IsPlain c → filter_component stack c ≡ ok (c ∷ stack)
unfolding filter_component
filter_component_of_IsPlain stack [] h = absurd (h.0.0 refl)
filter_component_of_IsPlain stack (b ∷ c) h =
    ground (arith, str_eq_iff (b ∷ c) (str ".."), str_eq_iff (b ∷ c) (str "."))

filter_components_of_IsPlain :
    (stack cs : List Str) → All IsPlain cs → filter_components stack cs ≡ ok (reverse stack ++ cs)
unfolding filter_components
filter_components_of_IsPlain stack [] h = ap ok (sym (append-nil _))
filter_components_of_IsPlain stack (c ∷ cs) h =
    rw (filter_component_of_IsPlain stack c h.0)
      (filter_components_of_IsPlain (c ∷ stack) cs h.1 ∙ ap ok (simp (reverse-cons, append_assoc)))

-- The early return is not taken for a path that starts with a plain component.
not_root :
    (c : Str) (cs : List Str)
    → IsPlain c
    → (str_eq (join b'/' (c ∷ cs)) (str "//")
        || str_eq (join b'/' (c ∷ cs)) (str "/")
        || str_eq (join b'/' (c ∷ cs)) [])
      ≡ false
unfolding join str_eq str
not_root [] cs h = absurd (h.0.0 refl)
not_root (b ∷ c) cs h = ground arith

normalize_absolute_path-render :
    (cs : List Str) → All IsPlain cs → normalize_absolute_path (render cs) ≡ ok (render cs)
unfolding normalize_absolute_path render
normalize_absolute_path-render [] h = unfold str str_eq in refl
normalize_absolute_path-render (c ∷ cs) h = rw (
  not_root c cs h.0,
  split-join b'/' (c ∷ cs) (All-IsToken (c ∷ cs) h),
  filter_components_of_IsPlain [] (c ∷ cs) h,
)

-- Normalizing the result of a successful normalization succeeds and changes nothing.
pub normalize_absolute_path_idempotent :
    (path : Str) {out : Str}
    → normalize_absolute_path path ≡ ok out
    → normalize_absolute_path out ≡ ok out
normalize_absolute_path_idempotent path e =
    let (cs, plain, same) = normalize_absolute_path-IsNormal path e in
    rw same (normalize_absolute_path-render cs plain)

pub normalize_absolute_path-root : normalize_absolute_path [] ≡ ok (str "/")
unfolding normalize_absolute_path str_eq str
normalize_absolute_path-root = refl
