-- ===== src/Config/Home.antt =====
-- The cache home that a successful configuration leaves.
use scitokens_cpp.Prelude.{
  ℕ, ◌≡◌, ◌≢◌, ◌⊎◌, inl, inr, refl, ap, sym, ◌∙◌, true, false, List, [], ◌∷◌, ◌++◌, Option, none,
  some, arith, Str, str, Free, All, ok, ok-injective, ok-ne-undefined,
}
use mathlib.Core.Path.{subst}
use mathlib.Core.List.{append-nil, append_assoc}
use scitokens_cpp.Split.{join, IsToken}
use scitokens_cpp.Config.{
  Configuration, Directories, make_levels, mkdir_and_parents_if_needed, mkdir_error, set_cache_home,
  without_empty, pushed, path_components, path_split,
}

cons-ne-nil : {c : ℕ} {t : Str} → (c ∷ t) ≢ []
cons-ne-nil h = cc

dec_eq : (a b : ℕ) → (a ≡ b) ⊎ (a ≢ b)
dec_eq a b = ground arith

pushed-AreTokens :
    (t : Str) (ts : List Str) → Free 47 t → All (IsToken 47) ts → All (IsToken 47) (pushed t ts)
pushed-AreTokens [] ts h k = k
pushed-AreTokens (c ∷ t) ts h k = ((cons-ne-nil, h), k)

Free-snoc : (t : Str) (c : ℕ) → Free 47 t → c ≢ 47 → Free 47 (t ++ c ∷ [])
Free-snoc [] c h k = (k, tt)
Free-snoc (x ∷ t) c h k = (h.0, Free-snoc t c h.1 k)

path_components_other :
    (t s : Str) (c : ℕ) → c ≢ 47 → path_components t (c ∷ s) ≡ path_components (t ++ c ∷ []) s
unfolding path_components
path_components_other t s c h = ground (arith, h)

path_components_sep : (t s : Str) → path_components t (47 ∷ s) ≡ pushed t (path_components [] s)
unfolding path_components
path_components_sep t s = refl

path_components-AreTokens : (t s : Str) → Free 47 t → All (IsToken 47) (path_components t s)
unfolding path_components
path_components-AreTokens t [] h = pushed-AreTokens t [] h tt
path_components-AreTokens t (c ∷ s) h = elim (dec_eq c 47) [
  | inl e ↦
      subst (λ x. All (IsToken 47) (path_components t (x ∷ s))) (sym e)
        (pushed-AreTokens t _ h (path_components-AreTokens [] s tt))
  | inr e ↦
      subst (All (IsToken 47)) (sym (path_components_other t s c e))
        (path_components-AreTokens (t ++ c ∷ []) s (Free-snoc t c h e))
]

-- The components of a text that joins tokens are the tokens.
path_components-append :
    (t u : Str) (s : Str) → Free 47 u → path_components t (u ++ s) ≡ path_components (t ++ u) s
unfolding path_components
path_components-append t [] s h = rw append-nil refl
path_components-append t (c ∷ u) s h =
    path_components_other t (u ++ s) c h.0
    ∙ path_components-append (t ++ c ∷ []) u s h.1
    ∙ ap (λ l. path_components l s) (append_assoc t (c ∷ []) u)

path_components-join :
    (t : Str) (ts : List Str) → All (IsToken 47) ts → path_components t (join 47 ts) ≡ pushed t ts
unfolding path_components join
path_components-join t [] h = refl
path_components-join t (u ∷ us) h =
    rw (path_components-append [] u (join 47 us) h.0.1, path_components-join u us h.1)
      (ground arith)

split-without_empty : (ts us : List Str) → All (IsToken 47) ts → without_empty ts ≡ ok us → ts ≡ us
split-without_empty [] us h e = absurd (ok-ne-undefined (sym e))
split-without_empty ([] ∷ ts) us h e = absurd (h.0.0 refl)
split-without_empty ((c ∷ t) ∷ ts) us h e = ok-injective e

-- The components of a path hold no slash and are not empty, and the path that joins them again has
-- the same components.
pub path_split-join :
    (path : Str) (components : List Str)
    → path_split path ≡ ok components
    → All (IsToken 47) components × (path_split (join 47 components) ≡ ok components)
unfolding path_split
path_split-join path components h =
    let all = path_components-AreTokens [] path tt in
    let e = split-without_empty _ components all h in
    let tokens : All (IsToken 47) components = subst (All (IsToken 47)) e all in
    (tokens, ap without_empty (path_components-join [] components tokens ∙ sym e) ∙ h)

-- The directories above a path of components, from the top, and the path itself.
abbrev pub levels : Str → List Str → List Str
levels level [] = []
levels level (component ∷ rest) = (level ++ 47 ∷ component) ∷ levels (level ++ 47 ∷ component) rest

-- `mkdir` made the directory, or found it (EEXIST).
abbrev pub IsThere : Option ℕ → Type 0
IsThere none = Unit {0}
IsThere (some errno) = errno ≡ 17

module _ (dirs : Directories) where
  -- The directories were made one after another, or were there.
  pub data Made : List Str → dirs.W → dirs.W → Type 0 where
    no_more : {w : dirs.W} → Made [] w w
    one_more :
        {path : Str} {rest : List Str} {w v : dirs.W}
        → IsThere (dirs.mkdir path w).0
        → Made rest (dirs.mkdir path w).1 v
        → Made (path ∷ rest) w v

  -- The directories were made up to one for which `mkdir` fails with another error; none is tried
  -- behind it.
  pub data Refused (errno : ℕ) : List Str → dirs.W → dirs.W → Type 0 where
    here :
        {path : Str} {rest : List Str} {w : dirs.W}
        → (dirs.mkdir path w).0 ≡ some errno
        → errno ≢ 17
        → Refused errno (path ∷ rest) w (dirs.mkdir path w).1
    behind :
        {path : Str} {rest : List Str} {w v : dirs.W}
        → IsThere (dirs.mkdir path w).0
        → Refused errno rest (dirs.mkdir path w).1 v
        → Refused errno (path ∷ rest) w v

  -- The message of a refused directory.
  abbrev pub refusal : ℕ → Str
  refusal errno =
      str "There was an error while creating/checking the directory: mkdir error: "
      ++ dirs.strerror errno

  mkdir_error-cases :
      (made : Option ℕ)
      → ((mkdir_error dirs made ≡ none) × IsThere made)
        ⊎ ((errno : ℕ) × (made ≡ some errno)
            × (errno ≢ 17)
            × (mkdir_error dirs made ≡ some (refusal errno)))
  mkdir_error-cases none = inl (refl, tt)
  mkdir_error-cases (some errno) = elim (dec_eq errno 17) [
    | inl e ↦ inl (ground (arith, e), e)
    | inr e ↦ inr (errno, refl, e, ground (arith, e))
  ]

  make_levels-ends :
      (level : Str) (ts : List Str) (c : Configuration) (w : dirs.W)
      → ((v : dirs.W) × Made (levels level ts) w v
          × (make_levels dirs level ts (c, w) ≡ (ok none, (c, v))))
        ⊎ ((v : dirs.W) × (errno : ℕ) × Refused errno (levels level ts) w v
            × (make_levels dirs level ts (c, w) ≡ (ok (some (refusal errno)), (c, v))))
  unfolding make_levels
  make_levels-ends level [] c w = inl (w, no_more, refl)
  make_levels-ends level (t ∷ ts) c w =
      let made = dirs.mkdir (level ++ 47 ∷ t) w in
      elim (mkdir_error-cases made.0) [
        | inr (errno, e, other, msg) ↦ inr (made.1, errno, here e other, rw msg)
        | inl (fine, there) ↦ elim (make_levels-ends (level ++ 47 ∷ t) ts c made.1) [
          | inl (v, all, run) ↦ inl (v, one_more there all, rw fine run)
          | inr (v, errno, bad, run) ↦ inr (v, errno, behind there bad, rw fine run)
        ]
      ]

  -- Setting a cache home with components makes the directories above it and itself, from the top,
  -- where those that are there are passed over. Either all are then there, and the path that joins the
  -- components is stored; or `mkdir` fails for one with another error, none is tried behind it, the
  -- error is reported, and the configuration is as it was.
  pub set_cache_home-outcome :
      (path : Str) (components : List Str) (c : Configuration) (w : dirs.W)
      → path_split path ≡ ok components
      → ((v : dirs.W) × Made (levels [] components) w v
          × (set_cache_home dirs path (c, w)
              ≡ (ok (true, []), (record c { m_cache_home = join 47 components }, v))))
        ⊎ ((v : dirs.W) × (errno : ℕ) × Refused errno (levels [] components) w v
            × (set_cache_home dirs path (c, w) ≡ (
              ok (
                false,
                str "An issue was encountered with the provided cache home path: " ++ refusal errno,
              ),
              (c, v),
            )))
  unfolding set_cache_home mkdir_and_parents_if_needed
  set_cache_home-outcome [] components c w h = absurd (ok-ne-undefined (sym h))
  set_cache_home-outcome (x ∷ path) components c w h =
      let again = (path_split-join (x ∷ path) components h).1 in
      elim (make_levels-ends [] components c w) [
        | inl (v, all, run) ↦ inl (v, all, rw (h, again, run))
        | inr (v, errno, bad, run) ↦ inr (v, errno, bad, rw (h, again, run))
      ]
