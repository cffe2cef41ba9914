-- ===== src/Config/Ints.antt =====
-- Setting and reading the intervals of the key cache.
use scitokens_cpp.Prelude.{
  ◌≡◌, refl, sym, inl, inr, true, false, some, arith, Str, str, str_eq, str_eq_iff, ok, Bool-cases,
  ℤ, pos, ltb_ℤ,
}
use scitokens_cpp.Config.{Configuration, scitoken_config_set_int, scitoken_config_get_int}

abbrev update_interval : Str
update_interval = str "keycache.update_interval_s"

abbrev expiration_interval : Str
expiration_interval = str "keycache.expiration_interval_s"

-- The keys that the functions know are two.
keys_differ : str_eq expiration_interval update_interval ≡ false
unfolding str_eq str
keys_differ = refl

-- A text that differs from a key, where another text equals it.
differs :
    (other key k : Str) → str_eq key k ≡ true → str_eq other key ≡ false → str_eq other k ≡ false
differs other key k h d = rw (sym ((str_eq_iff key k).0 h)) d

-- An accepted value is not negative, it is read back under its key, and other keys read as before.
pub scitoken_config_get_int-scitoken_config_set_int :
    (key : Str) (value : ℤ) (c c' : Configuration)
    → scitoken_config_set_int (some key) value c ≡ (ok tt, c')
    → (ltb_ℤ value (pos 0) ≡ false)
      × (scitoken_config_get_int (some key) c' ≡ (ok value, c'))
      × ((other : Str)
          → str_eq other key ≡ false
          → (scitoken_config_get_int (some other) c').0
            ≡ (scitoken_config_get_int (some other) c).0)
unfolding scitoken_config_set_int scitoken_config_get_int
scitoken_config_get_int-scitoken_config_set_int key value c c' h =
    elim (Bool-cases (str_eq key update_interval)) [
      | inl e ↦
          (let d : (other : Str) → str_eq other key ≡ false → str_eq other update_interval ≡ false =
              (λ other. differs other key update_interval e) in
            ground (arith, e, h, d))
      | inr e ↦ elim (Bool-cases (str_eq key expiration_interval)) [
        | inl e₂ ↦
            (let d : (other : Str)
                  → str_eq other key ≡ false
                  → str_eq other expiration_interval ≡ false =
                (λ other. differs other key expiration_interval e₂) in
              ground (arith, e, e₂, h, d))
        | inr e₂ ↦ ground (arith, e, e₂, h)
      ]
    ]
