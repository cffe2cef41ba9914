-- ===== src/Tools/Options.antt =====
-- `init_arguments` of src/verify.cpp and src/create.cpp. An option is the character that
-- `getopt_long` returns and its argument, in the order of the calls.
use scitokens_cpp.Prelude.{
  ℕ, ◌==◌, Bool, true, false, not, ◌&&◌, ◌||◌, List, [], ◌∷◌, ◌++◌, Str, is_empty, if◌then◌else◌,
}

-- What a check leaves: an exit code, undefined behaviour, or a value to go on with.
pub data Flow (A : Type 0) : Type 0 where
  exit : ℕ → Flow A
  undefined_flow : Flow A
  go_on : A → Flow A

infixl 5 ◌>>=◌
abbrev pub ◌>>=◌ : {A B : Type 0} → Flow A → (A → Flow B) → Flow B
exit code >>= next = exit code
undefined_flow >>= next = undefined_flow
go_on a >>= next = next a

infixl 5 ◌>>◌
abbrev pub ◌>>◌ : {B : Type 0} → Flow (Unit {0}) → Flow B → Flow B
m >> n = m >>= λ _. n

abbrev exit_if : Bool → Flow (Unit {0})
exit_if true = exit 1
exit_if false = go_on tt

-- The globals of both tools; src/verify.cpp has no key and no claims.
pub record Arguments : Type 0 where
  pub g_cred : Str
  pub g_key : Str
  pub g_kid : Str
  pub g_issuer : Str
  pub g_profile : Str
  pub g_claims : List Str

abbrev pub no_arguments : Arguments
no_arguments = record {
  g_cred = [];
  g_key = [];
  g_kid = [];
  g_issuer = [];
  g_profile = [];
  g_claims = [];
}

-- One round of the loop of src/verify.cpp; the characters are h, c, i, K and p.
unfoldable pub verify_option : ℕ × Str → Arguments → Flow Arguments
verify_option (arg, optarg) a =
    if arg == 104
    then exit 0
    else if arg == 99
    then go_on (record a { g_cred = optarg })
    else if arg == 105
    then go_on (record a { g_issuer = optarg })
    else if arg == 75
    then go_on (record a { g_kid = optarg })
    else if arg == 112
    then go_on (record a { g_profile = optarg })
    else exit 1

-- One round of the loop of src/create.cpp, which also takes k and C.
unfoldable pub create_option : ℕ × Str → Arguments → Flow Arguments
unfolding verify_option
create_option (arg, optarg) a =
    if arg == 107
    then go_on (record a { g_key = optarg })
    else if arg == 67
    then go_on (record a { g_claims = a.g_claims ++ optarg ∷ [] })
    else verify_option (arg, optarg) a

unfoldable pub take_options :
    (ℕ × Str → Arguments → Flow Arguments) → List (ℕ × Str) → Arguments → Flow Arguments
take_options take [] a = go_on a
take_options take (option ∷ options) a = do next ← take option a; take_options take options next

-- `left` is the number of arguments behind the options, `argc - optind`.
unfoldable pub init_verify : List (ℕ × Str) → ℕ → Flow Arguments
unfolding take_options verify_option
init_verify options left = do
  a ← take_options verify_option options no_arguments
  exit_if (not (left == 0) && not (left == 1))
  exit_if (left == 0)
  exit_if (
      (not (is_empty a.g_cred) || (not (is_empty a.g_issuer) || not (is_empty a.g_kid)))
      && (is_empty a.g_cred || (is_empty a.g_issuer || is_empty a.g_kid)))
  go_on a

unfoldable pub init_create : List (ℕ × Str) → ℕ → Flow Arguments
unfolding take_options create_option
init_create options left = do
  a ← take_options create_option options no_arguments
  exit_if (not (left == 0))
  exit_if (is_empty a.g_cred)
  exit_if (is_empty a.g_key)
  exit_if (is_empty a.g_kid)
  exit_if (is_empty a.g_issuer)
  go_on a
