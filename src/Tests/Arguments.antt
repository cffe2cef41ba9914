-- ===== src/Tests/Arguments.antt =====
-- Runs of the argument checks of the command line tools.
use scitokens_cpp.Prelude.{◌≡◌, refl, ◌∷◌, [], str}
use scitokens_cpp.Tools.Options.{
  exit, go_on, no_arguments, verify_option, create_option, take_options, init_verify, init_create,
}

a_token_alone : init_verify [] 1 ≡ go_on no_arguments
unfolding init_verify take_options
a_token_alone = refl

no_token : init_verify [] 0 ≡ exit 1
unfolding init_verify take_options
no_token = refl

-- An issuer without a key.
an_issuer_alone : init_verify ((105, str "https://h/i") ∷ []) 1 ≡ exit 1
unfolding init_verify take_options verify_option str
an_issuer_alone = refl

help_first : init_create ((104, []) ∷ (63, []) ∷ []) 0 ≡ exit 0
unfolding init_create take_options create_option verify_option
help_first = refl

claims_in_order :
    take_options create_option ((67, str "a=1") ∷ (67, str "b=2") ∷ []) no_arguments
    ≡ go_on (record no_arguments { g_claims = str "a=1" ∷ str "b=2" ∷ [] })
unfolding take_options create_option verify_option
claims_in_order = refl
