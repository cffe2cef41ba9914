-- ===== src/Tools/ListAccess/Trusted.antt =====
-- What the list of src/list_access.cpp rests on.
use scitokens_cpp.Prelude.{
  some-injective, ℕ, ◌≡◌, refl, ap, sym, ◌∙◌, List, [], ◌∷◌, Option, none, some, Str, Result, ok,
  throw, undefined, true,
}
use scitokens_cpp.Fetch.{Services}
use scitokens_cpp.Token.{DecodedJwt, JwtLibrary}
use scitokens_cpp.SciToken.{SciToken}
use scitokens_cpp.Scope.{AclsList, EnforcerState}
use scitokens_cpp.Validator.Verify.Rounds.{WasVerified}
use scitokens_cpp.Profile.{compat}
use scitokens_cpp.SciToken.Maps.{IsMap}
use scitokens_cpp.SciToken.Deserialize.Sound.{IsRead}
use scitokens_cpp.Enforcer.{Enforcing, generate_acls, new_enforcer_state, new_enforcer_validator}
use scitokens_cpp.Enforcer.Life.{created}
use scitokens_cpp.Enforcer.Listed.{IsListed, generate_acls-IsListed}
use scitokens_cpp.Api.Trust.Authorized.{scitoken_deserialize-IsRead}
use scitokens_cpp.Api.{
  Reply, success, failure, failure_without_message, undefined_behaviour, reply, map_reply,
}
use scitokens_cpp.Api.Serialized.{scitoken_deserialize, enforcer_create}
use scitokens_cpp.Api.Trust.{enforcer_generate_acls, convert_acls, acls_reply}
use scitokens_cpp.Tools.{exited, still_waiting, undefined_ending}
use scitokens_cpp.Tools.ListAccess.{acl_lines, list_reply, list_token, list_access}

exited-differ : {l m : List Str} → exited 1 l ≡ exited 0 m → ⊥
exited-differ h = cc

exited-injective : {l m : List Str} → exited 0 l ≡ exited 0 m → l ≡ m
exited-injective h = cc

waiting-differs : {l : List Str} → still_waiting ≡ exited 0 l → ⊥
waiting-differs h = cc

undefined-differs : {l : List Str} → undefined_ending ≡ exited 0 l → ⊥
undefined-differs h = cc

success-injective : {a b : Option AclsList} → success a ≡ success b → a ≡ b
success-injective h = cc

-- ACLs in a reply come from a call that returned them.
generated :
    (r : Result (Option AclsList)) {acls : AclsList}
    → map_reply acls_reply (reply r) ≡ success (some acls)
    → (listed : AclsList) × (r ≡ ok (some listed)) × (convert_acls listed ≡ acls)
generated (ok none) h = absurd (cc)
generated (ok (some listed)) h = (listed, refl, some-injective (success-injective h))
generated (throw e) h = absurd (cc)
generated undefined h = absurd (cc)

module _ (env : Services) (lib : JwtLibrary) where
  list_reply-exit :
      (r : Reply (Option AclsList)) {lines : List Str}
      → list_reply env lib r ≡ exited 0 lines
      → (acls : AclsList) × (r ≡ success (some acls)) × (acl_lines acls ≡ lines)
  list_reply-exit (success none) h = absurd (waiting-differs h)
  list_reply-exit (success (some acls)) h = (acls, refl, exited-injective h)
  list_reply-exit (failure msg) h = absurd (exited-differ h)
  list_reply-exit failure_without_message h = absurd (undefined-differs h)
  list_reply-exit undefined_behaviour h = absurd (undefined-differs h)

  -- The enforcer that the program makes of its arguments in a world.
  abbrev pub created_for : Str → Str → env.W → Enforcing env lib
  created_for issuer audience w = record {
    outside = (env.time w).1;
    validator = new_enforcer_validator (env.time w).0 issuer (audience ∷ []);
    user = new_enforcer_state issuer (audience ∷ []);
  }

  -- The arguments are a token's text, an issuer and an audience behind the program's name. The token of
  -- that text was read, and an enforcer made of the issuer and the audience then listed the ACLs of
  -- that token, which are printed.
  pub record IsListing (fuel : ℕ) (arguments : List Str) (w : env.W) (lines : List Str)
      : Type 0 where
    pub program : Str
    pub text : Str
    pub issuer : Str
    pub audience : Str
    pub more : List Str
    pub given : arguments ≡ program ∷ text ∷ issuer ∷ audience ∷ more
    pub token : SciToken
    pub read : IsRead env lib fuel w compat text [] token
    pub acls : AclsList
    pub enf : Enforcing env lib
    pub ran :
        generate_acls env lib fuel (some read.jwt) (
          created_for issuer audience (scitoken_deserialize env lib fuel (some text) true none w).1)
        ≡ (ok (some acls), enf)
    pub listed :
        IsListed env lib issuer (audience ∷ []) compat enf.validator.m_profile read.jwt acls
    pub verified : WasVerified env lib EnforcerState read.jwt enf
    pub printed : lines ≡ acl_lines (convert_acls acls)

  module _ (of_text : (x : Str) (jwt : DecodedJwt) → lib.decode x ≡ ok jwt → jwt.token ≡ x)
      (maps : (x : Str) (jwt : DecodedJwt) → lib.decode x ≡ ok jwt → IsMap jwt.payload) where
    list_token-IsListing :
        (fuel : ℕ) (program text issuer audience : Str) (more : List Str) (w : env.W)
        (r : Reply (Option SciToken) × env.W) {lines : List Str}
        → scitoken_deserialize env lib fuel (some text) true none w ≡ r
        → list_token env lib fuel issuer audience r ≡ exited 0 lines
        → IsListing fuel (program ∷ text ∷ issuer ∷ audience ∷ more) w lines
    unfolding enforcer_generate_acls enforcer_create
    list_token-IsListing fuel program text issuer audience more w (success (some t), w₁) e h =
        let read = scitoken_deserialize-IsRead env lib fuel text none w w₁ t e in
        let start = created_for issuer audience w₁ in
        let run = generate_acls env lib fuel t.m_decoded start in
        let (acls, answered, lines_eq) = list_reply-exit (map_reply acls_reply (reply run.0)) h in
        let (listed, ended, converted) = generated run.0 answered in
        let ran : generate_acls env lib fuel (some read.jwt) start ≡ (ok (some listed), run.1) =
          ap (λ d. generate_acls env lib fuel d start) (sym read.kept) ∙ (λ i. (ended i, run.1)) in
        let (of_scope, verified) =
          generate_acls-IsListed env lib issuer (audience ∷ []) fuel read.jwt start run.1
            (created (env.time w₁).0 (env.time w₁).1)
            (ap lib.decode (of_text text read.jwt read.decoded) ∙ read.decoded)
            (maps text read.jwt read.decoded) ran in
        record {
          program = program;
          text = text;
          issuer = issuer;
          audience = audience;
          more = more;
          given = refl;
          token = t;
          read = read;
          acls = listed;
          enf = run.1;
          ran =
              ap
                (λ (p : Reply (Option SciToken) × env.W).
                  generate_acls env lib fuel (some read.jwt) (created_for issuer audience p.1))
                e
              ∙ ran;
          listed = of_scope;
          verified = verified;
          printed = sym lines_eq ∙ ap acl_lines (sym converted);
        }
    list_token-IsListing fuel program text issuer audience more w (success none, w₁) e h =
        absurd (waiting-differs h)
    list_token-IsListing fuel program text issuer audience more w (failure msg, w₁) e h =
        absurd (exited-differ h)
    list_token-IsListing fuel program text issuer audience more w (failure_without_message, w₁) e
          h =
        absurd (undefined-differs h)
    list_token-IsListing fuel program text issuer audience more w (undefined_behaviour, w₁) e h =
        absurd (undefined-differs h)

    -- If `list_access` ends with 0, its arguments are a token's text, an issuer and an audience behind
    -- the program's name. The token that jwt-cpp decodes the text to was read and verified, is from
    -- that issuer and for that audience or the wildcard of its profile, and the lines printed are those
    -- of the ACLs that the scope validator lists for its scope. A token that jwt-cpp decodes has the
    -- text it is decoded from, and no name twice in its payload.
    pub list_access-IsListing :
        (fuel : ℕ) (arguments : List Str) (w : env.W) {lines : List Str}
        → list_access env lib fuel arguments w ≡ exited 0 lines
        → IsListing fuel arguments w lines
    unfolding list_access
    list_access-IsListing fuel (program ∷ text ∷ issuer ∷ audience ∷ more) w h =
        list_token-IsListing fuel program text issuer audience more w
          (scitoken_deserialize env lib fuel (some text) true none w) refl h
    list_access-IsListing fuel [] w h = absurd (exited-differ h)
    list_access-IsListing fuel (a ∷ []) w h = absurd (exited-differ h)
    list_access-IsListing fuel (a ∷ b ∷ []) w h = absurd (exited-differ h)
    list_access-IsListing fuel (a ∷ b ∷ c ∷ []) w h = absurd (exited-differ h)
