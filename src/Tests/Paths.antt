-- ===== src/Tests/Paths.antt =====
-- Paths, scopes and text.
use scitokens_cpp.Prelude.{
  ◌≡◌, ◌≢◌, refl, All, is_empty, false, [], ◌∷◌, str, str_eq, has_prefix, until, from, skip, ok,
  true, any, string, Json, as_string, get_type,
}
use scitokens_cpp.Split.{split, tokens, join}
use scitokens_cpp.Path.{
  pop_back, filter_component, filter_components, render, normalize_absolute_path,
}
use scitokens_cpp.Path.Normal.{
  IsNormal, normalize_absolute_path-IsNormal, normalize_absolute_path_idempotent,
}
use scitokens_cpp.Scope.{
  EnforcerState, scope_validator, scope_loop, scope_step, scope_end, authorize, translate,
  is_translated, get_profile, raw_path, acls_of, matches,
}
use scitokens_cpp.Scope.Grants.{scope_validator-grants, grants, listing}
use scitokens_cpp.Scope.Acls.{scope_validator-HasNormalPath, HasNormalPath}
use scitokens_cpp.Profile.{wlcg_1_0, compat}
use scitokens_cpp.Enforcer.{claim_audiences, aud_validator}
use scitokens_cpp.Enforcer.Audience.{permits, aud_validator-permits}
use scitokens_cpp.Tests.Instances.{enforcer}

a_path : normalize_absolute_path (str "/a/./../b//c/") ≡ ok (str "/b/c")
unfolding normalize_absolute_path split tokens filter_components filter_component pop_back render
    join until from skip str_eq str
a_path = refl

normalize_absolute_path-IsNormal_example : IsNormal (str "/b/c")
normalize_absolute_path-IsNormal_example =
    normalize_absolute_path-IsNormal (str "/a/./../b//c/") a_path

normalize_absolute_path_idempotent_example : normalize_absolute_path (str "/b/c") ≡ ok (str "/b/c")
normalize_absolute_path_idempotent_example =
    normalize_absolute_path_idempotent (str "/a/./../b//c/") a_path

tested_path : normalize_absolute_path enforcer.m_test_path ≡ ok (str "/bar/x")
unfolding normalize_absolute_path split tokens filter_components filter_component pop_back render
    join until from skip str_eq str
tested_path = refl

abbrev a_scope : Json
a_scope = string (str "read:/bar storage.create:/up")

abbrev listed : EnforcerState
listed = record (listing enforcer) {
  m_gen_acls = (str "read", str "/bar") ∷ (str "write", str "/up") ∷ (str "create", str "/up") ∷ [];
}

scope_listed : scope_validator wlcg_1_0 a_scope (listing enforcer) ≡ (ok true, listed)
unfolding scope_validator scope_loop scope_step scope_end authorize translate is_translated
    get_profile raw_path acls_of matches normalize_absolute_path split tokens filter_components
    filter_component pop_back render join until from skip str_eq str has_prefix as_string get_type
scope_listed = refl

not_empty : is_empty enforcer.m_test_authz ≡ false
unfolding str
not_empty = refl

scope_validator-grants_example :
    (scope_validator wlcg_1_0 a_scope enforcer).0
    ≡ ok (any (grants (str "read") (str "/bar/x")) listed.m_gen_acls)
scope_validator-grants_example =
    scope_validator-grants wlcg_1_0 enforcer a_scope {requested = str "/bar/x"} {out = listed}
      not_empty tested_path scope_listed

scope_validator-HasNormalPath_example :
    All HasNormalPath (scope_validator wlcg_1_0 a_scope (listing enforcer)).1.m_gen_acls
scope_validator-HasNormalPath_example =
    scope_validator-HasNormalPath wlcg_1_0 a_scope (listing enforcer) tt

is_set : wlcg_1_0 ≢ compat
is_set h = cc

one_audience : claim_audiences (string (str "https://s")) ≡ ok (str "https://s" ∷ [])
unfolding claim_audiences
one_audience = refl

aud_validator-permits_example :
    aud_validator wlcg_1_0 (string (str "https://s")) enforcer
    ≡ (ok (any (permits wlcg_1_0 (str "https://s" ∷ [])) (str "https://s" ∷ [])), enforcer)
aud_validator-permits_example =
    aud_validator-permits wlcg_1_0 (string (str "https://s")) enforcer is_set one_audience
