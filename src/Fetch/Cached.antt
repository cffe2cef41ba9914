-- ===== src/Fetch/Cached.antt =====
-- How `get_public_key_pem` uses the keys that are in the cache.
use scitokens_cpp.Prelude.{
  ◌≡◌, Bool, true, false, some, Str, ok, throw, Json, ℤ, ltb_ℤ, is_runtime_error, Exn,
}
use scitokens_cpp.Exec.{Exec, pure, continue}
use scitokens_cpp.Keys.{PublicKey, public_key}
use scitokens_cpp.Fetch.{
  Services, new_status, Status, find_keys, finish_key, get_public_key_pem,
  get_public_key_pem_continue, get_public_keys_from_web, default_timeout,
}

module _ (env : Services) (issuer : Str) (w : env.W) where
  abbrev pub now : ℤ
  now = (env.time w).0

  -- The state after the clock was read.
  abbrev pub w₁ : env.W
  w₁ = (env.time w).1

  -- The status that a hit leaves, with the flags of the branch that was taken.
  abbrev pub hit : Str → Json → ℤ → (ignore_error complete : Bool) → Status env
  hit kid keys next_update ignore_error complete = record new_status {
    m_keys = keys;
    m_next_update = next_update;
    m_do_store = false;
    m_ignore_error = ignore_error;
    m_done = complete;
    m_issuer = issuer;
    m_kid = kid;
  }

  -- The answer when the keys are at hand: the chosen key, or the error of the choice.
  abbrev pub answer : Status env → Exec env.W (Status env × PublicKey)
  answer status w' =
      continue (public_key env.coords status.m_keys status.m_kid)
        (λ key. pure (record status { m_done = true }, key)) w'

  module _ (kid : Str) (keys : Json) (next_update : ℤ) (w₂ : env.W)
      (cached : env.get_public_keys_from_db issuer now w₁
        ≡ (ok (some (keys, next_update)), w₂)) where
    -- Keys from the cache whose time of update has not passed are used without the web, and are
    -- not stored again: nothing but the clock and the cache is called.
    pub get_public_key_pem_fresh :
        ltb_ℤ next_update now ≡ false
        → get_public_key_pem env issuer kid w ≡ answer (hit kid keys next_update false true) w₂
    unfolding get_public_key_pem get_public_key_pem_continue find_keys finish_key
    get_public_key_pem_fresh fresh = rw (cached, fresh)

    -- If their time of update has passed and the download cannot be started for a runtime error,
    -- the keys from the cache are used.
    pub get_public_key_pem_stale :
        {e : Exn} {w₃ : env.W}
        → ltb_ℤ next_update now ≡ true
        → get_public_keys_from_web env issuer default_timeout w₂ ≡ (throw e, w₃)
        → is_runtime_error e ≡ true
        → get_public_key_pem env issuer kid w ≡ answer (hit kid keys next_update true false) w₃
    unfolding get_public_key_pem get_public_key_pem_continue find_keys finish_key
    get_public_key_pem_stale stale failed caught = rw (cached, stale, failed, caught)
