-- ===== src/Curl/Transfer.antt =====
-- `perform_start`, `perform_continue`, `perform` and `get_data` of `SimpleCurlGet`.
use scitokens_cpp.Prelude.{
  ℕ, zero, suc, ◌/◌, ◌%◌, ◌==◌, ltb, Bool, true, false, not, ◌&&◌, Option, none, some, Str, str,
  Result, ok, throw, undefined, curl, is_empty, take, if◌then◌else◌, ℤ, pos, negsuc, pos_part,
  ltb_ℤ, ◌-ℤ◌, ◌*ℤ◌, ◌+ℤ◌, ◌^◌, ◌-◌,
}
use scitokens_cpp.Exec.{Exec, pure, fail, gets, ◌>>=◌, ◌>>◌}
use scitokens_cpp.Fetch.{GetStatus}
use scitokens_cpp.Curl.{
  Curl, SimpleCurlGet, Performing, writes, returns, Messages, end, done, other, Getting, write_data,
  resize, grown,
}

-- `GetStatus()`
abbrev pub not_done : GetStatus
not_done = record { m_done = false; m_status_code = negsuc 0 }

abbrev pub is_none {ℓ} : {A : Type ℓ} → Option A → Bool
is_none none = true
is_none (some a) = false

-- C++ division and remainder of integers, which round toward zero.
unfoldable pub quot_1000 : ℤ → ℤ
quot_1000 (pos n) = pos (n / 1000)
quot_1000 (negsuc n) = pos 0 -ℤ pos (suc n / 1000)

unfoldable pub rem_1000 : ℤ → ℤ
rem_1000 (pos n) = pos (n % 1000)
rem_1000 (negsuc n) = pos 0 -ℤ pos (suc n % 1000)

-- The conversion to `int`, of 32 bits, which wraps around.
unfoldable pub to_int : ℤ → ℤ
to_int (pos n) =
    let low = n % 2 ^ 32 in if ltb low (2 ^ 31) then pos low else negsuc (2 ^ 32 - 1 - low)
to_int (negsuc n) =
    let low = n % 2 ^ 32 in if ltb low (2 ^ 31) then negsuc low else pos (2 ^ 32 - 1 - low)

-- The result of the last CURLMSG_DONE, and what is outside behind the loop; `res` starts at -1.
unfoldable pub read_messages : {W : Type 0} → ℤ → Messages W → ℤ × W
read_messages res (end w) = (res, w)
read_messages res (done result rest) = read_messages result rest
read_messages res (other rest) = read_messages res rest

module _ (c : Curl) where
  open c use {W, Easy, Multi}

  abbrev pub call_curl : {A : Type 0} → (W → A × W) → Exec (Getting c) A
  call_curl f (w, g) = (ok (f w).0, ((f w).1, g))

  abbrev pub update : (SimpleCurlGet c → SimpleCurlGet c) → Exec (Getting c) (Unit {0})
  update f (w, g) = (ok tt, (w, f g))

  abbrev pub require_ok : ℕ → Str → Exec (Getting c) (Unit {0})
  require_ok code msg = if code == 0 then pure tt else fail (curl msg)

  -- What follows a call of the write function.
  abbrev pub on_write :
      {A : Type 0}
      → Result (ℕ × SimpleCurlGet c)
      → SimpleCurlGet c
      → (ℕ → SimpleCurlGet c → Result A × SimpleCurlGet c)
      → Result A × SimpleCurlGet c
  on_write (ok (taken, g')) g next = next taken g'
  on_write (throw e) g next = (throw e, g)
  on_write undefined g next = (undefined, g)

  -- The calls of the write function while libcurl performs.
  unfoldable pub run_performing :
      Performing W → SimpleCurlGet c → Result ((ℕ × ℕ) × W) × SimpleCurlGet c
  run_performing (returns code still_running w) g = (ok ((code, still_running), w), g)
  run_performing (writes size nmemb buffer rest) g =
      on_write (write_data c size nmemb buffer g) g (λ taken g'. run_performing (rest taken) g')

  abbrev pub performed : W → Result ((ℕ × ℕ) × W) × SimpleCurlGet c → Result (ℕ × ℕ) × Getting c
  performed w (ok (codes, w'), g') = (ok codes, (w', g'))
  performed w (throw e, g') = (throw e, (w, g'))
  performed w (undefined, g') = (undefined, (w, g'))

  -- `curl_multi_perform(m_curl_multi.get(), &still_running)`
  unfoldable pub perform_multi : Exec (Getting c) (ℕ × ℕ)
  unfolding run_performing
  perform_multi (w, g) = performed w (run_performing (c.curl_multi_perform g.m_curl_multi w) g)

  abbrev pub or_100 : ℤ → ℤ
  or_100 timeout_ms = if ltb_ℤ timeout_ms (pos 0) then pos 100 else timeout_ms

  abbrev pub set_timeout_ms : ℤ → SimpleCurlGet c → SimpleCurlGet c
  set_timeout_ms timeout_ms g = record g { m_timeout_ms = timeout_ms }

  abbrev pub set_fds : c.FdSets → ℤ → SimpleCurlGet c → SimpleCurlGet c
  set_fds sets max_fd g = record g {
    m_fd_sets = sets;
    m_max_fd = max_fd;
    m_timeout_ms = if ltb_ℤ max_fd (pos 0) then pos 100 else g.m_timeout_ms;
  }

  -- The part of `perform_continue` for a transfer that still runs.
  unfoldable pub prepare_wait : Exec (Getting c) GetStatus
  prepare_wait = do
    g ← gets (λ s. s.1)
    timed ← call_curl (c.curl_multi_timeout g.m_curl_multi)
    update (set_timeout_ms timed.1)
    require_ok timed.0 (c.curl_multi_strerror timed.0)
    update (set_timeout_ms (or_100 timed.1))
    set ← call_curl (c.curl_multi_fdset g.m_curl_multi)
    update (set_fds set.1 set.2)
    require_ok set.0 (c.curl_multi_strerror set.0)
    pure not_done

  abbrev is_success : ℤ → Bool
  is_success res = not (ltb_ℤ res (pos 0)) && not (ltb_ℤ (pos 0) res)

  -- The part of `perform_continue` for a transfer that is over.
  unfoldable pub finish_transfer : Exec (Getting c) GetStatus
  unfolding read_messages
  finish_transfer = do
    g ← gets (λ s. s.1)
    res ← call_curl (λ w. read_messages (negsuc 0) (c.curl_multi_info_read g.m_curl_multi w))
    (if is_success res then pure tt else fail (curl (c.curl_easy_strerror res)))
    code ← call_curl (c.response_code g.m_curl)
    require_ok code.0 (c.curl_easy_strerror (pos code.0))
    pure (record { m_done = true; m_status_code = code.1 })

  unfoldable pub perform_continue : Exec (Getting c) GetStatus
  unfolding perform_multi prepare_wait finish_transfer
  perform_continue = do
    codes ← perform_multi
    if codes.0 == 0 && not (codes.1 == 0)
        then prepare_wait
        else (do require_ok codes.0 (c.curl_multi_strerror codes.0); finish_transfer)

  -- `m_timeout > 120 ? 120 : m_timeout`
  abbrev pub timeout_of : ℕ → ℕ
  timeout_of timeout = if ltb 120 timeout then 120 else timeout

  -- The first bytes of the buffer: `min(m_maxbytes, 8 * 1024)` if there is a limit.
  abbrev pub initial_size : ℤ → ℕ
  initial_size maxbytes = if ltb_ℤ maxbytes (pos 8192) then pos_part maxbytes else 8192

  unfoldable pub reserve : SimpleCurlGet c → SimpleCurlGet c
  unfolding resize
  reserve g =
      if ltb_ℤ (pos 0) g.m_maxbytes
      then record g { m_data = grown (initial_size g.m_maxbytes) g.m_data }
      else g

  -- The new handles of `perform_start`.
  unfoldable pub new_handles : Exec (Getting c) (Option Multi × Option Easy)
  new_handles = do
    update (λ g. record g { m_len = 0 })
    multi ← call_curl c.curl_multi_init
    update (λ g. record g { m_curl_multi = multi })
    (if is_none multi
        then fail (curl (str "Failed to create a new curl async handle."))
        else pure tt)
    easy ← call_curl c.curl_easy_init
    update (λ g. record g { m_curl = easy })
    (if is_none easy then fail (curl (str "Failed to create a new curl handle.")) else pure tt)
    pure (multi, easy)

  -- The options that `perform_start` sets.
  unfoldable pub configure : Str → Option Multi → Option Easy → Exec (Getting c) (Unit {0})
  configure url multi easy = do
    g ← gets (λ s. s.1)
    set_url ← call_curl (c.set_url easy url)
    require_ok set_url (str "Failed to set CURLOPT_URL.")
    set_function ← call_curl (c.set_writefunction easy)
    require_ok set_function (str "Failed to set CURLOPT_WRITEFUNCTION.")
    set_data ← call_curl (c.set_writedata easy)
    require_ok set_data (str "Failed to set CURLOPT_WRITEDATA.")
    set_time ← call_curl (c.set_timeout easy (timeout_of g.m_timeout))
    require_ok set_time (str "Failed to set CURLOPT_TIMEOUT.")
    added ← call_curl (c.curl_multi_add_handle multi easy)
    require_ok added (str "Failed to add curl handle to async object")

  unfoldable pub perform_start : Str → Exec (Getting c) GetStatus
  unfolding perform_continue reserve new_handles configure
  perform_start url = do
    handles ← new_handles
    update reserve
    configure url handles.0 handles.1
    perform_continue

  -- How long `perform` waits for the next descriptor, in seconds and microseconds.
  abbrev pub wait_ms : ℤ → ℤ → ℤ → ℤ
  wait_ms expiry_time now m_timeout_ms =
      let left = to_int (pos 1000 *ℤ (expiry_time -ℤ now)) in
      let timeout_ms = if ltb_ℤ left (pos 0) then pos 0 else left in
      if ltb_ℤ m_timeout_ms timeout_ms then m_timeout_ms else timeout_ms

  -- `perform`, whose loop ends only with the network's help: `fuel` bounds its rounds, and `none` is
  -- a loop that is not over by then.
  unfoldable pub perform_loop : ℕ → ℤ → GetStatus → Exec (Getting c) (Option ℤ)
  unfolding perform_continue quot_1000 rem_1000
  perform_loop zero expiry_time status =
      pure (if status.m_done then some status.m_status_code else none)
  perform_loop (suc fuel) expiry_time status =
      if status.m_done then pure (some status.m_status_code) else (do
        now ← call_curl c.time
        g ← gets (λ s. s.1)
        let timeout_ms = wait_ms expiry_time now g.m_timeout_ms
        call_curl (λ w. (
          tt,
          c.select (g.m_max_fd +ℤ pos 1) g.m_fd_sets
              (quot_1000 timeout_ms, rem_1000 timeout_ms *ℤ pos 1000) w,
        ))
        next ← perform_continue
        perform_loop fuel expiry_time next)

  unfoldable pub perform : ℕ → Str → ℤ → Exec (Getting c) (Option ℤ)
  unfolding perform_start perform_loop
  perform fuel url expiry_time = do status ← perform_start url; perform_loop fuel expiry_time status

  -- `get_data`, and the string of its buffer and length; `&m_data[0]` is undefined on an empty
  -- vector.
  unfoldable pub get_data : SimpleCurlGet c → Result Str
  get_data g = if is_empty g.m_data then undefined else ok (take g.m_len g.m_data)
