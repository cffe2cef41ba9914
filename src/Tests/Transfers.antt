-- ===== src/Tests/Transfers.antt =====
-- Transfers over a concrete libcurl, and the time that a caller waits.
use scitokens_cpp.Prelude.{
  true-ne-false, ℕ, zero, suc, ◌≤◌, ◌≡◌, ◌≢◌, refl, ap, ◌∙◌, false, [], ◌∷◌, none, some, str, ok,
  ok-injective, length, pos, arith, ◌^◌, ◌-◌, ◌*◌, ◌<◌, ◌⊎◌, ℤ, undefined,
}
use scitokens_cpp.Fetch.{Services, GetStatus, new_status, refresh_jwks}
use scitokens_cpp.Fetch.Bounded.{EndsTransfers}
use scitokens_cpp.Fetch.Refresh.{refresh_jwks-ends}
use scitokens_cpp.Validator.Verify.{verify_scitoken}
use scitokens_cpp.Validator.Verify.Ends.{verify_scitoken-ends}
use scitokens_cpp.Validator.{new_validator}
use scitokens_cpp.Curl.{Curl, SimpleCurlGet, Performing, writes, returns, done, end, new_get}
use scitokens_cpp.Curl.Buffer.{contents, IsValid}
use scitokens_cpp.Curl.Transfer.{run_performing}
use scitokens_cpp.Curl.Runs.{IsDocumented, HasLimit, append_all, run_performing_refines}
use scitokens_cpp.Curl.Waiting.{Waiting, IsTimeval, get_timeout_val, get_timeout_val-IsTimeval}
use scitokens_cpp.Tests.Instances.{web, reply_200, waiting, token, jwt_library, running}

-- A run that writes three bytes and then three more.
abbrev run : Performing ℕ
run = writes 1 3 (65 ∷ 66 ∷ 67 ∷ []) λ taken. writes 1 3 (68 ∷ 69 ∷ 70 ∷ []) λ more. returns 0 0 0

abbrev libcurl : Curl
libcurl = record {
  W = ℕ;
  Easy = Unit {0};
  Multi = Unit {0};
  FdSets = Unit {0};
  no_fds = tt;
  curl_multi_init = λ w. (some tt, w);
  curl_easy_init = λ w. (some tt, w);
  set_url = λ easy url w. (0, w);
  set_writefunction = λ easy w. (0, w);
  set_writedata = λ easy w. (0, w);
  set_timeout = λ easy timeout w. (0, w);
  curl_multi_add_handle = λ multi easy w. (0, w);
  curl_multi_perform = λ multi w. run;
  curl_multi_timeout = λ multi w. ((0, pos 5), w);
  curl_multi_fdset = λ multi w. ((0, tt, pos 3), w);
  curl_multi_info_read = λ multi w. done (pos 0) (end w);
  response_code = λ easy w. ((0, pos 200), w);
  curl_multi_strerror = λ code. [];
  curl_easy_strerror = λ code. [];
  time = λ w. (pos w, suc w);
  select = λ nfds sets timeout w. w;
}

documented : IsDocumented run
documented = (refl, omega arith, refl, λ taken. (refl, omega arith, refl, λ more. tt))

-- A buffer of at most four bytes: the second write is refused.
abbrev small : SimpleCurlGet libcurl
small = new_get libcurl (pos 4) 30

small-IsValid : IsValid small
small-IsValid = record { inside = omega arith; limited = λ h. omega arith }

limit : HasLimit (pos 4)
limit = (refl, omega arith)

run_performing_refines_example :
    (g' : SimpleCurlGet libcurl) × (run_performing libcurl run small
      ≡ (ok (append_all (pos 4) run []).0, g'))
    × (contents g' ≡ (append_all (pos 4) run []).1)
    × IsValid g'
    × (g'.m_maxbytes ≡ pos 4)
    × (0 ≤ length g'.m_data)
run_performing_refines_example =
    run_performing_refines libcurl run small documented small-IsValid limit

abbrev waits : Waiting libcurl
waits = record new_status { m_cget = some (record small { m_timeout_ms = pos 2500 }) }

get_timeout_val-IsTimeval_example :
    ((100 * (130 - 100) < 2 ^ 63)
      × ((tv : ℤ × ℤ) × (get_timeout_val libcurl (pos 130) (pos 100) waits ≡ ok tv)
          × IsTimeval libcurl 2500000 tv
          × IsTimeval libcurl 3000000 tv))
    ⊎ ((2 ^ 63 ≤ 100 * (130 - 100))
        × (get_timeout_val libcurl (pos 130) (pos 100) waits ≡ undefined))
get_timeout_val-IsTimeval_example =
    get_timeout_val-IsTimeval libcurl 130 100 2500 waits (record small { m_timeout_ms = pos 2500 })
      (omega arith) refl refl

-- A transfer that takes as many rounds as it counts down.
abbrev counted : ℕ → GetStatus × ℕ
counted zero = (reply_200, zero)
counted (suc n) = (waiting, n)

-- A client whose transfers take as many rounds as it counts down.
abbrev counting : Services
counting = record web {
  Get = ℕ;
  new_get = λ maxbytes timeout. timeout;
  perform_start = λ get url w. (ok (waiting, 2), w);
  perform_continue = λ get w. (ok (counted get), w);
  get_data = λ get. [];
}

abbrev first : GetStatus × ℕ
first = (waiting, 2)

counted-less :
    (get get' : ℕ) (reply : GetStatus)
    → counted get ≡ (reply, get')
    → reply.m_done ≡ false
    → suc get' ≤ get
counted-less zero get' reply h waits = absurd (true-ne-false (ap (λ r. r.0.m_done) h ∙ waits))
counted-less (suc n) get' reply h waits = let e : n ≡ get' = ap (λ r. r.1) h in omega arith

counting-EndsTransfers : EndsTransfers counting 2
counting-EndsTransfers = record {
  rounds = λ get. get;
  started = λ get get' url reply w w' h.
      let e : 2 ≡ get' =
        ap (λ r. r.1)
          (ok-injective {A = GetStatus × ℕ} {a = first} {b = (reply, get')} (ap (λ r. r.0) h)) in
      omega arith;
  continued = λ get get' reply w w' h waits.
      counted-less get get' reply (ok-injective (ap (λ r. r.0) h)) waits;
}

refresh_jwks-ends_example : refresh_jwks counting 9 (str "https://h/i") 0 ≢ (ok none, 1)
refresh_jwks-ends_example =
    refresh_jwks-ends counting 2 counting-EndsTransfers (str "https://h/i") 0 1

verify_scitoken-ends_example :
    verify_scitoken counting
      (jwt_library token)
      (Unit {0})
      9
      (some token)
      (pos 120)
      (running 0 (new_validator (pos 100)))
    ≢ (ok none, running 0 (new_validator (pos 100)))
verify_scitoken-ends_example =
    verify_scitoken-ends counting 2 counting-EndsTransfers (jwt_library token) (Unit {0})
      (some token) (pos 120) (running 0 (new_validator (pos 100)))
      (running 0 (new_validator (pos 100)))
