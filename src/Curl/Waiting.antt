-- ===== src/Curl/Waiting.antt =====
-- What a caller that waits for a transfer reads: the getters of `AsyncStatus` and `SimpleCurlGet` of
-- src/scitokens_internal.h, and the functions of src/scitokens.cpp over them.
use scitokens_cpp.Prelude.{
  ℕ, ◌+◌, ◌-◌, ◌*◌, ◌/◌, ◌%◌, ◌^◌, ◌≤◌, ◌<◌, ◌≡◌, refl, Bool, true, false, Bool-cases, inl, inr,
  ◌⊎◌, Result, ok, undefined, ◌>>=◌, Option, none, some, Str, str, ℤ, pos, negsuc, ltb_ℤ, ◌-ℤ◌,
  ◌*ℤ◌, if◌then◌else◌, arith, ltb,
}
use scitokens_cpp.Fetch.{AsyncStatus}
use scitokens_cpp.Curl.{Curl, SimpleCurlGet}
use scitokens_cpp.Curl.Transfer.{quot_1000, rem_1000}
use scitokens_cpp.Api.{Reply, failure, undefined_behaviour, reply}

-- Whether a number is a `long`, of 64 bits.
abbrev pub is_long : ℤ → Bool
is_long (pos n) = ltb n (2 ^ 63)
is_long (negsuc n) = ltb n (2 ^ 63)

-- The result of an operation on `long`: an overflow is undefined.
abbrev pub as_long : ℤ → Result ℤ
as_long a = if is_long a then ok a else undefined

module _ (c : Curl) where
  -- `AsyncStatus` over `SimpleCurlGet`
  abbrev pub Waiting : Type 0
  Waiting = AsyncStatus (SimpleCurlGet c)

  -- `m_cget && m_cget->get_timeout_ms() < timeout_ms`
  abbrev pub no_longer : Option (SimpleCurlGet c) → ℤ → ℤ
  no_longer none timeout_ms = timeout_ms
  no_longer (some get) timeout_ms =
      if ltb_ℤ get.m_timeout_ms timeout_ms then get.m_timeout_ms else timeout_ms

  -- Seconds and microseconds, at the time `now`. The difference and the product are of type `long`.
  unfoldable pub get_timeout_val : ℤ → ℤ → Waiting → Result (ℤ × ℤ)
  unfolding quot_1000 rem_1000
  get_timeout_val expiry_time now status = do
    left ← as_long (expiry_time -ℤ now)
    left_ms ← as_long (pos 100 *ℤ left)
    let timeout_ms = no_longer status.m_cget left_ms
    ok (quot_1000 timeout_ms, rem_1000 timeout_ms *ℤ pos 1000)

  abbrev max_fd_of : Option (SimpleCurlGet c) → ℤ
  max_fd_of none = negsuc 0
  max_fd_of (some get) = get.m_max_fd

  unfoldable pub get_max_fd : Waiting → ℤ
  get_max_fd status = max_fd_of status.m_cget

  abbrev fd_sets_of : Option (SimpleCurlGet c) → Option c.FdSets
  fd_sets_of none = none
  fd_sets_of (some get) = some get.m_fd_sets

  -- The three sets stand together here; `none` is the null pointer.
  unfoldable pub get_fd_sets : Waiting → Option c.FdSets
  get_fd_sets status = fd_sets_of status.m_cget

  -- What a `SciTokenStatus *` points to: a place of a handle, as its type says, or the object itself,
  -- as the functions take it.
  pub data StatusPointer : Type 0 where
    place : StatusPointer
    object : Waiting → StatusPointer

  abbrev pub read_status : {A : Type 0} → StatusPointer → (Waiting → Result A) → Reply A
  read_status place f = undefined_behaviour
  read_status (object status) f = reply (f status)

  -- A getter, with the messages for a null pointer and a null output; the Boolean is whether there is
  -- an output.
  abbrev pub getter :
      {A : Type 0} → Str → (Waiting → Result A) → Option StatusPointer → Bool → Reply A
  getter no_output f none output = failure (str "Status object may not be a null pointer")
  getter no_output f (some status) false = failure no_output
  getter no_output f (some status) true = read_status status f

  unfoldable pub scitoken_status_get_timeout_val :
      ℤ → ℤ → Option StatusPointer → Bool → Reply (ℤ × ℤ)
  unfolding get_timeout_val
  scitoken_status_get_timeout_val expiry_time now =
      getter (str "Timeout object may not be a null pointer") (get_timeout_val expiry_time now)

  unfoldable pub scitoken_status_get_read_fd_set :
      Option StatusPointer → Bool → Reply (Option c.FdSets)
  unfolding get_fd_sets
  scitoken_status_get_read_fd_set =
      getter (str "Read fd_set object may not be a null pointer") λ status. ok (get_fd_sets status)

  unfoldable pub scitoken_status_get_write_fd_set :
      Option StatusPointer → Bool → Reply (Option c.FdSets)
  unfolding get_fd_sets
  scitoken_status_get_write_fd_set =
      getter (str "Write fd_set object may not be a null pointer") λ status. ok (get_fd_sets status)

  unfoldable pub scitoken_status_get_exc_fd_set :
      Option StatusPointer → Bool → Reply (Option c.FdSets)
  unfolding get_fd_sets
  scitoken_status_get_exc_fd_set =
      getter (str "Read fd_set object may not be a null pointer") λ status. ok (get_fd_sets status)

  unfoldable pub scitoken_status_get_max_fd : Option StatusPointer → Bool → Reply ℤ
  unfolding get_max_fd
  scitoken_status_get_max_fd =
      getter (str "Max FD may not be a null pointer") λ status. ok (get_max_fd status)

  -- A time in seconds and microseconds of at most so many microseconds.
  abbrev pub IsTimeval : ℕ → ℤ × ℤ → Type 0
  IsTimeval most (sec, usec) =
      (s : ℕ) × (u : ℕ) × (sec ≡ pos s) × (usec ≡ pos u) × (u < 1000000) × (s * 1000000 + u ≤ most)

  timeval :
      (ms most : ℕ)
      → ms * 1000 ≤ most
      → IsTimeval most (quot_1000 (pos ms), rem_1000 (pos ms) *ℤ pos 1000)
  unfolding quot_1000 rem_1000 ◌*ℤ◌
  timeval ms most h = (ms / 1000, ms % 1000 * 1000, refl, ground arith, omega arith, omega arith)

  -- A number of milliseconds that is none of the two greater.
  shorter :
      (get : SimpleCurlGet c) (ms left : ℕ)
      → get.m_timeout_ms ≡ pos ms
      → (n : ℕ) × (no_longer (some get) (pos left) ≡ pos n) × (n ≤ ms) × (n ≤ left)
  shorter get ms left e = elim (Bool-cases (ltb ms left)) [
    | inl less ↦ (ms, rw e (ground (arith, less)), omega arith, ground (arith, less))
    | inr more ↦ (left, rw e (ground (arith, more)), ground (arith, more), omega arith)
  ]

  left_time :
      (expiry_time now : ℕ)
      → now ≤ expiry_time
      → pos expiry_time -ℤ pos now ≡ pos (expiry_time - now)
  unfolding ◌-ℤ◌
  left_time expiry_time now h = ground (arith, h)

  left_ms : (left : ℕ) → pos 100 *ℤ pos left ≡ pos (100 * left)
  unfolding ◌*ℤ◌
  left_ms left = ground arith

  as_long-small : (n : ℕ) → n < 2 ^ 63 → as_long (pos n) ≡ ok (pos n)
  as_long-small n h = ground (arith, h)

  as_long-big : (n : ℕ) → 2 ^ 63 ≤ n → as_long (pos n) ≡ undefined
  as_long-big n h = ground (arith, h)

  get_timeout_val_fits :
      (expiry_time now ms : ℕ) (status : Waiting) (get : SimpleCurlGet c)
      → now ≤ expiry_time
      → status.m_cget ≡ some get
      → get.m_timeout_ms ≡ pos ms
      → 100 * (expiry_time - now) < 2 ^ 63
      → (tv : ℤ × ℤ) × (get_timeout_val (pos expiry_time) (pos now) status ≡ ok tv)
        × IsTimeval (1000 * ms) tv
        × IsTimeval (100000 * (expiry_time - now)) tv
  unfolding get_timeout_val
  get_timeout_val_fits expiry_time now ms status get h e f small =
      let (n, same, within, within_left) = shorter get ms (100 * (expiry_time - now)) f in
      (
        (quot_1000 (pos n), rem_1000 (pos n) *ℤ pos 1000),
        rw (
          left_time expiry_time now h,
          as_long-small (expiry_time - now) (omega arith),
          left_ms (expiry_time - now),
          as_long-small (100 * (expiry_time - now)) small,
          e,
          same,
        ),
        timeval n (1000 * ms) (omega arith),
        timeval n (100000 * (expiry_time - now)) (omega arith),
      )

  get_timeout_val_overflow :
      (expiry_time now : ℕ) (status : Waiting)
      → now ≤ expiry_time
      → 2 ^ 63 ≤ 100 * (expiry_time - now)
      → get_timeout_val (pos expiry_time) (pos now) status ≡ undefined
  unfolding get_timeout_val
  get_timeout_val_overflow expiry_time now status h big =
      elim (Bool-cases (ltb (expiry_time - now) (2 ^ 63))) [
        | inl fits ↦ rw (
          left_time expiry_time now h,
          fits,
          left_ms (expiry_time - now),
          as_long-big (100 * (expiry_time - now)) big,
        )
        | inr over ↦ rw (left_time expiry_time now h, over)
      ]

  -- Before the expiry time, and with a transfer whose timeout is not negative: if a hundred times the
  -- time that is left is a `long`, the time to wait is a `struct timeval`, with less than a second of
  -- microseconds, and is neither more than the timeout of the transfer nor than a tenth of the time
  -- that is left; otherwise the multiplication overflows, which is undefined.
  pub get_timeout_val-IsTimeval :
      (expiry_time now ms : ℕ) (status : Waiting) (get : SimpleCurlGet c)
      → now ≤ expiry_time
      → status.m_cget ≡ some get
      → get.m_timeout_ms ≡ pos ms
      → ((100 * (expiry_time - now) < 2 ^ 63)
          × ((tv : ℤ × ℤ) × (get_timeout_val (pos expiry_time) (pos now) status ≡ ok tv)
              × IsTimeval (1000 * ms) tv
              × IsTimeval (100000 * (expiry_time - now)) tv))
        ⊎ ((2 ^ 63 ≤ 100 * (expiry_time - now))
            × (get_timeout_val (pos expiry_time) (pos now) status ≡ undefined))
  get_timeout_val-IsTimeval expiry_time now ms status get h e f =
      elim (Bool-cases (ltb (100 * (expiry_time - now)) (2 ^ 63))) [
        | inl fits ↦
            let small : 100 * (expiry_time - now) < 2 ^ 63 = ground (arith, fits) in
            inl (small, get_timeout_val_fits expiry_time now ms status get h e f small)
        | inr over ↦
            let big : 2 ^ 63 ≤ 100 * (expiry_time - now) = ground (arith, over) in
            inr (big, get_timeout_val_overflow expiry_time now status h big)
      ]
