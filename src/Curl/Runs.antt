-- ===== src/Curl/Runs.antt =====
-- Whole runs of libcurl over a buffer: `curl_multi_perform` with the write function behind it.
use scitokens_cpp.Prelude.{
  ℕ, ◌+◌, ◌^◌, ◌≤◌, ◌<◌, ◌≡◌, refl, ap, ◌∙◌, true, Str, ok, length, ℤ, pos, pos_part, ltb_ℤ, arith,
}
use scitokens_cpp.Curl.{Curl, SimpleCurlGet, Performing, writes, returns, write_data}
use scitokens_cpp.Curl.Buffer.{contents, IsValid, append_limited, write_data_refines}
use scitokens_cpp.Curl.Transfer.{run_performing, on_write}

-- What libcurl documents of its calls of the write function: the size is 1, and a call has at most
-- CURL_MAX_WRITE_SIZE bytes.
abbrev pub IsDocumented : {W : Type 0} → Performing W → Type 0
IsDocumented (returns code still_running w) = Unit
IsDocumented (writes size nmemb buffer rest) =
    (size ≡ 1)
    × (nmemb ≤ 16384)
    × (length buffer ≡ nmemb)
    × ((taken : ℕ) → IsDocumented (rest taken))

-- A positive limit that is an `int`.
abbrev pub HasLimit : ℤ → Type 0
HasLimit maxbytes = (ltb_ℤ (pos 0) maxbytes ≡ true) × (pos_part maxbytes < 2 ^ 31)

-- The same calls with a byte string for the buffer.
unfoldable pub append_all : {W : Type 0} → ℤ → Performing W → Str → ((ℕ × ℕ) × W) × Str
append_all maxbytes (returns code still_running w) text = (((code, still_running), w), text)
append_all maxbytes (writes size nmemb buffer rest) text =
    let step = append_limited maxbytes text buffer in append_all maxbytes (rest step.0) step.1

module _ (c : Curl) where
  -- The sizes of a documented write do not wrap.
  no_wrap :
      (g : SimpleCurlGet c) (buffer : Str)
      → IsValid g
      → HasLimit g.m_maxbytes
      → length buffer ≤ 16384
      → g.m_len + length buffer < 2 ^ 64
  no_wrap g buffer v h small = let within = v.limited h.0 in omega arith

  -- A run over `g`, whose reply is `text`.
  abbrev Refines : ℤ → Str → Performing c.W → SimpleCurlGet c → Type 0
  Refines maxbytes text run g =
      (g' : SimpleCurlGet c) × (run_performing c run g ≡ (ok (append_all maxbytes run text).0, g'))
      × (contents g' ≡ (append_all maxbytes run text).1)
      × IsValid g'
      × (g'.m_maxbytes ≡ maxbytes)
      × (length g.m_data ≤ length g'.m_data)

  Refines-as :
      (run : Performing c.W) (g : SimpleCurlGet c) (maxbytes : ℤ) (text : Str)
      → g.m_maxbytes ≡ maxbytes
      → contents g ≡ text
      → Refines g.m_maxbytes (contents g) run g
      → Refines maxbytes text run g
  Refines-as run g maxbytes text e f r = rw (← e, ← f) r

  -- One write, and the rest of the run.
  run-after_write :
      (g g₁ : SimpleCurlGet c) (maxbytes : ℤ) (text : Str) (size nmemb : ℕ) (buffer : Str)
      (rest : ℕ → Performing c.W)
      → write_data c size nmemb buffer g ≡ ok ((append_limited maxbytes text buffer).0, g₁)
      → length g.m_data ≤ length g₁.m_data
      → Refines maxbytes
          (append_limited maxbytes text buffer).1
          (rest (append_limited maxbytes text buffer).0)
          g₁
      → Refines maxbytes text (writes size nmemb buffer rest) g
  unfolding run_performing append_all
  run-after_write g g₁ maxbytes text size nmemb buffer rest wrote grew
        (g₂, ran, ends, v, kept, grew₂) =
      (
        g₂,
        ap (λ r. on_write c r g (λ taken g'. run_performing c (rest taken) g')) wrote ∙ ran,
        ends,
        v,
        kept,
        omega arith,
      )

  -- What libcurl writes as it documents, to a valid buffer with a positive limit, is never
  -- undefined, leaves the buffer valid and the limit unchanged, and gives libcurl the answers, and
  -- the reply the bytes, that a byte string growing by whole chunks up to the limit gives.
  pub run_performing_refines :
      (run : Performing c.W) (g : SimpleCurlGet c)
      → IsDocumented run
      → IsValid g
      → HasLimit g.m_maxbytes
      → (g' : SimpleCurlGet c) × (run_performing c run g
          ≡ (ok (append_all g.m_maxbytes run (contents g)).0, g'))
        × (contents g' ≡ (append_all g.m_maxbytes run (contents g)).1)
        × IsValid g'
        × (g'.m_maxbytes ≡ g.m_maxbytes)
        × (length g.m_data ≤ length g'.m_data)
  unfolding run_performing append_all
  run_performing_refines (returns code still_running w) g d v h =
      (g, refl, refl, v, refl, omega arith)
  run_performing_refines (writes size nmemb buffer rest) g d v h =
      let (one, small, sized, again) = d in
      let step = append_limited g.m_maxbytes (contents g) buffer in
      let (g₁, wrote, holds, v₁, kept, grew) =
        write_data_refines c g size nmemb buffer v (rw one (omega arith))
          (no_wrap g buffer v h (omega arith)) in
      run-after_write g g₁ g.m_maxbytes (contents g) size nmemb buffer rest wrote grew (
        Refines-as (rest step.0) g₁ g.m_maxbytes step.1 kept holds
          (run_performing_refines (rest step.0) g₁ (again step.0) v₁ (rw kept h)))
