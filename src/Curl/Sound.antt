-- ===== src/Curl/Sound.antt =====
-- A whole transfer over a libcurl that calls the write function as it documents: what `perform`
-- keeps of the buffer.
use scitokens_cpp.Prelude.{
  ◌≤◌, ◌<◌, ◌≡◌, Option, Str, Result, ok, throw, undefined, length, ℤ, pos_part,
}
use scitokens_cpp.Exec.{Exec}
use scitokens_cpp.Curl.{Curl, SimpleCurlGet, Getting, grown}
use scitokens_cpp.Curl.Buffer.{IsValid}
use scitokens_cpp.Curl.Runs.{IsDocumented, HasLimit}
use scitokens_cpp.Curl.Transfer.{initial_size, get_data}

-- What holds of the object after a call that is defined.
abbrev pub Post :
    {c : Curl} {A : Type 0} → (SimpleCurlGet c → Type 0) → Result A × Getting c → Type 0
Post P (ok a, s) = P s.1
Post P (throw e, s) = Unit
Post P (undefined, s) = ⊥

module _ (c : Curl) where
  -- The same buffer.
  abbrev Same : SimpleCurlGet c → SimpleCurlGet c → Type 0
  Same g g' = (g'.m_len ≡ g.m_len) × (g'.m_data ≡ g.m_data) × (g'.m_maxbytes ≡ g.m_maxbytes)

  module _ (maxbytes : ℤ) (limit : HasLimit maxbytes) where
    -- A valid buffer with room for a first byte, and the limit.
    record IsReady (g : SimpleCurlGet c) : Type 0 where
      valid : IsValid g
      room : 0 < length g.m_data
      kept : g.m_maxbytes ≡ maxbytes

    -- `perform_start` before the buffer is reserved.
    abbrev IsFresh : SimpleCurlGet c → Type 0
    IsFresh g = (g.m_maxbytes ≡ maxbytes) × (g.m_len ≡ 0)

    reserved : SimpleCurlGet c → SimpleCurlGet c
    reserved g = record g { m_data = grown (initial_size c g.m_maxbytes) g.m_data }

    module _
        (documented : (m : Option c.Multi) (w : c.W)
          → IsDocumented (c.curl_multi_perform m w)) where
      -- What `get_data` reads of a ready buffer.
      abbrev pub HasReply : SimpleCurlGet c → Type 0
      HasReply g = (reply : Str) × (get_data c g ≡ ok reply) × (length reply ≤ pos_part maxbytes)
