-- ===== src/Curl.antt =====
-- `SimpleCurlGet` of src/scitokens_internal.h and src/scitokens_internal.cpp: one HTTP transfer and
-- the buffer of its reply. libcurl is a parameter.
pub mod Buffer
pub mod Transfer
pub mod Runs
pub mod Sound
pub mod Waiting
use scitokens_cpp.Prelude.{
  ℕ, ◌+◌, ◌-◌, ◌*◌, ◌%◌, ◌^◌, ltb, leb, ◌==◌, Bool, true, false, not, ◌&&◌, List, [], ◌++◌, Option,
  none, some, Str, str, Result, ok, throw, undefined, curl, is_empty, length, take, drop, replicate,
  if◌then◌else◌, ℤ, pos, negsuc, pos_part, ltb_ℤ, ◌-ℤ◌, ◌*ℤ◌,
}
use scitokens_cpp.Exec.{Exec, pure, fail, lift, gets, call, ◌>>=◌, ◌>>◌}
use scitokens_cpp.Fetch.{GetStatus}

-- What libcurl does in one `curl_multi_perform`: it calls the write function, with a size, a number
-- of members and their bytes, and goes on by its answer; then it returns a code and the number of
-- transfers that still run.
pub data Performing (W : Type 0) : Type 0 where
  writes : ℕ → ℕ → Str → (ℕ → Performing W) → Performing W
  returns : ℕ → ℕ → W → Performing W

-- What repeated calls of `curl_multi_info_read` return, up to the null pointer: a CURLMSG_DONE, whose
-- handle the code then removes, with its result, or another message.
pub data Messages (W : Type 0) : Type 0 where
  end : W → Messages W
  done : ℤ → Messages W → Messages W
  other : Messages W → Messages W

-- libcurl, and `time` and `select`. A null handle is `none`, and a code is zero for success.
pub record Curl : Type 1 where
  pub W : Type 0
  pub Easy : Type 0
  pub Multi : Type 0
  pub FdSets : Type 0
  pub no_fds : FdSets
  pub curl_multi_init : W → Option Multi × W
  pub curl_easy_init : W → Option Easy × W
  pub set_url : Option Easy → Str → W → ℕ × W
  pub set_writefunction : Option Easy → W → ℕ × W
  pub set_writedata : Option Easy → W → ℕ × W
  pub set_timeout : Option Easy → ℕ → W → ℕ × W
  pub curl_multi_add_handle : Option Multi → Option Easy → W → ℕ × W
  pub curl_multi_perform : Option Multi → W → Performing W
  -- the code and the timeout in milliseconds
  pub curl_multi_timeout : Option Multi → W → (ℕ × ℤ) × W
  -- the code, the three sets, and the highest descriptor
  pub curl_multi_fdset : Option Multi → W → (ℕ × FdSets × ℤ) × W
  pub curl_multi_info_read : Option Multi → W → Messages W
  -- the code and the status code of the reply
  pub response_code : Option Easy → W → (ℕ × ℤ) × W
  pub curl_multi_strerror : ℕ → Str
  pub curl_easy_strerror : ℤ → Str
  pub time : W → ℤ × W
  -- the highest descriptor plus one, the sets, and the timeout in seconds and microseconds
  pub select : ℤ → FdSets → ℤ × ℤ → W → W

pub record SimpleCurlGet (c : Curl) : Type 0 where
  pub m_maxbytes : ℤ
  pub m_timeout : ℕ
  pub m_data : Str
  pub m_len : ℕ
  pub m_curl : Option c.Easy
  pub m_curl_multi : Option c.Multi
  pub m_fd_sets : c.FdSets
  pub m_max_fd : ℤ
  pub m_timeout_ms : ℤ

-- `size_t` arithmetic
abbrev pub add_size : ℕ → ℕ → ℕ
add_size a b = (a + b) % 2 ^ 64

abbrev pub mul_size : ℕ → ℕ → ℕ
mul_size a b = (a * b) % 2 ^ 64

-- `m_data.resize(n)` where it is called: on fewer than n bytes.
unfoldable pub resize : ℕ → Str → Str
resize n bytes = bytes ++ replicate (n - length bytes) 0

-- `memcpy` of `new_data` bytes to the position `at`. `&m_data[at]` at the end is taken for the
-- pointer past the last byte; a range that goes further is undefined.
unfoldable pub memcpy : Str → ℕ → Str → ℕ → Result Str
memcpy bytes at buffer new_data =
    if leb (at + new_data) (length bytes) && leb new_data (length buffer)
    then ok (take at bytes ++ (take new_data buffer ++ drop (at + new_data) bytes))
    else undefined

-- Whether the reply would grow beyond `m_maxbytes`.
abbrev pub is_too_long : ℤ → ℕ → Bool
is_too_long maxbytes new_length = ltb_ℤ (pos 0) maxbytes && ltb (pos_part maxbytes) new_length

abbrev pub grown : ℕ → Str → Str
grown n bytes = if ltb (length bytes) n then resize n bytes else bytes

module _ (c : Curl) where
  open c use {W, Easy, Multi}

  -- `SimpleCurlGet(maxbytes, timeout)`
  abbrev pub new_get : ℤ → ℕ → SimpleCurlGet c
  new_get maxbytes timeout = record {
    m_maxbytes = maxbytes;
    m_timeout = timeout;
    m_data = [];
    m_len = 0;
    m_curl = none;
    m_curl_multi = none;
    m_fd_sets = c.no_fds;
    m_max_fd = negsuc 0;
    m_timeout_ms = pos 0;
  }

  abbrev pub Getting : Type 0
  Getting = W × SimpleCurlGet c

  abbrev stored : ℕ → ℕ → SimpleCurlGet c → Result Str → Result (ℕ × SimpleCurlGet c)
  stored new_data new_length g (ok bytes) =
      ok (new_data, record g { m_data = bytes; m_len = new_length })
  stored new_data new_length g (throw e) = throw e
  stored new_data new_length g undefined = undefined

  -- `write_data`: the bytes taken, 0 if the reply is too long.
  unfoldable pub write_data : ℕ → ℕ → Str → SimpleCurlGet c → Result (ℕ × SimpleCurlGet c)
  unfolding resize memcpy
  write_data size nmemb buffer g =
      let new_data = mul_size size nmemb in
      let new_length = add_size g.m_len new_data in
      if is_too_long g.m_maxbytes new_length
      then ok (0, g)
      else stored new_data new_length g (memcpy (grown new_length g.m_data) g.m_len buffer new_data)
