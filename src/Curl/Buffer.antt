-- ===== src/Curl/Buffer.antt =====
-- The buffer of a transfer: what the write function keeps, and the byte string that it stands for.
use scitokens_cpp.Prelude.{
  ◌&&◌, ℕ, ◌+◌, ◌-◌, ◌*◌, ◌^◌, ◌≤◌, ◌<◌, ◌≡◌, refl, ap, ◌∙◌, ltb, true, false, ◌++◌, Str, ok,
  length, take, drop, replicate, length-append, length-take, length-drop, length-replicate,
  take-length, take-append, take-append_le, if◌then◌else◌, ℤ, pos, pos_part, ltb_ℤ, arith,
  Bool-cases, inl, inr,
}
use mathlib.Core.List.{append_assoc}
use scitokens_cpp.Curl.{
  Curl, SimpleCurlGet, add_size, mul_size, resize, memcpy, is_too_long, grown, write_data,
}

-- The reply that a buffer holds.
abbrev pub contents : {c : Curl} → SimpleCurlGet c → Str
contents g = take g.m_len g.m_data

-- The length lies in the buffer, and within the limit if there is one.
pub record IsValid {c : Curl} (g : SimpleCurlGet c) : Type 0 where
  pub inside : g.m_len ≤ length g.m_data
  pub limited : ltb_ℤ (pos 0) g.m_maxbytes ≡ true → g.m_len ≤ pos_part g.m_maxbytes

-- A byte string that grows by whole chunks up to a limit: the bytes taken, and the string.
abbrev pub append_limited : ℤ → Str → Str → ℕ × Str
append_limited maxbytes text chunk =
    if ltb_ℤ (pos 0) maxbytes && ltb (pos_part maxbytes) (length (text ++ chunk))
    then (0, text)
    else (length chunk, text ++ chunk)

-- A prefix of a prefix, and what stands behind it.
take-overwritten :
    (n : ℕ) (xs ys zs : Str)
    → n ≤ length xs
    → take (n + length ys) (take n xs ++ (ys ++ zs)) ≡ take n xs ++ ys
take-overwritten n xs ys zs h =
    let e : length (take n xs ++ ys) ≡ n + length ys =
      length-append {0} (take n xs) ys ∙ ap (λ k. k + length ys) (length-take n xs h) in
    rw (← e, ← append_assoc (take n xs) ys zs) (take-append (take n xs ++ ys) zs)

take-grown : (n m : ℕ) (xs : Str) → m ≤ length xs → take m (grown n xs) ≡ take m xs
unfolding resize
take-grown n m xs h = elim (Bool-cases (ltb (length xs) n)) [
  | inl more ↦ rw more (take-append_le m xs (replicate (n - length xs) 0) h)
  | inr fits ↦ rw fits
]

pub length-grown :
    (n : ℕ) (xs : Str) → (n ≤ length (grown n xs)) × (length xs ≤ length (grown n xs))
unfolding resize
length-grown n xs = ground (
  arith,
  length-append {0} xs (replicate (n - length xs) 0),
  length-replicate {A = ℕ} (n - length xs) 0,
)

-- Where the arithmetic does not wrap, the copy stays in the buffer.
memcpy-ok :
    (n : ℕ) (xs buffer : Str)
    → n + length buffer ≤ length xs
    → memcpy xs n buffer (length buffer) ≡ ok (take n xs ++ (buffer ++ drop (n + length buffer) xs))
unfolding memcpy
memcpy-ok n xs buffer h = rw (take-length buffer) (ground arith)

module _ (c : Curl) where
  written : SimpleCurlGet c → Str → SimpleCurlGet c
  written g buffer =
      let bytes = grown (g.m_len + length buffer) g.m_data in
      record g {
        m_data = take g.m_len bytes ++ (buffer ++ drop (g.m_len + length buffer) bytes);
        m_len = g.m_len + length buffer;
      }

  -- Where the sizes do not wrap, `write_data` is the write to the abstract byte string.
  write_data-plain :
      (g : SimpleCurlGet c) (size nmemb : ℕ) (buffer : Str)
      → IsValid g
      → length buffer ≡ size * nmemb
      → g.m_len + length buffer < 2 ^ 64
      → write_data c size nmemb buffer g ≡ (
          if is_too_long g.m_maxbytes (g.m_len + length buffer)
          then ok (0, g)
          else ok (length buffer, written g buffer))
  unfolding write_data written
  write_data-plain g size nmemb buffer v sized small =
      let e : mul_size size nmemb ≡ length buffer = omega (arith, sized) in
      let e₂ : add_size g.m_len (length buffer) ≡ g.m_len + length buffer = omega arith in
      let (room, kept) = length-grown (g.m_len + length buffer) g.m_data in
      rw (e, e₂, memcpy-ok g.m_len (grown (g.m_len + length buffer) g.m_data) buffer room)

  contents-written :
      (g : SimpleCurlGet c) (buffer : Str)
      → IsValid g
      → contents (written g buffer) ≡ contents g ++ buffer
  unfolding written
  contents-written g buffer v =
      let bytes = grown (g.m_len + length buffer) g.m_data in
      let (room, kept) = length-grown (g.m_len + length buffer) g.m_data in
      take-overwritten g.m_len bytes buffer (drop (g.m_len + length buffer) bytes) (omega arith)
      ∙ ap (λ l. l ++ buffer) (take-grown (g.m_len + length buffer) g.m_len g.m_data v.inside)

  written-IsValid :
      (g : SimpleCurlGet c) (buffer : Str)
      → IsValid g
      → is_too_long g.m_maxbytes (g.m_len + length buffer) ≡ false
      → IsValid (written g buffer)
  unfolding written
  written-IsValid g buffer v fits =
      let bytes = grown (g.m_len + length buffer) g.m_data in
      let rest = drop (g.m_len + length buffer) bytes in
      let (room, kept) = length-grown (g.m_len + length buffer) g.m_data in
      record {
        inside = omega (
          arith,
          length-append {0} (take g.m_len bytes) (buffer ++ rest),
          length-append {0} buffer rest,
          length-take {0} g.m_len bytes (omega arith),
        );
        limited = λ h. ground (arith, fits, h);
      }

  length-written :
      (g : SimpleCurlGet c) (buffer : Str)
      → IsValid g
      → length g.m_data ≤ length (written g buffer).m_data
  unfolding written
  length-written g buffer v =
      let bytes = grown (g.m_len + length buffer) g.m_data in
      let rest = drop (g.m_len + length buffer) bytes in
      let (room, kept) = length-grown (g.m_len + length buffer) g.m_data in
      omega (
        arith,
        length-append {0} (take g.m_len bytes) (buffer ++ rest),
        length-append {0} buffer rest,
        length-take {0} g.m_len bytes (omega arith),
        length-drop {0} (g.m_len + length buffer) bytes,
      )

  length-contents :
      (g : SimpleCurlGet c) (buffer : Str)
      → IsValid g
      → length (contents g ++ buffer) ≡ g.m_len + length buffer
  length-contents g buffer v =
      length-append {0} (contents g) buffer
      ∙ ap (λ k. k + length buffer) (length-take g.m_len g.m_data v.inside)

  -- A write of `size * nmemb` bytes to a valid buffer, where the lengths do not wrap, is defined,
  -- leaves the buffer valid and no shorter and the limit unchanged, and does to the reply what appending a whole
  -- chunk within the limit does: it is taken and stands behind the others, or it is refused and
  -- changes nothing.
  pub write_data_refines :
      (g : SimpleCurlGet c) (size nmemb : ℕ) (buffer : Str)
      → IsValid g
      → length buffer ≡ size * nmemb
      → g.m_len + length buffer < 2 ^ 64
      → (g' : SimpleCurlGet c) × (write_data c size nmemb buffer g
          ≡ ok ((append_limited g.m_maxbytes (contents g) buffer).0, g'))
        × (contents g' ≡ (append_limited g.m_maxbytes (contents g) buffer).1)
        × IsValid g'
        × (g'.m_maxbytes ≡ g.m_maxbytes)
        × (length g.m_data ≤ length g'.m_data)
  write_data_refines g size nmemb buffer v sized small =
      let plain = write_data-plain g size nmemb buffer v sized small in
      elim (Bool-cases (is_too_long g.m_maxbytes (g.m_len + length buffer))) [
        | inl long ↦ (
          g,
          rw (plain, length-contents g buffer v, long),
          rw (length-contents g buffer v, long),
          v,
          refl,
          omega arith,
        )
        | inr fits ↦ (
          written g buffer,
          rw (plain, length-contents g buffer v, fits),
          rw (length-contents g buffer v, fits) (contents-written g buffer v),
          written-IsValid g buffer v fits,
          unfold written in refl,
          length-written g buffer v,
        )
      ]
