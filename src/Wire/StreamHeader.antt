-- ===== src/Wire/StreamHeader.antt =====
-- rust/telesthete/src/wire/stream.rs: the 8-byte header of a Stream payload.
use telesthete.Base.{
  ℕ, ◌+◌, ◌^◌, ◌≤◌, ◌<◌, ◌≡◌, ◌⊎◌, [], ◌∷◌, ◌++◌, arith, length, length-append, drop, get_or, slice,
  take-append, drop-append, length-drop, lt→ltb, dec_lt, ◌≢◌, some, none, Option, ltb, le→ltb,
  if◌then◌else◌, ◌==◌, not, ◌||◌, bit_or, bit_and, Bool, inl, inr,
}
use telesthete.Base.Bits.{bit_or_all}
use telesthete.Base.Bytes.{
  Bytes, AreBytes, to_be_bytes, from_be_bytes, length-to_be_bytes, from_be_bytes-to_be_bytes,
}
use telesthete.Base.Results.{Result, ok, err, ok_or, ◌>>=◌}

abbrev pub stream_header_len : ℕ
stream_header_len = 8

abbrev pub with_fence : ℕ
with_fence = 0x20

abbrev pub reuse : ℕ
reuse = 0x40

-- The union of the eight named flags.
abbrev pub all_flags : ℕ
all_flags = 0x01 + 0x02 + 0x04 + 0x08 + 0x10 + with_fence + reuse + 0x80

-- `StreamFlags::from_bits`: refuses a bit that names no flag.
unfoldable pub from_bits : ℕ → Option ℕ
from_bits bits = if bit_or bits all_flags == all_flags then some bits else none

-- `StreamFlags::contains`, of one flag.
unfoldable pub contains : ℕ → ℕ → Bool
contains flags flag = bit_and flags flag == flag

pub record StreamHeader : Type 0 where
  pub flags : ℕ
  pub frame_id : ℕ

pub data StreamHeaderError : Type 0 where
  too_short : ℕ → StreamHeaderError
  reserved_nonzero : StreamHeaderError
  unknown_flags : ℕ → StreamHeaderError

unfoldable pub write : StreamHeader → Bytes → Result StreamHeaderError (Bytes × ℕ)
write h out =
    if ltb (length out) stream_header_len
    then err (too_short (length out))
    else ok (
      (h.flags ∷ 0 ∷ 0 ∷ 0 ∷ to_be_bytes 4 h.frame_id) ++ drop stream_header_len out,
      stream_header_len,
    )

unfoldable pub parse : Bytes → Result StreamHeaderError (StreamHeader × Bytes)
parse input = if ltb (length input) stream_header_len then err (too_short (length input)) else do
  flags ← ok_or (from_bits (get_or input 0 0)) (unknown_flags (get_or input 0 0))
  let reserved =
      not (get_or input 1 0 == 0) || not (get_or input 2 0 == 0) || not (get_or input 3 0 == 0)
  let header : StreamHeader = record { flags = flags; frame_id = from_be_bytes (slice 4 8 input) }
  if reserved then err reserved_nonzero else ok (header, drop stream_header_len input)

pub from_bits-IsByte : (b : ℕ) → b < 256 → from_bits b ≡ some b
unfolding from_bits
from_bits-IsByte b h = rw (bit_or_all b h)

-- The ranges of the header's Rust types, `u8` and `u32`.
abbrev pub IsStreamHeader : StreamHeader → Type 0
IsStreamHeader h = (h.flags < 256) × (h.frame_id < 256 ^ 4)

module _ (h : StreamHeader) (v : IsStreamHeader h) (rest : Bytes) where
  abbrev buffer : Bytes
  buffer = h.flags ∷ 0 ∷ 0 ∷ 0 ∷ (to_be_bytes 4 h.frame_id ++ rest)

  length-buffer : length buffer ≡ 8 + length rest
  length-buffer =
      omega (arith, length-append (to_be_bytes 4 h.frame_id) rest, length-to_be_bytes 4 h.frame_id)

  parse-buffer : parse buffer ≡ ok (h, rest)
  unfolding parse
  parse-buffer = rw (
    le→ltb (length buffer) 8 (omega (arith, length-buffer)),
    from_bits-IsByte h.flags v.0,
    take-append 4 (to_be_bytes 4 h.frame_id) rest (length-to_be_bytes 4 h.frame_id),
    drop-append 4 (to_be_bytes 4 h.frame_id) rest (length-to_be_bytes 4 h.frame_id),
    from_be_bytes-to_be_bytes 4 h.frame_id v.1,
  )

-- A header written into a buffer of at least 8 bytes is read back with the buffer's bytes behind
-- it, and a smaller buffer is refused.
pub parse-write_stream :
    (h : StreamHeader) (out : Bytes)
    → IsStreamHeader h
    → ((length out < 8) × (write h out ≡ err (too_short (length out))))
      ⊎ ((8 ≤ length out)
          × (buf : Bytes) × (write h out ≡ ok (buf, 8))
          × (length buf ≡ length out)
          × (parse buf ≡ ok (h, drop 8 out)))
unfolding write
parse-write_stream h out v = elim (dec_lt (length out) 8) [
  | yes short ↦ inl (short, rw (lt→ltb (length out) 8 short))
  | no long ↦ inr (
    omega arith,
    buffer h v (drop 8 out),
    rw (le→ltb (length out) 8 (omega arith)),
    omega (arith, length-buffer h v (drop 8 out), length-drop 8 out),
    parse-buffer h v (drop 8 out),
  )
]

-- No byte string is refused for its flags: all eight bits have a meaning.
pub parse_flags_known :
    (input : Bytes) (b : ℕ) → AreBytes input → parse input ≢ err (unknown_flags b)
unfolding parse
parse_flags_known [] b bytes e = ground arith
parse_flags_known (x ∷ rest) b bytes e = ground (arith, from_bits-IsByte x bytes.0)
