-- ===== src/Framing/Codec.antt =====
-- framing.rs, `Header::write` and `Header::parse`.
use telesthete.Base.{
  ℕ, ◌+◌, ◌-◌, ◌^◌, ◌≤◌, ◌<◌, ◌≡◌, refl, ap, ◌∙◌, ◌⊎◌, le→ltb, ◌∷◌, ◌++◌, arith, length,
  length-append, take, drop, get_or, slice, take-append, drop-append, drop-append_past,
  get_or-append_past, slice-append-drop, length-slice, drop-get_or, take-append-drop, Bool-cases,
  inl, inr, ltb, ltb→lt, ltb→le, length-drop, All-drop, All-take, some, none, append_assoc,
  length-take,
}
use telesthete.Base.Bytes.{
  Bytes, AreBytes, IsByte, to_be_bytes, from_be_bytes, length-to_be_bytes,
  from_be_bytes-to_be_bytes, to_be_bytes-from_be_bytes, from_be_bytes-lt,
}
use telesthete.Base.Results.{ok, err}
use telesthete.Framing.ChannelType.{to_u8, from_u8, from_u8-to_u8, to_u8-from_u8}
use telesthete.Framing.{
  Header, header_len, header_bytes, parse, write, too_short, unknown_channel_type,
}

-- The ranges that the header's Rust types have: `[u8; 16]`, `u16` and `u64`.
pub record IsHeader (h : Header) : Type 0 where
  pub band : length h.band_id ≡ 16
  pub id : h.channel_id < 256 ^ 2
  pub seq : h.sequence < 256 ^ 8

pub length-header_bytes : (h : Header) → IsHeader h → length (header_bytes h) ≡ header_len
unfolding header_bytes
length-header_bytes h v = omega (
  arith,
  length-append h.band_id
      (to_u8 h.channel_type ∷ (to_be_bytes 2 h.channel_id ++ to_be_bytes 8 h.sequence)),
  length-append (to_be_bytes 2 h.channel_id) (to_be_bytes 8 h.sequence),
  length-to_be_bytes 2 h.channel_id,
  length-to_be_bytes 8 h.sequence,
  v.band,
)

module _ (h : Header) (v : IsHeader h) (rest : Bytes) where
  tail_bytes : Bytes
  tail_bytes = to_be_bytes 2 h.channel_id ++ (to_be_bytes 8 h.sequence ++ rest)

  packet_shape : header_bytes h ++ rest ≡ h.band_id ++ (to_u8 h.channel_type ∷ tail_bytes)
  unfolding header_bytes tail_bytes
  packet_shape = simp append_assoc

  packet_band : take 16 (header_bytes h ++ rest) ≡ h.band_id
  packet_band = rw packet_shape (take-append 16 h.band_id _ v.band)

  packet_type : get_or (header_bytes h ++ rest) 16 0 ≡ to_u8 h.channel_type
  packet_type = rw packet_shape (get_or-append_past 16 0 h.band_id _ 0 v.band)

  packet_id : slice 17 19 (header_bytes h ++ rest) ≡ to_be_bytes 2 h.channel_id
  unfolding tail_bytes
  packet_id = rw packet_shape (
      ap (take 2) (drop-append_past 16 1 h.band_id _ v.band)
      ∙ take-append 2 (to_be_bytes 2 h.channel_id) _ (length-to_be_bytes 2 h.channel_id))

  packet_seq : slice 19 27 (header_bytes h ++ rest) ≡ to_be_bytes 8 h.sequence
  unfolding tail_bytes
  packet_seq = rw packet_shape (
      ap (take 8) (
        drop-append_past 16 3 h.band_id _ v.band
        ∙ drop-append 2 (to_be_bytes 2 h.channel_id) _ (length-to_be_bytes 2 h.channel_id))
      ∙ take-append 8 (to_be_bytes 8 h.sequence) _ (length-to_be_bytes 8 h.sequence))

  length-packet : length (header_bytes h ++ rest) ≡ 27 + length rest
  length-packet =
      length-append (header_bytes h) rest ∙ ap (λ n. n + length rest) (length-header_bytes h v)

  -- Parsing what `header_bytes` wrote, whatever follows it.
  pub parse-header_bytes : parse (header_bytes h ++ rest) ≡ ok h
  unfolding parse
  parse-header_bytes = rw (
    le→ltb (length (header_bytes h ++ rest)) 27 (omega (arith, length-packet)),
    packet_type,
    from_u8-to_u8,
    packet_band,
    packet_id,
    packet_seq,
    from_be_bytes-to_be_bytes 2 _ v.id,
    from_be_bytes-to_be_bytes 8 _ v.seq,
  )

-- Writing a header panics on a buffer of fewer than 27 bytes. In a longer one, whatever it holds,
-- the header is read back from the first 27 bytes, the others stay as they were, and 27 is
-- returned.
pub parse-write :
    (h : Header) (out : Bytes)
    → IsHeader h
    → ((length out < 27) × (write h out ≡ none))
      ⊎ ((27 ≤ length out)
          × (buf : Bytes) × (write h out ≡ some (buf, 27))
          × (length buf ≡ length out)
          × (parse buf ≡ ok h)
          × (drop 27 buf ≡ drop 27 out))
unfolding write
parse-write h out v = elim (Bool-cases (ltb (length out) 27)) [
  | inl small ↦ inl (ltb→lt _ _ small, rw small refl)
  | inr room ↦
      let long : 27 ≤ length out = ltb→le _ _ room in
      let whole : length (header_bytes h ++ drop 27 out) ≡ length out =
        length-packet h v (drop 27 out) ∙ omega (arith, length-drop 27 out) in
      inr (
        long,
        header_bytes h ++ drop 27 out,
        rw room refl,
        whole,
        parse-header_bytes h v (drop 27 out),
        drop-append 27 (header_bytes h) (drop 27 out) (length-header_bytes h v),
      )
]

-- Parsing fails exactly on short input and on an unknown type byte, and says which.
pub parse_total :
    (input : Bytes)
    → ((length input < 27) × (parse input ≡ err (too_short (length input))))
      ⊎ ((27 ≤ length input)
          × (from_u8 (get_or input 16 0) ≡ none)
          × (parse input ≡ err (unknown_channel_type (get_or input 16 0))))
      ⊎ ((27 ≤ length input) × (h : Header) × (parse input ≡ ok h))
unfolding parse
parse_total input = ground arith

-- What a successful parse read.
parse_fields :
    (input : Bytes) (h : Header)
    → parse input ≡ ok h
    → (27 ≤ length input)
      × (from_u8 (get_or input 16 0) ≡ some h.channel_type)
      × (h.band_id ≡ take 16 input)
      × (h.channel_id ≡ from_be_bytes (slice 17 19 input))
      × (h.sequence ≡ from_be_bytes (slice 19 27 input))
unfolding parse
parse_fields input h e = ground arith

AreBytes-slice : (lo hi : ℕ) (xs : Bytes) → AreBytes xs → AreBytes (slice lo hi xs)
AreBytes-slice lo hi xs b = All-take IsByte (hi - lo) (drop lo xs) (All-drop IsByte lo xs b)

parse-IsHeader : (input : Bytes) (h : Header) → AreBytes input → parse input ≡ ok h → IsHeader h
parse-IsHeader input h bytes e =
    let (long, kind, band, id, seq) = parse_fields input h e in
    record {
      band = rw band (omega (arith, length-take 16 input));
      id = rw id (
          rw (length-slice 17 19 input (omega arith)) at
            (from_be_bytes-lt (slice 17 19 input) (AreBytes-slice 17 19 input bytes)));
      seq = rw seq (
          rw (length-slice 19 27 input (omega arith)) at
            (from_be_bytes-lt (slice 19 27 input) (AreBytes-slice 19 27 input bytes)));
    }

-- What parses is a header in its Rust ranges, and its bytes are the first 27 of the input.
pub header_bytes-parse :
    (input : Bytes) (h : Header)
    → AreBytes input
    → parse input ≡ ok h
    → (header_bytes h ++ drop header_len input ≡ input) × IsHeader h
unfolding header_bytes
header_bytes-parse input h bytes e = (whole, parse-IsHeader input h bytes e)
  where
    fields :
        (27 ≤ length input)
        × (from_u8 (get_or input 16 0) ≡ some h.channel_type)
        × (h.band_id ≡ take 16 input)
        × (h.channel_id ≡ from_be_bytes (slice 17 19 input))
        × (h.sequence ≡ from_be_bytes (slice 19 27 input))
    fields = parse_fields input h e

    id_bytes : to_be_bytes 2 h.channel_id ≡ slice 17 19 input
    id_bytes =
        ap (to_be_bytes 2) fields.3
        ∙ to_be_bytes-from_be_bytes 2 (slice 17 19 input)
            (length-slice 17 19 input (omega (arith, fields.0))) (AreBytes-slice 17 19 input bytes)

    seq_bytes : to_be_bytes 8 h.sequence ≡ slice 19 27 input
    seq_bytes =
        ap (to_be_bytes 8) fields.4
        ∙ to_be_bytes-from_be_bytes 8 (slice 19 27 input)
            (length-slice 19 27 input (omega (arith, fields.0))) (AreBytes-slice 19 27 input bytes)

    whole :
        (h.band_id
            ++ (to_u8 h.channel_type ∷ (to_be_bytes 2 h.channel_id ++ to_be_bytes 8 h.sequence)))
          ++ drop 27 input
        ≡ input
    whole =
        rw
          (
            fields.2,
            id_bytes,
            seq_bytes,
            to_u8-from_u8 (get_or input 16 0) fields.1,
            append_assoc,
            append_assoc,
            slice-append-drop 19 27 input (omega arith),
            slice-append-drop 17 19 input (omega arith),
            ← drop-get_or 16 input 0 (omega (arith, fields.0)),
          )
          (take-append-drop 16 input)
