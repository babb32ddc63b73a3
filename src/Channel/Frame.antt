-- ===== src/Channel/Frame.antt =====
-- rust/telesthete/src/channel.rs: `ChannelFrame`, the plaintext of a Channel packet.
use telesthete.Base.{
  ℕ, ◌+◌, ◌^◌, ◌<◌, ◌≡◌, refl, ◌∙◌, ◌∷◌, ◌++◌, arith, length, drop, get_or, slice, ltb,
  if◌then◌else◌, not, ◌==◌, ◌||◌, Option, none, some, Bool, false, bit_and, take-append,
  drop-append, drop-append_past, length-append, le→ltb,
}
use telesthete.Base.Bytes.{
  Bytes, to_be_bytes, from_be_bytes, length-to_be_bytes, from_be_bytes-to_be_bytes,
}

abbrev pub flag_syn : ℕ
flag_syn = 0x01

abbrev pub flag_fin : ℕ
flag_fin = 0x02

abbrev pub flag_ack : ℕ
flag_ack = 0x04

abbrev pub flag_rst : ℕ
flag_rst = 0x08

abbrev pub reserved_mask : ℕ
reserved_mask = 0xF0

abbrev pub channel_header_len : ℕ
channel_header_len = 19

pub record ChannelFrame : Type 0 where
  pub flags : ℕ
  pub ack_num : ℕ
  pub window : ℕ
  pub seq : ℕ
  pub data_ : Bytes

unfoldable pub serialize : ChannelFrame → Bytes
serialize f =
    f.flags
    ∷ (to_be_bytes 8 f.ack_num ++ (to_be_bytes 2 f.window ++ (to_be_bytes 8 f.seq ++ f.data_)))

-- `flags & mask != 0`.
unfoldable pub has_flag : ℕ → ℕ → Bool
has_flag flags mask = not (bit_and flags mask == 0)

unfoldable pub parse : Bytes → Option ChannelFrame
parse buf =
    if ltb (length buf) channel_header_len
    then none
    else if has_flag (get_or buf 0 0) reserved_mask
    then none
    else some (record {
      flags = get_or buf 0 0;
      ack_num = from_be_bytes (slice 1 9 buf);
      window = from_be_bytes (slice 9 11 buf);
      seq = from_be_bytes (slice 11 19 buf);
      data_ = drop channel_header_len buf;
    })

unfoldable pub consumes_seq : ChannelFrame → Bool
consumes_seq f = has_flag f.flags flag_syn || has_flag f.flags flag_fin || not (length f.data_ == 0)

-- The ranges of a frame's Rust types, with no reserved flag.
pub record IsFrame (f : ChannelFrame) : Type 0 where
  pub no_reserved : has_flag f.flags reserved_mask ≡ false
  pub ack_num : f.ack_num < 256 ^ 8
  pub window : f.window < 256 ^ 2
  pub seq : f.seq < 256 ^ 8

module _ (f : ChannelFrame) (v : IsFrame f) where
  length-serialize : length (serialize f) ≡ 19 + length f.data_
  unfolding serialize
  length-serialize = omega (
    arith,
    length-append (to_be_bytes 8 f.ack_num)
        (to_be_bytes 2 f.window ++ (to_be_bytes 8 f.seq ++ f.data_)),
    length-append (to_be_bytes 2 f.window) (to_be_bytes 8 f.seq ++ f.data_),
    length-append (to_be_bytes 8 f.seq) f.data_,
    length-to_be_bytes 8 f.ack_num,
    length-to_be_bytes 2 f.window,
    length-to_be_bytes 8 f.seq,
  )

  flags_part : get_or (serialize f) 0 0 ≡ f.flags
  unfolding serialize
  flags_part = refl

  ack_num_part : slice 1 9 (serialize f) ≡ to_be_bytes 8 f.ack_num
  unfolding serialize
  ack_num_part = take-append 8 (to_be_bytes 8 f.ack_num) _ (length-to_be_bytes 8 f.ack_num)

  past_ack_num : drop 9 (serialize f) ≡ to_be_bytes 2 f.window ++ (to_be_bytes 8 f.seq ++ f.data_)
  unfolding serialize
  past_ack_num = drop-append 8 (to_be_bytes 8 f.ack_num) _ (length-to_be_bytes 8 f.ack_num)

  past_window : drop 11 (serialize f) ≡ to_be_bytes 8 f.seq ++ f.data_
  unfolding serialize
  past_window =
      drop-append_past 8 2 (to_be_bytes 8 f.ack_num) _ (length-to_be_bytes 8 f.ack_num)
      ∙ drop-append 2 (to_be_bytes 2 f.window) _ (length-to_be_bytes 2 f.window)

  past_seq : drop 19 (serialize f) ≡ f.data_
  unfolding serialize
  past_seq =
      drop-append_past 8 10 (to_be_bytes 8 f.ack_num) _ (length-to_be_bytes 8 f.ack_num)
      ∙ drop-append_past 2 8 (to_be_bytes 2 f.window) _ (length-to_be_bytes 2 f.window)
      ∙ drop-append 8 (to_be_bytes 8 f.seq) _ (length-to_be_bytes 8 f.seq)

-- A frame whose fields are in their ranges and that has no reserved flag is parsed back from what
-- it serializes to.
pub parse-serialize : (f : ChannelFrame) → IsFrame f → parse (serialize f) ≡ some f
unfolding parse
parse-serialize f v =
    let long : ltb (length (serialize f)) 19 ≡ false =
      le→ltb _ _ (omega (arith, length-serialize f v)) in
    rw (
      long,
      flags_part f v,
      v.no_reserved,
      ack_num_part f v,
      past_ack_num f v,
      past_window f v,
      take-append 2 (to_be_bytes 2 f.window) (to_be_bytes 8 f.seq ++ f.data_)
          (length-to_be_bytes 2 f.window),
      take-append 8 (to_be_bytes 8 f.seq) f.data_ (length-to_be_bytes 8 f.seq),
      past_seq f v,
      from_be_bytes-to_be_bytes 8 f.ack_num v.ack_num,
      from_be_bytes-to_be_bytes 2 f.window v.window,
      from_be_bytes-to_be_bytes 8 f.seq v.seq,
    )
