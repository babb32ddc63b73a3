-- ===== src/Framing.antt =====
-- rust/telesthete/src/framing.rs: the 27-byte cleartext header, sealed packets and route ids;
-- rust/telesthitium/src/frame.rs: what the hub reads of a packet.
pub mod ChannelType
pub mod Codec
pub mod Hex
pub mod Packet
pub mod RouteId
mod Tests
use telesthete.Base.{
  ℕ, ◌+◌, ◌≡◌, ite, Option, none, some, List, [], ◌∷◌, ◌++◌, ltb, if◌then◌else◌, length, take, drop,
  get_or, slice, ◌==◌, replicate,
}
use telesthete.Base.Bytes.{Bytes, to_be_bytes, from_be_bytes}
use telesthete.Base.Results.{Result, ok, err, ok_or, map_err, ◌>>=◌}
use telesthete.Base.Text.{Text, codes}
use telesthete.Crypto.{
  Aead, Suite, CryptoError, Kdf, chacha20_poly1305, tag_len, band_id_len, build_aad, encrypt_suite,
  decrypt_suite,
}
use ChannelType.{to_u8, from_u8}

abbrev pub header_len : ℕ
header_len = 27

abbrev pub min_packet_len : ℕ
min_packet_len = header_len + tag_len

pub record Header : Type 0 where
  pub band_id : Bytes
  pub channel_type : ChannelType.ChannelType
  pub channel_id : ℕ
  pub sequence : ℕ

pub data FramingError : Type 0 where
  too_short : ℕ → FramingError
  unknown_channel_type : ℕ → FramingError
  crypto : CryptoError → FramingError

-- The bytes that `Header::write` puts into `out[..27]`: four writes side by side.
unfoldable pub header_bytes : Header → Bytes
header_bytes h =
    h.band_id ++ (to_u8 h.channel_type ∷ (to_be_bytes 2 h.channel_id ++ to_be_bytes 8 h.sequence))

-- `none` is a panic: the buffer is too small for the header.
unfoldable pub write : Header → Bytes → Option (Bytes × ℕ)
write h out =
    if ltb (length out) header_len
    then none
    else some (header_bytes h ++ drop header_len out, header_len)

unfoldable pub parse : Bytes → Result FramingError Header
parse input = if ltb (length input) header_len then err (too_short (length input)) else do
  channel_type ← ok_or (from_u8 (get_or input 16 0)) (unknown_channel_type (get_or input 16 0))
  ok (record {
    band_id = take band_id_len input;
    channel_type = channel_type;
    channel_id = from_be_bytes (slice 17 19 input);
    sequence = from_be_bytes (slice 19 27 input);
  })

module _ (a : Aead) where
  unfoldable pub encode_packet_suite :
      Suite → Bytes → Bytes → ChannelType.ChannelType → ℕ → ℕ → Bytes → Result FramingError Bytes
  unfolding write
  encode_packet_suite suite key band_id channel_type channel_id sequence plaintext = do
    ct ←
        map_err crypto
          (encrypt_suite a suite key sequence (build_aad (to_u8 channel_type) channel_id) plaintext)
    let header : Header = record {
      band_id = band_id;
      channel_type = channel_type;
      channel_id = channel_id;
      sequence = sequence;
    }
    -- The buffer has room for the header, so the first case, the panic, is never met.
    elim (write header (replicate header_len 0)) [
      | none ↦ err (too_short header_len)
      | some written ↦ ok (written.0 ++ ct)
    ]

  unfoldable pub decode_packet_suite : Suite → Bytes → Bytes → Result FramingError (Header × Bytes)
  decode_packet_suite suite key packet =
      if ltb (length packet) min_packet_len then err (too_short (length packet)) else do
        header ← parse packet
        pt ← map_err crypto (
            decrypt_suite a suite key header.sequence
              (build_aad (to_u8 header.channel_type) header.channel_id) (drop header_len packet))
        ok (header, pt)

  unfoldable pub encode_packet :
      Bytes → Bytes → ChannelType.ChannelType → ℕ → ℕ → Bytes → Result FramingError Bytes
  encode_packet = encode_packet_suite chacha20_poly1305

  unfoldable pub decode_packet : Bytes → Bytes → Result FramingError (Header × Bytes)
  decode_packet = decode_packet_suite chacha20_poly1305

-- The first nonzero big-endian pair of the digest; an odd last byte is no pair.
unfoldable pub first_nonzero : Bytes → Option ℕ
first_nonzero (x ∷ y ∷ rest) =
    let next = first_nonzero rest in
    if from_be_bytes (x ∷ y ∷ []) == 0 then next else some (from_be_bytes (x ∷ y ∷ []))
first_nonzero _ = none

unfoldable pub route_id_for : Kdf → Text → ℕ
route_id_for k name = elim (first_nonzero (k.sha256 (codes "telesthete-route-v1:" ++ name))) [
  | none ↦ 1
  | some v ↦ v
]

pub record RouteInfo : Type 0 where
  pub band_id : Bytes
  pub channel_type : Option ChannelType.ChannelType
  pub channel_id : ℕ

unfoldable pub route_info : Bytes → Option RouteInfo
route_info pkt =
    if ltb (length pkt) min_packet_len
    then none
    else some (record {
      band_id = take band_id_len pkt;
      channel_type = from_u8 (get_or pkt 16 0);
      channel_id = from_be_bytes (slice 17 19 pkt);
    })
