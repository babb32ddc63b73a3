-- ===== src/Framing/Tests.antt =====
-- The theorems on framing at concrete inputs, and runs. The stand-in cipher puts a tag of sixteen
-- zeros before the message.
use telesthete.Base.{
  some, none, ◌⊎◌, ◌<◌, ◌≤◌, drop, ℕ, ◌+◌, ◌≡◌, refl, arith, [], ◌∷◌, ◌++◌, length, replicate,
}
use telesthete.Base.Bytes.{Bytes, from_be_bytes, to_be_bytes}
use telesthete.Base.Results.{ok, err}
use telesthete.Base.Text.{codes}
use telesthete.Crypto.{Kdf, chacha20_poly1305, encrypt_suite, decrypt_suite}
use telesthete.Crypto.StandIn.{untag, toy, toy-IsAead}
use telesthete.Framing.ChannelType.{stream, to_u8, from_u8}
use telesthete.Framing.{
  Header, header_bytes, parse, write, encode_packet_suite, decode_packet_suite, route_id_for,
  first_nonzero, unknown_channel_type,
}
use telesthete.Framing.Codec.{IsHeader, parse-write, header_bytes-parse}
use telesthete.Framing.Packet.{decode-encode, encode-decode, nonce_aad_injective, header_of}
use telesthete.Framing.Hex.{
  band_from_hex-band_hex, band_hex, band_from_hex, read_pairs, is_char_boundary, from_str_radix,
  hex_value,
}

abbrev band : Bytes
band = replicate 16 7

abbrev header : Header
header = header_of band stream 0xbeef 0x0123456789abcdef

header-IsHeader : IsHeader header
header-IsHeader = omega arith

abbrev wire : Bytes
wire = band ++ (1 ∷ 0xbe ∷ 0xef ∷ 0x01 ∷ 0x23 ∷ 0x45 ∷ 0x67 ∷ 0x89 ∷ 0xab ∷ 0xcd ∷ 0xef ∷ [])

abbrev packet : Bytes
packet = wire ++ (replicate 16 0 ++ (5 ∷ []))

header_on_wire : header_bytes header ≡ wire
unfolding header_bytes to_be_bytes to_u8
header_on_wire = refl

wire_parses : parse wire ≡ ok header
unfolding parse from_u8 from_be_bytes
wire_parses = refl

packet_encodes :
    encode_packet_suite toy chacha20_poly1305 [] band stream 0xbeef 0x0123456789abcdef (5 ∷ [])
    ≡ ok packet
unfolding encode_packet_suite encrypt_suite header_bytes to_be_bytes to_u8
packet_encodes = refl

packet_decodes : decode_packet_suite toy chacha20_poly1305 [] packet ≡ ok (header, 5 ∷ [])
unfolding decode_packet_suite decrypt_suite parse from_u8 from_be_bytes untag
packet_decodes = refl

unknown_type : parse (replicate 27 0xff) ≡ err (unknown_channel_type 0xff)
unfolding parse from_u8
unknown_type = refl

parse-write_example :
    ((30 < 27) × (write header (replicate 30 9) ≡ none))
    ⊎ ((27 ≤ 30)
        × (buf : Bytes) × (write header (replicate 30 9) ≡ some (buf, 27))
        × (length buf ≡ 30)
        × (parse buf ≡ ok header)
        × (drop 27 buf ≡ 9 ∷ 9 ∷ 9 ∷ []))
parse-write_example = parse-write header (replicate 30 9) header-IsHeader

header_bytes-parse_example : (header_bytes header ++ [] ≡ wire) × IsHeader header
header_bytes-parse_example = header_bytes-parse wire header (omega arith) wire_parses

decode-encode_example :
    (decode_packet_suite toy chacha20_poly1305 [] packet ≡ ok (header, 5 ∷ []))
    × (length packet ≡ length {A = ℕ} (5 ∷ []) + 43)
decode-encode_example =
    decode-encode toy chacha20_poly1305 [] (5 ∷ []) packet header toy-IsAead header-IsHeader
      packet_encodes

encode-decode_example :
    encode_packet_suite toy chacha20_poly1305 [] band stream 0xbeef 0x0123456789abcdef (5 ∷ [])
    ≡ ok packet
encode-decode_example =
    encode-decode toy chacha20_poly1305 [] (5 ∷ []) packet header toy-IsAead (omega arith)
      packet_decodes

nonce_aad_injective_example :
    (stream ≡ stream)
    × (header.channel_id ≡ header.channel_id)
    × (header.sequence ≡ header.sequence)
nonce_aad_injective_example =
    nonce_aad_injective header header header-IsHeader header-IsHeader refl refl

abbrev toy_kdf : Kdf
toy_kdf = record { sha256 = λ m. 0 ∷ 0 ∷ 1 ∷ 2 ∷ []; hkdf = λ salt ikm info. [] }

toy_route_id : route_id_for toy_kdf (codes "peer") ≡ 258
unfolding route_id_for first_nonzero from_be_bytes
toy_route_id = refl

packet_parses : parse packet ≡ ok header
unfolding parse from_u8 from_be_bytes
packet_parses = refl

band_from_hex-band_hex_example :
    band_from_hex (band_hex (replicate 16 0xa7)) ≡ some (some (replicate 16 0xa7))
band_from_hex-band_hex_example = band_from_hex-band_hex (replicate 16 0xa7) (omega arith) refl

band_hex_run : band_hex (0x0f ∷ 0xa0 ∷ 0xff ∷ []) ≡ codes "0fa0ff"
unfolding band_hex
band_hex_run = refl

-- Both cases, a sign in place of a digit, and what is no digit.
band_from_hex_run :
    (band_from_hex (codes "000102030405060708090a0B0c0D0e+f")
      ≡ some (some (0 ∷ 1 ∷ 2 ∷ 3 ∷ 4 ∷ 5 ∷ 6 ∷ 7 ∷ 8 ∷ 9 ∷ 10 ∷ 11 ∷ 12 ∷ 13 ∷ 14 ∷ 15 ∷ [])))
    × (band_from_hex (codes "000102030405060708090a0b0c0d0ezz") ≡ some none)
    × (band_from_hex (codes "00") ≡ some none)
unfolding band_from_hex read_pairs is_char_boundary from_str_radix hex_value
band_from_hex_run = (refl, refl, refl)

-- A character of two bytes that the slices cut.
band_from_hex_panics :
    band_from_hex (codes "0" ++ (0xc3 ∷ 0xa9 ∷ codes "00000000000000000000000000000")) ≡ none
unfolding band_from_hex read_pairs is_char_boundary
band_from_hex_panics = refl
