-- ===== src/Framing/Packet.antt =====
-- framing.rs, `encode_packet_suite` and `decode_packet_suite`, over any AEAD.
use telesthete.Base.{
  ℕ, ◌+◌, ◌/◌, ◌%◌, ◌^◌, ◌≤◌, ◌<◌, ◌≡◌, sym, ap, ◌∙◌, le→ltb, ◌++◌, arith, length, length-append,
  drop, get_or, drop-append, some, inl, inr, Option-cases, append-nil,
}
use telesthete.Base.Bytes.{Bytes, AreBytes, from_be_bytes, from_be_bytes-to_be_bytes}
use telesthete.Base.Results.{ok}
use telesthete.Crypto.{Aead, IsAead, Suite, encrypt_suite, decrypt_suite, nonce_bytes, build_aad}
use telesthete.Framing.ChannelType.{ChannelType, to_u8, from_u8-to_u8}
use telesthete.Framing.{
  Header, header_len, min_packet_len, header_bytes, parse, write, encode_packet_suite,
  decode_packet_suite,
}
use telesthete.Framing.Codec.{IsHeader, length-header_bytes, parse-header_bytes, header_bytes-parse}

-- The header that `encode_packet_suite` writes.
abbrev pub header_of : Bytes → ChannelType → ℕ → ℕ → Header
header_of band t id seq = record {
  band_id = band;
  channel_type = t;
  channel_id = id;
  sequence = seq;
}

module _ (a : Aead) where
  -- A packet is the header followed by what the cipher seals.
  pub encode_shape :
      (s : Suite) (key plaintext pkt : Bytes) (h : Header)
      → encode_packet_suite a s key h.band_id h.channel_type h.channel_id h.sequence plaintext
        ≡ ok pkt
      → (ct : Bytes) × (a.seal s key
            (nonce_bytes h.sequence)
            (build_aad (to_u8 h.channel_type) h.channel_id)
            plaintext
          ≡ some ct)
        × (pkt ≡ header_bytes h ++ ct)
  unfolding encode_packet_suite encrypt_suite write
  encode_shape s key plaintext pkt h e =
      elim (Option-cases (
        a.seal s key (nonce_bytes h.sequence) (build_aad (to_u8 h.channel_type) h.channel_id)
          plaintext)) [
            | inl no_seal ↦ ground (arith, no_seal)
            | inr (ct, sealed) ↦ (ct, sealed, ground (arith, sealed, append-nil (header_bytes h)))
          ]

  decode_shape :
      (s : Suite) (key pkt plaintext : Bytes) (h : Header)
      → decode_packet_suite a s key pkt ≡ ok (h, plaintext)
      → (min_packet_len ≤ length pkt)
        × (parse pkt ≡ ok h)
        × (a.unseal s key
              (nonce_bytes h.sequence)
              (build_aad (to_u8 h.channel_type) h.channel_id)
              (drop header_len pkt)
            ≡ some plaintext)
  unfolding decode_packet_suite decrypt_suite
  decode_shape s key pkt plaintext h e = ground arith

-- Decoding an encoded packet gives back its header and its plaintext, and the packet is
-- 43 bytes longer than the plaintext.
pub decode-encode :
    (a : Aead) (s : Suite) (key plaintext pkt : Bytes) (h : Header)
    → IsAead a
    → IsHeader h
    → encode_packet_suite a s key h.band_id h.channel_type h.channel_id h.sequence plaintext
      ≡ ok pkt
    → (decode_packet_suite a s key pkt ≡ ok (h, plaintext)) × (length pkt ≡ length plaintext + 43)
unfolding decode_packet_suite decrypt_suite
decode-encode a s key plaintext pkt h law v e =
    let (ct, sealed, shape) = encode_shape a s key plaintext pkt h e in
    let size : length pkt ≡ length plaintext + 43 =
      ap length shape
      ∙ omega (
        arith,
        length-append (header_bytes h) ct,
        length-header_bytes h v,
        law.length-seal s key _ _ plaintext ct sealed,
      ) in
    let opened : a.unseal s key (nonce_bytes h.sequence)
          (build_aad (to_u8 h.channel_type) h.channel_id) (drop header_len pkt)
        ≡ some plaintext =
      rw (shape, drop-append 27 (header_bytes h) ct (length-header_bytes h v))
        (law.unseal-seal s key _ _ plaintext ct sealed) in
    let parsed : parse pkt ≡ ok h = rw shape (parse-header_bytes h v ct) in
    (rw (le→ltb (length pkt) 43 (omega arith), parsed, opened), size)

-- Decoding accepts only packets that encoding makes: one that opens is the encoding of the header
-- and the plaintext it opened to.
pub encode-decode :
    (a : Aead) (s : Suite) (key plaintext pkt : Bytes) (h : Header)
    → IsAead a
    → AreBytes pkt
    → decode_packet_suite a s key pkt ≡ ok (h, plaintext)
    → encode_packet_suite a s key h.band_id h.channel_type h.channel_id h.sequence plaintext
      ≡ ok pkt
unfolding encode_packet_suite encrypt_suite write
encode-decode a s key plaintext pkt h law bytes e =
    let (long, parsed, opened) = decode_shape a s key pkt plaintext h e in
    let sealed : a.seal s key (nonce_bytes h.sequence)
          (build_aad (to_u8 h.channel_type) h.channel_id) plaintext
        ≡ some (drop header_len pkt) =
      law.seal-unseal s key _ _ plaintext _ opened in
    rw (sealed, append-nil (header_bytes h)) (ap ok (header_bytes-parse pkt h bytes parsed).0)

nonce_injective : (s t : ℕ) → s < 256 ^ 8 → t < 256 ^ 8 → nonce_bytes s ≡ nonce_bytes t → s ≡ t
unfolding nonce_bytes
nonce_injective s t hs ht e =
    sym (from_be_bytes-to_be_bytes 8 s hs)
    ∙ ap (λ n. from_be_bytes (drop 4 n)) e
    ∙ from_be_bytes-to_be_bytes 8 t ht

aad_injective :
    (t u : ChannelType) (i j : ℕ)
    → i < 256 ^ 2
    → j < 256 ^ 2
    → build_aad (to_u8 t) i ≡ build_aad (to_u8 u) j
    → (t ≡ u) × (i ≡ j)
unfolding build_aad
aad_injective t u i j hi hj e =
    let kind : to_u8 t ≡ to_u8 u = ap (λ b. get_or b 0 0) e in
    let high : i / 256 % 256 ≡ j / 256 % 256 = ap (λ b. get_or b 1 0) e in
    let low : i % 256 ≡ j % 256 = ap (λ b. get_or b 2 0) e in
    (ground (arith, from_u8-to_u8 t, from_u8-to_u8 u), omega arith)

-- Two headers that give the cipher the same nonce and the same associated data have the same
-- channel type, channel id and sequence.
pub nonce_aad_injective :
    (g h : Header)
    → IsHeader g
    → IsHeader h
    → nonce_bytes g.sequence ≡ nonce_bytes h.sequence
    → build_aad (to_u8 g.channel_type) g.channel_id ≡ build_aad (to_u8 h.channel_type) h.channel_id
    → (g.channel_type ≡ h.channel_type) × (g.channel_id ≡ h.channel_id) × (g.sequence ≡ h.sequence)
nonce_aad_injective g h vg vh n e =
    let (kind, id) =
      aad_injective g.channel_type h.channel_type g.channel_id h.channel_id vg.id vh.id e in
    (kind, id, nonce_injective g.sequence h.sequence vg.seq vh.seq n)
