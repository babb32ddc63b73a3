-- ===== src/Transport/Sealing.antt =====
-- transport.rs: what one endpoint sends, another receives, and only that.
use telesthete.Base.{
  inl, inr, ◌⊎◌, ℕ, ◌≡◌, refl, sym, ap, ◌∙◌, Option, none, some, Bool, true, false, if_pos, subst,
  Bool-cases, Option-cases,
}
use mathlib.Core.Option.{none-ne-some, some-injective}
use mathlib.Core.Bool.{false≢true}
use telesthete.Base.Bytes.{Bytes, AreBytes}
use telesthete.Base.Maps.{find, insert}
use telesthete.Base.Results.{Result, ok, err}
use telesthete.Base.Text.{Text-discrete, text_eq, text_eq-true}
use telesthete.Crypto.{Aead, IsAead, Suite, chacha20_poly1305}
use telesthete.Framing.{Header, encode_packet_suite, decode_packet_suite}
use telesthete.Framing.Codec.{IsHeader}
use telesthete.Framing.Packet.{header_of, decode-encode, encode-decode}
use telesthete.Framing.ChannelType.{ChannelType-discrete}
use telesthete.Transport.{
  Transport, Outbound, Inbound, Verdict, routed, next, sealing_key, send, open_packet, recv,
}

-- Two results tried one after the other.
first_ok :
    {E A : Type 0} (x : Result E A) (b : Option A) (v : A)
    → (elim x as (λ y. Option A) [ ok w ↦ some w | err e ↦ b ]) ≡ some v
    → (x ≡ ok v) ⊎ (b ≡ some v)
first_ok (ok w) b v e = inl (ap ok (some-injective w v e))
first_ok (err f) b v e = inr e

-- The receiver of a verdict, if it was handed over.
handed_over : {Addr : Type 0} → Inbound Addr → Verdict Addr → Inbound Addr
handed_over i (routed j) = j
handed_over i _ = i

is_routed : {Addr : Type 0} → Verdict Addr → Bool
is_routed (routed j) = true
is_routed _ = false

module _ {Addr : Type 0} (d : Discrete Addr) (a : Aead) (law : IsAead a) where
  -- The header that `send` writes.
  abbrev pub sent_header : Transport Addr → Outbound Addr → Header
  sent_header t out = header_of t.band_id out.channel_type out.channel_id t.seq

  -- The receiver opens packets from the address with the key that the sender seals with: the key
  -- registered for the sender, or the base key when none is.
  abbrev pub Agreed : Transport Addr → Outbound Addr → Transport Addr → Addr → Type 0
  Agreed t out r from =
      (find d from r.peer_keys ≡ some (sealing_key d t out))
      ⊎ ((find d from r.peer_keys ≡ none) × (sealing_key d t out ≡ (r.base_key, chacha20_poly1305)))

  open_packet-send :
      (t t' r : Transport Addr) (out : Outbound Addr) (from : Addr) (pkt : Bytes)
      → IsHeader (sent_header t out)
      → Agreed t out r from
      → send d a t out ≡ (t', ok pkt)
      → open_packet d a r from pkt ≡ some (sent_header t out, out.plaintext)
  unfolding open_packet send next
  open_packet-send t t' r out from pkt v agreed e =
      let ks = sealing_key d t out in
      let opened =
        (decode-encode a ks.1 ks.0 out.plaintext pkt (sent_header t out) law v
          (ap (λ p. p.1) e)).0 in
      elim agreed [
        | inl known ↦ rw (known, open_packet, opened) refl
        | inr (unknown, base) ↦
            rw (unknown, open_packet)
              (ap
                  (λ (k : Bytes × Suite).
                    elim (decode_packet_suite a k.1 k.0 pkt) as (λ x. Option (Header × Bytes)) [
                      | ok v ↦ some v
                      | err e ↦ none
                    ])
                  (sym base)
                ∙ rw opened refl)
      ]

  -- A packet that one endpoint sends to another of its band is handed to the subscriber of its
  -- type with the plaintext and the header's channel and sequence, if the receiver has the
  -- sender's key, and the sender counts as seen.
  pub send-recv :
      (t t' r : Transport Addr) (out : Outbound Addr) (from : Addr) (pkt : Bytes) (now : ℕ)
      → IsHeader (sent_header t out)
      → Agreed t out r from
      → t.band_id ≡ r.band_id
      → find ChannelType-discrete out.channel_type r.routes ≡ some tt
      → send d a t out ≡ (t', ok pkt)
      → recv d a r from pkt now ≡ (
        record r { last_seen = insert d from now r.last_seen },
        routed (record { from = from; header = sent_header t out; payload = out.plaintext }),
      )
  unfolding recv
  send-recv t t' r out from pkt now v agreed band route e =
      let opened = open_packet-send t t' r out from pkt v agreed e in
      let ours : text_eq t.band_id r.band_id ≡ true =
        if_pos (Text-discrete t.band_id r.band_id) band true false in
      rw (opened, recv, ours, route) refl

  -- The packet was sealed by an endpoint with a key that the receiver holds for its sender.
  abbrev pub Sealed : Transport Addr → Addr → Bytes → Header → Bytes → Type 0
  Sealed r from pkt h plaintext =
      ((key : Bytes) × (s : Suite) × (find d from r.peer_keys ≡ some (key, s))
        × (encode_packet_suite a s key h.band_id h.channel_type h.channel_id h.sequence plaintext
            ≡ ok pkt))
      ⊎ (encode_packet_suite a chacha20_poly1305 r.base_key h.band_id h.channel_type h.channel_id
            h.sequence plaintext
          ≡ ok pkt)

  open_packet-Sealed :
      (r : Transport Addr) (from : Addr) (pkt : Bytes) (h : Header) (plaintext : Bytes)
      → AreBytes pkt
      → open_packet d a r from pkt ≡ some (h, plaintext)
      → Sealed r from pkt h plaintext
  unfolding open_packet
  open_packet-Sealed r from pkt h plaintext bytes e =
      elim (Option-cases (find d from r.peer_keys)) [
        | inl unknown ↦ inr (under_base (rw (unknown, open_packet) at e))
        | inr (ks, known) ↦
            elim (first_ok (decode_packet_suite a ks.1 ks.0 pkt) _ (h, plaintext)
              (rw (known, open_packet) at e)) [
                | inl opened ↦
                    inl (
                      ks.0,
                      ks.1,
                      known,
                      encode-decode a ks.1 ks.0 plaintext pkt h law bytes opened,
                    )
                | inr base ↦ inr (under_base base)
              ]
      ]
    where
      under_base :
          (elim (decode_packet_suite a chacha20_poly1305 r.base_key pkt)
              as (λ x. Option (Header × Bytes)) [ ok v ↦ some v | err e ↦ none ])
            ≡ some (h, plaintext)
          → encode_packet_suite a chacha20_poly1305 r.base_key h.band_id h.channel_type h.channel_id
              h.sequence plaintext
            ≡ ok pkt
      under_base f =
          elim (first_ok (decode_packet_suite a chacha20_poly1305 r.base_key pkt) none
            (h, plaintext) f) [
              | inl opened ↦
                  encode-decode a chacha20_poly1305 r.base_key plaintext pkt h law bytes opened
              | inr never ↦ absurd (none-ne-some _ never)
            ]

  -- What reaches a subscriber is of the receiver's band and was sealed under the key registered
  -- for its sender, or under the base key.
  pub recv-Sealed :
      (r r' : Transport Addr) (from : Addr) (pkt : Bytes) (now : ℕ) (i : Inbound Addr)
      → AreBytes pkt
      → recv d a r from pkt now ≡ (r', routed i)
      → (i.from ≡ from) × (i.header.band_id ≡ r.band_id) × Sealed r from pkt i.header i.payload
  unfolding recv is_routed handed_over
  recv-Sealed r r' from pkt now i bytes e = elim (Option-cases (open_packet d a r from pkt)) [
    | inl shut ↦ absurd (cc)
    | inr (v, opened) ↦ elim (Bool-cases (text_eq v.0.band_id r.band_id)) [
      | inr other ↦ absurd (false≢true (ap (λ p. is_routed p.1) (rw (opened, recv, other) at e)))
      | inl ours ↦ elim (Option-cases (find ChannelType-discrete v.0.channel_type r.routes)) [
        | inl closed_ ↦
            absurd (false≢true (ap (λ p. is_routed p.1) (rw (opened, recv, ours, closed_) at e)))
        | inr (u, open_) ↦
            let same : record { from = from; header = v.0; payload = v.1 } ≡ i =
              ap (λ p. handed_over i p.1) (rw (opened, recv, ours, open_) at e) in
            subst
              (λ (j : Inbound Addr).
                (j.from ≡ from)
                × (j.header.band_id ≡ r.band_id)
                × Sealed r from pkt j.header j.payload)
              same
              (
                refl,
                text_eq-true v.0.band_id r.band_id ours,
                open_packet-Sealed r from pkt v.0 v.1 bytes opened,
              )
      ]
    ]
  ]
