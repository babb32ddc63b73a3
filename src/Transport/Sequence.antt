-- ===== src/Transport/Sequence.antt =====
-- transport.rs, `SequenceCounter`: no nonce is used twice by an endpoint.
use telesthete.Base.{◌≡◌, List, [], ◌∷◌, ◌++◌, some}
use telesthete.Base.Bytes.{Bytes}
use telesthete.Base.Results.{ok}
use telesthete.Transport.{Transport, Outbound, send, sealing_key}
use telesthete.Framing.{Header, parse, header_bytes}
use telesthete.Framing.ChannelType.{to_u8}
use telesthete.Framing.Packet.{header_of}
use telesthete.Crypto.{Aead, nonce_bytes, build_aad}

module _ {Addr : Type 0} (d : Discrete Addr) (a : Aead) where
  -- The endpoint after the packets.
  unfoldable pub send_all : Transport Addr → List (Outbound Addr) → Transport Addr
  send_all t [] = t
  send_all t (out ∷ outs) = send_all (send d a t out).0 outs

  -- A packet is sealed under the nonce of the sequence number in its header.
  abbrev pub SealedUnder : Transport Addr → Outbound Addr → Bytes → Header → Type 0
  SealedUnder t out pkt h =
      (parse pkt ≡ ok h)
      × (ct : Bytes) × (a.seal (sealing_key d t out).1 (sealing_key d t out).0
            (nonce_bytes h.sequence) (build_aad (to_u8 h.channel_type) h.channel_id) out.plaintext
          ≡ some ct)
      × (pkt ≡ header_bytes h ++ ct)

  abbrev header_at : Transport Addr → Outbound Addr → Header
  header_at t out = header_of t.band_id out.channel_type out.channel_id t.seq
