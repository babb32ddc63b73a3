-- ===== src/Transport.antt =====
-- rust/telesthete/src/transport.rs: the keys that packets are sealed and opened with, the sequence
-- counter, and what the receive loop does with a datagram. The socket is I/O: `send` gives the
-- datagram to send, `recv` takes the one that came. `Addr` stands for socket addresses.
pub mod Sealing
pub mod Sequence
mod Tests
use telesthete.Base.{
  ℕ, ◌+◌, ◌/◌, ◌%◌, ◌^◌, ◌≡◌, ite, List, [], ◌∷◌, Option, none, some, Bool, true, false,
  if◌then◌else◌, ◌||◌, ◌==◌, not,
}
use telesthete.Base.Bytes.{Bytes, from_be_bytes}
use telesthete.Base.Maps.{find, insert, remove}
use telesthete.Base.Results.{Result, ok, err}
use telesthete.Base.Text.{Text-discrete, text_eq}
use telesthete.Crypto.{Aead, Suite, chacha20_poly1305}
use telesthete.Framing.{Header, FramingError, encode_packet_suite, decode_packet_suite}
use telesthete.Framing.ChannelType.{ChannelType, ChannelType-discrete}

pub record Outbound (Addr : Type 0) : Type 0 where
  pub to : Addr
  pub channel_type : ChannelType
  pub channel_id : ℕ
  pub plaintext : Bytes
  pub priority : ℕ
  pub use_base_key : Bool

pub record Inbound (Addr : Type 0) : Type 0 where
  pub from : Addr
  pub header : Header
  pub payload : Bytes

-- `routes` holds the types that have a subscriber.
pub record Transport (Addr : Type 0) : Type 0 where
  pub base_key : Bytes
  pub session_key : Bytes
  pub send_keys : List (Addr × (Bytes × Suite))
  pub peer_keys : List (Addr × (Bytes × Suite))
  pub last_seen : List (Addr × ℕ)
  pub band_id : Bytes
  pub seq : ℕ
  pub routes : List (ChannelType × Unit {0})

-- `SequenceCounter::random`: half of what eight random bytes make.
unfoldable pub random : Bytes → ℕ
random b = from_be_bytes b / 2

-- `SequenceCounter::next`: the current value, and the next one.
unfoldable pub next : ℕ → ℕ × ℕ
next seq = (seq, (seq + 1) % 2 ^ 64)

-- What the receive loop does with a datagram: it opens under no key, belongs to another band, has
-- no subscriber, or is handed to the subscriber of its type.
pub data Verdict (Addr : Type 0) : Type 0 where
  unopened : Verdict Addr
  foreign : Inbound Addr → Verdict Addr
  unrouted : Inbound Addr → Verdict Addr
  routed : Inbound Addr → Verdict Addr

module _ {Addr : Type 0} where
  -- `bind`, with the random bytes of the counter.
  unfoldable pub bind : Bytes → Bytes → Bytes → Transport Addr
  bind key band_id seed = record {
    base_key = key;
    session_key = key;
    send_keys = [];
    peer_keys = [];
    last_seen = [];
    band_id = band_id;
    seq = random seed;
    routes = [];
  }

  unfoldable pub set_session_key : Transport Addr → Bytes → Transport Addr
  set_session_key t key = record t { session_key = key }

  unfoldable pub route : Transport Addr → ChannelType → Transport Addr
  route t ty = record t { routes = insert ChannelType-discrete ty tt t.routes }

  module _ (d : Discrete Addr) where
    unfoldable pub register_peer_key : Transport Addr → Addr → Bytes → Suite → Transport Addr
    register_peer_key t addr key suite = record t {
      peer_keys = insert d addr (key, suite) t.peer_keys;
    }

    unfoldable pub register_send_key : Transport Addr → Addr → Bytes → Suite → Transport Addr
    register_send_key t addr key suite = record t {
      send_keys = insert d addr (key, suite) t.send_keys;
    }

    unfoldable pub forget_peer : Transport Addr → Addr → Transport Addr
    forget_peer t addr = record t {
      last_seen = remove d addr t.last_seen;
      peer_keys = remove d addr t.peer_keys;
      send_keys = remove d addr t.send_keys;
    }

    -- The key and the suite that a packet is sealed with.
    unfoldable pub sealing_key : Transport Addr → Outbound Addr → Bytes × Suite
    sealing_key t out =
        if out.use_base_key
        then (t.base_key, chacha20_poly1305)
        else elim (find d out.to t.send_keys) [
          | none ↦ (t.session_key, chacha20_poly1305)
          | some ks ↦ ks
        ]

    module _ (a : Aead) where
      -- The datagram for `out.to`. The sequence is used up even when sealing fails.
      unfoldable pub send :
          Transport Addr → Outbound Addr → Transport Addr × Result FramingError Bytes
      send t out =
          let taken = next t.seq in
          let ks = sealing_key t out in
          (
            record t { seq = taken.1 },
            encode_packet_suite a ks.1 ks.0 t.band_id out.channel_type out.channel_id taken.0
                out.plaintext,
          )

      -- The peer's session key first, then the base key.
      unfoldable pub open_packet : Transport Addr → Addr → Bytes → Option (Header × Bytes)
      open_packet t from pkt =
          let base : Option (Header × Bytes) =
            elim (decode_packet_suite a chacha20_poly1305 t.base_key pkt) [
              | ok v ↦ some v
              | err e ↦ none
            ] in
          elim (find d from t.peer_keys) [
            | none ↦ base
            | some ks ↦ elim (decode_packet_suite a ks.1 ks.0 pkt) [ ok v ↦ some v | err e ↦ base ]
          ]

      -- One round of the receive loop.
      unfoldable pub recv : Transport Addr → Addr → Bytes → ℕ → Transport Addr × Verdict Addr
      recv t from pkt now = elim (open_packet t from pkt) [
        | none ↦ (t, unopened)
        | some v ↦
            let inbound : Inbound Addr = record { from = from; header = v.0; payload = v.1 } in
            let seen = record t { last_seen = insert d from now t.last_seen } in
            if not (text_eq v.0.band_id t.band_id)
            then (t, foreign inbound)
            else elim (find ChannelType-discrete v.0.channel_type t.routes) [
              | none ↦ (seen, unrouted inbound)
              | some u ↦ (seen, routed inbound)
            ]
      ]
