-- ===== src/Control.antt =====
-- rust/telesthete/src/control.rs: what the control task does with a packet. serde_json is the
-- parameter `Json`; `Value` stands for JSON values, `Loss` for the 32-bit floats of rate hints.
pub mod Changes
pub mod Capacity
pub mod Epochs
pub mod Greetings
pub mod Handshake
mod Tests
use telesthete.Base.{
  ℕ, ◌+◌, ◌≡◌, List, [], ◌∷◌, ◌++◌, length, ltb, leb, if◌then◌else◌, not, ◌==◌, ◌||◌, ◌&&◌, Option,
  none, some, Bool, true, false,
}
use telesthete.Base.Bytes.{Bytes}
use telesthete.Base.Maps.{find, has, insert, remove, retain}
use telesthete.Base.Text.{Text}
use telesthete.Crypto.{
  Kdf, Suite, chacha20_poly1305, baseline_cipher, from_id, supports, select_cipher,
  derive_session_key,
}
use telesthete.Transport.{Transport, register_peer_key, register_send_key, forget_peer}

pub record PeerState : Type 0 where
  pub hostname : Text
  pub capabilities : List Text
  pub cipher : Text
  pub session_epoch : ℕ

pub record ControlConfig : Type 0 where
  pub psk : Bytes
  pub session : ℕ
  pub hostname : Text
  pub capabilities : List Text
  pub ciphers : List Text

abbrev pub type_hello : ℕ
type_hello = 0x01

abbrev pub type_hello_ack : ℕ
type_hello_ack = 0x02

abbrev pub type_keepalive : ℕ
type_keepalive = 0x03

abbrev pub type_goodbye : ℕ
type_goodbye = 0x06

abbrev pub type_keyframe_req : ℕ
type_keyframe_req = 0x07

abbrev pub type_rate_hint : ℕ
type_rate_hint = 0x08

abbrev pub peer_map_soft_cap : ℕ
peer_map_soft_cap = 1024

pub record Hello : Type 0 where
  pub hostname : Text
  pub capabilities : List Text
  pub ciphers : List Text
  pub session : ℕ

pub record HelloAck : Type 0 where
  pub hostname : Text
  pub capabilities : List Text
  pub ciphers : List Text
  pub cipher : Text
  pub session : ℕ

pub record RateHint (Loss : Type 0) : Type 0 where
  pub stream_id : ℕ
  pub target_bps : ℕ
  pub loss : Loss

-- `ControlEnvelope` is the pair of its type and its payload, `KeyframeReq` its stream.
pub record Json (Value Loss : Type 0) : Type 0 where
  pub read_envelope : Bytes → Option (ℕ × Value)
  pub read_hello : Value → Option Hello
  pub read_hello_ack : Value → Option HelloAck
  pub read_keyframe_req : Value → Option ℕ
  pub read_rate_hint : Value → Option (RateHint Loss)

-- Each event's peer is that of its packet.
pub data ControlEvent (Value Loss : Type 0) : Type 0 where
  hello : Hello → ControlEvent Value Loss
  hello_ack : HelloAck → ControlEvent Value Loss
  keepalive : ControlEvent Value Loss
  goodbye : ControlEvent Value Loss
  keyframe_req : ℕ → ControlEvent Value Loss
  rate_hint : RateHint Loss → ControlEvent Value Loss
  other : ℕ → Value → ControlEvent Value Loss

-- What the task keeps, the peers that it shares with the band and the transport that it uses.
pub record ControlState (Addr : Type 0) : Type 0 where
  pub watermark : List (Addr × ℕ)
  pub sessions : List (Addr × ℕ)
  pub peers : List (Addr × PeerState)
  pub transport : Transport Addr

-- A packet's outcome: the event for the application, whether the peer's restart was signalled,
-- and the HELLO_ACK to send to it.
pub record Turn (Addr Value Loss : Type 0) : Type 0 where
  pub state : ControlState Addr
  pub event : Option (ControlEvent Value Loss)
  pub rebased : Bool
  pub ack : Option HelloAck

-- The configured ciphers, with the baseline added when it is missing.
unfoldable pub with_baseline : ControlConfig → ControlConfig
with_baseline cfg =
    if supports cfg.ciphers baseline_cipher
    then cfg
    else record cfg { ciphers = cfg.ciphers ++ (baseline_cipher ∷ []) }

-- The suite chosen for a HELLO.
unfoldable pub committed_hello : ControlConfig → Hello → Text
committed_hello cfg h = elim h.ciphers [
  | [] ↦ select_cipher (baseline_cipher ∷ []) cfg.ciphers
  | c ∷ cs ↦ select_cipher (c ∷ cs) cfg.ciphers
]

-- The suite that a HELLO_ACK dictates, if it is known.
unfoldable pub committed_ack : HelloAck → Text
committed_ack h = elim (from_id h.cipher) [ none ↦ baseline_cipher | some s ↦ h.cipher ]

-- `Suite::from_id(&committed).unwrap_or(ChaCha20Poly1305)`.
unfoldable pub suite_of : Text → Suite
suite_of committed = elim (from_id committed) [ none ↦ chacha20_poly1305 | some s ↦ s ]

-- `matches!(map.get(&from), Some(&old) if n <= old)`, and with `<`.
unfoldable pub at_most : Option ℕ → ℕ → Bool
at_most none n = false
at_most (some old) n = leb n old

unfoldable pub below : Option ℕ → ℕ → Bool
below none n = false
below (some old) n = ltb n old

-- `map_or(true, |&prev| ep > prev)`.
unfoldable pub newer : Option ℕ → ℕ → Bool
newer none ep = true
newer (some prev) ep = ltb prev ep

unfoldable pub ack_of : ControlConfig → Text → HelloAck
ack_of cfg committed = record {
  hostname = cfg.hostname;
  capabilities = cfg.capabilities;
  ciphers = cfg.ciphers;
  cipher = committed;
  session = cfg.session;
}

-- What a HELLO or a HELLO_ACK says.
pub record Greeting : Type 0 where
  pub hostname : Text
  pub capabilities : List Text
  pub committed : Text
  pub session : ℕ

module _ {Addr : Type 0} where
  -- `min_by_key` over the epochs; the first of equals. The order of a HashMap is arbitrary.
  unfoldable pub lowest : List (Addr × PeerState) → Option (Addr × ℕ)
  lowest [] = none
  lowest ((a, p) ∷ ps) = elim (lowest ps) [
    | none ↦ some (a, p.session_epoch)
    | some best ↦ if ltb best.1 p.session_epoch then some best else some (a, p.session_epoch)
  ]

module _ {Addr : Type 0} (d : Discrete Addr) where
  -- Past the soft cap, forget the addresses that are no longer peers.
  unfoldable pub prune : ControlState Addr → ControlState Addr
  prune c =
      if ltb peer_map_soft_cap (length c.watermark)
      then record c {
        watermark = retain (λ a s. has d a c.peers) c.watermark;
        sessions = retain (λ a s. has d a c.peers) c.sessions;
      }
      else c

  unfoldable pub make_room : List (Addr × PeerState) → Addr → List (Addr × PeerState)
  make_room peers from =
      if not (has d from peers) && leb peer_map_soft_cap (length peers)
      then elim (lowest peers) [ none ↦ peers | some victim ↦ remove d victim.0 peers ]
      else peers

  unfoldable pub start_session : ControlState Addr → Addr → ℕ → ControlState Addr
  start_session c from ep = record c {
    sessions = insert d from ep c.sessions;
    watermark = remove d from c.watermark;
  }

  -- GOODBYE: forget the peer.
  unfoldable pub forget : ControlState Addr → Addr → ControlState Addr
  forget c from = record {
    watermark = remove d from c.watermark;
    sessions = remove d from c.sessions;
    peers = remove d from c.peers;
    transport = forget_peer d c.transport from;
  }

  module _ (k : Kdf) (cfg : ControlConfig) where
    -- The keys and the peer's entry, once its greeting is accepted.
    unfoldable pub admit : ControlState Addr → Addr → ℕ → Greeting → ControlState Addr
    admit c from seq g =
        let suite = suite_of g.committed in
        let keyed =
          register_peer_key d c.transport from (derive_session_key k cfg.psk g.committed g.session)
            suite in
        record c {
          watermark = insert d from seq c.watermark;
          transport =
              register_send_key d keyed from (derive_session_key k cfg.psk g.committed cfg.session)
                suite;
          peers =
              insert d from
                (record {
                  hostname = g.hostname;
                  capabilities = g.capabilities;
                  cipher = g.committed;
                  session_epoch = g.session;
                })
                (make_room c.peers from);
        }

    module _ {Value Loss : Type 0} where
      unfoldable pub dropped : ControlState Addr → Bool → Turn Addr Value Loss
      dropped c rebased = record { state = c; event = none; rebased = rebased; ack = none }

      unfoldable pub on_greeting :
          ControlState Addr
          → Addr
          → ℕ
          → Greeting
          → ControlEvent Value Loss
          → Option HelloAck
          → Turn Addr Value Loss
      on_greeting c from seq g event ack =
          let fresh = newer (find d from c.sessions) g.session in
          let c' = if fresh then start_session c from g.session else c in
          if below (find d from c.sessions) g.session
          then dropped c false
          else if at_most (find d from c'.watermark) seq
          then dropped c' fresh
          else record {
            state = admit c' from seq g;
            event = some event;
            rebased = fresh;
            ack = ack;
          }

      module _ (json : Json Value Loss) where
        unfoldable pub on_other : ControlState Addr → Addr → ℕ → ℕ → Value → Turn Addr Value Loss
        on_other c from seq type_ value =
            let c' = record c { watermark = insert d from seq c.watermark } in
            let gives : Option (ControlEvent Value Loss) → Turn Addr Value Loss =
              λ event. record { state = c'; event = event; rebased = false; ack = none } in
            if at_most (find d from c.watermark) seq
            then dropped c false
            else if type_ == type_keepalive
            then gives (some keepalive)
            else if type_ == type_goodbye
            then record {
              state = forget c' from;
              event = some goodbye;
              rebased = false;
              ack = none;
            }
            else if type_ == type_keyframe_req
            then elim (json.read_keyframe_req value) [
              | none ↦ gives none
              | some stream_id ↦ gives (some (keyframe_req stream_id))
            ]
            else if type_ == type_rate_hint
            then elim (json.read_rate_hint value) [
              | none ↦ gives none
              | some r ↦ gives (some (rate_hint r))
            ]
            else gives (some (other type_ value))

        -- `cfg` is the configuration with the baseline.
        unfoldable pub on_envelope : ControlState Addr → Addr → ℕ → ℕ → Value → Turn Addr Value Loss
        on_envelope c from seq type_ value =
            if type_ == type_hello
            then elim (json.read_hello value) [
              | none ↦ dropped c false
              | some h ↦
                  on_greeting c from seq
                    (record {
                      hostname = h.hostname;
                      capabilities = h.capabilities;
                      committed = committed_hello cfg h;
                      session = h.session;
                    })
                    (hello h) (some (ack_of cfg (committed_hello cfg h)))
            ]
            else if type_ == type_hello_ack
            then elim (json.read_hello_ack value) [
              | none ↦ dropped c false
              | some h ↦
                  on_greeting c from seq
                    (record {
                      hostname = h.hostname;
                      capabilities = h.capabilities;
                      committed = committed_ack h;
                      session = h.session;
                    })
                    (hello_ack h) none
            ]
            else on_other c from seq type_ value

        unfoldable pub turn : ControlState Addr → Addr → ℕ → Bytes → Turn Addr Value Loss
        turn c from seq payload =
            let c' = prune c in
            elim (json.read_envelope payload) [
              | none ↦ dropped c' false
              | some env ↦ on_envelope c' from seq env.0 env.1
            ]
