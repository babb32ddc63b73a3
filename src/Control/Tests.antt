-- ===== src/Control/Tests.antt =====
-- The theorems on the control plane at concrete inputs. The stand-in for JSON knows one HELLO, one
-- HELLO_ACK and the types that a payload's first byte names.
use telesthete.Base.{
  inl, ◌⊎◌, ℕ, ◌≤◌, ◌≡◌, refl, [], ◌∷◌, length, Option, none, some, false, ℕ_discrete, arith,
}
use telesthete.Base.Bytes.{Bytes}
use telesthete.Base.Maps.{find}
use telesthete.Base.Text.{codes, Text-discrete}
use telesthete.Crypto.{
  Kdf, aes256_gcm, from_id, select_cipher, supports, aes_cipher, baseline_cipher,
}
use telesthete.Transport.{Outbound, sealing_key}
use telesthete.Control.{
  ControlState, ControlConfig, Hello, HelloAck, Json, goodbye, hello, turn, dropped,
  committed_hello, ack_of, newer,
}
use telesthete.Control.Capacity.{turn-peers_bounded}
use telesthete.Control.Epochs.{EpochFrom, turn-sessions_grow}
use telesthete.Control.Greetings.{Taken, turn_hello_cases}
use telesthete.Control.Handshake.{handshake_agrees}

abbrev kdf : Kdf
kdf = record { sha256 = λ bs. bs; hkdf = λ salt secret info. info }

abbrev config : ℕ → ControlConfig
config session = record {
  psk = codes "secret";
  session = session;
  hostname = codes "desk";
  capabilities = [];
  ciphers = aes_cipher ∷ baseline_cipher ∷ [];
}

abbrev greeting : Hello
greeting = record {
  hostname = codes "sofa";
  capabilities = [];
  ciphers = aes_cipher ∷ baseline_cipher ∷ [];
  session = 70;
}

answer : HelloAck
unfolding ack_of
answer = ack_of (config 90) (committed_hello (config 90) greeting)

envelope : Bytes → Option (ℕ × Unit {0})
envelope [] = none
envelope (type_ ∷ bs) = some (type_, tt)

abbrev json : Json (Unit {0}) (Unit {0})
json = record {
  read_envelope = envelope;
  read_hello = λ v. some greeting;
  read_hello_ack = λ v. some answer;
  read_keyframe_req = λ v. some 4;
  read_rate_hint = λ v. none;
}

abbrev fresh : ControlState ℕ
fresh = record {
  watermark = [];
  sessions = [];
  peers = [];
  transport = record {
    base_key = 1 ∷ [];
    session_key = 2 ∷ [];
    send_keys = [];
    peer_keys = [];
    last_seen = [];
    band_id = [];
    seq = 5;
    routes = [];
  };
}

-- The peer at 10 greeted before, in an older session.
abbrev known : ControlState ℕ
known = record fresh { watermark = (10, 33) ∷ []; sessions = (10, 60) ∷ [] }

turn-peers_bounded_example :
    length (turn ℕ_discrete kdf (config 90) json known 10 3 (1 ∷ [])).state.peers ≤ 1024
turn-peers_bounded_example =
    turn-peers_bounded ℕ_discrete kdf (config 90) json known 10 3 (1 ∷ []) (omega arith)

turn-sessions_grow_example :
    (let t = turn ℕ_discrete kdf (config 90) json known 10 3 (1 ∷ []) in
      EpochFrom ℕ_discrete 10 60 t.state.sessions
      ⊎ ((◌≡◌ {A = ℕ} 10 10) × (t.event ≡ some goodbye)))
unfolding find ℕ_discrete
turn-sessions_grow_example =
    turn-sessions_grow ℕ_discrete kdf (config 90) json known 10 10 3 60 (1 ∷ []) (inl (omega arith))
      refl

turn_hello_cases_example :
    (let t = turn ℕ_discrete kdf (config 90) json known 10 3 (1 ∷ []) in
      (Taken ℕ_discrete known 10 3 70
        → (t.event ≡ some (hello greeting))
          × (t.ack ≡ some (ack_of (config 90) (committed_hello (config 90) greeting)))
          × (find ℕ_discrete 10 t.state.sessions ≡ some 70)
          × (find ℕ_discrete 10 t.state.watermark ≡ some 3)
          × (t.rebased ≡ newer (find ℕ_discrete 10 known.sessions) 70))
      × (¬ Taken ℕ_discrete known 10 3 70 → t ≡ dropped ℕ_discrete kdf (config 90) known false))
unfolding envelope
turn_hello_cases_example =
    turn_hello_cases ℕ_discrete kdf (config 90) json known 10 3 (1 ∷ []) tt greeting (omega arith)
      refl refl

handshake_agrees_example :
    (let tb = (turn ℕ_discrete kdf (config 90) json known 10 3 (1 ∷ [])).state.transport in
      let ta = (turn ℕ_discrete kdf (config 70) json fresh 20 8 (2 ∷ [])).state.transport in
      ((turn ℕ_discrete kdf (config 90) json known 10 3 (1 ∷ [])).ack
        ≡ some (ack_of (config 90) (committed_hello (config 90) greeting)))
      × ((out : Outbound ℕ)
          → out.use_base_key ≡ false
          → ((out.to ≡ 20) → find ℕ_discrete 10 tb.peer_keys ≡ some (sealing_key ℕ_discrete ta out))
            × ((out.to ≡ 10)
                → find ℕ_discrete 20 ta.peer_keys ≡ some (sealing_key ℕ_discrete tb out))))
unfolding envelope answer newer find ℕ_discrete committed_hello select_cipher supports from_id
    Text-discrete
handshake_agrees_example =
    handshake_agrees ℕ_discrete kdf json (config 70) (config 90) fresh known 10 20 3 8 (1 ∷ [])
      (2 ∷ []) tt tt greeting aes256_gcm refl refl (omega arith) (omega arith) refl refl refl
      (inl refl) refl refl (inl refl)
