-- ===== src/Transport/Tests.antt =====
-- The theorems on transports at concrete inputs.
use telesthete.Base.{inl, ℕ, ◌≡◌, refl, [], ◌∷◌, ◌++◌, false, ℕ_discrete, arith, replicate, if_pos}
use telesthete.Base.Bytes.{Bytes, to_be_bytes}
use telesthete.Base.Maps.{find, insert}
use telesthete.Base.Results.{ok}
use telesthete.Crypto.{aes256_gcm, encrypt_suite}
use telesthete.Crypto.StandIn.{toy, toy-IsAead}
use telesthete.Framing.{encode_packet_suite, header_bytes}
use telesthete.Framing.ChannelType.{stream, to_u8, ChannelType-discrete}
use telesthete.Transport.{Transport, Outbound, routed, next, sealing_key, send, recv}
use telesthete.Transport.Sealing.{sent_header, Sealed, send-recv, recv-Sealed}

abbrev endpoint : Transport ℕ
endpoint = record {
  base_key = 1 ∷ [];
  session_key = 2 ∷ [];
  send_keys = (20, (3 ∷ [], aes256_gcm)) ∷ [];
  peer_keys = (10, (3 ∷ [], aes256_gcm)) ∷ [];
  last_seen = [];
  band_id = replicate 16 7;
  seq = 258;
  routes = (stream, tt) ∷ [];
}

abbrev media : Outbound ℕ
media = record {
  to = 20;
  channel_type = stream;
  channel_id = 5;
  plaintext = 9 ∷ [];
  priority = 1;
  use_base_key = false;
}

abbrev wire : Bytes
wire = replicate 16 7 ++ (1 ∷ 0 ∷ 5 ∷ (replicate 6 0 ++ (1 ∷ 2 ∷ (replicate 16 0 ++ (9 ∷ [])))))

-- The packet as the second byte string; the receiver is an endpoint with the same keys.
media_sent : send ℕ_discrete toy endpoint media ≡ (record endpoint { seq = 259 }, ok wire)
unfolding send next sealing_key find encode_packet_suite encrypt_suite header_bytes to_be_bytes
    to_u8 ℕ_discrete
media_sent = refl

send-recv_example : recv ℕ_discrete toy endpoint 10 wire 4 ≡ (
  record endpoint { last_seen = insert ℕ_discrete 10 4 [] },
  routed (record {
    from = 10;
    header = sent_header ℕ_discrete toy toy-IsAead endpoint media;
    payload = 9 ∷ [];
  }),
)
unfolding sealing_key find ℕ_discrete
send-recv_example =
    send-recv ℕ_discrete toy toy-IsAead endpoint (record endpoint { seq = 259 }) endpoint media 10
      wire 4 (record { band = refl; id = omega arith; seq = omega arith }) (inl refl) refl
      (if_pos (ChannelType-discrete stream stream) refl _ _) media_sent

wire_received : recv ℕ_discrete toy endpoint 10 wire 4 ≡ (
  record endpoint { last_seen = insert ℕ_discrete 10 4 [] },
  routed (record {
    from = 10;
    header = sent_header ℕ_discrete toy toy-IsAead endpoint media;
    payload = 9 ∷ [];
  }),
)
unfolding sealing_key find ℕ_discrete
wire_received =
    send-recv ℕ_discrete toy toy-IsAead endpoint (record endpoint { seq = 259 }) endpoint media 10
      wire 4 (record { band = refl; id = omega arith; seq = omega arith }) (inl refl) refl
      (if_pos (ChannelType-discrete stream stream) refl _ _) media_sent

recv-Sealed_example :
    (◌≡◌ {A = ℕ} 10 10)
    × (endpoint.band_id ≡ endpoint.band_id)
    × Sealed ℕ_discrete toy toy-IsAead endpoint 10 wire
        (sent_header ℕ_discrete toy toy-IsAead endpoint media)
        (9 ∷ [])
recv-Sealed_example =
    recv-Sealed ℕ_discrete toy toy-IsAead endpoint
      (record endpoint { last_seen = insert ℕ_discrete 10 4 [] }) 10 wire 4
      (record {
        from = 10;
        header = sent_header ℕ_discrete toy toy-IsAead endpoint media;
        payload = 9 ∷ [];
      })
      (omega arith) wire_received

abbrev second_wire : Bytes
second_wire =
    replicate 16 7 ++ (1 ∷ 0 ∷ 5 ∷ (replicate 6 0 ++ (1 ∷ 4 ∷ (replicate 16 0 ++ (9 ∷ [])))))
