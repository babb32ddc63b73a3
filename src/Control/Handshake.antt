-- ===== src/Control/Handshake.antt =====
-- control.rs and transport.rs together: after a HELLO and its HELLO_ACK the two sides hold each
-- other's keys.
use telesthete.Base.{opens, ℕ, ◌≤◌, ◌≡◌, refl, sym, ap, subst, ◌∙◌, length, some, false, if_pos}
use telesthete.Base.Bytes.{Bytes}
use telesthete.Base.Maps.{find, find-insert}
use telesthete.Base.Text.{Text}
use telesthete.Crypto.{Kdf, Suite, from_id, derive_session_key}
use telesthete.Transport.{Transport, Outbound, sealing_key, register_peer_key, register_send_key}
use telesthete.Control.{
  ControlState, ControlConfig, Greeting, Hello, HelloAck, Json, hello, hello_ack, admit, turn,
  suite_of, committed_hello, committed_ack, ack_of,
}
use telesthete.Control.Greetings.{
  Taken, on_greeting-Taken, greeting_of, ack_greeting, turn-hello, turn-hello_ack,
}

module _ {Addr : Type 0} (d : Discrete Addr) (k : Kdf) where
  -- The keys that a greeting of the peer leaves: its epoch's for what it sends, our epoch's for
  -- what we send, both of the committed suite.
  pub record Keyed (cfg : ControlConfig) (peer : Addr) (committed : Text) (ep : ℕ)
      (t : Transport Addr) : Type 0 where
    pub opens_with :
        find d peer t.peer_keys
        ≡ some (derive_session_key k cfg.psk committed ep, suite_of committed)
    pub seals_with :
        find d peer t.send_keys
        ≡ some (derive_session_key k cfg.psk committed cfg.session, suite_of committed)

  admit-Keyed :
      (cfg : ControlConfig) (c : ControlState Addr) (from : Addr) (seq : ℕ) (g : Greeting)
      → Keyed cfg from g.committed g.session (admit d k cfg c from seq g).transport
  unfolding admit register_peer_key register_send_key
  admit-Keyed cfg c from seq g = record {
    opens_with = find-insert d from from _ _ ∙ if_pos (d from from) refl _ _;
    seals_with = find-insert d from from _ _ ∙ if_pos (d from from) refl _ _;
  }

  sealing_key-registered :
      (t : Transport Addr) (out : Outbound Addr) (ks : Bytes × Suite)
      → find d out.to t.send_keys ≡ some ks
      → out.use_base_key ≡ false
      → sealing_key d t out ≡ ks
  unfolding sealing_key
  sealing_key-registered t out ks e data_ = rw data_ (opens _ _ _ _ e)

  -- What one side seals for the other, the other opens.
  keys_agree :
      (cfg cfg_r : ControlConfig) (me peer : Addr) (committed : Text) (ep : ℕ)
      (t r : Transport Addr) (out : Outbound Addr)
      → cfg.psk ≡ cfg_r.psk
      → Keyed cfg peer committed ep t
      → Keyed cfg_r me committed cfg.session r
      → out.to ≡ peer
      → out.use_base_key ≡ false
      → find d me r.peer_keys ≡ some (sealing_key d t out)
  keys_agree cfg cfg_r me peer committed ep t r out psk kt kr to data_ =
      kr.opens_with
      ∙ ap (λ (p : Bytes). some (derive_session_key k p committed cfg.session, suite_of committed))
          (sym psk)
      ∙ ap some (
          sym (
            sealing_key-registered t out _ (ap (λ x. find d x t.send_keys) to ∙ kt.seals_with)
              data_))

  committed_ack-ack_of :
      (cfg : ControlConfig) (committed : Text) (s : Suite)
      → from_id committed ≡ some s
      → committed_ack (ack_of cfg committed) ≡ committed
  unfolding committed_ack ack_of
  committed_ack-ack_of cfg committed s e = opens _ _ _ _ e

  module _ {Value Loss : Type 0} (json : Json Value Loss) where
    -- Two endpoints of one secret, `a` and `b`, each with watermarks of at most 1024 peers, so that
    -- neither prunes them: when `b` takes a HELLO of `a`'s session and `a` takes the HELLO_ACK that
    -- `b` answers with, and the suite that `b` commits is one that the code knows, then each has
    -- for the other the key and the suite with which the other seals to it every packet that does
    -- not ask for the base key.
    pub handshake_agrees :
        (cfg_a cfg_b : ControlConfig) (a b : ControlState Addr) (addr_a addr_b : Addr)
        (seq_a seq_b : ℕ) (payload_a payload_b : Bytes) (v w : Value) (h : Hello) (s : Suite)
        → cfg_a.psk ≡ cfg_b.psk
        → h.session ≡ cfg_a.session
        → length a.watermark ≤ 1024
        → length b.watermark ≤ 1024
        → from_id (committed_hello cfg_b h) ≡ some s
        → json.read_envelope payload_a ≡ some (1, v)
        → json.read_hello v ≡ some h
        → Taken d b addr_a seq_a h.session
        → json.read_envelope payload_b ≡ some (2, w)
        → json.read_hello_ack w ≡ some (ack_of cfg_b (committed_hello cfg_b h))
        → Taken d a addr_b seq_b cfg_b.session
        → (let tb = (turn d k cfg_b json b addr_a seq_a payload_a).state.transport in
            let ta = (turn d k cfg_a json a addr_b seq_b payload_b).state.transport in
            ((turn d k cfg_b json b addr_a seq_a payload_a).ack
              ≡ some (ack_of cfg_b (committed_hello cfg_b h)))
            × ((out : Outbound Addr)
                → out.use_base_key ≡ false
                → ((out.to ≡ addr_b) → find d addr_a tb.peer_keys ≡ some (sealing_key d ta out))
                  × ((out.to ≡ addr_a) → find d addr_b ta.peer_keys ≡ some (sealing_key d tb out))))
    handshake_agrees cfg_a cfg_b a b addr_a addr_b seq_a seq_b payload_a payload_b v w h s psk mine
          few_a few_b known ea eh taken_b eb ew taken_a =
        let committed : Text = committed_hello cfg_b h in
        let ack : HelloAck = ack_of cfg_b committed in
        let run_b =
          turn-hello d k cfg_b json b addr_a seq_a payload_a v h few_b ea eh
          ∙ on_greeting-Taken d k cfg_b b addr_a seq_a (greeting_of d k cfg_b json h) (hello h) _
              taken_b in
        let run_a =
          turn-hello_ack d k cfg_a json a addr_b seq_b payload_b w ack few_a eb ew
          ∙ on_greeting-Taken d k cfg_a a addr_b seq_b (ack_greeting d k cfg_a json ack)
              (hello_ack ack) _ (unfold ack_of in taken_a) in
        let kb : Keyed cfg_b addr_a committed cfg_a.session
            (turn d k cfg_b json b addr_a seq_a payload_a).state.transport =
          subst
            (λ ep.
              Keyed cfg_b addr_a committed ep
                (turn d k cfg_b json b addr_a seq_a payload_a).state.transport)
            mine (rw run_b (admit-Keyed cfg_b _ addr_a seq_a (greeting_of d k cfg_b json h))) in
        let ka : Keyed cfg_a addr_b committed cfg_b.session
            (turn d k cfg_a json a addr_b seq_b payload_b).state.transport =
          subst
            (λ c.
              Keyed cfg_a addr_b c cfg_b.session
                (turn d k cfg_a json a addr_b seq_b payload_b).state.transport)
            (committed_ack-ack_of cfg_b committed s known)
            (rw run_a (
              unfold ack_of in
              admit-Keyed cfg_a _ addr_b seq_b (ack_greeting d k cfg_a json ack))) in
        (
          ap (λ t. t.ack) run_b,
          (λ out data_. (
            (λ to.
                keys_agree cfg_a cfg_b addr_a addr_b committed cfg_b.session _ _ out psk ka kb to
                  data_),
            (λ to.
                keys_agree cfg_b cfg_a addr_b addr_a committed cfg_a.session _ _ out (sym psk) kb ka
                  to data_),
          )),
        )
