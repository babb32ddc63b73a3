-- ===== src/Channel/Transmission.antt =====
-- channel.rs, `pump`: what comes into flight is what goes out.
use telesthete.Base.{
  ℕ, ◌+◌, ◌≡◌, inl, inr, refl, sym, ap, ◌∙◌, List, [], ◌∷◌, ◌++◌, length, ltb, ◌==◌, ◌&&◌,
  Bool-cases, map, append-nil, append_assoc,
}
use telesthete.Base.Bytes.{Bytes}
use telesthete.Channel.{
  ChannelCore, Unacked, is_established, emit, emit_reliable, emit_next, frame_to_send, pump_loop,
  pump_limit, pump_fin, pump,
}
use telesthete.Channel.Frame.{serialize, flag_ack, flag_fin}

-- Frames as they go out with this `ack_num` and this window.
abbrev pub framed : ℕ → ℕ → List Unacked → List Bytes
framed ack_num window us =
    map
      (λ u. serialize (record {
        flags = u.flags;
        ack_num = ack_num;
        window = window;
        seq = u.seq;
        data_ = u.data_;
      }))
      us

-- From `c` to `q`, the frames that come into flight are the ones that are put on the wire.
abbrev pub Transmitted : ChannelCore → ChannelCore → Type 0
Transmitted c q =
    (new : List Unacked) × (q.unacked ≡ c.unacked ++ new)
    × (q.outbox ≡ c.outbox ++ framed c.rcv_next c.window new)
    × (q.rcv_next ≡ c.rcv_next)
    × (q.window ≡ c.window)

Transmitted-refl : (c : ChannelCore) → Transmitted c c
Transmitted-refl c = ([], sym (append-nil c.unacked), sym (append-nil c.outbox), refl, refl)

framed-append :
    (a w : ℕ) (us vs : List Unacked) → framed a w us ++ framed a w vs ≡ framed a w (us ++ vs)
framed-append a w [] vs = refl
framed-append a w (u ∷ us) vs = rw (framed-append a w us vs) refl

Transmitted-trans : (a b c : ChannelCore) → Transmitted a b → Transmitted b c → Transmitted a c
Transmitted-trans a b c (us, fu, ou, ru, wu) (vs, fv, ov, rv, wv) = (
  us ++ vs,
  fv ∙ ap (λ l. l ++ vs) fu ∙ append_assoc a.unacked us vs,
  rw (ou, ru, wu) at ov
      ∙ append_assoc a.outbox (framed a.rcv_next a.window us) (framed a.rcv_next a.window vs)
      ∙ ap (λ l. a.outbox ++ l) (framed-append a.rcv_next a.window us vs),
  rv ∙ ru,
  wv ∙ wu,
)

emit_next-Transmitted :
    (c : ChannelCore) (flags : ℕ) (bytes : Bytes) → Transmitted c (emit_next c flags bytes)
unfolding emit_next emit_reliable emit frame_to_send
emit_next-Transmitted c flags bytes =
    (record { flags = flags; seq = c.send_next; data_ = bytes } ∷ [], refl, refl, refl, refl)

pump_loop-Transmitted :
    (queue : List Bytes) (limit : ℕ) (c : ChannelCore) → Transmitted c (pump_loop queue limit c)
unfolding pump_loop
pump_loop-Transmitted [] limit c = Transmitted-refl c
pump_loop-Transmitted (bytes ∷ queue) limit c = elim (Bool-cases (ltb (length c.unacked) limit)) [
  | inr full ↦ rw full (Transmitted-refl c)
  | inl room ↦
      let c' : ChannelCore = record c { send_queue = queue } in
      rw room (
        Transmitted-trans c (emit_next c' flag_ack bytes)
          (pump_loop queue limit (emit_next c' flag_ack bytes))
          (emit_next-Transmitted c' flag_ack bytes)
          (pump_loop-Transmitted queue limit (emit_next c' flag_ack bytes)))
]

pub pump-Transmitted : (c : ChannelCore) → Transmitted c (pump c)
unfolding pump pump_fin
pump-Transmitted c = elim (Bool-cases (is_established c.state)) [
  | inr shut ↦ rw shut (Transmitted-refl c)
  | inl open_ ↦
      let p = pump_loop c.send_queue (pump_limit c) c in
      let q = pump_loop-Transmitted c.send_queue (pump_limit c) c in
      rw open_
        (elim (Bool-cases
          (p.closing && ((length p.send_queue == 0) && ltb (length p.unacked) (pump_limit c)))) [
            | inr stay ↦ rw stay q
            | inl go ↦ rw go (
                Transmitted-trans c p (emit_next p (flag_fin + flag_ack) []) q
                  (emit_next-Transmitted p (flag_fin + flag_ack) []))
          ])
]
