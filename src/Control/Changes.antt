-- ===== src/Control/Changes.antt =====
-- control.rs: the changes that a packet can make to the state of the control task.
use telesthete.Base.{
  inl, inr, ℕ, ◌≡◌, refl, ◌==◌, Option, some, true, false, Bool-cases, Option-cases,
}
use telesthete.Base.Bytes.{Bytes}
use telesthete.Base.Maps.{find, insert}
use telesthete.Crypto.{Kdf}
use telesthete.Control.{
  ControlState, ControlConfig, Greeting, ControlEvent, HelloAck, Json, Turn, goodbye, prune, admit,
  start_session, on_greeting, on_other, on_envelope, turn, newer, below, at_most, forget, dropped,
}

module _ {Addr Value Loss : Type 0} (d : Discrete Addr) (k : Kdf) (cfg : ControlConfig) where
  pub data Change (c : ControlState Addr) (from : Addr) (seq : ℕ) (t : Turn Addr Value Loss)
      : Type 0 where
    untouched : t.state ≡ c → Change c from seq t
    started :
        (ep : ℕ)
        → newer (find d from c.sessions) ep ≡ true
        → t.state ≡ start_session d c from ep
        → Change c from seq t
    admitted :
        (g : Greeting)
        → newer (find d from c.sessions) g.session ≡ false
        → t.state ≡ admit d k cfg c from seq g
        → Change c from seq t
    restarted :
        (g : Greeting)
        → newer (find d from c.sessions) g.session ≡ true
        → t.state ≡ admit d k cfg (start_session d c from g.session) from seq g
        → Change c from seq t
    marked : t.state ≡ record c { watermark = insert d from seq c.watermark } → Change c from seq t
    forgotten :
        t.event ≡ some goodbye
        → t.state ≡ forget d (record c { watermark = insert d from seq c.watermark }) from
        → Change c from seq t

  on_greeting-Change :
      (c : ControlState Addr) (from : Addr) (seq : ℕ) (g : Greeting)
      (event : ControlEvent Value Loss) (ack : Option HelloAck)
      → Change c from seq (on_greeting d k cfg c from seq g event ack)
  unfolding on_greeting dropped
  on_greeting-Change c from seq g event ack =
      elim (Bool-cases (below (find d from c.sessions) g.session)) [
        | inl old ↦ rw old (untouched refl)
        | inr current ↦ elim (Bool-cases (newer (find d from c.sessions) g.session)) [
          | inl new ↦
              elim (Bool-cases
                (at_most (find d from (start_session d c from g.session).watermark) seq)) [
                  | inl stale ↦ rw (current, new, stale) (started g.session new refl)
                  | inr fresh ↦ rw (current, new, fresh) (restarted g new refl)
                ]
          | inr repeated ↦ elim (Bool-cases (at_most (find d from c.watermark) seq)) [
            | inl stale ↦ rw (current, repeated, stale) (untouched refl)
            | inr fresh ↦ rw (current, repeated, fresh) (admitted g repeated refl)
          ]
        ]
      ]

  module _ (json : Json Value Loss) where
    on_other-Change :
        (c : ControlState Addr) (from : Addr) (seq type_ : ℕ) (value : Value)
        → Change c from seq (on_other d k cfg json c from seq type_ value)
    unfolding on_other dropped
    on_other-Change c from seq type_ value =
        elim (Bool-cases (at_most (find d from c.watermark) seq)) [
          | inl stale ↦ rw stale (untouched refl)
          | inr fresh ↦ rw fresh (elim (Bool-cases (type_ == 3)) [
            | inl e ↦ rw e (marked refl)
            | inr e3 ↦ rw e3 (elim (Bool-cases (type_ == 6)) [
              | inl e ↦ rw e (forgotten refl refl)
              | inr e6 ↦ rw e6 (elim (Bool-cases (type_ == 7)) [
                | inl e ↦ rw e (elim (Option-cases (json.read_keyframe_req value)) [
                  | inl f ↦ rw f (marked refl)
                  | inr (x, f) ↦ rw f (marked refl)
                ])
                | inr e7 ↦ rw e7 (elim (Bool-cases (type_ == 8)) [
                  | inl e ↦ rw e (elim (Option-cases (json.read_rate_hint value)) [
                    | inl f ↦ rw f (marked refl)
                    | inr (x, f) ↦ rw f (marked refl)
                  ])
                  | inr e8 ↦ rw e8 (marked refl)
                ])
              ])
            ])
          ])
        ]

    on_envelope-Change :
        (c : ControlState Addr) (from : Addr) (seq type_ : ℕ) (value : Value)
        → Change c from seq (on_envelope d k cfg json c from seq type_ value)
    unfolding on_envelope dropped
    on_envelope-Change c from seq type_ value = elim (Bool-cases (type_ == 1)) [
      | inl e ↦ rw e (elim (Option-cases (json.read_hello value)) [
        | inl f ↦ rw f (untouched refl)
        | inr (h, f) ↦ rw f (on_greeting-Change c from seq _ _ _)
      ])
      | inr e1 ↦ rw e1 (elim (Bool-cases (type_ == 2)) [
        | inl e ↦ rw e (elim (Option-cases (json.read_hello_ack value)) [
          | inl f ↦ rw f (untouched refl)
          | inr (h, f) ↦ rw f (on_greeting-Change c from seq _ _ _)
        ])
        | inr e2 ↦ rw e2 (on_other-Change c from seq type_ value)
      ])
    ]

    -- A packet changes the pruned state in one of these ways.
    pub turn-Change :
        (c : ControlState Addr) (from : Addr) (seq : ℕ) (payload : Bytes)
        → Change (prune d c) from seq (turn d k cfg json c from seq payload)
    unfolding turn dropped
    turn-Change c from seq payload = elim (Option-cases (json.read_envelope payload)) [
      | inl e ↦ rw (e, turn) (untouched refl)
      | inr (env, e) ↦ rw (e, turn) (on_envelope-Change (prune d c) from seq env.0 env.1)
    ]
