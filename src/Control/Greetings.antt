-- ===== src/Control/Greetings.antt =====
-- control.rs: which HELLO and HELLO_ACK packets are taken, and what is left of the others.
use telesthete.Base.{
  opens, inl, inr, ◌⊎◌, ℕ, ◌≤◌, ◌≡◌, refl, ap, ◌∙◌, length, if◌then◌else◌, Option, none, some, true,
  false, Bool-cases, arith, if_pos, le→ltb,
}
use mathlib.Core.Bool.{true≢false}
use telesthete.Base.Bytes.{Bytes}
use telesthete.Base.Maps.{find, find-insert, find-remove}
use telesthete.Crypto.{Kdf}
use telesthete.Control.{
  ControlState, ControlConfig, Greeting, ControlEvent, HelloAck, Hello, hello, hello_ack, Json,
  prune, admit, start_session, on_greeting, on_envelope, turn, newer, below, at_most, dropped,
  committed_hello, committed_ack, ack_of,
}

module _ {Addr : Type 0} (d : Discrete Addr) where
  -- A greeting of a newer epoch, or of the current one with a sequence past the watermark.
  abbrev pub Taken : ControlState Addr → Addr → ℕ → ℕ → Type 0
  Taken c from seq ep =
      (newer (find d from c.sessions) ep ≡ true)
      ⊎ ((find d from c.sessions ≡ some ep) × (at_most (find d from c.watermark) seq ≡ false))

  -- The state that the greeting is admitted to.
  unfoldable pub renewed : ControlState Addr → Addr → ℕ → ControlState Addr
  renewed c from ep = if newer (find d from c.sessions) ep then start_session d c from ep else c

  not_below : (o : Option ℕ) (ep : ℕ) → newer o ep ≡ true → below o ep ≡ false
  unfolding newer below
  not_below none ep h = refl
  not_below (some p) ep h = ground arith

  renewed-session :
      (c : ControlState Addr) (from : Addr) (seq ep : ℕ)
      → Taken c from seq ep
      → find d from (renewed c from ep).sessions ≡ some ep
  unfolding renewed start_session
  renewed-session c from seq ep (inl new) =
      rw new (find-insert d from from ep c.sessions ∙ if_pos (d from from) refl _ _)
  renewed-session c from seq ep (inr (current, fresh)) =
      let old : newer (find d from c.sessions) ep ≡ false =
        ap (λ o. newer o ep) current ∙ unfold newer in ground arith in
      rw old current

  module _ {Value Loss : Type 0} (k : Kdf) (cfg : ControlConfig) where
    pub on_greeting-Taken :
        (c : ControlState Addr) (from : Addr) (seq : ℕ) (g : Greeting)
        (event : ControlEvent Value Loss) (ack : Option HelloAck)
        → Taken c from seq g.session
        → on_greeting d k cfg c from seq g event ack ≡ record {
          state = admit d k cfg (renewed c from g.session) from seq g;
          event = some event;
          rebased = newer (find d from c.sessions) g.session;
          ack = ack;
        }
    unfolding on_greeting renewed start_session
    on_greeting-Taken c from seq g event ack (inl new) =
        let cleared : at_most (find d from (start_session d c from g.session).watermark) seq
            ≡ false =
          unfold at_most in
          ap (λ o. at_most o seq)
            (find-remove d from from c.watermark ∙ if_pos (d from from) refl _ _) in
        rw (new, not_below (find d from c.sessions) g.session new, cleared) refl
    on_greeting-Taken c from seq g event ack (inr (current, fresh)) =
        let old : newer (some g.session) g.session ≡ false = unfold newer in ground arith in
        let level : below (some g.session) g.session ≡ false = unfold below in ground arith in
        rw (current, old, level, fresh) refl

    pub on_greeting-stale :
        (c : ControlState Addr) (from : Addr) (seq : ℕ) (g : Greeting)
        (event : ControlEvent Value Loss) (ack : Option HelloAck)
        → ¬ Taken c from seq g.session
        → on_greeting d k cfg c from seq g event ack ≡ dropped d k cfg c false
    unfolding on_greeting newer below
    on_greeting-stale c from seq g event ack not_taken =
        elim (Bool-cases (below (find d from c.sessions) g.session)) [
          | inl old ↦ rw old refl
          | inr level ↦ elim (Bool-cases (newer (find d from c.sessions) g.session)) [
            | inl new ↦ absurd (not_taken (inl new))
            | inr repeated ↦ elim (Bool-cases (at_most (find d from c.watermark) seq)) [
              | inl stale ↦ rw (level, repeated, stale) refl
              | inr fresh ↦
                  absurd (not_taken (inr (at_level (find d from c.sessions) level repeated, fresh)))
            ]
          ]
        ]
      where
        at_level :
            (o : Option ℕ)
            → below o g.session ≡ false
            → newer o g.session ≡ false
            → o ≡ some g.session
        at_level none b n = absurd (true≢false n)
        at_level (some p) b n = let level_ : p ≡ g.session = ground arith in ap some level_

    module _ (json : Json Value Loss) where
      few-prune : (c : ControlState Addr) → length c.watermark ≤ 1024 → prune d c ≡ c
      unfolding prune
      few-prune c few = rw (le→ltb 1024 (length c.watermark) few) refl

      -- The greeting that a HELLO is.
      abbrev pub greeting_of : Hello → Greeting
      greeting_of h = record {
        hostname = h.hostname;
        capabilities = h.capabilities;
        committed = committed_hello cfg h;
        session = h.session;
      }

      abbrev pub ack_greeting : HelloAck → Greeting
      ack_greeting h = record {
        hostname = h.hostname;
        capabilities = h.capabilities;
        committed = committed_ack h;
        session = h.session;
      }

      pub turn-hello :
          (c : ControlState Addr) (from : Addr) (seq : ℕ) (payload : Bytes) (v : Value) (h : Hello)
          → length c.watermark ≤ 1024
          → json.read_envelope payload ≡ some (1, v)
          → json.read_hello v ≡ some h
          → turn d k cfg json c from seq payload
            ≡ on_greeting d k cfg c from seq
                (greeting_of h)
                (hello h)
                (some (ack_of cfg (committed_hello cfg h)))
      unfolding turn on_envelope
      turn-hello c from seq payload v h few e eh =
          opens _ _ _ _ e
          ∙ opens _ _ _ _ eh
          ∙ ap
              (λ s.
                on_greeting d k cfg s from seq (greeting_of h) (hello h)
                  (some (ack_of cfg (committed_hello cfg h))))
              (few-prune c few)

      pub turn-hello_ack :
          (c : ControlState Addr) (from : Addr) (seq : ℕ) (payload : Bytes) (v : Value)
          (h : HelloAck)
          → length c.watermark ≤ 1024
          → json.read_envelope payload ≡ some (2, v)
          → json.read_hello_ack v ≡ some h
          → turn d k cfg json c from seq payload
            ≡ on_greeting d k cfg c from seq (ack_greeting h) (hello_ack h) none
      unfolding turn on_envelope
      turn-hello_ack c from seq payload v h few e eh =
          opens _ _ _ _ e
          ∙ opens _ _ _ _ eh
          ∙ ap (λ s. on_greeting d k cfg s from seq (ack_greeting h) (hello_ack h) none)
              (few-prune c few)

      -- With watermarks of at most 1024 peers, so that none is pruned first: a HELLO is taken
      -- exactly when its epoch is newer than the peer's, or equal with a sequence past the
      -- watermark. Then the application hears of it, a HELLO_ACK answers it, the epoch and the
      -- sequence are recorded, and a restart is signalled if the epoch was newer. Otherwise nothing
      -- changes, nothing is signalled and nothing is sent.
      pub turn_hello_cases :
          (c : ControlState Addr) (from : Addr) (seq : ℕ) (payload : Bytes) (v : Value) (h : Hello)
          → length c.watermark ≤ 1024
          → json.read_envelope payload ≡ some (1, v)
          → json.read_hello v ≡ some h
          → (let t = turn d k cfg json c from seq payload in
              (Taken c from seq h.session
                → (t.event ≡ some (hello h))
                  × (t.ack ≡ some (ack_of cfg (committed_hello cfg h)))
                  × (find d from t.state.sessions ≡ some h.session)
                  × (find d from t.state.watermark ≡ some seq)
                  × (t.rebased ≡ newer (find d from c.sessions) h.session))
              × (¬ Taken c from seq h.session → t ≡ dropped d k cfg c false))
      unfolding admit
      turn_hello_cases c from seq payload v h few e eh =
          let run = turn-hello c from seq payload v h few e eh in
          (
            (λ taken.
                rw (run, on_greeting-Taken c from seq (greeting_of h) (hello h) _ taken)
                  (
                    refl,
                    refl,
                    renewed-session c from seq h.session taken,
                    find-insert d from from seq _ ∙ if_pos (d from from) refl _ _,
                    refl,
                  )),
            (λ stale. run ∙ on_greeting-stale c from seq (greeting_of h) (hello h) _ stale),
          )
