-- ===== src/Channel/States.antt =====
-- channel.rs, `on_frame`: how the connection's state moves.
use telesthete.Base.{
  ℕ, ◌+◌, ◌≤◌, ◌<◌, ◌≡◌, ◌≢◌, ◌⊎◌, inl, inr, refl, ap, [], if◌then◌else◌, ◌&&◌, true, false, arith,
  Bool-cases,
}
use telesthete.Wire.Reassembler.Inv.{Inv}
use telesthete.Channel.{
  ChannelCore, ConnState, closed, syn_sent, established, fin_sent, emit, emit_reliable, emit_next,
  emit_pure_ack, pump, ack, teardown, deliver, establish, on_live, on_frame,
}
use telesthete.Channel.Frame.{ChannelFrame, has_flag, flag_ack, flag_syn, flag_rst}
use telesthete.Channel.Onward.{
  stage, Onward, Onward-refl, Onward-trans, pump-Onward, deliver-Onward,
}

-- A step that is onward, and that opens a connection only on a SYN.
abbrev Stepped : ChannelCore → ChannelFrame → ChannelCore → Type 0
Stepped c f q =
    Onward c q × (stage c.state < 2 → q.state ≢ c.state → has_flag f.flags flag_syn ≡ true)

-- The connection on which a SYN was taken, with frames or a FIN sent since.
opened-Stepped :
    (c q : ChannelCore) (f : ChannelFrame)
    → stage c.state ≤ 2
    → has_flag f.flags flag_syn ≡ true
    → Onward (establish c f.seq) q
    → Stepped c f q
unfolding establish
opened-Stepped c q f low syn on = (
  record {
    forward = omega (arith, on.forward, low);
    alive = on.alive;
    bounded = on.bounded;
    sound = on.sound;
  },
  (λ h e. syn),
)

delivered-Stepped :
    (c : ChannelCore) (now : ℕ) (f : ChannelFrame)
    → 2 ≤ stage c.state
    → Stepped c f (pump (deliver c now f))
delivered-Stepped c now f high = (
  Onward-trans (deliver-Onward c now f) (pump-Onward (deliver c now f)),
  (λ h e. absurd (omega arith)),
)

on_live-Stepped : (c : ChannelCore) (now : ℕ) (f : ChannelFrame) → Stepped c f (on_live c now f)
unfolding on_live emit_next emit_reliable emit_pure_ack emit establish
on_live-Stepped c now f = live_at c.state refl
  where
    idle : Stepped c f c
    idle = (Onward-refl, (λ h e. absurd (e refl)))

    answered :
        stage c.state ≤ 2
        → has_flag f.flags flag_syn ≡ true
        → Stepped c f (emit_next (establish c f.seq) (flag_syn + flag_ack) [])
    answered low syn =
        opened-Stepped c _ f low syn
          (record { forward = omega arith; alive = refl; bounded = λ v. v; sound = λ v. refl })

    completed :
        stage c.state ≤ 2
        → has_flag f.flags flag_syn ≡ true
        → Stepped c f (pump (emit_pure_ack (establish c f.seq)))
    completed low syn =
        let p = pump-Onward (emit_pure_ack (establish c f.seq)) in
        opened-Stepped c _ f low syn
          (record { forward = p.forward; alive = p.alive; bounded = p.bounded; sound = p.sound })

    live_at :
        (st : ConnState)
        → c.state ≡ st
        → Stepped c f (elim st [
          | closed ↦
              if has_flag f.flags flag_syn
              then emit_next (establish c f.seq) (flag_syn + flag_ack) []
              else c
          | syn_sent ↦
              if has_flag f.flags flag_syn && has_flag f.flags flag_ack
              then pump (emit_pure_ack (establish c f.seq))
              else if has_flag f.flags flag_syn
              then emit_next (establish c f.seq) (flag_syn + flag_ack) []
              else c
          | established ↦ pump (deliver c now f)
          | fin_sent ↦ pump (deliver c now f)
        ])
    live_at closed e = elim (Bool-cases (has_flag f.flags flag_syn)) [
      | inl syn ↦ rw syn ((answered (omega (arith, ap stage e)) syn).0, (λ h e'. refl))
      | inr none_ ↦ rw none_ (idle.0, (λ h e'. absurd (e' refl)))
    ]
    live_at syn_sent e = elim (Bool-cases (has_flag f.flags flag_syn)) [
      | inr none_ ↦ rw none_ (idle.0, (λ h e'. absurd (e' refl)))
      | inl syn ↦ elim (Bool-cases (has_flag f.flags flag_ack)) [
        | inl acked ↦
            rw (syn, acked) ((completed (omega (arith, ap stage e)) syn).0, (λ h e'. refl))
        | inr lone ↦ rw (syn, lone) ((answered (omega (arith, ap stage e)) syn).0, (λ h e'. refl))
      ]
    ]
    live_at established e = delivered-Stepped c now f (omega (arith, ap stage e))
    live_at fin_sent e = delivered-Stepped c now f (omega (arith, ap stage e))

-- What a frame without RST may do. A connection that has sent its FIN may end, but does not open
-- again.
pub record Lawful (c : ChannelCore) (f : ChannelFrame) (q : ChannelCore) : Type 0 where
  pub forward : stage c.state < 3 → stage c.state ≤ stage q.state
  pub alive : stage c.state < 3 → q.dead ≡ c.dead
  pub opened : stage c.state < 2 → q.state ≢ c.state → has_flag f.flags flag_syn ≡ true
  pub shut : c.state ≡ fin_sent → (q.state ≡ fin_sent) ⊎ (q.state ≡ closed)
  pub bounded : Inv c.reassembler → Inv q.reassembler
  pub sound : Inv c.reassembler → q.panicked ≡ c.panicked

stage_last : (s : ConnState) → 3 ≤ stage s → s ≡ fin_sent
stage_last closed h = absurd (omega arith)
stage_last syn_sent h = absurd (omega arith)
stage_last established h = absurd (omega arith)
stage_last fin_sent h = refl

Stepped-Lawful : (c q : ChannelCore) (f : ChannelFrame) → Stepped c f q → Lawful c f q
Stepped-Lawful c q f (on, syn) = record {
  forward = λ h. on.forward;
  alive = λ h. on.alive;
  opened = syn;
  shut = λ e. inl (stage_last q.state (omega (arith, on.forward, ap stage e)));
  bounded = on.bounded;
  sound = on.sound;
}

-- A frame with RST ends the connection: closed, dead, nothing in flight or queued. On any other
-- frame: a connection that is closed, has sent a SYN or is established goes no stage back (in this
-- order, then FIN sent) and does not die; it leaves closed and SYN sent only on a SYN; one that has
-- sent its FIN is in that state still or closed, and never open again; and the reassembler stays
-- within its bounds, so that no assertion in it fails.
pub on_frame-Lawful :
    (c : ChannelCore) (now : ℕ) (f : ChannelFrame)
    → let q = on_frame c now f in
      ((has_flag f.flags flag_rst ≡ true)
        × (q.state ≡ closed)
        × (q.dead ≡ true)
        × (q.peer_closed ≡ true)
        × (q.unacked ≡ [])
        × (q.send_queue ≡ []))
      ⊎ ((has_flag f.flags flag_rst ≡ false) × Lawful c f q)
unfolding on_frame teardown ack
on_frame-Lawful c now f = elim (Bool-cases (has_flag f.flags flag_rst)) [
  | inl reset ↦ rw reset (inl (refl, refl, refl, refl, refl, refl))
  | inr live ↦
      let c' : ChannelCore = record (ack c f.ack_num) { peer_window = f.window } in
      let l = Stepped-Lawful c' (on_live c' now f) f (on_live-Stepped c' now f) in
      rw live (
        inr (
          refl,
          record {
            forward = l.forward;
            alive = l.alive;
            opened = l.opened;
            shut = l.shut;
            bounded = l.bounded;
            sound = l.sound;
          },
        ))
]
