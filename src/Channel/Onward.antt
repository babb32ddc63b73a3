-- ===== src/Channel/Onward.antt =====
-- channel.rs, what `pump` and `deliver` leave of the state, and of the reassembler.
use telesthete.Base.{
  ℕ, zero, suc, ◌+◌, ◌%◌, ◌^◌, ◌≤◌, ◌≡◌, ◌≢◌, inl, inr, refl, ◌∙◌, List, [], ◌∷◌, ◌++◌, length, ltb,
  leb, ◌||◌, ◌&&◌, ◌==◌, true, arith, Bool-cases, Option-cases, ℕ_discrete,
}
use telesthete.Base.Bytes.{Bytes}
use telesthete.Base.Maps.{find, has, insert, remove}
use telesthete.Wire.Reassembler.{Outcome, feed, incomplete, message, panic}
use telesthete.Wire.Reassembler.Inv.{Inv}
use telesthete.Wire.Reassembler.Feed.{feed-Inv}
use telesthete.Channel.{
  ChannelCore, ConnState, closed, syn_sent, established, fin_sent, is_established, next_seq, emit,
  emit_reliable, emit_next, emit_pure_ack, pump_loop, pump_limit, pump_fin, pump, consume, drain,
  deliver,
}
use telesthete.Channel.Frame.{ChannelFrame, consumes_seq, has_flag, flag_fin, flag_ack}

-- How far a connection is in its life.
abbrev pub stage : ConnState → ℕ
stage closed = 0
stage syn_sent = 1
stage established = 2
stage fin_sent = 3

-- From `c` to `q` the state goes no stage back, the connection does not die, and the reassembler
-- stays within its bounds without a failed assertion.
pub record Onward (c q : ChannelCore) : Type 0 where
  pub forward : stage c.state ≤ stage q.state
  pub alive : q.dead ≡ c.dead
  pub bounded : Inv c.reassembler → Inv q.reassembler
  pub sound : Inv c.reassembler → q.panicked ≡ c.panicked

pub Onward-refl : {c : ChannelCore} → Onward c c
Onward-refl {c = c} = record {
  forward = omega arith;
  alive = refl;
  bounded = λ v. v;
  sound = λ v. refl;
}

pub Onward-trans : {a b c : ChannelCore} → Onward a b → Onward b c → Onward a c
Onward-trans g h = record {
  forward = omega (arith, g.forward, h.forward);
  alive = h.alive ∙ g.alive;
  bounded = λ v. h.bounded (g.bounded v);
  sound = λ v. h.sound (g.bounded v) ∙ g.sound v;
}

pump_loop-Onward :
    (queue : List Bytes) (limit : ℕ) (c : ChannelCore) → Onward c (pump_loop queue limit c)
unfolding pump_loop emit_next emit_reliable emit
pump_loop-Onward [] limit c = Onward-refl
pump_loop-Onward (bytes ∷ queue) limit c = elim (Bool-cases (ltb (length c.unacked) limit)) [
  | inr full ↦ rw full Onward-refl
  | inl room ↦
      let rest =
        pump_loop-Onward queue limit (emit_next (record c { send_queue = queue }) flag_ack bytes) in
      rw room (record {
        forward = rest.forward;
        alive = rest.alive;
        bounded = rest.bounded;
        sound = rest.sound;
      })
]

stage_max : (s : ConnState) → stage s ≤ 3
stage_max closed = omega arith
stage_max syn_sent = omega arith
stage_max established = omega arith
stage_max fin_sent = omega arith

pub pump-Onward : (c : ChannelCore) → Onward c (pump c)
unfolding pump pump_fin emit_next emit_reliable emit
pump-Onward c = elim (Bool-cases (is_established c.state)) [
  | inr shut ↦ rw shut Onward-refl
  | inl open_ ↦
      let p = pump_loop c.send_queue (pump_limit c) c in
      let q = pump_loop-Onward c.send_queue (pump_limit c) c in
      rw open_
        (elim (Bool-cases
          (p.closing && ((length p.send_queue == 0) && ltb (length p.unacked) (pump_limit c)))) [
            | inr stay ↦ rw stay q
            | inl go ↦ rw go (record {
              forward = stage_max c.state;
              alive = q.alive;
              bounded = q.bounded;
              sound = q.sound;
            })
          ])
]

consume-Onward : (c : ChannelCore) (now : ℕ) (f : ChannelFrame) → Onward c (consume c now f)
unfolding consume emit_next emit_reliable emit
consume-Onward c now f = elim (Bool-cases (has_flag f.flags flag_fin)) [
  | inl fin ↦ rw fin (elim (Bool-cases (is_established c.state)) [
    | inl open_ ↦
        rw open_ (record {
          forward = stage_max c.state;
          alive = refl;
          bounded = λ v. v;
          sound = λ v. refl;
        })
    | inr over ↦ rw over Onward-refl_fields
  ])
  | inr more ↦ rw more (elim (Bool-cases (length f.data_ == 0)) [
    | inl empty ↦ rw empty Onward-refl
    | inr full ↦ rw full (record {
      forward = fed_stage (feed c.reassembler now f.data_).1;
      alive = fed_alive (feed c.reassembler now f.data_).1;
      bounded = λ v.
          fed_bounded (feed c.reassembler now f.data_).1 (feed-Inv c.reassembler now f.data_ v).0;
      sound = λ v.
          fed_sound (feed c.reassembler now f.data_).1 (feed-Inv c.reassembler now f.data_ v).2;
    })
  ])
]
  where
    Onward-refl_fields : Onward c (record c { peer_closed = true })
    Onward-refl_fields = record {
      forward = omega arith;
      alive = refl;
      bounded = λ v. v;
      sound = λ v. refl;
    }

    after : Outcome → ChannelCore
    after o =
        let c' : ChannelCore = record c { reassembler = (feed c.reassembler now f.data_).0 } in
        elim o [
          | incomplete ↦ c'
          | message m ↦ record c' { delivered = c.delivered ++ (m ∷ []) }
          | panic ↦ record c' { panicked = true }
        ]

    fed_stage : (o : Outcome) → stage c.state ≤ stage (after o).state
    fed_stage incomplete = omega arith
    fed_stage (message m) = omega arith
    fed_stage panic = omega arith

    fed_alive : (o : Outcome) → (after o).dead ≡ c.dead
    fed_alive incomplete = refl
    fed_alive (message m) = refl
    fed_alive panic = refl

    fed_bounded : (o : Outcome) → Inv (feed c.reassembler now f.data_).0 → Inv (after o).reassembler
    fed_bounded incomplete v = v
    fed_bounded (message m) v = v
    fed_bounded panic v = v

    fed_sound : (o : Outcome) → o ≢ panic → (after o).panicked ≡ c.panicked
    fed_sound incomplete n = refl
    fed_sound (message m) n = refl
    fed_sound panic n = absurd (n refl)

drain-Onward : (fuel : ℕ) (c : ChannelCore) (now : ℕ) → Onward c (drain fuel c now)
unfolding drain
drain-Onward zero c now = Onward-refl
drain-Onward (suc fuel) c now = elim (Option-cases (find ℕ_discrete c.rcv_next c.recv_buffer)) [
  | inl e ↦ rw (e, drain) Onward-refl
  | inr (f, e) ↦
      let taken : ChannelCore = record c {
        recv_buffer = remove ℕ_discrete c.rcv_next c.recv_buffer;
        rcv_next = next_seq c.rcv_next;
      } in
      let s = consume-Onward taken now f in
      let t = drain-Onward fuel (consume taken now f) now in
      let all = Onward-trans s t in
      rw (e, drain)
        (record {
          forward = all.forward;
          alive = all.alive;
          bounded = all.bounded;
          sound = all.sound;
        })
]

pub deliver-Onward : (c : ChannelCore) (now : ℕ) (f : ChannelFrame) → Onward c (deliver c now f)
unfolding deliver emit_pure_ack emit
deliver-Onward c now f = elim (Bool-cases (consumes_seq f)) [
  | inr shut ↦ rw shut Onward-refl
  | inl yes_ ↦ elim (Bool-cases (ltb f.seq c.rcv_next || has ℕ_discrete f.seq c.recv_buffer)) [
    | inl dup ↦ rw (yes_, dup) acked
    | inr new ↦ elim (Bool-cases (leb ((c.rcv_next + c.window) % 2 ^ 64) f.seq)) [
      | inl far ↦ rw (yes_, new, far) acked
      | inr near ↦
          let added : ChannelCore = record c {
            recv_buffer = insert ℕ_discrete f.seq f c.recv_buffer;
          } in
          let d = drain-Onward (length added.recv_buffer) added now in
          rw (yes_, new, near)
            (record { forward = d.forward; alive = d.alive; bounded = d.bounded; sound = d.sound })
    ]
  ]
]
  where
    acked : Onward c (emit_pure_ack c)
    acked = record { forward = omega arith; alive = refl; bounded = λ v. v; sound = λ v. refl }
