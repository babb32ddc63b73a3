-- ===== src/Channel/Sending.antt =====
-- channel.rs, `ack` and `pump`: the frames in flight and the frames that wait.
use telesthete.Base.{
  ℕ, suc, ◌+◌, ◌-◌, ◌≤◌, ◌<◌, ◌≡◌, ◌⊎◌, inl, inr, List, [], ◌∷◌, ◌++◌, length, ltb, true, min, max,
  arith, Bool-cases, map, ltb→lt, ltb→le,
}
use telesthete.Base.Bytes.{Bytes}
use telesthete.Channel.{ChannelCore, Unacked, fin_sent, pump_limit, drop_acked, ack}

-- The frames in flight carry the sequence numbers from `base` up to `next`, each once, in order.
abbrev pub Flight : ℕ → List Unacked → ℕ → Type 0
Flight base [] next = base ≡ next
Flight base (u ∷ us) next = (u.seq ≡ base) × Flight (suc base) us next

pub length-Flight :
    (base : ℕ) (us : List Unacked) (next : ℕ) → Flight base us next → base + length us ≡ next
length-Flight base [] next h = omega arith
length-Flight base (u ∷ us) next h = omega (arith, length-Flight (suc base) us next h.1)

drop_acked-Flight :
    (a base : ℕ) (us : List Unacked) (next : ℕ)
    → a ≤ next
    → Flight base us next
    → Flight (max base a) (drop_acked a us) next
unfolding drop_acked
drop_acked-Flight a base [] next le h = omega arith
drop_acked-Flight a base (u ∷ us) next le h = elim (Bool-cases (ltb u.seq a)) [
  | inl old ↦
      let top : max (suc base) a ≡ max base a = omega (arith, ltb→lt _ _ old, h.0) in
      rw (old, ← top) (drop_acked-Flight a (suc base) us next le h.1)
  | inr kept ↦ let top : max base a ≡ base = omega (arith, ltb→le _ _ kept, h.0) in rw (kept, top) h
]

-- With the frames from `base` on in flight, an acknowledgement takes off exactly those below it;
-- one beyond what was sent counts as `send_next`. The retry count is reset if a frame was taken
-- off, and only then.
pub ack-Flight :
    (c : ChannelCore) (base ack_num : ℕ)
    → Flight base c.unacked c.send_next
    → let a = min ack_num c.send_next in
      let c' = ack c ack_num in
      Flight (max base a) c'.unacked c'.send_next
      × (length c'.unacked ≡ c.send_next - max base a)
      × ((base < a → c'.retries ≡ 0) × (a ≤ base → c'.retries ≡ c.retries))
unfolding ack
ack-Flight c base ack_num h =
    let a = min ack_num c.send_next in
    let left = drop_acked-Flight a base c.unacked c.send_next (omega arith) h in
    let before = length-Flight base c.unacked c.send_next h in
    let after = length-Flight (max base a) (drop_acked a c.unacked) c.send_next left in
    (
      left,
      omega arith,
      ((λ lt. ground (arith, before, after)), (λ le. ground (arith, before, after))),
    )

-- The payloads that wait for an acknowledgement or to be sent, in order.
abbrev pub payloads : List Unacked → List Bytes
payloads us = map (λ u. u.data_) us

-- What sending from the queue keeps.
abbrev pub Sent : ChannelCore → ℕ → ℕ → ChannelCore → Type 0
Sent c base limit q =
    Flight base q.unacked q.send_next
    × (length q.unacked ≤ max (length c.unacked) limit)
    × ((q.send_queue ≡ []) ⊎ (limit ≤ length q.unacked))
    × (payloads q.unacked ++ q.send_queue ≡ payloads c.unacked ++ c.send_queue)
    × (q.state ≡ c.state)
    × (q.closing ≡ c.closing)
    × (q.send_next + length q.send_queue ≡ c.send_next + length c.send_queue)

-- After the queue: either no FIN went out, or it went out last, with nothing waiting behind it.
abbrev pub Pumped : ChannelCore → ℕ → ChannelCore → Type 0
Pumped c base q =
    Flight base q.unacked q.send_next
    × (length q.unacked ≤ max (length c.unacked) (pump_limit c))
    × ((q.send_queue ≡ []) ⊎ (pump_limit c ≤ length q.unacked))
    × (((q.state ≡ c.state)
          × (payloads q.unacked ++ q.send_queue ≡ payloads c.unacked ++ c.send_queue))
        ⊎ ((q.state ≡ fin_sent)
            × (c.closing ≡ true)
            × (q.send_queue ≡ [])
            × (payloads q.unacked ≡ (payloads c.unacked ++ c.send_queue) ++ ([] ∷ []))))
