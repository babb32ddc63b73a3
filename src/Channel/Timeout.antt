-- ===== src/Channel/Timeout.antt =====
-- channel.rs, `on_timeout`: retransmission, and its end.
use telesthete.Base.{
  ℕ, zero, suc, ◌+◌, ◌≤◌, ◌<◌, ◌≡◌, refl, sym, ap, ◌∙◌, List, [], ◌∷◌, ◌++◌, length, leb, ◌==◌,
  true, false, arith, append-nil, append_assoc,
}
use telesthete.Base.Bytes.{Bytes}
use telesthete.Channel.{
  ChannelCore, Unacked, closed, emit, emit_all, frame_to_send, on_timeout, teardown,
}
use telesthete.Channel.Frame.{serialize}
use telesthete.Channel.Transmission.{framed}

-- The frames in flight as they go out now: with the present `ack_num` and window.
abbrev pub resent : ChannelCore → List Unacked → List Bytes
resent c us = framed c.rcv_next c.window us

-- A list so many times over.
abbrev pub times : ℕ → List Bytes → List Bytes
times zero xs = []
times (suc n) xs = xs ++ times n xs

emit_all_lem :
    (c : ChannelCore) (us : List Unacked)
    → emit_all c us ≡ record c { outbox = c.outbox ++ resent c us }
unfolding emit_all emit frame_to_send
emit_all_lem c [] = ap (λ o. record c { outbox = o }) (sym (append-nil c.outbox))
emit_all_lem c (u ∷ us) =
    emit_all_lem (emit c u.flags u.seq u.data_) us
    ∙ ap (λ o. record c { outbox = o })
        (append_assoc c.outbox (serialize (frame_to_send c u.flags u.seq u.data_) ∷ [])
          (resent c us))

-- With frames in flight, a timeout before the retries are used up sends each of them again, in
-- order, and changes nothing but the outbox and the count; after that it ends the connection.
pub on_timeout_cases :
    (c : ChannelCore)
    → 0 < length c.unacked
    → (c.retries < 10
        → on_timeout c
          ≡ record c { retries = c.retries + 1; outbox = c.outbox ++ resent c c.unacked })
      × (10 ≤ c.retries
          → let d = on_timeout c in
            (d.dead ≡ true)
            × (d.state ≡ closed)
            × (d.unacked ≡ [])
            × (d.send_queue ≡ [])
            × (d.outbox ≡ c.outbox))
unfolding on_timeout teardown frame_to_send
on_timeout_cases c some_ =
    let busy : (length c.unacked == 0) ≡ false = ground (arith, some_) in
    (
      λ few.
          let live : leb 10 c.retries ≡ false = ground (arith, few) in
          rw (busy, live) (emit_all_lem (record c { retries = c.retries + 1 }) c.unacked),
      λ many.
          let spent : leb 10 c.retries ≡ true = ground (arith, many) in
          rw (busy, spent) (refl, refl, refl, refl, refl),
    )

-- Timeouts with no frame in between.
abbrev pub timeouts : ℕ → ChannelCore → ChannelCore
timeouts zero c = c
timeouts (suc n) c = timeouts n (on_timeout c)

timeouts_live :
    (n : ℕ) (c : ChannelCore)
    → 0 < length c.unacked
    → c.retries + n ≤ 10
    → let d = timeouts n c in
      (d.dead ≡ c.dead)
      × (d.unacked ≡ c.unacked)
      × (d.retries ≡ c.retries + n)
      × (d.outbox ≡ c.outbox ++ times n (resent c c.unacked))
timeouts_live zero c some_ le = (refl, refl, omega arith, sym (append-nil c.outbox))
timeouts_live (suc n) c some_ le =
    let again = (on_timeout_cases c some_).0 (omega arith) in
    let next : ChannelCore = record c {
      retries = c.retries + 1;
      outbox = c.outbox ++ resent c c.unacked;
    } in
    let (d, u, r, o) = timeouts_live n next some_ (omega arith) in
    rw (again, timeouts)
      (
        d,
        u,
        omega (arith, r),
        o ∙ append_assoc c.outbox (resent c c.unacked) (times n (resent c c.unacked)),
      )

-- A peer that never answers: the connection with frames in flight outlives the timeouts up to the
-- tenth retry, each of which adds exactly the frames in flight, in order and serialized with the
-- present `ack_num` and window, to the outbox once more, and the next timeout kills it.
pub timeouts_bounded :
    (c : ChannelCore) (n : ℕ)
    → 0 < length c.unacked
    → c.dead ≡ false
    → c.retries + n ≡ 10
    → ((timeouts n c).dead ≡ false)
      × ((timeouts n c).outbox ≡ c.outbox ++ times n (resent c c.unacked))
      × ((on_timeout (timeouts n c)).dead ≡ true)
      × ((on_timeout (timeouts n c)).unacked ≡ [])
timeouts_bounded c n some_ alive e =
    let (d, u, r, o) = timeouts_live n c some_ (omega arith) in
    let (dead, state, none_left, queue, out) =
      (on_timeout_cases (timeouts n c) (omega (arith, ap length u))).1 (omega (arith, r)) in
    (d ∙ alive, o, dead, none_left)
