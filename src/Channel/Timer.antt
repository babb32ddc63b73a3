-- ===== src/Channel/Timer.antt =====
-- channel.rs, `run_connection`: the retransmit timer.
use telesthete.Base.{
  subst, inl, inr, ℕ, ◌≡◌, refl, [], Option, none, some, Bool, true, false, Bool-cases,
  Option-cases,
}
use mathlib.Core.Option.{none-ne-some, some-injective}
use telesthete.Channel.{ChannelCore, has_unacked}
use telesthete.Channel.Connection.{Connection, Round, Event, woken, answered, rearm, settle, round}

-- Whether the timer is armed.
abbrev pub armed : Option ℕ → Bool
armed none = false
armed (some t) = true

armed-rearm : (c : ChannelCore) (now : ℕ) (o : Option ℕ) → armed (rearm c now o) ≡ has_unacked c
unfolding rearm
armed-rearm c now none = elim (Bool-cases (has_unacked c)) [ inl e ↦ rw e refl | inr e ↦ rw e refl ]
armed-rearm c now (some t) = elim (Bool-cases (has_unacked c)) [
  | inl e ↦ rw e refl
  | inr e ↦ rw e refl
]

settle-armed :
    (c : Connection) (listening : Bool) (now : ℕ) (already : Bool)
    → (settle c listening now already).ended ≡ false
    → armed (settle c listening now already).next.deadline
      ≡ has_unacked (settle c listening now already).next.core
unfolding settle has_unacked
settle-armed c listening now already alive = rw alive (armed-rearm _ now c.deadline)

-- After each round that does not end the task, the retransmit timer is armed exactly when frames
-- are in flight, and nothing that the round made is left to be sent, handed over or signalled.
pub round_settled :
    (c : Connection) (listening : Bool) (now : ℕ) (e : Event) (r : Round)
    → round c listening now e ≡ some r
    → r.ended ≡ false
    → (armed r.next.deadline ≡ has_unacked r.next.core)
      × (r.next.core.outbox ≡ [])
      × (r.next.core.delivered ≡ [])
      × (r.next.core.just_established ≡ false)
unfolding round settle
round_settled c listening now e r run alive = elim (Option-cases (woken c now e)) [
  | inl gone ↦ absurd (none-ne-some _ (rw (gone, round) at run))
  | inr (c', up) ↦
      let same : settle c' listening now (answered c e) ≡ r =
        some-injective _ _ (rw (up, round) at run) in
      subst
        (λ (x : Round).
          x.ended ≡ false
          → (armed x.next.deadline ≡ has_unacked x.next.core)
            × (x.next.core.outbox ≡ [])
            × (x.next.core.delivered ≡ [])
            × (x.next.core.just_established ≡ false))
        same (settled c') alive
]
  where
    settled :
        (c' : Connection)
        → (settle c' listening now (answered c e)).ended ≡ false
        → (armed (settle c' listening now (answered c e)).next.deadline
            ≡ has_unacked (settle c' listening now (answered c e)).next.core)
          × ((settle c' listening now (answered c e)).next.core.outbox ≡ [])
          × ((settle c' listening now (answered c e)).next.core.delivered ≡ [])
          × ((settle c' listening now (answered c e)).next.core.just_established ≡ false)
    settled c' up = (settle-armed c' listening now (answered c e) up, refl, refl, refl)
