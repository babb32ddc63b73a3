-- ===== src/Replay.antt =====
-- The replay watermarks of the hubs of rust/telesthete/src/channel.rs and
-- rust/telesthete/src/stream.rs. `Addr` stands for socket addresses, with their equality.
pub mod Order
mod Tests
use telesthete.Base.{
  ℕ, ◌≡◌, List, [], ◌∷◌, length, drop, get_or, leb, if◌then◌else◌, not, ◌==◌, Option, none, some,
  Bool, true, false, ℕ_discrete, ite,
}
use telesthete.Base.Bytes.{Bytes}
use telesthete.Base.Maps.{find, insert, retain}
use telesthete.Channel.Frame.{ChannelFrame, parse}
use mathlib.Core.HLevel.{×_discrete}

pub record StreamMessage (Addr : Type 0) : Type 0 where
  pub from : Addr
  pub stream_id : ℕ
  pub priority : ℕ
  pub data_ : Bytes

-- What the Channel demultiplexer does with a packet: dropped as replayed, as malformed, for want
-- of a connection, or handed to the connection's task.
pub data Verdict : Type 0 where
  stale : Verdict
  malformed : Verdict
  no_connection : ChannelFrame → Verdict
  handed : ChannelFrame → Verdict

module _ {Addr : Type 0} (d : Discrete Addr) where
  abbrev pub Watermarks : Type 0
  Watermarks = List ((Addr × ℕ) × ℕ)

  abbrev pub key_discrete : Discrete (Addr × ℕ)
  key_discrete = ×_discrete d ℕ_discrete

  -- Accept the first sequence of a key, then strictly larger ones: the new watermarks, or none.
  unfoldable pub accept : Watermarks → Addr × ℕ → ℕ → Option Watermarks
  accept w key sequence = elim (find key_discrete key w) [
    | none ↦ some (insert key_discrete key sequence w)
    | some prev ↦ if leb sequence prev then none else some (insert key_discrete key sequence w)
  ]

  -- The peer at `addr` restarted.
  unfoldable pub rebase : Watermarks → Addr → Watermarks
  rebase w addr = retain (λ k s. not (ite (d k.0 addr) true false)) w

  -- A packet of the Channel hub; `open` says which keys have a connection.
  unfoldable pub channel_inbound :
      (Addr × ℕ → Bool) → Watermarks → Addr × ℕ → ℕ → Bytes → Watermarks × Verdict
  unfolding accept
  channel_inbound open_ w key sequence payload = elim (accept w key sequence) [
    | none ↦ (w, stale)
    | some w' ↦ elim (parse payload) [
      | none ↦ (w', malformed)
      | some f ↦ if open_ key then (w', handed f) else (w', no_connection f)
    ]
  ]

  unfoldable pub handle_stream_inbound :
      Watermarks → Addr × ℕ → ℕ → Bytes → Watermarks × Option (StreamMessage Addr)
  unfolding accept
  handle_stream_inbound w key sequence payload =
      let got : StreamMessage Addr = record {
        from = key.0;
        stream_id = key.1;
        priority = get_or payload 0 0;
        data_ = drop 1 payload;
      } in
      if length payload == 0
      then (w, none)
      else elim (accept w key sequence) [ none ↦ (w, none) | some w' ↦ (w', some got) ]

  -- What reaches a hub: a packet of a key with its sequence and payload, or a peer's restart.
  pub data Event : Type 0 where
    packet : Addr × ℕ → ℕ → Bytes → Event
    restart : Addr → Event
