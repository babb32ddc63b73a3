-- ===== src/Drop/Tasks.antt =====
-- drop_channel.rs: the tasks of `DropSender` and `DropReceiver`, one turn of their loops each.
-- What they send goes to the list of destinations and frames.
use telesthete.Base.{ℕ, List, [], map, Option, none, some, Bool, if◌then◌else◌}
use telesthete.Base.Bytes.{Bytes}
use telesthete.Base.Maps.{remove}
use telesthete.Drop.{Json}
use telesthete.Drop.Sender.{DropSenderCore}
use telesthete.Drop.Sender
use telesthete.Drop.Receiver.{DropReceiverCore, tick, handle_frame, take_completion}
use telesthete.Drop.Stale.{replay_stale}

-- What wakes a task: a packet, a peer's restart, or the ticker of the receiver.
pub data Event (Addr : Type 0) : Type 0 where
  packet : Addr → ℕ → Bytes → Event Addr
  restart : Addr → Event Addr
  ticker : Event Addr

pub record SenderTask (Addr : Type 0) : Type 0 where
  pub core : DropSenderCore Addr
  pub watermark : List (Addr × ℕ)

pub record ReceiverTask (Addr : Type 0) : Type 0 where
  pub core : DropReceiverCore Addr
  pub watermark : List (Addr × ℕ)

module _ {Addr : Type 0} where
  -- After each turn of the receiver: the frames go to the sender, if it is known, and a completion
  -- to the caller.
  unfoldable pub settle :
      List (Addr × ℕ)
      → DropReceiverCore Addr × List Bytes
      → ReceiverTask Addr × List (Addr × Bytes) × Option (Bytes × Bool)
  settle watermark (c, frames) =
      let taken = take_completion c in
      let sent : List (Addr × Bytes) = elim c.sender_addr [
        | none ↦ []
        | some dest ↦ map (λ f. (dest, f)) frames
      ] in
      (record { core = taken.0; watermark = watermark }, sent, taken.1)

  module _ (d : Discrete Addr) (json : Json) (sha256 : Bytes → Bytes) where
    -- The frames sent, and the verdict for the caller.
    unfoldable pub sender_turn :
        SenderTask Addr → Event Addr → SenderTask Addr × List (Addr × Bytes) × Option (Addr × Bool)
    sender_turn t (packet from seq payload) =
        let checked = replay_stale d t.watermark from seq in
        let answer = Sender.handle_frame json d t.core from payload in
        let verdict : Option (Addr × Bool) = elim answer.2 [
          | none ↦ none
          | some ok ↦ some (from, ok)
        ] in
        if checked.1 then (record t { watermark = checked.0 }, [], none) else (
          record { core = answer.0; watermark = checked.0 },
          map (λ f. (from, f)) answer.1,
          verdict,
        )
    sender_turn t (restart peer) = (record t { watermark = remove d peer t.watermark }, [], none)
    sender_turn t ticker = (t, [], none)

    -- `none` is a panic. The time is that of the turn.
    unfoldable pub receiver_turn :
        ReceiverTask Addr
        → Event Addr
        → ℕ
        → Option (ReceiverTask Addr × List (Addr × Bytes) × Option (Bytes × Bool))
    receiver_turn t (packet from seq payload) now =
        let checked = replay_stale d t.watermark from seq in
        if checked.1
        then some (record t { watermark = checked.0 }, [], none)
        else elim (handle_frame json sha256 t.core from payload now) [
          | none ↦ none
          | some step ↦ some (settle checked.0 step)
        ]
    receiver_turn t (restart peer) now =
        some (record t { watermark = remove d peer t.watermark }, [], none)
    receiver_turn t ticker now = some (settle t.watermark (tick json t.core now))
