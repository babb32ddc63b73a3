-- ===== src/Channel/Connection.antt =====
-- channel.rs, `run_connection`: the task of one connection, one round of its loop.
use telesthete.Base.{ℕ, ◌+◌, List, [], ◌∷◌, if◌then◌else◌, Option, none, some, Bool, true, false}
use telesthete.Base.Bytes.{Bytes}
use telesthete.Channel.Frame.{ChannelFrame}
use telesthete.Channel.{
  ChannelCore, new, has_unacked, connect, send_message, close, on_frame, on_timeout, is_established,
}

-- What wakes the task: a command of the endpoint or its end, a frame of the hub or its end, or the
-- retransmit timer.
pub data Event : Type 0 where
  connect_command close_command endpoint_gone hub_gone timer : Event
  send_command : Bytes → Bytes → Event
  frame : ChannelFrame → Event

-- `deliver_open` until the stream has ended, `pending` while a caller waits for the connection.
pub record Connection : Type 0 where
  pub core : ChannelCore
  pub deliver_open : Bool
  pub pending : Bool
  pub deadline : Option ℕ

-- What a round sends to the peer and hands to the application, whether it answers the caller that
-- waits for the connection, and whether the task ends.
pub record Round : Type 0 where
  pub next : Connection
  pub sent : List Bytes
  pub delivered : List Bytes
  pub connected : Bool
  pub ended : Bool

unfoldable pub start : ℕ → ℕ → Connection
start window rto = record {
  core = new window rto;
  deliver_open = true;
  pending = false;
  deadline = none;
}

-- The core after an event, and whether a caller waits; `none` ends the task.
unfoldable pub woken : Connection → ℕ → Event → Option Connection
woken c now connect_command =
    some (
      if is_established c.core.state then c else record c { pending = true; core = connect c.core })
woken c now close_command = some (record c { core = close c.core })
woken c now endpoint_gone = none
woken c now hub_gone = none
woken c now timer = some (record c { core = on_timeout c.core; deadline = none })
woken c now (send_command fid data_) = some (record c { core = send_message c.core fid data_ })
woken c now (frame f) = some (record c { core = on_frame c.core now f })

-- A caller that asks for a connection that stands is answered at once.
unfoldable pub answered : Connection → Event → Bool
answered c connect_command = is_established c.core.state
answered c _ = false

-- The timer is kept while frames are in flight, and started when the first one is.
unfoldable pub rearm : ChannelCore → ℕ → Option ℕ → Option ℕ
rearm core now deadline =
    if has_unacked core
    then elim deadline [ none ↦ some (now + core.rto) | some d ↦ some d ]
    else none

-- The rest of a round; `listening` says whether the application still takes messages.
unfoldable pub settle : Connection → Bool → ℕ → Bool → Round
settle c listening now already =
    let taken : Bool = if c.deliver_open then listening else false in
    let open_ : Bool = elim c.core.delivered [ [] ↦ c.deliver_open | m ∷ ms ↦ taken ] in
    let core : ChannelCore = record c.core {
      outbox = [];
      delivered = [];
      just_established = false;
    } in
    let connected = if c.core.just_established then c.pending else false in
    record {
      next = record {
        core = core;
        deliver_open = if c.core.peer_closed then false else open_;
        pending = if c.core.just_established then false else c.pending;
        deadline = if c.core.dead then c.deadline else rearm core now c.deadline;
      };
      sent = c.core.outbox;
      delivered = if taken then c.core.delivered else [];
      connected = if already then true else connected;
      ended = c.core.dead;
    }

-- One round of the loop; `none` when the endpoint or the hub is gone.
unfoldable pub round : Connection → Bool → ℕ → Event → Option Round
round c listening now e = elim (woken c now e) [
  | none ↦ none
  | some c' ↦ some (settle c' listening now (answered c e))
]
