-- ===== src/Channel.antt =====
-- rust/telesthete/src/channel.rs: `ChannelCore`, the reliability state machine of one connection.
-- Sequence numbers wrap at 2^64, as in a release build. `now` is the reassembler's clock.
pub mod Frame
pub mod Connection
pub mod Timer
pub mod Transmission
pub mod Sending
pub mod Timeout
pub mod Draining
pub mod Receiving
pub mod Onward
pub mod States
mod Tests
use telesthete.Base.{
  ℕ, zero, suc, ◌+◌, ◌%◌, ◌^◌, ◌≡◌, List, [], ◌∷◌, ◌++◌, length, ltb, leb, if◌then◌else◌, not, ◌==◌,
  ◌||◌, ◌&&◌, Option, none, some, Bool, true, false, min, max, ℕ_discrete, ite,
}
use telesthete.Base.Bytes.{Bytes}
use telesthete.Base.Maps.{find, has, insert, remove}
use telesthete.Wire.Fragment.{fragment, max_chunk_payload}
use telesthete.Wire.Reassembler.{Reassembler, for_chunk_size, feed, incomplete, message, panic}
use Frame.{ChannelFrame, serialize, consumes_seq, has_flag, flag_syn, flag_fin, flag_ack, flag_rst}

abbrev pub default_window : ℕ
default_window = 32

abbrev pub max_retries : ℕ
max_retries = 10

pub data ConnState : Type 0 where
  closed : ConnState
  syn_sent : ConnState
  established : ConnState
  fin_sent : ConnState

unfoldable pub is_established : ConnState → Bool
is_established established = true
is_established _ = false

pub record Unacked : Type 0 where
  pub flags : ℕ
  pub seq : ℕ
  pub data_ : Bytes

-- `panicked` is set where an assertion of the code would end the connection's task.
pub record ChannelCore : Type 0 where
  pub state : ConnState
  pub send_next : ℕ
  pub unacked : List Unacked
  pub send_queue : List Bytes
  pub peer_window : ℕ
  pub closing : Bool
  pub rcv_next : ℕ
  pub recv_buffer : List (ℕ × ChannelFrame)
  pub reassembler : Reassembler
  pub window : ℕ
  pub rto : ℕ
  pub retries : ℕ
  pub outbox : List Bytes
  pub delivered : List Bytes
  pub just_established : Bool
  pub peer_closed : Bool
  pub dead : Bool
  pub panicked : Bool

unfoldable pub new : ℕ → ℕ → ChannelCore
unfolding for_chunk_size
new window rto = record {
  state = closed;
  send_next = 0;
  unacked = [];
  send_queue = [];
  peer_window = default_window;
  closing = false;
  rcv_next = 0;
  recv_buffer = [];
  reassembler = for_chunk_size max_chunk_payload;
  window = window;
  rto = rto;
  retries = 0;
  outbox = [];
  delivered = [];
  just_established = false;
  peer_closed = false;
  dead = false;
  panicked = false;
}

unfoldable pub has_unacked : ChannelCore → Bool
has_unacked c = not (length c.unacked == 0)

unfoldable pub next_seq : ℕ → ℕ
next_seq n = (n + 1) % 2 ^ 64

unfoldable pub frame_to_send : ChannelCore → ℕ → ℕ → Bytes → ChannelFrame
frame_to_send c flags seq bytes = record {
  flags = flags;
  ack_num = c.rcv_next;
  window = c.window;
  seq = seq;
  data_ = bytes;
}

unfoldable pub emit : ChannelCore → ℕ → ℕ → Bytes → ChannelCore
emit c flags seq bytes = record c {
  outbox = c.outbox ++ (serialize (frame_to_send c flags seq bytes) ∷ []);
}

unfoldable pub emit_reliable : ChannelCore → ℕ → ℕ → Bytes → ChannelCore
unfolding emit
emit_reliable c flags seq bytes =
    let sent : Unacked = record { flags = flags; seq = seq; data_ = bytes } in
    emit (record c { unacked = c.unacked ++ (sent ∷ []) }) flags seq bytes

unfoldable pub emit_pure_ack : ChannelCore → ChannelCore
unfolding emit
emit_pure_ack c = emit c flag_ack c.send_next []

-- `let seq = self.send_next; self.send_next += 1; self.emit_reliable(flags, seq, data)`.
unfoldable pub emit_next : ChannelCore → ℕ → Bytes → ChannelCore
unfolding emit_reliable
emit_next c flags bytes =
    emit_reliable (record c { send_next = next_seq c.send_next }) flags c.send_next bytes

unfoldable pub connect : ChannelCore → ChannelCore
unfolding emit_next
connect c = elim c.state [
  | closed ↦ emit_next (record c { state = syn_sent }) flag_syn []
  | syn_sent ↦ c
  | established ↦ c
  | fin_sent ↦ c
]

-- The loop of `pump` over the send queue: data frames while the window has room.
unfoldable pub pump_loop : List Bytes → ℕ → ChannelCore → ChannelCore
unfolding emit_next
pump_loop [] limit c = c
pump_loop (bytes ∷ queue) limit c =
    let sent = pump_loop queue limit (emit_next (record c { send_queue = queue }) flag_ack bytes) in
    if ltb (length c.unacked) limit then sent else c

unfoldable pub pump_limit : ChannelCore → ℕ
pump_limit c = max c.peer_window 1

-- A pending FIN goes out when the queue is empty and the window has room.
unfoldable pub pump_fin : ChannelCore → ℕ → ChannelCore
unfolding emit_next
pump_fin c limit =
    if c.closing && ((length c.send_queue == 0) && ltb (length c.unacked) limit)
    then record (emit_next c (flag_fin + flag_ack) []) { state = fin_sent; closing = false }
    else c

unfoldable pub pump : ChannelCore → ChannelCore
unfolding pump_loop pump_fin
pump c =
    if is_established c.state
    then pump_fin (pump_loop c.send_queue (pump_limit c) c) (pump_limit c)
    else c

-- `fid` is the 16 random bytes.
unfoldable pub send_message : ChannelCore → Bytes → Bytes → ChannelCore
unfolding pump
send_message c fid msg = elim (fragment msg max_chunk_payload fid) [
  | none ↦ record c { panicked = true }
  | some chunks ↦ pump (record c { send_queue = c.send_queue ++ chunks })
]

unfoldable pub close : ChannelCore → ChannelCore
unfolding pump
close c = pump (record c { closing = true })

-- The loop of `ack`: the frames in flight from the first that is not acknowledged.
unfoldable pub drop_acked : ℕ → List Unacked → List Unacked
drop_acked ack_num [] = []
drop_acked ack_num (u ∷ us) =
    let rest = drop_acked ack_num us in if ltb u.seq ack_num then rest else u ∷ us

unfoldable pub ack : ChannelCore → ℕ → ChannelCore
unfolding drop_acked
ack c ack_num =
    let left = drop_acked (min ack_num c.send_next) c.unacked in
    record c { unacked = left; retries = if length left == length c.unacked then c.retries else 0 }

unfoldable pub teardown : ChannelCore → ChannelCore
teardown c = record c { state = closed; unacked = []; send_queue = []; dead = true }

unfoldable pub emit_all : ChannelCore → List Unacked → ChannelCore
unfolding emit
emit_all c [] = c
emit_all c (u ∷ us) = emit_all (emit c u.flags u.seq u.data_) us

unfoldable pub on_timeout : ChannelCore → ChannelCore
unfolding teardown emit_all
on_timeout c =
    if length c.unacked == 0
    then c
    else if leb max_retries c.retries
    then teardown c
    else emit_all (record c { retries = c.retries + 1 }) c.unacked

-- The body of the loop in `deliver`, for the frame `f` that is next in order.
unfoldable pub consume : ChannelCore → ℕ → ChannelFrame → ChannelCore
unfolding emit_next
consume c now f =
    let fin : ChannelCore = record c { peer_closed = true } in
    let fed = feed c.reassembler now f.data_ in
    let c' : ChannelCore = record c { reassembler = fed.0 } in
    if has_flag f.flags flag_fin
    then if is_established c.state
      then record (emit_next fin (flag_fin + flag_ack) []) { state = fin_sent }
      else fin
    else if length f.data_ == 0
    then c
    else elim fed.1 [
      | incomplete ↦ c'
      | message m ↦ record c' { delivered = c.delivered ++ (m ∷ []) }
      | panic ↦ record c' { panicked = true }
    ]

-- The loop of `deliver`. Each round takes a frame off the buffer, so its length is enough fuel.
unfoldable pub drain : ℕ → ChannelCore → ℕ → ChannelCore
unfolding consume
drain zero c now = c
drain (suc fuel) c now = elim (find ℕ_discrete c.rcv_next c.recv_buffer) [
  | none ↦ c
  | some f ↦
      drain fuel
        (consume
          (record c {
            recv_buffer = remove ℕ_discrete c.rcv_next c.recv_buffer;
            rcv_next = next_seq c.rcv_next;
          })
          now f)
        now
]

unfoldable pub deliver : ChannelCore → ℕ → ChannelFrame → ChannelCore
unfolding emit_pure_ack drain
deliver c now f =
    let c' : ChannelCore = record c { recv_buffer = insert ℕ_discrete f.seq f c.recv_buffer } in
    if not (consumes_seq f)
    then c
    else if ltb f.seq c.rcv_next || has ℕ_discrete f.seq c.recv_buffer
    then emit_pure_ack c
    else if leb ((c.rcv_next + c.window) % 2 ^ 64) f.seq
    then emit_pure_ack c
    else emit_pure_ack (drain (length c'.recv_buffer) c' now)

-- A SYN arrived: its sequence number is consumed and the connection is open.
unfoldable pub establish : ChannelCore → ℕ → ChannelCore
establish c seq = record c { rcv_next = next_seq seq; state = established; just_established = true }

-- `on_frame` after the acknowledgement, the window and RST.
unfoldable pub on_live : ChannelCore → ℕ → ChannelFrame → ChannelCore
unfolding establish emit_next emit_pure_ack pump deliver
on_live c now f = elim c.state [
  | closed ↦
      if has_flag f.flags flag_syn
      then emit_next (establish c f.seq) (flag_syn + flag_ack) []
      else c
  | syn_sent ↦
      if has_flag f.flags flag_syn && has_flag f.flags flag_ack
      then pump (emit_pure_ack (establish c f.seq))
      else if has_flag f.flags flag_syn
      then emit_next (establish c f.seq) (flag_syn + flag_ack) []
      else c
  | established ↦ pump (deliver c now f)
  | fin_sent ↦ pump (deliver c now f)
]

unfoldable pub on_frame : ChannelCore → ℕ → ChannelFrame → ChannelCore
unfolding ack teardown on_live
on_frame c now f =
    let c' : ChannelCore = record (ack c f.ack_num) { peer_window = f.window } in
    if has_flag f.flags flag_rst
    then teardown (record c' { peer_closed = true })
    else on_live c' now f
