-- ===== src/Channel/Tests.antt =====
-- The theorems on a connection at concrete inputs, and runs.
use telesthete.Base.{
  ℕ, ◌≤◌, ◌<◌, ◌≡◌, ◌≢◌, ◌⊎◌, refl, ap, ◌∙◌, arith, [], ◌∷◌, length, some, true, false, ℕ_discrete,
}
use telesthete.Base.Maps.{find}
use telesthete.Channel.{
  ChannelCore, Unacked, closed, established, syn_sent, new, connect, ack, on_timeout, on_frame,
  deliver, emit_next,
}
use telesthete.Channel.Frame.{
  ChannelFrame, IsFrame, parse, serialize, parse-serialize, has_flag, consumes_seq, flag_rst,
}
use telesthete.Channel.Sending.{Flight, ack-Flight}
use telesthete.Channel.Timeout.{times, resent, timeouts, timeouts_bounded}
use telesthete.Channel.Receiving.{arrivals, deliver-Ran}
use telesthete.Channel.Draining.{Held, Ran, Exact}
use telesthete.Channel.States.{Lawful, on_frame-Lawful}

abbrev data_frame : ℕ → ChannelFrame
data_frame n = record { flags = 4; ack_num = 2; window = 32; seq = n; data_ = 9 ∷ n ∷ [] }

data_frame-IsFrame : IsFrame (data_frame 7)
unfolding has_flag
data_frame-IsFrame = record {
  no_reserved = refl;
  ack_num = omega arith;
  window = omega arith;
  seq = omega arith;
}

parse-serialize_example : parse (serialize (data_frame 7)) ≡ some (data_frame 7)
parse-serialize_example = parse-serialize (data_frame 7) data_frame-IsFrame

syn_opens : (connect (new 32 500)).state ≡ syn_sent
unfolding connect new emit_next
syn_opens = refl

abbrev sent : ℕ → Unacked
sent n = record { flags = 4; seq = n; data_ = n ∷ [] }

-- Frames 3 and 4 are in flight and two wait.
abbrev busy : ChannelCore
busy = record (new 32 500) {
  state = established;
  send_next = 5;
  unacked = sent 3 ∷ sent 4 ∷ [];
  send_queue = (7 ∷ []) ∷ (8 ∷ []) ∷ [];
  closing = true;
  rcv_next = 1;
}

ack-Flight_example :
    let c' = ack busy 4 in
    Flight 4 c'.unacked c'.send_next
    × (length c'.unacked ≡ 1)
    × ((3 < 4 → c'.retries ≡ 0) × (4 ≤ 3 → c'.retries ≡ busy.retries))
ack-Flight_example = ack-Flight busy 3 4 (refl, (refl, refl))

timeouts_bounded_example :
    ((timeouts 10 busy).dead ≡ false)
    × ((timeouts 10 busy).outbox ≡ times 10 (resent busy (sent 3 ∷ sent 4 ∷ [])))
    × ((on_timeout (timeouts 10 busy)).dead ≡ true)
    × ((on_timeout (timeouts 10 busy)).unacked ≡ [])
unfolding new
timeouts_bounded_example = timeouts_bounded busy 10 (omega arith) refl refl

-- Frame 2 came early, and frame 1 arrives.
abbrev waiting : ChannelCore
waiting = record (new 32 500) {
  state = established;
  rcv_next = 1;
  recv_buffer = (2, data_frame 2) ∷ [];
  window = 32;
}

waiting-Held : Held data_frame 33 waiting
unfolding find
waiting-Held k f e = elim (ℕ_discrete 2 k) [
  | yes same ↦
      let f2 : f ≡ data_frame 2 = ground (arith, e, same) in
      (f2 ∙ ap data_frame same, omega arith, omega arith)
  | no other ↦ absurd (ground (arith, e, other))
]

deliver-Ran_example :
    (count : ℕ) × Ran 0 data_frame 33 waiting count (deliver waiting 0 (data_frame 1))
    × Exact waiting (arrivals waiting (data_frame 1)) (deliver waiting 0 (data_frame 1))
    × ((1 ≡ waiting.rcv_next → 0 < waiting.window → 0 < count) × (1 ≢ waiting.rcv_next → count ≡ 0))
unfolding find consumes_seq has_flag ℕ_discrete
deliver-Ran_example =
    deliver-Ran waiting 0 data_frame (data_frame 1) (omega arith) waiting-Held refl refl refl

abbrev syn : ChannelFrame
syn = record { flags = 1; ack_num = 0; window = 32; seq = 0; data_ = [] }

on_frame-Lawful_example :
    let q = on_frame (new 32 500) 0 syn in
    ((has_flag 1 flag_rst ≡ true)
      × (q.state ≡ closed)
      × (q.dead ≡ true)
      × (q.peer_closed ≡ true)
      × (q.unacked ≡ [])
      × (q.send_queue ≡ []))
    ⊎ ((has_flag 1 flag_rst ≡ false) × Lawful (new 32 500) syn q)
on_frame-Lawful_example = on_frame-Lawful (new 32 500) 0 syn
