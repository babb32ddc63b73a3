-- ===== src/Replay/Tests.antt =====
-- The theorems on the watermarks at concrete inputs, with numbers for addresses.
use telesthete.Base.{ℕ, ◌≤◌, ◌<◌, ◌≡◌, arith, List, [], ◌∷◌, some, none, true, ℕ_discrete}
use telesthete.Base.Maps.{find}
use telesthete.Replay.{
  channel_inbound, handle_stream_inbound, key_discrete, Event, packet, restart, stale,
}
use telesthete.Replay.Order.{after_events, channel_no_replay, handle_stream_inbound_iff}

abbrev others : List (Event ℕ_discrete)
others = packet (4, 1) 90 [] ∷ restart 8 ∷ packet (7, 1) 51 [] ∷ []

channel_no_replay_example :
    let w =
      after_events ℕ_discrete
        (λ k. true)
        (channel_inbound ℕ_discrete (λ k. true) [] (7, 1) 50 []).0
        others in
    channel_inbound ℕ_discrete (λ k. true) w (7, 1) 50 [] ≡ (w, stale)
channel_no_replay_example =
    channel_no_replay ℕ_discrete (λ k. true) [] (7, 1) 50 50 [] [] others ((λ e. omega arith), tt)
      (omega arith)

handle_stream_inbound_iff_example :
    (((s : ℕ) → find (key_discrete ℕ_discrete) (7, 1) [] ≡ some s → s < 5)
      → ((handle_stream_inbound ℕ_discrete [] (7, 1) 5 (3 ∷ 2 ∷ [])).1
          ≡ some (record { from = 7; stream_id = 1; priority = 3; data_ = 2 ∷ [] }))
        × (find
              (key_discrete ℕ_discrete)
              (7, 1)
              (handle_stream_inbound ℕ_discrete [] (7, 1) 5 (3 ∷ 2 ∷ [])).0
            ≡ some 5))
    × ((s : ℕ)
        → find (key_discrete ℕ_discrete) (7, 1) [] ≡ some s
        → 5 ≤ s
        → handle_stream_inbound ℕ_discrete [] (7, 1) 5 (3 ∷ 2 ∷ []) ≡ ([], none))
    × (handle_stream_inbound ℕ_discrete [] (7, 1) 5 [] ≡ ([], none))
handle_stream_inbound_iff_example = handle_stream_inbound_iff ℕ_discrete [] (7, 1) 5 3 (2 ∷ [])
