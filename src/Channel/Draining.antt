-- ===== src/Channel/Draining.antt =====
-- channel.rs, the loop of `deliver`: the frames that wait in order are consumed.
use telesthete.Base.{
  ℕ, zero, suc, ◌+◌, ◌%◌, ◌^◌, ◌≤◌, ◌<◌, ◌≡◌, ◌≢◌, inl, inr, refl, sym, ap, ◌∙◌, List, [], ◌∷◌,
  ◌++◌, length, if◌then◌else◌, ◌==◌, none, some, Bool, true, ℕ_discrete, arith, Bool-cases,
  Option-cases,
}
use mathlib.Core.Option.{none-ne-some}
use telesthete.Base.Bytes.{Bytes}
use telesthete.Base.Maps.{find, remove, find-remove, length-remove_found}
use telesthete.Wire.Reassembler.{Reassembler, Outcome, feed, incomplete, message, panic}
use telesthete.Channel.{
  ChannelCore, is_established, next_seq, emit, emit_reliable, emit_next, consume, drain,
}
use telesthete.Channel.Frame.{ChannelFrame, has_flag, flag_fin}

-- What the application sees of a connection.
pub record App : Type 0 where
  pub reassembler : Reassembler
  pub delivered : List Bytes
  pub peer_closed : Bool

abbrev pub app : ChannelCore → App
app c = record { reassembler = c.reassembler; delivered = c.delivered; peer_closed = c.peer_closed }

abbrev pub received : App → Reassembler × Outcome → App
received a (r, message m) = record {
  reassembler = r;
  delivered = a.delivered ++ (m ∷ []);
  peer_closed = a.peer_closed;
}
received a (r, incomplete) = record a { reassembler = r }
received a (r, panic) = record a { reassembler = r }

-- A FIN closes the stream, and data goes to the reassembler.
abbrev pub apply_frame : ℕ → App → ChannelFrame → App
apply_frame now a f =
    if has_flag f.flags flag_fin
    then record a { peer_closed = true }
    else if length f.data_ == 0
    then a
    else received a (feed a.reassembler now f.data_)

-- The frames of the stream `s` with the numbers `from`, `from + 1`, … in turn, `count` of them.
abbrev pub apply_stream : ℕ → (ℕ → ChannelFrame) → ℕ → ℕ → App → App
apply_stream now s from zero a = a
apply_stream now s from (suc count) a =
    apply_stream now s (suc from) count (apply_frame now a (s from))

-- What consuming a frame leaves alone.
abbrev pub SameBuffer : ChannelCore → ChannelCore → Type 0
SameBuffer c q = (q.rcv_next ≡ c.rcv_next) × (q.recv_buffer ≡ c.recv_buffer) × (q.window ≡ c.window)

pub consume_lem :
    (c : ChannelCore) (now : ℕ) (f : ChannelFrame)
    → (app (consume c now f) ≡ apply_frame now (app c) f) × SameBuffer c (consume c now f)
unfolding consume emit_next emit_reliable emit
consume_lem c now f = elim (Bool-cases (has_flag f.flags flag_fin)) [
  | inl fin ↦ rw fin (elim (Bool-cases (is_established c.state)) [
    | inl open_ ↦ rw open_ (refl, (refl, refl, refl))
    | inr over ↦ rw over (refl, (refl, refl, refl))
  ])
  | inr more ↦ rw more (elim (Bool-cases (length f.data_ == 0)) [
    | inl empty ↦ rw empty (refl, (refl, refl, refl))
    | inr full ↦ rw full (fed (feed c.reassembler now f.data_))
  ])
]
  where
    fed :
        (x : Reassembler × Outcome)
        → let c' : ChannelCore = record c { reassembler = x.0 } in
          let q : ChannelCore = elim x.1 [
            | incomplete ↦ c'
            | message m ↦ record c' { delivered = c.delivered ++ (m ∷ []) }
            | panic ↦ record c' { panicked = true }
          ] in
          (app q ≡ received (app c) x) × SameBuffer c q
    fed (r, incomplete) = (refl, (refl, refl, refl))
    fed (r, message m) = (refl, (refl, refl, refl))
    fed (r, panic) = (refl, (refl, refl, refl))

-- The reorder buffer holds frames of the stream `s` only, numbered from the next one expected up
-- to below `top`.
abbrev pub Held : (ℕ → ChannelFrame) → ℕ → ChannelCore → Type 0
Held s top c =
    (k : ℕ) (f : ChannelFrame)
    → find ℕ_discrete k c.recv_buffer ≡ some f
    → (f ≡ s k) × (c.rcv_next ≤ k) × (k < top)

-- The state `q` comes from `c` by `count` frames of the stream, in order, and those left over wait
-- for one that is missing.
abbrev pub Ran : ℕ → (ℕ → ChannelFrame) → ℕ → ChannelCore → ℕ → ChannelCore → Type 0
Ran now s top c count q =
    (app q ≡ apply_stream now s c.rcv_next count (app c))
    × (q.rcv_next ≡ c.rcv_next + count)
    × Held s top q
    × (q.window ≡ c.window)
    × (find ℕ_discrete q.rcv_next q.recv_buffer ≡ none)

-- What was consumed since `c` was all there, in the buffer `m`, and what was not consumed is still
-- buffered in `q`.
abbrev pub Exact : ChannelCore → List (ℕ × ChannelFrame) → ChannelCore → Type 0
Exact c m q =
    ((k : ℕ) → c.rcv_next ≤ k → k < q.rcv_next → find ℕ_discrete k m ≢ none)
    × ((k : ℕ) → q.rcv_next ≤ k → find ℕ_discrete k q.recv_buffer ≡ find ℕ_discrete k m)

pub Exact-refl : (c : ChannelCore) → Exact c c.recv_buffer c
Exact-refl c = ((λ k low high. absurd (omega (arith, low, high))), (λ k high. refl))

-- Exactness when the next frame in order is taken off the buffer first.
pub Exact-taken :
    (c q r : ChannelCore) (f : ChannelFrame)
    → find ℕ_discrete c.rcv_next c.recv_buffer ≡ some f
    → q.rcv_next ≡ suc c.rcv_next
    → q.recv_buffer ≡ remove ℕ_discrete c.rcv_next c.recv_buffer
    → q.rcv_next ≤ r.rcv_next
    → Exact q q.recv_buffer r
    → Exact c c.recv_buffer r
Exact-taken c q r f e next removed later (filled, kept) = (
  (λ k low high. elim (ℕ_discrete c.rcv_next k) [
    | yes same ↦
        λ gone. none-ne-some _ (sym gone ∙ ap (λ n. find ℕ_discrete n c.recv_buffer) (sym same) ∙ e)
    | no other ↦ λ gone. filled k (omega (arith, low, other, next)) high (elsewhere k other ∙ gone)
  ]),
  (λ k high. kept k high ∙ elsewhere k (λ same. omega (arith, high, later, next, same))),
)
  where
    elsewhere :
        (k : ℕ) → c.rcv_next ≢ k → find ℕ_discrete k q.recv_buffer ≡ find ℕ_discrete k c.recv_buffer
    elsewhere k other =
        ap (find ℕ_discrete k) removed
        ∙ ground (arith, find-remove ℕ_discrete c.rcv_next k c.recv_buffer, other)

module _ (now : ℕ) (s : ℕ → ChannelFrame) (top : ℕ) (small : top < 2 ^ 64) where
  find_empty : (k : ℕ) (m : List (ℕ × ChannelFrame)) → length m ≤ 0 → find ℕ_discrete k m ≡ none
  unfolding find
  find_empty k [] e = refl
  find_empty k (x ∷ m) e = absurd (omega arith)

  -- The state in which the next frame in order, found in the buffer, is consumed.
  abbrev taken : ChannelCore → ChannelCore
  taken c = record c {
    recv_buffer = remove ℕ_discrete c.rcv_next c.recv_buffer;
    rcv_next = next_seq c.rcv_next;
  }

  taken-Held :
      (c : ChannelCore) (f : ChannelFrame)
      → Held s top c
      → find ℕ_discrete c.rcv_next c.recv_buffer ≡ some f
      → (q : ChannelCore) → SameBuffer (taken c) q
      → (next_seq c.rcv_next ≡ suc c.rcv_next) × Held s top q
  unfolding next_seq
  taken-Held c f h e q (r, b, w) =
      let next : (c.rcv_next + 1) % 2 ^ 64 ≡ suc c.rcv_next =
        omega (arith, (h c.rcv_next f e).2, small) in
      (
        next,
        λ k g found.
            let found' : find ℕ_discrete k (remove ℕ_discrete c.rcv_next c.recv_buffer) ≡ some g =
              ap (find ℕ_discrete k) (sym b) ∙ found in
            let old : find ℕ_discrete k c.recv_buffer ≡ some g =
              ground (arith, find-remove ℕ_discrete c.rcv_next k c.recv_buffer, found') in
            let other : c.rcv_next ≢ k =
              λ same. ground (arith, find-remove ℕ_discrete c.rcv_next k c.recv_buffer, found') in
            let (genuine, low, high) = h k g old in
            (genuine, omega (arith, low, other, r, next), high),
      )

  pub drain-Ran :
      (fuel : ℕ) (c : ChannelCore)
      → Held s top c
      → length c.recv_buffer ≤ fuel
      → (count : ℕ) × Ran now s top c count (drain fuel c now)
        × Exact c c.recv_buffer (drain fuel c now)
        × (((f : ChannelFrame) → find ℕ_discrete c.rcv_next c.recv_buffer ≡ some f → 0 < count)
            × (find ℕ_discrete c.rcv_next c.recv_buffer ≡ none → count ≡ 0))
  unfolding drain
  drain-Ran zero c h le =
      let none_left = find_empty c.rcv_next c.recv_buffer le in
      (
        0,
        (refl, omega arith, h, refl, none_left),
        Exact-refl c,
        ((λ f e. absurd (ground (arith, none_left, e))), (λ e. refl)),
      )
  drain-Ran (suc fuel) c h le = elim (Option-cases (find ℕ_discrete c.rcv_next c.recv_buffer)) [
    | inl e ↦
        rw (e, drain)
          (
            0,
            (refl, omega arith, h, refl, e),
            Exact-refl c,
            ((λ f e'. absurd (ground (arith, e'))), (λ e'. refl)),
          )
    | inr (f, e) ↦
        let (seen, same) = consume_lem (taken c) now f in
        let q = consume (taken c) now f in
        let (next, held) = taken-Held c f h e q same in
        let shorter = length-remove_found ℕ_discrete c.rcv_next f c.recv_buffer e in
        let fits : length q.recv_buffer ≤ fuel = omega (arith, ap length same.1) in
        let (count, (view, at, still, w, none_left), exact, _) = drain-Ran fuel q held fits in
        let start : q.rcv_next ≡ suc c.rcv_next = same.0 ∙ next in
        let first : app q ≡ apply_frame now (app c) (s c.rcv_next) =
          seen ∙ ap (apply_frame now (app c)) (h c.rcv_next f e).0 in
        rw (e, drain)
          (
            suc count,
            (
              view
                  ∙ ap (λ n. apply_stream now s n count (app q)) start
                  ∙ ap (apply_stream now s (suc c.rcv_next) count) first,
              omega (arith, at, start),
              still,
              w ∙ same.2,
              none_left,
            ),
            Exact-taken c q (drain fuel q now) f e start same.1 (omega (arith, at)) exact,
            ((λ g e'. omega arith), (λ e'. absurd (ground (arith, e')))),
          )
  ]
