-- ===== src/Channel/Receiving.antt =====
-- channel.rs, `deliver`: frames reach the application in order, each once.
use telesthete.Base.{
  ℕ, ◌+◌, ◌%◌, ◌^◌, ◌<◌, ◌≡◌, ◌≢◌, inl, inr, refl, sym, ap, ◌∙◌, List, length, ltb, leb,
  if◌then◌else◌, ◌&&◌, none, some, true, false, ℕ_discrete, arith, Bool-cases, Option-cases, ltb→lt,
  leb→le,
}
use telesthete.Base.Maps.{find, has, insert, find-insert, has-none}
use telesthete.Channel.{ChannelCore, emit, emit_pure_ack, drain, deliver}
use telesthete.Channel.Frame.{ChannelFrame, consumes_seq}
use telesthete.Channel.Draining.{drain-Ran, Held, Ran, Exact, Exact-refl}

-- The buffer once the frame is there, which counts only inside the window.
abbrev pub arrivals : ChannelCore → ChannelFrame → List (ℕ × ChannelFrame)
arrivals c f =
    if leb c.rcv_next f.seq && ltb f.seq (c.rcv_next + c.window)
    then insert ℕ_discrete f.seq f c.recv_buffer
    else c.recv_buffer

arrivals-outside :
    (c : ChannelCore) (f : ChannelFrame)
    → (leb c.rcv_next f.seq && ltb f.seq (c.rcv_next + c.window)) ≡ false
    → Exact c (arrivals c f) c
arrivals-outside c f out = rw out (Exact-refl c)

-- A frame that is buffered already.
arrivals-duplicate :
    (c : ChannelCore) (f : ChannelFrame) (s : ℕ → ChannelFrame) (top : ℕ)
    → Held s top c
    → f ≡ s f.seq
    → has ℕ_discrete f.seq c.recv_buffer ≡ true
    → Exact c (arrivals c f) c
arrivals-duplicate c f s top held genuine dup =
    elim (Bool-cases (leb c.rcv_next f.seq && ltb f.seq (c.rcv_next + c.window))) [
      | inr out ↦ arrivals-outside c f out
      | inl near ↦
          rw near ((λ k low high. absurd (omega (arith, low, high))), (λ k high. sym (same_at k)))
    ]
  where
    stored : find ℕ_discrete f.seq c.recv_buffer ≡ some f
    stored = elim (Option-cases (find ℕ_discrete f.seq c.recv_buffer)) [
      | inl e ↦ absurd (ground (arith, has-none ℕ_discrete f.seq c.recv_buffer e))
      | inr (g, e) ↦ e ∙ ap some ((held f.seq g e).0 ∙ sym genuine)
    ]

    same_at :
        (k : ℕ)
        → find ℕ_discrete k (insert ℕ_discrete f.seq f c.recv_buffer)
          ≡ find ℕ_discrete k c.recv_buffer
    same_at k = elim (ℕ_discrete f.seq k) [
      | yes same ↦
          let here : find ℕ_discrete k c.recv_buffer ≡ some f =
            ap (λ n. find ℕ_discrete n c.recv_buffer) (sym same) ∙ stored in
          ground (arith, find-insert ℕ_discrete f.seq k f c.recv_buffer, here)
      | no other ↦ ground (arith, find-insert ℕ_discrete f.seq k f c.recv_buffer)
    ]

-- A connection that waits for the frame `rcv_next` of the stream `s`, with later ones buffered
-- that lie in its window, where the window ends below 2^64, is given a frame of the stream (in any
-- order, a duplicate or not) that consumes its number. Then the application sees the stream's next
-- frames, in order and each once: none if this one is not the next; if it is, and the window is not
-- 0, it and all that wait behind it without a gap, and no frame that has not arrived. The frames
-- beyond the gap stay in the buffer, with this one if it lies in the window, and the connection
-- waits again.
pub deliver-Ran :
    (c : ChannelCore) (now : ℕ) (s : ℕ → ChannelFrame) (f : ChannelFrame)
    → c.rcv_next + c.window < 2 ^ 64
    → Held s (c.rcv_next + c.window) c
    → find ℕ_discrete c.rcv_next c.recv_buffer ≡ none
    → f ≡ s f.seq
    → consumes_seq f ≡ true
    → (count : ℕ) × Ran now s (c.rcv_next + c.window) c count (deliver c now f)
      × Exact c (arrivals c f) (deliver c now f)
      × ((f.seq ≡ c.rcv_next → 0 < c.window → 0 < count) × (f.seq ≢ c.rcv_next → count ≡ 0))
unfolding deliver emit_pure_ack emit
deliver-Ran c now s f small held waits genuine consumes = elim (Bool-cases (ltb f.seq c.rcv_next)) [
  | inl old ↦
      rw (consumes, old)
        (
          0,
          (refl, omega arith, held, refl, waits),
          arrivals-outside c f (ground (arith, old)),
          ((λ e. absurd (omega (arith, ltb→lt _ _ old))), (λ e. refl)),
        )
  | inr new ↦ elim (Bool-cases (has ℕ_discrete f.seq c.recv_buffer)) [
    | inl dup ↦
        rw (consumes, new, dup)
          (
            0,
            (refl, omega arith, held, refl, waits),
            arrivals-duplicate c f s (c.rcv_next + c.window) held genuine dup,
            ((λ e. absurd (not_waiting e dup)), (λ e. refl)),
          )
    | inr fresh ↦
        let wrap : (c.rcv_next + c.window) % 2 ^ 64 ≡ c.rcv_next + c.window = omega arith in
        elim (Bool-cases (leb (c.rcv_next + c.window) f.seq)) [
          | inl far ↦
              rw (consumes, new, fresh, wrap, far)
                (
                  0,
                  (refl, omega arith, held, refl, waits),
                  arrivals-outside c f (ground (arith, far)),
                  ((λ e pos. absurd (omega (arith, leb→le _ _ far))), (λ e. refl)),
                )
          | inr near ↦ rw (consumes, new, fresh, wrap, near) (inside near new)
        ]
  ]
]
  where
    added : ChannelCore
    added = record c { recv_buffer = insert ℕ_discrete f.seq f c.recv_buffer }

    not_waiting : f.seq ≡ c.rcv_next → has ℕ_discrete f.seq c.recv_buffer ≡ true → ⊥
    not_waiting e dup = ground (arith, has-none ℕ_discrete c.rcv_next c.recv_buffer waits)

    added-Held :
        leb (c.rcv_next + c.window) f.seq ≡ false
        → ltb f.seq c.rcv_next ≡ false
        → Held s (c.rcv_next + c.window) added
    added-Held near new k g found = elim (ℕ_discrete f.seq k) [
      | yes same ↦ ground (arith, find-insert ℕ_discrete f.seq k f c.recv_buffer)
      | no other ↦ held k g (ground (arith, find-insert ℕ_discrete f.seq k f c.recv_buffer))
    ]

    inside :
        leb (c.rcv_next + c.window) f.seq ≡ false
        → ltb f.seq c.rcv_next ≡ false
        → (count : ℕ) × Ran now s
            (c.rcv_next + c.window)
            c
            count
            (emit_pure_ack (drain (length added.recv_buffer) added now))
          × Exact c (arrivals c f) (emit_pure_ack (drain (length added.recv_buffer) added now))
          × ((f.seq ≡ c.rcv_next → 0 < c.window → 0 < count) × (f.seq ≢ c.rcv_next → count ≡ 0))
    inside near new =
        let here : (leb c.rcv_next f.seq && ltb f.seq (c.rcv_next + c.window)) ≡ true =
          ground (arith, near, new) in
        let (count, ran, exact, progress) =
          drain-Ran now s (c.rcv_next + c.window) small (length added.recv_buffer) added
            (added-Held near new) (omega arith) in
        (
          count,
          ran,
          rw here exact,
          (
            (λ e pos.
                progress.0 f
                  (ground (arith, find-insert ℕ_discrete f.seq c.rcv_next f c.recv_buffer))),
            (λ other.
                progress.1
                  (ground (arith, find-insert ℕ_discrete f.seq c.rcv_next f c.recv_buffer))),
          ),
        )
