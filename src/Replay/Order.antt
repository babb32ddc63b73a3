-- ===== src/Replay/Order.antt =====
-- channel.rs and stream.rs, the watermarks: no packet is taken twice.
use telesthete.Base.{
  ℕ, ◌≤◌, ◌<◌, ◌≡◌, ◌≢◌, ◌⊎◌, inl, inr, refl, ap, ◌∙◌, List, [], ◌∷◌, length, leb, not, ◌==◌, none,
  some, Bool, true, false, ite, arith, Bool-cases, Option-cases, leb→le,
}
use telesthete.Base.Bytes.{Bytes}
use telesthete.Base.Maps.{find, insert, find-insert, find-retain_key}
use telesthete.Channel.Frame.{parse}
use telesthete.Replay.{
  Watermarks, key_discrete, accept, rebase, channel_inbound, handle_stream_inbound, stale, Event,
  packet, restart,
}

module _ {Addr : Type 0} (d : Discrete Addr) where
  -- The key's watermark is at least `n`.
  abbrev pub Reached : Addr × ℕ → ℕ → Watermarks d → Type 0
  Reached key n w = (s : ℕ) × (find (key_discrete d) key w ≡ some s) × (n ≤ s)

  accept-Reached :
      (w : Watermarks d) (j : Addr × ℕ) (sequence : ℕ)
      → ((accept d w j sequence ≡ none) × Reached j sequence w)
        ⊎ ((w' : Watermarks d) × (accept d w j sequence ≡ some w')
            × Reached j sequence w'
            × ((n : ℕ) → Reached j n w → n < sequence)
            × ((key : Addr × ℕ) (n : ℕ) → Reached key n w → Reached key n w'))
  unfolding accept
  accept-Reached w j sequence = elim (Option-cases (find (key_discrete d) j w)) [
    | inl e ↦
        rw (e, accept)
          (inr (
            insert (key_discrete d) j sequence w,
            refl,
            reached,
            (λ n r. absurd (ground (arith, r, e))),
            (λ key n r. kept key n r (λ s same. absurd (ground (arith, same, e)))),
          ))
    | inr (prev, e) ↦ elim (Bool-cases (leb sequence prev)) [
      | inl old ↦ rw (e, accept) (rw old (inl (refl, (prev, refl, leb→le _ _ old))))
      | inr new ↦
          rw (e, accept)
            (rw new (
              inr (
                insert (key_discrete d) j sequence w,
                refl,
                reached,
                (λ n r. ground (arith, r, e)),
                (λ key n r. kept key n r (λ s same. ground (arith, same, e))),
              )))
    ]
  ]
    where
      reached : Reached j sequence (insert (key_discrete d) j sequence w)
      reached = (sequence, ground (arith, find-insert (key_discrete d) j j sequence w), omega arith)

      kept :
          (key : Addr × ℕ) (n : ℕ)
          → Reached key n w
          → ((s : ℕ) → find (key_discrete d) j w ≡ some s → s < sequence)
          → Reached key n (insert (key_discrete d) j sequence w)
      kept key n (s, found, le) above = elim (key_discrete d j key) [
        | yes same ↦ (
          sequence,
          ground (arith, find-insert (key_discrete d) j key sequence w),
          omega (arith, le, above s (ap (λ k. find (key_discrete d) k w) same ∙ found)),
        )
        | no other ↦ (s, ground (arith, find-insert (key_discrete d) j key sequence w), le)
      ]

  -- The watermarks after an event of the Channel hub.
  abbrev pub after_event : (Addr × ℕ → Bool) → Watermarks d → Event d → Watermarks d
  after_event open_ w (packet key sequence payload) =
      (channel_inbound d open_ w key sequence payload).0
  after_event open_ w (restart addr) = rebase d w addr

  abbrev pub after_events : (Addr × ℕ → Bool) → Watermarks d → List (Event d) → Watermarks d
  after_events open_ w [] = w
  after_events open_ w (e ∷ es) = after_events open_ (after_event open_ w e) es

  -- No event is a restart of the peer at `addr`.
  abbrev pub NoRestart : Addr → List (Event d) → Type 0
  NoRestart addr [] = Unit {0}
  NoRestart addr (packet key sequence payload ∷ es) = NoRestart addr es
  NoRestart addr (restart a ∷ es) = (a ≢ addr) × NoRestart addr es

  channel_inbound-Reached :
      (open_ : Addr × ℕ → Bool) (w : Watermarks d) (j key : Addr × ℕ) (sequence n : ℕ)
      (payload : Bytes)
      → Reached key n w
      → Reached key n (channel_inbound d open_ w j sequence payload).0
  unfolding channel_inbound
  channel_inbound-Reached open_ w j key sequence n payload r = elim (accept-Reached w j sequence) [
    | inl (e, _) ↦ rw (e, channel_inbound) r
    | inr (w', e, _, _, keeps) ↦
        rw (e, channel_inbound)
          (elim (Option-cases (parse payload)) [
            | inl bad ↦ rw (bad, channel_inbound) (keeps key n r)
            | inr (f, good) ↦
                rw (good, channel_inbound)
                  (elim (Bool-cases (open_ j)) [
                    | inl o ↦ rw o (keeps key n r)
                    | inr o ↦ rw o (keeps key n r)
                  ])
          ])
  ]

  rebase-Reached :
      (w : Watermarks d) (addr : Addr) (key : Addr × ℕ) (n : ℕ)
      → addr ≢ key.0
      → Reached key n w
      → Reached key n (rebase d w addr)
  unfolding rebase
  rebase-Reached w addr key n other (s, found, le) = (
    s,
    ground (arith, find-retain_key (key_discrete d) (λ k. not (ite (d k.0 addr) true false)) key w),
    le,
  )

  after_events-Reached :
      (open_ : Addr × ℕ → Bool) (es : List (Event d)) (w : Watermarks d) (key : Addr × ℕ) (n : ℕ)
      → NoRestart key.0 es
      → Reached key n w
      → Reached key n (after_events open_ w es)
  after_events-Reached open_ [] w key n quiet r = r
  after_events-Reached open_ (packet j sequence payload ∷ es) w key n quiet r =
      after_events-Reached open_ es _ key n quiet
        (channel_inbound-Reached open_ w j key sequence n payload r)
  after_events-Reached open_ (restart a ∷ es) w key n quiet r =
      after_events-Reached open_ es _ key n quiet.1 (rebase-Reached w a key n quiet.0 r)

  -- A packet of a key is never let through again: once the hub saw sequence `n` of a key, and
  -- however many packets of any keys and restarts of other peers come in between, each packet of
  -- that key with a sequence of at most `n` is dropped as stale and changes nothing.
  pub channel_no_replay :
      (open_ : Addr × ℕ → Bool) (w : Watermarks d) (key : Addr × ℕ) (n m : ℕ) (first again : Bytes)
      (es : List (Event d))
      → NoRestart key.0 es
      → m ≤ n
      → let w' = after_events open_ (channel_inbound d open_ w key n first).0 es in
        channel_inbound d open_ w' key m again ≡ (w', stale)
  unfolding channel_inbound
  channel_no_replay open_ w key n m first again es quiet le =
      let w' = after_events open_ (channel_inbound d open_ w key n first).0 es in
      let (s, found, high) = after_events-Reached open_ es _ key n quiet (seen first) in
      elim (accept-Reached w' key m) [
        | inl (e, _) ↦ rw (e, channel_inbound) refl
        | inr (w2, e, _, above, _) ↦ absurd (omega (arith, above n (s, found, high)))
      ]
    where
      seen : (first : Bytes) → Reached key n (channel_inbound d open_ w key n first).0
      seen first = elim (accept-Reached w key n) [
        | inl (e, r) ↦ rw (e, channel_inbound) r
        | inr (w', e, r, _, _) ↦
            rw (e, channel_inbound)
              (elim (Option-cases (parse first)) [
                | inl bad ↦ rw (bad, channel_inbound) r
                | inr (f, good) ↦
                    rw (good, channel_inbound)
                      (elim (Bool-cases (open_ key)) [ inl o ↦ rw o r | inr o ↦ rw o r ])
              ])
      ]

  -- The Stream hub lets a packet through exactly if it is not empty and its sequence is larger
  -- than the last one taken of its key, or is the first one.
  pub handle_stream_inbound_iff :
      (w : Watermarks d) (key : Addr × ℕ) (n : ℕ) (priority : ℕ) (body : Bytes)
      → (((s : ℕ) → find (key_discrete d) key w ≡ some s → s < n)
          → ((handle_stream_inbound d w key n (priority ∷ body)).1
              ≡ some
                  (record { from = key.0; stream_id = key.1; priority = priority; data_ = body }))
            × (find (key_discrete d) key (handle_stream_inbound d w key n (priority ∷ body)).0
                ≡ some n))
        × ((s : ℕ)
            → find (key_discrete d) key w ≡ some s
            → n ≤ s
            → handle_stream_inbound d w key n (priority ∷ body) ≡ (w, none))
        × (handle_stream_inbound d w key n [] ≡ (w, none))
  unfolding handle_stream_inbound accept
  handle_stream_inbound_iff w key n priority body = (fresh, old, refl)
    where
      busy : (length (priority ∷ body) == 0) ≡ false
      busy = ground arith

      stored : find (key_discrete d) key (insert (key_discrete d) key n w) ≡ some n
      stored = ground (arith, find-insert (key_discrete d) key key n w)

      fresh :
          ((s : ℕ) → find (key_discrete d) key w ≡ some s → s < n)
          → ((handle_stream_inbound d w key n (priority ∷ body)).1
              ≡ some
                  (record { from = key.0; stream_id = key.1; priority = priority; data_ = body }))
            × (find (key_discrete d) key (handle_stream_inbound d w key n (priority ∷ body)).0
                ≡ some n)
      fresh above = elim (Option-cases (find (key_discrete d) key w)) [
        | inl e ↦ rw (busy, e) (refl, stored)
        | inr (prev, e) ↦
            let larger : leb n prev ≡ false = ground (arith, above prev e) in
            rw (busy, e, larger) (refl, stored)
      ]

      old :
          (s : ℕ)
          → find (key_discrete d) key w ≡ some s
          → n ≤ s
          → handle_stream_inbound d w key n (priority ∷ body) ≡ (w, none)
      old s e le = let small : leb n s ≡ true = ground (arith, le) in rw (busy, e, small) refl
