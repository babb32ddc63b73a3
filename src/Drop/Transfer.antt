-- ===== src/Drop/Transfer.antt =====
-- drop_channel.rs: what the last frame of a window leads to at the receiver.
use telesthete.Base.{
  opens, inl, inr, ℕ, zero, suc, ◌+◌, ◌-◌, ◌%◌, ◌^◌, ◌≤◌, ◌<◌, ◌≡◌, refl, ap, subst, ◌∙◌, List, [],
  ◌∷◌, ◌++◌, length, ◌==◌, arith, none, some, true, append-nil, Bool-cases, ℕ_discrete,
}
use telesthete.Base.Bytes.{Bytes}
use telesthete.Drop.{Json, pos, json_frame}
use telesthete.Drop.Sender.{DropSenderCore, chunk_of, chunk_frame, chunk_frames}
use telesthete.Drop.Receiver.{
  DropReceiverCore, has_chunk, request_missing, store, drained, handle_frame,
}
use telesthete.Drop.Content.{length_below}
use telesthete.Drop.Steps.{
  IsSender, Holding, store-Holding, handle_frame-chunk_frame, finish-Holding, request_missing-some,
}
use telesthete.Drop.Window.{
  Waiting, feed_all, store-Waiting, has-store_same, has-store_other, store_fields, length-store_new,
  length-store_le, handle_frame-early, all_have-true,
}

-- The request of the window `[lo, lo + n]`.
abbrev pub request_of : Json → ℕ → ℕ → Bytes
request_of json lo n = json_frame 2 (json.write_request ((pos lo, pos (lo + suc n)) ∷ []))

module _ {Addr : Type 0} where
  -- What a window leads to: the file, with the digest that the sender wants, or a further request
  -- of a receiver that has more than `held` chunks.
  pub data Led (json : Json) (s : DropSenderCore Addr) (a : Addr) (held : ℕ)
      (c : DropReceiverCore Addr) (out : List Bytes) : Type 0 where
    finished :
        c.completion ≡ some (s.data_, true)
        → c.verified ≡ some true
        → out ≡ json_frame 4 (json.write_done s.sha256) ∷ []
        → Led json s a held c out
    asked :
        (lo n : ℕ)
        → Waiting s a lo n c
        → held < length c.have_
        → out ≡ request_of json lo n ∷ []
        → Led json s a held c out

  module _ (json : Json) (sha256 : Bytes → Bytes) (now : ℕ) (s : DropSenderCore Addr)
      (v : IsSender sha256 s) (a : Addr) where
    -- Asking for the next window.
    pub request-Waiting :
        (c : DropReceiverCore Addr)
        → Holding s c
        → c.sender_addr ≡ some a
        → c.verified ≡ none
        → length c.have_ < s.total_chunks
        → (c' : DropReceiverCore Addr) × (lo n : ℕ) × (request_missing json c
            ≡ (c', request_of json lo n ∷ []))
          × Waiting s a lo n c'
          × (c'.have_ ≡ c.have_)
    request-Waiting c h addr going less =
        let (lo, n, inside, few, lacking, e) =
          request_missing-some json sha256 s c a v h addr going less in
        (
          record c { outstanding = some (lo, lo + suc n) },
          lo,
          n,
          e,
          record {
            holding = record {
              offer = h.offer;
              distinct = h.distinct;
              below = h.below;
              honest = h.honest;
            };
            sender_addr = addr;
            verified = going;
            outstanding = refl;
            inside = inside;
            few = few;
            lacking = lacking;
          },
          refl,
        )

    window_drained :
        (lo n : ℕ) (c : DropReceiverCore Addr)
        → Waiting s a lo n c
        → ((k : ℕ) → lo ≤ k → k < lo + n → has_chunk k c.have_ ≡ true)
        → drained json sha256 (store json sha256 c (lo + n) (chunk_of s.data_ (lo + n)) now) ≡ true
    unfolding drained
    window_drained lo n c w held =
        let b : Bytes = chunk_of s.data_ (lo + n) in
        let c1 : DropReceiverCore Addr = store json sha256 c (lo + n) b now in
        let (addr, verified, out) = store_fields json sha256 c (lo + n) b now in
        opens _ _ _ _ (out ∙ w.outstanding)
        ∙ all_have-true (lo + suc n - lo) lo c1.have_ (λ k from below.
          elim (ℕ_discrete (lo + n) k) [
            | yes e ↦
                subst (λ j. has_chunk j c1.have_ ≡ true) e
                  (has-store_same json sha256 c (lo + n) b now)
            | no ne ↦
                has-store_other json sha256 c (lo + n) k b now ne ∙ held k from (omega (arith, ne))
          ])

    -- The last chunk of a window, all of whose other chunks are held.
    last-Led :
        (lo n : ℕ) (c : DropReceiverCore Addr)
        → Waiting s a lo n c
        → ((k : ℕ) → lo ≤ k → k < lo + n → has_chunk k c.have_ ≡ true)
        → (c' : DropReceiverCore Addr) × (out : List Bytes) × (handle_frame json sha256 c a
              (chunk_frame s.data_ (lo + n))
              now
            ≡ some (c', out))
          × Led json s a (length c.have_) c' out
    last-Led lo n c w held =
        let b : Bytes = chunk_of s.data_ (lo + n) in
        let c1 : DropReceiverCore Addr = store json sha256 c (lo + n) b now in
        let h1 : Holding s c1 = store-Holding json sha256 s c (lo + n) now w.inside w.holding in
        let more : length c1.have_ ≡ length c.have_ + 1 =
          length-store_new json sha256 c (lo + n) b now w.lacking in
        let most : length c1.have_ ≤ s.total_chunks =
          length_below s.total_chunks c1.have_ h1.distinct h1.below in
        let (addr, verified, out) = store_fields json sha256 c (lo + n) b now in
        let step = handle_frame-chunk_frame json sha256 s c a (lo + n) now v w.inside w.holding in
        elim (Bool-cases (length c1.have_ % 2 ^ 32 == s.total_chunks)) [
          | inl full ↦ (
            record c1 { verified = some true; completion = some (s.data_, true) },
            json_frame 4 (json.write_done s.sha256) ∷ [],
            step ∙ rw full (finish-Holding json sha256 s c1 v h1 (ground (arith, v.small))),
            finished refl refl refl,
          )
          | inr part ↦
              let all_ : drained json sha256 c1 ≡ true = window_drained lo n c w held in
              let (c2, lo', n', e, w2, same) =
                request-Waiting c1 h1 (addr ∙ w.sender_addr) (verified ∙ w.verified)
                  (ground (arith, v.small)) in
              (
                c2,
                request_of json lo' n' ∷ [],
                step ∙ rw (part, all_) (ap some e),
                asked lo' n' w2 (omega (arith, ap length same)) refl,
              )
        ]

    feed_step :
        (c c' c'' : DropReceiverCore Addr) (f : Bytes) (fs out outs : List Bytes)
        → handle_frame json sha256 c a f now ≡ some (c', out)
        → feed_all json sha256 c' a fs now ≡ some (c'', outs)
        → feed_all json sha256 c a (f ∷ fs) now ≡ some (c'', out ++ outs)
    unfolding feed_all
    feed_step c c' c'' f fs out outs e es = opens _ _ _ _ e ∙ opens _ _ _ _ es

    weaken :
        (less more : ℕ) (c : DropReceiverCore Addr) (out : List Bytes)
        → less ≤ more
        → Led json s a more c out
        → Led json s a less c out
    weaken less more c out le (finished done good e) = finished done good e
    weaken less more c out le (asked lo n w progress e) = asked lo n w (omega arith) e

    -- The frames of a window from `i` on, when the earlier ones have come.
    pub window-Led :
        (m i lo n : ℕ) (c : DropReceiverCore Addr)
        → i + m ≡ lo + n
        → lo ≤ i
        → Waiting s a lo n c
        → ((k : ℕ) → lo ≤ k → k < i → has_chunk k c.have_ ≡ true)
        → (c' : DropReceiverCore Addr) × (out : List Bytes) × (feed_all json sha256 c a
              (chunk_frames (suc m) i s.data_)
              now
            ≡ some (c', out))
          × Led json s a (length c.have_) c' out
    unfolding chunk_frames
    window-Led zero i lo n c e from w held =
        let here : i ≡ lo + n = omega arith in
        let (c', out, step, led) = last-Led lo n c w (λ k f b. held k f (omega arith)) in
        (
          c',
          out,
          feed_step c c' c' _ [] out []
                (ap (λ j. handle_frame json sha256 c a (chunk_frame s.data_ j) now) here ∙ step)
                (unfold feed_all in refl)
              ∙ ap (λ o. some (c', o)) (append-nil out),
          led,
        )
    window-Led (suc m) i lo n c e from w held =
        let c1 : DropReceiverCore Addr = store json sha256 c i (chunk_of s.data_ i) now in
        let (c', out, rest, led) =
          window-Led m (i + 1) lo n c1 (omega arith) (omega arith)
            (store-Waiting json sha256 s a lo n i c now w (omega arith))
            (λ k f b. elim (ℕ_discrete i k) [
              | yes e ↦
                  subst (λ j. has_chunk j c1.have_ ≡ true) e (has-store_same json sha256 c i _ now)
              | no ne ↦ has-store_other json sha256 c i k _ now ne ∙ held k f (omega (arith, ne))
            ]) in
        (
          c',
          out,
          feed_step c c1 c' _ (chunk_frames (suc m) (i + 1) s.data_) [] out
              (handle_frame-early json sha256 s a lo n i c now v w from (omega arith)) rest,
          weaken _ _ c' out (length-store_le json sha256 c i _ now) led,
        )
