-- ===== src/Drop/Stale.antt =====
-- drop_channel.rs, `replay_stale`: packets of each peer are taken in increasing order. The same
-- test guards the boards and the control plane.
use telesthete.Base.{
  inl, inr, ℕ, ◌≤◌, ◌<◌, ◌≡◌, refl, sym, ap, dec_le, ◌∙◌, List, [], ◌∷◌, leb, if◌then◌else◌, none,
  some, Bool, true, false, arith, Option-cases, if_pos, if_neg,
}
use mathlib.Core.Option.{none-ne-some, some-injective}
use telesthete.Base.Maps.{find, insert, find-insert}

module _ {Addr : Type 0} (d : Discrete Addr) where
  unfoldable pub replay_stale : List (Addr × ℕ) → Addr → ℕ → List (Addr × ℕ) × Bool
  replay_stale watermark from seq = elim (find d from watermark) [
    | none ↦ (insert d from seq watermark, false)
    | some wm ↦ if leb seq wm then (watermark, true) else (insert d from seq watermark, false)
  ]

  -- The watermarks after packets of any peers.
  abbrev pub after : List (Addr × ℕ) → List (Addr × ℕ) → List (Addr × ℕ)
  after watermark [] = watermark
  after watermark ((from, seq) ∷ packets) = after (replay_stale watermark from seq).0 packets

  -- A watermark of the peer at or above the number.
  abbrev Reached : List (Addr × ℕ) → Addr → ℕ → Type 0
  Reached watermark from seq = (wm : ℕ) × (find d from watermark ≡ some wm) × (seq ≤ wm)

  stale_first :
      (w : List (Addr × ℕ)) (from : Addr) (seq : ℕ)
      → find d from w ≡ none
      → replay_stale w from seq ≡ (insert d from seq w, false)
  unfolding replay_stale
  stale_first w from seq e = rw (e, replay_stale) refl

  stale_old :
      (w : List (Addr × ℕ)) (from : Addr) (seq wm : ℕ)
      → find d from w ≡ some wm
      → seq ≤ wm
      → replay_stale w from seq ≡ (w, true)
  unfolding replay_stale
  stale_old w from seq wm e le =
      let old : leb seq wm ≡ true = ground arith in rw (e, replay_stale, old) refl

  stale_next :
      (w : List (Addr × ℕ)) (from : Addr) (seq wm : ℕ)
      → find d from w ≡ some wm
      → wm < seq
      → replay_stale w from seq ≡ (insert d from seq w, false)
  unfolding replay_stale
  stale_next w from seq wm e lt =
      let new : leb seq wm ≡ false = ground arith in rw (e, replay_stale, new) refl

  inserted-Reached :
      (w : List (Addr × ℕ)) (from : Addr) (seq : ℕ) → Reached (insert d from seq w) from seq
  inserted-Reached w from seq =
      (seq, find-insert d from from seq w ∙ if_pos (d from from) refl _ _, omega arith)

  replay_stale-Reached_own :
      (w : List (Addr × ℕ)) (from : Addr) (seq : ℕ) → Reached (replay_stale w from seq).0 from seq
  replay_stale-Reached_own w from seq = elim (Option-cases (find d from w)) [
    | inl e ↦ rw (stale_first w from seq e) (inserted-Reached w from seq)
    | inr (wm, e) ↦ elim (dec_le seq wm) [
      | yes old ↦ rw (stale_old w from seq wm e old) (wm, e, old)
      | no new ↦ rw (stale_next w from seq wm e (omega (arith, new))) (inserted-Reached w from seq)
    ]
  ]

  insert-Reached :
      (w : List (Addr × ℕ)) (a b : Addr) (s t : ℕ)
      → Reached w a s
      → (a ≡ b → s ≤ t)
      → Reached (insert d b t w) a s
  insert-Reached w a b s t (wm, e, le) same = elim (d b a) [
    | yes eq ↦ (t, find-insert d b a t w ∙ if_pos (d b a) eq _ _, same (sym eq))
    | no ne ↦ (wm, find-insert d b a t w ∙ if_neg (d b a) ne _ _ ∙ e, le)
  ]

  replay_stale-Reached :
      (w : List (Addr × ℕ)) (a b : Addr) (s t : ℕ)
      → Reached w a s
      → Reached (replay_stale w b t).0 a s
  replay_stale-Reached w a b s t (wm, e, le) = elim (Option-cases (find d b w)) [
    | inl f ↦ rw (stale_first w b t f) (
        insert-Reached w a b s t (wm, e, le)
          (λ eq. absurd (none-ne-some _ (sym f ∙ ap (λ x. find d x w) (sym eq) ∙ e))))
    | inr (bm, f) ↦ elim (dec_le t bm) [
      | yes old ↦ rw (stale_old w b t bm f old) (wm, e, le)
      | no new ↦ rw (stale_next w b t bm f (omega (arith, new))) (
          insert-Reached w a b s t (wm, e, le)
            (λ eq.
              let same : wm ≡ bm = some-injective _ _ (sym e ∙ ap (λ x. find d x w) eq ∙ f) in
              omega (arith, new)))
    ]
  ]

  after-Reached :
      (w packets : List (Addr × ℕ)) (a : Addr) (s : ℕ)
      → Reached w a s
      → Reached (after w packets) a s
  after-Reached w [] a s h = h
  after-Reached w ((b, t) ∷ packets) a s h =
      after-Reached (replay_stale w b t).0 packets a s (replay_stale-Reached w a b s t h)

  -- A packet that was handled, and any earlier one of its peer, is stale from then on, whatever
  -- packets of whichever peers come in between; it leaves the watermarks as they are.
  pub replay_stale_forever :
      (w packets : List (Addr × ℕ)) (from : Addr) (seq again : ℕ)
      → again ≤ seq
      → (let w' = after (replay_stale w from seq).0 packets in
          replay_stale w' from again ≡ (w', true))
  replay_stale_forever w packets from seq again le =
      let (wm, e, below) =
        after-Reached (replay_stale w from seq).0 packets from seq
          (replay_stale-Reached_own w from seq) in
      stale_old (after (replay_stale w from seq).0 packets) from again wm e (omega arith)
