-- ===== src/Control/Epochs.antt =====
-- control.rs: a peer's session epoch only grows, and which greetings are taken.
use telesthete.Base.{
  inl, inr, ◌⊎◌, ℕ, ◌≤◌, ◌≡◌, refl, sym, ap, ◌∙◌, List, length, ltb, Option, none, some, true,
  Bool-cases, arith, subst, if_pos, if_neg,
}
use mathlib.Core.Option.{none-ne-some, some-injective}
use telesthete.Base.Bytes.{Bytes}
use telesthete.Base.Maps.{find, has, insert, find-insert, find-remove, find-retain_key}
use telesthete.Crypto.{Kdf}
use telesthete.Control.Changes.{
  untouched, started, admitted, restarted, marked, forgotten, turn-Change,
}
use telesthete.Control.{
  ControlState, ControlConfig, goodbye, Json, prune, admit, start_session, turn, newer, forget,
}

module _ {Addr : Type 0} (d : Discrete Addr) where
  -- The address has an epoch of at least `e`.
  abbrev pub EpochFrom : Addr → ℕ → List (Addr × ℕ) → Type 0
  EpochFrom q e sessions = (e' : ℕ) × (find d q sessions ≡ some e') × (e ≤ e')

  insert-EpochFrom :
      (q from : Addr) (e ep : ℕ) (m : List (Addr × ℕ))
      → find d q m ≡ some e
      → newer (find d from m) ep ≡ true
      → EpochFrom q e (insert d from ep m)
  unfolding newer
  insert-EpochFrom q from e ep m had new = elim (d from q) [
    | yes same_ ↦ (
      ep,
      find-insert d from q ep m ∙ if_pos (d from q) same_ _ _,
      grown (find d from m) (ap (λ x. find d x m) same_ ∙ had) new,
    )
    | no other ↦ (e, find-insert d from q ep m ∙ if_neg (d from q) other _ _ ∙ had, omega arith)
  ]
    where
      grown : (o : Option ℕ) → o ≡ some e → newer o ep ≡ true → e ≤ ep
      grown none h n = absurd (none-ne-some _ h)
      grown (some x) h n = let same_ : x ≡ e = some-injective _ _ h in ground arith

  prune-sessions :
      (c : ControlState Addr) (q : Addr)
      → (length c.watermark ≤ 1024) ⊎ (has d q c.peers ≡ true)
      → find d q (prune d c).sessions ≡ find d q c.sessions
  unfolding prune
  prune-sessions c q kept = elim (Bool-cases (ltb 1024 (length c.watermark))) [
    | inr few ↦ rw few refl
    | inl many ↦ elim kept [
      | inl few ↦ absurd (ground arith)
      | inr live ↦ rw many (find-retain_key d (λ a. has d a c.peers) q c.sessions ∙ rw live refl)
    ]
  ]

  module _ {Value Loss : Type 0} (k : Kdf) (cfg : ControlConfig) (json : Json Value Loss) where
    -- Whatever a packet brings, the epoch of a peer does not go down and is not forgotten, unless
    -- the packet is the peer's own GOODBYE; past 1024 watermarks this is said of the peers that
    -- are still registered.
    pub turn-sessions_grow :
        (c : ControlState Addr) (from q : Addr) (seq e : ℕ) (payload : Bytes)
        → (length c.watermark ≤ 1024) ⊎ (has d q c.peers ≡ true)
        → find d q c.sessions ≡ some e
        → (let t = turn d k cfg json c from seq payload in
            EpochFrom q e t.state.sessions ⊎ ((from ≡ q) × (t.event ≡ some goodbye)))
    unfolding start_session forget admit
    turn-sessions_grow c from q seq e payload kept had =
        let had' : find d q (prune d c).sessions ≡ some e = prune-sessions c q kept ∙ had in
        let stays : EpochFrom q e (prune d c).sessions = (e, had', omega arith) in
        let P : ControlState Addr → Type 0 = λ s. EpochFrom q e s.sessions in
        elim (turn-Change d k cfg json c from seq payload) [
          | untouched eq ↦ inl (subst P (sym eq) stays)
          | started ep new eq ↦ inl (subst P (sym eq) (insert-EpochFrom q from e ep _ had' new))
          | admitted g old eq ↦ inl (subst P (sym eq) stays)
          | restarted g new eq ↦
              inl (subst P (sym eq) (insert-EpochFrom q from e g.session _ had' new))
          | marked eq ↦ inl (subst P (sym eq) stays)
          | forgotten left eq ↦ elim (d from q) [
            | yes own ↦ inr (own, left)
            | no other ↦ inl (
                subst P (sym eq)
                  (e, find-remove d from q _ ∙ if_neg (d from q) other _ _ ∙ had', omega arith))
          ]
        ]
