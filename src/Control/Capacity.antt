-- ===== src/Control/Capacity.antt =====
-- control.rs: the number of peers stays under the cap.
use telesthete.Base.{
  inl, inr, ℕ, ◌≤◌, ◌<◌, ◌≡◌, refl, sym, ap, ◌∙◌, List, [], ◌∷◌, length, ltb, leb, Option, none,
  some, true, Bool-cases, Option-cases, arith, ite, subst, if_pos, if_neg,
}
use mathlib.Core.Option.{none-ne-some, some-injective}
use telesthete.Base.Bytes.{Bytes}
use telesthete.Base.Maps.{
  find, insert, remove, has-some, has-none, length-insert-le, length-remove_found, length-remove-le,
}
use telesthete.Crypto.{Kdf}
use telesthete.Control.Changes.{
  untouched, started, admitted, restarted, marked, forgotten, turn-Change,
}
use telesthete.Control.{
  ControlState, ControlConfig, PeerState, Greeting, Json, lowest, prune, make_room, admit,
  start_session, turn, forget,
}

module _ {Addr : Type 0} (d : Discrete Addr) where
  lowest-some :
      (p : Addr × PeerState) (ps : List (Addr × PeerState))
      → (v : Addr × ℕ) × (lowest (p ∷ ps) ≡ some v)
  unfolding lowest
  lowest-some p ps = elim (Option-cases (lowest ps)) [
    | inl e ↦ rw e (_, refl)
    | inr (best, e) ↦ elim (Bool-cases (ltb best.1 p.1.session_epoch)) [
      | inl lt ↦ rw (e, lt) (_, refl)
      | inr ge ↦ rw (e, ge) (_, refl)
    ]
  ]

  -- `none` only of no peers.
  lowest-none : (ps : List (Addr × PeerState)) → lowest ps ≡ none → length ps ≡ 0
  lowest-none [] e = refl
  lowest-none (p ∷ ps) e = absurd (none-ne-some _ (sym e ∙ (lowest-some p ps).1))

  -- The victim is a peer.
  find-lowest :
      (ps : List (Addr × PeerState)) (v : Addr × ℕ)
      → lowest ps ≡ some v
      → (p : PeerState) × (find d v.0 ps ≡ some p)
  unfolding lowest find
  find-lowest [] v e = cc
  find-lowest ((a, p) ∷ ps) v e = elim (Option-cases (lowest ps)) [
    | inl f ↦ at_head (ap (λ x. x.0) (some-injective _ v (rw (f, lowest) at e)))
    | inr (best, f) ↦ elim (Bool-cases (ltb best.1 p.session_epoch)) [
      | inl lt ↦
          let (q, g) = find-lowest ps v (f ∙ rw (f, lowest, lt) at e) in
          elim (d a v.0) [
            | yes same ↦ at_head same
            | no other ↦ (q, if_neg (d a v.0) other _ _ ∙ g)
          ]
      | inr ge ↦ at_head (ap (λ x. x.0) (some-injective _ v (rw (f, lowest, ge) at e)))
    ]
  ]
    where
      at_head : a ≡ v.0 → (x : PeerState) × (ite (d a v.0) (some p) (find d v.0 ps) ≡ some x)
      at_head same = (p, if_pos (d a v.0) same _ _)

  length-insert_found :
      {V : Type 0} (q : Addr) (v w : V) (m : List (Addr × V))
      → find d q m ≡ some w
      → length (insert d q v m) ≡ length m
  unfolding insert find
  length-insert_found q v w [] e = cc
  length-insert_found q v w ((j, x) ∷ m) e = ground (arith, length-insert_found q v w m)

  -- Room is made for a newcomer.
  insert-make_room :
      (ps : List (Addr × PeerState)) (from : Addr) (p : PeerState)
      → length ps ≤ 1024
      → length (insert d from p (make_room d ps from)) ≤ 1024
  unfolding make_room
  insert-make_room ps from p le = elim (Option-cases (find d from ps)) [
    | inr (q, here) ↦
        rw (has-some d from ps here) (omega (arith, length-insert_found from p q ps here))
    | inl new ↦ elim (Bool-cases (leb 1024 (length ps))) [
      | inr few ↦
          rw (has-none d from ps new, few)
            (let less : length ps < 1024 = ground arith in
              omega (arith, length-insert-le d from p ps))
      | inl full ↦ rw (has-none d from ps new, full) (evicted full (lowest ps) refl)
    ]
  ]
    where
      evicted :
          leb 1024 (length ps) ≡ true
          → (victim : Option (Addr × ℕ)) → lowest ps ≡ victim
          → length (
              insert d from p (elim victim as (λ x. List (Addr × PeerState)) [
                | none ↦ ps
                | some v ↦ remove d v.0 ps
              ]))
            ≤ 1024
      evicted full none e = absurd (ground (arith, lowest-none ps e))
      evicted full (some v) e =
          let (q, found) = find-lowest ps v e in
          omega (
            arith,
            length-insert-le d from p (remove d v.0 ps),
            length-remove_found d v.0 q ps found,
          )

  module _ {Value Loss : Type 0} (k : Kdf) (cfg : ControlConfig) (json : Json Value Loss) where
    prune-peers : (c : ControlState Addr) → (prune d c).peers ≡ c.peers
    unfolding prune
    prune-peers c = elim (Bool-cases (ltb 1024 (length c.watermark))) [
      | inl many ↦ rw many refl
      | inr few ↦ rw few refl
    ]

    admit-peers_bounded :
        (c : ControlState Addr) (from : Addr) (seq : ℕ) (g : Greeting)
        → length c.peers ≤ 1024
        → length (admit d k cfg c from seq g).peers ≤ 1024
    unfolding admit
    admit-peers_bounded c from seq g le = insert-make_room c.peers from _ le

    -- Whatever a packet brings, there are at most 1024 peers after it if there were before.
    pub turn-peers_bounded :
        (c : ControlState Addr) (from : Addr) (seq : ℕ) (payload : Bytes)
        → length c.peers ≤ 1024
        → length (turn d k cfg json c from seq payload).state.peers ≤ 1024
    unfolding start_session forget
    turn-peers_bounded c from seq payload le =
        let le' : length (prune d c).peers ≤ 1024 = omega (arith, ap length (prune-peers c)) in
        let bound : ControlState Addr → Type 0 = λ s. length s.peers ≤ 1024 in
        elim (turn-Change d k cfg json c from seq payload) [
          | untouched e ↦ subst bound (sym e) le'
          | started ep new e ↦ subst bound (sym e) le'
          | admitted g old e ↦ subst bound (sym e) (admit-peers_bounded (prune d c) from seq g le')
          | restarted g new e ↦
              subst bound (sym e)
                (admit-peers_bounded (start_session d (prune d c) from g.session) from seq g le')
          | marked e ↦ subst bound (sym e) le'
          | forgotten left e ↦
              subst bound (sym e) (omega (arith, length-remove-le d from (prune d c).peers))
        ]
