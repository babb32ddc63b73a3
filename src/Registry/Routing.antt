-- ===== src/Registry/Routing.antt =====
-- registry.rs, `targets`: which peers a frame reaches.
use telesthete.Base.{
  In, ℕ, ◌≡◌, ◌≢◌, ◌⊎◌, ◌↔◌, inl, inr, refl, sym, ap, subst, ◌∙◌, List, [], ◌∷◌, not, ◌==◌, ==_iff,
  ◌||◌, ◌&&◌, Option, none, some, Bool, true, false, arith, Bool-cases,
}
use telesthete.Framing.{RouteInfo}
use telesthete.Framing.ChannelType.{
  ChannelType, control, stream, channel, board, drop, route, addressed, to_u8,
}
use mathlib.Core.Option.{some-injective}
use telesthete.Registry.{
  Sink, PeerKey, Peer, Peers, is_type, is_route_id, is_from, declared, any_declared, sinks_of,
  targets,
}

is_addressed : (o : Option ChannelType) → (is_type addressed o ≡ true) ↔ (o ≡ some addressed)
unfolding to_u8 is_type
is_addressed none = ((λ e. cc), (λ e. cc))
is_addressed (some addressed) = ((λ e. refl), (λ e. refl))
is_addressed (some control) = ((λ e. cc), (λ e. cc))
is_addressed (some stream) = ((λ e. cc), (λ e. cc))
is_addressed (some channel) = ((λ e. cc), (λ e. cc))
is_addressed (some board) = ((λ e. cc), (λ e. cc))
is_addressed (some drop) = ((λ e. cc), (λ e. cc))
is_addressed (some route) = ((λ e. cc), (λ e. cc))

is_route_id_iff : (id : ℕ) (o : Option ℕ) → (is_route_id id o ≡ true) ↔ (o ≡ some id)
is_route_id_iff id none = ((λ e. cc), (λ e. cc))
is_route_id_iff id (some r) =
    ((λ e. ap some ((==_iff r id).0 e)), (λ e. (==_iff r id).1 (some-injective r id e)))

module _ {Addr : Type 0} where
  -- The sink of a peer in front of the sinks of the others.
  In-sink :
      (o : Option (Sink Addr)) (rest : List (Sink Addr)) (s : Sink Addr)
      → In s (elim o [ none ↦ rest | some t ↦ t ∷ rest ])
      → (o ≡ some s) ⊎ In s rest
  In-sink none rest s h = inr h
  In-sink (some t) rest s (inl e) = inl (ap some (sym e))
  In-sink (some t) rest s (inr i) = inr i

  sink-In :
      (o : Option (Sink Addr)) (rest : List (Sink Addr)) (s : Sink Addr)
      → o ≡ some s
      → In s (elim o [ none ↦ rest | some t ↦ t ∷ rest ])
  sink-In none rest s e = cc
  sink-In (some t) rest s e = inl (sym (some-injective t s e))

  rest-In :
      (o : Option (Sink Addr)) (rest : List (Sink Addr)) (s : Sink Addr)
      → In s rest
      → In s (elim o [ none ↦ rest | some t ↦ t ∷ rest ])
  rest-In none rest s i = i
  rest-In (some t) rest s i = inr i

module _ {Addr Ip : Type 0} (d : Discrete Addr) (di : Discrete Ip) (ip : Addr → Ip) where
  -- A peer other than the sender that is an eligible destination.
  abbrev pub Reachable : Option (PeerKey Addr) → PeerKey Addr → Peer Addr → Type 0
  Reachable from k p = (is_from d di ip from k ≡ false) × (p.eligible ≡ true)

  -- Such a peer, which declared the id.
  abbrev pub Declarer : Option (PeerKey Addr) → ℕ → PeerKey Addr → Peer Addr → Type 0
  Declarer from id k p = Reachable from k p × (p.route_id ≡ some id)

  declared_iff :
      (from : Option (PeerKey Addr)) (id : ℕ) (k : PeerKey Addr) (p : Peer Addr)
      → (declared d di ip from id k p ≡ true) ↔ Declarer from id k p
  unfolding declared
  declared_iff from id k p =
      let r = is_route_id_iff id p.route_id in
      (
        (λ e. ((ground (arith, e), ground (arith, e)), r.0 (ground (arith, e)))),
        (λ h. let i = r.1 h.1 in rw (h.0.0, h.0.1, i)),
      )

  abbrev Selected : Option (PeerKey Addr) → ℕ → Bool → PeerKey Addr → Peer Addr → Type 0
  Selected from id narrowed k p = Reachable from k p × (narrowed ≡ true → p.route_id ≡ some id)

  Selected-iff :
      (from : Option (PeerKey Addr)) (id : ℕ) (narrowed : Bool) (k : PeerKey Addr) (p : Peer Addr)
      → (((not (is_from d di ip from k) && p.eligible)
            && (not narrowed || declared d di ip from id k p))
          ≡ true)
        ↔ Selected from id narrowed k p
  Selected-iff from id narrowed k p =
      let h = declared_iff from id k p in
      (
        (λ e. ((ground (arith, e), ground (arith, e)), (λ n. (h.0 (ground (arith, e, n))).1))),
        (λ x. elim (Bool-cases narrowed) [
          | inl n ↦ let all = h.1 (x.0, x.1 n) in ground (arith, x.0.0, x.0.1, n, all)
          | inr n ↦ ground (arith, x.0.0, x.0.1, n)
        ]),
      )

  sinks_of_sound :
      (from : Option (PeerKey Addr)) (id : ℕ) (narrowed : Bool) (m : Peers Addr) (s : Sink Addr)
      → In s (sinks_of d di ip from id narrowed m)
      → (k : PeerKey Addr) × (p : Peer Addr) × In (k, p) m
        × Selected from id narrowed k p
        × (p.sink ≡ some s)
  unfolding sinks_of
  sinks_of_sound from id narrowed [] s = λ h. absurd h
  sinks_of_sound from id narrowed ((k, p) ∷ m) s =
      elim (Bool-cases (
        (not (is_from d di ip from k) && p.eligible)
        && (not narrowed || declared d di ip from id k p))) [
          | inr out ↦ rw out (λ h. later (sinks_of_sound from id narrowed m s h))
          | inl hit ↦ rw hit (λ h. elim (In-sink p.sink (sinks_of d di ip from id narrowed m) s h) [
            | inl e ↦ (k, p, inl refl, (Selected-iff from id narrowed k p).0 hit, e)
            | inr i ↦ later (sinks_of_sound from id narrowed m s i)
          ])
        ]
    where
      later :
          (j : PeerKey Addr) × (q : Peer Addr) × In (j, q) m
            × Selected from id narrowed j q
            × (q.sink ≡ some s)
          → (j : PeerKey Addr) × (q : Peer Addr) × In (j, q) ((k, p) ∷ m)
            × Selected from id narrowed j q
            × (q.sink ≡ some s)
      later (j, q, i, x, e) = (j, q, inr i, x, e)

  sinks_of_complete :
      (from : Option (PeerKey Addr)) (id : ℕ) (narrowed : Bool) (m : Peers Addr) (s : Sink Addr)
      (j : PeerKey Addr) (q : Peer Addr)
      → In (j, q) m
      → Selected from id narrowed j q
      → q.sink ≡ some s
      → In s (sinks_of d di ip from id narrowed m)
  unfolding sinks_of
  sinks_of_complete from id narrowed [] s j q i x e = absurd i
  sinks_of_complete from id narrowed ((k, p) ∷ m) s j q (inl same) x e =
      let hit =
        (Selected-iff from id narrowed k p).1
          (subst (λ (y : PeerKey Addr × Peer Addr). Selected from id narrowed y.0 y.1) same x) in
      rw hit (
        sink-In p.sink (sinks_of d di ip from id narrowed m) s
          (ap (λ (y : PeerKey Addr × Peer Addr). y.1.sink) (sym same) ∙ e))
  sinks_of_complete from id narrowed ((k, p) ∷ m) s j q (inr i) x e =
      let rest = sinks_of_complete from id narrowed m s j q i x e in
      elim (Bool-cases (
        (not (is_from d di ip from k) && p.eligible)
        && (not narrowed || declared d di ip from id k p))) [
          | inr out ↦ rw out rest
          | inl hit ↦ rw hit (rest-In p.sink (sinks_of d di ip from id narrowed m) s rest)
        ]

  any_declared_sound :
      (from : Option (PeerKey Addr)) (id : ℕ) (m : Peers Addr)
      → any_declared d di ip from id m ≡ true
      → (k : PeerKey Addr) × (p : Peer Addr) × In (k, p) m × Declarer from id k p
  unfolding any_declared
  any_declared_sound from id [] e = cc
  any_declared_sound from id ((k, p) ∷ m) e = elim (Bool-cases (declared d di ip from id k p)) [
    | inl yes_ ↦ (k, p, inl refl, (declared_iff from id k p).0 yes_)
    | inr no_ ↦
        let (j, q, i, x) = any_declared_sound from id m (ground (arith, e, no_)) in (j, q, inr i, x)
  ]

  any_declared_complete :
      (from : Option (PeerKey Addr)) (id : ℕ) (m : Peers Addr) (k : PeerKey Addr) (p : Peer Addr)
      → In (k, p) m
      → Declarer from id k p
      → any_declared d di ip from id m ≡ true
  unfolding any_declared
  any_declared_complete from id [] k p i x = absurd i
  any_declared_complete from id ((j, q) ∷ m) k p (inl same) x =
      let here =
        (declared_iff from id j q).1
          (subst (λ (y : PeerKey Addr × Peer Addr). Declarer from id y.0 y.1) same x) in
      rw here
  any_declared_complete from id ((j, q) ∷ m) k p (inr i) x =
      let rest = any_declared_complete from id m k p i x in ground (arith, rest)

  -- The frame is addressed to a declared id: it has the type ADDRESSED, an id that is not 0, and
  -- an eligible peer other than the sender declared the id.
  abbrev pub Narrowed : Peers Addr → Option (PeerKey Addr) → RouteInfo → Type 0
  Narrowed peers from info =
      (info.channel_type ≡ some addressed)
      × (info.channel_id ≢ 0)
      × ((k : PeerKey Addr) × (p : Peer Addr) × In (k, p) peers × Declarer from info.channel_id k p)

  Narrowed-iff :
      (peers : Peers Addr) (from : Option (PeerKey Addr)) (info : RouteInfo)
      → ((is_type addressed info.channel_type
            && (not (info.channel_id == 0) && any_declared d di ip from info.channel_id peers))
          ≡ true)
        ↔ Narrowed peers from info
  Narrowed-iff peers from info =
      let typed = is_addressed info.channel_type in
      (
        (λ e. (
          typed.0 (ground (arith, e)),
          (λ z. ground (arith, e, z)),
          any_declared_sound from info.channel_id peers (ground (arith, e)),
        )),
        (λ (t, z, (k, p, i, x)).
            let a = typed.1 t in
            let b : (info.channel_id == 0) ≡ false = ground (arith, z) in
            let c = any_declared_complete from info.channel_id peers k p i x in rw (a, b, c)),
      )

  -- A frame is handed to exactly the sinks of the eligible peers other than its sender; of these
  -- only to those that declared its id, if it is addressed to a declared one.
  pub targets_iff :
      (peers : Peers Addr) (from : Option (PeerKey Addr)) (info : RouteInfo) (s : Sink Addr)
      → In s (targets d di ip peers from info) ↔ (
          (k : PeerKey Addr) × (p : Peer Addr) × In (k, p) peers
          × (Reachable from k p × (Narrowed peers from info → p.route_id ≡ some info.channel_id))
          × (p.sink ≡ some s))
  unfolding targets
  targets_iff peers from info s =
      let n = Narrowed-iff peers from info in
      (
        (λ h.
            let (k, p, i, (r, x), e) = sinks_of_sound from info.channel_id _ peers s h in
            (k, p, i, (r, (λ y. x (n.1 y))), e)),
        (λ (k, p, i, (r, x), e).
            sinks_of_complete from info.channel_id _ peers s k p i (r, (λ y. x (n.0 y))) e),
      )
