-- ===== src/Registry/Inv.antt =====
-- registry.rs: the caps and the shape of the registry, which every operation keeps.
use telesthete.Base.{
  ℕ, suc, ◌≤◌, ◌<◌, ◌≡◌, ◌≢◌, inl, inr, refl, ap, [], ◌∷◌, length, if◌then◌else◌, ◌==◌, Option,
  none, some, true, false, arith, Bool-cases,
}
use telesthete.Base.Bytes.{Bytes}
use telesthete.Base.Maps.{
  find, insert, modify, retain, Distinct, insert-Distinct, retain-Distinct, modify-Distinct,
  length-retain-le, length-modify,
}
use telesthete.Base.Maps.Weight.{
  Values, find-Values, insert-Values, retain-Values, modify-Values, length-insert,
}
use telesthete.Base.Text.{Text-discrete}
use telesthete.Registry.{
  Limits, PeerKey, udp, conn, Peer, Peers, Bands, Registry, PeerKey-discrete, rebound,
  strip_rebound, supersede_rebound, keeps, prune_bands, prune,
}

-- A peer has a sink exactly if it is an eligible destination.
abbrev pub IsPeer : {Addr : Type 0} → Peer Addr → Type 0
IsPeer p = (p.eligible ≡ true → p.sink ≢ none) × (p.eligible ≡ false → p.sink ≡ none)

module _ {Addr Ip : Type 0} (d : Discrete Addr) (di : Discrete Ip) (ip : Addr → Ip) where
  pub record IsBand (limits : Limits) (peers : Peers Addr) : Type 0 where
    pub distinct : Distinct (PeerKey-discrete d di ip) peers
    pub sunk : Values (λ k p. IsPeer p) peers
    pub inhabited : 0 < length peers
    pub few : length peers ≤ limits.max_peers_per_band

  pub record Inv (r : Registry Addr) : Type 0 where
    pub distinct : Distinct Text-discrete r.bands
    pub each : Values (λ b peers. IsBand r.limits peers) r.bands
    pub few : length r.bands ≤ r.limits.max_bands

  strip_rebound-absent :
      (addr : Addr) (id born : ℕ) (k : PeerKey Addr) (m : Peers Addr)
      → find (PeerKey-discrete d di ip) k m ≡ none
      → find (PeerKey-discrete d di ip) k (strip_rebound d di ip addr id born m) ≡ none
  unfolding strip_rebound find
  strip_rebound-absent addr id born k [] h = refl
  strip_rebound-absent addr id born k ((j, q) ∷ m) h =
      ground (arith, strip_rebound-absent addr id born k m)

  strip_rebound-Distinct :
      (addr : Addr) (id born : ℕ) (m : Peers Addr)
      → Distinct (PeerKey-discrete d di ip) m
      → Distinct (PeerKey-discrete d di ip) (strip_rebound d di ip addr id born m)
  unfolding strip_rebound
  strip_rebound-Distinct addr id born [] h = tt
  strip_rebound-Distinct addr id born ((k, q) ∷ m) h =
      (strip_rebound-absent addr id born k m h.0, strip_rebound-Distinct addr id born m h.1)

  strip_rebound-Values :
      (addr : Addr) (id born : ℕ) (m : Peers Addr)
      → Values (λ k p. IsPeer p) m
      → Values (λ k p. IsPeer p) (strip_rebound d di ip addr id born m)
  unfolding strip_rebound
  strip_rebound-Values addr id born [] h = tt
  strip_rebound-Values addr id born ((k, q) ∷ m) h = (kept, strip_rebound-Values addr id born m h.1)
    where
      kept : IsPeer (if rebound d di ip addr id born k q then record q { route_id = none } else q)
      kept = elim (Bool-cases (rebound d di ip addr id born k q)) [
        | inl e ↦ rw e h.0
        | inr e ↦ rw e h.0
      ]

  length-strip_rebound :
      (addr : Addr) (id born : ℕ) (m : Peers Addr)
      → length (strip_rebound d di ip addr id born m) ≡ length m
  unfolding strip_rebound
  length-strip_rebound addr id born [] = refl
  length-strip_rebound addr id born ((k, q) ∷ m) = ap suc (length-strip_rebound addr id born m)

  strip_rebound-IsBand :
      (l : Limits) (addr : Addr) (id born : ℕ) (m : Peers Addr)
      → IsBand l m
      → IsBand l (strip_rebound d di ip addr id born m)
  strip_rebound-IsBand l addr id born m v = record {
    distinct = strip_rebound-Distinct addr id born m v.distinct;
    sunk = strip_rebound-Values addr id born m v.sunk;
    inhabited = omega (arith, v.inhabited, length-strip_rebound addr id born m);
    few = omega (arith, v.few, length-strip_rebound addr id born m);
  }

  pub supersede_rebound-IsBand :
      (l : Limits) (key : PeerKey Addr) (m : Peers Addr)
      → IsBand l m
      → IsBand l (supersede_rebound d di ip m key)
  unfolding supersede_rebound
  supersede_rebound-IsBand l (conn n) m v = v
  supersede_rebound-IsBand l (udp addr) m v = found (find (PeerKey-discrete d di ip) (udp addr) m)
    where
      at_route :
          (p : Peer Addr) (o : Option ℕ)
          → IsBand l (elim o [
            | none ↦ m
            | some id ↦ if p.eligible then strip_rebound d di ip addr id p.first_seen m else m
          ])
      at_route p none = v
      at_route p (some id) = elim (Bool-cases p.eligible) [
        | inl e ↦ rw e (strip_rebound-IsBand l addr id p.first_seen m v)
        | inr e ↦ rw e v
      ]

      found :
          (o : Option (Peer Addr))
          → IsBand l (elim o [
            | none ↦ m
            | some p ↦ elim p.route_id [
              | none ↦ m
              | some id ↦ if p.eligible then strip_rebound d di ip addr id p.first_seen m else m
            ]
          ])
      found none = v
      found (some p) = at_route p p.route_id

  pub modify-IsBand :
      (l : Limits) (key : PeerKey Addr) (f : Peer Addr → Peer Addr) (m : Peers Addr)
      → ((p : Peer Addr) → IsPeer p → IsPeer (f p))
      → IsBand l m
      → IsBand l (modify (PeerKey-discrete d di ip) key f m)
  modify-IsBand l key f m keeps v = record {
    distinct = modify-Distinct (PeerKey-discrete d di ip) key f m v.distinct;
    sunk =
        modify-Values (PeerKey-discrete d di ip) (λ k p. IsPeer p) key f m (λ k p. keeps p) v.sunk;
    inhabited = omega (arith, v.inhabited, length-modify (PeerKey-discrete d di ip) key f m);
    few = omega (arith, v.few, length-modify (PeerKey-discrete d di ip) key f m);
  }

  -- Another band in place of one that is there.
  pub replace-Inv :
      (r : Registry Addr) (band : Bytes) (old peers : Peers Addr)
      → Inv r
      → find Text-discrete band r.bands ≡ some old
      → IsBand r.limits peers
      → Inv (record r { bands = insert Text-discrete band peers r.bands })
  replace-Inv r band old peers v e b = record {
    distinct = insert-Distinct Text-discrete band peers r.bands v.distinct;
    each = insert-Values Text-discrete (λ b ps. IsBand r.limits ps) band peers r.bands b v.each;
    few = omega (arith, v.few, length-insert Text-discrete band old peers r.bands e);
  }

  pub IsBand-at :
      (r : Registry Addr) (band : Bytes) (peers : Peers Addr)
      → Inv r
      → find Text-discrete band r.bands ≡ some peers
      → IsBand r.limits peers
  IsBand-at r band peers v e =
      find-Values Text-discrete (λ b ps. IsBand r.limits ps) band peers r.bands v.each e

  prune_bands-Inv :
      (l : Limits) (now ttl : ℕ) (m : Bands Addr)
      → Distinct Text-discrete m
      → Values (λ b ps. IsBand l ps) m
      → let q = (prune_bands d di ip now ttl m).0 in
        Distinct Text-discrete q
        × Values (λ b ps. IsBand l ps) q
        × (length q ≤ length m)
        × ((b : Bytes) → find Text-discrete b m ≡ none → find Text-discrete b q ≡ none)
  unfolding prune_bands find
  prune_bands-Inv l now ttl [] h v = (tt, tt, omega arith, (λ b e. refl))
  prune_bands-Inv l now ttl ((b, peers) ∷ m) h v =
      let (dist, vals, fewer, absent) = prune_bands-Inv l now ttl m h.1 v.1 in
      let left = retain (keeps d di ip now ttl) peers in
      elim (Bool-cases (length left == 0)) [
        | inl gone ↦
            rw gone (dist, vals, omega (arith, fewer), (λ c e. absent c (ground (arith, e))))
        | inr stay ↦
            let band : IsBand l left = record {
              distinct =
                  retain-Distinct (PeerKey-discrete d di ip) (keeps d di ip now ttl) peers
                    v.0.distinct;
              sunk = retain-Values (λ k p. IsPeer p) (keeps d di ip now ttl) peers v.0.sunk;
              inhabited = ground (arith, stay);
              few = omega (arith, v.0.few, length-retain-le (keeps d di ip now ttl) peers);
            } in
            rw stay (
              (absent b h.0, dist),
              (band, vals),
              omega (arith, fewer),
              (λ c e. ground (arith, e, absent c)),
            )
      ]

  -- Pruning keeps the caps, one entry per band and per peer, a sink exactly for the eligible
  -- peers, and leaves no empty band.
  pub prune-Inv : (r : Registry Addr) (now ttl : ℕ) → Inv r → Inv (prune d di ip r now ttl).0
  unfolding prune
  prune-Inv r now ttl v =
      let (dist, vals, fewer, absent) =
        prune_bands-Inv r.limits now ttl r.bands v.distinct v.each in
      record { distinct = dist; each = vals; few = omega (arith, v.few, fewer) }
