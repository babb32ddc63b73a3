-- ===== src/Registry/Reach.antt =====
-- registry.rs: the operations as steps, and what holds of every registry that they reach.
use telesthete.Base.{
  ℕ, inl, inr, length, leb, not, ◌==◌, ◌&&◌, true, false, arith, Bool-cases, Option-cases,
}
use telesthete.Base.Bytes.{Bytes}
use telesthete.Base.Maps.{
  find, insert, remove, modify, insert-Distinct, remove-Distinct, modify-Distinct, length-remove-le,
  length-modify,
}
use telesthete.Base.Maps.Weight.{
  find-Values, insert-Values, remove-Values, modify-Values, length-insert,
}
use telesthete.Base.Text.{Text-discrete}
use telesthete.Framing.{route_info}
use telesthete.Framing.ChannelType.{route}
use telesthete.Registry.{
  Limits, Sink, PeerKey, udp, Peer, Registry, PeerKey-discrete, is_type, touched, insert_peer, new,
  set_federation, next_conn_id, connect, observed, observe_udp, touch, declare_route, forward,
  disconnect, prune,
}
use telesthete.Registry.Inv.{
  IsPeer, IsBand, Inv, supersede_rebound-IsBand, modify-IsBand, replace-Inv, IsBand-at, prune-Inv,
}
use telesthete.Registry.Admission.{insert_peer-Inv}

module _ {Addr Ip : Type 0} (d : Discrete Addr) (di : Discrete Ip) (ip : Addr → Ip) where
  observed-IsPeer :
      (l : Limits) (now : ℕ) (sink : Sink Addr) (p : Peer Addr)
      → IsPeer p
      → IsPeer (observed d di ip l now sink p)
  unfolding observed
  observed-IsPeer l now sink p v =
      elim (Bool-cases (not p.eligible && leb l.udp_validation_packets (touched now p).seen)) [
        | inl e ↦ rw e ((λ x y. cc), (λ x. cc))
        | inr e ↦ rw e v
      ]

  observe_udp-Inv :
      (r : Registry Addr) (now : ℕ) (band : Bytes) (addr : Addr) (sink : Sink Addr)
      → Inv d di ip r
      → Inv d di ip (observe_udp d di ip r now band addr sink).0
  unfolding observe_udp
  observe_udp-Inv r now band addr sink v = elim (Option-cases (find Text-discrete band r.bands)) [
    | inl e ↦ rw (e, observe_udp) fresh
    | inr (peers, e) ↦
        rw (e, observe_udp)
          (elim (Option-cases (find (PeerKey-discrete d di ip) (udp addr) peers)) [
            | inl none_ ↦ rw (none_, observe_udp) fresh
            | inr (p, known) ↦
                let q = observed d di ip r.limits now sink p in
                let b = IsBand-at d di ip r band peers v e in
                let sunk =
                  find-Values (PeerKey-discrete d di ip) (λ k x. IsPeer x) (udp addr) p peers b.sunk
                    known in
                let same = length-insert (PeerKey-discrete d di ip) (udp addr) p q peers known in
                let updated : IsBand d di ip r.limits
                    (insert (PeerKey-discrete d di ip) (udp addr) q peers) =
                  record {
                    distinct =
                        insert-Distinct (PeerKey-discrete d di ip) (udp addr) q peers b.distinct;
                    sunk =
                        insert-Values (PeerKey-discrete d di ip) (λ k x. IsPeer x) (udp addr) q
                          peers (observed-IsPeer r.limits now sink p sunk) b.sunk;
                    inhabited = omega (arith, b.inhabited, same);
                    few = omega (arith, b.few, same);
                  } in
                rw (known, observe_udp)
                  (elim (Bool-cases (not p.eligible && q.eligible)) [
                    | inl became ↦ rw became (
                        replace-Inv d di ip r band peers _ v e
                          (supersede_rebound-IsBand d di ip r.limits (udp addr) _ updated))
                    | inr as_was ↦ rw as_was (replace-Inv d di ip r band peers _ v e updated)
                  ])
          ])
  ]
    where
      fresh : Inv d di ip (record r {
        bands = (insert_peer d di ip r.bands r.limits now band (udp addr) sink false).0;
      })
      fresh = insert_peer-Inv d di ip r now band (udp addr) sink false v

  touch-Inv :
      (r : Registry Addr) (now : ℕ) (band : Bytes) (key : PeerKey Addr)
      → Inv d di ip r
      → Inv d di ip (touch d di ip r now band key)
  unfolding touch
  touch-Inv r now band key v = record {
    distinct = modify-Distinct Text-discrete band _ r.bands v.distinct;
    each =
        modify-Values Text-discrete (λ b ps. IsBand d di ip r.limits ps) band _ r.bands
          (λ b ps h. modify-IsBand d di ip r.limits key (touched now) ps (λ p x. x) h) v.each;
    few = omega (
      arith,
      v.few,
      length-modify Text-discrete band (modify (PeerKey-discrete d di ip) key (touched now))
          r.bands,
    );
  }

  disconnect-Inv :
      (r : Registry Addr) (band : Bytes) (key : PeerKey Addr)
      → Inv d di ip r
      → Inv d di ip (disconnect d di ip r band key)
  unfolding disconnect
  disconnect-Inv r band key v = elim (Option-cases (find Text-discrete band r.bands)) [
    | inl e ↦ rw (e, disconnect) v
    | inr (peers, e) ↦
        let left = remove (PeerKey-discrete d di ip) key peers in
        let b = IsBand-at d di ip r band peers v e in
        rw (e, disconnect)
          (elim (Bool-cases (length left == 0)) [
            | inl gone ↦ rw gone (record {
              distinct = remove-Distinct Text-discrete band r.bands v.distinct;
              each =
                  remove-Values Text-discrete (λ b ps. IsBand d di ip r.limits ps) band r.bands
                    v.each;
              few = omega (arith, v.few, length-remove-le Text-discrete band r.bands);
            })
            | inr stay ↦ rw stay (
                replace-Inv d di ip r band peers left v e (record {
                  distinct = remove-Distinct (PeerKey-discrete d di ip) key peers b.distinct;
                  sunk =
                      remove-Values (PeerKey-discrete d di ip) (λ k p. IsPeer p) key peers b.sunk;
                  inhabited = ground (arith, stay);
                  few = omega (arith, b.few, length-remove-le (PeerKey-discrete d di ip) key peers);
                }))
          ])
  ]

  forward-Inv :
      (r : Registry Addr) (band : Bytes) (from : PeerKey Addr) (frame : Bytes)
      → Inv d di ip r
      → Inv d di ip (forward d di ip r band from frame).0
  unfolding forward declare_route
  forward-Inv r band from frame v = elim (Option-cases (route_info frame)) [
    | inl e ↦ rw (e, forward) v
    | inr (info, e) ↦
        rw (e, forward)
          (elim (Option-cases (find Text-discrete band r.bands)) [
            | inl none_ ↦ rw (none_, forward) v
            | inr (peers, found) ↦
                let b = IsBand-at d di ip r band peers v found in
                rw (found, forward)
                  (elim (Bool-cases (is_type route info.channel_type)) [
                    | inr relay ↦ rw relay v
                    | inl declares ↦ rw declares (
                        replace-Inv d di ip r band peers _ v found (
                          supersede_rebound-IsBand d di ip r.limits from _
                            (modify-IsBand d di ip r.limits from _ peers (λ p x. x) b)))
                  ])
          ])
  ]

  -- One operation of a transport or of the pruning task, at any time and with any arguments.
  pub data Step (r : Registry Addr) : Registry Addr → Type 0 where
    federates : (tx : ℕ) → Step r (set_federation r tx)
    takes_id : Step r (next_conn_id r).0
    connects :
        (now : ℕ) (band : Bytes) (key : PeerKey Addr) (sink : Sink Addr)
        → Step r (connect d di ip r now band key sink).0
    observes :
        (now : ℕ) (band : Bytes) (addr : Addr) (sink : Sink Addr)
        → Step r (observe_udp d di ip r now band addr sink).0
    touches : (now : ℕ) (band : Bytes) (key : PeerKey Addr) → Step r (touch d di ip r now band key)
    forwards :
        (band : Bytes) (from : PeerKey Addr) (frame : Bytes)
        → Step r (forward d di ip r band from frame).0
    disconnects : (band : Bytes) (key : PeerKey Addr) → Step r (disconnect d di ip r band key)
    prunes : (now ttl : ℕ) → Step r (prune d di ip r now ttl).0

  -- A registry that a new one becomes by operations, in any order.
  pub data Reached (limits : Limits) : Registry Addr → Type 0 where
    start : Reached limits (new limits)
    then_ : (r q : Registry Addr) → Reached limits r → Step r q → Reached limits q

  Step-Inv : (r q : Registry Addr) → Inv d di ip r → Step r q → Inv d di ip q
  unfolding connect set_federation next_conn_id
  Step-Inv r _ v (federates tx) = record { distinct = v.distinct; each = v.each; few = v.few }
  Step-Inv r _ v takes_id = record { distinct = v.distinct; each = v.each; few = v.few }
  Step-Inv r _ v (connects now band key sink) = insert_peer-Inv d di ip r now band key sink true v
  Step-Inv r _ v (observes now band addr sink) = observe_udp-Inv r now band addr sink v
  Step-Inv r _ v (touches now band key) = touch-Inv r now band key v
  Step-Inv r _ v (forwards band from frame) = forward-Inv r band from frame v
  Step-Inv r _ v (disconnects band key) = disconnect-Inv r band key v
  Step-Inv r _ v (prunes now ttl) = prune-Inv d di ip r now ttl v

  -- In every registry that is reached by operations: at most `max_bands` bands, each with at least
  -- one and at most `max_peers_per_band` peers, one entry per band and per peer, and a sink for
  -- exactly the eligible peers.
  pub Reached-Inv : (limits : Limits) (r : Registry Addr) → Reached limits r → Inv d di ip r
  unfolding new
  Reached-Inv limits _ start = record { distinct = tt; each = tt; few = omega arith }
  Reached-Inv limits _ (then_ r q h s) = Step-Inv r q (Reached-Inv limits r h) s
