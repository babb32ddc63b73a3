-- ===== src/Registry/Admission.antt =====
-- registry.rs, `insert`: admission under the caps.
use telesthete.Base.{
  ℕ, ◌≤◌, ◌<◌, ◌≡◌, ◌⊎◌, inl, inr, refl, sym, ap, subst, ◌∙◌, [], ◌∷◌, length, leb, if◌then◌else◌,
  ◌||◌, Option, none, some, Bool, false, arith, Bool-cases, Option-cases, leb→le,
}
use telesthete.Base.Bytes.{Bytes}
use telesthete.Base.Maps.{
  find, has, insert, remove, Distinct, insert-Distinct, length-insert-le, has-find, has-none,
  find-insert,
}
use telesthete.Base.Maps.Weight.{
  Values, find-Values, insert-Values, length-insert, length-insert_new, remove_absent,
  remove-insert,
}
use telesthete.Base.Results.{ok, err}
use telesthete.Base.Text.{Text-discrete}
use telesthete.Registry.{
  Limits, band_cap, peer_cap, Sink, PeerKey, Peer, Peers, Bands, Registry, PeerKey-discrete,
  insert_peer,
}
use telesthete.Registry.Inv.{IsPeer, IsBand, Inv}

module _ {Addr Ip : Type 0} (d : Discrete Addr) (di : Discrete Ip) (ip : Addr → Ip) where
  insert-inhabited :
      (key : PeerKey Addr) (p : Peer Addr) (m : Peers Addr)
      → 0 < length (insert (PeerKey-discrete d di ip) key p m)
  unfolding insert
  insert-inhabited key p [] = omega arith
  insert-inhabited key p ((k, q) ∷ m) = ground arith

  -- The peers of a band, or none if there is no such band.
  abbrev pub peers_of : Bands Addr → Bytes → Peers Addr
  peers_of bands band = elim (find Text-discrete band bands) [ none ↦ [] | some ps ↦ ps ]

  abbrev pub admitted : Limits → ℕ → Sink Addr → Bool → Peer Addr
  admitted limits now sink is_conn =
      let eligible = is_conn || leb limits.udp_validation_packets 1 in
      record {
        sink = if eligible then some sink else none;
        first_seen = now;
        last_seen = now;
        eligible = eligible;
        seen = 1;
        route_id = none;
      }

  admitted-IsPeer :
      (l : Limits) (now : ℕ) (sink : Sink Addr) (is_conn : Bool)
      → IsPeer (admitted l now sink is_conn)
  admitted-IsPeer l now sink is_conn =
      elim (Bool-cases (is_conn || leb l.udp_validation_packets 1)) [
        | inl e ↦ rw e ((λ x y. cc), (λ x. cc))
        | inr e ↦ rw e ((λ x. cc), (λ x. refl))
      ]

  insert_same :
      (band : Bytes) (a b : Peers Addr) (m : Bands Addr)
      → insert Text-discrete band a (insert Text-discrete band b m) ≡ insert Text-discrete band a m
  unfolding insert
  insert_same band a b [] = ground arith
  insert_same band a b ((j, w) ∷ m) = ground (arith, insert_same band a b m)

  -- Admission has three outcomes. A band that is not there is refused at the band cap, and a peer
  -- at its band's peer cap; both leave the bands as they were, with no empty band. Otherwise the
  -- peer is in its band, eligible and with a sink if it is a connection or the packet gate is off.
  pub insert_peer_cases :
      (bands : Bands Addr) (l : Limits) (now : ℕ) (band : Bytes) (key : PeerKey Addr)
      (sink : Sink Addr) (is_conn : Bool)
      → let done = insert_peer d di ip bands l now band key sink is_conn in
        let peers = peers_of bands band in
        ((has Text-discrete band bands ≡ false)
          × (l.max_bands ≤ length bands)
          × (done ≡ (bands, err band_cap)))
        ⊎ ((l.max_peers_per_band ≤ length peers) × (done ≡ (bands, err peer_cap)))
        ⊎ ((length peers < l.max_peers_per_band)
            × ((has Text-discrete band bands ≡ false) → length bands < l.max_bands)
            × (done ≡ (
              insert Text-discrete band
                  (insert (PeerKey-discrete d di ip) key (admitted l now sink is_conn) peers)
                  bands,
              ok tt,
            )))
  unfolding insert_peer
  insert_peer_cases bands l now band key sink is_conn =
      elim (Bool-cases (has Text-discrete band bands)) [
        | inl there ↦
            rw (there, insert_peer)
              (elim (Bool-cases (leb l.max_peers_per_band (length (peers_of bands band)))) [
                | inl full ↦ rw full (inr (inl (leb→le _ _ full, refl)))
                | inr room ↦ rw room (inr (inr (ground (arith, room), (λ e. cc), refl)))
              ])
        | inr new ↦
            let absent = has-find Text-discrete band bands new in
            let opened : find Text-discrete band (insert Text-discrete band [] bands) ≡ some [] =
              ground (arith, find-insert {V = Peers Addr} Text-discrete band band [] bands) in
            let closed_ : remove Text-discrete band (insert Text-discrete band [] bands) ≡ bands =
              remove-insert Text-discrete band [] bands
              ∙ remove_absent Text-discrete band bands absent in
            let none_there : peers_of bands band ≡ [] =
              ap (λ (o : Option (Peers Addr)). elim o [ none ↦ [] | some ps ↦ ps ]) absent in
            rw (new, opened, closed_, insert_peer)
              (elim (Bool-cases (leb l.max_bands (length bands))) [
                | inl full ↦ rw full (inl (refl, leb→le _ _ full, refl))
                | inr room ↦ rw room (elim (Bool-cases (leb l.max_peers_per_band 0)) [
                  | inl none_left ↦
                      rw none_left (inr (inl (omega (arith, leb→le _ _ none_left), refl)))
                  | inr some_left ↦ rw some_left (
                      inr (
                        inr (
                          ground (arith, ap length none_there, some_left),
                          (λ e. ground (arith, room)),
                          ap (λ (b : Bands Addr). (b, ok tt))
                              (insert_same band _ [] bands
                                ∙ ap
                                    (λ (ps : Peers Addr).
                                      insert Text-discrete band
                                        (insert (PeerKey-discrete d di ip) key
                                          (admitted l now sink is_conn) ps)
                                        bands)
                                    (sym none_there)),
                        )))
                ])
              ])
      ]

  -- Admission keeps the invariant.
  pub insert_peer-Inv :
      (r : Registry Addr) (now : ℕ) (band : Bytes) (key : PeerKey Addr) (sink : Sink Addr)
      (is_conn : Bool)
      → Inv d di ip r
      → Inv d di ip
          (record r { bands = (insert_peer d di ip r.bands r.limits now band key sink is_conn).0 })
  insert_peer-Inv r now band key sink is_conn v =
      elim (insert_peer_cases r.bands r.limits now band key sink is_conn) [
        | inl (_, _, e) ↦ same (ap (λ x. x.0) e)
        | inr (inl (_, e)) ↦ same (ap (λ x. x.0) e)
        | inr (inr (room, new, e)) ↦ rw e (entered room new)
      ]
    where
      same : {b : Bands Addr} → b ≡ r.bands → Inv d di ip (record r { bands = b })
      same e = subst (λ (x : Bands Addr). Inv d di ip (record r { bands = x })) (sym e) v

      peers : Peers Addr
      peers = peers_of r.bands band

      shape : (Distinct (PeerKey-discrete d di ip) peers) × Values (λ k p. IsPeer p) peers
      shape = shape_at (find Text-discrete band r.bands) refl
        where
          shape_at :
              (o : Option (Peers Addr))
              → find Text-discrete band r.bands ≡ o
              → let ps : Peers Addr = elim o [ none ↦ [] | some qs ↦ qs ] in
                (Distinct (PeerKey-discrete d di ip) ps) × Values (λ k p. IsPeer p) ps
          shape_at none e = (tt, tt)
          shape_at (some ps) e =
              let b =
                find-Values Text-discrete (λ b ps. IsBand d di ip r.limits ps) band ps r.bands
                  v.each e in
              (b.distinct, b.sunk)

      entered :
          length peers < r.limits.max_peers_per_band
          → ((has Text-discrete band r.bands ≡ false) → length r.bands < r.limits.max_bands)
          → Inv d di ip (record r {
            bands =
                insert Text-discrete band
                  (insert (PeerKey-discrete d di ip) key (admitted r.limits now sink is_conn) peers)
                  r.bands;
          })
      entered room new =
          let grown =
            insert (PeerKey-discrete d di ip) key (admitted r.limits now sink is_conn) peers in
          let b : IsBand d di ip r.limits grown = record {
            distinct = insert-Distinct (PeerKey-discrete d di ip) key _ peers shape.0;
            sunk =
                insert-Values (PeerKey-discrete d di ip) (λ k p. IsPeer p) key _ peers
                  (admitted-IsPeer r.limits now sink is_conn) shape.1;
            inhabited = insert-inhabited key _ peers;
            few = omega (
              arith,
              room,
              length-insert-le (PeerKey-discrete d di ip) key (admitted r.limits now sink is_conn)
                  peers,
            );
          } in
          record {
            distinct = insert-Distinct Text-discrete band grown r.bands v.distinct;
            each =
                insert-Values Text-discrete (λ b ps. IsBand d di ip r.limits ps) band grown r.bands
                  b v.each;
            few = elim (Option-cases (find Text-discrete band r.bands)) [
              | inl e ↦ omega (
                arith,
                length-insert_new Text-discrete band grown r.bands e,
                new (has-none Text-discrete band r.bands e),
              )
              | inr (ps, e) ↦
                  omega (arith, length-insert Text-discrete band ps grown r.bands e, v.few)
            ];
          }
