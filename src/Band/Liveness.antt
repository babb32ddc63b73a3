-- ===== src/Band/Liveness.antt =====
-- band.rs: which peers a tick of the keepalive loop leaves.
use telesthete.Base.{ℕ, ◌≡◌, ap, List, [], ◌∷◌, if◌then◌else◌, none, arith}
use telesthete.Base.Maps.{find}
use telesthete.Control.{PeerState}
use telesthete.Transport.{Transport}
use telesthete.Band.{alive, sort_out, evict_dead}

module _ {Addr : Type 0} (d : Discrete Addr) where
  find-sort_out :
      (seen : List (Addr × ℕ)) (now dead_after : ℕ) (ps : List (Addr × PeerState)) (q : Addr)
      → find d q (sort_out d seen now dead_after ps).0
        ≡ (if alive d seen now dead_after q then find d q ps else none)
  unfolding sort_out find
  find-sort_out seen now dead_after [] q = ground arith
  find-sort_out seen now dead_after ((a, p) ∷ ps) q = elim (d a q) [
    | yes same ↦
        let both : alive d seen now dead_after a ≡ alive d seen now dead_after q =
          ap (alive d seen now dead_after) same in
        ground (arith, both, find-sort_out seen now dead_after ps q)
    | no other ↦ ground (arith, find-sort_out seen now dead_after ps q)
  ]

  -- An eviction keeps a peer exactly when an authenticated packet of it came within the time.
  pub evict_dead-alive :
      (t : Transport Addr) (ps : List (Addr × PeerState)) (now dead_after : ℕ) (q : Addr)
      → find d q (evict_dead d t ps now dead_after).0
        ≡ (if alive d t.last_seen now dead_after q then find d q ps else none)
  unfolding evict_dead
  evict_dead-alive t ps now dead_after q = find-sort_out t.last_seen now dead_after ps q
