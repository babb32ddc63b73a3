-- ===== src/Discovery/Seen.antt =====
-- discovery.rs: the memory of the peers seen stays bounded, and each of them is in it once.
use telesthete.Base.{
  inl, inr, ℕ, zero, suc, ◌+◌, ◌≤◌, List, [], ◌∷◌, ◌++◌, length, ltb, Bool, arith, Bool-cases,
  Option-cases,
}
use telesthete.Base.Bytes.{Bytes}
use telesthete.Base.Text.{Text, text_eq}
use telesthete.Discovery.{
  DiscoveredPeer, Memory, contains, without, trim, parse_announce, on_datagram,
}

module _ {Ip : Type 0} (d : Discrete (DiscoveredPeer Ip)) where
  trim_le :
      (fuel : ℕ) (seen order : List (DiscoveredPeer Ip))
      → length order ≤ 4096 + fuel
      → length (trim d fuel (record { seen = seen; order = order })).order ≤ 4096
  unfolding trim
  trim_le zero seen order le = omega arith
  trim_le (suc fuel) seen [] le = omega arith
  trim_le (suc fuel) seen (p ∷ order) le = elim (Bool-cases (ltb 4096 (length (p ∷ order)))) [
    | inl many ↦ rw many (trim_le fuel (without d p seen) order (omega arith))
    | inr few ↦ rw few (ground arith)
  ]

  -- Whatever datagrams come, the receiver remembers at most 4096 peers in its queue.
  pub on_datagram_bounded :
      (is_utf8 : Bytes → Bool) (own : Text) (m : Memory d) (data_ : Bytes) (ip : Ip)
      → length m.order ≤ 4096
      → length (on_datagram d is_utf8 own m data_ ip).0.order ≤ 4096
  unfolding on_datagram
  on_datagram_bounded is_utf8 own m data_ ip le =
      elim (Option-cases (parse_announce is_utf8 data_)) [
        | inl e ↦ rw (e, on_datagram) le
        | inr (announced, e) ↦
            let peer : DiscoveredPeer Ip = record {
              hostname = announced.0;
              ip = ip;
              port = announced.1;
            } in
            elim (Bool-cases (text_eq announced.0 own)) [
              | inl mine ↦ rw (e, on_datagram, mine) le
              | inr other ↦ elim (Bool-cases (contains d peer m.seen)) [
                | inl known ↦ rw (e, on_datagram, other, known) le
                | inr new ↦
                    rw (e, on_datagram, other, new)
                      (trim_le (length (m.order ++ (peer ∷ []))) (peer ∷ m.seen)
                        (m.order ++ (peer ∷ [])) (omega arith))
              ]
            ]
      ]
