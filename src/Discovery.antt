-- ===== src/Discovery.antt =====
-- rust/telesthete/src/discovery.rs: announcements on the local network, and the receiver's memory
-- of whom it has seen. Whether bytes are UTF-8 is asked of the parameter `is_utf8`; sockets are I/O.
pub mod Announce
pub mod Seen
mod Tests
use telesthete.Base.{
  ℕ, zero, suc, ◌+◌, ◌≡◌, min, List, [], ◌∷◌, ◌++◌, length, take, drop, slice, get_or, ltb,
  if◌then◌else◌, not, ◌==◌, ◌||◌, Option, none, some, Bool, true, false, ite,
}
use telesthete.Base.Bytes.{Bytes, to_be_bytes, from_be_bytes}
use telesthete.Base.Text.{Text, text_eq, Text-discrete}

-- "TELE".
abbrev pub magic : Bytes
magic = 0x54 ∷ 0x45 ∷ 0x4c ∷ 0x45 ∷ []

-- `PROTOCOL_VERSION` of framing.rs.
abbrev pub protocol_version : ℕ
protocol_version = 0x03

abbrev pub max_seen : ℕ
max_seen = 4096

unfoldable pub pack_announce : Text → ℕ → Bytes
pack_announce hostname port =
    let hb = take (min (length hostname) 255) hostname in
    magic ++ (protocol_version ∷ length hb ∷ (hb ++ to_be_bytes 2 port))

unfoldable pub parse_announce : (Bytes → Bool) → Bytes → Option (Text × ℕ)
parse_announce is_utf8 data_ =
    let hostname_len = get_or data_ 5 0 in
    let end = 6 + hostname_len in
    let hostname = slice 6 end data_ in
    if (ltb (length data_) 8 || not (text_eq (take 4 data_) magic))
      || not (get_or data_ 4 0 == protocol_version)
    then none
    else if ltb (length data_) (end + 2)
    then none
    else if not (is_utf8 hostname)
    then none
    else some (hostname, from_be_bytes (slice end (end + 2) data_))

pub record DiscoveredPeer (Ip : Type 0) : Type 0 where
  pub hostname : Text
  pub ip : Ip
  pub port : ℕ

module _ {Ip : Type 0} (d : Discrete (DiscoveredPeer Ip)) where
  -- `HashSet::contains` on the list of the set.
  unfoldable pub contains : DiscoveredPeer Ip → List (DiscoveredPeer Ip) → Bool
  contains p [] = false
  contains p (q ∷ qs) = ite (d p q) true (contains p qs)

  unfoldable pub without : DiscoveredPeer Ip → List (DiscoveredPeer Ip) → List (DiscoveredPeer Ip)
  without p [] = []
  without p (q ∷ qs) = ite (d p q) (without p qs) (q ∷ without p qs)

  pub record Memory : Type 0 where
    pub seen : List (DiscoveredPeer Ip)
    pub order : List (DiscoveredPeer Ip)

  -- `while order.len() > MAX_SEEN`: the oldest goes first. The first number bounds the rounds.
  unfoldable pub trim : ℕ → Memory → Memory
  trim zero m = m
  trim (suc fuel) m = elim m.order [
    | [] ↦ m
    | old ∷ order ↦
        if ltb max_seen (length m.order)
        then trim fuel (record { seen = without old m.seen; order = order })
        else m
  ]

  -- One datagram: the peer, when it is a new one.
  unfoldable pub on_datagram :
      (Bytes → Bool) → Text → Memory → Bytes → Ip → Memory × Option (DiscoveredPeer Ip)
  on_datagram is_utf8 own m data_ ip = elim (parse_announce is_utf8 data_) [
    | none ↦ (m, none)
    | some announced ↦
        let peer : DiscoveredPeer Ip = record {
          hostname = announced.0;
          ip = ip;
          port = announced.1;
        } in
        let order : List (DiscoveredPeer Ip) = m.order ++ (peer ∷ []) in
        if text_eq announced.0 own
        then (m, none)
        else if contains peer m.seen
        then (m, none)
        else (trim (length order) (record { seen = peer ∷ m.seen; order = order }), some peer)
  ]
