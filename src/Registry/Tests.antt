-- ===== src/Registry/Tests.antt =====
-- The theorems on the registry at concrete inputs: an address is a pair of numbers.
use telesthete.Base.{
  In, ℕ, ◌≤◌, ◌<◌, ◌≡◌, ◌⊎◌, ◌↔◌, refl, [], ◌∷◌, length, some, none, Option, true, false,
  ℕ_discrete, replicate,
}
use telesthete.Base.Bytes.{Bytes}
use telesthete.Base.Maps.{has, insert}
use telesthete.Base.Results.{ok, err}
use telesthete.Base.Text.{Text-discrete}
use telesthete.Framing.{RouteInfo}
use telesthete.Framing.ChannelType.{addressed}
use telesthete.Registry.{
  band_cap, peer_cap, default_limits, udp_sink, conn_sink, PeerKey, conn, Peer, Peers, Registry,
  PeerKey-discrete, new, insert_peer, connect, observe_udp, targets, is_type,
}
use telesthete.Registry.Budget.{ByteBudget}
use telesthete.Registry.Routing.{Reachable, Narrowed, targets_iff}
use telesthete.Registry.Inv.{Inv}
use telesthete.Registry.Admission.{peers_of, admitted, insert_peer_cases}
use telesthete.Registry.Reach.{connects, observes, Reached, start, then_, Reached-Inv}
use mathlib.Core.HLevel.{×_discrete}

abbrev Addr : Type 0
Addr = ℕ × ℕ

abbrev addr_discrete : Discrete Addr
addr_discrete = ×_discrete ℕ_discrete ℕ_discrete

abbrev ip : Addr → ℕ
ip a = a.0

abbrev band : Bytes
band = replicate 16 5

abbrev peer : Option ℕ → ℕ → Peer Addr
peer id n = record {
  sink = some (conn_sink n);
  first_seen = 0;
  last_seen = 0;
  eligible = true;
  seen = 1;
  route_id = id;
}

abbrev three : Peers Addr
three = (conn 1, peer none 1) ∷ (conn 2, peer (some 77) 2) ∷ (conn 3, peer none 3) ∷ []

abbrev to_77 : RouteInfo
to_77 = record { band_id = band; channel_type = some addressed; channel_id = 77 }

one_target : targets addr_discrete ℕ_discrete ip three (some (conn 1)) to_77 ≡ conn_sink 2 ∷ []
unfolding targets PeerKey-discrete ℕ_discrete is_type
one_target = refl

targets_iff_example :
    In (conn_sink 2) (targets addr_discrete ℕ_discrete ip three (some (conn 1)) to_77) ↔ (
      (k : PeerKey Addr) × (p : Peer Addr) × In (k, p) three
      × (Reachable addr_discrete ℕ_discrete ip (some (conn 1)) k p
          × (Narrowed addr_discrete ℕ_discrete ip three (some (conn 1)) to_77
              → p.route_id ≡ some 77))
      × (p.sink ≡ some (conn_sink 2)))
targets_iff_example =
    targets_iff addr_discrete ℕ_discrete ip three (some (conn 1)) to_77 (conn_sink 2)

abbrev budget : ByteBudget
budget = record { used = 60; limit = 100 }

insert_peer_cases_example :
    let done =
      insert_peer addr_discrete ℕ_discrete ip [] default_limits 9 band
        (conn 4)
        (conn_sink 4)
        true in
    let peers : Peers Addr = peers_of addr_discrete ℕ_discrete ip [] band in
    ((has {V = Peers Addr} Text-discrete band [] ≡ false)
      × (4096 ≤ 0)
      × (done ≡ ([], err band_cap)))
    ⊎ ((256 ≤ length peers) × (done ≡ ([], err peer_cap)))
    ⊎ ((length peers < 256)
        × ((has {V = Peers Addr} Text-discrete band [] ≡ false) → 0 < 4096)
        × (done ≡ (
          insert Text-discrete band
              (insert
                (PeerKey-discrete addr_discrete ℕ_discrete ip)
                (conn 4)
                (admitted addr_discrete ℕ_discrete ip default_limits 9 (conn_sink 4) true)
                peers)
              [],
          ok tt,
        )))
insert_peer_cases_example =
    insert_peer_cases addr_discrete ℕ_discrete ip [] default_limits 9 band (conn 4) (conn_sink 4)
      true

abbrev one_peer : Registry Addr
one_peer =
    (connect addr_discrete ℕ_discrete ip (new default_limits) 9 band (conn 4) (conn_sink 4)).0

abbrev two_peers : Registry Addr
two_peers =
    (observe_udp addr_discrete ℕ_discrete ip one_peer 10 band (1, 80) (udp_sink 5 (1, 80))).0

two_peers-Reached : Reached addr_discrete ℕ_discrete ip default_limits two_peers
two_peers-Reached =
    then_ one_peer two_peers
      (then_ (new default_limits) one_peer start (connects 9 band (conn 4) (conn_sink 4)))
      (observes 10 band (1, 80) (udp_sink 5 (1, 80)))

Reached-Inv_example : Inv addr_discrete ℕ_discrete ip two_peers
Reached-Inv_example =
    Reached-Inv addr_discrete ℕ_discrete ip default_limits two_peers two_peers-Reached
