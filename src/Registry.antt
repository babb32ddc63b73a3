-- ===== src/Registry.antt =====
-- rust/telesthitium/src/registry.rs: the band registry of the hub. `Addr` stands for socket
-- addresses and `ip` for their address part; a queue of the runtime is named by a number, and
-- `now` is `Instant::now()`.
pub mod Budget
pub mod Routing
pub mod Inv
pub mod Admission
pub mod Reach
mod Tests
use telesthete.Base.{
  ℕ, zero, suc, ◌+◌, ◌-◌, ◌%◌, ◌^◌, ◌≡◌, refl, ap, List, [], ◌∷◌, length, ltb, leb, if◌then◌else◌,
  not, ◌==◌, ◌||◌, ◌&&◌, Option, none, some, Bool, true, false, min, ℕ_discrete, ite, map,
}
use telesthete.Base.Bytes.{Bytes}
use telesthete.Base.Maps.{find, has, insert, remove, modify, retain}
use telesthete.Base.Results.{Result, ok, err}
use telesthete.Base.Text.{Text-discrete}
use telesthete.Framing.{RouteInfo, route_info}
use telesthete.Framing.ChannelType.{ChannelType, route, addressed, to_u8}

pub record Limits : Type 0 where
  pub max_bands : ℕ
  pub max_peers_per_band : ℕ
  pub udp_validation_packets : ℕ

abbrev pub default_limits : Limits
default_limits = record { max_bands = 4096; max_peers_per_band = 256; udp_validation_packets = 2 }

pub data RegError : Type 0 where
  band_cap : RegError
  peer_cap : RegError

-- A queue for one UDP peer, under the shared byte budget, or for one connection.
pub data Sink (Addr : Type 0) : Type 0 where
  udp_sink : ℕ → Addr → Sink Addr
  conn_sink : ℕ → Sink Addr

pub data PeerKey (Addr : Type 0) : Type 0 where
  udp : Addr → PeerKey Addr
  conn : ℕ → PeerKey Addr

pub record Peer (Addr : Type 0) : Type 0 where
  pub sink : Option (Sink Addr)
  pub first_seen : ℕ
  pub last_seen : ℕ
  pub eligible : Bool
  pub seen : ℕ
  pub route_id : Option ℕ

abbrev pub Peers : Type 0 → Type 0
Peers Addr = List (PeerKey Addr × Peer Addr)

abbrev pub Bands : Type 0 → Type 0
Bands Addr = List (Bytes × Peers Addr)

-- `fed` names the queue to the federation, if one is set.
pub record Registry (Addr : Type 0) : Type 0 where
  pub bands : Bands Addr
  pub limits : Limits
  pub next_conn : ℕ
  pub fed : Option ℕ

unfoldable pub is_type : ChannelType → Option ChannelType → Bool
unfolding to_u8
is_type t o = elim o [ none ↦ false | some u ↦ to_u8 u == to_u8 t ]

abbrev pub is_route_id : ℕ → Option ℕ → Bool
is_route_id id o = elim o [ none ↦ false | some r ↦ r == id ]

-- `seen.saturating_add(1)` on 32 bits.
abbrev pub seen_more : ℕ → ℕ
seen_more seen = min (seen + 1) (2 ^ 32 - 1)

module _ {Addr : Type 0} where
  unfoldable pub new : Limits → Registry Addr
  new limits = record { bands = []; limits = limits; next_conn = 1; fed = none }

  unfoldable pub set_federation : Registry Addr → ℕ → Registry Addr
  set_federation r tx = record r { fed = some tx }

  unfoldable pub next_conn_id : Registry Addr → Registry Addr × ℕ
  next_conn_id r = (record r { next_conn = (r.next_conn + 1) % 2 ^ 64 }, r.next_conn)

  abbrev pub touched : ℕ → Peer Addr → Peer Addr
  touched now p = record p { last_seen = now; seen = seen_more p.seen }

  abbrev udp_of : PeerKey Addr → Option Addr
  udp_of (udp a) = some a
  udp_of (conn n) = none

module _ {Addr Ip : Type 0} (d : Discrete Addr) (di : Discrete Ip) (ip : Addr → Ip) where
  key_at : (x y : PeerKey Addr) → Dec (x ≡ y)
  key_at (udp a) (udp b) = elim (d a b) [
    | yes e ↦ yes (ap udp e)
    | no n ↦ no (λ e. n (ap (λ k. elim k [ udp c ↦ c | conn m ↦ a ]) e))
  ]
  key_at (udp a) (conn n) = no (λ e. cc)
  key_at (conn n) (udp a) = no (λ e. cc)
  key_at (conn m) (conn n) = elim (ℕ_discrete m n) [
    | yes e ↦ yes (ap conn e)
    | no k ↦ no (λ e. k (ap (λ k. elim k [ udp c ↦ m | conn j ↦ j ]) e))
  ]

  unfoldable pub PeerKey-discrete : Discrete (PeerKey Addr)
  unfolding key_at
  PeerKey-discrete = key_at

  abbrev same_key : PeerKey Addr → PeerKey Addr → Bool
  same_key j k = ite (PeerKey-discrete j k) true false

  -- The other UDP entry `q` of the same address part that holds `id` and was silent since `born`.
  unfoldable pub rebound : Addr → ℕ → ℕ → PeerKey Addr → Peer Addr → Bool
  rebound addr id born k q = elim (udp_of k) [
    | none ↦ false
    | some a ↦
        not (ite (d a addr) true false)
        && (ite (di (ip a) (ip addr)) true false
            && (is_route_id id q.route_id && ltb q.last_seen born))
  ]

  unfoldable pub strip_rebound : Addr → ℕ → ℕ → Peers Addr → Peers Addr
  unfolding rebound
  strip_rebound addr id born [] = []
  strip_rebound addr id born ((k, q) ∷ m) =
      (k, if rebound addr id born k q then record q { route_id = none } else q)
      ∷ strip_rebound addr id born m

  unfoldable pub supersede_rebound : Peers Addr → PeerKey Addr → Peers Addr
  unfolding strip_rebound
  supersede_rebound peers key = elim (udp_of key) [
    | none ↦ peers
    | some addr ↦ elim (find PeerKey-discrete key peers) [
      | none ↦ peers
      | some p ↦ elim p.route_id [
        | none ↦ peers
        | some id ↦ if p.eligible then strip_rebound addr id p.first_seen peers else peers
      ]
    ]
  ]

  unfoldable pub insert_peer :
      Bands Addr
      → Limits
      → ℕ
      → Bytes
      → PeerKey Addr
      → Sink Addr
      → Bool
      → Bands Addr × Result RegError Unit
  insert_peer bands limits now band key sink is_conn =
      let is_new_band = not (has Text-discrete band bands) in
      let opened = if is_new_band then insert Text-discrete band [] bands else bands in
      let peers : Peers Addr = elim (find Text-discrete band opened) [ none ↦ [] | some ps ↦ ps ] in
      let eligible = is_conn || leb limits.udp_validation_packets 1 in
      let peer : Peer Addr = record {
        sink = if eligible then some sink else none;
        first_seen = now;
        last_seen = now;
        eligible = eligible;
        seen = 1;
        route_id = none;
      } in
      if is_new_band && leb limits.max_bands (length bands)
      then (bands, err band_cap)
      else if leb limits.max_peers_per_band (length peers)
      then (if is_new_band then remove Text-discrete band opened else opened, err peer_cap)
      else (insert Text-discrete band (insert PeerKey-discrete key peer peers) opened, ok tt)

  unfoldable pub connect :
      Registry Addr → ℕ → Bytes → PeerKey Addr → Sink Addr → Registry Addr × Result RegError Unit
  unfolding insert_peer
  connect r now band key sink =
      let done = insert_peer r.bands r.limits now band key sink true in
      (record r { bands = done.0 }, done.1)

  -- One more packet of a UDP peer that is known: it may become eligible, with a sink of its own.
  unfoldable pub observed : Limits → ℕ → Sink Addr → Peer Addr → Peer Addr
  observed limits now sink p =
      let q = touched now p in
      if not p.eligible && leb limits.udp_validation_packets q.seen
      then record q { eligible = true; sink = some sink }
      else q

  unfoldable pub observe_udp :
      Registry Addr → ℕ → Bytes → Addr → Sink Addr → Registry Addr × Result RegError Unit
  unfolding insert_peer observed supersede_rebound
  observe_udp r now band addr sink =
      let fresh = insert_peer r.bands r.limits now band (udp addr) sink false in
      let admitted : Registry Addr × Result RegError Unit =
        (record r { bands = fresh.0 }, fresh.1) in
      elim (find Text-discrete band r.bands) [
        | none ↦ admitted
        | some peers ↦ elim (find PeerKey-discrete (udp addr) peers) [
          | none ↦ admitted
          | some p ↦
              let q = observed r.limits now sink p in
              let known = insert PeerKey-discrete (udp addr) q peers in
              let settled =
                if not p.eligible && q.eligible
                then supersede_rebound known (udp addr)
                else known in
              (record r { bands = insert Text-discrete band settled r.bands }, ok tt)
        ]
      ]

  unfoldable pub touch : Registry Addr → ℕ → Bytes → PeerKey Addr → Registry Addr
  touch r now band key = record r {
    bands = modify Text-discrete band (modify PeerKey-discrete key (touched now)) r.bands;
  }

  abbrev is_from : Option (PeerKey Addr) → PeerKey Addr → Bool
  is_from none k = false
  is_from (some j) k = same_key j k

  unfoldable pub declared : Option (PeerKey Addr) → ℕ → PeerKey Addr → Peer Addr → Bool
  declared from id k p = not (is_from from k) && (p.eligible && is_route_id id p.route_id)

  unfoldable pub any_declared : Option (PeerKey Addr) → ℕ → Peers Addr → Bool
  unfolding declared
  any_declared from id [] = false
  any_declared from id ((k, p) ∷ m) = declared from id k p || any_declared from id m

  -- The three filters and the sinks, for one list of peers.
  unfoldable pub sinks_of : Option (PeerKey Addr) → ℕ → Bool → Peers Addr → List (Sink Addr)
  unfolding declared
  sinks_of from id narrowed [] = []
  sinks_of from id narrowed ((k, p) ∷ m) =
      let rest = sinks_of from id narrowed m in
      let with_sink : List (Sink Addr) = elim p.sink [ none ↦ rest | some s ↦ s ∷ rest ] in
      if (not (is_from from k) && p.eligible) && (not narrowed || declared from id k p)
      then with_sink
      else rest

  unfoldable pub targets : Peers Addr → Option (PeerKey Addr) → RouteInfo → List (Sink Addr)
  unfolding any_declared sinks_of
  targets peers from info =
      sinks_of from info.channel_id
        (is_type addressed info.channel_type
          && (not (info.channel_id == 0) && any_declared from info.channel_id peers))
        peers

  -- The declaration of a ROUTE frame; 0 withdraws it.
  unfoldable pub declare_route : Peers Addr → PeerKey Addr → ℕ → Peers Addr
  unfolding supersede_rebound
  declare_route peers from id =
      supersede_rebound
        (modify PeerKey-discrete from
          (λ p. record p { route_id = if id == 0 then none else some id }) peers)
        from

  -- The registry afterwards, the sinks that the frame is handed to, and the federation queue.
  unfoldable pub forward :
      Registry Addr → Bytes → PeerKey Addr → Bytes → Registry Addr × List (Sink Addr) × Option ℕ
  unfolding declare_route targets
  forward r band from frame = elim (route_info frame) [
    | none ↦ (r, [], none)
    | some info ↦ elim (find Text-discrete band r.bands) [
      | none ↦ (r, [], none)
      | some peers ↦
          if is_type route info.channel_type
          then (
            record r {
              bands = insert Text-discrete band (declare_route peers from info.channel_id) r.bands;
            },
            [],
            none,
          )
          else (r, targets peers (some from) info, r.fed)
    ]
  ]

  unfoldable pub inject_from_link : Registry Addr → Bytes → Bytes → List (Sink Addr)
  unfolding targets
  inject_from_link r band frame = elim (route_info frame) [
    | none ↦ []
    | some info ↦
        if is_type route info.channel_type then [] else elim (find Text-discrete band r.bands) [
          | none ↦ []
          | some peers ↦ targets peers none info
        ]
  ]

  unfoldable pub disconnect : Registry Addr → Bytes → PeerKey Addr → Registry Addr
  disconnect r band key = elim (find Text-discrete band r.bands) [
    | none ↦ r
    | some peers ↦
        let left = remove PeerKey-discrete key peers in
        if length left == 0
        then record r { bands = remove Text-discrete band r.bands }
        else record r { bands = insert Text-discrete band left r.bands }
  ]

  -- A UDP peer is kept while it is not idle for longer than `ttl`, a connection always.
  unfoldable pub keeps : ℕ → ℕ → PeerKey Addr → Peer Addr → Bool
  keeps now ttl k p = elim (udp_of k) [ none ↦ true | some a ↦ leb (now - p.last_seen) ttl ]

  unfoldable pub prune_bands : ℕ → ℕ → Bands Addr → Bands Addr × ℕ
  unfolding keeps
  prune_bands now ttl [] = ([], 0)
  prune_bands now ttl ((b, peers) ∷ m) =
      let rest = prune_bands now ttl m in
      let left = retain (keeps now ttl) peers in
      let evicted = rest.1 + (length peers - length left) in
      if length left == 0 then (rest.0, evicted) else ((b, left) ∷ rest.0, evicted)

  unfoldable pub prune : Registry Addr → ℕ → ℕ → Registry Addr × ℕ × ℕ
  unfolding prune_bands
  prune r now ttl =
      let pruned = prune_bands now ttl r.bands in
      (record r { bands = pruned.0 }, pruned.1, length pruned.0)

  unfoldable pub local_bands : Registry Addr → List Bytes
  local_bands r = map (λ e. e.0) r.bands

  unfoldable pub peer_count : Registry Addr → Bytes → ℕ
  peer_count r band = elim (find Text-discrete band r.bands) [
    | none ↦ 0
    | some peers ↦ length peers
  ]

  -- The peer at `key` of a band.
  unfoldable pub peer_at : Registry Addr → Bytes → PeerKey Addr → Option (Peer Addr)
  peer_at r band key = elim (find Text-discrete band r.bands) [
    | none ↦ none
    | some peers ↦ find PeerKey-discrete key peers
  ]

  unfoldable pub contains : Registry Addr → Bytes → PeerKey Addr → Bool
  unfolding peer_at
  contains r band key = elim (peer_at r band key) [ none ↦ false | some p ↦ true ]

  unfoldable pub route_of : Registry Addr → Bytes → PeerKey Addr → Option ℕ
  unfolding peer_at
  route_of r band key = elim (peer_at r band key) [ none ↦ none | some p ↦ p.route_id ]

  unfoldable pub is_eligible : Registry Addr → Bytes → PeerKey Addr → Option Bool
  unfolding peer_at
  is_eligible r band key = elim (peer_at r band key) [ none ↦ none | some p ↦ some p.eligible ]
