-- ===== src/Config.antt =====
-- rust/telesthitium/src/config.rs: the configuration of the hub from its environment.
pub mod Defaults
mod Tests
use telesthete.Base.{
  ℕ, zero, suc, ◌+◌, ◌*◌, ◌-◌, ◌^◌, List, [], ◌∷◌, Option, some, none, length, ◌==◌, ◌&&◌, ◌||◌,
  not, if◌then◌else◌, Bool, true, false,
}
use telesthete.Base.Str.{
  trim, to_ascii_lowercase, eq_ignore_ascii_case, is_empty, comma_list, parse_uint,
}
use telesthete.Base.Text.{Text, text_eq, codes}
use telesthete.Registry.{Limits, default_limits}

abbrev pub default_udp_bind : Text
default_udp_bind = codes "0.0.0.0:7474"

abbrev pub default_ws_path : Text
default_ws_path = codes "/band"

-- In seconds.
abbrev pub default_peer_ttl_secs : ℕ
default_peer_ttl_secs = 15

abbrev pub default_prune_secs : ℕ
default_prune_secs = 5

abbrev pub default_max_bands : ℕ
default_max_bands = 4096

abbrev pub default_max_peers_per_band : ℕ
default_max_peers_per_band = 256

abbrev pub default_conn_queue : ℕ
default_conn_queue = 1024

abbrev pub default_udp_peer_queue : ℕ
default_udp_peer_queue = 256

abbrev pub default_udp_queue_bytes : ℕ
default_udp_queue_bytes = 33554432

abbrev pub default_udp_validation_packets : ℕ
default_udp_validation_packets = 2

-- `std::env::var(name).ok()`.
abbrev pub Environment : Type 0
Environment = Text → Option Text

unfoldable pub parse_or : {T : Type 0} → (Text → Option T) → Option Text → T → T
parse_or parse none default = default
parse_or parse (some v) default = elim (parse (trim v)) [ none ↦ default | some x ↦ x ]

-- A variable that is set and not empty.
unfoldable pub env : Environment → Text → Option Text
env var name = elim (var name) [ none ↦ none | some v ↦ if is_empty v then none else some v ]

unfoldable pub env_bool : Environment → Text → Bool
env_bool var name = elim (env var name) [
  | none ↦ false
  | some v ↦
      let low = to_ascii_lowercase v in
      text_eq low (codes "1")
      || text_eq low (codes "true")
      || text_eq low (codes "yes")
      || text_eq low (codes "on")
]

unfoldable pub unix_dir_of : Environment → Option Text
unix_dir_of var = elim (env var (codes "HUB_UNIX_DIR")) [
  | none ↦ none
  | some v ↦ if eq_ignore_ascii_case v (codes "off") then none else some v
]

unfoldable pub tls_sans_of : Environment → List Text
tls_sans_of var = elim (env var (codes "HUB_TLS_SANS")) [
  | none ↦ codes "localhost" ∷ []
  | some v ↦ let names = comma_list v in if length names == 0 then codes "localhost" ∷ [] else names
]

unfoldable pub or_text : Option Text → Text → Text
or_text none other = other
or_text (some v) other = v

-- A count of so many bits.
unfoldable pub count : ℕ → Environment → Text → ℕ → ℕ
count bits var name default = parse_or (parse_uint (2 ^ bits - 1)) (env var name) default

pub record Config (Addr : Type 0) : Type 0 where
  pub udp_bind : Option Addr
  pub ws_bind : Option Addr
  pub ws_path : Text
  pub ws_tls : Bool
  pub wt_bind : Option Addr
  pub unix_dir : Option Text
  pub peer_ttl : ℕ
  pub prune_interval : ℕ
  pub conn_queue : ℕ
  pub udp_peer_queue : ℕ
  pub udp_queue_bytes : ℕ
  pub limits : Limits
  pub tls_cert_path : Option Text
  pub tls_key_path : Option Text
  pub tls_sans : List Text

unfoldable pub is_some : {Addr : Type 0} → Option Addr → Bool
is_some none = false
is_some (some a) = true

unfoldable pub needs_tls : {Addr : Type 0} → Config Addr → Bool
needs_tls c = is_some c.wt_bind || (is_some c.ws_bind && c.ws_tls)

-- Addresses are of any type, with the reading of one.
module _ {Addr : Type 0} (read_addr : Text → Option Addr) where
  unfoldable pub opt_addr : Environment → Text → Option Addr
  opt_addr var name = elim (env var name) [
    | none ↦ none
    | some v ↦ if eq_ignore_ascii_case (trim v) (codes "off") then none else read_addr (trim v)
  ]

  unfoldable pub resolve_udp_bind : Option Text → Option Addr
  resolve_udp_bind none = read_addr default_udp_bind
  resolve_udp_bind (some raw) =
      if eq_ignore_ascii_case (trim raw) (codes "off")
      then none
      else if is_empty (trim raw)
      then read_addr default_udp_bind
      else elim (read_addr (trim raw)) [ none ↦ read_addr default_udp_bind | some a ↦ some a ]

  unfoldable pub from_env : Environment → Config Addr
  from_env var = record {
    udp_bind = resolve_udp_bind (var (codes "HUB_BIND"));
    ws_bind = opt_addr var (codes "HUB_WS_BIND");
    ws_path = or_text (env var (codes "HUB_WS_PATH")) default_ws_path;
    ws_tls = env_bool var (codes "HUB_WS_TLS");
    wt_bind = opt_addr var (codes "HUB_WT_BIND");
    unix_dir = unix_dir_of var;
    peer_ttl = count 64 var (codes "HUB_PEER_TTL_SECS") default_peer_ttl_secs;
    prune_interval = count 64 var (codes "HUB_PRUNE_SECS") default_prune_secs;
    conn_queue = count 64 var (codes "HUB_CONN_QUEUE") default_conn_queue;
    udp_peer_queue = count 64 var (codes "HUB_UDP_PEER_QUEUE") default_udp_peer_queue;
    udp_queue_bytes = count 64 var (codes "HUB_UDP_QUEUE_BYTES") default_udp_queue_bytes;
    limits = record {
      max_bands = count 64 var (codes "HUB_MAX_BANDS") default_max_bands;
      max_peers_per_band = count 64 var (codes "HUB_MAX_PEERS_PER_BAND") default_max_peers_per_band;
      udp_validation_packets =
          count 32 var (codes "HUB_UDP_VALIDATION_PACKETS") default_udp_validation_packets;
    };
    tls_cert_path = env var (codes "HUB_TLS_CERT");
    tls_key_path = env var (codes "HUB_TLS_KEY");
    tls_sans = tls_sans_of var;
  }

  -- `Config::default`.
  unfoldable pub default_config : Config Addr
  default_config = record {
    udp_bind = read_addr default_udp_bind;
    ws_bind = none;
    ws_path = default_ws_path;
    ws_tls = false;
    wt_bind = none;
    unix_dir = none;
    peer_ttl = default_peer_ttl_secs;
    prune_interval = default_prune_secs;
    conn_queue = default_conn_queue;
    udp_peer_queue = default_udp_peer_queue;
    udp_queue_bytes = default_udp_queue_bytes;
    limits = default_limits;
    tls_cert_path = none;
    tls_key_path = none;
    tls_sans = codes "localhost" ∷ [];
  }
