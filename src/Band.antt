-- ===== src/Band.antt =====
-- rust/telesthete/src/band.rs: how a band is set up, and the loop that keeps its peers alive.
-- `SystemTime::now()`, in milliseconds, is an argument.
pub mod Liveness
use telesthete.Base.{
  ℕ, ◌-◌, ◌≡◌, List, [], ◌∷◌, ◌++◌, map, ltb, if◌then◌else◌, Option, none, some, Bool, true, false,
}
use telesthete.Base.Bytes.{Bytes}
use telesthete.Base.Maps.{find}
use telesthete.Base.Text.{Text}
use telesthete.Control.{ControlConfig, PeerState}
use telesthete.Crypto.{
  Kdf, baseline_cipher, supports, derive_key, derive_band_id, derive_session_key,
}
use telesthete.Transport.{Transport, bind, set_session_key, forget_peer}

-- Times in seconds.
pub record BandOptions : Type 0 where
  pub session : Option ℕ
  pub ciphers : List Text
  pub capabilities : List Text
  pub keepalive_interval : ℕ
  pub dead_after : ℕ
  pub auto_keepalive : Bool

unfoldable pub default_options : BandOptions
default_options = record {
  session = none;
  ciphers = baseline_cipher ∷ [];
  capabilities = [];
  keepalive_interval = 5;
  dead_after = 15;
  auto_keepalive = true;
}

-- The options of `bind_with_session`.
unfoldable pub session_options : ℕ → BandOptions
unfolding default_options
session_options session = record default_options { session = some session }

unfoldable pub session_of : BandOptions → ℕ → ℕ
session_of opts now_ms = elim opts.session [ none ↦ now_ms | some s ↦ s ]

-- The ciphers offered: those of the options, and the baseline.
unfoldable pub offered : BandOptions → List Text
offered opts =
    if supports opts.ciphers baseline_cipher
    then opts.ciphers
    else opts.ciphers ++ (baseline_cipher ∷ [])

module _ (k : Kdf) {Addr : Type 0} where
  -- The transport and the configuration of the control channel that `bind_with_options` makes,
  -- with the random bytes of the sequence counter.
  unfoldable pub bind_with_options :
      Bytes → Text → BandOptions → ℕ → Bytes → Transport Addr × ControlConfig
  bind_with_options psk hostname opts now_ms seed =
      let session = session_of opts now_ms in
      (
        set_session_key (bind (derive_key k psk) (derive_band_id k psk) seed)
            (derive_session_key k psk baseline_cipher session),
        record {
          psk = psk;
          session = session;
          hostname = hostname;
          capabilities = opts.capabilities;
          ciphers = offered opts;
        },
      )

module _ {Addr : Type 0} (d : Discrete Addr) where
  -- `now.duration_since(*t) < dead_after`.
  unfoldable pub alive : List (Addr × ℕ) → ℕ → ℕ → Addr → Bool
  alive seen now dead_after a = elim (find d a seen) [
    | none ↦ false
    | some t ↦ ltb (now - t) dead_after
  ]

  -- `retain`: the peers that stay, and those that are dead.
  unfoldable pub sort_out :
      List (Addr × ℕ) → ℕ → ℕ → List (Addr × PeerState) → List (Addr × PeerState) × List Addr
  sort_out seen now dead_after [] = ([], [])
  sort_out seen now dead_after ((a, p) ∷ ps) =
      let rest = sort_out seen now dead_after ps in
      if alive seen now dead_after a then ((a, p) ∷ rest.0, rest.1) else (rest.0, a ∷ rest.1)

  unfoldable pub forget_all : Transport Addr → List Addr → Transport Addr
  forget_all t [] = t
  forget_all t (a ∷ dead) = forget_all (forget_peer d t a) dead

  -- After the KEEPALIVEs of a tick: the peers that stay, and the transport.
  unfoldable pub evict_dead :
      Transport Addr → List (Addr × PeerState) → ℕ → ℕ → List (Addr × PeerState) × Transport Addr
  evict_dead t peers now dead_after =
      let kept = sort_out t.last_seen now dead_after peers in (kept.0, forget_all t kept.1)
