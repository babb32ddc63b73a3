-- ===== src/Framing/RouteId.antt =====
-- framing.rs, `route_id_for`, and frame.rs, `route_info`.
use telesthete.Base.{
  ℕ, ◌≤◌, ◌<◌, ◌≡◌, arith, [], ◌∷◌, ◌++◌, length, some, none, inl, inr, Option-cases, Bool-cases,
  false, ◌==◌, ◌⊎◌,
}
use telesthete.Base.Bytes.{Bytes, AreBytes, from_be_bytes, from_be_bytes-lt}
use telesthete.Base.Results.{ok}
use telesthete.Base.Text.{Text, codes}
use telesthete.Crypto.{Kdf}
use telesthete.Framing.{Header, min_packet_len, parse, route_info, route_id_for, first_nonzero}

first_nonzero_bounds :
    (d : Bytes) {v : ℕ} → AreBytes d → first_nonzero d ≡ some v → (0 < v) × (v < 65536)
unfolding first_nonzero
first_nonzero_bounds [] b e = ground arith
first_nonzero_bounds (x ∷ []) b e = ground arith
first_nonzero_bounds (x ∷ y ∷ rest) {v = v} b e =
    let small : from_be_bytes (x ∷ y ∷ []) < 65536 =
      omega (arith, from_be_bytes-lt (x ∷ y ∷ []) (b.0, (b.1.0, tt))) in
    elim (Bool-cases (from_be_bytes (x ∷ y ∷ []) == 0)) [
      | inl zero_pair ↦ first_nonzero_bounds rest b.1.1 (rw zero_pair at e)
      | inr pair ↦ pair_bounds (from_be_bytes (x ∷ y ∷ [])) v small pair (rw pair at e)
    ]
  where
    pair_bounds : (n v : ℕ) → n < 65536 → (n == 0) ≡ false → some n ≡ some v → (0 < v) × (v < 65536)
    pair_bounds n v h nz same = ground arith

-- A route id is a nonzero 16-bit number, for every name and whatever the digest is.
pub route_id_for_bounds :
    (k : Kdf) (name : Text)
    → ((m : Bytes) → AreBytes (k.sha256 m))
    → (0 < route_id_for k name) × (route_id_for k name < 65536)
unfolding route_id_for
route_id_for_bounds k name digest =
    let m : Bytes = codes "telesthete-route-v1:" ++ name in
    elim (Option-cases (first_nonzero (k.sha256 m))) [
      | inl e ↦ rw (e, route_id_for) (omega arith)
      | inr (v, e) ↦ rw (e, route_id_for) (first_nonzero_bounds (k.sha256 m) (digest m) e)
    ]

-- The hub and the library read one header: of a packet of legal length that the library parses,
-- the hub sees the same band, type and channel id; a shorter one it refuses.
pub route_info-parse :
    (pkt : Bytes) (h : Header)
    → parse pkt ≡ ok h
    → ((length pkt < min_packet_len) × (route_info pkt ≡ none))
      ⊎ ((min_packet_len ≤ length pkt)
          × (route_info pkt
              ≡ some (record {
                band_id = h.band_id;
                channel_type = some h.channel_type;
                channel_id = h.channel_id;
              })))
unfolding parse route_info
route_info-parse pkt h e = ground arith
