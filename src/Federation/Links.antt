-- ===== src/Federation/Links.antt =====
-- federation.rs: a frame from one hub to the local peers of another.
use telesthete.Base.{
  ℕ, ◌+◌, ◌^◌, ◌<◌, ◌≡◌, ◌≢◌, refl, ◌∙◌, List, [], ◌++◌, length, ltb, if◌then◌else◌, if_neg, not,
  some, Bool, true, false, arith, le→ltb,
}
use telesthete.Base.Bytes.{Bytes}
use telesthete.Base.Results.{ok}
use telesthete.Base.Text.{Text-discrete}
use telesthete.Federation.{
  LinkHandle, bands_marker, written, read_msg, write_msg, relay_payload, on_message,
}
use telesthete.Federation.Wire.{read_msg-write_msg, parse_relay-relay_payload}
use telesthete.Registry.{Registry, inject_from_link}

-- Nothing passes a closed gate.
gate :
    {A : Type 0} (on : Bool) (h : LinkHandle) (out : List A)
    → ◌≡◌ {A = LinkHandle × List A}
        (if not on then (h, []) else (h, out))
        (h, if on then out else [])
gate true h out = refl
gate false h out = refl

module _ {Addr Ip : Type 0} (d : Discrete Addr) (di : Discrete Ip) (ip : Addr → Ip) where
  -- A frame of a band of 16 bytes, other than the marker of all 0xFF bytes, whose length and 21
  -- bytes more fit into 32 bits, and which a hub's writer puts on the stream, is read by the other
  -- hub as one message, and the rest of the stream is untouched. An active link hands the frame to
  -- the sinks that `inject_from_link` picks for the band; a revoked one delivers nothing. The link
  -- is left as it is.
  pub on_message-written :
      (r : Registry Addr) (h : LinkHandle) (band frame bytes rest : Bytes)
      → length band ≡ 16
      → band ≢ bands_marker
      → length frame + 21 < 2 ^ 32
      → written (band, frame) ≡ some bytes
      → (message : ℕ × Bytes) × (read_msg (bytes ++ rest) ≡ ok (message, rest))
        × (on_message d di ip r h message
            ≡ (h, if h.active then inject_from_link d di ip r band frame else []))
  unfolding written on_message
  on_message-written r h band frame bytes rest sized ordinary small e =
      let (parsed, size) = parse_relay-relay_payload band frame sized (omega arith) in
      let relayed : write_msg 3 (relay_payload band frame) ≡ some bytes =
        rw (if_neg (Text-discrete band bands_marker) ordinary true false) at e in
      let long : ltb (length (relay_payload band frame)) 20 ≡ false = le→ltb _ _ (omega arith) in
      (
        (3, relay_payload band frame),
        read_msg-write_msg 3 (relay_payload band frame) bytes rest (omega arith) relayed,
        rw (long, parsed) refl ∙ gate h.active h (inject_from_link d di ip r band frame),
      )
