-- ===== src/Wire/Tests.antt =====
-- The theorems on the formats inside a packet at concrete inputs, and runs.
use telesthete.Base.{
  ℕ, ◌≤◌, ◌<◌, ◌≡◌, ◌⊎◌, refl, arith, List, [], ◌∷◌, ◌++◌, length, some, replicate, All,
}
use telesthete.Base.Bytes.{Bytes, from_be_bytes, to_be_bytes, from_le_bytes, to_le_bytes}
use telesthete.Base.Results.{ok, err}
use telesthete.Base.Maps.{find}
use telesthete.Base.Maps.Weight.{weight, Values}
use telesthete.Wire.StreamHeader
use telesthete.Wire.Dmabuf
use telesthete.Wire.Dmabuf.RoundTrip.{IsDescriptor, parse-write_dmabuf}
use telesthete.Wire.Dmabuf.Bounds.{HasFd, parse_bounds}
use telesthete.Wire.Fragment.{fragment, chunks}
use telesthete.Wire.Fragment.Codec.{fragment-Pieces, Pieces, concat, Small}
use telesthete.Wire.Reassembler.{Reassembler, new, feed}
use telesthete.Wire.Reassembler.Inv.{Inv}
use telesthete.Wire.Reassembler.Part.{Good}
use telesthete.Wire.Reassembler.Feed.{feed-Inv}

abbrev stream_header : StreamHeader.StreamHeader
stream_header = record { flags = 0x81; frame_id = 0x01020304 }

parse-write_stream_example :
    ((10 < 8)
      × (StreamHeader.write stream_header (replicate 10 9) ≡ err (StreamHeader.too_short 10)))
    ⊎ ((8 ≤ 10)
        × (buf : Bytes) × (StreamHeader.write stream_header (replicate 10 9) ≡ ok (buf, 8))
        × (length buf ≡ 10)
        × (StreamHeader.parse buf ≡ ok (stream_header, 9 ∷ 9 ∷ [])))
parse-write_stream_example =
    StreamHeader.parse-write_stream stream_header (replicate 10 9) (omega arith)

abbrev plane : ℕ → Dmabuf.DmabufPlane
plane fd = record { offset = 4096; stride = 7680; fd_index = fd }

abbrev frame_buffer : Dmabuf.DmabufDescriptor
frame_buffer = record {
  width = 1920;
  height = 1080;
  fourcc = 0x34325258;
  modifier = 0x0100000000000001;
  planes = plane 0 ∷ plane 1 ∷ [];
  fd_count = 2;
}

frame_buffer-IsDescriptor : IsDescriptor frame_buffer
frame_buffer-IsDescriptor = record {
  width = omega arith;
  height = omega arith;
  fourcc = omega arith;
  modifier = omega arith;
  some_planes = omega arith;
  few_planes = omega arith;
  few_fds = omega arith;
  planes = omega arith;
}

parse-write_dmabuf_example :
    ((40 < 40) × (Dmabuf.write frame_buffer (replicate 40 0) ≡ err (Dmabuf.too_short 40 40)))
    ⊎ ((40 ≤ 40)
        × (buf : Bytes) × (Dmabuf.write frame_buffer (replicate 40 0) ≡ ok (buf, 40))
        × (Dmabuf.parse buf ≡ ok frame_buffer))
parse-write_dmabuf_example =
    parse-write_dmabuf frame_buffer (replicate 40 0) frame_buffer-IsDescriptor

abbrev frame_buffer_wire : Bytes
frame_buffer_wire = Dmabuf.descriptor_bytes frame_buffer

frame_buffer_parses : Dmabuf.parse frame_buffer_wire ≡ ok frame_buffer
unfolding Dmabuf.parse Dmabuf.parse_planes Dmabuf.descriptor_bytes Dmabuf.write_planes from_be_bytes
    to_be_bytes from_le_bytes to_le_bytes
frame_buffer_parses = refl

parse_bounds_example :
    (1 ≤ 2)
    × (2 ≤ 4)
    × (2 ≤ 5)
    × All (HasFd 2) (plane 0 ∷ plane 1 ∷ [])
    × (40 ≤ length frame_buffer_wire)
parse_bounds_example = parse_bounds frame_buffer_wire frame_buffer frame_buffer_parses

abbrev fid : Bytes
fid = replicate 16 3

abbrev payload : Bytes
payload = 1 ∷ 2 ∷ 3 ∷ 4 ∷ 5 ∷ []

three_pieces : length (chunks 5 2 payload) ≡ 3
unfolding chunks
three_pieces = refl

fragment-Pieces_example :
    (ws : List Bytes) × (fragment payload 2 fid ≡ some ws)
    × (bodies : List Bytes) × Pieces fid (length bodies) 0 bodies ws
    × (concat bodies ≡ payload)
    × ((length payload ≡ 0 → length ws ≡ 1) × (0 < length payload → Small 2 bodies))
fragment-Pieces_example =
    fragment-Pieces payload 2 fid refl (omega arith) (omega (arith, three_pieces))

new-Inv : Inv new
unfolding new weight Values find
new-Inv = record {
  distinct = tt;
  partials = tt;
  counted = refl;
  capacity = omega arith;
  few = omega arith;
  budget = tt;
  remembered = omega arith;
  queued = λ k t e. ground (arith, e);
}

abbrev first_half : Bytes
first_half = 1 ∷ (fid ++ (0 ∷ 0 ∷ 0 ∷ 2 ∷ 7 ∷ []))

abbrev second_half : Bytes
second_half = 1 ∷ (fid ++ (0 ∷ 1 ∷ 0 ∷ 2 ∷ 8 ∷ []))

feed-Inv_example : Good (feed new 3 first_half).0 (feed (feed new 3 first_half).0 4 second_half)
feed-Inv_example =
    feed-Inv (feed new 3 first_half).0 4 second_half (feed-Inv new 3 first_half new-Inv).0

-- Two bytes of another message are buffered, and there is room for three.
abbrev other_fid : Bytes
other_fid = replicate 16 4

abbrev crowded : Reassembler
crowded = record new {
  buffers =
      (
        other_fid,
        record { order = 0; first_seen = 2; size = 2; parts = (0, 7 ∷ 7 ∷ []) ∷ []; total = 2 },
      )
      ∷ [];
  bytes = 2;
  max_buffered_bytes = some 3;
}
