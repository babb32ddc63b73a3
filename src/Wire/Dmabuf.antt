-- ===== src/Wire/Dmabuf.antt =====
-- rust/telesthete/src/wire/dmabuf.rs: the descriptor of a shared buffer inside a Stream payload.
pub mod RoundTrip
pub mod Bounds
use telesthete.Base.{
  ℕ, zero, suc, ◌+◌, ◌-◌, ◌*◌, ◌^◌, ◌≤◌, ◌<◌, ◌≡◌, List, [], ◌∷◌, ◌++◌, length, drop, get_or, slice,
  ltb, if◌then◌else◌, not, ◌||◌, ◌&&◌, min, max, Bool, map,
}
use telesthete.Base.Bytes.{Bytes, to_be_bytes, from_be_bytes, to_le_bytes, from_le_bytes}
use telesthete.Base.Results.{Result, ok, err, ◌>>=◌}
use telesthete.Wire.StreamHeader.{contains, with_fence, reuse}

abbrev pub max_planes : ℕ
max_planes = 4

abbrev pub max_fds_per_packet : ℕ
max_fds_per_packet = 5

abbrev pub header_bytes : ℕ
header_bytes = 22

abbrev pub plane_bytes : ℕ
plane_bytes = 9

pub record DmabufPlane : Type 0 where
  pub offset : ℕ
  pub stride : ℕ
  pub fd_index : ℕ

pub record DmabufDescriptor : Type 0 where
  pub width : ℕ
  pub height : ℕ
  pub fourcc : ℕ
  pub modifier : ℕ
  pub planes : List DmabufPlane
  pub fd_count : ℕ

pub data DmabufError : Type 0 where
  too_short : ℕ → ℕ → DmabufError
  plane_count_out_of_range : ℕ → DmabufError
  fd_count_out_of_range : ℕ → DmabufError
  fd_index_out_of_range : ℕ → ℕ → DmabufError
  reuse_fd_mismatch : ℕ → DmabufError

abbrev pub encoded_len : ℕ → ℕ
encoded_len plane_count = header_bytes + plane_bytes * plane_count

-- The loop over the planes: nine bytes each, side by side.
unfoldable pub write_planes : List DmabufPlane → Bytes
write_planes [] = []
write_planes (p ∷ ps) =
    to_be_bytes 4 p.offset ++ (to_be_bytes 4 p.stride ++ (p.fd_index ∷ write_planes ps))

-- The bytes that `write` puts into `out[..need]`, field after field.
unfoldable pub descriptor_bytes : DmabufDescriptor → Bytes
descriptor_bytes d =
    to_be_bytes 4 d.width
    ++ (to_be_bytes 4 d.height
        ++ (to_le_bytes 4 d.fourcc
            ++ (to_be_bytes 8 d.modifier
                ++ (length d.planes ∷ d.fd_count ∷ write_planes d.planes))))

unfoldable pub write : DmabufDescriptor → Bytes → Result DmabufError (Bytes × ℕ)
write d out =
    let need = encoded_len (length d.planes) in
    if ltb (length out) need
    then err (too_short (length out) need)
    else if ltb (length d.planes) 1 || ltb max_planes (length d.planes)
    then err (plane_count_out_of_range (min (length d.planes) 255))
    else if ltb max_fds_per_packet d.fd_count
    then err (fd_count_out_of_range d.fd_count)
    else ok (descriptor_bytes d ++ drop need out, need)

-- The loop of `parse` from the bytes at `off` on, for the planes still to read.
unfoldable pub parse_planes : ℕ → ℕ → Bytes → Result DmabufError (List DmabufPlane)
parse_planes zero fd_count bytes = ok []
parse_planes (suc n) fd_count bytes =
    let rest = parse_planes n fd_count (drop plane_bytes bytes) in
    let fd_index = get_or bytes 8 0 in
    let plane : DmabufPlane = record {
      offset = from_be_bytes (slice 0 4 bytes);
      stride = from_be_bytes (slice 4 8 bytes);
      fd_index = fd_index;
    } in
    if ltb 0 fd_count && not (ltb fd_index fd_count)
    then err (fd_index_out_of_range fd_count fd_index)
    else rest >>= λ planes. ok (plane ∷ planes)

unfoldable pub parse : Bytes → Result DmabufError DmabufDescriptor
parse input =
    let plane_count = get_or input 20 0 in
    let fd_count = get_or input 21 0 in
    let need = encoded_len plane_count in
    if ltb (length input) header_bytes
    then err (too_short (length input) header_bytes)
    else if ltb plane_count 1 || ltb max_planes plane_count
    then err (plane_count_out_of_range plane_count)
    else if ltb max_fds_per_packet fd_count
    then err (fd_count_out_of_range fd_count)
    else if ltb (length input) need
    then err (too_short (length input) need)
    else parse_planes plane_count fd_count (drop header_bytes input) >>= λ planes. ok (record {
      width = from_be_bytes (slice 0 4 input);
      height = from_be_bytes (slice 4 8 input);
      fourcc = from_le_bytes (slice 8 12 input);
      modifier = from_be_bytes (slice 12 20 input);
      planes = planes;
      fd_count = fd_count;
    })

-- `map(fd_index + 1).max().unwrap_or(0)`.
unfoldable pub plane_fds_needed : List DmabufPlane → ℕ
plane_fds_needed [] = 0
plane_fds_needed (p ∷ ps) = max (p.fd_index + 1) (plane_fds_needed ps)

-- `none` of the error is the code's `Ok(())`. `saturating_sub` is the subtraction of ℕ.
unfoldable pub check_flags : DmabufDescriptor → ℕ → Result DmabufError (Unit {0})
check_flags d flags =
    let expected_fence_fds = if contains flags with_fence then 1 else 0 in
    let needed = plane_fds_needed d.planes in
    if contains flags reuse
    then (if ltb d.fd_count expected_fence_fds || ltb expected_fence_fds d.fd_count
        then err (reuse_fd_mismatch d.fd_count)
        else ok tt)
    else (if ltb (d.fd_count - expected_fence_fds) needed
        then err (fd_index_out_of_range d.fd_count (needed - 1))
        else ok tt)
