-- ===== src/Wire/Dmabuf/RoundTrip.antt =====
-- dmabuf.rs: what `write` puts down, `parse` reads back; and what `parse` lets through.
use telesthete.Base.{
  ℕ, ◌+◌, ◌*◌, ◌^◌, ◌≤◌, ◌<◌, ◌≡◌, ◌⊎◌, refl, sym, ap, ◌∙◌, List, [], ◌∷◌, ◌++◌, length, drop, take,
  get_or, slice, inl, inr, false, ltb, lt→ltb, le→ltb, not, ◌&&◌, All, arith, length-append,
  length-drop, take-append, drop-append, drop-append_past, get_or-append_past, append_assoc, dec_lt,
  drop-drop, get_or-drop,
}
use telesthete.Base.Bytes.{
  Bytes, to_be_bytes, from_be_bytes, to_le_bytes, length-to_be_bytes, length-to_le_bytes,
  from_be_bytes-to_be_bytes, from_le_bytes-to_le_bytes,
}
use telesthete.Base.Results.{ok, err}
use telesthete.Wire.Dmabuf.{
  DmabufPlane, DmabufDescriptor, encoded_len, write_planes, descriptor_bytes, write, parse_planes,
  parse, plane_bytes, too_short,
}

-- The ranges of a plane's Rust types, and an fd index that `fd_count` covers if there are fds.
abbrev pub IsPlane : ℕ → DmabufPlane → Type 0
IsPlane fd_count p =
    (p.offset < 256 ^ 4) × (p.stride < 256 ^ 4) × ((0 < fd_count) → (p.fd_index < fd_count))

pub record IsDescriptor (d : DmabufDescriptor) : Type 0 where
  pub width : d.width < 256 ^ 4
  pub height : d.height < 256 ^ 4
  pub fourcc : d.fourcc < 256 ^ 4
  pub modifier : d.modifier < 256 ^ 8
  pub some_planes : 1 ≤ length d.planes
  pub few_planes : length d.planes ≤ 4
  pub few_fds : d.fd_count ≤ 5
  pub planes : All (IsPlane d.fd_count) d.planes

length-write_planes : (ps : List DmabufPlane) → length (write_planes ps) ≡ 9 * length ps
unfolding write_planes
length-write_planes [] = refl
length-write_planes (p ∷ ps) = omega (
  arith,
  length-append (to_be_bytes 4 p.offset) (to_be_bytes 4 p.stride ++ (p.fd_index ∷ write_planes ps)),
  length-append (to_be_bytes 4 p.stride) (p.fd_index ∷ write_planes ps),
  length-to_be_bytes 4 p.offset,
  length-to_be_bytes 4 p.stride,
  length-write_planes ps,
)

module _ (fd_count : ℕ) (p : DmabufPlane) (v : IsPlane fd_count p) (rest : Bytes) where
  plane_bytes_of : Bytes
  plane_bytes_of = to_be_bytes 4 p.offset ++ (to_be_bytes 4 p.stride ++ (p.fd_index ∷ rest))

  plane_offset : from_be_bytes (slice 0 4 plane_bytes_of) ≡ p.offset
  unfolding plane_bytes_of
  plane_offset =
      ap from_be_bytes (take-append 4 (to_be_bytes 4 p.offset) _ (length-to_be_bytes 4 p.offset))
      ∙ from_be_bytes-to_be_bytes 4 p.offset v.0

  plane_stride : from_be_bytes (slice 4 8 plane_bytes_of) ≡ p.stride
  unfolding plane_bytes_of
  plane_stride =
      ap (λ bs. from_be_bytes (take 4 bs))
        (drop-append 4 (to_be_bytes 4 p.offset) _ (length-to_be_bytes 4 p.offset))
      ∙ ap from_be_bytes (take-append 4 (to_be_bytes 4 p.stride) _ (length-to_be_bytes 4 p.stride))
      ∙ from_be_bytes-to_be_bytes 4 p.stride v.1

  plane_index : get_or plane_bytes_of 8 0 ≡ p.fd_index
  unfolding plane_bytes_of
  plane_index =
      get_or-append_past 4 4 (to_be_bytes 4 p.offset) _ 0 (length-to_be_bytes 4 p.offset)
      ∙ get_or-append_past 4 0 (to_be_bytes 4 p.stride) _ 0 (length-to_be_bytes 4 p.stride)

  plane_rest : drop plane_bytes plane_bytes_of ≡ rest
  unfolding plane_bytes_of
  plane_rest =
      drop-append_past 4 5 (to_be_bytes 4 p.offset) _ (length-to_be_bytes 4 p.offset)
      ∙ drop-append_past 4 1 (to_be_bytes 4 p.stride) _ (length-to_be_bytes 4 p.stride)

  plane_fits : (ltb 0 fd_count && not (ltb p.fd_index fd_count)) ≡ false
  plane_fits = ground arith

parse_planes-write_planes :
    (fd_count : ℕ) (ps : List DmabufPlane) (rest : Bytes)
    → All (IsPlane fd_count) ps
    → parse_planes (length ps) fd_count (write_planes ps ++ rest) ≡ ok ps
unfolding parse_planes write_planes plane_bytes_of
parse_planes-write_planes fd_count [] rest v = refl
parse_planes-write_planes fd_count (p ∷ ps) rest v =
    let more = write_planes ps ++ rest in
    rw (
      append_assoc (to_be_bytes 4 p.offset),
      append_assoc (to_be_bytes 4 p.stride),
      plane_index fd_count p v.0 more,
      plane_fits fd_count p v.0 more,
      plane_rest fd_count p v.0 more,
      parse_planes-write_planes fd_count ps rest v.1,
      plane_offset fd_count p v.0 more,
      plane_stride fd_count p v.0 more,
    )

module _ (d : DmabufDescriptor) (v : IsDescriptor d) (rest : Bytes) where
  planes_part : Bytes
  planes_part = length d.planes ∷ d.fd_count ∷ (write_planes d.planes ++ rest)

  modifier_part : Bytes
  modifier_part = to_be_bytes 8 d.modifier ++ planes_part

  fourcc_part : Bytes
  fourcc_part = to_le_bytes 4 d.fourcc ++ modifier_part

  height_part : Bytes
  height_part = to_be_bytes 4 d.height ++ fourcc_part

  descriptor_shape : descriptor_bytes d ++ rest ≡ to_be_bytes 4 d.width ++ height_part
  unfolding descriptor_bytes planes_part modifier_part fourcc_part height_part
  descriptor_shape = simp append_assoc

  drop_four : drop 4 (descriptor_bytes d ++ rest) ≡ height_part
  drop_four =
      rw descriptor_shape (drop-append 4 (to_be_bytes 4 d.width) _ (length-to_be_bytes 4 d.width))

  drop_eight : drop 8 (descriptor_bytes d ++ rest) ≡ fourcc_part
  unfolding height_part
  drop_eight = rw descriptor_shape (
      drop-append_past 4 4 (to_be_bytes 4 d.width) _ (length-to_be_bytes 4 d.width)
      ∙ drop-append 4 (to_be_bytes 4 d.height) _ (length-to_be_bytes 4 d.height))

  drop_twelve : drop 12 (descriptor_bytes d ++ rest) ≡ modifier_part
  unfolding height_part fourcc_part
  drop_twelve = rw descriptor_shape (
      drop-append_past 4 8 (to_be_bytes 4 d.width) _ (length-to_be_bytes 4 d.width)
      ∙ drop-append_past 4 4 (to_be_bytes 4 d.height) _ (length-to_be_bytes 4 d.height)
      ∙ drop-append 4 (to_le_bytes 4 d.fourcc) _ (length-to_le_bytes 4 d.fourcc))

  drop_twenty : drop 20 (descriptor_bytes d ++ rest) ≡ planes_part
  unfolding height_part fourcc_part modifier_part
  drop_twenty = rw descriptor_shape (
      drop-append_past 4 16 (to_be_bytes 4 d.width) _ (length-to_be_bytes 4 d.width)
      ∙ drop-append_past 4 12 (to_be_bytes 4 d.height) _ (length-to_be_bytes 4 d.height)
      ∙ drop-append_past 4 8 (to_le_bytes 4 d.fourcc) _ (length-to_le_bytes 4 d.fourcc)
      ∙ drop-append 8 (to_be_bytes 8 d.modifier) _ (length-to_be_bytes 8 d.modifier))

  input_get_or : (m : ℕ) → get_or (descriptor_bytes d ++ rest) (20 + m) 0 ≡ get_or planes_part m 0
  input_get_or m =
      get_or-drop 20 m (descriptor_bytes d ++ rest) 0 ∙ ap (λ xs. get_or xs m 0) drop_twenty

  drop_header : drop 22 (descriptor_bytes d ++ rest) ≡ write_planes d.planes ++ rest
  unfolding planes_part
  drop_header = sym (drop-drop 2 20 (descriptor_bytes d ++ rest)) ∙ ap (drop 2) drop_twenty

  length-input : length (descriptor_bytes d ++ rest) ≡ encoded_len (length d.planes) + length rest
  unfolding planes_part
  length-input = omega (
    arith,
    length-drop 20 (descriptor_bytes d ++ rest),
    ap length drop_twenty,
    length-append (write_planes d.planes) rest,
    length-write_planes d.planes,
  )

  parse-descriptor_bytes : parse (descriptor_bytes d ++ rest) ≡ ok d
  unfolding parse planes_part height_part fourcc_part modifier_part
  parse-descriptor_bytes = rw (
    input_get_or 0,
    input_get_or 1,
    le→ltb (length (descriptor_bytes d ++ rest)) 22 (omega (arith, length-input)),
    le→ltb (length d.planes) 1 v.some_planes,
    le→ltb 4 (length d.planes) v.few_planes,
    le→ltb 5 d.fd_count v.few_fds,
    le→ltb (length (descriptor_bytes d ++ rest)) (encoded_len (length d.planes))
        (omega (arith, length-input)),
    drop_header,
    parse_planes-write_planes d.fd_count d.planes rest v.planes,
    drop_four,
    drop_eight,
    drop_twelve,
    ap (take 4) descriptor_shape,
    take-append 4 (to_be_bytes 4 d.width) height_part (length-to_be_bytes 4 d.width),
    take-append 4 (to_be_bytes 4 d.height) fourcc_part (length-to_be_bytes 4 d.height),
    take-append 4 (to_le_bytes 4 d.fourcc) modifier_part (length-to_le_bytes 4 d.fourcc),
    take-append 8 (to_be_bytes 8 d.modifier) planes_part (length-to_be_bytes 8 d.modifier),
    from_be_bytes-to_be_bytes 4 d.width v.width,
    from_be_bytes-to_be_bytes 4 d.height v.height,
    from_le_bytes-to_le_bytes 4 d.fourcc v.fourcc,
    from_be_bytes-to_be_bytes 8 d.modifier v.modifier,
  )

-- A descriptor with 1 to 4 planes, at most 5 fds and fields in their ranges is written into every
-- buffer that holds its encoded length, and is read back from there; a smaller buffer is refused.
pub parse-write_dmabuf :
    (d : DmabufDescriptor) (out : Bytes)
    → IsDescriptor d
    → ((length out < encoded_len (length d.planes))
        × (write d out ≡ err (too_short (length out) (encoded_len (length d.planes)))))
      ⊎ ((encoded_len (length d.planes) ≤ length out)
          × (buf : Bytes) × (write d out ≡ ok (buf, encoded_len (length d.planes)))
          × (parse buf ≡ ok d))
unfolding write
parse-write_dmabuf d out v = elim (dec_lt (length out) (encoded_len (length d.planes))) [
  | yes short ↦ inl (short, rw (lt→ltb (length out) _ short))
  | no long ↦ inr (
    omega arith,
    descriptor_bytes d ++ drop (encoded_len (length d.planes)) out,
    rw (
      le→ltb (length out) (encoded_len (length d.planes)) (omega arith),
      le→ltb (length d.planes) 1 v.some_planes,
      le→ltb 4 (length d.planes) v.few_planes,
      le→ltb 5 d.fd_count v.few_fds,
    ),
    parse-descriptor_bytes d v (drop (encoded_len (length d.planes)) out),
  )
]
