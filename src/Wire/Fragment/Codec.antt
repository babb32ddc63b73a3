-- ===== src/Wire/Fragment/Codec.antt =====
-- fragment.rs, `pack_chunk`, `parse_chunk` and `fragment`.
use telesthete.Base.{
  ℕ, zero, suc, ◌+◌, ◌^◌, ◌≤◌, ◌<◌, ◌≡◌, refl, ap, ◌∙◌, List, [], ◌∷◌, ◌++◌, length, take, drop,
  get_or, slice, ltb, leb, some, false, arith, length-append, take-append, drop-append,
  drop-append_past, take-append-drop, length-drop, length-take, le→ltb, ◌==◌,
}
use telesthete.Base.Bytes.{Bytes, to_be_bytes, length-to_be_bytes, from_be_bytes-to_be_bytes}
use telesthete.Wire.Fragment.{pack_chunk, parse_chunk, chunks, pack_pieces, fragment}

-- The ranges of a chunk's Rust types, and an index below a total that is not zero.
pub record IsChunk (fid : Bytes) (seq total : ℕ) : Type 0 where
  pub id : length fid ≡ 16
  pub below : seq < total
  pub fits : total < 256 ^ 2

module _ (fid : Bytes) (seq total : ℕ) (body : Bytes) (v : IsChunk fid seq total) where
  rest_bytes : Bytes
  rest_bytes = to_be_bytes 2 seq ++ (to_be_bytes 2 total ++ body)

  length-pack_chunk : length (pack_chunk fid seq total body) ≡ 21 + length body
  unfolding pack_chunk
  length-pack_chunk = omega (
    arith,
    length-append fid (to_be_bytes 2 seq ++ (to_be_bytes 2 total ++ body)),
    length-append (to_be_bytes 2 seq) (to_be_bytes 2 total ++ body),
    length-append (to_be_bytes 2 total) body,
    length-to_be_bytes 2 seq,
    length-to_be_bytes 2 total,
    v.id,
  )

  pack_id : slice 1 17 (pack_chunk fid seq total body) ≡ fid
  unfolding pack_chunk
  pack_id = take-append 16 fid _ v.id

  pack_seq : slice 17 19 (pack_chunk fid seq total body) ≡ to_be_bytes 2 seq
  unfolding pack_chunk
  pack_seq =
      ap (take 2) (drop-append 16 fid _ v.id)
      ∙ take-append 2 (to_be_bytes 2 seq) _ (length-to_be_bytes 2 seq)

  pack_total : slice 19 21 (pack_chunk fid seq total body) ≡ to_be_bytes 2 total
  unfolding pack_chunk
  pack_total =
      ap (take 2) (
        drop-append_past 16 2 fid _ v.id
        ∙ drop-append 2 (to_be_bytes 2 seq) _ (length-to_be_bytes 2 seq))
      ∙ take-append 2 (to_be_bytes 2 total) _ (length-to_be_bytes 2 total)

  pack_body : drop 21 (pack_chunk fid seq total body) ≡ body
  unfolding pack_chunk
  pack_body =
      drop-append_past 16 4 fid _ v.id
      ∙ drop-append_past 2 2 (to_be_bytes 2 seq) _ (length-to_be_bytes 2 seq)
      ∙ drop-append 2 (to_be_bytes 2 total) _ (length-to_be_bytes 2 total)

  pack_version : get_or (pack_chunk fid seq total body) 0 0 ≡ 1
  unfolding pack_chunk
  pack_version = refl

-- A packed chunk is parsed back to its parts.
pub parse_chunk-pack_chunk :
    (fid : Bytes) (seq total : ℕ) (body : Bytes)
    → IsChunk fid seq total
    → parse_chunk (pack_chunk fid seq total body)
      ≡ some (record { fragment_id = fid; seq = seq; total = total; body = body })
unfolding parse_chunk
parse_chunk-pack_chunk fid seq total body v =
    let small : ltb (length (pack_chunk fid seq total body)) 21 ≡ false =
      le→ltb _ _ (omega (arith, length-pack_chunk fid seq total body v)) in
    let nonzero : (total == 0) ≡ false = ground (arith, v.below) in
    let inside : leb total seq ≡ false = ground (arith, v.below) in
    rw (
      small,
      pack_version fid seq total body v,
      pack_seq fid seq total body v,
      pack_total fid seq total body v,
      from_be_bytes-to_be_bytes 2 seq (omega (arith, v.below, v.fits)),
      from_be_bytes-to_be_bytes 2 total v.fits,
      nonzero,
      inside,
      pack_id fid seq total body v,
      pack_body fid seq total body v,
    )

-- The pieces one after the other.
abbrev pub concat : List Bytes → Bytes
concat [] = []
concat (p ∷ ps) = p ++ concat ps

pub concat-chunks :
    (fuel n : ℕ) (payload : Bytes)
    → length payload ≤ fuel
    → 0 < n
    → concat (chunks fuel n payload) ≡ payload
unfolding chunks
concat-chunks fuel n [] h pos = refl
concat-chunks zero n (b ∷ bs) h pos = absurd (omega arith)
concat-chunks (suc fuel) n (b ∷ bs) h pos =
    ap (λ r. take n (b ∷ bs) ++ r)
      (concat-chunks fuel n (drop n (b ∷ bs)) (omega (arith, length-drop n (b ∷ bs))) pos)
    ∙ take-append-drop n (b ∷ bs)

abbrev pub Small : ℕ → List Bytes → Type 0
Small n [] = Unit {0}
Small n (p ∷ ps) = ((0 < length p) × (length p ≤ n)) × Small n ps

pub chunks-Small : (fuel n : ℕ) (payload : Bytes) → 0 < n → Small n (chunks fuel n payload)
unfolding chunks
chunks-Small fuel n [] pos = tt
chunks-Small zero n (b ∷ bs) pos = tt
chunks-Small (suc fuel) n (b ∷ bs) pos =
    (omega (arith, length-take n (b ∷ bs)), chunks-Small fuel n (drop n (b ∷ bs)) pos)

-- A list of chunks that are the pieces of a message from `seq` on, in order.
pub data Pieces (fid : Bytes) (total : ℕ) : ℕ → List Bytes → List Bytes → Type 0 where
  last : (seq : ℕ) → seq ≡ total → Pieces fid total seq [] []
  piece :
      (seq : ℕ) (b w : Bytes) (bs ws : List Bytes)
      → parse_chunk w ≡ some (record { fragment_id = fid; seq = seq; total = total; body = b })
      → Pieces fid total (suc seq) bs ws
      → Pieces fid total seq (b ∷ bs) (w ∷ ws)

pack_pieces-Pieces :
    (fid : Bytes) (total seq : ℕ) (ps : List Bytes)
    → length fid ≡ 16
    → total < 256 ^ 2
    → seq + length ps ≡ total
    → Pieces fid total seq ps (pack_pieces fid seq total ps)
unfolding pack_pieces
pack_pieces-Pieces fid total seq [] id small e = last seq (omega arith)
pack_pieces-Pieces fid total seq (p ∷ ps) id small e =
    let next : seq + 1 ≡ suc seq = omega arith in
    rw next (
      piece seq p _ ps _
        (parse_chunk-pack_chunk fid seq total p
          (record { id = id; below = omega arith; fits = small }))
        (pack_pieces-Pieces fid total (suc seq) ps id small (omega arith)))

-- Splitting a message of at least one byte into pieces of at most `n` bytes, at most 65535 of
-- them, gives chunks that parse to the pieces under one id and one total, numbered from 0, and
-- the pieces put together are the message; an empty message is one chunk with nothing in it.
pub fragment-Pieces :
    (payload : Bytes) (n : ℕ) (fid : Bytes)
    → length fid ≡ 16
    → 0 < n
    → length (chunks (length payload) n payload) ≤ 0xffff
    → (ws : List Bytes) × (fragment payload n fid ≡ some ws)
      × (bodies : List Bytes) × Pieces fid (length bodies) 0 bodies ws
      × (concat bodies ≡ payload)
      × ((length payload ≡ 0 → length ws ≡ 1) × (0 < length payload → Small n bodies))
unfolding fragment
fragment-Pieces [] n fid id pos few = (
  pack_chunk fid 0 1 [] ∷ [],
  ground arith,
  [] ∷ [],
  piece 0 [] _ [] []
      (parse_chunk-pack_chunk fid 0 1 []
        (record { id = id; below = omega arith; fits = omega arith }))
      (last 1 refl),
  refl,
  ((λ z. refl), (λ h. absurd (omega arith))),
)
fragment-Pieces (b ∷ bs) n fid id pos few =
    let payload : Bytes = b ∷ bs in
    let ps = chunks (length payload) n payload in
    (
      pack_pieces fid 0 (length ps) ps,
      ground arith,
      ps,
      pack_pieces-Pieces fid (length ps) 0 ps id (omega arith) (omega arith),
      concat-chunks (length payload) n payload (omega arith) pos,
      ((λ z. absurd (omega arith)), (λ h. chunks-Small (length payload) n payload pos)),
    )
