-- ===== src/Wire/Fragment.antt =====
-- rust/telesthete/src/wire/fragment.rs: the chunk envelope and the split of a message.
pub mod Codec
use telesthete.Base.{
  ℕ, zero, suc, ◌+◌, ◌-◌, ◌≡◌, List, [], ◌∷◌, ◌++◌, length, take, drop, get_or, slice, ltb, leb,
  if◌then◌else◌, not, ◌==◌, ◌||◌, Option, none, some,
}
use telesthete.Base.Bytes.{Bytes, to_be_bytes, from_be_bytes}

abbrev pub version : ℕ
version = 0x01

abbrev pub frag_header_len : ℕ
frag_header_len = 21

abbrev pub max_chunk_payload : ℕ
max_chunk_payload = 1024 - frag_header_len

pub record Chunk : Type 0 where
  pub fragment_id : Bytes
  pub seq : ℕ
  pub total : ℕ
  pub body : Bytes

unfoldable pub pack_chunk : Bytes → ℕ → ℕ → Bytes → Bytes
pack_chunk fragment_id seq total body =
    version ∷ (fragment_id ++ (to_be_bytes 2 seq ++ (to_be_bytes 2 total ++ body)))

unfoldable pub parse_chunk : Bytes → Option Chunk
parse_chunk chunk =
    let seq = from_be_bytes (slice 17 19 chunk) in
    let total = from_be_bytes (slice 19 21 chunk) in
    if ltb (length chunk) frag_header_len || not (get_or chunk 0 0 == version)
    then none
    else if total == 0 || leb total seq
    then none
    else some (record {
      fragment_id = slice 1 17 chunk;
      seq = seq;
      total = total;
      body = drop frag_header_len chunk;
    })

-- `payload.chunks(chunk_size)`, a standard library call; the first number bounds the pieces.
unfoldable pub chunks : ℕ → ℕ → Bytes → List Bytes
chunks fuel chunk_size [] = []
chunks zero chunk_size (b ∷ bs) = []
chunks (suc fuel) chunk_size (b ∷ bs) =
    take chunk_size (b ∷ bs) ∷ chunks fuel chunk_size (drop chunk_size (b ∷ bs))

unfoldable pub pack_pieces : Bytes → ℕ → ℕ → List Bytes → List Bytes
pack_pieces fragment_id seq total [] = []
pack_pieces fragment_id seq total (piece ∷ pieces) =
    pack_chunk fragment_id seq total piece ∷ pack_pieces fragment_id (seq + 1) total pieces

-- `none` is a failed assertion: a chunk size of zero, or more than 65535 pieces.
unfoldable pub fragment : Bytes → ℕ → Bytes → Option (List Bytes)
fragment payload chunk_size fragment_id =
    let pieces = chunks (length payload) chunk_size payload in
    if chunk_size == 0
    then none
    else if length payload == 0
    then some (pack_chunk fragment_id 0 1 [] ∷ [])
    else if ltb 0xffff (length pieces)
    then none
    else some (pack_pieces fragment_id 0 (length pieces) pieces)
