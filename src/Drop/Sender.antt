-- ===== src/Drop/Sender.antt =====
-- drop_channel.rs, `DropSenderCore`.
use telesthete.Base.{
  ℕ, zero, suc, ◌+◌, ◌-◌, ◌*◌, ◌/◌, ◌%◌, ◌^◌, min, max, List, [], ◌∷◌, ◌++◌, length, slice, leb,
  if◌then◌else◌, ◌==◌, Option, none, some, Bool,
}
use telesthete.Base.Bytes.{Bytes, to_be_bytes}
use telesthete.Base.Maps.{insert}
use telesthete.Base.Text.{Text, text_eq}
use telesthete.Drop.{
  chunk_size, max_range_chunks, type_offer, type_request, type_chunk, type_done, ℤ, at_least_zero,
  OfferPayload, Json, sha256_hex, json_frame,
}

pub record DropSenderCore (Addr : Type 0) : Type 0 where
  pub name : Text
  pub data_ : Bytes
  pub total_chunks : ℕ
  pub sha256 : Text
  pub completed : List (Addr × Bool)

-- `data.len().div_ceil(CHUNK_SIZE)`.
unfoldable pub div_ceil : ℕ → ℕ
div_ceil n = (n + (chunk_size - 1)) / chunk_size

-- `&self.data[lo..hi]` of one index, empty past the end.
unfoldable pub chunk_of : Bytes → ℕ → Bytes
chunk_of data_ index =
    let lo = index * chunk_size in
    let hi = min (lo + chunk_size) (length data_) in
    if leb (length data_) lo then [] else slice lo hi data_

unfoldable pub chunk_frame : Bytes → ℕ → Bytes
chunk_frame data_ index = type_chunk ∷ (to_be_bytes 4 index ++ chunk_of data_ index)

-- `for index in start..end`, as many indexes as the first argument.
unfoldable pub chunk_frames : ℕ → ℕ → Bytes → List Bytes
chunk_frames zero index data_ = []
chunk_frames (suc n) index data_ = chunk_frame data_ index ∷ chunk_frames n (index + 1) data_

module _ {Addr : Type 0} where
  unfoldable pub serve_range : DropSenderCore Addr → ℤ → ℤ → List Bytes
  serve_range c start_ end_ =
      let start = at_least_zero start_ in
      let end = min (min (at_least_zero end_) c.total_chunks) (start + max_range_chunks) in
      chunk_frames (end - start) start c.data_

  unfoldable pub serve_all : DropSenderCore Addr → List (ℤ × ℤ) → List Bytes
  serve_all c [] = []
  serve_all c ((start, end) ∷ ranges) = serve_range c start end ++ serve_all c ranges

  module _ (sha256 : Bytes → Bytes) where
    unfoldable pub new : Text → Bytes → DropSenderCore Addr
    new name data_ = record {
      name = name;
      data_ = data_;
      total_chunks = max 1 (div_ceil (length data_)) % 2 ^ 32;
      sha256 = sha256_hex sha256 data_;
      completed = [];
    }

  unfoldable pub offer_of : DropSenderCore Addr → OfferPayload
  offer_of c = record {
    name = c.name;
    size = length c.data_;
    chunk_size = chunk_size;
    total_chunks = c.total_chunks;
    sha256 = c.sha256;
  }

  module _ (json : Json) where
    unfoldable pub offer_frame : DropSenderCore Addr → Bytes
    offer_frame c = json_frame type_offer (json.write_offer (offer_of c))

    module _ (d : Discrete Addr) where
      -- The frames to send back, and the receiver's verdict when the frame brought one.
      unfoldable pub handle_frame :
          DropSenderCore Addr → Addr → Bytes → DropSenderCore Addr × List Bytes × Option Bool
      handle_frame c from [] = (c, [], none)
      handle_frame c from (type_ ∷ body) =
          if type_ == type_request
          then elim (json.read_request body) [
            | none ↦ (c, [], none)
            | some ranges ↦ (c, serve_all c ranges, none)
          ]
          else if type_ == type_done
          then elim (json.read_done body) [
            | none ↦ (c, [], none)
            | some done ↦ (
              record c { completed = insert d from (text_eq done c.sha256) c.completed },
              [],
              some (text_eq done c.sha256),
            )
          ]
          else (c, [], none)
