-- ===== src/Drop.antt =====
-- rust/telesthete/src/drop_channel.rs: chunked, resumable transfer of one file. The payloads and
-- frames that the two sides share. serde_json is the parameter `Json`, SHA-256 a function.
pub mod Sender
pub mod Receiver
pub mod Stale
pub mod Content
pub mod Ranges
pub mod Steps
pub mod Window
pub mod Serving
pub mod Tasks
pub mod Transfer
pub mod Exchange
mod Tests
use telesthete.Base.{ℕ, zero, suc, ◌+◌, ◌≡◌, ◌<◌, ◌^◌, List, [], ◌∷◌, ◌++◌, Option, none, some}
use telesthete.Base.Bytes.{Bytes, to_be_bytes}
use telesthete.Base.Text.{Text}
use telesthete.Board.{to_hex}

abbrev pub chunk_size : ℕ
chunk_size = 1024

abbrev pub max_range_chunks : ℕ
max_range_chunks = 64

-- One second, in the unit of `now`.
abbrev pub rerequest_timeout : ℕ
rerequest_timeout = 1

abbrev pub type_offer : ℕ
type_offer = 0x01

abbrev pub type_request : ℕ
type_request = 0x02

abbrev pub type_chunk : ℕ
type_chunk = 0x03

abbrev pub type_done : ℕ
type_done = 0x04

-- Rust's `i64`.
pub data ℤ : Type 0 where
  pos : ℕ → ℤ
  negsuc : ℕ → ℤ

-- `n.max(0) as u64`.
unfoldable pub at_least_zero : ℤ → ℕ
at_least_zero (pos n) = n
at_least_zero (negsuc n) = 0

pub record OfferPayload : Type 0 where
  pub name : Text
  pub size : ℕ
  pub chunk_size : ℕ
  pub total_chunks : ℕ
  pub sha256 : Text

-- `RequestPayload` is its ranges, `DonePayload` its digest.
pub record Json : Type 0 where
  pub write_offer : OfferPayload → Bytes
  pub read_offer : Bytes → Option OfferPayload
  pub write_request : List (ℤ × ℤ) → Bytes
  pub read_request : Bytes → Option (List (ℤ × ℤ))
  pub write_done : Text → Bytes
  pub read_done : Bytes → Option Text

-- The numbers of an offer fit their Rust type.
pub record IsOffer (o : OfferPayload) : Type 0 where
  pub size : o.size < 2 ^ 64
  pub chunk_size : o.chunk_size < 2 ^ 64
  pub total_chunks : o.total_chunks < 2 ^ 64

-- serde_json reads what it wrote.
pub record IsJson (j : Json) : Type 0 where
  pub offer : (o : OfferPayload) → IsOffer o → j.read_offer (j.write_offer o) ≡ some o
  pub request :
      (s e : ℕ)
      → s < 2 ^ 63
      → e < 2 ^ 63
      → j.read_request (j.write_request ((pos s, pos e) ∷ [])) ≡ some ((pos s, pos e) ∷ [])
  pub done : (t : Text) → j.read_done (j.write_done t) ≡ some t

unfoldable pub sha256_hex : (Bytes → Bytes) → Bytes → Text
sha256_hex sha256 data_ = to_hex (sha256 data_)

unfoldable pub json_frame : ℕ → Bytes → Bytes
json_frame type_ body = type_ ∷ body
