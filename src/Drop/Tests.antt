-- ===== src/Drop/Tests.antt =====
-- The theorems on drops at concrete inputs, and runs.
use telesthete.Base.{
  zero, suc, ℕ, ◌+◌, ◌≤◌, ◌<◌, ◌≡◌, ◌↔◌, refl, List, [], ◌∷◌, ◌++◌, length, replicate, take, drop,
  Option, none, some, true, false, ℕ_discrete, arith, All, take-append, drop-append,
}
use mathlib.Core.Path.{ap₂}
use telesthete.Base.Bytes.{Bytes}
use telesthete.Base.Text.{Text, codes}
use telesthete.Base.Maps.{find, has}
use telesthete.Drop.{ℤ, pos, negsuc, OfferPayload, Json, IsJson}
use telesthete.Drop.Sender.{DropSenderCore, chunk_of, div_ceil, serve_range}
use telesthete.Drop.Sender
use telesthete.Drop.Receiver.{
  scan, close_run, split_run, DropReceiverCore, new, handle_frame, missing_ranges, has_chunk,
}
use telesthete.Drop.Exchange.{exchange, exchange-completes}
use telesthete.Drop.Ranges.{Covers, Windows, missing_ranges_iff}
use telesthete.Drop.Serving.{OfFile, serve_range_bounds}
use telesthete.Drop.Stale.{replay_stale, after, replay_stale_forever}

-- A plain encoding in place of JSON.
sign : ℤ → ℕ
sign (pos n) = 0
sign (negsuc n) = 1

magnitude : ℤ → ℕ
magnitude (pos n) = n
magnitude (negsuc n) = n

signed : ℕ → ℕ → ℤ
signed zero n = pos n
signed (suc s) n = negsuc n

write_ranges : List (ℤ × ℤ) → Bytes
unfolding sign magnitude
write_ranges [] = []
write_ranges ((s, e) ∷ rs) = sign s ∷ magnitude s ∷ sign e ∷ magnitude e ∷ write_ranges rs

read_ranges : Bytes → Option (List (ℤ × ℤ))
unfolding signed
read_ranges (s ∷ m ∷ t ∷ n ∷ bs) = elim (read_ranges bs) [
  | none ↦ none
  | some rs ↦ some ((signed s m, signed t n) ∷ rs)
]
read_ranges bs = some []

write_plain : OfferPayload → Bytes
write_plain o = o.size ∷ o.chunk_size ∷ o.total_chunks ∷ length o.name ∷ (o.name ++ o.sha256)

read_plain : Bytes → Option OfferPayload
read_plain (size ∷ chunk ∷ total ∷ n ∷ bs) = some (record {
  name = take n bs;
  size = size;
  chunk_size = chunk;
  total_chunks = total;
  sha256 = drop n bs;
})
read_plain bs = none

plain : Json
plain = record {
  write_offer = write_plain;
  read_offer = read_plain;
  write_request = write_ranges;
  read_request = read_ranges;
  write_done = λ t. t;
  read_done = λ t. some t;
}

plain-IsJson : IsJson plain
unfolding plain write_plain read_plain write_ranges read_ranges sign magnitude signed
plain-IsJson = record {
  offer = λ o fits.
      ap₂
        (λ (name sha256 : Text). some (record {
          name = name;
          size = o.size;
          chunk_size = o.chunk_size;
          total_chunks = o.total_chunks;
          sha256 = sha256;
        }))
        (take-append (length o.name) o.name o.sha256 refl)
        (drop-append (length o.name) o.name o.sha256 refl);
  request = λ s e hs he. refl;
  done = λ t. refl;
}

abbrev file_bytes : Bytes
file_bytes = replicate 2500 7

-- The receiver resumes with the middle one of three chunks.
abbrev kept : List (ℕ × Bytes)
kept = (1, chunk_of file_bytes 1) ∷ []

exchange-completes_example :
    (let s = Sender.new (λ bs. take 4 bs) (codes "notes") file_bytes in
      (c : DropReceiverCore ℕ) × (frames : List Bytes) × (handle_frame plain
          (λ bs. take 4 bs)
          (new kept)
          10
          (Sender.offer_frame plain s)
          5
        ≡ some (c, frames))
      × (s' : DropSenderCore ℕ) × (c' : DropReceiverCore ℕ) × (exchange ℕ_discrete plain
            (λ bs. take 4 bs)
            5
            (s.total_chunks + 2)
            s
            c
            10
            20
            frames
          ≡ some (s', c'))
      × (c'.completion ≡ some (file_bytes, true))
      × (c'.verified ≡ some true)
      × (find ℕ_discrete 20 s'.completed ≡ some true))
unfolding div_ceil find
exchange-completes_example =
    exchange-completes ℕ_discrete plain (λ bs. take 4 bs) 5 (codes "notes") file_bytes kept 10 20
      plain-IsJson (omega arith) (refl, tt) (omega arith, tt) (refl, tt) (omega arith)

abbrev offered_file : OfferPayload
offered_file = record {
  name = codes "notes";
  size = 102400;
  chunk_size = 1024;
  total_chunks = 100;
  sha256 = [];
}

abbrev resuming : DropReceiverCore ℕ
resuming = record {
  offer = some offered_file;
  have_ = (3, []) ∷ [];
  sender_addr = some 10;
  verified = none;
  outstanding = none;
  last_progress = none;
  timeout = 1;
  completion = none;
}

missing_ranges_iff_example :
    ((k : ℕ)
      → Covers k (missing_ranges resuming) ↔ ((k < 100) × (has_chunk k ((3, []) ∷ []) ≡ false)))
    × Windows (missing_ranges resuming)
missing_ranges_iff_example = missing_ranges_iff resuming offered_file refl (omega arith)

-- Runs: 64 chunks at most, and clamped bounds.
ranges_run : missing_ranges resuming ≡ (0, 3) ∷ (4, 68) ∷ (68, 100) ∷ []
unfolding missing_ranges scan close_run split_run has find ℕ_discrete
ranges_run = refl

abbrev offering : DropSenderCore ℕ
offering = record {
  name = [];
  data_ = 1 ∷ 2 ∷ 3 ∷ [];
  total_chunks = 1;
  sha256 = [];
  completed = [];
}

serve_range_bounds_example :
    (length (serve_range offering (negsuc 4) (pos 900)) ≤ 64)
    × All (OfFile offering) (serve_range offering (negsuc 4) (pos 900))
serve_range_bounds_example = serve_range_bounds offering (negsuc 4) (pos 900)

replay_stale_forever_example :
    replay_stale ℕ_discrete
      (after ℕ_discrete (replay_stale ℕ_discrete [] 10 7).0 ((20, 3) ∷ (10, 9) ∷ []))
      10
      6
    ≡ (after ℕ_discrete (replay_stale ℕ_discrete [] 10 7).0 ((20, 3) ∷ (10, 9) ∷ []), true)
replay_stale_forever_example =
    replay_stale_forever ℕ_discrete [] ((20, 3) ∷ (10, 9) ∷ []) 10 7 6 (omega arith)
