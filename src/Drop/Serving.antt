-- ===== src/Drop/Serving.antt =====
-- drop_channel.rs, `serve_range`: whatever is asked for, only chunks of the file are served.
use telesthete.Base.{ℕ, zero, suc, ◌+◌, ◌-◌, ◌≤◌, ◌<◌, ◌≡◌, refl, length, min, All, arith}
use telesthete.Base.Bytes.{Bytes}
use telesthete.Drop.{ℤ, at_least_zero}
use telesthete.Drop.Sender.{DropSenderCore, chunk_frame, chunk_frames, serve_range}

-- The frame is that of a chunk of the file.
abbrev pub OfFile : {Addr : Type 0} → DropSenderCore Addr → Bytes → Type 0
OfFile s frame = (i : ℕ) × (i < s.total_chunks) × (frame ≡ chunk_frame s.data_ i)

module _ {Addr : Type 0} (s : DropSenderCore Addr) where
  chunk_frames-OfFile :
      (n i : ℕ) → (0 < n → i + n ≤ s.total_chunks) → All (OfFile s) (chunk_frames n i s.data_)
  unfolding chunk_frames
  chunk_frames-OfFile zero i le = tt
  chunk_frames-OfFile (suc n) i le = (
    (i, omega (arith, le (omega arith)), refl),
    chunk_frames-OfFile n (i + 1) (λ some_left. omega (arith, le (omega arith))),
  )

  length-chunk_frames : (n i : ℕ) → length (chunk_frames n i s.data_) ≡ n
  unfolding chunk_frames
  length-chunk_frames zero i = refl
  length-chunk_frames (suc n) i = omega (arith, length-chunk_frames n (i + 1))

  -- A range with any bounds, negative ones, reversed ones and ones past the end included, is
  -- answered by at most 64 frames, each of them that of a chunk of the file.
  pub serve_range_bounds :
      (start end : ℤ)
      → (length (serve_range s start end) ≤ 64) × All (OfFile s) (serve_range s start end)
  unfolding serve_range
  serve_range_bounds start end =
      let from : ℕ = at_least_zero start in
      let to : ℕ = min (min (at_least_zero end) s.total_chunks) (from + 64) in
      (
        omega (arith, length-chunk_frames (to - from) from),
        chunk_frames-OfFile (to - from) from (λ some_left. omega arith),
      )
