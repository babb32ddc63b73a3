-- ===== src/Drop/Steps.antt =====
-- drop_channel.rs: one frame of an honest sender at the receiver, and one request at the sender.
use telesthete.Base.{
  take_all, opens, inl, inr, ◌↔◌, ℕ, zero, suc, ◌+◌, ◌-◌, ◌*◌, ◌%◌, ◌^◌, ◌≤◌, ◌<◌, ◌≡◌, refl, sym,
  ap, subst, ◌∙◌, min, List, [], ◌∷◌, ◌++◌, length, take, leb, ltb, ◌==◌, arith, Option, none, some,
  Bool, true, false, append-nil, Option-cases, Bool-cases, ℕ_discrete, if◌then◌else◌, length-append,
  take-append, drop-append, le→ltb,
}
use telesthete.Base.Bytes.{
  Bytes, to_be_bytes, from_be_bytes, length-to_be_bytes, from_be_bytes-to_be_bytes,
}
use telesthete.Base.Text.{text_eq-same}
use telesthete.Base.Maps.{
  find, has, remove, Distinct, insert-Distinct, has-none, find-remove, length-remove_found,
}
use mathlib.Core.Bool.{true≢false}
use telesthete.Drop.{Json, IsJson, pos, OfferPayload, sha256_hex, json_frame, at_least_zero}
use telesthete.Drop.Sender.{
  DropSenderCore, chunk_of, chunk_frame, chunk_frames, serve_range, serve_all, offer_of, div_ceil,
}
use telesthete.Drop.Sender
use telesthete.Drop.Receiver.{
  DropReceiverCore, has_chunk, missing_ranges, gather, request_missing, finish, store, drained,
  on_chunk, handle_frame,
}
use telesthete.Drop.Content.{Below, Honest, insert-Below, insert-Honest, gather-Honest}
use telesthete.Drop.Ranges.{Covers, Windows, missing_ranges_iff}

-- A sender of one file of at most 2^32 - 64 chunks.
pub record IsSender {Addr : Type 0} (sha256 : Bytes → Bytes) (s : DropSenderCore Addr)
    : Type 0 where
  pub digest : s.sha256 ≡ sha256_hex sha256 s.data_
  pub small : s.total_chunks + 64 ≤ 2 ^ 32
  pub covers : length s.data_ ≤ s.total_chunks * 1024

-- A receiver of that file whose chunks are all the file's.
pub record Holding {Addr : Type 0} (s : DropSenderCore Addr) (c : DropReceiverCore Addr)
    : Type 0 where
  pub offer : c.offer ≡ some (offer_of s)
  pub distinct : Distinct ℕ_discrete c.have_
  pub below : Below s.total_chunks c.have_
  pub honest : Honest s.data_ c.have_

module _ {Addr : Type 0} (json : Json) (sha256 : Bytes → Bytes) where
  pub store-Holding :
      (s : DropSenderCore Addr) (c : DropReceiverCore Addr) (i now : ℕ)
      → i < s.total_chunks
      → Holding s c
      → Holding s (store json sha256 c i (chunk_of s.data_ i) now)
  unfolding store
  store-Holding s c i now lt h = elim (Bool-cases (has_chunk i c.have_)) [
    | inl held ↦ rw held h
    | inr lacking ↦ rw lacking (record {
      offer = h.offer;
      distinct = insert-Distinct ℕ_discrete i _ c.have_ h.distinct;
      below = insert-Below s.total_chunks i _ c.have_ lt h.below;
      honest = insert-Honest s.data_ i c.have_ h.honest;
    })
  ]

  frame_to_chunk :
      (c : DropReceiverCore Addr) (o : OfferPayload) (from : Addr) (body : Bytes) (now : ℕ)
      → c.offer ≡ some o
      → handle_frame json sha256 c from (3 ∷ body) now ≡ on_chunk json sha256 c o body now
  unfolding handle_frame
  frame_to_chunk c o from body now e =
      ap
        (λ (x : Option OfferPayload). elim x as (λ y. Option (DropReceiverCore Addr × List Bytes)) [
          | none ↦ some (c, [])
          | some offer ↦ on_chunk json sha256 c offer body now
        ])
        e

  -- The frame of a chunk is taken apart into its index and its bytes.
  pub handle_frame-chunk_frame :
      (s : DropSenderCore Addr) (c : DropReceiverCore Addr) (from : Addr) (i now : ℕ)
      → IsSender sha256 s
      → i < s.total_chunks
      → Holding s c
      → handle_frame json sha256 c from (chunk_frame s.data_ i) now ≡ (
          let c' = store json sha256 c i (chunk_of s.data_ i) now in
          if length c'.have_ % 2 ^ 32 == s.total_chunks
          then finish json sha256 c' (offer_of s)
          else if drained json sha256 c'
          then some (request_missing json c')
          else some (c', []))
  unfolding chunk_frame on_chunk
  handle_frame-chunk_frame s c from i now v lt h =
      let w : length (to_be_bytes 4 i) ≡ 4 = length-to_be_bytes 4 i in
      let index : from_be_bytes (take 4 (to_be_bytes 4 i ++ chunk_of s.data_ i)) ≡ i =
        ap from_be_bytes (take-append 4 (to_be_bytes 4 i) (chunk_of s.data_ i) w)
        ∙ from_be_bytes-to_be_bytes 4 i (omega (arith, v.small)) in
      let long : ltb (length (to_be_bytes 4 i ++ chunk_of s.data_ i)) 4 ≡ false =
        le→ltb _ _ (omega (arith, length-append (to_be_bytes 4 i) (chunk_of s.data_ i))) in
      let fits : (offer_of s).total_chunks % 2 ^ 32 ≡ s.total_chunks =
        unfold offer_of in omega (arith, v.small) in
      let inside : leb s.total_chunks i ≡ false = ground arith in
      frame_to_chunk c (offer_of s) from _ now h.offer
      ∙ rw (long, fits, index, inside, drop-append 4 (to_be_bytes 4 i) (chunk_of s.data_ i) w) refl

  finish_file :
      (c : DropReceiverCore Addr) (o : OfferPayload) (data_ all_ : Bytes)
      → gather (o.total_chunks % 2 ^ 32) 0 c.have_ ≡ some all_
      → take o.size all_ ≡ data_
      → sha256_hex sha256 data_ ≡ o.sha256
      → finish json sha256 c o
        ≡ some (
          record c { verified = some true; completion = some (data_, true) },
          json_frame 4 (json.write_done o.sha256) ∷ [],
        )
  unfolding finish
  finish_file c o data_ all_ e size digest =
      rw (e, finish, size, digest, text_eq-same o.sha256) refl

  -- A receiver that holds every chunk of the file finishes with the file, and the digest matches.
  pub finish-Holding :
      (s : DropSenderCore Addr) (c : DropReceiverCore Addr)
      → IsSender sha256 s
      → Holding s c
      → length c.have_ ≡ s.total_chunks
      → finish json sha256 c (offer_of s)
        ≡ some (
          record c { verified = some true; completion = some (s.data_, true) },
          json_frame 4 (json.write_done s.sha256) ∷ [],
        )
  unfolding offer_of
  finish-Holding s c v h full =
      let fits : s.total_chunks % 2 ^ 32 ≡ s.total_chunks = omega (arith, v.small) in
      finish_file c (offer_of s) s.data_ s.data_
        (ap (λ n. gather n 0 c.have_) fits
          ∙ gather-Honest s.data_ c.have_ s.total_chunks h.distinct h.below h.honest full v.covers)
        (take_all (length s.data_) s.data_ (omega arith)) (sym v.digest)

kept :
    (n k : ℕ) (m : List (ℕ × Bytes)) → k < n → has_chunk k (remove ℕ_discrete n m) ≡ has_chunk k m
unfolding has
kept n k m lt =
    let e : find ℕ_discrete k (remove ℕ_discrete n m) ≡ find ℕ_discrete k m =
      find-remove ℕ_discrete n k m ∙ ground arith in
    ap (λ (o : Option Bytes). elim o as (λ x. Bool) [ none ↦ false | some v ↦ true ]) e

-- If no index below `n` is missing, there are at least `n` entries.
pub length_above :
    (n : ℕ) (m : List (ℕ × Bytes)) → ((k : ℕ) → k < n → has_chunk k m ≡ true) → n ≤ length m
length_above zero m all_ = omega arith
length_above (suc n) m all_ = elim (Option-cases (find ℕ_discrete n m)) [
  | inl missing ↦ absurd (true≢false (sym (all_ n (omega arith)) ∙ has-none ℕ_discrete n m missing))
  | inr (b, got) ↦ omega (
    arith,
    length-remove_found ℕ_discrete n b m got,
    length_above n (remove ℕ_discrete n m)
        (λ k lt. kept n k m (omega arith) ∙ all_ k (omega arith)),
  )
]

module _ {Addr : Type 0} (json : Json) (sha256 : Bytes → Bytes) where
  request_missing_first :
      (c : DropReceiverCore Addr) (r : ℕ × ℕ) (rest : List (ℕ × ℕ)) (o : OfferPayload) (a : Addr)
      → c.offer ≡ some o
      → c.sender_addr ≡ some a
      → c.verified ≡ none
      → missing_ranges c ≡ r ∷ rest
      → request_missing json c ≡ (
        record c { outstanding = some r },
        json_frame 2 (json.write_request ((pos r.0, pos r.1) ∷ [])) ∷ [],
      )
  unfolding request_missing
  request_missing_first c r rest o a eo ea ev er =
      opens _ _ _ _ eo
      ∙ opens _ _ _ _ ea
      ∙ ap
          (λ (x : Option Bool). elim x as (λ y. DropReceiverCore Addr × List Bytes) [
            | none ↦ elim (missing_ranges c) as (λ y. DropReceiverCore Addr × List Bytes) [
              | [] ↦ (c, [])
              | range ∷ rest ↦ (
                record c { outstanding = some range },
                json_frame 2 (json.write_request ((pos range.0, pos range.1) ∷ [])) ∷ [],
              )
            ]
            | some v ↦ (c, [])
          ])
          ev
      ∙ ap
          (λ (x : List (ℕ × ℕ)). elim x as (λ y. DropReceiverCore Addr × List Bytes) [
            | [] ↦ (c, [])
            | range ∷ rest ↦ (
              record c { outstanding = some range },
              json_frame 2 (json.write_request ((pos range.0, pos range.1) ∷ [])) ∷ [],
            )
          ])
          er

  offered_ranges :
      (s : DropSenderCore Addr) (c : DropReceiverCore Addr)
      → IsSender sha256 s
      → Holding s c
      → ((k : ℕ)
          → Covers k (missing_ranges c) ↔ ((k < s.total_chunks) × (has_chunk k c.have_ ≡ false)))
        × Windows (missing_ranges c)
  unfolding offer_of
  offered_ranges s c v h = missing_ranges_iff c (offer_of s) h.offer v.small

  -- While chunks are lacking, the receiver asks for a window that starts and ends at chunks that
  -- it lacks.
  pub request_missing-some :
      (s : DropSenderCore Addr) (c : DropReceiverCore Addr) (a : Addr)
      → IsSender sha256 s
      → Holding s c
      → c.sender_addr ≡ some a
      → c.verified ≡ none
      → length c.have_ < s.total_chunks
      → (lo n : ℕ) × (lo + n < s.total_chunks)
        × (n < 64)
        × (has_chunk (lo + n) c.have_ ≡ false)
        × (request_missing json c ≡ (
          record c { outstanding = some (lo, lo + suc n) },
          json_frame 2 (json.write_request ((pos lo, pos (lo + suc n)) ∷ [])) ∷ [],
        ))
  request_missing-some s c a v h addr going lacking = first (missing_ranges c) refl
    where
      first :
          (rs : List (ℕ × ℕ))
          → missing_ranges c ≡ rs
          → (lo n : ℕ) × (lo + n < s.total_chunks)
            × (n < 64)
            × (has_chunk (lo + n) c.have_ ≡ false)
            × (request_missing json c ≡ (
              record c { outstanding = some (lo, lo + suc n) },
              json_frame 2 (json.write_request ((pos lo, pos (lo + suc n)) ∷ [])) ∷ [],
            ))
      first [] e =
          let (iff, windows) = offered_ranges s c v h in
          absurd (
            omega (
              arith,
              length_above s.total_chunks c.have_ (λ k lt. elim (Bool-cases (has_chunk k c.have_)) [
                | inl held ↦ held
                | inr free ↦ absurd (subst (Covers k) e ((iff k).1 (lt, free)))
              ]),
            ))
      first ((lo, hi) ∷ rest) e =
          let (iff, windows) = offered_ranges s c v h in
          let window : (lo < hi) × (hi ≤ lo + 64) = (subst Windows e windows).0 in
          let n : ℕ = hi - lo - 1 in
          let size : hi ≡ lo + suc n = omega arith in
          let last =
            (iff (lo + n)).0 (subst (Covers (lo + n)) (sym e) (inl (omega arith, omega arith))) in
          (
            lo,
            n,
            last.0,
            omega arith,
            last.1,
            request_missing_first c (lo, hi) rest (offer_of s) a h.offer addr going e
                ∙ ap
                    (λ (k : ℕ). (
                      record c { outstanding = some (lo, k) },
                      json_frame 2 (json.write_request ((pos lo, pos k) ∷ [])) ∷ [],
                    ))
                    size,
          )

  -- The sender answers such a request with exactly the chunks of the window, in order.
  pub request-chunk_frames :
      (d : Discrete Addr)
      → IsJson json
      → (s : DropSenderCore Addr) (from : Addr) (lo n : ℕ) → IsSender sha256 s
      → lo + n < s.total_chunks
      → n < 64
      → Sender.handle_frame json d s from
          (json_frame 2 (json.write_request ((pos lo, pos (lo + suc n)) ∷ [])))
        ≡ (s, chunk_frames (suc n) lo s.data_, none)
  unfolding Sender.handle_frame json_frame serve_all serve_range at_least_zero
  request-chunk_frames d ok s from lo n v lt few =
      let window : min (min (lo + suc n) s.total_chunks) (lo + 64) - lo ≡ suc n = omega arith in
      rw (ok.request lo (lo + suc n) (omega (arith, v.small)) (omega (arith, v.small)), window)
        (ap (λ (fs : List Bytes). (s, fs, none)) (append-nil (chunk_frames (suc n) lo s.data_)))
