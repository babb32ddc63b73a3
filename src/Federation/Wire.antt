-- ===== src/Federation/Wire.antt =====
-- federation.rs: the messages of a link are read as they were written.
use telesthete.Base.{
  take_all, inl, inr, ℕ, ◌+◌, ◌%◌, ◌^◌, ◌≤◌, ◌<◌, ◌≡◌, refl, sym, ap, ◌∙◌, min, List, [], ◌∷◌, ◌++◌,
  length, take, drop, slice, ltb, ◌==◌, ◌||◌, some, Bool, true, false, arith, All, length-append,
  take-append, drop-append, drop-append_past, append_assoc, le→ltb, Bool-cases, append-nil,
}
use mathlib.Core.Option.{none-ne-some, some-injective}
use telesthete.Base.Bytes.{
  Bytes, to_be_bytes, from_be_bytes, length-to_be_bytes, from_be_bytes-to_be_bytes,
}
use telesthete.Base.Results.{ok}
use telesthete.Base.Text.{text_eq, text_eq-true}
use telesthete.Federation.{
  max_msg, write_msg, read_msg, band_bytes, encode_bands, contains, add_band, read_bands,
  decode_bands, relay_payload, parse_relay,
}

-- What `write_msg` wrote for a payload shorter than 2^32 - 1 bytes.
write_msg-some :
    (t : ℕ) (payload bytes : Bytes)
    → length payload + 1 < 2 ^ 32
    → write_msg t payload ≡ some bytes
    → (length payload + 1 ≤ max_msg) × (bytes ≡ to_be_bytes 4 (1 + length payload) ++ (t ∷ payload))
unfolding write_msg
write_msg-some t payload bytes small e =
    let fits : (1 + length payload) % 2 ^ 32 ≡ 1 + length payload = omega arith in
    elim (Bool-cases (ltb max_msg (1 + length payload))) [
      | inl large ↦ absurd (none-ne-some _ (rw (fits, large) at e))
      | inr enough ↦ (ground arith, sym (some-injective _ _ (rw (fits, enough) at e)))
    ]

-- A message that was written is read back, and the rest of the stream is left as it is.
pub read_msg-write_msg :
    (t : ℕ) (payload bytes rest : Bytes)
    → length payload + 1 < 2 ^ 32
    → write_msg t payload ≡ some bytes
    → read_msg (bytes ++ rest) ≡ ok ((t, payload), rest)
unfolding read_msg
read_msg-write_msg t payload bytes rest small e =
    let (fits, shape) = write_msg-some t payload bytes small e in
    let n : ℕ = 1 + length payload in
    let head : Bytes = to_be_bytes 4 n in
    let four : length head ≡ 4 = length-to_be_bytes 4 n in
    let whole : bytes ++ rest ≡ head ++ (t ∷ (payload ++ rest)) =
      ap (λ b. b ++ rest) shape ∙ append_assoc head (t ∷ payload) rest in
    let size : length (head ++ (t ∷ (payload ++ rest))) ≡ 5 + length payload + length rest =
      omega (arith, length-append head (t ∷ (payload ++ rest)), length-append payload rest) in
    let long : ltb (length (head ++ (t ∷ (payload ++ rest)))) 4 ≡ false =
      le→ltb _ _ (omega arith) in
    let len : from_be_bytes (take 4 (head ++ (t ∷ (payload ++ rest)))) ≡ n =
      ap from_be_bytes (take-append 4 head (t ∷ (payload ++ rest)) four)
      ∙ from_be_bytes-to_be_bytes 4 n (omega arith) in
    let good : ((n == 0) || ltb max_msg n) ≡ false = ground arith in
    let here : ltb (length (head ++ (t ∷ (payload ++ rest)))) (4 + n) ≡ false =
      le→ltb _ _ (omega arith) in
    let body : take n (drop 4 (head ++ (t ∷ (payload ++ rest)))) ≡ t ∷ payload =
      ap (take n) (drop-append 4 head (t ∷ (payload ++ rest)) four)
      ∙ take-append n (t ∷ payload) rest (omega arith) in
    let after : drop (4 + n) (head ++ (t ∷ (payload ++ rest))) ≡ rest =
      drop-append_past 4 n head (t ∷ (payload ++ rest)) four
      ∙ drop-append n (t ∷ payload) rest (omega arith) in
    rw (whole, long, len, good, here, body, after) refl

pub parse_relay-relay_payload :
    (band frame : Bytes)
    → length band ≡ 16
    → length frame < 2 ^ 32
    → (parse_relay (relay_payload band frame) ≡ some (band, frame))
      × (length (relay_payload band frame) ≡ 20 + length frame)
unfolding parse_relay relay_payload
parse_relay-relay_payload band frame b small =
    let tail : Bytes = to_be_bytes 4 (length frame) ++ frame in
    let four : length (to_be_bytes 4 (length frame)) ≡ 4 = length-to_be_bytes 4 (length frame) in
    let size : length (band ++ tail) ≡ 20 + length frame =
      omega (arith, length-append band tail, length-append (to_be_bytes 4 (length frame)) frame) in
    let flen : from_be_bytes (slice 16 20 (band ++ tail)) ≡ length frame =
      ap (λ bs. from_be_bytes (take 4 bs)) (drop-append 16 band tail b)
      ∙ ap from_be_bytes (take-append 4 (to_be_bytes 4 (length frame)) frame four)
      ∙ from_be_bytes-to_be_bytes 4 (length frame) (omega arith) in
    let long : ltb (length (band ++ tail)) 20 ≡ false = le→ltb _ _ (omega arith) in
    let whole : ltb (length (band ++ tail)) (20 + length frame) ≡ false =
      le→ltb _ _ (omega arith) in
    let body : slice 20 (20 + length frame) (band ++ tail) ≡ frame =
      ap (λ n. take n (drop 20 (band ++ tail))) (omega arith)
      ∙ ap (take (length frame)) (
          drop-append_past 16 4 band tail b
          ∙ drop-append 4 (to_be_bytes 4 (length frame)) frame four)
      ∙ ap (take (length frame)) (sym (append-nil frame))
      ∙ take-append (length frame) frame [] refl in
    (rw (long, flen, whole, take-append 16 band tail b, body) refl, size)

swap : (a b c : Bool) → (a || (b || c)) ≡ ((b || a) || c)
swap true true c = refl
swap true false c = refl
swap false true c = refl
swap false false c = refl

or_false : (a : Bool) → (a || false) ≡ a
or_false true = refl
or_false false = refl

add_band-contains :
    (x b : Bytes) (set : List Bytes) → contains x (add_band b set) ≡ (text_eq x b || contains x set)
unfolding add_band contains
add_band-contains x b set = elim (Bool-cases (contains b set)) [
  | inr new ↦ rw new refl
  | inl held ↦ elim (Bool-cases (text_eq x b)) [
    | inl same ↦ rw (held, same) (ap (λ y. contains y set) (text_eq-true x b same) ∙ held)
    | inr other ↦ rw (held, other) refl
  ]
]

read_bands-contains :
    (x : Bytes) (bands set : List Bytes)
    → All (λ b. length b ≡ 16) bands
    → contains x (read_bands (length bands) (band_bytes bands) set)
      ≡ (contains x bands || contains x set)
unfolding read_bands band_bytes contains
read_bands-contains x [] set sized = refl
read_bands-contains x (b ∷ bs) set sized =
    let long : ltb (length (b ++ band_bytes bs)) 16 ≡ false =
      le→ltb _ _ (omega (arith, length-append b (band_bytes bs), sized.0)) in
    rw (long, take-append 16 b (band_bytes bs) sized.0, drop-append 16 b (band_bytes bs) sized.0)
      (read_bands-contains x bs (add_band b set) sized.1
        ∙ ap (λ (t : Bool). contains x bs || t) (add_band-contains x b set)
        ∙ swap (contains x bs) (text_eq x b) (contains x set))

-- The set of bands that a hub reads from a BANDS message holds exactly the bands that the other
-- hub advertised, if they are at most 65535 ids of 16 bytes.
pub decode_bands-encode_bands :
    (bands : List Bytes) (x : Bytes)
    → All (λ b. length b ≡ 16) bands
    → length bands ≤ 65535
    → contains x (decode_bands (encode_bands bands)) ≡ contains x bands
unfolding decode_bands encode_bands
decode_bands-encode_bands bands x sized few =
    let n : min (length bands) 65535 ≡ length bands = omega arith in
    let two : length (to_be_bytes 2 (length bands)) ≡ 2 = length-to_be_bytes 2 (length bands) in
    let long : ltb (length (to_be_bytes 2 (length bands) ++ band_bytes bands)) 2 ≡ false =
      le→ltb _ _ (omega (arith, length-append (to_be_bytes 2 (length bands)) (band_bytes bands))) in
    rw
      (
        n,
        take_all 65535 bands few,
        long,
        take-append 2 (to_be_bytes 2 (length bands)) (band_bytes bands) two,
        drop-append 2 (to_be_bytes 2 (length bands)) (band_bytes bands) two,
        from_be_bytes-to_be_bytes 2 (length bands) (omega arith),
      )
      (read_bands-contains x bands [] sized ∙ unfold contains in or_false (contains x bands))
