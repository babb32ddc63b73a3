-- ===== src/Framing/Hex.antt =====
-- frame.rs: a band id as hexadecimal text, `band_hex` and `band_from_hex`.
use telesthete.Base.{
  ℕ, ◌+◌, ◌*◌, ◌-◌, ◌/◌, ◌%◌, ◌≤◌, ◌<◌, ◌≡◌, refl, ap, ◌∙◌, arith, inl, inr, Bool-cases,
  Option-cases, All, suc, zero, [], ◌∷◌, length, Option, some, none, ltb, leb, ◌==◌, ◌&&◌, ◌||◌,
  if◌then◌else◌, Bool, true, false,
}
use mathlib.Core.Option.{none-ne-some, some-injective}
use telesthete.Base.Bytes.{Bytes, AreBytes}
use telesthete.Base.Text.{Text, hex_digit}
use telesthete.Crypto.{band_id_len}

unfoldable pub band_hex : Bytes → Text
band_hex [] = []
band_hex (b ∷ bs) = hex_digit (b / 16) ∷ hex_digit (b % 16) ∷ band_hex bs

-- A digit of either case.
unfoldable pub hex_value : ℕ → Option ℕ
hex_value c =
    if leb 48 c && leb c 57
    then some (c - 48)
    else if leb 97 c && leb c 102
    then some (c - 87)
    else if leb 65 c && leb c 70
    then some (c - 55)
    else none

-- `u8::from_str_radix` on two bytes of text: a plus sign and a digit, or two digits.
unfoldable pub from_str_radix : ℕ → ℕ → Option ℕ
from_str_radix x y = if x == 43 then hex_value y else elim (hex_value x) [
  | none ↦ none
  | some high ↦ elim (hex_value y) [ none ↦ none | some low ↦ some (16 * high + low) ]
]

-- Whether a slice of a string may end before these bytes.
unfoldable pub is_char_boundary : Text → Bool
is_char_boundary [] = true
is_char_boundary (b ∷ bs) = ltb b 128 || leb 192 b

-- The outer `none` is a panic: a slice that ends inside a character.
unfoldable pub read_pairs : Text → Option (Option Bytes)
read_pairs [] = some (some [])
read_pairs (x ∷ []) = none
read_pairs (x ∷ y ∷ rest) =
    if is_char_boundary rest
    then elim (from_str_radix x y) [
      | none ↦ some none
      | some byte ↦ elim (read_pairs rest) [
        | none ↦ none
        | some none ↦ some none
        | some (some bytes) ↦ some (some (byte ∷ bytes))
      ]
    ]
    else none

unfoldable pub band_from_hex : Text → Option (Option Bytes)
band_from_hex s = if length s == band_id_len * 2 then read_pairs s else some none

hex_value-hex_digit : (n : ℕ) → n < 16 → hex_value (hex_digit n) ≡ some n
unfolding hex_value
hex_value-hex_digit n h = ground arith

hex_digit_bounds : (n : ℕ) → n < 16 → (44 ≤ hex_digit n) × (hex_digit n < 128)
hex_digit_bounds n h = ground arith

is_char_boundary-band_hex : (bs : Bytes) → AreBytes bs → is_char_boundary (band_hex bs) ≡ true
unfolding is_char_boundary band_hex
is_char_boundary-band_hex [] h = refl
is_char_boundary-band_hex (b ∷ bs) h =
    ground (arith, hex_digit_bounds (b / 16) (omega (arith, h.0)))

from_str_radix-digits :
    (x y high low : ℕ)
    → (x == 43) ≡ false
    → hex_value x ≡ some high
    → hex_value y ≡ some low
    → from_str_radix x y ≡ some (16 * high + low)
unfolding from_str_radix
from_str_radix-digits x y high low unsigned ex ey = rw (unsigned, ex, ey) refl

from_str_radix-hex_digit :
    (b : ℕ) → b < 256 → from_str_radix (hex_digit (b / 16)) (hex_digit (b % 16)) ≡ some b
from_str_radix-hex_digit b h =
    let high : b / 16 < 16 = omega arith in
    let low : b % 16 < 16 = omega arith in
    from_str_radix-digits _ _ (b / 16) (b % 16) (ground (arith, hex_digit_bounds (b / 16) high))
      (hex_value-hex_digit (b / 16) high) (hex_value-hex_digit (b % 16) low)
    ∙ ap some (omega arith)

read_pairs-band_hex : (bs : Bytes) → AreBytes bs → read_pairs (band_hex bs) ≡ some (some bs)
unfolding read_pairs band_hex
read_pairs-band_hex [] h = refl
read_pairs-band_hex (b ∷ bs) h =
    rw
      (is_char_boundary-band_hex bs h.1, from_str_radix-hex_digit b h.0, read_pairs-band_hex bs h.1)
      refl

length-band_hex : (bs : Bytes) → length (band_hex bs) ≡ length bs * 2
unfolding band_hex
length-band_hex [] = refl
length-band_hex (b ∷ bs) = omega (arith, length-band_hex bs)

-- A band id of 16 bytes that is written as text is read back from it, without a panic.
pub band_from_hex-band_hex :
    (band : Bytes)
    → AreBytes band
    → length band ≡ 16
    → band_from_hex (band_hex band) ≡ some (some band)
unfolding band_from_hex
band_from_hex-band_hex band h sized =
    let long : (length (band_hex band) == 32) ≡ true = ground (arith, length-band_hex band) in
    rw long (read_pairs-band_hex band h)

length-read_pairs :
    (s : Text) (band : Bytes) → read_pairs s ≡ some (some band) → length s ≡ length band * 2
unfolding read_pairs
length-read_pairs [] band e = ground arith
length-read_pairs (x ∷ []) band e = ground arith
length-read_pairs (x ∷ y ∷ rest) band e = elim (Bool-cases (is_char_boundary rest)) [
  | inr inside ↦ absurd (none-ne-some _ (rw inside at e))
  | inl ends ↦ elim (Option-cases (from_str_radix x y)) [
    | inl bad ↦ absurd (none-ne-some _ (some-injective _ _ (rw (ends, bad) at e)))
    | inr (byte, good) ↦ elim (Option-cases (read_pairs rest)) [
      | inl panics ↦ absurd (none-ne-some _ (rw (ends, good, panics) at e))
      | inr (none, refused) ↦
          absurd (none-ne-some _ (some-injective _ _ (rw (ends, good, refused) at e)))
      | inr (some more, taken) ↦
          let same : byte ∷ more ≡ band =
            some-injective _ _ (some-injective _ _ (rw (ends, good, taken) at e)) in
          omega (arith, length-read_pairs rest more taken, ap length same)
    ]
  ]
]

-- Text of another length is refused, and so is a pair that is no number: no band is made up. What
-- is read has 16 bytes.
pub band_from_hex-sized :
    (s : Text) (band : Bytes) → band_from_hex s ≡ some (some band) → length band ≡ 16
unfolding band_from_hex
band_from_hex-sized s band e = elim (Bool-cases (length s == 32)) [
  | inr other ↦ absurd (none-ne-some _ (some-injective _ _ (rw other at e)))
  | inl sized ↦ ground (arith, sized, length-read_pairs s band (rw sized at e))
]

read_pairs-ascii :
    (s : Text) (n : ℕ)
    → All (λ c. c < 128) s
    → length s ≡ n * 2
    → (r : Option Bytes) × (read_pairs s ≡ some r)
unfolding read_pairs is_char_boundary
read_pairs-ascii [] n h e = (some [], refl)
read_pairs-ascii (x ∷ []) zero h e = ground arith
read_pairs-ascii (x ∷ []) (suc n) h e = absurd (omega arith)
read_pairs-ascii (x ∷ y ∷ rest) zero h e = absurd (omega arith)
read_pairs-ascii (x ∷ y ∷ rest) (suc n) h e =
    let (r, taken) = read_pairs-ascii rest n h.1.1 (omega arith) in
    let ends : is_char_boundary rest ≡ true = boundary rest h.1.1 in
    elim (Option-cases (from_str_radix x y)) [
      | inl bad ↦ (none, rw (ends, bad) refl)
      | inr (byte, good) ↦ after byte r ends good taken
    ]
  where
    boundary : (t : Text) → All (λ c. c < 128) t → is_char_boundary t ≡ true
    boundary [] a = refl
    boundary (c ∷ cs) a = ground arith

    after :
        (byte : ℕ) (r : Option Bytes)
        → is_char_boundary rest ≡ true
        → from_str_radix x y ≡ some byte
        → read_pairs rest ≡ some r
        → (o : Option Bytes) × (read_pairs (x ∷ y ∷ rest) ≡ some o)
    after byte none ends good taken = (none, rw (ends, good, taken) refl)
    after byte (some more) ends good taken = (some (byte ∷ more), rw (ends, good, taken) refl)

-- ASCII text is never sliced inside a character, so reading it ends without a panic.
pub band_from_hex-ascii :
    (s : Text) → All (λ c. c < 128) s → (r : Option Bytes) × (band_from_hex s ≡ some r)
unfolding band_from_hex
band_from_hex-ascii s h = elim (Bool-cases (length s == 32)) [
  | inr other ↦ (none, rw other refl)
  | inl sized ↦
      let (r, taken) = read_pairs-ascii s 16 h (ground (arith, sized)) in (r, rw sized taken)
]
