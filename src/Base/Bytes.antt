-- ===== src/Base/Bytes.antt =====
-- Byte strings as lists of numbers, and big-endian integers: Rust's `to_be_bytes` and
-- `from_be_bytes` at every width.
use telesthete.Base.{
  ℕ, zero, suc, ◌+◌, ◌*◌, ◌/◌, ◌%◌, ◌^◌, ◌≤◌, ◌<◌, ◌≡◌, refl, sym, ap, ◌∙◌, List, [], ◌∷◌, ◌++◌,
  arith, length, length-append, All, All-append,
}
use mathlib.Core.Path.{ap₂}
use mathlib.Core.List.{reverse, reverse-cons, reverse-reverse}
use native.Mathlib.Nat.{
  pow-suc, pow-succ', div-one, div-div-eq-div-mul, div-eq_of_lt-le, mul-le-mul_right,
}

abbrev pub Bytes : Type 0
Bytes = List ℕ

abbrev pub IsByte : ℕ → Type 0
IsByte b = b < 256

abbrev pub AreBytes : Bytes → Type 0
AreBytes = All IsByte

-- The value read so far, and the bytes still to read.
from_be_acc : ℕ → Bytes → ℕ
from_be_acc acc [] = acc
from_be_acc acc (b ∷ bs) = from_be_acc (acc * 256 + b) bs

unfoldable pub from_be_bytes : Bytes → ℕ
unfolding from_be_acc
from_be_bytes = from_be_acc 0

-- `v` as `n` bytes, the most significant first; a larger `v` loses its top bytes.
unfoldable pub to_be_bytes : ℕ → ℕ → Bytes
to_be_bytes zero v = []
to_be_bytes (suc n) v = to_be_bytes n (v / 256) ++ (v % 256 ∷ [])

pub length-to_be_bytes : (n v : ℕ) → length (to_be_bytes n v) ≡ n
unfolding to_be_bytes
length-to_be_bytes zero v = refl
length-to_be_bytes (suc n) v =
    omega (
      arith,
      length-append (to_be_bytes n (v / 256)) (v % 256 ∷ []),
      length-to_be_bytes n (v / 256),
    )

pub to_be_bytes-AreBytes : (n v : ℕ) → AreBytes (to_be_bytes n v)
unfolding to_be_bytes
to_be_bytes-AreBytes zero v = tt
to_be_bytes-AreBytes (suc n) v =
    All-append IsByte (to_be_bytes n (v / 256)) (v % 256 ∷ []) (to_be_bytes-AreBytes n (v / 256))
      (omega arith, tt)

from_be_acc-snoc :
    (acc : ℕ) (bs : Bytes) (b : ℕ) → from_be_acc acc (bs ++ (b ∷ [])) ≡ from_be_acc acc bs * 256 + b
unfolding from_be_acc
from_be_acc-snoc acc [] b = refl
from_be_acc-snoc acc (x ∷ bs) b = from_be_acc-snoc (acc * 256 + x) bs b

pub from_be_bytes-to_be_bytes : (n v : ℕ) → v < 256 ^ n → from_be_bytes (to_be_bytes n v) ≡ v
unfolding from_be_bytes to_be_bytes
from_be_bytes-to_be_bytes zero v h = omega arith
from_be_bytes-to_be_bytes (suc n) v h =
    from_be_acc-snoc 0 (to_be_bytes n (v / 256)) (v % 256)
    ∙ omega
        (arith, from_be_bytes-to_be_bytes n (v / 256) (omega (arith, pow-suc 256 n)), pow-suc 256 n)

-- The leading byte of an encoding, and the rest of it.
to_be_bytes_head : (n v : ℕ) → to_be_bytes (suc n) v ≡ (v / 256 ^ n % 256) ∷ to_be_bytes n v
unfolding to_be_bytes
to_be_bytes_head zero v = ap (λ k. k % 256 ∷ []) (sym (div-one v))
to_be_bytes_head (suc n) v =
    ap (λ (bs : Bytes). bs ++ (v % 256 ∷ [])) (to_be_bytes_head n (v / 256))
    ∙ ap (λ k. k % 256 ∷ to_be_bytes (suc n) v)
        (div-div-eq-div-mul v 256 (256 ^ n) ∙ ap (λ k. v / k) (sym (pow-succ' 256 n)))

from_be_acc-bounds :
    (acc : ℕ) (bs : Bytes)
    → AreBytes bs
    → (acc * 256 ^ length bs ≤ from_be_acc acc bs)
      × (from_be_acc acc bs < (acc + 1) * 256 ^ length bs)
unfolding from_be_acc
from_be_acc-bounds acc [] h = (omega arith, omega arith)
from_be_acc-bounds acc (b ∷ bs) h =
    let (lo, hi) = from_be_acc-bounds (acc * 256 + b) bs h.1 in
    let step : 256 ^ length (b ∷ bs) ≡ 256 * 256 ^ length bs = pow-succ' 256 (length bs) in
    let small : b * 256 ^ length bs ≤ 255 * 256 ^ length bs =
      mul-le-mul_right (256 ^ length bs) (omega arith) in
    let scaled : acc * 256 ^ length (b ∷ bs) ≡ acc * (256 * 256 ^ length bs) =
      ap (λ (t : ℕ). acc * t) step in
    (omega arith, omega arith)

pub from_be_bytes-lt : (bs : Bytes) → AreBytes bs → from_be_bytes bs < 256 ^ length bs
unfolding from_be_bytes
from_be_bytes-lt bs h = omega (arith, (from_be_acc-bounds 0 bs h).1)

to_be_bytes-from_be_acc :
    (acc : ℕ) (bs : Bytes) → AreBytes bs → to_be_bytes (length bs) (from_be_acc acc bs) ≡ bs
unfolding from_be_acc
to_be_bytes-from_be_acc acc [] h = unfold to_be_bytes in refl
to_be_bytes-from_be_acc acc (b ∷ bs) h =
    let (lo, hi) = from_be_acc-bounds (acc * 256 + b) bs h.1 in
    let top : from_be_acc (acc * 256 + b) bs / 256 ^ length bs ≡ acc * 256 + b =
      div-eq_of_lt-le (256 ^ length bs) lo hi in
    to_be_bytes_head (length bs) (from_be_acc (acc * 256 + b) bs)
    ∙ ap₂ ◌∷◌ (ap (λ k. k % 256) top ∙ omega arith) (to_be_bytes-from_be_acc (acc * 256 + b) bs h.1)

-- Bytes that were read are written back unchanged.
pub to_be_bytes-from_be_bytes :
    (n : ℕ) (bs : Bytes) → length bs ≡ n → AreBytes bs → to_be_bytes n (from_be_bytes bs) ≡ bs
unfolding from_be_bytes
to_be_bytes-from_be_bytes n bs e h = rw (← e) (to_be_bytes-from_be_acc 0 bs h)

-- `to_le_bytes` and `from_le_bytes`.
unfoldable pub to_le_bytes : ℕ → ℕ → Bytes
to_le_bytes n v = reverse (to_be_bytes n v)

unfoldable pub from_le_bytes : Bytes → ℕ
from_le_bytes bs = from_be_bytes (reverse bs)

pub from_le_bytes-to_le_bytes : (n v : ℕ) → v < 256 ^ n → from_le_bytes (to_le_bytes n v) ≡ v
unfolding from_le_bytes to_le_bytes
from_le_bytes-to_le_bytes n v h =
    ap from_be_bytes (reverse-reverse (to_be_bytes n v)) ∙ from_be_bytes-to_be_bytes n v h

length-reverse : (bs : Bytes) → length (reverse bs) ≡ length bs
length-reverse [] = refl
length-reverse (b ∷ bs) =
    omega
      (arith, ap length (reverse-cons b bs), length-append (reverse bs) (b ∷ []), length-reverse bs)

pub length-to_le_bytes : (n v : ℕ) → length (to_le_bytes n v) ≡ n
unfolding to_le_bytes
length-to_le_bytes n v = length-reverse (to_be_bytes n v) ∙ length-to_be_bytes n v
