-- ===== src/Base/Bits.antt =====
-- Facts about bit operations on a byte, each a table checked by evaluation.
use telesthete.Base.{
  ℕ, zero, suc, ◌<◌, ◌≡◌, refl, bit_or, Bool, true, false, ite, ℕ_discrete, arith,
}

module _ (f g : ℕ → ℕ) where
  agree_below : ℕ → Bool
  unfolding ℕ_discrete
  agree_below zero = true
  agree_below (suc n) = ite (ℕ_discrete (f n) (g n)) (agree_below n) false

  agree_below→eq : (n : ℕ) → agree_below n ≡ true → (i : ℕ) → i < n → f i ≡ g i
  unfolding agree_below
  agree_below→eq zero e i h = absurd (omega arith)
  agree_below→eq (suc n) e i h = ground (arith, agree_below→eq n (ground arith) i)

-- A byte has no bit outside the eight.
pub bit_or_all : (b : ℕ) → b < 256 → bit_or b 0xff ≡ 0xff
unfolding agree_below
bit_or_all = agree_below→eq _ _ 256 refl
