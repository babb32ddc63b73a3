-- ===== src/Crypto/StandIn.antt =====
-- A cipher for examples: a tag of sixteen zeros before the message.
use telesthete.Base.{
  ℕ, zero, suc, ◌≡◌, refl, arith, [], ◌∷◌, ◌++◌, some, none, Option, replicate, ap, sym,
  length-append,
}
use telesthete.Base.Bytes.{Bytes}
use telesthete.Crypto.{Aead, IsAead}

unfoldable pub untag : ℕ → Bytes → Option Bytes
untag zero bs = some bs
untag (suc n) [] = none
untag (suc n) (zero ∷ bs) = untag n bs
untag (suc n) (suc b ∷ bs) = none

untag-replicate : (n : ℕ) (bs : Bytes) → untag n (replicate n 0 ++ bs) ≡ some bs
unfolding untag
untag-replicate zero bs = refl
untag-replicate (suc n) bs = untag-replicate n bs

untag-some : (n : ℕ) (c p : Bytes) → untag n c ≡ some p → c ≡ replicate n 0 ++ p
unfolding untag
untag-some zero bs p e = cc
untag-some (suc n) [] p e = cc
untag-some (suc n) (zero ∷ bs) p e = ap (◌∷◌ 0) (untag-some n bs p e)
untag-some (suc n) (suc b ∷ bs) p e = cc

abbrev pub toy : Aead
toy = record {
  seal = λ s k n aad p. some (replicate 16 0 ++ p);
  unseal = λ s k n aad c. untag 16 c;
}

pub toy-IsAead : IsAead toy
toy-IsAead = record {
  unseal-seal = λ s k n aad p c e. ground (arith, untag-replicate 16 p);
  seal-unseal = λ s k n aad p c e. ap some (sym (untag-some 16 c p e));
  length-seal = λ s k n aad p c e. ground (arith, length-append (replicate 16 0) p);
}
