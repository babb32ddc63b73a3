-- ===== src/Wire/Reassembler/Parts.antt =====
-- fragment.rs, the parts of one message: when as many are there as the message has, none is
-- missing, and `join` puts them together.
use telesthete.Base.{
  ℕ, zero, suc, ◌+◌, ◌≤◌, ◌<◌, ◌≡◌, inl, inr, refl, ap, subst, List, [], ◌∷◌, ◌++◌, length, none,
  some, ℕ_discrete, arith, Option-cases,
}
use telesthete.Base.Bytes.{Bytes}
use telesthete.Base.Maps.{find, remove, Distinct, remove-Distinct, find-remove}
use telesthete.Base.Maps.Weight.{Values, remove_absent, length-remove}
use telesthete.Wire.Reassembler.{join}

module _ {V : Type 0} where
  abbrev pub Below : ℕ → List (ℕ × V) → Type 0
  Below n = Values (λ i b. i < n)

  Below-remove : (n : ℕ) (m : List (ℕ × V)) → Below (suc n) m → Below n (remove ℕ_discrete n m)
  unfolding remove
  Below-remove n [] h = tt
  Below-remove n ((j, v) ∷ m) h = ground (arith, Below-remove n m h.1)

  length-le-remove :
      (n : ℕ) (m : List (ℕ × V))
      → Distinct ℕ_discrete m
      → length m ≤ length (remove ℕ_discrete n m) + 1
  length-le-remove n m d = elim (Option-cases (find ℕ_discrete n m)) [
    | inl e ↦ rw (remove_absent ℕ_discrete n m e) (omega arith)
    | inr (v, e) ↦ omega (arith, length-remove ℕ_discrete n v m d e)
  ]

  -- Distinct keys below `n` are at most `n`.
  pub length-le_Below :
      (n : ℕ) (m : List (ℕ × V)) → Distinct ℕ_discrete m → Below n m → length m ≤ n
  length-le_Below n [] d h = omega arith
  length-le_Below zero ((j, v) ∷ m) d h = absurd (omega (arith, h.0))
  length-le_Below (suc n) ((j, v) ∷ m) d h = omega (
    arith,
    length-le-remove n ((j, v) ∷ m) d,
    length-le_Below n (remove ℕ_discrete n ((j, v) ∷ m))
        (remove-Distinct ℕ_discrete n ((j, v) ∷ m) d) (Below-remove n ((j, v) ∷ m) h),
  )

  -- One fewer, if a key below `n` is missing.
  length-lt_missing :
      (n i : ℕ) (m : List (ℕ × V))
      → Distinct ℕ_discrete m
      → Below n m
      → i < n
      → find ℕ_discrete i m ≡ none
      → length m < n
  length-lt_missing zero i m d h lt e = absurd (omega arith)
  length-lt_missing (suc n) i m d h lt e =
      let m' = remove ℕ_discrete n m in
      let d' = remove-Distinct ℕ_discrete n m d in
      elim (ℕ_discrete i n) [
        | yes p ↦
            let same : m' ≡ m =
              remove_absent ℕ_discrete n m (subst (λ k. find ℕ_discrete k m ≡ none) p e) in
            omega (arith, length-le_Below n m' d' (Below-remove n m h), ap length same)
        | no p ↦
            let gone : find ℕ_discrete i m' ≡ none = ground (arith, find-remove ℕ_discrete n i m) in
            omega (
              arith,
              length-lt_missing n i m' d' (Below-remove n m h) (omega arith) gone,
              length-le-remove n m d,
            )
      ]

  pub find_full :
      (n i : ℕ) (m : List (ℕ × V))
      → Distinct ℕ_discrete m
      → Below n m
      → length m ≡ n
      → i < n
      → (v : V) × (find ℕ_discrete i m ≡ some v)
  find_full n i m d h full lt = elim (Option-cases (find ℕ_discrete i m)) [
    | inl e ↦ absurd (omega (arith, length-lt_missing n i m d h lt e))
    | inr found ↦ found
  ]

-- The parts from `i` on, in order.
pub data Joined (parts : List (ℕ × Bytes)) : ℕ → ℕ → Bytes → Type 0 where
  done : (i : ℕ) → Joined parts zero i []
  part :
      (rounds i : ℕ) (b bs : Bytes)
      → find ℕ_discrete i parts ≡ some b
      → Joined parts rounds (i + 1) bs
      → Joined parts (suc rounds) i (b ++ bs)

pub join_full :
    (rounds i : ℕ) (parts : List (ℕ × Bytes))
    → ((j : ℕ) → i ≤ j → j < i + rounds → (b : Bytes) × (find ℕ_discrete j parts ≡ some b))
    → (bs : Bytes) × (join rounds i parts ≡ some bs) × Joined parts rounds i bs
unfolding join
join_full zero i parts h = ([], refl, done i)
join_full (suc rounds) i parts h =
    let (b, e) = h i (omega arith) (omega arith) in
    let (bs, f, j) = join_full rounds (i + 1) parts (λ k lo hi. h k (omega arith) (omega arith)) in
    (b ++ bs, ground (arith, e, f), part rounds i b bs e j)
