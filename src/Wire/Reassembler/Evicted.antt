-- ===== src/Wire/Reassembler/Evicted.antt =====
-- fragment.rs, `evict` and `gc`: the memory of evicted ids and the queue that bounds it.
use telesthete.Base.{
  ℕ, ◌≤◌, ◌≡◌, ◌⊎◌, inl, inr, refl, subst, List, [], ◌∷◌, ◌++◌, length, ltb, some, arith,
  Bool-cases, ltb→le,
}
use mathlib.Core.Path.{subst₂}
use telesthete.Base.Bytes.{Bytes}
use telesthete.Base.Maps.{find, insert, find-remove, find-insert, length-remove-le}
use telesthete.Base.Text.{Text-discrete}
use telesthete.Wire.Reassembler.{
  Reassembler, forget, trim_evicted, gc_evicted, expired, default_evicted_memory,
}

-- The queue holds an eviction of `k` at time `t`.
abbrev pub Queued : Bytes → ℕ → List (Bytes × ℕ) → Type 0
Queued k t [] = ⊥
Queued k t ((j, s) ∷ q) = ((j ≡ k) × (s ≡ t)) ⊎ Queued k t q

-- Each remembered id stands in the queue with its time, so the queue can forget it.
abbrev pub Covers : List (Bytes × ℕ) → List (Bytes × ℕ) → Type 0
Covers m q = (k : Bytes) (t : ℕ) → find Text-discrete k m ≡ some t → Queued k t q

Queued-snoc :
    (k j : Bytes) (t s : ℕ) (q : List (Bytes × ℕ)) → Queued k t q → Queued k t (q ++ ((j, s) ∷ []))
Queued-snoc k j t s [] h = absurd h
Queued-snoc k j t s ((i, u) ∷ q) (inl h) = inl h
Queued-snoc k j t s ((i, u) ∷ q) (inr h) = inr (Queued-snoc k j t s q h)

Queued-last : (k : Bytes) (t : ℕ) (q : List (Bytes × ℕ)) → Queued k t (q ++ ((k, t) ∷ []))
Queued-last k t [] = inl (refl, refl)
Queued-last k t ((i, u) ∷ q) = inr (Queued-last k t q)

pub Covers-insert :
    (fid : Bytes) (now : ℕ) (m q : List (Bytes × ℕ))
    → Covers m q
    → Covers (insert Text-discrete fid now m) (q ++ ((fid, now) ∷ []))
Covers-insert fid now m q h k t e = elim (Text-discrete fid k) [
  | yes p ↦
      let same : now ≡ t = ground (arith, find-insert Text-discrete fid k now m) in
      subst₂ (λ (x : Bytes) (s : ℕ). Queued x s (q ++ ((fid, now) ∷ []))) p same
        (Queued-last fid now q)
  | no p ↦ Queued-snoc k fid t now q (h k t (ground (arith, find-insert Text-discrete fid k now m)))
]

length-forget : (fid : Bytes) (at : ℕ) (m : List (Bytes × ℕ)) → length (forget fid at m) ≤ length m
unfolding forget
length-forget fid at m = ground (arith, length-remove-le Text-discrete fid m)

-- What is still remembered was remembered before, and is not the entry that was forgotten.
find-forget :
    (fid k : Bytes) (at t : ℕ) (m : List (Bytes × ℕ))
    → find Text-discrete k (forget fid at m) ≡ some t
    → (find Text-discrete k m ≡ some t) × ¬ ((fid ≡ k) × (at ≡ t))
unfolding forget
find-forget fid k at t m e = elim (Text-discrete fid k) [
  | yes p ↦
      subst
        (λ (x : Bytes).
          find Text-discrete x (forget fid at m) ≡ some t
          → (find Text-discrete x m ≡ some t) × ¬ ((fid ≡ x) × (at ≡ t)))
        p here e
  | no p ↦ (ground (arith, find-remove Text-discrete fid k m), λ c. p c.0)
]
  where
    here :
        find Text-discrete fid (forget fid at m) ≡ some t
        → (find Text-discrete fid m ≡ some t) × ¬ ((fid ≡ fid) × (at ≡ t))
    here = ground (arith, find-remove Text-discrete fid fid m)

Covers-forget :
    (fid : Bytes) (at : ℕ) (m q : List (Bytes × ℕ))
    → Covers m ((fid, at) ∷ q)
    → Covers (forget fid at m) q
Covers-forget fid at m q h k t e =
    let (old, differs) = find-forget fid k at t m e in
    elim (h k t old) [ inl same ↦ absurd (differs same) | inr later ↦ later ]

find_head : (k : Bytes) (t : ℕ) (m : List (Bytes × ℕ)) → find Text-discrete k ((k, t) ∷ m) ≡ some t
unfolding find
find_head k t m = ground arith

-- A map that an empty queue covers is empty.
Covers-nil : (m : List (Bytes × ℕ)) → Covers m [] → length m ≡ 0
Covers-nil [] h = refl
Covers-nil ((k, t) ∷ m) h = absurd (h k t (find_head k t m))

pub trim_evicted-Covers :
    (m q : List (Bytes × ℕ))
    → Covers m q
    → Covers (trim_evicted m q).0 (trim_evicted m q).1
      × (length (trim_evicted m q).0 ≤ default_evicted_memory)
unfolding trim_evicted
trim_evicted-Covers m [] h = (h, omega (arith, Covers-nil m h))
trim_evicted-Covers m ((old, at) ∷ q) h =
    elim (Bool-cases (ltb default_evicted_memory (length m))) [
      | inl more ↦ rw more (trim_evicted-Covers (forget old at m) q (Covers-forget old at m q h))
      | inr done ↦ rw done (h, ltb→le _ _ done)
    ]

pub gc_evicted-Covers :
    (r : Reassembler) (now : ℕ) (m q : List (Bytes × ℕ))
    → Covers m q
    → Covers (gc_evicted r now m q).0 (gc_evicted r now m q).1
      × (length (gc_evicted r now m q).0 ≤ length m)
unfolding gc_evicted
gc_evicted-Covers r now m [] h = (h, omega arith)
gc_evicted-Covers r now m ((fid, at) ∷ q) h = elim (Bool-cases (expired r now at)) [
  | inl old ↦
      let (c, l) = gc_evicted-Covers r now (forget fid at m) q (Covers-forget fid at m q h) in
      rw old (c, omega (arith, length-forget fid at m))
  | inr fresh ↦ rw fresh (h, omega arith)
]
