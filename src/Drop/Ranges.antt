-- ===== src/Drop/Ranges.antt =====
-- drop_channel.rs, `missing_ranges`: what a receiver asks for.
use telesthete.Base.{
  inl, inr, ◌⊎◌, ◌↔◌, ℕ, zero, suc, ◌+◌, ◌-◌, ◌%◌, ◌^◌, ◌≤◌, ◌<◌, ◌≡◌, ap, ◌∙◌, List, [], ◌∷◌, ◌++◌,
  ltb, arith, Option, none, some, true, false, Bool-cases, All, All-append, ℕ_discrete, ltb→lt,
}
use telesthete.Base.Bytes.{Bytes}
use telesthete.Drop.{OfferPayload}
use telesthete.Drop.Receiver.{
  DropReceiverCore, has_chunk, split_run, close_run, scan, missing_ranges,
}

-- One of the ranges `[start, end)` holds the index.
abbrev pub Covers : ℕ → List (ℕ × ℕ) → Type 0
Covers k [] = ⊥
Covers k ((s, e) ∷ rs) = ((s ≤ k) × (k < e)) ⊎ Covers k rs

Covers-append : (k : ℕ) (xs ys : List (ℕ × ℕ)) → Covers k (xs ++ ys) ↔ (Covers k xs ⊎ Covers k ys)
Covers-append k [] ys = ((λ c. inr c), (λ c. ground arith))
Covers-append k ((s, e) ∷ xs) ys = ground (arith, Covers-append k xs ys)

split_run-Covers :
    (fuel s i k : ℕ)
    → i ≤ s + fuel
    → i + 64 ≤ 2 ^ 32
    → Covers k (split_run fuel s i) ↔ ((s ≤ k) × (k < i))
unfolding split_run
split_run-Covers zero s i k enough small = ground arith
split_run-Covers (suc fuel) s i k enough small = elim (Bool-cases (ltb s i)) [
  | inl more ↦
      let lt : s < i = ltb→lt s i more in
      let step : (s + 64) % 2 ^ 32 ≡ s + 64 = omega arith in
      rw (more, step) (ground (arith, split_run-Covers fuel (s + 64) i k))
  | inr done ↦ rw done (ground arith)
]

-- Each range is short and not empty.
abbrev pub IsWindow : ℕ × ℕ → Type 0
IsWindow r = (r.0 < r.1) × (r.1 ≤ r.0 + 64)

abbrev pub Windows : List (ℕ × ℕ) → Type 0
Windows = All IsWindow

split_run-Windows : (fuel s i : ℕ) → i + 64 ≤ 2 ^ 32 → Windows (split_run fuel s i)
unfolding split_run
split_run-Windows zero s i small = tt
split_run-Windows (suc fuel) s i small = elim (Bool-cases (ltb s i)) [
  | inl more ↦
      let lt : s < i = ltb→lt s i more in
      let step : (s + 64) % 2 ^ 32 ≡ s + 64 = omega arith in
      rw (more, step) ((omega (arith, lt), omega arith), split_run-Windows fuel (s + 64) i small)
  | inr done ↦ rw done tt
]

-- The index stands in the run that is open before `i`.
abbrev InRun : Option ℕ → ℕ → ℕ → Type 0
InRun none i k = ⊥
InRun (some r) i k = (r ≤ k) × (k < i)

-- The run was opened before `i`.
abbrev OpenedBefore : Option ℕ → ℕ → Type 0
OpenedBefore none i = Unit {0}
OpenedBefore (some r) i = r ≤ i

close_run-Covers :
    (run : Option ℕ) (i k : ℕ) → i + 64 ≤ 2 ^ 32 → Covers k (close_run run i) ↔ InRun run i k
unfolding close_run
close_run-Covers none i k small = ((λ c. c), (λ c. c))
close_run-Covers (some r) i k small = split_run-Covers (i - r) r i k (omega arith) small

close_run-Windows : (run : Option ℕ) (i : ℕ) → i + 64 ≤ 2 ^ 32 → Windows (close_run run i)
unfolding close_run
close_run-Windows none i small = tt
close_run-Windows (some r) i small = split_run-Windows (i - r) r i small

-- The index stands in the open run, or is lacking from `i` on.
abbrev Wanted : List (ℕ × Bytes) → ℕ → ℕ → Option ℕ → ℕ → Type 0
Wanted m left i run k = InRun run i k ⊎ ((i ≤ k) × (k < i + left) × (has_chunk k m ≡ false))

-- At a chunk that is there the open run ends.
held-Wanted :
    (m : List (ℕ × Bytes)) (left i : ℕ) (run : Option ℕ) (k : ℕ)
    → has_chunk i m ≡ true
    → (InRun run i k ⊎ Wanted m left (i + 1) none k) ↔ Wanted m (suc left) i run k
held-Wanted m left i run k held = elim (ℕ_discrete k i) [
  | yes e ↦ let here : has_chunk k m ≡ true = ap (λ j. has_chunk j m) e ∙ held in ground arith
  | no ne ↦ ground arith
]

-- At a chunk that is lacking a run opens, or goes on.
lacking-Wanted :
    (m : List (ℕ × Bytes)) (left i r : ℕ) (k : ℕ)
    → has_chunk i m ≡ false
    → r ≤ i
    → Wanted m left (i + 1) (some r) k
      ↔ (((r ≤ k) × (k < i)) ⊎ ((i ≤ k) × (k < i + suc left) × (has_chunk k m ≡ false)))
lacking-Wanted m left i r k lacking le = elim (ℕ_discrete k i) [
  | yes e ↦ let here : has_chunk k m ≡ false = ap (λ j. has_chunk j m) e ∙ lacking in ground arith
  | no ne ↦ ground arith
]

both_ways : {A B C D E F : Type 0} → A ↔ (B ⊎ C) → B ↔ D → C ↔ E → (D ⊎ E) ↔ F → A ↔ F
both_ways (ab, ba) (bd, db) (ce, ec) (df, fd) = (
  (λ a. df (elim (ab a) [ inl b ↦ inl (bd b) | inr c ↦ inr (ce c) ])),
  (λ f. ba (elim (fd f) [ inl d ↦ inl (db d) | inr e ↦ inr (ec e) ])),
)

then_ : {A B C : Type 0} → A ↔ B → B ↔ C → A ↔ C
then_ (ab, ba) (bc, cb) = ((λ a. bc (ab a)), (λ c. ba (cb c)))

scan-Covers_held :
    (m : List (ℕ × Bytes)) (left i : ℕ) (run : Option ℕ) (k : ℕ)
    → i + suc left + 64 ≤ 2 ^ 32
    → has_chunk i m ≡ true
    → Covers k (scan m left (i + 1) none) ↔ Wanted m left (i + 1) none k
    → Covers k (scan m (suc left) i run) ↔ Wanted m (suc left) i run k
unfolding scan
scan-Covers_held m left i run k small held ih = rw held (
    both_ways (Covers-append k (close_run run i) (scan m left (i + 1) none))
      (close_run-Covers run i k (omega arith)) ih (held-Wanted m left i run k held))

scan-Covers :
    (m : List (ℕ × Bytes)) (left i : ℕ) (run : Option ℕ) (k : ℕ)
    → i + left + 64 ≤ 2 ^ 32
    → OpenedBefore run i
    → Covers k (scan m left i run) ↔ Wanted m left i run k
unfolding scan
scan-Covers m zero i run k small before = ground (arith, close_run-Covers run i k)
scan-Covers m (suc left) i none k small before = elim (Bool-cases (has_chunk i m)) [
  | inl held ↦
      scan-Covers_held m left i none k (omega arith) held
        (scan-Covers m left (i + 1) none k (omega arith) tt)
  | inr lacking ↦ rw lacking (
      then_ (scan-Covers m left (i + 1) (some i) k (omega arith) (omega arith))
        (ground (arith, lacking-Wanted m left i i k lacking (omega arith))))
]
scan-Covers m (suc left) i (some r) k small before = elim (Bool-cases (has_chunk i m)) [
  | inl held ↦
      scan-Covers_held m left i (some r) k (omega arith) held
        (scan-Covers m left (i + 1) none k (omega arith) tt)
  | inr lacking ↦ rw lacking (
      then_ (scan-Covers m left (i + 1) (some r) k (omega arith) (omega (arith, before)))
        (lacking-Wanted m left i r k lacking before))
]

scan-Windows :
    (m : List (ℕ × Bytes)) (left i : ℕ) (run : Option ℕ)
    → i + left + 64 ≤ 2 ^ 32
    → Windows (scan m left i run)
unfolding scan
scan-Windows m zero i run small = close_run-Windows run i (omega arith)
scan-Windows m (suc left) i none small = elim (Bool-cases (has_chunk i m)) [
  | inl held ↦ rw held (
      All-append IsWindow (close_run none i) (scan m left (i + 1) none)
        (close_run-Windows none i (omega arith)) (scan-Windows m left (i + 1) none (omega arith)))
  | inr lacking ↦ rw lacking (scan-Windows m left (i + 1) (some i) (omega arith))
]
scan-Windows m (suc left) i (some r) small = elim (Bool-cases (has_chunk i m)) [
  | inl held ↦ rw held (
      All-append IsWindow (close_run (some r) i) (scan m left (i + 1) none)
        (close_run-Windows (some r) i (omega arith))
        (scan-Windows m left (i + 1) none (omega arith)))
  | inr lacking ↦ rw lacking (scan-Windows m left (i + 1) (some r) (omega arith))
]

-- For an offer of at most 2^32 - 64 chunks, the ranges that the receiver lists cover an index
-- exactly when it is below the number of chunks and its chunk is not held; each range has at
-- least one index and at most 64.
pub missing_ranges_iff :
    {Addr : Type 0} (c : DropReceiverCore Addr) (o : OfferPayload)
    → c.offer ≡ some o
    → o.total_chunks + 64 ≤ 2 ^ 32
    → ((k : ℕ)
        → Covers k (missing_ranges c) ↔ ((k < o.total_chunks) × (has_chunk k c.have_ ≡ false)))
      × Windows (missing_ranges c)
unfolding missing_ranges
missing_ranges_iff c o e small =
    let fits : o.total_chunks % 2 ^ 32 ≡ o.total_chunks = omega arith in
    rw (e, fits)
      (
        (λ k. then_ (scan-Covers c.have_ o.total_chunks 0 none k (omega arith) tt) (ground arith)),
        scan-Windows c.have_ o.total_chunks 0 none (omega arith),
      )
