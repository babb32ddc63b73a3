-- ===== src/Base/Maps.antt =====
-- Rust's `HashMap` and `BTreeMap` as association lists over keys with decidable equality.
-- An insert replaces the entry of its key where it stands, or adds one at the end.
pub mod Weight
use telesthete.Base.{
  ℕ, zero, suc, ◌+◌, ◌≤◌, ◌≡◌, refl, ite, List, [], ◌∷◌, Option, none, some, Bool, true, false,
  if◌then◌else◌, arith, length, inl, inr, sym, Option-cases,
}
use mathlib.Core.Bool.{false≢true}

module _ {ℓ} {K V : Type ℓ} where
  -- `retain`: the entries that pass the test.
  unfoldable pub retain : (K → V → Bool) → List (K × V) → List (K × V)
  retain keep [] = []
  retain keep ((k, v) ∷ m) = if keep k v then (k, v) ∷ retain keep m else retain keep m

  pub length-retain-le :
      (keep : K → V → Bool) (m : List (K × V)) → length (retain keep m) ≤ length m
  unfolding retain
  length-retain-le keep [] = omega arith
  length-retain-le keep ((k, v) ∷ m) = ground (arith, length-retain-le keep m)

module _ {ℓ} {K V : Type ℓ} (d : Discrete K) where
  unfoldable pub find : K → List (K × V) → Option V
  find k [] = none
  find k ((j, v) ∷ m) = ite (d j k) (some v) (find k m)

  -- `contains_key`.
  unfoldable pub has : K → List (K × V) → Bool
  has k m = elim (find k m) [ none ↦ false | some v ↦ true ]

  unfoldable pub insert : K → V → List (K × V) → List (K × V)
  insert k v [] = (k, v) ∷ []
  insert k v ((j, w) ∷ m) = ite (d j k) ((k, v) ∷ m) ((j, w) ∷ insert k v m)

  unfoldable pub remove : K → List (K × V) → List (K × V)
  remove k [] = []
  remove k ((j, w) ∷ m) = ite (d j k) (remove k m) ((j, w) ∷ remove k m)

  -- `get_mut`: change the value of a key that is there.
  unfoldable pub modify : K → (V → V) → List (K × V) → List (K × V)
  modify k f [] = []
  modify k f ((j, w) ∷ m) = ite (d j k) ((j, f w) ∷ m) ((j, w) ∷ modify k f m)

  pub has-find : (k : K) (m : List (K × V)) → has k m ≡ false → find k m ≡ none
  unfolding has
  has-find k m h = elim (Option-cases (find k m)) [
    | inl e ↦ e
    | inr (v, e) ↦ absurd (false≢true (rw (e, has) at (sym h)))
  ]

  pub has-some : (k : K) (m : List (K × V)) {v : V} → find k m ≡ some v → has k m ≡ true
  unfolding has
  has-some k m e = rw (e, has)

  pub has-none : (k : K) (m : List (K × V)) → find k m ≡ none → has k m ≡ false
  unfolding has
  has-none k m e = rw (e, has)

  pub find-insert :
      (k q : K) (v : V) (m : List (K × V)) → find q (insert k v m) ≡ ite (d k q) (some v) (find q m)
  unfolding find insert
  find-insert k q v [] = refl
  find-insert k q v ((j, w) ∷ m) = ground (arith, find-insert k q v m)

  pub find-remove : (k q : K) (m : List (K × V)) → find q (remove k m) ≡ ite (d k q) none (find q m)
  unfolding find remove
  find-remove k q [] = ground arith
  find-remove k q ((j, w) ∷ m) = ground (arith, find-remove k q m)

  -- A test on keys alone keeps the values of the keys that pass.
  pub find-retain_key :
      (keep : K → Bool) (q : K) (m : List (K × V))
      → find q (retain (λ k v. keep k) m) ≡ (if keep q then find q m else none)
  unfolding find retain
  find-retain_key keep q [] = ground arith
  find-retain_key keep q ((j, w) ∷ m) = ground (arith, find-retain_key keep q m)

  pub length-insert-le : (k : K) (v : V) (m : List (K × V)) → length (insert k v m) ≤ length m + 1
  unfolding insert
  length-insert-le k v [] = omega arith
  length-insert-le k v ((j, w) ∷ m) = ground (arith, length-insert-le k v m)

  pub length-remove-le : (k : K) (m : List (K × V)) → length (remove k m) ≤ length m
  unfolding remove
  length-remove-le k [] = omega arith
  length-remove-le k ((j, w) ∷ m) = ground (arith, length-remove-le k m)

  pub length-remove_found :
      (k : K) (v : V) (m : List (K × V)) → find k m ≡ some v → length (remove k m) + 1 ≤ length m
  unfolding find remove
  length-remove_found k v [] h = ground arith
  length-remove_found k v ((j, w) ∷ m) h =
      ground (arith, length-remove_found k v m, length-remove-le k m)

  pub length-modify : (k : K) (f : V → V) (m : List (K × V)) → length (modify k f m) ≡ length m
  unfolding modify
  length-modify k f [] = refl
  length-modify k f ((j, w) ∷ m) = ground (arith, length-modify k f m)

  -- Each key stands once.
  abbrev pub Distinct : List (K × V) → Type ℓ
  Distinct [] = Unit {ℓ}
  Distinct ((k, v) ∷ m) = (find k m ≡ none) × Distinct m

  pub insert-Distinct : (k : K) (v : V) (m : List (K × V)) → Distinct m → Distinct (insert k v m)
  unfolding insert find
  insert-Distinct k v [] h = (refl, tt)
  insert-Distinct k v ((j, w) ∷ m) h =
      ground (arith, insert-Distinct k v m h.1, find-insert k j v m)

  pub remove-Distinct : (k : K) (m : List (K × V)) → Distinct m → Distinct (remove k m)
  unfolding remove
  remove-Distinct k [] h = tt
  remove-Distinct k ((j, w) ∷ m) h = ground (arith, remove-Distinct k m h.1, find-remove k j m)

  find-retain-none :
      (keep : K → V → Bool) (q : K) (m : List (K × V))
      → find q m ≡ none
      → find q (retain keep m) ≡ none
  unfolding retain find
  find-retain-none keep q [] h = refl
  find-retain-none keep q ((j, w) ∷ m) h = ground (arith, find-retain-none keep q m)

  pub retain-Distinct :
      (keep : K → V → Bool) (m : List (K × V)) → Distinct m → Distinct (retain keep m)
  unfolding retain
  retain-Distinct keep [] h = tt
  retain-Distinct keep ((j, w) ∷ m) h =
      ground (arith, retain-Distinct keep m h.1, find-retain-none keep j m)

  find-modify-none :
      (k q : K) (f : V → V) (m : List (K × V)) → find q m ≡ none → find q (modify k f m) ≡ none
  unfolding find modify
  find-modify-none k q f [] h = refl
  find-modify-none k q f ((j, w) ∷ m) h = ground (arith, find-modify-none k q f m)

  pub modify-Distinct :
      (k : K) (f : V → V) (m : List (K × V)) → Distinct m → Distinct (modify k f m)
  unfolding modify
  modify-Distinct k f [] h = tt
  modify-Distinct k f ((j, w) ∷ m) h =
      ground (arith, modify-Distinct k f m h.1, find-modify-none k j f m)
