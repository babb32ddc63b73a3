-- ===== src/Base/Maps/Weight.antt =====
-- Sums and predicates over the values of a map.
use telesthete.Base.{ℕ, ◌+◌, ◌≤◌, ◌≡◌, refl, List, [], ◌∷◌, none, some, arith, length, Bool, subst}
use telesthete.Base.Maps.{find, insert, remove, modify, retain, Distinct}

module _ {ℓ} {K V : Type ℓ} where
  unfoldable pub weight : (V → ℕ) → List (K × V) → ℕ
  weight f [] = 0
  weight f ((k, v) ∷ m) = f v + weight f m

  abbrev pub Values : (K → V → Type ℓ) → List (K × V) → Type ℓ
  Values P [] = Unit {ℓ}
  Values P ((k, v) ∷ m) = P k v × Values P m

  pub retain-Values :
      (P : K → V → Type ℓ) (keep : K → V → Bool) (m : List (K × V))
      → Values P m
      → Values P (retain keep m)
  unfolding retain
  retain-Values P keep [] h = tt
  retain-Values P keep ((j, w) ∷ m) h = ground (arith, retain-Values P keep m h.1)

  pub weight-retain-le :
      (f : V → ℕ) (keep : K → V → Bool) (m : List (K × V)) → weight f (retain keep m) ≤ weight f m
  unfolding weight retain
  weight-retain-le f keep [] = omega arith
  weight-retain-le f keep ((j, w) ∷ m) = ground (arith, weight-retain-le f keep m)

module _ {ℓ} {K V : Type ℓ} (d : Discrete K) where
  pub remove_absent : (k : K) (m : List (K × V)) → find d k m ≡ none → remove d k m ≡ m
  unfolding find remove
  remove_absent k [] h = refl
  remove_absent k ((j, w) ∷ m) h = ground (arith, remove_absent k m)

  pub weight-remove :
      (f : V → ℕ) (k : K) (v : V) (m : List (K × V))
      → Distinct d m
      → find d k m ≡ some v
      → weight f (remove d k m) + f v ≡ weight f m
  unfolding weight find remove
  weight-remove f k v [] h e = ground arith
  weight-remove f k v ((j, w) ∷ m) h e =
      ground (arith, weight-remove f k v m h.1, remove_absent k m)

  pub weight-insert :
      (f : V → ℕ) (k : K) (v w : V) (m : List (K × V))
      → find d k m ≡ some v
      → weight f (insert d k w m) + f v ≡ weight f m + f w
  unfolding weight find insert
  weight-insert f k v w [] e = ground arith
  weight-insert f k v w ((j, x) ∷ m) e = ground (arith, weight-insert f k v w m)

  pub weight-insert_new :
      (f : V → ℕ) (k : K) (w : V) (m : List (K × V))
      → find d k m ≡ none
      → weight f (insert d k w m) ≡ weight f m + f w
  unfolding weight find insert
  weight-insert_new f k w [] e = omega arith
  weight-insert_new f k w ((j, x) ∷ m) e = ground (arith, weight-insert_new f k w m)

  pub length-insert :
      (k : K) (v w : V) (m : List (K × V))
      → find d k m ≡ some v
      → length (insert d k w m) ≡ length m
  unfolding find insert
  length-insert k v w [] e = ground arith
  length-insert k v w ((j, x) ∷ m) e = ground (arith, length-insert k v w m)

  pub length-insert_new :
      (k : K) (w : V) (m : List (K × V))
      → find d k m ≡ none
      → length (insert d k w m) ≡ length m + 1
  unfolding find insert
  length-insert_new k w [] e = omega arith
  length-insert_new k w ((j, x) ∷ m) e = ground (arith, length-insert_new k w m)

  pub length-remove :
      (k : K) (v : V) (m : List (K × V))
      → Distinct d m
      → find d k m ≡ some v
      → length (remove d k m) + 1 ≡ length m
  unfolding find remove
  length-remove k v [] h e = ground arith
  length-remove k v ((j, w) ∷ m) h e = ground (arith, length-remove k v m h.1, remove_absent k m)

  pub find-Values :
      (P : K → V → Type ℓ) (k : K) (v : V) (m : List (K × V))
      → Values P m
      → find d k m ≡ some v
      → P k v
  unfolding find
  find-Values P k v [] h e = absurd (ground arith)
  find-Values P k v ((j, w) ∷ m) h e = elim (d j k) [
    | yes p ↦ subst (λ x. P x v) p (subst (P j) (ground arith) h.0)
    | no p ↦ find-Values P k v m h.1 (ground arith)
  ]

  pub insert-Values :
      (P : K → V → Type ℓ) (k : K) (v : V) (m : List (K × V))
      → P k v
      → Values P m
      → Values P (insert d k v m)
  unfolding insert
  insert-Values P k v [] p h = (p, tt)
  insert-Values P k v ((j, w) ∷ m) p h = ground (arith, insert-Values P k v m p h.1)

  pub remove-Values :
      (P : K → V → Type ℓ) (k : K) (m : List (K × V)) → Values P m → Values P (remove d k m)
  unfolding remove
  remove-Values P k [] h = tt
  remove-Values P k ((j, w) ∷ m) h = ground (arith, remove-Values P k m h.1)

  pub remove-insert :
      (k : K) (v : V) (m : List (K × V)) → remove d k (insert d k v m) ≡ remove d k m
  unfolding insert remove
  remove-insert k v [] = ground arith
  remove-insert k v ((j, w) ∷ m) = ground (arith, remove-insert k v m)

  pub modify-Values :
      (P : K → V → Type ℓ) (k : K) (f : V → V) (m : List (K × V))
      → ((j : K) (v : V) → P j v → P j (f v))
      → Values P m
      → Values P (modify d k f m)
  unfolding modify
  modify-Values P k f [] keeps h = tt
  modify-Values P k f ((j, w) ∷ m) keeps h =
      ground (arith, modify-Values P k f m keeps h.1, keeps j w h.0)
