-- ===== src/Drop/Content.antt =====
-- drop_channel.rs: what the chunks of a file hold, and what a receiver that has them all holds.
use telesthete.Base.{
  take_all, inl, inr, ℕ, zero, suc, ◌+◌, ◌-◌, ◌*◌, ◌≤◌, ◌<◌, ◌≡◌, refl, sym, ap, ◌∙◌, min, max,
  List, [], ◌∷◌, ◌++◌, length, take, drop, leb, arith, none, some, false, Option-cases, Bool-cases,
  All, ℕ_discrete, dec_le, length-drop, leb→le, drop-drop,
}
use telesthete.Base.Bytes.{Bytes}
use telesthete.Base.Maps.{find, insert, remove, Distinct, insert-Distinct, remove-Distinct}
use telesthete.Drop.Sender.{chunk_of, div_ceil}
use telesthete.Drop.Receiver.{gather}

-- Each key of a map from indexes is below `n`.
abbrev pub Below : ℕ → List (ℕ × Bytes) → Type 0
Below n = All (λ p. p.0 < n)

remove-Below : (n : ℕ) (m : List (ℕ × Bytes)) → Below (suc n) m → Below n (remove ℕ_discrete n m)
unfolding remove
remove-Below n [] h = tt
remove-Below n ((j, b) ∷ m) h = ground (arith, remove-Below n m h.1)

remove_absent :
    (n : ℕ) (m : List (ℕ × Bytes)) → find ℕ_discrete n m ≡ none → remove ℕ_discrete n m ≡ m
unfolding find remove
remove_absent n [] h = refl
remove_absent n ((j, b) ∷ m) h = ground (arith, remove_absent n m)

length-remove_most :
    (n : ℕ) (m : List (ℕ × Bytes))
    → Distinct ℕ_discrete m
    → length m ≤ length (remove ℕ_discrete n m) + 1
unfolding remove
length-remove_most n [] h = omega arith
length-remove_most n ((j, b) ∷ m) h = ground (arith, length-remove_most n m h.1, remove_absent n m)

-- A map of distinct indexes below `n` has at most `n` entries.
pub length_below : (n : ℕ) (m : List (ℕ × Bytes)) → Distinct ℕ_discrete m → Below n m → length m ≤ n
length_below zero [] d h = omega arith
length_below zero ((j, b) ∷ m) d h = absurd (omega (arith, h.0))
length_below (suc n) m d h = omega (
  arith,
  length-remove_most n m d,
  length_below n (remove ℕ_discrete n m) (remove-Distinct ℕ_discrete n m d) (remove-Below n m h),
)

pub insert-Below :
    (n i : ℕ) (b : Bytes) (m : List (ℕ × Bytes))
    → i < n
    → Below n m
    → Below n (insert ℕ_discrete i b m)
unfolding insert
insert-Below n i b [] lt h = (lt, tt)
insert-Below n i b ((j, c) ∷ m) lt h = ground (arith, insert-Below n i b m lt h.1)

pub length-insert_new :
    (i : ℕ) (b : Bytes) (m : List (ℕ × Bytes))
    → find ℕ_discrete i m ≡ none
    → length (insert ℕ_discrete i b m) ≡ length m + 1
unfolding insert find
length-insert_new i b [] h = refl
length-insert_new i b ((j, c) ∷ m) h = ground (arith, length-insert_new i b m)

-- With `n` entries no index below `n` is missing.
pub full_has_all :
    (n i : ℕ) (m : List (ℕ × Bytes))
    → Distinct ℕ_discrete m
    → Below n m
    → length m ≡ n
    → i < n
    → (b : Bytes) × (find ℕ_discrete i m ≡ some b)
full_has_all n i m d h e lt = elim (Option-cases (find ℕ_discrete i m)) [
  | inl missing ↦ absurd (
      omega (
        arith,
        length-insert_new i [] m missing,
        length_below n (insert ℕ_discrete i [] m) (insert-Distinct ℕ_discrete i [] m d)
            (insert-Below n i [] m lt h),
      ))
  | inr got ↦ got
]

-- Every chunk held is the file's.
abbrev pub Honest : Bytes → List (ℕ × Bytes) → Type 0
Honest data_ = All (λ p. p.1 ≡ chunk_of data_ p.0)

pub insert-Honest :
    (data_ : Bytes) (i : ℕ) (m : List (ℕ × Bytes))
    → Honest data_ m
    → Honest data_ (insert ℕ_discrete i (chunk_of data_ i) m)
unfolding insert
insert-Honest data_ i [] h = (refl, tt)
insert-Honest data_ i ((j, c) ∷ m) h = ground (arith, insert-Honest data_ i m h.1)

pub find-Honest :
    (data_ : Bytes) (i : ℕ) (b : Bytes) (m : List (ℕ × Bytes))
    → Honest data_ m
    → find ℕ_discrete i m ≡ some b
    → b ≡ chunk_of data_ i
unfolding find
find-Honest data_ i b [] h e = cc
find-Honest data_ i b ((j, c) ∷ m) h e = ground (arith, find-Honest data_ i b m h.1)

drop_all : (n : ℕ) (xs : Bytes) → length xs ≤ n → drop n xs ≡ []
drop_all zero [] h = refl
drop_all zero (x ∷ xs) h = absurd (omega arith)
drop_all (suc n) [] h = refl
drop_all (suc n) (x ∷ xs) h = drop_all n xs (omega arith)

take_same : (m n : ℕ) (xs : Bytes) → length xs ≤ m → length xs ≤ n → take m xs ≡ take n xs
take_same m n xs hm hn = take_all m xs hm ∙ sym (take_all n xs hn)

take-take-drop : (k n : ℕ) (xs : Bytes) → take k xs ++ take n (drop k xs) ≡ take (k + n) xs
take-take-drop zero n xs = let e : 0 + n ≡ n = omega arith in rw e
take-take-drop (suc k) n [] = take_same n (suc k + n) [] (omega arith) (omega arith)
take-take-drop (suc k) n (x ∷ xs) =
    let e : suc k + n ≡ suc (k + n) = omega arith in rw e (ap (◌∷◌ x) (take-take-drop k n xs))

-- The chunk of an index is the 1024 bytes at its place, fewer at the end.
chunk_of-drop : (data_ : Bytes) (i : ℕ) → chunk_of data_ i ≡ take 1024 (drop (i * 1024) data_)
unfolding chunk_of
chunk_of-drop data_ i =
    let tail : Bytes = drop (i * 1024) data_ in
    let size : length tail ≡ length data_ - i * 1024 = length-drop (i * 1024) data_ in
    elim (dec_le (length data_) (i * 1024 + 1024)) [
      | yes short ↦ elim (Bool-cases (leb (length data_) (i * 1024))) [
        | inl past ↦ rw past (sym (ap (take 1024) (drop_all (i * 1024) data_ (leb→le _ _ past))))
        | inr inside ↦ rw inside (
            take_same (min (i * 1024 + 1024) (length data_) - i * 1024) 1024 tail (omega arith)
              (omega arith))
      ]
      | no long ↦
          let inside : leb (length data_) (i * 1024) ≡ false = ground (arith, long) in
          let whole : min (i * 1024 + 1024) (length data_) - i * 1024 ≡ 1024 =
            omega (arith, long) in
          rw (inside, whole) refl
    ]

take-suc_chunks :
    (n : ℕ) (xs : Bytes) → take 1024 xs ++ take (n * 1024) (drop 1024 xs) ≡ take (suc n * 1024) xs
take-suc_chunks n xs = take-take-drop 1024 (n * 1024) xs ∙ ap (λ k. take k xs) (omega arith)

gather-chunks :
    (data_ : Bytes) (m : List (ℕ × Bytes)) (n i total : ℕ)
    → n + i ≡ total
    → Honest data_ m
    → ((j : ℕ) → j < total → (b : Bytes) × (find ℕ_discrete j m ≡ some b))
    → gather n i m ≡ some (take (n * 1024) (drop (i * 1024) data_))
unfolding gather
gather-chunks data_ m zero i total e honest all_ = refl
gather-chunks data_ m (suc n) i total e honest all_ =
    let (b, got) = all_ i (omega arith) in
    let mine : b ≡ take 1024 (drop (i * 1024) data_) =
      find-Honest data_ i b m honest got ∙ chunk_of-drop data_ i in
    let next : drop 1024 (drop (i * 1024) data_) ≡ drop ((i + 1) * 1024) data_ =
      drop-drop 1024 (i * 1024) data_ ∙ ap (λ k. drop k data_) (omega arith) in
    let ih : gather n (i + 1) m ≡ some (take (n * 1024) (drop 1024 (drop (i * 1024) data_))) =
      gather-chunks data_ m n (i + 1) total (omega arith) honest all_
      ∙ ap (λ t. some (take (n * 1024) t)) (sym next) in
    rw (got, gather, ih)
      (ap (λ (t : Bytes). some (t ++ take (n * 1024) (drop 1024 (drop (i * 1024) data_)))) mine
        ∙ ap some (take-suc_chunks n (drop (i * 1024) data_)))

-- A receiver that holds as many chunks as the file has, each of them the file's, gathers the file.
pub gather-Honest :
    (data_ : Bytes) (m : List (ℕ × Bytes)) (total : ℕ)
    → Distinct ℕ_discrete m
    → Below total m
    → Honest data_ m
    → length m ≡ total
    → length data_ ≤ total * 1024
    → gather total 0 m ≡ some data_
gather-Honest data_ m total d below honest full covers =
    gather-chunks data_ m total 0 total (omega arith) honest
      (λ j lt. full_has_all total j m d below full lt)
    ∙ ap some (take_all (total * 1024) data_ covers)

-- The chunks of a file cover it.
pub div_ceil_covers : (n : ℕ) → n ≤ max 1 (div_ceil n) * 1024
unfolding div_ceil
div_ceil_covers n = omega arith
