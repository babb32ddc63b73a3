-- ===== src/Board/Merge.antt =====
-- board.rs, `merge_entry`: replicas agree whatever the order in which writes reach them.
use telesthete.Base.{
  ℕ, ◌≡◌, ◌≢◌, inl, inr, refl, sym, ap, ◌∙◌, List, [], ◌∷◌, if◌then◌else◌, Option, none, some, Bool,
  true, false, max, ite, arith, Bool-cases,
}
use telesthete.Base.Maps.{find}
use telesthete.Base.Text.{Text, Text-discrete}
use telesthete.Board.{
  text_le, ts_le, insert_key, BoardEntry, SetPayload, BoardCore, ts, entry_of, merge_entry,
}

text_le-total : (a b : Text) → text_le a b ≡ false → text_le b a ≡ true
unfolding text_le
text_le-total [] b h = cc
text_le-total (x ∷ xs) [] h = refl
text_le-total (x ∷ xs) (y ∷ ys) h = ground (arith, text_le-total xs ys)

text_le-antisym : (a b : Text) → text_le a b ≡ true → text_le b a ≡ true → a ≡ b
unfolding text_le
text_le-antisym [] [] h g = refl
text_le-antisym [] (y ∷ ys) h g = cc
text_le-antisym (x ∷ xs) [] h g = cc
text_le-antisym (x ∷ xs) (y ∷ ys) h g = ground (arith, text_le-antisym xs ys)

text_le_trans : (a b c : Text) → text_le a b ≡ true → text_le b c ≡ true → text_le a c ≡ true
unfolding text_le
text_le_trans [] b c h g = refl
text_le_trans (x ∷ xs) [] c h g = cc
text_le_trans (x ∷ xs) (y ∷ ys) [] h g = cc
text_le_trans (x ∷ xs) (y ∷ ys) (z ∷ zs) h g = ground (arith, text_le_trans xs ys zs)

ts_le-total : (a b : ℕ × Text) → ts_le a b ≡ false → ts_le b a ≡ true
unfolding ts_le
ts_le-total a b h = ground (arith, text_le-total a.1 b.1)

ts_le-antisym : (a b : ℕ × Text) → ts_le a b ≡ true → ts_le b a ≡ true → a ≡ b
unfolding ts_le
ts_le-antisym (m, a) (n, b) h g =
    let same : m ≡ n = ground (arith, h, g) in
    let name : a ≡ b = text_le-antisym a b (ground (arith, h, g)) (ground (arith, h, g)) in cc

ts_le_trans : (a b c : ℕ × Text) → ts_le a b ≡ true → ts_le b c ≡ true → ts_le a c ≡ true
unfolding ts_le
ts_le_trans a b c h g = ground (arith, text_le_trans a.1 b.1 c.1)

find-insert_key :
    {V : Type 0} (k q : Text) (v : V) (m : List (Text × V))
    → find Text-discrete q (insert_key k v m)
      ≡ ite (Text-discrete k q) (some v) (find Text-discrete q m)
unfolding find insert_key
find-insert_key k q v [] = refl
find-insert_key k q v ((j, w) ∷ m) = ground (arith, find-insert_key k q v m)

module _ {Value : Type 0} where
  -- The newer of an entry and a write: the later time stamp wins, and a tie keeps the entry.
  abbrev pub newer : Option (BoardEntry Value) → SetPayload Value → Option (BoardEntry Value)
  newer none p = some (entry_of Value p)
  newer (some e) p = if ts_le p.stamp (ts Value e) then some e else some (entry_of Value p)

  ite_yes : (k q : Text) (x y : Option (BoardEntry Value)) → k ≡ q → ite (Text-discrete k q) x y ≡ x
  ite_yes k q x y e = ground (arith, e)

  ite_no : (k q : Text) (x y : Option (BoardEntry Value)) → k ≢ q → ite (Text-discrete k q) x y ≡ y
  ite_no k q x y n = ground (arith, n)

  -- What a merge of `p` makes of the entry `old` at `q`.
  abbrev pub merged :
      Text → SetPayload Value → Option (BoardEntry Value) → Option (BoardEntry Value)
  merged q p old = ite (Text-discrete p.key q) (newer old p) old

  inserted :
      (b : BoardCore Value) (p : SetPayload Value) (q : Text)
      → newer (find Text-discrete p.key b.entries) p ≡ some (entry_of Value p)
      → find Text-discrete q (insert_key p.key (entry_of Value p) b.entries)
        ≡ merged q p (find Text-discrete q b.entries)
  inserted b p q e =
      find-insert_key p.key q (entry_of Value p) b.entries ∙ elim (Text-discrete p.key q) [
        | yes same ↦
            ite_yes p.key q _ _ same
            ∙ sym e
            ∙ ap (λ k. newer (find Text-discrete k b.entries) p) same
            ∙ sym (ite_yes p.key q _ _ same)
        | no other ↦ ite_no p.key q _ _ other ∙ sym (ite_no p.key q _ _ other)
      ]

  kept :
      (b : BoardCore Value) (p : SetPayload Value) (q : Text)
      → newer (find Text-discrete p.key b.entries) p ≡ find Text-discrete p.key b.entries
      → find Text-discrete q b.entries ≡ merged q p (find Text-discrete q b.entries)
  kept b p q e = elim (Text-discrete p.key q) [
    | yes same ↦
        ap (λ k. find Text-discrete k b.entries) (sym same)
        ∙ sym e
        ∙ ap (λ k. newer (find Text-discrete k b.entries) p) same
        ∙ sym (ite_yes p.key q _ _ same)
    | no other ↦ sym (ite_no p.key q _ _ other)
  ]

  -- A merge changes the entry of the write's key alone, to the newer one, moves the clock up to
  -- the write's, and keeps the actor.
  pub merge_entry_lem :
      (b : BoardCore Value) (p : SetPayload Value) (q : Text)
      → let b' = (merge_entry Value b p).0 in
        (find Text-discrete q b'.entries ≡ merged q p (find Text-discrete q b.entries))
        × (b'.lamport ≡ max b.lamport p.stamp.0)
        × (b'.actor ≡ b.actor)
  unfolding merge_entry
  merge_entry_lem b p q = at_entry (find Text-discrete p.key b.entries) refl
    where
      at_entry :
          (o : Option (BoardEntry Value))
          → find Text-discrete p.key b.entries ≡ o
          → let b' : BoardCore Value = record b { lamport = max b.lamport p.stamp.0 } in
            let taken : BoardCore Value = record b' {
              entries = insert_key p.key (entry_of Value p) b.entries;
            } in
            let c =
              (elim o as (λ x. BoardCore Value × Bool) [
                | none ↦ (taken, true)
                | some current ↦
                    if ts_le p.stamp (ts Value current) then (b', false) else (taken, true)
              ]).0 in
            (find Text-discrete q c.entries ≡ merged q p (find Text-discrete q b.entries))
            × (c.lamport ≡ max b.lamport p.stamp.0)
            × (c.actor ≡ b.actor)
      at_entry none e = (inserted b p q (ap (λ o. newer o p) e), refl, refl)
      at_entry (some c) e = elim (Bool-cases (ts_le p.stamp (ts Value c))) [
        | inl old ↦
            let stays : newer (some c) p ≡ some c = rw old refl in
            rw old (kept b p q (ap (λ o. newer o p) e ∙ stays ∙ sym e), refl, refl)
        | inr new ↦
            let wins : newer (some c) p ≡ some (entry_of Value p) = rw new refl in
            rw new (inserted b p q (ap (λ o. newer o p) e ∙ wins), refl, refl)
      ]

  -- Two writes of one key with the same time stamp are the same write.
  abbrev pub Agree : SetPayload Value → SetPayload Value → Type 0
  Agree p r = p.key ≡ r.key → p.stamp ≡ r.stamp → entry_of Value p ≡ entry_of Value r

  newer_two :
      (p r : SetPayload Value)
      → (p.stamp ≡ r.stamp → entry_of Value p ≡ entry_of Value r)
      → newer (some (entry_of Value p)) r ≡ newer (some (entry_of Value r)) p
  unfolding entry_of ts
  newer_two p r same = elim (Bool-cases (ts_le r.stamp p.stamp)) [
    | inl rp ↦ elim (Bool-cases (ts_le p.stamp r.stamp)) [
      | inl pr ↦ rw (rp, pr) (ap some (same (ts_le-antisym p.stamp r.stamp pr rp)))
      | inr pr ↦ rw (rp, pr) refl
    ]
    | inr rp ↦ let pr = ts_le-total r.stamp p.stamp rp in rw (rp, pr) refl
  ]

  newer_comm :
      (o : Option (BoardEntry Value)) (p r : SetPayload Value)
      → (p.stamp ≡ r.stamp → entry_of Value p ≡ entry_of Value r)
      → newer (newer o p) r ≡ newer (newer o r) p
  unfolding entry_of ts
  newer_comm none p r same = newer_two p r same
  newer_comm (some e) p r same = elim (Bool-cases (ts_le p.stamp (ts Value e))) [
    | inl pe ↦ elim (Bool-cases (ts_le r.stamp (ts Value e))) [
      | inl re ↦ rw (pe, re, pe) refl
      | inr re ↦
          let pr =
            ts_le_trans p.stamp (ts Value e) r.stamp pe (ts_le-total r.stamp (ts Value e) re) in
          rw (pe, re, pr) refl
    ]
    | inr pe ↦ elim (Bool-cases (ts_le r.stamp (ts Value e))) [
      | inl re ↦
          let rp =
            ts_le_trans r.stamp (ts Value e) p.stamp re (ts_le-total p.stamp (ts Value e) pe) in
          rw (pe, re, rp, pe) refl
      | inr re ↦ rw (pe, re) (newer_two p r same)
    ]
  ]

  pub merged_comm :
      (q : Text) (o : Option (BoardEntry Value)) (p r : SetPayload Value)
      → Agree p r
      → merged q r (merged q p o) ≡ merged q p (merged q r o)
  merged_comm q o p r same = elim (Text-discrete p.key q) [
    | no np ↦ ap (merged q r) (ite_no p.key q _ _ np) ∙ sym (ite_no p.key q _ _ np)
    | yes yp ↦ elim (Text-discrete r.key q) [
      | no nr ↦ ite_no r.key q _ _ nr ∙ ap (merged q p) (sym (ite_no r.key q _ _ nr))
      | yes yr ↦
          ap (merged q r) (ite_yes p.key q _ _ yp)
          ∙ ite_yes r.key q _ _ yr
          ∙ newer_comm o p r (same (yp ∙ sym yr))
          ∙ ap (λ x. newer x p) (sym (ite_yes r.key q _ _ yr))
          ∙ sym (ite_yes p.key q _ _ yp)
    ]
  ]
