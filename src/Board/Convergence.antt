-- ===== src/Board/Convergence.antt =====
-- board.rs, `merge_entry`: boards that received the same writes are the same.
use telesthete.Base.{In, subst, ◌≡◌, refl, sym, ap, ◌∙◌, List, [], ◌∷◌, max, arith, inl, inr}
use telesthete.Base.Maps.{find}
use telesthete.Base.Text.{Text, Text-discrete}
use telesthete.Board.{SetPayload, BoardCore, merge_entry}
use telesthete.Board.Merge.{merged, merged_comm, merge_entry_lem, Agree}
use mathlib.Core.List.{Permᴰ}

module _ {Value : Type 0} where
  -- The writes merged one after the other.
  abbrev pub merge_all : BoardCore Value → List (SetPayload Value) → BoardCore Value
  merge_all b [] = b
  merge_all b (p ∷ ps) = merge_all (merge_entry Value b p).0 ps

  -- Two boards that no lookup and no clock tells apart.
  abbrev pub Alike : BoardCore Value → BoardCore Value → Type 0
  Alike b c =
      ((q : Text) → find Text-discrete q b.entries ≡ find Text-discrete q c.entries)
      × (b.lamport ≡ c.lamport)

  merge_entry-Alike :
      (b c : BoardCore Value) (p : SetPayload Value)
      → Alike b c
      → Alike (merge_entry Value b p).0 (merge_entry Value c p).0
  merge_entry-Alike b c p (e, l) = (
    (λ q. (merge_entry_lem b p q).0 ∙ ap (merged q p) (e q) ∙ sym (merge_entry_lem c p q).0),
    (merge_entry_lem b p []).1 ∙ ap (λ n. max n p.stamp.0) l ∙ sym (merge_entry_lem c p []).1,
  )

  merge_all-Alike :
      (ps : List (SetPayload Value)) (b c : BoardCore Value)
      → Alike b c
      → Alike (merge_all b ps) (merge_all c ps)
  merge_all-Alike [] b c h = h
  merge_all-Alike (p ∷ ps) b c h = merge_all-Alike ps _ _ (merge_entry-Alike b c p h)

  -- Two writes merged in either order give boards alike, unless they are different writes of one
  -- key with the same time stamp.
  pub merge_entry_comm :
      (b : BoardCore Value) (p r : SetPayload Value)
      → Agree p r
      → Alike
          (merge_entry Value (merge_entry Value b p).0 r).0
          (merge_entry Value (merge_entry Value b r).0 p).0
  merge_entry_comm b p r same =
      let bp = (merge_entry Value b p).0 in
      let br = (merge_entry Value b r).0 in
      (
        (λ q.
            (merge_entry_lem bp r q).0
            ∙ ap (merged q r) (merge_entry_lem b p q).0
            ∙ merged_comm q (find Text-discrete q b.entries) p r same
            ∙ ap (merged q p) (sym (merge_entry_lem b r q).0)
            ∙ sym (merge_entry_lem br p q).0),
        omega (
          arith,
          (merge_entry_lem bp r []).1,
          (merge_entry_lem b p []).1,
          (merge_entry_lem br p []).1,
          (merge_entry_lem b r []).1,
        ),
      )

  abbrev pub AllAgree : List (SetPayload Value) → Type 0
  AllAgree ps = (p r : SetPayload Value) → In p ps → In r ps → Agree p r

  In-perm :
      {ps rs : List (SetPayload Value)} → Permᴰ ps rs → (p : SetPayload Value) → In p rs → In p ps
  In-perm Permᴰ.nil p i = absurd i
  In-perm (Permᴰ.cons e d) p (inl same) = inl (same ∙ sym e)
  In-perm (Permᴰ.cons e d) p (inr i) = inr (In-perm d p i)
  In-perm (Permᴰ.swap e f) p (inl same) = inr (inl (same ∙ sym f))
  In-perm (Permᴰ.swap e f) p (inr (inl same)) = inl (same ∙ sym e)
  In-perm (Permᴰ.swap e f) p (inr (inr i)) = inr (inr i)
  In-perm (Permᴰ.trans d g) p i = In-perm d p (In-perm g p i)

  Alike-trans : (a b c : BoardCore Value) → Alike a b → Alike b c → Alike a c
  Alike-trans a b c (e, l) (f, m) = ((λ q. e q ∙ f q), l ∙ m)

  -- Replicas converge: a board that merges the same writes in two orders comes to the same
  -- entries and clock, if no two of the writes share a key and a time stamp and differ.
  pub merge_all-perm :
      (ps rs : List (SetPayload Value)) (b : BoardCore Value)
      → AllAgree ps
      → Permᴰ ps rs
      → Alike (merge_all b ps) (merge_all b rs)
  merge_all-perm _ _ b same Permᴰ.nil = ((λ q. refl), refl)
  merge_all-perm (x ∷ ps) (y ∷ rs) b same (Permᴰ.cons e d) =
      Alike-trans (merge_all (merge_entry Value b x).0 ps) (merge_all (merge_entry Value b x).0 rs)
        (merge_all (merge_entry Value b y).0 rs)
        (merge_all-perm ps rs (merge_entry Value b x).0 (λ p r i j. same p r (inr i) (inr j)) d)
        (subst
          (λ z.
            Alike (merge_all (merge_entry Value b x).0 rs) (merge_all (merge_entry Value b z).0 rs))
          e ((λ q. refl), refl))
  merge_all-perm (x ∷ y ∷ l) (y' ∷ x' ∷ _) b same (Permᴰ.swap e f) = merge_all-Alike l _ _ (
      subst
        (λ z.
          Alike (merge_entry Value (merge_entry Value b x).0 y).0
            (merge_entry Value (merge_entry Value b z).0 x').0)
        f
        (subst
          (λ z.
            Alike (merge_entry Value (merge_entry Value b x).0 y).0
              (merge_entry Value (merge_entry Value b y).0 z).0)
          e (merge_entry_comm b x y (same x y (inl refl) (inr (inl refl))))))
  merge_all-perm ps rs b same (Permᴰ.trans {l₂ = qs} d g) =
      Alike-trans (merge_all b ps) (merge_all b qs) (merge_all b rs) (merge_all-perm ps qs b same d)
        (merge_all-perm qs rs b (λ p r i j. same p r (In-perm d p i) (In-perm d r j)) g)
