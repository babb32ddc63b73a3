-- ===== src/Crypto/Selection.antt =====
-- crypto.rs, `select_cipher`.
use telesthete.Base.{
  ◌≡◌, ◌⊎◌, inl, inr, refl, ap, List, [], ◌∷◌, ◌++◌, Bool, true, false, ◌||◌, All, Bool-cases,
}
use telesthete.Base.Text.{Text, Text-discrete, text_eq}
use telesthete.Crypto.{supports, select_cipher, baseline_cipher}

-- A cipher that the responder takes: it supports it, or it is the baseline.
abbrev pub acceptable : List Text → Text → Bool
unfolding Text-discrete
acceptable supported cid = text_eq cid baseline_cipher || supports supported cid

-- The cipher selected is the first in the initiator's order that the responder takes, with none
-- before it that it takes; if it takes none of them, it is the baseline.
pub select_cipher_first :
    (prefs supported : List Text)
    → ((before : List Text) × (after : List Text) × (prefs
          ≡ before ++ (select_cipher prefs supported ∷ after))
        × (acceptable supported (select_cipher prefs supported) ≡ true)
        × All (λ c. acceptable supported c ≡ false) before)
      ⊎ ((select_cipher prefs supported ≡ baseline_cipher)
          × All (λ c. acceptable supported c ≡ false) prefs)
unfolding select_cipher acceptable
select_cipher_first [] supported = inr (refl, tt)
select_cipher_first (cid ∷ prefs) supported = elim (Bool-cases (acceptable supported cid)) [
  | inl good ↦ rw good (inl ([], prefs, refl, good, tt))
  | inr bad ↦ rw bad (elim (select_cipher_first prefs supported) [
    | inl (before, after, e, ok_, none_) ↦
        inl (cid ∷ before, after, ap (◌∷◌ cid) e, ok_, (bad, none_))
    | inr (e, none_) ↦ inr (e, (refl, none_))
  ])
]
