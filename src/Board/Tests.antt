-- ===== src/Board/Tests.antt =====
-- The theorems on boards at concrete inputs, with numbers for values.
use telesthete.Base.{
  true, List, [], ap, arith, false, inl, inr, none, refl, some, sym, ℕ, ℕ_discrete, ◌∙◌, ◌∷◌, ◌≡◌,
  ◌≢◌,
}
use telesthete.Base.Text.{Text, Text-discrete, codes}
use telesthete.Board.{snapshot, SetPayload, BoardCore, entry_of}
use telesthete.Board.Exchange.{Json, BoardTask, Turn, on_message}
use telesthete.Board.Sync.{pick, on_message-snapshot}
use telesthete.Base.Maps.{find}
use telesthete.Board.Convergence.{merge_all, Alike, AllAgree, merge_all-perm}
use mathlib.Core.List.{Permᴰ}

abbrev write : ℕ → ℕ → SetPayload ℕ
write clock value = record {
  key = codes "k";
  value = value;
  stamp = (clock, codes "a");
  deleted = false;
}

abbrev empty : BoardCore ℕ
empty = record { actor = codes "b"; entries = []; lamport = 0 }

apart :
    (m n : ℕ)
    → m ≢ n
    → {p r : SetPayload ℕ} {v w : ℕ} → p ≡ write m v
    → r ≡ write n w
    → p.stamp ≡ r.stamp
    → ⊥
apart m n other e f s = other (
    sym (ap (λ (x : SetPayload ℕ). x.stamp.0) e)
    ∙ ap (λ (t : ℕ × Text). t.0) s
    ∙ ap (λ (x : SetPayload ℕ). x.stamp.0) f)

writes-AllAgree : AllAgree (write 3 7 ∷ write 5 9 ∷ [])
writes-AllAgree p r (inl e) (inl f) _ s = ap (entry_of ℕ) (e ∙ sym f)
writes-AllAgree p r (inl e) (inr (inl f)) _ s = absurd (apart 3 5 (omega arith) e f s)
writes-AllAgree p r (inr (inl e)) (inl f) _ s = absurd (apart 5 3 (omega arith) e f s)
writes-AllAgree p r (inr (inl e)) (inr (inl f)) _ s = ap (entry_of ℕ) (e ∙ sym f)
writes-AllAgree p r (inl e) (inr (inr x)) _ s = absurd x
writes-AllAgree p r (inr (inl e)) (inr (inr x)) _ s = absurd x
writes-AllAgree p r (inr (inr x)) j _ s = absurd x

merge_all-perm_example :
    Alike
      (merge_all empty (write 3 7 ∷ write 5 9 ∷ []))
      (merge_all empty (write 5 9 ∷ write 3 7 ∷ []))
merge_all-perm_example =
    merge_all-perm (write 3 7 ∷ write 5 9 ∷ []) (write 5 9 ∷ write 3 7 ∷ []) empty writes-AllAgree
      (Permᴰ.swap refl refl)

-- The stand-in for JSON reads every body as the snapshot of `full`.
abbrev full : BoardCore ℕ
full = record {
  actor = codes "a";
  entries =
      (codes "k", record { value = 9; lamport = 5; actor = codes "a"; deleted = false })
      ∷ (codes "l", record { value = 4; lamport = 2; actor = codes "c"; deleted = true })
      ∷ [];
  lamport = 5;
}

abbrev json : Json ℕ (List (SetPayload ℕ))
json = record {
  read_envelope = λ bs. none;
  read_set = λ b. none;
  read_digest = λ b. none;
  read_snapshot = λ b. some b;
  write_set = λ p. [];
  write_digest = λ n t. [];
  write_sync_req = [];
  write_snapshot = λ ps. [];
}

abbrev asking : BoardTask ℕ ℕ
asking = record {
  core = record empty {
    entries =
        (codes "k", record { value = 3; lamport = 6; actor = codes "b"; deleted = false }) ∷ [];
  };
  destinations = [];
  watermark = [];
  reassemblers = [];
}

on_message-snapshot_example :
    (turn : Turn ℕ ℕ) × (on_message ℕ_discrete
        (record { sha256 = λ bs. bs; hkdf = λ s m i. i })
        json
        asking
        10
        []
        4
        (snapshot ℕ full)
      ≡ some turn)
    × (turn.sent ≡ [])
    × ((q : Text)
        → find Text-discrete q turn.task.core.entries
          ≡ pick q (find Text-discrete q full.entries) (find Text-discrete q asking.core.entries))
unfolding find Text-discrete ℕ_discrete
on_message-snapshot_example =
    on_message-snapshot ℕ_discrete (record { sha256 = λ bs. bs; hkdf = λ s m i. i }) json asking 10
      [] (snapshot ℕ full) full (refl, (refl, tt)) refl
