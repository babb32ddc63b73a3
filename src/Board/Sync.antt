-- ===== src/Board/Sync.antt =====
-- board.rs: what a SNAPSHOT leaves at the board that asked for it.
use telesthete.Base.{
  ◌≡◌, refl, sym, ap, ◌∙◌, List, [], ◌∷◌, Option, none, some, if_pos, if_neg, opens,
}
use telesthete.Base.Bytes.{Bytes}
use telesthete.Base.Maps.{find, Distinct}
use telesthete.Base.Text.{Text, Text-discrete}
use telesthete.Board.{
  BoardCore, BoardEntry, SetPayload, merge_entry, snapshot, snapshot_of, to_payload,
}
use telesthete.Board.Merge.{newer, merge_entry_lem}
use telesthete.Board.Convergence.{merge_all}
use telesthete.Board.Exchange.{Json, BoardTask, Turn, merge_each, on_message}
use telesthete.Crypto.{Kdf}

module _ {Value : Type 0} where
  -- The entry of a key, from the snapshot's and the board's own.
  abbrev pub pick :
      Text → Option (BoardEntry Value) → Option (BoardEntry Value) → Option (BoardEntry Value)
  pick q none own = own
  pick q (some e) own = newer own (to_payload Value e q)

  merge_each-merge_all :
      (b : BoardCore Value) (ps : List (SetPayload Value)) → (merge_each b ps).0 ≡ merge_all b ps
  unfolding merge_each
  merge_each-merge_all b [] = refl
  merge_each-merge_all b (p ∷ ps) = merge_each-merge_all (merge_entry Value b p).0 ps

  merge_all-snapshot_of :
      (m : List (Text × BoardEntry Value)) (b : BoardCore Value) (q : Text)
      → Distinct Text-discrete m
      → find Text-discrete q (merge_all b (snapshot_of Value m)).entries
        ≡ pick q (find Text-discrete q m) (find Text-discrete q b.entries)
  unfolding snapshot_of find to_payload
  merge_all-snapshot_of [] b q h = refl
  merge_all-snapshot_of ((k, e) ∷ m) b q h =
      let p : SetPayload Value = to_payload Value e k in
      let b' : BoardCore Value = (merge_entry Value b p).0 in
      let ih = merge_all-snapshot_of m b' q h.1 in
      elim (Text-discrete k q) [
        | yes same ↦
            ih
            ∙ ap (λ o. pick q o (find Text-discrete q b'.entries))
                (ap (λ x. find Text-discrete x m) (sym same) ∙ h.0)
            ∙ (merge_entry_lem b p q).0
            ∙ if_pos (Text-discrete k q) same _ _
            ∙ ap (λ x. newer (find Text-discrete q b.entries) (to_payload Value e x)) same
            ∙ ap (λ o. pick q o (find Text-discrete q b.entries))
                (sym (if_pos (Text-discrete k q) same _ _))
        | no other ↦
            ih
            ∙ ap (pick q (find Text-discrete q m))
                ((merge_entry_lem b p q).0 ∙ if_neg (Text-discrete k q) other _ _)
            ∙ ap (λ o. pick q o (find Text-discrete q b.entries))
                (sym (if_neg (Text-discrete k q) other _ _))
      ]

  module _ {Addr Body : Type 0} (d : Discrete Addr) (k : Kdf) (json : Json Value Body) where
    -- A board that gets the snapshot of another, whose keys are distinct, holds for each key the
    -- newer of the two boards' entries: its own where the other has none, the other's where it has
    -- none, and its own on a tie. It sends nothing.
    pub on_message-snapshot :
        (t : BoardTask Addr Value) (from : Addr) (fid : Bytes) (body : Body) (a : BoardCore Value)
        → Distinct Text-discrete a.entries
        → json.read_snapshot body ≡ some (snapshot Value a)
        → (turn : Turn Addr Value) × (on_message d k json t from fid 4 body ≡ some turn)
          × (turn.sent ≡ [])
          × ((q : Text)
              → find Text-discrete q turn.task.core.entries
                ≡ pick q (find Text-discrete q a.entries) (find Text-discrete q t.core.entries))
    unfolding on_message snapshot
    on_message-snapshot t from fid body a distinct e =
        let ps : List (SetPayload Value) = snapshot_of Value a.entries in
        (
          record {
            task = record t { core = (merge_each t.core ps).0 };
            sent = [];
            changes = (merge_each t.core ps).1;
          },
          opens _ _ _ _ e,
          refl,
          (λ q.
              ap (λ (b : BoardCore Value). find Text-discrete q b.entries)
                (merge_each-merge_all t.core ps)
              ∙ merge_all-snapshot_of a.entries t.core q distinct),
        )
