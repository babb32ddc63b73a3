-- ===== src/Board.antt =====
-- rust/telesthete/src/board.rs: `BoardCore`, a replicated map in which the last writer wins.
-- `Value` stands for JSON values and `null` for the null among them.
pub mod Merge
pub mod Exchange
pub mod Sync
pub mod Convergence
mod Tests
use telesthete.Base.{
  ℕ, ◌+◌, ◌/◌, ◌%◌, ◌^◌, ◌≡◌, List, [], ◌∷◌, ◌++◌, length, ltb, if◌then◌else◌, not, ◌==◌, ◌||◌,
  ◌&&◌, Option, none, some, Bool, true, false, max, ite,
}
use telesthete.Base.Bytes.{Bytes, to_be_bytes}
use telesthete.Base.Maps.{find}
use telesthete.Base.Text.{Text, Text-discrete, hex_digit}
use telesthete.Crypto.{Kdf}

-- The byte order of strings.
unfoldable pub text_le : Text → Text → Bool
text_le [] b = true
text_le (x ∷ xs) [] = false
text_le (x ∷ xs) (y ∷ ys) =
    let rest = text_le xs ys in if ltb x y then true else if x == y then rest else false

-- `<=` on pairs of a clock and a writer.
unfoldable pub ts_le : ℕ × Text → ℕ × Text → Bool
ts_le a b = if ltb a.0 b.0 then true else if a.0 == b.0 then text_le a.1 b.1 else false

-- An insert into a `BTreeMap`, which is sorted by key.
unfoldable pub insert_key {ℓ} : {V : Type ℓ} → Text → V → List (Text × V) → List (Text × V)
insert_key k v [] = (k, v) ∷ []
insert_key k v ((j, w) ∷ m) =
    let later = (j, w) ∷ insert_key k v m in
    ite (Text-discrete j k) ((k, v) ∷ m) (if text_le k j then (k, v) ∷ (j, w) ∷ m else later)

unfoldable pub to_hex : Bytes → Text
to_hex [] = []
to_hex (b ∷ bs) = hex_digit (b / 16) ∷ hex_digit (b % 16) ∷ to_hex bs

module _ (Value : Type 0) where
  pub record BoardEntry : Type 0 where
    pub value : Value
    pub lamport : ℕ
    pub actor : Text
    pub deleted : Bool

  pub record SetPayload : Type 0 where
    pub key : Text
    pub value : Value
    pub stamp : ℕ × Text
    pub deleted : Bool

  pub record BoardCore : Type 0 where
    pub actor : Text
    pub entries : List (Text × BoardEntry)
    pub lamport : ℕ

  unfoldable pub new : Text → BoardCore
  new actor = record { actor = actor; entries = []; lamport = 0 }

  unfoldable pub ts : BoardEntry → ℕ × Text
  ts e = (e.lamport, e.actor)

  unfoldable pub to_payload : BoardEntry → Text → SetPayload
  to_payload e key = record {
    key = key;
    value = e.value;
    stamp = (e.lamport, e.actor);
    deleted = e.deleted;
  }

  -- The entry that a write of the board's own actor makes.
  unfoldable pub written : BoardCore → Value → Bool → BoardEntry
  written b value deleted = record {
    value = value;
    lamport = (b.lamport + 1) % 2 ^ 64;
    actor = b.actor;
    deleted = deleted;
  }

  unfoldable pub set : BoardCore → Text → Value → BoardCore × SetPayload
  unfolding to_payload written
  set b key value =
      let e = written b value false in
      (record b { lamport = e.lamport; entries = insert_key key e b.entries }, to_payload e key)

  unfoldable pub delete : BoardCore → Text → Value → BoardCore × SetPayload
  unfolding to_payload written
  delete b key null =
      let e = written b null true in
      (record b { lamport = e.lamport; entries = insert_key key e b.entries }, to_payload e key)

  unfoldable pub get : BoardCore → Text → Option Value
  get b key = elim (find Text-discrete key b.entries) [
    | none ↦ none
    | some e ↦ if e.deleted then none else some e.value
  ]

  unfoldable pub live : List (Text × BoardEntry) → List (Text × Value)
  live [] = []
  live ((k, e) ∷ m) = if e.deleted then live m else (k, e.value) ∷ live m

  unfoldable pub items : BoardCore → List (Text × Value)
  unfolding live
  items b = live b.entries

  unfoldable pub digest_input : List (Text × BoardEntry) → Bytes
  digest_input [] = []
  digest_input ((k, e) ∷ m) =
      k ++ (to_be_bytes 8 e.lamport ++ (e.actor ++ ((if e.deleted then 1 else 0) ∷ digest_input m)))

  unfoldable pub digest : Kdf → BoardCore → ℕ × Text
  unfolding digest_input
  digest k b = (length b.entries, to_hex (k.sha256 (digest_input b.entries)))

  unfoldable pub entry_of : SetPayload → BoardEntry
  entry_of p = record {
    value = p.value;
    lamport = p.stamp.0;
    actor = p.stamp.1;
    deleted = p.deleted;
  }

  -- The board afterwards, and whether its entries changed.
  unfoldable pub merge_entry : BoardCore → SetPayload → BoardCore × Bool
  unfolding entry_of ts
  merge_entry b p =
      let b' : BoardCore = record b { lamport = max b.lamport p.stamp.0 } in
      let taken : BoardCore = record b' { entries = insert_key p.key (entry_of p) b.entries } in
      elim (find Text-discrete p.key b.entries) [
        | none ↦ (taken, true)
        | some current ↦ if ts_le p.stamp (ts current) then (b', false) else (taken, true)
      ]

  unfoldable pub snapshot_of : List (Text × BoardEntry) → List SetPayload
  unfolding to_payload
  snapshot_of [] = []
  snapshot_of ((k, e) ∷ m) = to_payload e k ∷ snapshot_of m

  unfoldable pub snapshot : BoardCore → List SetPayload
  unfolding snapshot_of
  snapshot b = snapshot_of b.entries
