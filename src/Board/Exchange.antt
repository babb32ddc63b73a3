-- ===== src/Board/Exchange.antt =====
-- rust/telesthete/src/board.rs: `BoardEndpoint` and `run_board_task`, what an endpoint sends and
-- what it does with a packet. serde_json is the parameter `Json`, with `Body` for the JSON value of
-- a payload; the ids of snapshots are arguments.
use telesthete.Base.{
  ℕ, ite, List, [], ◌∷◌, ◌++◌, map, get_elem?, if◌then◌else◌, not, ◌==◌, ◌||◌, Option, none, some,
  Bool, true, false,
}
use telesthete.Base.Bytes.{Bytes}
use telesthete.Base.Maps.{find, insert, remove}
use telesthete.Base.Text.{Text, text_eq}
use telesthete.Board.{BoardCore, SetPayload, set, delete, digest, merge_entry, snapshot}
use telesthete.Crypto.{Kdf}
use telesthete.Wire.Fragment.{fragment, max_chunk_payload}
use telesthete.Wire.Reassembler.{Reassembler, incomplete, for_chunk_size, feed}
use telesthete.Wire.Reassembler
use telesthete.Drop.Stale.{replay_stale}

abbrev pub type_set : ℕ
type_set = 0x01

abbrev pub type_digest : ℕ
type_digest = 0x02

abbrev pub type_sync_req : ℕ
type_sync_req = 0x03

abbrev pub type_snapshot : ℕ
type_snapshot = 0x04

-- `DigestPayload` is its two optional fields, `SnapshotPayload` its entries.
pub record Json (Value Body : Type 0) : Type 0 where
  pub read_envelope : Bytes → Option (ℕ × Body)
  pub read_set : Body → Option (SetPayload Value)
  pub read_digest : Body → Option (Option ℕ × Option Text)
  pub read_snapshot : Body → Option (List (SetPayload Value))
  pub write_set : SetPayload Value → Bytes
  pub write_digest : ℕ → Text → Bytes
  pub write_sync_req : Bytes
  pub write_snapshot : List (SetPayload Value) → Bytes

pub record BoardChange (Value : Type 0) : Type 0 where
  pub key : Text
  pub value : Value
  pub deleted : Bool

-- The endpoint's shared part and what its task keeps.
pub record BoardTask (Addr Value : Type 0) : Type 0 where
  pub core : BoardCore Value
  pub destinations : List Addr
  pub watermark : List (Addr × ℕ)
  pub reassemblers : List (Addr × Reassembler)

-- The packets sent and the changes that the application hears of.
pub record Turn (Addr Value : Type 0) : Type 0 where
  pub task : BoardTask Addr Value
  pub sent : List (Addr × Bytes)
  pub changes : List (BoardChange Value)

unfoldable pub change_of : {Value : Type 0} → SetPayload Value → BoardChange Value
change_of p = record { key = p.key; value = p.value; deleted = p.deleted }

-- The entries of a snapshot in turn, with the changes that they make.
unfoldable pub merge_each :
    {Value : Type 0}
    → BoardCore Value
    → List (SetPayload Value)
    → BoardCore Value × List (BoardChange Value)
merge_each b [] = (b, [])
merge_each b (p ∷ ps) =
    let merged = merge_entry _ b p in
    let rest = merge_each merged.0 ps in (rest.0, if merged.1 then change_of p ∷ rest.1 else rest.1)

-- A count and a hash that differ, or are missing.
unfoldable pub differs : Option ℕ × Option Text → ℕ × Text → Bool
differs probe own =
    not (elim probe.0 [ none ↦ false | some n ↦ n == own.0 ])
    || not (elim probe.1 [ none ↦ false | some h ↦ text_eq h own.1 ])

module _ {Addr Value Body : Type 0} (d : Discrete Addr) (k : Kdf) (json : Json Value Body) where
  -- `destinations.contains`.
  unfoldable pub holds : Addr → List Addr → Bool
  holds a [] = false
  holds a (b ∷ bs) = ite (d b a) true (holds a bs)

  unfoldable pub without : Addr → List Addr → List Addr
  without a [] = []
  without a (b ∷ bs) = ite (d b a) (without a bs) (b ∷ without a bs)

  unfoldable pub add_destination : BoardTask Addr Value → Addr → BoardTask Addr Value
  add_destination t peer =
      if holds peer t.destinations
      then t
      else record t { destinations = t.destinations ++ (peer ∷ []) }

  unfoldable pub remove_destination : BoardTask Addr Value → Addr → BoardTask Addr Value
  remove_destination t peer = record t { destinations = without peer t.destinations }

  -- One packet to each destination.
  unfoldable pub broadcast : Bytes → List Addr → List (Addr × Bytes)
  broadcast body dests = map (λ a. (a, body)) dests

  unfoldable pub set_key : BoardTask Addr Value → Text → Value → Turn Addr Value
  set_key t key value =
      let wrote = set Value t.core key value in
      record {
        task = record t { core = wrote.0 };
        sent = broadcast (json.write_set wrote.1) t.destinations;
        changes = record { key = key; value = value; deleted = false } ∷ [];
      }

  unfoldable pub delete_key : BoardTask Addr Value → Text → Value → Turn Addr Value
  delete_key t key null =
      let wrote = delete Value t.core key null in
      record {
        task = record t { core = wrote.0 };
        sent = broadcast (json.write_set wrote.1) t.destinations;
        changes = record { key = key; value = null; deleted = true } ∷ [];
      }

  -- To one peer, or to every destination.
  unfoldable pub send_digest : BoardTask Addr Value → Option Addr → List (Addr × Bytes)
  send_digest t dest =
      let own = digest Value k t.core in
      let body = json.write_digest own.0 own.1 in
      elim dest [ none ↦ broadcast body t.destinations | some a ↦ (a, body) ∷ [] ]

  -- `send_snapshot_to`; `none` is the failed assertion of `fragment`.
  unfoldable pub send_snapshot : BoardTask Addr Value → Addr → Bytes → Option (List (Addr × Bytes))
  send_snapshot t dest fid =
      elim (fragment (json.write_snapshot (snapshot Value t.core)) max_chunk_payload fid) [
        | none ↦ none
        | some chunks ↦ some (map (λ c. (dest, c)) chunks)
      ]

  unfoldable pub quiet : BoardTask Addr Value → Turn Addr Value
  quiet t = record { task = t; sent = []; changes = [] }

  -- A whole message, by its type.
  unfoldable pub on_message :
      BoardTask Addr Value → Addr → Bytes → ℕ → Body → Option (Turn Addr Value)
  on_message t from fid type_ body =
      if type_ == type_set
      then elim (json.read_set body) [
        | none ↦ some (quiet t)
        | some p ↦
            let merged = merge_entry Value t.core p in
            some (record {
              task = record t { core = merged.0 };
              sent = [];
              changes = if merged.1 then change_of p ∷ [] else [];
            })
      ]
      else if type_ == type_digest
      then elim (json.read_digest body) [
        | none ↦ some (quiet t)
        | some probe ↦ some (record {
          task = t;
          sent =
              if differs probe (digest Value k t.core)
              then (from, json.write_sync_req) ∷ []
              else [];
          changes = [];
        })
      ]
      else if type_ == type_sync_req
      then elim (send_snapshot t from fid) [
        | none ↦ none
        | some sent ↦ some (record { task = t; sent = sent; changes = [] })
      ]
      else if type_ == type_snapshot
      then elim (json.read_snapshot body) [
        | none ↦ some (quiet t)
        | some entries ↦
            let merged = merge_each t.core entries in
            some (record { task = record t { core = merged.0 }; sent = []; changes = merged.1 })
      ]
      else some (quiet t)

  unfoldable pub on_payload : BoardTask Addr Value → Addr → Bytes → Bytes → Option (Turn Addr Value)
  on_payload t from fid payload = elim (json.read_envelope payload) [
    | none ↦ some (quiet t)
    | some env ↦ on_message t from fid env.0 env.1
  ]

  -- A packet that begins with 1 is a chunk of a snapshot, else a message. `none` is a panic.
  unfoldable pub on_fresh :
      BoardTask Addr Value → Addr → Bytes → Bytes → ℕ → Option (Turn Addr Value)
  on_fresh t from fid payload now =
      let r : Reassembler = elim (find d from t.reassemblers) [
        | none ↦ for_chunk_size max_chunk_payload
        | some r ↦ r
      ] in
      let fed = feed r now payload in
      let t' : BoardTask Addr Value = record t {
        reassemblers = insert d from fed.0 t.reassemblers;
      } in
      let chunk : Bool = elim (get_elem? payload 0) [ none ↦ false | some b ↦ b == 1 ] in
      if chunk
      then elim fed.1 [
        | incomplete ↦ some (quiet t')
        | Reassembler.message full ↦ on_payload t' from fid full
        | Reassembler.panic ↦ none
      ]
      else on_payload t from fid payload

  unfoldable pub on_packet :
      BoardTask Addr Value → Addr → ℕ → Bytes → Bytes → ℕ → Option (Turn Addr Value)
  on_packet t from seq fid payload now =
      let checked = replay_stale d t.watermark from seq in
      let t' : BoardTask Addr Value = record t { watermark = checked.0 } in
      if checked.1 then some (quiet t') else on_fresh t' from fid payload now

  -- The peer restarted.
  unfoldable pub on_rebase : BoardTask Addr Value → Addr → BoardTask Addr Value
  on_rebase t peer = record t {
    watermark = remove d peer t.watermark;
    reassemblers = remove d peer t.reassemblers;
  }
