-- ===== src/Wire/Reassembler.antt =====
-- rust/telesthete/src/wire/fragment.rs: `Reassembler`, which collects chunks into messages under
-- caps on memory. `Instant::now()` is the argument `now`, in the unit of `timeout`.
pub mod Evicted
pub mod Parts
pub mod Inv
pub mod Eviction
pub mod Making
pub mod Part
pub mod Feed
use telesthete.Base.{
  ℕ, zero, suc, ◌+◌, ◌-◌, ◌*◌, ◌^◌, ◌≡◌, ite, List, [], ◌∷◌, ◌++◌, length, ltb, leb, if◌then◌else◌,
  not, ◌==◌, ◌||◌, ◌&&◌, Option, none, some, Bool, true, false, min, max, ℕ_discrete, map,
}
use telesthete.Base.Bytes.{Bytes}
use telesthete.Base.Maps.{find, has, insert, remove, modify, retain}
use telesthete.Base.Text.{Text-discrete}
use telesthete.Wire.Fragment.{Chunk, parse_chunk, max_chunk_payload}

abbrev pub default_reassembly_timeout : ℕ
default_reassembly_timeout = 30

abbrev pub default_buffer_limit : ℕ
default_buffer_limit = 256

abbrev pub default_max_fragments : ℕ
default_max_fragments = 16384

abbrev pub wire_max_fragments : ℕ
wire_max_fragments = 0xffff

abbrev pub library_max_buffered_bytes : ℕ
library_max_buffered_bytes = 64 * 1024 * 1024

abbrev pub default_evicted_memory : ℕ
default_evicted_memory = 1024

pub record Partial : Type 0 where
  pub total : ℕ
  pub parts : List (ℕ × Bytes)
  pub size : ℕ
  pub first_seen : ℕ
  pub order : ℕ

pub record Reassembler : Type 0 where
  pub buffers : List (Bytes × Partial)
  pub limit : ℕ
  pub max_fragments : ℕ
  pub max_payload : ℕ
  pub max_buffered_bytes : Option ℕ
  pub timeout : ℕ
  pub bytes : ℕ
  pub evicted : List (Bytes × ℕ)
  pub evicted_order : List (Bytes × ℕ)
  pub next_order : ℕ

unfoldable pub new : Reassembler
new = record {
  buffers = [];
  limit = default_buffer_limit;
  max_fragments = default_max_fragments;
  max_payload = max_chunk_payload;
  max_buffered_bytes = none;
  timeout = default_reassembly_timeout;
  bytes = 0;
  evicted = [];
  evicted_order = [];
  next_order = 0;
}

unfoldable pub with_buffer_limit : Reassembler → ℕ → Reassembler
with_buffer_limit r limit = record r { limit = max limit 1 }

unfoldable pub with_max_fragments : Reassembler → ℕ → Reassembler
with_max_fragments r m = record r { max_fragments = max m 1 }

unfoldable pub with_max_chunk_payload : Reassembler → ℕ → Reassembler
with_max_chunk_payload r m = record r { max_payload = max m 1 }

unfoldable pub with_max_buffered_bytes : Reassembler → Option ℕ → Reassembler
with_max_buffered_bytes r m = record r { max_buffered_bytes = m }

unfoldable pub with_timeout : Reassembler → ℕ → Reassembler
with_timeout r timeout = record r { timeout = timeout }

-- `saturating_mul` on a 64-bit `usize`.
unfoldable pub for_chunk_size : ℕ → Reassembler
unfolding new with_max_chunk_payload with_max_fragments with_max_buffered_bytes
for_chunk_size chunk_size =
    with_max_buffered_bytes
      (with_max_fragments (with_max_chunk_payload new (max chunk_size 1)) wire_max_fragments)
      (some
        (max library_max_buffered_bytes (min (max chunk_size 1 * wire_max_fragments) (2 ^ 64 - 1))))

unfoldable pub buffered_bytes : Reassembler → ℕ
buffered_bytes r = r.bytes

unfoldable pub pending : Reassembler → ℕ
pending r = length r.buffers

-- `min_by_key` over the entries that are not excluded: the first of the least order.
unfoldable pub oldest_of : Option Bytes → List (Bytes × Partial) → Option (Bytes × Partial)
unfolding Text-discrete
oldest_of exclude [] = none
oldest_of exclude ((k, p) ∷ m) =
    let rest = oldest_of exclude m in
    if elim exclude [ none ↦ false | some x ↦ ite (Text-discrete x k) true false ]
    then rest
    else elim rest [
      | none ↦ some (k, p)
      | some (j, q) ↦ if ltb q.order p.order then some (j, q) else some (k, p)
    ]

unfoldable pub oldest : Reassembler → Option Bytes → Option Bytes
unfolding oldest_of
oldest r exclude = elim (oldest_of exclude r.buffers) [ none ↦ none | some (k, p) ↦ some k ]

unfoldable pub drop_partial : Reassembler → Bytes → Reassembler
drop_partial r fid = elim (find Text-discrete fid r.buffers) [
  | none ↦ r
  | some p ↦ record r { buffers = remove Text-discrete fid r.buffers; bytes = r.bytes - p.size }
]

-- Forget the oldest remembered id, unless it was evicted again since.
unfoldable pub forget : Bytes → ℕ → List (Bytes × ℕ) → List (Bytes × ℕ)
forget fid at m = elim (find Text-discrete fid m) [
  | none ↦ m
  | some t ↦ if t == at then remove Text-discrete fid m else m
]

-- The loop of `evict`, over the queue of evictions: the map and the queue that it leaves.
unfoldable pub trim_evicted :
    List (Bytes × ℕ) → List (Bytes × ℕ) → List (Bytes × ℕ) × List (Bytes × ℕ)
unfolding forget
trim_evicted m [] = (m, [])
trim_evicted m ((old, at) ∷ rest) =
    let trimmed = trim_evicted (forget old at m) rest in
    if ltb default_evicted_memory (length m) then trimmed else (m, (old, at) ∷ rest)

unfoldable pub evict : Reassembler → Bytes → ℕ → Reassembler
evict r fid now =
    let r' = drop_partial r fid in
    let trimmed =
      trim_evicted (insert Text-discrete fid now r'.evicted)
        (r'.evicted_order ++ ((fid, now) ∷ [])) in
    record r' { evicted = trimmed.0; evicted_order = trimmed.1 }

-- `now.duration_since(at) > timeout`; `duration_since` stops at zero.
unfoldable pub expired : Reassembler → ℕ → ℕ → Bool
expired r now at = ltb r.timeout (now - at)

-- The loop of `gc` over the queue of evictions.
unfoldable pub gc_evicted :
    Reassembler → ℕ → List (Bytes × ℕ) → List (Bytes × ℕ) → List (Bytes × ℕ) × List (Bytes × ℕ)
unfolding forget expired
gc_evicted r now m [] = (m, [])
gc_evicted r now m ((fid, at) ∷ rest) =
    let more = gc_evicted r now (forget fid at m) rest in
    if expired r now at then more else (m, (fid, at) ∷ rest)

unfoldable pub drop_all : Reassembler → List Bytes → Reassembler
drop_all r [] = r
drop_all r (k ∷ ks) = drop_all (drop_partial r k) ks

unfoldable pub stale : Reassembler → ℕ → List Bytes
unfolding expired
stale r now = map (λ e. e.0) (retain (λ k p. expired r now p.first_seen) r.buffers)

unfoldable pub gc : Reassembler → ℕ → Reassembler
gc r now =
    let kept = gc_evicted r now r.evicted r.evicted_order in
    let r' = record r { evicted = kept.0; evicted_order = kept.1 } in drop_all r' (stale r' now)

-- What the loop that makes room for `n` bytes comes to.
pub data Room : Type 0 where
  fits : Reassembler → Room
  refused : Reassembler → Room
  out_of_fuel : Room

-- `while self.bytes + n > max`: evict the oldest other partial, or this message if none is left.
unfoldable pub make_room_loop : ℕ → Reassembler → ℕ → Bytes → ℕ → ℕ → Room
make_room_loop zero r now fid n budget = out_of_fuel
make_room_loop (suc fuel) r now fid n budget =
    let next : Room = elim (oldest r (some fid)) [
      | some victim ↦ make_room_loop fuel (evict r victim now) now fid n budget
      | none ↦ refused (evict r fid now)
    ] in
    if ltb budget (r.bytes + n) then next else fits r

-- Each round takes a partial off the buffers, so that many rounds and one are enough.
unfoldable pub make_room : Reassembler → ℕ → Bytes → ℕ → Room
make_room r now fid n = elim r.max_buffered_bytes [
  | none ↦ fits r
  | some budget ↦
      if ltb budget n then refused r else make_room_loop (suc (length r.buffers)) r now fid n budget
]

-- What `feed` answers: nothing yet, a whole message, or a panic at a missing part.
pub data Outcome : Type 0 where
  incomplete : Outcome
  message : Bytes → Outcome
  panic : Outcome

-- `for i in 0..total`: `rounds` indexes from `i` on. `none` is a missing part.
unfoldable pub join : ℕ → ℕ → List (ℕ × Bytes) → Option Bytes
join zero i parts = some []
join (suc rounds) i parts =
    let rest = join rounds (i + 1) parts in
    elim (find ℕ_discrete i parts) [
      | none ↦ none
      | some b ↦ elim rest [ none ↦ none | some bs ↦ some (b ++ bs) ]
    ]

-- Make an entry for a new message, at the cost of the oldest one if the buffers are full.
unfoldable pub open_entry : Reassembler → ℕ → Chunk → Reassembler
open_entry r now c =
    let full : Reassembler = elim (oldest r none) [ none ↦ r | some victim ↦ evict r victim now ] in
    let r' = if leb r.limit (length r.buffers) then full else r in
    let entry : Partial = record {
      total = c.total;
      parts = [];
      size = 0;
      first_seen = now;
      order = r'.next_order;
    } in
    if has Text-discrete c.fragment_id r.buffers then r else record r' {
      buffers = insert Text-discrete c.fragment_id entry r'.buffers;
      next_order = r'.next_order + 1;
    }

-- `entry.parts.insert(seq, data)`, and the sizes.
unfoldable pub add_part : Chunk → Partial → Partial
add_part c p = record p {
  parts = insert ℕ_discrete c.seq c.body p.parts;
  size = p.size + length c.body;
}

-- The entry is there: the message is complete, or waits.
unfoldable pub complete : Reassembler → Bytes → Partial → Reassembler × Outcome
complete r fid p =
    let whole : Outcome = elim (join p.total 0 p.parts) [ none ↦ panic | some bs ↦ message bs ] in
    if length p.parts == p.total
    then (
      record r { buffers = remove Text-discrete fid r.buffers; bytes = r.bytes - p.size },
      whole,
    )
    else (r, incomplete)

unfoldable pub store : Reassembler → ℕ → Chunk → Reassembler × Outcome
unfolding add_part
store r now c =
    let r' = open_entry r now c in
    elim (find Text-discrete c.fragment_id r'.buffers) [
      | none ↦ (r', panic)
      | some p ↦
          complete
            (record r' {
              buffers = insert Text-discrete c.fragment_id (add_part c p) r'.buffers;
              bytes = r'.bytes + length c.body;
            })
            c.fragment_id (add_part c p)
    ]

-- The part of `feed` after the buffer of a sender that changed `total` is reset.
unfoldable pub feed_live : Reassembler → ℕ → Chunk → Reassembler × Outcome
feed_live r now c =
    let existing = find Text-discrete c.fragment_id r.buffers in
    let duplicate : Bool = elim existing [ none ↦ false | some p ↦ has ℕ_discrete c.seq p.parts ] in
    let single : Bool = elim existing [ none ↦ c.total == 1 | some p ↦ false ] in
    if duplicate
    then (r, incomplete)
    else if single
    then (r, message c.body)
    else if ltb r.max_payload (length c.body)
    then (r, incomplete)
    else elim (make_room r now c.fragment_id (length c.body)) [
      | fits r' ↦ store r' now c
      | refused r' ↦ (r', incomplete)
      | out_of_fuel ↦ (r, panic)
    ]

unfoldable pub reset_changed : Reassembler → Chunk → Reassembler
reset_changed r c = elim (find Text-discrete c.fragment_id r.buffers) [
  | none ↦ r
  | some p ↦ if p.total == c.total then r else drop_partial r c.fragment_id
]

unfoldable pub feed_chunk : Reassembler → ℕ → Chunk → Reassembler × Outcome
feed_chunk r now c =
    let r' = gc r now in
    if ltb r.max_fragments c.total
    then (r, incomplete)
    else if has Text-discrete c.fragment_id r'.evicted
    then (r', incomplete)
    else feed_live (reset_changed r' c) now c

unfoldable pub feed : Reassembler → ℕ → Bytes → Reassembler × Outcome
feed r now chunk = elim (parse_chunk chunk) [ none ↦ (r, incomplete) | some c ↦ feed_chunk r now c ]
