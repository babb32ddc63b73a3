-- ===== src/Wire/Reassembler/Feed.antt =====
-- fragment.rs, `feed`: on every chunk, from anyone, the caps hold and no part is missing.
use telesthete.Base.{
  ℕ, ◌+◌, ◌≤◌, ◌<◌, ◌≡◌, inl, inr, refl, sym, ap, subst, ◌∙◌, [], length, ltb, leb, Option, none,
  some, ℕ_discrete, arith, Option-cases, Bool-cases, leb→le, if◌then◌else◌, ◌==◌, ==_iff,
}
use mathlib.Core.Option.{some-injective}
use telesthete.Base.Bytes.{Bytes}
use telesthete.Base.Maps.{
  find, has, insert, find-insert, find-remove, insert-Distinct, has-find, has-none, has-some,
}
use telesthete.Base.Maps.Weight.{weight, weight-insert_new, length-insert_new, insert-Values}
use telesthete.Base.Text.{Text-discrete}
use telesthete.Wire.Fragment.{Chunk, parse_chunk}
use telesthete.Wire.Reassembler.{
  Partial, Reassembler, Room, fits, refused, out_of_fuel, Outcome, incomplete, panic, oldest,
  drop_partial, evict, gc, make_room, open_entry, add_part, complete, store, feed_live,
  reset_changed, feed_chunk, feed,
}
use telesthete.Wire.Reassembler.Inv.{
  Inv, IsPartial, InBudget, InBudget-le, SameCaps, Shrunk, Shrunk-trans, Shrunk-refl, evict-Shrunk,
  drop_partial-Shrunk, gc-Shrunk,
}
use telesthete.Wire.Reassembler.Part.{Good, filled, buffers', complete-Good}
use telesthete.Wire.Reassembler.Eviction.{
  Made, make_room-Made, oldest_found, oldest-none, evict_fewer, evict_absent,
}

-- A buffered message can take the chunk's part.
abbrev Takes : Chunk → Partial → Type 0
Takes c p = (p.total ≡ c.total) × (find ℕ_discrete c.seq p.parts ≡ none)

-- Whatever is buffered under the chunk's id can take it.
abbrev Accepts : Reassembler → Chunk → Type 0
Accepts r c = (p : Partial) → find Text-discrete c.fragment_id r.buffers ≡ some p → Takes c p

-- The entry for a new message.
abbrev entry : Reassembler → ℕ → Chunk → Partial
entry r now c = record {
  total = c.total;
  parts = [];
  size = 0;
  first_seen = now;
  order = r.next_order;
}

abbrev with_entry : Reassembler → ℕ → Chunk → Reassembler
with_entry r now c = record r {
  buffers = insert Text-discrete c.fragment_id (entry r now c) r.buffers;
  next_order = r.next_order + 1;
}

module _ (r : Reassembler) (now : ℕ) (c : Chunk) (v : Inv r)
    (absent : find Text-discrete c.fragment_id r.buffers ≡ none) (many : 0 < c.total)
    (room : length r.buffers < r.limit) where
  with_entry-Inv : Inv (with_entry r now c)
  with_entry-Inv = record {
    distinct = insert-Distinct Text-discrete c.fragment_id (entry r now c) r.buffers v.distinct;
    partials =
        insert-Values Text-discrete (λ k q. IsPartial q) c.fragment_id (entry r now c) r.buffers
          (record { distinct = tt; within = tt; waiting = many; sized = unfold weight in refl })
          v.partials;
    counted = omega (
      arith,
      weight-insert_new Text-discrete (λ (q : Partial). q.size) c.fragment_id (entry r now c)
          r.buffers absent,
      v.counted,
    );
    capacity = v.capacity;
    few =
        omega
          (arith, length-insert_new Text-discrete c.fragment_id (entry r now c) r.buffers absent);
    budget = v.budget;
    remembered = v.remembered;
    queued = v.queued;
  }

  with_entry_found :
      find Text-discrete c.fragment_id (with_entry r now c).buffers ≡ some (entry r now c)
  with_entry_found =
      ground
        (arith, find-insert Text-discrete c.fragment_id c.fragment_id (entry r now c) r.buffers)

-- After `open_entry` the message has an entry that can take the part, at no cost in bytes.
record Opened (r : Reassembler) (c : Chunk) (q : Reassembler) : Type 0 where
  inv : Inv q
  caps : SameCaps r q
  lighter : q.bytes ≤ r.bytes
  held : Partial
  found : find Text-discrete c.fragment_id q.buffers ≡ some held
  takes : Takes c held

Opened-new :
    (r q : Reassembler) (now : ℕ) (c : Chunk) (s : Shrunk r q)
    → find Text-discrete c.fragment_id q.buffers ≡ none
    → 0 < c.total
    → length q.buffers < q.limit
    → Opened r c (with_entry q now c)
Opened-new r q now c s absent many room = record {
  inv = with_entry-Inv q now c s.inv absent many room;
  caps = s.caps;
  lighter = s.lighter;
  held = entry q now c;
  found = with_entry_found q now c s.inv absent many room;
  takes = (refl, unfold find in refl);
}

open_entry-Opened :
    (r : Reassembler) (now : ℕ) (c : Chunk)
    → Inv r
    → Accepts r c
    → 0 < c.total
    → Opened r c (open_entry r now c)
unfolding open_entry
open_entry-Opened r now c v accepts many =
    elim (Option-cases (find Text-discrete c.fragment_id r.buffers)) [
      | inr (p, e) ↦ rw (has-some Text-discrete c.fragment_id r.buffers e) (record {
        inv = v;
        caps = (refl, refl, refl, refl, refl);
        lighter = omega arith;
        held = p;
        found = e;
        takes = accepts p e;
      })
      | inl absent ↦
          rw (has-none Text-discrete c.fragment_id r.buffers absent)
            (elim (Bool-cases (leb r.limit (length r.buffers))) [
              | inr space ↦
                  rw space (Opened-new r r now c (Shrunk-refl v) absent many (ground arith))
              | inl full ↦ rw full (elim (Option-cases (oldest r none)) [
                | inl e ↦
                    absurd (omega (arith, ap length (oldest-none r e), leb→le _ _ full, v.capacity))
                | inr (k, e) ↦
                    let (p, found, other) = oldest_found r none v e in
                    let s = evict-Shrunk r k now v in
                    let smaller = evict_fewer r k now v found in
                    rw e (
                      Opened-new r (evict r k now) now c s
                        (evict_absent r k c.fragment_id now absent) many
                        (omega (arith, v.few, s.caps.0)))
              ])
            ])
    ]

Good-trans : (r q : Reassembler) (x : Reassembler × Outcome) → SameCaps r q → Good q x → Good r x
Good-trans r q (s, o) c (v, d, n) = (v, (d.0 ∙ c.0, d.1 ∙ c.1, d.2 ∙ c.2, d.3 ∙ c.3, d.4 ∙ c.4), n)

store-Opened :
    (r q : Reassembler) (c : Chunk)
    → Opened r c q
    → c.seq < c.total
    → InBudget r.max_buffered_bytes (r.bytes + length c.body)
    → (p : Partial) × (find Text-discrete c.fragment_id q.buffers ≡ some p)
      × Good r (
          complete
            (record q {
              buffers = insert Text-discrete c.fragment_id (add_part c p) q.buffers;
              bytes = q.bytes + length c.body;
            })
            c.fragment_id
            (add_part c p))
unfolding filled buffers'
store-Opened r q c o lt room =
    let budget : InBudget q.max_buffered_bytes (q.bytes + length c.body) =
      subst (λ (m : Option ℕ). InBudget m (q.bytes + length c.body)) (sym o.caps.3)
        (InBudget-le r.max_buffered_bytes (omega (arith, o.lighter)) room) in
    (
      o.held,
      o.found,
      Good-trans r q _ o.caps
          (complete-Good q c o.held o.inv o.found o.takes.0 o.takes.1 lt budget),
    )

store-Good :
    (r : Reassembler) (now : ℕ) (c : Chunk)
    → Inv r
    → Accepts r c
    → c.seq < c.total
    → InBudget r.max_buffered_bytes (r.bytes + length c.body)
    → Good r (store r now c)
unfolding store
store-Good r now c v accepts lt room =
    let (p, found, good) =
      store-Opened r (open_entry r now c) c (open_entry-Opened r now c v accepts (omega arith)) lt
        room in
    rw (found, store) good

Made-Good :
    (r : Reassembler) (now : ℕ) (c : Chunk) (room : Room)
    → Accepts r c
    → c.seq < c.total
    → Made r c.fragment_id (length c.body) room
    → Good r (elim room [
      | fits q ↦ store q now c
      | refused q ↦ (q, incomplete)
      | out_of_fuel ↦ (r, panic)
    ])
Made-Good r now c (fits q) accepts lt (s, b, e) =
    Good-trans r q _ s.caps (store-Good q now c s.inv (λ p f. accepts p (sym e ∙ f)) lt b)
Made-Good r now c (refused q) accepts lt s = (s.inv, s.caps, (λ e. cc))
Made-Good r now c out_of_fuel accepts lt m = absurd m

feed_live-Good :
    (r : Reassembler) (now : ℕ) (c : Chunk)
    → Inv r
    → ((p : Partial) → find Text-discrete c.fragment_id r.buffers ≡ some p → p.total ≡ c.total)
    → c.seq < c.total
    → Good r (feed_live r now c)
unfolding feed_live
feed_live-Good r now c v same lt =
    elim (Option-cases (find Text-discrete c.fragment_id r.buffers)) [
      | inl e ↦
          rw (e, feed_live)
            (elim (Bool-cases (c.total == 1)) [
              | inl one ↦ rw one (v, (refl, refl, refl, refl, refl), (λ x. cc))
              | inr more ↦ rw more (sized (λ p f. absurd (ground (arith, e, f))))
            ])
      | inr (p, e) ↦
          rw (e, feed_live)
            (elim (Bool-cases (has ℕ_discrete c.seq p.parts)) [
              | inl dup ↦ rw dup (v, (refl, refl, refl, refl, refl), (λ x. cc))
              | inr new ↦
                  let one : (q : Partial) → some p ≡ some q → Takes c q = λ q f.
                    subst (Takes c) (some-injective p q f)
                      (same p e, has-find ℕ_discrete c.seq p.parts new) in
                  rw new (sized (λ q f. one q (sym e ∙ f)))
            ])
    ]
  where
    sized :
        Accepts r c
        → Good r (
            if ltb r.max_payload (length c.body)
            then (r, incomplete)
            else elim (make_room r now c.fragment_id (length c.body)) [
              | fits q ↦ store q now c
              | refused q ↦ (q, incomplete)
              | out_of_fuel ↦ (r, panic)
            ])
    sized accepts = elim (Bool-cases (ltb r.max_payload (length c.body))) [
      | inl big ↦ rw big (v, (refl, refl, refl, refl, refl), (λ x. cc))
      | inr small ↦
          rw small
            (Made-Good r now c _ accepts lt (make_room-Made r now c.fragment_id (length c.body) v))
    ]

chunk_shape : (b : Bytes) {c : Chunk} → parse_chunk b ≡ some c → c.seq < c.total
unfolding parse_chunk
chunk_shape b {c = c} e = ground arith

reset-Shrunk :
    (r : Reassembler) (c : Chunk)
    → Inv r
    → Shrunk r (reset_changed r c)
      × ((p : Partial)
          → find Text-discrete c.fragment_id (reset_changed r c).buffers ≡ some p
          → p.total ≡ c.total)
unfolding reset_changed drop_partial
reset-Shrunk r c v = elim (Option-cases (find Text-discrete c.fragment_id r.buffers)) [
  | inl e ↦ rw (e, reset_changed) (Shrunk-refl v, λ p f. absurd (ground (arith, e, f)))
  | inr (p, e) ↦
      rw (e, reset_changed)
        (elim (Bool-cases (p.total == c.total)) [
          | inl same ↦ rw same (
            Shrunk-refl v,
            λ q f.
                subst (λ (x : Partial). x.total ≡ c.total) (some-injective p q (sym e ∙ f))
                  ((==_iff _ _).0 same),
          )
          | inr changed ↦ rw changed (
            drop_partial-Shrunk r c.fragment_id v,
            λ q f. absurd (
                ground
                  (arith, e, f, find-remove Text-discrete c.fragment_id c.fragment_id r.buffers)),
          )
        ])
]

feed_chunk-Good :
    (r : Reassembler) (now : ℕ) (c : Chunk) → Inv r → c.seq < c.total → Good r (feed_chunk r now c)
unfolding feed_chunk
feed_chunk-Good r now c v lt = elim (Bool-cases (ltb r.max_fragments c.total)) [
  | inl many ↦ rw many (v, (refl, refl, refl, refl, refl), (λ e. cc))
  | inr few ↦
      let s = gc-Shrunk r now v in
      rw few (elim (Bool-cases (has Text-discrete c.fragment_id (gc r now).evicted)) [
        | inl gone ↦ rw gone (s.inv, s.caps, (λ e. cc))
        | inr live ↦
            let (t, same) = reset-Shrunk (gc r now) c s.inv in
            rw live (
              Good-trans r (reset_changed (gc r now) c) _ (Shrunk-trans s t).caps
                (feed_live-Good (reset_changed (gc r now) c) now c t.inv same lt))
      ])
]

-- Whatever bytes arrive, at whatever time: the reassembler stays within its caps on partial
-- messages, on buffered bytes and on remembered ids, its byte count is exact, the caps do not
-- change, and no message is joined with a part missing.
pub feed-Inv : (r : Reassembler) (now : ℕ) (chunk : Bytes) → Inv r → Good r (feed r now chunk)
unfolding feed
feed-Inv r now chunk v = elim (Option-cases (parse_chunk chunk)) [
  | inl e ↦ rw (e, feed) (v, (refl, refl, refl, refl, refl), (λ x. cc))
  | inr (c, e) ↦ rw (e, feed) (feed_chunk-Good r now c v (chunk_shape chunk e))
]
