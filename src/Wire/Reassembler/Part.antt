-- ===== src/Wire/Reassembler/Part.antt =====
-- fragment.rs, the end of `feed`: one part more for a message that waits for it.
use telesthete.Base.{
  ◌+◌, ◌-◌, ◌<◌, ◌≡◌, ◌≢◌, inl, inr, refl, ap, List, length, none, some, ℕ_discrete, arith,
  Bool-cases, ◌==◌, ==_iff,
}
use telesthete.Base.Bytes.{Bytes}
use telesthete.Base.Maps.{
  find, insert, remove, Distinct, find-insert, insert-Distinct, remove-Distinct, length-remove-le,
}
use telesthete.Base.Maps.Weight.{
  weight, Values, weight-insert, weight-insert_new, weight-remove, length-insert, length-insert_new,
  find-Values, insert-Values, remove-Values, remove-insert,
}
use telesthete.Base.Text.{Text-discrete}
use telesthete.Wire.Fragment.{Chunk}
use telesthete.Wire.Reassembler.{Partial, Reassembler, Outcome, panic, add_part, complete, join}
use telesthete.Wire.Reassembler.Inv.{Inv, IsPartial, InBudget, InBudget-le, SameCaps}
use telesthete.Wire.Reassembler.Parts.{find_full, join_full, Joined}

abbrev pub Good : Reassembler → Reassembler × Outcome → Type 0
Good r (q, o) = Inv q × SameCaps r q × (o ≢ panic)

-- One part more for a message that waits for it.
module _ (r : Reassembler) (c : Chunk) (p : Partial) (v : Inv r)
    (found : find Text-discrete c.fragment_id r.buffers ≡ some p) (same : p.total ≡ c.total)
    (new : find ℕ_discrete c.seq p.parts ≡ none) (lt : c.seq < c.total)
    (room : InBudget r.max_buffered_bytes (r.bytes + length c.body)) where
  valid : IsPartial p
  valid = find-Values Text-discrete (λ k q. IsPartial q) c.fragment_id p r.buffers v.partials found

  unfoldable pub filled : Partial
  filled = add_part c p

  unfoldable pub buffers' : List (Bytes × Partial)
  unfolding filled
  buffers' = insert Text-discrete c.fragment_id filled r.buffers

  pub filled_parts : length filled.parts ≡ length p.parts + 1
  unfolding filled add_part
  filled_parts = length-insert_new ℕ_discrete c.seq c.body p.parts new

  filled-Distinct : Distinct ℕ_discrete filled.parts
  unfolding filled add_part
  filled-Distinct = insert-Distinct ℕ_discrete c.seq c.body p.parts valid.distinct

  filled-within : Values (λ i b. i < p.total) filled.parts
  unfolding filled add_part
  filled-within =
      insert-Values ℕ_discrete (λ i b. i < p.total) c.seq c.body p.parts (omega arith) valid.within

  filled-sized : weight length filled.parts ≡ filled.size
  unfolding filled add_part
  filled-sized =
      omega (arith, weight-insert_new ℕ_discrete length c.seq c.body p.parts new, valid.sized)

  filled_size : filled.size ≡ p.size + length c.body
  unfolding filled add_part
  filled_size = refl

  weight' : weight (λ q. q.size) buffers' ≡ r.bytes + length c.body
  unfolding buffers'
  weight' = omega (
    arith,
    weight-insert Text-discrete (λ (q : Partial). q.size) c.fragment_id p filled r.buffers found,
    filled_size,
    v.counted,
  )

  pub find' : find Text-discrete c.fragment_id buffers' ≡ some filled
  unfolding buffers'
  find' = ground (arith, find-insert Text-discrete c.fragment_id c.fragment_id filled r.buffers)

  distinct' : Distinct Text-discrete buffers'
  unfolding buffers'
  distinct' = insert-Distinct Text-discrete c.fragment_id filled r.buffers v.distinct

  pub waits-Inv :
      length filled.parts < p.total
      → Inv (record r { buffers = buffers'; bytes = r.bytes + length c.body })
  unfolding buffers'
  waits-Inv less = record {
    distinct = distinct';
    partials =
        insert-Values Text-discrete (λ k q. IsPartial q) c.fragment_id filled r.buffers
          (unfold filled add_part in
            record {
              distinct = filled-Distinct;
              within = filled-within;
              waiting = less;
              sized = filled-sized;
            })
          v.partials;
    counted = weight';
    capacity = v.capacity;
    few = omega (arith, v.few, length-insert Text-discrete c.fragment_id p filled r.buffers found);
    budget = room;
    remembered = v.remembered;
    queued = v.queued;
  }

  pub done-Inv : Inv (record r {
    buffers = remove Text-discrete c.fragment_id buffers';
    bytes = r.bytes + length c.body - filled.size;
  })
  unfolding buffers'
  done-Inv =
      let w =
        weight-remove Text-discrete (λ (q : Partial). q.size) c.fragment_id filled buffers'
          distinct' find' in
      let gone = remove-insert Text-discrete c.fragment_id filled r.buffers in
      record {
        distinct = remove-Distinct Text-discrete c.fragment_id buffers' distinct';
        partials =
            rw gone
              (remove-Values Text-discrete (λ k q. IsPartial q) c.fragment_id r.buffers v.partials);
        counted = omega (arith, w, weight');
        capacity = v.capacity;
        few =
            omega (
              arith,
              ap length gone,
              length-remove-le Text-discrete c.fragment_id r.buffers,
              v.few,
            );
        budget = InBudget-le r.max_buffered_bytes (omega arith) room;
        remembered = v.remembered;
        queued = v.queued;
      }

  -- Nothing is missing when the count says that the message is whole.
  pub whole :
      length filled.parts ≡ p.total
      → (bs : Bytes) × (join p.total 0 filled.parts ≡ some bs) × Joined filled.parts p.total 0 bs
  whole full =
      join_full p.total 0 filled.parts
        λ j lo hi. find_full p.total j filled.parts filled-Distinct filled-within full (omega arith)

  -- The chunk's part completes the message or waits with the others; there is no panic.
  pub complete-Good : Good r (
      complete
        (record r { buffers = buffers'; bytes = r.bytes + length c.body })
        c.fragment_id
        filled)
  unfolding complete filled add_part
  complete-Good = elim (Bool-cases (length filled.parts == p.total)) [
    | inl full ↦
        let (bs, joined, in_order) = whole ((==_iff _ _).0 full) in
        rw (full, joined) (done-Inv, (refl, refl, refl, refl, refl), (λ e. cc))
    | inr waits ↦ rw waits (
      waits-Inv (ground (arith, valid.waiting, filled_parts)),
      (refl, refl, refl, refl, refl),
      (λ e. cc),
    )
  ]
