-- ===== src/Wire/Reassembler/Inv.antt =====
-- fragment.rs, `Reassembler`: the bounds on memory hold on every input.
use telesthete.Base.{
  ℕ, ◌≤◌, ◌<◌, ◌≡◌, inl, inr, refl, ◌∙◌, List, [], ◌∷◌, length, Option, none, some, ℕ_discrete,
  arith, Option-cases,
}
use telesthete.Base.Bytes.{Bytes}
use telesthete.Base.Maps.{find, Distinct, remove-Distinct, length-remove-le}
use telesthete.Base.Maps.Weight.{weight, Values, weight-remove, remove-Values}
use telesthete.Base.Text.{Text-discrete}
use telesthete.Wire.Reassembler.Evicted.{
  Covers, Covers-insert, trim_evicted-Covers, gc_evicted-Covers,
}
use telesthete.Wire.Reassembler.{
  Partial, Reassembler, drop_partial, evict, drop_all, gc, default_evicted_memory,
}

-- A buffered message: its parts are distinct, within `total`, not all there, and add up to `size`.
pub record IsPartial (p : Partial) : Type 0 where
  pub distinct : Distinct ℕ_discrete p.parts
  pub within : Values (λ i b. i < p.total) p.parts
  pub waiting : length p.parts < p.total
  pub sized : weight length p.parts ≡ p.size

abbrev pub InBudget : Option ℕ → ℕ → Type 0
InBudget none n = Unit {0}
InBudget (some b) n = n ≤ b

pub record Inv (r : Reassembler) : Type 0 where
  pub distinct : Distinct Text-discrete r.buffers
  pub partials : Values (λ k p. IsPartial p) r.buffers
  pub counted : weight (λ p. p.size) r.buffers ≡ r.bytes
  pub capacity : 1 ≤ r.limit
  pub few : length r.buffers ≤ r.limit
  pub budget : InBudget r.max_buffered_bytes r.bytes
  pub remembered : length r.evicted ≤ default_evicted_memory
  pub queued : Covers r.evicted r.evicted_order

-- The caps, which no operation changes.
abbrev pub SameCaps : Reassembler → Reassembler → Type 0
SameCaps r q =
    (q.limit ≡ r.limit)
    × (q.max_fragments ≡ r.max_fragments)
    × (q.max_payload ≡ r.max_payload)
    × (q.max_buffered_bytes ≡ r.max_buffered_bytes)
    × (q.timeout ≡ r.timeout)

-- `q` has no more than `r`: what each step that only drops things keeps.
pub record Shrunk (r q : Reassembler) : Type 0 where
  pub caps : SameCaps r q
  pub inv : Inv q
  pub lighter : q.bytes ≤ r.bytes
  pub fewer : length q.buffers ≤ length r.buffers

pub InBudget-le : (o : Option ℕ) {m n : ℕ} → m ≤ n → InBudget o n → InBudget o m
InBudget-le none h b = tt
InBudget-le (some c) h b = omega arith

pub drop_partial-Shrunk : (r : Reassembler) (fid : Bytes) → Inv r → Shrunk r (drop_partial r fid)
unfolding drop_partial
drop_partial-Shrunk r fid v = elim (Option-cases (find Text-discrete fid r.buffers)) [
  | inl e ↦
      rw (e, drop_partial)
        (record {
          caps = (refl, refl, refl, refl, refl);
          inv = v;
          lighter = omega arith;
          fewer = omega arith;
        })
  | inr (p, e) ↦
      let w = weight-remove Text-discrete (λ (q : Partial). q.size) fid p r.buffers v.distinct e in
      let l = length-remove-le Text-discrete fid r.buffers in
      rw (e, drop_partial)
        (record {
          caps = (refl, refl, refl, refl, refl);
          inv = record {
            distinct = remove-Distinct Text-discrete fid r.buffers v.distinct;
            partials = remove-Values Text-discrete (λ k p. IsPartial p) fid r.buffers v.partials;
            counted = omega (arith, v.counted);
            capacity = v.capacity;
            few = omega (arith, v.few);
            budget = InBudget-le r.max_buffered_bytes (omega arith) v.budget;
            remembered = v.remembered;
            queued = v.queued;
          };
          lighter = omega arith;
          fewer = l;
        })
]

pub Shrunk-trans : {p q r : Reassembler} → Shrunk p q → Shrunk q r → Shrunk p r
Shrunk-trans a b = record {
  caps = (
    b.caps.0 ∙ a.caps.0,
    b.caps.1 ∙ a.caps.1,
    b.caps.2 ∙ a.caps.2,
    b.caps.3 ∙ a.caps.3,
    b.caps.4 ∙ a.caps.4,
  );
  inv = b.inv;
  lighter = omega (arith, a.lighter, b.lighter);
  fewer = omega (arith, a.fewer, b.fewer);
}

pub Shrunk-refl : {r : Reassembler} → Inv r → Shrunk r r
Shrunk-refl v = record {
  caps = (refl, refl, refl, refl, refl);
  inv = v;
  lighter = omega arith;
  fewer = omega arith;
}

-- A change of the memory of evicted ids alone.
remember-Shrunk :
    (r : Reassembler) (m q : List (Bytes × ℕ))
    → Inv r
    → length m ≤ default_evicted_memory
    → Covers m q
    → Shrunk r (record r { evicted = m; evicted_order = q })
remember-Shrunk r m q v l c = record {
  caps = (refl, refl, refl, refl, refl);
  inv = record {
    distinct = v.distinct;
    partials = v.partials;
    counted = v.counted;
    capacity = v.capacity;
    few = v.few;
    budget = v.budget;
    remembered = l;
    queued = c;
  };
  lighter = omega arith;
  fewer = omega arith;
}

pub evict-Shrunk : (r : Reassembler) (fid : Bytes) (now : ℕ) → Inv r → Shrunk r (evict r fid now)
unfolding evict
evict-Shrunk r fid now v =
    let dropped = drop_partial-Shrunk r fid v in
    let r' = drop_partial r fid in
    let (c, l) =
      trim_evicted-Covers _ _
        (Covers-insert fid now r'.evicted r'.evicted_order dropped.inv.queued) in
    Shrunk-trans dropped (remember-Shrunk r' _ _ dropped.inv l c)

drop_all-Shrunk : (r : Reassembler) (ks : List Bytes) → Inv r → Shrunk r (drop_all r ks)
unfolding drop_all
drop_all-Shrunk r [] v = Shrunk-refl v
drop_all-Shrunk r (k ∷ ks) v =
    let dropped = drop_partial-Shrunk r k v in
    Shrunk-trans dropped (drop_all-Shrunk (drop_partial r k) ks dropped.inv)

pub gc-Shrunk : (r : Reassembler) (now : ℕ) → Inv r → Shrunk r (gc r now)
unfolding gc
gc-Shrunk r now v =
    let (c, l) = gc_evicted-Covers r now r.evicted r.evicted_order v.queued in
    let kept = remember-Shrunk r _ _ v (omega (arith, v.remembered)) c in
    Shrunk-trans kept (drop_all-Shrunk _ _ kept.inv)
