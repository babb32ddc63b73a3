-- ===== src/Wire/Reassembler/Eviction.antt =====
-- fragment.rs, `oldest` and the eviction loop of `feed`.
use telesthete.Base.{
  ℕ, zero, suc, ◌+◌, ◌<◌, ◌≡◌, ◌≢◌, inl, inr, refl, sym, ap, subst, ◌∙◌, List, [], ◌∷◌, length, ltb,
  Option, none, some, arith, Option-cases, Bool-cases, ltb→le, if◌then◌else◌,
}
use telesthete.Base.Bytes.{Bytes}
use telesthete.Base.Maps.{find, Distinct, find-remove}
use telesthete.Base.Maps.Weight.{length-remove}
use telesthete.Base.Text.{Text-discrete}
use telesthete.Wire.Reassembler.{
  Partial, Reassembler, Room, fits, refused, out_of_fuel, oldest, oldest_of, drop_partial, evict,
  make_room_loop, make_room,
}
use telesthete.Wire.Reassembler.Inv.{Inv, InBudget, Shrunk, Shrunk-trans, Shrunk-refl, evict-Shrunk}

-- The oldest entry is an entry, and not the excluded one.
oldest_of_found :
    (x : Option Bytes) (m : List (Bytes × Partial)) {k : Bytes} {p : Partial}
    → Distinct Text-discrete m
    → oldest_of x m ≡ some (k, p)
    → (find Text-discrete k m ≡ some p) × (x ≢ some k)
unfolding oldest_of find
oldest_of_found x [] d e = ground arith
oldest_of_found none ((j, q) ∷ m) {k = k} {p = p} d e = elim (Option-cases (oldest_of none m)) [
  | inl r ↦ ground (arith, r)
  | inr ((i, s), r) ↦ ground (arith, r, oldest_of_found none m {k = i} {p = s} d.1 r)
]
oldest_of_found (some x) ((j, q) ∷ m) {k = k} {p = p} d e =
    elim (Option-cases (oldest_of (some x) m)) [
      | inl r ↦ ground (arith, r)
      | inr ((i, s), r) ↦ ground (arith, r, oldest_of_found (some x) m {k = i} {p = s} d.1 r)
    ]

-- Where nothing is excluded, there is an oldest entry unless there is none at all.
oldest_of-none : (m : List (Bytes × Partial)) → oldest_of none m ≡ none → m ≡ []
unfolding oldest_of
oldest_of-none [] e = refl
oldest_of-none ((j, q) ∷ m) e = ground arith

pub oldest_found :
    (r : Reassembler) (x : Option Bytes) {k : Bytes}
    → Inv r
    → oldest r x ≡ some k
    → (p : Partial) × (find Text-discrete k r.buffers ≡ some p) × (x ≢ some k)
unfolding oldest
oldest_found r x {k = k} v e = elim (Option-cases (oldest_of x r.buffers)) [
  | inl n ↦ absurd (ground (arith, n))
  | inr ((j, p), f) ↦
      let (found, other) = oldest_of_found x r.buffers v.distinct f in
      let same : j ≡ k = ground (arith, f) in
      subst
        (λ (i : Bytes). (q : Partial) × (find Text-discrete i r.buffers ≡ some q) × (x ≢ some i))
        same (p, found, other)
]

pub oldest-none : (r : Reassembler) → oldest r none ≡ none → r.buffers ≡ []
unfolding oldest
oldest-none r e = elim (Option-cases (oldest_of none r.buffers)) [
  | inl n ↦ oldest_of-none r.buffers n
  | inr ((j, p), f) ↦ absurd (ground (arith, f))
]

-- An eviction takes one entry off the buffers, and leaves the others.
pub evict_buffers :
    (r : Reassembler) (fid : Bytes) (now : ℕ)
    → (evict r fid now).buffers ≡ (drop_partial r fid).buffers
unfolding evict
evict_buffers r fid now = refl

pub evict_fewer :
    (r : Reassembler) (fid : Bytes) (now : ℕ) {p : Partial}
    → Inv r
    → find Text-discrete fid r.buffers ≡ some p
    → length (evict r fid now).buffers + 1 ≡ length r.buffers
unfolding drop_partial
evict_fewer r fid now {p = p} v e =
    rw (evict_buffers r fid now, e, drop_partial)
      (length-remove Text-discrete fid p r.buffers v.distinct e)

pub evict_other :
    (r : Reassembler) (fid k : Bytes) (now : ℕ)
    → fid ≢ k
    → find Text-discrete k (evict r fid now).buffers ≡ find Text-discrete k r.buffers
unfolding drop_partial
evict_other r fid k now ne = elim (Option-cases (find Text-discrete fid r.buffers)) [
  | inl e ↦ rw (evict_buffers r fid now, e, drop_partial)
  | inr (p, e) ↦
      rw (evict_buffers r fid now, e, drop_partial)
        (ground (arith, find-remove Text-discrete fid k r.buffers))
]

-- What the loop comes to: room for `n` bytes with the message's own entry untouched, or a refusal
-- that only dropped things.
abbrev pub Made : Reassembler → Bytes → ℕ → Room → Type 0
Made r fid n (fits q) =
    Shrunk r q
    × InBudget q.max_buffered_bytes (q.bytes + n)
    × (find Text-discrete fid q.buffers ≡ find Text-discrete fid r.buffers)
Made r fid n (refused q) = Shrunk r q
Made r fid n out_of_fuel = ⊥

Made-trans :
    (r q : Reassembler) (fid : Bytes) (n : ℕ) (room : Room)
    → Shrunk r q
    → find Text-discrete fid q.buffers ≡ find Text-discrete fid r.buffers
    → Made q fid n room
    → Made r fid n room
Made-trans r q fid n (fits s) h e (m, b, f) = (Shrunk-trans h m, b, f ∙ e)
Made-trans r q fid n (refused s) h e m = Shrunk-trans h m
Made-trans r q fid n out_of_fuel h e m = m

make_room_loop-Made :
    (fuel : ℕ) (r : Reassembler) (now : ℕ) (fid : Bytes) (n budget : ℕ)
    → Inv r
    → r.max_buffered_bytes ≡ some budget
    → length r.buffers < fuel
    → Made r fid n (make_room_loop fuel r now fid n budget)
unfolding make_room_loop
make_room_loop-Made zero r now fid n budget v b h = absurd (omega arith)
make_room_loop-Made (suc fuel) r now fid n budget v b h =
    elim (Bool-cases (ltb budget (r.bytes + n))) [
      | inr fine ↦
          rw fine
            (Shrunk-refl v, subst (λ o. InBudget o (r.bytes + n)) (sym b) (ltb→le _ _ fine), refl)
      | inl over ↦ rw over (elim (Option-cases (oldest r (some fid))) [
        | inl e ↦ rw (e, make_room_loop) (evict-Shrunk r fid now v)
        | inr (k, e) ↦
            let (p, found, other) = oldest_found r (some fid) v e in
            let q = evict r k now in
            let s = evict-Shrunk r k now v in
            rw (e, make_room_loop)
              (Made-trans r q fid n _ s
                (evict_other r k fid now (λ same. other (ap some (sym same))))
                (make_room_loop-Made fuel q now fid n budget s.inv (s.caps.3 ∙ b)
                  (omega (arith, evict_fewer r k now v found))))
      ])
    ]

-- The loop ends within its fuel, with room made or the chunk refused.
pub make_room-Made :
    (r : Reassembler) (now : ℕ) (fid : Bytes) (n : ℕ) → Inv r → Made r fid n (make_room r now fid n)
unfolding make_room
make_room-Made r now fid n v = made_at r.max_buffered_bytes refl
  where
    made_at :
        (o : Option ℕ)
        → r.max_buffered_bytes ≡ o
        → Made r fid n (elim o [
          | none ↦ fits r
          | some budget ↦
              if ltb budget n
              then refused r
              else make_room_loop (suc (length r.buffers)) r now fid n budget
        ])
    made_at none e = (Shrunk-refl v, subst (λ o. InBudget o (r.bytes + n)) (sym e) tt, refl)
    made_at (some b) e = elim (Bool-cases (ltb b n)) [
      | inl big ↦ rw big (Shrunk-refl v)
      | inr small ↦
          rw small (make_room_loop-Made (suc (length r.buffers)) r now fid n b v e (omega arith))
    ]

pub evict_absent :
    (r : Reassembler) (fid k : Bytes) (now : ℕ)
    → find Text-discrete k r.buffers ≡ none
    → find Text-discrete k (evict r fid now).buffers ≡ none
unfolding drop_partial
evict_absent r fid k now h = elim (Option-cases (find Text-discrete fid r.buffers)) [
  | inl e ↦ rw (evict_buffers r fid now, e, drop_partial) h
  | inr (p, e) ↦
      rw (evict_buffers r fid now, e, drop_partial)
        (ground (arith, find-remove Text-discrete fid k r.buffers))
]
