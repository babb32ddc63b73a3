-- ===== src/Drop/Window.antt =====
-- drop_channel.rs: the frames of one window at the receiver.
use telesthete.Base.{
  opens, inl, inr, ◌≢◌, ℕ, zero, suc, ◌+◌, ◌-◌, ◌%◌, ◌^◌, ◌≤◌, ◌<◌, ◌≡◌, refl, sym, ap, ◌∙◌, List,
  [], ◌∷◌, ◌++◌, length, ◌==◌, arith, Option, none, some, Bool, true, false, Bool-cases, ℕ_discrete,
  if_pos, if_neg,
}
use mathlib.Core.Bool.{true≢false}
use telesthete.Base.Bytes.{Bytes}
use telesthete.Base.Maps.{has, insert, has-find, has-some, find-insert}
use telesthete.Drop.{Json}
use telesthete.Drop.Sender.{DropSenderCore, chunk_of, chunk_frame}
use telesthete.Drop.Receiver.{DropReceiverCore, has_chunk, all_have, store, drained, handle_frame}
use telesthete.Drop.Content.{length-insert_new, full_has_all, length_below}
use telesthete.Drop.Steps.{IsSender, Holding, store-Holding, handle_frame-chunk_frame}

has-insert_same :
    (i : ℕ) (b : Bytes) (m : List (ℕ × Bytes)) → has_chunk i (insert ℕ_discrete i b m) ≡ true
has-insert_same i b m =
    has-some ℕ_discrete i _ (find-insert ℕ_discrete i i b m ∙ if_pos (ℕ_discrete i i) refl _ _)

has-insert_other :
    (i k : ℕ) (b : Bytes) (m : List (ℕ × Bytes))
    → i ≢ k
    → has_chunk k (insert ℕ_discrete i b m) ≡ has_chunk k m
unfolding has
has-insert_other i k b m ne =
    ap (λ (o : Option Bytes). elim o as (λ x. Bool) [ none ↦ false | some v ↦ true ])
      (find-insert ℕ_discrete i k b m ∙ if_neg (ℕ_discrete i k) ne _ _)

pub all_have-true :
    (n s : ℕ) (m : List (ℕ × Bytes))
    → ((k : ℕ) → s ≤ k → k < s + n → has_chunk k m ≡ true)
    → all_have n s m ≡ true
unfolding all_have
all_have-true zero s m h = refl
all_have-true (suc n) s m h =
    rw (h s (omega arith) (omega arith))
      (all_have-true n (s + 1) m (λ k lo hi. h k (omega arith) (omega arith)))

all_have-false :
    (n s k : ℕ) (m : List (ℕ × Bytes))
    → s ≤ k
    → k < s + n
    → has_chunk k m ≡ false
    → all_have n s m ≡ false
unfolding all_have
all_have-false zero s k m lo hi h = absurd (omega arith)
all_have-false (suc n) s k m lo hi h = elim (ℕ_discrete s k) [
  | yes e ↦ rw (ap (λ j. has_chunk j m) e ∙ h) refl
  | no ne ↦
      let rest : all_have n (s + 1) m ≡ false =
        all_have-false n (s + 1) k m (omega (arith, ne)) (omega arith) h in
      elim (Bool-cases (has_chunk s m)) [ inl e ↦ rw (e, rest) refl | inr e ↦ rw e refl ]
]

module _ {Addr : Type 0} where
  -- A receiver that waits for the window `[lo, lo + n]` of an honest sender at `a`, whose last
  -- chunk it lacks.
  pub record Waiting (s : DropSenderCore Addr) (a : Addr) (lo n : ℕ) (c : DropReceiverCore Addr)
      : Type 0 where
    pub holding : Holding s c
    pub sender_addr : c.sender_addr ≡ some a
    pub verified : c.verified ≡ none
    pub outstanding : c.outstanding ≡ some (lo, lo + suc n)
    pub inside : lo + n < s.total_chunks
    pub few : n < 64
    pub lacking : has_chunk (lo + n) c.have_ ≡ false

  module _ (json : Json) (sha256 : Bytes → Bytes) where
    -- A chunk is lacking, so there are fewer than the file has.
    pub length-Waiting :
        (s : DropSenderCore Addr) (a : Addr) (lo n : ℕ) (c : DropReceiverCore Addr)
        → Waiting s a lo n c
        → length c.have_ < s.total_chunks
    length-Waiting s a lo n c w =
        let h = w.holding in
        let most : length c.have_ ≤ s.total_chunks =
          length_below s.total_chunks c.have_ h.distinct h.below in
        elim (ℕ_discrete (length c.have_) s.total_chunks) [
          | yes e ↦
              let (b, got) =
                full_has_all s.total_chunks (lo + n) c.have_ h.distinct h.below e w.inside in
              absurd (true≢false (sym (has-some ℕ_discrete (lo + n) c.have_ got) ∙ w.lacking))
          | no ne ↦ omega (arith, ne)
        ]

    unfinished :
        (s : DropSenderCore Addr) (a : Addr) (lo n : ℕ) (c : DropReceiverCore Addr)
        → IsSender sha256 s
        → Waiting s a lo n c
        → (length c.have_ % 2 ^ 32 == s.total_chunks) ≡ false
    unfinished s a lo n c v w = ground (arith, length-Waiting s a lo n c w, v.small)

    undrained :
        (s : DropSenderCore Addr) (a : Addr) (lo n : ℕ) (c : DropReceiverCore Addr)
        → Waiting s a lo n c
        → drained json sha256 c ≡ false
    unfolding drained
    undrained s a lo n c w =
        opens _ _ _ _ w.outstanding
        ∙ all_have-false (lo + suc n - lo) lo (lo + n) c.have_ (omega arith) (omega arith) w.lacking

    -- The requests and verdicts that the receiver answers to frames, one after the other.
    unfoldable pub feed_all :
        DropReceiverCore Addr → Addr → List Bytes → ℕ → Option (DropReceiverCore Addr × List Bytes)
    feed_all c from [] now = some (c, [])
    feed_all c from (f ∷ fs) now = elim (handle_frame json sha256 c from f now) [
      | none ↦ none
      | some step ↦ elim (feed_all step.0 from fs now) [
        | none ↦ none
        | some rest ↦ some (rest.0, step.1 ++ rest.1)
      ]
    ]

    pub has-store_same :
        (c : DropReceiverCore Addr) (i : ℕ) (b : Bytes) (now : ℕ)
        → has_chunk i (store json sha256 c i b now).have_ ≡ true
    unfolding store
    has-store_same c i b now = elim (Bool-cases (has_chunk i c.have_)) [
      | inl held ↦ rw held held
      | inr new ↦ rw new (has-insert_same i b c.have_)
    ]

    pub has-store_other :
        (c : DropReceiverCore Addr) (i k : ℕ) (b : Bytes) (now : ℕ)
        → i ≢ k
        → has_chunk k (store json sha256 c i b now).have_ ≡ has_chunk k c.have_
    unfolding store
    has-store_other c i k b now ne = elim (Bool-cases (has_chunk i c.have_)) [
      | inl held ↦ rw held refl
      | inr new ↦ rw new (has-insert_other i k b c.have_ ne)
    ]

    -- The other fields stay.
    pub store_fields :
        (c : DropReceiverCore Addr) (i : ℕ) (b : Bytes) (now : ℕ)
        → (let c' = store json sha256 c i b now in
            (c'.sender_addr ≡ c.sender_addr)
            × (c'.verified ≡ c.verified)
            × (c'.outstanding ≡ c.outstanding))
    unfolding store
    store_fields c i b now = elim (Bool-cases (has_chunk i c.have_)) [
      | inl held ↦ rw held (refl, refl, refl)
      | inr new ↦ rw new (refl, refl, refl)
    ]

    -- No chunk is lost.
    pub length-store_le :
        (c : DropReceiverCore Addr) (i : ℕ) (b : Bytes) (now : ℕ)
        → length c.have_ ≤ length (store json sha256 c i b now).have_
    unfolding store
    length-store_le c i b now = elim (Bool-cases (has_chunk i c.have_)) [
      | inl held ↦ rw held (omega arith)
      | inr new ↦
          rw new (omega (arith, length-insert_new i b c.have_ (has-find ℕ_discrete i c.have_ new)))
    ]

    pub store-Waiting :
        (s : DropSenderCore Addr) (a : Addr) (lo n i : ℕ) (c : DropReceiverCore Addr) (now : ℕ)
        → Waiting s a lo n c
        → i < lo + n
        → Waiting s a lo n (store json sha256 c i (chunk_of s.data_ i) now)
    store-Waiting s a lo n i c now w lt =
        let (addr, verified, out) = store_fields c i (chunk_of s.data_ i) now in
        record {
          holding = store-Holding json sha256 s c i now (omega (arith, w.inside)) w.holding;
          sender_addr = addr ∙ w.sender_addr;
          verified = verified ∙ w.verified;
          outstanding = out ∙ w.outstanding;
          inside = w.inside;
          few = w.few;
          lacking = has-store_other c i (lo + n) _ now (omega arith) ∙ w.lacking;
        }

    -- A new chunk makes one more.
    pub length-store_new :
        (c : DropReceiverCore Addr) (i : ℕ) (b : Bytes) (now : ℕ)
        → has_chunk i c.have_ ≡ false
        → length (store json sha256 c i b now).have_ ≡ length c.have_ + 1
    unfolding store
    length-store_new c i b now e =
        rw e (length-insert_new i b c.have_ (has-find ℕ_discrete i c.have_ e))

    -- Before its last chunk arrives, a window is neither drained nor does it complete the file.
    pub handle_frame-early :
        (s : DropSenderCore Addr) (a : Addr) (lo n i : ℕ) (c : DropReceiverCore Addr) (now : ℕ)
        → IsSender sha256 s
        → Waiting s a lo n c
        → lo ≤ i
        → i < lo + n
        → handle_frame json sha256 c a (chunk_frame s.data_ i) now
          ≡ some (store json sha256 c i (chunk_of s.data_ i) now, [])
    handle_frame-early s a lo n i c now v w from lt =
        let c' : DropReceiverCore Addr = store json sha256 c i (chunk_of s.data_ i) now in
        let w' : Waiting s a lo n c' = store-Waiting s a lo n i c now w lt in
        handle_frame-chunk_frame json sha256 s c a i now v (omega (arith, w.inside)) w.holding
        ∙ rw (unfinished s a lo n c' v w', undrained s a lo n c' w') refl
