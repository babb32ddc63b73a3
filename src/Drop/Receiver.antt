-- ===== src/Drop/Receiver.antt =====
-- drop_channel.rs, `DropReceiverCore`. An index of `have` that is not there panics: `none`.
use telesthete.Base.{
  ℕ, zero, suc, ◌+◌, ◌-◌, ◌%◌, ◌^◌, min, List, [], ◌∷◌, ◌++◌, length, take, drop, ltb, leb,
  if◌then◌else◌, ◌==◌, ◌||◌, ◌&&◌, not, Option, none, some, Bool, true, false, ℕ_discrete,
}
use telesthete.Base.Bytes.{Bytes, from_be_bytes}
use telesthete.Base.Maps.{find, has, insert}
use telesthete.Base.Text.{text_eq}
use telesthete.Drop.{
  max_range_chunks, rerequest_timeout, type_offer, type_request, type_chunk, type_done, pos,
  OfferPayload, Json, sha256_hex, json_frame,
}

pub record DropReceiverCore (Addr : Type 0) : Type 0 where
  pub offer : Option OfferPayload
  pub have_ : List (ℕ × Bytes)
  pub sender_addr : Option Addr
  pub verified : Option Bool
  pub outstanding : Option (ℕ × ℕ)
  pub last_progress : Option ℕ
  pub timeout : ℕ
  pub completion : Option (Bytes × Bool)

abbrev pub has_chunk : ℕ → List (ℕ × Bytes) → Bool
has_chunk = has ℕ_discrete

-- `while s < i`: a run of missing chunks in pieces of at most 64. The first number bounds the
-- rounds, and `s` wraps around as a `u32`.
unfoldable pub split_run : ℕ → ℕ → ℕ → List (ℕ × ℕ)
split_run zero s i = []
split_run (suc fuel) s i =
    let next = (s + max_range_chunks) % 2 ^ 32 in
    let rest = split_run fuel next i in if ltb s i then (s, min next i) ∷ rest else []

-- The run that ends before `i`, if there is one.
unfoldable pub close_run : Option ℕ → ℕ → List (ℕ × ℕ)
close_run none i = []
close_run (some rs) i = split_run (i - rs) rs i

-- `for i in 0..=total`, with `left` indexes to go below `total`.
unfoldable pub scan : List (ℕ × Bytes) → ℕ → ℕ → Option ℕ → List (ℕ × ℕ)
scan have_ zero i run_start = close_run run_start i
scan have_ (suc left) i run_start =
    let in_run = scan have_ left (i + 1) run_start in
    let new_run = scan have_ left (i + 1) (some i) in
    let no_run = scan have_ left (i + 1) none in
    if has_chunk i have_
    then close_run run_start i ++ no_run
    else elim run_start [ none ↦ new_run | some rs ↦ in_run ]

-- `(s..e).all(|i| self.have.contains_key(&i))`, `n` indexes from `s` on.
unfoldable pub all_have : ℕ → ℕ → List (ℕ × Bytes) → Bool
all_have zero s have_ = true
all_have (suc n) s have_ = has_chunk s have_ && all_have n (s + 1) have_

-- `for i in 0..total`: the chunks one after the other, `none` where `self.have[&i]` panics.
unfoldable pub gather : ℕ → ℕ → List (ℕ × Bytes) → Option Bytes
gather zero i have_ = some []
gather (suc n) i have_ = elim (find ℕ_discrete i have_) [
  | none ↦ none
  | some b ↦ elim (gather n (i + 1) have_) [ none ↦ none | some rest ↦ some (b ++ rest) ]
]

module _ {Addr : Type 0} where
  unfoldable pub new : List (ℕ × Bytes) → DropReceiverCore Addr
  new have_ = record {
    offer = none;
    have_ = have_;
    sender_addr = none;
    verified = none;
    outstanding = none;
    last_progress = none;
    timeout = rerequest_timeout;
    completion = none;
  }

  unfoldable pub missing_ranges : DropReceiverCore Addr → List (ℕ × ℕ)
  missing_ranges c =
      let total : ℕ = elim c.offer [ none ↦ 0 | some o ↦ o.total_chunks % 2 ^ 32 ] in
      scan c.have_ total 0 none

  -- `take_completion`.
  unfoldable pub take_completion :
      DropReceiverCore Addr → DropReceiverCore Addr × Option (Bytes × Bool)
  take_completion c = (record c { completion = none }, c.completion)

  module _ (json : Json) where
    unfoldable pub request_missing : DropReceiverCore Addr → DropReceiverCore Addr × List Bytes
    request_missing c = elim c.offer [
      | none ↦ (c, [])
      | some o ↦ elim c.sender_addr [
        | none ↦ (c, [])
        | some a ↦ elim c.verified [
          | some v ↦ (c, [])
          | none ↦ elim (missing_ranges c) [
            | [] ↦ (c, [])
            | range ∷ rest ↦ (
              record c { outstanding = some range },
              json_frame type_request (json.write_request ((pos range.0, pos range.1) ∷ [])) ∷ [],
            )
          ]
        ]
      ]
    ]

    -- Nothing arrived for the timeout.
    unfoldable pub idle : DropReceiverCore Addr → ℕ → Bool
    idle c now = elim c.last_progress [ none ↦ true | some t ↦ ltb c.timeout (now - t) ]

    unfoldable pub tick : DropReceiverCore Addr → ℕ → DropReceiverCore Addr × List Bytes
    tick c now = elim c.offer [
      | none ↦ (c, [])
      | some o ↦ elim c.verified [
        | some v ↦ (c, [])
        | none ↦
            if idle c now then request_missing (record c { last_progress = some now }) else (c, [])
      ]
    ]

    module _ (sha256 : Bytes → Bytes) where
      unfoldable pub finish :
          DropReceiverCore Addr → OfferPayload → Option (DropReceiverCore Addr × List Bytes)
      finish c offer = elim (gather (offer.total_chunks % 2 ^ 32) 0 c.have_) [
        | none ↦ none
        | some all_ ↦
            let data_ = take offer.size all_ in
            let hex = sha256_hex sha256 data_ in
            let ok = text_eq hex offer.sha256 in
            some (
              record c { verified = some ok; completion = some (data_, ok) },
              json_frame type_done (json.write_done hex) ∷ [],
            )
      ]

      unfoldable pub on_offer :
          DropReceiverCore Addr → Addr → OfferPayload → ℕ → DropReceiverCore Addr × List Bytes
      on_offer c from offer now =
          let kept : DropReceiverCore Addr = elim c.offer [
            | none ↦ c
            | some prev ↦
                if not (text_eq offer.sha256 prev.sha256) || not (offer.size == prev.size)
                then record c { have_ = []; verified = none }
                else c
          ] in
          request_missing
            (record kept { offer = some offer; sender_addr = some from; last_progress = some now })

      -- `self.have.entry(index)`, when it is vacant.
      unfoldable pub store : DropReceiverCore Addr → ℕ → Bytes → ℕ → DropReceiverCore Addr
      store c index chunk now =
          if has_chunk index c.have_
          then c
          else record c { have_ = insert ℕ_discrete index chunk c.have_; last_progress = some now }

      -- `self.outstanding.is_some_and(...)`.
      unfoldable pub drained : DropReceiverCore Addr → Bool
      drained c = elim c.outstanding [ none ↦ false | some w ↦ all_have (w.1 - w.0) w.0 c.have_ ]

      unfoldable pub on_chunk :
          DropReceiverCore Addr
          → OfferPayload
          → Bytes
          → ℕ
          → Option (DropReceiverCore Addr × List Bytes)
      on_chunk c offer body now =
          let index = from_be_bytes (take 4 body) in
          let total = offer.total_chunks % 2 ^ 32 in
          let c' = store c index (drop 4 body) now in
          if ltb (length body) 4
          then some (c, [])
          else if leb total index
          then some (c, [])
          else if length c'.have_ % 2 ^ 32 == total
          then finish c' offer
          else if drained c'
          then some (request_missing c')
          else some (c', [])

      unfoldable pub handle_frame :
          DropReceiverCore Addr → Addr → Bytes → ℕ → Option (DropReceiverCore Addr × List Bytes)
      handle_frame c from [] now = some (c, [])
      handle_frame c from (type_ ∷ body) now =
          if type_ == type_offer
          then elim (json.read_offer body) [
            | none ↦ some (c, [])
            | some offer ↦ some (on_offer c from offer now)
          ]
          else if type_ == type_chunk
          then elim c.offer [ none ↦ some (c, []) | some offer ↦ on_chunk c offer body now ]
          else some (c, [])
