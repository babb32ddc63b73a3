-- ===== src/Registry/Budget.antt =====
-- registry.rs, `ByteBudget` and `Sink::try_send`: the cap on the bytes in UDP queues.
use telesthete.Base.{
  ℕ, ◌+◌, ◌-◌, ◌%◌, ◌^◌, ◌≤◌, ◌<◌, ◌≡◌, ltb, leb, if◌then◌else◌, ◌==◌, ◌||◌, ◌&&◌, Option, none,
  some,
}
use telesthete.Base.Results.{Result, ok, err}

pub record ByteBudget : Type 0 where
  pub used : ℕ
  pub limit : ℕ

-- `none` is a refusal; the addition is checked on 64 bits.
unfoldable pub try_reserve : ByteBudget → ℕ → Option ByteBudget
try_reserve b n =
    if ltb (b.used + n) (2 ^ 64) && ((b.limit == 0) || leb (b.used + n) b.limit)
    then some (record b { used = b.used + n })
    else none

-- `fetch_sub` wraps around.
unfoldable pub release : ByteBudget → ℕ → ByteBudget
release b n = record b { used = (b.used + 2 ^ 64 - n) % 2 ^ 64 }

pub data SendDrop : Type 0 where
  full over_budget shut : SendDrop

-- The queue's own answer to `try_send`, a call of the runtime: taken, or full, or closed.
pub data Answer : Type 0 where
  taken refused closed : Answer

unfoldable pub try_send_udp : ByteBudget → ℕ → Answer → ByteBudget × Result SendDrop Unit
unfolding try_reserve release
try_send_udp b n answer = elim (try_reserve b n) [
  | none ↦ (b, err over_budget)
  | some b' ↦ elim answer [
    | taken ↦ (b', ok tt)
    | refused ↦ (release b' n, err full)
    | closed ↦ (release b' n, err shut)
  ]
]

unfoldable pub try_send_conn : Answer → Result SendDrop Unit
try_send_conn answer = elim answer [ taken ↦ ok tt | refused ↦ err full | closed ↦ err shut ]

-- The budget is within its limit, and its count in 64 bits.
abbrev pub Within : ByteBudget → Type 0
Within b = (b.used < 2 ^ 64) × ((b.limit ≡ 0 → ⊥) → b.used ≤ b.limit)
