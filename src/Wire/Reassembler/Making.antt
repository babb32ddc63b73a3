-- ===== src/Wire/Reassembler/Making.antt =====
-- fragment.rs, the eviction loop of `feed`: when it makes room, and when it gives up.
use telesthete.Base.{ℕ, ◌+◌, ◌≤◌, ◌<◌, ◌≡◌, ◌⊎◌, Option, none, some}
use telesthete.Base.Bytes.{Bytes}
use telesthete.Base.Maps.{find}
use telesthete.Base.Text.{Text-discrete}
use telesthete.Wire.Reassembler.{Partial, Reassembler, Room, fits, refused}
use telesthete.Wire.Reassembler.Inv.{Inv}

abbrev size_of : Option Partial → ℕ
size_of none = 0
size_of (some p) = p.size

-- The bytes that are buffered for the message.
abbrev pub held : Reassembler → Bytes → ℕ
held r fid = size_of (find Text-discrete fid r.buffers)

-- Room for `n` bytes next to what is buffered for the message.
abbrev pub Fits : Reassembler → Bytes → ℕ → ℕ → Room → Type 0
Fits r fid n budget room =
    (q : Reassembler) × (room ≡ fits q)
    × (q.bytes + n ≤ budget)
    × (find Text-discrete fid q.buffers ≡ find Text-discrete fid r.buffers)

-- The chunk is refused: it is larger than the budget, and nothing changes, or the message is
-- forgotten.
abbrev pub Refused : Reassembler → Bytes → ℕ → ℕ → Room → Type 0
Refused r fid n budget room =
    (q : Reassembler) × (room ≡ refused q)
    × (((budget < n) × (q ≡ r)) ⊎ (find Text-discrete fid q.buffers ≡ none))
