-- ===== src/Base/Str.antt =====
-- Methods of Rust's `str` that the configuration uses, on the bytes of UTF-8.
use telesthete.Base.{
  ℕ, zero, suc, ◌+◌, ◌*◌, ◌-◌, List, [], ◌∷◌, Option, some, none, length, take, drop, get_or, leb,
  ◌==◌, ◌&&◌, ◌||◌, if◌then◌else◌, Bool, true, false, map,
}
use mathlib.Core.List.{reverse}
use telesthete.Base.Text.{Text, text_eq}

-- The bytes of the white space character that the text begins with, 0 without one.
unfoldable pub space_len : Text → ℕ
space_len s =
    let a = get_or s 0 0 in
    let b = get_or s 1 0 in
    let c = get_or s 2 0 in
    if leb 9 a && leb a 13 || a == 32
    then 1
    else if (a == 0xc2) && (b == 0x85 || b == 0xa0)
    then 2
    else if ((a == 0xe1) && (b == 0x9a) && (c == 0x80))
        || ((a == 0xe2)
            && (b == 0x80)
            && ((leb 0x80 c && leb c 0x8a) || c == 0xa8 || c == 0xa9 || c == 0xaf))
        || ((a == 0xe2) && (b == 0x81) && (c == 0x9f))
        || ((a == 0xe3) && (b == 0x80) && (c == 0x80))
    then 3
    else 0

-- The same at the end of a text that is given from its last byte.
unfoldable pub space_len_back : Text → ℕ
space_len_back r =
    if space_len (take 1 r) == 1
    then 1
    else if space_len (reverse (take 2 r)) == 2
    then 2
    else if space_len (reverse (take 3 r)) == 3
    then 3
    else 0

-- As many rounds as there are bytes are enough: each takes one away.
unfoldable pub strip : (Text → ℕ) → ℕ → Text → Text
strip size zero s = s
strip size (suc rounds) s =
    let rest = strip size rounds (drop (size s) s) in if size s == 0 then s else rest

unfoldable pub trim : Text → Text
trim s =
    let begun = strip space_len (length s) s in
    reverse (strip space_len_back (length begun) (reverse begun))

abbrev pub to_ascii_lower : ℕ → ℕ
to_ascii_lower c = if leb 65 c && leb c 90 then c + 32 else c

unfoldable pub to_ascii_lowercase : Text → Text
to_ascii_lowercase = map to_ascii_lower

unfoldable pub eq_ignore_ascii_case : Text → Text → Bool
eq_ignore_ascii_case a b = text_eq (to_ascii_lowercase a) (to_ascii_lowercase b)

unfoldable pub is_empty : Text → Bool
is_empty [] = true
is_empty (c ∷ s) = false

-- The pieces between commas, of which there is one at least: the first, and the others.
unfoldable pub split_comma : Text → Text × List Text
split_comma [] = ([], [])
split_comma (c ∷ s) =
    let (first, others) = split_comma s in
    if c == 44 then ([], first ∷ others) else (c ∷ first, others)

unfoldable pub nonempty : List Text → List Text
nonempty [] = []
nonempty (p ∷ ps) = if is_empty p then nonempty ps else p ∷ nonempty ps

-- `split(',')`, each piece trimmed, without the empty ones.
unfoldable pub comma_list : Text → List Text
comma_list v = let (first, others) = split_comma v in nonempty (map trim (first ∷ others))

unfoldable pub parse_digits : ℕ → ℕ → Text → Option ℕ
parse_digits max acc [] = some acc
parse_digits max acc (c ∷ cs) =
    let n = acc * 10 + (c - 48) in
    let rest = parse_digits max n cs in if leb 48 c && leb c 57 && leb n max then rest else none

-- `parse` of an unsigned number: a plus sign or none, digits, and a value that fits.
unfoldable pub parse_uint : ℕ → Text → Option ℕ
parse_uint max [] = none
parse_uint max (c ∷ []) = parse_digits max 0 (c ∷ [])
parse_uint max (c ∷ d ∷ s) =
    if c == 43 then parse_digits max 0 (d ∷ s) else parse_digits max 0 (c ∷ d ∷ s)
