-- ===== src/Discovery/Announce.antt =====
-- discovery.rs: announcements are read as they were packed.
use telesthete.Base.{
  take_all, ℕ, ◌+◌, ◌-◌, ◌^◌, ◌≤◌, ◌<◌, ◌≡◌, refl, ap, ◌∙◌, min, [], ◌∷◌, ◌++◌, length, take, drop,
  ltb, some, Bool, true, false, arith, le→ltb, length-append, take-append, drop-append,
  drop-append_past, append_assoc,
}
use telesthete.Base.Bytes.{Bytes, to_be_bytes, length-to_be_bytes, from_be_bytes-to_be_bytes}
use telesthete.Base.Text.{Text, text_eq-same}
use telesthete.Discovery.{magic, pack_announce, parse_announce}

-- A host name of at most 255 bytes and a 16-bit port are read back from their announcement,
-- whatever bytes follow it, if the name is what the decoder takes for UTF-8.
pub parse_announce-pack_announce :
    (is_utf8 : Bytes → Bool) (hostname : Text) (port : ℕ) (rest : Bytes)
    → is_utf8 hostname ≡ true
    → length hostname ≤ 255
    → port < 256 ^ 2
    → parse_announce is_utf8 (pack_announce hostname port ++ rest) ≡ some (hostname, port)
unfolding parse_announce pack_announce
parse_announce-pack_announce is_utf8 hostname port rest valid short fits =
    let n : ℕ = length hostname in
    let whole : min (length hostname) 255 ≡ n = omega arith in
    let two : length (to_be_bytes 2 port) ≡ 2 = length-to_be_bytes 2 port in
    let tail : Bytes = (hostname ++ to_be_bytes 2 port) ++ rest in
    let shape : tail ≡ hostname ++ (to_be_bytes 2 port ++ rest) =
      append_assoc hostname (to_be_bytes 2 port) rest in
    let size : length tail ≡ n + 2 + length rest = omega (
      arith,
      length-append (hostname ++ to_be_bytes 2 port) rest,
      length-append hostname (to_be_bytes 2 port),
    ) in
    let head : Bytes = 84 ∷ 69 ∷ 76 ∷ 69 ∷ 3 ∷ n ∷ [] in
    let long : ltb (length (head ++ tail)) 8 ≡ false = le→ltb _ _ (omega arith) in
    let whole_packet : ltb (length (head ++ tail)) (6 + n + 2) ≡ false = le→ltb _ _ (omega arith) in
    let first : 6 + n - 6 ≡ n = omega arith in
    let last : 6 + n + 2 - (6 + n) ≡ 2 = omega arith in
    let name : take n tail ≡ hostname =
      ap (take n) shape ∙ take-append n hostname (to_be_bytes 2 port ++ rest) refl in
    let after : drop (6 + n) (head ++ tail) ≡ to_be_bytes 2 port ++ rest =
      drop-append_past 6 n head tail refl
      ∙ ap (drop n) shape
      ∙ drop-append n hostname (to_be_bytes 2 port ++ rest) refl in
    rw
      (
        whole,
        take_all n hostname (omega arith),
        long,
        text_eq-same magic,
        whole_packet,
        first,
        name,
        valid,
        last,
        after,
        take-append 2 (to_be_bytes 2 port) rest two,
        from_be_bytes-to_be_bytes 2 port fits,
      )
      refl
