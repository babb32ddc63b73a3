-- ===== src/Discovery/Tests.antt =====
-- The theorem on announcements at a concrete input, and runs.
use telesthete.Base.{◌≡◌, refl, arith, [], ◌∷◌, ◌++◌, true, some, none}
use telesthete.Base.Bytes.{to_be_bytes}
use telesthete.Base.Text.{codes, Text-discrete}
use telesthete.Discovery.{pack_announce, parse_announce}
use telesthete.Discovery.Announce.{parse_announce-pack_announce}

packed :
    pack_announce (codes "al") 20001 ≡ 0x54 ∷ 0x45 ∷ 0x4c ∷ 0x45 ∷ 3 ∷ 2 ∷ 97 ∷ 108 ∷ 78 ∷ 33 ∷ []
unfolding pack_announce to_be_bytes
packed = refl

foreign : parse_announce (λ bs. true) (codes "NOPE....") ≡ none
unfolding parse_announce Text-discrete
foreign = refl

parse_announce-pack_announce_example :
    parse_announce (λ bs. true) (pack_announce (codes "al") 20001 ++ (1 ∷ 2 ∷ []))
    ≡ some (codes "al", 20001)
parse_announce-pack_announce_example =
    parse_announce-pack_announce (λ bs. true) (codes "al") 20001 (1 ∷ 2 ∷ []) refl (omega arith)
      (omega arith)
