-- ===== src/Config/Tests.antt =====
-- Runs of the configuration: the inputs of the tests in config.rs.
use telesthete.Base.{ℕ, ◌≡◌, refl, [], ◌∷◌, Option, some, none}
use telesthete.Base.Str.{
  trim, space_len, space_len_back, strip, parse_uint, parse_digits, comma_list, split_comma,
  nonempty, is_empty, eq_ignore_ascii_case, to_ascii_lowercase,
}
use telesthete.Base.Text.{Text, Text-discrete, codes}
use telesthete.Config.{parse_or, resolve_udp_bind}

-- A reader that takes the texts of digits alone for addresses.
abbrev read_port : Text → Option ℕ
read_port = parse_uint 65535

parse_or_run :
    (parse_or (parse_uint 255) (some (codes "banana")) 15 ≡ 15)
    × (parse_or (parse_uint 255) (some (codes "42")) 15 ≡ 42)
    × (parse_or (parse_uint 255) (some (codes "  7 ")) 15 ≡ 7)
    × (parse_or (parse_uint 255) (some (codes "256")) 15 ≡ 15)
    × (parse_or (parse_uint 255) none 15 ≡ 15)
unfolding parse_or parse_uint parse_digits trim strip space_len space_len_back
parse_or_run = (refl, refl, refl, refl, refl)

resolve_udp_bind_run :
    (resolve_udp_bind read_port (some (codes " OfF")) ≡ none)
    × (resolve_udp_bind read_port (some (0xc2 ∷ 0xa0 ∷ codes "off")) ≡ none)
    × (resolve_udp_bind read_port (some (codes "7474")) ≡ some 7474)
unfolding resolve_udp_bind trim strip space_len space_len_back eq_ignore_ascii_case
    to_ascii_lowercase is_empty parse_uint parse_digits Text-discrete
resolve_udp_bind_run = (refl, refl, refl)

comma_list_run : comma_list (codes "a, b,,") ≡ codes "a" ∷ codes "b" ∷ []
unfolding comma_list split_comma nonempty trim strip space_len space_len_back is_empty
comma_list_run = refl
