-- ===== src/Config/Defaults.antt =====
-- config.rs: what the hub falls back to.
use telesthete.Base.{
  ℕ, ◌+◌, ◌*◌, ◌-◌, ◌^◌, ◌≤◌, ◌≡◌, refl, arith, [], ◌∷◌, Option, some, none, inl, inr, Bool-cases,
  Option-cases, ◌⊎◌, ◌==◌, ◌&&◌, leb, true, false,
}
use mathlib.Core.Option.{none-ne-some}
use telesthete.Base.Str.{trim, is_empty, eq_ignore_ascii_case, parse_uint, parse_digits}
use telesthete.Base.Text.{Text, codes}
use telesthete.Config.{
  Environment, default_udp_bind, from_env, default_config, env, env_bool, opt_addr,
  resolve_udp_bind, unix_dir_of, tls_sans_of, or_text, count, parse_or,
}

step :
    (max acc c : ℕ) (cs : Text) (n : ℕ)
    → parse_digits max acc (c ∷ cs) ≡ some n
    → (leb 48 c && leb c 57 && leb (acc * 10 + (c - 48)) max) ≡ true
    → (acc * 10 + (c - 48) ≤ max) × (parse_digits max (acc * 10 + (c - 48)) cs ≡ some n)
unfolding parse_digits
step max acc c cs n e fits = (ground (arith, fits), rw fits at e)

parse_digits_bounded :
    (max acc n : ℕ) (s : Text) → acc ≤ max → parse_digits max acc s ≡ some n → n ≤ max
unfolding parse_digits
parse_digits_bounded max acc n [] h e = ground arith
parse_digits_bounded max acc n (c ∷ cs) h e =
    elim (Bool-cases (leb 48 c && leb c 57 && leb (acc * 10 + (c - 48)) max)) [
      | inl fits ↦
          let (small, more) = step max acc c cs n e fits in
          parse_digits_bounded max (acc * 10 + (c - 48)) n cs small more
      | inr other ↦ absurd (none-ne-some _ (rw other at e))
    ]

-- What is read as an unsigned number fits.
pub parse_uint_bounded : (max n : ℕ) (s : Text) → parse_uint max s ≡ some n → n ≤ max
unfolding parse_uint
parse_uint_bounded max n [] e = ground arith
parse_uint_bounded max n (c ∷ []) e = parse_digits_bounded max 0 n (c ∷ []) (omega arith) e
parse_uint_bounded max n (c ∷ d ∷ s) e = elim (Bool-cases (c == 43)) [
  | inl sign ↦ parse_digits_bounded max 0 n (d ∷ s) (omega arith) (rw sign at e)
  | inr digit ↦ parse_digits_bounded max 0 n (c ∷ d ∷ s) (omega arith) (rw digit at e)
]

parse_or_bounded :
    (max : ℕ) (o : Option Text) (default : ℕ)
    → default ≤ max
    → parse_or (parse_uint max) o default ≤ max
unfolding parse_or
parse_or_bounded max none default h = h
parse_or_bounded max (some v) default h = elim (Option-cases (parse_uint max (trim v))) [
  | inl junk ↦ rw (junk, parse_or) h
  | inr (n, good) ↦ rw (good, parse_or) (parse_uint_bounded max n (trim v) good)
]

-- Whatever the environment says, a count fits its integer type when the default does.
pub count_bounded :
    (bits : ℕ) (var : Environment) (name : Text) (default : ℕ)
    → default ≤ 2 ^ bits - 1
    → count bits var name default ≤ 2 ^ bits - 1
unfolding count
count_bounded bits var name default h = parse_or_bounded (2 ^ bits - 1) (env var name) default h

module _ {Addr : Type 0} (read_addr : Text → Option Addr) where
  -- In an empty environment the configuration is the default one.
  pub from_env_empty : from_env read_addr (λ name. none) ≡ default_config read_addr
  unfolding from_env default_config env env_bool opt_addr resolve_udp_bind unix_dir_of tls_sans_of
      or_text count parse_or
  from_env_empty = refl

  -- Only "off" disables UDP, in any case and with white space around it. Any other text, junk
  -- included, gives an address: the one that is read, or the default.
  pub resolve_udp_bind_cases :
      (raw : Text) (standard : Addr)
      → read_addr default_udp_bind ≡ some standard
      → ((eq_ignore_ascii_case (trim raw) (codes "off") ≡ true)
          × (resolve_udp_bind read_addr (some raw) ≡ none))
        ⊎ ((eq_ignore_ascii_case (trim raw) (codes "off") ≡ false)
            × (a : Addr) × (resolve_udp_bind read_addr (some raw) ≡ some a)
            × ((a ≡ standard) ⊎ (read_addr (trim raw) ≡ some a)))
  unfolding resolve_udp_bind
  resolve_udp_bind_cases raw standard readable =
      elim (Bool-cases (eq_ignore_ascii_case (trim raw) (codes "off"))) [
        | inl off ↦ inl (off, rw off refl)
        | inr on ↦ elim (Bool-cases (is_empty (trim raw))) [
          | inl blank ↦ inr (on, standard, rw (on, blank) readable, inl refl)
          | inr text ↦ elim (Option-cases (read_addr (trim raw))) [
            | inl junk ↦ inr (on, standard, rw (on, text, junk) readable, inl refl)
            | inr (a, good) ↦ inr (on, a, rw (on, text, good) refl, inr good)
          ]
        ]
      ]
