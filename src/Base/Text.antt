-- ===== src/Base/Text.antt =====
-- Rust's `str` and `String` as the list of their UTF-8 bytes, with equality and the byte order.
use Prim.Native.Char.{code}
use Prim.Native.String.{String}
use telesthete.Base.{
  if_pos, if_neg, sym, ◌∙◌, ℕ, ◌≡◌, refl, ap, List, [], ◌∷◌, ℕ_discrete, get_or, ite, ltb, ◌+◌,
  if◌then◌else◌, Bool, true, false,
}
use mathlib.Core.Bool.{false≢true}
use mathlib.Core.Path.{ap₂}
use mathlib.Core.List.{tail}

abbrev pub Text : Type 0
Text = List ℕ

-- The bytes of an ASCII literal.
abbrev pub codes : String → Text
codes String.[] = []
codes (String.◌∷◌ c s) = code c ∷ codes s

-- A digit of the format `x`.
abbrev pub hex_digit : ℕ → ℕ
hex_digit n = if ltb n 10 then 48 + n else 87 + n

both : (x y : ℕ) (xs ys : Text) → Dec (x ≡ y) → Dec (xs ≡ ys) → Dec (x ∷ xs ≡ y ∷ ys)
both x y xs ys (yes p) (yes q) = yes (ap₂ ◌∷◌ p q)
both x y xs ys (yes p) (no q) = no (λ e. q (ap tail e))
both x y xs ys (no p) d = no (λ e. p (ap (λ l. get_or l 0 0) e))

unfoldable pub Text-discrete : Discrete Text
unfolding ℕ_discrete both
Text-discrete [] [] = yes refl
Text-discrete [] (y ∷ ys) = no (λ e. cc)
Text-discrete (x ∷ xs) [] = no (λ e. cc)
Text-discrete (x ∷ xs) (y ∷ ys) = both x y xs ys (ℕ_discrete x y) (Text-discrete xs ys)

-- `==` on strings.
abbrev pub text_eq : Text → Text → Bool
text_eq a b = ite (Text-discrete a b) true false

pub text_eq-true : (x y : Text) → text_eq x y ≡ true → x ≡ y
text_eq-true x y e = elim (Text-discrete x y) [
  | yes p ↦ p
  | no n ↦ absurd (false≢true (sym (if_neg (Text-discrete x y) n true false) ∙ e))
]

pub text_eq-same : (x : Text) → text_eq x x ≡ true
text_eq-same x = if_pos (Text-discrete x x) refl true false
