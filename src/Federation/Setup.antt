-- ===== src/Federation/Setup.antt =====
-- federation.rs, `FedConfig::from_env`.
use telesthete.Base.{
  ◌≡◌, ◌≢◌, ◌⊎◌, refl, sym, subst, arith, List, [], ◌∷◌, Option, some, none, inl, inr, All,
  Bool-cases, ◌||◌, if◌then◌else◌, Bool, true, false, map,
}
use mathlib.Core.Option.{none-ne-some, some-injective}
use telesthete.Base.Str.{trim, to_ascii_lowercase, is_empty, comma_list, split_comma, nonempty}
use telesthete.Base.Text.{Text, text_eq, codes}
use telesthete.Config.{Environment, env, or_text}

pub record FedConfig : Type 0 where
  pub listen : Option Text
  pub links : List Text
  pub secret : Text
  pub inbound_active : Bool

unfoldable pub links_of : Option Text → List Text
links_of none = []
links_of (some v) = comma_list v

unfoldable pub active_of : Option Text → Bool
active_of none = false
active_of (some v) =
    let low = to_ascii_lowercase v in
    text_eq low (codes "active")
    || text_eq low (codes "1")
    || text_eq low (codes "on")
    || text_eq low (codes "yes")

unfoldable pub nothing_set : Option Text → List Text → Bool
nothing_set none [] = true
nothing_set none (l ∷ ls) = false
nothing_set (some v) ls = false

unfoldable pub from_env : Environment → Option FedConfig
from_env var =
    let listen = env var (codes "HUB_FED_LISTEN") in
    let links = links_of (var (codes "HUB_FED_LINK")) in
    if nothing_set listen links
    then none
    else some (record {
      listen = listen;
      links = links;
      secret = or_text (var (codes "HUB_FED_SECRET")) [];
      inbound_active = active_of (var (codes "HUB_FED_DEFAULT"));
    })

nonempty-All : (ps : List Text) → All (λ p. is_empty p ≡ false) (nonempty ps)
unfolding nonempty
nonempty-All [] = tt
nonempty-All (p ∷ ps) = elim (Bool-cases (is_empty p)) [
  | inl blank ↦ rw blank (nonempty-All ps)
  | inr text ↦ rw text (text, nonempty-All ps)
]

links_of-All : (o : Option Text) → All (λ l. is_empty l ≡ false) (links_of o)
unfolding links_of comma_list
links_of-All none = tt
links_of-All (some v) = nonempty-All (map trim ((split_comma v).0 ∷ (split_comma v).1))

something_set :
    (listen : Option Text) (links : List Text)
    → nothing_set listen links ≡ false
    → (listen ≢ none) ⊎ (links ≢ [])
unfolding nothing_set
something_set none [] e = ground arith
something_set none (l ∷ ls) e = inr (λ p. cc)
something_set (some v) ls e = inl (λ p. cc)

revoked : (o : Option Text) → o ≡ none → active_of o ≡ false
unfolding active_of
revoked none unset = refl
revoked (some v) unset = absurd (none-ne-some _ (sym unset))

-- A hub federates only when it is told to listen or to dial, it never dials an empty address, and
-- its inbound links start revoked unless `HUB_FED_DEFAULT` is set.
pub from_env_told :
    (var : Environment) (c : FedConfig)
    → from_env var ≡ some c
    → ((c.listen ≢ none) ⊎ (c.links ≢ []))
      × All (λ l. is_empty l ≡ false) c.links
      × (var (codes "HUB_FED_DEFAULT") ≡ none → c.inbound_active ≡ false)
unfolding from_env
from_env_told var c e =
    let listen = env var (codes "HUB_FED_LISTEN") in
    let links = links_of (var (codes "HUB_FED_LINK")) in
    elim (Bool-cases (nothing_set listen links)) [
      | inl off ↦ absurd (none-ne-some _ (rw off at e))
      | inr on ↦
          subst
            (λ (x : FedConfig).
              ((x.listen ≢ none) ⊎ (x.links ≢ []))
              × All (λ l. is_empty l ≡ false) x.links
              × (var (codes "HUB_FED_DEFAULT") ≡ none → x.inbound_active ≡ false))
            (some-injective _ _ (rw on at e))
            (
              something_set listen links on,
              links_of-All (var (codes "HUB_FED_LINK")),
              revoked (var (codes "HUB_FED_DEFAULT")),
            )
    ]
