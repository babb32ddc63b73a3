-- ===== src/Federation/Tests.antt =====
-- The theorems on links between hubs at concrete inputs.
use telesthete.Base.{
  none, ℕ, ◌≡◌, refl, ap, [], ◌∷◌, ◌++◌, replicate, if◌then◌else◌, get_or, true, arith, ℕ_discrete,
}
use telesthete.Base.Bytes.{Bytes, to_be_bytes}
use telesthete.Base.Results.{ok}
use telesthete.Base.Text.{Text-discrete}
use telesthete.Federation.{
  LinkHandle, bands_marker, written, write_msg, read_msg, relay_payload, on_message, encode_bands,
  decode_bands, contains,
}
use telesthete.Federation.Wire.{decode_bands-encode_bands}
use telesthete.Federation.Links.{on_message-written}
use telesthete.Registry.{Registry, inject_from_link, default_limits}

abbrev band : Bytes
band = replicate 16 7

abbrev registry : Registry ℕ
registry = record { bands = []; limits = default_limits; next_conn = 1; fed = none }

abbrev link : LinkHandle
link = record { id = 1; queue = []; bands = band ∷ []; active = true }

on_message-written_example :
    (message : ℕ × Bytes) × (read_msg
        ((0 ∷ 0 ∷ 0 ∷ 23 ∷ 3 ∷ (band ++ (0 ∷ 0 ∷ 0 ∷ 2 ∷ 5 ∷ 6 ∷ []))) ++ (8 ∷ []))
      ≡ ok (message, 8 ∷ []))
    × (on_message ℕ_discrete ℕ_discrete (λ a. a) registry link message ≡ (
      link,
      if true
          then inject_from_link ℕ_discrete ℕ_discrete (λ a. a) registry band (5 ∷ 6 ∷ [])
          else [],
    ))
unfolding written write_msg relay_payload to_be_bytes Text-discrete ℕ_discrete
on_message-written_example =
    on_message-written ℕ_discrete ℕ_discrete (λ a. a) registry link band (5 ∷ 6 ∷ [])
      (0 ∷ 0 ∷ 0 ∷ 23 ∷ 3 ∷ (band ++ (0 ∷ 0 ∷ 0 ∷ 2 ∷ 5 ∷ 6 ∷ []))) (8 ∷ []) refl
      (λ e. (let seven : 7 ≡ 255 = ap (λ (bs : Bytes). get_or bs 0 0) e in absurd (omega arith)))
      (omega arith) refl

decode_bands-encode_bands_example :
    contains band (decode_bands (encode_bands (bands_marker ∷ band ∷ [])))
    ≡ contains band (bands_marker ∷ band ∷ [])
decode_bands-encode_bands_example =
    decode_bands-encode_bands (bands_marker ∷ band ∷ []) band (refl, (refl, tt)) (omega arith)
