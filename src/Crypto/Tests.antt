-- ===== src/Crypto/Tests.antt =====
-- Runs of the choice of a cipher.
use telesthete.Base.{◌≡◌, refl, List, [], ◌∷◌}
use telesthete.Base.Text.{Text, Text-discrete}
use telesthete.Crypto.{select_cipher, supports, baseline_cipher, aes_cipher}

abbrev prefs : List Text
prefs = aes_cipher ∷ baseline_cipher ∷ []

common_first : select_cipher prefs (baseline_cipher ∷ aes_cipher ∷ []) ≡ aes_cipher
unfolding select_cipher supports Text-discrete
common_first = refl

baseline_left : select_cipher (aes_cipher ∷ []) [] ≡ baseline_cipher
unfolding select_cipher supports Text-discrete
baseline_left = refl
