-- ===== src/Crypto.antt =====
-- rust/telesthete/src/crypto.rs: nonce and associated data, the negotiated suite, and key
-- derivation. The AEAD ciphers, SHA-256 and HKDF are third-party crates: `Aead` and `Kdf` are
-- their interfaces, and `IsAead` is what is relied on.
pub mod Selection
pub mod StandIn
mod Tests
use telesthete.Base.{
  ℕ, ◌+◌, ◌/◌, ◌%◌, ◌≡◌, ite, Option, none, some, List, [], ◌∷◌, ◌++◌, Bool, true, false, ◌||◌,
  if◌then◌else◌, length, take, replicate,
}
use telesthete.Base.Bytes.{Bytes, to_be_bytes}
use telesthete.Base.Results.{Result, ok_or}
use telesthete.Base.Text.{Text, codes, Text-discrete, text_eq}

abbrev pub band_id_len : ℕ
band_id_len = 16

abbrev pub key_len : ℕ
key_len = 32

abbrev pub tag_len : ℕ
tag_len = 16

pub data Suite : Type 0 where
  chacha20_poly1305 aes256_gcm : Suite

pub data CryptoError : Type 0 where
  encrypt decrypt : CryptoError

-- The two suites' ciphers: key, nonce, associated data, and the message or the ciphertext.
pub record Aead : Type 0 where
  pub seal : Suite → Bytes → Bytes → Bytes → Bytes → Option Bytes
  pub unseal : Suite → Bytes → Bytes → Bytes → Bytes → Option Bytes

-- An AEAD opens what it sealed. It is deterministic, and a ciphertext opens only if its tag is
-- the one that sealing its plaintext makes. The tag is 16 bytes.
pub record IsAead (a : Aead) : Type 0 where
  pub unseal-seal :
      (s : Suite) (k n aad p c : Bytes)
      → a.seal s k n aad p ≡ some c
      → a.unseal s k n aad c ≡ some p
  pub seal-unseal :
      (s : Suite) (k n aad p c : Bytes)
      → a.unseal s k n aad c ≡ some p
      → a.seal s k n aad p ≡ some c
  pub length-seal :
      (s : Suite) (k n aad p c : Bytes)
      → a.seal s k n aad p ≡ some c
      → length c ≡ length p + tag_len

-- SHA-256, and HKDF-SHA256 with the salt, the key material and the info, to 32 bytes.
pub record Kdf : Type 0 where
  pub sha256 : Bytes → Bytes
  pub hkdf : Bytes → Bytes → Bytes → Bytes

unfoldable pub nonce_bytes : ℕ → Bytes
nonce_bytes seq = replicate 4 0 ++ to_be_bytes 8 seq

-- `(channel_id >> 8) as u8` and `channel_id as u8`.
unfoldable pub build_aad : ℕ → ℕ → Bytes
build_aad channel_type channel_id =
    channel_type ∷ (channel_id / 256 % 256) ∷ (channel_id % 256) ∷ []

abbrev pub baseline_cipher : Text
baseline_cipher = codes "chacha20-poly1305"

abbrev pub aes_cipher : Text
aes_cipher = codes "aes256-gcm"

unfoldable pub from_id : Text → Option Suite
unfolding Text-discrete
from_id cipher_id =
    ite (Text-discrete cipher_id baseline_cipher) (some chacha20_poly1305)
      (ite (Text-discrete cipher_id aes_cipher) (some aes256_gcm) none)

unfoldable pub id : Suite → Text
id chacha20_poly1305 = baseline_cipher
id aes256_gcm = aes_cipher

-- `iter().any(|s| s == cid)`.
unfoldable pub supports : List Text → Text → Bool
unfolding Text-discrete
supports [] cid = false
supports (s ∷ rest) cid = ite (Text-discrete s cid) true (supports rest cid)

-- The first of the initiator's preferences that the responder has, else the baseline.
unfoldable pub select_cipher : List Text → List Text → Text
unfolding Text-discrete
select_cipher [] responder_supported = baseline_cipher
select_cipher (cid ∷ prefs) responder_supported =
    let rest = select_cipher prefs responder_supported in
    if text_eq cid baseline_cipher || supports responder_supported cid then cid else rest

module _ (k : Kdf) where
  unfoldable pub derive_band_id : Bytes → Bytes
  derive_band_id psk = take band_id_len (k.sha256 psk)

  unfoldable pub derive_key_for : Bytes → Text → Bytes
  derive_key_for psk cipher_id =
      k.hkdf (codes "telesthete-v1") psk (codes "encryption-" ++ cipher_id)

  unfoldable pub derive_key : Bytes → Bytes
  unfolding derive_key_for
  derive_key psk = derive_key_for psk baseline_cipher

  unfoldable pub derive_session_key : Bytes → Text → ℕ → Bytes
  derive_session_key psk cipher_id session =
      k.hkdf (codes "telesthete-v1") psk
        (codes "encryption-" ++ (cipher_id ++ (codes "-session-" ++ to_be_bytes 8 session)))

module _ (a : Aead) where
  unfoldable pub encrypt_suite : Suite → Bytes → ℕ → Bytes → Bytes → Result CryptoError Bytes
  encrypt_suite suite key seq aad plaintext =
      ok_or (a.seal suite key (nonce_bytes seq) aad plaintext) encrypt

  unfoldable pub decrypt_suite : Suite → Bytes → ℕ → Bytes → Bytes → Result CryptoError Bytes
  decrypt_suite suite key seq aad ciphertext =
      ok_or (a.unseal suite key (nonce_bytes seq) aad ciphertext) decrypt
