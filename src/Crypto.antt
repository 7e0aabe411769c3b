-- ===== src/Crypto.antt =====
-- crypto/: the interface of the ciphers to the relays (crypto/aead.rs).
pub mod CipherType
pub mod Sizes
pub mod Names
pub mod Keystream
pub mod Tests
use shadowsocks_rust.Common.Outcome.{Outcome, ok}
use shadowsocks_rust.Io.{IoError, other, cipher_failure}
use shadowsocks_rust.Common.{◌++◌, ℕ, ◌+◌, ◌≡◌, List, Option, some}
use shadowsocks_rust.Common.{length}

-- The traits `AeadEncryptor` and `AeadDecryptor`, whose ciphers the crates ring, libsodium and
-- miscreant implement. A call steps the nonce. The ciphertext ends in the tag; `decrypt` fails on a
-- tag that does not fit, and two ends that were made from one key and salt stay in step.
pub record AeadCipher : Type 1 where
  pub Encryptor : Type 0
  pub Decryptor : Type 0
  pub new_enc : List ℕ → List ℕ → Encryptor
  pub new_dec : List ℕ → List ℕ → Decryptor
  pub tag_size : ℕ
  pub encrypt : Encryptor → List ℕ → List ℕ × Encryptor
  pub decrypt : Decryptor → List ℕ → Option (List ℕ) × Decryptor
  pub InStep : Encryptor → Decryptor → Type 0
  pub new-InStep : (key salt : List ℕ) → InStep (new_enc key salt) (new_dec key salt)
  pub length-encrypt : (e : Encryptor) (x : List ℕ) → length ((encrypt e x).0) ≡ length x + tag_size
  pub decrypt-encrypt :
      (e : Encryptor) (d : Decryptor) (x : List ℕ)
      → InStep e d
      → (d' : Decryptor) × (decrypt d ((encrypt e x).0) ≡ (some x, d'))
        × InStep ((encrypt e x).1) d'

-- `Error::AeadDecryptFailed` as an `io::Error`.
abbrev pub decrypt_error : IoError
decrypt_error = record { kind = other; message = cipher_failure }

-- The trait `StreamCipher`: `update` can be called many times, `finalize` ends the text. What was
-- encrypted as a whole is decrypted as a whole.
pub record StreamCipher : Type 1 where
  pub Cipher : Type 0
  pub new_encrypt : List ℕ → List ℕ → Cipher
  pub new_decrypt : List ℕ → List ℕ → Cipher
  pub update : Cipher → List ℕ → Outcome IoError (List ℕ × Cipher)
  pub finalize : Cipher → Outcome IoError (List ℕ)
  pub decrypt-encrypt :
      (key iv x y z : List ℕ) (c : Cipher)
      → update (new_encrypt key iv) x ≡ ok (y, c)
      → finalize c ≡ ok z
      → (x1 : List ℕ) × (x2 : List ℕ) × (d : Cipher) × (update (new_decrypt key iv) (y ++ z)
          ≡ ok (x1, d))
        × (finalize d ≡ ok x2)
        × (x1 ++ x2 ≡ x)
