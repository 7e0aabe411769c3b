-- ===== src/UdpRelay/CryptoIo.antt =====
-- relay/udprelay/crypto_io.rs: the encryption of the payload of a packet, and the check of its nonce.
pub mod Nonces
pub mod Packets
pub mod Sealed
pub mod Tests
use shadowsocks_rust.Common.{
  ℕ, ◌+◌, ◌≡◌, List, [], ◌∷◌, ◌++◌, length, take, drop, ltb, Bool, true, false, Option, none, some,
  if◌then◌else◌,
}
use shadowsocks_rust.Common.Outcome.{Outcome, ok, err, panic, ◌>>=◌}
use shadowsocks_rust.Io.{IoError, other, repeated_iv, repeated_salt}
use shadowsocks_rust.Crypto.{AeadCipher, StreamCipher, decrypt_error}
use shadowsocks_rust.Crypto.CipherType.{CipherType, CipherCategory, stream, aead, category}
use shadowsocks_rust.Crypto.Sizes.{Backends, iv_size, tag_size, salt_size}
use shadowsocks_rust.Replay.{BloomFilter, PingPongBloom, check_nonce_and_set}

-- The ciphers that `new_aead_encryptor`, `new_aead_decryptor` and `new_stream` make for each type.
pub record Suite (B : Backends) : Type 1 where
  pub aead_cipher : CipherType → AeadCipher
  pub stream_cipher : CipherType → StreamCipher
  pub tag_size-aead_cipher :
      (t : CipherType) (n : ℕ) → tag_size B t ≡ ok n → (aead_cipher t).tag_size ≡ n

-- `out_of_draws` is no error of the program: the model's random numbers ran out.
pub data UdpError : Type 0 where
  io_error : IoError → UdpError
  out_of_draws : UdpError

abbrev pub lift {ℓ} : {E : Type 0} {A : Type ℓ} → Outcome (Unit {0}) A → Outcome E A
lift (ok a) = ok a
lift (err _) = panic
lift panic = panic

abbrev pub lift_io {ℓ} : {A : Type ℓ} → Outcome IoError A → Outcome UdpError A
lift_io (ok a) = ok a
lift_io (err e) = err (io_error e)
lift_io panic = panic

module _ (B : Backends) (F : BloomFilter) (S : Suite B) where
  open S use {aead_cipher, stream_cipher}

  -- The loop that draws a nonce of a size until one is new. A draw gives random bytes of any length.
  unfoldable pub draw_nonce :
      Outcome (Unit {0}) ℕ
      → List (ℕ → List ℕ)
      → PingPongBloom F
      → Outcome UdpError (List ℕ × PingPongBloom F)
  draw_nonce size [] context = err out_of_draws
  draw_nonce size (draw ∷ draws) context = do
    n ← lift size
    (seen, context') ← lift (check_nonce_and_set F (draw n) context)
    let again = draw_nonce size draws context'
    if seen then again else ok (draw n, context')

  unfoldable pub encrypt_payload_stream :
      CipherType
      → List ℕ
      → List ℕ
      → List (ℕ → List ℕ)
      → PingPongBloom F
      → Outcome UdpError (List ℕ × PingPongBloom F)
  encrypt_payload_stream t key payload draws context = do
    (iv, context') ← draw_nonce (iv_size B t) draws context
    (text, cipher) ←
        lift_io ((stream_cipher t).update ((stream_cipher t).new_encrypt key iv) payload)
    last ← lift_io ((stream_cipher t).finalize cipher)
    ok (iv ++ (text ++ last), context')

  unfoldable pub encrypt_payload_aead :
      CipherType
      → List ℕ
      → List ℕ
      → List (ℕ → List ℕ)
      → PingPongBloom F
      → Outcome UdpError (List ℕ × PingPongBloom F)
  encrypt_payload_aead t key payload draws context = do
    (salt, context') ← draw_nonce (salt_size B t) draws context
    tag ← lift (tag_size B t)
    ok (salt ++ ((aead_cipher t).encrypt ((aead_cipher t).new_enc key salt) payload).0, context')

  unfoldable pub encrypt_payload :
      CipherType
      → List ℕ
      → List ℕ
      → List (ℕ → List ℕ)
      → PingPongBloom F
      → Outcome UdpError (List ℕ × PingPongBloom F)
  encrypt_payload t key payload draws context = elim (category t) [
    | stream ↦ encrypt_payload_stream t key payload draws context
    | aead ↦ encrypt_payload_aead t key payload draws context
  ]

  -- The payload, if the packet is long enough for one, and the nonces seen.
  abbrev pub Answer : Type 0
  Answer = Outcome IoError (Option (List ℕ)) × PingPongBloom F

  abbrev pub repeated_error : CipherCategory → IoError
  repeated_error stream = record { kind = other; message = repeated_iv }
  repeated_error aead = record { kind = other; message = repeated_salt }

  -- What follows the check of the nonce.
  unfoldable pub checked :
      IoError
      → Outcome IoError (Option (List ℕ))
      → PingPongBloom F
      → Outcome (Unit {0}) (Bool × PingPongBloom F)
      → Answer
  checked e opened context (ok (true, context')) = (err e, context')
  checked e opened context (ok (false, context')) = (opened, context')
  checked e opened context (err _) = (panic, context)
  checked e opened context panic = (panic, context)

  unfoldable pub open_stream :
      CipherType → List ℕ → List ℕ → List ℕ → Outcome IoError (Option (List ℕ))
  open_stream t key iv bytes = do
    (text, cipher) ← (stream_cipher t).update ((stream_cipher t).new_decrypt key iv) bytes
    last ← (stream_cipher t).finalize cipher
    ok (some (text ++ last))

  unfoldable pub open_aead :
      CipherType → List ℕ → List ℕ → List ℕ → Outcome IoError (Option (List ℕ))
  open_aead t key salt bytes =
      elim ((aead_cipher t).decrypt ((aead_cipher t).new_dec key salt) bytes).0 [
        | none ↦ err decrypt_error
        | some text ↦ ok (some text)
      ]

  unfoldable pub decrypt_payload_stream : CipherType → List ℕ → List ℕ → PingPongBloom F → Answer
  decrypt_payload_stream t key payload context = elim (iv_size B t) [
    | ok iv_size ↦
        if ltb (length payload) iv_size
        then (ok none, context)
        else checked (repeated_error stream)
            (open_stream t key (take iv_size payload) (drop iv_size payload)) context
            (check_nonce_and_set F (take iv_size payload) context)
    | err _ ↦ (panic, context)
    | panic ↦ (panic, context)
  ]

  abbrev pub tag_and_salt_sizes : CipherType → Outcome (Unit {0}) (ℕ × ℕ)
  tag_and_salt_sizes t = do tag ← tag_size B t; salt ← salt_size B t; ok (tag, salt)

  unfoldable pub decrypt_payload_aead : CipherType → List ℕ → List ℕ → PingPongBloom F → Answer
  decrypt_payload_aead t key payload context = elim (tag_and_salt_sizes t) [
    | ok (tag, salt) ↦
        if ltb (length payload) (tag + salt)
        then (ok none, context)
        else checked (repeated_error aead) (open_aead t key (take salt payload) (drop salt payload))
            context (check_nonce_and_set F (take salt payload) context)
    | err _ ↦ (panic, context)
    | panic ↦ (panic, context)
  ]

  unfoldable pub decrypt_payload : CipherType → List ℕ → List ℕ → PingPongBloom F → Answer
  decrypt_payload t key payload context = elim (category t) [
    | stream ↦ decrypt_payload_stream t key payload context
    | aead ↦ decrypt_payload_aead t key payload context
  ]
