-- ===== src/Crypto/Sizes.antt =====
-- crypto/cipher.rs: the sizes of keys, initial vectors, tags and salts, and the key of a password.
pub mod Known
pub mod Keys
use shadowsocks_rust.Common.{
  ℕ, zero, suc, ◌+◌, ◌-◌, ◌/◌, ◌==◌, List, [], ◌++◌, length, take, Bool, true, false, Option, none,
  some, if◌then◌else◌,
}
use shadowsocks_rust.Common.Outcome.{Outcome, ok, panic, ◌>>=◌, ◌>>◌, require}
use shadowsocks_rust.Crypto.CipherType.{
  CipherType, CipherCategory, stream, aead, category, table, plain, aes128_cfb, aes128_cfb1,
  aes128_cfb8, aes128_cfb128, aes192_cfb, aes192_cfb1, aes192_cfb8, aes192_cfb128, aes256_cfb,
  aes256_cfb1, aes256_cfb8, aes256_cfb128, aes128_ctr, aes192_ctr, aes256_ctr, camellia128_cfb,
  camellia192_cfb, camellia256_cfb, camellia128_cfb1, camellia192_cfb1, camellia256_cfb1,
  camellia128_cfb8, camellia192_cfb8, camellia256_cfb8, camellia128_cfb128, camellia192_cfb128,
  camellia256_cfb128, rc4, rc4_md5, chacha20, salsa20, xsalsa20, chacha20_ietf, aes128_gcm,
  aes256_gcm, chacha20_ietf_poly1305, xchacha20_ietf_poly1305, aes128_pmac_siv, aes256_pmac_siv,
}

-- The ciphers that OpenSSL makes by name and by number, and the algorithms of ring.
pub data SymmName : Type 0 where
  symm_aes_128_cfb1 symm_aes_128_cfb8 symm_aes_128_cfb128 symm_aes_192_cfb1 symm_aes_192_cfb8
        symm_aes_192_cfb128 symm_aes_256_cfb1 symm_aes_256_cfb8 symm_aes_256_cfb128 symm_aes_128_ctr
        symm_aes_192_ctr symm_aes_256_ctr symm_rc4 :
      SymmName

pub data Nid : Type 0 where
  camellia_128_cfb128 camellia_128_cfb1 camellia_128_cfb8 camellia_192_cfb128 camellia_192_cfb1
        camellia_192_cfb8 camellia_256_cfb128 camellia_256_cfb1 camellia_256_cfb8 :
      Nid

pub data RingAlgorithm : Type 0 where
  ring_aes_128_gcm ring_aes_256_gcm ring_chacha20_poly1305 : RingAlgorithm

-- What the crates openssl and ring answer; a cipher of OpenSSL without initial vector has no `iv_len`.
pub record Backends : Type 1 where
  pub Symm : Type 0
  pub named : SymmName → Symm
  pub from_nid : Nid → Option Symm
  pub key_len : Symm → ℕ
  pub iv_len : Symm → Option ℕ
  pub ring_key_len : RingAlgorithm → ℕ
  pub ring_nonce_len : RingAlgorithm → ℕ
  pub ring_tag_len : RingAlgorithm → ℕ

-- `expect`.
abbrev pub expect {ℓ} : {A : Type ℓ} → Option A → Outcome (Unit {0}) A
expect none = panic
expect (some a) = ok a

abbrev pub is_aead : CipherCategory → Bool
is_aead stream = false
is_aead aead = true

module _ (B : Backends) where
  open B use {named, from_nid, key_len, iv_len, ring_key_len, ring_nonce_len, ring_tag_len}

  unfoldable pub key_size : CipherType → Outcome (Unit {0}) ℕ
  key_size table = ok 0
  key_size plain = ok 0
  key_size aes128_cfb1 = ok (key_len (named symm_aes_128_cfb1))
  key_size aes128_cfb8 = ok (key_len (named symm_aes_128_cfb8))
  key_size aes128_cfb = ok (key_len (named symm_aes_128_cfb128))
  key_size aes128_cfb128 = ok (key_len (named symm_aes_128_cfb128))
  key_size aes192_cfb1 = ok (key_len (named symm_aes_192_cfb1))
  key_size aes192_cfb8 = ok (key_len (named symm_aes_192_cfb8))
  key_size aes192_cfb = ok (key_len (named symm_aes_192_cfb128))
  key_size aes192_cfb128 = ok (key_len (named symm_aes_192_cfb128))
  key_size aes256_cfb1 = ok (key_len (named symm_aes_256_cfb1))
  key_size aes256_cfb8 = ok (key_len (named symm_aes_256_cfb8))
  key_size aes256_cfb = ok (key_len (named symm_aes_256_cfb128))
  key_size aes256_cfb128 = ok (key_len (named symm_aes_256_cfb128))
  key_size aes128_ctr = ok (key_len (named symm_aes_128_ctr))
  key_size aes192_ctr = ok (key_len (named symm_aes_192_ctr))
  key_size aes256_ctr = ok (key_len (named symm_aes_256_ctr))
  key_size camellia128_cfb = do c ← expect (from_nid camellia_128_cfb128); ok (key_len c)
  key_size camellia128_cfb1 = do c ← expect (from_nid camellia_128_cfb1); ok (key_len c)
  key_size camellia128_cfb8 = do c ← expect (from_nid camellia_128_cfb8); ok (key_len c)
  key_size camellia128_cfb128 = do c ← expect (from_nid camellia_128_cfb128); ok (key_len c)
  key_size camellia192_cfb = do c ← expect (from_nid camellia_192_cfb128); ok (key_len c)
  key_size camellia192_cfb1 = do c ← expect (from_nid camellia_192_cfb1); ok (key_len c)
  key_size camellia192_cfb8 = do c ← expect (from_nid camellia_192_cfb8); ok (key_len c)
  key_size camellia192_cfb128 = do c ← expect (from_nid camellia_192_cfb128); ok (key_len c)
  key_size camellia256_cfb = do c ← expect (from_nid camellia_256_cfb128); ok (key_len c)
  key_size camellia256_cfb1 = do c ← expect (from_nid camellia_256_cfb1); ok (key_len c)
  key_size camellia256_cfb8 = do c ← expect (from_nid camellia_256_cfb8); ok (key_len c)
  key_size camellia256_cfb128 = do c ← expect (from_nid camellia_256_cfb128); ok (key_len c)
  key_size rc4 = ok (key_len (named symm_rc4))
  key_size rc4_md5 = ok (key_len (named symm_rc4))
  key_size chacha20 = ok 32
  key_size salsa20 = ok 32
  key_size xsalsa20 = ok 32
  key_size chacha20_ietf = ok 32
  key_size aes128_gcm = ok (ring_key_len ring_aes_128_gcm)
  key_size aes256_gcm = ok (ring_key_len ring_aes_256_gcm)
  key_size chacha20_ietf_poly1305 = ok (ring_key_len ring_chacha20_poly1305)
  key_size xchacha20_ietf_poly1305 = ok 32
  key_size aes128_pmac_siv = ok 32
  key_size aes256_pmac_siv = ok 64

  unfoldable pub iv_size : CipherType → Outcome (Unit {0}) ℕ
  iv_size table = ok 0
  iv_size plain = ok 0
  iv_size aes128_cfb1 = expect (iv_len (named symm_aes_128_cfb1))
  iv_size aes128_cfb8 = expect (iv_len (named symm_aes_128_cfb8))
  iv_size aes128_cfb = expect (iv_len (named symm_aes_128_cfb128))
  iv_size aes128_cfb128 = expect (iv_len (named symm_aes_128_cfb128))
  iv_size aes192_cfb1 = expect (iv_len (named symm_aes_192_cfb1))
  iv_size aes192_cfb8 = expect (iv_len (named symm_aes_192_cfb8))
  iv_size aes192_cfb = expect (iv_len (named symm_aes_192_cfb128))
  iv_size aes192_cfb128 = expect (iv_len (named symm_aes_192_cfb128))
  iv_size aes256_cfb1 = expect (iv_len (named symm_aes_256_cfb1))
  iv_size aes256_cfb8 = expect (iv_len (named symm_aes_256_cfb8))
  iv_size aes256_cfb = expect (iv_len (named symm_aes_256_cfb128))
  iv_size aes256_cfb128 = expect (iv_len (named symm_aes_256_cfb128))
  iv_size aes128_ctr = expect (iv_len (named symm_aes_128_ctr))
  iv_size aes192_ctr = expect (iv_len (named symm_aes_192_ctr))
  iv_size aes256_ctr = expect (iv_len (named symm_aes_256_ctr))
  iv_size camellia128_cfb = do c ← expect (from_nid camellia_128_cfb128); expect (iv_len c)
  iv_size camellia128_cfb1 = do c ← expect (from_nid camellia_128_cfb1); expect (iv_len c)
  iv_size camellia128_cfb8 = do c ← expect (from_nid camellia_128_cfb8); expect (iv_len c)
  iv_size camellia128_cfb128 = do c ← expect (from_nid camellia_128_cfb128); expect (iv_len c)
  iv_size camellia192_cfb = do c ← expect (from_nid camellia_192_cfb128); expect (iv_len c)
  iv_size camellia192_cfb1 = do c ← expect (from_nid camellia_192_cfb1); expect (iv_len c)
  iv_size camellia192_cfb8 = do c ← expect (from_nid camellia_192_cfb8); expect (iv_len c)
  iv_size camellia192_cfb128 = do c ← expect (from_nid camellia_192_cfb128); expect (iv_len c)
  iv_size camellia256_cfb = do c ← expect (from_nid camellia_256_cfb128); expect (iv_len c)
  iv_size camellia256_cfb1 = do c ← expect (from_nid camellia_256_cfb1); expect (iv_len c)
  iv_size camellia256_cfb8 = do c ← expect (from_nid camellia_256_cfb8); expect (iv_len c)
  iv_size camellia256_cfb128 = do c ← expect (from_nid camellia_256_cfb128); expect (iv_len c)
  iv_size rc4 = expect (iv_len (named symm_rc4))
  iv_size rc4_md5 = ok 16
  iv_size chacha20 = ok 8
  iv_size salsa20 = ok 8
  iv_size xsalsa20 = ok 24
  iv_size chacha20_ietf = ok 12
  iv_size aes128_gcm = ok (ring_nonce_len ring_aes_128_gcm)
  iv_size aes256_gcm = ok (ring_nonce_len ring_aes_256_gcm)
  iv_size chacha20_ietf_poly1305 = ok (ring_nonce_len ring_chacha20_poly1305)
  iv_size xchacha20_ietf_poly1305 = ok 24
  iv_size aes128_pmac_siv = ok 8
  iv_size aes256_pmac_siv = ok 8

  -- The match of `tag_size`; its last arm is a panic.
  unfoldable pub tag_size_of : CipherType → Outcome (Unit {0}) ℕ
  tag_size_of aes128_gcm = ok (ring_tag_len ring_aes_128_gcm)
  tag_size_of aes256_gcm = ok (ring_tag_len ring_aes_256_gcm)
  tag_size_of chacha20_ietf_poly1305 = ok (ring_tag_len ring_chacha20_poly1305)
  tag_size_of xchacha20_ietf_poly1305 = ok 16
  tag_size_of aes128_pmac_siv = ok 16
  tag_size_of aes256_pmac_siv = ok 16
  tag_size_of _ = panic

  unfoldable pub tag_size : CipherType → Outcome (Unit {0}) ℕ
  unfolding tag_size_of
  tag_size t = require (is_aead (category t)) >> tag_size_of t

  unfoldable pub salt_size : CipherType → Outcome (Unit {0}) ℕ
  salt_size t = require (is_aead (category t)) >> key_size t

-- `digest_len` of MD5, the crate's `OutputSize`.
abbrev pub md5_digest_len : ℕ
md5_digest_len = 16

-- The key of a password.
module _ (B : Backends) (md5 : List ℕ → List ℕ) where
  -- The rounds of the loop: each digests what the round before it gave, then the password.
  unfoldable pub key_rounds : ℕ → List ℕ → List ℕ → List ℕ → List ℕ
  key_rounds zero key m result = result
  key_rounds (suc n) key m result = let m' = md5 (m ++ key) in key_rounds n key m' (result ++ m')

  unfoldable pub classic_bytes_to_key : CipherType → List ℕ → Outcome (Unit {0}) (List ℕ)
  unfolding key_rounds
  classic_bytes_to_key t key = do
    iv_len ← iv_size B t
    key_len ← key_size B t
    let rounds = (key_len + iv_len + md5_digest_len - 1) / md5_digest_len
    ok (if iv_len + key_len == 0 then [] else take key_len (key_rounds rounds key [] []))

  unfoldable pub bytes_to_key : CipherType → List ℕ → Outcome (Unit {0}) (List ℕ)
  bytes_to_key t key = classic_bytes_to_key t key
