-- ===== src/Crypto/Tests.antt =====
-- The sizes and the key on backends with the sizes of AES and ChaCha20, and a digest that is constant.
use shadowsocks_rust.Common.{
  ℕ, ◌≡◌, refl, ◌⊎◌, inl, inr, ◌↔◌, List, [], ◌∷◌, length, take, arith, Option, none, some,
}
use shadowsocks_rust.Common.Outcome.{ok, panic}
use shadowsocks_rust.Crypto.CipherType.{from_str, aes256_cfb, rc4}
use shadowsocks_rust.Crypto.Names.{Names, from_str_iff}
use shadowsocks_rust.Crypto.Sizes.{
  SymmName, Backends, key_size, iv_size, bytes_to_key, symm_aes_128_cfb1, symm_aes_128_cfb8,
  symm_aes_128_cfb128, symm_aes_192_cfb1, symm_aes_192_cfb8, symm_aes_192_cfb128, symm_aes_256_cfb1,
  symm_aes_256_cfb8, symm_aes_256_cfb128, symm_aes_128_ctr, symm_aes_192_ctr, symm_aes_256_ctr,
  symm_rc4,
}
use shadowsocks_rust.Crypto.Sizes.Known.{TagAndSalt, tag_and_salt, IsSupported, Known, sizes_known}
use shadowsocks_rust.Crypto.Sizes.Keys.{digests, bytes_to_key-digests}

abbrev pub toy_iv : SymmName → Option ℕ
toy_iv symm_rc4 = none
toy_iv _ = some 16

abbrev pub backends : Backends
backends = record {
  Symm = SymmName;
  named = λ n. n;
  from_nid = λ n. some symm_aes_128_cfb1;
  key_len = λ n. 32;
  iv_len = toy_iv;
  ring_key_len = λ n. 32;
  ring_nonce_len = λ n. 12;
  ring_tag_len = λ n. 16;
}

toy_iv_known : (n : SymmName) → ((k : ℕ) × (toy_iv n ≡ some k)) ⊎ (n ≡ symm_rc4)
toy_iv_known symm_aes_128_cfb1 = inl (16, refl)
toy_iv_known symm_aes_128_cfb8 = inl (16, refl)
toy_iv_known symm_aes_128_cfb128 = inl (16, refl)
toy_iv_known symm_aes_192_cfb1 = inl (16, refl)
toy_iv_known symm_aes_192_cfb8 = inl (16, refl)
toy_iv_known symm_aes_192_cfb128 = inl (16, refl)
toy_iv_known symm_aes_256_cfb1 = inl (16, refl)
toy_iv_known symm_aes_256_cfb8 = inl (16, refl)
toy_iv_known symm_aes_256_cfb128 = inl (16, refl)
toy_iv_known symm_aes_128_ctr = inl (16, refl)
toy_iv_known symm_aes_192_ctr = inl (16, refl)
toy_iv_known symm_aes_256_ctr = inl (16, refl)
toy_iv_known symm_rc4 = inr refl

pub backends-IsSupported : IsSupported backends
backends-IsSupported = record {
  by_nid = λ n. (symm_aes_128_cfb1, refl, (16, refl));
  by_name = toy_iv_known;
  rc4_no_iv = refl;
}

abbrev pub sixteen : List ℕ → List ℕ
sixteen x = length x ∷ 2 ∷ 3 ∷ 4 ∷ 5 ∷ 6 ∷ 7 ∷ 8 ∷ 9 ∷ 10 ∷ 11 ∷ 12 ∷ 13 ∷ 14 ∷ 15 ∷ 16 ∷ []

from_str_iff_example : (from_str "aes-256-cfb" ≡ ok aes256_cfb) ↔ Names "aes-256-cfb" aes256_cfb
from_str_iff_example = from_str_iff "aes-256-cfb" aes256_cfb

tag_and_salt_example : TagAndSalt backends aes256_cfb
tag_and_salt_example = tag_and_salt backends aes256_cfb

sizes_known_example :
    Known backends rc4
    ⊎ ((rc4 ≡ rc4)
        × (iv_size backends rc4 ≡ panic)
        × (bytes_to_key backends sixteen rc4 (1 ∷ []) ≡ panic))
sizes_known_example = sizes_known backends sixteen (1 ∷ []) backends-IsSupported rc4

bytes_to_key-digests_example :
    (bytes_to_key backends sixteen aes256_cfb (1 ∷ [])
      ≡ ok (take 32 (digests backends sixteen (λ x. refl) 2 (1 ∷ []) [])))
    × (length (take 32 (digests backends sixteen (λ x. refl) 2 (1 ∷ []) [])) ≡ 32)
unfolding key_size iv_size
bytes_to_key-digests_example =
    bytes_to_key-digests backends sixteen (λ x. refl) aes256_cfb (1 ∷ []) 32 16 2 refl refl
      (omega arith)
