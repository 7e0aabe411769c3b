-- ===== src/Crypto/Sizes/Known.antt =====
-- Which sizes the cipher types have, and where asking for one is a panic.
use shadowsocks_rust.Common.{
  ℕ, ◌≡◌, refl, ap, ◌∙◌, ◌⊎◌, inl, inr, List, Bool, true, false, none, some,
}
use shadowsocks_rust.Common.Outcome.{Outcome, ok, panic, ◌>>=◌}
use shadowsocks_rust.Crypto.CipherType.{
  CipherType, stream, aead, category, table, plain, aes128_cfb, aes128_cfb1, aes128_cfb8,
  aes128_cfb128, aes192_cfb, aes192_cfb1, aes192_cfb8, aes192_cfb128, aes256_cfb, aes256_cfb1,
  aes256_cfb8, aes256_cfb128, aes128_ctr, aes192_ctr, aes256_ctr, camellia128_cfb, camellia192_cfb,
  camellia256_cfb, camellia128_cfb1, camellia192_cfb1, camellia256_cfb1, camellia128_cfb8,
  camellia192_cfb8, camellia256_cfb8, camellia128_cfb128, camellia192_cfb128, camellia256_cfb128,
  rc4, rc4_md5, chacha20, salsa20, xsalsa20, chacha20_ietf, aes128_gcm, aes256_gcm,
  chacha20_ietf_poly1305, xchacha20_ietf_poly1305, aes128_pmac_siv, aes256_pmac_siv,
}
use shadowsocks_rust.Crypto.Sizes.{
  SymmName, Nid, Backends, expect, key_size, iv_size, tag_size_of, tag_size, salt_size,
  bytes_to_key, classic_bytes_to_key, symm_aes_128_cfb1, symm_aes_128_cfb8, symm_aes_128_cfb128,
  symm_aes_192_cfb1, symm_aes_192_cfb8, symm_aes_192_cfb128, symm_aes_256_cfb1, symm_aes_256_cfb8,
  symm_aes_256_cfb128, symm_aes_128_ctr, symm_aes_192_ctr, symm_aes_256_ctr, symm_rc4,
  camellia_128_cfb128, camellia_128_cfb1, camellia_128_cfb8, camellia_192_cfb128, camellia_192_cfb1,
  camellia_192_cfb8, camellia_256_cfb128, camellia_256_cfb1, camellia_256_cfb8,
}

module _ (B : Backends) where
  open B use {named, from_nid, key_len, iv_len}

  -- An AEAD type has a tag, and a salt as long as its key; of a stream type both are a panic.
  abbrev pub TagAndSalt : CipherType → Type 0
  TagAndSalt t =
      ((category t ≡ aead)
        × ((n : ℕ) × (tag_size B t ≡ ok n))
        × ((n : ℕ) × (salt_size B t ≡ ok n) × (key_size B t ≡ ok n)))
      ⊎ ((category t ≡ stream) × (tag_size B t ≡ panic) × (salt_size B t ≡ panic))

  -- Every AEAD type has a tag size and a salt size that is its key size; for every other type
  -- both are a panic. The ciphers that ring and OpenSSL provide are a parameter.
  pub tag_and_salt : (t : CipherType) → TagAndSalt t
  unfolding category tag_size tag_size_of salt_size key_size
  tag_and_salt table = inr (refl, refl, refl)
  tag_and_salt plain = inr (refl, refl, refl)
  tag_and_salt aes128_cfb = inr (refl, refl, refl)
  tag_and_salt aes128_cfb1 = inr (refl, refl, refl)
  tag_and_salt aes128_cfb8 = inr (refl, refl, refl)
  tag_and_salt aes128_cfb128 = inr (refl, refl, refl)
  tag_and_salt aes192_cfb = inr (refl, refl, refl)
  tag_and_salt aes192_cfb1 = inr (refl, refl, refl)
  tag_and_salt aes192_cfb8 = inr (refl, refl, refl)
  tag_and_salt aes192_cfb128 = inr (refl, refl, refl)
  tag_and_salt aes256_cfb = inr (refl, refl, refl)
  tag_and_salt aes256_cfb1 = inr (refl, refl, refl)
  tag_and_salt aes256_cfb8 = inr (refl, refl, refl)
  tag_and_salt aes256_cfb128 = inr (refl, refl, refl)
  tag_and_salt aes128_ctr = inr (refl, refl, refl)
  tag_and_salt aes192_ctr = inr (refl, refl, refl)
  tag_and_salt aes256_ctr = inr (refl, refl, refl)
  tag_and_salt camellia128_cfb = inr (refl, refl, refl)
  tag_and_salt camellia192_cfb = inr (refl, refl, refl)
  tag_and_salt camellia256_cfb = inr (refl, refl, refl)
  tag_and_salt camellia128_cfb1 = inr (refl, refl, refl)
  tag_and_salt camellia192_cfb1 = inr (refl, refl, refl)
  tag_and_salt camellia256_cfb1 = inr (refl, refl, refl)
  tag_and_salt camellia128_cfb8 = inr (refl, refl, refl)
  tag_and_salt camellia192_cfb8 = inr (refl, refl, refl)
  tag_and_salt camellia256_cfb8 = inr (refl, refl, refl)
  tag_and_salt camellia128_cfb128 = inr (refl, refl, refl)
  tag_and_salt camellia192_cfb128 = inr (refl, refl, refl)
  tag_and_salt camellia256_cfb128 = inr (refl, refl, refl)
  tag_and_salt rc4 = inr (refl, refl, refl)
  tag_and_salt rc4_md5 = inr (refl, refl, refl)
  tag_and_salt chacha20 = inr (refl, refl, refl)
  tag_and_salt salsa20 = inr (refl, refl, refl)
  tag_and_salt xsalsa20 = inr (refl, refl, refl)
  tag_and_salt chacha20_ietf = inr (refl, refl, refl)
  tag_and_salt aes128_gcm = inl (refl, (_, refl), (_, refl, refl))
  tag_and_salt aes256_gcm = inl (refl, (_, refl), (_, refl, refl))
  tag_and_salt chacha20_ietf_poly1305 = inl (refl, (_, refl), (_, refl, refl))
  tag_and_salt xchacha20_ietf_poly1305 = inl (refl, (_, refl), (_, refl, refl))
  tag_and_salt aes128_pmac_siv = inl (refl, (_, refl), (_, refl, refl))
  tag_and_salt aes256_pmac_siv = inl (refl, (_, refl), (_, refl, refl))

  -- OpenSSL has every cipher that is asked for by number, and only RC4 has no initial vector.
  pub record IsSupported : Type 0 where
    pub by_nid : (n : Nid) → (c : B.Symm) × (from_nid n ≡ some c) × ((k : ℕ) × (iv_len c ≡ some k))
    pub by_name : (n : SymmName) → ((k : ℕ) × (iv_len (named n) ≡ some k)) ⊎ (n ≡ symm_rc4)
    pub rc4_no_iv : iv_len (named symm_rc4) ≡ none

  abbrev pub Known : CipherType → Type 0
  Known t = ((k : ℕ) × (key_size B t ≡ ok k)) × ((i : ℕ) × (iv_size B t ≡ ok i))

  is_rc4 : SymmName → Bool
  is_rc4 symm_rc4 = true
  is_rc4 _ = false

  named_iv :
      IsSupported → (n : SymmName) → is_rc4 n ≡ false → (i : ℕ) × (expect (iv_len (named n)) ≡ ok i)
  unfolding is_rc4
  named_iv h n not_rc4 = elim (h.by_name n) [
    | inl (k, e) ↦ (k, ap expect e)
    | inr e ↦ absurd (rc4_not e not_rc4)
  ]
    where
      rc4_not : n ≡ symm_rc4 → is_rc4 n ≡ false → ⊥
      rc4_not e f = (let g : is_rc4 n ≡ true = ap is_rc4 e in cc)

  bind_panic :
      {A C : Type 0} (o : Outcome (Unit {0}) A) (f : A → Outcome (Unit {0}) C)
      → o ≡ panic
      → (o >>= f) ≡ panic
  bind_panic o f e = ap (λ x. x >>= f) e

  nid_key :
      IsSupported → (n : Nid) → (k : ℕ) × ((expect (from_nid n) >>= λ c. ok (key_len c)) ≡ ok k)
  nid_key h n =
      let (c, e, _) = h.by_nid n in (key_len c, ap (λ o. expect o >>= λ c. ok (key_len c)) e)

  nid_iv :
      IsSupported → (n : Nid) → (i : ℕ) × ((expect (from_nid n) >>= λ c. expect (iv_len c)) ≡ ok i)
  nid_iv h n =
      let (c, e, (k, f)) = h.by_nid n in
      (k, ap (λ o. expect o >>= λ c. expect (iv_len c)) e ∙ ap expect f)

  -- If OpenSSL has every cipher that is asked for by number, and only its RC4 has no initial
  -- vector, then every type but `rc4` has a key size and an initial vector size, and for `rc4`
  -- asking for the initial vector size, and making a key of a password, is a panic.
  pub sizes_known :
      (md5 : List ℕ → List ℕ) (key : List ℕ)
      → IsSupported
      → (t : CipherType)
      → Known t ⊎ ((t ≡ rc4) × (iv_size B t ≡ panic) × (bytes_to_key B md5 t key ≡ panic))
  unfolding key_size iv_size bytes_to_key classic_bytes_to_key is_rc4
  sizes_known md5 key h table = inl ((_, refl), (_, refl))
  sizes_known md5 key h plain = inl ((_, refl), (_, refl))
  sizes_known md5 key h aes128_cfb = inl ((_, refl), named_iv h symm_aes_128_cfb128 refl)
  sizes_known md5 key h aes128_cfb1 = inl ((_, refl), named_iv h symm_aes_128_cfb1 refl)
  sizes_known md5 key h aes128_cfb8 = inl ((_, refl), named_iv h symm_aes_128_cfb8 refl)
  sizes_known md5 key h aes128_cfb128 = inl ((_, refl), named_iv h symm_aes_128_cfb128 refl)
  sizes_known md5 key h aes192_cfb = inl ((_, refl), named_iv h symm_aes_192_cfb128 refl)
  sizes_known md5 key h aes192_cfb1 = inl ((_, refl), named_iv h symm_aes_192_cfb1 refl)
  sizes_known md5 key h aes192_cfb8 = inl ((_, refl), named_iv h symm_aes_192_cfb8 refl)
  sizes_known md5 key h aes192_cfb128 = inl ((_, refl), named_iv h symm_aes_192_cfb128 refl)
  sizes_known md5 key h aes256_cfb = inl ((_, refl), named_iv h symm_aes_256_cfb128 refl)
  sizes_known md5 key h aes256_cfb1 = inl ((_, refl), named_iv h symm_aes_256_cfb1 refl)
  sizes_known md5 key h aes256_cfb8 = inl ((_, refl), named_iv h symm_aes_256_cfb8 refl)
  sizes_known md5 key h aes256_cfb128 = inl ((_, refl), named_iv h symm_aes_256_cfb128 refl)
  sizes_known md5 key h aes128_ctr = inl ((_, refl), named_iv h symm_aes_128_ctr refl)
  sizes_known md5 key h aes192_ctr = inl ((_, refl), named_iv h symm_aes_192_ctr refl)
  sizes_known md5 key h aes256_ctr = inl ((_, refl), named_iv h symm_aes_256_ctr refl)
  sizes_known md5 key h camellia128_cfb =
      inl (nid_key h camellia_128_cfb128, nid_iv h camellia_128_cfb128)
  sizes_known md5 key h camellia192_cfb =
      inl (nid_key h camellia_192_cfb128, nid_iv h camellia_192_cfb128)
  sizes_known md5 key h camellia256_cfb =
      inl (nid_key h camellia_256_cfb128, nid_iv h camellia_256_cfb128)
  sizes_known md5 key h camellia128_cfb1 =
      inl (nid_key h camellia_128_cfb1, nid_iv h camellia_128_cfb1)
  sizes_known md5 key h camellia192_cfb1 =
      inl (nid_key h camellia_192_cfb1, nid_iv h camellia_192_cfb1)
  sizes_known md5 key h camellia256_cfb1 =
      inl (nid_key h camellia_256_cfb1, nid_iv h camellia_256_cfb1)
  sizes_known md5 key h camellia128_cfb8 =
      inl (nid_key h camellia_128_cfb8, nid_iv h camellia_128_cfb8)
  sizes_known md5 key h camellia192_cfb8 =
      inl (nid_key h camellia_192_cfb8, nid_iv h camellia_192_cfb8)
  sizes_known md5 key h camellia256_cfb8 =
      inl (nid_key h camellia_256_cfb8, nid_iv h camellia_256_cfb8)
  sizes_known md5 key h camellia128_cfb128 =
      inl (nid_key h camellia_128_cfb128, nid_iv h camellia_128_cfb128)
  sizes_known md5 key h camellia192_cfb128 =
      inl (nid_key h camellia_192_cfb128, nid_iv h camellia_192_cfb128)
  sizes_known md5 key h camellia256_cfb128 =
      inl (nid_key h camellia_256_cfb128, nid_iv h camellia_256_cfb128)
  sizes_known md5 key h rc4 =
      inr (refl, ap expect h.rc4_no_iv, bind_panic _ _ (ap expect h.rc4_no_iv))
  sizes_known md5 key h rc4_md5 = inl ((_, refl), (_, refl))
  sizes_known md5 key h chacha20 = inl ((_, refl), (_, refl))
  sizes_known md5 key h salsa20 = inl ((_, refl), (_, refl))
  sizes_known md5 key h xsalsa20 = inl ((_, refl), (_, refl))
  sizes_known md5 key h chacha20_ietf = inl ((_, refl), (_, refl))
  sizes_known md5 key h aes128_gcm = inl ((_, refl), (_, refl))
  sizes_known md5 key h aes256_gcm = inl ((_, refl), (_, refl))
  sizes_known md5 key h chacha20_ietf_poly1305 = inl ((_, refl), (_, refl))
  sizes_known md5 key h xchacha20_ietf_poly1305 = inl ((_, refl), (_, refl))
  sizes_known md5 key h aes128_pmac_siv = inl ((_, refl), (_, refl))
  sizes_known md5 key h aes256_pmac_siv = inl ((_, refl), (_, refl))
