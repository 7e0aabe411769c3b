-- ===== src/Crypto/Sizes/Keys.antt =====
-- The key that is made of a password.
use shadowsocks_rust.Common.{
  ℕ, zero, suc, ◌+◌, ◌-◌, ◌*◌, ◌/◌, ◌≤◌, ◌==◌, ◌≡◌, refl, sym, ap, subst, ◌∙◌, inl, inr, List, [],
  ◌∷◌, ◌++◌, append_assoc, append-nil, length, length-append, length-take, take, arith, Bool-cases,
  if◌then◌else◌,
}
use shadowsocks_rust.Common.Outcome.{ok}
use shadowsocks_rust.Crypto.CipherType.{CipherType}
use shadowsocks_rust.Crypto.Sizes.{
  Backends, key_size, iv_size, md5_digest_len, key_rounds, classic_bytes_to_key, bytes_to_key,
}

module _ (B : Backends) (md5 : List ℕ → List ℕ)
    (length-md5 : (x : List ℕ) → length (md5 x) ≡ md5_digest_len) where
  -- The first `n` digests: each is of the digest before it and the password.
  abbrev pub digests : ℕ → List ℕ → List ℕ → List ℕ
  digests zero key m = []
  digests (suc n) key m = md5 (m ++ key) ++ digests n key (md5 (m ++ key))

  key_rounds-digests :
      (n : ℕ) (key m result : List ℕ) → key_rounds B md5 n key m result ≡ result ++ digests n key m
  unfolding key_rounds
  key_rounds-digests zero key m result = sym (append-nil result)
  key_rounds-digests (suc n) key m result =
      key_rounds-digests n key (md5 (m ++ key)) (result ++ md5 (m ++ key))
      ∙ append_assoc result (md5 (m ++ key)) (digests n key (md5 (m ++ key)))

  length-digests : (n : ℕ) (key m : List ℕ) → length (digests n key m) ≡ n * md5_digest_len
  length-digests zero key m = refl
  length-digests (suc n) key m = omega (
    arith,
    length-append (md5 (m ++ key)) (digests n key (md5 (m ++ key))),
    length-md5 (m ++ key),
    length-digests n key (md5 (m ++ key)),
  )

  -- Two lists that share a front and agree behind it agree on their first `k` elements.
  take_shared :
      (k : ℕ) (xs ys zs : List ℕ)
      → take (k - length xs) ys ≡ take (k - length xs) zs
      → take k (xs ++ ys) ≡ take k (xs ++ zs)
  take_shared k [] ys zs h = subst (λ j. take j ys ≡ take j zs) whole h
    where
      whole : k - 0 ≡ k
      whole = omega arith
  take_shared zero (x ∷ xs) ys zs h = refl
  take_shared (suc k) (x ∷ xs) ys zs h =
      ap (◌∷◌ x) (take_shared k xs ys zs (subst (λ j. take j ys ≡ take j zs) fewer h))
    where
      fewer : suc k - suc (length xs) ≡ k - length xs
      fewer = omega arith

  take_none : (k : ℕ) (xs ys : List ℕ) → k ≤ 0 → take k xs ≡ take k ys
  take_none zero xs ys h = refl
  take_none (suc k) xs ys h = absurd (omega arith)

  take_no_more : (k : ℕ) (xs : List ℕ) → k ≤ 0 → [] ≡ take k xs
  take_no_more zero xs h = refl
  take_no_more (suc k) xs h = absurd (omega arith)

  -- More digests than the key needs do not change it.
  take-digests :
      (k n n' : ℕ) (key m : List ℕ)
      → k ≤ n * md5_digest_len
      → k ≤ n' * md5_digest_len
      → take k (digests n key m) ≡ take k (digests n' key m)
  take-digests k zero n' key m h h' = take_none k [] (digests n' key m) (omega arith)
  take-digests k (suc n) zero key m h h' = take_none k (digests (suc n) key m) [] (omega arith)
  take-digests k (suc n) (suc n') key m h h' =
      let one : length (md5 (m ++ key)) ≡ md5_digest_len = length-md5 (m ++ key) in
      take_shared k (md5 (m ++ key)) (digests n key (md5 (m ++ key)))
        (digests n' key (md5 (m ++ key)))
        (take-digests (k - length (md5 (m ++ key))) n n' key (md5 (m ++ key)) (omega arith)
          (omega arith))

  made_key :
      (k i n : ℕ) (password : List ℕ)
      → k ≤ n * md5_digest_len
      → (if i + k == 0
          then []
          else take k
              (key_rounds B md5 ((k + i + md5_digest_len - 1) / md5_digest_len) password [] []))
        ≡ take k (digests n password [])
  made_key k i n password enough = elim (Bool-cases (i + k == 0)) [
    | inl none_needed ↦ rw (none_needed) (take_no_more k (digests n password []) (ground arith))
    | inr some_needed ↦
        rw (some_needed, key_rounds-digests _ password [] [])
          (take-digests k ((k + i + md5_digest_len - 1) / md5_digest_len) n password []
            (omega arith) enough)
  ]

  -- For a type with known sizes the key that is made of a password is the front, as long as the
  -- key size, of a chain of MD5 digests, each of the digest before it and the password; any
  -- number of digests that is enough gives it, so the initial vector size does not matter. A
  -- digest has 16 bytes.
  pub bytes_to_key-digests :
      (t : CipherType) (password : List ℕ) (k i n : ℕ)
      → key_size B t ≡ ok k
      → iv_size B t ≡ ok i
      → k ≤ n * md5_digest_len
      → (bytes_to_key B md5 t password ≡ ok (take k (digests n password [])))
        × (length (take k (digests n password [])) ≡ k)
  unfolding bytes_to_key classic_bytes_to_key
  bytes_to_key-digests t password k i n hk hi enough = (
    rw (hi, hk) (ap ok (made_key k i n password enough)),
    omega (arith, length-take k (digests n password []), length-digests n password []),
  )
