-- ===== src/Crypto/Keystream.antt =====
-- crypto/stream.rs: what the stream ciphers of a TCP connection do beyond the trait. They
-- encrypt byte by byte, so a text may be cut anywhere, and they keep no last block.
use shadowsocks_rust.Common.{ℕ, ◌≡◌, sym, ap, ◌∙◌, List, [], ◌++◌}
use shadowsocks_rust.Common.Outcome.{Outcome, ok, ◌>>=◌, returned, ok_injective}
use shadowsocks_rust.Io.{IoError}
use shadowsocks_rust.Crypto.{StreamCipher}

-- The text of one piece, then of a second one.
abbrev pub both :
    (S : StreamCipher) → S.Cipher → List ℕ → List ℕ → Outcome IoError (List ℕ × S.Cipher)
both S c x y = do (a, c1) ← S.update c x; (b, c2) ← S.update c1 y; ok (a ++ b, c2)

pub record Keystream (S : StreamCipher) : Type 1 where
  pub InStep : S.Cipher → S.Cipher → Type 0
  pub new-InStep : (key iv : List ℕ) → InStep (S.new_encrypt key iv) (S.new_decrypt key iv)
  pub update_nil : (c : S.Cipher) → S.update c [] ≡ ok ([], c)
  pub update-append : (c : S.Cipher) (x y : List ℕ) → S.update c (x ++ y) ≡ both S c x y
  pub finalize_nil : (c : S.Cipher) → S.finalize c ≡ ok []
  pub decrypt-update :
      (e d e' : S.Cipher) (x y : List ℕ)
      → InStep e d
      → S.update e x ≡ ok (y, e')
      → (d' : S.Cipher) × (S.update d y ≡ ok (x, d')) × InStep e' d'

module _ (S : StreamCipher) (K : Keystream S) where
  open K use {InStep, update_nil, update-append, finalize_nil, decrypt-update}

  -- A text that is decrypted as a whole is decrypted in two pieces.
  pub update_split :
      (c c' : S.Cipher) (x y z : List ℕ)
      → S.update c (x ++ y) ≡ ok (z, c')
      → (a : List ℕ) × (c1 : S.Cipher) × (b : List ℕ) × (S.update c x ≡ ok (a, c1))
        × (S.update c1 y ≡ ok (b, c'))
        × (z ≡ a ++ b)
  update_split c c' x y z e =
      let ((a, c1), first, rest) =
        returned (S.update c x) _ (z, c') (sym (update-append c x y) ∙ e) in
      let ((b, c2), second, last) = returned (S.update c1 y) _ (z, c') rest in
      let same : (a ++ b, c2) ≡ (z, c') = ok_injective (a ++ b, c2) (z, c') last in
      (a, c1, b, first, second ∙ ap (λ v. ok (b, v)) (ap (λ v. v.1) same), sym (ap (λ v. v.0) same))

  -- Pieces that are decrypted one after the other are the text decrypted as a whole.
  pub update_joined :
      (c c1 c' : S.Cipher) (x y a b : List ℕ)
      → S.update c x ≡ ok (a, c1)
      → S.update c1 y ≡ ok (b, c')
      → S.update c (x ++ y) ≡ ok (a ++ b, c')
  update_joined c c1 c' x y a b e f =
      update-append c x y
      ∙ ap (λ m. m >>= λ (u, d). (S.update d y >>= λ (v, d'). ok (u ++ v, d'))) e
      ∙ ap (λ m. m >>= λ (v, d'). ok (a ++ v, d')) f
