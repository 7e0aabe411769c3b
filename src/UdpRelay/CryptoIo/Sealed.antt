-- ===== src/UdpRelay/CryptoIo/Sealed.antt =====
-- A packet that was encrypted is decrypted to its payload by a receiver to whom its nonce is new.
use shadowsocks_rust.Common.{
  ℕ, ◌+◌, ◌≤◌, ◌≡◌, refl, sym, ap, ◌∙◌, subst, List, ◌++◌, length, length-append, take, drop,
  take-length-append, drop-length-append, arith, All, some,
}
use shadowsocks_rust.Common.Outcome.{Outcome, ok, err, panic, returned}
use shadowsocks_rust.Io.{IoError}
use shadowsocks_rust.Crypto.CipherType.{CipherType, CipherCategory, stream, aead, category}
use shadowsocks_rust.Crypto.Sizes.{Backends, iv_size, tag_size, salt_size}
use shadowsocks_rust.Replay.{BloomFilter, PingPongBloom}
use shadowsocks_rust.Replay.Invariant.{Inv}
use shadowsocks_rust.UdpRelay.CryptoIo.{
  Suite, UdpError, lift, lift_io, draw_nonce, encrypt_payload, encrypt_payload_stream,
  encrypt_payload_aead, checked, open_stream, open_aead, decrypt_payload,
}
use shadowsocks_rust.UdpRelay.CryptoIo.Nonces.{IsDraw, IsNew, Drawn, lift_ok, draw_nonce-ok}
use shadowsocks_rust.UdpRelay.CryptoIo.Packets.{HasSizes, opened, decrypt_answers, long_packet}

module _ (B : Backends) (F : BloomFilter) (S : Suite B) where
  open S use {aead_cipher, stream_cipher}

  -- The nonce and the text of a packet, and what is known of them.
  pub record Sealed (c : CipherCategory) (t : CipherType) (key payload : List ℕ)
      (p : PingPongBloom F) (packet : List ℕ) (p' : PingPongBloom F) : Type 0 where
    pub nonce : List ℕ
    pub text : List ℕ
    pub size : ℕ
    pub least : ℕ
    pub sizes : HasSizes B F S c t size least
    pub nonce_size : length nonce ≡ size
    pub parts : packet ≡ nonce ++ text
    pub long : least ≤ length packet
    pub fresh : IsNew F nonce p p'
    pub opens : opened B F S c t key nonce text ≡ ok (some payload)

  open_aead-encrypt :
      (t : CipherType) (key salt payload : List ℕ)
      → open_aead B F S t key salt
          ((aead_cipher t).encrypt ((aead_cipher t).new_enc key salt) payload).0
        ≡ ok (some payload)
  unfolding open_aead
  open_aead-encrypt t key salt payload =
      let (d, e, h) =
        (aead_cipher t).decrypt-encrypt ((aead_cipher t).new_enc key salt)
          ((aead_cipher t).new_dec key salt) payload ((aead_cipher t).new-InStep key salt) in
      rw (e, open_aead) refl

  open_stream-encrypt :
      (t : CipherType) (key iv payload text last : List ℕ) (cipher : (stream_cipher t).Cipher)
      → (stream_cipher t).update ((stream_cipher t).new_encrypt key iv) payload ≡ ok (text, cipher)
      → (stream_cipher t).finalize cipher ≡ ok last
      → open_stream B F S t key iv (text ++ last) ≡ ok (some payload)
  unfolding open_stream
  open_stream-encrypt t key iv payload text last cipher h h' =
      let (x1, x2, d, e, f, whole) =
        (stream_cipher t).decrypt-encrypt key iv payload text last cipher h h' in
      rw (e, f, open_stream) (ap (λ x. ok (some x)) whole)

  pair_of :
      {A : Type 0} {a b : A} {x y : PingPongBloom F}
      → ◌≡◌ {A = Outcome UdpError (A × PingPongBloom F)} (ok (a, x)) (ok (b, y))
      → (a ≡ b) × (x ≡ y)
  pair_of {a = a} {x = x} e =
      (let f = ap (λ o. elim o [ ok r ↦ r | err _ ↦ (a, x) | panic ↦ (a, x) ]) e in
        (ap (λ r. r.0) f, ap (λ r. r.1) f))

  lift_io_ok : {A : Type 0} (m : Outcome IoError A) (a : A) → lift_io m ≡ ok a → m ≡ ok a
  lift_io_ok (ok b) a e = cc
  lift_io_ok (err b) a e = cc
  lift_io_ok panic a e = cc

  aead_parts :
      (t : CipherType) (key salt payload packet : List ℕ) (p q p' : PingPongBloom F) (n tag : ℕ)
      → Drawn B F S n p (salt, q)
      → salt_size B t ≡ ok n
      → tag_size B t ≡ ok tag
      → (salt ++ ((aead_cipher t).encrypt ((aead_cipher t).new_enc key salt) payload).0 ≡ packet)
        × (q ≡ p')
      → Sealed aead t key payload p packet p'
  aead_parts t key salt payload packet p q p' n tag (len, fresh, _) hs ht (e, f) =
      let cipher = aead_cipher t in
      let text = (cipher.encrypt (cipher.new_enc key salt) payload).0 in
      let text_len : length text ≡ length payload + cipher.tag_size =
        cipher.length-encrypt (cipher.new_enc key salt) payload in
      let tag_len : cipher.tag_size ≡ tag = S.tag_size-aead_cipher t tag ht in
      record {
        nonce = salt;
        text = text;
        size = n;
        least = tag + n;
        sizes = (tag, ht, hs, refl);
        nonce_size = len;
        parts = sym e;
        long = omega (arith, ap length e, length-append salt text);
        fresh = subst (IsNew F salt p) f fresh;
        opens = open_aead-encrypt t key salt payload;
      }

  stream_parts :
      (t : CipherType) (key iv payload text last packet : List ℕ)
      (cipher : (stream_cipher t).Cipher) (p q p' : PingPongBloom F) (n : ℕ)
      → Drawn B F S n p (iv, q)
      → iv_size B t ≡ ok n
      → (stream_cipher t).update ((stream_cipher t).new_encrypt key iv) payload ≡ ok (text, cipher)
      → (stream_cipher t).finalize cipher ≡ ok last
      → (iv ++ (text ++ last) ≡ packet) × (q ≡ p')
      → Sealed stream t key payload p packet p'
  stream_parts t key iv payload text last packet cipher p q p' n (len, fresh, _) hs h h' (e, f) =
      record {
        nonce = iv;
        text = text ++ last;
        size = n;
        least = n;
        sizes = (hs, refl);
        nonce_size = len;
        parts = sym e;
        long = omega (arith, ap length e, length-append iv (text ++ last));
        fresh = subst (IsNew F iv p) f fresh;
        opens = open_stream-encrypt t key iv payload text last cipher h h';
      }

  encrypted-Sealed :
      (c : CipherCategory) (t : CipherType) (key payload packet : List ℕ)
      (draws : List (ℕ → List ℕ)) (p p' : PingPongBloom F)
      → category t ≡ c
      → Inv F p
      → All IsDraw draws
      → encrypt_payload B F S t key payload draws p ≡ ok (packet, p')
      → Sealed c t key payload p packet p'
  unfolding encrypt_payload encrypt_payload_aead encrypt_payload_stream
  encrypted-Sealed aead t key payload packet draws p p' hc v all_draws e =
      let e' = rw (hc, encrypt_payload) at e in
      let (res, d, e1) = returned (draw_nonce B F S (salt_size B t) draws p) _ _ e' in
      let (tag, ht, e2) = returned (lift (tag_size B t)) _ _ e1 in
      let (n, hs, drawn) = draw_nonce-ok B F S (salt_size B t) draws p res v all_draws d in
      aead_parts t key res.0 payload packet p res.1 p' n tag drawn hs
        (lift_ok B F S (tag_size B t) tag ht) (pair_of e2)
  encrypted-Sealed stream t key payload packet draws p p' hc v all_draws e =
      let e' = rw (hc, encrypt_payload) at e in
      let (res, d, e1) = returned (draw_nonce B F S (iv_size B t) draws p) _ _ e' in
      let (sent, hu, e2) =
        returned
          (lift_io ((stream_cipher t).update ((stream_cipher t).new_encrypt key res.0) payload)) _ _
          e1 in
      let (last, hf, e3) = returned (lift_io ((stream_cipher t).finalize sent.1)) _ _ e2 in
      let (n, hs, drawn) = draw_nonce-ok B F S (iv_size B t) draws p res v all_draws d in
      stream_parts t key res.0 payload sent.0 last packet sent.1 p res.1 p' n drawn hs
        (lift_io_ok _ sent hu) (lift_io_ok _ last hf) (pair_of e3)

  front :
      (nonce text packet : List ℕ) (size : ℕ)
      → packet ≡ nonce ++ text
      → length nonce ≡ size
      → (take size packet ≡ nonce) × (drop size packet ≡ text)
  front nonce text packet size e len = (
    ap (λ n. take n packet) (sym len) ∙ ap (take (length nonce)) e ∙ take-length-append nonce text,
    ap (λ n. drop n packet) (sym len) ∙ ap (drop (length nonce)) e ∙ drop-length-append nonce text,
  )

  fresh_answer :
      (c : CipherCategory) (t : CipherType) (key payload packet : List ℕ)
      (p p' r r' : PingPongBloom F) (s : Sealed c t key payload p packet p')
      → category t ≡ c
      → IsNew F s.nonce r r'
      → decrypt_payload B F S t key packet r ≡ (ok (some payload), r')
  unfolding checked
  fresh_answer c t key payload packet p p' r r' s hc fresh =
      let (nonce_part, text_part) = front s.nonce s.text packet s.size s.parts s.nonce_size in
      decrypt_answers B F S c t key packet r s.size s.least hc s.sizes
      ∙ rw (long_packet B F S packet s.least s.long, nonce_part, text_part)
          (ap (checked B F S _ _ r) fresh ∙ ap (λ o. (o, r')) s.opens)

  -- If a payload is encrypted to a packet by a sender whose filters are in a state that checks
  -- leave, with draws of the size asked for, then the packet starts with a nonce that was new
  -- to the sender and is recorded by it, and every receiver with the same key to whom the nonce
  -- is new decrypts the packet to that payload and records the nonce. For stream and AEAD
  -- ciphers alike.
  pub packet_round_trip :
      (t : CipherType) (key payload packet : List ℕ) (draws : List (ℕ → List ℕ))
      (p p' : PingPongBloom F)
      → Inv F p
      → All IsDraw draws
      → encrypt_payload B F S t key payload draws p ≡ ok (packet, p')
      → (nonce : List ℕ) × (text : List ℕ) × (packet ≡ nonce ++ text)
        × IsNew F nonce p p'
        × ((r r' : PingPongBloom F)
            → IsNew F nonce r r'
            → decrypt_payload B F S t key packet r ≡ (ok (some payload), r'))
  unfolding checked
  packet_round_trip t key payload packet draws p p' v all_draws e =
      let s = encrypted-Sealed (category t) t key payload packet draws p p' refl v all_draws e in
      (
        s.nonce,
        s.text,
        s.parts,
        s.fresh,
        λ r r' fresh. fresh_answer (category t) t key payload packet p p' r r' s refl fresh,
      )
