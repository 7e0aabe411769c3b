-- ===== src/UdpRelay/CryptoIo/Packets.antt =====
-- What the receiver of a packet gets, and what happens to a packet that comes again.
use shadowsocks_rust.Common.{
  ℕ, ◌+◌, ◌≤◌, ◌<◌, ◌≡◌, ◌≢◌, refl, sym, ap, ◌∙◌, subst, List, [], length, length-take, take, drop,
  ltb, arith, Bool-cases, true, false, Option, none, some, inl, inr, ◌⊎◌, if◌then◌else◌,
}
use shadowsocks_rust.Common.Outcome.{Outcome, ok, err}
use shadowsocks_rust.Io.{IoError}
use shadowsocks_rust.Crypto.CipherType.{CipherType, CipherCategory, stream, aead, category}
use shadowsocks_rust.Crypto.Sizes.{Backends, iv_size, tag_size, salt_size}
use shadowsocks_rust.Replay.{BloomFilter, PingPongBloom, check_nonce_and_set, check_all}
use shadowsocks_rust.Replay.Invariant.{Inv}
use shadowsocks_rust.Replay.Memory.{replay_detected}
use shadowsocks_rust.UdpRelay.CryptoIo.{
  Suite, Answer, repeated_error, checked, open_stream, open_aead, decrypt_payload,
  decrypt_payload_stream, decrypt_payload_aead,
}
use shadowsocks_rust.UdpRelay.CryptoIo.Nonces.{IsNew, answered}

module _ (B : Backends) (F : BloomFilter) (S : Suite B) where
  open S use {aead_cipher, stream_cipher}

  -- The size of the nonce, and the least length of a packet.
  abbrev pub HasSizes : CipherCategory → CipherType → ℕ → ℕ → Type 0
  HasSizes stream t size least = (iv_size B t ≡ ok size) × (least ≡ size)
  HasSizes aead t size least =
      (tag : ℕ) × (tag_size B t ≡ ok tag) × (salt_size B t ≡ ok size) × (least ≡ tag + size)

  abbrev pub opened :
      CipherCategory → CipherType → List ℕ → List ℕ → List ℕ → Outcome IoError (Option (List ℕ))
  opened stream = open_stream B F S
  opened aead = open_aead B F S

  -- The answer to a packet of at least `least` bytes, its nonce and what follows it apart.
  abbrev pub answer_to :
      CipherCategory → CipherType → List ℕ → List ℕ → List ℕ → PingPongBloom F → Answer B F S
  answer_to c t key nonce text r =
      checked B F S (repeated_error B F S c) (opened c t key nonce text) r
        (check_nonce_and_set F nonce r)

  stream_answers :
      (t : CipherType) (key packet : List ℕ) (r : PingPongBloom F) (size : ℕ)
      → iv_size B t ≡ ok size
      → decrypt_payload_stream B F S t key packet r ≡ (
          if ltb (length packet) size
          then (ok none, r)
          else answer_to stream t key (take size packet) (drop size packet) r)
  unfolding decrypt_payload_stream
  stream_answers t key packet r size h = rw (h, decrypt_payload_stream) refl

  aead_answers :
      (t : CipherType) (key packet : List ℕ) (r : PingPongBloom F) (tag size : ℕ)
      → tag_size B t ≡ ok tag
      → salt_size B t ≡ ok size
      → decrypt_payload_aead B F S t key packet r ≡ (
          if ltb (length packet) (tag + size)
          then (ok none, r)
          else answer_to aead t key (take size packet) (drop size packet) r)
  unfolding decrypt_payload_aead
  aead_answers t key packet r tag size h h' = rw (h, h', decrypt_payload_aead) refl

  pub decrypt_answers :
      (c : CipherCategory) (t : CipherType) (key packet : List ℕ) (r : PingPongBloom F)
      (size least : ℕ)
      → category t ≡ c
      → HasSizes c t size least
      → decrypt_payload B F S t key packet r ≡ (
          if ltb (length packet) least
          then (ok none, r)
          else answer_to c t key (take size packet) (drop size packet) r)
  unfolding decrypt_payload
  decrypt_answers stream t key packet r size least hc (h, e) =
      rw (hc, decrypt_payload, e) (stream_answers t key packet r size h)
  decrypt_answers aead t key packet r size least hc (tag, h, h', e) =
      rw (hc, decrypt_payload, e) (aead_answers t key packet r tag size h h')

  -- The answers to a packet: too short, its nonce seen before, or opened, its nonce then recorded.
  abbrev pub Answered :
      CipherCategory
      → CipherType
      → List ℕ
      → List ℕ
      → PingPongBloom F
      → ℕ
      → ℕ
      → Answer B F S
      → Type 0
  Answered c t key packet r size least answer =
      ((length packet < least) × (answer ≡ (ok none, r)))
      ⊎ ((least ≤ length packet)
          × (check_nonce_and_set F (take size packet) r ≡ ok (true, r))
          × (answer ≡ (err (repeated_error B F S c), r)))
      ⊎ ((least ≤ length packet)
          × ((r' : PingPongBloom F) × IsNew F (take size packet) r r'
              × Inv F r'
              × (answer ≡ (opened c t key (take size packet) (drop size packet), r'))))

  -- With known sizes and filters in a state that checks leave, a packet gets one of three
  -- answers: none if it is shorter than nonce and tag, and nothing is recorded; the error for a
  -- repeated nonce, and nothing is recorded; or what the cipher makes of the rest, and the
  -- nonce is recorded, even if the cipher fails.
  pub decrypt_payload-Answered :
      (c : CipherCategory) (t : CipherType) (key packet : List ℕ) (r : PingPongBloom F)
      (size least : ℕ)
      → category t ≡ c
      → HasSizes c t size least
      → Inv F r
      → Answered c t key packet r size least (decrypt_payload B F S t key packet r)
  unfolding checked
  decrypt_payload-Answered c t key packet r size least hc hs v =
      let answer = decrypt_answers c t key packet r size least hc hs in
      rw (answer) (elim (Bool-cases (ltb (length packet) least)) [
        | inl short ↦ rw (short) (inl (ground arith, refl))
        | inr long ↦ rw (long) (
            inr (elim (answered F (take size packet) r v) [
              | inl seen ↦ inl (ground arith, seen, ap (checked B F S _ _ r) seen)
              | inr (r', fresh, v') ↦
                  inr (ground arith, (r', fresh, v', ap (checked B F S _ _ r) fresh))
            ]))
      ])

  not_nil : (xs : List ℕ) → 0 < length xs → xs ≢ []
  not_nil xs h e = omega (arith, ap length e)

  size_le :
      (c : CipherCategory) (t : CipherType) (size least : ℕ)
      → HasSizes c t size least
      → size ≤ least
  size_le stream t size least (h, e) = omega arith
  size_le aead t size least (tag, h, h', e) = omega arith

  pub long_packet :
      (packet : List ℕ) (least : ℕ) → least ≤ length packet → ltb (length packet) least ≡ false
  long_packet packet least h = ground arith

  seen_answer :
      (c : CipherCategory) (t : CipherType) (key packet : List ℕ) (r : PingPongBloom F)
      (size least : ℕ)
      → least ≤ length packet
      → check_nonce_and_set F (take size packet) r ≡ ok (true, r)
      → (if ltb (length packet) least
          then (ok none, r)
          else answer_to c t key (take size packet) (drop size packet) r)
        ≡ (err (repeated_error B F S c), r)
  unfolding checked
  seen_answer c t key packet r size least long seen =
      rw (long_packet packet least long) (ap (checked B F S _ _ r) seen)

  -- A packet that was decrypted is refused as a replay if it comes again, under any key, after
  -- any sequence of at most as many checks of other nonces as one filter has room for; the
  -- refusal changes nothing. The cipher's nonce is not empty.
  pub replayed_packet :
      (c : CipherCategory) (t : CipherType) (key key' packet text : List ℕ) (r r' : PingPongBloom F)
      (size least : ℕ) (others : List (List ℕ))
      → category t ≡ c
      → HasSizes c t size least
      → 0 < size
      → Inv F r
      → decrypt_payload B F S t key packet r ≡ (ok (some text), r')
      → length others ≤ r.item_count
      → (q : PingPongBloom F) × (check_all F others r' ≡ ok q)
        × (decrypt_payload B F S t key' packet q ≡ (err (repeated_error B F S c), q))
  unfolding checked
  replayed_packet c t key key' packet text r r' size least others hc hs pos v e few =
      elim (decrypt_payload-Answered c t key packet r size least hc hs v) [
        | inl (short, f) ↦ cc
        | inr (inl (long, seen, f)) ↦ cc
        | inr (inr (long, (q', fresh, v', f))) ↦
            let same : q' ≡ r' = sym (ap (λ x. x.1) f) ∙ ap (λ x. x.1) e in
            let nonempty : take size packet ≢ [] =
              not_nil (take size packet)
                (omega (arith, length-take size packet, size_le c t size least hs)) in
            let (q, g, again) =
              replay_detected F (take size packet) others r r' v nonempty
                (subst (λ x. IsNew F (take size packet) r x) same fresh) few in
            (
              q,
              g,
              decrypt_answers c t key' packet q size least hc hs
                  ∙ seen_answer c t key' packet q size least long again,
            )
      ]
