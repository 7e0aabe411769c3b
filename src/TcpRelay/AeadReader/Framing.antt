-- ===== src/TcpRelay/AeadReader/Framing.antt =====
-- The AEAD stream format, and what one refill of the reader does with a stream of that format.
use shadowsocks_rust.Common.{
  ℕ, suc, ◌+◌, ◌*◌, ◌≤◌, ◌<◌, ◌≡◌, refl, sym, ap, ◌∙◌, subst, inl, inr, List, [], ◌∷◌, ◌++◌, length,
  length-append, drop, arith, true, false, some,
}
use shadowsocks_rust.Common.Words.{IsU16, high_byte, low_byte, u16_of, u16_of-bytes}
use shadowsocks_rust.Crypto.{AeadCipher}
use shadowsocks_rust.TcpRelay.Polling.{pending, done, ReadEvent, bytes, IsClean}
use shadowsocks_rust.TcpRelay.AeadReader.{
  DecryptedReader, DecryptReadStep, reading_length, reading_data, Polls, poll_read_decrypted_length,
  poll_read_decrypted_data, decode_length, decoded_length, read_length, decode_data, refill,
  after_length, after_data,
}
use shadowsocks_rust.TcpRelay.AeadReader.Exact.{
  ahead, Fills, waiting, filled, ended, cut, poll_read_exact-Fills,
}

append-injective :
    (xs ys us vs : List ℕ) → length xs ≡ length ys → xs ++ us ≡ ys ++ vs → (xs ≡ ys) × (us ≡ vs)
append-injective [] [] us vs h e = (refl, e)
append-injective [] (y ∷ ys) us vs h e = absurd (omega arith)
append-injective (x ∷ xs) [] us vs h e = absurd (omega arith)
append-injective (x ∷ xs) (y ∷ ys) us vs h e =
    let tails : xs ++ us ≡ ys ++ vs = cc in
    let (p, q) = append-injective xs ys us vs (omega arith) tails in (cc, q)

module _ (C : AeadCipher) where
  open C use {Decryptor, tag_size, decrypt}

  -- `bs` is the packets of the bytes `out`: an encrypted length, then as many encrypted bytes.
  mutual
    pub data Framed : Decryptor → List ℕ → List ℕ → Type 0 where
      over : {d : Decryptor} {bs out : List ℕ} → bs ≡ [] → out ≡ [] → Framed d bs out
      packet :
          {d d1 : Decryptor} {n : ℕ} {head rest bs out : List ℕ}
          → decrypt d head ≡ (some (high_byte n ∷ low_byte n ∷ []), d1)
          → IsU16 n
          → length head ≡ 2 + tag_size
          → bs ≡ head ++ rest
          → Body n d1 rest out
          → Framed d bs out

    pub data Body : ℕ → Decryptor → List ℕ → List ℕ → Type 0 where
      body :
          {n : ℕ} {d d1 : Decryptor} {x head rest bs out out' : List ℕ}
          → decrypt d head ≡ (some x, d1)
          → length x ≡ n
          → length head ≡ n + tag_size
          → bs ≡ head ++ rest
          → out ≡ x ++ out'
          → Framed d1 rest out'
          → Body n d bs out

  -- What the reader's step still has to decode, and how much it has buffered for that.
  abbrev pub Upcoming : DecryptReadStep → DecryptedReader C → List ReadEvent → List ℕ → Type 0
  Upcoming reading_length r s q = Framed r.cipher (ahead C r s) q × (length r.buffer ≤ 2 + tag_size)
  Upcoming (reading_data n) r s q =
      Body n r.cipher (ahead C r s) q × ((length r.buffer ≤ n + tag_size) × (r.plain ≡ []))

  abbrev pub State : DecryptedReader C → List ReadEvent → List ℕ → Type 0
  State r s q = IsClean s × Upcoming r.steps r s q

  abbrev pub weight : DecryptReadStep → ℕ
  weight reading_length = 0
  weight (reading_data n) = 1

  abbrev pub measure : DecryptedReader C → List ReadEvent → ℕ
  measure r s = 2 * length (ahead C r s) + weight r.steps

  pub data Refilled (r : DecryptedReader C) (s : List ReadEvent) (q : List ℕ)
      : Polls C (Unit {0}) → Type 0 where
    paused :
        {r' : DecryptedReader C} {s' : List ReadEvent}
        → r'.plain ≡ r.plain
        → r'.pos ≡ r.pos
        → r'.got_final ≡ r.got_final
        → State r' s' q
        → Refilled r s q (pending, r', s')
    moved :
        {r' : DecryptedReader C} {s' : List ReadEvent} (q' : List ℕ)
        → q ≡ drop r'.pos r'.plain ++ q'
        → r'.got_final ≡ false
        → State r' s' q'
        → measure r' s' < measure r s
        → Refilled r s q (done tt, r', s')
    finished :
        {r' : DecryptedReader C} {s' : List ReadEvent}
        → q ≡ []
        → r'.got_final ≡ true
        → r'.plain ≡ r.plain
        → r'.pos ≡ r.pos
        → State r' s' q
        → Refilled r s q (done tt, r', s')

  Framed_short :
      {d : Decryptor} {bs out : List ℕ}
      → Framed d bs out
      → length bs < 2 + tag_size
      → (bs ≡ []) × (out ≡ [])
  Framed_short (over e f) h = (e, f)
  Framed_short (packet {head = head} {rest = rest} dec lt len split b) h =
      absurd (omega (arith, ap length split, length-append head rest))

  decode_length-some :
      (r : DecryptedReader C) (s : List ReadEvent) (a b : ℕ) (d : Decryptor)
      → decrypt r.cipher r.buffer ≡ (some (a ∷ b ∷ []), d)
      → decode_length C r s ≡ (
        done tt,
        record r {
          cipher = d;
          buffer = [];
          plain = [];
          pos = 0;
          steps = reading_data (u16_of a b);
        },
        s,
      )
  unfolding decode_length decoded_length read_length
  decode_length-some r s a b d e = rw (ap (λ p. p.0) e, ap (λ p. p.1) e, decode_length) refl

  decode_data-some :
      (r : DecryptedReader C) (s : List ReadEvent) (x : List ℕ) (d : Decryptor)
      → decrypt r.cipher r.buffer ≡ (some x, d)
      → decode_data C r s ≡ (
        done tt,
        record r { cipher = d; plain = r.plain ++ x; buffer = []; pos = 0; steps = reading_length },
        s,
      )
  unfolding decode_data
  decode_data-some r s x d e = rw (ap (λ p. p.0) e, ap (λ p. p.1) e, decode_data) refl

  length_filled :
      (r : DecryptedReader C) (s s' : List ReadEvent) (buf q : List ℕ)
      → r.steps ≡ reading_length
      → r.got_final ≡ false
      → buf ++ bytes s' ≡ ahead C r s
      → length buf ≡ 2 + tag_size
      → IsClean s'
      → Framed r.cipher (ahead C r s) q
      → Refilled r s q (decode_length C (record r { buffer = buf }) s')
  length_filled r s s' buf q st open_ e len cl (over nil out) =
      absurd (omega (arith, ap length e, ap length nil, length-append buf (bytes s')))
  length_filled r s s' buf q st open_ e len cl
        (packet {d1 = d1} {n = n} {head = head} {rest = rest} dec lt hlen split b) =
      let (same, tail) =
        append-injective head buf rest (bytes s') (hlen ∙ sym len) (sym split ∙ sym e) in
      let dec' : decrypt r.cipher buf ≡ (some (high_byte n ∷ low_byte n ∷ []), d1) =
        ap (decrypt r.cipher) (sym same) ∙ dec in
      rw
        (
          decode_length-some (record r { buffer = buf }) s' (high_byte n) (low_byte n) d1 dec',
          u16_of-bytes n lt,
        )
        (moved q refl open_ (cl, (subst (λ y. Body n d1 y q) tail b, (omega arith, refl)))
          (omega (arith, ap length e, length-append buf (bytes s'))))

  data_filled :
      (r : DecryptedReader C) (s s' : List ReadEvent) (buf q : List ℕ) (n : ℕ)
      → r.steps ≡ reading_data n
      → r.got_final ≡ false
      → buf ++ bytes s' ≡ ahead C r s
      → length buf ≡ n + tag_size
      → IsClean s'
      → r.plain ≡ []
      → Body n r.cipher (ahead C r s) q
      → Refilled r s q (decode_data C (record r { buffer = buf }) s')
  data_filled r s s' buf q n st open_ e len cl none_left
        (body {d1 = d1} {x = x} {head = head} {rest = rest} {out' = out'} dec xlen hlen split out
          f) =
      let (same, tail) =
        append-injective head buf rest (bytes s') (hlen ∙ sym len) (sym split ∙ sym e) in
      let dec' : decrypt r.cipher buf ≡ (some x, d1) = ap (decrypt r.cipher) (sym same) ∙ dec in
      rw (decode_data-some (record r { buffer = buf }) s' x d1 dec') (
        moved out' (out ∙ ap (λ y. (y ++ x) ++ out') (sym none_left)) open_
          (cl, (subst (λ y. Framed d1 y out') tail f, omega arith))
          (omega (arith, ap length e, length-append buf (bytes s'), ap weight st)))

  after_length_open :
      (r : DecryptedReader C) (s : List ReadEvent)
      → r.got_final ≡ false
      → after_length C (done tt, r, s) ≡ decode_length C r s
  unfolding after_length
  after_length_open r s open_ = rw (open_, after_length) refl

  -- What the step lets a poll of the reader find.
  length_step :
      (r : DecryptedReader C) (s : List ReadEvent) (q : List ℕ) (res : Polls C (Unit {0}))
      → r.steps ≡ reading_length
      → r.got_final ≡ false
      → Framed r.cipher (ahead C r s) q
      → Fills C (2 + tag_size) true r s res
      → Refilled r s q (after_length C res)
  unfolding after_length
  length_step r s q res st open_ f (waiting {buf} {s'} e lt cl) = paused refl refl refl (
    cl,
    subst (λ x. Upcoming x (record r { buffer = buf }) s' q) (sym st)
        (subst (λ y. Framed r.cipher y q) (sym e) f, omega arith),
  )
  length_step r s q res st open_ f (filled {buf} {s'} e len cl) =
      rw (after_length_open (record r { buffer = buf }) s' open_)
        (length_filled r s s' buf q st open_ e len cl f)
  length_step r s q res st open_ f (ended {s'} a g nil none_left e cl) =
      finished (Framed_short f (omega (arith, ap length none_left))).1 refl refl refl (
        cl,
        subst (λ x. Upcoming x (record r { got_final = true }) s' q) (sym st)
            (
              subst (λ y. Framed r.cipher y q) (none_left ∙ sym (ap (λ y. y ++ bytes s') nil ∙ e))
                  f,
              omega (arith, ap length nil),
            ),
      )
  length_step r s q res st open_ f (cut {buf} e lt why) =
      let (nil, _) = Framed_short f (omega (arith, ap length e)) in
      let no_bytes : length buf ≡ 0 = ap length (e ∙ nil) in
      elim why [ inl h ↦ cc | inr h ↦ elim h [ inl g ↦ cc | inr g ↦ absurd (omega arith) ] ]

  data_step :
      (r : DecryptedReader C) (s : List ReadEvent) (q : List ℕ) (n : ℕ) (res : Polls C (Unit {0}))
      → r.steps ≡ reading_data n
      → r.got_final ≡ false
      → r.plain ≡ []
      → Body n r.cipher (ahead C r s) q
      → Fills C (n + tag_size) false r s res
      → Refilled r s q (after_data C res)
  unfolding after_data
  data_step r s q n res st open_ none_left b (waiting {buf} {s'} e lt cl) = paused refl refl refl (
    cl,
    subst (λ x. Upcoming x (record r { buffer = buf }) s' q) (sym st)
        (subst (λ y. Body n r.cipher y q) (sym e) b, (omega arith, none_left)),
  )
  data_step r s q n res st open_ none_left b (filled {buf} {s'} e len cl) =
      data_filled r s s' buf q n st open_ e len cl none_left b
  data_step r s q n res st open_ none_left b (ended a g nil none_ahead e cl) = cc
  data_step r s q n res st open_ none_left
        (body {head = head} {rest = rest} dec xlen hlen split out f) (cut {buf} e lt why) =
      absurd (omega (arith, ap length e, ap length split, length-append head rest))

  pub refill-Refilled :
      (r : DecryptedReader C) (s : List ReadEvent) (q : List ℕ) (st : DecryptReadStep)
      → r.steps ≡ st
      → r.got_final ≡ false
      → IsClean s
      → Upcoming st r s q
      → Refilled r s q (refill C st r s)
  unfolding refill poll_read_decrypted_length poll_read_decrypted_data
  refill-Refilled r s q reading_length st open_ cl (f, few) =
      length_step r s q _ st open_ f
        (poll_read_exact-Fills C (suc (2 + tag_size)) (2 + tag_size) true r s cl few (omega arith))
  refill-Refilled r s q (reading_data n) st open_ cl (b, (few, none_left)) =
      data_step r s q n _ st open_ none_left b
        (poll_read_exact-Fills C (suc (n + tag_size)) (n + tag_size) false r s cl few (omega arith))
