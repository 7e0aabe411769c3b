-- ===== src/TcpRelay/CryptoStream/Pipe/Trip.antt =====
-- Two encrypted streams of one key: what is written to one is what the other owes its reader.
use shadowsocks_rust.Common.{
  ℕ, ◌≡◌, refl, sym, ap, ◌∙◌, subst, List, [], ◌∷◌, ◌++◌, length, take, take-length-append, arith,
  All,
}
use shadowsocks_rust.Common.Outcome.{ok, returned, ok_injective}
use shadowsocks_rust.Crypto.CipherType.{CipherType, CipherCategory, stream, aead, category}
use shadowsocks_rust.Crypto.Keystream.{Keystream}
use shadowsocks_rust.Crypto.Sizes.{Backends}
use shadowsocks_rust.Replay.{BloomFilter, PingPongBloom}
use shadowsocks_rust.Replay.Invariant.{Inv}
use shadowsocks_rust.UdpRelay.CryptoIo.{Suite, lift, draw_nonce}
use shadowsocks_rust.UdpRelay.CryptoIo.Nonces.{IsNew, IsDraw, lift_ok, draw_nonce-ok}
use shadowsocks_rust.TcpRelay.Polling.{Polled, Sink, ReadEvent, bytes, IsClean}
use shadowsocks_rust.TcpRelay.Polling.Runs as Runs
use shadowsocks_rust.TcpRelay.Polling.Runs.{joined, inner_WrittenAll}
use shadowsocks_rust.TcpRelay.AeadWriter as AeadWriter
use shadowsocks_rust.TcpRelay.AeadWriter.Packets as Aead
use shadowsocks_rust.TcpRelay.StreamWriter as StreamWriter
use shadowsocks_rust.TcpRelay.StreamWriter.Texts as Stream
use shadowsocks_rust.TcpRelay.CryptoStream.{
  wait_iv, CryptoStream, aead_writer, stream_writer, new, nonce_size, new_reader, new_writer,
  write_encrypted, priv_poll_write,
}
use shadowsocks_rust.TcpRelay.CryptoStream.Pipe.{ReaderOwes, Owes, awaited}

module _ (B : Backends) (F : BloomFilter) (S : Suite B) (t : CipherType) where
  open S use {aead_cipher, stream_cipher}

  abbrev pub WrittenAll :
      CryptoStream B F S t → Sink → List (List ℕ) → CryptoStream B F S t → Sink → Type 0
  WrittenAll = Runs.WrittenAll (priv_poll_write B F S t)

  -- A result with the stream of another one.
  same_but_stream :
      (res : Polled ℕ × CryptoStream B F S t × Sink) (p : Polled ℕ) (c : CryptoStream B F S t)
      (k : Sink)
      → res ≡ (p, c, k)
      → res ≡ (p, res.1, k)
  same_but_stream res p c k e = λ i. ((e i).0, res.1, (e i).2)

  aead_polls :
      (x : List ℕ) (c : CryptoStream B F S t) (w : AeadWriter.EncryptedWriter (aead_cipher t))
      (k : Sink)
      → c.enc ≡ aead_writer w
      → (priv_poll_write B F S t x c k ≡ (
        (AeadWriter.poll_write_encrypted (aead_cipher t) x w k).0,
        (priv_poll_write B F S t x c k).1,
        (AeadWriter.poll_write_encrypted (aead_cipher t) x w k).2,
      ))
        × ((priv_poll_write B F S t x c k).1.enc
            ≡ aead_writer ((AeadWriter.poll_write_encrypted (aead_cipher t) x w k).1))
  unfolding priv_poll_write write_encrypted
  aead_polls x c w k h =
      let e = ap (λ w'. write_encrypted B F S t x w' c k) h in
      (same_but_stream _ _ _ _ e, ap (λ y. y.1.enc) e)

  stream_polls :
      (x : List ℕ) (c : CryptoStream B F S t) (w : StreamWriter.EncryptedWriter (stream_cipher t))
      (k : Sink)
      → c.enc ≡ stream_writer w
      → (priv_poll_write B F S t x c k ≡ (
        (StreamWriter.poll_write_encrypted (stream_cipher t) x w k).0,
        (priv_poll_write B F S t x c k).1,
        (StreamWriter.poll_write_encrypted (stream_cipher t) x w k).2,
      ))
        × ((priv_poll_write B F S t x c k).1.enc
            ≡ stream_writer ((StreamWriter.poll_write_encrypted (stream_cipher t) x w k).1))
  unfolding priv_poll_write write_encrypted
  stream_polls x c w k h =
      let e = ap (λ w'. write_encrypted B F S t x w' c k) h in
      (same_but_stream _ _ _ _ e, ap (λ y. y.1.enc) e)

  -- The bytes that a sequence of writes takes: an AEAD write is clipped to 0x3FFF.
  abbrev pub taken : CipherCategory → List (List ℕ) → List ℕ
  taken stream xs = joined xs
  taken aead xs = joined (Aead.all_clipped (aead_cipher t) xs)

  abbrev MadeBy : List ℕ → List ℕ → CryptoStream B F S t → Type 0
  MadeBy key iv c =
      (c.enc ≡ new_writer B F S t (category t) key iv)
      × (c.read_status ≡ wait_iv (length iv) [] key)

  -- What a stream is when it is made: its nonce has the size that it awaits of the peer.
  new_lem :
      (key : List ℕ) (draws : List (ℕ → List ℕ)) (p p' : PingPongBloom F) (c : CryptoStream B F S t)
      → Inv F p
      → All IsDraw draws
      → new B F S t key draws p ≡ ok (c, p')
      → (iv : List ℕ) × MadeBy key iv c × (nonce_size B F S t (category t) ≡ ok (length iv))
  unfolding new
  new_lem key draws p p' c v all_draws e =
      let (n, size, rest) = returned (lift (nonce_size B F S t (category t))) _ (c, p') e in
      let ((iv, q), drawn, last) =
        returned (draw_nonce B F S (nonce_size B F S t (category t)) draws p) _ (c, p') rest in
      let (m, known, (len, _, _)) =
        draw_nonce-ok B F S (nonce_size B F S t (category t)) draws p (iv, q) v all_draws drawn in
      let made = ap (λ y. y.0) (ok_injective _ (c, p') last) in
      let known' = lift_ok B F S (nonce_size B F S t (category t)) n size in
      let same : n ≡ length iv = cc in
      (
        iv,
        (
          sym (ap (λ y. y.enc) made),
          sym (ap (λ y. y.read_status) made) ∙ ap (λ l. wait_iv l [] key) same,
        ),
        known' ∙ ap ok same,
      )

  aead_run :
      {xs : List (List ℕ)} {c c' : CryptoStream B F S t} {k k' : Sink}
      (w : AeadWriter.EncryptedWriter (aead_cipher t))
      → WrittenAll c k xs c' k'
      → c.enc ≡ aead_writer w
      → (w' : AeadWriter.EncryptedWriter (aead_cipher t)) × Aead.WrittenAll
          (aead_cipher t)
          w
          k
          xs
          w'
          k'
  aead_run w run h =
      let (w', inner, _) =
        inner_WrittenAll (priv_poll_write B F S t) (AeadWriter.poll_write_encrypted (aead_cipher t))
          (λ c w. c.enc ≡ aead_writer w) aead_polls w run h in
      (w', inner)

  stream_run :
      {xs : List (List ℕ)} {c c' : CryptoStream B F S t} {k k' : Sink}
      (w : StreamWriter.EncryptedWriter (stream_cipher t))
      → WrittenAll c k xs c' k'
      → c.enc ≡ stream_writer w
      → (w' : StreamWriter.EncryptedWriter (stream_cipher t)) × Stream.WrittenAll
          (stream_cipher t)
          w
          k
          xs
          w'
          k'
  stream_run w run h =
      let (w', inner, _) =
        inner_WrittenAll (priv_poll_write B F S t)
          (StreamWriter.poll_write_encrypted (stream_cipher t)) (λ c w. c.enc ≡ stream_writer w)
          stream_polls w run h in
      (w', inner)

module _ (B : Backends) (F : BloomFilter) (S : Suite B) (t : CipherType)
    (K : category t ≡ stream → Keystream (S.stream_cipher t)) where
  open S use {aead_cipher, stream_cipher}

  -- What a run of writes puts out: the nonce, then what a reader of its key and nonce owes.
  abbrev Carried : CipherCategory → List ℕ → List ℕ → List (List ℕ) → Sink → Type 0
  Carried cat key iv xs k' =
      (rest : List ℕ) × (k'.out ≡ iv ++ rest)
      × ((s : List ReadEvent)
          → IsClean s
          → bytes s ≡ rest
          → ReaderOwes B F S t K (new_reader B F S t cat key iv) s (taken B F S t cat xs))

  carried :
      (cat : CipherCategory) (key iv x : List ℕ) (xs : List (List ℕ)) (c c' : CryptoStream B F S t)
      (k k' : Sink)
      → category t ≡ cat
      → c.enc ≡ new_writer B F S t cat key iv
      → WrittenAll B F S t c k (x ∷ xs) c' k'
      → k.out ≡ []
      → Carried cat key iv (x ∷ xs) k'
  carried aead key iv x xs c c' k k' hc made run start =
      let (w', inner) = aead_run B F S t _ run made in
      let C = aead_cipher t in
      let rest : List ℕ = Aead.packets C (C.new_enc key iv) (Aead.all_clipped C (x ∷ xs)) in
      let all_of = Aead.new_written C key iv inner ∙ ap (λ y. y ++ (iv ++ rest)) start in
      (
        rest,
        all_of,
        λ s cl e.
            Aead.written-Owes (aead_cipher t) key iv s inner start (all_of ∙ ap (◌++◌ iv) (sym e))
              cl,
      )
  carried stream key iv x xs c c' k k' hc made run start =
      let (w', inner) = stream_run B F S t _ run made in
      let (rest, out) = Stream.new_texts (stream_cipher t) (K hc) key iv inner in
      let all_of = out ∙ ap (λ y. y ++ (iv ++ rest)) start in
      (
        rest,
        all_of,
        λ s cl e. (
          hc,
          Stream.stream_written-Owes (stream_cipher t) (K hc) key iv s inner start
              (all_of ∙ ap (◌++◌ iv) (sym e)) cl,
        ),
      )

  -- Take two streams of one key and cipher, made with any draws, and a sequence of writes to
  -- one of them, at least one, each polled with the same bytes until it is done, into a sink
  -- that was empty. Let the connection of the other one give the bytes of the sink, in any
  -- chunks, and neither fail nor give an empty chunk, and let the nonce at their front be new
  -- to its filters. Then it owes its reader exactly the bytes written, where an AEAD cipher
  -- clips each write to 0x3FFF. Stream ciphers are those that work byte by byte. The filters
  -- are in a state that checks leave, and the draws have the size asked for.
  pub crypto_stream_trip :
      (key x : List ℕ) (xs : List (List ℕ)) (draws draws' : List (ℕ → List ℕ))
      (p p' q q' r r' : PingPongBloom F) (c c' d : CryptoStream B F S t) (k k' : Sink)
      (s : List ReadEvent) (n : ℕ)
      → Inv F p
      → All IsDraw draws
      → new B F S t key draws p ≡ ok (c, p')
      → WrittenAll B F S t c k (x ∷ xs) c' k'
      → k.out ≡ []
      → Inv F q
      → All IsDraw draws'
      → new B F S t key draws' q ≡ ok (d, q')
      → IsClean s
      → bytes s ≡ k'.out
      → nonce_size B F S t (category t) ≡ ok n
      → IsNew F (take n k'.out) r r'
      → Owes B F S t K d s r (taken B F S t (category t) (x ∷ xs))
  crypto_stream_trip key x xs draws draws' p p' q q' r r' c c' d k k' s n vp all_draws made run
        start vq all_draws' made' cl gets size fresh =
      let (iv, (enc, st), known) = new_lem B F S t key draws p p' c vp all_draws made in
      let (iv', (enc', st'), known') = new_lem B F S t key draws' q q' d vq all_draws' made' in
      let (rest, all_of, owed) = carried (category t) key iv x xs c c' k k' refl enc run start in
      let as_long : length iv' ≡ length iv = ok_injective _ _ (sym known' ∙ known) in
      let sized : n ≡ length iv = ok_injective _ _ (sym size ∙ known) in
      let front : take n k'.out ≡ iv =
        ap (λ m. take m k'.out) sized ∙ ap (take (length iv)) all_of ∙ take-length-append iv rest in
      awaited [] key iv rest r' (st' ∙ ap (λ m. wait_iv m [] key) as_long) (omega arith) cl
        (gets ∙ all_of) (subst (λ y. IsNew F y r r') front fresh) owed
