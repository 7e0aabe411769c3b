-- ===== src/TcpRelay/AeadWriter/Packets.antt =====
-- The bytes that completed writes leave in the sink are the packets that the reader takes apart.
use shadowsocks_rust.Common.{
  ℕ, ◌%◌, ◌≤◌, ◌<◌, ◌≡◌, refl, sym, ap, ◌∙◌, subst, List, [], ◌∷◌, ◌++◌, append_assoc, append-nil,
  length, drop, drop-length-append, leb→le, arith, none, some,
}
use shadowsocks_rust.Common.Words.{high_byte, low_byte}
use shadowsocks_rust.Crypto.{AeadCipher}
use shadowsocks_rust.TcpRelay.Polling.{pending, done, Sink, ReadEvent, bytes, IsClean}
use shadowsocks_rust.TcpRelay.Polling.Runs as Runs
use shadowsocks_rust.TcpRelay.Polling.Runs.{at_once, retried, none_left, next, joined}
use shadowsocks_rust.TcpRelay.AeadReader as Reader
use shadowsocks_rust.TcpRelay.AeadReader.Framing.{Framed, over, packet as framed_packet, body}
use shadowsocks_rust.TcpRelay.AeadReader.Delivery.{Owes, new-Owes}
use shadowsocks_rust.TcpRelay.AeadWriter.{
  EncryptedWriter, nothing, writing, new, Writes, nonce_bytes, length_bytes, packet, begin,
  max_packet_size, clipped, poll_write_encrypted,
}
use shadowsocks_rust.TcpRelay.AeadWriter.Progress.{
  Sends, holds_back, sends_all, breaks_off, sending, sent_to, underway, clipped_le,
  poll_write_encrypted-Sends,
}

module _ (C : AeadCipher) where
  open C use {
    Encryptor, Decryptor, tag_size, encrypt, decrypt, InStep, new-InStep, new_enc, new_dec,
    length-encrypt, decrypt-encrypt,
  }

  -- The packets of a sequence of writes.
  abbrev pub packets : Encryptor → List (List ℕ) → List ℕ
  packets e [] = []
  packets e (x ∷ xs) = (packet C e x).0 ++ packets (packet C e x).1 xs

  abbrev pub all_clipped : List (List ℕ) → List (List ℕ)
  all_clipped [] = []
  all_clipped (x ∷ xs) = clipped C x ∷ all_clipped xs

  abbrev pub AllFit : List (List ℕ) → Type 0
  AllFit [] = Unit {0}
  AllFit (x ∷ xs) = (length x ≤ max_packet_size) × AllFit xs

  length_bytes_fit :
      (x : List ℕ)
      → length x ≤ max_packet_size
      → length_bytes x ≡ (high_byte (length x) ∷ low_byte (length x) ∷ [])
  length_bytes_fit x h = ap (λ n. high_byte n ∷ low_byte n ∷ []) small
    where
      small : length x % 65536 ≡ length x
      small = omega arith

  packets-Framed :
      (e : Encryptor) (d : Decryptor) (xs : List (List ℕ))
      → InStep e d
      → AllFit xs
      → Framed C d (packets e xs) (joined xs)
  unfolding packet
  packets-Framed e d [] h all_fit = over refl refl
  packets-Framed e d (x ∷ xs) h (fits, rest_fit) =
      let (len_part, e1) = encrypt e (length_bytes x) in
      let (data_part, e2) = encrypt e1 x in
      let (d1, opens, h1) = decrypt-encrypt e d (length_bytes x) h in
      let (d2, opens', h2) = decrypt-encrypt e1 d1 x h1 in
      framed_packet (opens ∙ ap (λ y. (some y, d1)) (length_bytes_fit x fits)) (omega arith)
        (length-encrypt e (length_bytes x)) (append_assoc len_part data_part (packets e2 xs))
        (body opens' refl (length-encrypt e1 x) refl refl (packets-Framed e2 d2 xs h2 rest_fit))

  abbrev pub Written : List ℕ → EncryptedWriter C → Sink → EncryptedWriter C → Sink → Type 0
  Written = Runs.Written (poll_write_encrypted C)

  abbrev pub WrittenAll :
      EncryptedWriter C → Sink → List (List ℕ) → EncryptedWriter C → Sink → Type 0
  WrittenAll = Runs.WrittenAll (poll_write_encrypted C)

  -- The outcome of a poll that ended in a given way.
  sent_all :
      {a : ℕ} {buf : List ℕ} {w : EncryptedWriter C} {sent : List ℕ} {res : Writes C ℕ} (n : ℕ)
      (w' : EncryptedWriter C) (k' : Sink)
      → Sends C a buf w sent res
      → res ≡ (done n, w', k')
      → (k'.out ≡ sent) × (w' ≡ record w { steps = nothing })
  sent_all n w' k' (holds_back pos lt e) h = cc
  sent_all n w' k' (sends_all e) h = (sym (ap (λ y. y.2.out) h) ∙ e, sym (ap (λ y. y.1) h))
  sent_all n w' k' (breaks_off er pos lt e) h = cc

  held_back :
      {a : ℕ} {buf : List ℕ} {w : EncryptedWriter C} {sent : List ℕ} {res : Writes C ℕ}
      (w' : EncryptedWriter C) (k' : Sink)
      → Sends C a buf w sent res
      → res ≡ (pending, w', k')
      → (pos : ℕ) × (pos < length buf)
        × (k'.out ++ drop pos buf ≡ sent)
        × (w' ≡ record w { steps = writing buf pos })
  held_back {buf = buf} w' k' (holds_back pos lt e) h =
      (pos, lt, ap (λ y. y ++ drop pos buf) (sym (ap (λ y. y.2.out) h)) ∙ e, sym (ap (λ y. y.1) h))
  held_back w' k' (sends_all e) h = cc
  held_back w' k' (breaks_off er pos lt e) h = cc

  midway :
      (x : List ℕ) (w : EncryptedWriter C) (k : Sink) (buf : List ℕ) (pos : ℕ)
      → w.steps ≡ writing buf pos
      → pos ≤ length buf
      → Sends C (length (clipped C x)) buf w (k.out ++ drop pos buf) (poll_write_encrypted C x w k)
  midway x w k buf pos st le =
      subst
        (λ st'.
          sent_to C st' ≤ length (sending C (clipped C x) st' w)
          → Sends C (length (clipped C x)) (sending C (clipped C x) st' w)
              (underway C (clipped C x) st' w)
              (k.out ++ drop (sent_to C st') (sending C (clipped C x) st' w))
              (poll_write_encrypted C x w k))
        st (poll_write_encrypted-Sends C x w k) le

  fresh :
      (x : List ℕ) (w : EncryptedWriter C) (k : Sink)
      → w.steps ≡ nothing
      → Sends C
          (length (clipped C x))
          (nonce_bytes w.nonce ++ (packet C w.cipher (clipped C x)).0)
          (begin C (clipped C x) w)
          (k.out ++ (nonce_bytes w.nonce ++ (packet C w.cipher (clipped C x)).0))
          (poll_write_encrypted C x w k)
  fresh x w k st =
      subst
        (λ st'.
          sent_to C st' ≤ length (sending C (clipped C x) st' w)
          → Sends C (length (clipped C x)) (sending C (clipped C x) st' w)
              (underway C (clipped C x) st' w)
              (k.out ++ drop (sent_to C st') (sending C (clipped C x) st' w))
              (poll_write_encrypted C x w k))
        st (poll_write_encrypted-Sends C x w k) (omega arith)

  Written-midway :
      {x : List ℕ} {w w' : EncryptedWriter C} {k k' : Sink} (buf : List ℕ) (pos : ℕ)
      → Written x w k w' k'
      → w.steps ≡ writing buf pos
      → pos ≤ length buf
      → (k'.out ≡ k.out ++ drop pos buf) × (w' ≡ record w { steps = nothing })
  Written-midway {x} {w} {w'} {k} {k'} buf pos (at_once n e) st le =
      sent_all n w' k' (midway x w k buf pos st le) e
  Written-midway {x} {w} {w'} {k} {k'} buf pos (retried {w1 = w1} {k1 = k1} e more) st le =
      let (pos', lt, kept, same) = held_back w1 k1 (midway x w k buf pos st le) e in
      let (out, last) = Written-midway buf pos' more (ap (λ y. y.steps) same) (omega arith) in
      (out ∙ kept, last ∙ ap {A = EncryptedWriter C} (λ y. record y { steps = nothing }) same)

  -- The writer after a packet.
  abbrev pub after_packet : List ℕ → EncryptedWriter C → EncryptedWriter C
  after_packet x w = record { cipher = (packet C w.cipher x).1; steps = nothing; nonce = none }

  Written-fresh :
      {x : List ℕ} {w w' : EncryptedWriter C} {k k' : Sink}
      → Written x w k w' k'
      → w.steps ≡ nothing
      → (k'.out ≡ k.out ++ (nonce_bytes w.nonce ++ (packet C w.cipher (clipped C x)).0))
        × (w' ≡ after_packet (clipped C x) w)
  unfolding begin
  Written-fresh {x} {w} {w'} {k} {k'} (at_once n e) st = sent_all n w' k' (fresh x w k st) e
  Written-fresh {x} {w} {w'} {k} {k'} (retried {w1 = w1} {k1 = k1} e more) st =
      let (pos, lt, kept, same) = held_back w1 k1 (fresh x w k st) e in
      let (out, last) = Written-midway _ pos more (ap (λ y. y.steps) same) (omega arith) in
      (out ∙ kept, last ∙ ap {A = EncryptedWriter C} (λ y. record y { steps = nothing }) same)

  regroup : (a n p q : List ℕ) → (a ++ (n ++ p)) ++ q ≡ a ++ (n ++ (p ++ q))
  regroup a n p q = append_assoc a (n ++ p) q ∙ ap (◌++◌ a) (append_assoc n p q)

  next_packets :
      {x : List ℕ} {w w1 : EncryptedWriter C} {k k1 : Sink} (out' : List ℕ) (ys : List (List ℕ))
      → Written x w k w1 k1
      → w.steps ≡ nothing
      → out' ≡ k1.out ++ packets w1.cipher ys
      → out' ≡ k.out ++ (nonce_bytes w.nonce ++ packets w.cipher (clipped C x ∷ ys))
  next_packets {x} {w} {w1} {k} {k1} out' ys first st later =
      let (out, same) = Written-fresh first st in
      later
      ∙ ap (λ y. y ++ packets w1.cipher ys) out
      ∙ regroup k.out (nonce_bytes w.nonce) (packet C w.cipher (clipped C x)).0
          (packets w1.cipher ys)
      ∙ ap
          (λ y.
            k.out ++ (nonce_bytes w.nonce ++ ((packet C w.cipher (clipped C x)).0 ++ packets y ys)))
          (ap (λ y. y.cipher) same)

  -- The packets of the writes after the first one.
  written_packets :
      {xs : List (List ℕ)} {w w' : EncryptedWriter C} {k k' : Sink}
      → WrittenAll w k xs w' k'
      → w.steps ≡ nothing
      → w.nonce ≡ none
      → k'.out ≡ k.out ++ packets w.cipher (all_clipped xs)
  written_packets {k = k} none_left st no_nonce = sym (append-nil k.out)
  written_packets {w = w} {k = k} {k' = k'} (next {x} {xs} first rest) st no_nonce =
      let (out, same) = Written-fresh first st in
      next_packets _ (all_clipped xs) first st
        (written_packets rest (ap (λ y. y.steps) same) (ap (λ y. y.nonce) same))
      ∙ ap (λ n. k.out ++ (nonce_bytes n ++ packets w.cipher (clipped C x ∷ all_clipped xs)))
          no_nonce

  pub new_written :
      {x : List ℕ} {xs : List (List ℕ)} {w' : EncryptedWriter C} {k k' : Sink} (key nonce : List ℕ)
      → WrittenAll (new C key nonce) k (x ∷ xs) w' k'
      → k'.out ≡ k.out ++ (nonce ++ packets (new_enc key nonce) (all_clipped (x ∷ xs)))
  unfolding new
  new_written key nonce (next {xs = xs} first rest) =
      let (out, same) = Written-fresh first refl in
      next_packets _ (all_clipped xs) first refl
        (written_packets rest (ap (λ y. y.steps) same) (ap (λ y. y.nonce) same))

  all_clipped-AllFit : (xs : List (List ℕ)) → AllFit (all_clipped xs)
  all_clipped-AllFit [] = tt
  all_clipped-AllFit (x ∷ xs) = (leb→le _ _ (clipped_le C x), all_clipped-AllFit xs)

  -- Take a sequence of writes, at least one, each polled with the same bytes until it is done,
  -- into a sink that was empty and that may take any part of the bytes at each poll. On a
  -- source that neither fails nor gives an empty chunk and that gives what the sink got after
  -- the nonce, in any chunks, a new reader of the same key and nonce owes exactly the bytes
  -- written, each write clipped to 0x3FFF.
  pub written-Owes :
      {x : List ℕ} {xs : List (List ℕ)} {w' : EncryptedWriter C} {k k' : Sink} (key nonce : List ℕ)
      (s : List ReadEvent)
      → WrittenAll (new C key nonce) k (x ∷ xs) w' k'
      → k.out ≡ []
      → k'.out ≡ nonce ++ bytes s
      → IsClean s
      → Owes C (Reader.new C key nonce) s (joined (all_clipped (x ∷ xs)))
  written-Owes {x} {xs} {k = k} key nonce s sent start all_of cl =
      let same : nonce ++ bytes s ≡ nonce ++ packets (new_enc key nonce) (all_clipped (x ∷ xs)) =
        sym all_of
        ∙ new_written key nonce sent
        ∙ ap (λ y. y ++ (nonce ++ packets (new_enc key nonce) (all_clipped (x ∷ xs)))) start in
      let tail : bytes s ≡ packets (new_enc key nonce) (all_clipped (x ∷ xs)) =
        sym (drop-length-append nonce (bytes s))
        ∙ ap (drop (length nonce)) same
        ∙ drop-length-append nonce _ in
      new-Owes C key nonce s _ cl (
        subst (λ y. Framed C (new_dec key nonce) y (joined (all_clipped (x ∷ xs)))) (sym tail)
          (packets-Framed (new_enc key nonce) (new_dec key nonce) (all_clipped (x ∷ xs))
            (new-InStep key nonce) (all_clipped-AllFit (x ∷ xs))))
