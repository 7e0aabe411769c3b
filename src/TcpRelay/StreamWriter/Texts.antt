-- ===== src/TcpRelay/StreamWriter/Texts.antt =====
-- The bytes that completed writes leave in the sink are the text that the reader decrypts.
use shadowsocks_rust.Common.{
  ℕ, ◌≤◌, ◌<◌, ◌≡◌, refl, sym, ap, ◌∙◌, subst, List, [], ◌∷◌, ◌++◌, append_assoc, append-nil,
  length, drop, drop-length-append, arith, none,
}
use shadowsocks_rust.Common.Outcome.{Outcome, ok, err, panic}
use shadowsocks_rust.Io.{IoError}
use shadowsocks_rust.Crypto.{StreamCipher}
use shadowsocks_rust.Crypto.Keystream.{Keystream, update_joined}
use shadowsocks_rust.TcpRelay.Polling.{pending, done, Sink, ReadEvent, bytes, IsClean}
use shadowsocks_rust.TcpRelay.Polling.Runs as Runs
use shadowsocks_rust.TcpRelay.Polling.Runs.{at_once, retried, none_left, next, joined}
use shadowsocks_rust.TcpRelay.StreamReader as Reader
use shadowsocks_rust.TcpRelay.StreamReader.Delivery.{Owes, new-Owes}
use shadowsocks_rust.TcpRelay.StreamWriter.{
  EncryptedWriter, nothing, writing, new, Writes, iv_bytes, begin, run_steps, returning,
  poll_write_encrypted,
}
use shadowsocks_rust.TcpRelay.StreamWriter.Progress.{
  Sends, holds_back, sends_all, breaks_off, poll-polled, fresh_poll-Sends, later_poll-Sends,
}

module _ (S : StreamCipher) where
  abbrev pub Written : List ℕ → EncryptedWriter S → Sink → EncryptedWriter S → Sink → Type 0
  Written = Runs.Written (poll_write_encrypted S)

  abbrev pub WrittenAll :
      EncryptedWriter S → Sink → List (List ℕ) → EncryptedWriter S → Sink → Type 0
  WrittenAll = Runs.WrittenAll (poll_write_encrypted S)

  -- The outcome of a poll that ended in a given way.
  sent_all :
      {a : ℕ} {buf : List ℕ} {w : EncryptedWriter S} {sent : List ℕ} {res : Writes S ℕ} (n : ℕ)
      (w' : EncryptedWriter S) (k' : Sink)
      → Sends S a buf w sent res
      → res ≡ (done n, w', k')
      → (k'.out ≡ sent) × (w' ≡ record w { steps = nothing })
  sent_all n w' k' (holds_back pos lt e) h = cc
  sent_all n w' k' (sends_all e) h = (sym (ap (λ y. y.2.out) h) ∙ e, sym (ap (λ y. y.1) h))
  sent_all n w' k' (breaks_off er pos lt e) h = cc

  held_back :
      {a : ℕ} {buf : List ℕ} {w : EncryptedWriter S} {sent : List ℕ} {res : Writes S ℕ}
      (w' : EncryptedWriter S) (k' : Sink)
      → Sends S a buf w sent res
      → res ≡ (pending, w', k')
      → (pos : ℕ) × (pos < length buf)
        × (k'.out ++ drop pos buf ≡ sent)
        × (w' ≡ record w { steps = writing buf pos })
  held_back {buf = buf} w' k' (holds_back pos lt e) h =
      (pos, lt, ap (λ y. y ++ drop pos buf) (sym (ap (λ y. y.2.out) h)) ∙ e, sym (ap (λ y. y.1) h))
  held_back w' k' (sends_all e) h = cc
  held_back w' k' (breaks_off er pos lt e) h = cc

  Written-later :
      {x : List ℕ} {w w' : EncryptedWriter S} {k k' : Sink} (buf : List ℕ) (pos : ℕ)
      → Written x w k w' k'
      → w.steps ≡ writing buf pos
      → pos ≤ length buf
      → (k'.out ≡ k.out ++ drop pos buf) × (w' ≡ record w { steps = nothing })
  Written-later {x} {w} {w'} {k} {k'} buf pos (at_once n e) st le =
      sent_all n w' k' (later_poll-Sends S x buf pos w k st le) e
  Written-later {x} {w} {w'} {k} {k'} buf pos (retried {w1 = w1} {k1 = k1} e more) st le =
      let (pos', lt, kept, same) = held_back w1 k1 (later_poll-Sends S x buf pos w k st le) e in
      let (out, last) = Written-later buf pos' more (ap (λ y. y.steps) same) (omega arith) in
      (out ∙ kept, last ∙ ap {A = EncryptedWriter S} (λ y. record y { steps = nothing }) same)

  abbrev pub after_text : S.Cipher → EncryptedWriter S
  after_text c = record { cipher = c; steps = nothing; iv = none }

  Written-text :
      {x : List ℕ} {w w' : EncryptedWriter S} {k k' : Sink} (text : List ℕ) (c : S.Cipher)
      → Written x w k w' k'
      → w.steps ≡ nothing
      → S.update w.cipher x ≡ ok (text, c)
      → (k'.out ≡ k.out ++ (iv_bytes w.iv ++ text)) × (w' ≡ after_text c)
  Written-text {x} {w} {w'} {k} {k'} text c (at_once n e) st h =
      sent_all n w' k' (fresh_poll-Sends S x text c w k st h) e
  Written-text {x} {w} {w'} {k} {k'} text c (retried {w1 = w1} {k1 = k1} e more) st h =
      let (pos, lt, kept, same) = held_back w1 k1 (fresh_poll-Sends S x text c w k st h) e in
      let (out, last) =
        Written-later (iv_bytes w.iv ++ text) pos more (ap (λ y. y.steps) same) (omega arith) in
      (out ∙ kept, last ∙ ap {A = EncryptedWriter S} (λ y. record y { steps = nothing }) same)

  -- A write that is polled to its end was encrypted, or else the first poll fails.
  abbrev Text : EncryptedWriter S → List ℕ → EncryptedWriter S → Sink → Sink → Type 0
  Text w x w' k k' =
      (text : List ℕ) × (c : S.Cipher) × (S.update w.cipher x ≡ ok (text, c))
      × (k'.out ≡ k.out ++ (iv_bytes w.iv ++ text))
      × (w' ≡ after_text c)

  no_text_polled :
      (x : List ℕ) (w : EncryptedWriter S) (k : Sink) (res : Outcome IoError (List ℕ × S.Cipher))
      → w.steps ≡ nothing
      → S.update w.cipher x ≡ res
      → poll_write_encrypted S x w k ≡ returning S (length x) (begin S res w k)
  unfolding run_steps
  no_text_polled x w k res st h =
      poll-polled S nothing x w k st ∙ ap (λ m. returning S (length x) (begin S m w k)) h

  Written-fresh :
      {x : List ℕ} {w w' : EncryptedWriter S} {k k' : Sink}
      (res : Outcome IoError (List ℕ × S.Cipher))
      → Written x w k w' k'
      → w.steps ≡ nothing
      → S.update w.cipher x ≡ res
      → Text w x w' k k'
  unfolding begin returning
  Written-fresh (ok (text, c)) wr st h =
      let (out, last) = Written-text text c wr st h in (text, c, h, out, last)
  Written-fresh {x} {w} {k = k} (err er) (at_once n e) st h =
      let failing = sym (no_text_polled x w k (err er) st h) ∙ e in cc
  Written-fresh {x} {w} {k = k} (err er) (retried e more) st h =
      let failing = sym (no_text_polled x w k (err er) st h) ∙ e in cc
  Written-fresh {x} {w} {k = k} panic (at_once n e) st h =
      let failing = sym (no_text_polled x w k panic st h) ∙ e in cc
  Written-fresh {x} {w} {k = k} panic (retried e more) st h =
      let failing = sym (no_text_polled x w k panic st h) ∙ e in cc

module _ (S : StreamCipher) (K : Keystream S) where
  open K use {InStep, new-InStep, update_nil, decrypt-update}

  -- The bytes `text` decrypt to `plain`.
  abbrev pub DecryptsTo : S.Cipher → List ℕ → List ℕ → Type 0
  DecryptsTo d text plain = (d' : S.Cipher) × (S.update d text ≡ ok (plain, d'))

  -- What the writes from a writer on put out decrypts to `plain`.
  abbrev Puts : EncryptedWriter S → Sink → List ℕ → Sink → Type 0
  Puts w k plain k' =
      (d : S.Cipher)
      → w.steps ≡ nothing
      → InStep w.cipher d
      → (text : List ℕ) × (k'.out ≡ k.out ++ (iv_bytes w.iv ++ text)) × DecryptsTo d text plain

  first-Puts :
      {x : List ℕ} {w w1 : EncryptedWriter S} {k k1 : Sink} (k' : Sink) (plain : List ℕ)
      → Written S x w k w1 k1
      → Puts w1 k1 plain k'
      → Puts w k (x ++ plain) k'
  first-Puts {x} {w} {w1} {k} {k1} k' plain first later d st h =
      let (text, c, e, out, last) = Written-fresh S (S.update w.cipher x) first st refl in
      let (d1, opens, h1) = decrypt-update w.cipher d c x text h e in
      let (texts, out', (d2, opens')) =
        later d1 (ap (λ y. y.steps) last)
          (subst (λ y. InStep y d1) (sym (ap (λ y. y.cipher) last)) h1) in
      (
        text ++ texts,
        out'
            ∙ ap (λ y. k1.out ++ (iv_bytes y.iv ++ texts)) last
            ∙ ap (λ y. y ++ texts) out
            ∙ append_assoc k.out (iv_bytes w.iv ++ text) texts
            ∙ ap (◌++◌ k.out) (append_assoc (iv_bytes w.iv) text texts),
        (d2, update_joined S K d d1 d2 text texts x plain opens opens'),
      )

  -- Nothing more is written.
  none-Puts : (w : EncryptedWriter S) (k : Sink) → w.iv ≡ none → Puts w k [] k
  none-Puts w k no_iv d st h =
      ([], sym (ap (λ v. k.out ++ (iv_bytes v ++ [])) no_iv ∙ append-nil k.out), (d, update_nil d))

  later_texts :
      {xs : List (List ℕ)} {w w' : EncryptedWriter S} {k k' : Sink}
      → WrittenAll S w k xs w' k'
      → w.iv ≡ none
      → Puts w k (joined xs) k'
  later_texts {w = w} {k = k} none_left no_iv d st h = none-Puts w k no_iv d st h
  later_texts {w = w} {k = k} {k' = k'} (next {x} {xs} {w1 = w1} first rest) no_iv d st h =
      let (text, c, e, out, last) = Written-fresh S (S.update w.cipher x) first st refl in
      first-Puts k' (joined xs) first (later_texts rest (ap (λ y. y.iv) last)) d st h

  first_text :
      {x : List ℕ} {xs : List (List ℕ)} {w w1 w' : EncryptedWriter S} {k k1 k' : Sink}
      → Written S x w k w1 k1
      → WrittenAll S w1 k1 xs w' k'
      → Puts w k (joined (x ∷ xs)) k'
  first_text {x} {xs} {w} {k' = k'} first rest d st h =
      let (text, c, e, out, last) = Written-fresh S (S.update w.cipher x) first st refl in
      first-Puts k' (joined xs) first (later_texts rest (ap (λ y. y.iv) last)) d st h

  pub new_texts :
      {x : List ℕ} {xs : List (List ℕ)} {w' : EncryptedWriter S} {k k' : Sink} (key iv : List ℕ)
      → WrittenAll S (new S key iv) k (x ∷ xs) w' k'
      → (text : List ℕ) × (k'.out ≡ k.out ++ (iv ++ text))
  unfolding new
  new_texts key iv (next first rest) =
      let (text, out, _) = first_text first rest (S.new_decrypt key iv) refl (new-InStep key iv) in
      (text, out)

  -- Take a sequence of writes, at least one, each polled with the same bytes until it is done,
  -- into a sink that was empty, with a cipher that works byte by byte. On a source that neither
  -- fails nor gives an empty chunk and that gives what the sink got after the iv, in any chunks,
  -- a new reader of the same key and iv owes exactly the bytes written.
  pub stream_written-Owes :
      {x : List ℕ} {xs : List (List ℕ)} {w' : EncryptedWriter S} {k k' : Sink} (key iv : List ℕ)
      (s : List ReadEvent)
      → WrittenAll S (new S key iv) k (x ∷ xs) w' k'
      → k.out ≡ []
      → k'.out ≡ iv ++ bytes s
      → IsClean s
      → Owes S K (Reader.new S key iv) s (joined (x ∷ xs))
  unfolding new
  stream_written-Owes {x} {xs} {k = k} key iv s (next first rest) start all_of cl =
      let (text, out, (d, opens)) =
        first_text first rest (S.new_decrypt key iv) refl (new-InStep key iv) in
      let same : iv ++ bytes s ≡ iv ++ text =
        sym all_of ∙ out ∙ ap (λ y. y ++ (iv ++ text)) start in
      let tail : bytes s ≡ text =
        sym (drop-length-append iv (bytes s))
        ∙ ap (drop (length iv)) same
        ∙ drop-length-append iv text in
      new-Owes S K key iv s (joined (x ∷ xs)) d cl
        (ap (S.update (S.new_decrypt key iv)) tail ∙ opens)
