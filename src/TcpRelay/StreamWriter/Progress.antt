-- ===== src/TcpRelay/StreamWriter/Progress.antt =====
-- What the polls of the writer put on the wire, whatever the sink takes at each of them.
use shadowsocks_rust.Common.{ℕ, suc, ◌≤◌, ◌<◌, ◌≡◌, ap, List, ◌++◌, length, drop, arith, none, refl}
use shadowsocks_rust.Common.Outcome.{ok, err}
use shadowsocks_rust.Io.{IoError}
use shadowsocks_rust.Crypto.{StreamCipher}
use shadowsocks_rust.TcpRelay.Polling.{Polled, pending, failed, done, Sink}
use shadowsocks_rust.TcpRelay.Draining.{Drains, stuck, drained, torn, write_rest-Drains}
use shadowsocks_rust.TcpRelay.StreamWriter.{
  EncryptedWriter, EncryptWriteStep, nothing, writing, Writes, iv_bytes, left_off, resume, begin,
  run_steps, poll_write_all_encrypted, returning, poll_write_encrypted,
}

module _ (S : StreamCipher) where
  -- A poll that owes the sink what is missing of `sent`, in the buffer `buf`.
  pub data Sends {A : Type 0} (a : A) (buf : List ℕ) (w : EncryptedWriter S) (sent : List ℕ)
      : Writes S A → Type 0 where
    holds_back :
        {k' : Sink} (pos : ℕ)
        → pos < length buf
        → k'.out ++ drop pos buf ≡ sent
        → Sends a buf w sent (pending, record w { steps = writing buf pos }, k')
    sends_all :
        {k' : Sink} → k'.out ≡ sent → Sends a buf w sent (done a, record w { steps = nothing }, k')
    breaks_off :
        {k' : Sink} (e : IoError) (pos : ℕ)
        → pos < length buf
        → k'.out ++ drop pos buf ≡ sent
        → Sends a buf w sent (failed e, record w { steps = writing buf pos }, k')

  left_off-Sends :
      (n : ℕ) (buf sent : List ℕ) (w : EncryptedWriter S) (res : Polled (Unit {0}) × ℕ × Sink)
      → Drains buf sent res
      → Sends n buf w sent (returning S n (left_off S buf w res))
  unfolding left_off returning
  left_off-Sends n buf sent w res (stuck pos lt e) = holds_back pos lt e
  left_off-Sends n buf sent w res (drained pos e) = sends_all e
  left_off-Sends n buf sent w res (torn er pos lt e) = breaks_off er pos lt e

  resume-Sends :
      (n : ℕ) (buf : List ℕ) (pos : ℕ) (w : EncryptedWriter S) (k : Sink)
      → pos ≤ length buf
      → Sends n buf w (k.out ++ drop pos buf) (returning S n (resume S buf pos w k))
  unfolding resume
  resume-Sends n buf pos w k le =
      left_off-Sends n buf _ w _ (write_rest-Drains (suc (length buf)) buf pos k le (omega arith))

  -- The writer once its cipher has made the text of a write.
  abbrev pub begun : EncryptedWriter S → List ℕ → S.Cipher → EncryptedWriter S
  begun w text c = record { cipher = c; steps = writing (iv_bytes w.iv ++ text) 0; iv = none }

  abbrev pub polled : EncryptWriteStep → List ℕ → EncryptedWriter S → Sink → Writes S ℕ
  polled st x w k = returning S (length x) (run_steps S st x w k)

  pub poll-polled :
      (st : EncryptWriteStep) (x : List ℕ) (w : EncryptedWriter S) (k : Sink)
      → w.steps ≡ st
      → poll_write_encrypted S x w k ≡ polled st x w k
  unfolding poll_write_encrypted poll_write_all_encrypted
  poll-polled st x w k e = ap (λ st'. polled st' x w k) e

  -- A poll that starts a write sends the iv, if it was not sent before, and the text.
  pub fresh_poll-Sends :
      (x text : List ℕ) (c : S.Cipher) (w : EncryptedWriter S) (k : Sink)
      → w.steps ≡ nothing
      → S.update w.cipher x ≡ ok (text, c)
      → Sends
          (length x)
          (iv_bytes w.iv ++ text)
          (begun w text c)
          (k.out ++ (iv_bytes w.iv ++ text))
          (poll_write_encrypted S x w k)
  unfolding run_steps begin
  fresh_poll-Sends x text c w k st e =
      rw (poll-polled nothing x w k st, e)
        (resume-Sends (length x) (iv_bytes w.iv ++ text) 0 (begun w text c) k (omega arith))

  -- A poll after one that held back sends the rest of its buffer.
  pub later_poll-Sends :
      (x buf : List ℕ) (pos : ℕ) (w : EncryptedWriter S) (k : Sink)
      → w.steps ≡ writing buf pos
      → pos ≤ length buf
      → Sends (length x) buf w (k.out ++ drop pos buf) (poll_write_encrypted S x w k)
  unfolding run_steps
  later_poll-Sends x buf pos w k st le =
      rw (poll-polled (writing buf pos) x w k st) (resume-Sends (length x) buf pos w k le)

  -- If the cipher fails then nothing is sent, the iv is lost, and the writer starts anew.
  pub failed_poll :
      (x : List ℕ) (e : IoError) (w : EncryptedWriter S) (k : Sink)
      → w.steps ≡ nothing
      → S.update w.cipher x ≡ err e
      → poll_write_encrypted S x w k ≡ (failed e, record w { iv = none }, k)
  unfolding run_steps begin returning
  failed_poll x e w k st h = rw (poll-polled nothing x w k st, h) refl
