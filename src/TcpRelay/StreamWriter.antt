-- ===== src/TcpRelay/StreamWriter.antt =====
-- `EncryptedWriter` of relay/tcprelay/stream.rs.
pub mod Progress
pub mod Texts
use shadowsocks_rust.Common.{
  ℕ, zero, suc, ◌+◌, ◌==◌, List, [], ◌++◌, length, drop, ltb, true, false, Option, none, some,
}
use shadowsocks_rust.Common.Outcome.{Outcome, ok, err, panic}
use shadowsocks_rust.Io.{IoError, eof_kind_error}
use shadowsocks_rust.Crypto.{StreamCipher}
use shadowsocks_rust.TcpRelay.Polling.{Polled, pending, failed, done, panicked, exhausted, Sink}
use shadowsocks_rust.TcpRelay.Draining.{write_rest}

pub data EncryptWriteStep : Type 0 where
  nothing : EncryptWriteStep
  writing : List ℕ → ℕ → EncryptWriteStep

abbrev pub iv_bytes : Option (List ℕ) → List ℕ
iv_bytes none = []
iv_bytes (some iv) = iv

module _ (S : StreamCipher) where
  open S use {Cipher, new_encrypt, update}

  pub record EncryptedWriter : Type 0 where
    pub cipher : Cipher
    pub steps : EncryptWriteStep
    pub iv : Option (List ℕ)

  unfoldable pub new : List ℕ → List ℕ → EncryptedWriter
  new key iv = record { cipher = new_encrypt key iv; steps = nothing; iv = some iv }

  abbrev pub Writes : Type 0 → Type 0
  Writes A = Polled A × EncryptedWriter × Sink

  -- The writer and the result after the loop of the arm `Writing`.
  unfoldable pub left_off :
      List ℕ → EncryptedWriter → Polled (Unit {0}) × ℕ × Sink → Writes (Unit {0})
  left_off buf w (done _, pos, k) = (done tt, record w { steps = nothing }, k)
  left_off buf w (pending, pos, k) = (pending, record w { steps = writing buf pos }, k)
  left_off buf w (failed e, pos, k) = (failed e, record w { steps = writing buf pos }, k)
  left_off buf w (panicked, pos, k) = (panicked, w, k)
  left_off buf w (exhausted, pos, k) = (exhausted, w, k)

  unfoldable pub resume : List ℕ → ℕ → EncryptedWriter → Sink → Writes (Unit {0})
  unfolding left_off
  resume buf pos w k = left_off buf w (write_rest (suc (length buf)) buf pos k)

  -- The arm `Nothing`: the iv goes before the first text only, and is taken even if the cipher then
  -- fails, when nothing is kept of the text.
  unfoldable pub begin :
      Outcome IoError (List ℕ × Cipher) → EncryptedWriter → Sink → Writes (Unit {0})
  unfolding resume
  begin (ok (text, c)) w k =
      let buf = iv_bytes w.iv ++ text in
      resume buf 0 (record { cipher = c; steps = writing buf 0; iv = none }) k
  begin (err e) w k = (failed e, record w { iv = none }, k)
  begin panic w k = (panicked, record w { iv = none }, k)

  -- The loop: the arm `Nothing` goes on to the arm `Writing`, which returns.
  unfoldable pub run_steps : EncryptWriteStep → List ℕ → EncryptedWriter → Sink → Writes (Unit {0})
  unfolding begin
  run_steps nothing payload w k = begin (update w.cipher payload) w k
  run_steps (writing buf pos) payload w k = resume buf pos w k

  unfoldable pub poll_write_all_encrypted : List ℕ → EncryptedWriter → Sink → Writes (Unit {0})
  unfolding run_steps
  poll_write_all_encrypted payload w k = run_steps w.steps payload w k

  unfoldable pub returning : ℕ → Writes (Unit {0}) → Writes ℕ
  returning n (done _, w, k) = (done n, w, k)
  returning n (pending, w, k) = (pending, w, k)
  returning n (failed e, w, k) = (failed e, w, k)
  returning n (panicked, w, k) = (panicked, w, k)
  returning n (exhausted, w, k) = (exhausted, w, k)

  unfoldable pub poll_write_encrypted : List ℕ → EncryptedWriter → Sink → Writes ℕ
  unfolding returning poll_write_all_encrypted
  poll_write_encrypted payload w k =
      returning (length payload) (poll_write_all_encrypted payload w k)
