-- ===== src/TcpRelay/Tests.antt =====
-- The stream packets on a cipher of a counter, which the first byte of a text authenticates.
use shadowsocks_rust.Common.{
  ℕ, suc, ◌==◌, ◌≡◌, refl, ap, ◌∙◌, List, [], ◌∷◌, length, ==_iff, arith, true, false, Option, some,
  none,
}
use shadowsocks_rust.Crypto.{AeadCipher}
use shadowsocks_rust.TcpRelay.Polling.{
  Sink, accepts, not_writable, ReadEvent, chunk, not_ready, poll_write, write_event,
}
use shadowsocks_rust.TcpRelay.AeadReader as Reader
use shadowsocks_rust.TcpRelay.AeadReader.{poll_read_decrypted}
use shadowsocks_rust.TcpRelay.AeadReader.Delivery.{Owes, Delivers, poll_read_decrypted-Delivers}
use shadowsocks_rust.TcpRelay.AeadWriter.{
  EncryptedWriter, nothing, new, packet, begin, write_loop, resume, run_steps,
  poll_write_all_encrypted, returning, poll_write_encrypted,
}
use shadowsocks_rust.TcpRelay.AeadWriter.Progress.{Sends, poll_write_encrypted-Sends}
use shadowsocks_rust.TcpRelay.Polling.Runs.{at_once, retried, none_left, next}
use shadowsocks_rust.TcpRelay.AeadWriter.Packets.{WrittenAll, written-Owes}

abbrev counter_open : ℕ → List ℕ → Option (List ℕ) × ℕ
counter_open d [] = (none, d)
counter_open d (t ∷ x) = (elim (t == d) [ true ↦ some x | false ↦ none ], suc d)

counter_open_lem : (d : ℕ) (x : List ℕ) → counter_open d (d ∷ x) ≡ (some x, suc d)
counter_open_lem d x =
    ap (λ b. (elim b [ true ↦ some x | false ↦ none ], suc d)) ((==_iff d d).1 refl)

abbrev counter_cipher : AeadCipher
counter_cipher = record {
  Encryptor = ℕ;
  Decryptor = ℕ;
  new_enc = λ key salt. length key;
  new_dec = λ key salt. length key;
  tag_size = 1;
  encrypt = λ e x. (e ∷ x, suc e);
  decrypt = counter_open;
  InStep = λ e d. e ≡ d;
  new-InStep = λ key salt. refl;
  length-encrypt = λ e x. omega arith;
  decrypt-encrypt = λ e d x same.
      (suc d, ap (λ y. counter_open d (y ∷ x)) same ∙ counter_open_lem d x, ap suc same);
}

abbrev slow_sink : Sink
slow_sink = record { out = []; events = accepts 2 ∷ not_writable ∷ accepts 3 ∷ accepts 100 ∷ [] }

abbrev first_writer : EncryptedWriter counter_cipher
first_writer = record { cipher = 1; steps = nothing; nonce = some (9 ∷ 9 ∷ []) }

poll_write_encrypted-Sends_example :
    Sends counter_cipher 2
      (9 ∷ 9 ∷ 1 ∷ 0 ∷ 2 ∷ 2 ∷ 7 ∷ 8 ∷ [])
      (begin counter_cipher (7 ∷ 8 ∷ []) first_writer)
      (9 ∷ 9 ∷ 1 ∷ 0 ∷ 2 ∷ 2 ∷ 7 ∷ 8 ∷ [])
      (poll_write_encrypted counter_cipher (7 ∷ 8 ∷ []) first_writer slow_sink)
unfolding packet
poll_write_encrypted-Sends_example =
    poll_write_encrypted-Sends counter_cipher (7 ∷ 8 ∷ []) first_writer slow_sink (omega arith)

abbrev source : List ReadEvent
source = chunk (1 ∷ 0 ∷ []) ∷ not_ready ∷ chunk (2 ∷ 2 ∷ 7 ∷ 8 ∷ []) ∷ []

abbrev last_writer : EncryptedWriter counter_cipher
last_writer = record { cipher = 3; steps = nothing; nonce = none }

abbrev last_sink : Sink
last_sink = record { out = 9 ∷ 9 ∷ 1 ∷ 0 ∷ 2 ∷ 2 ∷ 7 ∷ 8 ∷ []; events = [] }

two_polls :
    WrittenAll counter_cipher
      (new counter_cipher (5 ∷ []) (9 ∷ 9 ∷ []))
      slow_sink
      ((7 ∷ 8 ∷ []) ∷ [])
      last_writer
      last_sink
unfolding new packet begin write_loop resume run_steps poll_write_all_encrypted returning
    poll_write_encrypted poll_write write_event
two_polls = next (retried refl (at_once 2 refl)) none_left

written-Owes_example :
    Owes counter_cipher (Reader.new counter_cipher (5 ∷ []) (9 ∷ 9 ∷ [])) source (7 ∷ 8 ∷ [])
written-Owes_example =
    written-Owes counter_cipher (5 ∷ []) (9 ∷ 9 ∷ []) source two_polls refl refl
      (omega arith, (omega arith, tt))

poll_read_decrypted-Delivers_example :
    Delivers counter_cipher 1 (7 ∷ 8 ∷ []) (
      poll_read_decrypted counter_cipher 1 (Reader.new counter_cipher (5 ∷ []) (9 ∷ 9 ∷ [])) source)
poll_read_decrypted-Delivers_example =
    poll_read_decrypted-Delivers counter_cipher 1 (Reader.new counter_cipher (5 ∷ []) (9 ∷ 9 ∷ []))
      source (7 ∷ 8 ∷ [])
      (written-Owes counter_cipher (5 ∷ []) (9 ∷ 9 ∷ []) source two_polls refl refl
        (omega arith, (omega arith, tt)))
