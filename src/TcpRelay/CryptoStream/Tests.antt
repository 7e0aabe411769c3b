-- ===== src/TcpRelay/CryptoStream/Tests.antt =====
-- Two encrypted streams on a cipher that copies, nonces of two bytes, and exact sets.
use shadowsocks_rust.Common.{ℕ, ◌≡◌, refl, sym, ap, List, [], ◌∷◌, arith, none, some}
use shadowsocks_rust.Common.Outcome.{Outcome, ok, err, panic}
use shadowsocks_rust.Io.{IoError}
use shadowsocks_rust.Crypto.CipherType.{category, aes256_cfb}
use shadowsocks_rust.Crypto.Keystream.{Keystream}
use shadowsocks_rust.Crypto.Sizes.{iv_size}
use shadowsocks_rust.Replay.{check_nonce_and_set, check_and_set, insert_item}
use shadowsocks_rust.Replay.Tests.{sets, small}
use shadowsocks_rust.UdpRelay.CryptoIo.{draw_nonce}
use shadowsocks_rust.UdpRelay.CryptoIo.Tests.{
  tiny, suite, copies, filled, filled-IsDraw, small-Inv, small_3,
}
use shadowsocks_rust.TcpRelay.Polling.{
  ReadEvent, chunk, not_ready, Sink, accepts, not_writable, poll_write, write_event,
}
use shadowsocks_rust.TcpRelay.Polling.Runs.{at_once, retried, none_left, next}
use shadowsocks_rust.TcpRelay.Draining.{write_rest}
use shadowsocks_rust.TcpRelay.StreamWriter as StreamWriter
use shadowsocks_rust.TcpRelay.StreamWriter.{
  nothing, poll_write_encrypted, returning, poll_write_all_encrypted, run_steps, begin, resume,
  left_off,
}
use shadowsocks_rust.TcpRelay.CryptoStream.{
  CryptoStream, stream_writer, wait_iv, new, priv_poll_read, priv_poll_write, write_encrypted,
}
use shadowsocks_rust.TcpRelay.CryptoStream.Pipe.{Owes, Delivers, crypto_stream_poll-Delivers}
use shadowsocks_rust.TcpRelay.CryptoStream.Pipe.Trip.{WrittenAll, crypto_stream_trip}

same_plain :
    (e e' : ℕ) (x y : List ℕ)
    → ◌≡◌ {A = Outcome IoError (List ℕ × ℕ)} (ok (x, e)) (ok (y, e'))
    → y ≡ x
same_plain e e' x y h = sym (ap (λ o. elim o [ ok r ↦ r.0 | err _ ↦ x | panic ↦ x ]) h)

abbrev copies_bytes : Keystream copies
copies_bytes = record {
  InStep = λ e d. Unit {0};
  new-InStep = λ key iv. tt;
  update_nil = λ c. refl;
  update-append = λ c x y. refl;
  finalize_nil = λ c. refl;
  decrypt-update = λ e d e' x y h f. (d, ap (λ z. ok (z, d)) (same_plain e e' x y f), tt);
}

abbrev made : ℕ → CryptoStream tiny sets suite aes256_cfb
made b = record {
  dec = none;
  enc = stream_writer (record { cipher = 0; steps = nothing; iv = some (b ∷ b ∷ []) });
  read_status = wait_iv 2 [] (1 ∷ []);
}

abbrev client : CryptoStream tiny sets suite aes256_cfb
client = made 3

client-small_3 :
    new tiny sets suite aes256_cfb (1 ∷ []) (filled 3 ∷ []) small ≡ ok (client, small_3)
unfolding new draw_nonce category iv_size check_nonce_and_set check_and_set insert_item
    StreamWriter.new
client-small_3 = refl

abbrev written_client : CryptoStream tiny sets suite aes256_cfb
written_client = record {
  dec = none;
  enc = stream_writer (record { cipher = 0; steps = nothing; iv = none });
  read_status = wait_iv 2 [] (1 ∷ []);
}

abbrev slow_sink : Sink
slow_sink = record { out = []; events = accepts 3 ∷ not_writable ∷ accepts 100 ∷ [] }

abbrev last_sink : Sink
last_sink = record { out = 3 ∷ 3 ∷ 8 ∷ 9 ∷ []; events = [] }

two_polls :
    WrittenAll tiny sets suite aes256_cfb client slow_sink
      ((8 ∷ 9 ∷ []) ∷ [])
      written_client
      last_sink
unfolding priv_poll_write write_encrypted poll_write_encrypted returning poll_write_all_encrypted
    run_steps begin resume left_off write_rest poll_write write_event
two_polls = next (retried refl (at_once 2 refl)) none_left

abbrev source : List ReadEvent
source = chunk (3 ∷ []) ∷ not_ready ∷ chunk (3 ∷ 8 ∷ []) ∷ chunk (9 ∷ []) ∷ []

crypto_stream_trip_example :
    Owes tiny sets suite aes256_cfb (λ h. copies_bytes) client source small (8 ∷ 9 ∷ [])
unfolding category iv_size check_nonce_and_set check_and_set insert_item
crypto_stream_trip_example =
    crypto_stream_trip tiny sets suite aes256_cfb (λ h. copies_bytes) (1 ∷ []) (8 ∷ 9 ∷ []) []
      (filled 3 ∷ []) (filled 3 ∷ []) small small_3 small small_3 small small_3 client
      written_client client slow_sink last_sink source 2 small-Inv (filled-IsDraw 3, tt)
      client-small_3 two_polls refl small-Inv (filled-IsDraw 3, tt) client-small_3
      (omega arith, (omega arith, (omega arith, tt))) refl refl refl

crypto_stream_poll-Delivers_example :
    Delivers tiny sets suite aes256_cfb
      (λ h. copies_bytes)
      5
      (8 ∷ 9 ∷ [])
      (priv_poll_read tiny sets suite aes256_cfb 5 client source small)
unfolding category iv_size check_nonce_and_set check_and_set insert_item
crypto_stream_poll-Delivers_example =
    crypto_stream_poll-Delivers tiny sets suite aes256_cfb (λ h. copies_bytes) 5 client source small
      (8 ∷ 9 ∷ [])
      (crypto_stream_trip tiny sets suite aes256_cfb (λ h. copies_bytes) (1 ∷ []) (8 ∷ 9 ∷ []) []
        (filled 3 ∷ []) (filled 3 ∷ []) small small_3 small small_3 small small_3 client
        written_client client slow_sink last_sink source 2 small-Inv (filled-IsDraw 3, tt)
        client-small_3 two_polls refl small-Inv (filled-IsDraw 3, tt) client-small_3
        (omega arith, (omega arith, (omega arith, tt))) refl refl refl)
