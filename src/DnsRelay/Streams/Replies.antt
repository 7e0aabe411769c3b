-- ===== src/DnsRelay/Streams/Replies.antt =====
-- How a query through the SOCKS5 server ends.
use shadowsocks_rust.Common.{
  ℕ, ◌/◌, ◌≤◌, ◌<◌, ◌≡◌, leb, List, [], ◌∷◌, ◌++◌, length, arith, Bool-cases, inl, inr,
}
use shadowsocks_rust.Common.Words.{to_u8, u16_of}
use shadowsocks_rust.Common.Outcome.{Outcome, ok, err, panic}
use shadowsocks_rust.Io.{IoError, read_exact, get_u16, eof_error}
use shadowsocks_rust.Io.Exact.{read_exact_cases}
use shadowsocks_rust.TcpRelay.Session.{Session, Socket}
use shadowsocks_rust.TcpRelay.Socks5Local.Exchange.{IsWilling, send_lem}
use shadowsocks_rust.DnsRelay.{Proto, query_message, buffer_len, buffered}
use shadowsocks_rust.DnsRelay.Streams.{stream_query, read_reply}

module _ (P : Proto) where
  open P use {Message, Name, RecordType}

  -- What a query message of some length comes to, on what is still to be read.
  pub data StreamReply (sent : List ℕ) : List ℕ → Outcome IoError Message → Type 0 where
    long_query : {s : List ℕ} → buffer_len < length sent → StreamReply sent s panic
    no_size :
        {s : List ℕ} → length sent ≤ buffer_len → length s < 2 → StreamReply sent s (err eof_error)
    long_reply :
        {high low : ℕ} {s : List ℕ}
        → length sent ≤ buffer_len
        → buffer_len < u16_of high low
        → StreamReply sent (high ∷ low ∷ s) panic
    short_reply :
        {high low : ℕ} {s : List ℕ}
        → length sent ≤ buffer_len
        → u16_of high low ≤ buffer_len
        → length s < u16_of high low
        → StreamReply sent (high ∷ low ∷ s) (err eof_error)
    reply :
        (res rest : List ℕ) {high low : ℕ} {s : List ℕ}
        → length sent ≤ buffer_len
        → u16_of high low ≤ buffer_len
        → s ≡ res ++ rest
        → length res ≡ u16_of high low
        → StreamReply sent (high ∷ low ∷ s) (P.from_vec (buffered res))

  read_reply-StreamReply :
      (s sent : List ℕ) (t : Session)
      → length sent ≤ buffer_len
      → StreamReply sent s ((read_reply P (record t { input = s })).0)
  unfolding read_reply read_exact get_u16
  read_reply-StreamReply [] sent t h = no_size h (omega arith)
  read_reply-StreamReply (high ∷ []) sent t h = no_size h (omega arith)
  read_reply-StreamReply (high ∷ low ∷ s) sent t h =
      elim (Bool-cases (leb (u16_of high low) buffer_len)) [
        | inr e ↦ rw (e) (long_reply h (ground arith))
        | inl e ↦ elim (read_exact_cases (u16_of high low) s) [
          | inl (less, f) ↦ rw (e, f) (short_reply h (ground arith) less)
          | inr (res, rest, split, len, f) ↦ rw (e, f) (reply res rest h (ground arith) split len)
        ]
      ]

  -- Every query through the SOCKS5 server, once a connection that takes all that is written is
  -- made, and whatever comes back on it, ends in one of five ways: a panic if the query is
  -- longer than 512 bytes; end of file if fewer than two bytes come; a panic if the size that
  -- they say is greater than 512; end of file if fewer bytes follow than they say; or the
  -- message that the buffer holds, with as many bytes as they say from what follows at its
  -- front and zeros behind them.
  pub stream_query-StreamReply :
      (sock : Socket) (qname : Name) (qtype : RecordType) (t : Session) (sent : List ℕ)
      → IsWilling sock
      → P.to_vec (query_message P qname qtype) ≡ ok sent
      → StreamReply sent t.input ((stream_query P sock qname qtype t).0)
  unfolding stream_query
  stream_query-StreamReply sock qname qtype t sent will es =
      elim (Bool-cases (leb (length sent) buffer_len)) [
        | inr h ↦ rw (es, stream_query, h) (long_query (ground arith))
        | inl h ↦
            let bytes = to_u8 (length sent / 256) ∷ to_u8 (length sent) ∷ sent in
            rw (es, stream_query, h, send_lem sock will bytes t)
              (read_reply-StreamReply t.input sent (record t { output = t.output ++ bytes })
                (ground arith))
      ]
