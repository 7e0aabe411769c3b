-- ===== src/TcpRelay/Socks5Local/Refusals.antt =====
-- A SOCKS5 client's CONNECT whose target is not reached.
use shadowsocks_rust.Common.{
  ℕ, ◌≡◌, ◌≢◌, Bool, false, Bool-cases, inl, inr, ◌∷◌, sym, refl, ap, ◌∙◌, List, [], ◌++◌, true,
  if◌then◌else◌,
}
use shadowsocks_rust.Common.Outcome.{Outcome, ok, err, panic, ok_injective}
use shadowsocks_rust.Io.{
  IoError, IoErrorKind, connect_failed, unexpected_eof, invalid_data, invalid_input, other,
  timed_out, connection_refused, connection_aborted,
}
use shadowsocks_rust.Socks5.Address.{SocketAddr, Address, socket_address, write_to_buf}
use shadowsocks_rust.Socks5.Address.Written.{IsValid, Fits}
use shadowsocks_rust.Socks5.Address.Reading.{carried}
use shadowsocks_rust.Socks5.Reply.{Reply, IsNamed, as_u8}
use shadowsocks_rust.Socks5.HandshakeResp as HandshakeResp
use shadowsocks_rust.Context.{Stepped}
use shadowsocks_rust.Socks5.TcpResponse as TcpResponse
use shadowsocks_rust.Socks5.TcpResponse.{TcpResponseHeader, tcp_response_round_trip}
use shadowsocks_rust.Acl.{Matchers}
use shadowsocks_rust.Config.{Mode, enable_tcp}
use shadowsocks_rust.TcpRelay.ProxyStream.{
  ProxyStream, ProxyStreamError, Dialled, Network, direct_wrapped, proxied_wrapped, connect_direct,
  connect_proxied, bypasses, connect,
}
use shadowsocks_rust.TcpRelay.ProxyStream as ProxyStream
use shadowsocks_rust.TcpRelay.Session.{Session, Socket, next, lift}
use shadowsocks_rust.TcpRelay.Client as Client
use shadowsocks_rust.TcpRelay.Client.{checked, refusal}
use shadowsocks_rust.TcpRelay.Socks5Local.{
  UdpConfig, connect_error, handle_socks5_client, failure_reply, dummy_address,
}
use shadowsocks_rust.TcpRelay.Socks5Local.Exchange.{fresh, IsWilling, hello, chosen}
use shadowsocks_rust.TcpRelay.Socks5Local.Trip.{exchange, dummy_address-IsValid}
use shadowsocks_rust.TcpRelay.Socks5Local.Served.{command_lem, refused_if}

failure_reply-IsNamed : (k : IoErrorKind) → IsNamed (failure_reply k)
failure_reply-IsNamed connection_refused = tt
failure_reply-IsNamed connection_aborted = tt
failure_reply-IsNamed _ = tt

checked_refused :
    (k : IoErrorKind) (a : Address)
    → checked (record { reply = failure_reply k; address = a }) ≡ err (refusal (failure_reply k))
checked_refused connection_refused a = refl
checked_refused connection_aborted a = refl
checked_refused unexpected_eof a = refl
checked_refused invalid_data a = refl
checked_refused invalid_input a = refl
checked_refused other a = refl
checked_refused timed_out a = refl

-- The reply to an error of a kind, and its code.
pub data RepliedTo : IoErrorKind → Reply → ℕ → Type 0 where
  target_refused : RepliedTo connection_refused Reply.connection_refused 0x05
  target_aborted : RepliedTo connection_aborted Reply.host_unreachable 0x04
  target_failed :
      {k : IoErrorKind}
      → k ≢ connection_refused
      → k ≢ connection_aborted
      → RepliedTo k Reply.network_unreachable 0x03

failure_reply-RepliedTo :
    (k : IoErrorKind) → RepliedTo k (failure_reply k) (as_u8 (failure_reply k))
unfolding as_u8
failure_reply-RepliedTo connection_refused = target_refused
failure_reply-RepliedTo connection_aborted = target_aborted
failure_reply-RepliedTo unexpected_eof = target_failed (λ e. cc) (λ e. cc)
failure_reply-RepliedTo invalid_data = target_failed (λ e. cc) (λ e. cc)
failure_reply-RepliedTo invalid_input = target_failed (λ e. cc) (λ e. cc)
failure_reply-RepliedTo other = target_failed (λ e. cc) (λ e. cc)
failure_reply-RepliedTo timed_out = target_failed (λ e. cc) (λ e. cc)

-- The bytes of the method, and of a reply with no address.
abbrev pub refusal_bytes : ℕ → List ℕ
refusal_bytes code = 5 ∷ 0 ∷ 5 ∷ code ∷ 0 ∷ 1 ∷ 0 ∷ 0 ∷ 0 ∷ 0 ∷ 0 ∷ 0 ∷ []

refusal_bytes_lem :
    (reply : Reply) (resp : List ℕ)
    → TcpResponse.write_to (record { reply = reply; address = socket_address dummy_address }) []
      ≡ ok resp
    → chosen ++ resp ≡ refusal_bytes (as_u8 reply)
unfolding TcpResponse.write_to TcpResponse.write_to_buf write_to_buf HandshakeResp.write_to
    HandshakeResp.write_to_buf
refusal_bytes_lem reply resp e = ap (λ r. chosen ++ r) (sym (ok_injective _ _ e))

direct_wrapped_err :
    (r : Outcome IoError SocketAddr) (d dialled : Dialled) (perr : ProxyStreamError)
    → direct_wrapped (r, d) ≡ (err perr, dialled)
    → perr.bypassed ≡ true
unfolding direct_wrapped
direct_wrapped_err (ok a) d dialled perr e = (let f = ap (λ x. x.0) e in cc)
direct_wrapped_err (err x) d dialled perr e =
    sym (ap (λ y. elim y.0 [ err p ↦ p.bypassed | _ ↦ true ]) e)
direct_wrapped_err panic d dialled perr e = (let f = ap (λ x. x.0) e in cc)

proxied_wrapped_err :
    (r : Outcome IoError ProxyStream) (d dialled : Dialled) (perr : ProxyStreamError)
    → proxied_wrapped (r, d) ≡ (err perr, dialled)
    → perr.bypassed ≡ false
unfolding proxied_wrapped
proxied_wrapped_err (ok a) d dialled perr e = (let f = ap (λ x. x.0) e in cc)
proxied_wrapped_err (err x) d dialled perr e =
    sym (ap (λ y. elim y.0 [ err p ↦ p.bypassed | _ ↦ false ]) e)
proxied_wrapped_err panic d dialled perr e = (let f = ap (λ x. x.0) e in cc)

-- The flag of an error is whether the target is bypassed.
connect_err :
    (M : Matchers) (net : Network) (cl : ProxyStream.Client M) (addr : Address)
    (perr : ProxyStreamError) (dialled : Dialled)
    → connect M net cl addr [] ≡ (err perr, dialled)
    → perr.bypassed ≡ bypasses M cl addr
unfolding connect
connect_err M net cl addr perr dialled e = elim (Bool-cases (bypasses M cl addr)) [
  | inl h ↦
      let r = connect_direct net addr [] in
      direct_wrapped_err r.0 r.1 dialled perr (rw (h, connect) at e) ∙ sym h
  | inr h ↦
      let r = connect_proxied net cl.config_type cl.svr_cfg addr [] in
      proxied_wrapped_err r.0 r.1 dialled perr (rw (h, connect) at e) ∙ sym h
]

module _ (csock ssock : Socket) (cwill : IsWilling csock) (swill : IsWilling ssock) (M : Matchers)
    (net : Network) (cl : ProxyStream.Client M) (mode : Mode) (udp_conf : UdpConfig)
    (client_addr : SocketAddr) (addr : Address) (rest crest : List ℕ)
    (peer : ssock.peer_addr ≡ ok client_addr) (valid : IsValid addr) (fits : Fits addr) where
  -- The server's session, by what it wrote and by the flag of the error.
  abbrev refused_session : ProxyStreamError → Dialled → List ℕ → Bool → Stepped Session (Unit {0})
  refused_session perr dialled answer b = (
    err (record { kind = perr.inner.kind; message = connect_failed perr.inner.message }),
    record (fresh rest) { output = answer; dialled = dialled; failures = if b then 1 else 0 },
  )

  -- Take a SOCKS5 client and a local server whose sockets take all that is written, TCP
  -- relaying enabled, and a target with a valid address that fits. If the server's connection
  -- to the target fails, it answers the choice of no authentication and a reply with the
  -- address 0.0.0.0 and port 0, whose code is 5, connection refused, for a refused connection,
  -- 4, host unreachable, for an aborted one, and 3, network unreachable, for any other error; a
  -- client that is given this ends with that reply. The server ends with an error of the same
  -- kind, joined to nothing. It reports a failure against its remote server exactly if the
  -- access control list bypasses the target, which is when the remote server was not asked.
  pub socks5_connect_refused :
      (perr : ProxyStreamError) (dialled : Dialled)
      → enable_tcp mode ≡ true
      → connect M net cl (carried addr) [] ≡ (err perr, dialled)
      → (reply : Reply) × (code : ℕ) × RepliedTo perr.inner.kind reply code
        × (sent : List ℕ) × (Client.connect csock addr (fresh (refusal_bytes code ++ crest))
            ≡ (err (refusal reply), record (fresh crest) { output = sent }))
        × (handle_socks5_client ssock M net cl mode udp_conf (fresh (sent ++ rest)) ≡ (
          err (record { kind = perr.inner.kind; message = connect_failed perr.inner.message }),
          record (fresh rest) {
            output = refusal_bytes code;
            dialled = dialled;
            failures = if bypasses M cl (carried addr) then 1 else 0;
          },
        ))
  socks5_connect_refused perr dialled et ec =
      let k = perr.inner.kind in
      let h : TcpResponseHeader = record {
        reply = failure_reply k;
        address = socket_address dummy_address;
      } in
      let (req, resp, written, client, server) =
        exchange csock ssock cwill swill M net cl mode udp_conf client_addr addr rest crest peer
          valid fits h (failure_reply-IsNamed k) dummy_address-IsValid tt in
      let bytes = refusal_bytes_lem (failure_reply k) resp written in
      (
        failure_reply k,
        as_u8 (failure_reply k),
        failure_reply-RepliedTo k,
        hello ++ req,
        ap (λ b. Client.connect csock addr (fresh (b ++ crest))) (sym bytes)
            ∙ client
            ∙ ap (λ r. next (r, record (fresh crest) { output = hello ++ req }) (λ _. lift (ok tt)))
                (checked_refused k (carried (socket_address dummy_address))),
        server
            ∙ command_lem ssock swill M net cl mode udp_conf (carried addr) rest (err perr) dialled
                et ec
            ∙ ap (connect_error ssock M) (
                refused_if ssock swill M net cl mode udp_conf (carried addr) rest resp perr.inner
                  perr.bypassed dialled written)
            ∙ ap (λ a. refused_session perr dialled a perr.bypassed) bytes
            ∙ ap (refused_session perr dialled (refusal_bytes (as_u8 (failure_reply k))))
                (connect_err M net cl (carried addr) perr dialled ec),
      )
