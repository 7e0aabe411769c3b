-- ===== src/TcpRelay/Server/Allowed.antt =====
-- Where the server connects to for its clients.
use shadowsocks_rust.Common.{
  ℕ, ◌≡◌, refl, subst, sym, ◌∙◌, List, [], ◌∷◌, All, All-append, false, Bool-cases, inl, inr,
  Option, none,
}
use shadowsocks_rust.Common.Outcome.{Outcome, ok, err, panic}
use shadowsocks_rust.Io.{IoError}
use shadowsocks_rust.Socks5.Address.{
  SocketAddr, Address, socket_address, domain_name_address, read_from,
}
use shadowsocks_rust.Socks5.Error.{Error}
use shadowsocks_rust.Acl.{Matchers, AccessControl}
use shadowsocks_rust.Context.{
  ServerAddr, resolved, lookup_outbound_then, check_client_blocked, check_outbound_blocked,
  check_resolved_outbound_blocked,
}
use shadowsocks_rust.Context.Lookups.{lookup_outbound_then-keeps, blocked_same}
use shadowsocks_rust.TcpRelay.ProxyStream.{Dialled, Network, dial, direct}
use shadowsocks_rust.TcpRelay.ProxyStream.Attempts.{connected_same, connected_one_same}
use shadowsocks_rust.TcpRelay.Session.{Session, next, join}
use shadowsocks_rust.TcpRelay.Server.{
  local_bind, connect_remote, establish, handle_address, handle_client, accept,
}

module _ (M : Matchers) (net : Network) (acl : Option (AccessControl M)) where
  -- None of the addresses is blocked by the list.
  abbrev pub NoneBlocked : Dialled → Type 0
  NoneBlocked dialled = All (λ a. check_resolved_outbound_blocked M acl a ≡ false) dialled

  dial-NoneBlocked :
      (a : SocketAddr) (dialled : Dialled)
      → check_resolved_outbound_blocked M acl a ≡ false
      → NoneBlocked dialled
      → NoneBlocked ((dial net a dialled).1)
  unfolding dial
  dial-NoneBlocked a dialled h g =
      All-append (λ b. check_resolved_outbound_blocked M acl b ≡ false) dialled (a ∷ []) g (h, tt)

  answered-NoneBlocked :
      (answer : Outcome IoError (List SocketAddr)) (dialled : Dialled)
      → NoneBlocked dialled
      → NoneBlocked (
          (resolved answer
            (λ addrs d.
              lookup_outbound_then
                (check_resolved_outbound_blocked M acl)
                (λ addr d'. dial net addr d')
                addrs
                none
                d)
            dialled).1)
  unfolding resolved
  answered-NoneBlocked (ok addrs) dialled g =
      lookup_outbound_then-keeps NoneBlocked (check_resolved_outbound_blocked M acl)
        (λ addr d. dial net addr d) dial-NoneBlocked addrs none dialled g
  answered-NoneBlocked (err e) dialled g = g
  answered-NoneBlocked panic dialled g = g

  remote-NoneBlocked :
      (remote_addr : Address) (dialled : Dialled)
      → check_outbound_blocked M acl remote_addr ≡ false
      → NoneBlocked dialled
      → NoneBlocked ((connect_remote M net acl remote_addr dialled).1)
  unfolding connect_remote
  remote-NoneBlocked (socket_address a) dialled h g =
      rw (connected_same a (dial net a dialled).0 (dial net a dialled).1)
        (dial-NoneBlocked a dialled (sym (blocked_same M acl a) ∙ h) g)
  remote-NoneBlocked (domain_name_address dname port) dialled h g =
      let res =
        resolved (net.resolve dname port)
          (λ addrs d.
            lookup_outbound_then (check_resolved_outbound_blocked M acl)
              (λ addr d'. dial net addr d') addrs none d)
          dialled in
      rw (connected_one_same res.0 res.1) (answered-NoneBlocked (net.resolve dname port) dialled g)

  joined_same :
      (r : Outcome IoError SocketAddr) (s : Session)
      → (next (r, s) (λ saddr. join (direct saddr))).1.dialled ≡ s.dialled
  joined_same (ok a) s = refl
  joined_same (err e) s = refl
  joined_same panic s = refl

  bound-NoneBlocked :
      (bind : Outcome IoError (Option SocketAddr)) (remote_addr : Address) (s : Session)
      → check_outbound_blocked M acl remote_addr ≡ false
      → NoneBlocked s.dialled
      → NoneBlocked ((next (bind, s) (λ _. establish M net acl remote_addr)).1.dialled)
  unfolding establish
  bound-NoneBlocked (ok b) remote_addr s h g =
      let res = connect_remote M net acl remote_addr s.dialled in
      subst NoneBlocked (sym (joined_same res.0 (record s { dialled = res.1 })))
        (remote-NoneBlocked remote_addr s.dialled h g)
  bound-NoneBlocked (err e) remote_addr s h g = g
  bound-NoneBlocked panic remote_addr s h g = g

  address-NoneBlocked :
      (local : Option ServerAddr) (res : Outcome Error (Address × List ℕ)) (s : Session)
      → NoneBlocked s.dialled
      → NoneBlocked ((handle_address M net acl local res s).1.dialled)
  unfolding handle_address
  address-NoneBlocked local (ok (remote_addr, rest)) s g =
      elim (Bool-cases (check_outbound_blocked M acl remote_addr)) [
        | inl h ↦ rw (h) g
        | inr h ↦
            rw (h)
              (bound-NoneBlocked (local_bind net local) remote_addr (record s { input = rest }) h g)
      ]
  address-NoneBlocked local (err e) s g = g
  address-NoneBlocked local panic s g = g

  -- If no address that the server dialled for a client is blocked by its access control list,
  -- none is after it handles the client, whatever the client sends and whatever the network and
  -- the resolver answer: not the target itself, and no address that its name resolves to.
  pub server_accept-NoneBlocked :
      (local : Option ServerAddr) (peer_addr : SocketAddr) (s : Session)
      → NoneBlocked s.dialled
      → NoneBlocked ((accept M net acl local peer_addr s).dialled)
  unfolding accept handle_client
  server_accept-NoneBlocked local peer_addr s g =
      elim (Bool-cases (check_client_blocked M acl peer_addr)) [
        | inl h ↦ rw (h) g
        | inr h ↦ rw (h) (address-NoneBlocked local (read_from s.input) s g)
      ]
