-- ===== src/UdpRelay/Datagrams/Allowed.antt =====
-- Where the server sends the datagrams of its clients.
use shadowsocks_rust.Common.{
  ℕ, ◌≡◌, refl, sym, ap, ◌∙◌, List, [], ◌∷◌, ◌++◌, append-nil, append_assoc, All, All-append, false,
  Bool-cases, inl, inr, Option, none, some,
}
use shadowsocks_rust.Common.Outcome.{Outcome, ok, err, panic}
use shadowsocks_rust.Io.{IoError}
use shadowsocks_rust.Socks5.Address.{SocketAddr, Address, socket_address, domain_name_address}
use shadowsocks_rust.Acl.{Matchers, AccessControl}
use shadowsocks_rust.Context.{
  lookup_outbound_then, resolved, check_outbound_blocked, check_resolved_outbound_blocked,
}
use shadowsocks_rust.Context.Lookups.{lookup_outbound_then-keeps, blocked_same}
use shadowsocks_rust.Crypto.CipherType.{CipherType}
use shadowsocks_rust.Crypto.Sizes.{Backends}
use shadowsocks_rust.Replay.{BloomFilter, PingPongBloom}
use shadowsocks_rust.UdpRelay.CryptoIo.{Suite, decrypt_payload}
use shadowsocks_rust.UdpRelay.Datagrams.{
  Network, Sent, send_to, sent_length, sent_whole, parse_packet, forward, forward_parsed,
  relay_opened, relay_l2r,
}

module _ (M : Matchers) where
  -- The datagrams since `sent`, none of them to an address that the list blocks.
  abbrev pub OnlyAllowed : Option (AccessControl M) → Sent → Sent → Type 0
  OnlyAllowed acl sent sent' =
      (later : Sent) × (sent' ≡ sent ++ later)
      × All (λ (addr, _). check_resolved_outbound_blocked M acl addr ≡ false) later

  allowed_none : (acl : Option (AccessControl M)) (sent : Sent) → OnlyAllowed acl sent sent
  allowed_none acl sent = ([], sym (append-nil sent), tt)

  send_to-OnlyAllowed :
      (acl : Option (AccessControl M)) (net : Network) (buf : List ℕ) (sent : Sent)
      (addr : SocketAddr) (sent' : Sent)
      → check_resolved_outbound_blocked M acl addr ≡ false
      → OnlyAllowed acl sent sent'
      → OnlyAllowed acl sent ((send_to net buf addr sent').1)
  unfolding send_to
  send_to-OnlyAllowed acl net buf sent addr sent' h (later, e, all_later) = (
    later ++ ((addr, buf) ∷ []),
    ap (λ y. y ++ ((addr, buf) ∷ [])) e ∙ append_assoc sent later ((addr, buf) ∷ []),
    All-append (λ (a, _). check_resolved_outbound_blocked M acl a ≡ false) later ((addr, buf) ∷ [])
        all_later (h, tt),
  )

  sent_whole_same :
      (buf : List ℕ) (o : Outcome IoError ℕ) (sent : Sent) → (sent_whole buf (o, sent)).1 ≡ sent
  sent_whole_same buf (ok n) sent = refl
  sent_whole_same buf (err e) sent = refl
  sent_whole_same buf panic sent = refl

  sent_length_same :
      (o : Outcome IoError (SocketAddr × ℕ)) (sent : Sent) → (sent_length (o, sent)).1 ≡ sent
  sent_length_same (ok n) sent = refl
  sent_length_same (err e) sent = refl
  sent_length_same panic sent = refl

  resolved-OnlyAllowed :
      (acl : Option (AccessControl M)) (net : Network) (buf : List ℕ) (sent : Sent)
      (answer : Outcome IoError (List SocketAddr))
      → OnlyAllowed acl sent (
          (resolved answer
            (λ addrs s.
              lookup_outbound_then
                (check_resolved_outbound_blocked M acl)
                (λ addr s'. send_to net buf addr s')
                addrs
                none
                s)
            sent).1)
  unfolding resolved
  resolved-OnlyAllowed acl net buf sent (ok addrs) =
      lookup_outbound_then-keeps (OnlyAllowed acl sent) (check_resolved_outbound_blocked M acl)
        (λ addr s'. send_to net buf addr s')
        (λ addr s' h g. send_to-OnlyAllowed acl net buf sent addr s' h g) addrs none sent
        (allowed_none acl sent)
  resolved-OnlyAllowed acl net buf sent (err e) = allowed_none acl sent
  resolved-OnlyAllowed acl net buf sent panic = allowed_none acl sent

module _ (B : Backends) (F : BloomFilter) (S : Suite B) (M : Matchers) where
  forward-OnlyAllowed :
      (net : Network) (acl : Option (AccessControl M)) (target : Address) (body : List ℕ)
      (sent : Sent)
      → OnlyAllowed M acl sent ((forward B F S M net acl target body sent).1)
  unfolding forward
  forward-OnlyAllowed net acl (socket_address a) body sent =
      elim (Bool-cases (check_outbound_blocked M acl (socket_address a))) [
        | inl h ↦ rw (h) (allowed_none M acl sent)
        | inr h ↦
            rw (h, sent_whole_same M body (send_to net body a sent).0 (send_to net body a sent).1)
              (send_to-OnlyAllowed M acl net body sent a sent (sym (blocked_same M acl a) ∙ h)
                (allowed_none M acl sent))
      ]
  forward-OnlyAllowed net acl (domain_name_address host port) body sent =
      let res =
        resolved (net.resolve host port)
          (λ addrs s.
            lookup_outbound_then (check_resolved_outbound_blocked M acl)
              (λ addr s'. send_to net body addr s') addrs none s)
          sent in
      elim (Bool-cases (check_outbound_blocked M acl (domain_name_address host port))) [
        | inl h ↦ rw (h) (allowed_none M acl sent)
        | inr h ↦
            rw
              (
                h,
                sent_whole_same M body (sent_length res).0 (sent_length res).1,
                sent_length_same M res.0 res.1,
              )
              (resolved-OnlyAllowed M acl net body sent (net.resolve host port))
      ]

  parsed-OnlyAllowed :
      (net : Network) (acl : Option (AccessControl M)) (res : Outcome IoError (Address × List ℕ))
      (sent : Sent)
      → OnlyAllowed M acl sent ((forward_parsed B F S M net acl res sent).1)
  unfolding forward_parsed
  parsed-OnlyAllowed net acl (ok (addr, body)) sent = forward-OnlyAllowed net acl addr body sent
  parsed-OnlyAllowed net acl (err e) sent = allowed_none M acl sent
  parsed-OnlyAllowed net acl panic sent = allowed_none M acl sent

  opened-OnlyAllowed :
      (net : Network) (acl : Option (AccessControl M)) (opened : Outcome IoError (Option (List ℕ)))
      (sent : Sent)
      → OnlyAllowed M acl sent ((relay_opened B F S M net acl opened sent).1)
  unfolding relay_opened
  opened-OnlyAllowed net acl (ok (some pkt)) sent =
      parsed-OnlyAllowed net acl (parse_packet pkt) sent
  opened-OnlyAllowed net acl (ok none) sent = allowed_none M acl sent
  opened-OnlyAllowed net acl (err e) sent = allowed_none M acl sent
  opened-OnlyAllowed net acl panic sent = allowed_none M acl sent

  -- Whatever packet comes from a client, and whatever the network and the resolver answer, the
  -- server sends only to addresses that its access control list does not block, those that a
  -- host name resolves to included.
  pub relay_l2r-OnlyAllowed :
      (net : Network) (acl : Option (AccessControl M)) (t : CipherType) (key pkt : List ℕ)
      (r : PingPongBloom F) (sent : Sent)
      → OnlyAllowed M acl sent ((relay_l2r B F S M net acl t key pkt r sent).0.1)
  unfolding relay_l2r
  relay_l2r-OnlyAllowed net acl t key pkt r sent =
      opened-OnlyAllowed net acl (decrypt_payload B F S t key pkt r).0 sent
