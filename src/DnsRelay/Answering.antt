-- ===== src/DnsRelay/Answering.antt =====
-- relay/dnsrelay/mod.rs: the choice between the two answers, and what the relay does with a datagram.
pub mod Cached
use shadowsocks_rust.Common.{
  ℕ, ◌==◌, List, [], ◌∷◌, Bool, true, false, Option, none, some, if◌then◌else◌,
}
use shadowsocks_rust.Common.Outcome.{Outcome, ok, err, panic}
use shadowsocks_rust.Io.{IoError}
use shadowsocks_rust.Socks5.Address.{
  SocketAddr, v4, v6, Address, socket_address, domain_name_address,
}
use shadowsocks_rust.Context.{IpAddr, ipv4, ipv6}
use shadowsocks_rust.DnsRelay.{Proto, ReverseCache, RData, a, aaaa, other_data, buffered}

-- `IpAddr::from`, of the records that have an address.
abbrev pub ip_of : RData → Option IpAddr
ip_of (a ip) = some (ipv4 ip)
ip_of (aaaa ip) = some (ipv6 ip)
ip_of other_data = none

-- `SocketAddr::new` with port 0.
abbrev pub at_port_0 : IpAddr → SocketAddr
at_port_0 (ipv4 ip) = v4 (record { ip = ip; port = 0 })
at_port_0 (ipv6 ip) = v6 (record { ip = ip; port = 0; flowinfo = 0; scope_id = 0 })

module _ (P : Proto) where
  open P use {Message, Name, Query, Record}

  -- `unwrap_or`.
  abbrev pub or_new : Outcome IoError Message → Outcome IoError Message
  or_new (ok m) = ok m
  or_new (err e) = ok P.new_message
  or_new panic = panic

  -- Whether a record's address is bypassed.
  unfoldable pub record_bypassed : (Address → Bool) → Record → Bool
  record_bypassed bypassed rec = elim (ip_of (P.rdata rec)) [
    | some ip ↦ bypassed (socket_address (at_port_0 ip))
    | none ↦ false
  ]

  -- The loop over the answers.
  unfoldable pub ip_bypassed : (Address → Bool) → Bool → List Record → Bool
  unfolding record_bypassed
  ip_bypassed bypassed found [] = found
  ip_bypassed bypassed found (rec ∷ recs) =
      ip_bypassed bypassed (if record_bypassed bypassed rec then true else found) recs

  -- The choice at the end of `acl_lookup`.
  unfoldable pub pick : (Address → Bool) → Name → Message → Message → Message
  unfolding ip_bypassed
  pick bypassed qname local_response remote_response =
      if P.answer_count local_response == 0
      then remote_response
      else if P.answer_count remote_response == 0
      then local_response
      else if bypassed (domain_name_address (P.to_string qname) 0)
      then local_response
      else if ip_bypassed bypassed false (P.answers local_response)
      then local_response
      else remote_response

  -- `acl_lookup`, on what the two lookups gave.
  unfoldable pub acl_lookup :
      (Address → Bool)
      → Outcome IoError Message
      → Outcome IoError Message
      → Name
      → Outcome IoError Message
  unfolding pick
  acl_lookup bypassed local remote qname = elim (or_new local) [
    | ok local_response ↦ elim (or_new remote) [
      | ok remote_response ↦ ok (pick bypassed qname local_response remote_response)
      | err e ↦ err e
      | panic ↦ panic
    ]
    | err e ↦ err e
    | panic ↦ panic
  ]

  -- The response before it is answered.
  unfoldable pub response_to : Message → Message
  response_to request = P.set_response (
      P.set_recursion_available true
        (P.set_recursion_desired true (P.set_id (P.id request) P.new_message)))

  unfoldable pub add_additionals : List Record → Message → Message
  add_additionals [] message = message
  add_additionals (rec ∷ recs) message = add_additionals recs (P.add_additional rec message)

  module _ (C : ReverseCache) where
    abbrev pub cached : C.LruCache → Name → Option IpAddr → C.LruCache
    cached cache qname (some ip) = C.insert cache ip (P.to_ascii qname)
    cached cache qname none = cache

    -- The loop over the answers, each of whose addresses is cached with the name asked for.
    unfoldable pub add_answers : Name → List Record → Message → C.LruCache → Message × C.LruCache
    add_answers qname [] message cache = (message, cache)
    add_answers qname (rec ∷ recs) message cache =
        add_answers qname recs (P.add_answer rec message) (cached cache qname (ip_of (P.rdata rec)))

    unfoldable pub answered :
        Query
        → Message
        → C.LruCache
        → Outcome IoError Message
        → Outcome IoError Message × C.LruCache
    unfolding add_answers add_additionals
    answered question message cache (ok result) =
        let message' = P.copy_response_code result (P.add_query question message) in
        let (message'', cache') = add_answers (P.name question) (P.answers result) message' cache in
        (ok (add_additionals (P.additionals result) message''), cache')
    answered question message cache (err e) = (ok (P.set_serv_fail message), cache)
    answered question message cache panic = (panic, cache)

    -- A request: the lookups give the local and the remote answer to a question.
    unfoldable pub handle_request :
        (Address → Bool)
        → (Query → Outcome IoError Message)
        → (Query → Outcome IoError Message)
        → Message
        → C.LruCache
        → Outcome IoError Message × C.LruCache
    unfolding response_to answered acl_lookup
    handle_request bypassed local remote request cache = elim (P.queries request) [
      | [] ↦ (ok (P.set_form_err (response_to request)), cache)
      | question ∷ _ ↦
          answered question (response_to request) cache
            (acl_lookup bypassed (local question) (remote question) (P.name question))
    ]

    abbrev pub sent :
        Outcome IoError Message × C.LruCache → Outcome IoError (Option (List ℕ)) × C.LruCache
    sent (ok message, cache) = elim (P.to_vec message) [
      | ok res_buffer ↦ (ok (some res_buffer), cache)
      | err e ↦ (err e, cache)
      | panic ↦ (panic, cache)
    ]
    sent (err e, cache) = (err e, cache)
    sent (panic, cache) = (panic, cache)

    -- A round of the loop of `run`, on a datagram, with the datagram that it sends back: none to what is
    -- not a message. An error ends the loop.
    unfoldable pub handle_datagram :
        (Address → Bool)
        → (Query → Outcome IoError Message)
        → (Query → Outcome IoError Message)
        → List ℕ
        → C.LruCache
        → Outcome IoError (Option (List ℕ)) × C.LruCache
    unfolding handle_request
    handle_datagram bypassed local remote datagram cache = elim (P.from_vec (buffered datagram)) [
      | ok request ↦ sent (handle_request bypassed local remote request cache)
      | err e ↦ (ok none, cache)
      | panic ↦ (panic, cache)
    ]
