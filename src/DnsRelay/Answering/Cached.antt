-- ===== src/DnsRelay/Answering/Cached.antt =====
-- What the DNS relay leaves in the cache for the check of targets.
use shadowsocks_rust.Common.{
  ℕ, suc, ◌+◌, ◌≤◌, ◌≡◌, refl, ap, sym, arith, length, ◌∙◌, ◌⊎◌, inl, inr, List, [], ◌∷◌, Bool,
  true, Option, none, some,
}
use shadowsocks_rust.Common.Outcome.{Outcome, ok}
use shadowsocks_rust.Io.{IoError}
use shadowsocks_rust.Socks5.Address.{SocketAddr, Address, socket_address, domain_name_address}
use shadowsocks_rust.Acl.{Matchers, AccessControl}
use shadowsocks_rust.Acl as Acl
use shadowsocks_rust.Context as Context
use shadowsocks_rust.Context.{IpAddr, reverse_name, check_target_bypassed}
use shadowsocks_rust.DnsRelay.{Proto, ReverseCache, capacity}
use shadowsocks_rust.DnsRelay.Answering.{
  ip_of, cached, add_answers, answered, handle_request, acl_lookup, response_to,
}

bypassed_by_name :
    (M : Matchers) (android : Bool) (dns : List ℕ → ℕ → Option (List SocketAddr))
    (cache : IpAddr → Option (List ℕ)) (acl : AccessControl M) (target : SocketAddr) (w : List ℕ)
    → cache (Context.ip_of target) ≡ some w
    → Acl.check_target_bypassed M android dns acl (domain_name_address w 0) ≡ true
    → check_target_bypassed M android dns cache (some acl) (socket_address target) ≡ true
unfolding check_target_bypassed reverse_name
bypassed_by_name M android dns cache acl target w got h = rw (got, check_target_bypassed, h) refl

module _ (P : Proto) (C : ReverseCache) where
  open P use {Message, Name, Query, Record}

  -- An address that one of the records has.
  pub data HasAddress (ip : IpAddr) : List Record → Type 0 where
    here :
        {rec : Record} {recs : List Record}
        → ip_of (P.rdata rec) ≡ some ip
        → HasAddress ip (rec ∷ recs)
    there : {rec : Record} {recs : List Record} → HasAddress ip recs → HasAddress ip (rec ∷ recs)

  -- Each entry is from before, or is for an address of the records, with the name asked for.
  cached_only :
      (qname : Name) (rec : Record) (recs : List Record) (c : C.LruCache) (o : Option IpAddr)
      (ip : IpAddr) (w : List ℕ)
      → ip_of (P.rdata rec) ≡ o
      → C.get (cached P C c qname o) ip ≡ some w
      → (HasAddress ip (rec ∷ recs) × (w ≡ P.to_ascii qname)) ⊎ (C.get c ip ≡ some w)
  cached_only qname rec recs c none ip w eo e = inr e
  cached_only qname rec recs c (some k) ip w eo e =
      elim (C.get-insert_only c k ip (P.to_ascii qname) w e) [
        | inl (ek, ew) ↦ inl (here (eo ∙ ap some (sym ek)), ew)
        | inr old ↦ inr old
      ]

  add_answers_only :
      (qname : Name) (recs : List Record) (message : Message) (c : C.LruCache) (ip : IpAddr)
      (w : List ℕ)
      → C.get ((add_answers P C qname recs message c).1) ip ≡ some w
      → (HasAddress ip recs × (w ≡ P.to_ascii qname)) ⊎ (C.get c ip ≡ some w)
  unfolding add_answers
  add_answers_only qname [] message c ip w e = inr e
  add_answers_only qname (rec ∷ recs) message c ip w e =
      elim (add_answers_only qname recs (P.add_answer rec message)
        (cached P C c qname (ip_of (P.rdata rec))) ip w e) [
          | inl (h, ew) ↦ inl (there h, ew)
          | inr old ↦ cached_only qname rec recs c (ip_of (P.rdata rec)) ip w refl old
        ]

  -- After a number of insertions of one name the entry is still there.
  cached_again :
      (qname : Name) (c : C.LruCache) (o : Option IpAddr) (n : ℕ) (ip : IpAddr)
      → (m : ℕ) × (m ≤ n) × C.Recent c m ip (P.to_ascii qname)
      → (m : ℕ) × (m ≤ suc n) × C.Recent (cached P C c qname o) m ip (P.to_ascii qname)
  cached_again qname c none n ip (m, h, r) = (m, omega arith, r)
  cached_again qname c (some k) n ip (m, h, r) =
      (suc m, omega arith, C.Recent-insert_same c m ip k (P.to_ascii qname) r)

  add_answers_again :
      (qname : Name) (recs : List Record) (message : Message) (c : C.LruCache) (n : ℕ) (ip : IpAddr)
      → (m : ℕ) × (m ≤ n) × C.Recent c m ip (P.to_ascii qname)
      → (m : ℕ) × (m ≤ n + length recs)
        × C.Recent ((add_answers P C qname recs message c).1) m ip (P.to_ascii qname)
  unfolding add_answers
  add_answers_again qname [] message c n ip (m, h, r) = (m, omega arith, r)
  add_answers_again qname (rec ∷ recs) message c n ip old =
      let (m, h, r) =
        add_answers_again qname recs (P.add_answer rec message)
          (cached P C c qname (ip_of (P.rdata rec))) (suc n) ip
          (cached_again qname c (ip_of (P.rdata rec)) n ip old) in
      (m, omega arith, r)

  add_answers_has :
      (qname : Name) (recs : List Record) (message : Message) (c : C.LruCache) (ip : IpAddr)
      → HasAddress ip recs
      → (m : ℕ) × (m ≤ length recs)
        × C.Recent ((add_answers P C qname recs message c).1) m ip (P.to_ascii qname)
  unfolding add_answers
  add_answers_has qname (rec ∷ recs) message c ip (here e) =
      let (m, h, r) =
        add_answers_again qname recs (P.add_answer rec message)
          (cached P C c qname (ip_of (P.rdata rec))) 1 ip
          (1, omega arith, rw (e) (C.Recent-insert c ip (P.to_ascii qname))) in
      (m, omega arith, r)
  add_answers_has qname (rec ∷ recs) message c ip (there h) =
      let (m, hm, r) =
        add_answers_has qname recs (P.add_answer rec message)
          (cached P C c qname (ip_of (P.rdata rec))) ip h in
      (m, omega arith, r)
  add_answers_has qname [] message c ip h = elim h [ ]

  module _ (bypassed : Address → Bool) (local remote : Query → Outcome IoError Message)
      (request : Message) (cache : C.LruCache) (question : Query) (questions : List Query)
      (result : Message) (asked : P.queries request ≡ question ∷ questions)
      (found : acl_lookup P bypassed (local question) (remote question) (P.name question)
        ≡ ok result) where
    cache_lem :
        (handle_request P C bypassed local remote request cache).1
        ≡ (add_answers P C
            (P.name question)
            (P.answers result)
            (P.copy_response_code result (P.add_query question (response_to P request)))
            cache).1
    unfolding handle_request answered
    cache_lem = rw (asked, found, handle_request) refl

    -- Take a request to the DNS relay with a question that gets an answer. Each entry of the
    -- cache, once the request is handled, was there before, or is the name of the question at
    -- an address of the answer.
    pub dns_relay_names :
        (ip : IpAddr) (w : List ℕ)
        → C.get ((handle_request P C bypassed local remote request cache).1) ip ≡ some w
        → (HasAddress ip (P.answers result) × (w ≡ P.to_ascii (P.name question)))
          ⊎ (C.get cache ip ≡ some w)
    dns_relay_names ip w e =
        add_answers_only (P.name question) (P.answers result)
          (P.copy_response_code result (P.add_query question (response_to P request))) cache ip w
          (sym (ap (λ c. C.get c ip) cache_lem) ∙ e)

    -- Take a request to the DNS relay with a question that gets an answer of at most 8192
    -- records. If the access control list bypasses the name of the question, then, once the
    -- request is handled, the client bypasses every target at an address of the answer,
    -- whatever the list says of the address.
    pub dns_relay_bypasses :
        (M : Matchers) (android : Bool) (dns : List ℕ → ℕ → Option (List SocketAddr))
        (acl : AccessControl M) (target : SocketAddr)
        → length (P.answers result) ≤ capacity
        → Acl.check_target_bypassed M android dns acl
            (domain_name_address (P.to_ascii (P.name question)) 0)
          ≡ true
        → HasAddress (Context.ip_of target) (P.answers result)
        → check_target_bypassed M android dns
            (C.get ((handle_request P C bypassed local remote request cache).1))
            (some acl)
            (socket_address target)
          ≡ true
    dns_relay_bypasses M android dns acl target few name_bypassed has =
        let message = P.copy_response_code result (P.add_query question (response_to P request)) in
        let (m, hm, recent) =
          add_answers_has (P.name question) (P.answers result) message cache (Context.ip_of target)
            has in
        let c' = (add_answers P C (P.name question) (P.answers result) message cache).1 in
        let got =
          C.get-Recent c' m (Context.ip_of target) (P.to_ascii (P.name question))
            (omega (arith, hm, few)) recent in
        rw (cache_lem) (
          bypassed_by_name M android dns (C.get c') acl target (P.to_ascii (P.name question)) got
            name_bypassed)
