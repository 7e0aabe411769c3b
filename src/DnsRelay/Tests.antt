-- ===== src/DnsRelay/Tests.antt =====
-- A relay whose messages are the names asked for and the addresses answered, with a cache that forgets
-- nothing, and an access control list that bypasses every name.
use native.Mathlib.Decide.{ℕ_discrete}
use shadowsocks_rust.Common.{
  ℕ, ◌≡◌, refl, ◌⊎◌, inl, inr, List, [], ◌∷◌, ◌++◌, length, arith, true, false, Option, none, some,
}
use shadowsocks_rust.Common.Outcome.{ok}
use shadowsocks_rust.Socks5.Address.{Ipv4Addr, SocketAddr, v4, socket_address, domain_name_address}
use shadowsocks_rust.Acl.{AccessControl, black_list, check_address_matched}
use shadowsocks_rust.Acl as Acl
use shadowsocks_rust.Acl.Tests.{toy, ip_10}
use shadowsocks_rust.Context.{IpAddr, ipv4, check_target_bypassed}
use shadowsocks_rust.TcpRelay.Socks5Local.Exchange.{fresh}
use shadowsocks_rust.DnsRelay.{Proto, ReverseCache, a, query_message}
use shadowsocks_rust.DnsRelay.Streams.{stream_query}
use shadowsocks_rust.DnsRelay.Streams.Replies.{StreamReply, stream_query-StreamReply}
use shadowsocks_rust.DnsRelay.Answering.{
  acl_lookup, add_answers, answered, handle_request, ip_bypassed, pick, record_bypassed,
}
use shadowsocks_rust.DnsRelay.Answering.Cached.{
  HasAddress, here, dns_relay_names, dns_relay_bypasses,
}

Ip-discrete : Discrete IpAddr
Ip-discrete = hlevel ℕ_discrete

abbrev settle : {k k' : IpAddr} → Dec (k' ≡ k) → Option (List ℕ) → Option (List ℕ) → Option (List ℕ)
settle (yes e) x y = x
settle (no n) x y = y

settle_same : {k : IpAddr} (d : Dec (k ≡ k)) (x y : Option (List ℕ)) → settle d x y ≡ x
settle_same (yes e) x y = refl
settle_same (no n) x y = absurd (n refl)

settle_both : {k k' : IpAddr} (d : Dec (k' ≡ k)) (x y : Option (List ℕ)) → y ≡ x → settle d x y ≡ x
settle_both (yes e) x y h = refl
settle_both (no n) x y h = h

settle_only :
    {k k' : IpAddr} (d : Dec (k' ≡ k)) (v w : List ℕ) (y : Option (List ℕ))
    → settle d (some v) y ≡ some w
    → ((k' ≡ k) × (w ≡ v)) ⊎ (y ≡ some w)
settle_only (yes e) v w y h = inl (e, cc)
settle_only (no n) v w y h = inr h

abbrev put : (IpAddr → Option (List ℕ)) → IpAddr → List ℕ → IpAddr → Option (List ℕ)
put c k v k' = settle (Ip-discrete k' k) (some v) (c k')

abbrev full_cache : ReverseCache
full_cache = record {
  LruCache = IpAddr → Option (List ℕ);
  Recent = λ c n k v. c k ≡ some v;
  get = λ c k. c k;
  insert = put;
  Recent-insert = λ c k v. settle_same (Ip-discrete k k) (some v) (c k);
  Recent-insert_same = λ c n k k' v h. settle_both (Ip-discrete k k') (some v) (c k) h;
  get-Recent = λ c n k v few h. h;
  get-insert_only = λ c k k' v w h. settle_only (Ip-discrete k' k) v w (c k') h;
}

abbrev proto : Proto
proto = record {
  Message = List (List ℕ) × List Ipv4Addr;
  Name = List ℕ;
  Query = List ℕ;
  RecordType = Unit {0};
  Record = Ipv4Addr;
  new_message = ([], []);
  new_query = [];
  set_query_type = λ t q. q;
  set_name = λ n q. n;
  set_id = λ i m. m;
  set_recursion_desired = λ b m. m;
  set_recursion_available = λ b m. m;
  set_response = λ m. m;
  set_form_err = λ m. m;
  set_serv_fail = λ m. m;
  copy_response_code = λ from m. m;
  add_query = λ q m. (m.0 ++ (q ∷ []), m.1);
  add_answer = λ r m. (m.0, m.1 ++ (r ∷ []));
  add_additional = λ r m. m;
  id = λ m. 0;
  queries = λ m. m.0;
  answers = λ m. m.1;
  additionals = λ m. [];
  answer_count = λ m. length m.1;
  name = λ q. q;
  query_type = λ q. tt;
  rdata = λ r. a r;
  to_string = λ n. n;
  to_ascii = λ n. n;
  to_vec = λ m. ok (elim m.0 [ [] ↦ [] | q ∷ _ ↦ q ]);
  from_vec = λ b. ok (b ∷ [], []);
  answer_count-new_message = refl;
}

abbrev site : List ℕ
site = 0x61 ∷ []

abbrev all_names : AccessControl toy
all_names = record {
  outbound_block = record { ipv4 = []; ipv6 = []; rule = [] };
  black = record { ipv4 = []; ipv6 = []; rule = "a" ∷ [] };
  white = record { ipv4 = []; ipv6 = []; rule = [] };
  mode = black_list;
}

abbrev question : List (List ℕ) × List Ipv4Addr
question = (site ∷ [], [])

abbrev answer : List (List ℕ) × List Ipv4Addr
answer = (site ∷ [], ip_10 ∷ [])

abbrev target : SocketAddr
target = v4 (record { ip = ip_10; port = 443 })

abbrev empty : IpAddr → Option (List ℕ)
empty ip = none

picked : acl_lookup proto (λ addr. false) (ok answer) (ok answer) site ≡ ok answer
unfolding acl_lookup pick ip_bypassed record_bypassed
picked = refl

site_bypassed :
    Acl.check_target_bypassed toy false (λ h p. none) all_names (domain_name_address site 0) ≡ true
unfolding Acl.check_target_bypassed check_address_matched Acl.check_host_matched
site_bypassed = refl

cached_site :
    (handle_request proto full_cache
        (λ addr. false)
        (λ q. ok answer)
        (λ q. ok answer)
        question
        empty).1
      (ipv4 ip_10)
    ≡ some site
unfolding handle_request answered add_answers acl_lookup pick ip_bypassed record_bypassed
cached_site = settle_same (Ip-discrete (ipv4 ip_10) (ipv4 ip_10)) (some site) none

asked : proto.to_vec (query_message proto site tt) ≡ ok site
unfolding query_message
asked = refl

dns_relay_names_example :
    (HasAddress proto full_cache (ipv4 ip_10) (ip_10 ∷ []) × (site ≡ site))
    ⊎ (empty (ipv4 ip_10) ≡ some site)
dns_relay_names_example =
    dns_relay_names proto full_cache (λ addr. false) (λ q. ok answer) (λ q. ok answer) question
      empty site [] answer refl picked (ipv4 ip_10) site cached_site

dns_relay_bypasses_example :
    check_target_bypassed toy false
      (λ h p. none)
      ((handle_request proto full_cache
        (λ addr. false)
        (λ q. ok answer)
        (λ q. ok answer)
        question
        empty).1)
      (some all_names)
      (socket_address target)
    ≡ true
dns_relay_bypasses_example =
    dns_relay_bypasses proto full_cache (λ addr. false) (λ q. ok answer) (λ q. ok answer) question
      empty site [] answer refl picked toy false (λ h p. none) all_names target (omega arith)
      site_bypassed (here refl)

stream_query-StreamReply_example : StreamReply proto site (0 ∷ 1 ∷ 7 ∷ []) (
    (stream_query proto
      (record { peer_addr = ok target; write_all = λ b x. ok tt })
      site
      tt
      (fresh (0 ∷ 1 ∷ 7 ∷ []))).0)
stream_query-StreamReply_example =
    stream_query-StreamReply proto (record { peer_addr = ok target; write_all = λ b x. ok tt }) site
      tt (fresh (0 ∷ 1 ∷ 7 ∷ [])) site (λ b x. refl) asked
