-- ===== src/DnsRelay.antt =====
-- relay/dnsrelay/mod.rs: the DNS relay, which asks a local name server and, through the SOCKS5 server, a
-- remote one. A query that takes too long is one that fails.
pub mod Streams
pub mod Answering
mod Tests
use shadowsocks_rust.Common.{
  ℕ, zero, suc, ◌-◌, ◌≤◌, ◌≡◌, ◌⊎◌, List, [], ◌∷◌, ◌++◌, length, take, Bool, true, Option, some,
}
use shadowsocks_rust.Common.Outcome.{Outcome, ◌>>=◌}
use shadowsocks_rust.Io.{IoError}
use shadowsocks_rust.Socks5.Address.{Ipv4Addr, Ipv6Addr, SocketAddr}
use shadowsocks_rust.Context.{IpAddr}

-- `RData`, as far as the relay looks at it.
pub data RData : Type 0 where
  a : Ipv4Addr → RData
  aaaa : Ipv6Addr → RData
  other_data : RData

-- The messages of the crate trust-dns-proto, with what is read of them and set in them, and their bytes.
-- A new message has no answers.
pub record Proto : Type 1 where
  pub Message : Type 0
  pub Name : Type 0
  pub Query : Type 0
  pub RecordType : Type 0
  pub Record : Type 0
  pub new_message : Message
  pub new_query : Query
  pub set_query_type : RecordType → Query → Query
  pub set_name : Name → Query → Query
  pub set_id : ℕ → Message → Message
  pub set_recursion_desired : Bool → Message → Message
  pub set_recursion_available : Bool → Message → Message
  pub set_response : Message → Message
  pub set_form_err : Message → Message
  pub set_serv_fail : Message → Message
  pub copy_response_code : Message → Message → Message
  pub add_query : Query → Message → Message
  pub add_answer : Record → Message → Message
  pub add_additional : Record → Message → Message
  pub id : Message → ℕ
  pub queries : Message → List Query
  pub answers : Message → List Record
  pub additionals : Message → List Record
  pub answer_count : Message → ℕ
  pub name : Query → Name
  pub query_type : Query → RecordType
  pub rdata : Record → RData
  pub to_string : Name → List ℕ
  pub to_ascii : Name → List ℕ
  pub to_vec : Message → Outcome IoError (List ℕ)
  pub from_vec : List ℕ → Outcome IoError Message
  pub answer_count-new_message : answer_count new_message ≡ 0

abbrev pub capacity : ℕ
capacity = 8192

-- The cache of the crate lru_time_cache: an entry that is there was inserted, and the entries inserted
-- last are there, as many as there is room for. `Recent c n k v` says that `v` was inserted for `k` and
-- that nothing else was but among the last `n` insertions.
pub record ReverseCache : Type 1 where
  pub LruCache : Type 0
  pub Recent : LruCache → ℕ → IpAddr → List ℕ → Type 0
  pub get : LruCache → IpAddr → Option (List ℕ)
  pub insert : LruCache → IpAddr → List ℕ → LruCache
  pub Recent-insert : (c : LruCache) (k : IpAddr) (v : List ℕ) → Recent (insert c k v) 1 k v
  pub Recent-insert_same :
      (c : LruCache) (n : ℕ) (k k' : IpAddr) (v : List ℕ)
      → Recent c n k v
      → Recent (insert c k' v) (suc n) k v
  pub get-Recent :
      (c : LruCache) (n : ℕ) (k : IpAddr) (v : List ℕ)
      → n ≤ capacity
      → Recent c n k v
      → get c k ≡ some v
  pub get-insert_only :
      (c : LruCache) (k k' : IpAddr) (v w : List ℕ)
      → get (insert c k v) k' ≡ some w
      → ((k' ≡ k) × (w ≡ v)) ⊎ (get c k' ≡ some w)

abbrev pub zeros : ℕ → List ℕ
zeros zero = []
zeros (suc n) = 0 ∷ zeros n

abbrev pub buffer_len : ℕ
buffer_len = 512

-- A buffer of zeros with some bytes at its front, those that do not fit cut off.
abbrev pub buffered : List ℕ → List ℕ
buffered bytes = take buffer_len bytes ++ zeros (buffer_len - length bytes)

module _ (P : Proto) where
  open P use {Message, Name, RecordType}

  -- The message that both lookups send.
  unfoldable pub query_message : Name → RecordType → Message
  query_message qname qtype =
      P.add_query (P.set_name qname (P.set_query_type qtype P.new_query))
        (P.set_recursion_desired true (P.set_id 6666 P.new_message))

  -- `udp_lookup`, where the network answers a datagram to an address with one.
  unfoldable pub udp_lookup :
      (SocketAddr → List ℕ → Outcome IoError (List ℕ))
      → Name
      → RecordType
      → SocketAddr
      → Outcome IoError Message
  unfolding query_message
  udp_lookup exchange qname qtype server = do
    req_buffer ← P.to_vec (query_message qname qtype)
    res ← exchange server req_buffer
    P.from_vec (buffered res)
