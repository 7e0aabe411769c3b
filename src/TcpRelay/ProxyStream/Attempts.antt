-- ===== src/TcpRelay/ProxyStream/Attempts.antt =====
-- The addresses that a connection through a server dials.
use mathlib.Core.List.{Mem, mem-cons_self, mem-cons_of_mem}
use shadowsocks_rust.Common.{
  ℕ, zero, suc, ◌≡◌, refl, List, [], ◌∷◌, false, Option, none, some, All, All-append,
}
use shadowsocks_rust.Common.Outcome.{Outcome, ok, err, panic}
use shadowsocks_rust.Io.{IoError}
use shadowsocks_rust.Socks5.Address.{SocketAddr, Address}
use shadowsocks_rust.Acl.{Matchers}
use shadowsocks_rust.Context.{ServerAddr, socket_addr, domain_name, Stepped, lookup_then, resolved}
use shadowsocks_rust.Config.{ServerConfig}
use shadowsocks_rust.Replay.{ConfigType}
use shadowsocks_rust.TcpRelay.ProxyStream.{
  Dialled, Network, Client, dial, connected, connected_one, connect_host, retry, retry_times,
  connect_proxy_server_internal, dialled_addr, connect_proxy_server, greeted, connect_proxied,
  proxied_wrapped, bypasses, connect, ProxyStream,
}

module _ {W A : Type 0} (Good : W → Type 0) (May : SocketAddr → Type 0)
    (body : SocketAddr → W → Stepped W A)
    (keeps : (a : SocketAddr) (w : W) → May a → Good w → Good ((body a w).1)) where
  abbrev next_try : List SocketAddr → SocketAddr → Stepped W A → Stepped W (SocketAddr × A)
  next_try addrs addr res = elim res.0 [
    | ok x ↦ (ok (addr, x), res.1)
    | err e ↦ lookup_then body addrs (some e) res.1
    | panic ↦ (panic, res.1)
  ]

  next_try-keeps :
      (addrs : List SocketAddr) (addr : SocketAddr) (r : Outcome IoError A) (w : W)
      → Good w
      → ((last : Option IoError) → Good ((lookup_then body addrs last w).1))
      → Good ((next_try addrs addr (r, w)).1)
  next_try-keeps addrs addr (ok x) w g later = g
  next_try-keeps addrs addr (err e) w g later = later (some e)
  next_try-keeps addrs addr panic w g later = g

  lookup_then-keeps :
      (addrs : List SocketAddr) (last : Option IoError) (w : W)
      → ((a : SocketAddr) → Mem a addrs → May a)
      → Good w
      → Good ((lookup_then body addrs last w).1)
  unfolding lookup_then
  lookup_then-keeps [] none w may g = g
  lookup_then-keeps [] (some e) w may g = g
  lookup_then-keeps (addr ∷ addrs) last w may g =
      let g' = keeps addr w (may addr mem-cons_self) g in
      next_try-keeps addrs addr (body addr w).0 (body addr w).1 g'
        (λ l. lookup_then-keeps addrs l (body addr w).1 (λ a m. may a (mem-cons_of_mem addr m)) g')

-- An address of the server: its own, or one that its name resolves to.
abbrev pub AddressOf : Network → ServerAddr → SocketAddr → Type 0
AddressOf net (socket_addr s) a = a ≡ s
AddressOf net (domain_name host port) a =
    (addrs : List SocketAddr) × (net.resolve host port ≡ ok addrs) × Mem a addrs

module _ (net : Network) (svr : ServerAddr) where
  abbrev pub OnlyServer : Dialled → Type 0
  OnlyServer dialled = All (AddressOf net svr) dialled

  dial-OnlyServer :
      (a : SocketAddr) (dialled : Dialled)
      → AddressOf net svr a
      → OnlyServer dialled
      → OnlyServer ((dial net a dialled).1)
  unfolding dial
  dial-OnlyServer a dialled h g = All-append (AddressOf net svr) dialled (a ∷ []) g (h, tt)

pub connected_same :
    (a : SocketAddr) (o : Outcome IoError (Unit {0})) (dialled : Dialled)
    → (connected a (o, dialled)).1 ≡ dialled
unfolding connected
connected_same a (ok u) dialled = refl
connected_same a (err e) dialled = refl
connected_same a panic dialled = refl

pub connected_one_same :
    (o : Outcome IoError (SocketAddr × Unit {0})) (dialled : Dialled)
    → (connected_one (o, dialled)).1 ≡ dialled
unfolding connected_one
connected_one_same (ok u) dialled = refl
connected_one_same (err e) dialled = refl
connected_one_same panic dialled = refl

module _ (net : Network) (svr : ServerAddr) where
  answered-OnlyServer :
      (answer : Outcome IoError (List SocketAddr)) (dialled : Dialled)
      → ((a : SocketAddr) (addrs : List SocketAddr)
          → answer ≡ ok addrs
          → Mem a addrs
          → AddressOf net svr a)
      → OnlyServer net svr dialled
      → OnlyServer net svr (
          (resolved answer
            (λ addrs d. lookup_then (λ addr d'. dial net addr d') addrs none d)
            dialled).1)
  unfolding resolved
  answered-OnlyServer (ok addrs) dialled may g =
      lookup_then-keeps (OnlyServer net svr) (AddressOf net svr) (λ addr d. dial net addr d)
        (λ a d h g'. dial-OnlyServer net svr a d h g') addrs none dialled
        (λ a m. may a addrs refl m) g
  answered-OnlyServer (err e) dialled may g = g
  answered-OnlyServer panic dialled may g = g

  host-OnlyServer :
      (host : List ℕ) (port : ℕ) (dialled : Dialled)
      → ((a : SocketAddr) (addrs : List SocketAddr)
          → net.resolve host port ≡ ok addrs
          → Mem a addrs
          → AddressOf net svr a)
      → OnlyServer net svr dialled
      → OnlyServer net svr ((connect_host net host port dialled).1)
  unfolding connect_host
  host-OnlyServer host port dialled may g =
      let res =
        resolved (net.resolve host port)
          (λ addrs d. lookup_then (λ addr d'. dial net addr d') addrs none d) dialled in
      rw (connected_one_same res.0 res.1)
        (answered-OnlyServer (net.resolve host port) dialled may g)

internal-OnlyServer :
    (net : Network) (svr : ServerAddr) (dialled : Dialled)
    → OnlyServer net svr dialled
    → OnlyServer net svr ((connect_proxy_server_internal net svr dialled).1)
unfolding connect_proxy_server_internal
internal-OnlyServer net (socket_addr s) dialled g =
    rw (connected_same s (dial net s dialled).0 (dial net s dialled).1)
      (dial-OnlyServer net (socket_addr s) s dialled refl g)
internal-OnlyServer net (domain_name host port) dialled g =
    host-OnlyServer net (domain_name host port) host port dialled (λ a addrs e m. (addrs, e, m)) g

module _ (net : Network) (svr : ServerAddr) where
  abbrev after_try : ℕ → Stepped Dialled SocketAddr → Stepped Dialled SocketAddr
  after_try n res = elim res.0 [
    | ok s ↦ (ok s, res.1)
    | err e ↦ retry net n (some e) svr res.1
    | panic ↦ (panic, res.1)
  ]

  after_try-OnlyServer :
      (n : ℕ) (r : Outcome IoError SocketAddr) (dialled : Dialled)
      → ((e : IoError) → OnlyServer net svr ((retry net n (some e) svr dialled).1))
      → OnlyServer net svr dialled
      → OnlyServer net svr ((after_try n (r, dialled)).1)
  after_try-OnlyServer n (ok s) dialled again g = g
  after_try-OnlyServer n (err e) dialled again g = again e
  after_try-OnlyServer n panic dialled again g = g

  retry-OnlyServer :
      (n : ℕ) (last : Option IoError) (dialled : Dialled)
      → OnlyServer net svr dialled
      → OnlyServer net svr ((retry net n last svr dialled).1)
  unfolding retry
  retry-OnlyServer zero none dialled g = g
  retry-OnlyServer zero (some e) dialled g = g
  retry-OnlyServer (suc n) last dialled g =
      let res = connect_proxy_server_internal net svr dialled in
      let g' = internal-OnlyServer net svr dialled g in
      after_try-OnlyServer n res.0 res.1 (λ e. retry-OnlyServer n (some e) res.1 g') g'

greeted_same :
    (net : Network) (addr : Address) (o : Outcome IoError SocketAddr) (dialled : Dialled)
    → (greeted net addr (o, dialled)).1 ≡ dialled
unfolding greeted
greeted_same net addr (ok a) dialled = refl
greeted_same net addr (err e) dialled = refl
greeted_same net addr panic dialled = refl

proxied_wrapped_same :
    (o : Outcome IoError ProxyStream) (dialled : Dialled)
    → (proxied_wrapped (o, dialled)).1 ≡ dialled
unfolding proxied_wrapped
proxied_wrapped_same (ok a) dialled = refl
proxied_wrapped_same (err e) dialled = refl
proxied_wrapped_same panic dialled = refl

server-OnlyServer :
    (net : Network) (ty : ConfigType) (cfg : ServerConfig) (svr : ServerAddr)
    → dialled_addr ty cfg ≡ some svr
    → OnlyServer net svr ((connect_proxy_server net ty cfg []).1)
unfolding connect_proxy_server
server-OnlyServer net ty cfg svr e =
    rw (e, connect_proxy_server) (retry-OnlyServer net svr retry_times none [] tt)

connect_proxied-OnlyServer :
    (net : Network) (ty : ConfigType) (cfg : ServerConfig) (addr : Address) (svr : ServerAddr)
    → dialled_addr ty cfg ≡ some svr
    → OnlyServer net svr ((connect_proxied net ty cfg addr []).1)
unfolding connect_proxied
connect_proxied-OnlyServer net ty cfg addr svr e =
    let res = connect_proxy_server net ty cfg [] in
    rw (greeted_same net addr res.0 res.1) (server-OnlyServer net ty cfg svr e)

-- If the access control list does not bypass a target, and the server is dialled at its own
-- address or its plugin's, then a connection to the target dials only that address, or
-- addresses that the resolver gives for its name, over all retries and whatever the network
-- answers.
pub proxied_connect-OnlyServer :
    (M : Matchers) (net : Network) (cl : Client M) (addr : Address) (svr : ServerAddr)
    → bypasses M cl addr ≡ false
    → dialled_addr cl.config_type cl.svr_cfg ≡ some svr
    → OnlyServer net svr ((connect M net cl addr []).1)
unfolding connect
proxied_connect-OnlyServer M net cl addr svr h e =
    let res = connect_proxied net cl.config_type cl.svr_cfg addr [] in
    rw (h, proxied_wrapped_same res.0 res.1)
      (connect_proxied-OnlyServer net cl.config_type cl.svr_cfg addr svr e)
