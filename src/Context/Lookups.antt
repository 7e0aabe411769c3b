-- ===== src/Context/Lookups.antt =====
-- The address that a lookup settles on.
use shadowsocks_rust.Common.{
  List, [], ◌∷◌, Bool, true, false, Option, none, some, ◌≡◌, refl, Bool-cases, inl, inr,
}
use shadowsocks_rust.Common.Outcome.{Outcome, ok, err, panic}
use shadowsocks_rust.Io.{IoError}
use shadowsocks_rust.Socks5.Address.{SocketAddr, socket_address}
use shadowsocks_rust.Acl.{Matchers, AccessControl}
use shadowsocks_rust.Acl as Acl
use shadowsocks_rust.Context.{
  Stepped, lookup_outbound_then, blocked_error, check_outbound_blocked,
  check_resolved_outbound_blocked,
}

module _ {W A : Type 0} (Good : W → Type 0) (blocked : SocketAddr → Bool)
    (body : SocketAddr → W → Stepped W A)
    (keeps : (a : SocketAddr) (w : W) → blocked a ≡ false → Good w → Good ((body a w).1)) where
  abbrev next_try : List SocketAddr → SocketAddr → Stepped W A → Stepped W (SocketAddr × A)
  next_try addrs addr res = elim res.0 [
    | ok x ↦ (ok (addr, x), res.1)
    | err e ↦ lookup_outbound_then blocked body addrs (some e) res.1
    | panic ↦ (panic, res.1)
  ]

  passes_over :
      (addr : SocketAddr) (addrs : List SocketAddr) (last : Option IoError) (w : W)
      → blocked addr ≡ true
      → lookup_outbound_then blocked body (addr ∷ addrs) last w
        ≡ lookup_outbound_then blocked body addrs (some blocked_error) w
  unfolding lookup_outbound_then
  passes_over addr addrs last w h = simp (h, lookup_outbound_then)

  tries :
      (addr : SocketAddr) (addrs : List SocketAddr) (last : Option IoError) (w : W)
      → blocked addr ≡ false
      → lookup_outbound_then blocked body (addr ∷ addrs) last w ≡ next_try addrs addr (body addr w)
  unfolding lookup_outbound_then
  tries addr addrs last w h = simp (h, lookup_outbound_then)

  next_try-keeps :
      (addrs : List SocketAddr) (addr : SocketAddr) (r : Outcome IoError A) (w : W)
      → Good w
      → ((last : Option IoError) → Good ((lookup_outbound_then blocked body addrs last w).1))
      → Good ((next_try addrs addr (r, w)).1)
  next_try-keeps addrs addr (ok x) w g later = g
  next_try-keeps addrs addr (err e) w g later = later (some e)
  next_try-keeps addrs addr panic w g later = g

  -- What the body keeps on every address that is not blocked is kept by the loop.
  pub lookup_outbound_then-keeps :
      (addrs : List SocketAddr) (last : Option IoError) (w : W)
      → Good w
      → Good ((lookup_outbound_then blocked body addrs last w).1)
  unfolding lookup_outbound_then
  lookup_outbound_then-keeps [] none w g = g
  lookup_outbound_then-keeps [] (some e) w g = g
  lookup_outbound_then-keeps (addr ∷ addrs) last w g = elim (Bool-cases (blocked addr)) [
    | inl h ↦
        rw (passes_over addr addrs last w h)
          (lookup_outbound_then-keeps addrs (some blocked_error) w g)
    | inr h ↦ rw (tries addr addrs last w h) (
        next_try-keeps addrs addr (body addr w).0 (body addr w).1 (keeps addr w h g)
          (λ l. lookup_outbound_then-keeps addrs l (body addr w).1 (keeps addr w h g)))
  ]

module _ (M : Matchers) where
  -- An address is blocked itself as it is when a name resolves to it.
  pub blocked_same :
      (acl : Option (AccessControl M)) (addr : SocketAddr)
      → check_outbound_blocked M acl (socket_address addr)
        ≡ check_resolved_outbound_blocked M acl addr
  unfolding check_outbound_blocked check_resolved_outbound_blocked Acl.check_outbound_blocked
      Acl.check_resolved_outbound_blocked Acl.check_address_matched
  blocked_same none addr = refl
  blocked_same (some a) addr = refl
