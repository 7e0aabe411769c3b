-- ===== src/Acl/Verdicts.antt =====
-- What the checks of acl/mod.rs decide about a target, by the lines of the file that was loaded.
use Prim.Native.String.{String}
use mathlib.Core.List.{map}
use shadowsocks_rust.Common.{
  ℕ, ◌≡◌, refl, sym, ap, ◌∙◌, List, [], ◌∷◌, ◌++◌, All, Bool, true, false, ◌&&◌, not, Option, none,
  some, ◌⊎◌, inl, inr, ◌==◌, if◌then◌else◌, Bool-cases, arith,
}
use shadowsocks_rust.Common.Outcome.{ok}
use shadowsocks_rust.Socks5.Address.{SocketAddr, Address, socket_address, domain_name_address, port}
use shadowsocks_rust.Acl.{
  Matchers, Mode, black_list, white_list, AccessControl, check_ip_matched, check_address_matched,
  resolved_verdict, default_verdict, check_target_bypassed, host_verdict,
}
use shadowsocks_rust.Acl.Loading.{bypass, proxy, load_from_file}
use shadowsocks_rust.Acl.Loading.Loaded.{listed, loaded_listed}
use shadowsocks_rust.Acl.Loading.Modes.{LastMode, loaded-LastMode}

-- The addresses that the host of a target resolves to, where it has a host.
abbrev pub resolved : (List ℕ → ℕ → Option (List SocketAddr)) → Address → List SocketAddr
resolved dns_resolve (socket_address _) = []
resolved dns_resolve (domain_name_address host p) = elim (dns_resolve host p) [
  | none ↦ []
  | some vaddr ↦ vaddr
]

module _ (M : Matchers) (texts : List String) where
  -- What the rules of the file say of an address: to bypass it, or not to.
  abbrev pub Says : Bool → Address → Type 0
  Says true addr = listed M bypass texts addr ≡ true
  Says false addr = (listed M bypass texts addr ≡ false) × (listed M proxy texts addr ≡ true)

  abbrev pub SaysNothing : Address → Type 0
  SaysNothing addr = (listed M bypass texts addr ≡ false) × (listed M proxy texts addr ≡ false)

  abbrev pub NothingOf : List SocketAddr → Type 0
  NothingOf vaddr = All (λ a. SaysNothing (socket_address a)) vaddr

  -- Whether a target is to be bypassed.
  pub data Verdict (android : Bool) (dns_resolve : List ℕ → ℕ → Option (List SocketAddr))
      (addr : Address) : Bool → Type 0 where
    dns_port : android ≡ true → port addr ≡ 53 → Verdict android dns_resolve addr false
    in_list :
        {v : Bool}
        → ¬ ((android ≡ true) × (port addr ≡ 53))
        → Says v addr
        → Verdict android dns_resolve addr v
    resolves :
        {v : Bool} (before : List SocketAddr) (a : SocketAddr) (after : List SocketAddr)
        → android ≡ false
        → SaysNothing addr
        → resolved dns_resolve addr ≡ before ++ (a ∷ after)
        → NothingOf before
        → Says v (socket_address a)
        → Verdict android dns_resolve addr v
    bypassed_by_mode :
        ¬ ((android ≡ true) × (port addr ≡ 53))
        → SaysNothing addr
        → ((android ≡ true) ⊎ NothingOf (resolved dns_resolve addr))
        → LastMode black_list texts white_list
        → Verdict android dns_resolve addr true
    proxied_by_mode :
        ¬ ((android ≡ true) × (port addr ≡ 53))
        → SaysNothing addr
        → ((android ≡ true) ⊎ NothingOf (resolved dns_resolve addr))
        → LastMode black_list texts black_list
        → Verdict android dns_resolve addr false

  module _ (acl : AccessControl M) (loads : load_from_file M (map ok texts) ≡ ok acl) where
    black_listed :
        (addr : Address) → check_address_matched M acl.black addr ≡ listed M bypass texts addr
    black_listed addr = loaded_listed M texts acl bypass addr loads

    white_listed :
        (addr : Address) → check_address_matched M acl.white addr ≡ listed M proxy texts addr
    white_listed addr = loaded_listed M texts acl proxy addr loads

    -- What the loop over the resolved addresses finds.
    abbrev FindsIn : List SocketAddr → Option Bool → Type 0
    FindsIn vaddr o =
        ((before : List SocketAddr) × (a : SocketAddr) × (after : List SocketAddr) × (v : Bool)
          × (vaddr ≡ before ++ (a ∷ after))
          × NothingOf before
          × Says v (socket_address a)
          × (o ≡ some v))
        ⊎ (NothingOf vaddr × (o ≡ none))

    settled_later :
        (addr : SocketAddr) (vaddr : List SocketAddr) (o : Option Bool)
        → SaysNothing (socket_address addr)
        → FindsIn vaddr o
        → FindsIn (addr ∷ vaddr) o
    settled_later addr vaddr o h (inl (before, a, after, v, split, quiet, says, e)) =
        inl (addr ∷ before, a, after, v, ap (◌∷◌ addr) split, (h, quiet), says, e)
    settled_later addr vaddr o h (inr (quiet, e)) = inr ((h, quiet), e)

    resolved_verdict-FindsIn :
        (vaddr : List SocketAddr) → FindsIn vaddr (resolved_verdict M acl vaddr)
    unfolding resolved_verdict check_address_matched
    resolved_verdict-FindsIn [] = inr (tt, refl)
    resolved_verdict-FindsIn (addr ∷ vaddr) =
        elim (Bool-cases (check_ip_matched M acl.black addr)) [
          | inl b ↦
              rw (b, resolved_verdict)
                (inl (
                  [],
                  addr,
                  vaddr,
                  true,
                  refl,
                  tt,
                  sym (black_listed (socket_address addr)) ∙ b,
                  refl,
                ))
          | inr b ↦ elim (Bool-cases (check_ip_matched M acl.white addr)) [
            | inl w ↦
                rw (b, w, resolved_verdict)
                  (inl (
                    [],
                    addr,
                    vaddr,
                    false,
                    refl,
                    tt,
                    (
                      sym (black_listed (socket_address addr)) ∙ b,
                      sym (white_listed (socket_address addr)) ∙ w,
                    ),
                    refl,
                  ))
            | inr w ↦
                rw (b, w, resolved_verdict)
                  (settled_later addr vaddr (resolved_verdict M acl vaddr)
                    (
                      sym (black_listed (socket_address addr)) ∙ b,
                      sym (white_listed (socket_address addr)) ∙ w,
                    )
                    (resolved_verdict-FindsIn vaddr))
          ]
        ]

    by_mode :
        (android : Bool) (dns_resolve : List ℕ → ℕ → Option (List SocketAddr)) (addr : Address)
        (m : Mode)
        → ¬ ((android ≡ true) × (port addr ≡ 53))
        → SaysNothing addr
        → ((android ≡ true) ⊎ NothingOf (resolved dns_resolve addr))
        → LastMode black_list texts m
        → Verdict android dns_resolve addr (default_verdict M m)
    unfolding default_verdict
    by_mode android dns_resolve addr white_list no_dns h quiet last =
        bypassed_by_mode no_dns h quiet last
    by_mode android dns_resolve addr black_list no_dns h quiet last =
        proxied_by_mode no_dns h quiet last

    settled-Verdict :
        (dns_resolve : List ℕ → ℕ → Option (List SocketAddr)) (addr : Address) (o : Option Bool)
        → SaysNothing addr
        → FindsIn (resolved dns_resolve addr) o
        → Verdict false dns_resolve addr (elim o [ some v ↦ v | none ↦ default_verdict M acl.mode ])
    settled-Verdict dns_resolve addr o h (inl (before, a, after, v, split, quiet, says, e)) =
        rw (e) (resolves before a after refl h split quiet says)
    settled-Verdict dns_resolve addr o h (inr (quiet, e)) = rw (e) (
        by_mode false dns_resolve addr acl.mode (λ d. cc) h (inr quiet)
          (loaded-LastMode M texts acl loads))

    host_verdict-FindsIn :
        (dns_resolve : List ℕ → ℕ → Option (List SocketAddr)) (addr : Address)
        → FindsIn (resolved dns_resolve addr) (host_verdict M dns_resolve acl addr)
    unfolding host_verdict
    host_verdict-FindsIn dns_resolve (socket_address _) = inr (tt, refl)
    host_verdict-FindsIn dns_resolve (domain_name_address host p) = go (dns_resolve host p)
      where
        go :
            (o : Option (List SocketAddr))
            → FindsIn
                (elim o [ none ↦ [] | some vaddr ↦ vaddr ])
                (elim o [ none ↦ none | some vaddr ↦ resolved_verdict M acl vaddr ])
        go none = inr (tt, refl)
        go (some vaddr) = resolved_verdict-FindsIn vaddr

    -- Behind the test of the port.
    abbrev listed_verdict : Bool → (List ℕ → ℕ → Option (List SocketAddr)) → Address → Bool
    listed_verdict android dns_resolve addr =
        if check_address_matched M acl.black addr
        then true
        else if check_address_matched M acl.white addr
        then false
        else elim (if not android then host_verdict M dns_resolve acl addr else none) [
          | some verdict ↦ verdict
          | none ↦ default_verdict M acl.mode
        ]

    unlisted-Verdict :
        (android : Bool) (dns_resolve : List ℕ → ℕ → Option (List SocketAddr)) (addr : Address)
        → ¬ ((android ≡ true) × (port addr ≡ 53))
        → SaysNothing addr
        → Verdict android dns_resolve addr
            (elim (if not android then host_verdict M dns_resolve acl addr else none) [
              | some verdict ↦ verdict
              | none ↦ default_verdict M acl.mode
            ])
    unlisted-Verdict true dns_resolve addr no_dns h =
        by_mode true dns_resolve addr acl.mode no_dns h (inl refl)
          (loaded-LastMode M texts acl loads)
    unlisted-Verdict false dns_resolve addr no_dns h =
        settled-Verdict dns_resolve addr (host_verdict M dns_resolve acl addr) h
          (host_verdict-FindsIn dns_resolve addr)

    listed-Verdict :
        (android : Bool) (dns_resolve : List ℕ → ℕ → Option (List SocketAddr)) (addr : Address)
        → ¬ ((android ≡ true) × (port addr ≡ 53))
        → Verdict android dns_resolve addr (listed_verdict android dns_resolve addr)
    listed-Verdict android dns_resolve addr no_dns =
        elim (Bool-cases (check_address_matched M acl.black addr)) [
          | inl b ↦ rw (b) (in_list no_dns (sym (black_listed addr) ∙ b))
          | inr b ↦ elim (Bool-cases (check_address_matched M acl.white addr)) [
            | inl w ↦
                rw (b, w)
                  (in_list no_dns (sym (black_listed addr) ∙ b, sym (white_listed addr) ∙ w))
            | inr w ↦
                rw (b, w)
                  (unlisted-Verdict android dns_resolve addr no_dns
                    (sym (black_listed addr) ∙ b, sym (white_listed addr) ∙ w))
          ]
        ]

    -- Take an access control list that the lines of a file load to. A TCP DNS target, of port
    -- 53 on Android, is proxied. Any other that the rules of the bypass list name is bypassed,
    -- and one that only those of the proxy list name is proxied. For a host name in neither
    -- list, but on Android, the first of its resolved addresses that is in a list decides in
    -- the same way. If there is none, the target is bypassed if the last mode line is
    -- `[reject_all]` or `[bypass_all]`, and proxied if it is `[accept_all]` or `[proxy_all]` or
    -- there is none.
    pub loaded-Verdict :
        (android : Bool) (dns_resolve : List ℕ → ℕ → Option (List SocketAddr)) (addr : Address)
        → Verdict android dns_resolve addr (check_target_bypassed M android dns_resolve acl addr)
    unfolding check_target_bypassed
    loaded-Verdict android dns_resolve addr = elim (Bool-cases (android && port addr == 53)) [
      | inl d ↦ rw (d, check_target_bypassed) (dns_port (ground (arith, d)) (ground (arith, d)))
      | inr d ↦
          rw (d, check_target_bypassed)
            (listed-Verdict android dns_resolve addr (λ both. ground (arith, d, both)))
    ]
