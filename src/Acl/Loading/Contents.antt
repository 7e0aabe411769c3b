-- ===== src/Acl/Loading/Contents.antt =====
-- What `load_from_file` puts into each list, described line by line.
use Prim.Native.String.{String}
use shadowsocks_rust.Common.{
  ℕ, ◌≡◌, refl, List, [], ◌∷◌, ◌++◌, Bool, true, false, ◌&&◌, ◌||◌, none, some, inl, inr,
  if◌then◌else◌, arith,
}
use shadowsocks_rust.Socks5.Address.{Ipv4Addr, Ipv6Addr}
use shadowsocks_rust.Acl.{Matchers, Mode, any}
use shadowsocks_rust.Acl.Loading.{
  ListName, outbound, bypass, proxy, Line, skipped, sets_mode, opens, rule, classify, Builder,
  Loader, builder_of, load_line, add_rule, write_through,
}

abbrev pub same : ListName → ListName → Bool
same outbound outbound = true
same bypass bypass = true
same proxy proxy = true
same _ _ = false

-- The list that is open behind a line.
abbrev pub opened : Line → ListName → ListName
opened (opens name) cur = name
opened _ cur = cur

abbrev pub is_rule : Line → Bool
is_rule rule = true
is_rule _ = false

Line-cases :
    (P : Line → Type 0)
    → P skipped
    → ((m : Mode) → P (sets_mode m))
    → ((n : ListName) → P (opens n))
    → P rule
    → (k : Line) → P k
Line-cases P a b c d skipped = a
Line-cases P a b c d (sets_mode m) = b m
Line-cases P a b c d (opens n) = c n
Line-cases P a b c d rule = d

module _ (M : Matchers) where
  open M use {
    parse_net, parse_ip, net4_of, net6_of, in_net4, in_net6, contains4, contains6, matches,
    regex_set, contains-add4, contains-add6, contains-new4, contains-new6, contains-simplify4,
    contains-simplify6, is_match-regex_set,
  }

  -- Whether a rule's text names the address: as a network, or else as a single address.
  abbrev pub names4 : String → Ipv4Addr → Bool
  names4 line a = elim (parse_net line) [
    | some (inl n) ↦ in_net4 n a
    | some (inr n) ↦ false
    | none ↦ elim (parse_ip line) [ some (inl ip) ↦ in_net4 (net4_of ip) a | _ ↦ false ]
  ]

  abbrev pub names6 : String → Ipv6Addr → Bool
  names6 line a = elim (parse_net line) [
    | some (inl n) ↦ false
    | some (inr n) ↦ in_net6 n a
    | none ↦ elim (parse_ip line) [ some (inr ip) ↦ in_net6 (net6_of ip) a | _ ↦ false ]
  ]

  -- A rule that is neither is a pattern for host names.
  abbrev pub is_pattern : String → Bool
  is_pattern line = elim (parse_net line) [
    | some _ ↦ false
    | none ↦ elim (parse_ip line) [ some _ ↦ false | none ↦ true ]
  ]

  -- Whether a rule of the list `name` names the address, with the list `cur` open before the lines.
  unfoldable pub listed4 : ListName → ListName → List String → Ipv4Addr → Bool
  listed4 name cur [] a = false
  listed4 name cur (line ∷ lines) a =
      (is_rule (classify line) && same name cur && names4 line a)
      || listed4 name (opened (classify line) cur) lines a

  unfoldable pub listed6 : ListName → ListName → List String → Ipv6Addr → Bool
  listed6 name cur [] a = false
  listed6 name cur (line ∷ lines) a =
      (is_rule (classify line) && same name cur && names6 line a)
      || listed6 name (opened (classify line) cur) lines a

  unfoldable pub listed_host : ListName → ListName → List String → List ℕ → Bool
  listed_host name cur [] host = false
  listed_host name cur (line ∷ lines) host =
      (is_rule (classify line) && same name cur && is_pattern line && matches line host)
      || listed_host name (opened (classify line) cur) lines host

  unfoldable pub in4 : ListName → Loader M → Ipv4Addr → Bool
  in4 name l a = contains4 (builder_of M name l).ipv4 a

  -- A write to the list `cur` seen from the list `name`.
  builder-write_through :
      (name cur : ListName) (f : Builder M → Builder M) (l : Loader M)
      → builder_of M name (write_through M cur f l)
        ≡ (if same name cur then f (builder_of M name l) else builder_of M name l)
  builder-write_through outbound outbound f l = refl
  builder-write_through outbound bypass f l = refl
  builder-write_through outbound proxy f l = refl
  builder-write_through bypass outbound f l = refl
  builder-write_through bypass bypass f l = refl
  builder-write_through bypass proxy f l = refl
  builder-write_through proxy outbound f l = refl
  builder-write_through proxy bypass f l = refl
  builder-write_through proxy proxy f l = refl

  add_rule-in4 :
      (name : ListName) (line : String) (l : Loader M) (a : Ipv4Addr)
      → in4 name (add_rule M line l) a ≡ (in4 name l a || (same name l.curr_ipv4 && names4 line a))
  unfolding in4 add_rule
  add_rule-in4 name line l a = grind (arith, contains-add4, builder-write_through)

  unfoldable pub in6 : ListName → Loader M → Ipv6Addr → Bool
  in6 name l a = contains6 (builder_of M name l).ipv6 a

  add_rule-in6 :
      (name : ListName) (line : String) (l : Loader M) (a : Ipv6Addr)
      → in6 name (add_rule M line l) a ≡ (in6 name l a || (same name l.curr_ipv6 && names6 line a))
  unfolding in6 add_rule
  add_rule-in6 name line l a = grind (arith, contains-add6, builder-write_through)

  unfoldable pub in_rules : ListName → Loader M → List ℕ → Bool
  in_rules name l host = any (λ r. matches r host) (builder_of M name l).rules

  any-append : (p : String → Bool) (xs ys : List String) → any p (xs ++ ys) ≡ (any p xs || any p ys)
  any-append p [] ys = refl
  any-append p (x ∷ xs) ys = ground (arith, any-append p xs ys)

  add_rule-in_rules :
      (name : ListName) (line : String) (l : Loader M) (host : List ℕ)
      → in_rules name (add_rule M line l) host
        ≡ (in_rules name l host || (same name l.curr_rules && is_pattern line && matches line host))
  unfolding in_rules add_rule
  add_rule-in_rules name line l host =
      grind (arith, any-append (λ r. matches r host), builder-write_through)

  pub load_line-in4 :
      (name : ListName) (line : String) (l : Loader M) (a : Ipv4Addr)
      → in4 name (load_line M line l) a
        ≡ (in4 name l a || (is_rule (classify line) && same name l.curr_ipv4 && names4 line a))
  unfolding load_line in4
  load_line-in4 name line l a = ground (arith, add_rule-in4 name line l a)

  pub load_line-in6 :
      (name : ListName) (line : String) (l : Loader M) (a : Ipv6Addr)
      → in6 name (load_line M line l) a
        ≡ (in6 name l a || (is_rule (classify line) && same name l.curr_ipv6 && names6 line a))
  unfolding load_line in6
  load_line-in6 name line l a = ground (arith, add_rule-in6 name line l a)

  pub load_line-in_rules :
      (name : ListName) (line : String) (l : Loader M) (host : List ℕ)
      → in_rules name (load_line M line l) host ≡ (
          in_rules name l host
          || (is_rule (classify line)
              && same name l.curr_rules
              && is_pattern line
              && matches line host))
  unfolding load_line in_rules
  load_line-in_rules name line l host = ground (arith, add_rule-in_rules name line l host)

  add_rule_keeps :
      (line : String) (l : Loader M)
      → (((add_rule M line l).curr_ipv4 ≡ l.curr_ipv4)
          × ((add_rule M line l).curr_ipv6 ≡ l.curr_ipv6))
        × ((add_rule M line l).curr_rules ≡ l.curr_rules)
        × ((add_rule M line l).mode ≡ l.mode)
  unfolding add_rule
  add_rule_keeps line l = ground arith

  pub load_line_opens :
      (line : String) (l : Loader M)
      → ((load_line M line l).curr_ipv4 ≡ opened (classify line) l.curr_ipv4)
        × ((load_line M line l).curr_ipv6 ≡ opened (classify line) l.curr_ipv6)
        × ((load_line M line l).curr_rules ≡ opened (classify line) l.curr_rules)
  unfolding load_line
  load_line_opens line l = ground (arith, add_rule_keeps line l)
