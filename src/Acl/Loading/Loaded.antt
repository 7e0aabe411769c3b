-- ===== src/Acl/Loading/Loaded.antt =====
-- The whole of `load_from_file`: the three lists and the mode of the access control that it returns.
use Prim.Native.String.{String}
use mathlib.Core.List.{map}
use shadowsocks_rust.Common.{ℕ, ◌≡◌, refl, ap, ◌∙◌, List, [], ◌∷◌, ◌++◌, Bool, false}
use shadowsocks_rust.Common.Outcome.{Outcome, ok, err}
use shadowsocks_rust.Io.{IoError}
use shadowsocks_rust.Socks5.Address.{
  Ipv4Addr, Ipv6Addr, v4, v6, Address, socket_address, domain_name_address,
}
use shadowsocks_rust.Acl.{
  Matchers, black_list, Rules, new_rules, AccessControl, check_ip_matched, check_host_matched,
  check_address_matched,
}
use shadowsocks_rust.Acl.Loading.{
  ListName, outbound, bypass, proxy, Loader, new_loader, load_line, load_lines, load_from_file,
}
use shadowsocks_rust.Acl.Loading.Contents.{listed4, listed6, listed_host, in4, in6, in_rules}
use shadowsocks_rust.Acl.Loading.Folded.{
  load_all, load_lines-load_all, load_all-in4, load_all-in6, load_all-in_rules, load_all-mode,
  Finished, finish-Finished, last_mode,
}

module _ (M : Matchers) where
  open M use {
    Regex, contains-new4, contains-new6, contains-simplify4, contains-simplify6, is_match-regex_set,
  }

  abbrev pub list_of : ListName → AccessControl M → Rules M
  list_of outbound acl = acl.outbound_block
  list_of bypass acl = acl.black
  list_of proxy acl = acl.white

  -- Before the first section networks are for the bypass list, and patterns for the proxy list.
  abbrev pub listed : ListName → List String → Address → Bool
  listed name texts (socket_address (v4 a)) = listed4 M name bypass texts a.ip
  listed name texts (socket_address (v6 a)) = listed6 M name bypass texts a.ip
  listed name texts (domain_name_address host _) = listed_host M name proxy texts host

  new-in4 : (name : ListName) (a : Ipv4Addr) → in4 M name (new_loader M) a ≡ false
  unfolding in4 new_loader
  new-in4 outbound a = contains-new4 a
  new-in4 bypass a = contains-new4 a
  new-in4 proxy a = contains-new4 a

  new-in6 : (name : ListName) (a : Ipv6Addr) → in6 M name (new_loader M) a ≡ false
  unfolding in6 new_loader
  new-in6 outbound a = contains-new6 a
  new-in6 bypass a = contains-new6 a
  new-in6 proxy a = contains-new6 a

  new-in_rules : (name : ListName) (host : List ℕ) → in_rules M name (new_loader M) host ≡ false
  unfolding in_rules new_loader
  new-in_rules outbound host = refl
  new-in_rules bypass host = refl
  new-in_rules proxy host = refl

  -- The checks on a finished list are those on the loader's.
  Finished-list :
      (l : Loader M) (acl : AccessControl M) (name : ListName) (addr : Address)
      → Finished M l acl
      → check_address_matched M (list_of name acl) addr ≡ elim addr [
        | socket_address (v4 a) ↦ in4 M name l a.ip
        | socket_address (v6 a) ↦ in6 M name l a.ip
        | domain_name_address host _ ↦ in_rules M name l host
      ]
  unfolding check_address_matched check_ip_matched check_host_matched new_rules in4 in6 in_rules
  Finished-list l acl outbound (socket_address (v4 a)) (o, b, p, ho, hb, hp, e) =
      rw (ap (λ c. c.outbound_block) e) (contains-simplify4 _ _)
  Finished-list l acl bypass (socket_address (v4 a)) (o, b, p, ho, hb, hp, e) =
      rw (ap (λ c. c.black) e) (contains-simplify4 _ _)
  Finished-list l acl proxy (socket_address (v4 a)) (o, b, p, ho, hb, hp, e) =
      rw (ap (λ c. c.white) e) (contains-simplify4 _ _)
  Finished-list l acl outbound (socket_address (v6 a)) (o, b, p, ho, hb, hp, e) =
      rw (ap (λ c. c.outbound_block) e) (contains-simplify6 _ _)
  Finished-list l acl bypass (socket_address (v6 a)) (o, b, p, ho, hb, hp, e) =
      rw (ap (λ c. c.black) e) (contains-simplify6 _ _)
  Finished-list l acl proxy (socket_address (v6 a)) (o, b, p, ho, hb, hp, e) =
      rw (ap (λ c. c.white) e) (contains-simplify6 _ _)
  Finished-list l acl outbound (domain_name_address host _) (o, b, p, ho, hb, hp, e) =
      rw (ap (λ c. c.outbound_block) e) (is_match-regex_set _ o host ho)
  Finished-list l acl bypass (domain_name_address host _) (o, b, p, ho, hb, hp, e) =
      rw (ap (λ c. c.black) e) (is_match-regex_set _ b host hb)
  Finished-list l acl proxy (domain_name_address host _) (o, b, p, ho, hb, hp, e) =
      rw (ap (λ c. c.white) e) (is_match-regex_set _ p host hp)

  load_all-listed :
      (texts : List String) (name : ListName) (addr : Address)
      → elim addr [
        | socket_address (v4 a) ↦ in4 M name (load_all M texts (new_loader M)) a.ip
        | socket_address (v6 a) ↦ in6 M name (load_all M texts (new_loader M)) a.ip
        | domain_name_address host _ ↦ in_rules M name (load_all M texts (new_loader M)) host
      ]
        ≡ listed name texts addr
  unfolding new_loader
  load_all-listed texts name (socket_address (v4 a)) =
      load_all-in4 M name texts (new_loader M) a.ip ∙ rw (new-in4 name a.ip) refl
  load_all-listed texts name (socket_address (v6 a)) =
      load_all-in6 M name texts (new_loader M) a.ip ∙ rw (new-in6 name a.ip) refl
  load_all-listed texts name (domain_name_address host _) =
      load_all-in_rules M name texts (new_loader M) host ∙ rw (new-in_rules name host) refl

  loaded-Finished :
      (texts : List String) {acl : AccessControl M}
      → load_from_file M (map ok texts) ≡ ok acl
      → Finished M (load_all M texts (new_loader M)) acl
  unfolding load_from_file
  loaded-Finished texts h =
      finish-Finished M (load_all M texts (new_loader M))
        (rw (load_lines-load_all M texts (new_loader M), load_from_file) at h)

  -- If the lines of a file load to an access control list, then each of its three lists matches
  -- an address exactly if some rule line, read while that list was the open one, names the
  -- address: as a network or a single IP address for a socket address, as a pattern for a host
  -- name. Before the first section the open list of networks is the bypass list and that of
  -- patterns the proxy list.
  pub loaded_listed :
      (texts : List String) (acl : AccessControl M) (name : ListName) (addr : Address)
      → load_from_file M (map ok texts) ≡ ok acl
      → check_address_matched M (list_of name acl) addr ≡ listed name texts addr
  loaded_listed texts acl name addr h =
      Finished-list (load_all M texts (new_loader M)) acl name addr (loaded-Finished texts h)
      ∙ load_all-listed texts name addr

  -- The mode of the list is the one that the lines set last.
  pub loaded-last_mode :
      (texts : List String) (acl : AccessControl M)
      → load_from_file M (map ok texts) ≡ ok acl
      → acl.mode ≡ last_mode black_list texts
  unfolding new_loader
  loaded-last_mode texts acl h =
      let (o, b, p, ho, hb, hp, e) = loaded-Finished texts h in
      ap (λ c. c.mode) e ∙ load_all-mode M texts (new_loader M)

  -- A line that cannot be read, behind any readable ones, is the error that loading ends in.
  load_lines_unreadable :
      (texts : List String) (e : IoError) (rest : List (Outcome IoError String)) (l : Loader M)
      → load_lines M (map ok texts ++ (err e ∷ rest)) l ≡ err e
  unfolding load_lines
  load_lines_unreadable [] e rest l = refl
  load_lines_unreadable (line ∷ texts) e rest l =
      load_lines_unreadable texts e rest (load_line M line l)
