-- ===== src/Acl/Loading/Folded.antt =====
-- The loop of `load_from_file` over the lines, and its end.
use Prim.Native.String.{String}
use mathlib.Core.List.{map}
use shadowsocks_rust.Common.{ℕ, ◌≡◌, refl, ap, ◌∙◌, List, [], ◌∷◌, ◌||◌, some, arith}
use shadowsocks_rust.Common.Outcome.{ok}
use shadowsocks_rust.Socks5.Address.{Ipv4Addr, Ipv6Addr}
use shadowsocks_rust.Acl.{Matchers, Mode, AccessControl}
use shadowsocks_rust.Acl.Loading.{
  ListName, sets_mode, classify, Loader, load_line, load_lines, compile, finish, add_rule,
  rules_from,
}
use shadowsocks_rust.Acl.Loading.Contents.{
  listed4, listed6, listed_host, in4, in6, in_rules, load_line-in4, load_line-in6,
  load_line-in_rules, load_line_opens,
}

-- The mode that the last mode line sets.
unfoldable pub last_mode : Mode → List String → Mode
last_mode m [] = m
last_mode m (line ∷ lines) = last_mode (elim (classify line) [ sets_mode n ↦ n | _ ↦ m ]) lines

module _ (M : Matchers) where
  open M use {
    Regex, regex_set, contains-new4, contains-new6, contains-simplify4, contains-simplify6,
    is_match-regex_set,
  }

  unfoldable pub load_all : List String → Loader M → Loader M
  load_all [] l = l
  load_all (line ∷ lines) l = load_all lines (load_line M line l)

  pub load_lines-load_all :
      (texts : List String) (l : Loader M) → load_lines M (map ok texts) l ≡ ok (load_all texts l)
  unfolding load_lines load_all
  load_lines-load_all [] l = refl
  load_lines-load_all (line ∷ texts) l = load_lines-load_all texts (load_line M line l)

  pub load_all-in4 :
      (name : ListName) (texts : List String) (l : Loader M) (a : Ipv4Addr)
      → in4 M name (load_all texts l) a ≡ (in4 M name l a || listed4 M name l.curr_ipv4 texts a)
  unfolding load_all listed4
  load_all-in4 name [] l a = ground arith
  load_all-in4 name (line ∷ texts) l a = ground (
    arith,
    load_all-in4 name texts (load_line M line l) a,
    load_line-in4 M name line l a,
    load_line_opens M line l,
  )

  pub load_all-in6 :
      (name : ListName) (texts : List String) (l : Loader M) (a : Ipv6Addr)
      → in6 M name (load_all texts l) a ≡ (in6 M name l a || listed6 M name l.curr_ipv6 texts a)
  unfolding load_all listed6
  load_all-in6 name [] l a = ground arith
  load_all-in6 name (line ∷ texts) l a = ground (
    arith,
    load_all-in6 name texts (load_line M line l) a,
    load_line-in6 M name line l a,
    load_line_opens M line l,
  )

  pub load_all-in_rules :
      (name : ListName) (texts : List String) (l : Loader M) (host : List ℕ)
      → in_rules M name (load_all texts l) host
        ≡ (in_rules M name l host || listed_host M name l.curr_rules texts host)
  unfolding load_all listed_host
  load_all-in_rules name [] l host = ground arith
  load_all-in_rules name (line ∷ texts) l host = ground (
    arith,
    load_all-in_rules name texts (load_line M line l) host,
    load_line-in_rules M name line l host,
    load_line_opens M line l,
  )

  load_line-mode :
      (line : String) (l : Loader M)
      → (load_line M line l).mode ≡ elim (classify line) [ sets_mode n ↦ n | _ ↦ l.mode ]
  unfolding load_line add_rule
  load_line-mode line l = ground arith

  pub load_all-mode :
      (texts : List String) (l : Loader M) → (load_all texts l).mode ≡ last_mode l.mode texts
  unfolding load_all last_mode
  load_all-mode [] l = refl
  load_all-mode (line ∷ texts) l =
      load_all-mode texts (load_line M line l) ∙ ap (λ m. last_mode m texts) (load_line-mode line l)

  -- A successful end: every list of patterns compiles.
  abbrev pub Finished : Loader M → AccessControl M → Type 0
  Finished l acl =
      (o : Regex) × (b : Regex) × (p : Regex) × (regex_set l.outbound_block.rules ≡ some o)
      × (regex_set l.bypassed.rules ≡ some b)
      × (regex_set l.proxied.rules ≡ some p)
      × (acl ≡ record {
        outbound_block = rules_from M l.outbound_block o;
        black = rules_from M l.bypassed b;
        white = rules_from M l.proxied p;
        mode = l.mode;
      })

  pub finish-Finished :
      (l : Loader M) {acl : AccessControl M} → finish M l ≡ ok acl → Finished l acl
  unfolding finish compile
  finish-Finished l h = ground arith
