-- ===== src/Acl/Loading.antt =====
-- `AccessControl::load_from_file` of acl/mod.rs, over the lines that the reader gives.
pub mod Contents
pub mod Folded
pub mod Loaded
pub mod Modes
use Prim.Native.String.{String}
use text.Mathlib.Text.{◌==◌ as str_eq, starts_with}
use shadowsocks_rust.Common.{
  ◌≡◌, refl, List, [], ◌∷◌, ◌++◌, Bool, true, false, ◌||◌, Option, none, some, inl, inr,
  if◌then◌else◌,
}
use shadowsocks_rust.Common.Outcome.{Outcome, ok, err, ◌>>=◌}
use shadowsocks_rust.Io.{IoError, other, regex_error}
use shadowsocks_rust.Acl.{Matchers, Mode, black_list, white_list, Rules, new_rules, AccessControl}

-- The three pairs of ranges and lists of patterns that the loader fills.
pub data ListName : Type 0 where
  outbound bypass proxy : ListName

-- What a line is for: the tests on its text, in their order.
pub data Line : Type 0 where
  skipped : Line
  sets_mode : Mode → Line
  opens : ListName → Line
  rule : Line

abbrev is_empty : String → Bool
is_empty s = str_eq s ""

unfoldable pub classify : String → Line
classify line =
    if is_empty line
    then skipped
    else if starts_with line "#"
    then skipped
    else if str_eq line "[reject_all]" || str_eq line "[bypass_all]"
    then sets_mode white_list
    else if str_eq line "[accept_all]" || str_eq line "[proxy_all]"
    then sets_mode black_list
    else if str_eq line "[outbound_block_list]"
    then opens outbound
    else if str_eq line "[black_list]" || str_eq line "[bypass_list]"
    then opens bypass
    else if str_eq line "[white_list]" || str_eq line "[proxy_list]"
    then opens proxy
    else rule

module _ (M : Matchers) where
  open M use {
    Range4, Range6, Net4, Net6, parse_net, parse_ip, net4_of, net6_of, new4, new6, add4, add6,
    regex_set,
  }

  pub record Builder : Type 0 where
    pub ipv4 : Range4
    pub ipv6 : Range6
    pub rules : List String

  -- `curr_ipv4`, `curr_ipv6` and `curr_rules` are references to one of the three each.
  pub record Loader : Type 0 where
    pub mode : Mode
    pub outbound_block : Builder
    pub bypassed : Builder
    pub proxied : Builder
    pub curr_ipv4 : ListName
    pub curr_ipv6 : ListName
    pub curr_rules : ListName

  unfoldable pub new_builder : Builder
  new_builder = record { ipv4 = new4; ipv6 = new6; rules = [] }

  -- The patterns before the first section go to the proxy rules, the networks to the bypass ranges.
  unfoldable pub new_loader : Loader
  unfolding new_builder
  new_loader = record {
    mode = black_list;
    outbound_block = new_builder;
    bypassed = new_builder;
    proxied = new_builder;
    curr_ipv4 = bypass;
    curr_ipv6 = bypass;
    curr_rules = proxy;
  }

  abbrev pub builder_of : ListName → Loader → Builder
  builder_of outbound l = l.outbound_block
  builder_of bypass l = l.bypassed
  builder_of proxy l = l.proxied

  -- A write through one of the references.
  abbrev pub write_through : ListName → (Builder → Builder) → Loader → Loader
  write_through outbound f l = record l { outbound_block = f l.outbound_block }
  write_through bypass f l = record l { bypassed = f l.bypassed }
  write_through proxy f l = record l { proxied = f l.proxied }

  add_net4 : Net4 → Loader → Loader
  add_net4 n l = write_through l.curr_ipv4 (λ b. record b { ipv4 = add4 b.ipv4 n }) l

  add_net6 : Net6 → Loader → Loader
  add_net6 n l = write_through l.curr_ipv6 (λ b. record b { ipv6 = add6 b.ipv6 n }) l

  push_rule : String → Loader → Loader
  push_rule line l = write_through l.curr_rules (λ b. record b { rules = b.rules ++ (line ∷ []) }) l

  unfoldable pub add_rule : String → Loader → Loader
  unfolding add_net4 add_net6 push_rule
  add_rule line l = elim (parse_net line) [
    | some (inl n) ↦ add_net4 n l
    | some (inr n) ↦ add_net6 n l
    | none ↦ elim (parse_ip line) [
      | some (inl ip) ↦ add_net4 (net4_of ip) l
      | some (inr ip) ↦ add_net6 (net6_of ip) l
      | none ↦ push_rule line l
    ]
  ]

  unfoldable pub load_line : String → Loader → Loader
  load_line line l = elim (classify line) [
    | skipped ↦ l
    | sets_mode mode ↦ record l { mode = mode }
    | opens name ↦ record l { curr_ipv4 = name; curr_ipv6 = name; curr_rules = name }
    | rule ↦ add_rule line l
  ]

  -- A line that cannot be read ends the loading.
  unfoldable pub load_lines : List (Outcome IoError String) → Loader → Outcome IoError Loader
  load_lines [] l = ok l
  load_lines (ok line ∷ lines) l = load_lines lines (load_line line l)
  load_lines (r ∷ lines) l = do line ← r; ok l

  compile : String → List String → Outcome IoError (M.Regex)
  compile section rules = elim (regex_set rules) [
    | none ↦ err (record { kind = other; message = regex_error section })
    | some r ↦ ok r
  ]

  abbrev pub rules_from : Builder → M.Regex → Rules M
  rules_from b r = new_rules M b.ipv4 b.ipv6 r

  pub finish : Loader → Outcome IoError (AccessControl M)
  unfolding compile
  finish l = do
    outbound_block_regex ← compile "[outbound_block_list]" l.outbound_block.rules
    bypass_regex ← compile "[black_list] or [bypass_list]" l.bypassed.rules
    proxy_regex ← compile "[white_list] or [proxy_list]" l.proxied.rules
    ok (record {
      outbound_block = rules_from l.outbound_block outbound_block_regex;
      black = rules_from l.bypassed bypass_regex;
      white = rules_from l.proxied proxy_regex;
      mode = l.mode;
    })

  unfoldable pub load_from_file : List (Outcome IoError String) → Outcome IoError (AccessControl M)
  unfolding finish
  load_from_file lines = do l ← load_lines lines new_loader; finish l
