-- ===== src/Config/Addresses.antt =====
-- The texts of addresses: `FromStr` and `Display` of `ServerAddr` and `ManagerAddr` in config.rs and of
-- `Address` in relay/socks5.rs. A text is its bytes.
pub mod Ports
pub mod Read
use shadowsocks_rust.Common.{
  ℕ, zero, suc, ◌+◌, ◌-◌, ◌*◌, ◌/◌, ◌%◌, ◌==◌, ltb, leb, ◌≡◌, List, [], ◌∷◌, ◌++◌, Bool, true,
  false, ◌&&◌, Option, none, some, if◌then◌else◌,
}
use shadowsocks_rust.Socks5.Address.{
  SocketAddr, v4, v6, Address, socket_address, domain_name_address,
}
use shadowsocks_rust.Context.{ServerAddr, socket_addr, domain_name}
use shadowsocks_rust.Config.{
  ManagerAddr, manager_socket_addr, manager_domain_name, unix_socket_addr,
}

abbrev pub colon : ℕ
colon = 58

abbrev pub is_digit : ℕ → Bool
is_digit b = leb 48 b && leb b 57

-- `parse::<u16>` after a sign: a number that does not fit is an error.
unfoldable pub parse_digits : ℕ → List ℕ → Option ℕ
parse_digits acc [] = some acc
parse_digits acc (b ∷ bs) =
    let rest = parse_digits (acc * 10 + (b - 48)) bs in
    if is_digit b && ltb (acc * 10 + (b - 48)) 65536 then rest else none

unfoldable pub parse_unsigned : List ℕ → Option ℕ
unfolding parse_digits
parse_unsigned [] = none
parse_unsigned (b ∷ bs) = parse_digits 0 (b ∷ bs)

unfoldable pub parse_u16 : List ℕ → Option ℕ
unfolding parse_unsigned
parse_u16 [] = none
parse_u16 (b ∷ bs) = if b == 43 then parse_unsigned bs else parse_unsigned (b ∷ bs)

-- `Display` of a `u16`, which has at most five digits.
unfoldable pub show_digits : ℕ → ℕ → List ℕ
show_digits zero n = []
show_digits (suc fuel) n =
    let front = show_digits fuel (n / 10) in
    if ltb n 10 then (48 + n) ∷ [] else front ++ ((48 + n % 10) ∷ [])

unfoldable pub show_u16 : ℕ → List ℕ
unfolding show_digits
show_u16 n = show_digits 5 n

-- The part before the first colon, and the part after it if there is one.
unfoldable pub split_colon : List ℕ → List ℕ × Option (List ℕ)
split_colon [] = ([], none)
split_colon (b ∷ bs) =
    let rest = split_colon bs in if b == colon then ([], some bs) else (b ∷ rest.0, rest.1)

-- The first two items of `split(':')`; those behind them are not looked at.
unfoldable pub first_two : List ℕ → Option (List ℕ × List ℕ)
unfolding split_colon
first_two s = elim (split_colon s).1 [
  | none ↦ none
  | some rest ↦ some ((split_colon s).0, (split_colon rest).0)
]

-- The standard library's texts of socket addresses, which have no IPv6 flow label and scope, and the
-- removal of white space around a text.
pub record Texts : Type 0 where
  pub parse_socket : List ℕ → Option SocketAddr
  pub show_socket : SocketAddr → List ℕ
  pub trim : List ℕ → List ℕ
  pub parse_socket-show_v4 : (a : _) → parse_socket (show_socket (v4 a)) ≡ some (v4 a)
  pub parse_socket-show_v6 :
      (a : _)
      → parse_socket (show_socket (v6 a)) ≡ some (v6 (record a { flowinfo = 0; scope_id = 0 }))

module _ (T : Texts) where
  open T use {parse_socket, show_socket, trim}

  -- `ServerAddr::from_str`.
  unfoldable pub parse_server_addr : List ℕ → Option ServerAddr
  unfolding first_two parse_u16
  parse_server_addr s = elim (parse_socket s) [
    | some addr ↦ some (socket_addr addr)
    | none ↦ elim (first_two s) [
      | none ↦ none
      | some (dn, port) ↦ elim (parse_u16 port) [ none ↦ none | some p ↦ some (domain_name dn p) ]
    ]
  ]

  unfoldable pub show_server_addr : ServerAddr → List ℕ
  unfolding show_u16
  show_server_addr (socket_addr a) = show_socket a
  show_server_addr (domain_name d port) = d ++ (colon ∷ show_u16 port)

  -- `Address::from_str`: the port is 80 if there is none.
  unfoldable pub parse_address : List ℕ → Option Address
  unfolding first_two parse_u16
  parse_address s = elim (parse_socket s) [
    | some addr ↦ some (socket_address addr)
    | none ↦ elim (first_two s) [
      | none ↦ some (domain_name_address s 80)
      | some (dn, port) ↦ elim (parse_u16 port) [
        | none ↦ none
        | some p ↦ some (domain_name_address dn p)
      ]
    ]
  ]

  -- `ManagerAddr::from_str`: a text without a colon is a path; all of the text behind the first colon
  -- must be the port.
  unfoldable pub parse_manager_addr : List ℕ → Option ManagerAddr
  unfolding split_colon parse_u16
  parse_manager_addr s = elim (split_colon s).1 [
    | none ↦ some (unix_socket_addr s)
    | some rest ↦ elim (parse_socket s) [
      | some saddr ↦ some (manager_socket_addr saddr)
      | none ↦ elim (parse_u16 (trim rest)) [
        | some port ↦ some (manager_domain_name (trim (split_colon s).0) port)
        | none ↦ none
      ]
    ]
  ]

  unfoldable pub show_manager_addr : ManagerAddr → List ℕ
  unfolding show_u16
  show_manager_addr (manager_socket_addr a) = show_socket a
  show_manager_addr (manager_domain_name d port) = d ++ (colon ∷ show_u16 port)
  show_manager_addr (unix_socket_addr path) = path
