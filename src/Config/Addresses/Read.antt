-- ===== src/Config/Addresses/Read.antt =====
-- An address that is printed and read back.
use shadowsocks_rust.Common.{
  ℕ, ◌==◌, ◌<◌, ◌≡◌, refl, ap, List, [], ◌∷◌, ◌++◌, All, true, false, none, some, arith,
}
use shadowsocks_rust.Socks5.Address.{v4, v6}
use shadowsocks_rust.Context.{ServerAddr, socket_addr, domain_name}
use shadowsocks_rust.Config.Addresses.{
  colon, is_digit, split_colon, first_two, Texts, show_u16, parse_server_addr, show_server_addr,
}
use shadowsocks_rust.Config.Addresses.Ports.{parse_u16-show_u16, show_u16-IsDigit}

abbrev pub HasNoColon : List ℕ → Type 0
HasNoColon = All (λ b. (b == colon) ≡ false)

split_colon_at :
    (name rest : List ℕ)
    → HasNoColon name
    → split_colon (name ++ (colon ∷ rest)) ≡ (name, some rest)
unfolding split_colon
split_colon_at [] rest h = refl
split_colon_at (b ∷ name) rest (h, hs) =
    rw (split_colon, h) (ap (λ y. (b ∷ y.0, y.1)) (split_colon_at name rest hs))

no_colon_lem : (name : List ℕ) → HasNoColon name → split_colon name ≡ (name, none)
unfolding split_colon
no_colon_lem [] h = refl
no_colon_lem (b ∷ name) (h, hs) =
    rw (split_colon, h) (ap (λ y. (b ∷ y.0, y.1)) (no_colon_lem name hs))

digits-HasNoColon : (bs : List ℕ) → All (λ b. is_digit b ≡ true) bs → HasNoColon bs
digits-HasNoColon [] h = tt
digits-HasNoColon (b ∷ bs) (h, hs) = (ground arith, digits-HasNoColon bs hs)

first_two_at :
    (name port : List ℕ)
    → HasNoColon name
    → HasNoColon port
    → first_two (name ++ (colon ∷ port)) ≡ some (name, port)
unfolding first_two
first_two_at name port hn hp =
    rw (first_two, split_colon_at name port hn, no_colon_lem port hp)
      (ap (λ y. some (y.0, port)) (split_colon_at name port hn))

module _ (T : Texts) where
  open T use {parse_socket, show_socket, parse_socket-show_v4, parse_socket-show_v6}

  -- A host name without a colon that is not, with its port, the text of a socket address.
  abbrev pub IsReadable : ServerAddr → Type 0
  IsReadable (socket_addr _) = Unit {0}
  IsReadable (domain_name d port) =
      HasNoColon d
      × (port < 65536)
      × (parse_socket (show_server_addr T (domain_name d port)) ≡ none)

  abbrev pub read_back : ServerAddr → ServerAddr
  read_back (socket_addr (v4 a)) = socket_addr (v4 a)
  read_back (socket_addr (v6 a)) = socket_addr (v6 (record a { flowinfo = 0; scope_id = 0 }))
  read_back (domain_name d port) = domain_name d port

  -- A server address that is printed is read back, an IPv6 address without its flow label and
  -- scope, if its host name has no colon and is not, with the port, the text of a socket address.
  pub parse-show_server_addr :
      (a : ServerAddr)
      → IsReadable a
      → parse_server_addr T (show_server_addr T a) ≡ some (read_back a)
  unfolding parse_server_addr show_server_addr
  parse-show_server_addr (socket_addr (v4 a)) h = rw (parse_server_addr, parse_socket-show_v4 a)
  parse-show_server_addr (socket_addr (v6 a)) h = rw (parse_server_addr, parse_socket-show_v6 a)
  parse-show_server_addr (domain_name d port) (hd, hp, hs) = rw (
    parse_server_addr,
    hs,
    first_two_at d (show_u16 port) hd
        (digits-HasNoColon (show_u16 port) (show_u16-IsDigit port hp)),
    parse_u16-show_u16 port hp,
  )
