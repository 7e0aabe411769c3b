-- ===== src/Socks5/Consts.antt =====
-- The constants of relay/socks5.rs (RFC 1928), less the reply codes.
use shadowsocks_rust.Common.{ℕ}

abbrev pub socks5_version : ℕ
socks5_version = 0x05

abbrev pub socks5_auth_method_none : ℕ
socks5_auth_method_none = 0x00

abbrev pub socks5_auth_method_gssapi : ℕ
socks5_auth_method_gssapi = 0x01

abbrev pub socks5_auth_method_password : ℕ
socks5_auth_method_password = 0x02

abbrev pub socks5_auth_method_not_acceptable : ℕ
socks5_auth_method_not_acceptable = 0xff

abbrev pub socks5_cmd_tcp_connect : ℕ
socks5_cmd_tcp_connect = 0x01

abbrev pub socks5_cmd_tcp_bind : ℕ
socks5_cmd_tcp_bind = 0x02

abbrev pub socks5_cmd_udp_associate : ℕ
socks5_cmd_udp_associate = 0x03

abbrev pub socks5_addr_type_ipv4 : ℕ
socks5_addr_type_ipv4 = 0x01

abbrev pub socks5_addr_type_domain_name : ℕ
socks5_addr_type_domain_name = 0x03

abbrev pub socks5_addr_type_ipv6 : ℕ
socks5_addr_type_ipv6 = 0x04
