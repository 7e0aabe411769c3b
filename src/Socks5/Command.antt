-- ===== src/Socks5/Command.antt =====
-- The commands of relay/socks5.rs and their codes.
use shadowsocks_rust.Common.{ℕ, ◌≡◌, refl, Option, none, some, arith, ◌==◌, if◌then◌else◌}
use shadowsocks_rust.Socks5.Consts.{
  socks5_cmd_tcp_connect, socks5_cmd_tcp_bind, socks5_cmd_udp_associate,
}

pub data Command : Type 0 where
  tcp_connect tcp_bind udp_associate : Command

unfoldable pub as_u8 : Command → ℕ
as_u8 tcp_connect = socks5_cmd_tcp_connect
as_u8 tcp_bind = socks5_cmd_tcp_bind
as_u8 udp_associate = socks5_cmd_udp_associate

unfoldable pub from_u8 : ℕ → Option Command
from_u8 code =
    if code == socks5_cmd_tcp_connect
    then some tcp_connect
    else if code == socks5_cmd_tcp_bind
    then some tcp_bind
    else if code == socks5_cmd_udp_associate
    then some udp_associate
    else none

pub from_u8-as_u8 : (c : Command) → from_u8 (as_u8 c) ≡ some c
unfolding from_u8 as_u8
from_u8-as_u8 tcp_connect = refl
from_u8-as_u8 tcp_bind = refl
from_u8-as_u8 udp_associate = refl

-- A code is decoded only to the command that is encoded by it.
pub as_u8-from_u8 : (code : ℕ) {c : Command} → from_u8 code ≡ some c → as_u8 c ≡ code
unfolding from_u8 as_u8
as_u8-from_u8 code h = ground arith
