-- ===== src/Socks5/Reply.antt =====
-- The replies of relay/socks5.rs and their codes.
use shadowsocks_rust.Common.{ℕ, ◌≤◌, ◌≡◌, refl, arith, ◌==◌, if◌then◌else◌}

pub data Reply : Type 0 where
  succeeded general_failure connection_not_allowed network_unreachable : Reply
  host_unreachable connection_refused ttl_expired command_not_supported : Reply
  address_type_not_supported : Reply
  other_reply : ℕ → Reply

unfoldable pub as_u8 : Reply → ℕ
as_u8 succeeded = 0x00
as_u8 general_failure = 0x01
as_u8 connection_not_allowed = 0x02
as_u8 network_unreachable = 0x03
as_u8 host_unreachable = 0x04
as_u8 connection_refused = 0x05
as_u8 ttl_expired = 0x06
as_u8 command_not_supported = 0x07
as_u8 address_type_not_supported = 0x08
as_u8 (other_reply c) = c

unfoldable pub from_u8 : ℕ → Reply
from_u8 code =
    if code == 0x00
    then succeeded
    else if code == 0x01
    then general_failure
    else if code == 0x02
    then connection_not_allowed
    else if code == 0x03
    then network_unreachable
    else if code == 0x04
    then host_unreachable
    else if code == 0x05
    then connection_refused
    else if code == 0x06
    then ttl_expired
    else if code == 0x07
    then command_not_supported
    else if code == 0x08
    then address_type_not_supported
    else other_reply code

pub as_u8-from_u8 : (code : ℕ) → as_u8 (from_u8 code) ≡ code
unfolding from_u8 as_u8
as_u8-from_u8 code = ground arith

-- A reply that the decoder produces: `other_reply` only for a code that has no name.
abbrev pub IsNamed : Reply → Type 0
IsNamed (other_reply c) = 9 ≤ c
IsNamed _ = Unit

pub from_u8-as_u8 : (r : Reply) → IsNamed r → from_u8 (as_u8 r) ≡ r
unfolding from_u8 as_u8
from_u8-as_u8 (other_reply c) h = ground arith
from_u8-as_u8 succeeded h = refl
from_u8-as_u8 _ h = refl
