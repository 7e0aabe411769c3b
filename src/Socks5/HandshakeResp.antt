-- ===== src/Socks5/HandshakeResp.antt =====
-- `HandshakeResponse` of relay/socks5.rs.
use shadowsocks_rust.Common.{
  ℕ, ◌≡◌, refl, List, [], ◌∷◌, ◌++◌, not, length, arith, ◌==◌, if◌then◌else◌,
}
use shadowsocks_rust.Common.Outcome.{Outcome, ok, err, ◌>>=◌}
use shadowsocks_rust.Io.{IoError, read_exact, get_u8, invalid_data, unsupported_socks_version}
use shadowsocks_rust.Socks5.Consts.{socks5_version}
use shadowsocks_rust.Socks5.Address.{put_slice}

pub record HandshakeResponse : Type 0 where
  pub chosen_method : ℕ

check_method : ℕ → ℕ → List ℕ → Outcome IoError (HandshakeResponse × List ℕ)
check_method ver met s =
    if not (ver == socks5_version)
    then err (record { kind = invalid_data; message = unsupported_socks_version ver })
    else ok (record { chosen_method = met }, s)

unfoldable pub read_from : List ℕ → Outcome IoError (HandshakeResponse × List ℕ)
unfolding check_method
read_from s = do
  (buf, s1) ← read_exact 2 s
  (ver, c1) ← get_u8 buf
  (met, c2) ← get_u8 c1
  check_method ver met s1

unfoldable pub write_to_buf : HandshakeResponse → List ℕ → List ℕ
write_to_buf h buf = put_slice buf (socks5_version ∷ h.chosen_method ∷ [])

unfoldable pub write_to : HandshakeResponse → List ℕ → List ℕ
write_to h writer = put_slice writer (write_to_buf h [])

unfoldable pub serialized_len : HandshakeResponse → ℕ
serialized_len h = 2

pub handshake_response_round_trip :
    (h : HandshakeResponse) (writer rest : List ℕ)
    → (sent : List ℕ) × (write_to h writer ≡ writer ++ sent)
      × (length sent ≡ serialized_len h)
      × (read_from (sent ++ rest) ≡ ok (h, rest))
unfolding write_to write_to_buf serialized_len read_from get_u8 read_exact
handshake_response_round_trip h writer rest =
    (socks5_version ∷ h.chosen_method ∷ [], refl, refl, refl)

-- A response is read exactly from the bytes of its version and its method.
pub handshake_response_only :
    (s : List ℕ) {h : HandshakeResponse} {rest : List ℕ}
    → read_from s ≡ ok (h, rest)
    → s ≡ socks5_version ∷ h.chosen_method ∷ rest
unfolding read_from get_u8 read_exact check_method
handshake_response_only [] e = cc
handshake_response_only (ver ∷ []) e = cc
handshake_response_only (ver ∷ met ∷ s) e = ground arith
