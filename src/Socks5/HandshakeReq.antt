-- ===== src/Socks5/HandshakeReq.antt =====
-- `HandshakeRequest` of relay/socks5.rs.
use shadowsocks_rust.Common.{
  ℕ, ◌+◌, ◌-◌, ◌%◌, ◌≤◌, ◌<◌, ◌≡◌, ap, ◌≢◌, inl, inr, List, [], ◌∷◌, ◌++◌, not, length,
  length-append, arith, Bool-cases, ◌==◌, if◌then◌else◌,
}
use shadowsocks_rust.Common.Words.{to_u8, to_u8_small}
use shadowsocks_rust.Common.Outcome.{Outcome, ok, err, ◌>>=◌}
use shadowsocks_rust.Io.{
  IoError, read_exact, get_u8, eof_error, invalid_data, unsupported_socks_version,
}
use shadowsocks_rust.Io.Exact.{read_exact_cases, read_exact-append}
use shadowsocks_rust.Socks5.Consts.{socks5_version}
use shadowsocks_rust.Socks5.Address.{put_slice}

pub record HandshakeRequest : Type 0 where
  pub methods : List ℕ

read_methods : ℕ → ℕ → List ℕ → Outcome IoError (HandshakeRequest × List ℕ)
read_methods ver nmet s =
    if not (ver == socks5_version)
    then err (record { kind = invalid_data; message = unsupported_socks_version ver })
    else (do (methods, rest) ← read_exact nmet s; ok (record { methods = methods }, rest))

unfoldable pub read_from : List ℕ → Outcome IoError (HandshakeRequest × List ℕ)
unfolding read_methods
read_from s = do
  (buf, s1) ← read_exact 2 s
  (ver, c1) ← get_u8 buf
  (nmet, c2) ← get_u8 c1
  read_methods ver nmet s1

-- The count of the methods is cut to a byte.
unfoldable pub write_to_buf : HandshakeRequest → List ℕ → List ℕ
write_to_buf h buf =
    put_slice (put_slice buf (socks5_version ∷ to_u8 (length h.methods) ∷ [])) h.methods

unfoldable pub write_to : HandshakeRequest → List ℕ → List ℕ
write_to h writer = put_slice writer (write_to_buf h [])

unfoldable pub serialized_len : HandshakeRequest → ℕ
serialized_len h = 2 + length h.methods

-- A handshake request of at most 255 methods is appended to the writer and is read back from
-- the bytes appended, whatever follows them; their number is `serialized_len`.
pub handshake_request_round_trip :
    (h : HandshakeRequest) (writer rest : List ℕ)
    → length h.methods ≤ 255
    → (sent : List ℕ) × (write_to h writer ≡ writer ++ sent)
      × (length sent ≡ serialized_len h)
      × (read_from (sent ++ rest) ≡ ok (h, rest))
unfolding write_to write_to_buf serialized_len read_from get_u8 read_exact
handshake_request_round_trip h writer rest fits = (
  socks5_version ∷ length h.methods ∷ h.methods,
  rw (to_u8_small (length h.methods) fits),
  omega arith,
  rw (read_exact-append h.methods rest, read_from),
)

-- A handshake request of more than 255 methods is sent with its count cut to a byte, and the
-- reader then returns a request with the number of methods modulo 256 and leaves the others in
-- the stream.
pub handshake_request_wraps :
    (h : HandshakeRequest) (rest : List ℕ)
    → 255 < length h.methods
    → (g : HandshakeRequest) × (left : List ℕ) × (read_from (write_to h [] ++ rest) ≡ ok (g, left))
      × (length g.methods ≡ length h.methods % 256)
      × (length left ≡ length h.methods + length rest - length h.methods % 256)
unfolding write_to write_to_buf read_from get_u8 read_exact
handshake_request_wraps h rest long =
    elim (read_exact_cases (length h.methods % 256) (h.methods ++ rest)) [
      | inl (short, _) ↦ absurd (omega (arith, length-append h.methods rest))
      | inr (front, left, split, len, e) ↦ (
        record { methods = front },
        left,
        rw (e, read_from),
        len,
        omega (arith, ap length split, length-append h.methods rest, length-append front left),
      )
    ]

-- How a stream is answered: too short for the two leading bytes, a wrong version, too short for the
-- methods, or the request with exactly the announced number of methods from the front.
pub data Answer : List ℕ → Outcome IoError (HandshakeRequest × List ℕ) → Type 0 where
  short : {s : List ℕ} → length s < 2 → Answer s (err eof_error)
  wrong_version :
      {ver nmet : ℕ} {s : List ℕ}
      → ver ≢ socks5_version
      → Answer
          (ver ∷ nmet ∷ s)
          (err (record { kind = invalid_data; message = unsupported_socks_version ver }))
  short_methods :
      {ver nmet : ℕ} {s : List ℕ}
      → ver ≡ socks5_version
      → length s < nmet
      → Answer (ver ∷ nmet ∷ s) (err eof_error)
  request :
      {ver nmet : ℕ} {s rest : List ℕ} {h : HandshakeRequest}
      → ver ≡ socks5_version
      → length h.methods ≡ nmet
      → s ≡ h.methods ++ rest
      → Answer (ver ∷ nmet ∷ s) (ok (h, rest))

read_methods-Answer :
    (ver nmet : ℕ) (s : List ℕ) → Answer (ver ∷ nmet ∷ s) (read_methods ver nmet s)
unfolding read_methods
read_methods-Answer ver nmet s = elim (Bool-cases (ver == socks5_version)) [
  | inr e ↦ rw e (wrong_version (ground arith))
  | inl e ↦ elim (read_exact_cases nmet s) [
    | inl (h, f) ↦ rw (e, read_methods, f) (short_methods (ground arith) h)
    | inr (front, rest, split, len, f) ↦ rw (e, read_methods, f) (request (ground arith) len split)
  ]
]

-- Every stream gets one of four answers from the reader of a handshake request: end of file
-- below two bytes; invalid data on a wrong version; end of file if fewer bytes follow than
-- methods are announced; or a request with exactly the announced number of methods from the
-- front of what follows.
pub handshake_request-Answer : (s : List ℕ) → Answer s (read_from s)
unfolding read_from read_exact get_u8
handshake_request-Answer (ver ∷ nmet ∷ s) = read_methods-Answer ver nmet s
handshake_request-Answer (ver ∷ []) = short (omega arith)
handshake_request-Answer [] = short (omega arith)
