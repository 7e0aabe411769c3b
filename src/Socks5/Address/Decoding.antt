-- ===== src/Socks5/Address/Decoding.antt =====
-- `Address::read_from` on any input, well formed or not.
use shadowsocks_rust.Common.{
  ℕ, ◌+◌, ◌≡◌, refl, ap, sym, ◌⊎◌, inl, inr, List, [], ◌∷◌, ◌++◌, length, take, drop, All, arith,
  All-append_left, All-append_right, take-append-drop, length-take, length-drop, Bool-cases, ==_iff,
  ◌==◌,
}
use shadowsocks_rust.Common.Words.{IsU8, u16_of, high_byte-u16_of, low_byte-u16_of}
use shadowsocks_rust.Common.Outcome.{ok, err}
use shadowsocks_rust.Io.{
  eof_error, invalid_address_encoding, unsupported_address_type, read_exact, get_u8, get_u16,
}
use shadowsocks_rust.Io.Exact.{read_exact_cases}
use shadowsocks_rust.Io.Utf8.{is_utf8}
use shadowsocks_rust.Socks5.Error.{Error, error_from_io}
use shadowsocks_rust.Socks5.Reply.{general_failure, address_type_not_supported}
use shadowsocks_rust.Socks5.Consts.{
  socks5_addr_type_ipv4, socks5_addr_type_ipv6, socks5_addr_type_domain_name,
}
use shadowsocks_rust.Socks5.Address.{
  Address, socket_address, domain_name_address, v4, v6, Parsed, read_from, read_domain_name_address,
  domain_of_buf, read_body, read_ipv4_address, read_ipv6_address,
}
use shadowsocks_rust.Socks5.Address.Written.{bytes_of, IsValid, Fits}
use shadowsocks_rust.Socks5.Address.Reading.{carried}

-- `r` is an error, or an address whose layout is the front of the stream `s`.
abbrev pub Decoded : List ℕ → Parsed Address → Type 0
Decoded s r =
    ((e : Error) × (r ≡ err e))
    ⊎ ((a : Address) × (rest : List ℕ) × (r ≡ ok (a, rest))
        × (s ≡ bytes_of a ++ rest)
        × IsValid a
        × Fits a
        × (carried a ≡ a))

ipv4_Decoded : (s : List ℕ) → All IsU8 s → Decoded (socks5_addr_type_ipv4 ∷ s) (read_ipv4_address s)
unfolding read_ipv4_address read_exact get_u8 get_u16 bytes_of carried
ipv4_Decoded (a ∷ b ∷ c ∷ d ∷ p ∷ q ∷ rest) (ha, (hb, (hc, (hd, (hp, (hq, _)))))) = inr (
  socket_address
      (v4 (record { ip = record { o1 = a; o2 = b; o3 = c; o4 = d }; port = u16_of p q })),
  rest,
  refl,
  rw (high_byte-u16_of p q hp hq, low_byte-u16_of p q hq) refl,
  (ha, hb, hc, hd, omega arith),
  tt,
  refl,
)
ipv4_Decoded _ h = inl (_, refl)

ipv6_Decoded : (s : List ℕ) → All IsU8 s → Decoded (socks5_addr_type_ipv6 ∷ s) (read_ipv6_address s)
unfolding read_ipv6_address read_exact get_u8 get_u16 bytes_of carried
ipv6_Decoded (a ∷ a' ∷ b ∷ b' ∷ c ∷ c' ∷ d ∷ d' ∷ e ∷ e' ∷ f ∷ f' ∷ g ∷ g' ∷ h ∷ h' ∷ p ∷ p' ∷ rest)
      (
        ua,
        (
          va,
          (
            ub,
            (
              vb,
              (uc, (vc, (ud, (vd, (ue, (ve, (uf, (vf, (ug, (vg, (uh, (vh, (up, (vp, _)))))))))))))),
            ),
          ),
        ),
      ) =
    inr (
      socket_address (
          v6 (record {
            ip = record {
              s1 = u16_of a a';
              s2 = u16_of b b';
              s3 = u16_of c c';
              s4 = u16_of d d';
              s5 = u16_of e e';
              s6 = u16_of f f';
              s7 = u16_of g g';
              s8 = u16_of h h';
            };
            port = u16_of p p';
            flowinfo = 0;
            scope_id = 0;
          })),
      rest,
      refl,
      rw
          (
            high_byte-u16_of a a' ua va,
            low_byte-u16_of a a' va,
            high_byte-u16_of b b' ub vb,
            low_byte-u16_of b b' vb,
            high_byte-u16_of c c' uc vc,
            low_byte-u16_of c c' vc,
            high_byte-u16_of d d' ud vd,
            low_byte-u16_of d d' vd,
            high_byte-u16_of e e' ue ve,
            low_byte-u16_of e e' ve,
            high_byte-u16_of f f' uf vf,
            low_byte-u16_of f f' vf,
            high_byte-u16_of g g' ug vg,
            low_byte-u16_of g g' vg,
            high_byte-u16_of h h' uh vh,
            low_byte-u16_of h h' vh,
            high_byte-u16_of p p' up vp,
            low_byte-u16_of p p' vp,
          )
          refl,
      (
        omega arith,
        omega arith,
        omega arith,
        omega arith,
        omega arith,
        omega arith,
        omega arith,
        omega arith,
        omega arith,
      ),
      tt,
      refl,
    )
ipv6_Decoded _ h = inl (_, refl)

two_of_length : (xs : List ℕ) → length xs ≡ 2 → (a : ℕ) × (b : ℕ) × (xs ≡ a ∷ b ∷ [])
two_of_length (a ∷ b ∷ []) h = (a, b, refl)
two_of_length _ h = absurd (omega arith)

-- The buffer of `n` + 2 bytes behind the length byte `n`: the host's bytes and two of the port.
split_buf :
    (n : ℕ) (buf : List ℕ)
    → length buf ≡ n + 2
    → (p : ℕ) × (q : ℕ) × (drop n buf ≡ p ∷ q ∷ [])
      × (length (take n buf) ≡ n)
      × (buf ≡ take n buf ++ (p ∷ q ∷ []))
split_buf n buf h =
    let (p, q, e) = two_of_length (drop n buf) (omega (arith, length-drop n buf)) in
    (p, q, e, omega (arith, length-take n buf), sym (rw e at (take-append-drop n buf)))

domain_of_buf-Decoded :
    (n : ℕ) (buf rest : List ℕ)
    → IsU8 n
    → All IsU8 buf
    → length buf ≡ n + 2
    → Decoded (socks5_addr_type_domain_name ∷ n ∷ (buf ++ rest)) (domain_of_buf n buf rest)
unfolding domain_of_buf get_u16 bytes_of carried
domain_of_buf-Decoded n buf rest hn hb h =
    let (p, q, tail, len, whole) = split_buf n buf h in
    let bytes : All IsU8 (take n buf ++ (p ∷ q ∷ [])) = rw (← whole) hb in
    let (hp, (hq, _)) = All-append_right IsU8 (take n buf) (p ∷ q ∷ []) bytes in
    elim (Bool-cases (is_utf8 (take n buf))) [
      | inl valid ↦ inr (
        domain_name_address (take n buf) (u16_of p q),
        rest,
        rw (valid, tail),
        rw (high_byte-u16_of p q hp hq, low_byte-u16_of p q hq, len)
            (ap (λ b. 3 ∷ n ∷ (b ++ rest)) whole),
        (All-append_left IsU8 (take n buf) _ bytes, valid, omega arith),
        omega arith,
        refl,
      )
      | inr bad ↦
          inl (record { reply = general_failure; message = invalid_address_encoding }, rw bad)
    ]

domain_Decoded :
    (s : List ℕ)
    → All IsU8 s
    → Decoded (socks5_addr_type_domain_name ∷ s) (read_domain_name_address s)
unfolding read_domain_name_address read_exact get_u8
domain_Decoded [] h = inl (_, refl)
domain_Decoded (n ∷ s) (hn, hs) = elim (read_exact_cases (n + 2) s) [
  | inl (_, e) ↦ inl (error_from_io eof_error, rw (e, read_domain_name_address))
  | inr (buf, rest, split, len, e) ↦
      rw (e, read_domain_name_address)
        (rw split (
          domain_of_buf-Decoded n buf rest hn (All-append_left IsU8 buf rest (rw split at hs)) len))
]

body_Decoded : (ty : ℕ) (s : List ℕ) → All IsU8 s → Decoded (ty ∷ s) (read_body ty s)
unfolding read_body
body_Decoded ty s h = elim (Bool-cases (ty == socks5_addr_type_ipv4)) [
  | inl e ↦ rw ((==_iff ty _).0 e) (ipv4_Decoded s h)
  | inr e ↦ elim (Bool-cases (ty == socks5_addr_type_ipv6)) [
    | inl f ↦ rw ((==_iff ty _).0 f) (ipv6_Decoded s h)
    | inr f ↦ elim (Bool-cases (ty == socks5_addr_type_domain_name)) [
      | inl g ↦ rw ((==_iff ty _).0 g) (domain_Decoded s h)
      | inr g ↦ inl (
        record { reply = address_type_not_supported; message = unsupported_address_type ty },
        rw (e, f, g),
      )
    ]
  ]
]

-- On every stream of bytes the address reader ends in an error or in an address, never in a
-- panic; an address that it returns has fields of the right width, a host name that is UTF-8
-- and at most 255 bytes long, no flow label and no scope, and its layout is exactly what was
-- taken from the front of the stream.
pub read_from-Decoded : (s : List ℕ) → All IsU8 s → Decoded s (read_from s)
unfolding read_from read_exact get_u8
read_from-Decoded [] h = inl (_, refl)
read_from-Decoded (ty ∷ s) (_, h) = body_Decoded ty s h
