-- ===== src/Crypto/Names.antt =====
-- The names of the cipher types: each is read back as its type, and no other text but "" is read.
use Prim.Native.String.{String}
use text.Mathlib.Text.{◌==◌ as str_eq}
use text.Mathlib.TextEquality.{eq_iff}
use shadowsocks_rust.Common.{
  ◌≡◌, refl, sym, ap, subst, ◌∙◌, ◌⊎◌, inl, inr, ◌↔◌, List, [], ◌∷◌, Bool-cases, All,
}
use shadowsocks_rust.Common.Outcome.{ok}
use shadowsocks_rust.Crypto.CipherType.{
  CipherType, to_string, arms, first_match, from_str, table, plain, aes128_cfb, aes128_cfb1,
  aes128_cfb8, aes128_cfb128, aes192_cfb, aes192_cfb1, aes192_cfb8, aes192_cfb128, aes256_cfb,
  aes256_cfb1, aes256_cfb8, aes256_cfb128, aes128_ctr, aes192_ctr, aes256_ctr, camellia128_cfb,
  camellia192_cfb, camellia256_cfb, camellia128_cfb1, camellia192_cfb1, camellia256_cfb1,
  camellia128_cfb8, camellia192_cfb8, camellia256_cfb8, camellia128_cfb128, camellia192_cfb128,
  camellia256_cfb128, rc4, rc4_md5, chacha20, salsa20, xsalsa20, chacha20_ietf, aes128_gcm,
  aes256_gcm, chacha20_ietf_poly1305, xchacha20_ietf_poly1305, aes128_pmac_siv, aes256_pmac_siv,
}

pub from_str-to_string : (t : CipherType) → from_str (to_string t) ≡ ok t
unfolding from_str to_string
from_str-to_string table = refl
from_str-to_string plain = refl
from_str-to_string aes128_cfb = refl
from_str-to_string aes128_cfb1 = refl
from_str-to_string aes128_cfb8 = refl
from_str-to_string aes128_cfb128 = refl
from_str-to_string aes192_cfb = refl
from_str-to_string aes192_cfb1 = refl
from_str-to_string aes192_cfb8 = refl
from_str-to_string aes192_cfb128 = refl
from_str-to_string aes256_cfb = refl
from_str-to_string aes256_cfb1 = refl
from_str-to_string aes256_cfb8 = refl
from_str-to_string aes256_cfb128 = refl
from_str-to_string aes128_ctr = refl
from_str-to_string aes192_ctr = refl
from_str-to_string aes256_ctr = refl
from_str-to_string camellia128_cfb = refl
from_str-to_string camellia192_cfb = refl
from_str-to_string camellia256_cfb = refl
from_str-to_string camellia128_cfb1 = refl
from_str-to_string camellia192_cfb1 = refl
from_str-to_string camellia256_cfb1 = refl
from_str-to_string camellia128_cfb8 = refl
from_str-to_string camellia192_cfb8 = refl
from_str-to_string camellia256_cfb8 = refl
from_str-to_string camellia128_cfb128 = refl
from_str-to_string camellia192_cfb128 = refl
from_str-to_string camellia256_cfb128 = refl
from_str-to_string rc4 = refl
from_str-to_string rc4_md5 = refl
from_str-to_string chacha20 = refl
from_str-to_string salsa20 = refl
from_str-to_string xsalsa20 = refl
from_str-to_string chacha20_ietf = refl
from_str-to_string aes128_gcm = refl
from_str-to_string aes256_gcm = refl
from_str-to_string chacha20_ietf_poly1305 = refl
from_str-to_string xchacha20_ietf_poly1305 = refl
from_str-to_string aes128_pmac_siv = refl
from_str-to_string aes256_pmac_siv = refl

-- The texts that name a type.
abbrev pub Names : String → CipherType → Type 0
Names s t = (s ≡ to_string t) ⊎ ((s ≡ "") × (t ≡ table))

arms_name : All (λ arm. Names (arm.0) (arm.1)) arms
unfolding to_string
arms_name = (
  inl refl,
  (
    inr (refl, refl),
    (
      inl refl,
      (
        inl refl,
        (
          inl refl,
          (
            inl refl,
            (
              inl refl,
              (
                inl refl,
                (
                  inl refl,
                  (
                    inl refl,
                    (
                      inl refl,
                      (
                        inl refl,
                        (
                          inl refl,
                          (
                            inl refl,
                            (
                              inl refl,
                              (
                                inl refl,
                                (
                                  inl refl,
                                  (
                                    inl refl,
                                    (
                                      inl refl,
                                      (
                                        inl refl,
                                        (
                                          inl refl,
                                          (
                                            inl refl,
                                            (
                                              inl refl,
                                              (
                                                inl refl,
                                                (
                                                  inl refl,
                                                  (
                                                    inl refl,
                                                    (
                                                      inl refl,
                                                      (
                                                        inl refl,
                                                        (
                                                          inl refl,
                                                          (
                                                            inl refl,
                                                            (
                                                            inl refl,
                                                            (
                                                            inl refl,
                                                            (
                                                            inl refl,
                                                            (
                                                            inl refl,
                                                            (
                                                            inl refl,
                                                            (
                                                            inl refl,
                                                            (
                                                            inl refl,
                                                            (
                                                            inl refl,
                                                            (
                                                            inl refl,
                                                            (inl refl, (inl refl, (inl refl, tt))),
                                                            ),
                                                            ),
                                                            ),
                                                            ),
                                                            ),
                                                            ),
                                                            ),
                                                            ),
                                                            ),
                                                          ),
                                                        ),
                                                      ),
                                                    ),
                                                  ),
                                                ),
                                              ),
                                            ),
                                          ),
                                        ),
                                      ),
                                    ),
                                  ),
                                ),
                              ),
                            ),
                          ),
                        ),
                      ),
                    ),
                  ),
                ),
              ),
            ),
          ),
        ),
      ),
    ),
  ),
)

first_match-Names :
    (s : String) (t : CipherType) (xs : List (String × CipherType))
    → All (λ arm. Names (arm.0) (arm.1)) xs
    → first_match s xs ≡ ok t
    → Names s t
unfolding first_match
first_match-Names s t [] h e = cc
first_match-Names s t ((pattern, u) ∷ xs) (named, h) e = elim (Bool-cases (str_eq s pattern)) [
  | inl same ↦
      let e' = rw (same, first_match) at e in
      let same_type : u ≡ t = cc in
      subst (Names s) same_type (subst (λ x. Names x u) (sym ((eq_iff s pattern).0 same)) named)
  | inr other ↦ let e' = rw (other, first_match) at e in first_match-Names s t xs h e'
]

-- A text is read as a cipher type exactly if it is the name that the type is shown by, or it is
-- empty and the type is `table`.
pub from_str_iff : (s : String) (t : CipherType) → (from_str s ≡ ok t) ↔ Names s t
unfolding from_str
from_str_iff s t = (λ e. first_match-Names s t arms arms_name e, back)
  where
    back : Names s t → first_match s arms ≡ ok t
    back (inl e) = ap from_str e ∙ from_str-to_string t
    back (inr (e, f)) = ap from_str e ∙ ap ok (sym f)
