-- ===== src/Crypto/CipherType.antt =====
-- crypto/cipher.rs: the cipher types, their names and categories, with every feature of the build on.
use Prim.Native.String.{String}
use text.Mathlib.Text.{◌==◌ as str_eq}
use shadowsocks_rust.Common.{List, [], ◌∷◌, if◌then◌else◌}
use shadowsocks_rust.Common.Outcome.{Outcome, ok, err}

pub data CipherError : Type 0 where
  unknown_cipher_type : CipherError

pub data CipherType : Type 0 where
  table plain aes128_cfb aes128_cfb1 aes128_cfb8 aes128_cfb128 aes192_cfb aes192_cfb1 aes192_cfb8
        aes192_cfb128 aes256_cfb aes256_cfb1 aes256_cfb8 aes256_cfb128 aes128_ctr aes192_ctr
        aes256_ctr camellia128_cfb camellia192_cfb camellia256_cfb camellia128_cfb1 camellia192_cfb1
        camellia256_cfb1 camellia128_cfb8 camellia192_cfb8 camellia256_cfb8 camellia128_cfb128
        camellia192_cfb128 camellia256_cfb128 rc4 rc4_md5 chacha20 salsa20 xsalsa20 chacha20_ietf
        aes128_gcm aes256_gcm chacha20_ietf_poly1305 xchacha20_ietf_poly1305 aes128_pmac_siv
        aes256_pmac_siv :
      CipherType

pub data CipherCategory : Type 0 where
  stream aead : CipherCategory

abbrev pub cipher_aes_128_cfb : String
cipher_aes_128_cfb = "aes-128-cfb"

abbrev pub cipher_aes_128_cfb_1 : String
cipher_aes_128_cfb_1 = "aes-128-cfb1"

abbrev pub cipher_aes_128_cfb_8 : String
cipher_aes_128_cfb_8 = "aes-128-cfb8"

abbrev pub cipher_aes_128_cfb_128 : String
cipher_aes_128_cfb_128 = "aes-128-cfb128"

abbrev pub cipher_aes_192_cfb : String
cipher_aes_192_cfb = "aes-192-cfb"

abbrev pub cipher_aes_192_cfb_1 : String
cipher_aes_192_cfb_1 = "aes-192-cfb1"

abbrev pub cipher_aes_192_cfb_8 : String
cipher_aes_192_cfb_8 = "aes-192-cfb8"

abbrev pub cipher_aes_192_cfb_128 : String
cipher_aes_192_cfb_128 = "aes-192-cfb128"

abbrev pub cipher_aes_256_cfb : String
cipher_aes_256_cfb = "aes-256-cfb"

abbrev pub cipher_aes_256_cfb_1 : String
cipher_aes_256_cfb_1 = "aes-256-cfb1"

abbrev pub cipher_aes_256_cfb_8 : String
cipher_aes_256_cfb_8 = "aes-256-cfb8"

abbrev pub cipher_aes_256_cfb_128 : String
cipher_aes_256_cfb_128 = "aes-256-cfb128"

abbrev pub cipher_aes_128_ctr : String
cipher_aes_128_ctr = "aes-128-ctr"

abbrev pub cipher_aes_192_ctr : String
cipher_aes_192_ctr = "aes-192-ctr"

abbrev pub cipher_aes_256_ctr : String
cipher_aes_256_ctr = "aes-256-ctr"

abbrev pub cipher_camellia_128_cfb : String
cipher_camellia_128_cfb = "camellia-128-cfb"

abbrev pub cipher_camellia_192_cfb : String
cipher_camellia_192_cfb = "camellia-192-cfb"

abbrev pub cipher_camellia_256_cfb : String
cipher_camellia_256_cfb = "camellia-256-cfb"

abbrev pub cipher_camellia_128_cfb_1 : String
cipher_camellia_128_cfb_1 = "camellia-128-cfb1"

abbrev pub cipher_camellia_192_cfb_1 : String
cipher_camellia_192_cfb_1 = "camellia-192-cfb1"

abbrev pub cipher_camellia_256_cfb_1 : String
cipher_camellia_256_cfb_1 = "camellia-256-cfb1"

abbrev pub cipher_camellia_128_cfb_8 : String
cipher_camellia_128_cfb_8 = "camellia-128-cfb8"

abbrev pub cipher_camellia_192_cfb_8 : String
cipher_camellia_192_cfb_8 = "camellia-192-cfb8"

abbrev pub cipher_camellia_256_cfb_8 : String
cipher_camellia_256_cfb_8 = "camellia-256-cfb8"

abbrev pub cipher_camellia_128_cfb_128 : String
cipher_camellia_128_cfb_128 = "camellia-128-cfb128"

abbrev pub cipher_camellia_192_cfb_128 : String
cipher_camellia_192_cfb_128 = "camellia-192-cfb128"

abbrev pub cipher_camellia_256_cfb_128 : String
cipher_camellia_256_cfb_128 = "camellia-256-cfb128"

abbrev pub cipher_rc4 : String
cipher_rc4 = "rc4"

abbrev pub cipher_rc4_md5 : String
cipher_rc4_md5 = "rc4-md5"

abbrev pub cipher_table : String
cipher_table = "table"

abbrev pub cipher_chacha20 : String
cipher_chacha20 = "chacha20"

abbrev pub cipher_salsa20 : String
cipher_salsa20 = "salsa20"

abbrev pub cipher_xsalsa20 : String
cipher_xsalsa20 = "xsalsa20"

abbrev pub cipher_chacha20_ietf : String
cipher_chacha20_ietf = "chacha20-ietf"

abbrev pub cipher_aes_128_pmac_siv : String
cipher_aes_128_pmac_siv = "aes-128-pmac-siv"

abbrev pub cipher_aes_256_pmac_siv : String
cipher_aes_256_pmac_siv = "aes-256-pmac-siv"

abbrev pub cipher_plain : String
cipher_plain = "plain"

abbrev pub cipher_aes_128_gcm : String
cipher_aes_128_gcm = "aes-128-gcm"

abbrev pub cipher_aes_256_gcm : String
cipher_aes_256_gcm = "aes-256-gcm"

abbrev pub cipher_chacha20_ietf_poly1305 : String
cipher_chacha20_ietf_poly1305 = "chacha20-ietf-poly1305"

abbrev pub cipher_xchacha20_ietf_poly1305 : String
cipher_xchacha20_ietf_poly1305 = "xchacha20-ietf-poly1305"

-- `Display`.
unfoldable pub to_string : CipherType → String
to_string table = cipher_table
to_string plain = cipher_plain
to_string aes128_cfb = cipher_aes_128_cfb
to_string aes128_cfb1 = cipher_aes_128_cfb_1
to_string aes128_cfb8 = cipher_aes_128_cfb_8
to_string aes128_cfb128 = cipher_aes_128_cfb_128
to_string aes192_cfb = cipher_aes_192_cfb
to_string aes192_cfb1 = cipher_aes_192_cfb_1
to_string aes192_cfb8 = cipher_aes_192_cfb_8
to_string aes192_cfb128 = cipher_aes_192_cfb_128
to_string aes256_cfb = cipher_aes_256_cfb
to_string aes256_cfb1 = cipher_aes_256_cfb_1
to_string aes256_cfb8 = cipher_aes_256_cfb_8
to_string aes256_cfb128 = cipher_aes_256_cfb_128
to_string aes128_ctr = cipher_aes_128_ctr
to_string aes192_ctr = cipher_aes_192_ctr
to_string aes256_ctr = cipher_aes_256_ctr
to_string camellia128_cfb = cipher_camellia_128_cfb
to_string camellia128_cfb1 = cipher_camellia_128_cfb_1
to_string camellia128_cfb8 = cipher_camellia_128_cfb_8
to_string camellia128_cfb128 = cipher_camellia_128_cfb_128
to_string camellia192_cfb = cipher_camellia_192_cfb
to_string camellia192_cfb1 = cipher_camellia_192_cfb_1
to_string camellia192_cfb8 = cipher_camellia_192_cfb_8
to_string camellia192_cfb128 = cipher_camellia_192_cfb_128
to_string camellia256_cfb = cipher_camellia_256_cfb
to_string camellia256_cfb1 = cipher_camellia_256_cfb_1
to_string camellia256_cfb8 = cipher_camellia_256_cfb_8
to_string camellia256_cfb128 = cipher_camellia_256_cfb_128
to_string rc4 = cipher_rc4
to_string rc4_md5 = cipher_rc4_md5
to_string chacha20 = cipher_chacha20
to_string salsa20 = cipher_salsa20
to_string xsalsa20 = cipher_xsalsa20
to_string chacha20_ietf = cipher_chacha20_ietf
to_string aes128_gcm = cipher_aes_128_gcm
to_string aes256_gcm = cipher_aes_256_gcm
to_string chacha20_ietf_poly1305 = cipher_chacha20_ietf_poly1305
to_string xchacha20_ietf_poly1305 = cipher_xchacha20_ietf_poly1305
to_string aes128_pmac_siv = cipher_aes_128_pmac_siv
to_string aes256_pmac_siv = cipher_aes_256_pmac_siv

-- The arms of the match in `from_str`, in their order.
abbrev pub arms : List (String × CipherType)
arms =
    (cipher_table, table)
    ∷ ("", table)
    ∷ (cipher_plain, plain)
    ∷ (cipher_aes_128_cfb, aes128_cfb)
    ∷ (cipher_aes_128_cfb_1, aes128_cfb1)
    ∷ (cipher_aes_128_cfb_8, aes128_cfb8)
    ∷ (cipher_aes_128_cfb_128, aes128_cfb128)
    ∷ (cipher_aes_192_cfb, aes192_cfb)
    ∷ (cipher_aes_192_cfb_1, aes192_cfb1)
    ∷ (cipher_aes_192_cfb_8, aes192_cfb8)
    ∷ (cipher_aes_192_cfb_128, aes192_cfb128)
    ∷ (cipher_aes_256_cfb, aes256_cfb)
    ∷ (cipher_aes_256_cfb_1, aes256_cfb1)
    ∷ (cipher_aes_256_cfb_8, aes256_cfb8)
    ∷ (cipher_aes_256_cfb_128, aes256_cfb128)
    ∷ (cipher_aes_128_ctr, aes128_ctr)
    ∷ (cipher_aes_192_ctr, aes192_ctr)
    ∷ (cipher_aes_256_ctr, aes256_ctr)
    ∷ (cipher_camellia_128_cfb, camellia128_cfb)
    ∷ (cipher_camellia_128_cfb_1, camellia128_cfb1)
    ∷ (cipher_camellia_128_cfb_8, camellia128_cfb8)
    ∷ (cipher_camellia_128_cfb_128, camellia128_cfb128)
    ∷ (cipher_camellia_192_cfb, camellia192_cfb)
    ∷ (cipher_camellia_192_cfb_1, camellia192_cfb1)
    ∷ (cipher_camellia_192_cfb_8, camellia192_cfb8)
    ∷ (cipher_camellia_192_cfb_128, camellia192_cfb128)
    ∷ (cipher_camellia_256_cfb, camellia256_cfb)
    ∷ (cipher_camellia_256_cfb_1, camellia256_cfb1)
    ∷ (cipher_camellia_256_cfb_8, camellia256_cfb8)
    ∷ (cipher_camellia_256_cfb_128, camellia256_cfb128)
    ∷ (cipher_rc4, rc4)
    ∷ (cipher_rc4_md5, rc4_md5)
    ∷ (cipher_chacha20, chacha20)
    ∷ (cipher_salsa20, salsa20)
    ∷ (cipher_xsalsa20, xsalsa20)
    ∷ (cipher_chacha20_ietf, chacha20_ietf)
    ∷ (cipher_aes_128_gcm, aes128_gcm)
    ∷ (cipher_aes_256_gcm, aes256_gcm)
    ∷ (cipher_chacha20_ietf_poly1305, chacha20_ietf_poly1305)
    ∷ (cipher_xchacha20_ietf_poly1305, xchacha20_ietf_poly1305)
    ∷ (cipher_aes_128_pmac_siv, aes128_pmac_siv)
    ∷ (cipher_aes_256_pmac_siv, aes256_pmac_siv)
    ∷ []

unfoldable pub first_match : String → List (String × CipherType) → Outcome CipherError CipherType
first_match s [] = err unknown_cipher_type
first_match s ((pattern, t) ∷ rest) =
    let later = first_match s rest in if str_eq s pattern then ok t else later

unfoldable pub from_str : String → Outcome CipherError CipherType
unfolding first_match
from_str s = first_match s arms

unfoldable pub category : CipherType → CipherCategory
category aes128_gcm = aead
category aes256_gcm = aead
category chacha20_ietf_poly1305 = aead
category xchacha20_ietf_poly1305 = aead
category aes128_pmac_siv = aead
category aes256_pmac_siv = aead
category _ = stream
