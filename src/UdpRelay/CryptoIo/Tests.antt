-- ===== src/UdpRelay/CryptoIo/Tests.antt =====
-- Packets of the UDP relay on small sizes: nonces of two bytes, a cipher that copies, exact sets.
use shadowsocks_rust.Common.{
  ℕ, zero, suc, ◌+◌, ◌≡◌, refl, sym, ap, ◌∙◌, inl, inr, List, [], ◌∷◌, ◌++◌, append-nil, length,
  drop, arith, some,
}
use shadowsocks_rust.Common.Outcome.{Outcome, ok, err, panic}
use shadowsocks_rust.Io.{IoError}
use shadowsocks_rust.Crypto.{AeadCipher, StreamCipher}
use shadowsocks_rust.Crypto.CipherType.{
  CipherType, stream, category, table, plain, aes128_cfb, aes128_cfb1, aes128_cfb8, aes128_cfb128,
  aes192_cfb, aes192_cfb1, aes192_cfb8, aes192_cfb128, aes256_cfb, aes256_cfb1, aes256_cfb8,
  aes256_cfb128, aes128_ctr, aes192_ctr, aes256_ctr, camellia128_cfb, camellia192_cfb,
  camellia256_cfb, camellia128_cfb1, camellia192_cfb1, camellia256_cfb1, camellia128_cfb8,
  camellia192_cfb8, camellia256_cfb8, camellia128_cfb128, camellia192_cfb128, camellia256_cfb128,
  rc4, rc4_md5, chacha20, salsa20, xsalsa20, chacha20_ietf, aes128_gcm, aes256_gcm,
  chacha20_ietf_poly1305, xchacha20_ietf_poly1305, aes128_pmac_siv, aes256_pmac_siv,
}
use shadowsocks_rust.Crypto.Sizes.{
  SymmName, Backends, iv_size, tag_size, tag_size_of, symm_aes_128_cfb1,
}
use shadowsocks_rust.Replay.{
  PingPongBloom, check_all, check_nonce_and_set, check_and_set, insert_item,
}
use shadowsocks_rust.Replay.Invariant.{Inv}
use shadowsocks_rust.Replay.Tests.{sets, small}
use shadowsocks_rust.UdpRelay.CryptoIo.{
  Suite, repeated_error, encrypt_payload, encrypt_payload_stream, draw_nonce, decrypt_payload,
  decrypt_payload_stream, checked, open_stream,
}
use shadowsocks_rust.UdpRelay.CryptoIo.Nonces.{IsDraw, IsNew, FirstNew, draw_nonce_ends}
use shadowsocks_rust.UdpRelay.CryptoIo.Packets.{Answered, decrypt_payload-Answered, replayed_packet}
use shadowsocks_rust.UdpRelay.CryptoIo.Sealed.{packet_round_trip}

abbrev pub tiny : Backends
tiny = record {
  Symm = SymmName;
  named = λ n. n;
  from_nid = λ n. some symm_aes_128_cfb1;
  key_len = λ n. 4;
  iv_len = λ n. some 2;
  ring_key_len = λ n. 3;
  ring_nonce_len = λ n. 12;
  ring_tag_len = λ n. 16;
}

pub same_text :
    (x y z : List ℕ) (c : ℕ)
    → ◌≡◌ {A = Outcome IoError (List ℕ × ℕ)} (ok (x, 0)) (ok (y, c))
    → ◌≡◌ {A = Outcome IoError (List ℕ)} (ok []) (ok z)
    → (y ++ z) ++ [] ≡ x
same_text x y z c e f =
    let same : x ≡ y = ap (λ o. elim o [ ok r ↦ r.0 | err _ ↦ x | panic ↦ x ]) e in
    let no_more : [] ≡ z = cc in
    append-nil (y ++ z) ∙ ap (λ w. y ++ w) (sym no_more) ∙ append-nil y ∙ sym same

abbrev pub copies : StreamCipher
copies = record {
  Cipher = ℕ;
  new_encrypt = λ key iv. 0;
  new_decrypt = λ key iv. 0;
  update = λ c x. ok (x, c);
  finalize = λ c. ok [];
  decrypt-encrypt = λ key iv x y z c e f. (y ++ z, [], 0, refl, refl, same_text x y z c e f);
}

abbrev tag_of : ℕ → List ℕ
tag_of e = e ∷ 0 ∷ 0 ∷ 0 ∷ 0 ∷ 0 ∷ 0 ∷ 0 ∷ 0 ∷ 0 ∷ 0 ∷ 0 ∷ 0 ∷ 0 ∷ 0 ∷ 0 ∷ []

pub length-tagged : (e : ℕ) (x : List ℕ) → length (tag_of e ++ x) ≡ length x + 16
length-tagged e x = omega arith

abbrev pub tags : AeadCipher
tags = record {
  Encryptor = ℕ;
  Decryptor = ℕ;
  new_enc = λ key salt. 0;
  new_dec = λ key salt. 0;
  tag_size = 16;
  encrypt = λ e x. (tag_of e ++ x, suc e);
  decrypt = λ d y. (some (drop 16 y), suc d);
  InStep = λ e d. e ≡ d;
  new-InStep = λ key salt. refl;
  length-encrypt = length-tagged;
  decrypt-encrypt = λ e d x same. (suc d, refl, ap suc same);
}

pub tag_size-tags : (t : CipherType) (n : ℕ) → tag_size tiny t ≡ ok n → 16 ≡ n
unfolding tag_size tag_size_of category
tag_size-tags table n e = cc
tag_size-tags plain n e = cc
tag_size-tags aes128_cfb n e = cc
tag_size-tags aes128_cfb1 n e = cc
tag_size-tags aes128_cfb8 n e = cc
tag_size-tags aes128_cfb128 n e = cc
tag_size-tags aes192_cfb n e = cc
tag_size-tags aes192_cfb1 n e = cc
tag_size-tags aes192_cfb8 n e = cc
tag_size-tags aes192_cfb128 n e = cc
tag_size-tags aes256_cfb n e = cc
tag_size-tags aes256_cfb1 n e = cc
tag_size-tags aes256_cfb8 n e = cc
tag_size-tags aes256_cfb128 n e = cc
tag_size-tags aes128_ctr n e = cc
tag_size-tags aes192_ctr n e = cc
tag_size-tags aes256_ctr n e = cc
tag_size-tags camellia128_cfb n e = cc
tag_size-tags camellia192_cfb n e = cc
tag_size-tags camellia256_cfb n e = cc
tag_size-tags camellia128_cfb1 n e = cc
tag_size-tags camellia192_cfb1 n e = cc
tag_size-tags camellia256_cfb1 n e = cc
tag_size-tags camellia128_cfb8 n e = cc
tag_size-tags camellia192_cfb8 n e = cc
tag_size-tags camellia256_cfb8 n e = cc
tag_size-tags camellia128_cfb128 n e = cc
tag_size-tags camellia192_cfb128 n e = cc
tag_size-tags camellia256_cfb128 n e = cc
tag_size-tags rc4 n e = cc
tag_size-tags rc4_md5 n e = cc
tag_size-tags chacha20 n e = cc
tag_size-tags salsa20 n e = cc
tag_size-tags xsalsa20 n e = cc
tag_size-tags chacha20_ietf n e = cc
tag_size-tags aes128_gcm n e = cc
tag_size-tags aes256_gcm n e = cc
tag_size-tags chacha20_ietf_poly1305 n e = cc
tag_size-tags xchacha20_ietf_poly1305 n e = cc
tag_size-tags aes128_pmac_siv n e = cc
tag_size-tags aes256_pmac_siv n e = cc

abbrev pub suite : Suite tiny
suite = record {
  aead_cipher = λ t. tags;
  stream_cipher = λ t. copies;
  tag_size-aead_cipher = tag_size-tags;
}

abbrev pub filled : ℕ → ℕ → List ℕ
filled b zero = []
filled b (suc n) = b ∷ filled b n

pub filled-IsDraw : (b : ℕ) → IsDraw (filled b)
filled-IsDraw b zero = refl
filled-IsDraw b (suc n) = ap suc (filled-IsDraw b n)

pub small-Inv : Inv sets small
small-Inv = ground arith

-- The filters after the nonce 3 3.
abbrev pub small_3 : PingPongBloom sets
small_3 = record {
  blooms = record { at0 = (3 ∷ 3 ∷ []) ∷ []; at1 = [] };
  bloom_count = record { at0 = 1; at1 = 0 };
  item_count = 2;
  current = 0;
}

abbrev sealed : List ℕ
sealed = 3 ∷ 3 ∷ 8 ∷ 9 ∷ []

small-sealed :
    encrypt_payload tiny sets suite aes256_cfb
      (1 ∷ [])
      (8 ∷ 9 ∷ [])
      (filled 3 ∷ filled 4 ∷ [])
      small
    ≡ ok (sealed, small_3)
unfolding encrypt_payload encrypt_payload_stream draw_nonce category iv_size check_nonce_and_set
    check_and_set insert_item
small-sealed = refl

packet_round_trip_example :
    (nonce : List ℕ) × (text : List ℕ) × (sealed ≡ nonce ++ text)
    × IsNew sets nonce small small_3
    × ((r r' : PingPongBloom sets)
        → IsNew sets nonce r r'
        → decrypt_payload tiny sets suite aes256_cfb (1 ∷ []) sealed r
          ≡ (ok (some (8 ∷ 9 ∷ [])), r'))
packet_round_trip_example =
    packet_round_trip tiny sets suite aes256_cfb (1 ∷ []) (8 ∷ 9 ∷ []) sealed
      (filled 3 ∷ filled 4 ∷ []) small small_3 small-Inv (filled-IsDraw 3, (filled-IsDraw 4, tt))
      small-sealed

decrypt_payload-Answered_example :
    Answered tiny sets suite stream aes256_cfb
      (1 ∷ [])
      sealed
      small
      2
      2
      (decrypt_payload tiny sets suite aes256_cfb (1 ∷ []) sealed small)
unfolding category iv_size
decrypt_payload-Answered_example =
    decrypt_payload-Answered tiny sets suite stream aes256_cfb (1 ∷ []) sealed small 2 2 refl
      (refl, refl) small-Inv

small-opened :
    decrypt_payload tiny sets suite aes256_cfb (1 ∷ []) sealed small
    ≡ (ok (some (8 ∷ 9 ∷ [])), small_3)
unfolding decrypt_payload decrypt_payload_stream open_stream checked category iv_size
    check_nonce_and_set check_and_set insert_item
small-opened = refl

replayed_packet_example :
    (q : PingPongBloom sets) × (check_all sets ((4 ∷ 4 ∷ []) ∷ []) small_3 ≡ ok q)
    × (decrypt_payload tiny sets suite aes256_cfb (2 ∷ []) sealed q
        ≡ (err (repeated_error tiny sets suite stream), q))
unfolding category iv_size
replayed_packet_example =
    replayed_packet tiny sets suite stream aes256_cfb (1 ∷ []) (2 ∷ []) sealed (8 ∷ 9 ∷ []) small
      small_3 2 2 ((4 ∷ 4 ∷ []) ∷ []) refl (refl, refl) (omega arith) small-Inv small-opened
      (omega arith)

draw_nonce_ends_example :
    FirstNew tiny sets suite 2
      (filled 3 ∷ filled 4 ∷ [])
      small_3
      (draw_nonce tiny sets suite (ok 2) (filled 3 ∷ filled 4 ∷ []) small_3)
unfolding check_nonce_and_set check_and_set insert_item
draw_nonce_ends_example =
    draw_nonce_ends tiny sets suite 2 (filled 3 ∷ filled 4 ∷ []) small_3 (ground arith)
      (inr (inl (_, refl)))
