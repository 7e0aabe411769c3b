-- ===== src/Io/Utf8.antt =====
-- `String::from_utf8` of the standard library: which byte sequences are UTF-8 (Unicode, table 3-7).
use shadowsocks_rust.Common.{
  ℕ, zero, suc, List, [], ◌∷◌, Bool, true, false, ◌&&◌, Option, none, some, leb, ◌==◌, ◌≡◌, refl,
  if◌then◌else◌,
}

-- `within n lo hi`: inside a character, with `n` + 1 bytes to come, the next one from `lo` to `hi`.
pub data Utf8State : Type 0 where
  start : Utf8State
  within : ℕ → ℕ → ℕ → Utf8State

abbrev between : ℕ → ℕ → ℕ → Bool
between lo hi b = leb lo b && leb b hi

first_byte : ℕ → Option Utf8State
first_byte b =
    if leb b 0x7f
    then some start
    else if between 0xc2 0xdf b
    then some (within 0 0x80 0xbf)
    else if b == 0xe0
    then some (within 1 0xa0 0xbf)
    else if b == 0xed
    then some (within 1 0x80 0x9f)
    else if between 0xe1 0xef b
    then some (within 1 0x80 0xbf)
    else if b == 0xf0
    then some (within 2 0x90 0xbf)
    else if between 0xf1 0xf3 b
    then some (within 2 0x80 0xbf)
    else if b == 0xf4
    then some (within 2 0x80 0x8f)
    else none

utf8_step : Utf8State → ℕ → Option Utf8State
unfolding first_byte
utf8_step start b = first_byte b
utf8_step (within zero lo hi) b = if between lo hi b then some start else none
utf8_step (within (suc n) lo hi) b = if between lo hi b then some (within n 0x80 0xbf) else none

utf8_from : Utf8State → List ℕ → Bool
unfolding utf8_step
utf8_from start [] = true
utf8_from (within n lo hi) [] = false
utf8_from s (b ∷ bs) = elim (utf8_step s b) [ none ↦ false | some t ↦ utf8_from t bs ]

-- The check of `String::from_utf8`.
unfoldable pub is_utf8 : List ℕ → Bool
unfolding utf8_from
is_utf8 bs = utf8_from start bs

-- "é" and "€", and an overlong "/".
is_utf8_accepts : is_utf8 (0xc3 ∷ 0xa9 ∷ 0xe2 ∷ 0x82 ∷ 0xac ∷ []) ≡ true
unfolding is_utf8
is_utf8_accepts = refl

is_utf8_refuses : is_utf8 (0xc0 ∷ 0xaf ∷ []) ≡ false
unfolding is_utf8
is_utf8_refuses = refl
