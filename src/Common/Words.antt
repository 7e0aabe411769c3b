-- ===== src/Common/Words.antt =====
-- Bytes and big-endian words: Rust's `u8`, `u16` and the conversions between them.
use Prim.Native.Nat.{ℕ, ◌+◌, ◌*◌, ◌/◌, ◌%◌, ◌≤◌, ◌<◌}
use mathlib.Core.Path.{◌≡◌}
use native.Mathlib.Omega.{arith}

abbrev pub IsU8 : ℕ → Type 0
IsU8 n = n < 256

abbrev pub IsU16 : ℕ → Type 0
IsU16 n = n < 65536

-- `n as u8`.
abbrev pub to_u8 : ℕ → ℕ
to_u8 n = n % 256

pub to_u8_small : (n : ℕ) → n ≤ 255 → to_u8 n ≡ n
to_u8_small n h = omega arith

-- The high and the low byte of a `u16`.
abbrev pub high_byte : ℕ → ℕ
high_byte n = n / 256 % 256

abbrev pub low_byte : ℕ → ℕ
low_byte n = n % 256

-- A `u16` from its two bytes, the most significant one first.
abbrev pub u16_of : ℕ → ℕ → ℕ
u16_of high low = high * 256 + low

pub u16_of-bytes : (n : ℕ) → IsU16 n → u16_of (high_byte n) (low_byte n) ≡ n
u16_of-bytes n h = omega arith

pub high_byte-u16_of : (high low : ℕ) → IsU8 high → IsU8 low → high_byte (u16_of high low) ≡ high
high_byte-u16_of high low hh hl = omega arith

pub low_byte-u16_of : (high low : ℕ) → IsU8 low → low_byte (u16_of high low) ≡ low
low_byte-u16_of high low hl = omega arith
