-- ===== src/Base/Word.antt =====
-- The fixed widths of C: conversion to `uint16_t`, shifts, and `bswap_16` of <byteswap.h>.
use Prim.Native.Nat.{ℕ, ◌+◌, ◌*◌, ◌/◌, ◌%◌, ◌^◌, ◌<◌}
use mathlib.Core.Path.{◌≡◌}
use native.Mathlib.Omega.{arith}

abbrev pub word_mod : ℕ
word_mod = 2 ^ 16

abbrev pub u16 : ℕ → ℕ
u16 n = n % 2 ^ 16

infixl 75 ◌>>>◌
abbrev pub ◌>>>◌ : ℕ → ℕ → ℕ
x >>> k = x / 2 ^ k

-- The two bytes of a 16-bit value, exchanged.
unfoldable pub bswap_16 : ℕ → ℕ
bswap_16 w = w % 256 * 256 + w / 256

pub bswap_16-bswap_16 : (w : ℕ) → w < 2 ^ 16 → bswap_16 (bswap_16 w) ≡ w
unfolding bswap_16
bswap_16-bswap_16 w h = omega arith

pub bswap_16-lt : (w : ℕ) → w < 2 ^ 16 → bswap_16 w < 2 ^ 16
unfolding bswap_16
bswap_16-lt w h = omega arith
