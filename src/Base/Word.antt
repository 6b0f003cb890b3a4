-- ===== src/Base/Word.antt =====
-- Machine words: conversion of an integer to an unsigned or a signed word of w bits, and the
-- unsigned sums of 64 bits. The wrap-around is written out.
use Prim.Native.Nat.{ℕ, ◌+◌, ◌-◌, ◌*◌, ◌%◌, ◌^◌, ◌<◌, ◌≤◌}
use mathlib.Core.Path.{◌≡◌}
use native.Mathlib.Omega.{arith}
use lustre_tools.Base.Tests.{ltb, if◌then◌else◌}
use lustre_tools.Base.Int.{ℤ, pos, negsuc, pos_part, neg_part}

unfoldable pub to_u64 : ℤ → ℕ
to_u64 (pos n) = n % 2 ^ 64
to_u64 (negsuc n) = 2 ^ 64 - 1 - n % 2 ^ 64

unfoldable pub to_u32 : ℤ → ℕ
to_u32 (pos n) = n % 2 ^ 32
to_u32 (negsuc n) = 2 ^ 32 - 1 - n % 2 ^ 32

-- The signed word with the bits of an unsigned one.
unfoldable pub signed64 : ℕ → ℤ
signed64 u = if ltb u (2 ^ 63) then pos u else negsuc (2 ^ 64 - 1 - u)

unfoldable pub signed32 : ℕ → ℤ
signed32 u = if ltb u (2 ^ 31) then pos u else negsuc (2 ^ 32 - 1 - u)

unfoldable pub to_s64 : ℤ → ℤ
unfolding to_u64 signed64
to_s64 x = signed64 (to_u64 x)

unfoldable pub to_s32 : ℤ → ℤ
unfolding to_u32 signed32
to_s32 x = signed32 (to_u32 x)

abbrev pub add_u64 : ℕ → ℕ → ℕ
add_u64 a b = (a + b) % 2 ^ 64

abbrev pub sub_u64 : ℕ → ℕ → ℕ
sub_u64 a b = (a + 2 ^ 64 - b) % 2 ^ 64

abbrev pub mul_u64 : ℕ → ℕ → ℕ
mul_u64 a b = (a * b) % 2 ^ 64

-- Within its range an integer is its own word.
pub to_s64_self : (x : ℤ) → pos_part x < 2 ^ 63 → neg_part x ≤ 2 ^ 63 → to_s64 x ≡ x
unfolding to_s64
to_s64_self x h k = ground arith

pub to_s32_self : (x : ℤ) → pos_part x < 2 ^ 31 → neg_part x ≤ 2 ^ 31 → to_s32 x ≡ x
unfolding to_s32
to_s32_self x h k = ground arith

-- Every word is in its range.
pub to_s32_bounds : (x : ℤ) → (pos_part (to_s32 x) < 2 ^ 31) × (neg_part (to_s32 x) ≤ 2 ^ 31)
unfolding to_s32
to_s32_bounds x = ground arith
