-- ===== src/Prelude/Int.antt =====
-- Signed integers; an `i64` is such a number within its range.
use Prim.Native.Nat.{ℕ, suc, ◌+◌, ◌-◌, ◌%◌, ◌^◌, ◌<◌, ◌≤◌}
use mathlib.Core.Path.{◌≡◌}
use native.Mathlib.Omega.{arith}
use yh_filemanager_vfs_stora.Prelude.Tests.{leb, ltb, if◌then◌else◌}

-- `negsuc n` is -(n + 1).
pub data ℤ : Type 0 where
  pos : ℕ → ℤ
  negsuc : ℕ → ℤ

abbrev pub pos_part : ℤ → ℕ
pos_part (pos n) = n
pos_part (negsuc n) = 0

abbrev pub neg_part : ℤ → ℕ
neg_part (pos n) = 0
neg_part (negsuc n) = suc n

abbrev pub sub_ℕ : ℕ → ℕ → ℤ
sub_ℕ a b = if leb b a then pos (a - b) else negsuc (b - a - 1)

infixl 65 ◌+ℤ◌
unfoldable pub ◌+ℤ◌ : ℤ → ℤ → ℤ
a +ℤ b = sub_ℕ (pos_part a + pos_part b) (neg_part a + neg_part b)

pub +ℤ_parts :
    (a b : ℤ)
    → pos_part (a +ℤ b) + neg_part a + neg_part b ≡ neg_part (a +ℤ b) + pos_part a + pos_part b
unfolding ◌+ℤ◌
+ℤ_parts a b = ground arith

pub eq_of_parts : (a b : ℤ) → pos_part a + neg_part b ≡ pos_part b + neg_part a → a ≡ b
eq_of_parts a b h = ground arith

pub ruleset int_laws = (arith, +ℤ_parts, eq_of_parts)

-- A number of 64 bits as an `i64`, in two's complement.
abbrev pub signed_64 : ℕ → ℤ
signed_64 n = if ltb n (2 ^ 63) then pos n else negsuc (2 ^ 64 - 1 - n)

-- What an `i64` keeps of a sum: a sum out of range wraps around.
unfoldable pub wrap_i64 : ℤ → ℤ
wrap_i64 (pos n) = signed_64 (n % 2 ^ 64)
wrap_i64 (negsuc n) = signed_64 (2 ^ 64 - 1 - n % 2 ^ 64)

abbrev pub IsI64 : ℤ → Type 0
IsI64 z = (pos_part z < 2 ^ 63) × (neg_part z ≤ 2 ^ 63)

pub wrap_i64_same : (z : ℤ) → IsI64 z → wrap_i64 z ≡ z
unfolding wrap_i64
wrap_i64_same (pos n) h = ground (arith, h)
wrap_i64_same (negsuc n) h = ground (arith, h)

-- `time + span as i64` for a time of the clock and a `u64`. A negative result, which is before every
-- time of the clock, is 0.
unfoldable pub time_after : ℕ → ℕ → ℕ
time_after time span = pos_part (signed_64 ((time + span) % 2 ^ 64))

pub time_after_small : (time span : ℕ) → time + span < 2 ^ 63 → time_after time span ≡ time + span
unfolding time_after
time_after_small time span h = ground (arith, h)
