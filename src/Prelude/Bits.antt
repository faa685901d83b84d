-- ===== src/Prelude/Bits.antt =====
-- `^` on unsigned integers: its lowest digit, and that it undoes itself.
use Prim.Native.Nat.{
  ℕ, zero, suc, ◌+◌, ◌*◌, ◌/◌, ◌%◌, ◌≤◌, digits, differ, bit_xor, bit_xor-bitwise,
}
use mathlib.Core.Path.{◌≡◌, refl}
use mathlib.Core.Logic.{◌⊎◌, inl, inr}
use native.Mathlib.Omega.{arith}

abbrev xor_digits : ℕ → ℕ → ℕ → ℕ
xor_digits n a b = digits (λ b. b) differ n a b

xor_digits_fuel : (n m a b : ℕ) → a ≤ n → a ≤ m → xor_digits n a b ≡ xor_digits m a b
xor_digits_fuel zero zero a b p q = refl
xor_digits_fuel zero (suc m) zero b p q = refl
xor_digits_fuel zero (suc m) (suc a) b p q = absurd (omega arith)
xor_digits_fuel (suc n) zero zero b p q = refl
xor_digits_fuel (suc n) zero (suc a) b p q = absurd (omega arith)
xor_digits_fuel (suc n) (suc m) zero b p q = refl
xor_digits_fuel (suc n) (suc m) (suc a) b p q =
    omega (arith, xor_digits_fuel n m (suc a / 2) (b / 2) (omega arith) (omega arith))

zero-bit_xor : (b : ℕ) → bit_xor 0 b ≡ b
zero-bit_xor b = bit_xor-bitwise 0 b

bit_xor_step : (a b : ℕ) → bit_xor a b ≡ bit_xor (a / 2) (b / 2) * 2 + differ (a % 2) (b % 2)
bit_xor_step zero b = omega (arith, zero-bit_xor b, zero-bit_xor (b / 2))
bit_xor_step (suc a) b = omega (
  arith,
  bit_xor-bitwise (suc a) b,
  bit_xor-bitwise (suc a / 2) (b / 2),
  xor_digits_fuel a (suc a / 2) (suc a / 2) (b / 2) (omega arith) (omega arith),
)

digit_cases : (a : ℕ) → (a % 2 ≡ 0) ⊎ (a % 2 ≡ 1)
digit_cases a = ground arith

differ_twice :
    (a b : ℕ) → (differ (a % 2) (b % 2) ≤ 1) × (differ (differ (a % 2) (b % 2)) (b % 2) ≡ a % 2)
differ_twice a b = elim (digit_cases a) [
  | inl e ↦ elim (digit_cases b) [
    | inl f ↦ rw (e, f) (omega arith, refl)
    | inr f ↦ rw (e, f) (omega arith, refl)
  ]
  | inr e ↦ elim (digit_cases b) [
    | inl f ↦ rw (e, f) (omega arith, refl)
    | inr f ↦ rw (e, f) (omega arith, refl)
  ]
]

bit_xor_halves :
    (a b : ℕ)
    → (bit_xor a b / 2 ≡ bit_xor (a / 2) (b / 2)) × (bit_xor a b % 2 ≡ differ (a % 2) (b % 2))
bit_xor_halves a b =
    let s = bit_xor_step a b in
    let d = differ_twice a b in (omega (arith, s, d.0), omega (arith, s, d.0))

bit_xor_twice_step :
    (a b : ℕ) → bit_xor (bit_xor (a / 2) (b / 2)) (b / 2) ≡ a / 2 → bit_xor (bit_xor a b) b ≡ a
bit_xor_twice_step a b h =
    let k = bit_xor_halves a b in
    let d = differ_twice a b in
    omega (arith, rw (k.0, k.1) at (bit_xor_step (bit_xor a b) b), h, d.1)

bit_xor_twice_fuel : (n a b : ℕ) → a + b ≤ n → bit_xor (bit_xor a b) b ≡ a
bit_xor_twice_fuel zero zero zero p = refl
bit_xor_twice_fuel zero zero (suc b) p = absurd (omega arith)
bit_xor_twice_fuel zero (suc a) b p = absurd (omega arith)
bit_xor_twice_fuel (suc n) zero zero p = refl
bit_xor_twice_fuel (suc n) zero (suc b) p =
    bit_xor_twice_step 0 (suc b) (bit_xor_twice_fuel n 0 (suc b / 2) (omega arith))
bit_xor_twice_fuel (suc n) (suc a) b p =
    bit_xor_twice_step (suc a) b (bit_xor_twice_fuel n (suc a / 2) (b / 2) (omega arith))

pub bit_xor_twice : (a b : ℕ) → bit_xor (bit_xor a b) b ≡ a
bit_xor_twice a b = bit_xor_twice_fuel (a + b) a b (omega arith)
