-- ===== src/Token/Bits.antt =====
-- When the bits of two numbers are all the same, and when none is set.
use Prim.Native.Nat.{
  max, digits, differ, bit_or, bit_xor, bit_or-bitwise, bit_xor-bitwise, ◌/◌, ◌%◌,
}
use native.Mathlib.Nat.{le_refl}
use aku_supervisor.Base.{ℕ, zero, suc, ◌≤◌, ◌≡◌, refl, arith}

or_digits : (n a b : ℕ) → a ≤ n → digits (λ y. y) max n a b ≡ 0 → (a ≡ 0) × (b ≡ 0)
or_digits zero a b le e = (omega arith, e)
or_digits (suc n) zero b le e = (refl, e)
or_digits (suc n) (suc a) b le e =
    let (half, _) = or_digits n (suc a / 2) (b / 2) (omega arith) (omega (arith, e)) in
    absurd (omega (arith, e, half))

pub bit_or-zero : (a b : ℕ) → bit_or a b ≡ 0 → (a ≡ 0) × (b ≡ 0)
bit_or-zero a b e = or_digits a a b (le_refl _) (simp bit_or-bitwise at e)

differ-zero : (x y : ℕ) → differ x y ≡ 0 → x ≡ y
differ-zero zero y e = omega (arith, e)
differ-zero (suc x) zero e = e
differ-zero (suc x) (suc y) e = omega (arith, differ-zero x y e)

differ_same : (x : ℕ) → differ x x ≡ 0
differ_same zero = refl
differ_same (suc x) = differ_same x

xor_digits : (n a b : ℕ) → a ≤ n → digits (λ y. y) differ n a b ≡ 0 → a ≡ b
xor_digits zero a b le e = omega (arith, e)
xor_digits (suc n) zero b le e = omega (arith, e)
xor_digits (suc n) (suc a) b le e =
    let half = xor_digits n (suc a / 2) (b / 2) (omega arith) (omega (arith, e)) in
    let digit = differ-zero (suc a % 2) (b % 2) (omega (arith, e)) in omega (arith, half, digit)

pub bit_xor-zero : (a b : ℕ) → bit_xor a b ≡ 0 → a ≡ b
bit_xor-zero a b e = xor_digits a a b (le_refl _) (simp bit_xor-bitwise at e)

same_digits : (n a : ℕ) → a ≤ n → digits (λ y. y) differ n a a ≡ 0
same_digits zero a le = omega arith
same_digits (suc n) zero le = refl
same_digits (suc n) (suc a) le =
    omega (arith, same_digits n (suc a / 2) (omega arith), differ_same (suc a % 2))

pub bit_xor_same : (a : ℕ) → bit_xor a a ≡ 0
bit_xor_same a = simp bit_xor-bitwise (same_digits a a (le_refl _))
