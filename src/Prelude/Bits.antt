-- ===== src/Prelude/Bits.antt =====
-- Laws of the native bit operations, which the libraries give by a recursion on binary digits.
use Prim.Native.Nat.{
  min, max, differ, digits, bit_and, bit_or, bit_xor, bit_and-bitwise, bit_or-bitwise,
  bit_xor-bitwise,
}
use native.Mathlib.Nat.{pow-suc}
use plbench.Prelude.{ℕ, zero, suc, ◌+◌, ◌*◌, ◌/◌, ◌%◌, ◌^◌, ◌≤◌, ◌<◌, ◌≡◌, refl, ap, arith}

-- An operation on digits stays within the width of its operands.
module _ (z : ℕ → ℕ) (f : ℕ → ℕ → ℕ) (z-le : (b : ℕ) → z b ≤ b)
    (f-le : (a b : ℕ) → a ≤ 1 → b ≤ 1 → f a b ≤ 1) where
  digits-lt-pow : (k n a b : ℕ) → a < 2 ^ k → b < 2 ^ k → digits z f n a b < 2 ^ k
  digits-lt-pow k zero a b p q = omega (arith, z-le b)
  digits-lt-pow k (suc n) zero b p q = omega (arith, z-le b)
  digits-lt-pow zero (suc n) (suc a) b p q = absurd (omega arith)
  digits-lt-pow (suc k) (suc n) (suc a) b p q = omega (
    arith,
    pow-suc 2 k,
    f-le (suc a % 2) (b % 2) (omega arith) (omega arith),
    digits-lt-pow k n (suc a / 2) (b / 2) (omega (arith, pow-suc 2 k)) (omega (arith, pow-suc 2 k)),
  )

-- Two binary digits differ or not.
differ-le : (a b : ℕ) → a ≤ 1 → b ≤ 1 → differ a b ≤ 1
differ-le zero b p q = q
differ-le (suc a) zero p q = p
differ-le (suc a) (suc b) p q = differ-le a b (omega arith) (omega arith)

pub bit_and-lt : (k a b : ℕ) → a < 2 ^ k → b < 2 ^ k → bit_and a b < 2 ^ k
bit_and-lt k a b p q =
    rw bit_and-bitwise
      (digits-lt-pow (λ b. 0) min (λ b. omega arith) (λ a b p q. omega arith) k a a b p q)

pub bit_or-lt : (k a b : ℕ) → a < 2 ^ k → b < 2 ^ k → bit_or a b < 2 ^ k
bit_or-lt k a b p q =
    rw bit_or-bitwise
      (digits-lt-pow (λ b. b) max (λ b. omega arith) (λ a b p q. omega arith) k a a b p q)

pub bit_xor-lt : (k a b : ℕ) → a < 2 ^ k → b < 2 ^ k → bit_xor a b < 2 ^ k
bit_xor-lt k a b p q =
    rw bit_xor-bitwise (digits-lt-pow (λ b. b) differ (λ b. omega arith) differ-le k a a b p q)

or_digits : (k n a q r : ℕ) → a ≡ q * 2 ^ k → r < 2 ^ k → a ≤ n → digits (λ b. b) max n a r ≡ a + r
or_digits k zero a q r e lt le = omega arith
or_digits k (suc n) zero q r e lt le = omega arith
or_digits zero (suc n) (suc a) q r e lt le = omega (
  arith,
  or_digits zero n (suc a / 2) (suc a / 2) (r / 2) (omega arith) (omega arith) (omega arith),
)
or_digits (suc k) (suc n) (suc a) q r e lt le = omega (
  arith,
  ap (λ (t : ℕ). q * t) (pow-suc 2 k),
  pow-suc 2 k,
  or_digits k n (suc a / 2) q (r / 2) (omega (arith, ap (λ (t : ℕ). q * t) (pow-suc 2 k)))
      (omega (arith, pow-suc 2 k)) (omega arith),
)

-- `(q << k) | r` is a sum where `r` fits into the `k` bits that the shift left free.
pub bit_or-disjoint : (k q r : ℕ) → r < 2 ^ k → bit_or (q * 2 ^ k) r ≡ q * 2 ^ k + r
bit_or-disjoint k q r lt =
    rw bit_or-bitwise (or_digits k (q * 2 ^ k) (q * 2 ^ k) q r refl lt (omega arith))
