-- ===== src/Ilvm/Op/Laws.antt =====
-- Addition, subtraction, multiplication, shifts and comparisons against the integers that the patterns stand for.
use native.Mathlib.Nat.{div-add-mod}
use plbench.Prelude.{
  ℕ, zero, suc, ◌+◌, ◌-◌, ◌*◌, ◌/◌, ◌%◌, ◌^◌, ◌≤◌, ◌≡◌, refl, ap, ◌≢◌, ◌↔◌, inl, inr, some, arith,
  ltb, if◌then◌else◌,
}
use plbench.Prelude.Int.{ℤ, pos, negsuc, sub_ℕ, ◌+ℤ◌, ◌-ℤ◌, ◌*ℤ◌, ltb_ℤ}
use plbench.Prelude.Bits.{bit_and-lt, bit_or-lt, bit_xor-lt}
use plbench.Ilvm.Syntax.{
  I32, Op1, Op2, bit_not, add, sub, mul, div, modulo, bit_and, bit_or, bit_xor, shl, shr, u_shr, lt,
  eq,
}
use plbench.Ilvm.Word.{IsWord, signed, wrap, wrap-IsWord, signed-cases}
use plbench.Ilvm.Op.{truncated_div, truncated_rem, eval_op1, eval_op2}

-- A number congruent to a - b is what the difference wraps to.
wrap-sub_ℕ : (a b c i k : ℕ) → c + b + i * 2 ^ 32 ≡ a + k * 2 ^ 32 → c % 2 ^ 32 ≡ wrap (sub_ℕ a b)
wrap-sub_ℕ a b c i k h = ground arith

add_lem : (m n : I32) → IsWord m → IsWord n → (m + n) % 2 ^ 32 ≡ wrap (signed m +ℤ signed n)
add_lem m n p q = ground arith

sub_lem :
    (m n : I32) → IsWord m → IsWord n → (m + 2 ^ 32 - n) % 2 ^ 32 ≡ wrap (signed m -ℤ signed n)
sub_lem m n p q = ground arith

mul_lem : (m n : I32) → IsWord m → IsWord n → (m * n) % 2 ^ 32 ≡ wrap (signed m *ℤ signed n)
mul_lem m n p q = elim (signed-cases m p) [
  | inl (e, _) ↦ elim (signed-cases n q) [
    | inl (f, _) ↦ rw (e, f) (wrap-sub_ℕ _ _ (m * n) 0 0 (omega arith))
    | inr (b, f, s, _) ↦
        rw (e, f) (wrap-sub_ℕ _ _ (m * n) 0 m (omega (arith, ap (λ (t : ℕ). m * t) s)))
  ]
  | inr (a, e, r, _) ↦ elim (signed-cases n q) [
    | inl (f, _) ↦ rw (e, f) (wrap-sub_ℕ _ _ (m * n) 0 n (omega (arith, ap (λ (t : ℕ). t * n) r)))
    | inr (b, f, s, _) ↦
        rw (e, f)
          (wrap-sub_ℕ _ _ (m * n) (suc a) n
            (omega (arith, ap (λ (t : ℕ). t * n) r, ap (λ (t : ℕ). suc a * t) s)))
  ]
]

-- Addition, subtraction and multiplication are those of the integers, wrapped to 32 bits.
pub eval_op2_wraps :
    (m n : I32)
    → IsWord m
    → IsWord n
    → (eval_op2 add m n ≡ some (wrap (signed m +ℤ signed n)))
      × (eval_op2 sub m n ≡ some (wrap (signed m -ℤ signed n)))
      × (eval_op2 mul m n ≡ some (wrap (signed m *ℤ signed n)))
unfolding eval_op2
eval_op2_wraps m n p q =
    (ap some (add_lem m n p q), ap some (sub_lem m n p q), ap some (mul_lem m n p q))

-- The comparisons are those of the signed integers and answer 1 or 0.
eval_op2_compares :
    (m n : I32)
    → IsWord m
    → IsWord n
    → (eval_op2 lt m n ≡ some (if ltb_ℤ (signed m) (signed n) then 1 else 0))
      × ((eval_op2 eq m n ≡ some 1) ↔ (signed m ≡ signed n))
      × ((eval_op2 eq m n ≡ some 0) ↔ (signed m ≢ signed n))
unfolding eval_op2
eval_op2_compares m n p q = (refl, ground arith, ground arith)

-- The quotient rounded down, also of a negative number: negsuc a is -(a + 1).
abbrev pub floor_div : ℤ → ℕ → ℤ
floor_div (pos a) k = pos (a / k)
floor_div (negsuc a) k = negsuc (a / k)

div-le : (a k : ℕ) → a / k ≤ a
div-le a zero = omega arith
div-le a (suc k) = grind (arith, div-add-mod a (suc k))

module _ (m : I32) (p : IsWord m) (k : ℕ) where
  shl_lem : (m * k) % 2 ^ 32 ≡ wrap (signed m *ℤ pos k)
  shl_lem = elim (signed-cases m p) [
    | inl (e, _) ↦ rw e (wrap-sub_ℕ _ _ (m * k) 0 0 (omega arith))
    | inr (a, e, s, _) ↦ rw e (wrap-sub_ℕ _ _ (m * k) 0 k (omega (arith, ap (λ (t : ℕ). t * k) s)))
  ]

  shr_lem :
      signed (if ltb m (2 ^ 31) then m / k else 2 ^ 32 - 1 - (2 ^ 32 - 1 - m) / k)
      ≡ floor_div (signed m) k
  shr_lem = ground (arith, div-le m k, div-le (2 ^ 32 - 1 - m) k)

-- The shift distance is the low five bits of the right operand. `<<` multiplies, and wraps; `>>`
-- rounds the signed quotient down; `>>>` divides the unsigned pattern.
pub eval_op2_shifts :
    (m n : I32)
    → IsWord m
    → (eval_op2 shl m n ≡ some (wrap (signed m *ℤ pos (2 ^ (n % 32)))))
      × ((w : I32) × (eval_op2 shr m n ≡ some w) × (signed w ≡ floor_div (signed m) (2 ^ (n % 32))))
      × (eval_op2 u_shr m n ≡ some (m / 2 ^ (n % 32)))
unfolding eval_op2
eval_op2_shifts m n p =
    (ap some (shl_lem m p (2 ^ (n % 32))), (_, refl, shr_lem m p (2 ^ (n % 32))), refl)

-- The result of an operator is a 32-bit pattern.
pub eval_op2-IsWord :
    (op : Op2) (m n : I32) {w : I32} → IsWord m → IsWord n → eval_op2 op m n ≡ some w → IsWord w
unfolding eval_op2
eval_op2-IsWord add m n p q e = ground arith
eval_op2-IsWord sub m n p q e = ground arith
eval_op2-IsWord mul m n p q e = ground arith
eval_op2-IsWord div m n p q e = ground (arith, wrap-IsWord (truncated_div (signed m) (signed n)))
eval_op2-IsWord modulo m n p q e = ground (arith, wrap-IsWord (truncated_rem (signed m) (signed n)))
eval_op2-IsWord bit_and m n p q e = ground (arith, bit_and-lt 32 m n p q)
eval_op2-IsWord bit_or m n p q e = ground (arith, bit_or-lt 32 m n p q)
eval_op2-IsWord bit_xor m n p q e = ground (arith, bit_xor-lt 32 m n p q)
eval_op2-IsWord shl m n p q e = ground arith
eval_op2-IsWord shr m n p q e = ground (arith, div-le m (2 ^ (n % 32)))
eval_op2-IsWord u_shr m n p q e = ground (arith, div-le m (2 ^ (n % 32)))
eval_op2-IsWord lt m n p q e = ground arith
eval_op2-IsWord eq m n p q e = ground arith

pub eval_op1-IsWord : (op : Op1) (n : I32) → IsWord (eval_op1 op n)
unfolding eval_op1
eval_op1-IsWord bit_not n = omega arith

-- `~` is -x - 1.
eval_op1_lem : (n : I32) → IsWord n → signed (eval_op1 bit_not n) ≡ negsuc 0 -ℤ signed n
unfolding eval_op1
eval_op1_lem n p = ground arith
