-- ===== src/Ilvm/Op/Division.antt =====
-- Division and remainder against the integers that the patterns stand for.
use native.Mathlib.Nat.{div-add-mod, mod-lt, mod-le}
use plbench.Prelude.{
  ℕ, zero, suc, ◌+◌, ◌-◌, ◌*◌, ◌/◌, ◌%◌, ◌^◌, ◌≤◌, ◌<◌, ◌≡◌, sym, ◌≢◌, inl, inr, false, some, arith,
}
use plbench.Prelude.Int.{ℤ, pos, negsuc, pos_part, neg_part, sub_ℕ, ◌+ℤ◌, ◌*ℤ◌}
use plbench.Ilvm.Syntax.{I32, div, modulo}
use plbench.Ilvm.Word.{IsWord, signed, wrap, signed-cases}
use plbench.Ilvm.Op.{truncated_div, truncated_rem, division_panics, eval_op2}

-- The four sign patterns of dividend and divisor, over a quotient and a remainder of the sizes.
signs₁ : (a b q r : ℕ) → q * b + r ≡ a → pos q *ℤ pos b +ℤ pos r ≡ pos a
signs₁ a b q r e = ground arith

signs₂ : (a b q r : ℕ) → q * suc b + r ≡ a → sub_ℕ 0 q *ℤ negsuc b +ℤ pos r ≡ pos a
signs₂ a b zero r e = ground arith
signs₂ a b (suc q) r e = ground arith

signs₃ : (a b q r : ℕ) → q * b + r ≡ suc a → sub_ℕ 0 q *ℤ pos b +ℤ sub_ℕ 0 r ≡ negsuc a
signs₃ a b zero zero e = ground arith
signs₃ a b zero (suc r) e = ground arith
signs₃ a b (suc q) zero e = ground arith
signs₃ a b (suc q) (suc r) e = ground arith

signs₄ : (a b q r : ℕ) → q * suc b + r ≡ suc a → pos q *ℤ negsuc b +ℤ sub_ℕ 0 r ≡ negsuc a
signs₄ a b q zero e = ground arith
signs₄ a b q (suc r) e = ground arith

quotient_remainder : (a b : ℕ) → a / b * b + a % b ≡ a
quotient_remainder a b = grind (arith, div-add-mod)

-- The dividend is the quotient times the divisor, plus the remainder.
div-rem-parts : (a b : ℤ) → truncated_div a b *ℤ b +ℤ truncated_rem a b ≡ a
div-rem-parts (pos a) (pos b) = signs₁ a b (a / b) (a % b) (quotient_remainder a b)
div-rem-parts (pos a) (negsuc b) = signs₂ a b (a / suc b) (a % suc b) (quotient_remainder a (suc b))
div-rem-parts (negsuc a) (pos b) = signs₃ a b (suc a / b) (suc a % b) (quotient_remainder (suc a) b)
div-rem-parts (negsuc a) (negsuc b) =
    signs₄ a b (suc a / suc b) (suc a % suc b) (quotient_remainder (suc a) (suc b))

-- The integers that 32 bits hold.
abbrev pub InRange : ℤ → Type 0
InRange z = (pos_part z < 2 ^ 31) × (neg_part z ≤ 2 ^ 31)

signed-wrap : (z : ℤ) → InRange z → signed (wrap z) ≡ z
signed-wrap (pos n) h = ground arith
signed-wrap (negsuc n) h = ground arith

div-le : (a b : ℕ) → a / b ≤ a
div-le a zero = omega arith
div-le a (suc b) = grind (arith, quotient_remainder a (suc b))

div-le_half : (a b : ℕ) → 2 * (a / suc (suc b)) ≤ a
div-le_half a b = grind (arith, quotient_remainder a (suc (suc b)))

sub_ℕ-zero-InRange : (n : ℕ) → n ≤ 2 ^ 31 → InRange (sub_ℕ 0 n)
sub_ℕ-zero-InRange zero h = omega arith
sub_ℕ-zero-InRange (suc n) h = ground arith

module _ (m n : I32) (p : IsWord m) (q : IsWord n) (h : division_panics m n ≡ false) where
  -- The one quotient out of range is that of the least integer by -1.
  least_excluded : (a : ℕ) → suc a + m ≡ 2 ^ 32 → 1 + n ≡ 2 ^ 32 → a ≢ 2 ^ 31 - 1
  least_excluded a s t = ground arith

  truncated_div-InRange : InRange (truncated_div (signed m) (signed n))
  truncated_div-InRange = elim (signed-cases m p) [
    | inl (e, lt) ↦ elim (signed-cases n q) [
      | inl (f, _) ↦ rw (e, f) (omega (arith, div-le m n), omega arith)
      | inr (b, f, _, _) ↦
          rw (e, f) (sub_ℕ-zero-InRange (m / suc b) (omega (arith, div-le m (suc b))))
    ]
    | inr (a, e, s, small) ↦ elim (signed-cases n q) [
      | inl (f, _) ↦ rw (e, f) (sub_ℕ-zero-InRange (suc a / n) (omega (arith, div-le (suc a) n)))
      | inr (zero, f, t, _) ↦
          rw (e, f) (omega (arith, div-le (suc a) 1, least_excluded a s t), omega arith)
      | inr (suc b, f, t, _) ↦ rw (e, f) (omega (arith, div-le_half (suc a) b), omega arith)
    ]
  ]

  truncated_rem-InRange : InRange (truncated_rem (signed m) (signed n))
  truncated_rem-InRange = elim (signed-cases m p) [
    | inl (e, lt) ↦ elim (signed-cases n q) [
      | inl (f, _) ↦ rw (e, f) (omega (arith, mod-le m n), omega arith)
      | inr (b, f, _, _) ↦ rw (e, f) (omega (arith, mod-le m (suc b)), omega arith)
    ]
    | inr (a, e, s, small) ↦ elim (signed-cases n q) [
      | inl (f, _) ↦ rw (e, f) (sub_ℕ-zero-InRange (suc a % n) (omega (arith, mod-le (suc a) n)))
      | inr (b, f, t, _) ↦
          rw (e, f) (sub_ℕ-zero-InRange (suc a % suc b) (omega (arith, mod-le (suc a) (suc b))))
    ]
  ]

-- The size of a remainder is below that of the divisor.
abbrev pub size : ℤ → ℕ
size z = pos_part z + neg_part z

size-sub_ℕ : (n : ℕ) → size (sub_ℕ 0 n) ≡ n
size-sub_ℕ n = ground arith

size-rem : (a b : ℤ) → 0 < size b → size (truncated_rem a b) < size b
size-rem (pos a) (pos b) h = omega (arith, mod-lt a {m = b} (omega arith))
size-rem (pos a) (negsuc b) h = omega (arith, mod-lt a {m = suc b} (omega arith))
size-rem (negsuc a) (pos b) h =
    omega (arith, size-sub_ℕ (suc a % b), mod-lt (suc a) {m = b} (omega arith))
size-rem (negsuc a) (negsuc b) h =
    omega (arith, size-sub_ℕ (suc a % suc b), mod-lt (suc a) {m = suc b} (omega arith))

size-signed_pos : (n : I32) → IsWord n → n ≢ 0 → 0 < size (signed n)
size-signed_pos n h ne = ground arith

-- Where no division panics, `/` and `%` give a quotient and a remainder of the signed integers:
-- the dividend is the quotient times the divisor plus the remainder, whose size is below the
-- divisor's.
pub eval_op2_divides :
    (m n : I32)
    → IsWord m
    → IsWord n
    → division_panics m n ≡ false
    → (q r : I32) × (eval_op2 div m n ≡ some q)
      × (eval_op2 modulo m n ≡ some r)
      × (signed m ≡ signed q *ℤ signed n +ℤ signed r)
      × (size (signed r) < size (signed n))
unfolding eval_op2
eval_op2_divides m n p q h = (
  wrap (truncated_div (signed m) (signed n)),
  wrap (truncated_rem (signed m) (signed n)),
  rw h,
  rw h,
  rw
      (
        signed-wrap _ (truncated_div-InRange m n p q h),
        signed-wrap _ (truncated_rem-InRange m n p q h),
      )
      (sym (div-rem-parts (signed m) (signed n))),
  rw (signed-wrap _ (truncated_rem-InRange m n p q h))
      (size-rem (signed m) (signed n) (size-signed_pos n q (ground arith))),
)
