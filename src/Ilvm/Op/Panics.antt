-- ===== src/Ilvm/Op/Panics.antt =====
-- The operators that panic, by what has no value.
use plbench.Prelude.{
  zero, suc, ◌-◌, ◌^◌, ◌<◌, ◌≡◌, ◌≢◌, ◌↔◌, inl, inr, refl, true, none, arith, Bool-cases, ◌==◌,
  ==_iff,
}
use plbench.Prelude.Int.{ℤ, pos, negsuc, ◌+ℤ◌, ◌*ℤ◌}
use plbench.Ilvm.Syntax.{I32, Op2, div, modulo}
use plbench.Ilvm.Word.{IsWord, signed}
use plbench.Ilvm.Op.{division_panics, eval_op2}
use plbench.Ilvm.Op.Laws.{eval_op2-IsWord}
use plbench.Ilvm.Op.Division.{size, eval_op2_divides}

-- A quotient and a remainder of the signed integers that 32 bits hold.
abbrev pub Divides : I32 → I32 → Type 0
Divides m n =
    (q r : I32) × IsWord q
    × IsWord r
    × (signed m ≡ signed q *ℤ signed n +ℤ signed r)
    × (size (signed r) < size (signed n))

-- No 32-bit quotient of the least integer by -1.
least_apart : (q r : ℤ) → size r < 1 → q ≢ pos (2 ^ 31) → negsuc (2 ^ 31 - 1) ≢ q *ℤ negsuc 0 +ℤ r
least_apart (pos a) (pos zero) lt ne e = ground arith
least_apart (negsuc a) (pos zero) lt ne e = ground arith
least_apart q (pos (suc b)) lt ne e = omega arith
least_apart q (negsuc b) lt ne e = omega arith

signed-ne-half : (q : I32) → IsWord q → signed q ≢ pos (2 ^ 31)
signed-ne-half q h e = ground arith

panics-indivisible : (m n : I32) → division_panics m n ≡ true → Divides m n → ⊥
unfolding division_panics
panics-indivisible m n h (q, r, p, p', e, lt) = elim (Bool-cases (n == 0)) [
  | inl z ↦ absurd (zero_divisor ((==_iff _ _).0 z) lt)
  | inr nz ↦ least (ground arith) (ground arith) e lt
]
  where
    zero_divisor : n ≡ 0 → size (signed r) < size (signed n) → ⊥
    zero_divisor z k = ground arith

    least :
        m ≡ 2 ^ 31
        → n ≡ 2 ^ 32 - 1
        → signed m ≡ signed q *ℤ signed n +ℤ signed r
        → size (signed r) < size (signed n)
        → ⊥
    least a b f k =
        least_apart (signed q) (signed r) (rw b at k) (signed-ne-half q p) (rw (a, b) at f)

-- `/` and `%` of two 32-bit patterns panic exactly where the signed integers have no quotient and
-- remainder that 32 bits hold, and no other operator panics.
pub eval_op2-panic_iff :
    (m n : I32)
    → IsWord m
    → IsWord n
    → ((eval_op2 div m n ≡ none) ↔ (Divides m n → ⊥))
      × ((eval_op2 modulo m n ≡ none) ↔ (Divides m n → ⊥))
      × ((op : Op2) → op ≢ div → op ≢ modulo → eval_op2 op m n ≢ none)
unfolding eval_op2
eval_op2-panic_iff m n p q = elim (Bool-cases (division_panics m n)) [
  | inl h ↦ (
    (λ e. panics-indivisible m n h, λ k. rw h refl),
    (λ e. panics-indivisible m n h, λ k. rw h refl),
    other,
  )
  | inr h ↦
      let (a, b, e, f, g, lt) = eval_op2_divides m n p q h in
      let d : Divides m n =
        (a, b, eval_op2-IsWord div m n p q e, eval_op2-IsWord modulo m n p q f, g, lt) in
      (
        (λ z. absurd (ground (arith, e, z)), λ k. absurd (k d)),
        (λ z. absurd (ground (arith, f, z)), λ k. absurd (k d)),
        other,
      )
]
  where
    other : (op : Op2) → op ≢ div → op ≢ modulo → eval_op2 op m n ≢ none
    other div a b = absurd (a refl)
    other modulo a b = absurd (b refl)
    other op a b = λ e. cc
