-- ===== src/Ilvm/Op.antt =====
-- eval.rs, `eval_op1` and `eval_op2`: the arithmetic of the machine. The program is built with
-- `--release`, so `+ - * <<` wrap, and `/ %` panic on a zero divisor and on overflow.
pub mod Laws
pub mod Division
pub mod Panics
use Prim.Native.Nat.{bit_and as bit_and_ℕ, bit_or as bit_or_ℕ, bit_xor as bit_xor_ℕ}
use plbench.Prelude.{
  ℕ, suc, ◌+◌, ◌-◌, ◌*◌, ◌/◌, ◌%◌, ◌^◌, Bool, ◌&&◌, ◌||◌, Option, none, some, ltb, ◌==◌,
  if◌then◌else◌,
}
use plbench.Prelude.Int.{ℤ, pos, negsuc, sub_ℕ, ltb_ℤ}
use plbench.Ilvm.Syntax.{
  I32, Op1, Op2, bit_not, add, sub, mul, div, modulo, bit_and, bit_or, bit_xor, shl, shr, u_shr, lt,
  eq,
}
use plbench.Ilvm.Word.{signed, wrap}

-- Rust's `/` on integers rounds towards zero, and `%` takes the sign of the dividend.
abbrev pub truncated_div : ℤ → ℤ → ℤ
truncated_div (pos a) (pos b) = pos (a / b)
truncated_div (pos a) (negsuc b) = sub_ℕ 0 (a / suc b)
truncated_div (negsuc a) (pos b) = sub_ℕ 0 (suc a / b)
truncated_div (negsuc a) (negsuc b) = pos (suc a / suc b)

abbrev pub truncated_rem : ℤ → ℤ → ℤ
truncated_rem (pos a) (pos b) = pos (a % b)
truncated_rem (pos a) (negsuc b) = pos (a % suc b)
truncated_rem (negsuc a) (pos b) = sub_ℕ 0 (suc a % b)
truncated_rem (negsuc a) (negsuc b) = sub_ℕ 0 (suc a % suc b)

-- `/` and `%` panic here: a divisor 0, or `i32::MIN` by -1.
abbrev pub division_panics : I32 → I32 → Bool
division_panics m n = (n == 0) || ((m == 2 ^ 31) && (n == 2 ^ 32 - 1))

-- `none` is a panic.
unfoldable pub eval_op2 : Op2 → I32 → I32 → Option I32
eval_op2 add m n = some ((m + n) % 2 ^ 32)
eval_op2 sub m n = some ((m + 2 ^ 32 - n) % 2 ^ 32)
eval_op2 mul m n = some ((m * n) % 2 ^ 32)
eval_op2 div m n =
    if division_panics m n then none else some (wrap (truncated_div (signed m) (signed n)))
eval_op2 modulo m n =
    if division_panics m n then none else some (wrap (truncated_rem (signed m) (signed n)))
eval_op2 bit_and m n = some (bit_and_ℕ m n)
eval_op2 bit_or m n = some (bit_or_ℕ m n)
eval_op2 bit_xor m n = some (bit_xor_ℕ m n)
eval_op2 shl m n = some ((m * 2 ^ (n % 32)) % 2 ^ 32)
eval_op2 shr m n =
    some (if ltb m (2 ^ 31) then m / 2 ^ (n % 32) else 2 ^ 32 - 1 - (2 ^ 32 - 1 - m) / 2 ^ (n % 32))
eval_op2 u_shr m n = some (m / 2 ^ (n % 32))
eval_op2 lt m n = some (if ltb_ℤ (signed m) (signed n) then 1 else 0)
eval_op2 eq m n = some (if m == n then 1 else 0)

unfoldable pub eval_op1 : Op1 → I32 → I32
eval_op1 bit_not n = 2 ^ 32 - 1 - n
