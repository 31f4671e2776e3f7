-- ===== src/Ilvm/Word.antt =====
-- The machine integers of the interpreter: what an `i32` pattern stands for, and the casts.
use plbench.Prelude.{
  ℕ, ◌+◌, ◌-◌, ◌%◌, ◌^◌, ◌<◌, ◌≡◌, ◌⊎◌, inl, inr, suc, arith, ltb, if◌then◌else◌, Bool-cases,
  ltb→lt, not_ltb→le,
}
use plbench.Prelude.Int.{ℤ, pos, negsuc}
use plbench.Ilvm.Syntax.{I32}

abbrev pub IsWord : I32 → Type 0
IsWord w = w < 2 ^ 32

-- The integer that a pattern stands for.
abbrev pub signed : I32 → ℤ
signed w = if ltb w (2 ^ 31) then pos w else negsuc (2 ^ 32 - w - 1)

-- The pattern of an integer, wrapped to 32 bits.
abbrev pub wrap : ℤ → I32
wrap (pos n) = n % 2 ^ 32
wrap (negsuc n) = 2 ^ 32 - 1 - n % 2 ^ 32

-- `w as usize` on a 64-bit target: the sign is extended.
abbrev pub as_usize : I32 → ℕ
as_usize w = if ltb w (2 ^ 31) then w else w + (2 ^ 64 - 2 ^ 32)

-- `n as i32`: the low 32 bits are kept.
abbrev pub as_i32 : ℕ → I32
as_i32 n = n % 2 ^ 32

-- The sum of two `usize` in a release build.
abbrev pub add_usize : ℕ → ℕ → ℕ
add_usize a b = (a + b) % 2 ^ 64

pub wrap-IsWord : (z : ℤ) → IsWord (wrap z)
wrap-IsWord (pos n) = omega arith
wrap-IsWord (negsuc n) = omega arith

pub wrap-signed : (w : I32) → IsWord w → wrap (signed w) ≡ w
wrap-signed w h = ground arith

-- An address below 2 ^ 31 survives the two casts.
pub as_usize-as_i32 : (n : ℕ) → n < 2 ^ 31 → as_usize (as_i32 n) ≡ n
as_usize-as_i32 n h = ground arith

-- A pattern stands for itself, or for a negative number.
pub signed-cases :
    (w : I32)
    → IsWord w
    → ((signed w ≡ pos w) × (w < 2 ^ 31))
      ⊎ ((n : ℕ) × (signed w ≡ negsuc n) × (suc n + w ≡ 2 ^ 32) × (n < 2 ^ 31))
signed-cases w h = elim (Bool-cases (ltb w (2 ^ 31))) [
  | inl small ↦ inl (rw small, ltb→lt _ _ small)
  | inr large ↦ inr (2 ^ 32 - w - 1, rw large, omega arith, omega (arith, not_ltb→le _ _ large))
]
