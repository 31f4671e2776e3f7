-- ===== src/TypeWhich/Precision/Expressions.antt =====
-- precision.rs, `exp_lt`: whether an expression is at most as dynamic as another.
pub mod Rules
pub mod Loosened
use Prim.Native.String.{String}
use text.Mathlib.Text.{◌==◌}
use mathlib.Core.Logic.{ite}
use plbench.Prelude as Prelude
use plbench.Prelude.{ℕ, Bool, true, false, ◌&&◌, List, [], ◌∷◌, Option, none, some, if◌then◌else◌}
use plbench.TypeWhich.Syntax.{Lit, Exp}
use plbench.TypeWhich.Matching.{BinOp-discrete}
use plbench.TypeWhich.Precision.{typ_lt}

-- From the names of the first expression to those of the second; the first entry of a name counts.
abbrev pub Env : Type 0
Env = List (String × String)

unfoldable pub get : String → Env → Option String
get x [] = none
get x ((y, z) ∷ env) = if y == x then some z else get x env

abbrev pub same_nat : ℕ → ℕ → Bool
same_nat m n = Prelude.◌==◌ m n

abbrev pub same_bool : Bool → Bool → Bool
same_bool true b = b
same_bool false true = false
same_bool false false = true

abbrev pub is_renamed : String → Option String → Bool
is_renamed y1 none = false
is_renamed y1 (some y2) = y1 == y2

-- The equality of floats is that of the processor, on bit patterns.
module _ (float_eq : ℕ → ℕ → Bool) where
  unfoldable pub lit_eq : Lit → Lit → Bool
  lit_eq (Lit.int m) (Lit.int n) = same_nat m n
  lit_eq (Lit.bool a) (Lit.bool b) = same_bool a b
  lit_eq (Lit.str s) (Lit.str t) = s == t
  lit_eq (Lit.float x) (Lit.float y) = float_eq x y
  lit_eq (Lit.char c) (Lit.char d) = same_nat c d
  lit_eq Lit.unit Lit.unit = true
  lit_eq l m = false

  unfoldable pub exp_lt_rec : Env → Exp → Exp → Bool
  unfolding get lit_eq typ_lt BinOp-discrete
  exp_lt_rec env (Exp.lit l1) (Exp.lit l2) = lit_eq l1 l2
  exp_lt_rec env (Exp.var x) (Exp.var y1) = is_renamed y1 (get x env)
  exp_lt_rec env (Exp.func x t1 e1) (Exp.func y t2 e2) =
      let rest = exp_lt_rec ((x, y) ∷ env) e1 e2 in if typ_lt t1 t2 then rest else false
  exp_lt_rec env (Exp.app e11 e12) (Exp.app e21 e22) =
      exp_lt_rec env e11 e21 && exp_lt_rec env e12 e22
  exp_lt_rec env (Exp.binary_op op1 e11 e12) (Exp.binary_op op2 e21 e22) =
      ite (BinOp-discrete op1 op2) true false && exp_lt_rec env e11 e21 && exp_lt_rec env e12 e22
  exp_lt_rec env (Exp.if_exp e11 e12 e13) (Exp.if_exp e21 e22 e23) =
      exp_lt_rec env e11 e21 && exp_lt_rec env e12 e22 && exp_lt_rec env e13 e23
  exp_lt_rec env e1 e2 = false

  unfoldable pub exp_lt : Exp → Exp → Bool
  unfolding exp_lt_rec
  exp_lt e1 e2 = exp_lt_rec [] e1 e2
