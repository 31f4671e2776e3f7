-- ===== src/TypeWhich/Eval.antt =====
-- eval.rs: the evaluator of programs with coercions.
pub mod Typing
pub mod Safety
pub mod Answer
use Prim.Native.String.{String}
use text.Mathlib.Text.{◌==◌}
use mathlib.Core.Logic.{ite}
use plbench.Prelude.{
  ℕ, zero, suc, ◌+◌, ◌%◌, ◌^◌, Bool, true, false, Option, none, some, if◌then◌else◌,
}
use plbench.TypeWhich.Syntax.{GroundTyp, Coerce, Lit, Typ, BinOp, Exp}
use plbench.TypeWhich.Coercions.{seq, coerce}

-- Values, and environments as lists of bindings, the latest first.
mutual
  pub data Val : Type 0 where
    lit : Lit → Val
    closure : Env → String → Exp → Coerce → Coerce → Val
    tagged : GroundTyp → Val → Val

  pub data Env : Type 0 where
    empty : Env
    bind : String → Val → Env → Env

unfoldable pub GroundTyp-discrete : Discrete GroundTyp
GroundTyp-discrete = hlevel

-- A value, `Error::Coercion`, a panic, or the end of the model's fuel.
pub data Result : Type 0 where
  value : Val → Result
  coercion_failed : Result
  panics out_of_fuel : Result

-- `?` on a result.
abbrev pub and_then : Result → (Val → Result) → Result
and_then (value v) next = next v
and_then coercion_failed next = coercion_failed
and_then panics next = panics
and_then out_of_fuel next = out_of_fuel

unfoldable pub get : String → Env → Option Val
get x empty = none
get x (bind y v env) = if y == x then some v else get x env

-- `none` is the panic on an unsupported type.
unfoldable pub ground_typ : Val → Option GroundTyp
ground_typ (Val.closure env x e k1 k2) = some GroundTyp.func
ground_typ (Val.lit (Lit.bool b)) = some GroundTyp.bool
ground_typ (Val.lit (Lit.int n)) = some GroundTyp.int
ground_typ _ = none

abbrev pub tag_with : GroundTyp → Val → Option GroundTyp → Result
tag_with g v none = panics
tag_with g v (some g2) = ite (GroundTyp-discrete g2 g) (value (Val.tagged g2 v)) coercion_failed

abbrev pub untag : GroundTyp → Val → Result
untag g (Val.tagged g2 v) = ite (GroundTyp-discrete g g2) (value v) coercion_failed
untag g _ = coercion_failed

abbrev pub wrap : Coerce → Coerce → Val → Result
wrap dom rng (Val.closure env x body dom1 rng1) =
    value (Val.closure env x body (seq dom dom1) (seq rng1 rng))
wrap dom rng _ = coercion_failed

unfoldable pub eval_k : Coerce → Val → Result
unfolding ground_typ seq
eval_k Coerce.doomed v = coercion_failed
eval_k Coerce.id v = value v
eval_k (Coerce.seq k1 k2) v = and_then (eval_k k1 v) (eval_k k2)
eval_k (Coerce.tag g) v = tag_with g v (ground_typ v)
eval_k (Coerce.untag g) v = untag g v
eval_k (Coerce.wrap dom rng) v = wrap dom rng v

-- The sum of two `i32`, wrapped as in a release build.
abbrev pub add : Val → Val → Result
add (Val.lit (Lit.int m)) (Val.lit (Lit.int n)) = value (Val.lit (Lit.int ((m + n) % 2 ^ 32)))
add _ _ = panics

-- The call of a closure, with the evaluator for its body.
abbrev pub apply : (Env → Exp → Result) → Val → Val → Result
apply run (Val.closure env x body dom rng) v =
    and_then (eval_k dom v) λ v'. and_then (run (bind x v' env) body) (eval_k rng)
apply run _ v = panics

abbrev pub branch : Result → Result → Val → Result
branch r1 r2 (Val.lit (Lit.bool true)) = r1
branch r1 r2 (Val.lit (Lit.bool false)) = r2
branch r1 r2 _ = panics

-- The evaluator, on fuel for the depth of its calls.
unfoldable pub eval : ℕ → Env → Exp → Result
unfolding get eval_k coerce
eval zero env e = out_of_fuel
eval (suc n) env (Exp.lit l) = value (Val.lit l)
eval (suc n) env (Exp.var x) = elim (get x env) [ none ↦ panics | some v ↦ value v ]
eval (suc n) env (Exp.func x t e) = value (Val.closure env x e Coerce.id Coerce.id)
eval (suc n) env (Exp.app e1 e2) =
    and_then (eval n env e1) λ v1. and_then (eval n env e2) λ v2. apply (eval n) v1 v2
eval (suc n) env (Exp.coerce t1 t2 e) = and_then (eval n env e) (eval_k (coerce t1 t2))
eval (suc n) env (Exp.prim_coerce k e) = and_then (eval n env e) (eval_k k)
eval (suc n) env (Exp.binary_op BinOp.int_add e1 e2) =
    and_then (eval n env e1) λ v1. and_then (eval n env e2) λ v2. add v1 v2
eval (suc n) env (Exp.if_exp e1 e2 e3) =
    let r1 = eval n env e2 in let r2 = eval n env e3 in and_then (eval n env e1) (branch r1 r2)
eval (suc n) env _ = panics
