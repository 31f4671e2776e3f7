-- ===== src/TypeWhich/Insertion.antt =====
-- insert_coercions.rs, `ins`: the insertion of coercions into a program.
pub mod Typed
use Prim.Native.String.{String}
use plbench.Prelude.{◌≡◌, List, [], ◌∷◌, Option, none, some}
use plbench.TypeWhich.Syntax.{Typ, Lit, BinOp, Coerce, Exp, bin_op_typ}
use plbench.TypeWhich.Types.{join}
use plbench.TypeWhich.Outcome.{Outcome, accepts, refuses, crashes, ◌>>=◌, unbound}
use plbench.TypeWhich.TypeCheck.{Env, get}
use plbench.TypeWhich.Coercions.{coerce}

unfoldable pub lit_typ : Lit → Outcome Typ
lit_typ (Lit.int n) = accepts Typ.int
lit_typ (Lit.bool b) = accepts Typ.bool
lit_typ l = crashes

unfoldable pub fun_typ : Typ → Typ × Typ
fun_typ (Typ.arr dom rng) = (dom, rng)
fun_typ t = (Typ.any, Typ.any)

-- `Exp::coerce`
unfoldable pub coerced : Exp → Coerce → Exp
coerced e Coerce.id = e
coerced e k = Exp.prim_coerce k e

abbrev pub or_unbound : String → Option Typ → Outcome Typ
or_unbound x none = refuses (unbound x)
or_unbound x (some t) = accepts t

abbrev pub or_crash : Option Typ → Outcome Typ
or_crash none = crashes
or_crash (some t) = accepts t

-- The type of the expression, and the expression that takes its place.
unfoldable pub ins : Env → Exp → Outcome (Typ × Exp)
unfolding lit_typ fun_typ coerced join get coerce bin_op_typ
ins env (Exp.var x) = do t ← or_unbound x (get x env); accepts (t, Exp.var x)
ins env (Exp.lit l) = do t ← lit_typ l; accepts (t, Exp.lit l)
ins env (Exp.func x t1 e) = do
  (t2, e') ← ins ((x, t1) ∷ env) e
  accepts (Typ.arr t1 t2, Exp.func x t1 e')
ins env (Exp.binary_op op e1 e2) = do
  let (op1, op2, op_res) = bin_op_typ op
  (t1, e1') ← ins env e1
  (t2, e2') ← ins env e2
  let k2 = coerce t2 op1
  let k1 = coerce t1 op2
  accepts (op_res, Exp.binary_op op (Exp.prim_coerce k1 e1') (Exp.prim_coerce k2 e2'))
ins env (Exp.app e1 e2) = do
  (t1, e1') ← ins env e1
  (t2, e2') ← ins env e2
  let (t11, t12) = fun_typ t1
  let k2 = coerce t2 t11
  let k1 = coerce t1 (Typ.arr t11 t12)
  accepts (t12, Exp.app (Exp.prim_coerce k1 e1') (Exp.prim_coerce k2 e2'))
ins env (Exp.coerce t1 t2 e) = do (t, e') ← ins env e; accepts (t2, Exp.coerce t1 t2 e')
ins env (Exp.if_exp e1 e2 e3) = do
  (t1, e1') ← ins env e1
  (t2, e2') ← ins env e2
  (t3, e3') ← ins env e3
  t_joined ← or_crash (join t2 t3)
  accepts (
    t_joined,
    Exp.if_exp (Exp.prim_coerce (coerce t1 Typ.bool) e1') (coerced e2' (coerce t2 t_joined))
        (coerced e3' (coerce t3 t_joined)),
  )
ins env (Exp.ann e1 t1) = do
  (t2, e1') ← ins env e1
  accepts (t1, Exp.prim_coerce (coerce t2 t1) e1')
ins env e = crashes

unfoldable pub insert_coercions : Exp → Outcome Exp
unfolding ins
insert_coercions e = do (t, e') ← ins [] e; accepts e'
