-- ===== src/TypeWhich/InsAndOuts/Portable.antt =====
-- ins_and_outs/to_from_portable_ast.rs. `none` is `Err(())`; the thread's counter of
-- metavariables, of parser.rs, is passed along.
use plbench.Prelude.{ℕ, Option, none, some}
use plbench.TypeWhich.Syntax as Src
use plbench.TypeWhich.Syntax.{BinOp}
use plbench.TypeWhich.Fresh.{Fresh, pass, inc_metavar, ◌>>=◌}
use plbench.TypeWhich.InsAndOuts.Syntax.{Typ, Lit, Exp}

unfoldable pub next_metavar_typ : ℕ → Typ × ℕ
unfolding inc_metavar
next_metavar_typ counter = let (i, next) = inc_metavar counter in (Typ.metavar i, next)

-- The results of the parts of a node.
abbrev pub both : {A B C : Type 0} → (A → B → C) → Option A → Option B → Option C
both f none s = none
both f (some a) none = none
both f (some a) (some b) = some (f a b)

abbrev pub all_three :
    {A B C D : Type 0} → (A → B → C → D) → Option A → Option B → Option C → Option D
all_three f none s r = none
all_three f (some a) none r = none
all_three f (some a) (some b) none = none
all_three f (some a) (some b) (some c) = some (f a b c)

unfoldable pub from_typ : Src.Typ → Option Typ
from_typ Src.Typ.int = some Typ.int
from_typ Src.Typ.bool = some Typ.bool
from_typ Src.Typ.any = some Typ.any
from_typ Src.Typ.unit = some Typ.null
from_typ (Src.Typ.arr t u) = both Typ.arr (from_typ t) (from_typ u)
from_typ (Src.Typ.metavar n) = some (Typ.metavar n)
from_typ t = none

unfoldable pub from_lit : Src.Lit → Option Lit
from_lit (Src.Lit.int n) = some (Lit.int n)
from_lit (Src.Lit.bool b) = some (Lit.bool b)
from_lit Src.Lit.unit = some Lit.null
from_lit l = none

-- A result that does not touch the counter.
abbrev pub lift : {A : Type 0} → Option A → Fresh A
lift none n = none
lift (some a) n = some (a, n)

abbrev pub fresh : Fresh Typ
fresh n = some (next_metavar_typ n)

unfoldable pub from_exp : Src.Exp → Fresh Exp
unfolding from_typ from_lit next_metavar_typ
from_exp (Src.Exp.lit l) = do l' ← lift (from_lit l); pass (Exp.lit l')
from_exp (Src.Exp.var x) = pass (Exp.var x)
from_exp (Src.Exp.func x t e) = do
  t' ← lift (from_typ t)
  e' ← from_exp e
  r ← fresh
  pass (Exp.func x t' e' r)
from_exp (Src.Exp.app e1 e2) = do a ← from_exp e1; b ← from_exp e2; pass (Exp.app a b)
from_exp (Src.Exp.if_exp e1 e2 e3) = do
  a ← from_exp e1
  b ← from_exp e2
  c ← from_exp e3
  pass (Exp.if_exp a b c)
from_exp (Src.Exp.binary_op BinOp.int_add e1 e2) = do
  a ← from_exp e1
  b ← from_exp e2
  pass (Exp.add a b)
from_exp (Src.Exp.let_exp x e1 e2) = do
  t ← fresh
  body ← from_exp e2
  r ← fresh
  a ← from_exp e1
  pass (Exp.app (Exp.func x t body r) a)
from_exp e = λ n. none

unfoldable pub to_typ : Typ → Option Src.Typ
to_typ Typ.null = some Src.Typ.unit
to_typ Typ.int = some Src.Typ.int
to_typ Typ.bool = some Src.Typ.bool
to_typ (Typ.arr t u) = both Src.Typ.arr (to_typ t) (to_typ u)
to_typ Typ.any = some Src.Typ.any
to_typ (Typ.metavar n) = some (Src.Typ.metavar n)
to_typ (Typ.metavar_arg t) = none
to_typ (Typ.metavar_ret t) = none

unfoldable pub to_lit : Lit → Src.Lit
to_lit Lit.null = Src.Lit.unit
to_lit (Lit.int n) = Src.Lit.int n
to_lit (Lit.bool b) = Src.Lit.bool b

unfoldable pub to_exp : Exp → Option Src.Exp
unfolding to_typ to_lit
to_exp (Exp.lit l) = some (Src.Exp.lit (to_lit l))
to_exp (Exp.var x) = some (Src.Exp.var x)
to_exp (Exp.assign x e) = none
to_exp (Exp.func x t e r) = both (Src.Exp.func x) (to_typ t) (to_exp e)
to_exp (Exp.app e1 e2) = both Src.Exp.app (to_exp e1) (to_exp e2)
to_exp (Exp.coerce t1 t2 e) = all_three Src.Exp.coerce (to_typ t1) (to_typ t2) (to_exp e)
to_exp (Exp.if_exp e1 e2 e3) = all_three Src.Exp.if_exp (to_exp e1) (to_exp e2) (to_exp e3)
to_exp (Exp.add e1 e2) = both (Src.Exp.binary_op BinOp.int_add) (to_exp e1) (to_exp e2)
to_exp (Exp.seq e1 e2) = none
