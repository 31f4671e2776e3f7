-- ===== src/TypeWhich/Migration/Annotate.antt =====
-- cgen.rs, `annotate`: the types of a solution in the place of the metavariables.
use Prim.Native.String.{String}
use mathlib.Core.Logic.{ite}
use plbench.Prelude.{ℕ, List, Option, none, some}
use plbench.Prelude.Assoc.{lookup}
use plbench.TypeWhich.Syntax.{Typ, Typ-discrete, Exp, Bindings, done, binding}

-- A hash map from metavariables to types.
abbrev pub Solution : Type 0
Solution = List (ℕ × Typ)

-- The type of a metavariable, if there is one.
abbrev pub found : ℕ → Option Typ → Typ
found n none = Typ.metavar n
found n (some t) = t

unfoldable pub annotate_typ : Solution → Typ → Typ
annotate_typ env (Typ.metavar n) = found n (lookup n env)
annotate_typ env (Typ.arr t1 t2) = Typ.arr (annotate_typ env t1) (annotate_typ env t2)
annotate_typ env (Typ.pair t1 t2) = Typ.pair (annotate_typ env t1) (annotate_typ env t2)
annotate_typ env (Typ.list t) = Typ.list (annotate_typ env t)
annotate_typ env (Typ.box t) = Typ.box (annotate_typ env t)
annotate_typ env (Typ.vect t) = Typ.vect (annotate_typ env t)
annotate_typ env t = t

-- A node over its parts; `none` is a panic.
abbrev pub one : {A : Type 0} → (A → Exp) → Option A → Option Exp
one node none = none
one node (some e) = some (node e)

abbrev pub two : {A : Type 0} → (A → Exp → Exp) → Option A → Option Exp → Option Exp
two node none r = none
two node (some e) r = one (node e) r

abbrev pub three : (Exp → Exp → Exp → Exp) → Option Exp → Option Exp → Option Exp → Option Exp
three node none r s = none
three node (some e) r s = two (node e) r s

-- The case of a coercion, which is left out between a type and itself.
unfoldable pub coerced : Typ → Typ → Exp → Exp
unfolding Typ-discrete
coerced t1 t2 e = ite (Typ-discrete t1 t2) e (Exp.coerce t1 t2 e)

abbrev pub bound : String → Typ → Option Exp → Option Bindings → Option Bindings
bound x t none r = none
bound x t (some e) none = none
bound x t (some e) (some bs) = some (binding x t e bs)

unfoldable mutual
  unfolding annotate_typ coerced

  pub annotate : Solution → Exp → Option Exp
  annotate env (Exp.prim_coerce k e) = none
  annotate env (Exp.lit l) = some (Exp.lit l)
  annotate env (Exp.var x) = some (Exp.var x)
  annotate env (Exp.empty t) = some (Exp.empty (annotate_typ env t))
  annotate env (Exp.func x t e) = one (Exp.func x (annotate_typ env t)) (annotate env e)
  annotate env (Exp.fix x t e) = one (Exp.fix x (annotate_typ env t)) (annotate env e)
  annotate env (Exp.ann e t) = one (λ e'. Exp.ann e' (annotate_typ env t)) (annotate env e)
  annotate env (Exp.coerce t1 t2 e) =
      one (coerced (annotate_typ env t1) (annotate_typ env t2)) (annotate env e)
  annotate env (Exp.head e) = one Exp.head (annotate env e)
  annotate env (Exp.tail e) = one Exp.tail (annotate env e)
  annotate env (Exp.unary_op op e) = one (Exp.unary_op op) (annotate env e)
  annotate env (Exp.box e) = one Exp.box (annotate env e)
  annotate env (Exp.unbox e) = one Exp.unbox (annotate env e)
  annotate env (Exp.fst e) = one Exp.fst (annotate env e)
  annotate env (Exp.snd e) = one Exp.snd (annotate env e)
  annotate env (Exp.is_empty e) = one Exp.is_empty (annotate env e)
  annotate env (Exp.is_bool e) = one Exp.is_bool (annotate env e)
  annotate env (Exp.is_int e) = one Exp.is_int (annotate env e)
  annotate env (Exp.is_string e) = one Exp.is_string (annotate env e)
  annotate env (Exp.is_list e) = one Exp.is_list (annotate env e)
  annotate env (Exp.is_fun e) = one Exp.is_fun (annotate env e)
  annotate env (Exp.vector_len e) = one Exp.vector_len (annotate env e)
  annotate env (Exp.app e1 e2) = two Exp.app (annotate env e1) (annotate env e2)
  annotate env (Exp.binary_op op e1 e2) = two (Exp.binary_op op) (annotate env e1) (annotate env e2)
  annotate env (Exp.add_overload e1 e2) = two Exp.add_overload (annotate env e1) (annotate env e2)
  annotate env (Exp.cons e1 e2) = two Exp.cons (annotate env e1) (annotate env e2)
  annotate env (Exp.pair e1 e2) = two Exp.pair (annotate env e1) (annotate env e2)
  annotate env (Exp.box_set e1 e2) = two Exp.box_set (annotate env e1) (annotate env e2)
  annotate env (Exp.let_exp x e1 e2) = two (Exp.let_exp x) (annotate env e1) (annotate env e2)
  annotate env (Exp.vector e1 e2) = two Exp.vector (annotate env e1) (annotate env e2)
  annotate env (Exp.vector_ref e1 e2) = two Exp.vector_ref (annotate env e1) (annotate env e2)
  annotate env (Exp.if_exp e1 e2 e3) =
      three Exp.if_exp (annotate env e1) (annotate env e2) (annotate env e3)
  annotate env (Exp.vector_set e1 e2 e3) =
      three Exp.vector_set (annotate env e1) (annotate env e2) (annotate env e3)
  annotate env (Exp.let_rec bs e) = two Exp.let_rec (annotate_all env bs) (annotate env e)

  pub annotate_all : Solution → Bindings → Option Bindings
  annotate_all env done = some done
  annotate_all env (binding x t e bs) =
      bound x (annotate_typ env t) (annotate env e) (annotate_all env bs)
