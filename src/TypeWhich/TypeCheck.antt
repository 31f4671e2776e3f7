-- ===== src/TypeWhich/TypeCheck.antt =====
-- type_check.rs: the type checker of annotated programs.
pub mod Typing
pub mod Sound
pub mod Complete
use Prim.Native.String.{String}
use text.Mathlib.Text.{◌==◌}
use mathlib.Core.Logic.{ite}
use plbench.Prelude.{Bool, List, [], ◌∷◌, Option, none, some, if◌then◌else◌}
use plbench.TypeWhich.Syntax.{
  Typ, Typ-discrete, Exp, Bindings, done, binding, lit_typ, un_op_typ, bin_op_typ,
}
use plbench.TypeWhich.Outcome.{
  Outcome, accepts, refuses, crashes, ◌>>=◌, unbound, not_an_arrow, not_addable, not_a_pair,
  not_a_list, not_a_box, not_a_vector,
}

-- A hash map from names to types; the first entry of a name counts.
abbrev pub Env : Type 0
Env = List (String × Typ)

unfoldable pub get : String → Env → Option Typ
get x [] = none
get x ((y, t) ∷ env) = if y == x then some t else get x env

-- `should_match`, with the constant `PANIC_ON_MISMATCH` as it is set.
unfoldable pub should_match : Typ → Typ → Outcome Typ
should_match t1 t2 = ite (Typ-discrete t1 t2) (accepts t2) crashes

-- The loop that binds the names of a `letrec`.
unfoldable pub bind_all : Env → Bindings → Env
bind_all env done = env
bind_all env (binding x t e bs) = bind_all ((x, t) ∷ env) bs

abbrev pub arrow_result : Typ → Typ → Outcome Typ
arrow_result (Typ.arr t t') t1 = do _ ← should_match t t1; accepts t'
arrow_result _ t1 = refuses not_an_arrow

abbrev pub added : Typ → Outcome Typ
added Typ.int = accepts Typ.int
added Typ.str = accepts Typ.str
added Typ.any = accepts Typ.any
added _ = refuses not_addable

abbrev pub first : Typ → Outcome Typ
first (Typ.pair t1 t2) = accepts t1
first _ = refuses not_a_pair

abbrev pub second : Typ → Outcome Typ
second (Typ.pair t1 t2) = accepts t2
second _ = refuses not_a_pair

abbrev pub element : Typ → Outcome Typ
element (Typ.list t) = accepts t
element _ = refuses not_a_list

abbrev pub content : Typ → Outcome Typ
content (Typ.box t) = accepts t
content _ = refuses not_a_box

abbrev pub entry : Typ → Outcome Typ
entry (Typ.vect t) = accepts t
entry _ = refuses not_a_vector

unfoldable mutual
  unfolding get should_match bind_all

  pub tcheck : Env → Exp → Outcome Typ
  tcheck env (Exp.lit l) = accepts (lit_typ l)
  tcheck env (Exp.var x) = elim (get x env) [ none ↦ refuses (unbound x) | some t ↦ accepts t ]
  tcheck env (Exp.func x t body) = do
    t_body ← tcheck ((x, t) ∷ env) body
    accepts (Typ.arr t t_body)
  tcheck env (Exp.fix x t1 body) = do t2 ← tcheck ((x, t1) ∷ env) body; should_match t1 t2
  tcheck env (Exp.app e1 e2) = do
    t1_to_t2 ← tcheck env e1
    t1 ← tcheck env e2
    arrow_result t1_to_t2 t1
  tcheck env (Exp.unary_op op e) = do
    t ← tcheck env e
    _ ← should_match (un_op_typ op).0 t
    accepts (un_op_typ op).1
  tcheck env (Exp.binary_op op e1 e2) = do
    t ← tcheck env e1
    _ ← should_match (bin_op_typ op).0 t
    t' ← tcheck env e2
    _ ← should_match (bin_op_typ op).1 t'
    accepts (bin_op_typ op).2
  tcheck env (Exp.let_exp x e1 e2) = do t1 ← tcheck env e1; tcheck ((x, t1) ∷ env) e2
  tcheck env (Exp.let_rec es e) = do _ ← check_all (bind_all env es) es; tcheck (bind_all env es) e
  tcheck env (Exp.ann e t) = do t' ← tcheck env e; should_match t t'
  tcheck env (Exp.add_overload e1 e2) = do
    t1 ← tcheck env e1
    t2 ← tcheck env e2
    _ ← should_match t1 t2
    added t1
  tcheck env (Exp.if_exp e1 e2 e3) = do
    t ← tcheck env e1
    _ ← should_match Typ.bool t
    t1 ← tcheck env e2
    t2 ← tcheck env e3
    _ ← should_match t1 t2
    accepts t1
  tcheck env (Exp.pair e1 e2) = do t1 ← tcheck env e1; t2 ← tcheck env e2; accepts (Typ.pair t1 t2)
  tcheck env (Exp.fst e) = do t ← tcheck env e; first t
  tcheck env (Exp.snd e) = do t ← tcheck env e; second t
  tcheck env (Exp.cons e1 e2) = do
    t1 ← tcheck env e1
    t2 ← tcheck env e2
    should_match (Typ.list t1) t2
  tcheck env (Exp.empty t) = accepts (Typ.list t)
  tcheck env (Exp.head e) = do t ← tcheck env e; element t
  tcheck env (Exp.tail e) = do t ← tcheck env e; _ ← element t; accepts t
  tcheck env (Exp.is_empty e) = do t ← tcheck env e; _ ← element t; accepts Typ.bool
  tcheck env (Exp.box e) = do t ← tcheck env e; accepts (Typ.box t)
  tcheck env (Exp.unbox e) = do t ← tcheck env e; content t
  tcheck env (Exp.box_set e1 e2) = do
    t1 ← tcheck env e1
    t2 ← tcheck env e2
    _ ← should_match (Typ.box t2) t1
    accepts Typ.unit
  tcheck env (Exp.vector e1 e2) = do
    t1 ← tcheck env e1
    _ ← should_match Typ.int t1
    t ← tcheck env e2
    accepts (Typ.vect t)
  tcheck env (Exp.vector_ref e1 e2) = do
    t2 ← tcheck env e2
    _ ← should_match Typ.int t2
    t ← tcheck env e1
    entry t
  tcheck env (Exp.vector_set e1 e2 e3) = do
    t1 ← tcheck env e1
    t2 ← tcheck env e2
    _ ← should_match Typ.int t2
    t3 ← tcheck env e3
    _ ← should_match (Typ.vect t3) t1
    accepts Typ.unit
  tcheck env (Exp.vector_len e) = do t ← tcheck env e; _ ← entry t; accepts Typ.int
  tcheck env (Exp.is_bool e) = do t ← tcheck env e; _ ← should_match Typ.any t; accepts Typ.bool
  tcheck env (Exp.is_int e) = do t ← tcheck env e; _ ← should_match Typ.any t; accepts Typ.bool
  tcheck env (Exp.is_string e) = do t ← tcheck env e; _ ← should_match Typ.any t; accepts Typ.bool
  tcheck env (Exp.is_list e) = do t ← tcheck env e; _ ← should_match Typ.any t; accepts Typ.bool
  tcheck env (Exp.is_fun e) = do t ← tcheck env e; _ ← should_match Typ.any t; accepts Typ.bool
  tcheck env (Exp.coerce t1 t2 e) = do t ← tcheck env e; _ ← should_match t1 t; accepts t2
  tcheck env (Exp.prim_coerce k e) = crashes

  pub check_all : Env → Bindings → Outcome Unit
  check_all env done = accepts tt
  check_all env (binding x t e bs) = do t' ← tcheck env e; _ ← should_match t t'; check_all env bs
