-- ===== src/TypeWhich/Matching.antt =====
-- syntax.rs, `Exp::matches_roughly`: the comparison of an inferred program with a given one.
use mathlib.Core.Logic.{ite}
use plbench.Prelude.{if◌then◌else◌}
use plbench.TypeWhich.Syntax.{Typ, Typ-discrete, UnOp, BinOp, Exp, Bindings, binding}
use plbench.TypeWhich.Types.{is_metavar}

-- `Ok`, `Err`, or the panic on an annotation on the left-hand side.
pub data Match : Type 0 where
  agrees differs crashes : Match

infixl 5 ◌>>◌
abbrev pub ◌>>◌ : Match → Match → Match
agrees >> m = m
differs >> m = differs
crashes >> m = crashes

unfoldable pub UnOp-discrete : Discrete UnOp
UnOp-discrete = hlevel

unfoldable pub BinOp-discrete : Discrete BinOp
BinOp-discrete = hlevel

-- The given type is a variable, or the inferred type is that type.
unfoldable pub types_match : Typ → Typ → Match
unfolding is_metavar Typ-discrete
types_match t1 t2 = if is_metavar t2 then agrees else ite (Typ-discrete t1 t2) agrees differs

unfoldable mutual
  unfolding types_match UnOp-discrete BinOp-discrete

  pub matches_roughly : Exp → Exp → Match
  matches_roughly self (Exp.ann e t) = matches_roughly self e
  matches_roughly (Exp.ann e t) other = crashes
  matches_roughly (Exp.coerce t u e) other = matches_roughly e other
  matches_roughly (Exp.lit l1) (Exp.lit l2) = agrees
  matches_roughly (Exp.var x1) (Exp.var x2) = agrees
  matches_roughly (Exp.empty t1) (Exp.empty t2) = types_match t1 t2
  matches_roughly (Exp.func x1 t1 e1) (Exp.func x2 t2 e2) =
      matches_roughly e1 e2 >> types_match t1 t2
  matches_roughly (Exp.fix x1 t1 e1) (Exp.fix x2 t2 e2) = matches_roughly e1 e2 >> types_match t1 t2
  matches_roughly (Exp.let_rec bs1 e1) (Exp.let_rec bs2 e2) =
      match_bindings bs1 bs2 >> matches_roughly e1 e2
  matches_roughly (Exp.unary_op op1 e1) (Exp.unary_op op2 e2) =
      let rest = matches_roughly e1 e2 in ite (UnOp-discrete op1 op2) rest differs
  matches_roughly (Exp.binary_op op1 a1 b1) (Exp.binary_op op2 a2 b2) =
      let rest = matches_roughly a1 a2 >> matches_roughly b1 b2 in
      ite (BinOp-discrete op1 op2) rest differs
  matches_roughly (Exp.fst e1) (Exp.fst e2) = matches_roughly e1 e2
  matches_roughly (Exp.snd e1) (Exp.snd e2) = matches_roughly e1 e2
  matches_roughly (Exp.is_empty e1) (Exp.is_empty e2) = matches_roughly e1 e2
  matches_roughly (Exp.head e1) (Exp.head e2) = matches_roughly e1 e2
  matches_roughly (Exp.tail e1) (Exp.tail e2) = matches_roughly e1 e2
  matches_roughly (Exp.box e1) (Exp.box e2) = matches_roughly e1 e2
  matches_roughly (Exp.unbox e1) (Exp.unbox e2) = matches_roughly e1 e2
  matches_roughly (Exp.is_bool e1) (Exp.is_bool e2) = matches_roughly e1 e2
  matches_roughly (Exp.is_int e1) (Exp.is_int e2) = matches_roughly e1 e2
  matches_roughly (Exp.is_string e1) (Exp.is_string e2) = matches_roughly e1 e2
  matches_roughly (Exp.is_list e1) (Exp.is_list e2) = matches_roughly e1 e2
  matches_roughly (Exp.is_fun e1) (Exp.is_fun e2) = matches_roughly e1 e2
  matches_roughly (Exp.vector_len e1) (Exp.vector_len e2) = matches_roughly e1 e2
  matches_roughly (Exp.app a1 b1) (Exp.app a2 b2) = matches_roughly a1 a2 >> matches_roughly b1 b2
  matches_roughly (Exp.let_exp x1 a1 b1) (Exp.let_exp x2 a2 b2) =
      matches_roughly a1 a2 >> matches_roughly b1 b2
  matches_roughly (Exp.add_overload a1 b1) (Exp.add_overload a2 b2) =
      matches_roughly a1 a2 >> matches_roughly b1 b2
  matches_roughly (Exp.pair a1 b1) (Exp.pair a2 b2) = matches_roughly a1 a2 >> matches_roughly b1 b2
  matches_roughly (Exp.cons a1 b1) (Exp.cons a2 b2) = matches_roughly a1 a2 >> matches_roughly b1 b2
  matches_roughly (Exp.box_set a1 b1) (Exp.box_set a2 b2) =
      matches_roughly a1 a2 >> matches_roughly b1 b2
  matches_roughly (Exp.vector a1 b1) (Exp.vector a2 b2) =
      matches_roughly a1 a2 >> matches_roughly b1 b2
  matches_roughly (Exp.vector_ref a1 b1) (Exp.vector_ref a2 b2) =
      matches_roughly a1 a2 >> matches_roughly b1 b2
  matches_roughly (Exp.if_exp a1 b1 c1) (Exp.if_exp a2 b2 c2) =
      matches_roughly a1 a2 >> matches_roughly b1 b2 >> matches_roughly c1 c2
  matches_roughly (Exp.vector_set a1 b1 c1) (Exp.vector_set a2 b2 c2) =
      matches_roughly a1 a2 >> matches_roughly b1 b2 >> matches_roughly c1 c2
  matches_roughly self other = differs

  -- The fold over the zipped bindings: the longer list's last bindings are not looked at.
  pub match_bindings : Bindings → Bindings → Match
  match_bindings (binding x1 t1 e1 bs1) (binding x2 t2 e2 bs2) =
      matches_roughly e1 e2 >> types_match t1 t2 >> match_bindings bs1 bs2
  match_bindings bs1 bs2 = agrees
