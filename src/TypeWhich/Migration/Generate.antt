-- ===== src/TypeWhich/Migration/Generate.antt =====
-- cgen.rs, `State::cgen`: the program with its coercions, its type and the constraints.
use plbench.Prelude.{Option, none, some, if◌then◌else◌, ◌∷◌}
use plbench.TypeWhich.Syntax.{Typ, Exp, Bindings, done, binding, lit_typ, un_op_typ, bin_op_typ}
use plbench.TypeWhich.TypeCheck.{Env, get, bind_all}
use plbench.TypeWhich.Z3.{Z3}
use plbench.TypeWhich.Migration.{
  Options, Gen, Generated, pass, panic, ◌>>=◌, ◌&◌, ◌or◌, fresh, t2z3, same, is_any, ground_z3,
  prefer, strengthen, weaken,
}

module _ ⦃z : Z3⦄ (options : Options) where
  open z use {Formula}

  -- The case of a variable.
  unfoldable pub cgen_var : Exp → Option Typ → Gen Generated
  unfolding weaken
  cgen_var e none = panic
  cgen_var e (some t) =
      if options.rigid_vars then pass (e, t, z.true_z3) else weaken options t e z.true_z3

  -- The case of the five tests of a tag.
  unfoldable pub cgen_test : (Exp → Exp) → Generated → Gen Generated
  unfolding weaken is_any
  cgen_test node (e, t, phi1) = do phi2 ← is_any t; weaken options Typ.bool (node e) (phi1 & phi2)

  unfoldable mutual
    unfolding cgen_var cgen_test weaken strengthen same is_any t2z3 get bind_all prefer

    pub cgen : Env → Exp → Gen Generated
    cgen env (Exp.prim_coerce k e) = panic
    cgen env (Exp.lit l) = weaken options (lit_typ l) (Exp.lit l) z.true_z3
    cgen env (Exp.var x) = cgen_var (Exp.var x) (get x env)
    cgen env (Exp.func x t1 body) = do
      (body', t2, phi) ← cgen ((x, t1) ∷ env) body
      weaken options (Typ.arr t1 t2) (Exp.func x t1 body') phi
    cgen env (Exp.fix x t1 body) = do
      (body', t2, phi1) ← cgen ((x, t1) ∷ env) body
      phi2 ← same t1 t2
      weaken options t1 (Exp.fix x t1 body') (phi1 & phi2)
    cgen env (Exp.app e1 e2) = do
      (e1', t1, phi1) ← cgen env e1
      (e2', t2, phi2) ← cgen env e2
      alpha ← fresh
      beta ← fresh
      (e1'', phi3) ← strengthen options t1 (Typ.arr alpha beta) e1'
      phi4 ← same t2 alpha
      weaken options beta (Exp.app e1'' e2') (phi1 & phi2 & phi3 & phi4)
    cgen env (Exp.unary_op op e) = do
      (e', t, phi1) ← cgen env e
      (e'', phi2) ← strengthen options t (un_op_typ op).0 e'
      weaken options (un_op_typ op).1 (Exp.unary_op op e'') (phi1 & phi2)
    cgen env (Exp.binary_op op e1 e2) = do
      (e1', t1, phi1) ← cgen env e1
      (e2', t2, phi2) ← cgen env e2
      (e1'', phi3) ← strengthen options t1 (bin_op_typ op).0 e1'
      (e2'', phi4) ← strengthen options t2 (bin_op_typ op).1 e2'
      weaken options (bin_op_typ op).2 (Exp.binary_op op e1'' e2'') (phi1 & phi2 & (phi3 & phi4))
    cgen env (Exp.let_exp x e1 e2) = do
      (e1', t1, phi1) ← cgen env e1
      (e2', t2, phi2) ← cgen ((x, t1) ∷ env) e2
      pass (Exp.let_exp x e1' e2', t2, phi1 & phi2)
    cgen env (Exp.let_rec es e) = do
      (es', phis) ← cgen_all (bind_all env es) z.true_z3 es
      (e', t, phi) ← cgen (bind_all env es) e
      pass (Exp.let_rec es' e', t, phi & phis)
    cgen env (Exp.ann e t) = do
      (e', t1, phi1) ← cgen env e
      f ← ground_z3 t1
      g ← ground_z3 t
      pass (Exp.ann e' t, t, phi1 & (f & g))
    cgen env (Exp.add_overload e1 e2) = do
      (e1', t1, phi1) ← cgen env e1
      (e2', t2, phi2) ← cgen env e2
      a ← t2z3 t1
      b ← t2z3 t2
      weaken options t1 (Exp.add_overload e1' e2')
          (phi1 & phi2 & z.eq a b & (z.eq a z.int_z3 or z.eq a z.str_z3 or z.eq a z.any_z3))
    cgen env (Exp.if_exp e1 e2 e3) = do
      (e1', t1, phi1) ← cgen env e1
      (e2', t2, phi2) ← cgen env e2
      (e3', t3, phi3) ← cgen env e3
      (e1'', f) ← strengthen options t1 Typ.bool e1'
      g ← same t2 t3
      pass (Exp.if_exp e1'' e2' e3', t2, phi1 & phi2 & phi3 & (f & g))
    cgen env (Exp.pair e1 e2) = do
      (e1', t1, phi1) ← cgen env e1
      (e2', t2, phi2) ← cgen env e2
      weaken options (Typ.pair t1 t2) (Exp.pair e1' e2') (phi1 & phi2)
    cgen env (Exp.fst e) = do
      (e', t1, phi1) ← cgen env e
      alpha ← fresh
      beta ← fresh
      (e'', phi2) ← strengthen options t1 (Typ.pair alpha beta) e'
      weaken options alpha (Exp.fst e'') (phi1 & phi2)
    cgen env (Exp.snd e) = do
      (e', t1, phi1) ← cgen env e
      alpha ← fresh
      beta ← fresh
      (e'', phi2) ← strengthen options t1 (Typ.pair alpha beta) e'
      weaken options beta (Exp.snd e'') (phi1 & phi2)
    cgen env (Exp.cons e1 e2) = do
      (e1', t1, phi1) ← cgen env e1
      (e2', t2, phi2) ← cgen env e2
      (e2'', phi3) ← strengthen options t2 (Typ.list t1) e2'
      weaken options (Typ.list t1) (Exp.cons e1' e2'') (phi1 & phi2 & phi3)
    cgen env (Exp.empty t) = weaken options (Typ.list t) (Exp.empty t) z.true_z3
    cgen env (Exp.head e) = do
      (e', t, phi1) ← cgen env e
      alpha ← fresh
      (e'', phi2) ← strengthen options t (Typ.list alpha) e'
      weaken options alpha (Exp.head e'') (phi1 & phi2)
    cgen env (Exp.tail e) = do
      (e', t, phi1) ← cgen env e
      alpha ← fresh
      (e'', phi2) ← strengthen options t (Typ.list alpha) e'
      weaken options (Typ.list alpha) (Exp.tail e'') (phi1 & phi2)
    cgen env (Exp.is_empty e) = do
      (e', t, phi1) ← cgen env e
      alpha ← fresh
      (e'', phi2) ← strengthen options t (Typ.list alpha) e'
      weaken options Typ.bool (Exp.is_empty e'') (phi1 & phi2)
    cgen env (Exp.box e) = do
      (e', t, phi1) ← cgen env e
      weaken options (Typ.box t) (Exp.box e') phi1
    cgen env (Exp.unbox e) = do
      (e', t, phi1) ← cgen env e
      alpha ← fresh
      (e'', phi2) ← strengthen options t (Typ.box alpha) e'
      weaken options alpha (Exp.unbox e'') (phi1 & phi2)
    cgen env (Exp.box_set e1 e2) = do
      (e1', t1, phi1) ← cgen env e1
      (e2', t2, phi2) ← cgen env e2
      (e1'', phi3) ← strengthen options t1 (Typ.box t2) e1'
      weaken options Typ.unit (Exp.box_set e1'' e2') (phi1 & phi2 & phi3)
    cgen env (Exp.vector e1 e2) = do
      (e1', t1, phi1) ← cgen env e1
      (e2', t2, phi2) ← cgen env e2
      (e1'', phi3) ← strengthen options t1 Typ.int e1'
      weaken options (Typ.vect t2) (Exp.vector e1'' e2') (phi1 & phi2 & phi3)
    cgen env (Exp.vector_ref e1 e2) = do
      (e1', t1, phi1) ← cgen env e1
      (e2', t2, phi2) ← cgen env e2
      alpha ← fresh
      (e1'', phi3) ← strengthen options t1 (Typ.vect alpha) e1'
      (e2'', phi4) ← strengthen options t2 Typ.int e2'
      weaken options alpha (Exp.vector_ref e1'' e2'') (phi1 & phi2 & phi3 & phi4)
    cgen env (Exp.vector_set e1 e2 e3) = do
      (e1', t1, phi1) ← cgen env e1
      (e2', t2, phi2) ← cgen env e2
      (e3', t3, phi3) ← cgen env e3
      (e1'', phi4) ← strengthen options t1 (Typ.vect t3) e1'
      (e2'', phi5) ← strengthen options t2 Typ.int e2'
      weaken options Typ.unit (Exp.vector_set e1'' e2'' e3') (phi1 & phi2 & phi3 & phi4 & phi5)
    cgen env (Exp.vector_len e) = do
      (e', t, phi1) ← cgen env e
      alpha ← fresh
      (e'', phi2) ← strengthen options t (Typ.vect alpha) e'
      weaken options Typ.int (Exp.vector_len e'') (phi1 & phi2)
    cgen env (Exp.is_bool e) = do r ← cgen env e; cgen_test Exp.is_bool r
    cgen env (Exp.is_int e) = do r ← cgen env e; cgen_test Exp.is_int r
    cgen env (Exp.is_string e) = do r ← cgen env e; cgen_test Exp.is_string r
    cgen env (Exp.is_list e) = do r ← cgen env e; cgen_test Exp.is_list r
    cgen env (Exp.is_fun e) = do r ← cgen env e; cgen_test Exp.is_fun r
    cgen env (Exp.coerce t1 t2 e) = do
      (e', t3, phi) ← cgen env e
      _ ← prefer options t1 t2
      f ← same t1 t3
      pass (Exp.coerce t1 t2 e', t2, phi & f)

    -- The bindings of a `letrec`.
    pub cgen_all : Env → Formula → Bindings → Gen (Bindings × Formula)
    cgen_all env acc done = pass (done, acc)
    cgen_all env acc (binding x t e bs) = do
      (e', s, phi) ← cgen env e
      f ← same t s
      (bs', phis) ← cgen_all env (acc & f & phi) bs
      pass (binding x t e' bs', phis)
