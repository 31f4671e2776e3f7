-- ===== src/TypeWhich/Fresh/Annotations.antt =====
-- syntax.rs: the annotations of an expression, and the expressions that a program may hold.
use plbench.Prelude.{Bool, true, false, ◌||◌, List, [], ◌∷◌, ◌++◌}
use plbench.TypeWhich.Syntax.{Typ, Exp, Bindings, done, binding}

-- The types in an expression, from the left to the right.
abbrev mutual
  pub annotations : Exp → List Typ
  annotations (Exp.ann e t) = annotations e ++ t ∷ []
  annotations (Exp.coerce t u e) = t ∷ u ∷ annotations e
  annotations (Exp.lit l) = []
  annotations (Exp.var x) = []
  annotations (Exp.empty t) = t ∷ []
  annotations (Exp.func x t e) = t ∷ annotations e
  annotations (Exp.fix x t e) = t ∷ annotations e
  annotations (Exp.let_rec bs e) = binding_annotations bs ++ annotations e
  annotations (Exp.unary_op op e) = annotations e
  annotations (Exp.fst e) = annotations e
  annotations (Exp.snd e) = annotations e
  annotations (Exp.is_empty e) = annotations e
  annotations (Exp.head e) = annotations e
  annotations (Exp.tail e) = annotations e
  annotations (Exp.box e) = annotations e
  annotations (Exp.unbox e) = annotations e
  annotations (Exp.is_bool e) = annotations e
  annotations (Exp.is_int e) = annotations e
  annotations (Exp.is_string e) = annotations e
  annotations (Exp.is_list e) = annotations e
  annotations (Exp.is_fun e) = annotations e
  annotations (Exp.vector_len e) = annotations e
  annotations (Exp.app e1 e2) = annotations e1 ++ annotations e2
  annotations (Exp.let_exp x e1 e2) = annotations e1 ++ annotations e2
  annotations (Exp.add_overload e1 e2) = annotations e1 ++ annotations e2
  annotations (Exp.binary_op op e1 e2) = annotations e1 ++ annotations e2
  annotations (Exp.pair e1 e2) = annotations e1 ++ annotations e2
  annotations (Exp.cons e1 e2) = annotations e1 ++ annotations e2
  annotations (Exp.box_set e1 e2) = annotations e1 ++ annotations e2
  annotations (Exp.vector e1 e2) = annotations e1 ++ annotations e2
  annotations (Exp.vector_ref e1 e2) = annotations e1 ++ annotations e2
  annotations (Exp.if_exp e1 e2 e3) = annotations e1 ++ (annotations e2 ++ annotations e3)
  annotations (Exp.vector_set e1 e2 e3) = annotations e1 ++ (annotations e2 ++ annotations e3)
  annotations (Exp.prim_coerce k e) = annotations e

  pub binding_annotations : Bindings → List Typ
  binding_annotations done = []
  binding_annotations (binding x t e bs) = t ∷ (annotations e ++ binding_annotations bs)

-- An annotation expression, `e : t`, stands in the expression.
abbrev mutual
  pub has_ann : Exp → Bool
  has_ann (Exp.ann e t) = true
  has_ann (Exp.coerce t u e) = has_ann e
  has_ann (Exp.lit l) = false
  has_ann (Exp.var x) = false
  has_ann (Exp.empty t) = false
  has_ann (Exp.func x t e) = has_ann e
  has_ann (Exp.fix x t e) = has_ann e
  has_ann (Exp.let_rec bs e) = have_ann bs || has_ann e
  has_ann (Exp.unary_op op e) = has_ann e
  has_ann (Exp.fst e) = has_ann e
  has_ann (Exp.snd e) = has_ann e
  has_ann (Exp.is_empty e) = has_ann e
  has_ann (Exp.head e) = has_ann e
  has_ann (Exp.tail e) = has_ann e
  has_ann (Exp.box e) = has_ann e
  has_ann (Exp.unbox e) = has_ann e
  has_ann (Exp.is_bool e) = has_ann e
  has_ann (Exp.is_int e) = has_ann e
  has_ann (Exp.is_string e) = has_ann e
  has_ann (Exp.is_list e) = has_ann e
  has_ann (Exp.is_fun e) = has_ann e
  has_ann (Exp.vector_len e) = has_ann e
  has_ann (Exp.app e1 e2) = has_ann e1 || has_ann e2
  has_ann (Exp.let_exp x e1 e2) = has_ann e1 || has_ann e2
  has_ann (Exp.add_overload e1 e2) = has_ann e1 || has_ann e2
  has_ann (Exp.binary_op op e1 e2) = has_ann e1 || has_ann e2
  has_ann (Exp.pair e1 e2) = has_ann e1 || has_ann e2
  has_ann (Exp.cons e1 e2) = has_ann e1 || has_ann e2
  has_ann (Exp.box_set e1 e2) = has_ann e1 || has_ann e2
  has_ann (Exp.vector e1 e2) = has_ann e1 || has_ann e2
  has_ann (Exp.vector_ref e1 e2) = has_ann e1 || has_ann e2
  has_ann (Exp.if_exp e1 e2 e3) = has_ann e1 || has_ann e2 || has_ann e3
  has_ann (Exp.vector_set e1 e2 e3) = has_ann e1 || has_ann e2 || has_ann e3
  has_ann (Exp.prim_coerce k e) = has_ann e

  pub have_ann : Bindings → Bool
  have_ann done = false
  have_ann (binding x t e bs) = has_ann e || have_ann bs

-- No coercion has been inserted.
abbrev mutual
  pub IsSource : Exp → Type 0
  IsSource (Exp.ann e t) = IsSource e
  IsSource (Exp.coerce t u e) = IsSource e
  IsSource (Exp.lit l) = Unit
  IsSource (Exp.var x) = Unit
  IsSource (Exp.empty t) = Unit
  IsSource (Exp.func x t e) = IsSource e
  IsSource (Exp.fix x t e) = IsSource e
  IsSource (Exp.let_rec bs e) = IsSourceBindings bs × IsSource e
  IsSource (Exp.unary_op op e) = IsSource e
  IsSource (Exp.fst e) = IsSource e
  IsSource (Exp.snd e) = IsSource e
  IsSource (Exp.is_empty e) = IsSource e
  IsSource (Exp.head e) = IsSource e
  IsSource (Exp.tail e) = IsSource e
  IsSource (Exp.box e) = IsSource e
  IsSource (Exp.unbox e) = IsSource e
  IsSource (Exp.is_bool e) = IsSource e
  IsSource (Exp.is_int e) = IsSource e
  IsSource (Exp.is_string e) = IsSource e
  IsSource (Exp.is_list e) = IsSource e
  IsSource (Exp.is_fun e) = IsSource e
  IsSource (Exp.vector_len e) = IsSource e
  IsSource (Exp.app e1 e2) = IsSource e1 × IsSource e2
  IsSource (Exp.add_overload e1 e2) = IsSource e1 × IsSource e2
  IsSource (Exp.pair e1 e2) = IsSource e1 × IsSource e2
  IsSource (Exp.cons e1 e2) = IsSource e1 × IsSource e2
  IsSource (Exp.box_set e1 e2) = IsSource e1 × IsSource e2
  IsSource (Exp.vector e1 e2) = IsSource e1 × IsSource e2
  IsSource (Exp.vector_ref e1 e2) = IsSource e1 × IsSource e2
  IsSource (Exp.let_exp x e1 e2) = IsSource e1 × IsSource e2
  IsSource (Exp.binary_op op e1 e2) = IsSource e1 × IsSource e2
  IsSource (Exp.if_exp e1 e2 e3) = IsSource e1 × IsSource e2 × IsSource e3
  IsSource (Exp.vector_set e1 e2 e3) = IsSource e1 × IsSource e2 × IsSource e3
  IsSource (Exp.prim_coerce k e) = ⊥

  pub IsSourceBindings : Bindings → Type 0
  IsSourceBindings done = Unit
  IsSourceBindings (binding x t e bs) = IsSource e × IsSourceBindings bs
