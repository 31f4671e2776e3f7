-- ===== src/TypeWhich/Migration/Plain.antt =====
-- cgen.rs: the programs that the inference is for, and the coercions that it puts in.
use Prim.Native.String.{String}
use text.Mathlib.Text.{◌==◌}
use plbench.Prelude.{Bool, true, false, ◌≡◌, ◌⊎◌, List, [], ◌∷◌, if◌then◌else◌}
use plbench.TypeWhich.Syntax.{Typ, Exp, Bindings, done, binding}

unfoldable pub known : String → List String → Bool
known x [] = false
known x (y ∷ ys) = if y == x then true else known x ys

abbrev pub bind_names : List String → Bindings → List String
bind_names xs done = xs
bind_names xs (binding x t e bs) = bind_names (x ∷ xs) bs

-- A program without coercions and annotations, in which every variable is bound.
abbrev mutual
  pub IsPlain : List String → Exp → Type 0
  IsPlain xs (Exp.lit l) = Unit
  IsPlain xs (Exp.var x) = known x xs ≡ true
  IsPlain xs (Exp.empty t) = Unit
  IsPlain xs (Exp.ann e t) = ⊥
  IsPlain xs (Exp.coerce t u e) = ⊥
  IsPlain xs (Exp.prim_coerce k e) = ⊥
  IsPlain xs (Exp.func x t e) = IsPlain (x ∷ xs) e
  IsPlain xs (Exp.fix x t e) = IsPlain (x ∷ xs) e
  IsPlain xs (Exp.unary_op op e) = IsPlain xs e
  IsPlain xs (Exp.binary_op op e1 e2) = IsPlain xs e1 × IsPlain xs e2
  IsPlain xs (Exp.let_exp x e1 e2) = IsPlain xs e1 × IsPlain (x ∷ xs) e2
  IsPlain xs (Exp.let_rec bs e) = ArePlain (bind_names xs bs) bs × IsPlain (bind_names xs bs) e
  IsPlain xs (Exp.fst e) = IsPlain xs e
  IsPlain xs (Exp.snd e) = IsPlain xs e
  IsPlain xs (Exp.is_empty e) = IsPlain xs e
  IsPlain xs (Exp.head e) = IsPlain xs e
  IsPlain xs (Exp.tail e) = IsPlain xs e
  IsPlain xs (Exp.box e) = IsPlain xs e
  IsPlain xs (Exp.unbox e) = IsPlain xs e
  IsPlain xs (Exp.vector_len e) = IsPlain xs e
  IsPlain xs (Exp.is_bool e) = IsPlain xs e
  IsPlain xs (Exp.is_int e) = IsPlain xs e
  IsPlain xs (Exp.is_string e) = IsPlain xs e
  IsPlain xs (Exp.is_list e) = IsPlain xs e
  IsPlain xs (Exp.is_fun e) = IsPlain xs e
  IsPlain xs (Exp.app e1 e2) = IsPlain xs e1 × IsPlain xs e2
  IsPlain xs (Exp.add_overload e1 e2) = IsPlain xs e1 × IsPlain xs e2
  IsPlain xs (Exp.pair e1 e2) = IsPlain xs e1 × IsPlain xs e2
  IsPlain xs (Exp.cons e1 e2) = IsPlain xs e1 × IsPlain xs e2
  IsPlain xs (Exp.box_set e1 e2) = IsPlain xs e1 × IsPlain xs e2
  IsPlain xs (Exp.vector e1 e2) = IsPlain xs e1 × IsPlain xs e2
  IsPlain xs (Exp.vector_ref e1 e2) = IsPlain xs e1 × IsPlain xs e2
  IsPlain xs (Exp.if_exp e1 e2 e3) = IsPlain xs e1 × IsPlain xs e2 × IsPlain xs e3
  IsPlain xs (Exp.vector_set e1 e2 e3) = IsPlain xs e1 × IsPlain xs e2 × IsPlain xs e3

  pub ArePlain : List String → Bindings → Type 0
  ArePlain xs done = Unit
  ArePlain xs (binding x t e bs) = IsPlain xs e × ArePlain xs bs

-- A type whose parts are all `any`.
abbrev pub IsGround : Typ → Type 0
IsGround (Typ.arr t u) = (t ≡ Typ.any) × (u ≡ Typ.any)
IsGround (Typ.pair t u) = (t ≡ Typ.any) × (u ≡ Typ.any)
IsGround (Typ.list t) = t ≡ Typ.any
IsGround (Typ.box t) = t ≡ Typ.any
IsGround (Typ.vect t) = t ≡ Typ.any
IsGround (Typ.metavar n) = ⊥
IsGround t = Unit

-- A coercion from a ground type to `any`, or back.
abbrev pub IsReasonable : Typ → Typ → Type 0
IsReasonable t u = ((t ≡ Typ.any) × IsGround u) ⊎ ((u ≡ Typ.any) × IsGround t)

-- The coercions of a program are of that kind.
abbrev mutual
  pub HasReasonable : Exp → Type 0
  HasReasonable (Exp.coerce t u e) = IsReasonable t u × HasReasonable e
  HasReasonable (Exp.lit l) = Unit
  HasReasonable (Exp.var x) = Unit
  HasReasonable (Exp.empty t) = Unit
  HasReasonable (Exp.ann e t) = HasReasonable e
  HasReasonable (Exp.prim_coerce k e) = ⊥
  HasReasonable (Exp.func x t e) = HasReasonable e
  HasReasonable (Exp.fix x t e) = HasReasonable e
  HasReasonable (Exp.unary_op op e) = HasReasonable e
  HasReasonable (Exp.binary_op op e1 e2) = HasReasonable e1 × HasReasonable e2
  HasReasonable (Exp.let_exp x e1 e2) = HasReasonable e1 × HasReasonable e2
  HasReasonable (Exp.let_rec bs e) = HaveReasonable bs × HasReasonable e
  HasReasonable (Exp.fst e) = HasReasonable e
  HasReasonable (Exp.snd e) = HasReasonable e
  HasReasonable (Exp.is_empty e) = HasReasonable e
  HasReasonable (Exp.head e) = HasReasonable e
  HasReasonable (Exp.tail e) = HasReasonable e
  HasReasonable (Exp.box e) = HasReasonable e
  HasReasonable (Exp.unbox e) = HasReasonable e
  HasReasonable (Exp.vector_len e) = HasReasonable e
  HasReasonable (Exp.is_bool e) = HasReasonable e
  HasReasonable (Exp.is_int e) = HasReasonable e
  HasReasonable (Exp.is_string e) = HasReasonable e
  HasReasonable (Exp.is_list e) = HasReasonable e
  HasReasonable (Exp.is_fun e) = HasReasonable e
  HasReasonable (Exp.app e1 e2) = HasReasonable e1 × HasReasonable e2
  HasReasonable (Exp.add_overload e1 e2) = HasReasonable e1 × HasReasonable e2
  HasReasonable (Exp.pair e1 e2) = HasReasonable e1 × HasReasonable e2
  HasReasonable (Exp.cons e1 e2) = HasReasonable e1 × HasReasonable e2
  HasReasonable (Exp.box_set e1 e2) = HasReasonable e1 × HasReasonable e2
  HasReasonable (Exp.vector e1 e2) = HasReasonable e1 × HasReasonable e2
  HasReasonable (Exp.vector_ref e1 e2) = HasReasonable e1 × HasReasonable e2
  HasReasonable (Exp.if_exp e1 e2 e3) = HasReasonable e1 × HasReasonable e2 × HasReasonable e3
  HasReasonable (Exp.vector_set e1 e2 e3) = HasReasonable e1 × HasReasonable e2 × HasReasonable e3

  pub HaveReasonable : Bindings → Type 0
  HaveReasonable done = Unit
  HaveReasonable (binding x t e bs) = HasReasonable e × HaveReasonable bs
