-- ===== src/TypeWhich/Eval/Typing.antt =====
-- The types of programs with coercions and of the values of eval.rs.
use Prim.Native.String.{String}
use plbench.Prelude.{ℕ, ◌≡◌, Bool, [], ◌∷◌, some}
use plbench.TypeWhich.Syntax.{Typ, Lit, BinOp, GroundTyp, Coerce, Exp}
use plbench.TypeWhich.TypeCheck as TypeCheck
use plbench.TypeWhich.Coercions.Typing.{Coerces, ground_type}
use plbench.TypeWhich.Eval.{Val, Env}

-- Programs with their coercions inserted, in the part of the language that the evaluator has.
pub data Inserted : TypeCheck.Env → Exp → Typ → Type 0 where
  int : {env : TypeCheck.Env} {n : ℕ} → Inserted env (Exp.lit (Lit.int n)) Typ.int
  bool : {env : TypeCheck.Env} {b : Bool} → Inserted env (Exp.lit (Lit.bool b)) Typ.bool
  var :
      {env : TypeCheck.Env} {x : String} {t : Typ}
      → TypeCheck.get x env ≡ some t
      → Inserted env (Exp.var x) t
  func :
      {env : TypeCheck.Env} {x : String} {t u : Typ} {e : Exp}
      → Inserted ((x, t) ∷ env) e u
      → Inserted env (Exp.func x t e) (Typ.arr t u)
  app :
      {env : TypeCheck.Env} {t u : Typ} {e1 e2 : Exp}
      → Inserted env e1 (Typ.arr t u)
      → Inserted env e2 t
      → Inserted env (Exp.app e1 e2) u
  coerce :
      {env : TypeCheck.Env} {t u : Typ} {e : Exp}
      → Inserted env e t
      → Inserted env (Exp.coerce t u e) u
  prim_coerce :
      {env : TypeCheck.Env} {k : Coerce} {t u : Typ} {e : Exp}
      → Coerces k t u
      → Inserted env e t
      → Inserted env (Exp.prim_coerce k e) u
  int_add :
      {env : TypeCheck.Env} {e1 e2 : Exp}
      → Inserted env e1 Typ.int
      → Inserted env e2 Typ.int
      → Inserted env (Exp.binary_op BinOp.int_add e1 e2) Typ.int
  if_exp :
      {env : TypeCheck.Env} {e1 e2 e3 : Exp} {t : Typ}
      → Inserted env e1 Typ.bool
      → Inserted env e2 t
      → Inserted env e3 t
      → Inserted env (Exp.if_exp e1 e2 e3) t

mutual
  pub data HasVal : Val → Typ → Type 0 where
    int : {n : ℕ} → HasVal (Val.lit (Lit.int n)) Typ.int
    bool : {b : Bool} → HasVal (Val.lit (Lit.bool b)) Typ.bool
    closure :
        {env : Env} {x : String} {e : Exp} {dom rng : Coerce} {types : TypeCheck.Env}
        {t t' u u' : Typ}
        → HasEnv env types
        → Inserted ((x, t') ∷ types) e u'
        → Coerces dom t t'
        → Coerces rng u' u
        → HasVal (Val.closure env x e dom rng) (Typ.arr t u)
    tagged : {g : GroundTyp} {v : Val} → HasVal v (ground_type g) → HasVal (Val.tagged g v) Typ.any

  pub data HasEnv : Env → TypeCheck.Env → Type 0 where
    empty : HasEnv Env.empty []
    bind :
        {env : Env} {types : TypeCheck.Env} {x : String} {v : Val} {t : Typ}
        → HasVal v t
        → HasEnv env types
        → HasEnv (Env.bind x v env) ((x, t) ∷ types)
