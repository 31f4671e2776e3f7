-- ===== src/TypeWhich/Insertion/Typed.antt =====
-- insert_coercions.rs, `ins`: the types of the programs that it makes, and their evaluation.
use Prim.Native.String.{String}
use mathlib.Core.Logic.{ite}
use plbench.Prelude.{ℕ, ◌≡◌, ◌≢◌, refl, Bool, false, [], ◌∷◌, some}
use plbench.TypeWhich.Syntax.{Typ, Typ-discrete, Lit, BinOp, Coerce, Exp}
use plbench.TypeWhich.Types.{join, is_metavar}
use plbench.TypeWhich.Outcome.{Outcome, accepts}
use plbench.TypeWhich.TypeCheck.{Env, get}
use plbench.TypeWhich.Coercions.{coerce}
use plbench.TypeWhich.Coercions.Typing.{Coerces, coerce-Coerces}
use plbench.TypeWhich.Eval as Eval
use plbench.TypeWhich.Eval.Typing.{Inserted, HasVal}
use plbench.TypeWhich.Eval.Safety.{eval-ne-panics}
use plbench.TypeWhich.Insertion.{fun_typ, coerced, ins, insert_coercions}

-- The type has no metavariable.
abbrev pub IsKnown : Typ → Type 0
IsKnown (Typ.metavar n) = ⊥
IsKnown (Typ.arr t u) = IsKnown t × IsKnown u
IsKnown (Typ.pair t u) = IsKnown t × IsKnown u
IsKnown (Typ.list t) = IsKnown t
IsKnown (Typ.box t) = IsKnown t
IsKnown (Typ.vect t) = IsKnown t
IsKnown _ = Unit

-- The programs of the gradual language that the comparison is about, with their variables bound
-- and their annotations known.
pub data IsGradual : Env → Exp → Type 0 where
  int : {env : Env} {n : ℕ} → IsGradual env (Exp.lit (Lit.int n))
  bool : {env : Env} {b : Bool} → IsGradual env (Exp.lit (Lit.bool b))
  var :
      {env : Env} {x : String} {t : Typ}
      → get x env ≡ some t
      → IsKnown t
      → IsGradual env (Exp.var x)
  func :
      {env : Env} {x : String} {t : Typ} {e : Exp}
      → IsKnown t
      → IsGradual ((x, t) ∷ env) e
      → IsGradual env (Exp.func x t e)
  app :
      {env : Env} {e1 e2 : Exp}
      → IsGradual env e1
      → IsGradual env e2
      → IsGradual env (Exp.app e1 e2)
  int_add :
      {env : Env} {e1 e2 : Exp}
      → IsGradual env e1
      → IsGradual env e2
      → IsGradual env (Exp.binary_op BinOp.int_add e1 e2)
  if_exp :
      {env : Env} {e1 e2 e3 : Exp}
      → IsGradual env e1
      → IsGradual env e2
      → IsGradual env e3
      → IsGradual env (Exp.if_exp e1 e2 e3)
  ann : {env : Env} {e : Exp} {t : Typ} → IsKnown t → IsGradual env e → IsGradual env (Exp.ann e t)

-- The insertion succeeds, with an expression of the type that it answers.
pub data Inserts (env : Env) (o : Outcome (Typ × Exp)) : Type 0 where
  inserts : (t : Typ) (e : Exp) → o ≡ accepts (t, e) → IsKnown t → Inserted env e t → Inserts env o

coerced-Inserted :
    {env : Env} {e : Exp} {t u : Typ} (k : Coerce)
    → Coerces k t u
    → Inserted env e t
    → Inserted env (coerced e k) u
unfolding coerced
coerced-Inserted Coerce.id Coerces.id d = d
coerced-Inserted (Coerce.tag g) c d = Inserted.prim_coerce c d
coerced-Inserted k c d = Inserted.prim_coerce c d

known-is_metavar : (t : Typ) → IsKnown t → is_metavar t ≡ false
unfolding is_metavar
known-is_metavar (Typ.metavar n) h = elim h [ ]
known-is_metavar Typ.unit h = refl
known-is_metavar _ h = refl

join-IsKnown : (t u : Typ) → IsKnown t → IsKnown u → (j : Typ) × (join t u ≡ some j) × IsKnown j
unfolding join
join-IsKnown t u h k = (
  ite (Typ-discrete t u) t Typ.any,
  rw (known-is_metavar t h, known-is_metavar u k) refl,
  chosen (Typ-discrete t u),
)
  where
    chosen : (d : Dec (t ≡ u)) → IsKnown (ite d t Typ.any)
    chosen (yes e) = h
    chosen (no ne) = tt

fun_typ-IsKnown : (t : Typ) → IsKnown t → IsKnown (fun_typ t).0 × IsKnown (fun_typ t).1
unfolding fun_typ
fun_typ-IsKnown (Typ.arr t u) h = h
fun_typ-IsKnown _ h = (tt, tt)

ins-Inserts : {env : Env} {e : Exp} → IsGradual env e → Inserts env (ins env e)
unfolding ins
ins-Inserts IsGradual.int = Inserts.inserts _ _ refl tt Inserted.int
ins-Inserts IsGradual.bool = Inserts.inserts _ _ refl tt Inserted.bool
ins-Inserts (IsGradual.var {t} g k) = Inserts.inserts t _ (rw g) k (Inserted.var g)
ins-Inserts (IsGradual.func {x} {t} k d) = elim (ins-Inserts d) [
  | Inserts.inserts u e q h i ↦
      Inserts.inserts (Typ.arr t u) (Exp.func x t e) (rw q) (k, h) (Inserted.func i)
]
ins-Inserts (IsGradual.ann {t} k d) = elim (ins-Inserts d) [
  | Inserts.inserts u e q h i ↦
      Inserts.inserts t (Exp.prim_coerce (coerce u t) e) (rw q) k
        (Inserted.prim_coerce (coerce-Coerces u t) i)
]
ins-Inserts (IsGradual.int_add d1 d2) = elim (ins-Inserts d1) [
  | Inserts.inserts t1 e1 q1 h1 i1 ↦ elim (ins-Inserts d2) [
    | Inserts.inserts t2 e2 q2 h2 i2 ↦
        Inserts.inserts Typ.int
          (Exp.binary_op BinOp.int_add (Exp.prim_coerce (coerce t1 Typ.int) e1)
            (Exp.prim_coerce (coerce t2 Typ.int) e2))
          (rw (q1, q2)) tt
          (Inserted.int_add (Inserted.prim_coerce (coerce-Coerces t1 Typ.int) i1)
            (Inserted.prim_coerce (coerce-Coerces t2 Typ.int) i2))
  ]
]
ins-Inserts (IsGradual.app d1 d2) = elim (ins-Inserts d1) [
  | Inserts.inserts t1 e1 q1 h1 i1 ↦ elim (ins-Inserts d2) [
    | Inserts.inserts t2 e2 q2 h2 i2 ↦
        let dom = (fun_typ t1).0 in
        let rng = (fun_typ t1).1 in
        Inserts.inserts rng
          (Exp.app (Exp.prim_coerce (coerce t1 (Typ.arr dom rng)) e1)
            (Exp.prim_coerce (coerce t2 dom) e2))
          (rw (q1, q2)) (fun_typ-IsKnown t1 h1).1
          (Inserted.app (Inserted.prim_coerce (coerce-Coerces t1 (Typ.arr dom rng)) i1)
            (Inserted.prim_coerce (coerce-Coerces t2 dom) i2))
  ]
]
ins-Inserts (IsGradual.if_exp d1 d2 d3) = elim (ins-Inserts d1) [
  | Inserts.inserts t1 e1 q1 h1 i1 ↦ elim (ins-Inserts d2) [
    | Inserts.inserts t2 e2 q2 h2 i2 ↦ elim (ins-Inserts d3) [
      | Inserts.inserts t3 e3 q3 h3 i3 ↦
          let (j, s, h) = join-IsKnown t2 t3 h2 h3 in
          Inserts.inserts j
            (Exp.if_exp (Exp.prim_coerce (coerce t1 Typ.bool) e1) (coerced e2 (coerce t2 j))
              (coerced e3 (coerce t3 j)))
            (rw (q1, q2, q3, s)) h
            (Inserted.if_exp (Inserted.prim_coerce (coerce-Coerces t1 Typ.bool) i1)
              (coerced-Inserted (coerce t2 j) (coerce-Coerces t2 j) i2)
              (coerced-Inserted (coerce t3 j) (coerce-Coerces t3 j) i3))
    ]
  ]
]

-- Insertion makes of every program of the gradual language one that evaluates without a panic, on
-- any fuel, and whose values have its type.
pub insert_coercions-ne-panics :
    (e : Exp)
    → IsGradual [] e
    → (e' : Exp) × ((t : Typ) × (insert_coercions e ≡ accepts e')
        × ((n : ℕ)
            → (Eval.eval n Eval.Env.empty e' ≢ Eval.Result.panics)
              × ((v : Eval.Val)
                  → Eval.eval n Eval.Env.empty e' ≡ Eval.Result.value v
                  → HasVal v t)))
unfolding insert_coercions
insert_coercions-ne-panics e d = elim (ins-Inserts d) [
  | Inserts.inserts t e' q h i ↦ (e', (t, rw q refl, λ n. eval-ne-panics n e' t i))
]
