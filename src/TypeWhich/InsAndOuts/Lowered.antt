-- ===== src/TypeWhich/InsAndOuts/Lowered.antt =====
-- ins_and_outs/to_from_portable_ast.rs: a program there and back.
use Prim.Native.String.{String}
use plbench.Prelude.{ℕ, Bool, ◌≡◌, refl, Option, some}
use plbench.TypeWhich.Syntax as Src
use plbench.TypeWhich.Syntax.{BinOp}
use plbench.TypeWhich.Fresh.{inc_metavar}
use plbench.TypeWhich.InsAndOuts.Syntax.{Typ, Lit, Exp}
use plbench.TypeWhich.InsAndOuts.Portable.{
  next_metavar_typ, from_typ, from_lit, from_exp, to_typ, to_lit, to_exp,
}

-- The types that the inference knows.
pub data IsTyp : Src.Typ → Type 0 where
  unit : IsTyp Src.Typ.unit
  int : IsTyp Src.Typ.int
  bool : IsTyp Src.Typ.bool
  any : IsTyp Src.Typ.any
  arr : {t u : Src.Typ} → IsTyp t → IsTyp u → IsTyp (Src.Typ.arr t u)
  metavar : (n : ℕ) → IsTyp (Src.Typ.metavar n)

pub data IsLit : Src.Lit → Type 0 where
  unit : IsLit Src.Lit.unit
  int : (n : ℕ) → IsLit (Src.Lit.int n)
  bool : (b : Bool) → IsLit (Src.Lit.bool b)

-- The programs that the inference knows, each with a program in which every `let` is the call of a
-- function whose argument is a metavariable.
pub data Lowers : Src.Exp → Src.Exp → Type 0 where
  lit : {l : Src.Lit} → IsLit l → Lowers (Src.Exp.lit l) (Src.Exp.lit l)
  var : (x : String) → Lowers (Src.Exp.var x) (Src.Exp.var x)
  func :
      {x : String} {t : Src.Typ} {e s : Src.Exp}
      → IsTyp t
      → Lowers e s
      → Lowers (Src.Exp.func x t e) (Src.Exp.func x t s)
  app :
      {e1 e2 s1 s2 : Src.Exp}
      → Lowers e1 s1
      → Lowers e2 s2
      → Lowers (Src.Exp.app e1 e2) (Src.Exp.app s1 s2)
  if_exp :
      {e1 e2 e3 s1 s2 s3 : Src.Exp}
      → Lowers e1 s1
      → Lowers e2 s2
      → Lowers e3 s3
      → Lowers (Src.Exp.if_exp e1 e2 e3) (Src.Exp.if_exp s1 s2 s3)
  add :
      {e1 e2 s1 s2 : Src.Exp}
      → Lowers e1 s1
      → Lowers e2 s2
      → Lowers (Src.Exp.binary_op BinOp.int_add e1 e2) (Src.Exp.binary_op BinOp.int_add s1 s2)
  let_exp :
      {x : String} {e1 e2 s1 s2 : Src.Exp} (n : ℕ)
      → Lowers e1 s1
      → Lowers e2 s2
      → Lowers (Src.Exp.let_exp x e1 e2) (Src.Exp.app (Src.Exp.func x (Src.Typ.metavar n) s2) s1)

-- The program goes there, and comes back lowered.
pub data Returns (e : Src.Exp) (o : Option (Exp × ℕ)) : Type 0 where
  returns :
      (e' : Exp) (k : ℕ) (s : Src.Exp)
      → o ≡ some (e', k)
      → to_exp e' ≡ some s
      → Lowers e s
      → Returns e o

-- The programs that the inference knows.
pub data IsKnown : Src.Exp → Type 0 where
  lit : {l : Src.Lit} → IsLit l → IsKnown (Src.Exp.lit l)
  var : (x : String) → IsKnown (Src.Exp.var x)
  func :
      {x : String} {t : Src.Typ} {e : Src.Exp} → IsTyp t → IsKnown e → IsKnown (Src.Exp.func x t e)
  app : {e1 e2 : Src.Exp} → IsKnown e1 → IsKnown e2 → IsKnown (Src.Exp.app e1 e2)
  if_exp :
      {e1 e2 e3 : Src.Exp}
      → IsKnown e1
      → IsKnown e2
      → IsKnown e3
      → IsKnown (Src.Exp.if_exp e1 e2 e3)
  add :
      {e1 e2 : Src.Exp} → IsKnown e1 → IsKnown e2 → IsKnown (Src.Exp.binary_op BinOp.int_add e1 e2)
  let_exp :
      {x : String} {e1 e2 : Src.Exp} → IsKnown e1 → IsKnown e2 → IsKnown (Src.Exp.let_exp x e1 e2)

to_typ-from_typ :
    {t : Src.Typ} → IsTyp t → (t' : Typ) × (from_typ t ≡ some t') × (to_typ t' ≡ some t)
unfolding from_typ to_typ
to_typ-from_typ IsTyp.unit = (Typ.null, refl, refl)
to_typ-from_typ IsTyp.int = (Typ.int, refl, refl)
to_typ-from_typ IsTyp.bool = (Typ.bool, refl, refl)
to_typ-from_typ IsTyp.any = (Typ.any, refl, refl)
to_typ-from_typ (IsTyp.metavar n) = (Typ.metavar n, refl, refl)
to_typ-from_typ (IsTyp.arr h k) =
    let (t, p, q) = to_typ-from_typ h in
    let (u, r, s) = to_typ-from_typ k in (Typ.arr t u, rw (p, r) refl, rw (q, s) refl)

to_lit-from_lit : {l : Src.Lit} → IsLit l → (l' : Lit) × (from_lit l ≡ some l') × (to_lit l' ≡ l)
unfolding from_lit to_lit
to_lit-from_lit IsLit.unit = (Lit.null, refl, refl)
to_lit-from_lit (IsLit.int n) = (Lit.int n, refl, refl)
to_lit-from_lit (IsLit.bool b) = (Lit.bool b, refl, refl)

-- `from_exp` translates every program that the inference knows, from every value of the counter,
-- and `to_exp` translates the result back to that program with the calls of functions, whose
-- arguments are metavariables, in the place of its `let`s.
pub to_exp-from_exp : {e : Src.Exp} → IsKnown e → (n : ℕ) → Returns e (from_exp e n)
unfolding from_exp to_exp to_typ next_metavar_typ inc_metavar
to_exp-from_exp (IsKnown.lit h) n =
    let (l, p, q) = to_lit-from_lit h in
    returns (Exp.lit l) n _ (rw p refl) (rw q refl) (Lowers.lit h)
to_exp-from_exp (IsKnown.var x) n = returns (Exp.var x) n _ refl refl (Lowers.var x)
to_exp-from_exp (IsKnown.func {x} h k) n = elim (to_exp-from_exp k n) [
  | returns e m s p q l ↦
      let (t, a, b) = to_typ-from_typ h in
      let (r, m') = next_metavar_typ m in
      returns (Exp.func x t e r) m' _ (rw (a, p) refl) (rw (b, q) refl) (Lowers.func h l)
]
to_exp-from_exp (IsKnown.app h k) n = elim (to_exp-from_exp h n) [
  | returns e1 m s1 p1 q1 l1 ↦ elim (to_exp-from_exp k m) [
    | returns e2 m2 s2 p2 q2 l2 ↦
        returns (Exp.app e1 e2) m2 _ (rw (p1, p2) refl) (rw (q1, q2) refl) (Lowers.app l1 l2)
  ]
]
to_exp-from_exp (IsKnown.add h k) n = elim (to_exp-from_exp h n) [
  | returns e1 m s1 p1 q1 l1 ↦ elim (to_exp-from_exp k m) [
    | returns e2 m2 s2 p2 q2 l2 ↦
        returns (Exp.add e1 e2) m2 _ (rw (p1, p2) refl) (rw (q1, q2) refl) (Lowers.add l1 l2)
  ]
]
to_exp-from_exp (IsKnown.if_exp h k l) n = elim (to_exp-from_exp h n) [
  | returns e1 m s1 p1 q1 l1 ↦ elim (to_exp-from_exp k m) [
    | returns e2 m2 s2 p2 q2 l2 ↦ elim (to_exp-from_exp l m2) [
      | returns e3 m3 s3 p3 q3 l3 ↦
          returns (Exp.if_exp e1 e2 e3) m3 _ (rw (p1, p2, p3) refl) (rw (q1, q2, q3) refl)
            (Lowers.if_exp l1 l2 l3)
    ]
  ]
]
to_exp-from_exp (IsKnown.let_exp {x} h k) n = elim (to_exp-from_exp k (next_metavar_typ n).1) [
  | returns e2 m s2 p2 q2 l2 ↦ elim (to_exp-from_exp h (next_metavar_typ m).1) [
    | returns e1 m1 s1 p1 q1 l1 ↦
        returns (Exp.app (Exp.func x (Typ.metavar n) e2 (Typ.metavar m)) e1) m1 _ (rw (p2, p1) refl)
          (rw (q1, q2) refl) (Lowers.let_exp n l1 l2)
  ]
]
