-- ===== src/TypeWhich/Precision/Expressions/Rules.antt =====
-- precision.rs, the cases of `exp_lt`.
use Prim.Native.String.{String}
use text.Mathlib.TextEquality.{eq_iff}
use mathlib.Core.Logic.{ite}
use plbench.Prelude.{
  ℕ, Bool, true, false, ◌&&◌, ◌≡◌, ◌≢◌, ◌↔◌, refl, sym, ap, [], ◌∷◌, Option, none, some, arith,
  if◌then◌else◌,
}
use plbench.TypeWhich.Syntax.{Typ, Lit, BinOp, Exp}
use plbench.TypeWhich.Matching.{BinOp-discrete}
use plbench.TypeWhich.Precision.{typ_lt}
use plbench.TypeWhich.Precision.Expressions.{Env, get, lit_eq, is_renamed, exp_lt_rec, exp_lt}

both : (a b : Bool) → (a && b) ≡ true → (a ≡ true) × (b ≡ true)
both a b h = (ground arith, ground arith)

renamed : (x y : String) (o : Option String) → is_renamed y o ≡ true → o ≡ some y
renamed x y none h = absurd (ground arith)
renamed x y (some z) h = ap some (sym ((eq_iff y z).0 h))

module _ (float_eq : ℕ → ℕ → Bool) where
  -- The pairs of expressions that the code has a case for, from the names of an environment.
  pub data ExpBelow : Env → Exp → Exp → Type 0 where
    lit :
        {env : Env} {l m : Lit} → lit_eq float_eq l m ≡ true → ExpBelow env (Exp.lit l) (Exp.lit m)
    var : {env : Env} {x y : String} → get x env ≡ some y → ExpBelow env (Exp.var x) (Exp.var y)
    func :
        {env : Env} {x y : String} {t u : Typ} {e1 e2 : Exp}
        → typ_lt t u ≡ true
        → ExpBelow ((x, y) ∷ env) e1 e2
        → ExpBelow env (Exp.func x t e1) (Exp.func y u e2)
    app :
        {env : Env} {e1 e2 f1 f2 : Exp}
        → ExpBelow env e1 f1
        → ExpBelow env e2 f2
        → ExpBelow env (Exp.app e1 e2) (Exp.app f1 f2)
    binary_op :
        {env : Env} {e1 e2 f1 f2 : Exp} (op : BinOp)
        → ExpBelow env e1 f1
        → ExpBelow env e2 f2
        → ExpBelow env (Exp.binary_op op e1 e2) (Exp.binary_op op f1 f2)
    if_exp :
        {env : Env} {e1 e2 e3 f1 f2 f3 : Exp}
        → ExpBelow env e1 f1
        → ExpBelow env e2 f2
        → ExpBelow env e3 f3
        → ExpBelow env (Exp.if_exp e1 e2 e3) (Exp.if_exp f1 f2 f3)

  exp_lt_rec-ExpBelow :
      (env : Env) (e1 e2 : Exp) → exp_lt_rec float_eq env e1 e2 ≡ true → ExpBelow env e1 e2
  unfolding exp_lt_rec
  exp_lt_rec-ExpBelow env (Exp.lit l1) (Exp.lit l2) h = ExpBelow.lit h
  exp_lt_rec-ExpBelow env (Exp.var x) (Exp.var y) h = ExpBelow.var (renamed x y (get x env) h)
  exp_lt_rec-ExpBelow env (Exp.func x t1 e1) (Exp.func y t2 e2) h =
      let (p, q) = guarded (typ_lt t1 t2) (exp_lt_rec float_eq ((x, y) ∷ env) e1 e2) h in
      ExpBelow.func p (exp_lt_rec-ExpBelow ((x, y) ∷ env) e1 e2 q)
    where
      guarded : (a b : Bool) → (if a then b else false) ≡ true → (a ≡ true) × (b ≡ true)
      guarded a b h = (ground arith, ground arith)
  exp_lt_rec-ExpBelow env (Exp.app e11 e12) (Exp.app e21 e22) h =
      let (p, q) = both (exp_lt_rec float_eq env e11 e21) _ h in
      ExpBelow.app (exp_lt_rec-ExpBelow env e11 e21 p) (exp_lt_rec-ExpBelow env e12 e22 q)
  exp_lt_rec-ExpBelow env (Exp.binary_op op1 e11 e12) (Exp.binary_op op2 e21 e22) h =
      let (a, r) = both _ _ h in
      let (o, p) = both _ _ a in
      decided (BinOp-discrete op1 op2) o (exp_lt_rec-ExpBelow env e11 e21 p)
        (exp_lt_rec-ExpBelow env e12 e22 r)
    where
      decided :
          (d : Dec (op1 ≡ op2))
          → ite d true false ≡ true
          → ExpBelow env e11 e21
          → ExpBelow env e12 e22
          → ExpBelow env (Exp.binary_op op1 e11 e12) (Exp.binary_op op2 e21 e22)
      decided (yes e) h p q = rw (sym e) (ExpBelow.binary_op op1 p q)
      decided (no ne) h p q = absurd (ground arith)
  exp_lt_rec-ExpBelow env (Exp.if_exp e11 e12 e13) (Exp.if_exp e21 e22 e23) h =
      let (a, r) = both _ _ h in
      let (p, q) = both _ _ a in
      ExpBelow.if_exp (exp_lt_rec-ExpBelow env e11 e21 p) (exp_lt_rec-ExpBelow env e12 e22 q)
        (exp_lt_rec-ExpBelow env e13 e23 r)
  exp_lt_rec-ExpBelow env _ _ h = absurd (ground arith)

  ExpBelow-exp_lt_rec :
      {env : Env} {e1 e2 : Exp} → ExpBelow env e1 e2 → exp_lt_rec float_eq env e1 e2 ≡ true
  unfolding exp_lt_rec
  ExpBelow-exp_lt_rec (ExpBelow.lit h) = h
  ExpBelow-exp_lt_rec (ExpBelow.var {y} h) = rw h ((eq_iff y y).1 refl)
  ExpBelow-exp_lt_rec (ExpBelow.func {t} {u} b h) = rw b (ExpBelow-exp_lt_rec h)
  ExpBelow-exp_lt_rec (ExpBelow.app h k) = rw (ExpBelow-exp_lt_rec h, ExpBelow-exp_lt_rec k) refl
  ExpBelow-exp_lt_rec (ExpBelow.binary_op op h k) =
      rw (ExpBelow-exp_lt_rec h, ExpBelow-exp_lt_rec k) (same (BinOp-discrete op op))
    where
      same : (d : Dec (op ≡ op)) → (ite d true false && true && true) ≡ true
      same (yes e) = refl
      same (no ne) = absurd (ne refl)
  ExpBelow-exp_lt_rec (ExpBelow.if_exp h k l) =
      rw (ExpBelow-exp_lt_rec h, ExpBelow-exp_lt_rec k, ExpBelow-exp_lt_rec l) refl

  -- `exp_lt` is true of these pairs alone, from no names.
  pub exp_lt_iff : (e1 e2 : Exp) → (exp_lt float_eq e1 e2 ≡ true) ↔ ExpBelow [] e1 e2
  unfolding exp_lt
  exp_lt_iff e1 e2 = (exp_lt_rec-ExpBelow [] e1 e2, ExpBelow-exp_lt_rec)

  typ_lt-any : (t : Typ) → typ_lt t Typ.any ≡ true
  unfolding typ_lt
  typ_lt-any t = refl

  -- A name that hides another is taken for both: the first of two arguments is at most as dynamic
  -- as the second of two of one name.
  exp_lt-hides :
      (x y z : String) (t u : Typ)
      → x ≢ y
      → exp_lt float_eq
          (Exp.func x t (Exp.func y u (Exp.var x)))
          (Exp.func z Typ.any (Exp.func z Typ.any (Exp.var z)))
        ≡ true
  unfolding get
  exp_lt-hides x y z t u ne =
      (exp_lt_iff _ _).1
        (ExpBelow.func (typ_lt-any t) (ExpBelow.func (typ_lt-any u) (ExpBelow.var hidden)))
    where
      hidden : get x ((y, z) ∷ (x, z) ∷ []) ≡ some z
      hidden = ground (arith, eq_iff y x, eq_iff x x)
