-- ===== src/TypeWhich/Precision/Expressions/Loosened.antt =====
-- precision.rs, `exp_lt` on programs that differ in their annotations alone.
use Prim.Native.String.{String}
use text.Mathlib.Text.{◌==◌}
use text.Mathlib.TextEquality.{eq_iff}
use plbench.Prelude.{ℕ, Bool, true, ◌≡◌, ap, List, [], ◌∷◌, some, arith, Bool-cases, inl, inr}
use plbench.TypeWhich.Syntax.{Typ, Lit, BinOp, Exp}
use plbench.TypeWhich.Migration.Plain.{known}
use plbench.TypeWhich.Precision.Order.{Below, IsCovered, typ_lt_iff}
use plbench.TypeWhich.Precision.Expressions.{Env, get, lit_eq, exp_lt}
use plbench.TypeWhich.Precision.Expressions.Rules.{ExpBelow, exp_lt_iff}

abbrev same_names : List String → Env
same_names [] = []
same_names (x ∷ xs) = (x, x) ∷ same_names xs

get-same_names :
    (x : String) (xs : List String) → known x xs ≡ true → get x (same_names xs) ≡ some x
unfolding get known
get-same_names x [] h = absurd (ground arith)
get-same_names x (y ∷ ys) h = elim (Bool-cases (y == x)) [
  | inl e ↦ rw e (ap some ((eq_iff y x).0 e))
  | inr e ↦ rw e (get-same_names x ys (rw e at h))
]

module _ (float_eq : ℕ → ℕ → Bool) where
  -- One program with less precise annotations, in the part of the language that the code has; the
  -- names are those in scope.
  pub data Loosens : List String → Exp → Exp → Type 0 where
    lit :
        {xs : List String} (l : Lit)
        → lit_eq float_eq l l ≡ true
        → Loosens xs (Exp.lit l) (Exp.lit l)
    var : {xs : List String} (x : String) → known x xs ≡ true → Loosens xs (Exp.var x) (Exp.var x)
    func :
        {xs : List String} {t u : Typ} {e f : Exp} (x : String)
        → IsCovered t
        → Below t u
        → Loosens (x ∷ xs) e f
        → Loosens xs (Exp.func x t e) (Exp.func x u f)
    app :
        {xs : List String} {e1 e2 f1 f2 : Exp}
        → Loosens xs e1 f1
        → Loosens xs e2 f2
        → Loosens xs (Exp.app e1 e2) (Exp.app f1 f2)
    binary_op :
        {xs : List String} {e1 e2 f1 f2 : Exp} (op : BinOp)
        → Loosens xs e1 f1
        → Loosens xs e2 f2
        → Loosens xs (Exp.binary_op op e1 e2) (Exp.binary_op op f1 f2)
    if_exp :
        {xs : List String} {e1 e2 e3 f1 f2 f3 : Exp}
        → Loosens xs e1 f1
        → Loosens xs e2 f2
        → Loosens xs e3 f3
        → Loosens xs (Exp.if_exp e1 e2 e3) (Exp.if_exp f1 f2 f3)

  Loosens-ExpBelow :
      {xs : List String} {e f : Exp} → Loosens xs e f → ExpBelow float_eq (same_names xs) e f
  Loosens-ExpBelow (Loosens.lit l h) = ExpBelow.lit h
  Loosens-ExpBelow {xs} (Loosens.var x h) = ExpBelow.var (get-same_names x xs h)
  Loosens-ExpBelow (Loosens.func {t} {u} x c b h) =
      ExpBelow.func ((typ_lt_iff t u c).1 b) (Loosens-ExpBelow h)
  Loosens-ExpBelow (Loosens.app h k) = ExpBelow.app (Loosens-ExpBelow h) (Loosens-ExpBelow k)
  Loosens-ExpBelow (Loosens.binary_op op h k) =
      ExpBelow.binary_op op (Loosens-ExpBelow h) (Loosens-ExpBelow k)
  Loosens-ExpBelow (Loosens.if_exp h k l) =
      ExpBelow.if_exp (Loosens-ExpBelow h) (Loosens-ExpBelow k) (Loosens-ExpBelow l)

  -- A closed program of literals that equal themselves, variables, functions, calls, binary
  -- operators and conditionals, whose annotations have no list and no box, is below itself and below
  -- every program that differs from it in less precise annotations alone.
  pub Loosens-exp_lt : {e f : Exp} → Loosens [] e f → exp_lt float_eq e f ≡ true
  Loosens-exp_lt {e} {f} h = (exp_lt_iff float_eq e f).1 (Loosens-ExpBelow h)
