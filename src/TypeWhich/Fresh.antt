-- ===== src/TypeWhich/Fresh.antt =====
-- syntax.rs, `Exp::fresh_types`, and parser.rs, `next_metavar`: an expression with a fresh
-- metavariable in the place of every annotation.
pub mod Annotations
pub mod Counted
use plbench.Prelude.{ℕ, ◌+◌, ◌%◌, ◌^◌, Option, none, some}
use plbench.TypeWhich.Syntax.{Typ, Exp, Bindings, done, binding}

-- The counter of the thread, a `u32`: its value, and the next one.
unfoldable pub inc_metavar : ℕ → ℕ × ℕ
inc_metavar i = (i, (i + 1) % 2 ^ 32)

-- A metavariable, and the counter behind it.
unfoldable pub next_metavar : ℕ → Typ × ℕ
unfolding inc_metavar
next_metavar counter = let (i, next) = inc_metavar counter in (Typ.metavar i, next)

-- From the counter to the result and the counter behind it; `none` is a panic.
abbrev pub Fresh : Type 0 → Type 0
Fresh A = ℕ → Option (A × ℕ)

abbrev pub pass : {A : Type 0} → A → Fresh A
pass a n = some (a, n)

abbrev pub then : {A B : Type 0} → Option (A × ℕ) → (A → Fresh B) → Option (B × ℕ)
then none f = none
then (some (a, k)) f = f a k

infixl 5 ◌>>=◌
abbrev pub ◌>>=◌ : {A B : Type 0} → Fresh A → (A → Fresh B) → Fresh B
◌>>=◌ m f n = then (m n) f

abbrev pub typ : Fresh Typ
typ n = some (next_metavar n)

-- The subexpressions of a node, from the left to the right.
abbrev pub one : (Exp → Exp) → Fresh Exp → Fresh Exp
one node r = do e ← r; pass (node e)

abbrev pub two : (Exp → Exp → Exp) → Fresh Exp → Fresh Exp → Fresh Exp
two node r1 r2 = do e1 ← r1; e2 ← r2; pass (node e1 e2)

abbrev pub three : (Exp → Exp → Exp → Exp) → Fresh Exp → Fresh Exp → Fresh Exp → Fresh Exp
three node r1 r2 r3 = do e1 ← r1; e2 ← r2; e3 ← r3; pass (node e1 e2 e3)

unfoldable mutual
  unfolding next_metavar

  pub fresh_types : Exp → Fresh Exp
  fresh_types (Exp.ann e t) = fresh_types e
  fresh_types (Exp.coerce t u e) = fresh_types e
  fresh_types (Exp.lit l) = pass (Exp.lit l)
  fresh_types (Exp.var x) = pass (Exp.var x)
  fresh_types (Exp.empty t) = do t' ← typ; pass (Exp.empty t')
  fresh_types (Exp.func x t e) = do t' ← typ; one (Exp.func x t') (fresh_types e)
  fresh_types (Exp.fix x t e) = do t' ← typ; one (Exp.fix x t') (fresh_types e)
  fresh_types (Exp.let_rec bs e) = do bs' ← fresh_bindings bs; one (Exp.let_rec bs') (fresh_types e)
  fresh_types (Exp.unary_op op e) = one (Exp.unary_op op) (fresh_types e)
  fresh_types (Exp.fst e) = one Exp.fst (fresh_types e)
  fresh_types (Exp.snd e) = one Exp.snd (fresh_types e)
  fresh_types (Exp.is_empty e) = one Exp.is_empty (fresh_types e)
  fresh_types (Exp.head e) = one Exp.head (fresh_types e)
  fresh_types (Exp.tail e) = one Exp.tail (fresh_types e)
  fresh_types (Exp.box e) = one Exp.box (fresh_types e)
  fresh_types (Exp.unbox e) = one Exp.unbox (fresh_types e)
  fresh_types (Exp.is_bool e) = one Exp.is_bool (fresh_types e)
  fresh_types (Exp.is_int e) = one Exp.is_int (fresh_types e)
  fresh_types (Exp.is_string e) = one Exp.is_string (fresh_types e)
  fresh_types (Exp.is_list e) = one Exp.is_list (fresh_types e)
  fresh_types (Exp.is_fun e) = one Exp.is_fun (fresh_types e)
  fresh_types (Exp.vector_len e) = one Exp.vector_len (fresh_types e)
  fresh_types (Exp.app e1 e2) = two Exp.app (fresh_types e1) (fresh_types e2)
  fresh_types (Exp.let_exp x e1 e2) = two (Exp.let_exp x) (fresh_types e1) (fresh_types e2)
  fresh_types (Exp.add_overload e1 e2) = two Exp.add_overload (fresh_types e1) (fresh_types e2)
  fresh_types (Exp.binary_op op e1 e2) = two (Exp.binary_op op) (fresh_types e1) (fresh_types e2)
  fresh_types (Exp.pair e1 e2) = two Exp.pair (fresh_types e1) (fresh_types e2)
  fresh_types (Exp.cons e1 e2) = two Exp.cons (fresh_types e1) (fresh_types e2)
  fresh_types (Exp.box_set e1 e2) = two Exp.box_set (fresh_types e1) (fresh_types e2)
  fresh_types (Exp.vector e1 e2) = two Exp.vector (fresh_types e1) (fresh_types e2)
  fresh_types (Exp.vector_ref e1 e2) = two Exp.vector_ref (fresh_types e1) (fresh_types e2)
  fresh_types (Exp.if_exp e1 e2 e3) =
      three Exp.if_exp (fresh_types e1) (fresh_types e2) (fresh_types e3)
  fresh_types (Exp.vector_set e1 e2 e3) =
      three Exp.vector_set (fresh_types e1) (fresh_types e2) (fresh_types e3)
  fresh_types (Exp.prim_coerce k e) = λ n. none

  -- The loop over the bindings of a `letrec`.
  pub fresh_bindings : Bindings → Fresh Bindings
  fresh_bindings done = pass done
  fresh_bindings (binding x t e bs) = do
    t' ← typ
    e' ← fresh_types e
    bs' ← fresh_bindings bs
    pass (binding x t' e' bs')
