-- ===== src/TypeWhich/Examples.antt =====
-- The type checker, coercions and the precision order on concrete inputs.
pub mod Programs
pub mod Inference
pub mod Solver
pub mod Migrations
use plbench.Prelude.{◌≡◌, ◌≢◌, refl, ◌↔◌, true, []}
use plbench.TypeWhich.Syntax.{
  GroundTyp, Coerce, Typ-discrete, bin_op_typ, lit_typ, Typ, Lit, BinOp, Exp, Bindings,
}
use plbench.TypeWhich.Outcome.{accepts, refuses, crashes, not_a_pair}
use plbench.TypeWhich.TypeCheck.{tcheck}
use plbench.TypeWhich.TypeCheck.Typing.{HasType}
use plbench.TypeWhich.TypeCheck.Complete.{tcheck_iff}
use plbench.TypeWhich.Coercions.{coerce}
use plbench.TypeWhich.Coercions.Typing.{
  Coerces, Consistent, IsHopeful, coerce-Coerces, coerce-IsHopeful,
}
use plbench.TypeWhich.Eval as Eval
use plbench.TypeWhich.Eval.Typing.{Inserted, HasVal}
use plbench.TypeWhich.Eval.Answer.{run, Fits, run-Fits}
use plbench.TypeWhich.Precision.{typ_lt}
use plbench.TypeWhich.Precision.Order.{Below, IsCovered, typ_lt_iff, typ_lt_refl_iff}

-- `fun (x : int) . x + 1`
abbrev increment : Exp
increment = Exp.func "x" Typ.int (Exp.binary_op BinOp.int_add (Exp.var "x") (Exp.lit (Lit.int 1)))

-- `letrec f : int -> int = increment in f true`
abbrev misapplied : Exp
misapplied =
    Exp.let_rec (Bindings.binding "f" (Typ.arr Typ.int Typ.int) increment Bindings.done)
      (Exp.app (Exp.var "f") (Exp.lit (Lit.bool true)))

increment_type : tcheck [] increment ≡ accepts (Typ.arr Typ.int Typ.int)
unfolding tcheck Typ-discrete bin_op_typ lit_typ
increment_type = refl

-- A mismatch of types panics.
misapplied_crashes : tcheck [] misapplied ≡ crashes
unfolding tcheck Typ-discrete bin_op_typ lit_typ
misapplied_crashes = refl

not_pair : tcheck [] (Exp.fst increment) ≡ refuses not_a_pair
unfolding tcheck Typ-discrete bin_op_typ lit_typ
not_pair = refl

tcheck_iff_example :
    (tcheck [] increment ≡ accepts (Typ.arr Typ.int Typ.int))
    ↔ HasType [] increment (Typ.arr Typ.int Typ.int)
tcheck_iff_example = tcheck_iff [] increment (Typ.arr Typ.int Typ.int)

-- `int -> int`, `int -> any` and `'a -> any`
abbrev static_arrow : Typ
static_arrow = Typ.arr Typ.int Typ.int

abbrev half_arrow : Typ
half_arrow = Typ.arr Typ.int Typ.any

abbrev open_arrow : Typ
open_arrow = Typ.arr (Typ.metavar 0) Typ.any

static_half : typ_lt static_arrow half_arrow ≡ true
unfolding typ_lt
static_half = refl

half_open : typ_lt half_arrow open_arrow ≡ true
unfolding typ_lt
half_open = refl

static_static : typ_lt static_arrow static_arrow ≡ true
unfolding typ_lt
static_static = refl

typ_lt_iff_example : (typ_lt static_arrow half_arrow ≡ true) ↔ Below static_arrow half_arrow
typ_lt_iff_example = typ_lt_iff static_arrow half_arrow (tt, tt)

typ_lt_refl_iff_example :
    (typ_lt (Typ.list Typ.int) (Typ.list Typ.int) ≡ true) ↔ IsCovered (Typ.list Typ.int)
typ_lt_refl_iff_example = typ_lt_refl_iff (Typ.list Typ.int)

-- From `int -> int` to `any`.
coerce-Coerces_example : Coerces (coerce static_arrow Typ.any) static_arrow Typ.any
coerce-Coerces_example = coerce-Coerces static_arrow Typ.any

coerce-IsHopeful_example : IsHopeful (coerce static_arrow Typ.any)
coerce-IsHopeful_example =
    coerce-IsHopeful static_arrow Typ.any (Consistent.arr_any Consistent.any_int Consistent.int_any)

int_bool_doomed : coerce Typ.int Typ.bool ≡ Coerce.doomed
unfolding coerce Typ-discrete
int_bool_doomed = refl

-- `5` coerced to `any` and back, plus 1
abbrev six : Exp
six =
    Exp.binary_op BinOp.int_add
      (Exp.prim_coerce (Coerce.untag GroundTyp.int)
        (Exp.coerce Typ.int Typ.any (Exp.lit (Lit.int 5))))
      (Exp.lit (Lit.int 1))

six_value : Eval.eval 5 Eval.empty six ≡ Eval.value (Eval.lit (Lit.int 6))
unfolding Eval.eval Eval.GroundTyp-discrete
six_value = refl

run-Fits_example : Fits Typ.int (run 5 six)
run-Fits_example = run-Fits 5 six Typ.int (
    Inserted.int_add
      (Inserted.prim_coerce (Coerces.untag {g = GroundTyp.int} refl) (Inserted.coerce Inserted.int))
      Inserted.int)
