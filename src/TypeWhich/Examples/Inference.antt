-- ===== src/TypeWhich/Examples/Inference.antt =====
-- The inference of ins_and_outs on concrete inputs.
use plbench.Prelude.{true, false, ◌≡◌, refl, List, [], ◌∷◌, map, none, some}
use plbench.TypeWhich.Syntax as Src
use plbench.TypeWhich.Syntax.{BinOp}
use plbench.TypeWhich.Fresh.{inc_metavar}
use plbench.TypeWhich.InsAndOuts.Syntax.{Typ, Typ-discrete, Lit, Exp}
use plbench.TypeWhich.InsAndOuts.Kinds.{
  is_metavar, same, is_kind, dyn_consistent, get_arg, get_ret, least_upper_bound,
}
use plbench.TypeWhich.InsAndOuts.Portable.{next_metavar_typ, from_exp, from_typ, from_lit, to_exp}
use plbench.TypeWhich.InsAndOuts.Lowered.{IsTyp, IsLit, IsKnown, Returns, to_exp-from_exp}
use plbench.TypeWhich.InsAndOuts.Solve.{inflows, lub_of}
use plbench.TypeWhich.InsAndOuts.Collect.{get, compile_coercions}
use plbench.TypeWhich.InsAndOuts.Collect.Compiled.{IsOpen, IsPlain}
use plbench.TypeWhich.InsAndOuts.Collect.Whole.{Collected, compile_coercions-Collected}
use plbench.TypeWhich.InsAndOuts.Solved.{kind_at, IsLeastOf, lub_of-inflows}

-- `let x = 1 in fun (y : int). y + x`
abbrev adder : Src.Exp
adder = Src.Exp.let_exp "x" (Src.Exp.lit (Src.Lit.int 1)) (
    Src.Exp.func "y" Src.Typ.int
      (Src.Exp.binary_op BinOp.int_add (Src.Exp.var "y") (Src.Exp.var "x")))

adder-from_exp :
    from_exp adder 7
    ≡ some (
      Exp.app
          (Exp.func "x"
            (Typ.metavar 7)
            (Exp.func "y" Typ.int (Exp.add (Exp.var "y") (Exp.var "x")) (Typ.metavar 8))
            (Typ.metavar 9))
          (Exp.lit (Lit.int 1)),
      10,
    )
unfolding from_exp from_typ from_lit next_metavar_typ inc_metavar
adder-from_exp = refl

to_exp-from_exp_example : Returns adder (from_exp adder 7)
to_exp-from_exp_example =
    to_exp-from_exp
      (IsKnown.let_exp (IsKnown.lit (IsLit.int 1))
        (IsKnown.func IsTyp.int (IsKnown.add (IsKnown.var "y") (IsKnown.var "x"))))
      7

assign-to_exp : to_exp (Exp.assign "x" (Exp.var "x")) ≡ none
unfolding to_exp
assign-to_exp = refl

abbrev x : Typ
x = Typ.metavar 0

-- `int`, `null` and a function flow into the variable, and another variable does.
abbrev flows : List (Typ × Typ)
flows =
    (Typ.int, x)
    ∷ (Typ.metavar 1, x)
    ∷ (Typ.bool, Typ.metavar 1)
    ∷ (Typ.null, x)
    ∷ (Typ.arr Typ.int Typ.int, x)
    ∷ []

flows-inflows : inflows x flows ≡ Typ.int ∷ Typ.null ∷ Typ.arr Typ.int Typ.int ∷ []
unfolding inflows is_metavar same Typ-discrete
flows-inflows = refl

x-is_metavar : is_metavar x ≡ true
unfolding is_metavar
x-is_metavar = refl

lub_of-inflows_example :
    (m : Typ) × (lub_of x Typ.int (Typ.null ∷ Typ.arr Typ.int Typ.int ∷ []) ≡ some m)
    × (is_kind m x ≡ some true)
    × IsLeastOf (map (kind_at x) (Typ.int ∷ Typ.null ∷ Typ.arr Typ.int Typ.int ∷ [])) m
lub_of-inflows_example =
    lub_of-inflows x flows Typ.int (Typ.null ∷ Typ.arr Typ.int Typ.int ∷ []) x-is_metavar
      flows-inflows

null_int-least_upper_bound : least_upper_bound Typ.null Typ.int ≡ some Typ.int
unfolding least_upper_bound
null_int-least_upper_bound = refl

int_bool-dyn_consistent : dyn_consistent Typ.int Typ.bool ≡ false
unfolding dyn_consistent
int_bool-dyn_consistent = refl

x-get_arg : get_arg x ≡ some (Typ.metavar_arg x)
unfolding get_arg
x-get_arg = refl

x-get_ret : get_ret x ≡ some (Typ.metavar_ret x)
unfolding get_ret
x-get_ret = refl

-- `fun (x : 'a) : 'b. if x then x x else 1`
abbrev self_call : Exp
self_call =
    Exp.func "x" (Typ.metavar 0)
      (Exp.if_exp (Exp.var "x") (Exp.app (Exp.var "x") (Exp.var "x")) (Exp.lit (Lit.int 1)))
      (Typ.metavar 1)

-- The call of a literal panics.
call_of_one : compile_coercions (Exp.app (Exp.lit (Lit.int 1)) (Exp.lit (Lit.int 2))) 0 ≡ none
unfolding compile_coercions
call_of_one = refl

compile_coercions-Collected_example : Collected self_call (compile_coercions self_call 2)
unfolding get
compile_coercions-Collected_example = compile_coercions-Collected 2 (
    IsPlain.func (IsOpen.metavar 0) (IsOpen.metavar 1) (
      IsPlain.if_exp (IsPlain.var refl (IsOpen.metavar 0))
        (IsPlain.app (IsPlain.var refl (IsOpen.metavar 0)) (IsPlain.var refl (IsOpen.metavar 0)))
        (IsPlain.lit (Lit.int 1))))
