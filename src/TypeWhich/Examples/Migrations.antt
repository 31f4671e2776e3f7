-- ===== src/TypeWhich/Examples/Migrations.antt =====
-- The migration of programs on concrete inputs.
use plbench.Prelude.{true, false, ◌≡◌, ◌≢◌, refl, []}
use plbench.TypeWhich.Syntax.{Typ, Typ-discrete, Lit, BinOp, Exp, lit_typ, bin_op_typ}
use plbench.TypeWhich.TypeCheck.{get, tcheck}
use plbench.TypeWhich.Outcome.{crashes}
use plbench.TypeWhich.Fresh.{next_metavar}
use plbench.TypeWhich.Migration.{Options, fresh}
use plbench.TypeWhich.Migration.Plain.{known}
use plbench.TypeWhich.Migration.Solve.{annotated, unsat_precise, unsat_context, typeinf_options}
use plbench.TypeWhich.Migration.Solved.{IsMigrated, typeinf_options-IsMigrated}
use plbench.TypeWhich.Migration.Solvable.{typeinf_options_solvable}
use plbench.TypeWhich.Examples.Solver.{small, Tree-discrete}

-- `fun x . x + 1`, where `x` has the metavariable 0.
abbrev successor : Exp
successor =
    Exp.func "x" (Typ.metavar 0) (Exp.binary_op BinOp.int_add (Exp.var "x") (Exp.lit (Lit.int 1)))

abbrev precise : Options
precise = record { optimizer = true; context = false; rigid_vars = false }

abbrev compatible : Options
compatible = record { optimizer = true; context = true; rigid_vars = false }

successor-precise :
    typeinf_options successor [] precise 1
    ≡ annotated
        (Exp.func "x" Typ.int (Exp.binary_op BinOp.int_add (Exp.var "x") (Exp.lit (Lit.int 1))))
unfolding typeinf_options get lit_typ bin_op_typ fresh next_metavar Typ-discrete Tree-discrete
successor-precise = refl

typeinf_options-IsMigrated_example : IsMigrated [] (typeinf_options successor [] compatible 1)
unfolding known
typeinf_options-IsMigrated_example =
    typeinf_options-IsMigrated [] successor compatible 1 tt (refl, tt)

typeinf_options_solvable_example :
    (typeinf_options successor [] precise 1 ≢ unsat_precise)
    × (precise.context ≡ false → typeinf_options successor [] precise 1 ≢ unsat_context)
unfolding known
typeinf_options_solvable_example =
    typeinf_options_solvable [] successor precise 1 (refl, tt) tt (refl, tt)

-- `5 : bool` is annotated with a type that it does not have.
abbrev mislabelled : Exp
mislabelled = Exp.ann (Exp.lit (Lit.int 5)) Typ.bool

mislabelled-annotated : typeinf_options mislabelled [] precise 1 ≡ annotated mislabelled
unfolding typeinf_options get lit_typ bin_op_typ fresh next_metavar Typ-discrete Tree-discrete
mislabelled-annotated = refl

mislabelled-crashes : tcheck [] mislabelled ≡ crashes
unfolding tcheck lit_typ Typ-discrete
mislabelled-crashes = refl
