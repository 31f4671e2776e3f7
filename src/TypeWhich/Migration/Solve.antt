-- ===== src/TypeWhich/Migration/Solve.antt =====
-- z3_state.rs, `Z3State::z3_to_typ`, and cgen.rs: the solution in a model, and the inference.
use plbench.Prelude.{ℕ, zero, suc, Bool, ◌||◌, List, [], ◌∷◌, Option, none, some, if◌then◌else◌}
use plbench.Prelude.Assoc.{insert}
use plbench.TypeWhich.Syntax.{Typ, Exp}
use plbench.TypeWhich.TypeCheck.{Env}
use plbench.TypeWhich.Z3.{Z3, Variant, Answer, sat, unsat, unknown, depth}
use plbench.TypeWhich.Migration.{Options, State, Generated, t2z3}
use plbench.TypeWhich.Migration.Generate.{cgen}
use plbench.TypeWhich.Migration.Annotate.{Solution, annotate}

abbrev pub both : {A B C : Type 0} → (A → B → C) → Option A → Option B → Option C
both f none s = none
both f (some a) none = none
both f (some a) (some b) = some (f a b)

abbrev pub mapped : {A B : Type 0} → (A → B) → Option A → Option B
mapped f none = none
mapped f (some a) = some (f a)

-- How the inference ends. The errors are those of the two checks; `panics_unknown` is the panic
-- where the solver does not know the answer to the last check, and `crashes` is any other panic.
pub data Inferred : Type 0 where
  annotated : Exp → Inferred
  unsat_precise unknown_precise unsat_context panics_unknown crashes : Inferred

-- The cases of `z3_to_typ`, by the tests of the variant.
unfoldable pub typ_by :
    (Variant → Bool) → Option Typ → Option Typ → Option Typ → Option Typ → Option Typ → Option Typ
typ_by is arr list pair box vect =
    if is Variant.int
    then some Typ.int
    else if is Variant.bool
    then some Typ.bool
    else if is Variant.str
    then some Typ.str
    else if is Variant.arr
    then arr
    else if is Variant.list
    then list
    else if is Variant.pair
    then pair
    else if is Variant.box
    then box
    else if is Variant.any
    then some Typ.any
    else if is Variant.unit
    then some Typ.unit
    else if is Variant.vect
    then vect
    else if is Variant.float
    then some Typ.float
    else if is Variant.char
    then some Typ.char
    else none

-- The cases of `negative_any`, by the tests of the variant.
unfoldable pub formula_by :
    {F : Type 0} → (Variant → Bool) → F → Option F → Option F → Option F → F → F → Option F
formula_by is true_z3 arr list pair box vect =
    if is Variant.int
      || is Variant.unit
      || is Variant.float
      || is Variant.bool
      || is Variant.str
      || is Variant.char
      || is Variant.any
    then some true_z3
    else if is Variant.arr
    then arr
    else if is Variant.list
    then list
    else if is Variant.pair
    then pair
    else if is Variant.box
    then some box
    else if is Variant.vect
    then some vect
    else none

module _ ⦃z : Z3⦄ where
  open z use {Term, Formula, Model, any_z3, true_z3}

  -- `Z3State::is_variant`
  unfoldable pub is_variant : Variant → Model → Term → Bool
  is_variant v model e = z.holds model (z.tester v e)

  -- `z3_to_typ` on fuel; `none` is the panic of a missing case.
  unfoldable pub z3_to_typ_fuel : ℕ → Model → Term → Option Typ
  unfolding is_variant typ_by
  z3_to_typ_fuel zero model e = none
  z3_to_typ_fuel (suc fuel) model e =
      typ_by (λ v. is_variant v model e)
        (both Typ.arr (z3_to_typ_fuel fuel model (z.arr_arg e))
          (z3_to_typ_fuel fuel model (z.arr_ret e)))
        (mapped Typ.list (z3_to_typ_fuel fuel model (z.list_typ e)))
        (both Typ.pair (z3_to_typ_fuel fuel model (z.pair1 e))
          (z3_to_typ_fuel fuel model (z.pair2 e)))
        (mapped Typ.box (z3_to_typ_fuel fuel model (z.box_typ e)))
        (mapped Typ.vect (z3_to_typ_fuel fuel model (z.vect_typ e)))

  -- The recursion goes down the value of the term.
  unfoldable pub z3_to_typ : Model → Term → Option Typ
  unfolding z3_to_typ_fuel
  z3_to_typ model e = z3_to_typ_fuel (depth (z.value model e)) model e

  -- `State::negative_any` on fuel; `none` is the panic of a missing case.
  unfoldable pub negative_any_fuel : ℕ → Model → Term → Option Formula
  unfolding is_variant formula_by
  negative_any_fuel zero model t = none
  negative_any_fuel (suc fuel) model t =
      formula_by (λ v. is_variant v model t) true_z3
        (mapped (z.and (z.eq (z.arr_arg t) any_z3)) (negative_any_fuel fuel model (z.arr_ret t)))
        (negative_any_fuel fuel model (z.list_typ t))
        (both z.and (negative_any_fuel fuel model (z.pair1 t))
          (negative_any_fuel fuel model (z.pair2 t)))
        (z.eq (z.box_typ t) any_z3) (z.eq (z.vect_typ t) any_z3)

  unfoldable pub negative_any : Model → Term → Option Formula
  unfolding negative_any_fuel
  negative_any model t = negative_any_fuel (depth (z.value model t)) model t

  -- `State::solve_model`: the value of every metavariable that has a constant.
  unfoldable pub solve_model : Model → List ℕ → Option Solution
  unfolding z3_to_typ
  solve_model model [] = some []
  solve_model model (x ∷ xs) =
      both (insert x) (z3_to_typ model (z.fresh_const x)) (solve_model model xs)

  -- The end of `typeinf_options`, behind the last check.
  unfoldable pub annotated_as : Option Exp → Inferred
  annotated_as none = crashes
  annotated_as (some e) = annotated e

  unfoldable pub annotated_by : Exp → Option Solution → Inferred
  unfolding annotate annotated_as
  annotated_by e none = crashes
  annotated_by e (some result) = annotated_as (annotate result e)

  unfoldable pub solved : Exp → List ℕ → Answer Model → Inferred
  unfolding annotated_by solve_model
  solved e vars unsat = unsat_context
  solved e vars unknown = panics_unknown
  solved e vars (sat model) = annotated_by e (solve_model model vars)

  -- The last check, of the constraints that are asserted.
  unfoldable pub finish : Exp → List Formula → State Formula → Inferred
  unfolding solved
  finish e asserted st = solved e st.vars (z.check asserted st.soft)

  -- What follows the check for the precise type: the assertion of `negative_any`.
  unfoldable pub assert_negative : Exp → Formula → State Formula → Option Formula → Inferred
  unfolding finish
  assert_negative e phi st none = crashes
  assert_negative e phi st (some f) = finish e (f ∷ phi ∷ []) st

  unfoldable pub precise : Exp → Formula → Model → Option (Term × State Formula) → Inferred
  unfolding assert_negative negative_any
  precise e phi model none = crashes
  precise e phi model (some (a, st)) = assert_negative e phi st (negative_any model a)

  unfoldable pub in_context : Exp → Typ → Formula → State Formula → Answer Model → Inferred
  unfolding precise t2z3
  in_context e t phi st unsat = unsat_precise
  in_context e t phi st unknown = unknown_precise
  in_context e t phi st (sat model) = precise e phi model (t2z3 t st)

  unfoldable pub solve : Options → Option (Generated × State Formula) → Inferred
  unfolding in_context finish
  solve options none = crashes
  solve options (some ((e, t, phi), st)) =
      if options.context
      then in_context e t phi st (z.check (phi ∷ []) st.soft)
      else finish e (phi ∷ []) st

  -- `typeinf_options`, with the counter of metavariables.
  unfoldable pub typeinf_options : Exp → Env → Options → ℕ → Inferred
  unfolding cgen solve
  typeinf_options e env options counter =
      solve options (cgen options env e (record { counter = counter; vars = []; soft = [] }))
