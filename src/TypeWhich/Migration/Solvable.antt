-- ===== src/TypeWhich/Migration/Solvable.antt =====
-- cgen.rs, `typeinf_options`: the answers of the solver on a program without static annotations.
use mathlib.Core.Path.{subst}
use plbench.Prelude.{
  ℕ, Bool, true, false, ◌≡◌, ◌≢◌, refl, sym, List, [], ◌∷◌, All, Option, none, some, Bool-cases,
  inl, inr,
}
use plbench.TypeWhich.Syntax.{Typ, Exp}
use plbench.TypeWhich.TypeCheck.{Env}
use plbench.TypeWhich.Z3.{Z3, Tree, Answer, sat, unsat, unknown}
use plbench.TypeWhich.Migration.{Options, State, t2z3}
use plbench.TypeWhich.Migration.Annotate.{Solution}
use plbench.TypeWhich.Migration.Solve.{
  Inferred, unsat_precise, unsat_context, annotated_as, annotated_by, solve_model, solved, finish,
  assert_negative, precise, in_context, solve, typeinf_options, negative_any,
}
use plbench.TypeWhich.Migration.Plain.{IsPlain}
use plbench.TypeWhich.Migration.Fits.{names}
use plbench.TypeWhich.Migration.Always.{runs}
use plbench.TypeWhich.Migration.Dynamic.{AreDynamic, HasDynamic, cgen-Always}

-- The first check is satisfiable, and so is the last if there is only that one.
abbrev Avoids : Bool → Inferred → Type 0
Avoids context unsat_precise = ⊥
Avoids false unsat_context = ⊥
Avoids context r = Unit

module _ ⦃z : Z3⦄ where
  open z use {Term, Formula, Model}

  annotated_by-Avoids : (c : Bool) (e : Exp) (o : Option Solution) → Avoids c (annotated_by e o)
  unfolding annotated_by annotated_as
  annotated_by-Avoids true e none = tt
  annotated_by-Avoids false e none = tt
  annotated_by-Avoids c e (some s) = annotated_as-Avoids c _
    where
      annotated_as-Avoids : (c : Bool) (o : Option Exp) → Avoids c (annotated_as o)
      annotated_as-Avoids true none = tt
      annotated_as-Avoids false none = tt
      annotated_as-Avoids true (some e) = tt
      annotated_as-Avoids false (some e) = tt

  finish-Avoids-precise :
      (e : Exp) (asserted : List Formula) (st : State Formula) → Avoids true (finish e asserted st)
  unfolding finish solved
  finish-Avoids-precise e asserted st = answered (z.check asserted st.soft)
    where
      answered : (a : Answer Model) → Avoids true (solved e st.vars a)
      answered unsat = tt
      answered unknown = tt
      answered (sat model) = annotated_by-Avoids true e (solve_model model st.vars)

  finish-Avoids-context :
      (model : Model) (e : Exp) (asserted : List Formula) (st : State Formula)
      → All (λ f. z.holds model f ≡ true) asserted
      → Avoids false (finish e asserted st)
  unfolding finish solved
  finish-Avoids-context model e asserted st h = answered (z.check asserted st.soft) refl
    where
      answered :
          (a : Answer Model) → z.check asserted st.soft ≡ a → Avoids false (solved e st.vars a)
      answered unsat p = z.check-unsat asserted st.soft model p h
      answered unknown p = tt
      answered (sat m) p = annotated_by-Avoids false e (solve_model m st.vars)

  in_context-Avoids :
      (model : Model) (e : Exp) (t : Typ) (phi : Formula) (st : State Formula)
      → z.holds model phi ≡ true
      → Avoids true (in_context e t phi st (z.check (phi ∷ []) st.soft))
  unfolding in_context precise assert_negative
  in_context-Avoids model e t phi st h = answered (z.check (phi ∷ []) st.soft) refl
    where
      asserted :
          (st : State Formula) (o : Option Formula) → Avoids true (assert_negative e phi st o)
      asserted st none = tt
      asserted st (some f) = finish-Avoids-precise e (f ∷ phi ∷ []) st

      built : (m : Model) (o : Option (Term × State Formula)) → Avoids true (precise e phi m o)
      built m none = tt
      built m (some (a, st)) = asserted st (negative_any m a)

      answered :
          (a : Answer Model)
          → z.check (phi ∷ []) st.soft ≡ a
          → Avoids true (in_context e t phi st a)
      answered unsat p = z.check-unsat (phi ∷ []) st.soft model p (h, tt)
      answered unknown p = tt
      answered (sat m) p = built m (t2z3 t st)

  solve-Avoids :
      (options : Options) (model : Model) (e : Exp) (t : Typ) (phi : Formula) (st : State Formula)
      → z.holds model phi ≡ true
      → Avoids options.context (solve options (some ((e, t, phi), st)))
  unfolding solve
  solve-Avoids options model e t phi st h = elim (Bool-cases options.context) [
    | inl on ↦ rw on (in_context-Avoids model e t phi st h)
    | inr off ↦ rw off (finish-Avoids-context model e (phi ∷ []) st (h, tt))
  ]

  typeinf_options-Avoids :
      (env : Env) (e : Exp) (options : Options) (counter : ℕ)
      → IsPlain (names env) e
      → AreDynamic env
      → HasDynamic e
      → Avoids options.context (typeinf_options e env options counter)
  unfolding typeinf_options
  typeinf_options-Avoids env e options counter plain v d =
      let (model, all_any) = z.assign (λ n. Tree.any) in
      elim (cgen-Always model all_any options env e plain v d start) [
        | runs (e', t, phi) st p h ↦
            subst (λ o. Avoids options.context (solve options o)) (sym p)
              (solve-Avoids options model e' t phi st h.1)
      ]
    where
      start : State Formula
      start = record { counter = counter; vars = []; soft = [] }

-- On a program without coercions and annotation expressions, whose variables are bound and in which
-- the types of binders and of empty lists, as those of the environment, are `any` or metavariables,
-- the constraints are satisfiable: the inference never reports that the first of two checks is
-- unsatisfiable, and without the option `context`, which asks for two, it reports no unsatisfiable
-- check.
pub typeinf_options_solvable :
    ⦃z : Z3⦄ (env : Env) (e : Exp) (options : Options) (counter : ℕ)
    → IsPlain (names env) e
    → AreDynamic env
    → HasDynamic e
    → (typeinf_options e env options counter ≢ unsat_precise)
      × (options.context ≡ false → typeinf_options e env options counter ≢ unsat_context)
typeinf_options_solvable env e options counter plain v d =
    let h = typeinf_options-Avoids env e options counter plain v d in
    (
      λ p. subst (λ r. Avoids options.context r) p h,
      λ off p. subst (λ c. Avoids c unsat_context) off (subst (λ r. Avoids options.context r) p h),
    )
