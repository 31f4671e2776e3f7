-- ===== src/TypeWhich/Migration/Solved.antt =====
-- cgen.rs, `typeinf_options`: from a program to the annotated program.
use mathlib.Core.Option.{some-injective}
use mathlib.Core.Path.{subst}
use plbench.Prelude.{
  ℕ, inl, inr, true, ◌≡◌, refl, sym, ap, ◌∙◌, List, [], ◌∷◌, Option, some, All, Bool-cases,
}
use plbench.TypeWhich.Syntax.{Typ, Exp}
use plbench.TypeWhich.Outcome.{accepts}
use plbench.TypeWhich.TypeCheck.{Env, tcheck}
use plbench.TypeWhich.TypeCheck.Complete.{tcheck_iff}
use plbench.TypeWhich.Z3.{Z3, Answer, sat, unsat, unknown}
use plbench.TypeWhich.Migration.{Options, State}
use plbench.TypeWhich.Migration.Annotate.{Solution, annotate, annotate_typ}
use plbench.TypeWhich.Migration.Solve.{
  Inferred, annotated, unsat_precise, unsat_context, unknown_precise, panics_unknown, annotated_as,
  annotated_by, solved, finish, assert_negative, precise, in_context, solve, typeinf_options,
}
use plbench.TypeWhich.Migration.Plain.{IsPlain, HasReasonable}
use plbench.TypeWhich.Migration.Post.{Agrees, Done, done, t2z3-Post}
use plbench.TypeWhich.Migration.Fits.{Fits, fits, annotate_env, names}
use plbench.TypeWhich.Migration.Sound.{cgen-Post}
use plbench.TypeWhich.Migration.Read.{negative_any_total, solve_model-Agrees}

module _ ⦃z : Z3⦄ where
  -- The solver gave this answer to a check.
  abbrev pub Answered : Answer z.Model → Type 0
  Answered a = (asserted soft : List z.Formula) × (z.check asserted soft ≡ a)

  -- How the inference may end: with a program that the type checker accepts, and whose coercions are
  -- from a ground type to `any` or back; or with the answer of the solver that is no model, which is
  -- an error, or, at the last check, the panic on `Unknown`.
  abbrev pub IsMigrated : Env → Inferred → Type 0
  IsMigrated env (annotated e) = (t : Typ) × (tcheck env e ≡ accepts t) × HasReasonable e
  IsMigrated env unsat_precise = Answered unsat
  IsMigrated env unsat_context = Answered unsat
  IsMigrated env unknown_precise = Answered unknown
  IsMigrated env panics_unknown = Answered unknown
  IsMigrated env Inferred.crashes = ⊥

module _ ⦃z : Z3⦄ (env : Env) where
  open z use {Term, Formula, Model}

  Done-eq_some :
      {model : Model} {s : Solution} {A : Type 0} {P : A → Type 0} {vars : List ℕ}
      {o : Option (A × State Formula)} {a : A} {st : State Formula}
      → Done model s P vars o
      → o ≡ some (a, st)
      → (Agrees model s st.vars → Agrees model s vars) × (Agrees model s st.vars → P a)
  Done-eq_some {model} {s} {P} {vars} {a} {st} (done b st' e up p) h =
      subst
        (λ (r : _ × State Formula).
          (Agrees model s r.1.vars → Agrees model s vars) × (Agrees model s r.1.vars → P r.0))
        (some-injective (b, st') (a, st) (sym e ∙ h)) (up, p)

  -- What `cgen` returns has its type wherever its constraints hold.
  abbrev IsTyped : Exp → Typ → Formula → State Formula → Type 0
  IsTyped e t phi st =
      (model : Model) (s : Solution)
      → z.holds model phi ≡ true
      → Agrees model s st.vars
      → Fits env (annotate s e) (annotate_typ s t)

  annotated_by-IsMigrated :
      (e : Exp) (s : Solution) (t : Typ)
      → Fits env (annotate s e) t
      → IsMigrated env (annotated_by e (some s))
  unfolding annotated_by
  annotated_by-IsMigrated e s t (fits e' p g) =
      subst (λ o. IsMigrated env (annotated_as o)) (sym p) (t, (tcheck_iff env e' t).1 g.0, g.1)

  -- The last check, where the assertions hold the constraints.
  finish-IsMigrated :
      (e : Exp) (t : Typ) (phi : Formula) (asserted : List Formula) (st : State Formula)
      → IsTyped e t phi st
      → ((model : Model) → All (λ f. z.holds model f ≡ true) asserted → z.holds model phi ≡ true)
      → IsMigrated env (finish e asserted st)
  unfolding finish solved
  finish-IsMigrated e t phi asserted st typed holds = answered (z.check asserted st.soft) refl
    where
      answered :
          (a : Answer Model) → z.check asserted st.soft ≡ a → IsMigrated env (solved e st.vars a)
      answered unsat p = (asserted, st.soft, p)
      answered unknown p = (asserted, st.soft, p)
      answered (sat model) p =
          let (s, q, agrees) = solve_model-Agrees model st.vars in
          subst (λ o. IsMigrated env (annotated_by e o)) (sym q)
            (annotated_by-IsMigrated e s (annotate_typ s t)
              (typed model s (holds model (z.check-sat asserted st.soft model p)) agrees))

  in_context-IsMigrated :
      (e : Exp) (t : Typ) (phi : Formula) (st : State Formula)
      → IsTyped e t phi st
      → (a : Answer Model) → z.check (phi ∷ []) st.soft ≡ a
      → IsMigrated env (in_context e t phi st a)
  unfolding in_context precise assert_negative
  in_context-IsMigrated e t phi st typed unsat p = (phi ∷ [], st.soft, p)
  in_context-IsMigrated e t phi st typed unknown p = (phi ∷ [], st.soft, p)
  in_context-IsMigrated e t phi st typed (sat model) checked = elim (t2z3-Post model [] t st) [
    | done a st' p up q ↦
        let (f, r) = negative_any_total model a in
        subst (λ o. IsMigrated env (precise e phi model o)) (sym p)
          (subst (λ o. IsMigrated env (assert_negative e phi st' o)) (sym r)
            (finish-IsMigrated e t phi (f ∷ phi ∷ []) st'
              (λ m s h agrees. typed m s h ((Done-eq_some (t2z3-Post m s t st) p).0 agrees))
              (λ m h. h.1.0)))
  ]

  solve-IsMigrated :
      (options : Options) (e : Exp) (t : Typ) (phi : Formula) (st : State Formula)
      → IsTyped e t phi st
      → IsMigrated env (solve options (some ((e, t, phi), st)))
  unfolding solve
  solve-IsMigrated options e t phi st typed = elim (Bool-cases options.context) [
    | inl on ↦ rw on (in_context-IsMigrated e t phi st typed (z.check (phi ∷ []) st.soft) refl)
    | inr off ↦ rw off (finish-IsMigrated e t phi (phi ∷ []) st typed (λ m h. h.0))
  ]

-- No metavariable in the type.
abbrev pub IsClosed : Typ → Type 0
IsClosed (Typ.metavar n) = ⊥
IsClosed (Typ.arr t u) = IsClosed t × IsClosed u
IsClosed (Typ.pair t u) = IsClosed t × IsClosed u
IsClosed (Typ.list t) = IsClosed t
IsClosed (Typ.box t) = IsClosed t
IsClosed (Typ.vect t) = IsClosed t
IsClosed t = Unit

annotate_typ-closed : (s : Solution) (t : Typ) → IsClosed t → annotate_typ s t ≡ t
unfolding annotate_typ
annotate_typ-closed s (Typ.metavar n) h = absurd h
annotate_typ-closed s (Typ.arr t u) h =
    rw (annotate_typ-closed s t h.0, annotate_typ-closed s u h.1) refl
annotate_typ-closed s (Typ.pair t u) h =
    rw (annotate_typ-closed s t h.0, annotate_typ-closed s u h.1) refl
annotate_typ-closed s (Typ.list t) h = ap Typ.list (annotate_typ-closed s t h)
annotate_typ-closed s (Typ.box t) h = ap Typ.box (annotate_typ-closed s t h)
annotate_typ-closed s (Typ.vect t) h = ap Typ.vect (annotate_typ-closed s t h)
annotate_typ-closed s _ h = refl

annotate_env-closed :
    (s : Solution) (env : Env) → All (λ entry. IsClosed entry.1) env → annotate_env s env ≡ env
annotate_env-closed s [] h = refl
annotate_env-closed s ((x, t) ∷ env) (h, hs) =
    rw (annotate_typ-closed s t h, annotate_env-closed s env hs) refl

-- On a program without coercions and annotation expressions, whose variables are bound by an
-- environment of types without metavariables, the inference ends with a program that the type
-- checker accepts and whose coercions are from ground types to `any` or back, or reports that the
-- constraints have no model or that the first of two checks has no answer, each where the solver
-- said so; it panics only where the solver does not know the answer to a check.
pub typeinf_options-IsMigrated :
    ⦃z : Z3⦄ (env : Env) (e : Exp) (options : Options) (counter : ℕ)
    → All (λ entry. IsClosed entry.1) env
    → IsPlain (names env) e
    → IsMigrated env (typeinf_options e env options counter)
unfolding typeinf_options
typeinf_options-IsMigrated ⦃z⦄ env e options counter closed plain =
    elim (cgen-Post z.check-nil.0 [] options env e plain start) [
      | done (e', t, phi) st p up q ↦
          subst (λ o. IsMigrated env (solve options o)) (sym p)
            (solve-IsMigrated env options e' t phi st (λ model s h agrees.
              subst (λ env. Fits env (annotate s e') (annotate_typ s t))
                (annotate_env-closed s env closed)
                ((Done-eq_some env (cgen-Post model s options env e plain start) p).1 agrees h)))
    ]
  where
    start : State z.Formula
    start = record { counter = counter; vars = []; soft = [] }
