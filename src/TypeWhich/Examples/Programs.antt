-- ===== src/TypeWhich/Examples/Programs.antt =====
-- Programs that are built, freshened and given coercions, on concrete inputs.
use plbench.Prelude.{ℕ, Bool, true, false, ◌≡◌, ◌≢◌, refl, some, List, [], ◌∷◌}
use plbench.TypeWhich.Syntax.{
  GroundTyp, Coerce, Typ, Typ-discrete, Lit, BinOp, Exp, lit_typ, bin_op_typ,
}
use plbench.TypeWhich.Outcome.{accepts}
use plbench.TypeWhich.TypeCheck.{get, tcheck}
use plbench.TypeWhich.TypeCheck.Typing.{HasType}
use plbench.TypeWhich.Matching.{agrees, crashes, matches_roughly}
use plbench.TypeWhich.Fresh.{fresh_types}
use plbench.TypeWhich.Fresh.Annotations.{annotations}
use plbench.TypeWhich.Fresh.Counted.{Counts, fresh_types-Counts}
use plbench.TypeWhich.Migration.Plain.{known}
use plbench.TypeWhich.Precision.Order.{Below}
use plbench.TypeWhich.Precision.Expressions.{lit_eq, exp_lt}
use plbench.TypeWhich.Precision.Expressions.Loosened.{Loosens, Loosens-exp_lt}
use plbench.TypeWhich.Builders.{switch}
use plbench.TypeWhich.Builders.Typed.{HaveCases, switch_lem}
use plbench.TypeWhich.Coercions.{coerce, coerce_fuel}
use plbench.TypeWhich.Insertion.{insert_coercions}
use plbench.TypeWhich.Insertion.Typed.{IsGradual, insert_coercions-ne-panics}
use plbench.TypeWhich.Eval as Eval
use plbench.TypeWhich.Eval.Typing.{HasVal}

abbrev body : Exp
body = Exp.binary_op BinOp.int_add (Exp.var "x") (Exp.lit (Lit.int 1))

-- `(fun (x : any) . x + 1) true`
abbrev dynamic : Exp
dynamic = Exp.app (Exp.func "x" Typ.any body) (Exp.lit (Lit.bool true))

abbrev inserted : Exp
inserted =
    Exp.app
      (Exp.prim_coerce (Coerce.wrap Coerce.id Coerce.id) (
        Exp.func "x" Typ.any (
          Exp.binary_op BinOp.int_add (Exp.prim_coerce (Coerce.untag GroundTyp.int) (Exp.var "x"))
            (Exp.prim_coerce Coerce.id (Exp.lit (Lit.int 1))))))
      (Exp.prim_coerce (Coerce.tag GroundTyp.bool) (Exp.lit (Lit.bool true)))

dynamic-inserted : insert_coercions dynamic ≡ accepts inserted
unfolding insert_coercions get coerce coerce_fuel Typ-discrete bin_op_typ
dynamic-inserted = refl

insert_coercions-ne-panics_example :
    (e' : Exp) × ((t : Typ) × (insert_coercions dynamic ≡ accepts e')
      × ((n : ℕ)
          → (Eval.eval n Eval.Env.empty e' ≢ Eval.Result.panics)
            × ((v : Eval.Val) → Eval.eval n Eval.Env.empty e' ≡ Eval.Result.value v → HasVal v t)))
unfolding get
insert_coercions-ne-panics_example = insert_coercions-ne-panics dynamic (
    IsGradual.app (IsGradual.func tt (IsGradual.int_add (IsGradual.var refl tt) IsGradual.int))
      IsGradual.bool)

fresh_types-Counts_example :
    (e' : Exp) × ((m : ℕ) × (fresh_types dynamic 7 ≡ some (e', m))
      × Counts 7 (annotations e') m
      × (matches_roughly dynamic e' ≡ agrees))
fresh_types-Counts_example = fresh_types-Counts dynamic 7 ((tt, tt), tt)

-- An annotation on the left-hand side is a panic.
annotated_crashes :
    matches_roughly (Exp.ann (Exp.lit (Lit.int 5)) Typ.int) (Exp.lit (Lit.int 5)) ≡ crashes
unfolding matches_roughly
annotated_crashes = refl

-- Of two floats no equality is decided here.
abbrev apart : ℕ → ℕ → Bool
apart x y = false

-- `(fun (x : int) . x + 1) true`
abbrev static : Exp
static = Exp.app (Exp.func "x" Typ.int body) (Exp.lit (Lit.bool true))

dynamic-static : exp_lt apart dynamic static ≡ false
unfolding exp_lt
dynamic-static = refl

Loosens-exp_lt_example : exp_lt apart static dynamic ≡ true
unfolding known lit_eq
Loosens-exp_lt_example = Loosens-exp_lt apart (
    Loosens.app
      (Loosens.func "x" tt Below.any
        (Loosens.binary_op BinOp.int_add (Loosens.var "x" refl) (Loosens.lit (Lit.int 1) refl)))
      (Loosens.lit (Lit.bool true) refl))

-- Two equal lets are not compared.
let_apart :
    (e : Exp)
    → exp_lt apart (Exp.let_exp "x" e (Exp.var "x")) (Exp.let_exp "x" e (Exp.var "x")) ≡ false
unfolding exp_lt
let_apart e = refl

abbrev choices : List (List ℕ × Exp)
choices = (1 ∷ 2 ∷ [], Exp.lit (Lit.bool true)) ∷ []

switch_lem_example :
    (e : Exp) × (switch (Exp.lit (Lit.int 2)) choices (Exp.lit (Lit.bool true)) ≡ some e)
    × (tcheck [] e ≡ accepts Typ.bool)
unfolding lit_typ
switch_lem_example =
    switch_lem [] (Exp.lit (Lit.int 2)) choices (Exp.lit (Lit.bool true)) Typ.bool
      (HasType.lit (Lit.int 2)) (HaveCases.next (HasType.lit (Lit.bool true)) HaveCases.none_left)
      (HasType.lit (Lit.bool true))
