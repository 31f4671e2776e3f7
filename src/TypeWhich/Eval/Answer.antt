-- ===== src/TypeWhich/Eval/Answer.antt =====
-- eval.rs, `to_answer` and the entry point `eval`: what a run of a whole program shows.
use plbench.Prelude.{ℕ, Bool, ◌≡◌, ◌≢◌, refl, []}
use plbench.TypeWhich.Syntax.{Typ, Lit, Exp}
use plbench.TypeWhich.Eval as Eval
use plbench.TypeWhich.Eval.{Val, Env, Result}
use plbench.TypeWhich.Eval.Typing.{Inserted, HasVal}
use plbench.TypeWhich.Eval.Safety.{eval-ne-panics}

pub data Answer : Type 0 where
  lit : Lit → Answer
  closure : Answer

unfoldable pub to_answer : Val → Answer
to_answer (Val.lit l) = Answer.lit l
to_answer (Val.tagged g v) = to_answer v
to_answer (Val.closure env x e k1 k2) = Answer.closure

-- The result of the entry point, with the panics and the end of the fuel.
pub data Shown : Type 0 where
  answers : Answer → Shown
  coercion_failed panics out_of_fuel : Shown

abbrev pub shown : Result → Shown
shown (Result.value v) = answers (to_answer v)
shown Result.coercion_failed = coercion_failed
shown Result.panics = panics
shown Result.out_of_fuel = out_of_fuel

unfoldable pub run : ℕ → Exp → Shown
unfolding Eval.eval to_answer
run n e = shown (Eval.eval n Env.empty e)

-- The answers that a type has; the tags of a value are not shown.
pub data IsAnswer : Typ → Answer → Type 0 where
  int : (n : ℕ) → IsAnswer Typ.int (Answer.lit (Lit.int n))
  bool : (b : Bool) → IsAnswer Typ.bool (Answer.lit (Lit.bool b))
  func : {t u : Typ} → IsAnswer (Typ.arr t u) Answer.closure
  any : {t : Typ} {a : Answer} → IsAnswer t a → IsAnswer Typ.any a

to_answer-IsAnswer : {v : Val} {t : Typ} → HasVal v t → IsAnswer t (to_answer v)
unfolding to_answer
to_answer-IsAnswer (HasVal.int {n}) = IsAnswer.int n
to_answer-IsAnswer (HasVal.bool {b}) = IsAnswer.bool b
to_answer-IsAnswer (HasVal.closure h i k l) = IsAnswer.func
to_answer-IsAnswer (HasVal.tagged h) = IsAnswer.any (to_answer-IsAnswer h)

-- What may be shown at a type.
pub data Fits (t : Typ) : Shown → Type 0 where
  answers : {a : Answer} → IsAnswer t a → Fits t (Shown.answers a)
  coercion_failed : Fits t Shown.coercion_failed
  out_of_fuel : Fits t Shown.out_of_fuel

-- A run of a closed program with its coercions inserted does not panic: it shows an answer of its
-- type, or that a coercion failed, unless its fuel ends.
pub run-Fits : (n : ℕ) (e : Exp) (t : Typ) → Inserted [] e t → Fits t (run n e)
unfolding run
run-Fits n e t i = let (ne, h) = eval-ne-panics n e t i in outcome (Eval.eval n Env.empty e) ne h
  where
    outcome :
        (r : Result)
        → r ≢ Result.panics
        → ((v : Val) → r ≡ Result.value v → HasVal v t)
        → Fits t (shown r)
    outcome (Result.value v) ne h = Fits.answers (to_answer-IsAnswer (h v refl))
    outcome Result.coercion_failed ne h = Fits.coercion_failed
    outcome Result.panics ne h = absurd (ne refl)
    outcome Result.out_of_fuel ne h = Fits.out_of_fuel
