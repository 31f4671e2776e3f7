-- ===== src/TypeWhich/Eval/Safety.antt =====
-- eval.rs: the results of the evaluator on programs with coercions.
use Prim.Native.String.{String}
use text.Mathlib.Text.{◌==◌}
use mathlib.Core.Logic.{ite}
use plbench.Prelude.{
  ℕ, zero, suc, ◌≡◌, ◌≢◌, inl, inr, true, false, [], Option, none, some, Bool-cases,
}
use plbench.TypeWhich.Syntax.{Typ, GroundTyp, Coerce, Exp}
use plbench.TypeWhich.TypeCheck as TypeCheck
use plbench.TypeWhich.Coercions.{seq}
use plbench.TypeWhich.Coercions.Typing.{Coerces, ground_type, coerce-Coerces}
use plbench.TypeWhich.Eval as Eval
use plbench.TypeWhich.Eval.{
  Val, Env, GroundTyp-discrete, Result, value, coercion_failed, panics, out_of_fuel, and_then,
  ground_typ, tag_with, untag, wrap, eval_k, add, apply, branch, eval,
}
use plbench.TypeWhich.Eval.Typing.{Inserted, HasVal, HasEnv}

-- The result is no panic, and a value has the type.
data Safe (t : Typ) : Result → Type 0 where
  fine : {v : Val} → HasVal v t → Safe t (Result.value v)
  failed : Safe t coercion_failed
  unfinished : Safe t out_of_fuel

Safe-then :
    {t u : Typ} {r : Result} {next : Val → Result}
    → Safe t r
    → ((v : Val) → HasVal v t → Safe u (next v))
    → Safe u (and_then r next)
Safe-then (Safe.fine {v} h) go = go v h
Safe-then Safe.failed go = Safe.failed
Safe-then Safe.unfinished go = Safe.unfinished

seq-Coerces :
    {k1 k2 : Coerce} {t u v : Typ} → Coerces k1 t u → Coerces k2 u v → Coerces (seq k1 k2) t v
unfolding seq
seq-Coerces Coerces.id k = k
seq-Coerces h Coerces.id = h
seq-Coerces h k = Coerces.seq h k

-- A test whose two outcomes are safe.
either :
    {A : Type 0} {t : Typ} (d : Dec A) (v : Val)
    → (A → HasVal v t)
    → Safe t (ite d (Result.value v) coercion_failed)
either (yes a) v h = Safe.fine (h a)
either (no na) v h = Safe.failed

moved : {t u : Typ} {v : Val} → u ≡ t → HasVal v u → HasVal v t
moved p h = rw (← p) h

tag-Safe :
    (g : GroundTyp) {t : Typ} {v : Val}
    → HasVal v t
    → t ≡ ground_type g
    → Safe Typ.any (tag_with g v (ground_typ v))
unfolding ground_typ
tag-Safe g HasVal.int e =
    either (GroundTyp-discrete GroundTyp.int g) _ λ _. HasVal.tagged HasVal.int
tag-Safe g HasVal.bool e =
    either (GroundTyp-discrete GroundTyp.bool g) _ λ _. HasVal.tagged HasVal.bool
tag-Safe g (HasVal.closure {env} {x} {e = body} {dom} {rng} henv hbody hdom hrng) e =
    either (GroundTyp-discrete GroundTyp.func g) _
      λ q. HasVal.tagged (moved (rw (← q) at e) (HasVal.closure henv hbody hdom hrng))
tag-Safe GroundTyp.int (HasVal.tagged h) e = cc
tag-Safe GroundTyp.bool (HasVal.tagged h) e = cc
tag-Safe GroundTyp.func (HasVal.tagged h) e = cc

eval_k-Safe : {k : Coerce} {t u : Typ} {v : Val} → Coerces k t u → HasVal v t → Safe u (eval_k k v)
unfolding eval_k
eval_k-Safe Coerces.id h = Safe.fine h
eval_k-Safe Coerces.doomed h = Safe.failed
eval_k-Safe (Coerces.seq k1 k2) h = Safe-then (eval_k-Safe k1 h) λ v h'. eval_k-Safe k2 h'
eval_k-Safe (Coerces.tag {g} e) h = tag-Safe g h e
eval_k-Safe (Coerces.untag {g} e) (HasVal.tagged {g = g2} {v} h) =
    either (GroundTyp-discrete g g2) v λ q. rw (e, q) h
eval_k-Safe (Coerces.wrap k1 k2) (HasVal.closure env body dom rng) =
    Safe.fine (HasVal.closure env body (seq-Coerces k1 dom) (seq-Coerces rng k2))

get-HasVal :
    {env : Env} {types : TypeCheck.Env} (x : String) {t : Typ}
    → HasEnv env types
    → TypeCheck.get x types ≡ some t
    → (v : Val) × (Eval.get x env ≡ some v) × HasVal v t
unfolding Eval.get TypeCheck.get
get-HasVal x HasEnv.empty e = cc
get-HasVal x (HasEnv.bind {x = y} {v = v} {t = u} h hs) e = elim (Bool-cases (y == x)) [
  | inl same ↦ (v, rw same, moved (cc (rw same at e)) h)
  | inr other ↦ let (w, f, k) = get-HasVal x hs (rw other at e) in (w, rw other f, k)
]

add-Safe : {v w : Val} → HasVal v Typ.int → HasVal w Typ.int → Safe Typ.int (add v w)
add-Safe HasVal.int HasVal.int = Safe.fine HasVal.int

branch-Safe :
    {t : Typ} {r1 r2 : Result} {v : Val}
    → Safe t r1
    → Safe t r2
    → HasVal v Typ.bool
    → Safe t (branch r1 r2 v)
branch-Safe s1 s2 (HasVal.bool {b = true}) = s1
branch-Safe s1 s2 (HasVal.bool {b = false}) = s2

apply-Safe :
    (run : Env → Exp → Result) {v w : Val} {t u : Typ}
    → ((env : Env) (types : TypeCheck.Env) (e : Exp) (t : Typ)
        → HasEnv env types
        → Inserted types e t
        → Safe t (run env e))
    → HasVal v (Typ.arr t u)
    → HasVal w t
    → Safe u (apply run v w)
apply-Safe run ih (HasVal.closure env body dom rng) h =
    Safe-then (eval_k-Safe dom h)
      λ w h'. Safe-then (ih _ _ _ _ (HasEnv.bind h' env) body) λ r h''. eval_k-Safe rng h''

eval-Safe :
    (n : ℕ) (env : Env) (types : TypeCheck.Env) (e : Exp) (t : Typ)
    → HasEnv env types
    → Inserted types e t
    → Safe t (eval n env e)
unfolding eval
eval-Safe zero env types e t h i = Safe.unfinished
eval-Safe (suc n) env types _ _ h Inserted.int = Safe.fine HasVal.int
eval-Safe (suc n) env types _ _ h Inserted.bool = Safe.fine HasVal.bool
eval-Safe (suc n) env types _ _ h (Inserted.var {x} e) =
    let (v, f, k) = get-HasVal x h e in found (Eval.get x env) v f k
  where
    found :
        {t : Typ} (o : Option Val) (v : Val)
        → o ≡ some v
        → HasVal v t
        → Safe t (elim o [ none ↦ panics | some v ↦ Result.value v ])
    found o v f k = rw f (Safe.fine k)
eval-Safe (suc n) env types _ _ h (Inserted.func i) =
    Safe.fine (HasVal.closure h i Coerces.id Coerces.id)
eval-Safe (suc n) env types _ _ h (Inserted.app i j) =
    Safe-then (eval-Safe n env types _ _ h i) λ v hv.
      Safe-then (eval-Safe n env types _ _ h j) λ w hw. apply-Safe (eval n) (eval-Safe n) hv hw
eval-Safe (suc n) env types _ _ h (Inserted.coerce {t} {u} i) =
    Safe-then (eval-Safe n env types _ _ h i) λ v hv. eval_k-Safe (coerce-Coerces t u) hv
eval-Safe (suc n) env types _ _ h (Inserted.prim_coerce k i) =
    Safe-then (eval-Safe n env types _ _ h i) λ v hv. eval_k-Safe k hv
eval-Safe (suc n) env types _ _ h (Inserted.int_add i j) =
    Safe-then (eval-Safe n env types _ _ h i)
      λ v hv. Safe-then (eval-Safe n env types _ _ h j) λ w hw. add-Safe hv hw
eval-Safe (suc n) env types _ _ h (Inserted.if_exp i j k) =
    Safe-then (eval-Safe n env types _ _ h i)
      λ v hv. branch-Safe (eval-Safe n env types _ _ h j) (eval-Safe n env types _ _ h k) hv

Safe-ne-panics : {t : Typ} {r : Result} → Safe t r → r ≢ panics
Safe-ne-panics (Safe.fine h) e = cc
Safe-ne-panics Safe.failed e = cc
Safe-ne-panics Safe.unfinished e = cc

-- A program with its coercions inserted does not panic, on any fuel; it fails in a coercion, or has a
-- value of its type.
pub eval-ne-panics :
    (n : ℕ) (e : Exp) (t : Typ)
    → Inserted [] e t
    → (eval n Env.empty e ≢ panics) × ((v : Val) → eval n Env.empty e ≡ value v → HasVal v t)
eval-ne-panics n e t i =
    let s = eval-Safe n Env.empty [] e t HasEnv.empty i in
    (Safe-ne-panics s, λ v q. result (rw q at s))
  where
    result : {v : Val} → Safe t (Result.value v) → HasVal v t
    result (Safe.fine h) = h
