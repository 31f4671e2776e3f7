-- ===== src/TypeWhich/Migration/Fits.antt =====
-- cgen.rs, `annotate`: the annotated program and its typing, node by node.
use Prim.Native.String.{String}
use text.Mathlib.Text.{◌==◌}
use mathlib.Core.Logic.{ite}
use mathlib.Core.Path.{subst}
use plbench.Prelude.{
  ◌≡◌, ◌⊎◌, inl, inr, refl, sym, List, [], ◌∷◌, Option, some, true, Bool-cases, arith,
}
use plbench.TypeWhich.Syntax.{Typ, Typ-discrete, Exp, Bindings, binding}
use plbench.TypeWhich.TypeCheck.{Env, get, bind_all}
use plbench.TypeWhich.TypeCheck.Typing.{HasType, HaveTypes}
use plbench.TypeWhich.Migration.Annotate.{
  Solution, annotate_typ, annotate, annotate_all, one, two, three, coerced,
}
use plbench.TypeWhich.Migration.Plain.{
  known, bind_names, IsReasonable, HasReasonable, HaveReasonable,
}

-- The program has the type, and its coercions are reasonable.
abbrev pub Good : Env → Exp → Typ → Type 0
Good env e t = HasType env e t × HasReasonable e

-- The annotation succeeds, with such a program.
pub data Fits (env : Env) (o : Option Exp) (t : Typ) : Type 0 where
  fits : (e : Exp) → o ≡ some e → Good env e t → Fits env o t

pub Fits-eq : {env : Env} {o : Option Exp} {t u : Typ} → t ≡ u → Fits env o t → Fits env o u
Fits-eq {env} {o} p h = subst (λ t. Fits env o t) p h

module _ {env env' : Env} {t u : Typ} where
  pub Fits-one :
      {node : Exp → Exp} {o : Option Exp}
      → Fits env o t
      → ((e : Exp) → Good env e t → Good env' (node e) u)
      → Fits env' (one node o) u
  Fits-one (fits e p g) k = fits _ (rw p refl) (k e g)

module _ {env env1 env2 : Env} {t t1 t2 : Typ} where
  pub Fits-two :
      {node : Exp → Exp → Exp} {o1 o2 : Option Exp}
      → Fits env1 o1 t1
      → Fits env2 o2 t2
      → ((e1 e2 : Exp) → Good env1 e1 t1 → Good env2 e2 t2 → Good env (node e1 e2) t)
      → Fits env (two node o1 o2) t
  Fits-two (fits e1 p1 g1) (fits e2 p2 g2) k = fits _ (rw (p1, p2) refl) (k e1 e2 g1 g2)

module _ {env : Env} {t t1 t2 t3 : Typ} where
  pub Fits-three :
      {node : Exp → Exp → Exp → Exp} {o1 o2 o3 : Option Exp}
      → Fits env o1 t1
      → Fits env o2 t2
      → Fits env o3 t3
      → ((e1 e2 e3 : Exp)
          → Good env e1 t1
          → Good env e2 t2
          → Good env e3 t3
          → Good env (node e1 e2 e3) t)
      → Fits env (three node o1 o2 o3) t
  Fits-three (fits e1 p1 g1) (fits e2 p2 g2) (fits e3 p3 g3) k =
      fits _ (rw (p1, p2, p3) refl) (k e1 e2 e3 g1 g2 g3)

-- A coercion between two types that are the same, or that it is reasonable to coerce between.
coerced-Good :
    {env : Env} {t u : Typ}
    → (t ≡ u) ⊎ IsReasonable t u
    → (e : Exp) → Good env e t
    → Good env (coerced t u e) u
unfolding coerced
coerced-Good {env} {t} {u} h e g = decided (Typ-discrete t u) h
  where
    decided :
        (d : Dec (t ≡ u)) → (t ≡ u) ⊎ IsReasonable t u → Good env (ite d e (Exp.coerce t u e)) u
    decided (yes p) h = subst (λ u. Good env e u) p g
    decided (no ne) (inl p) = absurd (ne p)
    decided (no ne) (inr r) = (HasType.coerce u g.0, (r, g.1))

pub Fits-coerce :
    {env : Env} (s : Solution) (t u : Typ) (e : Exp)
    → (annotate_typ s t ≡ annotate_typ s u) ⊎ IsReasonable (annotate_typ s t) (annotate_typ s u)
    → Fits env (annotate s e) (annotate_typ s t)
    → Fits env (annotate s (Exp.coerce t u e)) (annotate_typ s u)
unfolding annotate
Fits-coerce s t u e h f = Fits-one f (coerced-Good h)

-- The types of an environment, annotated.
abbrev pub annotate_env : Solution → Env → Env
annotate_env s [] = []
annotate_env s ((x, t) ∷ env) = (x, annotate_typ s t) ∷ annotate_env s env

abbrev pub names : Env → List String
names [] = []
names ((x, t) ∷ env) = x ∷ names env

pub get-known :
    (s : Solution) (x : String) (env : Env)
    → known x (names env) ≡ true
    → (t : Typ) × (get x env ≡ some t) × (get x (annotate_env s env) ≡ some (annotate_typ s t))
unfolding known get
get-known s x [] h = absurd (ground arith)
get-known s x ((y, t) ∷ env) h = elim (Bool-cases (y == x)) [
  | inl e ↦ (t, rw e refl, rw e refl)
  | inr ne ↦ let (u, p, q) = get-known s x env (rw ne at h) in (u, rw ne p, rw ne q)
]

pub names-bind_all :
    (env : Env) (bs : Bindings) → names (bind_all env bs) ≡ bind_names (names env) bs
unfolding bind_all
names-bind_all env Bindings.done = refl
names-bind_all env (binding x t e bs) = names-bind_all ((x, t) ∷ env) bs

-- The annotation of the bindings succeeds; each has its type, and their names and types are those
-- of the bindings, annotated.
pub data FitAll (s : Solution) (env : Env) (bs : Bindings) (o : Option Bindings) : Type 0 where
  fit_all :
      (bs' : Bindings)
      → o ≡ some bs'
      → HaveTypes env bs'
      → HaveReasonable bs'
      → ((env : Env) → bind_all (annotate_env s env) bs' ≡ annotate_env s (bind_all env bs))
      → FitAll s env bs o

pub FitAll-done :
    {s : Solution} {env : Env} → FitAll s env Bindings.done (annotate_all s Bindings.done)
unfolding annotate_all bind_all
FitAll-done = fit_all Bindings.done refl HaveTypes.done tt (λ env. refl)

pub FitAll-binding :
    (s : Solution) {env : Env} {x : String} (t : Typ) {e : Exp} (e' : Exp) {bs : Bindings}
    (bs' : Bindings)
    → Fits env (annotate s e') (annotate_typ s t)
    → FitAll s env bs (annotate_all s bs')
    → FitAll s env (binding x t e bs) (annotate_all s (binding x t e' bs'))
unfolding annotate_all bind_all
FitAll-binding s {x} t e' bs' (fits e p g) (fit_all bs q h r k) =
    fit_all (binding x (annotate_typ s t) e bs) (rw (p, q) refl) (HaveTypes.binding g.0 h) (g.1, r)
      (λ env. k ((x, t) ∷ env))

pub Fits-let_rec :
    (s : Solution) (env : Env) (bs bs' : Bindings) (e' : Exp) {t : Typ}
    → FitAll s (annotate_env s (bind_all env bs)) bs (annotate_all s bs')
    → Fits (annotate_env s (bind_all env bs)) (annotate s e') t
    → Fits (annotate_env s env) (annotate s (Exp.let_rec bs' e')) t
unfolding annotate
Fits-let_rec s env bs es e {t} (fit_all bs' p h r k) (fits e' q g) =
    fits (Exp.let_rec bs' e') (rw (p, q) refl) (
      HasType.let_rec (subst (λ env. HaveTypes env bs') (sym (k env)) h)
          (subst (λ env. HasType env e' t) (sym (k env)) g.0),
      (r, g.1),
    )
