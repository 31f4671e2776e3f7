-- ===== src/TypeWhich/Builders/Typed.antt =====
-- syntax.rs: the types of the expressions that `apps`, `funs`, `pairs`, `proj` and `switch` build.
use Prim.Native.String.{String}
use plbench.Prelude.{ℕ, zero, suc, ◌≡◌, refl, List, [], ◌∷◌, some, get_elem?}
use plbench.TypeWhich.Syntax.{Typ, Lit, BinOp, Exp, lit_typ, bin_op_typ}
use plbench.TypeWhich.Outcome.{accepts}
use plbench.TypeWhich.Types.{arrs_onto, tuples}
use plbench.TypeWhich.TypeCheck.{Env, get, tcheck}
use plbench.TypeWhich.TypeCheck.Typing.{HasType}
use plbench.TypeWhich.TypeCheck.Complete.{tcheck_iff}
use plbench.TypeWhich.Builders.{
  apps_onto, apps, pairs, snds, proj, funs, or, equals, or_one_of, one_of_ints, switch_cases,
  switch,
}

-- The expressions have the types, one by one.
pub data HaveTypes (env : Env) : List Exp → List Typ → Type 0 where
  none_left : HaveTypes env [] []
  next :
      {e : Exp} {t : Typ} {es : List Exp} {ts : List Typ}
      → HasType env e t
      → HaveTypes env es ts
      → HaveTypes env (e ∷ es) (t ∷ ts)

pairs-HasType :
    {env : Env} {es : List Exp} {ts : List Typ}
    → HaveTypes env es ts
    → HasType env (pairs es) (tuples ts)
unfolding pairs tuples lit_typ
pairs-HasType HaveTypes.none_left = HasType.lit Lit.unit
pairs-HasType (HaveTypes.next h hs) = HasType.pair h (pairs-HasType hs)

proj-HasType :
    {env : Env} (n : ℕ) (ts : List Typ) {e : Exp} {t : Typ}
    → HasType env e (tuples ts)
    → get_elem? ts n ≡ some t
    → HasType env (Exp.fst (snds n e)) t
unfolding snds tuples
proj-HasType zero [] h q = cc
proj-HasType (suc n) [] h q = cc
proj-HasType zero (u ∷ ts) h q = let same : u ≡ _ = cc in rw same at (HasType.fst h)
proj-HasType (suc n) (u ∷ ts) h q = proj-HasType n ts (HasType.snd h) q

-- The n-th projection of a tuple of expressions is accepted with the type of the n-th expression.
proj-pairs :
    (env : Env) (es : List Exp) (ts : List Typ) (n : ℕ) (t : Typ)
    → HaveTypes env es ts
    → get_elem? ts n ≡ some t
    → tcheck env (proj (pairs es) n) ≡ accepts t
unfolding proj
proj-pairs env es ts n t h q =
    (tcheck_iff env (Exp.fst (snds n (pairs es))) t).1 (proj-HasType n ts (pairs-HasType h) q)

-- The environment in the body of a function of several arguments.
abbrev pub bind_args : Env → List (String × Typ) → Env
bind_args env [] = env
bind_args env ((x, t) ∷ args) = bind_args ((x, t) ∷ env) args

abbrev pub arg_types : List (String × Typ) → List Typ
arg_types [] = []
arg_types ((x, t) ∷ args) = t ∷ arg_types args

funs-HasType :
    {env : Env} (args : List (String × Typ)) {body : Exp} {t : Typ}
    → HasType (bind_args env args) body t
    → HasType env (funs args body) (arrs_onto (arg_types args) t)
unfolding funs arrs_onto
funs-HasType [] h = h
funs-HasType ((x, u) ∷ args) h = HasType.func (funs-HasType args h)

apps-HasType :
    {env : Env} {es : List Exp} {ts : List Typ} {f : Exp} {t : Typ}
    → HasType env f (arrs_onto ts t)
    → HaveTypes env es ts
    → HasType env (apps_onto f es) t
unfolding apps_onto arrs_onto
apps-HasType h HaveTypes.none_left = h
apps-HasType h (HaveTypes.next e es) = apps-HasType (HasType.app h e) es

-- A function of several arguments applied to expressions of their types, of which there is one at
-- least, is accepted with the type of its body.
apps-funs :
    (env : Env) (args : List (String × Typ)) (body : Exp) (t : Typ) (e : Exp) (es : List Exp)
    → HasType (bind_args env args) body t
    → HaveTypes env (e ∷ es) (arg_types args)
    → (call : Exp) × (apps (funs args body ∷ e ∷ es) ≡ some call) × (tcheck env call ≡ accepts t)
unfolding apps
apps-funs env args body t e es h hs = (
  apps_onto (funs args body) (e ∷ es),
  refl,
  (tcheck_iff env _ t).1 (apps-HasType (funs-HasType args h) hs),
)

or_one_of-HasType :
    {env : Env} (ints : List ℕ) {x e : Exp}
    → HasType env x Typ.int
    → HasType env e Typ.bool
    → HasType env (or_one_of x e ints) Typ.bool
unfolding or_one_of or bin_op_typ lit_typ
or_one_of-HasType [] h k = k
or_one_of-HasType (i ∷ ints) h k = or_one_of-HasType ints h (
    HasType.if_exp k (HasType.lit (Lit.bool _))
      (HasType.binary_op BinOp.int_eq h (HasType.lit (Lit.int i))))

-- The cases have values, and expressions of the type.
pub data HaveCases (env : Env) (t : Typ) : List (List ℕ × Exp) → Type 0 where
  none_left : HaveCases env t []
  next :
      {i : ℕ} {ints : List ℕ} {e : Exp} {cases : List (List ℕ × Exp)}
      → HasType env e t
      → HaveCases env t cases
      → HaveCases env t ((i ∷ ints, e) ∷ cases)

switch_cases-HasType :
    {env : Env} {t : Typ} {cases : List (List ℕ × Exp)} {x default : Exp}
    → HasType env x Typ.int
    → HaveCases env t cases
    → HasType env default t
    → (e : Exp) × (switch_cases x cases default ≡ some e) × HasType env e t
unfolding switch_cases one_of_ints bin_op_typ lit_typ
switch_cases-HasType {default} h HaveCases.none_left d = (default, refl, d)
switch_cases-HasType {x} h (HaveCases.next {i} {ints} {e} k cs) d =
    let (rest, q, r) = switch_cases-HasType h cs d in
    (
      Exp.if_exp (or_one_of x (equals x i) ints) e rest,
      rw q refl,
      HasType.if_exp
          (or_one_of-HasType ints h (HasType.binary_op BinOp.int_eq h (HasType.lit (Lit.int i)))) k
          r,
    )

-- A switch over an integer is built where every case has a value, and is accepted with the type that
-- its cases and its default have in the scope of the name `__scrutinee`.
pub switch_lem :
    (env : Env) (scrutinee : Exp) (cases : List (List ℕ × Exp)) (default : Exp) (t : Typ)
    → HasType env scrutinee Typ.int
    → HaveCases (("__scrutinee", Typ.int) ∷ env) t cases
    → HasType (("__scrutinee", Typ.int) ∷ env) default t
    → (e : Exp) × (switch scrutinee cases default ≡ some e) × (tcheck env e ≡ accepts t)
unfolding switch get
switch_lem env scrutinee cases default t h cs d =
    let (e, q, k) =
      switch_cases-HasType (HasType.var {x = "__scrutinee"} (unfold get in refl)) cs d in
    (Exp.let_exp "__scrutinee" scrutinee e, rw q refl, (tcheck_iff env _ t).1 (HasType.let_exp h k))
