-- ===== src/TypeWhich/Builders.antt =====
-- syntax.rs, the functions of `Exp` that build expressions.
pub mod Typed
use Prim.Native.String.{String}
use plbench.Prelude.{ℕ, zero, suc, ◌+◌, List, [], ◌∷◌, Option, none, some, map, length, true}
use plbench.TypeWhich.Syntax.{Typ, Lit, BinOp, Exp}

-- `Exp::begin`: every expression but the last is bound to a name that is not used. The name's number
-- counts the expressions up to it, and `name` makes the text of it.
unfoldable pub begin_from : (ℕ → String) → ℕ → Exp → List Exp → Exp
begin_from name k e [] = e
begin_from name k e (f ∷ es) = Exp.let_exp (name k) e (begin_from name (k + 1) f es)

unfoldable pub begin : (ℕ → String) → List Exp → Exp
unfolding begin_from
begin name [] = Exp.lit Lit.unit
begin name (e ∷ es) = begin_from name 1 e es

abbrev pub annotated : Exp → Option Typ → Exp
annotated e none = e
annotated e (some t) = Exp.ann e t

-- `Exp::lets`
unfoldable pub lets : List (String × Option Typ × Exp) → Exp → Exp
lets [] body = body
lets ((x, t, e) ∷ bindings) body = Exp.let_exp x (annotated e t) (lets bindings body)

-- The loop of `apps` over the arguments.
unfoldable pub apps_onto : Exp → List Exp → Exp
apps_onto call [] = call
apps_onto call (arg ∷ args) = apps_onto (Exp.app call arg) args

-- `Exp::apps`; `none` is the failed assertion.
unfoldable pub apps : List Exp → Option Exp
unfolding apps_onto
apps [] = none
apps (e ∷ []) = some (Exp.app e (Exp.lit Lit.unit))
apps (e ∷ args) = some (apps_onto e args)

-- `Exp::pairs`
unfoldable pub pairs : List Exp → Exp
pairs [] = Exp.lit Lit.unit
pairs (e ∷ es) = Exp.pair e (pairs es)

-- The loop of `proj`.
unfoldable pub snds : ℕ → Exp → Exp
snds zero e = e
snds (suc n) e = snds n (Exp.snd e)

-- `Exp::proj`
unfoldable pub proj : Exp → ℕ → Exp
unfolding snds
proj e n = Exp.fst (snds n e)

-- `Exp::funs`
unfoldable pub funs : List (String × Typ) → Exp → Exp
funs [] body = body
funs ((x, t) ∷ args) body = Exp.func x t (funs args body)

-- `Exp::or`
unfoldable pub or : Exp → Exp → Exp
or l r = Exp.if_exp l (Exp.lit (Lit.bool true)) r

abbrev pub equals : Exp → ℕ → Exp
equals x i = Exp.binary_op BinOp.int_eq x (Exp.lit (Lit.int i))

unfoldable pub or_one_of : Exp → Exp → List ℕ → Exp
unfolding or
or_one_of x e [] = e
or_one_of x e (i ∷ ints) = or_one_of x (or e (equals x i)) ints

-- `Exp::one_of_ints`; `none` is the failed assertion.
unfoldable pub one_of_ints : Exp → List ℕ → Option Exp
unfolding or_one_of
one_of_ints x [] = none
one_of_ints x (i ∷ ints) = some (or_one_of x (equals x i) ints)

abbrev pub tested : Option Exp → Exp → Option Exp → Option Exp
tested (some test) e (some rest) = some (Exp.if_exp test e rest)
tested _ e _ = none

-- The loop of `switch` over the cases.
unfoldable pub switch_cases : Exp → List (List ℕ × Exp) → Exp → Option Exp
unfolding one_of_ints
switch_cases x [] default = some default
switch_cases x ((vals, e) ∷ cases) default =
    tested (one_of_ints x vals) e (switch_cases x cases default)

abbrev pub let_scrutinee : Exp → Option Exp → Option Exp
let_scrutinee scrutinee none = none
let_scrutinee scrutinee (some e) = some (Exp.let_exp "__scrutinee" scrutinee e)

-- `Exp::switch`
unfoldable pub switch : Exp → List (List ℕ × Exp) → Exp → Option Exp
unfolding switch_cases
switch scrutinee cases default =
    let_scrutinee scrutinee (switch_cases (Exp.var "__scrutinee") cases default)

-- `Exp::cond`
unfoldable pub cond_exp : List (Exp × Exp) → Exp → Exp
cond_exp [] default = default
cond_exp ((condition, e) ∷ cases) default = Exp.if_exp condition e (cond_exp cases default)
