-- ===== src/TypeWhich/InsAndOuts/Collect.antt =====
-- ins_and_outs/collect_coercions.rs: the compilation of a program, with coercions, and the flows that
-- they make. A set of flows is a list; the thread's counter of metavariables is passed along, and
-- `none` is a panic.
pub mod Casts
pub mod Compiled
pub mod Whole
use Prim.Native.String.{String}
use text.Mathlib.Text.{◌==◌}
use plbench.Prelude.{
  ℕ, Bool, true, false, not, ◌||◌, ◌&&◌, List, [], ◌∷◌, ◌++◌, Option, none, some, if◌then◌else◌,
}
use plbench.TypeWhich.Fresh.{Fresh, pass, ◌>>=◌}
use plbench.TypeWhich.InsAndOuts.Syntax.{Typ, Lit, Exp}
use plbench.TypeWhich.InsAndOuts.Kinds.{is_metavar, get_arg, get_ret, same}
use plbench.TypeWhich.InsAndOuts.Portable.{lift, fresh, next_metavar_typ}

abbrev pub Env : Type 0
Env = List (String × Typ)

abbrev pub Flows : Type 0
Flows = List (Typ × Typ)

unfoldable pub get : String → Env → Option Typ
get x [] = none
get x ((y, t) ∷ env) = if y == x then some t else get x env

-- `Lit::typ`
unfoldable pub typ : Lit → Typ
typ (Lit.int n) = Typ.int
typ (Lit.bool b) = Typ.bool
typ Lit.null = Typ.null

unfoldable pub coerce : Typ → Typ → Exp → Exp × Flows
unfolding same
coerce t1 t2 e = if same t1 t2 then (e, []) else (Exp.coerce t1 t2 e, (t1, t2) ∷ [])

unfoldable pub compile : Env → Exp → Fresh (Exp × (Typ × Flows))
unfolding get typ coerce get_arg get_ret next_metavar_typ
compile env (Exp.lit l) = pass (Exp.lit l, (typ l, []))
compile env (Exp.var x) = do t ← lift (get x env); pass (Exp.var x, (t, []))
compile env (Exp.assign x e) = do
  t1 ← lift (get x env)
  (ep, (t2, c1)) ← compile env e
  let (coerced, c2) = coerce t2 t1 ep
  pass (Exp.assign x coerced, (t1, c1 ++ c2))
compile env (Exp.func x t1 e2 t2) = do
  (e2p, (t2p, c1)) ← compile ((x, t1) ∷ env) e2
  let (e2pp, c2) = coerce t2p t2 e2p
  pass (Exp.func x t1 e2pp t2, (Typ.arr t1 t2, c1 ++ c2))
compile env (Exp.app e e1) = do
  (ep, (t, c1)) ← compile env e
  (e1p, (t1p, c2)) ← compile env e1
  t1 ← lift (get_arg t)
  let (e1pp, c3) = coerce t1p t1 e1p
  t2 ← lift (get_ret t)
  let (f, c4) = coerce t (Typ.arr t1 t2) ep
  pass (Exp.app f e1pp, (t2, ((c1 ++ c2) ++ c3) ++ c4))
compile env (Exp.if_exp e e1 e2) = do
  (ep, (t, c1)) ← compile env e
  (e1p, (t1, c2)) ← compile env e1
  (e2p, (t2, c3)) ← compile env e2
  alpha ← fresh
  let (e1pp, c4) = coerce t1 alpha e1p
  let (e2pp, c5) = coerce t2 alpha e2p
  pass (Exp.if_exp ep e1pp e2pp, (alpha, (((c1 ++ c2) ++ c3) ++ c4) ++ c5))
compile env (Exp.add e1 e2) = do
  (e1p, (t1, c1)) ← compile env e1
  (e2p, (t2, c2)) ← compile env e2
  let (e1pp, c3) = coerce t1 Typ.int e1p
  let (e2pp, c4) = coerce t2 Typ.int e2p
  pass (Exp.add e1pp e2pp, (Typ.int, ((c1 ++ c2) ++ c3) ++ c4))
compile env (Exp.seq e1 e2) = do
  (e1p, (t1, c1)) ← compile env e1
  (e2p, (t2, c2)) ← compile env e2
  pass (Exp.seq e1p e2p, (t2, c1 ++ c2))
compile env (Exp.coerce t1 t2 e) = λ n. none

-- The flows of both halves of a function type.
abbrev pub union : Option Flows → Option Flows → Option Flows
union none r = none
union (some c) none = none
union (some c) (some d) = some (c ++ d)

-- The flows between the type of the program and `any`.
unfoldable pub comp : Typ → Bool → Option Flows
unfolding is_metavar
comp Typ.any pos = some []
comp Typ.null pos = if pos then some [] else none
comp Typ.int pos = if pos then some [] else none
comp Typ.bool pos = if pos then some [] else none
comp (Typ.arr t1 t2) pos = union (comp t1 (not pos)) (comp t2 pos)
comp t pos = if pos then some ((t, Typ.any) ∷ []) else some ((Typ.any, t) ∷ [])

unfoldable pub compile_coercions : Exp → Fresh (Exp × (Typ × Flows))
unfolding compile comp
compile_coercions x = do (e, (t, c)) ← compile [] x; d ← lift (comp t true); pass (e, (t, c ++ d))
