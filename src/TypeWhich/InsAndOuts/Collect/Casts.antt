-- ===== src/TypeWhich/InsAndOuts/Collect/Casts.antt =====
-- ins_and_outs/collect_coercions.rs: the rules for what `compile` makes, and the coercions in it.
use Prim.Native.String.{String}
use plbench.Prelude.{
  ℕ, ◌+◌, Bool, true, false, ◌&&◌, ◌≡◌, [], ◌∷◌, ◌++◌, some, arith, if◌then◌else◌,
}
use plbench.TypeWhich.InsAndOuts.Syntax.{Typ, Lit, Exp}
use plbench.TypeWhich.InsAndOuts.Kinds.{same}
use plbench.TypeWhich.InsAndOuts.Collect.{Env, Flows, get, typ}

-- The types of programs with coercions.
pub data Casts : Env → Exp → Typ → Type 0 where
  lit : {env : Env} (l : Lit) → Casts env (Exp.lit l) (typ l)
  var : {env : Env} {x : String} {t : Typ} → get x env ≡ some t → Casts env (Exp.var x) t
  assign :
      {env : Env} {x : String} {e : Exp} {t : Typ}
      → get x env ≡ some t
      → Casts env e t
      → Casts env (Exp.assign x e) t
  func :
      {env : Env} {x : String} {e : Exp} {t u : Typ}
      → Casts ((x, t) ∷ env) e u
      → Casts env (Exp.func x t e u) (Typ.arr t u)
  app :
      {env : Env} {e e1 : Exp} {t u : Typ}
      → Casts env e (Typ.arr t u)
      → Casts env e1 t
      → Casts env (Exp.app e e1) u
  coerce : {env : Env} {e : Exp} (t u : Typ) → Casts env e t → Casts env (Exp.coerce t u e) u
  if_exp :
      {env : Env} {e e1 e2 : Exp} {t u : Typ}
      → Casts env e t
      → Casts env e1 u
      → Casts env e2 u
      → Casts env (Exp.if_exp e e1 e2) u
  add :
      {env : Env} {e1 e2 : Exp}
      → Casts env e1 Typ.int
      → Casts env e2 Typ.int
      → Casts env (Exp.add e1 e2) Typ.int
  seq :
      {env : Env} {e1 e2 : Exp} {t u : Typ}
      → Casts env e1 t
      → Casts env e2 u
      → Casts env (Exp.seq e1 e2) u

-- The program without its coercions.
unfoldable pub erase : Exp → Exp
erase (Exp.lit l) = Exp.lit l
erase (Exp.var x) = Exp.var x
erase (Exp.assign x e) = Exp.assign x (erase e)
erase (Exp.func x t e u) = Exp.func x t (erase e) u
erase (Exp.app e e1) = Exp.app (erase e) (erase e1)
erase (Exp.coerce t u e) = erase e
erase (Exp.if_exp e e1 e2) = Exp.if_exp (erase e) (erase e1) (erase e2)
erase (Exp.add e1 e2) = Exp.add (erase e1) (erase e2)
erase (Exp.seq e1 e2) = Exp.seq (erase e1) (erase e2)

-- How often a flow is in a list.
unfoldable pub count : Typ × Typ → Flows → ℕ
unfolding same
count p [] = 0
count p ((t, u) ∷ c) = if same (p.0) t && same (p.1) u then 1 + count p c else count p c

-- How many coercions of a program are between two types.
unfoldable pub coercions : Typ × Typ → Exp → ℕ
unfolding count
coercions p (Exp.lit l) = 0
coercions p (Exp.var x) = 0
coercions p (Exp.assign x e) = coercions p e
coercions p (Exp.func x t e u) = coercions p e
coercions p (Exp.app e e1) = coercions p e + coercions p e1
coercions p (Exp.coerce t u e) = count p ((t, u) ∷ []) + coercions p e
coercions p (Exp.if_exp e e1 e2) = coercions p e + coercions p e1 + coercions p e2
coercions p (Exp.add e1 e2) = coercions p e1 + coercions p e2
coercions p (Exp.seq e1 e2) = coercions p e1 + coercions p e2

pub count-append : (p : Typ × Typ) (c d : Flows) → count p (c ++ d) ≡ count p c + count p d
unfolding count
count-append p [] d = omega arith
count-append p ((t, u) ∷ c) d = with_rest (same (p.0) t && same (p.1) u) _ _ _ (count-append p c d)
  where
    with_rest :
        (b : Bool) (k m n : ℕ) → k ≡ m + n → (if b then 1 + k else k) ≡ (if b then 1 + m else m) + n
    with_rest true k m n h = omega arith
    with_rest false k m n h = h
