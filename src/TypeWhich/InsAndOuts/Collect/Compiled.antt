-- ===== src/TypeWhich/InsAndOuts/Collect/Compiled.antt =====
-- ins_and_outs/collect_coercions.rs, `compile` on programs whose annotations are variables.
use Prim.Native.String.{String}
use mathlib.Core.Logic.{ite}
use mathlib.Core.Path.{subst}
use plbench.Prelude.{
  ℕ, Bool, true, false, ◌≡◌, refl, ap, [], ◌∷◌, ◌++◌, Option, some, arith, if◌then◌else◌,
}
use plbench.TypeWhich.InsAndOuts.Syntax.{Typ, Typ-discrete, Lit, Exp}
use plbench.TypeWhich.InsAndOuts.Kinds.{same, get_arg, get_ret}
use plbench.TypeWhich.InsAndOuts.Portable.{next_metavar_typ}
use plbench.TypeWhich.Fresh.{inc_metavar}
use plbench.TypeWhich.InsAndOuts.Collect.{Env, Flows, get, typ, coerce, compile}
use plbench.TypeWhich.InsAndOuts.Collect.Casts.{Casts, erase, count, coercions, count-append}

-- Type variables and the function types of them.
pub data IsOpen : Typ → Type 0 where
  metavar : (n : ℕ) → IsOpen (Typ.metavar n)
  metavar_arg : (t : Typ) → IsOpen (Typ.metavar_arg t)
  metavar_ret : (t : Typ) → IsOpen (Typ.metavar_ret t)
  arr : {t u : Typ} → IsOpen t → IsOpen u → IsOpen (Typ.arr t u)

-- The types of programs that can be called, `true`, and of the other ones.
pub data Shaped : Bool → Typ → Type 0 where
  callable : {t : Typ} → IsOpen t → Shaped true t
  base : (l : Lit) → Shaped false (typ l)
  mixed : {t : Typ} → Shaped true t → Shaped false t

-- Programs without coercions, whose names are bound, whose annotations are open, and which call no
-- literal, no sum and no sequence that ends in one; `true` where the program itself is none of these.
pub data IsPlain : Env → Exp → Bool → Type 0 where
  lit : {env : Env} (l : Lit) → IsPlain env (Exp.lit l) false
  var :
      {env : Env} {x : String} {t : Typ}
      → get x env ≡ some t
      → IsOpen t
      → IsPlain env (Exp.var x) true
  assign :
      {env : Env} {x : String} {e : Exp} {t : Typ} {b : Bool}
      → get x env ≡ some t
      → IsOpen t
      → IsPlain env e b
      → IsPlain env (Exp.assign x e) true
  func :
      {env : Env} {x : String} {e : Exp} {t u : Typ} {b : Bool}
      → IsOpen t
      → IsOpen u
      → IsPlain ((x, t) ∷ env) e b
      → IsPlain env (Exp.func x t e u) true
  app :
      {env : Env} {e e1 : Exp} {b : Bool}
      → IsPlain env e true
      → IsPlain env e1 b
      → IsPlain env (Exp.app e e1) true
  if_exp :
      {env : Env} {e e1 e2 : Exp} {b b1 b2 : Bool}
      → IsPlain env e b
      → IsPlain env e1 b1
      → IsPlain env e2 b2
      → IsPlain env (Exp.if_exp e e1 e2) true
  add :
      {env : Env} {e1 e2 : Exp} {b1 b2 : Bool}
      → IsPlain env e1 b1
      → IsPlain env e2 b2
      → IsPlain env (Exp.add e1 e2) false
  seq :
      {env : Env} {e1 e2 : Exp} {b1 b2 : Bool}
      → IsPlain env e1 b1
      → IsPlain env e2 b2
      → IsPlain env (Exp.seq e1 e2) b2

-- The flows are those of the coercions in the program.
abbrev pub AreFlows : Exp → Flows → Type 0
AreFlows r c = (p : Typ × Typ) → count p c ≡ coercions p r

-- What is asked of a result at one type.
pub record Casted (env : Env) (e r : Exp) (t : Typ) (c : Flows) : Type 0 where
  pub casts : Casts env r t
  pub erased : erase r ≡ e
  pub flows : AreFlows r c

abbrev pub Out : Type 0
Out = Option ((Exp × (Typ × Flows)) × ℕ)

pub data Compiles (env : Env) (e : Exp) (b : Bool) (o : Out) : Type 0 where
  compiles :
      {r : Exp} {t : Typ} {c : Flows} {m : ℕ}
      → o ≡ some ((r, (t, c)), m)
      → Casted env e r t c
      → Shaped b t
      → Compiles env e b o

-- A part at the type that its place asks for.
coerce-Casted :
    {env : Env} {e r : Exp} {t : Typ} {c : Flows} (u : Typ)
    → Casted env e r t c
    → Casted env e ((coerce t u r).0) u (c ++ (coerce t u r).1)
unfolding coerce same erase count coercions
coerce-Casted {env} {e} {r} {t} {c} u h = decided (Typ-discrete t u)
  where
    nothing : (p : Typ × Typ) → count p (c ++ []) ≡ coercions p r
    nothing p = let q = count-append p c [] in let f = h.flows p in omega arith

    one : (p : Typ × Typ) → count p (c ++ ((t, u) ∷ [])) ≡ coercions p (Exp.coerce t u r)
    one p = let q = count-append p c ((t, u) ∷ []) in let f = h.flows p in omega arith

    made : Dec (t ≡ u) → Exp × Flows
    made d = if ite d true false then (r, []) else (Exp.coerce t u r, (t, u) ∷ [])

    decided : (d : Dec (t ≡ u)) → Casted env e ((made d).0) u (c ++ (made d).1)
    decided (yes q) = record {
      casts = subst (λ v. Casts env r v) q h.casts;
      erased = h.erased;
      flows = nothing;
    }
    decided (no ne) = record { casts = Casts.coerce t u h.casts; erased = h.erased; flows = one }

parts :
    {t : Typ}
    → IsOpen t
    → (a : Typ) × ((r : Typ) × (get_arg t ≡ some a) × (get_ret t ≡ some r) × IsOpen r)
unfolding get_arg get_ret
parts (IsOpen.metavar n) = (_, (_, refl, refl, IsOpen.metavar_ret _))
parts (IsOpen.metavar_arg t) = (_, (_, refl, refl, IsOpen.metavar_ret _))
parts (IsOpen.metavar_ret t) = (_, (_, refl, refl, IsOpen.metavar_ret _))
parts (IsOpen.arr {t} {u} h k) = (t, (u, refl, refl, k))

pub compile-Compiles :
    {env : Env} {e : Exp} {b : Bool} (n : ℕ) → IsPlain env e b → Compiles env e b (compile env e n)
unfolding compile erase coercions count next_metavar_typ inc_metavar
compile-Compiles n (IsPlain.lit l) =
    Compiles.compiles refl (record { casts = Casts.lit l; erased = refl; flows = λ p. refl })
      (Shaped.base l)
compile-Compiles n (IsPlain.var g o) =
    Compiles.compiles {c = []} {m = n} (rw g refl)
      (record { casts = Casts.var g; erased = refl; flows = λ p. refl }) (Shaped.callable o)
compile-Compiles n (IsPlain.assign {x} {t} g o h) = elim (compile-Compiles n h) [
  | Compiles.compiles {r} {t = t1} {c} {m} q k s ↦
      let k' = coerce-Casted t k in
      Compiles.compiles {c = c ++ (coerce t1 t r).1} {m = m} (rw (g, q) refl)
        (record {
          casts = Casts.assign g k'.casts;
          erased = ap (Exp.assign x) k'.erased;
          flows = k'.flows;
        })
        (Shaped.callable o)
]
compile-Compiles n (IsPlain.func {x} {t} {u} o1 o2 h) = elim (compile-Compiles n h) [
  | Compiles.compiles {r} {t = t1} {c} {m} q k s ↦
      let k' = coerce-Casted u k in
      Compiles.compiles {c = c ++ (coerce t1 u r).1} {m = m} (rw q refl)
        (record {
          casts = Casts.func k'.casts;
          erased = ap (λ e. Exp.func x t e u) k'.erased;
          flows = k'.flows;
        })
        (Shaped.callable (IsOpen.arr o1 o2))
]
compile-Compiles n (IsPlain.app h h1) = elim (compile-Compiles n h) [
  | Compiles.compiles {r = f1} {t} {c = c1} {m} q k (Shaped.callable o) ↦
      elim (compile-Compiles m h1) [
        | Compiles.compiles {r = g1} {t = t1} {c = c2} {m = m1} q1 k1 s ↦
            let (a, (u, qa, qr, o')) = parts o in
            let f = coerce-Casted (Typ.arr a u) k in
            let g = coerce-Casted a k1 in
            Compiles.compiles
              {c = ((c1 ++ c2) ++ (coerce t1 a g1).1) ++ (coerce t (Typ.arr a u) f1).1} {m = m1}
              (rw (q, q1, qa, qr) refl)
              (record {
                casts = Casts.app f.casts g.casts;
                erased = rw (f.erased, g.erased) refl;
                flows = λ p. let i = f.flows p in let j = g.flows p in grind (arith, count-append);
              })
              (Shaped.callable o')
      ]
]
compile-Compiles n (IsPlain.if_exp h h1 h2) = elim (compile-Compiles n h) [
  | Compiles.compiles {c} {m} q k s ↦ elim (compile-Compiles m h1) [
    | Compiles.compiles {r = r1} {t = t1} {c = c1} {m = m1} q1 k1 s1 ↦
        elim (compile-Compiles m1 h2) [
          | Compiles.compiles {r = r2} {t = t2} {c = c2} {m = m2} q2 k2 s2 ↦
              let f = coerce-Casted (Typ.metavar m2) k1 in
              let g = coerce-Casted (Typ.metavar m2) k2 in
              Compiles.compiles
                {c = (((c ++ c1) ++ c2) ++ (coerce t1 (Typ.metavar m2) r1).1)
                  ++ (coerce t2 (Typ.metavar m2) r2).1}
                {m = (inc_metavar m2).1} (rw (q, q1, q2) refl)
                (record {
                  casts = Casts.if_exp k.casts f.casts g.casts;
                  erased = rw (k.erased, f.erased, g.erased) refl;
                  flows = λ p.
                      let l = k.flows p in
                      let i = f.flows p in let j = g.flows p in grind (arith, count-append);
                })
                (Shaped.callable (IsOpen.metavar m2))
        ]
  ]
]
compile-Compiles n (IsPlain.add h h1) = elim (compile-Compiles n h) [
  | Compiles.compiles {r} {t} {c} {m} q k s ↦ elim (compile-Compiles m h1) [
    | Compiles.compiles {r = r1} {t = t1} {c = c1} {m = m1} q1 k1 s1 ↦
        let f = coerce-Casted Typ.int k in
        let g = coerce-Casted Typ.int k1 in
        Compiles.compiles {c = ((c ++ c1) ++ (coerce t Typ.int r).1) ++ (coerce t1 Typ.int r1).1}
          {m = m1} (rw (q, q1) refl)
          (record {
            casts = Casts.add f.casts g.casts;
            erased = rw (f.erased, g.erased) refl;
            flows = λ p. let i = f.flows p in let j = g.flows p in grind (arith, count-append);
          })
          (Shaped.base (Lit.int 0))
  ]
]
compile-Compiles n (IsPlain.seq h h1) = elim (compile-Compiles n h) [
  | Compiles.compiles {c} {m} q k s ↦ elim (compile-Compiles m h1) [
    | Compiles.compiles {c = c1} {m = m1} q1 k1 s1 ↦
        Compiles.compiles {c = c ++ c1} {m = m1} (rw (q, q1) refl)
          (record {
            casts = Casts.seq k.casts k1.casts;
            erased = rw (k.erased, k1.erased) refl;
            flows = λ p. let i = k.flows p in let j = k1.flows p in grind (arith, count-append);
          })
          s1
  ]
]
