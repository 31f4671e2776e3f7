-- ===== src/TypeWhich/InsAndOuts/Collect/Whole.antt =====
-- ins_and_outs/collect_coercions.rs, `compile_coercions` on a whole program.
use plbench.Prelude.{ℕ, Bool, true, false, not, ◌≡◌, refl, [], ◌∷◌, ◌++◌, some}
use plbench.TypeWhich.InsAndOuts.Syntax.{Typ, Lit, Exp}
use plbench.TypeWhich.InsAndOuts.Kinds.{is_metavar}
use plbench.TypeWhich.InsAndOuts.Collect.{Flows, typ, comp, compile_coercions}
use plbench.TypeWhich.InsAndOuts.Collect.Casts.{Casts, erase}
use plbench.TypeWhich.InsAndOuts.Collect.Compiled.{
  IsOpen, Shaped, IsPlain, AreFlows, Out, Compiles, compile-Compiles,
}

-- The flows at the border of a program: from its variables in the place of a result, and to those in
-- the place of an argument.
pub data Border : Typ → Bool → Flows → Type 0 where
  from : {t : Typ} → is_metavar t ≡ true → Border t true ((t, Typ.any) ∷ [])
  to : {t : Typ} → is_metavar t ≡ true → Border t false ((Typ.any, t) ∷ [])
  arr :
      {t u : Typ} {b : Bool} {c d : Flows}
      → Border t (not b) c
      → Border u b d
      → Border (Typ.arr t u) b (c ++ d)
  base : (l : Lit) → Border (typ l) true []

comp-Border : {t : Typ} → IsOpen t → (b : Bool) → (d : Flows) × (comp t b ≡ some d) × Border t b d
unfolding comp is_metavar
comp-Border (IsOpen.metavar n) true = (_, refl, Border.from refl)
comp-Border (IsOpen.metavar n) false = (_, refl, Border.to refl)
comp-Border (IsOpen.metavar_arg t) true = (_, refl, Border.from refl)
comp-Border (IsOpen.metavar_arg t) false = (_, refl, Border.to refl)
comp-Border (IsOpen.metavar_ret t) true = (_, refl, Border.from refl)
comp-Border (IsOpen.metavar_ret t) false = (_, refl, Border.to refl)
comp-Border (IsOpen.arr h k) b =
    let (c, p, r) = comp-Border h (not b) in
    let (d, q, s) = comp-Border k b in (c ++ d, rw (p, q) refl, Border.arr r s)

Shaped-Border :
    {b : Bool} {t : Typ} → Shaped b t → (d : Flows) × (comp t true ≡ some d) × Border t true d
unfolding comp typ
Shaped-Border (Shaped.callable o) = comp-Border o true
Shaped-Border (Shaped.base (Lit.int n)) = ([], refl, Border.base (Lit.int n))
Shaped-Border (Shaped.base (Lit.bool b)) = ([], refl, Border.base (Lit.bool b))
Shaped-Border (Shaped.base Lit.null) = ([], refl, Border.base Lit.null)
Shaped-Border (Shaped.mixed s) = Shaped-Border s

-- The program with coercions, its type, and the flows of its coercions and of its border.
pub data Collected (e : Exp) (o : Out) : Type 0 where
  collected :
      (r : Exp) (t : Typ) (c d : Flows) (m : ℕ)
      → o ≡ some ((r, (t, c ++ d)), m)
      → Casts [] r t
      → erase r ≡ e
      → AreFlows r c
      → Border t true d
      → Collected e o

-- On a closed program without coercions, whose annotations are made of type variables and arrows and
-- which calls no literal, no sum and no sequence that ends in one, the collection of coercions does not panic: it returns a
-- program that is the given one but for its coercions, in which every part has the type that its
-- place asks for, that type, and the flows, which are those of its coercions and, after them, those
-- between `any` and the variables of its type.
pub compile_coercions-Collected :
    {e : Exp} {b : Bool} (n : ℕ) → IsPlain [] e b → Collected e (compile_coercions e n)
unfolding compile_coercions
compile_coercions-Collected n h = elim (compile-Compiles n h) [
  | Compiles.compiles {r} {t} {c} {m} q k s ↦
      let (d, p, border) = Shaped-Border s in
      collected r t c d m (rw (q, p) refl) k.casts k.erased k.flows border
]
