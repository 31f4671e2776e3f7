-- ===== src/TypeWhich/Migration.antt =====
-- cgen.rs: the generation of constraints, with coercions put around the parts of a program.
pub mod Generate
pub mod Annotate
pub mod Solve
pub mod Plain
pub mod Post
pub mod Fits
pub mod Coerced
pub mod Sound
pub mod Read
pub mod Solved
pub mod Always
pub mod Dynamic
pub mod Solvable
use plbench.Prelude.{
  ℕ, Bool, true, false, ◌+◌, ◌%◌, ◌^◌, ◌==◌, List, [], ◌∷◌, Option, none, some, if◌then◌else◌,
}
use plbench.TypeWhich.Syntax.{Typ, Exp}
use plbench.TypeWhich.Fresh.{next_metavar}
use plbench.TypeWhich.Z3.{Z3, Variant}

-- `Options` of main.rs, but for `debug`, which only prints, and `annot`, which is not read here.
pub record Options : Type 0 where
  pub optimizer : Bool
  pub context : Bool
  pub rigid_vars : Bool

-- The counter of metavariables, the metavariables that have a constant in the solver, the last
-- first, and the formulas asserted softly.
pub record State (Formula : Type 0) : Type 0 where
  pub counter : ℕ
  pub vars : List ℕ
  pub soft : List Formula

unfoldable pub contains : List ℕ → ℕ → Bool
contains [] n = false
contains (m ∷ ms) n = if m == n then true else contains ms n

module _ ⦃z : Z3⦄ where
  open z use {Term, Formula, int_z3, bool_z3, str_z3, any_z3, unit_z3, float_z3, char_z3}

  -- `none` is a panic.
  abbrev pub Gen : Type 0 → Type 0
  Gen A = State Formula → Option (A × State Formula)

  -- What `cgen` returns: the program as it is left behind, its type, and the constraints.
  abbrev pub Generated : Type 0
  Generated = Exp × Typ × Formula

  abbrev pub pass : {A : Type 0} → A → Gen A
  pass a st = some (a, st)

  abbrev pub panic : {A : Type 0} → Gen A
  panic st = none

  abbrev pub continued :
      {A B : Type 0} → Option (A × State Formula) → (A → Gen B) → Option (B × State Formula)
  continued none f = none
  continued (some (a, st)) f = f a st

  infixl 5 ◌>>=◌
  abbrev pub ◌>>=◌ : {A B : Type 0} → Gen A → (A → Gen B) → Gen B
  ◌>>=◌ m f st = continued (m st) f

  infixl 35 ◌&◌
  abbrev pub ◌&◌ : Formula → Formula → Formula
  f & g = z.and f g

  infixl 30 ◌or◌
  abbrev pub ◌or◌ : Formula → Formula → Formula
  f or g = z.or f g

  unfoldable pub fresh : Gen Typ
  unfolding next_metavar
  fresh st = let (t, next) = next_metavar st.counter in some (t, record st { counter = next })

  -- The constant of a metavariable, which is made and kept at its first use.
  unfoldable pub constant : ℕ → Gen Term
  unfolding contains
  constant n st =
      some (z.fresh_const n, if contains st.vars n then st else record st { vars = n ∷ st.vars })

  -- `State::t2z3`
  unfoldable pub t2z3 : Typ → Gen Term
  unfolding constant
  t2z3 Typ.unit = pass unit_z3
  t2z3 Typ.int = pass int_z3
  t2z3 Typ.float = pass float_z3
  t2z3 Typ.bool = pass bool_z3
  t2z3 Typ.str = pass str_z3
  t2z3 Typ.char = pass char_z3
  t2z3 (Typ.arr t1 t2) = do a ← t2z3 t1; b ← t2z3 t2; pass (z.arr_ctor a b)
  t2z3 (Typ.list t) = do a ← t2z3 t; pass (z.list_ctor a)
  t2z3 (Typ.pair t1 t2) = do a ← t2z3 t1; b ← t2z3 t2; pass (z.pair_ctor a b)
  t2z3 (Typ.box t) = do a ← t2z3 t; pass (z.box_ctor a)
  t2z3 (Typ.vect t) = do a ← t2z3 t; pass (z.vect_ctor a)
  t2z3 Typ.any = pass any_z3
  t2z3 (Typ.metavar n) = constant n

  -- `self.t2z3(t)._eq(&self.t2z3(u))`
  unfoldable pub same : Typ → Typ → Gen Formula
  unfolding t2z3
  same t u = do a ← t2z3 t; b ← t2z3 u; pass (z.eq a b)

  -- `self.t2z3(t)._eq(&self.z3.any_z3)`
  unfoldable pub is_any : Typ → Gen Formula
  unfolding t2z3
  is_any t = do a ← t2z3 t; pass (z.eq a any_z3)

  -- If the type is built by the variant, it is the given type: a part of `State::ground`.
  unfoldable pub only : Variant → Typ → Typ → Gen Formula
  unfolding same t2z3
  only v u t = do a ← t2z3 t; f ← same t u; pass (z.implies (z.tester v a) f)

  -- `State::ground`
  unfoldable pub ground_z3 : Typ → Gen Formula
  unfolding only
  ground_z3 t = do
    arr ← only Variant.arr (Typ.arr Typ.any Typ.any) t
    list ← only Variant.list (Typ.list Typ.any) t
    pair ← only Variant.pair (Typ.pair Typ.any Typ.any) t
    box ← only Variant.box (Typ.box Typ.any) t
    vect ← only Variant.vect (Typ.vect Typ.any) t
    pass (arr & list & pair & box & vect)

  -- `Optimize::assert_soft`
  abbrev pub assert_soft : Formula → Gen Unit
  assert_soft f st = some (tt, record st { soft = f ∷ st.soft })

  module _ (options : Options) where
    -- The soft assertion that two types are the same, which the option `optimizer` asks for.
    unfoldable pub prefer : Typ → Typ → Gen Unit
    unfolding same
    prefer t1 t2 = if options.optimizer then (do f ← same t1 t2; assert_soft f) else pass tt

    -- `State::coerce`
    unfoldable pub coerce : Typ → Typ → Exp → Gen Exp
    unfolding prefer
    coerce t1 t2 e = do _ ← prefer t1 t2; pass (Exp.coerce t1 t2 e)

    -- `State::strengthen`
    unfoldable pub strengthen : Typ → Typ → Exp → Gen (Exp × Formula)
    unfolding is_any ground_z3 same coerce
    strengthen t1 t2 e = do
      from_any ← is_any t1
      ground_t2 ← ground_z3 t2
      dont_coerce_case ← same t1 t2
      e' ← coerce t1 t2 e
      pass (e', from_any & ground_t2 or dont_coerce_case)

    -- `State::weaken`
    unfoldable pub weaken : Typ → Exp → Formula → Gen (Exp × Typ × Formula)
    unfolding is_any ground_z3 same coerce
    weaken t1 e phi1 = do
      alpha ← fresh
      to_any ← is_any alpha
      ground_t1 ← ground_z3 t1
      dont_coerce_case ← same t1 alpha
      e' ← coerce t1 alpha e
      pass (e', alpha, phi1 & (to_any & ground_t1 or dont_coerce_case))
