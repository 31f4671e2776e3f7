-- ===== src/TypeWhich/Z3.antt =====
-- z3_state.rs: the data type of types in the Z3 solver, and what TypeWhich uses of the crate z3,
-- which is not part of the repository.
use plbench.Prelude.{Bool, true, false, not, ◌&&◌, ◌||◌, ◌≡◌, ◌↔◌, ℕ, suc, ◌+◌, List, [], All}

-- The variants of the data type that `Z3State::typ` builds.
pub data Variant : Type 0 where
  int bool str arr list pair box any unit vect float char : Variant

-- A value of that data type.
pub data Tree : Type 0 where
  int bool str any unit float char : Tree
  arr pair : Tree → Tree → Tree
  list box vect : Tree → Tree

-- The value is built by the variant.
abbrev pub built_by : Variant → Tree → Bool
built_by Variant.int Tree.int = true
built_by Variant.bool Tree.bool = true
built_by Variant.str Tree.str = true
built_by Variant.arr (Tree.arr t u) = true
built_by Variant.list (Tree.list t) = true
built_by Variant.pair (Tree.pair t u) = true
built_by Variant.box (Tree.box t) = true
built_by Variant.any Tree.any = true
built_by Variant.unit Tree.unit = true
built_by Variant.vect (Tree.vect t) = true
built_by Variant.float Tree.float = true
built_by Variant.char Tree.char = true
built_by v t = false

-- What a check of the solver answers.
pub data Answer (Model : Type 0) : Type 0 where
  sat : Model → Answer Model
  unsat unknown : Answer Model

-- The solver: its terms and formulas with the operations that build them, the values in a model,
-- and the check of formulas, hard and soft, with what its documentation says of them. The
-- constants, constructors, testers and accessors are the fields and methods of `Z3State`.
pub record Z3 : Type 1 where
  pub Term : Type 0
  pub Formula : Type 0
  pub Model : Type 0
  pub int_z3 : Term
  pub bool_z3 : Term
  pub str_z3 : Term
  pub any_z3 : Term
  pub unit_z3 : Term
  pub float_z3 : Term
  pub char_z3 : Term
  pub arr_ctor : Term → Term → Term
  pub pair_ctor : Term → Term → Term
  pub list_ctor : Term → Term
  pub box_ctor : Term → Term
  pub vect_ctor : Term → Term
  pub fresh_const : ℕ → Term
  pub tester : Variant → Term → Formula
  pub arr_arg : Term → Term
  pub arr_ret : Term → Term
  pub list_typ : Term → Term
  pub pair1 : Term → Term
  pub pair2 : Term → Term
  pub box_typ : Term → Term
  pub vect_typ : Term → Term
  pub true_z3 : Formula
  pub eq : Term → Term → Formula
  pub and : Formula → Formula → Formula
  pub or : Formula → Formula → Formula
  pub implies : Formula → Formula → Formula
  -- The evaluation of terms and formulas in a model.
  pub value : Model → Term → Tree
  pub holds : Model → Formula → Bool
  -- The check of asserted formulas and of those asserted softly.
  pub check : List Formula → List Formula → Answer Model
  pub value-int : (m : Model) → value m int_z3 ≡ Tree.int
  pub value-bool : (m : Model) → value m bool_z3 ≡ Tree.bool
  pub value-str : (m : Model) → value m str_z3 ≡ Tree.str
  pub value-any : (m : Model) → value m any_z3 ≡ Tree.any
  pub value-unit : (m : Model) → value m unit_z3 ≡ Tree.unit
  pub value-float : (m : Model) → value m float_z3 ≡ Tree.float
  pub value-char : (m : Model) → value m char_z3 ≡ Tree.char
  pub value-arr :
      (m : Model) (a b : Term) → value m (arr_ctor a b) ≡ Tree.arr (value m a) (value m b)
  pub value-pair :
      (m : Model) (a b : Term) → value m (pair_ctor a b) ≡ Tree.pair (value m a) (value m b)
  pub value-list : (m : Model) (a : Term) → value m (list_ctor a) ≡ Tree.list (value m a)
  pub value-box : (m : Model) (a : Term) → value m (box_ctor a) ≡ Tree.box (value m a)
  pub value-vect : (m : Model) (a : Term) → value m (vect_ctor a) ≡ Tree.vect (value m a)
  pub value-arr_arg :
      (m : Model) (a : Term) (t u : Tree) → value m a ≡ Tree.arr t u → value m (arr_arg a) ≡ t
  pub value-arr_ret :
      (m : Model) (a : Term) (t u : Tree) → value m a ≡ Tree.arr t u → value m (arr_ret a) ≡ u
  pub value-pair1 :
      (m : Model) (a : Term) (t u : Tree) → value m a ≡ Tree.pair t u → value m (pair1 a) ≡ t
  pub value-pair2 :
      (m : Model) (a : Term) (t u : Tree) → value m a ≡ Tree.pair t u → value m (pair2 a) ≡ u
  pub value-list_typ :
      (m : Model) (a : Term) (t : Tree) → value m a ≡ Tree.list t → value m (list_typ a) ≡ t
  pub value-box_typ :
      (m : Model) (a : Term) (t : Tree) → value m a ≡ Tree.box t → value m (box_typ a) ≡ t
  pub value-vect_typ :
      (m : Model) (a : Term) (t : Tree) → value m a ≡ Tree.vect t → value m (vect_typ a) ≡ t
  pub holds-tester :
      (m : Model) (v : Variant) (a : Term) → holds m (tester v a) ≡ built_by v (value m a)
  pub holds-true : (m : Model) → holds m true_z3 ≡ true
  pub holds-eq : (m : Model) (a b : Term) → (holds m (eq a b) ≡ true) ↔ (value m a ≡ value m b)
  pub holds-and : (m : Model) (f g : Formula) → holds m (and f g) ≡ (holds m f && holds m g)
  pub holds-or : (m : Model) (f g : Formula) → holds m (or f g) ≡ (holds m f || holds m g)
  pub holds-implies :
      (m : Model) (f g : Formula) → holds m (implies f g) ≡ (not (holds m f) || holds m g)
  -- A model that a check gives satisfies the asserted formulas.
  pub check-sat :
      (asserted soft : List Formula) (m : Model)
      → check asserted soft ≡ sat m
      → All (λ f. holds m f ≡ true) asserted
  -- Assertions that a model satisfies are not unsatisfiable, and the constants take any values.
  pub check-unsat :
      (asserted soft : List Formula) (m : Model)
      → check asserted soft ≡ unsat
      → ¬ All (λ f. holds m f ≡ true) asserted
  pub assign : (f : ℕ → Tree) → (m : Model) × ((n : ℕ) → value m (fresh_const n) ≡ f n)
  -- No assertions have a model.
  pub check-nil : (m : Model) × (check [] [] ≡ sat m)

-- The nesting of constructors in a value.
abbrev pub depth : Tree → ℕ
depth (Tree.arr t u) = suc (depth t + depth u)
depth (Tree.pair t u) = suc (depth t + depth u)
depth (Tree.list t) = suc (depth t)
depth (Tree.box t) = suc (depth t)
depth (Tree.vect t) = suc (depth t)
depth t = 1
