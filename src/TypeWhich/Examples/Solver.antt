-- ===== src/TypeWhich/Examples/Solver.antt =====
-- A solver that tries two assignments of the constants.
use mathlib.Core.Logic.{ite}
use mathlib.Core.Path.{subst}
use plbench.Prelude.{
  ℕ, Bool, true, false, not, ◌&&◌, ◌||◌, ltb, ◌≡◌, ◌≢◌, ◌↔◌, refl, ap, List, [], ◌∷◌, All,
  if◌then◌else◌, arith, Bool-cases, inl, inr,
}
use plbench.TypeWhich.Z3.{Z3, Tree, built_by, Answer, sat, unsat, unknown}

abbrev pub Assignment : Type 0
Assignment = ℕ → Tree

unfoldable pub Tree-discrete : Discrete Tree
Tree-discrete = hlevel

abbrev pub equal : Tree → Tree → Bool
equal x y = ite (Tree-discrete x y) true false

pub equal_iff : (x y : Tree) → (equal x y ≡ true) ↔ (x ≡ y)
equal_iff x y = decided (Tree-discrete x y)
  where
    decided : (d : Dec (x ≡ y)) → (ite d true false ≡ true) ↔ (x ≡ y)
    decided (yes e) = (λ h. e, λ h. refl)
    decided (no ne) = (λ h. absurd (ground arith), λ e. absurd (ne e))

-- The parts of a value, and `any` where the value is built otherwise.
abbrev pub left : Tree → Tree
left (Tree.arr t u) = t
left (Tree.pair t u) = t
left (Tree.list t) = t
left (Tree.box t) = t
left (Tree.vect t) = t
left t = Tree.any

abbrev pub right : Tree → Tree
right (Tree.arr t u) = u
right (Tree.pair t u) = u
right t = Tree.any

-- `int` for the metavariables below 4, and a function on integers for the others.
abbrev pub ints : Assignment
ints n = if ltb n 4 then Tree.int else Tree.arr Tree.int Tree.int

abbrev pub anys : Assignment
anys n = Tree.any

abbrev pub all_hold : Assignment → List (Assignment → Bool) → Bool
all_hold m [] = true
all_hold m (f ∷ fs) = f m && all_hold m fs

abbrev pub attempt : List (Assignment → Bool) → Answer Assignment
attempt fs = if all_hold ints fs then sat ints else if all_hold anys fs then sat anys else unknown

sat-injective : (m n : Assignment) → Answer.sat m ≡ sat n → m ≡ n
sat-injective m n h = ap unsat_or h
  where
    unsat_or : Answer Assignment → Assignment
    unsat_or (sat m) = m
    unsat_or _ = anys

none_sat : {A : Type 0} (m : Assignment) → ◌≡◌ {A = Answer Assignment} unknown (sat m) → A
none_sat m h = cc

all_hold-All :
    (m : Assignment) (fs : List (Assignment → Bool))
    → all_hold m fs ≡ true
    → All (λ f. f m ≡ true) fs
all_hold-All m [] h = tt
all_hold-All m (f ∷ fs) h = (ground arith, all_hold-All m fs (ground arith))

pub attempt-sat :
    (fs : List (Assignment → Bool)) (m : Assignment) → attempt fs ≡ sat m → All (λ f. f m ≡ true) fs
attempt-sat fs m h = elim (Bool-cases (all_hold ints fs)) [
  | inl e ↦
      subst (λ m. All (λ f. f m ≡ true) fs) (sat-injective ints m (rw e at h))
        (all_hold-All ints fs e)
  | inr e ↦ elim (Bool-cases (all_hold anys fs)) [
    | inl e' ↦
        subst (λ m. All (λ f. f m ≡ true) fs) (sat-injective anys m (rw (e, e') at h))
          (all_hold-All anys fs e')
    | inr e' ↦ none_sat m (rw (e, e') at h)
  ]
]

pub attempt-ne-unsat : (fs : List (Assignment → Bool)) → attempt fs ≢ unsat
attempt-ne-unsat fs h = ground arith

instance abbrev pub small : Z3
small = record {
  Term = Assignment → Tree;
  Formula = Assignment → Bool;
  Model = Assignment;
  int_z3 = λ m. Tree.int;
  bool_z3 = λ m. Tree.bool;
  str_z3 = λ m. Tree.str;
  any_z3 = λ m. Tree.any;
  unit_z3 = λ m. Tree.unit;
  float_z3 = λ m. Tree.float;
  char_z3 = λ m. Tree.char;
  arr_ctor = λ a b m. Tree.arr (a m) (b m);
  pair_ctor = λ a b m. Tree.pair (a m) (b m);
  list_ctor = λ a m. Tree.list (a m);
  box_ctor = λ a m. Tree.box (a m);
  vect_ctor = λ a m. Tree.vect (a m);
  fresh_const = λ n m. m n;
  tester = λ v a m. built_by v (a m);
  arr_arg = λ a m. left (a m);
  arr_ret = λ a m. right (a m);
  list_typ = λ a m. left (a m);
  pair1 = λ a m. left (a m);
  pair2 = λ a m. right (a m);
  box_typ = λ a m. left (a m);
  vect_typ = λ a m. left (a m);
  true_z3 = λ m. true;
  eq = λ a b m. equal (a m) (b m);
  and = λ f g m. f m && g m;
  or = λ f g m. f m || g m;
  implies = λ f g m. not (f m) || g m;
  value = λ m a. a m;
  holds = λ m f. f m;
  check = λ fs soft. attempt fs;
  value-int = λ m. refl;
  value-bool = λ m. refl;
  value-str = λ m. refl;
  value-any = λ m. refl;
  value-unit = λ m. refl;
  value-float = λ m. refl;
  value-char = λ m. refl;
  value-arr = λ m a b. refl;
  value-pair = λ m a b. refl;
  value-list = λ m a. refl;
  value-box = λ m a. refl;
  value-vect = λ m a. refl;
  value-arr_arg = λ m a t u p. ap left p;
  value-arr_ret = λ m a t u p. ap right p;
  value-pair1 = λ m a t u p. ap left p;
  value-pair2 = λ m a t u p. ap right p;
  value-list_typ = λ m a t p. ap left p;
  value-box_typ = λ m a t p. ap left p;
  value-vect_typ = λ m a t p. ap left p;
  holds-tester = λ m v a. refl;
  holds-true = λ m. refl;
  holds-eq = λ m a b. equal_iff (a m) (b m);
  holds-and = λ m f g. refl;
  holds-or = λ m f g. refl;
  holds-implies = λ m f g. refl;
  check-sat = λ fs soft m. attempt-sat fs m;
  check-unsat = λ fs soft m h. absurd (attempt-ne-unsat fs h);
  assign = λ f. (f, λ n. refl);
  check-nil = (ints, refl);
}
