-- ===== src/TypeWhich/Migration/Read.antt =====
-- z3_state.rs, `z3_to_typ`, and cgen.rs, `negative_any` and `solve_model`: what they read in a model.
use mathlib.Core.Path.{fun_ext}
use plbench.Prelude.{
  ℕ, zero, suc, ◌≤◌, Bool, ◌==◌, ==_iff, ==_refl, ◌⊎◌, inl, inr, true, false, ◌≡◌, refl, ap, ◌∙◌,
  arith, List, [], ◌∷◌, some, Bool-cases, if◌then◌else◌,
}
use plbench.Prelude.Assoc.{lookup, insert, lookup-insert}
use plbench.TypeWhich.Syntax.{Typ}
use plbench.TypeWhich.Z3.{Z3, Tree, Variant, built_by, depth}
use plbench.TypeWhich.Migration.Annotate.{Solution}
use plbench.TypeWhich.Migration.Solve.{
  both, mapped, is_variant, typ_by, formula_by, z3_to_typ_fuel, z3_to_typ, negative_any_fuel,
  negative_any, solve_model,
}
use plbench.TypeWhich.Migration.Post.{typ_of, Agrees}

depth-pos : (x : Tree) → 1 ≤ depth x
depth-pos Tree.int = omega arith
depth-pos _ = omega arith

module _ ⦃z : Z3⦄ (model : z.Model) where
  open z use {Term, Formula, value}

  tests :
      (e : Term) (x : Tree)
      → value model e ≡ x
      → ◌≡◌ {A = Variant → Bool} (λ v. is_variant v model e) (λ v. built_by v x)
  unfolding is_variant
  tests e x p = fun_ext (λ v. z.holds-tester model v e ∙ ap (built_by v) p)

  z3_to_typ_fuel_cases :
      (fuel : ℕ) (e : Term) (x : Tree)
      → value model e ≡ x
      → z3_to_typ_fuel (suc fuel) model e
        ≡ typ_by
            (λ v. built_by v x)
            (both Typ.arr
              (z3_to_typ_fuel fuel model (z.arr_arg e))
              (z3_to_typ_fuel fuel model (z.arr_ret e)))
            (mapped Typ.list (z3_to_typ_fuel fuel model (z.list_typ e)))
            (both Typ.pair
              (z3_to_typ_fuel fuel model (z.pair1 e))
              (z3_to_typ_fuel fuel model (z.pair2 e)))
            (mapped Typ.box (z3_to_typ_fuel fuel model (z.box_typ e)))
            (mapped Typ.vect (z3_to_typ_fuel fuel model (z.vect_typ e)))
  unfolding z3_to_typ_fuel
  z3_to_typ_fuel_cases fuel e x p =
      ap
        (λ (is : Variant → Bool).
          typ_by is
            (both Typ.arr (z3_to_typ_fuel fuel model (z.arr_arg e))
              (z3_to_typ_fuel fuel model (z.arr_ret e)))
            (mapped Typ.list (z3_to_typ_fuel fuel model (z.list_typ e)))
            (both Typ.pair (z3_to_typ_fuel fuel model (z.pair1 e))
              (z3_to_typ_fuel fuel model (z.pair2 e)))
            (mapped Typ.box (z3_to_typ_fuel fuel model (z.box_typ e)))
            (mapped Typ.vect (z3_to_typ_fuel fuel model (z.vect_typ e))))
        (tests e x p)

  z3_to_typ_fuel_lem :
      (fuel : ℕ) (e : Term) (x : Tree)
      → value model e ≡ x
      → depth x ≤ fuel
      → z3_to_typ_fuel fuel model e ≡ some (typ_of x)
  unfolding z3_to_typ_fuel typ_by
  z3_to_typ_fuel_lem zero e x p d = absurd (omega (arith, depth-pos x))
  z3_to_typ_fuel_lem (suc fuel) e (Tree.arr t u) p d =
      z3_to_typ_fuel_cases fuel e (Tree.arr t u) p
      ∙ rw
          (
            z3_to_typ_fuel_lem fuel (z.arr_arg e) t (z.value-arr_arg model e t u p)
                (omega (arith, depth-pos u)),
            z3_to_typ_fuel_lem fuel (z.arr_ret e) u (z.value-arr_ret model e t u p)
                (omega (arith, depth-pos t)),
          )
          refl
  z3_to_typ_fuel_lem (suc fuel) e (Tree.pair t u) p d =
      z3_to_typ_fuel_cases fuel e (Tree.pair t u) p
      ∙ rw
          (
            z3_to_typ_fuel_lem fuel (z.pair1 e) t (z.value-pair1 model e t u p)
                (omega (arith, depth-pos u)),
            z3_to_typ_fuel_lem fuel (z.pair2 e) u (z.value-pair2 model e t u p)
                (omega (arith, depth-pos t)),
          )
          refl
  z3_to_typ_fuel_lem (suc fuel) e (Tree.list t) p d =
      z3_to_typ_fuel_cases fuel e (Tree.list t) p
      ∙ rw (z3_to_typ_fuel_lem fuel (z.list_typ e) t (z.value-list_typ model e t p) (omega arith))
          refl
  z3_to_typ_fuel_lem (suc fuel) e (Tree.box t) p d =
      z3_to_typ_fuel_cases fuel e (Tree.box t) p
      ∙ rw (z3_to_typ_fuel_lem fuel (z.box_typ e) t (z.value-box_typ model e t p) (omega arith))
          refl
  z3_to_typ_fuel_lem (suc fuel) e (Tree.vect t) p d =
      z3_to_typ_fuel_cases fuel e (Tree.vect t) p
      ∙ rw (z3_to_typ_fuel_lem fuel (z.vect_typ e) t (z.value-vect_typ model e t p) (omega arith))
          refl
  z3_to_typ_fuel_lem (suc fuel) e x p d = z3_to_typ_fuel_cases fuel e x p

  pub z3_to_typ_lem : (e : Term) → z3_to_typ model e ≡ some (typ_of (value model e))
  unfolding z3_to_typ
  z3_to_typ_lem e = z3_to_typ_fuel_lem (depth (value model e)) e (value model e) refl (omega arith)

  negative_any_fuel_cases :
      (fuel : ℕ) (e : Term) (x : Tree)
      → value model e ≡ x
      → negative_any_fuel (suc fuel) model e
        ≡ formula_by
            (λ v. built_by v x)
            z.true_z3
            (mapped
              (z.and (z.eq (z.arr_arg e) z.any_z3))
              (negative_any_fuel fuel model (z.arr_ret e)))
            (negative_any_fuel fuel model (z.list_typ e))
            (both z.and
              (negative_any_fuel fuel model (z.pair1 e))
              (negative_any_fuel fuel model (z.pair2 e)))
            (z.eq (z.box_typ e) z.any_z3)
            (z.eq (z.vect_typ e) z.any_z3)
  unfolding negative_any_fuel
  negative_any_fuel_cases fuel e x p =
      ap
        (λ (is : Variant → Bool).
          formula_by is z.true_z3
            (mapped (z.and (z.eq (z.arr_arg e) z.any_z3))
              (negative_any_fuel fuel model (z.arr_ret e)))
            (negative_any_fuel fuel model (z.list_typ e))
            (both z.and (negative_any_fuel fuel model (z.pair1 e))
              (negative_any_fuel fuel model (z.pair2 e)))
            (z.eq (z.box_typ e) z.any_z3) (z.eq (z.vect_typ e) z.any_z3))
        (tests e x p)

  negative_any_fuel_total :
      (fuel : ℕ) (e : Term) (x : Tree)
      → value model e ≡ x
      → depth x ≤ fuel
      → (f : Formula) × (negative_any_fuel fuel model e ≡ some f)
  unfolding negative_any_fuel formula_by
  negative_any_fuel_total zero e x p d = absurd (omega (arith, depth-pos x))
  negative_any_fuel_total (suc fuel) e (Tree.arr t u) p d =
      let (f, h) =
        negative_any_fuel_total fuel (z.arr_ret e) u (z.value-arr_ret model e t u p)
          (omega (arith, depth-pos t)) in
      (
        z.and (z.eq (z.arr_arg e) z.any_z3) f,
        negative_any_fuel_cases fuel e (Tree.arr t u) p ∙ rw (h) refl,
      )
  negative_any_fuel_total (suc fuel) e (Tree.pair t u) p d =
      let (f, h) =
        negative_any_fuel_total fuel (z.pair1 e) t (z.value-pair1 model e t u p)
          (omega (arith, depth-pos u)) in
      let (g, k) =
        negative_any_fuel_total fuel (z.pair2 e) u (z.value-pair2 model e t u p)
          (omega (arith, depth-pos t)) in
      (z.and f g, negative_any_fuel_cases fuel e (Tree.pair t u) p ∙ rw (h, k) refl)
  negative_any_fuel_total (suc fuel) e (Tree.list t) p d =
      let (f, h) =
        negative_any_fuel_total fuel (z.list_typ e) t (z.value-list_typ model e t p)
          (omega arith) in
      (f, negative_any_fuel_cases fuel e (Tree.list t) p ∙ rw (h) refl)
  negative_any_fuel_total (suc fuel) e x p d = (_, negative_any_fuel_cases fuel e x p)

  pub negative_any_total : (e : Term) → (f : Formula) × (negative_any model e ≡ some f)
  unfolding negative_any
  negative_any_total e =
      negative_any_fuel_total (depth (value model e)) e (value model e) refl (omega arith)

  Agrees-insert :
      (s : Solution) (x : ℕ) (xs : List ℕ)
      → Agrees model s xs
      → Agrees model (insert x (typ_of (value model (z.fresh_const x))) s) xs
  Agrees-insert s x [] h = tt
  Agrees-insert s x (n ∷ ns) (h, hs) = (
    lookup-insert x n (typ_of (value model (z.fresh_const x))) s ∙ at_n (Bool-cases (x == n)),
    Agrees-insert s x ns hs,
  )
    where
      at_n :
          ((x == n) ≡ true) ⊎ ((x == n) ≡ false)
          → (if x == n then some (typ_of (value model (z.fresh_const x))) else lookup n s)
            ≡ some (typ_of (value model (z.fresh_const n)))
      at_n (inl e) = rw e (rw ((==_iff x n).0 e) refl)
      at_n (inr e) = rw e h

  -- The solution has the type of every metavariable with a constant.
  pub solve_model-Agrees :
      (vars : List ℕ) → (s : Solution) × (solve_model model vars ≡ some s) × Agrees model s vars
  unfolding solve_model
  solve_model-Agrees [] = ([], refl, tt)
  solve_model-Agrees (x ∷ xs) =
      let (s, e, h) = solve_model-Agrees xs in
      (
        insert x (typ_of (value model (z.fresh_const x))) s,
        rw (z3_to_typ_lem (z.fresh_const x), e) refl,
        (
          lookup-insert x x (typ_of (value model (z.fresh_const x))) s ∙ rw (==_refl x) refl,
          Agrees-insert s x xs h,
        ),
      )
