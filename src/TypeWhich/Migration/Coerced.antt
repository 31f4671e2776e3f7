-- ===== src/TypeWhich/Migration/Coerced.antt =====
-- cgen.rs, `State::strengthen` and `State::weaken`: the types before and after a coercion.
use plbench.Prelude.{◌≡◌, ◌⊎◌, inl, inr, Bool-cases}
use plbench.TypeWhich.Syntax.{Typ, Exp}
use plbench.TypeWhich.TypeCheck.{Env}
use plbench.TypeWhich.Z3.{Z3}
use plbench.TypeWhich.Migration.{Options, Gen, ◌&◌, ◌or◌, prefer, coerce, strengthen, weaken}
use plbench.TypeWhich.Migration.Annotate.{Solution, annotate_typ, annotate}
use plbench.TypeWhich.Migration.Plain.{IsReasonable}
use plbench.TypeWhich.Migration.Post.{
  Holds, Holds-and, Holds-or, Post, Post-pass, Post-bind, Post-imp, fresh-Post, assert_soft-Post,
  same-Post, is_any-Post, ground_z3-Post,
}
use plbench.TypeWhich.Migration.Fits.{Fits, Fits-coerce}

module _ ⦃z : Z3⦄ (model : z.Model) (s : Solution) (options : Options) where
  open z use {Term, Formula}

  abbrev After : {A : Type 0} → (A → Type 0) → Gen A → Type 0
  After P m = Post model s P m

  abbrev pub Of : Env → Exp → Typ → Type 0
  Of env e t = Fits env (annotate s e) (annotate_typ s t)

  abbrev both : (f g : Formula) → Holds model s (f & g) → Holds model s f × Holds model s g
  both = Holds-and model s

  -- An expression with a type is taken to one with another.
  abbrev pub Moves : Exp → Typ → Exp → Typ → Type 0
  Moves e t e' t' = (env : Env) → Of env e t → Of env e' t'

  prefer-Post : (t u : Typ) → After (λ r. Unit) (prefer options t u)
  unfolding prefer
  prefer-Post t u = elim (Bool-cases options.optimizer) [
    | inl on ↦ rw on (
        Post-bind model s (same-Post model s t u)
          λ f. Post-imp model s (λ r u p. tt) (assert_soft-Post model s f))
    | inr off ↦ rw off (Post-pass model s tt)
  ]

  coerce-Post :
      (t u : Typ) (e : Exp)
      → After
          (λ e'.
            (annotate_typ s t ≡ annotate_typ s u)
              ⊎ IsReasonable (annotate_typ s t) (annotate_typ s u)
            → Moves e t e' u)
          (coerce options t u e)
  unfolding coerce
  coerce-Post t u e =
      Post-bind model s (prefer-Post t u)
        λ r. Post-pass model s (λ p h env f. Fits-coerce s t u e h f)

  pub strengthen-Post :
      (t u : Typ) (e : Exp)
      → After (λ r. Holds model s r.1 → Moves e t r.0 u) (strengthen options t u e)
  unfolding strengthen
  strengthen-Post t u e = Post-bind model s (is_any-Post model s t) λ a.
      Post-bind model s (ground_z3-Post model s u) λ g.
        Post-bind model s (same-Post model s t u) λ f. Post-bind model s (coerce-Post t u e) λ e'.
          Post-pass model s (λ move pf pg pa h. move (elim (Holds-or model s (a & g) f h) [
            | inl k ↦ let (ka, kg) = both a g k in inr (inl (pa ka, pg kg))
            | inr k ↦ inl (pf k)
          ]))

  pub weaken-Post :
      (t : Typ) (e : Exp) (phi : Formula)
      → After
          (λ r. Holds model s r.2 → Holds model s phi × Moves e t r.0 r.1)
          (weaken options t e phi)
  unfolding weaken
  weaken-Post t e phi = Post-bind model s (fresh-Post model s) λ alpha.
      Post-bind model s (is_any-Post model s alpha) λ a.
        Post-bind model s (ground_z3-Post model s t) λ g.
          Post-bind model s (same-Post model s t alpha) λ f.
            Post-bind model s (coerce-Post t alpha e) λ e'. Post-pass model s (λ move pf pg pa p h.
              let (kphi, k) = both phi (a & g or f) h in
              (
                kphi,
                move (elim (Holds-or model s (a & g) f k) [
                  | inl k ↦ let (ka, kg) = both a g k in inr (inr (pa ka, pg kg))
                  | inr k ↦ inl (pf k)
                ]),
              ))
