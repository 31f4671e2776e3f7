-- ===== src/TypeWhich/Migration/Always.antt =====
-- cgen.rs: the constraints where every metavariable is `any`.
use mathlib.Core.Path.{subst}
use plbench.Prelude.{
  ℕ, Bool, true, false, not, ◌||◌, ◌≡◌, inl, inr, refl, sym, ap, ◌∙◌, arith, Option, some,
  Bool-cases,
}
use plbench.TypeWhich.Syntax.{Typ, Exp}
use plbench.TypeWhich.Fresh.{inc_metavar}
use plbench.TypeWhich.Z3.{Z3, Tree, Variant, built_by}
use plbench.TypeWhich.Migration.{
  Options, State, Gen, pass, ◌>>=◌, ◌&◌, ◌or◌, fresh, constant, t2z3, same, is_any, only, ground_z3,
  prefer, coerce, strengthen, weaken,
}

-- The value of a type where every metavariable is `any`.
abbrev pub tree : Typ → Tree
tree Typ.unit = Tree.unit
tree Typ.int = Tree.int
tree Typ.float = Tree.float
tree Typ.bool = Tree.bool
tree Typ.str = Tree.str
tree Typ.char = Tree.char
tree Typ.any = Tree.any
tree (Typ.metavar n) = Tree.any
tree (Typ.arr t u) = Tree.arr (tree t) (tree u)
tree (Typ.pair t u) = Tree.pair (tree t) (tree u)
tree (Typ.list t) = Tree.list (tree t)
tree (Typ.box t) = Tree.box (tree t)
tree (Typ.vect t) = Tree.vect (tree t)

-- The type is `any` or a metavariable.
abbrev pub IsDynamic : Typ → Type 0
IsDynamic t = tree t ≡ Tree.any

-- A value whose parts are all `any`.
abbrev pub HasAny : Tree → Type 0
HasAny (Tree.arr t u) = (t ≡ Tree.any) × (u ≡ Tree.any)
HasAny (Tree.pair t u) = (t ≡ Tree.any) × (u ≡ Tree.any)
HasAny (Tree.list t) = t ≡ Tree.any
HasAny (Tree.box t) = t ≡ Tree.any
HasAny (Tree.vect t) = t ≡ Tree.any
HasAny t = Unit

pub HasAny-any : {t : Tree} → t ≡ Tree.any → HasAny t
HasAny-any e = subst (λ t. HasAny t) (sym e) tt

module _ ⦃z : Z3⦄ (model : z.Model)
    (all_any : (n : ℕ) → z.value model (z.fresh_const n) ≡ Tree.any) where
  open z use {Term, Formula, value}

  abbrev pub IsTrue : Formula → Type 0
  IsTrue f = z.holds model f ≡ true

  pub IsTrue-and : {f g : Formula} → IsTrue f → IsTrue g → IsTrue (f & g)
  IsTrue-and {f} {g} h k = z.holds-and model f g ∙ rw (h, k) refl

  pub IsTrue-or_left : {f g : Formula} → IsTrue f → IsTrue (f or g)
  IsTrue-or_left {f} {g} h = z.holds-or model f g ∙ rw h refl

  pub IsTrue-or_right : {f g : Formula} → IsTrue g → IsTrue (f or g)
  IsTrue-or_right {f} {g} h = ground (arith, z.holds-or model f g)

  -- The run succeeds with a result of which `P` holds.
  pub data Runs {A : Type 0} (P : A → Type 0) (o : Option (A × State Formula)) : Type 0 where
    runs : (a : A) (st : State Formula) → o ≡ some (a, st) → P a → Runs P o

  abbrev pub Always : {A : Type 0} → (A → Type 0) → Gen A → Type 0
  Always P m = (st : State Formula) → Runs P (m st)

  pub Always-pass : {A : Type 0} {P : A → Type 0} {a : A} → P a → Always P (pass a)
  Always-pass {a} p st = runs a st refl p

  pub Always-bind :
      {A B : Type 0} {P : A → Type 0} {Q : B → Type 0} {m : Gen A} {next : A → Gen B}
      → Always P m
      → ((a : A) → P a → Always Q (next a))
      → Always Q (m >>= next)
  Always-bind h k st = elim (h st) [
    | runs a st' e p ↦ elim (k a p st') [ runs b st'' e' q ↦ runs b st'' (rw e e') q ]
  ]

  pub Always-imp :
      {A : Type 0} {P Q : A → Type 0} {m : Gen A} → ((a : A) → P a → Q a) → Always P m → Always Q m
  Always-imp k h st = elim (h st) [ runs a st' e p ↦ runs a st' e (k a p) ]

  pub fresh-Always : Always (λ t. IsDynamic t) fresh
  unfolding fresh inc_metavar
  fresh-Always st = runs _ _ refl refl

  constant-Always : (n : ℕ) → Always (λ a. value model a ≡ Tree.any) (constant n)
  unfolding constant
  constant-Always n st = runs _ _ refl (all_any n)

  pub t2z3-Always : (t : Typ) → Always (λ a. value model a ≡ tree t) (t2z3 t)
  unfolding t2z3
  t2z3-Always Typ.unit = Always-pass (z.value-unit model)
  t2z3-Always Typ.int = Always-pass (z.value-int model)
  t2z3-Always Typ.float = Always-pass (z.value-float model)
  t2z3-Always Typ.bool = Always-pass (z.value-bool model)
  t2z3-Always Typ.str = Always-pass (z.value-str model)
  t2z3-Always Typ.char = Always-pass (z.value-char model)
  t2z3-Always Typ.any = Always-pass (z.value-any model)
  t2z3-Always (Typ.arr t u) = Always-bind (t2z3-Always t) λ a p.
      Always-bind (t2z3-Always u)
        λ b q. Always-pass (z.value-arr model a b ∙ (λ i. Tree.arr (p i) (q i)))
  t2z3-Always (Typ.pair t u) = Always-bind (t2z3-Always t) λ a p.
      Always-bind (t2z3-Always u)
        λ b q. Always-pass (z.value-pair model a b ∙ (λ i. Tree.pair (p i) (q i)))
  t2z3-Always (Typ.list t) =
      Always-bind (t2z3-Always t) λ a p. Always-pass (z.value-list model a ∙ ap Tree.list p)
  t2z3-Always (Typ.box t) =
      Always-bind (t2z3-Always t) λ a p. Always-pass (z.value-box model a ∙ ap Tree.box p)
  t2z3-Always (Typ.vect t) =
      Always-bind (t2z3-Always t) λ a p. Always-pass (z.value-vect model a ∙ ap Tree.vect p)
  t2z3-Always (Typ.metavar n) = constant-Always n

  pub same-Always : (t u : Typ) → Always (λ f. tree t ≡ tree u → IsTrue f) (same t u)
  unfolding same
  same-Always t u = Always-bind (t2z3-Always t) λ a p.
      Always-bind (t2z3-Always u) λ b q. Always-pass (λ e. (z.holds-eq model a b).1 (p ∙ e ∙ sym q))

  pub is_any-Always : (t : Typ) → Always (λ f. IsDynamic t → IsTrue f) (is_any t)
  unfolding is_any
  is_any-Always t =
      Always-bind (t2z3-Always t)
        λ a p. Always-pass (λ e. (z.holds-eq model a z.any_z3).1 (p ∙ e ∙ sym (z.value-any model)))

  only-Always :
      (v : Variant) (u t : Typ)
      → Always (λ f. (built_by v (tree t) ≡ true → tree t ≡ tree u) → IsTrue f) (only v u t)
  unfolding only
  only-Always v u t = Always-bind (t2z3-Always t) λ a p. Always-bind (same-Always t u) λ f q.
      Always-pass (λ h.
        z.holds-implies model (z.tester v a) f
        ∙ implied (z.holds model (z.tester v a)) (z.holds model f)
            (λ e. q (h (ap (built_by v) (sym p) ∙ sym (z.holds-tester model v a) ∙ e))))
    where
      implied : (a b : Bool) → (a ≡ true → b ≡ true) → (not a || b) ≡ true
      implied true b h = h refl
      implied false b h = refl

  pub ground_z3-Always : (t : Typ) → Always (λ f. HasAny (tree t) → IsTrue f) (ground_z3 t)
  unfolding ground_z3
  ground_z3-Always t = Always-bind (only-Always Variant.arr (Typ.arr Typ.any Typ.any) t) λ a ha.
      Always-bind (only-Always Variant.list (Typ.list Typ.any) t) λ l hl.
        Always-bind (only-Always Variant.pair (Typ.pair Typ.any Typ.any) t) λ p hp.
          Always-bind (only-Always Variant.box (Typ.box Typ.any) t) λ b hb.
            Always-bind (only-Always Variant.vect (Typ.vect Typ.any) t) λ v hv. Always-pass (λ g.
              IsTrue-and
                (IsTrue-and
                  (IsTrue-and (IsTrue-and (ha (as_arr (tree t) g)) (hl (as_list (tree t) g)))
                    (hp (as_pair (tree t) g)))
                  (hb (as_box (tree t) g)))
                (hv (as_vect (tree t) g)))
    where
      as_arr :
          (x : Tree) → HasAny x → built_by Variant.arr x ≡ true → x ≡ Tree.arr Tree.any Tree.any
      as_arr (Tree.arr t u) g h = λ i. Tree.arr (g.0 i) (g.1 i)
      as_arr _ g h = absurd (ground arith)

      as_list : (x : Tree) → HasAny x → built_by Variant.list x ≡ true → x ≡ Tree.list Tree.any
      as_list (Tree.list t) g h = ap Tree.list g
      as_list _ g h = absurd (ground arith)

      as_pair :
          (x : Tree) → HasAny x → built_by Variant.pair x ≡ true → x ≡ Tree.pair Tree.any Tree.any
      as_pair (Tree.pair t u) g h = λ i. Tree.pair (g.0 i) (g.1 i)
      as_pair _ g h = absurd (ground arith)

      as_box : (x : Tree) → HasAny x → built_by Variant.box x ≡ true → x ≡ Tree.box Tree.any
      as_box (Tree.box t) g h = ap Tree.box g
      as_box _ g h = absurd (ground arith)

      as_vect : (x : Tree) → HasAny x → built_by Variant.vect x ≡ true → x ≡ Tree.vect Tree.any
      as_vect (Tree.vect t) g h = ap Tree.vect g
      as_vect _ g h = absurd (ground arith)

  module _ (options : Options) where
    prefer-Always : (t u : Typ) → Always (λ r. Unit) (prefer options t u)
    unfolding prefer
    prefer-Always t u = elim (Bool-cases options.optimizer) [
      | inl on ↦ rw on (Always-bind (same-Always t u) λ f h. λ st. runs tt _ refl tt)
      | inr off ↦ rw off (Always-pass tt)
    ]

    coerce-Always : (t u : Typ) (e : Exp) → Always (λ r. Unit) (coerce options t u e)
    unfolding coerce
    coerce-Always t u e = Always-bind (prefer-Always t u) λ r h. Always-pass tt

    pub strengthen-Always :
        (t u : Typ) (e : Exp)
        → Always (λ r. IsDynamic t → HasAny (tree u) → IsTrue r.1) (strengthen options t u e)
    unfolding strengthen
    strengthen-Always t u e = Always-bind (is_any-Always t) λ a ha.
        Always-bind (ground_z3-Always u) λ g hg. Always-bind (same-Always t u) λ f hf.
          Always-bind (coerce-Always t u e)
            λ e' h. Always-pass (λ d k. IsTrue-or_left (IsTrue-and (ha d) (hg k)))

    pub weaken-Always :
        (t : Typ) (e : Exp) (phi : Formula)
        → Always
            (λ r. IsDynamic r.1 × (HasAny (tree t) → IsTrue phi → IsTrue r.2))
            (weaken options t e phi)
    unfolding weaken
    weaken-Always t e phi = Always-bind fresh-Always λ alpha d.
        Always-bind (is_any-Always alpha) λ a ha. Always-bind (ground_z3-Always t) λ g hg.
          Always-bind (same-Always t alpha) λ f hf.
            Always-bind (coerce-Always t alpha e) λ e' h.
              Always-pass (d, λ k p. IsTrue-and p (IsTrue-or_left (IsTrue-and (ha d) (hg k))))
