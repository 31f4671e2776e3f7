-- ===== src/TypeWhich/Migration/Post.antt =====
-- cgen.rs: what the constraints say of the types in a model.
use mathlib.Core.Path.{subst}
use plbench.Prelude.{
  ℕ, Bool, true, false, ◌&&◌, ◌||◌, ◌≡◌, ◌⊎◌, inl, inr, refl, sym, ap, ◌∙◌, arith, List, [], ◌∷◌,
  All, Option, some, ◌==◌, Bool-cases, ==_iff,
}
use plbench.Prelude.Assoc.{lookup}
use plbench.TypeWhich.Syntax.{Typ}
use plbench.TypeWhich.Z3.{Z3, Tree, Variant, built_by}
use plbench.TypeWhich.Migration.{
  State, Gen, pass, ◌>>=◌, ◌&◌, ◌or◌, fresh, assert_soft, contains, constant, t2z3, same, is_any,
  only, ground_z3,
}
use plbench.TypeWhich.Migration.Annotate.{Solution, annotate_typ}
use plbench.TypeWhich.Migration.Plain.{IsGround}

-- The type that a value of the solver stands for.
abbrev pub typ_of : Tree → Typ
typ_of Tree.int = Typ.int
typ_of Tree.bool = Typ.bool
typ_of Tree.str = Typ.str
typ_of Tree.any = Typ.any
typ_of Tree.unit = Typ.unit
typ_of Tree.float = Typ.float
typ_of Tree.char = Typ.char
typ_of (Tree.arr t u) = Typ.arr (typ_of t) (typ_of u)
typ_of (Tree.pair t u) = Typ.pair (typ_of t) (typ_of u)
typ_of (Tree.list t) = Typ.list (typ_of t)
typ_of (Tree.box t) = Typ.box (typ_of t)
typ_of (Tree.vect t) = Typ.vect (typ_of t)

-- The outer constructor of a type.
abbrev pub made_by : Variant → Typ → Bool
made_by Variant.int Typ.int = true
made_by Variant.bool Typ.bool = true
made_by Variant.str Typ.str = true
made_by Variant.any Typ.any = true
made_by Variant.unit Typ.unit = true
made_by Variant.float Typ.float = true
made_by Variant.char Typ.char = true
made_by Variant.arr (Typ.arr t u) = true
made_by Variant.pair (Typ.pair t u) = true
made_by Variant.list (Typ.list t) = true
made_by Variant.box (Typ.box t) = true
made_by Variant.vect (Typ.vect t) = true
made_by v t = false

made_by-typ_of : (v : Variant) (x : Tree) → made_by v (typ_of x) ≡ built_by v x
made_by-typ_of Variant.int Tree.int = refl
made_by-typ_of Variant.bool Tree.bool = refl
made_by-typ_of Variant.str Tree.str = refl
made_by-typ_of Variant.any Tree.any = refl
made_by-typ_of Variant.unit Tree.unit = refl
made_by-typ_of Variant.float Tree.float = refl
made_by-typ_of Variant.char Tree.char = refl
made_by-typ_of Variant.arr (Tree.arr t u) = refl
made_by-typ_of Variant.pair (Tree.pair t u) = refl
made_by-typ_of Variant.list (Tree.list t) = refl
made_by-typ_of Variant.box (Tree.box t) = refl
made_by-typ_of Variant.vect (Tree.vect t) = refl
made_by-typ_of _ _ = refl

-- The parts of a ground type.
typ_of-IsGround :
    (x : Tree)
    → (made_by Variant.arr (typ_of x) ≡ true → typ_of x ≡ Typ.arr Typ.any Typ.any)
    → (made_by Variant.list (typ_of x) ≡ true → typ_of x ≡ Typ.list Typ.any)
    → (made_by Variant.pair (typ_of x) ≡ true → typ_of x ≡ Typ.pair Typ.any Typ.any)
    → (made_by Variant.box (typ_of x) ≡ true → typ_of x ≡ Typ.box Typ.any)
    → (made_by Variant.vect (typ_of x) ≡ true → typ_of x ≡ Typ.vect Typ.any)
    → IsGround (typ_of x)
typ_of-IsGround (Tree.arr t u) a l p b v = let e = a refl in (cc, cc)
typ_of-IsGround (Tree.pair t u) a l p b v = let e = p refl in (cc, cc)
typ_of-IsGround (Tree.list t) a l p b v = let e = l refl in cc
typ_of-IsGround (Tree.box t) a l p b v = let e = b refl in cc
typ_of-IsGround (Tree.vect t) a l p b v = let e = v refl in cc
typ_of-IsGround _ a l p b v = tt

module _ ⦃z : Z3⦄ (model : z.Model) (env : Solution) where
  open z use {Term, Formula, value}

  abbrev pub Holds : Formula → Type 0
  Holds f = z.holds model f ≡ true

  pub Holds-and : (f g : Formula) → Holds (f & g) → Holds f × Holds g
  Holds-and f g h = both (z.holds model f) (z.holds model g) (sym (z.holds-and model f g) ∙ h)
    where
      both : (a b : Bool) → (a && b) ≡ true → (a ≡ true) × (b ≡ true)
      both a b h = (ground arith, ground arith)

  pub Holds-or : (f g : Formula) → Holds (f or g) → Holds f ⊎ Holds g
  Holds-or f g h = one_of (z.holds model f) (z.holds model g) (sym (z.holds-or model f g) ∙ h)
    where
      one_of : (a b : Bool) → (a || b) ≡ true → (a ≡ true) ⊎ (b ≡ true)
      one_of true b h = inl refl
      one_of false b h = inr h

  -- The solution has, for each metavariable, the type of its constant in the model.
  abbrev pub Agrees : List ℕ → Type 0
  Agrees vars = All (λ n. lookup n env ≡ some (typ_of (value model (z.fresh_const n)))) vars

  abbrev pub ann : Typ → Typ
  ann t = annotate_typ env t

  -- The run succeeds; if the solution agrees with the metavariables at its end, it does with those
  -- at its beginning, and `P` holds of the result.
  pub data Done {A : Type 0} (P : A → Type 0) (vars : List ℕ) (o : Option (A × State Formula))
      : Type 0 where
    done :
        (a : A) (st : State Formula)
        → o ≡ some (a, st)
        → (Agrees st.vars → Agrees vars)
        → (Agrees st.vars → P a)
        → Done P vars o

  abbrev pub Post : {A : Type 0} → (A → Type 0) → Gen A → Type 0
  Post P m = (st : State Formula) → Done P st.vars (m st)

  pub Post-pass : {A : Type 0} {P : A → Type 0} {a : A} → P a → Post P (pass a)
  Post-pass {a} p st = done a st refl (λ g. g) (λ g. p)

  pub Post-bind :
      {A B : Type 0} {P : A → Type 0} {Q : B → Type 0} {m : Gen A} {next : A → Gen B}
      → Post P m
      → ((a : A) → Post (λ b. P a → Q b) (next a))
      → Post Q (m >>= next)
  Post-bind h k st = elim (h st) [
    | done a st' e up p ↦ elim (k a st') [
      | done b st'' e' up' q ↦ done b st'' (rw e e') (λ g. up (up' g)) (λ g. q g (p (up' g)))
    ]
  ]

  pub Post-imp :
      {A : Type 0} {P Q : A → Type 0} {m : Gen A} → ((a : A) → P a → Q a) → Post P m → Post Q m
  Post-imp k h st = elim (h st) [ done a st' e up p ↦ done a st' e up (λ g. k a (p g)) ]

  Agrees-contains :
      (vars : List ℕ) (n : ℕ)
      → contains vars n ≡ true
      → Agrees vars
      → ann (Typ.metavar n) ≡ typ_of (value model (z.fresh_const n))
  unfolding contains annotate_typ
  Agrees-contains [] n h g = absurd (ground arith)
  Agrees-contains (m ∷ ms) n h (e, g) = elim (Bool-cases (m == n)) [
    | inl eq ↦ rw (rw ((==_iff m n).0 eq) at e) refl
    | inr ne ↦ Agrees-contains ms n (rw ne at h) g
  ]

  pub fresh-Post : Post (λ t. Unit) fresh
  unfolding fresh
  fresh-Post st = done _ _ refl (λ g. g) (λ g. tt)

  constant-Post : (n : ℕ) → Post (λ a. typ_of (value model a) ≡ ann (Typ.metavar n)) (constant n)
  unfolding constant annotate_typ
  constant-Post n st = elim (Bool-cases (contains st.vars n)) [
    | inl old ↦
        done (z.fresh_const n) st (rw old refl) (λ g. g)
          (λ g. sym (Agrees-contains st.vars n old g))
    | inr new ↦
        done (z.fresh_const n) (record st { vars = n ∷ st.vars }) (rw new refl) (λ g. g.1)
          (λ g. rw g.0 refl)
  ]

  pub assert_soft-Post : (f : Formula) → Post (λ r. Unit) (assert_soft f)
  assert_soft-Post f st = done _ _ refl (λ g. g) (λ g. tt)

  -- The value of the term is the annotated type.
  pub t2z3-Post : (t : Typ) → Post (λ a. typ_of (value model a) ≡ ann t) (t2z3 t)
  unfolding t2z3 annotate_typ
  t2z3-Post Typ.unit = Post-pass (ap typ_of (z.value-unit model))
  t2z3-Post Typ.int = Post-pass (ap typ_of (z.value-int model))
  t2z3-Post Typ.float = Post-pass (ap typ_of (z.value-float model))
  t2z3-Post Typ.bool = Post-pass (ap typ_of (z.value-bool model))
  t2z3-Post Typ.str = Post-pass (ap typ_of (z.value-str model))
  t2z3-Post Typ.char = Post-pass (ap typ_of (z.value-char model))
  t2z3-Post Typ.any = Post-pass (ap typ_of (z.value-any model))
  t2z3-Post (Typ.arr t u) = Post-bind (t2z3-Post t) λ a.
      Post-bind (t2z3-Post u)
        λ b. Post-pass (λ q p. ap typ_of (z.value-arr model a b) ∙ (λ i. Typ.arr (p i) (q i)))
  t2z3-Post (Typ.pair t u) = Post-bind (t2z3-Post t) λ a.
      Post-bind (t2z3-Post u)
        λ b. Post-pass (λ q p. ap typ_of (z.value-pair model a b) ∙ (λ i. Typ.pair (p i) (q i)))
  t2z3-Post (Typ.list t) =
      Post-bind (t2z3-Post t) λ a. Post-pass (λ p. ap typ_of (z.value-list model a) ∙ ap Typ.list p)
  t2z3-Post (Typ.box t) =
      Post-bind (t2z3-Post t) λ a. Post-pass (λ p. ap typ_of (z.value-box model a) ∙ ap Typ.box p)
  t2z3-Post (Typ.vect t) =
      Post-bind (t2z3-Post t) λ a. Post-pass (λ p. ap typ_of (z.value-vect model a) ∙ ap Typ.vect p)
  t2z3-Post (Typ.metavar n) = constant-Post n

  pub same-Post : (t u : Typ) → Post (λ f. Holds f → ann t ≡ ann u) (same t u)
  unfolding same
  same-Post t u = Post-bind (t2z3-Post t) λ a.
      Post-bind (t2z3-Post u)
        λ b. Post-pass (λ q p h. sym p ∙ ap typ_of ((z.holds-eq model a b).0 h) ∙ q)

  pub is_any-Post : (t : Typ) → Post (λ f. Holds f → ann t ≡ Typ.any) (is_any t)
  unfolding is_any
  is_any-Post t = Post-bind (t2z3-Post t) λ a.
      Post-pass (λ p h. sym p ∙ ap typ_of ((z.holds-eq model a z.any_z3).0 h ∙ z.value-any model))

  Holds-implies : (f g : Formula) → Holds (z.implies f g) → Holds f → Holds g
  Holds-implies f g h k = ground (arith, z.holds-implies model f g)

  -- A value that stands for the type, and the type itself where the variant builds it.
  abbrev Only : Variant → Typ → Typ → Type 0
  Only v u t = ((x : Tree) × (typ_of x ≡ ann t)) × (made_by v (ann t) ≡ true → ann t ≡ ann u)

  only-Post : (v : Variant) (u t : Typ) → Post (λ f. Holds f → Only v u t) (only v u t)
  unfolding only
  only-Post v u t = Post-bind (t2z3-Post t) λ a.
      Post-bind (same-Post t u)
        λ f. Post-pass (λ q p h. ((value model a, p), λ b. q (Holds-implies _ f h (tested a p b))))
    where
      tested :
          (a : Term)
          → typ_of (value model a) ≡ ann t
          → made_by v (ann t) ≡ true
          → Holds (z.tester v a)
      tested a p b =
          z.holds-tester model v a ∙ sym (made_by-typ_of v (value model a)) ∙ ap (made_by v) p ∙ b

  pub ground_z3-Post : (t : Typ) → Post (λ f. Holds f → IsGround (ann t)) (ground_z3 t)
  unfolding ground_z3 annotate_typ
  ground_z3-Post t = Post-bind (only-Post Variant.arr (Typ.arr Typ.any Typ.any) t) λ a.
      Post-bind (only-Post Variant.list (Typ.list Typ.any) t) λ l.
        Post-bind (only-Post Variant.pair (Typ.pair Typ.any Typ.any) t) λ p.
          Post-bind (only-Post Variant.box (Typ.box Typ.any) t) λ b.
            Post-bind (only-Post Variant.vect (Typ.vect Typ.any) t) λ v.
              Post-pass (λ hv hb hp hl ha h.
                let (h4, kv) = Holds-and _ _ h in
                let (h3, kb) = Holds-and _ _ h4 in
                let (h2, kp) = Holds-and _ _ h3 in
                let (ka, kl) = Holds-and _ _ h2 in
                grounded (ha ka) (hl kl).1 (hp kp).1 (hb kb).1 (hv kv).1)
    where
      grounded :
          Only Variant.arr (Typ.arr Typ.any Typ.any) t
          → (made_by Variant.list (ann t) ≡ true → ann t ≡ Typ.list Typ.any)
          → (made_by Variant.pair (ann t) ≡ true → ann t ≡ Typ.pair Typ.any Typ.any)
          → (made_by Variant.box (ann t) ≡ true → ann t ≡ Typ.box Typ.any)
          → (made_by Variant.vect (ann t) ≡ true → ann t ≡ Typ.vect Typ.any)
          → IsGround (ann t)
      grounded ((x, e), a) l p b v =
          subst (λ t. IsGround t) e
            (typ_of-IsGround x (λ h. e ∙ a (ap (made_by Variant.arr) (sym e) ∙ h))
              (λ h. e ∙ l (ap (made_by Variant.list) (sym e) ∙ h))
              (λ h. e ∙ p (ap (made_by Variant.pair) (sym e) ∙ h))
              (λ h. e ∙ b (ap (made_by Variant.box) (sym e) ∙ h))
              (λ h. e ∙ v (ap (made_by Variant.vect) (sym e) ∙ h)))
