-- ===== src/TypeWhich/Migration/Sound.antt =====
-- cgen.rs, `State::cgen`: a program with its coercions has its type wherever the constraints hold.
use plbench.Prelude.{◌≡◌, inl, inr, refl, sym, ◌∙◌, ap, some, ◌∷◌, Bool-cases}
use mathlib.Core.Path.{subst}
use plbench.TypeWhich.Syntax.{
  Typ, Lit, UnOp, BinOp, Exp, Bindings, done, binding, lit_typ, un_op_typ, bin_op_typ,
}
use plbench.TypeWhich.TypeCheck.{Env, bind_all}
use plbench.TypeWhich.TypeCheck.Typing.{HasType, IsAddable}
use plbench.TypeWhich.Z3.{Z3, Tree}
use plbench.TypeWhich.Migration.{Options, Gen, Generated, fresh, ◌>>=◌, ◌&◌, ◌or◌, weaken}
use plbench.TypeWhich.Migration.Generate.{cgen_var, cgen_test, cgen, cgen_all}
use plbench.TypeWhich.Migration.Annotate.{Solution, annotate_typ, annotate, annotate_all}
use plbench.TypeWhich.Migration.Plain.{IsPlain, ArePlain}
use plbench.TypeWhich.Migration.Post.{
  typ_of, Holds, Holds-and, Holds-or, Post, Post-pass, Post-bind, Post-imp, fresh-Post, t2z3-Post,
  same-Post, is_any-Post,
}
use plbench.TypeWhich.Migration.Fits.{
  Fits, fits, Fits-eq, Fits-one, Fits-two, Fits-three, FitAll, FitAll-done, FitAll-binding,
  Fits-let_rec, annotate_env, names, get-known, names-bind_all,
}
use plbench.TypeWhich.Migration.Coerced.{strengthen-Post, weaken-Post}

module _ ⦃z : Z3⦄ (model : z.Model) (s : Solution) (options : Options) where
  open z use {Term, Formula}

  abbrev After : {A : Type 0} → (A → Type 0) → Gen A → Type 0
  After P m = Post model s P m

  abbrev Of : Env → Exp → Typ → Type 0
  Of env e t = Fits env (annotate s e) (annotate_typ s t)

  abbrev both : (f g : Formula) → Holds model s (f & g) → Holds model s f × Holds model s g
  both = Holds-and model s

  -- The type of what `cgen` returns, where its constraints hold.
  abbrev pub Typed : Env → Generated → Type 0
  Typed env r = Holds model s r.2 → Of (annotate_env s env) r.0 r.1

  -- The last step of most cases: what `weaken` is given has a type where the constraints hold.
  weakened :
      (env : Env) (t : Typ) (e : Exp) (phi : Formula)
      → After
          (λ r. (Holds model s phi → Of (annotate_env s env) e t) → Typed env r)
          (weaken options t e phi)
  weakened env t e phi =
      Post-imp model s (λ r w k h. let (kphi, move) = w h in move (annotate_env s env) (k kphi))
        (weaken-Post model s options t e phi)

  un_op_typ-annotate :
      (op : UnOp)
      → (annotate_typ s (un_op_typ op).0 ≡ (un_op_typ op).0)
        × (annotate_typ s (un_op_typ op).1 ≡ (un_op_typ op).1)
  unfolding un_op_typ annotate_typ
  un_op_typ-annotate UnOp.not = (refl, refl)
  un_op_typ-annotate _ = (refl, refl)

  bin_op_typ-annotate :
      (op : BinOp)
      → (annotate_typ s (bin_op_typ op).0 ≡ (bin_op_typ op).0)
        × (annotate_typ s (bin_op_typ op).1 ≡ (bin_op_typ op).1)
        × (annotate_typ s (bin_op_typ op).2 ≡ (bin_op_typ op).2)
  unfolding bin_op_typ annotate_typ
  bin_op_typ-annotate BinOp.int_eq = (refl, refl, refl)
  bin_op_typ-annotate _ = (refl, refl, refl)

  lit_typ-annotate : (l : Lit) → annotate_typ s (lit_typ l) ≡ lit_typ l
  unfolding lit_typ annotate_typ
  lit_typ-annotate Lit.unit = refl
  lit_typ-annotate _ = refl

  bind :
      {A B : Type 0} {P : A → Type 0} {Q : B → Type 0} {m : Gen A} {next : A → Gen B}
      → After P m
      → ((a : A) → After (λ b. P a → Q b) (next a))
      → After Q (m >>= next)
  bind = Post-bind model s

  imp : {A : Type 0} {P Q : A → Type 0} {m : Gen A} → ((a : A) → P a → Q a) → After P m → After Q m
  imp = Post-imp model s

  any_fresh : After (λ t. Unit) fresh
  any_fresh = fresh-Post model s

  cgen_var-Post :
      (env : Env) (e : Exp) (t : Typ)
      → Of (annotate_env s env) e t
      → After (Typed env) (cgen_var options e (some t))
  unfolding cgen_var
  cgen_var-Post env e t f = elim (Bool-cases options.rigid_vars) [
    | inl on ↦ rw on (Post-pass model s (λ h. f))
    | inr off ↦ rw off (imp (λ b w. w (λ h. f)) (weakened env t e z.true_z3))
  ]

  cgen_test-Post :
      (env : Env) (node : Exp → Exp) (r : Generated)
      → (Fits (annotate_env s env) (annotate s r.0) Typ.any
          → Fits (annotate_env s env) (annotate s (node r.0)) Typ.bool)
      → After (λ b. Typed env r → Typed env b) (cgen_test options node r)
  unfolding cgen_test annotate_typ
  cgen_test-Post env node r k = bind (is_any-Post model s r.1) λ f.
      imp (λ b w pf pr. w (λ h. let (h1, h2) = both r.2 f h in k (Fits-eq (pf h2) (pr h1))))
        (weakened env Typ.bool (node r.0) (r.2 & f))

  -- The constraints of `+` on a term for a type.
  abbrev addable : Term → Formula
  addable a = z.eq a z.int_z3 or z.eq a z.str_z3 or z.eq a z.any_z3

  addable-IsAddable :
      (a : Term) {t : Typ} → typ_of (z.value model a) ≡ t → Holds model s (addable a) → IsAddable t
  addable-IsAddable a e h =
      subst (λ t. IsAddable t) e
        (elim (Holds-or model s _ _ h) [
          | inl k ↦ elim (Holds-or model s _ _ k) [
            | inl i ↦ valued (z.value-int model) ((z.holds-eq model a z.int_z3).0 i) tt
            | inr i ↦ valued (z.value-str model) ((z.holds-eq model a z.str_z3).0 i) tt
          ]
          | inr i ↦ valued (z.value-any model) ((z.holds-eq model a z.any_z3).0 i) tt
        ])
    where
      valued :
          {b : Term} {x : Tree}
          → z.value model b ≡ x
          → z.value model a ≡ z.value model b
          → IsAddable (typ_of x)
          → IsAddable (typ_of (z.value model a))
      valued p q i = subst (λ x. IsAddable (typ_of x)) (sym (q ∙ p)) i

  equal :
      (a b : Term) {t u : Typ}
      → typ_of (z.value model a) ≡ t
      → typ_of (z.value model b) ≡ u
      → Holds model s (z.eq a b)
      → t ≡ u
  equal a b p q h = sym p ∙ ap typ_of ((z.holds-eq model a b).0 h) ∙ q

  mutual
    unfolding cgen annotate annotate_typ

    pub cgen-Post :
        (env : Env) (e : Exp) → IsPlain (names env) e → After (Typed env) (cgen options env e)
    cgen-Post env (Exp.lit l) p =
        imp
          (λ b w.
            w (λ h. Fits-eq (sym (lit_typ-annotate l)) (fits (Exp.lit l) refl (HasType.lit l, tt))))
          (weakened env (lit_typ l) (Exp.lit l) z.true_z3)
    cgen-Post env (Exp.empty t) p =
        imp
          (λ b w.
            w (λ h.
              fits (Exp.empty (annotate_typ s t)) refl (HasType.empty (annotate_typ s t), tt)))
          (weakened env (Typ.list t) (Exp.empty t) z.true_z3)
    cgen-Post env (Exp.var x) p =
        let (t, e, e') = get-known s x env p in
        rw e (cgen_var-Post env (Exp.var x) t (fits (Exp.var x) refl (HasType.var e', tt)))
    cgen-Post env (Exp.func x t body) p = bind (cgen-Post ((x, t) ∷ env) body p) λ r.
        imp (λ b w pr. w (λ h. Fits-one (pr h) (λ e g. (HasType.func g.0, g.1))))
          (weakened env (Typ.arr t r.1) (Exp.func x t r.0) r.2)
    cgen-Post env (Exp.box e) p = bind (cgen-Post env e p) λ r.
        imp (λ b w pr. w (λ h. Fits-one (pr h) (λ e g. (HasType.box g.0, g.1))))
          (weakened env (Typ.box r.1) (Exp.box r.0) r.2)
    cgen-Post env (Exp.fix x t body) p = bind (cgen-Post ((x, t) ∷ env) body p) λ r.
        bind (same-Post model s t r.1) λ f.
          imp
            (λ b w pf pr. w (λ h.
              let (h1, h2) = both (r.2) (f) h in
              Fits-one (Fits-eq (sym (pf h2)) (pr h1)) (λ e g. (HasType.fix g.0, g.1))))
            (weakened env t (Exp.fix x t r.0) (r.2 & f))
    cgen-Post env (Exp.unary_op op e) p = bind (cgen-Post env e p) λ r.
        bind (strengthen-Post model s options r.1 (un_op_typ op).0 r.0) λ q.
          imp
            (λ b w pq pr. w (λ h.
              let (h1, h2) = both (r.2) (q.1) h in
              let (a, c) = un_op_typ-annotate op in
              Fits-eq (sym c) (
                Fits-one (Fits-eq a (pq h2 (annotate_env s env) (pr h1)))
                  (λ e g. (HasType.unary_op op g.0, g.1)))))
            (weakened env (un_op_typ op).1 (Exp.unary_op op q.0) (r.2 & q.1))
    cgen-Post env (Exp.fst e) p = bind (cgen-Post env e p) λ r. bind (any_fresh) λ alpha.
        bind (any_fresh) λ beta.
          bind (strengthen-Post model s options r.1 (Typ.pair alpha beta) r.0) λ q.
            imp
              (λ b w pq u1 u0 pr. w (λ h.
                let (h1, h2) = both (r.2) (q.1) h in
                Fits-one (pq h2 (annotate_env s env) (pr h1)) (λ e g. (HasType.fst g.0, g.1))))
              (weakened env alpha (Exp.fst q.0) (r.2 & q.1))
    cgen-Post env (Exp.snd e) p = bind (cgen-Post env e p) λ r. bind (any_fresh) λ alpha.
        bind (any_fresh) λ beta.
          bind (strengthen-Post model s options r.1 (Typ.pair alpha beta) r.0) λ q.
            imp
              (λ b w pq u1 u0 pr. w (λ h.
                let (h1, h2) = both (r.2) (q.1) h in
                Fits-one (pq h2 (annotate_env s env) (pr h1)) (λ e g. (HasType.snd g.0, g.1))))
              (weakened env beta (Exp.snd q.0) (r.2 & q.1))
    cgen-Post env (Exp.head e) p = bind (cgen-Post env e p) λ r. bind (any_fresh) λ alpha.
        bind (strengthen-Post model s options r.1 (Typ.list alpha) r.0) λ q.
          imp
            (λ b w pq u0 pr. w (λ h.
              let (h1, h2) = both (r.2) (q.1) h in
              Fits-one (pq h2 (annotate_env s env) (pr h1)) (λ e g. (HasType.head g.0, g.1))))
            (weakened env alpha (Exp.head q.0) (r.2 & q.1))
    cgen-Post env (Exp.tail e) p = bind (cgen-Post env e p) λ r. bind (any_fresh) λ alpha.
        bind (strengthen-Post model s options r.1 (Typ.list alpha) r.0) λ q.
          imp
            (λ b w pq u0 pr. w (λ h.
              let (h1, h2) = both (r.2) (q.1) h in
              Fits-one (pq h2 (annotate_env s env) (pr h1)) (λ e g. (HasType.tail g.0, g.1))))
            (weakened env (Typ.list alpha) (Exp.tail q.0) (r.2 & q.1))
    cgen-Post env (Exp.is_empty e) p = bind (cgen-Post env e p) λ r. bind (any_fresh) λ alpha.
        bind (strengthen-Post model s options r.1 (Typ.list alpha) r.0) λ q.
          imp
            (λ b w pq u0 pr. w (λ h.
              let (h1, h2) = both (r.2) (q.1) h in
              Fits-one (pq h2 (annotate_env s env) (pr h1)) (λ e g. (HasType.is_empty g.0, g.1))))
            (weakened env Typ.bool (Exp.is_empty q.0) (r.2 & q.1))
    cgen-Post env (Exp.unbox e) p = bind (cgen-Post env e p) λ r. bind (any_fresh) λ alpha.
        bind (strengthen-Post model s options r.1 (Typ.box alpha) r.0) λ q.
          imp
            (λ b w pq u0 pr. w (λ h.
              let (h1, h2) = both (r.2) (q.1) h in
              Fits-one (pq h2 (annotate_env s env) (pr h1)) (λ e g. (HasType.unbox g.0, g.1))))
            (weakened env alpha (Exp.unbox q.0) (r.2 & q.1))
    cgen-Post env (Exp.vector_len e) p = bind (cgen-Post env e p) λ r. bind (any_fresh) λ alpha.
        bind (strengthen-Post model s options r.1 (Typ.vect alpha) r.0) λ q.
          imp
            (λ b w pq u0 pr. w (λ h.
              let (h1, h2) = both (r.2) (q.1) h in
              Fits-one (pq h2 (annotate_env s env) (pr h1)) (λ e g. (HasType.vector_len g.0, g.1))))
            (weakened env Typ.int (Exp.vector_len q.0) (r.2 & q.1))
    cgen-Post env (Exp.is_bool e) p =
        bind (cgen-Post env e p) λ r.
          cgen_test-Post env Exp.is_bool r (λ f. Fits-one f (λ e g. (HasType.is_bool g.0, g.1)))
    cgen-Post env (Exp.is_int e) p =
        bind (cgen-Post env e p)
          λ r. cgen_test-Post env Exp.is_int r (λ f. Fits-one f (λ e g. (HasType.is_int g.0, g.1)))
    cgen-Post env (Exp.is_string e) p = bind (cgen-Post env e p) λ r.
        cgen_test-Post env Exp.is_string r (λ f. Fits-one f (λ e g. (HasType.is_string g.0, g.1)))
    cgen-Post env (Exp.is_list e) p =
        bind (cgen-Post env e p) λ r.
          cgen_test-Post env Exp.is_list r (λ f. Fits-one f (λ e g. (HasType.is_list g.0, g.1)))
    cgen-Post env (Exp.is_fun e) p =
        bind (cgen-Post env e p)
          λ r. cgen_test-Post env Exp.is_fun r (λ f. Fits-one f (λ e g. (HasType.is_fun g.0, g.1)))
    cgen-Post env (Exp.app e1 e2) p = bind (cgen-Post env e1 p.0) λ r1.
        bind (cgen-Post env e2 p.1) λ r2. bind (any_fresh) λ alpha. bind (any_fresh) λ beta.
          bind (strengthen-Post model s options r1.1 (Typ.arr alpha beta) r1.0) λ q.
            bind (same-Post model s r2.1 alpha) λ f.
              imp
                (λ b w pf pq v u p2 p1. w (λ h.
                  let (l3, h4) = both (r1.2 & r2.2 & q.1) (f) h in
                  let (l2, h3) = both (r1.2 & r2.2) (q.1) l3 in
                  let (h1, h2) = both (r1.2) (r2.2) l2 in
                  Fits-two (pq h3 (annotate_env s env) (p1 h1)) (Fits-eq (pf h4) (p2 h2))
                    (λ e1 e2 g k. (HasType.app g.0 k.0, (g.1, k.1)))))
                (weakened env beta (Exp.app q.0 r2.0) (r1.2 & r2.2 & q.1 & f))
    cgen-Post env (Exp.binary_op op e1 e2) p = bind (cgen-Post env e1 p.0) λ r1.
        bind (cgen-Post env e2 p.1) λ r2.
          bind (strengthen-Post model s options r1.1 (bin_op_typ op).0 r1.0) λ q1.
            bind (strengthen-Post model s options r2.1 (bin_op_typ op).1 r2.0) λ q2.
              imp
                (λ b w pq2 pq1 p2 p1. w (λ h.
                  let (l2, h3) = both (r1.2 & r2.2) ((q1.1 & q2.1)) h in
                  let (h1, h2) = both (r1.2) (r2.2) l2 in
                  let (k1, k2) = both q1.1 q2.1 h3 in
                  let (a, c, d) = bin_op_typ-annotate op in
                  Fits-eq (sym d) (
                    Fits-two (Fits-eq a (pq1 k1 (annotate_env s env) (p1 h1)))
                      (Fits-eq c (pq2 k2 (annotate_env s env) (p2 h2)))
                      (λ e1 e2 g k. (HasType.binary_op op g.0 k.0, (g.1, k.1))))))
                (weakened env (bin_op_typ op).2 (Exp.binary_op op q1.0 q2.0)
                  (r1.2 & r2.2 & (q1.1 & q2.1)))
    cgen-Post env (Exp.let_exp x e1 e2) p = bind (cgen-Post env e1 p.0) λ r1.
        bind (cgen-Post ((x, r1.1) ∷ env) e2 p.1) λ r2. Post-pass model s (λ p2 p1 h.
          let (h1, h2) = both (r1.2) (r2.2) h in
          Fits-two (p1 h1) (p2 h2) (λ e1 e2 g k. (HasType.let_exp g.0 k.0, (g.1, k.1))))
    cgen-Post env (Exp.let_rec es e) p =
        let plain = subst (λ xs. ArePlain xs es × IsPlain xs e) (sym (names-bind_all env es)) p in
        bind (cgen_all-Post (bind_all env es) z.true_z3 es plain.0) λ q.
          bind (cgen-Post (bind_all env es) e plain.1) λ r. Post-pass model s (λ pr pq h.
            let (h1, h2) = both r.2 q.1 h in Fits-let_rec s env es q.0 r.0 (pq h2).1 (pr h1))
    cgen-Post env (Exp.add_overload e1 e2) p = bind (cgen-Post env e1 p.0) λ r1.
        bind (cgen-Post env e2 p.1) λ r2. bind (t2z3-Post model s r1.1) λ a.
          bind (t2z3-Post model s r2.1) λ b.
            imp
              (λ c w pb pa p2 p1. w (λ h.
                let (l3, h4) = both (r1.2 & r2.2 & z.eq a b) (addable a) h in
                let (l2, h3) = both (r1.2 & r2.2) (z.eq a b) l3 in
                let (h1, h2) = both r1.2 r2.2 l2 in
                Fits-two (p1 h1) (Fits-eq (sym (equal a b pa pb h3)) (p2 h2)) (λ e1 e2 g k.
                  (HasType.add_overload g.0 k.0 (addable-IsAddable a pa h4), (g.1, k.1)))))
              (weakened env r1.1 (Exp.add_overload r1.0 r2.0) (r1.2 & r2.2 & z.eq a b & addable a))
    cgen-Post env (Exp.if_exp e1 e2 e3) p = bind (cgen-Post env e1 p.0) λ r1.
        bind (cgen-Post env e2 p.1) λ r2. bind (cgen-Post env e3 p.2) λ r3.
          bind (strengthen-Post model s options r1.1 Typ.bool r1.0) λ q.
            bind (same-Post model s r2.1 r3.1) λ f. Post-pass model s (λ pf pq p3 p2 p1 h.
              let (l3, h4) = both (r1.2 & r2.2 & r3.2) ((q.1 & f)) h in
              let (l2, h3) = both (r1.2 & r2.2) (r3.2) l3 in
              let (h1, h2) = both (r1.2) (r2.2) l2 in
              let (k1, k2) = both q.1 f h4 in
              Fits-three (pq k1 (annotate_env s env) (p1 h1)) (p2 h2)
                (Fits-eq (sym (pf k2)) (p3 h3))
                (λ e1 e2 e3 g k l. (HasType.if_exp g.0 k.0 l.0, (g.1, k.1, l.1))))
    cgen-Post env (Exp.pair e1 e2) p = bind (cgen-Post env e1 p.0) λ r1.
        bind (cgen-Post env e2 p.1) λ r2.
          imp
            (λ b w p2 p1. w (λ h.
              let (h1, h2) = both (r1.2) (r2.2) h in
              Fits-two (p1 h1) (p2 h2) (λ e1 e2 g k. (HasType.pair g.0 k.0, (g.1, k.1)))))
            (weakened env (Typ.pair r1.1 r2.1) (Exp.pair r1.0 r2.0) (r1.2 & r2.2))
    cgen-Post env (Exp.cons e1 e2) p = bind (cgen-Post env e1 p.0) λ r1.
        bind (cgen-Post env e2 p.1) λ r2.
          bind (strengthen-Post model s options r2.1 (Typ.list r1.1) r2.0) λ q.
            imp
              (λ b w pq p2 p1. w (λ h.
                let (l2, h3) = both (r1.2 & r2.2) (q.1) h in
                let (h1, h2) = both (r1.2) (r2.2) l2 in
                Fits-two (p1 h1) (pq h3 (annotate_env s env) (p2 h2))
                  (λ e1 e2 g k. (HasType.cons g.0 k.0, (g.1, k.1)))))
              (weakened env (Typ.list r1.1) (Exp.cons r1.0 q.0) (r1.2 & r2.2 & q.1))
    cgen-Post env (Exp.box_set e1 e2) p = bind (cgen-Post env e1 p.0) λ r1.
        bind (cgen-Post env e2 p.1) λ r2.
          bind (strengthen-Post model s options r1.1 (Typ.box r2.1) r1.0) λ q.
            imp
              (λ b w pq p2 p1. w (λ h.
                let (l2, h3) = both (r1.2 & r2.2) (q.1) h in
                let (h1, h2) = both (r1.2) (r2.2) l2 in
                Fits-two (pq h3 (annotate_env s env) (p1 h1)) (p2 h2)
                  (λ e1 e2 g k. (HasType.box_set g.0 k.0, (g.1, k.1)))))
              (weakened env Typ.unit (Exp.box_set q.0 r2.0) (r1.2 & r2.2 & q.1))
    cgen-Post env (Exp.vector e1 e2) p = bind (cgen-Post env e1 p.0) λ r1.
        bind (cgen-Post env e2 p.1) λ r2.
          bind (strengthen-Post model s options r1.1 Typ.int r1.0) λ q.
            imp
              (λ b w pq p2 p1. w (λ h.
                let (l2, h3) = both (r1.2 & r2.2) (q.1) h in
                let (h1, h2) = both (r1.2) (r2.2) l2 in
                Fits-two (pq h3 (annotate_env s env) (p1 h1)) (p2 h2)
                  (λ e1 e2 g k. (HasType.vector g.0 k.0, (g.1, k.1)))))
              (weakened env (Typ.vect r2.1) (Exp.vector q.0 r2.0) (r1.2 & r2.2 & q.1))
    cgen-Post env (Exp.vector_ref e1 e2) p = bind (cgen-Post env e1 p.0) λ r1.
        bind (cgen-Post env e2 p.1) λ r2. bind (any_fresh) λ alpha.
          bind (strengthen-Post model s options r1.1 (Typ.vect alpha) r1.0) λ q1.
            bind (strengthen-Post model s options r2.1 Typ.int r2.0) λ q2.
              imp
                (λ b w pq2 pq1 u p2 p1. w (λ h.
                  let (l3, h4) = both (r1.2 & r2.2 & q1.1) (q2.1) h in
                  let (l2, h3) = both (r1.2 & r2.2) (q1.1) l3 in
                  let (h1, h2) = both (r1.2) (r2.2) l2 in
                  Fits-two (pq1 h3 (annotate_env s env) (p1 h1))
                    (pq2 h4 (annotate_env s env) (p2 h2))
                    (λ e1 e2 g k. (HasType.vector_ref g.0 k.0, (g.1, k.1)))))
                (weakened env alpha (Exp.vector_ref q1.0 q2.0) (r1.2 & r2.2 & q1.1 & q2.1))
    cgen-Post env (Exp.vector_set e1 e2 e3) p = bind (cgen-Post env e1 p.0) λ r1.
        bind (cgen-Post env e2 p.1) λ r2. bind (cgen-Post env e3 p.2) λ r3.
          bind (strengthen-Post model s options r1.1 (Typ.vect r3.1) r1.0) λ q1.
            bind (strengthen-Post model s options r2.1 Typ.int r2.0) λ q2.
              imp
                (λ b w pq2 pq1 p3 p2 p1. w (λ h.
                  let (l4, h5) = both (r1.2 & r2.2 & r3.2 & q1.1) (q2.1) h in
                  let (l3, h4) = both (r1.2 & r2.2 & r3.2) (q1.1) l4 in
                  let (l2, h3) = both (r1.2 & r2.2) (r3.2) l3 in
                  let (h1, h2) = both (r1.2) (r2.2) l2 in
                  Fits-three (pq1 h4 (annotate_env s env) (p1 h1))
                    (pq2 h5 (annotate_env s env) (p2 h2)) (p3 h3)
                    (λ e1 e2 e3 g k l. (HasType.vector_set g.0 k.0 l.0, (g.1, k.1, l.1)))))
                (weakened env Typ.unit (Exp.vector_set q1.0 q2.0 r3.0)
                  (r1.2 & r2.2 & r3.2 & q1.1 & q2.1))
    cgen-Post env (Exp.ann e t) p = absurd p
    cgen-Post env (Exp.coerce t u e) p = absurd p
    cgen-Post env (Exp.prim_coerce k e) p = absurd p

    cgen_all-Post :
        (env : Env) (acc : Formula) (bs : Bindings)
        → ArePlain (names env) bs
        → After
            (λ q.
              Holds model s q.1
              → Holds model s acc × FitAll s (annotate_env s env) bs (annotate_all s q.0))
            (cgen_all options env acc bs)
    cgen_all-Post env acc done p = Post-pass model s (λ h. (h, FitAll-done))
    cgen_all-Post env acc (binding x t e bs) p = bind (cgen-Post env e p.0) λ r.
        bind (same-Post model s t r.1) λ f. bind (cgen_all-Post env (acc & f & r.2) bs p.1) λ q.
          Post-pass model s (λ pq pf pr h.
            let (ks, fa) = pq h in
            let (l2, h3) = both (acc & f) r.2 ks in
            let (h1, h2) = both acc f l2 in
            (h1, FitAll-binding s t r.0 q.0 (Fits-eq (sym (pf h2)) (pr h3)) fa))
