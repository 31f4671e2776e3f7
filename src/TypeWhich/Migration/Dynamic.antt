-- ===== src/TypeWhich/Migration/Dynamic.antt =====
-- cgen.rs, `State::cgen`: the constraints of a program without static annotations have a model.
use Prim.Native.String.{String}
use text.Mathlib.Text.{◌==◌}
use mathlib.Core.Path.{subst}
use plbench.Prelude.{
  ℕ, true, ◌≡◌, inl, inr, refl, sym, ◌∙◌, arith, List, [], ◌∷◌, ◌++◌, All, some, Bool-cases,
}
use plbench.TypeWhich.Syntax.{
  Typ, Lit, UnOp, BinOp, Exp, Bindings, done, binding, lit_typ, un_op_typ, bin_op_typ,
}
use plbench.TypeWhich.Fresh.Annotations.{annotations, binding_annotations}
use plbench.TypeWhich.TypeCheck.{Env, get, bind_all}
use plbench.TypeWhich.Z3.{Z3, Tree}
use plbench.TypeWhich.Migration.{
  Options, Gen, Generated, ◌>>=◌, ◌&◌, ◌or◌, fresh, strengthen, weaken,
}
use plbench.TypeWhich.Migration.Generate.{cgen_var, cgen_test, cgen, cgen_all}
use plbench.TypeWhich.Migration.Plain.{known, IsPlain, ArePlain}
use plbench.TypeWhich.Migration.Fits.{names, names-bind_all}
use plbench.TypeWhich.Migration.Always.{
  tree, IsDynamic, HasAny, HasAny-any, IsTrue, IsTrue-and, IsTrue-or_right, Always, Always-pass,
  Always-bind, Always-imp, fresh-Always, t2z3-Always, same-Always, is_any-Always, strengthen-Always,
  weaken-Always,
}

abbrev pub AreDynamic : Env → Type 0
AreDynamic env = All (λ entry. IsDynamic entry.1) env

-- Every annotation is `any` or a metavariable.
abbrev pub HasDynamic : Exp → Type 0
HasDynamic e = All IsDynamic (annotations e)

All-append : (xs ys : List Typ) → All IsDynamic (xs ++ ys) → All IsDynamic xs × All IsDynamic ys
All-append [] ys h = (tt, h)
All-append (x ∷ xs) ys (p, h) = let (q, r) = All-append xs ys h in ((p, q), r)

un_op_typ-HasAny : (op : UnOp) → HasAny (tree (un_op_typ op).0) × HasAny (tree (un_op_typ op).1)
unfolding un_op_typ
un_op_typ-HasAny UnOp.and = (tt, (refl, refl))
un_op_typ-HasAny _ = (tt, tt)

bin_op_typ-HasAny :
    (op : BinOp)
    → HasAny (tree (bin_op_typ op).0)
      × HasAny (tree (bin_op_typ op).1)
      × HasAny (tree (bin_op_typ op).2)
unfolding bin_op_typ
bin_op_typ-HasAny BinOp.printf = (tt, refl, tt)
bin_op_typ-HasAny _ = (tt, tt, tt)

lit_typ-HasAny : (l : Lit) → HasAny (tree (lit_typ l))
unfolding lit_typ
lit_typ-HasAny Lit.unit = tt
lit_typ-HasAny _ = tt

get-IsDynamic :
    (x : String) (env : Env)
    → known x (names env) ≡ true
    → AreDynamic env
    → (t : Typ) × (get x env ≡ some t) × IsDynamic t
unfolding known get
get-IsDynamic x [] h d = absurd (ground arith)
get-IsDynamic x ((y, t) ∷ env) h (d, ds) = elim (Bool-cases (y == x)) [
  | inl e ↦ (t, rw e refl, d)
  | inr ne ↦ let (u, p, q) = get-IsDynamic x env (rw ne at h) ds in (u, rw ne p, q)
]

bind_all-AreDynamic :
    (env : Env) (bs : Bindings)
    → AreDynamic env
    → All IsDynamic (binding_annotations bs)
    → AreDynamic (bind_all env bs)
unfolding bind_all
bind_all-AreDynamic env done d h = d
bind_all-AreDynamic env (binding x t e bs) d (p, h) =
    bind_all-AreDynamic ((x, t) ∷ env) bs (p, d)
      (All-append (annotations e) (binding_annotations bs) h).1

module _ ⦃z : Z3⦄ (model : z.Model) (all_any : (n : ℕ) → z.value model (z.fresh_const n) ≡ Tree.any)
    (options : Options) where
  open z use {Term, Formula}

  abbrev After : {A : Type 0} → (A → Type 0) → Gen A → Type 0
  After P m = Always model all_any P m

  abbrev Holds : Formula → Type 0
  Holds f = IsTrue model all_any f

  bind :
      {A B : Type 0} {P : A → Type 0} {Q : B → Type 0} {m : Gen A} {next : A → Gen B}
      → After P m
      → ((a : A) → P a → After Q (next a))
      → After Q (m >>= next)
  bind = Always-bind model all_any

  any_fresh : After (λ t. IsDynamic t) fresh
  any_fresh = fresh-Always model all_any

  conj : {f g : Formula} → Holds f → Holds g → Holds (f & g)
  conj = IsTrue-and model all_any

  strengthened :
      (t u : Typ) (e : Exp)
      → After (λ r. IsDynamic t → HasAny (tree u) → Holds r.1) (strengthen options t u e)
  strengthened = strengthen-Always model all_any options

  -- The result has a dynamic type, and its constraints hold.
  abbrev pub IsSatisfied : Generated → Type 0
  IsSatisfied r = IsDynamic r.1 × Holds r.2

  weakened :
      (t : Typ) (e : Exp) (phi : Formula)
      → HasAny (tree t)
      → Holds phi
      → After IsSatisfied (weaken options t e phi)
  weakened t e phi h p =
      Always-imp model all_any (λ r w. (w.0, w.1 h p)) (weaken-Always model all_any options t e phi)

  cgen_var-Always :
      (e : Exp) (t : Typ) → IsDynamic t → After IsSatisfied (cgen_var options e (some t))
  unfolding cgen_var
  cgen_var-Always e t d = elim (Bool-cases options.rigid_vars) [
    | inl on ↦ rw on (Always-pass model all_any (d, z.holds-true model))
    | inr off ↦ rw off (weakened t e z.true_z3 (HasAny-any d) (z.holds-true model))
  ]

  cgen_test-Always :
      (node : Exp → Exp) (r : Generated)
      → IsSatisfied r
      → After IsSatisfied (cgen_test options node r)
  unfolding cgen_test
  cgen_test-Always node r d =
      bind (is_any-Always model all_any r.1)
        λ f h. weakened Typ.bool (node r.0) (r.2 & f) tt (conj d.1 (h d.0))

  mutual
    unfolding cgen

    pub cgen-Always :
        (env : Env) (e : Exp)
        → IsPlain (names env) e
        → AreDynamic env
        → HasDynamic e
        → After IsSatisfied (cgen options env e)
    cgen-Always env (Exp.lit l) p v d =
        weakened (lit_typ l) (Exp.lit l) z.true_z3 (lit_typ-HasAny l) (z.holds-true model)
    cgen-Always env (Exp.empty t) p v d =
        weakened (Typ.list t) (Exp.empty t) z.true_z3 d.0 (z.holds-true model)
    cgen-Always env (Exp.var x) p v d =
        let (t, e, h) = get-IsDynamic x env p v in rw e (cgen_var-Always (Exp.var x) t h)
    cgen-Always env (Exp.func x t body) p v d =
        bind (cgen-Always ((x, t) ∷ env) body p (d.0, v) d.1)
          λ r h. weakened (Typ.arr t r.1) (Exp.func x t r.0) r.2 (d.0, h.0) h.1
    cgen-Always env (Exp.fix x t body) p v d =
        bind (cgen-Always ((x, t) ∷ env) body p (d.0, v) d.1) λ r h.
          bind (same-Always model all_any t r.1) λ f k.
            weakened t (Exp.fix x t r.0) (r.2 & f) (HasAny-any d.0) (conj h.1 (k (d.0 ∙ sym h.0)))
    cgen-Always env (Exp.box e) p v d =
        bind (cgen-Always env e p v d) λ r h. weakened (Typ.box r.1) (Exp.box r.0) r.2 h.0 h.1
    cgen-Always env (Exp.unary_op op e) p v d = bind (cgen-Always env e p v d) λ r h.
        bind (strengthened r.1 (un_op_typ op).0 r.0) λ q k.
          weakened (un_op_typ op).1 (Exp.unary_op op q.0) (r.2 & q.1) (un_op_typ-HasAny op).1
            (conj h.1 (k h.0 (un_op_typ-HasAny op).0))
    cgen-Always env (Exp.fst e) p v d = bind (cgen-Always env e p v d) λ r h.
        bind any_fresh λ alpha a. bind any_fresh λ beta b.
          bind (strengthened r.1 (Typ.pair alpha beta) r.0)
            λ q k. weakened alpha (Exp.fst q.0) (r.2 & q.1) (HasAny-any a) (conj h.1 (k h.0 (a, b)))
    cgen-Always env (Exp.snd e) p v d = bind (cgen-Always env e p v d) λ r h.
        bind any_fresh λ alpha a. bind any_fresh λ beta b.
          bind (strengthened r.1 (Typ.pair alpha beta) r.0)
            λ q k. weakened beta (Exp.snd q.0) (r.2 & q.1) (HasAny-any b) (conj h.1 (k h.0 (a, b)))
    cgen-Always env (Exp.head e) p v d = bind (cgen-Always env e p v d) λ r h.
        bind any_fresh λ alpha a.
          bind (strengthened r.1 (Typ.list alpha) r.0)
            λ q k. weakened alpha (Exp.head q.0) (r.2 & q.1) (HasAny-any a) (conj h.1 (k h.0 a))
    cgen-Always env (Exp.tail e) p v d = bind (cgen-Always env e p v d) λ r h.
        bind any_fresh λ alpha a.
          bind (strengthened r.1 (Typ.list alpha) r.0)
            λ q k. weakened (Typ.list alpha) (Exp.tail q.0) (r.2 & q.1) a (conj h.1 (k h.0 a))
    cgen-Always env (Exp.is_empty e) p v d = bind (cgen-Always env e p v d) λ r h.
        bind any_fresh λ alpha a.
          bind (strengthened r.1 (Typ.list alpha) r.0)
            λ q k. weakened Typ.bool (Exp.is_empty q.0) (r.2 & q.1) tt (conj h.1 (k h.0 a))
    cgen-Always env (Exp.unbox e) p v d = bind (cgen-Always env e p v d) λ r h.
        bind any_fresh λ alpha a.
          bind (strengthened r.1 (Typ.box alpha) r.0)
            λ q k. weakened alpha (Exp.unbox q.0) (r.2 & q.1) (HasAny-any a) (conj h.1 (k h.0 a))
    cgen-Always env (Exp.vector_len e) p v d = bind (cgen-Always env e p v d) λ r h.
        bind any_fresh λ alpha a.
          bind (strengthened r.1 (Typ.vect alpha) r.0)
            λ q k. weakened Typ.int (Exp.vector_len q.0) (r.2 & q.1) tt (conj h.1 (k h.0 a))
    cgen-Always env (Exp.is_bool e) p v d =
        bind (cgen-Always env e p v d) λ r h. cgen_test-Always Exp.is_bool r h
    cgen-Always env (Exp.is_int e) p v d =
        bind (cgen-Always env e p v d) λ r h. cgen_test-Always Exp.is_int r h
    cgen-Always env (Exp.is_string e) p v d =
        bind (cgen-Always env e p v d) λ r h. cgen_test-Always Exp.is_string r h
    cgen-Always env (Exp.is_list e) p v d =
        bind (cgen-Always env e p v d) λ r h. cgen_test-Always Exp.is_list r h
    cgen-Always env (Exp.is_fun e) p v d =
        bind (cgen-Always env e p v d) λ r h. cgen_test-Always Exp.is_fun r h
    cgen-Always env (Exp.app e1 e2) p v d =
        let (d1, d2) = All-append (annotations e1) (annotations e2) d in
        bind (cgen-Always env e1 p.0 v d1) λ r1 h1. bind (cgen-Always env e2 p.1 v d2) λ r2 h2.
          bind (any_fresh) λ alpha a. bind (any_fresh) λ beta b.
            bind (strengthened r1.1 (Typ.arr alpha beta) r1.0) λ q k.
              bind (same-Always model all_any r2.1 alpha) λ f l.
                weakened beta (Exp.app q.0 r2.0) (r1.2 & r2.2 & q.1 & f) (HasAny-any b)
                  (conj (conj (conj h1.1 h2.1) (k h1.0 (a, b))) (l (h2.0 ∙ sym a)))
    cgen-Always env (Exp.binary_op op e1 e2) p v d =
        let (d1, d2) = All-append (annotations e1) (annotations e2) d in
        bind (cgen-Always env e1 p.0 v d1) λ r1 h1. bind (cgen-Always env e2 p.1 v d2) λ r2 h2.
          bind (strengthened r1.1 (bin_op_typ op).0 r1.0) λ q1 k1.
            bind (strengthened r2.1 (bin_op_typ op).1 r2.0) λ q2 k2.
              weakened (bin_op_typ op).2 (Exp.binary_op op q1.0 q2.0) (r1.2 & r2.2 & (q1.1 & q2.1))
                (bin_op_typ-HasAny op).2
                (conj (conj h1.1 h2.1)
                  (conj (k1 h1.0 (bin_op_typ-HasAny op).0) (k2 h2.0 (bin_op_typ-HasAny op).1)))
    cgen-Always env (Exp.let_exp x e1 e2) p v d =
        let (d1, d2) = All-append (annotations e1) (annotations e2) d in
        bind (cgen-Always env e1 p.0 v d1) λ r1 h1.
          bind (cgen-Always ((x, r1.1) ∷ env) e2 p.1 (h1.0, v) d2)
            λ r2 h2. Always-pass model all_any (h2.0, conj h1.1 h2.1)
    cgen-Always env (Exp.pair e1 e2) p v d =
        let (d1, d2) = All-append (annotations e1) (annotations e2) d in
        bind (cgen-Always env e1 p.0 v d1) λ r1 h1. bind (cgen-Always env e2 p.1 v d2) λ r2 h2.
          weakened (Typ.pair r1.1 r2.1) (Exp.pair r1.0 r2.0) (r1.2 & r2.2) (h1.0, h2.0)
            (conj h1.1 h2.1)
    cgen-Always env (Exp.cons e1 e2) p v d =
        let (d1, d2) = All-append (annotations e1) (annotations e2) d in
        bind (cgen-Always env e1 p.0 v d1) λ r1 h1. bind (cgen-Always env e2 p.1 v d2) λ r2 h2.
          bind (strengthened r2.1 (Typ.list r1.1) r2.0) λ q k.
            weakened (Typ.list r1.1) (Exp.cons r1.0 q.0) (r1.2 & r2.2 & q.1) h1.0
              (conj (conj h1.1 h2.1) (k h2.0 h1.0))
    cgen-Always env (Exp.box_set e1 e2) p v d =
        let (d1, d2) = All-append (annotations e1) (annotations e2) d in
        bind (cgen-Always env e1 p.0 v d1) λ r1 h1. bind (cgen-Always env e2 p.1 v d2) λ r2 h2.
          bind (strengthened r1.1 (Typ.box r2.1) r1.0) λ q k.
            weakened Typ.unit (Exp.box_set q.0 r2.0) (r1.2 & r2.2 & q.1) tt
              (conj (conj h1.1 h2.1) (k h1.0 h2.0))
    cgen-Always env (Exp.vector e1 e2) p v d =
        let (d1, d2) = All-append (annotations e1) (annotations e2) d in
        bind (cgen-Always env e1 p.0 v d1) λ r1 h1. bind (cgen-Always env e2 p.1 v d2) λ r2 h2.
          bind (strengthened r1.1 Typ.int r1.0) λ q k.
            weakened (Typ.vect r2.1) (Exp.vector q.0 r2.0) (r1.2 & r2.2 & q.1) h2.0
              (conj (conj h1.1 h2.1) (k h1.0 tt))
    cgen-Always env (Exp.vector_ref e1 e2) p v d =
        let (d1, d2) = All-append (annotations e1) (annotations e2) d in
        bind (cgen-Always env e1 p.0 v d1) λ r1 h1. bind (cgen-Always env e2 p.1 v d2) λ r2 h2.
          bind (any_fresh) λ alpha a. bind (strengthened r1.1 (Typ.vect alpha) r1.0) λ q1 k1.
            bind (strengthened r2.1 Typ.int r2.0) λ q2 k2.
              weakened alpha (Exp.vector_ref q1.0 q2.0) (r1.2 & r2.2 & q1.1 & q2.1) (HasAny-any a)
                (conj (conj (conj h1.1 h2.1) (k1 h1.0 a)) (k2 h2.0 tt))
    cgen-Always env (Exp.add_overload e1 e2) p v d =
        let (d1, d2) = All-append (annotations e1) (annotations e2) d in
        bind (cgen-Always env e1 p.0 v d1) λ r1 h1. bind (cgen-Always env e2 p.1 v d2) λ r2 h2.
          bind (t2z3-Always model all_any r1.1) λ a ha.
            bind (t2z3-Always model all_any r2.1) λ b hb.
              let is_a = ha ∙ h1.0 in
              weakened r1.1 (Exp.add_overload r1.0 r2.0)
                (r1.2 & r2.2 & z.eq a b & (z.eq a z.int_z3 or z.eq a z.str_z3 or z.eq a z.any_z3))
                (HasAny-any h1.0)
                (conj (conj (conj h1.1 h2.1) ((z.holds-eq model a b).1 (is_a ∙ sym (hb ∙ h2.0)))) (
                  IsTrue-or_right model all_any
                    ((z.holds-eq model a z.any_z3).1 (is_a ∙ sym (z.value-any model)))))
    cgen-Always env (Exp.if_exp e1 e2 e3) p v d =
        let (d1, d23) = All-append (annotations e1) (annotations e2 ++ annotations e3) d in
        let (d2, d3) = All-append (annotations e2) (annotations e3) d23 in
        bind (cgen-Always env e1 p.0 v d1) λ r1 h1. bind (cgen-Always env e2 p.1 v d2) λ r2 h2.
          bind (cgen-Always env e3 p.2 v d3) λ r3 h3. bind (strengthened r1.1 Typ.bool r1.0) λ q k.
            bind (same-Always model all_any r2.1 r3.1) λ f l.
              Always-pass model all_any
                (h2.0, conj (conj (conj h1.1 h2.1) h3.1) (conj (k h1.0 tt) (l (h2.0 ∙ sym h3.0))))
    cgen-Always env (Exp.vector_set e1 e2 e3) p v d =
        let (d1, d23) = All-append (annotations e1) (annotations e2 ++ annotations e3) d in
        let (d2, d3) = All-append (annotations e2) (annotations e3) d23 in
        bind (cgen-Always env e1 p.0 v d1) λ r1 h1. bind (cgen-Always env e2 p.1 v d2) λ r2 h2.
          bind (cgen-Always env e3 p.2 v d3) λ r3 h3.
            bind (strengthened r1.1 (Typ.vect r3.1) r1.0) λ q1 k1.
              bind (strengthened r2.1 Typ.int r2.0) λ q2 k2.
                weakened Typ.unit (Exp.vector_set q1.0 q2.0 r3.0) (r1.2 & r2.2 & r3.2 & q1.1 & q2.1)
                  tt (conj (conj (conj (conj h1.1 h2.1) h3.1) (k1 h1.0 h3.0)) (k2 h2.0 tt))
    cgen-Always env (Exp.let_rec es e) p v d =
        let plain = subst (λ xs. ArePlain xs es × IsPlain xs e) (sym (names-bind_all env es)) p in
        let (d1, d2) = All-append (binding_annotations es) (annotations e) d in
        let known_types = bind_all-AreDynamic env es v d1 in
        bind
          (cgen_all-Always (bind_all env es) z.true_z3 es plain.0 known_types d1
            (z.holds-true model))
          λ q k.
            bind (cgen-Always (bind_all env es) e plain.1 known_types d2)
              λ r h. Always-pass model all_any (h.0, conj h.1 k)
    cgen-Always env (Exp.ann e t) p v d = absurd p
    cgen-Always env (Exp.coerce t u e) p v d = absurd p
    cgen-Always env (Exp.prim_coerce k e) p v d = absurd p

    cgen_all-Always :
        (env : Env) (acc : Formula) (bs : Bindings)
        → ArePlain (names env) bs
        → AreDynamic env
        → All IsDynamic (binding_annotations bs)
        → Holds acc
        → After (λ q. Holds q.1) (cgen_all options env acc bs)
    cgen_all-Always env acc done p v d h = Always-pass model all_any h
    cgen_all-Always env acc (binding x t e bs) p v (dt, d) h =
        let (d1, d2) = All-append (annotations e) (binding_annotations bs) d in
        bind (cgen-Always env e p.0 v d1) λ r k. bind (same-Always model all_any t r.1) λ f l.
          bind
            (cgen_all-Always env (acc & f & r.2) bs p.1 v d2 (conj (conj h (l (dt ∙ sym k.0))) k.1))
            λ q m. Always-pass model all_any m
