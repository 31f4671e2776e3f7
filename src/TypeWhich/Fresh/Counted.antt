-- ===== src/TypeWhich/Fresh/Counted.antt =====
-- syntax.rs, `Exp::fresh_types`: the annotations of the result, and how it compares with the program.
use mathlib.Core.Logic.{ite}
use plbench.Prelude.{
  ℕ, ◌+◌, ◌%◌, ◌^◌, Bool, true, false, ◌||◌, ◌≡◌, ◌∙◌, refl, List, [], ◌∷◌, ◌++◌, Option, some,
}
use plbench.TypeWhich.Syntax.{Typ, Exp, Bindings, done, binding}
use plbench.TypeWhich.Matching.{
  Match, agrees, differs, crashes, ◌>>◌, UnOp-discrete, BinOp-discrete, types_match,
  matches_roughly, match_bindings,
}
use plbench.TypeWhich.Types.{is_metavar}
use plbench.TypeWhich.Fresh.{
  Fresh, next_metavar, inc_metavar, one, two, three, fresh_types, fresh_bindings,
}
use plbench.TypeWhich.Fresh.Annotations.{
  annotations, binding_annotations, has_ann, have_ann, IsSource, IsSourceBindings,
}

-- The types are metavariables, numbered from the first counter to the second as the counter goes.
pub data Counts : ℕ → List Typ → ℕ → Type 0 where
  end : {n : ℕ} → Counts n [] n
  next :
      {n m : ℕ} {ts : List Typ} → Counts ((n + 1) % 2 ^ 32) ts m → Counts n (Typ.metavar n ∷ ts) m

Counts-append :
    {n k m : ℕ} {ts us : List Typ} → Counts n ts k → Counts k us m → Counts n (ts ++ us) m
Counts-append Counts.end d = d
Counts-append (Counts.next c) d = Counts.next (Counts-append c d)

abbrev IsBare : Exp → Type 0
IsBare (Exp.ann e t) = ⊥
IsBare e = Unit

-- The comparison of a program with its fresh version, by whether it has an annotation expression.
abbrev pub verdict : Bool → Match
verdict true = crashes
verdict false = agrees

-- A fresh version of the program: metavariables in the place of the annotations, no annotation at
-- the top, and how the comparison with the program ends.
data Freshened (e : Exp) (n : ℕ) (o : Option (Exp × ℕ)) : Type 0 where
  freshened :
      (e' : Exp) (m : ℕ)
      → o ≡ some (e', m)
      → Counts n (annotations e') m
      → IsBare e'
      → matches_roughly e e' ≡ verdict (has_ann e)
      → Freshened e n o

data FreshBindings (bs : Bindings) (n : ℕ) (o : Option (Bindings × ℕ)) : Type 0 where
  freshened :
      (bs' : Bindings) (m : ℕ)
      → o ≡ some (bs', m)
      → Counts n (binding_annotations bs') m
      → match_bindings bs bs' ≡ verdict (have_ann bs)
      → FreshBindings bs n o

>>-verdict : (a b : Bool) → (verdict a >> verdict b) ≡ verdict (a || b)
>>-verdict true b = refl
>>-verdict false b = refl

-- The comparison goes on with the types of a binder, which agree.
>>-agrees : (m : Match) → (m >> agrees) ≡ m
>>-agrees agrees = refl
>>-agrees differs = refl
>>-agrees crashes = refl

both-verdict :
    {m n : Match} (a b : Bool) → m ≡ verdict a → n ≡ verdict b → (m >> n) ≡ verdict (a || b)
both-verdict a b h k = rw (h, k) (>>-verdict a b)

all-verdict :
    {m n o : Match} (a b c : Bool)
    → m ≡ verdict a
    → n ≡ verdict b
    → o ≡ verdict c
    → (m >> n >> o) ≡ verdict (a || b || c)
all-verdict a b c h k l = both-verdict (a || b) c (both-verdict a b h k) l

metavar-types_match : (t : Typ) (n : ℕ) → types_match t (Typ.metavar n) ≡ agrees
unfolding types_match is_metavar
metavar-types_match t n = refl

coerce-matches_roughly :
    (t u : Typ) (e e' : Exp)
    → IsBare e'
    → matches_roughly (Exp.coerce t u e) e' ≡ matches_roughly e e'
unfolding matches_roughly
coerce-matches_roughly t u e (Exp.ann e' v) b = elim b [ ]
coerce-matches_roughly t u e (Exp.lit l) b = refl
coerce-matches_roughly t u e _ b = refl

ann-matches_roughly :
    (e e' : Exp) (t : Typ) → IsBare e' → matches_roughly (Exp.ann e t) e' ≡ crashes
unfolding matches_roughly
ann-matches_roughly e (Exp.ann e' v) t b = elim b [ ]
ann-matches_roughly e (Exp.lit l) t b = refl
ann-matches_roughly e _ t b = refl

module _ {n : ℕ} where
  one-Freshened :
      (node : Exp → Exp) (e : Exp) (f : Fresh Exp)
      → ((x : Exp) → annotations (node x) ≡ annotations x)
      → ((x : Exp) → IsBare (node x))
      → ((x : Exp) → matches_roughly (node e) (node x) ≡ matches_roughly e x)
      → has_ann (node e) ≡ has_ann e
      → Freshened e n (f n)
      → Freshened (node e) n (one node f n)
  one-Freshened node e f a b c g (Freshened.freshened x m q k d h) =
      Freshened.freshened (node x) m (rw q refl) (rw (a x) k) (b x) (rw (c x, g) h)

  two-Freshened :
      (node : Exp → Exp → Exp) (e1 e2 : Exp) (f1 f2 : Fresh Exp)
      → ((x y : Exp) → annotations (node x y) ≡ annotations x ++ annotations y)
      → ((x y : Exp) → IsBare (node x y))
      → ((x y : Exp)
          → matches_roughly (node e1 e2) (node x y)
            ≡ (matches_roughly e1 x >> matches_roughly e2 y))
      → has_ann (node e1 e2) ≡ (has_ann e1 || has_ann e2)
      → Freshened e1 n (f1 n)
      → ((k : ℕ) → Freshened e2 k (f2 k))
      → Freshened (node e1 e2) n (two node f1 f2 n)
  two-Freshened node e1 e2 f1 f2 a b c g (Freshened.freshened x k q1 c1 b1 h1) r2 = elim (r2 k) [
    | Freshened.freshened y m q2 c2 b2 h2 ↦
        Freshened.freshened (node x y) m (rw (q1, q2) refl) (rw (a x y) (Counts-append c1 c2))
          (b x y) (rw (c x y, g) (both-verdict _ _ h1 h2))
  ]

  three-Freshened :
      (node : Exp → Exp → Exp → Exp) (e1 e2 e3 : Exp) (f1 f2 f3 : Fresh Exp)
      → ((x y z : Exp)
          → annotations (node x y z) ≡ annotations x ++ (annotations y ++ annotations z))
      → ((x y z : Exp) → IsBare (node x y z))
      → ((x y z : Exp)
          → matches_roughly (node e1 e2 e3) (node x y z)
            ≡ (matches_roughly e1 x >> matches_roughly e2 y >> matches_roughly e3 z))
      → has_ann (node e1 e2 e3) ≡ (has_ann e1 || has_ann e2 || has_ann e3)
      → Freshened e1 n (f1 n)
      → ((k : ℕ) → Freshened e2 k (f2 k))
      → ((k : ℕ) → Freshened e3 k (f3 k))
      → Freshened (node e1 e2 e3) n (three node f1 f2 f3 n)
  three-Freshened node e1 e2 e3 f1 f2 f3 a b c g (Freshened.freshened x k q1 c1 b1 h1) r2 r3 =
      elim (r2 k) [
        | Freshened.freshened y l q2 c2 b2 h2 ↦ elim (r3 l) [
          | Freshened.freshened z m q3 c3 b3 h3 ↦
              Freshened.freshened (node x y z) m (rw (q1, q2, q3) refl)
                (rw (a x y z) (Counts-append c1 (Counts-append c2 c3))) (b x y z)
                (rw (c x y z, g) (all-verdict _ _ _ h1 h2 h3))
        ]
      ]

guarded : {A : Type 0} (d : Dec A) (m : Match) → A → ite d m differs ≡ m
guarded (yes a) m p = refl
guarded (no n) m p = absurd (n p)

mutual
  unfolding fresh_types fresh_bindings matches_roughly match_bindings next_metavar inc_metavar

  fresh_types-Freshened : (e : Exp) (n : ℕ) → IsSource e → Freshened e n (fresh_types e n)
  fresh_types-Freshened (Exp.ann e t) n s = elim (fresh_types-Freshened e n s) [
    | Freshened.freshened x m q c b h ↦ Freshened.freshened x m q c b (ann-matches_roughly e x t b)
  ]
  fresh_types-Freshened (Exp.coerce t u e) n s = elim (fresh_types-Freshened e n s) [
    | Freshened.freshened x m q c b h ↦
        Freshened.freshened x m q c b (rw (coerce-matches_roughly t u e x b) h)
  ]
  fresh_types-Freshened (Exp.lit l) n s = Freshened.freshened (Exp.lit l) n refl Counts.end tt refl
  fresh_types-Freshened (Exp.var x) n s = Freshened.freshened (Exp.var x) n refl Counts.end tt refl
  fresh_types-Freshened (Exp.empty t) n s =
      Freshened.freshened (Exp.empty (Typ.metavar n)) ((n + 1) % 2 ^ 32) refl
        (Counts.next Counts.end) tt (metavar-types_match t n)
  fresh_types-Freshened (Exp.func x t e) n s = elim (fresh_types-Freshened e ((n + 1) % 2 ^ 32) s) [
    | Freshened.freshened y m q c b h ↦
        Freshened.freshened (Exp.func x (Typ.metavar n) y) m (rw q refl) (Counts.next c) tt
          (rw (metavar-types_match t n) (>>-agrees _ ∙ h))
  ]
  fresh_types-Freshened (Exp.fix x t e) n s = elim (fresh_types-Freshened e ((n + 1) % 2 ^ 32) s) [
    | Freshened.freshened y m q c b h ↦
        Freshened.freshened (Exp.fix x (Typ.metavar n) y) m (rw q refl) (Counts.next c) tt
          (rw (metavar-types_match t n) (>>-agrees _ ∙ h))
  ]
  fresh_types-Freshened (Exp.let_rec bs e) n s = elim (fresh_bindings-FreshBindings bs n s.0) [
    | FreshBindings.freshened ys k q1 c1 h1 ↦ elim (fresh_types-Freshened e k s.1) [
      | Freshened.freshened y m q2 c2 b h2 ↦
          Freshened.freshened (Exp.let_rec ys y) m (rw (q1, q2) refl) (Counts-append c1 c2) tt
            (both-verdict _ _ h1 h2)
    ]
  ]
  fresh_types-Freshened (Exp.unary_op op e) n s =
      one-Freshened (Exp.unary_op op) e (fresh_types e) (λ x. refl) (λ x. tt)
        (λ x. guarded (UnOp-discrete op op) _ refl) refl (fresh_types-Freshened e n s)
  fresh_types-Freshened (Exp.fst e) n s =
      one-Freshened Exp.fst e (fresh_types e) (λ x. refl) (λ x. tt) (λ x. refl) refl
        (fresh_types-Freshened e n s)
  fresh_types-Freshened (Exp.snd e) n s =
      one-Freshened Exp.snd e (fresh_types e) (λ x. refl) (λ x. tt) (λ x. refl) refl
        (fresh_types-Freshened e n s)
  fresh_types-Freshened (Exp.is_empty e) n s =
      one-Freshened Exp.is_empty e (fresh_types e) (λ x. refl) (λ x. tt) (λ x. refl) refl
        (fresh_types-Freshened e n s)
  fresh_types-Freshened (Exp.head e) n s =
      one-Freshened Exp.head e (fresh_types e) (λ x. refl) (λ x. tt) (λ x. refl) refl
        (fresh_types-Freshened e n s)
  fresh_types-Freshened (Exp.tail e) n s =
      one-Freshened Exp.tail e (fresh_types e) (λ x. refl) (λ x. tt) (λ x. refl) refl
        (fresh_types-Freshened e n s)
  fresh_types-Freshened (Exp.box e) n s =
      one-Freshened Exp.box e (fresh_types e) (λ x. refl) (λ x. tt) (λ x. refl) refl
        (fresh_types-Freshened e n s)
  fresh_types-Freshened (Exp.unbox e) n s =
      one-Freshened Exp.unbox e (fresh_types e) (λ x. refl) (λ x. tt) (λ x. refl) refl
        (fresh_types-Freshened e n s)
  fresh_types-Freshened (Exp.is_bool e) n s =
      one-Freshened Exp.is_bool e (fresh_types e) (λ x. refl) (λ x. tt) (λ x. refl) refl
        (fresh_types-Freshened e n s)
  fresh_types-Freshened (Exp.is_int e) n s =
      one-Freshened Exp.is_int e (fresh_types e) (λ x. refl) (λ x. tt) (λ x. refl) refl
        (fresh_types-Freshened e n s)
  fresh_types-Freshened (Exp.is_string e) n s =
      one-Freshened Exp.is_string e (fresh_types e) (λ x. refl) (λ x. tt) (λ x. refl) refl
        (fresh_types-Freshened e n s)
  fresh_types-Freshened (Exp.is_list e) n s =
      one-Freshened Exp.is_list e (fresh_types e) (λ x. refl) (λ x. tt) (λ x. refl) refl
        (fresh_types-Freshened e n s)
  fresh_types-Freshened (Exp.is_fun e) n s =
      one-Freshened Exp.is_fun e (fresh_types e) (λ x. refl) (λ x. tt) (λ x. refl) refl
        (fresh_types-Freshened e n s)
  fresh_types-Freshened (Exp.vector_len e) n s =
      one-Freshened Exp.vector_len e (fresh_types e) (λ x. refl) (λ x. tt) (λ x. refl) refl
        (fresh_types-Freshened e n s)
  fresh_types-Freshened (Exp.app e1 e2) n s =
      two-Freshened Exp.app e1 e2 (fresh_types e1) (fresh_types e2) (λ x y. refl) (λ x y. tt)
        (λ x y. refl) refl (fresh_types-Freshened e1 n s.0) (λ k. fresh_types-Freshened e2 k s.1)
  fresh_types-Freshened (Exp.add_overload e1 e2) n s =
      two-Freshened Exp.add_overload e1 e2 (fresh_types e1) (fresh_types e2) (λ x y. refl)
        (λ x y. tt) (λ x y. refl) refl (fresh_types-Freshened e1 n s.0)
        (λ k. fresh_types-Freshened e2 k s.1)
  fresh_types-Freshened (Exp.pair e1 e2) n s =
      two-Freshened Exp.pair e1 e2 (fresh_types e1) (fresh_types e2) (λ x y. refl) (λ x y. tt)
        (λ x y. refl) refl (fresh_types-Freshened e1 n s.0) (λ k. fresh_types-Freshened e2 k s.1)
  fresh_types-Freshened (Exp.cons e1 e2) n s =
      two-Freshened Exp.cons e1 e2 (fresh_types e1) (fresh_types e2) (λ x y. refl) (λ x y. tt)
        (λ x y. refl) refl (fresh_types-Freshened e1 n s.0) (λ k. fresh_types-Freshened e2 k s.1)
  fresh_types-Freshened (Exp.box_set e1 e2) n s =
      two-Freshened Exp.box_set e1 e2 (fresh_types e1) (fresh_types e2) (λ x y. refl) (λ x y. tt)
        (λ x y. refl) refl (fresh_types-Freshened e1 n s.0) (λ k. fresh_types-Freshened e2 k s.1)
  fresh_types-Freshened (Exp.vector e1 e2) n s =
      two-Freshened Exp.vector e1 e2 (fresh_types e1) (fresh_types e2) (λ x y. refl) (λ x y. tt)
        (λ x y. refl) refl (fresh_types-Freshened e1 n s.0) (λ k. fresh_types-Freshened e2 k s.1)
  fresh_types-Freshened (Exp.vector_ref e1 e2) n s =
      two-Freshened Exp.vector_ref e1 e2 (fresh_types e1) (fresh_types e2) (λ x y. refl) (λ x y. tt)
        (λ x y. refl) refl (fresh_types-Freshened e1 n s.0) (λ k. fresh_types-Freshened e2 k s.1)
  fresh_types-Freshened (Exp.let_exp x e1 e2) n s =
      two-Freshened (Exp.let_exp x) e1 e2 (fresh_types e1) (fresh_types e2) (λ a b. refl)
        (λ x y. tt) (λ x y. refl) refl (fresh_types-Freshened e1 n s.0)
        (λ k. fresh_types-Freshened e2 k s.1)
  fresh_types-Freshened (Exp.binary_op op e1 e2) n s =
      two-Freshened (Exp.binary_op op) e1 e2 (fresh_types e1) (fresh_types e2) (λ x y. refl)
        (λ x y. tt) (λ x y. guarded (BinOp-discrete op op) _ refl) refl
        (fresh_types-Freshened e1 n s.0) (λ k. fresh_types-Freshened e2 k s.1)
  fresh_types-Freshened (Exp.if_exp e1 e2 e3) n s =
      three-Freshened Exp.if_exp e1 e2 e3 (fresh_types e1) (fresh_types e2) (fresh_types e3)
        (λ x y z. refl) (λ x y z. tt) (λ x y z. refl) refl (fresh_types-Freshened e1 n s.0)
        (λ k. fresh_types-Freshened e2 k s.1) (λ k. fresh_types-Freshened e3 k s.2)
  fresh_types-Freshened (Exp.vector_set e1 e2 e3) n s =
      three-Freshened Exp.vector_set e1 e2 e3 (fresh_types e1) (fresh_types e2) (fresh_types e3)
        (λ x y z. refl) (λ x y z. tt) (λ x y z. refl) refl (fresh_types-Freshened e1 n s.0)
        (λ k. fresh_types-Freshened e2 k s.1) (λ k. fresh_types-Freshened e3 k s.2)
  fresh_types-Freshened (Exp.prim_coerce k e) n s = elim s [ ]

  fresh_bindings-FreshBindings :
      (bs : Bindings) (n : ℕ) → IsSourceBindings bs → FreshBindings bs n (fresh_bindings bs n)
  fresh_bindings-FreshBindings done n s = FreshBindings.freshened done n refl Counts.end refl
  fresh_bindings-FreshBindings (binding x t e bs) n s =
      elim (fresh_types-Freshened e ((n + 1) % 2 ^ 32) s.0) [
        | Freshened.freshened y k q1 c1 b h1 ↦ elim (fresh_bindings-FreshBindings bs k s.1) [
          | FreshBindings.freshened ys m q2 c2 h2 ↦
              FreshBindings.freshened (binding x (Typ.metavar n) y ys) m (rw (q1, q2) refl)
                (Counts.next (Counts-append c1 c2))
                (both-verdict _ _ (rw (metavar-types_match t n) (>>-agrees _ ∙ h1)) h2)
        ]
      ]

-- A program without inserted coercions gets a fresh version, whose annotations are metavariables
-- with the numbers that the counter gives, from the left to the right. The comparison of the program
-- with its fresh version agrees where the program has no annotation expression `e : t`, and panics
-- where it has one.
pub fresh_types-Counts :
    (e : Exp) (n : ℕ)
    → IsSource e
    → (e' : Exp) × ((m : ℕ) × (fresh_types e n ≡ some (e', m))
        × Counts n (annotations e') m
        × (matches_roughly e e' ≡ verdict (has_ann e)))
fresh_types-Counts e n s = elim (fresh_types-Freshened e n s) [
  | Freshened.freshened e' m q c b h ↦ (e', (m, q, c, h))
]
