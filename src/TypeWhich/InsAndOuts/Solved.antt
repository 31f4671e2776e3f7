-- ===== src/TypeWhich/InsAndOuts/Solved.antt =====
-- ins_and_outs/solve.rs: the least upper bound of the flows into a variable.
use mathlib.Core.Logic.{ite}
use mathlib.Core.Path.{subst}
use plbench.Prelude.{
  Bool, true, false, not, ◌&&◌, ◌≡◌, ◌⊎◌, inl, inr, refl, sym, List, [], ◌∷◌, map, All, Option,
  some, arith, if◌then◌else◌,
}
use plbench.TypeWhich.InsAndOuts.Syntax.{Typ, Typ-discrete}
use plbench.TypeWhich.InsAndOuts.Kinds.{
  is_metavar, same, is_kind_of, is_kind, upper, least_upper_bound, kind_for, kind_of_typ_var,
}
use plbench.TypeWhich.InsAndOuts.Bounds.{Under, IsLeast, is_least, upper-IsLeast}
use plbench.TypeWhich.InsAndOuts.Solve.{inflows, lub_from, lub_of}

-- The kind, for a variable, of a type.
abbrev pub kind_at : Typ → Typ → Typ
kind_at x (Typ.arr t u) = Typ.arr (Typ.metavar_arg x) (Typ.metavar_ret x)
kind_at x t = t

abbrev pub IsSolid : Typ → Type 0
IsSolid t = is_metavar t ≡ false

-- The least type above those of a list.
pub data IsLeastOf (ks : List Typ) (m : Typ) : Type 0 where
  is_least_of :
      All (λ k. Under k m) ks → ((u : Typ) → All (λ k. Under k u) ks → Under m u) → IsLeastOf ks m

Under-trans : {t u v : Typ} → Under t u → Under u v → Under t v
Under-trans Under.least k = Under.least
Under-trans Under.greatest Under.greatest = Under.greatest
Under-trans Under.greatest Under.itself = Under.greatest
Under-trans Under.itself k = k

above : {t m : Typ} → Under t m → (t ≡ Typ.null) ⊎ (m ≡ Typ.any) ⊎ (m ≡ t)
above Under.least = inl refl
above Under.greatest = inr (inl refl)
above Under.itself = inr (inr refl)

is_kind_of-IsSolid : (t x : Typ) → is_kind_of t x ≡ true → IsSolid t
unfolding is_kind_of is_metavar
is_kind_of-IsSolid (Typ.metavar n) x h = absurd (ground arith)
is_kind_of-IsSolid (Typ.metavar_arg t) x h = absurd (ground arith)
is_kind_of-IsSolid (Typ.metavar_ret t) x h = absurd (ground arith)
is_kind_of-IsSolid _ x h = refl

is_kind_of-upper :
    (x t k : Typ) → is_kind_of t x ≡ true → is_kind_of k x ≡ true → is_kind_of (upper t k) x ≡ true
unfolding upper is_kind_of is_metavar
is_kind_of-upper x t k p q = cases (upper-IsLeast t k)
  where
    cases : IsLeast t k (upper t k) → is_kind_of (upper t k) x ≡ true
    cases (is_least a b f) = elim (above a) [
      | inl e ↦ subst (λ s. is_kind_of (upper s k) x ≡ true) (sym e) q
      | inr (inl e) ↦ subst (λ s. is_kind_of s x ≡ true) (sym e) refl
      | inr (inr e) ↦ subst (λ s. is_kind_of s x ≡ true) (sym e) p
    ]

same_self : (t : Typ) → same t t ≡ true
unfolding same
same_self t = decided (Typ-discrete t t)
  where
    decided : (d : Dec (t ≡ t)) → ite d true false ≡ true
    decided (yes e) = refl
    decided (no ne) = absurd (ne refl)

is_kind_of-kind_at : (x t : Typ) → IsSolid t → is_kind_of (kind_at x t) x ≡ true
unfolding is_kind_of is_metavar
is_kind_of-kind_at x (Typ.arr t u) h =
    rw (same_self (Typ.metavar_arg x), same_self (Typ.metavar_ret x)) refl
is_kind_of-kind_at x (Typ.metavar n) h = absurd (ground arith)
is_kind_of-kind_at x (Typ.metavar_arg t) h = absurd (ground arith)
is_kind_of-kind_at x (Typ.metavar_ret t) h = absurd (ground arith)
is_kind_of-kind_at x _ h = refl

kind_of_typ_var-IsSolid :
    (t x : Typ) → is_metavar x ≡ true → IsSolid t → kind_of_typ_var t x ≡ some (kind_at x t)
unfolding kind_of_typ_var kind_for is_metavar
kind_of_typ_var-IsSolid (Typ.metavar n) x v h = absurd (ground arith)
kind_of_typ_var-IsSolid (Typ.metavar_arg t) x v h = absurd (ground arith)
kind_of_typ_var-IsSolid (Typ.metavar_ret t) x v h = absurd (ground arith)
kind_of_typ_var-IsSolid _ x v h = rw (v) refl

least_upper_bound-IsSolid :
    (t k : Typ) → IsSolid t → IsSolid k → least_upper_bound t k ≡ some (upper t k)
unfolding least_upper_bound
least_upper_bound-IsSolid t k h i = rw (h, i) refl

-- What the fold returns, for the types behind it and before it.
data Lub (x : Typ) (ks : List Typ) (o : Option Typ) : Type 0 where
  lub : (m : Typ) → o ≡ some m → is_kind_of m x ≡ true → IsLeastOf ks m → Lub x ks o

lub_from-Lub :
    (x l : Typ) (ts : List Typ)
    → is_metavar x ≡ true
    → is_kind_of l x ≡ true
    → All IsSolid ts
    → Lub x (l ∷ map (kind_at x) ts) (lub_from x l ts)
unfolding lub_from
lub_from-Lub x l [] v p h = lub l refl p (is_least_of (Under.itself, tt) (λ u a. a.0))
lub_from-Lub x l (t ∷ ts) v p (h, hs) =
    join (upper-IsLeast l k) (lub_from-Lub x (upper l k) ts v (is_kind_of-upper x l k p q) hs)
  where
    k : Typ
    k = kind_at x t

    q : is_kind_of k x ≡ true
    q = is_kind_of-kind_at x t h

    join :
        IsLeast l k (upper l k)
        → Lub x (upper l k ∷ map (kind_at x) ts) (lub_from x (upper l k) ts)
        → Lub x (l ∷ k ∷ map (kind_at x) ts) (lub_from x l (t ∷ ts))
    join (is_least a b f) (lub m e r (is_least_of (c, cs) g)) =
        lub m
          (rw
            (
              kind_of_typ_var-IsSolid t x v h,
              least_upper_bound-IsSolid l k (is_kind_of-IsSolid l x p) (is_kind_of-IsSolid k x q),
            )
            e)
          r
          (is_least_of (Under-trans a c, (Under-trans b c, cs)) (λ u d. g u (f u d.0 d.1.0, d.1.1)))

inflows-IsSolid : (x : Typ) (cs : List (Typ × Typ)) → All IsSolid (inflows x cs)
unfolding inflows
inflows-IsSolid x [] = tt
inflows-IsSolid x ((from, to) ∷ cs) =
    kept (same to x) (is_metavar to) (is_metavar from) refl (inflows-IsSolid x cs)
  where
    kept :
        (a b c : Bool)
        → is_metavar from ≡ c
        → All IsSolid (inflows x cs)
        → All IsSolid (if a && b && not c then from ∷ inflows x cs else inflows x cs)
    kept true true true e h = h
    kept true true false e h = (e, h)
    kept true false c e h = h
    kept false b c e h = h

-- For a variable with a flow into it, the fold of `solve_closure` meets no failed assertion, and
-- its result is a kind for that variable and the least upper bound of the kinds, for that
-- variable, of the types that flow into it.
pub lub_of-inflows :
    (x : Typ) (cs : List (Typ × Typ)) (t : Typ) (ts : List Typ)
    → is_metavar x ≡ true
    → inflows x cs ≡ t ∷ ts
    → (m : Typ) × (lub_of x t ts ≡ some m)
      × (is_kind m x ≡ some true)
      × IsLeastOf (map (kind_at x) (t ∷ ts)) m
unfolding lub_of is_kind
lub_of-inflows x cs t ts v e = found (subst (λ us. All IsSolid us) e (inflows-IsSolid x cs))
  where
    found :
        All IsSolid (t ∷ ts)
        → (m : Typ) × (lub_of x t ts ≡ some m)
          × (is_kind m x ≡ some true)
          × IsLeastOf (map (kind_at x) (t ∷ ts)) m
    found (h, hs) = elim (lub_from-Lub x (kind_at x t) ts v (is_kind_of-kind_at x t h) hs) [
      | lub m p q l ↦ (m, rw (kind_of_typ_var-IsSolid t x v h) p, rw (v, q) refl, l)
    ]
