-- ===== src/TypeWhich/InsAndOuts/Bounds.antt =====
-- ins_and_outs/syntax.rs, `least_upper_bound` in the order of the kinds.
use mathlib.Core.Logic.{ite}
use mathlib.Core.Bool.{cond}
use mathlib.Core.Option.{some-injective}
use mathlib.Core.Path.{subst}
use plbench.Prelude.{
  Bool, true, false, ◌&&◌, ◌||◌, ◌≡◌, ◌≢◌, ◌↔◌, ◌⊎◌, inl, inr, refl, sym, ap, ◌∙◌, none, some,
  arith,
}
use plbench.TypeWhich.InsAndOuts.Syntax.{Typ, Typ-discrete}
use plbench.TypeWhich.InsAndOuts.Kinds.{is_metavar, upper, same, same_or_any, least_upper_bound}

-- The order of the kinds: `null` is below all, `any` is above all, and no two others compare.
pub data Under : Typ → Typ → Type 0 where
  least : {t : Typ} → Under Typ.null t
  greatest : {t : Typ} → Under t Typ.any
  itself : {t : Typ} → Under t t

-- A least upper bound of two types.
pub data IsLeast (t k m : Typ) : Type 0 where
  is_least : Under t m → Under k m → ((u : Typ) → Under t u → Under k u → Under m u) → IsLeast t k m

-- The types above one that is not `null`.
Under-cases : {t u : Typ} → t ≢ Typ.null → Under t u → (u ≡ Typ.any) ⊎ (t ≡ u)
Under-cases n Under.least = absurd (n refl)
Under-cases n Under.greatest = inl refl
Under-cases n Under.itself = inr refl

Under-antisym : {t u : Typ} → Under t u → Under u t → t ≡ u
Under-antisym Under.least Under.least = refl
Under-antisym Under.least Under.itself = refl
Under-antisym Under.greatest Under.greatest = refl
Under-antisym Under.greatest Under.itself = refl
Under-antisym Under.itself h = refl

any-IsLeast : {t k : Typ} → t ≢ Typ.null → k ≢ Typ.null → t ≢ k → IsLeast t k Typ.any
any-IsLeast {t} {k} nt nk ne =
    is_least Under.greatest Under.greatest (λ u p q. above u (Under-cases nt p) (Under-cases nk q))
  where
    above : (u : Typ) → (u ≡ Typ.any) ⊎ (t ≡ u) → (u ≡ Typ.any) ⊎ (k ≡ u) → Under Typ.any u
    above u (inl p) q = subst (λ v. Under Typ.any v) (sym p) Under.itself
    above u (inr p) (inl q) = subst (λ v. Under Typ.any v) (sym q) Under.itself
    above u (inr p) (inr q) = absurd (ne (p ∙ sym q))

self-IsLeast : {t k : Typ} → t ≡ k → IsLeast t k t
self-IsLeast {t} p = subst (λ k. IsLeast t k t) p (is_least Under.itself Under.itself (λ u h k. h))

any_top-IsLeast : (t : Typ) → IsLeast t Typ.any Typ.any
any_top-IsLeast t = is_least Under.greatest Under.itself (λ u h k. k)

same_or_any-IsLeast : (t k : Typ) → t ≢ Typ.null → k ≢ Typ.null → IsLeast t k (same_or_any t k)
unfolding same_or_any
same_or_any-IsLeast t k nt nk = decided (Typ-discrete t k)
  where
    decided : (d : Dec (t ≡ k)) → IsLeast t k (ite d t Typ.any)
    decided (yes p) = self-IsLeast p
    decided (no ne) = any-IsLeast nt nk ne

same-eq : (t u : Typ) → same t u ≡ true → t ≡ u
unfolding same
same-eq t u = decided (Typ-discrete t u)
  where
    decided : (d : Dec (t ≡ u)) → ite d true false ≡ true → t ≡ u
    decided (yes p) h = p
    decided (no ne) h = absurd (ground arith)

arr-IsLeast :
    (t1 t2 u1 u2 : Typ) (a b : Bool)
    → (a ≡ true → t1 ≡ u1)
    → (b ≡ true → t2 ≡ u2)
    → IsLeast
        (Typ.arr t1 t2)
        (Typ.arr u1 u2)
        (cond (a && b) (Typ.arr t1 t2) (same_or_any (Typ.arr t1 t2) (Typ.arr u1 u2)))
arr-IsLeast t1 t2 u1 u2 true true p q = self-IsLeast (λ i. Typ.arr (p refl i) (q refl i))
arr-IsLeast t1 t2 u1 u2 true false p q =
    same_or_any-IsLeast (Typ.arr t1 t2) (Typ.arr u1 u2) (λ e. cc) (λ e. cc)
arr-IsLeast t1 t2 u1 u2 false b p q =
    same_or_any-IsLeast (Typ.arr t1 t2) (Typ.arr u1 u2) (λ e. cc) (λ e. cc)

pub upper-IsLeast : (t k : Typ) → IsLeast t k (upper t k)
unfolding upper
upper-IsLeast Typ.null k = is_least Under.least Under.itself (λ u h k. k)
upper-IsLeast t Typ.null = is_least Under.itself Under.least (λ u h k. h)
upper-IsLeast Typ.any k = is_least Under.itself Under.greatest (λ u h k. h)
upper-IsLeast t Typ.any = any_top-IsLeast t
upper-IsLeast (Typ.arr t1 t2) (Typ.arr u1 u2) =
    arr-IsLeast t1 t2 u1 u2 (same t1 u1) (same t2 u2) (same-eq t1 u1) (same-eq t2 u2)
upper-IsLeast t k = same_or_any-IsLeast t k (λ e. cc) (λ e. cc)

IsLeast-unique : {t k m n : Typ} → IsLeast t k m → IsLeast t k n → m ≡ n
IsLeast-unique {m} {n} (is_least a b f) (is_least c d g) = Under-antisym (f n c d) (g m a b)

-- `least_upper_bound` returns a type for two types exactly where neither is a metavariable and it
-- is their least upper bound in the order of the kinds.
least_upper_bound_iff :
    (t k m : Typ)
    → (least_upper_bound t k ≡ some m)
      ↔ ((is_metavar t ≡ false) × (is_metavar k ≡ false) × IsLeast t k m)
unfolding least_upper_bound
least_upper_bound_iff t k m = decided (is_metavar t) (is_metavar k)
  where
    decided :
        (a b : Bool)
        → (cond (a || b) none (some (upper t k)) ≡ some m)
          ↔ ((a ≡ false) × (b ≡ false) × IsLeast t k m)
    decided false false = (
      λ h. (
        refl,
        refl,
        subst (λ n. IsLeast t k n) (some-injective (upper t k) m h) (upper-IsLeast t k),
      ),
      λ h. ap some (IsLeast-unique (upper-IsLeast t k) h.2),
    )
    decided false true = (λ h. absurd (ground arith), λ h. absurd (ground arith))
    decided true b = (λ h. absurd (ground arith), λ h. absurd (ground arith))
