-- ===== src/TypeWhich/Coercions/Typing.antt =====
-- insert_coercions.rs, `coerce`: the types of coercions.
use mathlib.Core.Logic.{ite}
use plbench.Prelude.{ℕ, zero, suc, ◌+◌, ◌≤◌, ◌≡◌, refl, arith}
use plbench.TypeWhich.Syntax.{Typ, Typ-discrete, GroundTyp, Coerce}
use plbench.TypeWhich.Coercions as Coercions
use plbench.TypeWhich.Coercions.{size, coerce_fuel, coerce}

-- The type that a tag marks.
abbrev pub ground_type : GroundTyp → Typ
ground_type GroundTyp.int = Typ.int
ground_type GroundTyp.bool = Typ.bool
ground_type GroundTyp.func = Typ.arr Typ.any Typ.any

-- The coercion takes a value of the first type to one of the second, or fails.
pub data Coerces : Coerce → Typ → Typ → Type 0 where
  id : {t : Typ} → Coerces Coerce.id t t
  tag : {g : GroundTyp} {t : Typ} → t ≡ ground_type g → Coerces (Coerce.tag g) t Typ.any
  untag : {g : GroundTyp} {t : Typ} → t ≡ ground_type g → Coerces (Coerce.untag g) Typ.any t
  wrap :
      {k1 k2 : Coerce} {t1 t2 u1 u2 : Typ}
      → Coerces k1 u1 t1
      → Coerces k2 t2 u2
      → Coerces (Coerce.wrap k1 k2) (Typ.arr t1 t2) (Typ.arr u1 u2)
  seq :
      {k1 k2 : Coerce} {t u v : Typ}
      → Coerces k1 t u
      → Coerces k2 u v
      → Coerces (Coerce.seq k1 k2) t v
  doomed : {t u : Typ} → Coerces Coerce.doomed t u

same : (t u : Typ) (d : Dec (t ≡ u)) → Coerces (ite d Coerce.id Coerce.doomed) t u
same t u (yes e) = rw e Coerces.id
same t u (no ne) = Coerces.doomed

coerce_fuel-Coerces : (n : ℕ) (src dst : Typ) → Coerces (coerce_fuel n src dst) src dst
unfolding coerce_fuel Coercions.seq
coerce_fuel-Coerces zero src dst = Coerces.doomed
coerce_fuel-Coerces (suc n) Typ.int Typ.any = Coerces.tag {g = GroundTyp.int} refl
coerce_fuel-Coerces (suc n) Typ.bool Typ.any = Coerces.tag {g = GroundTyp.bool} refl
coerce_fuel-Coerces (suc n) (Typ.arr dom rng) Typ.any =
    Coerces.seq
      (Coerces.wrap (coerce_fuel-Coerces n Typ.any dom) (coerce_fuel-Coerces n rng Typ.any))
      (Coerces.tag {g = GroundTyp.func} refl)
coerce_fuel-Coerces (suc n) (Typ.arr dom1 rng1) (Typ.arr dom2 rng2) =
    Coerces.wrap (coerce_fuel-Coerces n dom2 dom1) (coerce_fuel-Coerces n rng1 rng2)
coerce_fuel-Coerces (suc n) Typ.any Typ.int = Coerces.untag {g = GroundTyp.int} refl
coerce_fuel-Coerces (suc n) Typ.any Typ.bool = Coerces.untag {g = GroundTyp.bool} refl
coerce_fuel-Coerces (suc n) Typ.any (Typ.arr dom rng) =
    Coerces.seq (Coerces.untag {g = GroundTyp.func} refl)
      (Coerces.wrap (coerce_fuel-Coerces n dom Typ.any) (coerce_fuel-Coerces n Typ.any rng))
coerce_fuel-Coerces (suc n) src dst = same src dst (Typ-discrete src dst)

-- `coerce` gives a coercion from its first type to its second.
pub coerce-Coerces : (src dst : Typ) → Coerces (coerce src dst) src dst
unfolding coerce
coerce-Coerces src dst = coerce_fuel-Coerces (size src + size dst) src dst

-- The types that a value can pass between, as the gradual language has it: `any` is consistent with
-- integers, Booleans and functions of consistent types.
pub data Consistent : Typ → Typ → Type 0 where
  int : Consistent Typ.int Typ.int
  bool : Consistent Typ.bool Typ.bool
  any : Consistent Typ.any Typ.any
  int_any : Consistent Typ.int Typ.any
  bool_any : Consistent Typ.bool Typ.any
  any_int : Consistent Typ.any Typ.int
  any_bool : Consistent Typ.any Typ.bool
  arr_any :
      {t u : Typ} → Consistent Typ.any t → Consistent u Typ.any → Consistent (Typ.arr t u) Typ.any
  any_arr :
      {t u : Typ} → Consistent t Typ.any → Consistent Typ.any u → Consistent Typ.any (Typ.arr t u)
  arr :
      {t1 t2 u1 u2 : Typ}
      → Consistent u1 t1
      → Consistent t2 u2
      → Consistent (Typ.arr t1 t2) (Typ.arr u1 u2)

-- No part of the coercion is doomed.
abbrev pub IsHopeful : Coerce → Type 0
IsHopeful Coerce.doomed = ⊥
IsHopeful (Coerce.wrap k1 k2) = IsHopeful k1 × IsHopeful k2
IsHopeful (Coerce.seq k1 k2) = IsHopeful k1 × IsHopeful k2
IsHopeful _ = Unit

itself : (t : Typ) (d : Dec (t ≡ t)) → IsHopeful (ite d Coerce.id Coerce.doomed)
itself t (yes e) = tt
itself t (no ne) = absurd (ne refl)

coerce_fuel-IsHopeful :
    {src dst : Typ}
    → Consistent src dst
    → (n : ℕ) → size src + size dst ≤ n
    → IsHopeful (coerce_fuel n src dst)
unfolding coerce_fuel size Coercions.seq
coerce_fuel-IsHopeful Consistent.int zero le = absurd (omega arith)
coerce_fuel-IsHopeful Consistent.int (suc n) le = itself Typ.int (Typ-discrete Typ.int Typ.int)
coerce_fuel-IsHopeful Consistent.bool zero le = absurd (omega arith)
coerce_fuel-IsHopeful Consistent.bool (suc n) le = itself Typ.bool (Typ-discrete Typ.bool Typ.bool)
coerce_fuel-IsHopeful Consistent.any zero le = absurd (omega arith)
coerce_fuel-IsHopeful Consistent.any (suc n) le = itself Typ.any (Typ-discrete Typ.any Typ.any)
coerce_fuel-IsHopeful Consistent.int_any zero le = absurd (omega arith)
coerce_fuel-IsHopeful Consistent.int_any (suc n) le = tt
coerce_fuel-IsHopeful Consistent.bool_any zero le = absurd (omega arith)
coerce_fuel-IsHopeful Consistent.bool_any (suc n) le = tt
coerce_fuel-IsHopeful Consistent.any_int zero le = absurd (omega arith)
coerce_fuel-IsHopeful Consistent.any_int (suc n) le = tt
coerce_fuel-IsHopeful Consistent.any_bool zero le = absurd (omega arith)
coerce_fuel-IsHopeful Consistent.any_bool (suc n) le = tt
coerce_fuel-IsHopeful (Consistent.arr_any h k) zero le = absurd (omega arith)
coerce_fuel-IsHopeful (Consistent.arr_any h k) (suc n) le =
    ((coerce_fuel-IsHopeful h n (omega arith), coerce_fuel-IsHopeful k n (omega arith)), tt)
coerce_fuel-IsHopeful (Consistent.any_arr h k) zero le = absurd (omega arith)
coerce_fuel-IsHopeful (Consistent.any_arr h k) (suc n) le =
    (tt, (coerce_fuel-IsHopeful h n (omega arith), coerce_fuel-IsHopeful k n (omega arith)))
coerce_fuel-IsHopeful (Consistent.arr h k) zero le = absurd (omega arith)
coerce_fuel-IsHopeful (Consistent.arr h k) (suc n) le =
    (coerce_fuel-IsHopeful h n (omega arith), coerce_fuel-IsHopeful k n (omega arith))

-- Between consistent types `coerce` gives a coercion without a doomed part.
pub coerce-IsHopeful : (src dst : Typ) → Consistent src dst → IsHopeful (coerce src dst)
unfolding coerce
coerce-IsHopeful src dst h = coerce_fuel-IsHopeful h (size src + size dst) (omega arith)
