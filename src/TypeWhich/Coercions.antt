-- ===== src/TypeWhich/Coercions.antt =====
-- insert_coercions.rs, `coerce`, and syntax.rs, `Coerce::seq`: the coercion from a type to another.
pub mod Typing
use mathlib.Core.Logic.{ite}
use plbench.Prelude.{ℕ, zero, suc, ◌+◌}
use plbench.TypeWhich.Syntax.{Typ, Typ-discrete, GroundTyp, Coerce}

-- `Coerce::seq`
unfoldable pub seq : Coerce → Coerce → Coerce
seq Coerce.id other = other
seq k Coerce.id = k
seq k other = Coerce.seq k other

-- The number of constructors of a type.
unfoldable pub size : Typ → ℕ
size (Typ.arr t u) = suc (size t + size u)
size (Typ.pair t u) = suc (size t + size u)
size (Typ.list t) = suc (size t)
size (Typ.box t) = suc (size t)
size (Typ.vect t) = suc (size t)
size _ = 1

-- `coerce` on fuel: the calls swap the two types, so neither one alone gets smaller.
unfoldable pub coerce_fuel : ℕ → Typ → Typ → Coerce
unfolding seq
coerce_fuel zero src dst = Coerce.doomed
coerce_fuel (suc n) Typ.int Typ.any = Coerce.tag GroundTyp.int
coerce_fuel (suc n) Typ.bool Typ.any = Coerce.tag GroundTyp.bool
coerce_fuel (suc n) (Typ.arr dom rng) Typ.any =
    seq (Coerce.wrap (coerce_fuel n Typ.any dom) (coerce_fuel n rng Typ.any))
      (Coerce.tag GroundTyp.func)
coerce_fuel (suc n) (Typ.arr dom1 rng1) (Typ.arr dom2 rng2) =
    Coerce.wrap (coerce_fuel n dom2 dom1) (coerce_fuel n rng1 rng2)
coerce_fuel (suc n) Typ.any Typ.int = Coerce.untag GroundTyp.int
coerce_fuel (suc n) Typ.any Typ.bool = Coerce.untag GroundTyp.bool
coerce_fuel (suc n) Typ.any (Typ.arr dom rng) =
    seq (Coerce.untag GroundTyp.func)
      (Coerce.wrap (coerce_fuel n dom Typ.any) (coerce_fuel n Typ.any rng))
coerce_fuel (suc n) src dst = ite (Typ-discrete src dst) Coerce.id Coerce.doomed

unfoldable pub coerce : Typ → Typ → Coerce
unfolding coerce_fuel size
coerce src dst = coerce_fuel (size src + size dst) src dst
