-- ===== src/TypeWhich/Types.antt =====
-- syntax.rs, the methods of `Typ`.
use mathlib.Core.Logic.{ite}
use mathlib.Core.Bool.{cond}
use plbench.Prelude.{Bool, true, false, ◌||◌, List, [], ◌∷◌, Option, none, some}
use plbench.TypeWhich.Syntax.{Typ, Typ-discrete}

-- The loop of `arrs` over all but the last type, which `last` is.
unfoldable pub arrs_onto : List Typ → Typ → Typ
arrs_onto [] last = last
arrs_onto (t ∷ ts) last = Typ.arr t (arrs_onto ts last)

unfoldable pub init : Typ → List Typ → List Typ
init t [] = []
init t (u ∷ ts) = t ∷ init u ts

unfoldable pub last : Typ → List Typ → Typ
last t [] = t
last t (u ∷ ts) = last u ts

-- `Typ::arrs`; `none` is the failed assertion.
unfoldable pub arrs : List Typ → Option Typ
unfolding arrs_onto init last
arrs [] = none
arrs (t ∷ []) = some (Typ.arr Typ.unit t)
arrs (t ∷ ts) = some (arrs_onto (init t ts) (last t ts))

-- `Typ::tuples`
unfoldable pub tuples : List Typ → Typ
tuples [] = Typ.unit
tuples (t ∷ ts) = Typ.pair t (tuples ts)

unfoldable pub is_arr : Typ → Bool
is_arr (Typ.arr t u) = true
is_arr t = false

unfoldable pub is_metavar : Typ → Bool
is_metavar (Typ.metavar n) = true
is_metavar t = false

-- `Typ::join`; `none` is the panic on metavariables.
unfoldable pub join : Typ → Typ → Option Typ
unfolding is_metavar Typ-discrete
join t u = cond (is_metavar t || is_metavar u) none (some (ite (Typ-discrete t u) t Typ.any))

-- `Typ::is_atom`
unfoldable pub is_atom : Typ → Bool
is_atom (Typ.arr t u) = true
is_atom (Typ.list t) = true
is_atom (Typ.pair t u) = true
is_atom (Typ.box t) = true
is_atom (Typ.vect t) = true
is_atom t = false
