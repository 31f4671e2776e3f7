-- ===== src/TypeWhich/Precision.antt =====
-- precision.rs, `typ_lt`: whether a type is at most as dynamic as another.
pub mod Order
pub mod Expressions
use plbench.Prelude.{Bool, true, false, ◌&&◌}
use plbench.TypeWhich.Syntax.{Typ, any, metavar, unit, int, float, bool, str, char, arr, pair, vect}

unfoldable pub typ_lt : Typ → Typ → Bool
typ_lt t any = true
typ_lt t (metavar n) = true
typ_lt unit unit = true
typ_lt int int = true
typ_lt float float = true
typ_lt bool bool = true
typ_lt str str = true
typ_lt char char = true
typ_lt (arr t11 t12) (arr t21 t22) = typ_lt t11 t21 && typ_lt t12 t22
typ_lt (pair t11 t12) (pair t21 t22) = typ_lt t11 t21 && typ_lt t12 t22
typ_lt (vect t11) (vect t21) = typ_lt t11 t21
typ_lt _ _ = false
