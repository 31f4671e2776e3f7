-- ===== src/TypeWhich/InsAndOuts/Kinds.antt =====
-- ins_and_outs/syntax.rs, the methods of `Typ`; `none` is a failed assertion or a panic.
use mathlib.Core.Logic.{ite}
use mathlib.Core.Bool.{cond}
use plbench.Prelude.{Bool, true, false, not, ◌&&◌, ◌||◌, Option, none, some}
use plbench.TypeWhich.InsAndOuts.Syntax.{Typ, Typ-discrete}

unfoldable pub is_metavar : Typ → Bool
is_metavar (Typ.metavar n) = true
is_metavar (Typ.metavar_arg t) = true
is_metavar (Typ.metavar_ret t) = true
is_metavar t = false

unfoldable pub get_arg : Typ → Option Typ
unfolding is_metavar
get_arg (Typ.arr t1 t2) = some t1
get_arg t = cond (is_metavar t) (some (Typ.metavar_arg t)) none

unfoldable pub get_ret : Typ → Option Typ
unfolding is_metavar
get_ret (Typ.arr t1 t2) = some t2
get_ret t = cond (is_metavar t) (some (Typ.metavar_ret t)) none

unfoldable pub same : Typ → Typ → Bool
unfolding Typ-discrete
same t u = ite (Typ-discrete t u) true false

-- The match of `is_kind`, below its assertion.
unfoldable pub is_kind_of : Typ → Typ → Bool
unfolding is_metavar same
is_kind_of (Typ.arr t1 t2) x = same t1 (Typ.metavar_arg x) && same t2 (Typ.metavar_ret x)
is_kind_of t x = not (is_metavar t)

-- `Typ::is_kind`; on a metavariable `get_arg` and `get_ret` build its two halves.
unfoldable pub is_kind : Typ → Typ → Option Bool
unfolding is_kind_of
is_kind t x = cond (is_metavar x) (some (is_kind_of t x)) none

unfoldable pub dyn_consistent : Typ → Typ → Bool
dyn_consistent Typ.null u = true
dyn_consistent Typ.any u = true
dyn_consistent t Typ.any = true
dyn_consistent (Typ.arr t1 t2) (Typ.arr u1 u2) = true
dyn_consistent t u = false

-- The last two cases of the match of `least_upper_bound`.
unfoldable pub same_or_any : Typ → Typ → Typ
unfolding Typ-discrete
same_or_any t u = ite (Typ-discrete t u) t Typ.any

-- The match of `least_upper_bound`, below its assertions.
unfoldable pub upper : Typ → Typ → Typ
unfolding same_or_any same
upper Typ.null k = k
upper t Typ.null = t
upper Typ.any k = Typ.any
upper t Typ.any = Typ.any
upper (Typ.arr t1 t2) (Typ.arr u1 u2) =
    cond (same t1 u1 && same t2 u2) (Typ.arr t1 t2) (same_or_any (Typ.arr t1 t2) (Typ.arr u1 u2))
upper t k = same_or_any t k

-- `Typ::least_upper_bound`
unfoldable pub least_upper_bound : Typ → Typ → Option Typ
unfolding is_metavar upper
least_upper_bound t k = cond (is_metavar t || is_metavar k) none (some (upper t k))

-- The match of `kind_of_typ_var`, below its assertion.
unfoldable pub kind_for : Typ → Typ → Option Typ
unfolding is_metavar
kind_for (Typ.arr t1 t2) x = some (Typ.arr (Typ.metavar_arg x) (Typ.metavar_ret x))
kind_for t x = cond (is_metavar t) none (some t)

-- `Typ::kind_of_typ_var`
unfoldable pub kind_of_typ_var : Typ → Typ → Option Typ
unfolding is_metavar kind_for
kind_of_typ_var t x = cond (is_metavar x) (kind_for t x) none
