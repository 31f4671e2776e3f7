-- ===== src/TypeWhich/InsAndOuts/Solve.antt =====
-- ins_and_outs/solve.rs, `solve_closure`: the flows into a type variable and their least upper
-- bound. A set of flows is the list of its elements in the order of the iteration, and a table is
-- read at one key.
use plbench.Prelude.{not, ◌&&◌, if◌then◌else◌, List, [], ◌∷◌, Option, none, some}
use plbench.TypeWhich.InsAndOuts.Syntax.{Typ}
use plbench.TypeWhich.InsAndOuts.Kinds.{is_metavar, same, least_upper_bound, kind_of_typ_var}

-- The entry of `inflows` at a variable; an empty list stands for no entry.
unfoldable pub inflows : Typ → List (Typ × Typ) → List Typ
unfolding is_metavar same
inflows x [] = []
inflows x ((from, to) ∷ cs) =
    let rest = inflows x cs in
    if same to x && is_metavar to && not (is_metavar from) then from ∷ rest else rest

infixl 5 ◌>>=◌
abbrev pub ◌>>=◌ : {A B : Type 0} → Option A → (A → Option B) → Option B
none >>= f = none
some a >>= f = f a

-- The steps of the fold; `none` is a failed assertion.
unfoldable pub lub_from : Typ → Typ → List Typ → Option Typ
unfolding kind_of_typ_var least_upper_bound
lub_from x lub [] = some lub
lub_from x lub (t ∷ ts) = do
  k ← kind_of_typ_var t x
  next ← least_upper_bound lub k
  lub_from x next ts

-- The entry of `lubs` at a variable with these flows.
unfoldable pub lub_of : Typ → Typ → List Typ → Option Typ
unfolding kind_of_typ_var lub_from
lub_of x first ts = do k ← kind_of_typ_var first x; lub_from x k ts
