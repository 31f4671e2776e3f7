-- ===== src/TypeWhich/Precision/Order.antt =====
-- precision.rs, `typ_lt` as an order.
use plbench.Prelude.{ℕ, arith, ◌≡◌, refl, ap, ◌↔◌, Bool, true, ◌&&◌}
use plbench.TypeWhich.Syntax.{Typ}
use plbench.TypeWhich.Precision.{typ_lt}

-- The pairs of types that the code has a case for.
data Compared : Typ → Typ → Type 0 where
  any : {t : Typ} → Compared t Typ.any
  metavar : {t : Typ} {n : ℕ} → Compared t (Typ.metavar n)
  unit : Compared Typ.unit Typ.unit
  int : Compared Typ.int Typ.int
  float : Compared Typ.float Typ.float
  bool : Compared Typ.bool Typ.bool
  str : Compared Typ.str Typ.str
  char : Compared Typ.char Typ.char
  arr :
      {t1 t2 u1 u2 : Typ}
      → Compared t1 u1
      → Compared t2 u2
      → Compared (Typ.arr t1 t2) (Typ.arr u1 u2)
  pair :
      {t1 t2 u1 u2 : Typ}
      → Compared t1 u1
      → Compared t2 u2
      → Compared (Typ.pair t1 t2) (Typ.pair u1 u2)
  vect : {t u : Typ} → Compared t u → Compared (Typ.vect t) (Typ.vect u)

-- No list and no box in the type.
abbrev pub IsCovered : Typ → Type 0
IsCovered (Typ.list t) = ⊥
IsCovered (Typ.box t) = ⊥
IsCovered (Typ.arr t u) = IsCovered t × IsCovered u
IsCovered (Typ.pair t u) = IsCovered t × IsCovered u
IsCovered (Typ.vect t) = IsCovered t
IsCovered _ = Unit

-- Neither `any` nor a metavariable in the type.
abbrev pub IsStatic : Typ → Type 0
IsStatic Typ.any = ⊥
IsStatic (Typ.metavar n) = ⊥
IsStatic (Typ.list t) = IsStatic t
IsStatic (Typ.box t) = IsStatic t
IsStatic (Typ.arr t u) = IsStatic t × IsStatic u
IsStatic (Typ.pair t u) = IsStatic t × IsStatic u
IsStatic (Typ.vect t) = IsStatic t
IsStatic _ = Unit

&&-true : (a b : Bool) → (a && b) ≡ true → (a ≡ true) × (b ≡ true)
&&-true a b h = (ground arith, ground arith)

typ_lt-Compared : (t u : Typ) → typ_lt t u ≡ true → Compared t u
unfolding typ_lt
typ_lt-Compared t Typ.any h = Compared.any
typ_lt-Compared t (Typ.metavar n) h = Compared.metavar
typ_lt-Compared Typ.unit Typ.unit h = Compared.unit
typ_lt-Compared Typ.int Typ.int h = Compared.int
typ_lt-Compared Typ.float Typ.float h = Compared.float
typ_lt-Compared Typ.bool Typ.bool h = Compared.bool
typ_lt-Compared Typ.str Typ.str h = Compared.str
typ_lt-Compared Typ.char Typ.char h = Compared.char
typ_lt-Compared (Typ.arr t1 t2) (Typ.arr u1 u2) h =
    let (p, q) = &&-true (typ_lt t1 u1) (typ_lt t2 u2) h in
    Compared.arr (typ_lt-Compared t1 u1 p) (typ_lt-Compared t2 u2 q)
typ_lt-Compared (Typ.pair t1 t2) (Typ.pair u1 u2) h =
    let (p, q) = &&-true (typ_lt t1 u1) (typ_lt t2 u2) h in
    Compared.pair (typ_lt-Compared t1 u1 p) (typ_lt-Compared t2 u2 q)
typ_lt-Compared (Typ.vect t) (Typ.vect u) h = Compared.vect (typ_lt-Compared t u h)
typ_lt-Compared _ _ h = absurd (ground arith)

Compared-typ_lt : {t u : Typ} → Compared t u → typ_lt t u ≡ true
unfolding typ_lt
Compared-typ_lt Compared.any = refl
Compared-typ_lt Compared.metavar = refl
Compared-typ_lt Compared.unit = refl
Compared-typ_lt Compared.int = refl
Compared-typ_lt Compared.float = refl
Compared-typ_lt Compared.bool = refl
Compared-typ_lt Compared.str = refl
Compared-typ_lt Compared.char = refl
Compared-typ_lt (Compared.arr h k) = rw (Compared-typ_lt h, Compared-typ_lt k) refl
Compared-typ_lt (Compared.pair h k) = rw (Compared-typ_lt h, Compared-typ_lt k) refl
Compared-typ_lt (Compared.vect h) = Compared-typ_lt h

Compared_trans : {t u v : Typ} → Compared t u → Compared u v → Compared t v
Compared_trans h Compared.any = Compared.any
Compared_trans h Compared.metavar = Compared.metavar
Compared_trans h Compared.unit = h
Compared_trans h Compared.int = h
Compared_trans h Compared.float = h
Compared_trans h Compared.bool = h
Compared_trans h Compared.str = h
Compared_trans h Compared.char = h
Compared_trans (Compared.arr h1 h2) (Compared.arr k1 k2) =
    Compared.arr (Compared_trans h1 k1) (Compared_trans h2 k2)
Compared_trans (Compared.pair h1 h2) (Compared.pair k1 k2) =
    Compared.pair (Compared_trans h1 k1) (Compared_trans h2 k2)
Compared_trans (Compared.vect h) (Compared.vect k) = Compared.vect (Compared_trans h k)

-- The comparison is transitive.
typ_lt_trans : (t u v : Typ) → typ_lt t u ≡ true → typ_lt u v ≡ true → typ_lt t v ≡ true
typ_lt_trans t u v h k =
    Compared-typ_lt (Compared_trans (typ_lt-Compared t u h) (typ_lt-Compared u v k))

Compared_refl : (t : Typ) → IsCovered t → Compared t t
Compared_refl Typ.any h = Compared.any
Compared_refl (Typ.metavar n) h = Compared.metavar
Compared_refl Typ.unit h = Compared.unit
Compared_refl Typ.int h = Compared.int
Compared_refl Typ.float h = Compared.float
Compared_refl Typ.bool h = Compared.bool
Compared_refl Typ.str h = Compared.str
Compared_refl Typ.char h = Compared.char
Compared_refl (Typ.list t) h = absurd h
Compared_refl (Typ.box t) h = absurd h
Compared_refl (Typ.arr t u) h = Compared.arr (Compared_refl t h.0) (Compared_refl u h.1)
Compared_refl (Typ.pair t u) h = Compared.pair (Compared_refl t h.0) (Compared_refl u h.1)
Compared_refl (Typ.vect t) h = Compared.vect (Compared_refl t h)

typ_lt-IsCovered : (t : Typ) → typ_lt t t ≡ true → IsCovered t
unfolding typ_lt
typ_lt-IsCovered (Typ.list t) h = ground arith
typ_lt-IsCovered (Typ.box t) h = ground arith
typ_lt-IsCovered (Typ.arr t u) h =
    let (p, q) = &&-true (typ_lt t t) (typ_lt u u) h in (typ_lt-IsCovered t p, typ_lt-IsCovered u q)
typ_lt-IsCovered (Typ.pair t u) h =
    let (p, q) = &&-true (typ_lt t t) (typ_lt u u) h in (typ_lt-IsCovered t p, typ_lt-IsCovered u q)
typ_lt-IsCovered (Typ.vect t) h = typ_lt-IsCovered t h
typ_lt-IsCovered _ h = tt

-- A type compares with itself exactly where it has no list and no box: for these types the code has
-- no case.
pub typ_lt_refl_iff : (t : Typ) → (typ_lt t t ≡ true) ↔ IsCovered t
typ_lt_refl_iff t = (typ_lt-IsCovered t, λ h. Compared-typ_lt (Compared_refl t h))

-- The precision order: a type is below itself, `any` and every metavariable are above all types, and
-- the order goes through every type constructor.
pub data Below : Typ → Typ → Type 0 where
  same : {t : Typ} → Below t t
  any : {t : Typ} → Below t Typ.any
  metavar : {t : Typ} (n : ℕ) → Below t (Typ.metavar n)
  arr : {t1 t2 u1 u2 : Typ} → Below t1 u1 → Below t2 u2 → Below (Typ.arr t1 t2) (Typ.arr u1 u2)
  pair : {t1 t2 u1 u2 : Typ} → Below t1 u1 → Below t2 u2 → Below (Typ.pair t1 t2) (Typ.pair u1 u2)
  list : {t u : Typ} → Below t u → Below (Typ.list t) (Typ.list u)
  box : {t u : Typ} → Below t u → Below (Typ.box t) (Typ.box u)
  vect : {t u : Typ} → Below t u → Below (Typ.vect t) (Typ.vect u)

Compared-Below : {t u : Typ} → Compared t u → Below t u
Compared-Below Compared.any = Below.any
Compared-Below (Compared.metavar {n}) = Below.metavar n
Compared-Below (Compared.arr h k) = Below.arr (Compared-Below h) (Compared-Below k)
Compared-Below (Compared.pair h k) = Below.pair (Compared-Below h) (Compared-Below k)
Compared-Below (Compared.vect h) = Below.vect (Compared-Below h)
Compared-Below Compared.unit = Below.same
Compared-Below Compared.int = Below.same
Compared-Below Compared.float = Below.same
Compared-Below Compared.bool = Below.same
Compared-Below Compared.str = Below.same
Compared-Below Compared.char = Below.same

Below-Compared : {t u : Typ} → Below t u → IsCovered t → Compared t u
Below-Compared (Below.same {t}) c = Compared_refl t c
Below-Compared Below.any c = Compared.any
Below-Compared (Below.metavar n) c = Compared.metavar
Below-Compared (Below.arr h k) c = Compared.arr (Below-Compared h c.0) (Below-Compared k c.1)
Below-Compared (Below.pair h k) c = Compared.pair (Below-Compared h c.0) (Below-Compared k c.1)
Below-Compared (Below.list h) c = absurd c
Below-Compared (Below.box h) c = absurd c
Below-Compared (Below.vect h) c = Compared.vect (Below-Compared h c)

-- On every type, `typ_lt` is true only of types that are in the precision order.
typ_lt-Below : (t u : Typ) → typ_lt t u ≡ true → Below t u
typ_lt-Below t u h = Compared-Below (typ_lt-Compared t u h)

-- On a type without lists and boxes, `typ_lt` decides whether it is below another type in the
-- precision order, which has a rule for every type constructor.
pub typ_lt_iff : (t u : Typ) → IsCovered t → (typ_lt t u ≡ true) ↔ Below t u
typ_lt_iff t u c = (typ_lt-Below t u, λ h. Compared-typ_lt (Below-Compared h c))

Compared-static : {t u : Typ} → Compared t u → IsStatic u → t ≡ u
Compared-static Compared.any s = absurd s
Compared-static Compared.metavar s = absurd s
Compared-static Compared.unit s = refl
Compared-static Compared.int s = refl
Compared-static Compared.float s = refl
Compared-static Compared.bool s = refl
Compared-static Compared.str s = refl
Compared-static Compared.char s = refl
Compared-static (Compared.arr h k) s = cc (Compared-static h s.0, Compared-static k s.1)
Compared-static (Compared.pair h k) s = cc (Compared-static h s.0, Compared-static k s.1)
Compared-static (Compared.vect h) s = ap Typ.vect (Compared-static h s)

-- Compared a type without `any` and without metavariables is that type alone.
typ_lt_static : (t u : Typ) → IsStatic u → typ_lt t u ≡ true → t ≡ u
typ_lt_static t u s h = Compared-static (typ_lt-Compared t u h) s
