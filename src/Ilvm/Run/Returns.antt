-- ===== src/Ilvm/Run/Returns.antt =====
-- Outcomes that are no panic.
use plbench.Prelude.{◌≡◌, refl, Bool, true, false, if◌then◌else◌}
use plbench.Ilvm.Run.{Run, Error, ok, err, panic, ◌>>=◌}

-- The outcome is no panic, and `P` holds of the result, if there is one.
pub data Returns {A : Type 0} (P : A → Type 0) : Run A → Type 0 where
  returns : {a : A} → P a → Returns P (ok a)
  errors : {e : Error} → Returns P (err e)

module _ {A : Type 0} {P : A → Type 0} where
  pub Returns-bind :
      {B : Type 0} {Q : B → Type 0} {first : Run A} {next : A → Run B}
      → Returns P first
      → ((a : A) → P a → Returns Q (next a))
      → Returns Q (first >>= next)
  Returns-bind (returns {a} h) go = go a h
  Returns-bind errors go = errors

  pub Returns-if :
      (b : Bool) {x y : Run A}
      → (b ≡ true → Returns P x)
      → (b ≡ false → Returns P y)
      → Returns P (if b then x else y)
  Returns-if true hx hy = hx refl
  Returns-if false hx hy = hy refl

  pub Returns-ne-panic : Returns P panic → ⊥
  Returns-ne-panic h = elim h [ ]

  pub Returns-eq_ok : {r : Run A} {a : A} → Returns P r → r ≡ ok a → P a
  Returns-eq_ok h e = inner (rw e at h)
    where
      inner : {b : A} → Returns P (ok b) → P b
      inner (returns p) = p
