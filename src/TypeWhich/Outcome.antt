-- ===== src/TypeWhich/Outcome.antt =====
-- How the type checker ends: with a type, with a message, or with a panic.
use plbench.Prelude.{◌≡◌}
use Prim.Native.String.{String}

-- The messages of the type checker, by what they complain about.
pub data Refusal : Type 0 where
  unbound : String → Refusal
  not_an_arrow not_addable not_a_pair not_a_list not_a_box not_a_vector : Refusal

pub data Outcome (A : Type 0) : Type 0 where
  accepts : A → Outcome A
  refuses : Refusal → Outcome A
  crashes : Outcome A

infixl 5 ◌>>=◌
abbrev pub ◌>>=◌ : {A B : Type 0} → Outcome A → (A → Outcome B) → Outcome B
accepts a >>= next = next a
refuses e >>= next = refuses e
crashes >>= next = crashes

-- An accepted result satisfies `P`.
pub data Accepts {A : Type 0} (P : A → Type 0) : Outcome A → Type 0 where
  good : {a : A} → P a → Accepts P (accepts a)
  bad : {e : Refusal} → Accepts P (refuses e)
  broken : Accepts P crashes

module _ {A : Type 0} {P : A → Type 0} where
  pub Accepts-eq : {o : Outcome A} {a : A} → Accepts P o → o ≡ accepts a → P a
  Accepts-eq h e = inner (rw e at h)
    where
      inner : {b : A} → Accepts P (accepts b) → P b
      inner (good p) = p

  pub Accepts-bind :
      {B : Type 0} {Q : B → Type 0} {o : Outcome A} {next : A → Outcome B}
      → Accepts P o
      → ((a : A) → P a → Accepts Q (next a))
      → Accepts Q (o >>= next)
  Accepts-bind (good {a} p) go = go a p
  Accepts-bind bad go = bad
  Accepts-bind broken go = broken
