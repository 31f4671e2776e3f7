-- ===== src/Ilvm/Run.antt =====
-- error.rs, and the outcome of a computation that may return an error or panic.
pub mod Returns
use Prim.Native.String.{String}
use plbench.Prelude.{ℕ, List, Option, none, some, ◌≡◌, refl, Bool, true, false, if◌then◌else◌}
use plbench.Ilvm.Syntax.{I32, Reg, Val}
use plbench.Ilvm.Parser.Token.{Tok}

-- `Error`, with the values that its message shows in place of the formatted text.
pub data Usage : Type 0 where
  too_many_arguments duplicate_block_ids no_block_zero : Usage
  argument_not_ascii : List ℕ → Usage
  expected_value expected_marker : String → Usage

-- The place that nom reports is left out.
pub data Parse : Type 0 where
  unexpected_character : String → Parse
  syntax_error : Parse
  expected_end : Tok → Parse

pub data Runtime : Type 0 where
  load_address store_address : Reg → Val → ℕ → Runtime
  print_str_address : Val → ℕ → Runtime
  code_address : I32 → Runtime
  non_ascii called_abort malloc_oom free_bad_ptr no_heap_for_arguments : Runtime

pub data Error : Type 0 where
  -- An error of the operating system.
  io : Error
  usage : Usage → Error
  parse : Parse → Error
  runtime : Runtime → Error

-- `panic` ends the process: an index out of bounds, or a division that Rust refuses.
pub data Run {ℓ} (A : Type ℓ) : Type ℓ where
  ok : A → Run A
  err : Error → Run A
  panic : Run A

infixl 5 ◌>>=◌
abbrev pub ◌>>=◌ {ℓ κ} : {A : Type ℓ} {B : Type κ} → Run A → (A → Run B) → Run B
panic >>= next = panic
err e >>= next = err e
ok a >>= next = next a

-- An operation that panics where it has no result.
abbrev pub or_panic {ℓ} : {A : Type ℓ} → Option A → Run A
or_panic none = panic
or_panic (some a) = ok a

-- `P` holds of the result, if there is one.
pub data Ensures {ℓ κ} {A : Type ℓ} (P : A → Type κ) : Run A → Type (ℓ ⊔ κ) where
  holds : {a : A} → P a → Ensures P (ok a)
  fails : {e : Error} → Ensures P (err e)
  panics : Ensures P panic

module _ {ℓ κ} {A : Type ℓ} {P : A → Type κ} where
  pub Ensures-or_panic : (o : Option A) → ((a : A) → o ≡ some a → P a) → Ensures P (or_panic o)
  Ensures-or_panic none h = panics
  Ensures-or_panic (some a) h = holds (h a refl)

  pub Ensures-ok : {a : A} → Ensures P (ok a) → P a
  Ensures-ok (holds h) = h

  pub Ensures-if :
      (b : Bool) {x y : Run A} → Ensures P x → Ensures P y → Ensures P (if b then x else y)
  Ensures-if true hx hy = hx
  Ensures-if false hx hy = hy

  pub Ensures-imp {κ'} :
      {Q : A → Type κ'} {r : Run A} → Ensures P r → ((a : A) → P a → Q a) → Ensures Q r
  Ensures-imp (holds {a} h) go = holds (go a h)
  Ensures-imp fails go = fails
  Ensures-imp panics go = panics

  -- What an outcome ensures, it ensures of the result that it is known to be.
  pub Ensures-eq_ok : {r : Run A} {a : A} → Ensures P r → r ≡ ok a → P a
  Ensures-eq_ok h e = Ensures-ok (rw e at h)

  -- What the first computation ensures is what the next one may rely on.
  pub Ensures-bind {ℓ' κ'} :
      {B : Type ℓ'} {Q : B → Type κ'} {first : Run A} {next : A → Run B}
      → Ensures P first
      → ((a : A) → P a → Ensures Q (next a))
      → Ensures Q (first >>= next)
  Ensures-bind (holds {a} h) go = go a h
  Ensures-bind fails go = fails
  Ensures-bind panics go = panics
