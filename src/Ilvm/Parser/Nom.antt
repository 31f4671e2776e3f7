-- ===== src/Ilvm/Parser/Nom.antt =====
-- parser.rs: `IResult` over tokens, and what the parser uses of the crate nom, which is not part of
-- the repository.
use plbench.Prelude.{List, [], ◌∷◌, Option, none, some, ◌≡◌}
use plbench.Ilvm.Parser.Token.{Toks}

-- The tokens that are left and the value, or an error. Every error is recoverable in the sense of
-- nom, and what it says of the place is left out.
abbrev pub Parser : Type 0 → Type 0
Parser A = Toks → Option (Toks × A)

infixl 5 ◌>>=◌
abbrev pub ◌>>=◌ : {A B : Type 0} → Option A → (A → Option B) → Option B
none >>= next = none
some a >>= next = next a

-- `if let Ok(x) = tried { return found(x) }`, and what follows it.
abbrev pub if_ok : {A B : Type 0} → Option A → (A → Option B) → Option B → Option B
if_ok none found rest = rest
if_ok (some a) found rest = found a

-- The first result of the parsers on the same tokens.
abbrev pub first_ok : {A : Type 0} → List (Parser A) → Parser A
first_ok [] input = none
first_ok (p ∷ ps) input = if_ok (p input) some (first_ok ps input)

abbrev pub mapped : {A B : Type 0} → Parser A → (A → B) → Parser B
mapped p f input = do (rest, a) ← p input; some (rest, f a)

-- nom's combinators, with what its documentation says of them: `alt` tries the parsers one by one
-- until one succeeds, and `map` applies a function to the result of a parser.
pub record Nom : Type 1 where
  pub alt : (A : Type 0) → List (Parser A) → Parser A
  pub map : (A B : Type 0) → Parser A → (A → B) → Parser B
  pub alt_tries :
      (A : Type 0) (ps : List (Parser A)) (input : Toks) → alt A ps input ≡ first_ok ps input
  pub map_applies :
      (A B : Type 0) (p : Parser A) (f : A → B) (input : Toks)
      → map A B p f input ≡ mapped p f input

-- `P` holds of the result, if there is one.
pub data Gives {A : Type 0} (P : A → Type 0) : Option A → Type 0 where
  gives : {a : A} → P a → Gives P (some a)
  fails : Gives P none

module _ {A : Type 0} {P : A → Type 0} where
  pub Gives-eq_some : {r : Option A} {a : A} → Gives P r → r ≡ some a → P a
  Gives-eq_some h e = of_some (rw e at h)
    where
      of_some : {a : A} → Gives P (some a) → P a
      of_some (gives p) = p

  pub Gives-bind :
      {B : Type 0} {Q : B → Type 0} {first : Option A} {next : A → Option B}
      → Gives P first
      → ((a : A) → P a → Gives Q (next a))
      → Gives Q (first >>= next)
  Gives-bind (gives {a} h) go = go a h
  Gives-bind fails go = fails

  pub Gives-if_ok :
      {B : Type 0} {Q : B → Type 0} {tried : Option A} {found : A → Option B} {rest : Option B}
      → Gives P tried
      → ((a : A) → P a → Gives Q (found a))
      → Gives Q rest
      → Gives Q (if_ok tried found rest)
  Gives-if_ok (gives {a} h) go other = go a h
  Gives-if_ok fails go other = other

  pub Gives-imp : {Q : A → Type 0} {r : Option A} → Gives P r → ((a : A) → P a → Q a) → Gives Q r
  Gives-imp (gives {a} h) go = gives (go a h)
  Gives-imp fails go = fails
