-- ===== src/Ilvm/Parser/Text.antt =====
-- parser.rs: what the lexer uses of the crate nom and of the standard library's characters.
use Prim.Native.Char.{Char, code}
use Prim.Native.String.{String}
use plbench.Prelude.{
  ◌<◌, ◌≡◌, Bool, ◌&&◌, ◌||◌, List, [], ◌∷◌, Option, none, some, leb, ◌==◌, if◌then◌else◌,
}
use plbench.Ilvm.Parser.Token.{Tok}

-- The text that is left and the value, or an error, or a panic of a function that is mapped.
pub data IResult (A : Type 0) : Type 0 where
  parsed : String → A → IResult A
  no_match : IResult A
  panics : IResult A

abbrev pub CharParser : Type 0 → Type 0
CharParser A = String → IResult A

infixl 5 ◌>>=◌
abbrev pub ◌>>=◌ : {A B : Type 0} → IResult A → (String → A → IResult B) → IResult B
no_match >>= next = no_match
panics >>= next = panics
parsed rest a >>= next = next rest a

abbrev pub is_digit : Char → Bool
is_digit c = leb 48 (code c) && leb (code c) 57

-- A blank, a tab, a line feed or a carriage return.
abbrev pub is_multispace : Char → Bool
is_multispace c = code c == 32 || code c == 9 || code c == 10 || code c == 13

abbrev pub is_ascii_alphanumeric : Char → Bool
is_ascii_alphanumeric c =
    is_digit c || leb 65 (code c) && leb (code c) 90 || leb 97 (code c) && leb (code c) 122

-- The text behind a word that it begins with.
unfoldable pub strip : String → String → Option String
strip String.[] s = some s
strip (String.◌∷◌ c t) String.[] = none
strip (String.◌∷◌ c t) (String.◌∷◌ d s) = if code c == code d then strip t s else none

-- The characters at the front that pass the test, and the text behind them.
unfoldable pub span : (Char → Bool) → String → String × String
span p String.[] = (String.[], String.[])
span p (String.◌∷◌ c s) =
    let (front, rest) = span p s in
    if p c then (String.◌∷◌ c front, rest) else (String.[], String.◌∷◌ c s)

abbrev pub nonempty : String × String → IResult String
nonempty (String.[], rest) = no_match
nonempty (String.◌∷◌ c s, rest) = parsed rest (String.◌∷◌ c s)

abbrev pub tagged : String → Option String → IResult String
tagged t none = no_match
tagged t (some rest) = parsed rest t

abbrev pub one : Char → CharParser Char
one c String.[] = no_match
one c (String.◌∷◌ d s) = if code c == code d then parsed s d else no_match

abbrev pub or_panics : String → Option Tok → IResult Tok
or_panics rest none = panics
or_panics rest (some t) = parsed rest t

abbrev pub or_next : IResult Tok → IResult Tok → IResult Tok
or_next (parsed rest t) next = parsed rest t
or_next panics next = panics
or_next no_match next = next

abbrev pub first_match : List (CharParser Tok) → CharParser Tok
first_match [] input = no_match
first_match (p ∷ ps) input = or_next (p input) (first_match ps input)

-- nom's parsers and combinators at the types at which the lexer uses them, each with what its
-- documentation says that it does. A function that `map` applies may panic.
pub record TextNom : Type 0 where
  pub tag : String → CharParser String
  pub digit1 : CharParser String
  pub multispace1 : CharParser String
  pub take_while1 : (Char → Bool) → CharParser String
  pub char : Char → CharParser Char
  pub alt : List (CharParser Tok) → CharParser Tok
  pub value : Tok → CharParser String → CharParser Tok
  pub map : CharParser String → (String → Option Tok) → CharParser Tok
  pub preceded : CharParser Char → CharParser String → CharParser String
  pub delimited : CharParser Char → CharParser String → CharParser Char → CharParser String
  -- `char::is_alphanumeric`, of which the ASCII part is known.
  pub is_alphanumeric : Char → Bool
  pub tag_strips : (t s : String) → tag t s ≡ tagged t (strip t s)
  pub digit1_spans : (s : String) → digit1 s ≡ nonempty (span is_digit s)
  pub multispace1_spans : (s : String) → multispace1 s ≡ nonempty (span is_multispace s)
  pub take_while1_spans : (p : Char → Bool) (s : String) → take_while1 p s ≡ nonempty (span p s)
  pub char_takes : (c : Char) (s : String) → char c s ≡ one c s
  pub alt_tries : (ps : List (CharParser Tok)) (s : String) → alt ps s ≡ first_match ps s
  pub value_gives :
      (t : Tok) (p : CharParser String) (s : String)
      → value t p s ≡ (p s >>= λ rest _. parsed rest t)
  pub map_applies :
      (p : CharParser String) (f : String → Option Tok) (s : String)
      → map p f s ≡ (p s >>= λ rest a. or_panics rest (f a))
  pub preceded_runs :
      (p : CharParser Char) (q : CharParser String) (s : String)
      → preceded p q s ≡ (p s >>= λ rest _. q rest)
  pub delimited_runs :
      (p : CharParser Char) (q : CharParser String) (r : CharParser Char) (s : String)
      → delimited p q r s ≡ (p s >>= λ s1 _. q s1 >>= λ s2 a. r s2 >>= λ s3 _. parsed s3 a)
  pub ascii_alphanumeric : (c : Char) → code c < 128 → is_alphanumeric c ≡ is_ascii_alphanumeric c
