-- ===== src/Ilvm/Parser/Lexer.antt =====
-- parser.rs, `lex` and the parsers of single tokens.
use Prim.Native.Char.{Char, code}
use Prim.Native.String.{String, len, slice}
use text.Mathlib.Text.{is_char_boundary}
use plbench.Prelude.{
  ℕ, zero, suc, ◌+◌, ◌-◌, ◌*◌, ◌^◌, Bool, ◌&&◌, ◌||◌, List, [], ◌∷◌, ◌++◌, Option, none, some, ltb,
  leb, ◌==◌, if◌then◌else◌,
}
use plbench.Ilvm.Syntax.{Op1, Op2}
use plbench.Ilvm.Run.{Run, ok, err, panic, Error, unexpected_character}
use plbench.Ilvm.Parser.Token.{Tok, Toks}
use plbench.Ilvm.Parser.Text.{IResult, parsed, no_match, panics, CharParser, strip, TextNom}

-- The number that digits write, read from the left.
unfoldable pub decimal_from : ℕ → String → ℕ
decimal_from n String.[] = n
decimal_from n (String.◌∷◌ c s) = decimal_from (n * 10 + (code c - 48)) s

abbrev pub decimal : String → ℕ
decimal s = decimal_from 0 s

-- `parse::<u32>` of digits, and the clamp.
unfoldable pub int32_of : String → Option Tok
int32_of s = some (Tok.int32 (if ltb (decimal s) (2 ^ 32) then decimal s else 2 ^ 32 - 1))

-- `parse::<usize>().unwrap()` of digits.
unfoldable pub reg_of : String → Option Tok
reg_of s = if ltb (decimal s) (2 ^ 64) then some (Tok.reg (decimal s)) else none

abbrev pub id_of : String → Option Tok
id_of s = some (Tok.id s)

-- `str::trim_start`: the characters of the Unicode property White_Space go.
unfoldable pub is_whitespace : Char → Bool
is_whitespace c =
    let n = code c in
    leb 9 n && leb n 13
    || n == 32
    || n == 133
    || n == 160
    || n == 5760
    || leb 8192 n && leb n 8202
    || n == 8232
    || n == 8233
    || n == 8239
    || n == 8287
    || n == 12288

unfoldable pub trim_start : String → String
unfolding is_whitespace
trim_start String.[] = String.[]
trim_start (String.◌∷◌ c s) = if is_whitespace c then trim_start s else String.◌∷◌ c s

unfoldable pub text_length : String → ℕ
text_length String.[] = 0
text_length (String.◌∷◌ c s) = suc (text_length s)

-- `&input[idx..]` at the first line feed, or the empty text.
unfoldable pub from_newline : String → String
from_newline String.[] = String.[]
from_newline (String.◌∷◌ c s) = if code c == 10 then String.◌∷◌ c s else from_newline s

-- What a round of the loop leaves: the tokens and the text for the next one, or the outcome.
pub data Round : Type 0 where
  go_on : Toks → String → Round
  ends : Run Toks → Round

unfoldable pub continue : (Toks → String → Run Toks) → Round → Run Toks
continue loop (go_on tokens input) = loop tokens input
continue loop (ends outcome) = outcome

module _ (nom : TextNom) where
  unfoldable pub parse_int32 : CharParser Tok
  unfolding int32_of
  parse_int32 = nom.map nom.digit1 int32_of

  unfoldable pub parse_reg : CharParser Tok
  unfolding reg_of
  parse_reg = nom.map (nom.preceded (nom.char "r") nom.digit1) reg_of

  unfoldable pub parse_id : CharParser Tok
  parse_id =
      nom.map (nom.delimited (nom.char "\"") (nom.take_while1 nom.is_alphanumeric) (nom.char "\""))
        id_of

  abbrev pub fixed : Tok → String → CharParser Tok
  fixed t s = nom.value t (nom.tag s)

  abbrev pub punctuation : List (CharParser Tok)
  punctuation =
      fixed Tok.l_brace "{"
      ∷ fixed Tok.r_brace "}"
      ∷ fixed Tok.l_paren "("
      ∷ fixed Tok.r_paren ")"
      ∷ fixed Tok.comma ","
      ∷ fixed Tok.semi ";"
      ∷ fixed (Tok.op2 Op2.eq) "=="
      ∷ fixed (Tok.op2 Op2.u_shr) ">>>"
      ∷ fixed (Tok.op2 Op2.shr) ">>"
      ∷ fixed (Tok.op2 Op2.shl) "<<"
      ∷ fixed Tok.equal "="
      ∷ fixed (Tok.op2 Op2.add) "+"
      ∷ fixed (Tok.op2 Op2.sub) "-"
      ∷ fixed (Tok.op2 Op2.mul) "*"
      ∷ fixed (Tok.op2 Op2.div) "/"
      ∷ fixed (Tok.op2 Op2.modulo) "%"
      ∷ fixed (Tok.op2 Op2.bit_and) "&"
      ∷ fixed (Tok.op2 Op2.bit_or) "|"
      ∷ fixed (Tok.op2 Op2.bit_xor) "^"
      ∷ fixed (Tok.op1 Op1.bit_not) "~"
      ∷ fixed (Tok.op2 Op2.lt) "<"
      ∷ []

  abbrev pub keywords : List (CharParser Tok)
  keywords =
      fixed Tok.ifz "ifz"
      ∷ fixed Tok.else_kw "else"
      ∷ fixed Tok.goto "goto"
      ∷ fixed Tok.abort "abort"
      ∷ fixed Tok.exit "exit"
      ∷ fixed Tok.malloc "malloc"
      ∷ fixed Tok.mem_size "memsize"
      ∷ fixed Tok.free "free"
      ∷ fixed Tok.block "block"
      ∷ fixed Tok.print_str "print_str"
      ∷ fixed Tok.print "print"
      ∷ fixed Tok.array "array"
      ∷ []

  unfoldable pub parse_token : CharParser Tok
  unfolding parse_int32 parse_reg parse_id
  parse_token =
      nom.alt (parse_int32 ∷ nom.alt punctuation ∷ nom.alt keywords ∷ parse_reg ∷ parse_id ∷ [])

  -- The message shows the first bytes of the text, 20 at most; to cut a character in two panics.
  unfoldable pub unexpected : String → Run Toks
  unexpected input =
      let shown = if leb (len input) 20 then len input else 20 in
      if is_char_boundary input shown
      then err (Error.parse (unexpected_character (slice input 0 shown)))
      else panic

  -- A round of the loop: white space, else a comment, else a token.
  unfoldable pub after_token : Toks → String → IResult Tok → Round
  unfolding unexpected
  after_token tokens input (parsed rest tok) = go_on (tokens ++ tok ∷ []) rest
  after_token tokens input panics = ends panic
  after_token tokens input no_match = ends (unexpected input)

  unfoldable pub after_comment : Toks → String → Option String → Round
  unfolding from_newline after_token
  after_comment tokens input (some rest) = go_on tokens (from_newline input)
  after_comment tokens input none = after_token tokens input (parse_token input)

  unfoldable pub after_space : Toks → String → IResult String → Round
  unfolding strip after_comment
  after_space tokens input (parsed rest blank) = go_on tokens rest
  after_space tokens input panics = ends panic
  after_space tokens input no_match = after_comment tokens input (strip "//" input)

  -- On fuel, of which each round takes one unit: a round takes a character at least.
  unfoldable pub lex_loop : ℕ → Toks → String → Run Toks
  unfolding unexpected after_space continue
  lex_loop fuel tokens String.[] = ok (tokens ++ Tok.eof ∷ [])
  lex_loop zero tokens input = unexpected input
  lex_loop (suc fuel) tokens input =
      continue (lex_loop fuel) (after_space tokens input (nom.multispace1 input))

  unfoldable pub lex : String → Run Toks
  unfolding lex_loop trim_start text_length
  lex s = let input = trim_start s in lex_loop (text_length input) [] input
