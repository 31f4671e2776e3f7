-- ===== src/Ilvm/Parser/Lexemes.antt =====
-- parser.rs: the spelling of the tokens, written independently of the lexer.
use Prim.Native.Char.{Char, code}
use Prim.Native.String.{String}
use plbench.Prelude.{
  ◌^◌, ◌<◌, ◌≡◌, ◌≢◌, Bool, true, false, not, ltb, ◌==◌, [], ◌∷◌, ◌-◌, if◌then◌else◌,
}
use plbench.Ilvm.Syntax.{Op1, Op2}
use plbench.Ilvm.Parser.Token.{Tok, Toks}
use plbench.Ilvm.Parser.Text.{is_digit, is_multispace, is_ascii_alphanumeric}
use plbench.Ilvm.Parser.Lexer.{decimal}

-- One text before another.
unfoldable pub join : String → String → String
join String.[] s = s
join (String.◌∷◌ c t) s = String.◌∷◌ c (join t s)

abbrev pub All : (Char → Bool) → String → Type 0
All p String.[] = Unit
All p (String.◌∷◌ c s) = (p c ≡ true) × All p s

-- The tokens of one spelling, and that spelling.
unfoldable pub spelling : Tok → String
spelling Tok.l_brace = "{"
spelling Tok.r_brace = "}"
spelling Tok.l_paren = "("
spelling Tok.r_paren = ")"
spelling Tok.ifz = "ifz"
spelling Tok.else_kw = "else"
spelling Tok.semi = ";"
spelling Tok.equal = "="
spelling Tok.goto = "goto"
spelling Tok.abort = "abort"
spelling Tok.exit = "exit"
spelling Tok.malloc = "malloc"
spelling Tok.mem_size = "memsize"
spelling Tok.print = "print"
spelling Tok.print_str = "print_str"
spelling Tok.array = "array"
spelling Tok.comma = ","
spelling Tok.free = "free"
spelling Tok.block = "block"
spelling (Tok.op1 Op1.bit_not) = "~"
spelling (Tok.op2 Op2.add) = "+"
spelling (Tok.op2 Op2.sub) = "-"
spelling (Tok.op2 Op2.mul) = "*"
spelling (Tok.op2 Op2.div) = "/"
spelling (Tok.op2 Op2.modulo) = "%"
spelling (Tok.op2 Op2.bit_and) = "&"
spelling (Tok.op2 Op2.bit_or) = "|"
spelling (Tok.op2 Op2.bit_xor) = "^"
spelling (Tok.op2 Op2.shl) = "<<"
spelling (Tok.op2 Op2.shr) = ">>"
spelling (Tok.op2 Op2.u_shr) = ">>>"
spelling (Tok.op2 Op2.lt) = "<"
spelling (Tok.op2 Op2.eq) = "=="
spelling (Tok.int32 n) = ""
spelling (Tok.reg n) = ""
spelling (Tok.id s) = ""
spelling Tok.eof = ""

unfoldable pub is_fixed : Tok → Bool
is_fixed (Tok.int32 n) = false
is_fixed (Tok.reg n) = false
is_fixed (Tok.id s) = false
is_fixed Tok.eof = false
is_fixed t = true

-- A literal above the 32-bit range is read as the largest one.
pub data IsLexeme : String → Tok → Type 0 where
  spelt : (t : Tok) → is_fixed t ≡ true → IsLexeme (spelling t) t
  int32 :
      {s : String}
      → s ≢ String.[]
      → All is_digit s
      → IsLexeme s (Tok.int32 (if ltb (decimal s) (2 ^ 32) then decimal s else 2 ^ 32 - 1))
  reg :
      {s : String}
      → s ≢ String.[]
      → All is_digit s
      → decimal s < 2 ^ 64
      → IsLexeme (String.◌∷◌ "r" s) (Tok.reg (decimal s))
  id :
      {s : String}
      → s ≢ String.[]
      → All is_ascii_alphanumeric s
      → IsLexeme (String.◌∷◌ "\"" (join s "\"")) (Tok.id s)

-- The characters that, directly behind a token, make it longer or begin a comment with it.
abbrev pub extends : Tok → Char → Bool
extends (Tok.int32 n) c = is_digit c
extends (Tok.reg n) c = is_digit c
extends Tok.equal c = 61 == code c
extends (Tok.op2 Op2.shr) c = 62 == code c
extends (Tok.op2 Op2.lt) c = 60 == code c
extends (Tok.op2 Op2.div) c = 47 == code c
extends Tok.print c = 95 == code c
extends t c = false

-- No character that passes the test comes next.
abbrev pub Ends : (Char → Bool) → String → Type 0
Ends p String.[] = Unit
Ends p (String.◌∷◌ c s) = p c ≡ false

-- The text of a sequence of tokens: white space and comments may stand between them.
pub data IsText : String → Toks → Type 0 where
  end : IsText String.[] []
  space :
      {c : Char} {s : String} {ts : Toks}
      → is_multispace c ≡ true
      → IsText s ts
      → IsText (String.◌∷◌ c s) ts
  comment :
      (c : String) {s : String} {ts : Toks}
      → All (λ d. not (code d == 10)) c
      → IsText (String.◌∷◌ "\n" s) ts
      → IsText (join "//" (join c (String.◌∷◌ "\n" s))) ts
  last_comment : (c : String) → All (λ d. not (code d == 10)) c → IsText (join "//" c) []
  token :
      (l s : String) {t : Tok} {ts : Toks}
      → IsLexeme l t
      → Ends (extends t) s
      → IsText s ts
      → IsText (join l s) (t ∷ ts)
