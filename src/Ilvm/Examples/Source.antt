-- ===== src/Ilvm/Examples/Source.antt =====
-- The text of programs and the command line on concrete inputs.
use Prim.Native.String.{String}
use text.Mathlib.TextLemmas.{cons-ne-nil}
use plbench.Prelude.{
  true, if◌then◌else◌, ◌≡◌, refl, ◌≢◌, ◌↔◌, Option, none, some, List, [], ◌∷◌, ◌++◌, arith,
}
use plbench.Ilvm.Syntax.{Val, Op2, Instr, Block}
use plbench.Ilvm.Run.{ok, panic}
use plbench.Ilvm.Parser.Token.{Tok, Toks}
use plbench.Ilvm.Parser.Nom.{Nom, first_ok, mapped}
use plbench.Ilvm.Parser.Text.{
  TextNom, parsed, tagged, strip, nonempty, span, is_digit, is_multispace, one, first_match,
  or_panics, is_ascii_alphanumeric, ◌>>=◌,
}
use plbench.Ilvm.Parser.Instr.{block, parse_goto, parse_abort, parse_exit}
use plbench.Ilvm.Parser.Grammar.{IsSigned, IsVal, IsInstr, IsBlock, IsProgram}
use plbench.Ilvm.Parser.Lexemes.{IsLexeme, IsText, Ends, extends, join, spelling, is_fixed}
use plbench.Ilvm.Parser.Lexer.{lex, decimal_from, parse_token}
use plbench.Ilvm.Parser.Lexed.{lex-IsText}
use text.Mathlib.Text.{◌==◌ as str_eq}
use plbench.Ilvm.Parser.Blocks.{parse_tokens, parse_tokens_iff}
use plbench.Ilvm.Parser.Whole.{parse, parse-huge_reg}
use plbench.Ilvm.Main.{parse_cli_args, IsArgs, parse_and_eval}
use plbench.Ilvm.Main.Arguments.{parse_cli_args_iff}
use plbench.Ilvm.Main.Safe.{parse_and_eval-ne-panic}

-- The documented behaviour of nom, as functions.
abbrev nom : Nom
nom = record {
  alt = λ A. first_ok;
  map = λ A B. mapped;
  alt_tries = λ A ps input. refl;
  map_applies = λ A B p f input. refl;
}

abbrev characters : TextNom
characters = record {
  tag = λ t s. tagged t (strip t s);
  digit1 = λ s. nonempty (span is_digit s);
  multispace1 = λ s. nonempty (span is_multispace s);
  take_while1 = λ p s. nonempty (span p s);
  char = one;
  alt = first_match;
  value = λ t p s. p s >>= λ rest _. parsed rest t;
  map = λ p f s. p s >>= λ rest a. or_panics rest (f a);
  preceded = λ p q s. p s >>= λ rest _. q rest;
  delimited = λ p q r s. p s >>= λ s1 _. q s1 >>= λ s2 a. r s2 >>= λ s3 _. parsed s3 a;
  is_alphanumeric = is_ascii_alphanumeric;
  tag_strips = λ t s. refl;
  digit1_spans = λ s. refl;
  multispace1_spans = λ s. refl;
  take_while1_spans = λ p s. refl;
  char_takes = λ c s. refl;
  alt_tries = λ ps s. refl;
  value_gives = λ t p s. refl;
  map_applies = λ p f s. refl;
  preceded_runs = λ p q s. refl;
  delimited_runs = λ p q r s. refl;
  ascii_alphanumeric = λ c h. refl;
}

abbrev source : String
source = "block 0{ //x\nexit(-7);}"

abbrev tokens : Toks
tokens =
    Tok.block
    ∷ Tok.int32 0
    ∷ Tok.l_brace
    ∷ Tok.exit
    ∷ Tok.l_paren
    ∷ Tok.op2 Op2.sub
    ∷ Tok.int32 7
    ∷ Tok.r_paren
    ∷ Tok.semi
    ∷ Tok.r_brace
    ∷ []

abbrev blocks : List Block
blocks = (0, Instr.exit (Val.imm 4294967289)) ∷ []

parse-source : parse characters nom source ≡ ok blocks
unfolding parse strip span decimal_from parse_token block parse_goto parse_abort parse_exit
parse-source = refl

-- A token of one spelling, before what may follow it directly.
spelt :
    (t : Tok) (s : String) {ts : Toks}
    → is_fixed t ≡ true
    → Ends (extends t) s
    → IsText s ts
    → IsText (join (spelling t) s) (t ∷ ts)
spelt t s f h d = IsText.token (spelling t) s (IsLexeme.spelt t f) h d

tail-IsText : IsText "exit(-7);}" (
    Tok.exit
    ∷ Tok.l_paren
    ∷ Tok.op2 Op2.sub
    ∷ Tok.int32 7
    ∷ Tok.r_paren
    ∷ Tok.semi
    ∷ Tok.r_brace
    ∷ [])
unfolding join spelling is_fixed decimal_from
tail-IsText = spelt Tok.exit "(-7);}" refl refl (
    spelt Tok.l_paren "-7);}" refl refl (
      IsText.token "-" "7);}" (IsLexeme.spelt (Tok.op2 Op2.sub) refl) refl (
        IsText.token "7" ");}" (IsLexeme.int32 {s = "7"} (cons-ne-nil "7" "") (refl, tt)) refl (
          spelt Tok.r_paren ";}" refl refl
            (spelt Tok.semi "}" refl refl (spelt Tok.r_brace "" refl tt IsText.end))))))

source-IsText : IsText source tokens
unfolding join spelling is_fixed decimal_from
source-IsText = spelt Tok.block " 0{ //x\nexit(-7);}" refl refl (
    IsText.space refl (
      IsText.token "0" "{ //x\nexit(-7);}"
        (IsLexeme.int32 {s = "0"} (cons-ne-nil "0" "") (refl, tt)) refl
        (spelt Tok.l_brace " //x\nexit(-7);}" refl refl
          (IsText.space refl (IsText.comment "x" (refl, tt) (IsText.space refl tail-IsText))))))

blocks-IsProgram : IsProgram (tokens ++ Tok.eof ∷ []) blocks
blocks-IsProgram =
    IsProgram.next
      (IsBlock.block (IsSigned.plain (omega arith))
        (IsInstr.exit (IsVal.imm (IsSigned.minus {n = 7} (omega arith) refl))))
      IsProgram.end

lex-IsText_example : lex characters source ≡ ok (tokens ++ Tok.eof ∷ [])
lex-IsText_example = lex-IsText characters source-IsText

parse_tokens_iff_example :
    (parse_tokens nom (tokens ++ Tok.eof ∷ []) ≡ ok blocks)
    ↔ IsProgram (tokens ++ Tok.eof ∷ []) blocks
parse_tokens_iff_example = parse_tokens_iff nom (tokens ++ Tok.eof ∷ []) blocks

-- The parser accepts a program without blocks.
empty_program : parse_tokens nom (Tok.eof ∷ []) ≡ ok []
empty_program = (parse_tokens_iff nom (Tok.eof ∷ []) []).1 IsProgram.end

parse-huge_reg_example :
    parse characters nom (String.◌∷◌ "r" (join "18446744073709551616" " = 1;")) ≡ panic
unfolding decimal_from
parse-huge_reg_example =
    parse-huge_reg characters nom "18446744073709551616" " = 1;"
      (cons-ne-nil "1" "8446744073709551616") (ground arith) (omega arith) refl

-- Only the file `a` can be read.
abbrev files : String → Option String
files path = if str_eq path "a" then some "contents" else none

parse_cli_args_iff_example :
    (parse_cli_args files ("-l" ∷ "b" ∷ "-f" ∷ "a" ∷ []) ≡ ok ("b" ∷ "contents" ∷ []))
    ↔ IsArgs files ("-l" ∷ "b" ∷ "-f" ∷ "a" ∷ []) ("b" ∷ "contents" ∷ [])
parse_cli_args_iff_example =
    parse_cli_args_iff files ("-l" ∷ "b" ∷ "-f" ∷ "a" ∷ []) ("b" ∷ "contents" ∷ [])

parse_and_eval-ne-panic_example :
    parse_and_eval characters nom 10 100 4 ("hi" ∷ []) source ≢ some panic
parse_and_eval-ne-panic_example =
    parse_and_eval-ne-panic characters nom 10 100 4 ("hi" ∷ []) (omega arith) (omega arith) source
      tokens blocks source-IsText blocks-IsProgram (tt, tt)
