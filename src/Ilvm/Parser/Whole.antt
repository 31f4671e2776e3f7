-- ===== src/Ilvm/Parser/Whole.antt =====
-- parser.rs, `parse`.
use Prim.Native.String.{String}
use plbench.Prelude.{◌≤◌, ◌^◌, ◌≡◌, ◌≢◌, ◌↔◌, List, [], ◌∷◌, ◌++◌}
use plbench.Ilvm.Syntax.{Block}
use plbench.Ilvm.Run.{Run, ok, err, panic, ◌>>=◌}
use plbench.Ilvm.Machine.Safety.{IsWordEnv}
use plbench.Ilvm.Parser.Token.{Tok, Toks}
use plbench.Ilvm.Parser.Nom.{Nom}
use plbench.Ilvm.Parser.Text.{TextNom, is_digit}
use plbench.Ilvm.Parser.Grammar.{IsProgram}
use plbench.Ilvm.Parser.Lexemes.{IsText, All, Ends, join}
use plbench.Ilvm.Parser.Lexer.{lex, decimal}
use plbench.Ilvm.Parser.Lexed.{lex-IsText, lex-huge_reg}
use plbench.Ilvm.Parser.Blocks.{parse_tokens, parse_tokens_iff}
use plbench.Ilvm.Parser.Words.{IsProgram-IsWordEnv}

module _ (text : TextNom) (nom : Nom) where
  unfoldable pub parse : String → Run (List Block)
  unfolding lex parse_tokens
  parse input = do tokens ← lex text input; parse_tokens nom tokens

  -- Of a text of tokens, the parser returns the blocks that the grammar reads in them, and returns
  -- blocks only if the grammar reads some.
  pub parse_iff :
      (input : String) (tokens : Toks) (blocks : List Block)
      → IsText input tokens
      → (parse input ≡ ok blocks) ↔ IsProgram (tokens ++ Tok.eof ∷ []) blocks
  unfolding parse
  parse_iff input tokens blocks d =
      rw (lex-IsText text d) (parse_tokens_iff nom (tokens ++ Tok.eof ∷ []) blocks)

  -- The immediate values of a parsed program are words.
  parse-IsWordEnv :
      (input : String) (blocks : List Block) → parse input ≡ ok blocks → IsWordEnv blocks
  unfolding parse
  parse-IsWordEnv input blocks e = of_tokens (lex text input) e
    where
      of_tokens : (r : Run Toks) → (r >>= parse_tokens nom) ≡ ok blocks → IsWordEnv blocks
      of_tokens panic e = cc
      of_tokens (err x) e = cc
      of_tokens (ok tokens) e = IsProgram-IsWordEnv ((parse_tokens_iff nom tokens blocks).0 e)

  -- A program that begins with a register of a number of 2 ^ 64 or more panics.
  pub parse-huge_reg :
      (d s : String)
      → d ≢ String.[]
      → All is_digit d
      → 2 ^ 64 ≤ decimal d
      → Ends is_digit s
      → parse (String.◌∷◌ "r" (join d s)) ≡ panic
  unfolding parse
  parse-huge_reg d s n a b h = rw (lex-huge_reg text d s n a b h)
