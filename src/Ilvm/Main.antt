-- ===== src/Ilvm/Main.antt =====
-- main.rs, `parse_cli_args` and `parse_and_eval`.
pub mod Arguments
pub mod Safe
use Prim.Native.Char.{code}
use Prim.Native.String.{String}
use text.Mathlib.Text.{◌==◌ as str_eq}
use text.Mathlib.TextEquality.{eq_iff}
use plbench.Prelude.{
  ℕ, ◌≡◌, ◌≢◌, refl, ◌↔◌, Bool, true, false, Bool-cases, inl, inr, List, [], ◌∷◌, ◌++◌, Option,
  none, some, Option-cases, if◌then◌else◌, append_assoc, append-nil, map, arith, ap, ◌∙◌, sym, not,
  ◌==◌, All,
}
use plbench.Ilvm.Syntax.{I32, Block, Instr}
use plbench.Ilvm.Run.{
  Ensures, holds, fails, Ensures-imp, Ensures-eq_ok, Run, ok, err, panic, Error, io, usage,
  expected_value, expected_marker,
}
use plbench.Ilvm.Machine.{Env}
use plbench.Ilvm.Eval.{tc, eval, ids, collect_from, has_unique_elements}
use plbench.Ilvm.Eval.Start.{eval-ne-panic}
use plbench.Ilvm.Machine.Panics.{IsSafeEnv, IsSafeInstr}
use plbench.Ilvm.Parser.Token.{Tok, Toks}
use plbench.Ilvm.Parser.Grammar.{IsProgram}
use plbench.Ilvm.Parser.Lexemes.{IsText}
use plbench.Prelude.Assoc.{insert}
use plbench.Ilvm.Parser.Nom.{Nom}
use plbench.Ilvm.Parser.Text.{TextNom}
use plbench.Ilvm.Parser.Whole.{parse, parse_iff}

abbrev pub read_file : Option String → (String → Run (List String)) → Run (List String)
read_file none next = err io
read_file (some buf) next = next buf

-- `files` is what opening and reading a path gives: the text, or an error.
module _ (files : String → Option String) where
  unfoldable pub parse_args : List String → List String → Run (List String)
  parse_args parsed_args [] = ok parsed_args
  parse_args parsed_args (kind ∷ []) = err (usage (expected_value kind))
  parse_args parsed_args (kind ∷ value ∷ rest) =
      let literal = parse_args (parsed_args ++ value ∷ []) rest in
      let file = read_file (files value) λ buf. parse_args (parsed_args ++ buf ∷ []) rest in
      if str_eq kind "-l"
      then literal
      else if str_eq kind "-f"
      then file
      else err (usage (expected_marker kind))

  unfoldable pub parse_cli_args : List String → Run (List String)
  unfolding parse_args
  parse_cli_args args = parse_args [] args

  -- The arguments that a command line writes: markers and their values in turn.
  pub data IsArgs : List String → List String → Type 0 where
    end : IsArgs [] []
    literal :
        {v : String} {rest args : List String}
        → IsArgs rest args
        → IsArgs ("-l" ∷ v ∷ rest) (v ∷ args)
    file :
        {v buf : String} {rest args : List String}
        → files v ≡ some buf
        → IsArgs rest args
        → IsArgs ("-f" ∷ v ∷ rest) (buf ∷ args)

-- An argument as its code points. Those of a text that is not ASCII are no ASCII codes either.
abbrev pub codes : String → List ℕ
codes String.[] = []
codes (String.◌∷◌ c s) = code c ∷ codes s

-- `none` where the program still runs after `fuel` rounds of the interpreter.
module _ (text : TextNom) (nom : Nom) (fuel mem_limit reg_limit : ℕ) (cli_args : List String) where
  unfoldable pub eval_blocks : Run Env → Option (Run I32)
  unfolding eval
  eval_blocks panic = some panic
  eval_blocks (err e) = some (err e)
  eval_blocks (ok blocks) = eval fuel mem_limit reg_limit blocks (map codes cli_args)

  unfoldable pub check_blocks : Run (List Block) → Option (Run I32)
  unfolding tc eval_blocks
  check_blocks panic = some panic
  check_blocks (err e) = some (err e)
  check_blocks (ok blocks) = eval_blocks (tc blocks)

  unfoldable pub parse_and_eval : String → Option (Run I32)
  unfolding check_blocks parse
  parse_and_eval source = check_blocks (parse text nom source)
