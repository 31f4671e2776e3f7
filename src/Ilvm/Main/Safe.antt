-- ===== src/Ilvm/Main/Safe.antt =====
-- main.rs, `parse_and_eval`: from the text of a program to its result.
use Prim.Native.String.{String}
use plbench.Prelude.{
  ℕ, ◌≤◌, ◌≢◌, Bool-cases, inl, inr, List, [], ◌∷◌, ◌++◌, some, map, not, ◌==◌, All,
}
use plbench.Ilvm.Syntax.{Block, Instr}
use plbench.Ilvm.Run.{ok, panic}
use plbench.Ilvm.Machine.{Env}
use plbench.Ilvm.Eval.{tc, ids, collect_from, has_unique_elements}
use plbench.Ilvm.Eval.Start.{eval-ne-panic}
use plbench.Ilvm.Machine.Panics.{IsSafeEnv, IsSafeInstr}
use plbench.Ilvm.Parser.Token.{Tok, Toks}
use plbench.Ilvm.Parser.Grammar.{IsProgram}
use plbench.Ilvm.Parser.Lexemes.{IsText}
use plbench.Prelude.Assoc.{insert}
use plbench.Ilvm.Parser.Nom.{Nom}
use plbench.Ilvm.Parser.Text.{TextNom}
use plbench.Ilvm.Parser.Whole.{parse_iff}
use plbench.Ilvm.Args.{max_words}
use plbench.Ilvm.Main.{codes, eval_blocks, check_blocks, parse_and_eval}

module _ (P : ℕ × Instr → Type 0) where
  All-insert : (n : ℕ) (i : Instr) (env : Env) → P (n, i) → All P env → All P (insert n i env)
  All-insert n i [] p a = (p, tt)
  All-insert n i ((m, j) ∷ env) p a = elim (Bool-cases (m == n)) [
    | inl e ↦ rw e (p, a.1)
    | inr e ↦ rw e (a.0, All-insert n i env p a.1)
  ]

  All-collect_from :
      (env : Env) (blocks : List Block) → All P env → All P blocks → All P (collect_from env blocks)
  unfolding collect_from
  All-collect_from env [] e b = e
  All-collect_from env ((n, i) ∷ blocks) e b =
      All-collect_from (insert n i env) blocks (All-insert n i env b.0 e) b.1

module _ (text : TextNom) (nom : Nom) (fuel mem_limit reg_limit : ℕ) (cli_args : List String)
    (heap_room : mem_limit ≤ max_words) (register_room : reg_limit ≤ max_words) where
  check_blocks-ne-panic :
      (blocks : List Block)
      → IsSafeEnv reg_limit blocks
      → check_blocks text nom fuel mem_limit reg_limit cli_args (ok blocks) ≢ some panic
  unfolding check_blocks eval_blocks tc
  check_blocks-ne-panic blocks s = elim (Bool-cases (not (has_unique_elements (ids blocks)))) [
    | inl e ↦ rw e (λ p. cc)
    | inr e ↦ rw e (
        eval-ne-panic fuel mem_limit reg_limit (collect_from [] blocks) (map codes cli_args)
          heap_room register_room
          (All-collect_from (λ (n, i). IsSafeInstr reg_limit i) [] blocks tt s))
  ]

  -- From its text to its result, a program of the grammar whose instructions are safe for the
  -- registers does not panic, whatever the arguments and the rounds it is given, where the heap and
  -- the registers are at most 2 ^ 61 - 1 words each.
  pub parse_and_eval-ne-panic :
      (source : String) (tokens : Toks) (blocks : List Block)
      → IsText source tokens
      → IsProgram (tokens ++ Tok.eof ∷ []) blocks
      → IsSafeEnv reg_limit blocks
      → parse_and_eval text nom fuel mem_limit reg_limit cli_args source ≢ some panic
  unfolding parse_and_eval
  parse_and_eval-ne-panic source tokens blocks d p s =
      rw ((parse_iff text nom source tokens blocks d).1 p) (check_blocks-ne-panic blocks s)
