-- ===== src/Ilvm/Eval.antt =====
-- eval.rs, `eval`, with tc.rs, `has_unique_elements` and `tc`, and main.rs, `parse_and_eval` behind
-- the parser: a program runs from block 0.
pub mod Blocks
pub mod Start
use plbench.Prelude.{
  ℕ, ◌-◌, Bool, true, false, not, ◌&&◌, ◌||◌, List, [], ◌∷◌, Option, none, some, ltb, ◌==◌,
  if◌then◌else◌, replicate, set,
}
use plbench.Prelude.Assoc.{lookup, insert}
use plbench.Ilvm.Syntax.{I32, Block}
use plbench.Ilvm.Word.{as_i32}
use plbench.Ilvm.Run.{Run, ok, err, panic, usage, duplicate_block_ids, no_block_zero}
use plbench.Ilvm.Alloc.{nil, node}
use plbench.Ilvm.State.{State}
use plbench.Ilvm.Args.{init_heap, max_words}
use plbench.Ilvm.Machine.{Env, eval_rec}

-- A hash set of block numbers, as a list.
abbrev pub contains : ℕ → List ℕ → Bool
contains n [] = false
contains n (m ∷ ms) = m == n || contains n ms

-- `uniq.insert(x)` answers whether `x` is new, and `all` stops at the first that is not.
unfoldable pub has_unique_from : List ℕ → List ℕ → Bool
has_unique_from uniq [] = true
has_unique_from uniq (x ∷ xs) = not (contains x uniq) && has_unique_from (x ∷ uniq) xs

unfoldable pub has_unique_elements : List ℕ → Bool
unfolding has_unique_from
has_unique_elements xs = has_unique_from [] xs

abbrev pub ids : List Block → List ℕ
ids [] = []
ids ((n, i) ∷ blocks) = n ∷ ids blocks

-- `blocks.into_iter().collect()`: a later block of a number takes the place of an earlier one.
unfoldable pub collect_from : Env → List Block → Env
collect_from env [] = env
collect_from env ((n, i) ∷ blocks) = collect_from (insert n i env) blocks

unfoldable pub tc : List Block → Run Env
unfolding has_unique_elements collect_from
tc blocks =
    if not (has_unique_elements (ids blocks))
    then err (usage duplicate_block_ids)
    else ok (collect_from [] blocks)

-- The state that a program starts in, where there is room for its registers.
unfoldable pub started : ℕ → ℕ → List I32 → ℕ → State
started heap_size num_registers heap heap_start = record {
  heap = heap;
  registers =
      if ltb 0 num_registers
      then set (replicate num_registers 0) 0 (as_i32 heap_start)
      else replicate num_registers 0;
  free_list =
      if ltb heap_start heap_size then node heap_start (heap_size - heap_start) nil else nil;
  alloc_blocks = [];
  stdout = [];
}

unfoldable pub initial : ℕ → ℕ → List I32 → ℕ → Run State
unfolding started
initial heap_size num_registers heap heap_start =
    if ltb max_words num_registers
    then panic
    else ok (started heap_size num_registers heap heap_start)

-- The run from block 0.
unfoldable pub eval_from : ℕ → Env → Run State → Option (Run I32)
eval_from fuel blocks (err e) = some (err e)
eval_from fuel blocks panic = some panic
eval_from fuel blocks (ok st) = elim (lookup 0 blocks) [
  | none ↦ some (err (usage no_block_zero))
  | some instr ↦ eval_rec fuel blocks instr st
]

-- `none` where the program still runs after `fuel` rounds of the interpreter.
unfoldable pub eval : ℕ → ℕ → ℕ → Env → List (List ℕ) → Option (Run I32)
unfolding initial eval_from
eval fuel heap_size num_registers blocks cli_args = elim (init_heap heap_size cli_args) [
  | err e ↦ some (err e)
  | panic ↦ some panic
  | ok (heap, heap_start) ↦ eval_from fuel blocks (initial heap_size num_registers heap heap_start)
]
