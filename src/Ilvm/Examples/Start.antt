-- ===== src/Ilvm/Examples/Start.antt =====
-- The start of a program on concrete inputs.
use plbench.Prelude.{
  ℕ, ◌+◌, ◌*◌, ◌^◌, ◌<◌, ◌≡◌, refl, some, List, [], ◌∷◌, arith, get_elem?, length,
}
use plbench.Prelude.Assoc.{lookup}
use plbench.Ilvm.Syntax.{I32, Instr, Block, exit, goto, malloc, imm}
use plbench.Ilvm.Word.{as_i32}
use plbench.Ilvm.Run.{ok}
use plbench.Ilvm.State.{State, Output, eval_val}
use plbench.Ilvm.Alloc as Alloc
use plbench.Ilvm.Print as Print
use plbench.Ilvm.Print.{print_line}
use plbench.Ilvm.Args.{init_heap, terminated}
use plbench.Ilvm.Args.Region.{Region}
use plbench.Ilvm.Args.Packed.{words}
use plbench.Ilvm.Args.Strings.{init_heap-argv, print_str-argument}
use plbench.Ilvm.Machine.{goes_on, step, eval_rec}
use plbench.Ilvm.Machine.Discipline.{next_live}
use plbench.Ilvm.Machine.Ownership.{begins, round}
use plbench.Ilvm.Machine.Owns.{Owns}
use plbench.Ilvm.Machine.Safety.{IsValid}
use plbench.Ilvm.Machine.Panics.{IsSafeEnv}
use plbench.Ilvm.Eval.{ids, tc, initial, eval}
use plbench.Ilvm.Eval.Blocks.{IsDistinct, tc-lookup}
use plbench.Ilvm.Eval.Start.{initial-IsValid, program-Owns}

-- `block 0 { r1 = malloc(2); goto(5); }` and `block 5 { exit(7); }`
abbrev continuation : Instr
continuation = goto (imm 5)

abbrev main_block : Instr
main_block = malloc 1 (imm 2) continuation

abbrev blocks : List Block
blocks = (0, main_block) ∷ (5, exit (imm 7)) ∷ []

abbrev repeated : List Block
repeated = (0, exit (imm 7)) ∷ (0, exit (imm 7)) ∷ []

-- The one argument `hi`.
abbrev cli_args : List (List ℕ)
cli_args = (104 ∷ 105 ∷ []) ∷ []

abbrev hi_word : I32
hi_word = 104 * 2 ^ 24 + 105 * 2 ^ 16

abbrev heap_of_hi : List I32
heap_of_hi = 0 ∷ 1 ∷ 3 ∷ hi_word ∷ 0 ∷ 0 ∷ 0 ∷ 0 ∷ []

heap_starts : init_heap 8 cli_args ≡ ok (heap_of_hi, 4)
unfolding init_heap
heap_starts = refl

blocks_accepted : tc blocks ≡ ok blocks
unfolding tc
blocks_accepted = refl

program_exits : eval 3 8 2 blocks cli_args ≡ some (ok 7)
unfolding eval init_heap step Alloc.malloc eval_rec
program_exits = refl

tc-lookup_example : IsDistinct (ids blocks) × ((n : ℕ) → lookup n blocks ≡ lookup n blocks)
tc-lookup_example = tc-lookup blocks blocks_accepted

abbrev first_state : State
first_state = record {
  heap = heap_of_hi;
  registers = 4 ∷ 0 ∷ [];
  free_list = Alloc.node 4 4 Alloc.nil;
  alloc_blocks = [];
  stdout = [];
}

state_starts : initial 8 2 heap_of_hi 4 ≡ ok first_state
unfolding initial
state_starts = refl

initial-IsValid_example : IsValid 8 2 first_state
initial-IsValid_example = initial-IsValid 8 2 cli_args heap_starts state_starts

abbrev malloc_state : State
malloc_state = record {
  heap = heap_of_hi;
  registers = 4 ∷ 4 ∷ [];
  free_list = Alloc.node 6 2 Alloc.nil;
  alloc_blocks = (4, 2) ∷ [];
  stdout = [];
}

block_mallocs : step blocks main_block first_state ≡ ok (goes_on continuation malloc_state)
unfolding step Alloc.malloc
block_mallocs = refl

program-Owns_example : Owns 4 8 (next_live main_block first_state []) malloc_state
program-Owns_example =
    program-Owns 8 2 cli_args blocks heap_starts state_starts (round begins tt block_mallocs)

blocks-IsSafeEnv : IsSafeEnv 2 blocks
blocks-IsSafeEnv = ((omega arith, tt, tt), (tt, tt))

init_heap-argv_example :
    (get_elem? heap_of_hi 1 ≡ some (as_i32 (length cli_args)))
    × ((p : ℕ) × (p < 8)
        × (get_elem? heap_of_hi 2 ≡ some (as_i32 p))
        × Region heap_of_hi p (words (terminated (104 ∷ 105 ∷ []))))
init_heap-argv_example =
    init_heap-argv 8 cli_args 0 heap_starts
      (((omega arith, omega arith), ((omega arith, omega arith), tt)), tt) refl

address : eval_val first_state.registers (imm 3) ≡ ok 3
unfolding eval_val
address = refl

print_str-argument_example :
    Print.print_str first_state (imm 3) ≡ ok (print_line (Output.text (104 ∷ 105 ∷ [])) first_state)
print_str-argument_example =
    print_str-argument 8 cli_args 0 first_state (imm 3) heap_starts (omega arith)
      (((omega arith, omega arith), ((omega arith, omega arith), tt)), tt) refl refl address
