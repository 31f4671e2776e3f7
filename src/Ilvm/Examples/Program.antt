-- ===== src/Ilvm/Examples/Program.antt =====
-- Programs on concrete inputs.
use plbench.Prelude.{ℕ, ◌+◌, ◌≡◌, refl, ◌≢◌, none, some, [], ◌∷◌, arith}
use plbench.Ilvm.Syntax.{Instr, exit, load, store, malloc, free, imm, reg}
use plbench.Ilvm.Run.{ok}
use plbench.Ilvm.State.{State}
use plbench.Ilvm.Alloc as Alloc
use plbench.Ilvm.Alloc.{FreeList, nil, node}
use plbench.Ilvm.Alloc.Cover.{within, cover}
use plbench.Ilvm.Machine.{Env, step, eval_rec, run_free}
use plbench.Ilvm.Machine.Halts.{eval_rec_halts}
use plbench.Ilvm.Machine.DoubleFree.{run_free_twice}

-- `r1 = malloc(2); *r1 = 7; r2 = *r1; free(r1); exit(r2)`
abbrev after_free : Instr
after_free = exit (reg 2)

abbrev after_malloc : Instr
after_malloc = store 1 (imm 7) (load 2 (reg 1) (free 1 after_free))

abbrev program : Instr
program = malloc 1 (imm 2) after_malloc

abbrev blocks : Env
blocks = (0, program) ∷ []

-- Six words of heap, the allocator's from 2 on, and three registers.
abbrev start_state : State
start_state = record {
  heap = 0 ∷ 0 ∷ 0 ∷ 0 ∷ 0 ∷ 0 ∷ [];
  registers = 2 ∷ 0 ∷ 0 ∷ [];
  free_list = node 2 4 nil;
  alloc_blocks = [];
  stdout = [];
}

abbrev malloc_state : State
malloc_state = record {
  heap = 0 ∷ 0 ∷ 0 ∷ 0 ∷ 0 ∷ 0 ∷ [];
  registers = 2 ∷ 2 ∷ 0 ∷ [];
  free_list = node 4 2 nil;
  alloc_blocks = (2, 2) ∷ [];
  stdout = [];
}

program_runs : eval_rec 5 blocks program start_state ≡ some (ok 7)
unfolding eval_rec step Alloc.malloc
program_runs = refl

eval_rec_halts_example : eval_rec 5 blocks program start_state ≢ none
eval_rec_halts_example = eval_rec_halts blocks 5 program start_state (omega arith) tt

freed_once :
    run_free 2 malloc_state
    ≡ ok (record malloc_state { free_list = Alloc.free malloc_state.free_list 2 2 })
unfolding run_free
freed_once = refl

run_free_twice_example :
    (size : ℕ) × (st'' : State) × (run_free 2
        (record malloc_state { free_list = Alloc.free malloc_state.free_list 2 2 })
      ≡ ok st'')
    × ((a : ℕ)
        → cover st''.free_list a
          ≡ within 2 size a + (within 2 size a + cover malloc_state.free_list a))
run_free_twice_example = run_free_twice 2 malloc_state freed_once
