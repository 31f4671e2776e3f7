-- ===== src/Ilvm/Machine.antt =====
-- eval.rs, `eval_rec`: one round of the interpreter's loop, and the loop.
pub mod Safety
pub mod Step
pub mod Loop
pub mod Owns
pub mod Discipline
pub mod DoubleFree
pub mod Ownership
pub mod Panics
pub mod Halts
use plbench.Prelude.{
  ℕ, zero, suc, List, Option, none, some, leb, ◌==◌, if◌then◌else◌, length, get_elem?, set,
}
use plbench.Prelude.Assoc.{lookup, insert}
use plbench.Ilvm.Syntax.{
  I32, Instr, goto, exit, abort, op1, op2, copy, load, store, if_z, malloc, print, print_str, free,
  mem_size, reg,
}
use plbench.Ilvm.Word.{as_usize, as_i32}
use plbench.Ilvm.Run.{
  Run, ok, err, panic, ◌>>=◌, or_panic, runtime, load_address, store_address, code_address,
  called_abort, malloc_oom, free_bad_ptr,
}
use plbench.Ilvm.Op.{eval_op1, eval_op2}
use plbench.Ilvm.Alloc as Alloc
use plbench.Ilvm.Alloc.{FreeList}
use plbench.Ilvm.State.{State, eval_val, set_register}
use plbench.Ilvm.Print as Print

-- `Env`: the instructions of each block.
abbrev pub Env : Type 0
Env = List (ℕ × Instr)

-- What a round of the loop does: it goes on with an instruction, or the program exits.
pub data Next : Type 0 where
  goes_on : Instr → State → Next
  exits : I32 → Next

-- `malloc(n)` for a size that is not 0, with the free list taken out of the state.
unfoldable pub run_malloc : ℕ → ℕ → State → Run State
unfolding set_register
run_malloc r n st = elim (Alloc.malloc st.free_list n) [
  | none ↦ err (runtime malloc_oom)
  | some (free_list2, ptr) ↦ do
    st' ← set_register r (as_i32 ptr) (record st { free_list = free_list2 })
    ok (record st' { alloc_blocks = insert ptr n st'.alloc_blocks })
]

unfoldable pub run_free : ℕ → State → Run State
run_free ptr st = elim (lookup ptr st.alloc_blocks) [
  | none ↦ err (runtime free_bad_ptr)
  | some size ↦ ok (record st { free_list = Alloc.free st.free_list ptr size })
]

unfoldable pub step : Env → Instr → State → Run Next
unfolding eval_val set_register run_malloc run_free
step env (copy r v rest) st = do
  n ← eval_val st.registers v
  st' ← set_register r n st
  ok (goes_on rest st')
step env (op2 r op v1 v2 rest) st = do
  m ← eval_val st.registers v1
  n ← eval_val st.registers v2
  w ← or_panic (eval_op2 op m n)
  st' ← set_register r w st
  ok (goes_on rest st')
step env (op1 r op v rest) st = do
  n ← eval_val st.registers v
  st' ← set_register r (eval_op1 op n) st
  ok (goes_on rest st')
step env (load r v rest) st = do
  n ← eval_val st.registers v
  let ptr = as_usize n
  w ←
      (if leb (length st.heap) ptr
        then err (runtime (load_address r v ptr))
        else or_panic (get_elem? st.heap ptr))
  st' ← set_register r w st
  ok (goes_on rest st')
step env (store r v rest) st = do
  n ← eval_val st.registers (reg r)
  let ptr = as_usize n
  let stored = do
    w ← eval_val st.registers v
    ok (goes_on rest (record st { heap = set st.heap ptr w }))
  if leb (length st.heap) ptr then err (runtime (store_address r v ptr)) else stored
step env (goto v) st = do
  n ← eval_val st.registers v
  elim (lookup n env) [
    | none ↦ err (runtime (code_address n))
    | some target ↦ ok (goes_on target st)
  ]
step env (print p rest) st = do st' ← Print.print_printable st p; ok (goes_on rest st')
step env (print_str v rest) st = do st' ← Print.print_str st v; ok (goes_on rest st')
step env (exit v) st = do n ← eval_val st.registers v; ok (exits n)
step env abort st = err (runtime called_abort)
step env (if_z v true_part false_part) st = do
  n ← eval_val st.registers v
  ok (goes_on (if n == 0 then true_part else false_part) st)
step env (malloc r v rest) st = do
  n ← eval_val st.registers v
  st' ← (if as_usize n == 0 then set_register r 0 st else run_malloc r (as_usize n) st)
  ok (goes_on rest st')
step env (mem_size r rest) st = do
  st' ← set_register r (as_i32 (length st.heap)) st
  ok (goes_on rest st')
step env (free r rest) st = do
  n ← eval_val st.registers (reg r)
  st' ← run_free (as_usize n) st
  ok (goes_on rest st')

-- The loop on fuel: `none` where the program still runs after that many rounds.
unfoldable pub eval_rec : ℕ → Env → Instr → State → Option (Run I32)
eval_rec zero env i st = none
eval_rec (suc fuel) env i st = elim (step env i st) [
  | ok (goes_on i' st') ↦ eval_rec fuel env i' st'
  | ok (exits n) ↦ some (ok n)
  | err e ↦ some (err e)
  | panic ↦ some panic
]
