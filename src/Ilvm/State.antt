-- ===== src/Ilvm/State.antt =====
-- eval.rs, `State`, `eval_val`, and the writes to registers.
use Prim.Native.String.{String}
use plbench.Prelude.{ℕ, List, ltb, if◌then◌else◌, length, get_elem?, set}
use plbench.Ilvm.Syntax.{I32, Reg, Val, reg, imm}
use plbench.Ilvm.Run.{Run, ok, panic, or_panic}
use plbench.Ilvm.Alloc.{FreeList}

-- A line of the standard output. `addresses a b` is the list of the numbers from `a` up to `b`,
-- exclusive, and `text` a string by its bytes.
pub data Output : Type 0 where
  id : String → Output
  number : I32 → Output
  addresses : ℕ → ℕ → Output
  invalid_address : ℕ → Output
  text : List ℕ → Output

-- `stdout` holds the lines printed so far, the last one first.
pub record State : Type 0 where
  pub heap : List I32
  pub registers : List I32
  pub free_list : FreeList
  pub alloc_blocks : List (ℕ × ℕ)
  pub stdout : List Output

unfoldable pub eval_val : List I32 → Val → Run I32
eval_val regs (imm n) = ok n
eval_val regs (reg i) = or_panic (get_elem? regs i)

-- `st.registers[r] = w`
unfoldable pub set_register : Reg → I32 → State → Run State
set_register r w st =
    if ltb r (length st.registers)
    then ok (record st { registers = set st.registers r w })
    else panic
