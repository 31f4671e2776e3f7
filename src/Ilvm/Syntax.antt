-- ===== src/Ilvm/Syntax.antt =====
-- syntax.rs: the instructions of an ILVM program.
use Prim.Native.String.{String}
use plbench.Prelude.{ℕ}

-- A 32-bit signed integer by its two's complement bit pattern, a number below 2 ^ 32.
abbrev pub I32 : Type 0
I32 = ℕ

abbrev pub Reg : Type 0
Reg = ℕ

pub data Val : Type 0 where
  reg : ℕ → Val
  imm : I32 → Val

pub data Op2 : Type 0 where
  add sub mul div modulo bit_and bit_or bit_xor shl shr u_shr lt eq : Op2

pub data Op1 : Type 0 where
  bit_not : Op1

pub data Printable : Type 0 where
  id : String → Printable
  val : Val → Printable
  array : Val → Val → Printable

pub data Instr : Type 0 where
  goto : Val → Instr
  exit : Val → Instr
  abort : Instr
  op1 : Reg → Op1 → Val → Instr → Instr
  op2 : Reg → Op2 → Val → Val → Instr → Instr
  copy : Reg → Val → Instr → Instr
  load : Reg → Val → Instr → Instr
  store : Reg → Val → Instr → Instr
  if_z : Val → Instr → Instr → Instr
  malloc : Reg → Val → Instr → Instr
  print : Printable → Instr → Instr
  print_str : Val → Instr → Instr
  free : Reg → Instr → Instr
  mem_size : Reg → Instr → Instr

abbrev pub Block : Type 0
Block = I32 × Instr
