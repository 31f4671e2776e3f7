-- ===== src/Ilvm/Parser/Grammar.antt =====
-- parser.rs: the grammar of ILVM over tokens, written independently of the parser. In
-- `Reads input value rest` the tokens begin with a phrase for the value, and `rest` follows it.
use Prim.Native.String.{String}
use plbench.Prelude.{ℕ, ◌-◌, ◌^◌, ◌<◌, ◌≤◌, ◌≡◌, List, [], ◌∷◌}
use plbench.Ilvm.Syntax.{I32, Val, Op1, Op2, Printable, Instr, Block}
use plbench.Ilvm.Word.{as_i32}
use plbench.Ilvm.Parser.Token.{Tok, Toks}

pub data IsSigned : Toks → I32 → Toks → Type 0 where
  plain : {n : ℕ} {rest : Toks} → n < 2 ^ 31 → IsSigned (Tok.int32 n ∷ rest) n rest
  plus : {n : ℕ} {rest : Toks} → n < 2 ^ 31 → IsSigned (Tok.op2 Op2.add ∷ Tok.int32 n ∷ rest) n rest
  -- The word that stands for -n.
  minus :
      {n w : ℕ} {rest : Toks}
      → n ≤ 2 ^ 31
      → w ≡ as_i32 (2 ^ 32 - n)
      → IsSigned (Tok.op2 Op2.sub ∷ Tok.int32 n ∷ rest) w rest

pub data IsVal : Toks → Val → Toks → Type 0 where
  reg : {r : ℕ} {rest : Toks} → IsVal (Tok.reg r ∷ rest) (Val.reg r) rest
  imm : {input rest : Toks} {n : I32} → IsSigned input n rest → IsVal input (Val.imm n) rest

pub data IsPrintable : Toks → Printable → Toks → Type 0 where
  id : {s : String} {rest : Toks} → IsPrintable (Tok.id s ∷ rest) (Printable.id s) rest
  val : {i o : Toks} {v : Val} → IsVal i v o → IsPrintable i (Printable.val v) o
  array :
      {i j o : Toks} {v w : Val}
      → IsVal i v (Tok.comma ∷ j)
      → IsVal j w (Tok.r_paren ∷ o)
      → IsPrintable (Tok.array ∷ Tok.l_paren ∷ i) (Printable.array v w) o

pub data IsInstr : Toks → Instr → Toks → Type 0 where
  goto :
      {i o : Toks} {v : Val}
      → IsVal i v (Tok.r_paren ∷ Tok.semi ∷ o)
      → IsInstr (Tok.goto ∷ Tok.l_paren ∷ i) (Instr.goto v) o
  exit :
      {i o : Toks} {v : Val}
      → IsVal i v (Tok.r_paren ∷ Tok.semi ∷ o)
      → IsInstr (Tok.exit ∷ Tok.l_paren ∷ i) (Instr.exit v) o
  abort : {o : Toks} → IsInstr (Tok.abort ∷ Tok.semi ∷ o) Instr.abort o
  copy :
      {i j o : Toks} {r : ℕ} {v : Val} {k : Instr}
      → IsVal i v (Tok.semi ∷ j)
      → IsInstr j k o
      → IsInstr (Tok.reg r ∷ Tok.equal ∷ i) (Instr.copy r v k) o
  op1 :
      {i j o : Toks} {r : ℕ} {op : Op1} {v : Val} {k : Instr}
      → IsVal i v (Tok.semi ∷ j)
      → IsInstr j k o
      → IsInstr (Tok.reg r ∷ Tok.equal ∷ Tok.op1 op ∷ i) (Instr.op1 r op v k) o
  op2 :
      {h i j o : Toks} {r : ℕ} {op : Op2} {v w : Val} {k : Instr}
      → IsVal h v (Tok.op2 op ∷ i)
      → IsVal i w (Tok.semi ∷ j)
      → IsInstr j k o
      → IsInstr (Tok.reg r ∷ Tok.equal ∷ h) (Instr.op2 r op v w k) o
  load :
      {i j o : Toks} {r : ℕ} {v : Val} {k : Instr}
      → IsVal i v (Tok.semi ∷ j)
      → IsInstr j k o
      → IsInstr (Tok.reg r ∷ Tok.equal ∷ Tok.op2 Op2.mul ∷ i) (Instr.load r v k) o
  store :
      {i j o : Toks} {r : ℕ} {v : Val} {k : Instr}
      → IsVal i v (Tok.semi ∷ j)
      → IsInstr j k o
      → IsInstr (Tok.op2 Op2.mul ∷ Tok.reg r ∷ Tok.equal ∷ i) (Instr.store r v k) o
  malloc :
      {i j o : Toks} {r : ℕ} {v : Val} {k : Instr}
      → IsVal i v (Tok.r_paren ∷ Tok.semi ∷ j)
      → IsInstr j k o
      → IsInstr (Tok.reg r ∷ Tok.equal ∷ Tok.malloc ∷ Tok.l_paren ∷ i) (Instr.malloc r v k) o
  mem_size :
      {j o : Toks} {r : ℕ} {k : Instr}
      → IsInstr j k o
      → IsInstr (Tok.reg r ∷ Tok.equal ∷ Tok.mem_size ∷ Tok.semi ∷ j) (Instr.mem_size r k) o
  free :
      {j o : Toks} {r : ℕ} {k : Instr}
      → IsInstr j k o
      → IsInstr (Tok.free ∷ Tok.l_paren ∷ Tok.reg r ∷ Tok.r_paren ∷ Tok.semi ∷ j) (Instr.free r k) o
  print :
      {i j o : Toks} {p : Printable} {k : Instr}
      → IsPrintable i p (Tok.r_paren ∷ Tok.semi ∷ j)
      → IsInstr j k o
      → IsInstr (Tok.print ∷ Tok.l_paren ∷ i) (Instr.print p k) o
  print_str :
      {i j o : Toks} {v : Val} {k : Instr}
      → IsVal i v (Tok.r_paren ∷ Tok.semi ∷ j)
      → IsInstr j k o
      → IsInstr (Tok.print_str ∷ Tok.l_paren ∷ i) (Instr.print_str v k) o
  if_z :
      {h i j o : Toks} {v : Val} {k l : Instr}
      → IsVal h v (Tok.l_brace ∷ i)
      → IsInstr i k (Tok.r_brace ∷ Tok.else_kw ∷ Tok.l_brace ∷ j)
      → IsInstr j l (Tok.r_brace ∷ o)
      → IsInstr (Tok.ifz ∷ h) (Instr.if_z v k l) o

pub data IsBlock : Toks → Block → Toks → Type 0 where
  block :
      {i j o : Toks} {n : I32} {k : Instr}
      → IsSigned i n (Tok.l_brace ∷ j)
      → IsInstr j k (Tok.r_brace ∷ o)
      → IsBlock (Tok.block ∷ i) (n, k) o

-- A program is its blocks up to the end of the input, which a token may mark. The grammar of
-- Language.md asks for one block at least; a program without blocks is added here.
pub data IsProgram : Toks → List Block → Type 0 where
  nothing : IsProgram [] []
  end : IsProgram (Tok.eof ∷ []) []
  next :
      {i j : Toks} {b : Block} {bs : List Block}
      → IsBlock i b j
      → IsProgram j bs
      → IsProgram i (b ∷ bs)
