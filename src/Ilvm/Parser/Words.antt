-- ===== src/Ilvm/Parser/Words.antt =====
-- parser.rs: the immediate values of a parsed program are 32-bit words.
use plbench.Prelude.{List, arith}
use plbench.Ilvm.Syntax.{I32, Val, Printable, Instr, Block}
use plbench.Ilvm.Word.{IsWord}
use plbench.Ilvm.Machine.Safety.{IsWordVal, IsWordPrintable, IsWordInstr, IsWordEnv}
use plbench.Ilvm.Parser.Token.{Toks}
use plbench.Ilvm.Parser.Grammar.{IsSigned, IsVal, IsPrintable, IsInstr, IsBlock, IsProgram}

IsSigned-IsWord : {i o : Toks} {n : I32} → IsSigned i n o → IsWord n
IsSigned-IsWord (IsSigned.plain h) = omega arith
IsSigned-IsWord (IsSigned.plus h) = omega arith
IsSigned-IsWord (IsSigned.minus h e) = omega arith

IsVal-IsWordVal : {i o : Toks} {v : Val} → IsVal i v o → IsWordVal v
IsVal-IsWordVal IsVal.reg = tt
IsVal-IsWordVal (IsVal.imm h) = IsSigned-IsWord h

IsPrintable-IsWordPrintable : {i o : Toks} {p : Printable} → IsPrintable i p o → IsWordPrintable p
IsPrintable-IsWordPrintable IsPrintable.id = tt
IsPrintable-IsWordPrintable (IsPrintable.val h) = IsVal-IsWordVal h
IsPrintable-IsWordPrintable (IsPrintable.array h k) = (IsVal-IsWordVal h, IsVal-IsWordVal k)

pub IsInstr-IsWordInstr : {i o : Toks} {k : Instr} → IsInstr i k o → IsWordInstr k
IsInstr-IsWordInstr (IsInstr.goto h) = IsVal-IsWordVal h
IsInstr-IsWordInstr (IsInstr.exit h) = IsVal-IsWordVal h
IsInstr-IsWordInstr IsInstr.abort = tt
IsInstr-IsWordInstr (IsInstr.copy h d) = (IsVal-IsWordVal h, IsInstr-IsWordInstr d)
IsInstr-IsWordInstr (IsInstr.op1 h d) = (IsVal-IsWordVal h, IsInstr-IsWordInstr d)
IsInstr-IsWordInstr (IsInstr.op2 h k d) =
    (IsVal-IsWordVal h, IsVal-IsWordVal k, IsInstr-IsWordInstr d)
IsInstr-IsWordInstr (IsInstr.load h d) = (IsVal-IsWordVal h, IsInstr-IsWordInstr d)
IsInstr-IsWordInstr (IsInstr.store h d) = (IsVal-IsWordVal h, IsInstr-IsWordInstr d)
IsInstr-IsWordInstr (IsInstr.malloc h d) = (IsVal-IsWordVal h, IsInstr-IsWordInstr d)
IsInstr-IsWordInstr (IsInstr.mem_size d) = IsInstr-IsWordInstr d
IsInstr-IsWordInstr (IsInstr.free d) = IsInstr-IsWordInstr d
IsInstr-IsWordInstr (IsInstr.print h d) = (IsPrintable-IsWordPrintable h, IsInstr-IsWordInstr d)
IsInstr-IsWordInstr (IsInstr.print_str h d) = (IsVal-IsWordVal h, IsInstr-IsWordInstr d)
IsInstr-IsWordInstr (IsInstr.if_z h d e) =
    (IsVal-IsWordVal h, IsInstr-IsWordInstr d, IsInstr-IsWordInstr e)

pub IsProgram-IsWordEnv : {i : Toks} {bs : List Block} → IsProgram i bs → IsWordEnv bs
IsProgram-IsWordEnv IsProgram.nothing = tt
IsProgram-IsWordEnv IsProgram.end = tt
IsProgram-IsWordEnv (IsProgram.next (IsBlock.block h d) p) =
    (IsInstr-IsWordInstr d, IsProgram-IsWordEnv p)
