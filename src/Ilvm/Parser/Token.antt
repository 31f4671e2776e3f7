-- ===== src/Ilvm/Parser/Token.antt =====
-- parser.rs, the tokens and the comparison of their kinds.
use Prim.Native.String.{String}
use plbench.Prelude.{ℕ, List}
use plbench.Ilvm.Syntax.{Op1, Op2}

pub data Tok : Type 0 where
  l_brace r_brace l_paren r_paren ifz else_kw semi equal goto abort exit malloc : Tok
  mem_size print print_str array comma free block : Tok
  op1 : Op1 → Tok
  op2 : Op2 → Tok
  int32 : ℕ → Tok
  reg : ℕ → Tok
  id : String → Tok
  eof : Tok

abbrev pub Toks : Type 0
Toks = List Tok

unfoldable pub Op2-discrete : Discrete Op2
Op2-discrete = hlevel

-- `std::mem::discriminant`, the number of the variant.
unfoldable pub discriminant : Tok → ℕ
discriminant l_brace = 0
discriminant r_brace = 1
discriminant l_paren = 2
discriminant r_paren = 3
discriminant ifz = 4
discriminant else_kw = 5
discriminant semi = 6
discriminant equal = 7
discriminant goto = 8
discriminant abort = 9
discriminant exit = 10
discriminant malloc = 11
discriminant mem_size = 12
discriminant print = 13
discriminant print_str = 14
discriminant array = 15
discriminant comma = 16
discriminant free = 17
discriminant block = 18
discriminant (op1 o) = 19
discriminant (op2 o) = 20
discriminant (int32 n) = 21
discriminant (reg n) = 22
discriminant (id s) = 23
discriminant eof = 24
