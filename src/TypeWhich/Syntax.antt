-- ===== src/TypeWhich/Syntax.antt =====
-- syntax.rs: types, operators and expressions.
use Prim.Native.String.{String}
use native.Mathlib.Decide.{ℕ_discrete}
use plbench.Prelude.{ℕ, Bool}

pub data GroundTyp : Type 0 where
  int bool func : GroundTyp

pub data Coerce : Type 0 where
  id : Coerce
  tag untag : GroundTyp → Coerce
  wrap seq : Coerce → Coerce → Coerce
  doomed : Coerce

pub data Typ : Type 0 where
  unit int float bool str char any : Typ
  arr pair : Typ → Typ → Typ
  list box vect : Typ → Typ
  metavar : ℕ → Typ

-- `==` on types.
unfoldable pub Typ-discrete : Discrete Typ
unfolding ℕ_discrete
Typ-discrete = hlevel ℕ_discrete

-- An integer and a float are their bit patterns, a character is its code point.
pub data Lit : Type 0 where
  int : ℕ → Lit
  bool : Bool → Lit
  str : String → Lit
  float : ℕ → Lit
  char : ℕ → Lit
  unit : Lit

pub data UnOp : Type 0 where
  not binary_not float_abs timer_start print exit read_int print_int read_bool print_bool : UnOp
  read_float read_char print_char float_to_int int_to_float char_to_int int_to_char and : UnOp

pub data BinOp : Type 0 where
  int_eq int_add int_mul float_add float_eq and printf print_float : BinOp

-- `let_rec` holds its bindings `(name, type, expression)` as a list of its own.
mutual
  pub data Exp : Type 0 where
    lit : Lit → Exp
    var : String → Exp
    func fix : String → Typ → Exp → Exp
    app : Exp → Exp → Exp
    unary_op : UnOp → Exp → Exp
    binary_op : BinOp → Exp → Exp → Exp
    let_exp : String → Exp → Exp → Exp
    let_rec : Bindings → Exp → Exp
    ann : Exp → Typ → Exp
    add_overload : Exp → Exp → Exp
    if_exp : Exp → Exp → Exp → Exp
    pair cons : Exp → Exp → Exp
    fst snd : Exp → Exp
    empty : Typ → Exp
    is_empty head tail box unbox : Exp → Exp
    box_set vector vector_ref : Exp → Exp → Exp
    vector_set : Exp → Exp → Exp → Exp
    vector_len is_bool is_int is_string is_list is_fun : Exp → Exp
    coerce : Typ → Typ → Exp → Exp
    prim_coerce : Coerce → Exp → Exp

  pub data Bindings : Type 0 where
    done : Bindings
    binding : String → Typ → Exp → Bindings → Bindings

-- `Lit::typ`
unfoldable pub lit_typ : Lit → Typ
lit_typ (Lit.int n) = Typ.int
lit_typ (Lit.bool b) = Typ.bool
lit_typ (Lit.str s) = Typ.str
lit_typ (Lit.float x) = Typ.float
lit_typ (Lit.char c) = Typ.char
lit_typ Lit.unit = Typ.unit

-- `UnOp::typ`: the argument and the result.
unfoldable pub un_op_typ : UnOp → Typ × Typ
un_op_typ UnOp.not = (Typ.bool, Typ.bool)
un_op_typ UnOp.binary_not = (Typ.int, Typ.int)
un_op_typ UnOp.float_abs = (Typ.float, Typ.float)
un_op_typ UnOp.timer_start = (Typ.unit, Typ.unit)
un_op_typ UnOp.print = (Typ.str, Typ.unit)
un_op_typ UnOp.exit = (Typ.int, Typ.any)
un_op_typ UnOp.read_int = (Typ.unit, Typ.int)
un_op_typ UnOp.print_int = (Typ.int, Typ.unit)
un_op_typ UnOp.read_bool = (Typ.unit, Typ.bool)
un_op_typ UnOp.print_bool = (Typ.bool, Typ.unit)
un_op_typ UnOp.read_float = (Typ.unit, Typ.float)
un_op_typ UnOp.read_char = (Typ.unit, Typ.char)
un_op_typ UnOp.print_char = (Typ.char, Typ.unit)
un_op_typ UnOp.float_to_int = (Typ.float, Typ.int)
un_op_typ UnOp.int_to_float = (Typ.int, Typ.float)
un_op_typ UnOp.char_to_int = (Typ.char, Typ.int)
un_op_typ UnOp.int_to_char = (Typ.int, Typ.char)
un_op_typ UnOp.and = (Typ.any, Typ.arr Typ.any Typ.any)

-- `BinOp::typ`: the two arguments and the result.
unfoldable pub bin_op_typ : BinOp → Typ × Typ × Typ
bin_op_typ BinOp.int_eq = (Typ.int, Typ.int, Typ.bool)
bin_op_typ BinOp.int_add = (Typ.int, Typ.int, Typ.int)
bin_op_typ BinOp.int_mul = (Typ.int, Typ.int, Typ.int)
bin_op_typ BinOp.float_add = (Typ.float, Typ.float, Typ.float)
bin_op_typ BinOp.float_eq = (Typ.float, Typ.float, Typ.bool)
bin_op_typ BinOp.and = (Typ.any, Typ.any, Typ.any)
bin_op_typ BinOp.printf = (Typ.str, Typ.list Typ.any, Typ.unit)
bin_op_typ BinOp.print_float = (Typ.float, Typ.int, Typ.unit)
