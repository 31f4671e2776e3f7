-- ===== src/TypeWhich/InsAndOuts/Syntax.antt =====
-- ins_and_outs/syntax.rs: the types and programs of the inference.
use Prim.Native.String.{String}
use native.Mathlib.Decide.{ℕ_discrete}
use plbench.Prelude.{ℕ, Bool}

pub data Typ : Type 0 where
  null int bool any : Typ
  arr : Typ → Typ → Typ
  metavar : ℕ → Typ
  metavar_arg metavar_ret : Typ → Typ

-- `==` on types.
unfoldable pub Typ-discrete : Discrete Typ
unfolding ℕ_discrete
Typ-discrete = hlevel ℕ_discrete

-- An integer is its bit pattern.
pub data Lit : Type 0 where
  null : Lit
  int : ℕ → Lit
  bool : Bool → Lit

pub data Exp : Type 0 where
  lit : Lit → Exp
  var : String → Exp
  assign : String → Exp → Exp
  func : String → Typ → Exp → Typ → Exp
  app : Exp → Exp → Exp
  coerce : Typ → Typ → Exp → Exp
  if_exp : Exp → Exp → Exp → Exp
  add seq : Exp → Exp → Exp
