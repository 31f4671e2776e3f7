-- ===== src/Ilvm/Parser/Values.antt =====
-- parser.rs, from `reg` to `token_match`: the parsers of values over tokens.
use Prim.Native.String.{String}
use plbench.Prelude.{
  ℕ, ◌+◌, ◌-◌, ◌^◌, Bool, true, false, [], ◌∷◌, none, some, leb, ◌==◌, if◌then◌else◌,
}
use plbench.Ilvm.Syntax.{I32, Val, Op1, Op2, Printable}
use plbench.Ilvm.Word.{as_i32}
use plbench.Ilvm.Parser.Token.{Tok, Op2-discrete, discriminant}
use plbench.Ilvm.Parser.Nom.{Parser, ◌>>=◌, Nom}

unfoldable pub reg : Parser ℕ
reg (Tok.reg n ∷ rest) = some (rest, n)
reg _ = none

unfoldable pub magnitude_token : Parser ℕ
magnitude_token (Tok.int32 n ∷ rest) = some (rest, n)
magnitude_token _ = none

abbrev pub max_value : ℕ
max_value = 2147483647

-- The word for the integer -n.
abbrev pub negative : ℕ → I32
negative n = as_i32 (2 ^ 32 - n)

abbrev pub min_value : I32
min_value = 2147483648

unfoldable pub signed_i32 : Parser I32
unfolding magnitude_token
signed_i32 (Tok.op2 Op2.sub ∷ input) = do
  (rest, mag) ← magnitude_token input
  if leb mag max_value
      then some (rest, negative mag)
      else if mag == max_value + 1
      then some (rest, min_value)
      else none
signed_i32 (Tok.op2 Op2.add ∷ input) = do
  (rest, mag) ← magnitude_token input
  if leb mag max_value then some (rest, mag) else none
signed_i32 input = do
  (rest, mag) ← magnitude_token input
  if leb mag max_value then some (rest, mag) else none

unfoldable pub op2_token : Parser Op2
op2_token (Tok.op2 op ∷ rest) = some (rest, op)
op2_token _ = none

unfoldable pub op1_token : Parser Op1
op1_token (Tok.op1 op ∷ rest) = some (rest, op)
op1_token _ = none

unfoldable pub id_token : Parser String
id_token (Tok.id s ∷ rest) = some (rest, s)
id_token _ = none

-- Of two binary operators, whether they are the same one.
unfoldable pub operators_agree : Tok → Tok → Bool
unfolding Op2-discrete
operators_agree (Tok.op2 a) (Tok.op2 b) = elim (Op2-discrete a b) [ yes e ↦ true | no e ↦ false ]
operators_agree tok t = true

-- A token matches one of its kind, a binary operator only itself.
unfoldable pub token_match : Tok → Parser (Unit {0})
unfolding discriminant operators_agree
token_match tok [] = none
token_match tok (t ∷ rest) =
    if discriminant t == discriminant tok
    then (if operators_agree tok t then some (rest, tt) else none)
    else none

module _ (nom : Nom) where
  unfoldable pub val : Parser Val
  unfolding reg signed_i32
  val = nom.alt Val (nom.map ℕ Val reg Val.reg ∷ nom.map I32 Val signed_i32 Val.imm ∷ [])

  -- `tuple` runs its parsers one after another.
  unfoldable pub parse_array : Parser Printable
  unfolding val token_match
  parse_array input = do
    (i1, _) ← token_match Tok.array input
    (i2, _) ← token_match Tok.l_paren i1
    (i3, v1) ← val i2
    (i4, _) ← token_match Tok.comma i3
    (i5, v2) ← val i4
    (rest, _) ← token_match Tok.r_paren i5
    some (rest, Printable.array v1 v2)

  unfoldable pub printable : Parser Printable
  unfolding val id_token parse_array
  printable = nom.alt Printable (
      nom.map String Printable id_token Printable.id
      ∷ nom.map Val Printable val Printable.val
      ∷ parse_array
      ∷ [])
