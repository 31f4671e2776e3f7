-- ===== src/Ilvm/Parser/Instr.antt =====
-- parser.rs, the parsers of instructions and blocks over tokens.
use plbench.Prelude.{ℕ, zero, suc, List, [], ◌∷◌, none, some}
use plbench.Ilvm.Syntax.{Val, Op2, Instr, Block}
use plbench.Ilvm.Parser.Token.{Tok}
use plbench.Ilvm.Parser.Nom.{Parser, ◌>>=◌, if_ok, Nom}
use plbench.Ilvm.Parser.Values.{reg, signed_i32, op2_token, op1_token, token_match, val, printable}

unfoldable pub parse_abort : Parser Instr
unfolding token_match
parse_abort input = do
  (i1, _) ← token_match Tok.abort input
  (rest, _) ← token_match Tok.semi i1
  some (rest, Instr.abort)

unfoldable pub try_memsize : Parser (Unit {0})
unfolding token_match
try_memsize input = do
  (i1, _) ← token_match Tok.mem_size input
  (i2, _) ← token_match Tok.semi i1
  some (i2, tt)

module _ (nom : Nom) where
  unfoldable pub parse_goto : Parser Instr
  unfolding val token_match
  parse_goto input = do
    (i1, _) ← token_match Tok.goto input
    (i2, _) ← token_match Tok.l_paren i1
    (i3, v) ← val nom i2
    (i4, _) ← token_match Tok.r_paren i3
    (rest, _) ← token_match Tok.semi i4
    some (rest, Instr.goto v)

  unfoldable pub parse_exit : Parser Instr
  unfolding val token_match
  parse_exit input = do
    (i1, _) ← token_match Tok.exit input
    (i2, _) ← token_match Tok.l_paren i1
    (i3, v) ← val nom i2
    (i4, _) ← token_match Tok.r_paren i3
    (rest, _) ← token_match Tok.semi i4
    some (rest, Instr.exit v)

  -- The tokens of a load, an allocation and a query after `r =`, up to the semicolon.
  unfoldable pub try_load : Parser Val
  unfolding val token_match
  try_load input = do
    (i1, _) ← token_match (Tok.op2 Op2.mul) input
    (i2, v) ← val nom i1
    (i3, _) ← token_match Tok.semi i2
    some (i3, v)

  unfoldable pub try_malloc : Parser Val
  unfolding val token_match
  try_malloc input = do
    (i1, _) ← token_match Tok.malloc input
    (i2, _) ← token_match Tok.l_paren i1
    (i3, v) ← val nom i2
    (i4, _) ← token_match Tok.r_paren i3
    (i5, _) ← token_match Tok.semi i4
    some (i5, v)

  -- The parsers of the instructions that go on take the parser of what follows.
  module _ (next : Parser Instr) where
    unfoldable pub parse_print_str : Parser Instr
    unfolding val token_match
    parse_print_str input = do
      (i1, _) ← token_match Tok.print_str input
      (i2, _) ← token_match Tok.l_paren i1
      (i3, v) ← val nom i2
      (i4, _) ← token_match Tok.r_paren i3
      (i5, _) ← token_match Tok.semi i4
      (i6, rest) ← next i5
      some (i6, Instr.print_str v rest)

    unfoldable pub parse_load : Parser Instr
    unfolding reg val token_match
    parse_load input = do
      (i1, r) ← reg input
      (i2, _) ← token_match Tok.equal i1
      (i3, _) ← token_match (Tok.op2 Op2.mul) i2
      (i4, v) ← val nom i3
      (i5, _) ← token_match Tok.semi i4
      (i6, rest) ← next i5
      some (i6, Instr.load r v rest)

    unfoldable pub parse_store : Parser Instr
    unfolding reg val token_match
    parse_store input = do
      (i1, _) ← token_match (Tok.op2 Op2.mul) input
      (i2, r) ← reg i1
      (i3, _) ← token_match Tok.equal i2
      (i4, v) ← val nom i3
      (i5, _) ← token_match Tok.semi i4
      (i6, rest) ← next i5
      some (i6, Instr.store r v rest)

    unfoldable pub parse_ifz : Parser Instr
    unfolding val token_match
    parse_ifz input = do
      (i1, _) ← token_match Tok.ifz input
      (i2, v) ← val nom i1
      (i3, _) ← token_match Tok.l_brace i2
      (i4, tru) ← next i3
      (i5, _) ← token_match Tok.r_brace i4
      (i6, _) ← token_match Tok.else_kw i5
      (i7, _) ← token_match Tok.l_brace i6
      (i8, fls) ← next i7
      (i9, _) ← token_match Tok.r_brace i8
      some (i9, Instr.if_z v tru fls)

    unfoldable pub parse_free : Parser Instr
    unfolding reg token_match
    parse_free input = do
      (i1, _) ← token_match Tok.free input
      (i2, _) ← token_match Tok.l_paren i1
      (i3, r) ← reg i2
      (i4, _) ← token_match Tok.r_paren i3
      (i5, _) ← token_match Tok.semi i4
      (i6, rest) ← next i5
      some (i6, Instr.free r rest)

    unfoldable pub parse_print : Parser Instr
    unfolding printable token_match
    parse_print input = do
      (i1, _) ← token_match Tok.print input
      (i2, _) ← token_match Tok.l_paren i1
      (i3, p) ← printable nom i2
      (i4, _) ← token_match Tok.r_paren i3
      (i5, _) ← token_match Tok.semi i4
      (i6, rest) ← next i5
      some (i6, Instr.print p rest)

    -- A copy, or a binary operation.
    unfoldable pub parse_copied : ℕ → Parser Instr
    unfolding val token_match op2_token
    parse_copied r input = do
      (i1, v1) ← val nom input
      if_ok (op2_token i1)
          (λ (i2, op). do
            (i3, v2) ← val nom i2
            (i4, _) ← token_match Tok.semi i3
            (i5, rest) ← next i4
            some (i5, Instr.op2 r op v1 v2 rest))
          (do
            (i2, _) ← token_match Tok.semi i1
            (i3, rest) ← next i2
            some (i3, Instr.copy r v1 rest))

    -- Once the tokens up to the semicolon, or a unary operator, have been recognised, a later error
    -- is the error of the whole.
    unfoldable pub parse_assigned : ℕ → Parser Instr
    unfolding val token_match op1_token try_load try_malloc try_memsize parse_copied
    parse_assigned r input =
        if_ok (try_load input) (λ (i, v). do (j, rest) ← next i; some (j, Instr.load r v rest))
          (if_ok (try_malloc input)
            (λ (i, v). do (j, rest) ← next i; some (j, Instr.malloc r v rest))
            (if_ok (try_memsize input)
              (λ (i, _). do (j, rest) ← next i; some (j, Instr.mem_size r rest))
              (if_ok (op1_token input)
                (λ (i, op). do
                  (i1, v) ← val nom i
                  (i2, _) ← token_match Tok.semi i1
                  (i3, rest) ← next i2
                  some (i3, Instr.op1 r op v rest))
                (parse_copied r input))))

    unfoldable pub parse_copy_or_op2 : Parser Instr
    unfolding reg token_match parse_assigned
    parse_copy_or_op2 input = do
      (i1, r) ← reg input
      (i2, _) ← token_match Tok.equal i1
      parse_assigned r i2

    -- The alternatives of `instr`, in the order in which they are tried.
    abbrev pub alternatives : List (Parser Instr)
    alternatives =
        parse_goto ∷ parse_abort ∷ parse_exit ∷ parse_copy_or_op2 ∷ parse_load ∷ parse_store
        ∷ parse_ifz ∷ parse_free ∷ parse_print_str ∷ parse_print ∷ []

  -- On fuel, of which every instruction that goes on takes one unit.
  unfoldable pub instr : ℕ → Parser Instr
  instr zero input = none
  instr (suc fuel) input = nom.alt Instr (alternatives (instr fuel)) input

  unfoldable pub block : ℕ → Parser Block
  unfolding instr token_match signed_i32
  block fuel input = do
    (i1, _) ← token_match Tok.block input
    (i2, n) ← signed_i32 i1
    (i3, _) ← token_match Tok.l_brace i2
    (i4, body) ← instr fuel i3
    (i5, _) ← token_match Tok.r_brace i4
    some (i5, (n, body))
