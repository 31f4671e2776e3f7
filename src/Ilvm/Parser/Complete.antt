-- ===== src/Ilvm/Parser/Complete.antt =====
-- parser.rs: what the grammar generates is parsed.
use Prim.Native.String.{String}
use plbench.Prelude.{ℕ, zero, suc, ◌<◌, ◌≡◌, refl, ◌∷◌, none, some, arith, length}
use plbench.Ilvm.Syntax.{I32, Val, Printable, Instr, Block}
use plbench.Ilvm.Parser.Token.{Tok, Toks}
use plbench.Ilvm.Parser.Nom.{Nom}
use plbench.Ilvm.Parser.Values.{
  reg, signed_i32, op2_token, op1_token, id_token, token_match, val, parse_array, printable,
}
use plbench.Ilvm.Parser.Instr.{
  parse_goto, parse_exit, parse_abort, parse_print_str, parse_load, parse_store, parse_ifz,
  parse_free, parse_print, try_load, try_malloc, try_memsize, parse_copied, parse_assigned,
  parse_copy_or_op2, instr, block,
}
use plbench.Ilvm.Parser.Grammar.{IsSigned, IsVal, IsPrintable, IsInstr, IsBlock}

pub signed_i32_complete : {i o : Toks} {n : I32} → IsSigned i n o → signed_i32 i ≡ some (o, n)
unfolding signed_i32
signed_i32_complete (IsSigned.plain h) = ground arith
signed_i32_complete (IsSigned.plus h) = ground arith
signed_i32_complete (IsSigned.minus h e) = ground arith

reg-IsSigned : {i o : Toks} {n : I32} → IsSigned i n o → reg i ≡ none
unfolding reg
reg-IsSigned (IsSigned.plain h) = refl
reg-IsSigned (IsSigned.plus h) = refl
reg-IsSigned (IsSigned.minus h e) = refl

IsSigned-length : {i o : Toks} {n : I32} → IsSigned i n o → length o < length i
IsSigned-length (IsSigned.plain h) = omega arith
IsSigned-length (IsSigned.plus h) = omega arith
IsSigned-length (IsSigned.minus h e) = omega arith

IsVal-length : {i o : Toks} {v : Val} → IsVal i v o → length o < length i
IsVal-length IsVal.reg = omega arith
IsVal-length (IsVal.imm h) = IsSigned-length h

IsPrintable-length : {i o : Toks} {p : Printable} → IsPrintable i p o → length o < length i
IsPrintable-length IsPrintable.id = omega arith
IsPrintable-length (IsPrintable.val h) = IsVal-length h
IsPrintable-length (IsPrintable.array h k) = omega (arith, IsVal-length h, IsVal-length k)

pub IsInstr-length : {i o : Toks} {k : Instr} → IsInstr i k o → length o < length i
IsInstr-length (IsInstr.goto h) = omega (arith, IsVal-length h)
IsInstr-length (IsInstr.exit h) = omega (arith, IsVal-length h)
IsInstr-length IsInstr.abort = omega arith
IsInstr-length (IsInstr.copy h d) = omega (arith, IsVal-length h, IsInstr-length d)
IsInstr-length (IsInstr.op1 h d) = omega (arith, IsVal-length h, IsInstr-length d)
IsInstr-length (IsInstr.op2 h k d) = omega (arith, IsVal-length h, IsVal-length k, IsInstr-length d)
IsInstr-length (IsInstr.load h d) = omega (arith, IsVal-length h, IsInstr-length d)
IsInstr-length (IsInstr.store h d) = omega (arith, IsVal-length h, IsInstr-length d)
IsInstr-length (IsInstr.malloc h d) = omega (arith, IsVal-length h, IsInstr-length d)
IsInstr-length (IsInstr.mem_size d) = omega (arith, IsInstr-length d)
IsInstr-length (IsInstr.free d) = omega (arith, IsInstr-length d)
IsInstr-length (IsInstr.print h d) = omega (arith, IsPrintable-length h, IsInstr-length d)
IsInstr-length (IsInstr.print_str h d) = omega (arith, IsVal-length h, IsInstr-length d)
IsInstr-length (IsInstr.if_z h d e) =
    omega (arith, IsVal-length h, IsInstr-length d, IsInstr-length e)

pub IsBlock-length : {i o : Toks} {b : Block} → IsBlock i b o → length o < length i
IsBlock-length (IsBlock.block h d) = omega (arith, IsSigned-length h, IsInstr-length d)

-- A value is not read as anything else that may stand in its place.
module _ (nom : Nom) where
  NoOther : Toks → Type 0
  NoOther i =
      (try_load nom i ≡ none)
      × (try_malloc nom i ≡ none)
      × (try_memsize i ≡ none)
      × (op1_token i ≡ none)
      × (id_token i ≡ none)

  IsSigned-NoOther : {i o : Toks} {n : I32} → IsSigned i n o → NoOther i
  unfolding NoOther try_load try_malloc try_memsize op1_token id_token
  IsSigned-NoOther (IsSigned.plain h) = (refl, refl, refl, refl, refl)
  IsSigned-NoOther (IsSigned.plus h) = (refl, refl, refl, refl, refl)
  IsSigned-NoOther (IsSigned.minus h e) = (refl, refl, refl, refl, refl)

  IsVal-NoOther : {i o : Toks} {v : Val} → IsVal i v o → NoOther i
  unfolding NoOther try_load try_malloc try_memsize op1_token id_token
  IsVal-NoOther IsVal.reg = (refl, refl, refl, refl, refl)
  IsVal-NoOther (IsVal.imm h) = IsSigned-NoOther h

  pub val_complete : {i o : Toks} {v : Val} → IsVal i v o → val nom i ≡ some (o, v)
  unfolding val reg
  val_complete IsVal.reg = simp (nom.alt_tries, nom.map_applies)
  val_complete (IsVal.imm h) =
      simp (nom.alt_tries, nom.map_applies, reg-IsSigned h, signed_i32_complete h)

  pub printable_complete :
      {i o : Toks} {p : Printable} → IsPrintable i p o → printable nom i ≡ some (o, p)
  unfolding printable id_token parse_array token_match NoOther
  printable_complete IsPrintable.id =
      simp (nom.alt_tries Printable, nom.map_applies String Printable)
  printable_complete (IsPrintable.val h) = simp (
    nom.alt_tries Printable,
    nom.map_applies String Printable,
    nom.map_applies Val Printable,
    (IsVal-NoOther h).4,
    val_complete h,
  )
  printable_complete (IsPrintable.array h k) = simp (
    nom.alt_tries Printable,
    nom.map_applies String Printable,
    nom.map_applies Val Printable,
    val-array,
    val_complete h,
    val_complete k,
  )
    where
      val-array : {i : Toks} → val nom (Tok.array ∷ i) ≡ none
      val-array =
          unfold val in unfold reg in unfold signed_i32 in simp (nom.alt_tries, nom.map_applies)

  pub instr_complete :
      {i o : Toks} {k : Instr}
      → IsInstr i k o
      → (f : ℕ) → length i < f
      → instr nom f i ≡ some (o, k)
  unfolding instr parse_load parse_goto parse_exit parse_abort parse_copy_or_op2 parse_assigned
      parse_copied try_load try_malloc try_memsize parse_store parse_ifz parse_free parse_print_str
      parse_print op1_token op2_token token_match reg NoOther
  instr_complete _ zero b = absurd (omega arith)
  instr_complete (IsInstr.goto h) (suc f) b = simp (nom.alt_tries Instr, val_complete h)
  instr_complete (IsInstr.exit h) (suc f) b = simp (nom.alt_tries Instr, val_complete h)
  instr_complete IsInstr.abort (suc f) b = simp (nom.alt_tries Instr)
  instr_complete (IsInstr.copy {i} {j} h d) (suc f) b = simp (
    nom.alt_tries Instr,
    (IsVal-NoOther h).0,
    (IsVal-NoOther h).1,
    (IsVal-NoOther h).2,
    (IsVal-NoOther h).3,
    val_complete h,
    instr_complete d f (omega (arith, IsVal-length h)),
  )
  instr_complete (IsInstr.op1 h d) (suc f) b =
      simp (nom.alt_tries Instr, val_complete h, instr_complete d f (omega (arith, IsVal-length h)))
  instr_complete (IsInstr.op2 h k d) (suc f) b = simp (
    nom.alt_tries Instr,
    (IsVal-NoOther h).0,
    (IsVal-NoOther h).1,
    (IsVal-NoOther h).2,
    (IsVal-NoOther h).3,
    val_complete h,
    val_complete k,
    instr_complete d f (omega (arith, IsVal-length h, IsVal-length k)),
  )
  instr_complete (IsInstr.load h d) (suc f) b =
      simp (nom.alt_tries Instr, val_complete h, instr_complete d f (omega (arith, IsVal-length h)))
  instr_complete (IsInstr.store h d) (suc f) b =
      simp (nom.alt_tries Instr, val_complete h, instr_complete d f (omega (arith, IsVal-length h)))
  instr_complete (IsInstr.malloc h d) (suc f) b =
      simp (nom.alt_tries Instr, val_complete h, instr_complete d f (omega (arith, IsVal-length h)))
  instr_complete (IsInstr.mem_size d) (suc f) b =
      simp (nom.alt_tries Instr, instr_complete d f (omega arith))
  instr_complete (IsInstr.free d) (suc f) b =
      simp (nom.alt_tries Instr, instr_complete d f (omega arith))
  instr_complete (IsInstr.print h d) (suc f) b = simp (
    nom.alt_tries Instr,
    printable_complete h,
    instr_complete d f (omega (arith, IsPrintable-length h)),
  )
  instr_complete (IsInstr.print_str h d) (suc f) b =
      simp (nom.alt_tries Instr, val_complete h, instr_complete d f (omega (arith, IsVal-length h)))
  instr_complete (IsInstr.if_z h d e) (suc f) b = simp (
    nom.alt_tries Instr,
    val_complete h,
    instr_complete d f (omega (arith, IsVal-length h)),
    instr_complete e f (omega (arith, IsVal-length h, IsInstr-length d)),
  )

  pub block_complete :
      {i o : Toks} {b : Block}
      → IsBlock i b o
      → (f : ℕ) → length i < f
      → block nom f i ≡ some (o, b)
  unfolding block token_match
  block_complete (IsBlock.block h d) f l =
      simp (signed_i32_complete h, instr_complete d f (omega (arith, IsSigned-length h)))
