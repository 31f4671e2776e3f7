-- ===== src/Ilvm/Parser/Sound.antt =====
-- parser.rs, `instr` and `block`: what is parsed is a phrase of the grammar.
mod Values
mod Forms
mod Assigned
use Prim.Native.String.{String}
use plbench.Prelude.{
  ℕ, zero, suc, ◌+◌, ◌-◌, ◌%◌, ◌^◌, ◌<◌, ◌≤◌, ◌≡◌, refl, List, [], ◌∷◌, Option, none, some, arith,
  ◌==◌, leb, Bool-cases, inl, inr, get_elem?,
}
use plbench.Ilvm.Syntax.{I32, Val, Op1, Op2, Printable, Instr, Block}
use plbench.Ilvm.Parser.Token.{Tok, Toks, Op2-discrete, discriminant}
use plbench.Ilvm.Parser.Nom.{
  Parser, Nom, ◌>>=◌, if_ok, first_ok, mapped, Gives, gives, fails, Gives-bind, Gives-if_ok,
  Gives-imp,
}
use plbench.Ilvm.Parser.Values.{
  reg, magnitude_token, signed_i32, op2_token, op1_token, id_token, operators_agree, token_match,
  val, parse_array, printable, max_value,
}
use plbench.Ilvm.Parser.Instr.{
  parse_goto, parse_exit, parse_abort, parse_print_str, parse_load, parse_store, parse_ifz,
  parse_free, parse_print, try_load, try_malloc, try_memsize, parse_copied, parse_assigned,
  parse_copy_or_op2, instr, block,
}
use plbench.Ilvm.Parser.Matched.{taken, taken_op2}
use plbench.Ilvm.Parser.Grammar.{IsSigned, IsVal, IsPrintable, IsInstr, IsBlock}
use plbench.Ilvm.Parser.Sound.Values.{
  reg-Gives, op1_token-Gives, op2_token-Gives, val-Gives, printable-Gives, signed_i32-Gives,
  first_of,
}
use plbench.Ilvm.Parser.Sound.Forms.{
  parse_goto-Gives, parse_exit-Gives, parse_abort-Gives, parse_print_str-Gives, parse_load-Gives,
  parse_store-Gives, parse_ifz-Gives, parse_free-Gives, parse_print-Gives,
}
use plbench.Ilvm.Parser.Sound.Assigned.{parse_copy_or_op2-Gives}

module _ (nom : Nom) where
  pub instr-Gives : (f : ℕ) (i : Toks) → Gives (λ r. IsInstr i r.1 r.0) (instr nom f i)
  unfolding instr
  instr-Gives zero i = fails
  instr-Gives (suc f) i =
      let next = instr nom f in
      let ih : (j : Toks) → Gives (λ r. IsInstr j r.1 r.0) (next j) = instr-Gives f in
      rw (nom.alt_tries Instr) (
        first_of (parse_goto-Gives nom i) (
          first_of (parse_abort-Gives nom i) (
            first_of (parse_exit-Gives nom i) (
              first_of (parse_copy_or_op2-Gives nom next ih i) (
                first_of (parse_load-Gives nom next ih i) (
                  first_of (parse_store-Gives nom next ih i) (
                    first_of (parse_ifz-Gives nom next ih i) (
                      first_of (parse_free-Gives nom next ih i) (
                        first_of (parse_print_str-Gives nom next ih i)
                          (first_of (parse_print-Gives nom next ih i) fails))))))))))

  pub block-Gives : (f : ℕ) (i : Toks) → Gives (λ r. IsBlock i r.1 r.0) (block nom f i)
  unfolding block discriminant
  block-Gives f i = taken Tok.block (omega arith) i λ (i1, _) e1.
      Gives-bind (signed_i32-Gives i1) λ (i2, n) h. taken Tok.l_brace (omega arith) i2 λ (i3, _) e3.
        Gives-bind (instr-Gives f i3) λ (i4, k) d.
          taken Tok.r_brace (omega arith) i4
            λ (o, _) e5. gives (rw e1 (IsBlock.block (rw e3 at h) (rw e5 at d)))
