-- ===== src/Ilvm/Parser/Sound/Assigned.antt =====
-- parser.rs, `parse_copy_or_op2`: what is parsed is a phrase of the grammar.
use plbench.Prelude.{ℕ, ◌≡◌, ◌∷◌, arith}
use plbench.Ilvm.Syntax.{Op2, Instr}
use plbench.Ilvm.Parser.Token.{Tok, Toks, discriminant}
use plbench.Ilvm.Parser.Nom.{Parser, Nom, Gives, gives, Gives-bind, Gives-if_ok, Gives-imp}
use plbench.Ilvm.Parser.Instr.{
  try_load, try_malloc, try_memsize, parse_copied, parse_assigned, parse_copy_or_op2,
}
use plbench.Ilvm.Parser.Matched.{taken, taken_op2}
use plbench.Ilvm.Parser.Grammar.{IsVal, IsInstr}
use plbench.Ilvm.Parser.Sound.Values.{reg-Gives, op1_token-Gives, op2_token-Gives, val-Gives}

module _ (nom : Nom) where
  try_load-Gives :
      (i : Toks)
      → Gives
          (λ r. (j : Toks) × (i ≡ Tok.op2 Op2.mul ∷ j) × IsVal j r.1 (Tok.semi ∷ r.0))
          (try_load nom i)
  unfolding try_load discriminant
  try_load-Gives i = taken_op2 Op2.mul i λ (i1, _) e1.
      Gives-bind (val-Gives nom i1)
        λ (i2, v) h. taken Tok.semi (omega arith) i2 λ (i3, _) e3. gives (i1, e1, rw e3 at h)

  try_malloc-Gives :
      (i : Toks)
      → Gives
          (λ r.
            (j : Toks) × (i ≡ Tok.malloc ∷ Tok.l_paren ∷ j)
            × IsVal j r.1 (Tok.r_paren ∷ Tok.semi ∷ r.0))
          (try_malloc nom i)
  unfolding try_malloc discriminant
  try_malloc-Gives i = taken Tok.malloc (omega arith) i λ (i1, _) e1.
      taken Tok.l_paren (omega arith) i1 λ (i2, _) e2. Gives-bind (val-Gives nom i2) λ (i3, v) h.
        taken Tok.r_paren (omega arith) i3 λ (i4, _) e4.
          taken Tok.semi (omega arith) i4 λ (i5, _) e5. gives (i2, rw (← e2) e1, rw (e4, e5) at h)

  try_memsize-Gives : (i : Toks) → Gives (λ r. i ≡ Tok.mem_size ∷ Tok.semi ∷ r.0) (try_memsize i)
  unfolding try_memsize discriminant
  try_memsize-Gives i =
      taken Tok.mem_size (omega arith) i
        λ (i1, _) e1. taken Tok.semi (omega arith) i1 λ (i2, _) e2. gives (rw (← e2) e1)

  module _ (next : Parser Instr) (ih : (i : Toks) → Gives (λ r. IsInstr i r.1 r.0) (next i))
      (r : ℕ) where
    -- What follows `r =` completes an instruction.
    abbrev Completes : Toks → Toks × Instr → Type 0
    Completes i o = IsInstr (Tok.reg r ∷ Tok.equal ∷ i) o.1 o.0

    parse_copied-Gives : (i : Toks) → Gives (Completes i) (parse_copied nom next r i)
    unfolding parse_copied discriminant
    parse_copied-Gives i = Gives-bind (val-Gives nom i) λ (i1, v) h.
        Gives-if_ok (op2_token-Gives i1)
          (λ (i2, op) e. Gives-bind (val-Gives nom i2) λ (i3, w) k.
            taken Tok.semi (omega arith) i3 λ (i4, _) e4.
              Gives-bind (ih i4) λ (o, j) d. gives (IsInstr.op2 (rw e at h) (rw e4 at k) d))
          (taken Tok.semi (omega arith) i1
            λ (i2, _) e. Gives-bind (ih i2) λ (o, j) d. gives (IsInstr.copy (rw e at h) d))

    parse_assigned-Gives : (i : Toks) → Gives (Completes i) (parse_assigned nom next r i)
    unfolding parse_assigned discriminant
    parse_assigned-Gives i =
        Gives-if_ok (try_load-Gives i)
          (λ (i1, v) (j, e, h). Gives-bind (ih i1) λ (o, k) d. gives (rw e (IsInstr.load h d)))
          (Gives-if_ok (try_malloc-Gives i)
            (λ (i1, v) (j, e, h). Gives-bind (ih i1) λ (o, k) d. gives (rw e (IsInstr.malloc h d)))
            (Gives-if_ok (try_memsize-Gives i)
              (λ (i1, _) e. Gives-bind (ih i1) λ (o, k) d. gives (rw e (IsInstr.mem_size d)))
              (Gives-if_ok (op1_token-Gives i)
                (λ (i1, op) e. Gives-bind (val-Gives nom i1) λ (i2, v) h.
                  taken Tok.semi (omega arith) i2 λ (i3, _) e3.
                    Gives-bind (ih i3) λ (o, k) d. gives (rw e (IsInstr.op1 (rw e3 at h) d)))
                (parse_copied-Gives i))))

  pub parse_copy_or_op2-Gives :
      (next : Parser Instr)
      → ((i : Toks) → Gives (λ r. IsInstr i r.1 r.0) (next i))
      → (i : Toks) → Gives (λ r. IsInstr i r.1 r.0) (parse_copy_or_op2 nom next i)
  unfolding parse_copy_or_op2 discriminant
  parse_copy_or_op2-Gives next ih i = Gives-bind (reg-Gives i) λ (i1, r) e1.
      taken Tok.equal (omega arith) i1
        λ (i2, _) e2. Gives-imp (parse_assigned-Gives next ih r i2) λ o h. rw (e1, e2) h
