-- ===== src/Ilvm/Parser/Sound/Forms.antt =====
-- parser.rs, the instructions but the assignments: what is parsed is a phrase of the grammar.
use plbench.Prelude.{arith}
use plbench.Ilvm.Syntax.{Op2, Instr}
use plbench.Ilvm.Parser.Token.{Tok, Toks, discriminant}
use plbench.Ilvm.Parser.Nom.{Parser, Nom, Gives, gives, Gives-bind}
use plbench.Ilvm.Parser.Instr.{
  parse_goto, parse_exit, parse_abort, parse_print_str, parse_load, parse_store, parse_ifz,
  parse_free, parse_print,
}
use plbench.Ilvm.Parser.Matched.{taken, taken_op2}
use plbench.Ilvm.Parser.Grammar.{IsInstr}
use plbench.Ilvm.Parser.Sound.Values.{reg-Gives, val-Gives, printable-Gives}

module _ (nom : Nom) where
  pub parse_goto-Gives : (i : Toks) → Gives (λ r. IsInstr i r.1 r.0) (parse_goto nom i)
  unfolding parse_goto discriminant
  parse_goto-Gives i = taken Tok.goto (omega arith) i λ (i1, _) e1.
      taken Tok.l_paren (omega arith) i1 λ (i2, _) e2. Gives-bind (val-Gives nom i2) λ (i3, v) h.
        taken Tok.r_paren (omega arith) i3 λ (i4, _) e4.
          taken Tok.semi (omega arith) i4
            λ (o, _) e5. gives (rw (e1, e2) (IsInstr.goto (rw (e4, e5) at h)))

  pub parse_exit-Gives : (i : Toks) → Gives (λ r. IsInstr i r.1 r.0) (parse_exit nom i)
  unfolding parse_exit discriminant
  parse_exit-Gives i = taken Tok.exit (omega arith) i λ (i1, _) e1.
      taken Tok.l_paren (omega arith) i1 λ (i2, _) e2. Gives-bind (val-Gives nom i2) λ (i3, v) h.
        taken Tok.r_paren (omega arith) i3 λ (i4, _) e4.
          taken Tok.semi (omega arith) i4
            λ (o, _) e5. gives (rw (e1, e2) (IsInstr.exit (rw (e4, e5) at h)))

  pub parse_abort-Gives : (i : Toks) → Gives (λ r. IsInstr i r.1 r.0) (parse_abort i)
  unfolding parse_abort discriminant
  parse_abort-Gives i =
      taken Tok.abort (omega arith) i
        λ (i1, _) e1. taken Tok.semi (omega arith) i1 λ (o, _) e2. gives (rw (e1, e2) IsInstr.abort)

  module _ (next : Parser Instr) (ih : (i : Toks) → Gives (λ r. IsInstr i r.1 r.0) (next i)) where
    pub parse_print_str-Gives :
        (i : Toks) → Gives (λ r. IsInstr i r.1 r.0) (parse_print_str nom next i)
    unfolding parse_print_str discriminant
    parse_print_str-Gives i = taken Tok.print_str (omega arith) i λ (i1, _) e1.
        taken Tok.l_paren (omega arith) i1 λ (i2, _) e2. Gives-bind (val-Gives nom i2) λ (i3, v) h.
          taken Tok.r_paren (omega arith) i3 λ (i4, _) e4.
            taken Tok.semi (omega arith) i4 λ (i5, _) e5.
              Gives-bind (ih i5)
                λ (o, k) d. gives (rw (e1, e2) (IsInstr.print_str (rw (e4, e5) at h) d))

    pub parse_load-Gives : (i : Toks) → Gives (λ r. IsInstr i r.1 r.0) (parse_load nom next i)
    unfolding parse_load discriminant
    parse_load-Gives i = Gives-bind (reg-Gives i) λ (i1, r) e1.
        taken Tok.equal (omega arith) i1 λ (i2, _) e2. taken_op2 Op2.mul i2 λ (i3, _) e3.
          Gives-bind (val-Gives nom i3) λ (i4, v) h. taken Tok.semi (omega arith) i4 λ (i5, _) e5.
            Gives-bind (ih i5) λ (o, k) d. gives (rw (e1, e2, e3) (IsInstr.load (rw e5 at h) d))

    pub parse_store-Gives : (i : Toks) → Gives (λ r. IsInstr i r.1 r.0) (parse_store nom next i)
    unfolding parse_store discriminant
    parse_store-Gives i = taken_op2 Op2.mul i λ (i1, _) e1. Gives-bind (reg-Gives i1) λ (i2, r) e2.
        taken Tok.equal (omega arith) i2 λ (i3, _) e3. Gives-bind (val-Gives nom i3) λ (i4, v) h.
          taken Tok.semi (omega arith) i4 λ (i5, _) e5.
            Gives-bind (ih i5) λ (o, k) d. gives (rw (e1, e2, e3) (IsInstr.store (rw e5 at h) d))

    pub parse_ifz-Gives : (i : Toks) → Gives (λ r. IsInstr i r.1 r.0) (parse_ifz nom next i)
    unfolding parse_ifz discriminant
    parse_ifz-Gives i = taken Tok.ifz (omega arith) i λ (i1, _) e1.
        Gives-bind (val-Gives nom i1) λ (i2, v) h. taken Tok.l_brace (omega arith) i2 λ (i3, _) e3.
          Gives-bind (ih i3) λ (i4, k) d. taken Tok.r_brace (omega arith) i4 λ (i5, _) e5.
            taken Tok.else_kw (omega arith) i5 λ (i6, _) e6.
              taken Tok.l_brace (omega arith) i6 λ (i7, _) e7. Gives-bind (ih i7) λ (i8, l) d'.
                taken Tok.r_brace (omega arith) i8 λ (o, _) e9.
                  gives (rw e1 (IsInstr.if_z (rw e3 at h) (rw (e5, e6, e7) at d) (rw e9 at d')))

    pub parse_free-Gives : (i : Toks) → Gives (λ r. IsInstr i r.1 r.0) (parse_free nom next i)
    unfolding parse_free discriminant
    parse_free-Gives i = taken Tok.free (omega arith) i λ (i1, _) e1.
        taken Tok.l_paren (omega arith) i1 λ (i2, _) e2. Gives-bind (reg-Gives i2) λ (i3, r) e3.
          taken Tok.r_paren (omega arith) i3 λ (i4, _) e4.
            taken Tok.semi (omega arith) i4 λ (i5, _) e5.
              Gives-bind (ih i5) λ (o, k) d. gives (rw (e1, e2, e3, e4, e5) (IsInstr.free d))

    pub parse_print-Gives : (i : Toks) → Gives (λ r. IsInstr i r.1 r.0) (parse_print nom next i)
    unfolding parse_print discriminant
    parse_print-Gives i = taken Tok.print (omega arith) i λ (i1, _) e1.
        taken Tok.l_paren (omega arith) i1 λ (i2, _) e2.
          Gives-bind (printable-Gives nom i2) λ (i3, p) h.
            taken Tok.r_paren (omega arith) i3 λ (i4, _) e4.
              taken Tok.semi (omega arith) i4 λ (i5, _) e5.
                Gives-bind (ih i5)
                  λ (o, k) d. gives (rw (e1, e2) (IsInstr.print (rw (e4, e5) at h) d))
