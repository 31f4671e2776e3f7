-- ===== src/Ilvm/Parser/Sound/Values.antt =====
-- parser.rs, from `reg` to `printable`: what is parsed is a phrase of the grammar.
use Prim.Native.String.{String}
use plbench.Prelude.{
  ℕ, ◌+◌, ◌≡◌, refl, [], ◌∷◌, Option, some, arith, ◌==◌, leb, Bool-cases, inl, inr,
}
use plbench.Ilvm.Syntax.{I32, Val, Op2, Printable}
use plbench.Ilvm.Parser.Token.{Tok, Toks, discriminant}
use plbench.Ilvm.Parser.Nom.{Nom, if_ok, Gives, gives, fails, Gives-bind, Gives-if_ok}
use plbench.Ilvm.Parser.Values.{
  reg, signed_i32, op2_token, op1_token, id_token, val, parse_array, printable, max_value,
}
use plbench.Ilvm.Parser.Matched.{taken}
use plbench.Ilvm.Parser.Grammar.{IsSigned, IsVal, IsPrintable}

pub signed_i32-Gives : (i : Toks) → Gives (λ r. IsSigned i r.1 r.0) (signed_i32 i)
unfolding signed_i32
signed_i32-Gives [] = fails
signed_i32-Gives (Tok.int32 n ∷ rest) = elim (Bool-cases (leb n max_value)) [
  | inr large ↦ rw large fails
  | inl small ↦ rw small (gives (IsSigned.plain (ground arith)))
]
signed_i32-Gives (Tok.op2 Op2.add ∷ Tok.int32 n ∷ rest) = elim (Bool-cases (leb n max_value)) [
  | inr large ↦ rw large fails
  | inl small ↦ rw small (gives (IsSigned.plus (ground arith)))
]
signed_i32-Gives (Tok.op2 Op2.sub ∷ Tok.int32 n ∷ rest) = elim (Bool-cases (leb n max_value)) [
  | inl small ↦ rw small (gives (IsSigned.minus (ground arith) refl))
  | inr large ↦ elim (Bool-cases (n == max_value + 1)) [
    | inl least ↦ rw (large, least) (gives (IsSigned.minus (ground arith) (ground arith)))
    | inr other ↦ rw (large, other) fails
  ]
]
signed_i32-Gives _ = fails

pub reg-Gives : (i : Toks) → Gives (λ r. i ≡ Tok.reg r.1 ∷ r.0) (reg i)
unfolding reg
reg-Gives [] = fails
reg-Gives (Tok.reg n ∷ rest) = gives refl
reg-Gives _ = fails

pub id_token-Gives : (i : Toks) → Gives (λ r. i ≡ Tok.id r.1 ∷ r.0) (id_token i)
unfolding id_token
id_token-Gives [] = fails
id_token-Gives (Tok.id s ∷ rest) = gives refl
id_token-Gives _ = fails

pub op1_token-Gives : (i : Toks) → Gives (λ r. i ≡ Tok.op1 r.1 ∷ r.0) (op1_token i)
unfolding op1_token
op1_token-Gives [] = fails
op1_token-Gives (Tok.op1 op ∷ rest) = gives refl
op1_token-Gives _ = fails

pub op2_token-Gives : (i : Toks) → Gives (λ r. i ≡ Tok.op2 r.1 ∷ r.0) (op2_token i)
unfolding op2_token
op2_token-Gives [] = fails
op2_token-Gives (Tok.op2 op ∷ rest) = gives refl
op2_token-Gives _ = fails

-- The first of two results, or of none.
pub first_of :
    {A : Type 0} {P : Toks × A → Type 0} {p q : Option (Toks × A)}
    → Gives P p
    → Gives P q
    → Gives P (if_ok p some q)
first_of h k = Gives-if_ok h (λ a p. gives p) k

module _ (nom : Nom) where
  pub val-Gives : (i : Toks) → Gives (λ r. IsVal i r.1 r.0) (val nom i)
  unfolding val
  val-Gives i =
      rw (nom.alt_tries Val, nom.map_applies ℕ Val reg Val.reg i, nom.map_applies I32 Val)
        (first_of (Gives-bind (reg-Gives i) λ r e. gives (rw e IsVal.reg))
          (first_of (Gives-bind (signed_i32-Gives i) λ r h. gives (IsVal.imm h)) fails))

  pub parse_array-Gives : (i : Toks) → Gives (λ r. IsPrintable i r.1 r.0) (parse_array nom i)
  unfolding parse_array discriminant
  parse_array-Gives i = taken Tok.array (omega arith) i λ (i1, _) e1.
      taken Tok.l_paren (omega arith) i1 λ (i2, _) e2. Gives-bind (val-Gives i2) λ (i3, v) h.
        taken Tok.comma (omega arith) i3 λ (i4, _) e4. Gives-bind (val-Gives i4) λ (i5, w) k.
          taken Tok.r_paren (omega arith) i5
            λ (o, _) e6. gives (rw (e1, e2) (IsPrintable.array (rw e4 at h) (rw e6 at k)))

  pub printable-Gives : (i : Toks) → Gives (λ r. IsPrintable i r.1 r.0) (printable nom i)
  unfolding printable
  printable-Gives i =
      rw (nom.alt_tries Printable, nom.map_applies String Printable, nom.map_applies Val Printable)
        (first_of (Gives-bind (id_token-Gives i) λ r e. gives (rw e IsPrintable.id)) (
          first_of (Gives-bind (val-Gives i) λ r h. gives (IsPrintable.val h))
            (first_of (parse_array-Gives i) fails)))
