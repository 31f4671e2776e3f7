-- ===== src/Ilvm/Parser/Matched.antt =====
-- parser.rs, `token_match`: the token that it takes is the one that it is given.
use plbench.Prelude.{
  ◌<◌, ◌≡◌, refl, List, [], ◌∷◌, Option, some, arith, ◌==◌, true, false, Bool-cases, inl, inr,
  get_elem?,
}
use plbench.Ilvm.Syntax.{Op2}
use plbench.Ilvm.Parser.Token.{Tok, Toks, Op2-discrete, discriminant}
use plbench.Ilvm.Parser.Nom.{Gives, gives, fails, ◌>>=◌, Gives-bind}
use plbench.Ilvm.Parser.Values.{operators_agree, token_match}

-- The tokens that carry nothing, in the order of their kinds.
abbrev words : List Tok
words =
    Tok.l_brace ∷ Tok.r_brace ∷ Tok.l_paren ∷ Tok.r_paren ∷ Tok.ifz ∷ Tok.else_kw ∷ Tok.semi
    ∷ Tok.equal ∷ Tok.goto ∷ Tok.abort ∷ Tok.exit ∷ Tok.malloc ∷ Tok.mem_size ∷ Tok.print
    ∷ Tok.print_str ∷ Tok.array ∷ Tok.comma ∷ Tok.free ∷ Tok.block ∷ []

word_lem : (t : Tok) → discriminant t < 19 → get_elem? words (discriminant t) ≡ some t
unfolding discriminant
word_lem (Tok.op1 _) h = absurd (omega arith)
word_lem (Tok.op2 _) h = absurd (omega arith)
word_lem (Tok.int32 _) h = absurd (omega arith)
word_lem (Tok.reg _) h = absurd (omega arith)
word_lem (Tok.id _) h = absurd (omega arith)
word_lem Tok.eof h = absurd (omega arith)
word_lem _ h = refl

same_kind : (t w : Tok) → discriminant w < 19 → discriminant t ≡ discriminant w → t ≡ w
same_kind t w h e = cc (word_lem t (rw e h), word_lem w h, e)

token_match-Gives :
    (w : Tok) → discriminant w < 19 → (i : Toks) → Gives (λ r. i ≡ w ∷ r.0) (token_match w i)
unfolding token_match
token_match-Gives w h [] = fails
token_match-Gives w h (t ∷ rest) = elim (Bool-cases (discriminant t == discriminant w)) [
  | inr other ↦ rw other fails
  | inl same ↦ rw same (elim (Bool-cases (operators_agree w t)) [
    | inr other ↦ rw other fails
    | inl agree ↦ rw agree (gives (rw (same_kind t w h (ground arith))))
  ])
]

operator_lem : (t : Tok) → discriminant t ≡ 20 → (op : Op2) × (t ≡ Tok.op2 op)
unfolding discriminant
operator_lem (Tok.op2 op) h = (op, refl)
operator_lem Tok.l_brace h = absurd (omega (arith, h))
operator_lem _ h = absurd (omega (arith, h))

operators_agree-eq : (a b : Op2) → operators_agree (Tok.op2 a) (Tok.op2 b) ≡ true → b ≡ a
unfolding operators_agree
operators_agree-eq a b h = decided (Op2-discrete a b) h
  where
    decided : (d : Dec (a ≡ b)) → elim d [ yes e ↦ true | no e ↦ false ] ≡ true → b ≡ a
    decided (yes e) h = cc
    decided (no e) h = cc

token_match_op2-Gives :
    (a : Op2) (i : Toks) → Gives (λ r. i ≡ Tok.op2 a ∷ r.0) (token_match (Tok.op2 a) i)
unfolding token_match discriminant
token_match_op2-Gives a [] = fails
token_match_op2-Gives a (t ∷ rest) = elim (Bool-cases (discriminant t == 20)) [
  | inr other ↦ rw other fails
  | inl same ↦ rw same (elim (Bool-cases (operators_agree (Tok.op2 a) t)) [
    | inr other ↦ rw other fails
    | inl agree ↦ rw agree (
        let (b, e) = operator_lem t (ground arith) in
        gives (rw (e, operators_agree-eq a b (rw e at agree))))
  ])
]

-- One token after another: the rest of a parser may rely on what was taken.
module _ {B : Type 0} {Q : B → Type 0} where
  pub taken :
      (w : Tok) {next : Toks × Unit {0} → Option B} (h : discriminant w < 19) (i : Toks)
      → ((r : Toks × Unit {0}) → i ≡ w ∷ r.0 → Gives Q (next r))
      → Gives Q (token_match w i >>= next)
  taken w h i go = Gives-bind (token_match-Gives w h i) go

  pub taken_op2 :
      (a : Op2) {next : Toks × Unit {0} → Option B} (i : Toks)
      → ((r : Toks × Unit {0}) → i ≡ Tok.op2 a ∷ r.0 → Gives Q (next r))
      → Gives Q (token_match (Tok.op2 a) i >>= next)
  taken_op2 a i go = Gives-bind (token_match_op2-Gives a i) go
