-- ===== src/Ilvm/Parser/Lexed.antt =====
-- parser.rs, `lex`: the tokens of a text are read off it.
use Prim.Native.Char.{Char, code}
use Prim.Native.String.{String}
use plbench.Prelude.{
  ℕ, zero, suc, ◌+◌, ◌^◌, ◌<◌, ◌≤◌, ◌≡◌, ◌≢◌, refl, Bool, true, false, not, [], ◌∷◌, ◌++◌, none,
  some, ◌==◌, arith, ap, ◌∙◌, append_assoc, Bool-cases, inl, inr,
}
use plbench.Ilvm.Syntax.{Op1, Op2}
use plbench.Ilvm.Run.{ok, panic}
use plbench.Ilvm.Parser.Token.{Tok, Toks}
use plbench.Ilvm.Parser.Text.{TextNom, strip, span, parsed, no_match, is_digit, is_multispace}
use plbench.Ilvm.Parser.Lexer.{
  decimal, lex, lex_loop, continue, after_space, after_comment, after_token, from_newline,
  parse_token, text_length, trim_start, is_whitespace,
}
use plbench.Ilvm.Parser.Lexemes.{join, All, Ends, extends, spelling, is_fixed, IsLexeme, IsText}
use plbench.Ilvm.Parser.Spelt.{IsLexeme-parse_token, huge_reg-parse_token}

-- The text of a token before another text: neither white space nor a comment.
abbrev Begins : String → String → Type 0
Begins l s =
    (strip "//" (join l s) ≡ none)
    × (span is_multispace (join l s) ≡ (String.[], join l s))
    × (text_length s < text_length (join l s))
    × (trim_start (join l s) ≡ join l s)

slash-Ends : (s : String) → Ends (λ c. 47 == code c) s → strip "/" s ≡ none
unfolding strip
slash-Ends String.[] h = refl
slash-Ends (String.◌∷◌ c s) h = rw h

spelt-Begins :
    (t : Tok) (s : String) → is_fixed t ≡ true → Ends (extends t) s → Begins (spelling t) s
unfolding is_fixed strip span join spelling text_length trim_start
spelt-Begins (Tok.int32 _) s e h = cc
spelt-Begins (Tok.reg _) s e h = cc
spelt-Begins (Tok.id _) s e h = cc
spelt-Begins Tok.eof s e h = cc
spelt-Begins (Tok.op1 Op1.bit_not) s e h = (refl, refl, omega arith, refl)
spelt-Begins (Tok.op2 Op2.div) s e h = (slash-Ends s h, refl, omega arith, refl)
spelt-Begins _ s e h = (refl, refl, omega arith, refl)

text_length-join : (l s : String) → text_length (join l s) ≡ text_length l + text_length s
unfolding text_length join
text_length-join String.[] s = omega arith
text_length-join (String.◌∷◌ c l) s = omega (arith, text_length-join l s)

digits-Begins : (l s : String) → l ≢ String.[] → All is_digit l → Begins l s
unfolding strip span join text_length trim_start is_whitespace
digits-Begins String.[] s n a = absurd (n refl)
digits-Begins (String.◌∷◌ c l) s n a =
    let word : (47 == code c) ≡ false = ground arith in
    let solid : is_multispace c ≡ false = ground arith in
    let black : is_whitespace c ≡ false = ground arith in
    (rw word refl, rw solid refl, omega (arith, text_length-join l s), rw black refl)

IsLexeme-Begins :
    {l : String} {t : Tok} → IsLexeme l t → (s : String) → Ends (extends t) s → Begins l s
unfolding strip span join text_length trim_start is_whitespace
IsLexeme-Begins (IsLexeme.spelt t f) s h = spelt-Begins t s f h
IsLexeme-Begins (IsLexeme.int32 {s = d} n a) s h = digits-Begins d s n a
IsLexeme-Begins (IsLexeme.reg {s = d} n a b) s h =
    (refl, refl, omega (arith, text_length-join d s), refl)
IsLexeme-Begins (IsLexeme.id {s = d} n a) s h =
    (refl, refl, omega (arith, text_length-join (join d "\"") s, text_length-join d "\""), refl)

span-length : (p : Char → Bool) (s : String) → text_length (span p s).1 ≤ text_length s
unfolding span text_length
span-length p String.[] = omega arith
span-length p (String.◌∷◌ c s) = elim (Bool-cases (p c)) [
  | inl e ↦ rw e (omega (arith, span-length p s))
  | inr e ↦ rw e (omega arith)
]

-- White space at the front may go.
IsText-span : {s : String} {ts : Toks} → IsText s ts → IsText (span is_multispace s).1 ts
unfolding span join
IsText-span IsText.end = IsText.end
IsText-span (IsText.space e d) = rw e (IsText-span d)
IsText-span (IsText.comment c a d) = IsText.comment c a d
IsText-span (IsText.last_comment c a) = IsText.last_comment c a
IsText-span (IsText.token l s x h d) = rw (IsLexeme-Begins x s h).1 (IsText.token l s x h d)

from_newline-comment :
    (c s : String)
    → All (λ d. not (code d == 10)) c
    → from_newline (join c (String.◌∷◌ "\n" s)) ≡ String.◌∷◌ "\n" s
unfolding from_newline join
from_newline-comment String.[] s a = refl
from_newline-comment (String.◌∷◌ c t) s a =
    let other : (code c == 10) ≡ false = ground arith in rw other (from_newline-comment t s a.1)

from_newline-none : (c : String) → All (λ d. not (code d == 10)) c → from_newline c ≡ String.[]
unfolding from_newline
from_newline-none String.[] a = refl
from_newline-none (String.◌∷◌ c t) a =
    let other : (code c == 10) ≡ false = ground arith in rw other (from_newline-none t a.1)

multispace-whitespace : (c : Char) → is_multispace c ≡ true → is_whitespace c ≡ true
unfolding is_whitespace
multispace-whitespace c e = ground arith

trim_start-IsText : {s : String} {ts : Toks} → IsText s ts → IsText (trim_start s) ts
unfolding trim_start join
trim_start-IsText IsText.end = IsText.end
trim_start-IsText (IsText.space {c} e d) = rw (multispace-whitespace c e) (trim_start-IsText d)
trim_start-IsText (IsText.comment c a d) = IsText.comment c a d
trim_start-IsText (IsText.last_comment c a) = IsText.last_comment c a
trim_start-IsText (IsText.token l s x h d) = rw (IsLexeme-Begins x s h).3 (IsText.token l s x h d)

from_newline-slashes : (s : String) → from_newline (join "//" s) ≡ from_newline s
unfolding from_newline join
from_newline-slashes s = refl

module _ (nom : TextNom) (f : ℕ) (done : Toks) where
  -- One round of the loop, for each kind of text.
  round_token :
      (input rest : String) (t : Tok)
      → strip "//" input ≡ none
      → nom.multispace1 input ≡ no_match
      → parse_token nom input ≡ parsed rest t
      → 0 < text_length input
      → lex_loop nom (suc f) done input ≡ lex_loop nom f (done ++ t ∷ []) rest
  unfolding lex_loop text_length continue after_space after_comment after_token
  round_token String.[] rest t w m p l = absurd (omega arith)
  round_token (String.◌∷◌ c s) rest t w m p l = rw (m, w, p)

  round_comment :
      (input u : String)
      → strip "//" input ≡ some u
      → nom.multispace1 input ≡ no_match
      → 0 < text_length input
      → lex_loop nom (suc f) done input ≡ lex_loop nom f done (from_newline input)
  unfolding lex_loop text_length continue after_space after_comment after_token
  round_comment String.[] u w m l = absurd (omega arith)
  round_comment (String.◌∷◌ c s) u w m l = rw (m, w)

  round_space :
      (c : Char) (s : String)
      → is_multispace c ≡ true
      → lex_loop nom (suc f) done (String.◌∷◌ c s) ≡ lex_loop nom f done (span is_multispace s).1
  unfolding lex_loop span continue after_space
  round_space c s e = rw (nom.multispace1_spans (String.◌∷◌ c s), e)

module _ (nom : TextNom) where
  lex_loop_complete :
      (f : ℕ) (done : Toks) {s : String} {ts : Toks}
      → IsText s ts
      → text_length s ≤ f
      → lex_loop nom f done s ≡ ok (done ++ (ts ++ Tok.eof ∷ []))
  unfolding text_length join strip span
  lex_loop_complete zero done IsText.end l = unfold lex_loop in refl
  lex_loop_complete zero done (IsText.space e d) l = absurd (omega arith)
  lex_loop_complete zero done (IsText.comment c a d) l = absurd (omega arith)
  lex_loop_complete zero done (IsText.last_comment c a) l = absurd (omega arith)
  lex_loop_complete zero done (IsText.token w s x h d) l =
      absurd (omega (arith, (IsLexeme-Begins x s h).2))
  lex_loop_complete (suc f) done IsText.end l = unfold lex_loop in refl
  lex_loop_complete (suc f) done (IsText.space {c} {s} e d) l =
      round_space nom f done c s e
      ∙ lex_loop_complete f done (IsText-span d) (omega (arith, span-length is_multispace s))
  lex_loop_complete (suc f) done (IsText.comment c {s} a d) l =
      let input = join "//" (join c (String.◌∷◌ "\n" s)) in
      round_comment nom f done input (join c (String.◌∷◌ "\n" s)) refl
        (rw (nom.multispace1_spans input)) (omega arith)
      ∙ rw (from_newline-slashes (join c (String.◌∷◌ "\n" s)), from_newline-comment c s a)
          (lex_loop_complete f done d (omega (arith, text_length-join c (String.◌∷◌ "\n" s))))
  lex_loop_complete (suc f) done (IsText.last_comment c a) l =
      round_comment nom f done (join "//" c) c refl (rw (nom.multispace1_spans (join "//" c)))
        (omega arith)
      ∙ rw (from_newline-slashes c, from_newline-none c a)
          (lex_loop_complete f done IsText.end (omega arith))
  lex_loop_complete (suc f) done (IsText.token w s {t} {ts} x h d) l =
      let b = IsLexeme-Begins x s h in
      round_token nom f done (join w s) s t b.0 (rw (nom.multispace1_spans, b.1) refl)
        (IsLexeme-parse_token nom x s h) (omega (arith, b.2))
      ∙ lex_loop_complete f (done ++ t ∷ []) d (omega (arith, b.2))
      ∙ ap ok (append_assoc done (t ∷ []) (ts ++ Tok.eof ∷ []))

  -- The tokens of a text, in order, and the end of the input behind them.
  pub lex-IsText : {s : String} {ts : Toks} → IsText s ts → lex nom s ≡ ok (ts ++ Tok.eof ∷ [])
  unfolding lex
  lex-IsText {s} d =
      lex_loop_complete (text_length (trim_start s)) [] (trim_start-IsText d) (omega arith)

  -- A register whose number does not fit in 64 bits ends the process.
  pub lex-huge_reg :
      (d s : String)
      → d ≢ String.[]
      → All is_digit d
      → 2 ^ 64 ≤ decimal d
      → Ends is_digit s
      → lex nom (String.◌∷◌ "r" (join d s)) ≡ panic
  unfolding lex lex_loop continue after_space after_comment after_token strip text_length trim_start
      is_whitespace span
  lex-huge_reg d s n a b h =
      rw (nom.multispace1_spans (String.◌∷◌ "r" (join d s)), huge_reg-parse_token nom d s n a b h)
