-- ===== src/Ilvm/Parser/Spelt.antt =====
-- parser.rs, `parse_token`: a token is read off the text that begins with its spelling.
use Prim.Native.Char.{Char, code}
use Prim.Native.String.{String}
use plbench.Prelude.{
  ◌^◌, ◌<◌, ◌≤◌, ◌≡◌, ◌≢◌, refl, Bool, true, false, none, ◌==◌, arith, ap, ◌∙◌, ltb, lt→ltb, ◌-◌,
  if◌then◌else◌,
}
use plbench.Ilvm.Syntax.{Op1, Op2}
use plbench.Ilvm.Parser.Token.{Tok}
use plbench.Ilvm.Parser.Text.{is_ascii_alphanumeric, TextNom, strip, span, parsed, panics, is_digit}
use plbench.Ilvm.Parser.Lexer.{decimal, reg_of, parse_token, parse_int32, parse_reg, parse_id}
use plbench.Ilvm.Parser.Lexemes.{IsLexeme, join, All, Ends, extends, spelling, is_fixed}

strip-Ends :
    (c : Char) (t s : String) → Ends (λ d. code c == code d) s → strip (String.◌∷◌ c t) s ≡ none
unfolding strip
strip-Ends c t String.[] h = refl
strip-Ends c t (String.◌∷◌ d s) h = rw h

module _ (nom : TextNom) where
  pub spelt-parse_token :
      (t : Tok) (s : String)
      → is_fixed t ≡ true
      → Ends (extends t) s
      → parse_token nom (join (spelling t) s) ≡ parsed s t
  unfolding parse_token parse_int32 parse_reg parse_id strip span join spelling is_fixed
  spelt-parse_token (Tok.int32 _) s e h = cc
  spelt-parse_token (Tok.reg _) s e h = cc
  spelt-parse_token (Tok.id _) s e h = cc
  spelt-parse_token Tok.eof s e h = cc
  spelt-parse_token (Tok.op1 Op1.bit_not) s e h =
      simp (nom.alt_tries, nom.map_applies, nom.value_gives, nom.tag_strips, nom.digit1_spans)
  spelt-parse_token Tok.equal s e h = simp (
    nom.alt_tries,
    nom.map_applies,
    nom.value_gives,
    nom.tag_strips,
    nom.digit1_spans,
    strip-Ends "=" "" s h,
  )
  spelt-parse_token (Tok.op2 Op2.shr) s e h = simp (
    nom.alt_tries,
    nom.map_applies,
    nom.value_gives,
    nom.tag_strips,
    nom.digit1_spans,
    strip-Ends ">" "" s h,
  )
  spelt-parse_token (Tok.op2 Op2.lt) s e h = simp (
    nom.alt_tries,
    nom.map_applies,
    nom.value_gives,
    nom.tag_strips,
    nom.digit1_spans,
    strip-Ends "<" "" s h,
  )
  spelt-parse_token Tok.print s e h = simp (
    nom.alt_tries,
    nom.map_applies,
    nom.value_gives,
    nom.tag_strips,
    nom.digit1_spans,
    strip-Ends "_" "str" s h,
  )
  spelt-parse_token _ s e h =
      simp (nom.alt_tries, nom.map_applies, nom.value_gives, nom.tag_strips, nom.digit1_spans)

pub join_assoc : (a b c : String) → join (join a b) c ≡ join a (join b c)
unfolding join
join_assoc String.[] b c = refl
join_assoc (String.◌∷◌ x a) b c = ap (String.◌∷◌ x) (join_assoc a b c)

span-Ends : (p : Char → Bool) (s : String) → Ends p s → span p s ≡ (String.[], s)
unfolding span
span-Ends p String.[] e = refl
span-Ends p (String.◌∷◌ c s) e = rw e

pub span-join :
    (p : Char → Bool) (s rest : String) → All p s → Ends p rest → span p (join s rest) ≡ (s, rest)
unfolding span join
span-join p String.[] rest a e = span-Ends p rest e
span-join p (String.◌∷◌ c s) rest a e = rw (span-join p s rest a.1 e, a.0)

module _ (nom : TextNom) where
  digits-parse_token :
      (s rest : String)
      → s ≢ String.[]
      → All is_digit s
      → Ends is_digit rest
      → parse_token nom (join s rest)
        ≡ parsed rest (Tok.int32 (if ltb (decimal s) (2 ^ 32) then decimal s else 2 ^ 32 - 1))
  unfolding parse_token parse_int32
  digits-parse_token String.[] rest n a h = absurd (n refl)
  digits-parse_token (String.◌∷◌ c s) rest n a h = simp (
    nom.alt_tries,
    nom.map_applies,
    nom.digit1_spans,
    span-join is_digit (String.◌∷◌ c s) rest a h,
  )

  reg-parse_token :
      (s rest : String)
      → s ≢ String.[]
      → All is_digit s
      → decimal s < 2 ^ 64
      → Ends is_digit rest
      → parse_token nom (String.◌∷◌ "r" (join s rest)) ≡ parsed rest (Tok.reg (decimal s))
  unfolding parse_token parse_int32 parse_reg strip reg_of
  reg-parse_token String.[] rest n a b h = absurd (n refl)
  reg-parse_token (String.◌∷◌ c s) rest n a b h = simp (
    nom.alt_tries,
    nom.map_applies,
    nom.value_gives,
    nom.tag_strips,
    nom.digit1_spans,
    nom.preceded_runs,
    nom.char_takes,
    lt→ltb _ _ b,
    span-Ends is_digit (String.◌∷◌ "r" (join (String.◌∷◌ c s) rest)) refl,
    span-join is_digit (String.◌∷◌ c s) rest a h,
  )

  -- A register whose number does not fit.
  pub huge_reg-parse_token :
      (s rest : String)
      → s ≢ String.[]
      → All is_digit s
      → 2 ^ 64 ≤ decimal s
      → Ends is_digit rest
      → parse_token nom (String.◌∷◌ "r" (join s rest)) ≡ panics
  unfolding parse_token parse_int32 parse_reg strip reg_of
  huge_reg-parse_token String.[] rest n a b h = absurd (n refl)
  huge_reg-parse_token (String.◌∷◌ c s) rest n a b h =
      let huge : ltb (decimal (String.◌∷◌ c s)) (2 ^ 64) ≡ false = ground arith in
      simp (
        nom.alt_tries,
        nom.map_applies,
        nom.value_gives,
        nom.tag_strips,
        nom.digit1_spans,
        nom.preceded_runs,
        nom.char_takes,
        huge,
        span-Ends is_digit (String.◌∷◌ "r" (join (String.◌∷◌ c s) rest)) refl,
        span-join is_digit (String.◌∷◌ c s) rest a h,
      )

  alphanumeric-All : (s : String) → All is_ascii_alphanumeric s → All nom.is_alphanumeric s
  alphanumeric-All String.[] a = tt
  alphanumeric-All (String.◌∷◌ c s) a =
      (nom.ascii_alphanumeric c (ground arith) ∙ a.0, alphanumeric-All s a.1)

  id-parse_token :
      (s rest : String)
      → s ≢ String.[]
      → All is_ascii_alphanumeric s
      → parse_token nom (String.◌∷◌ "\"" (join s (String.◌∷◌ "\"" rest))) ≡ parsed rest (Tok.id s)
  unfolding parse_token parse_int32 parse_reg parse_id strip
  id-parse_token String.[] rest n a = absurd (n refl)
  id-parse_token (String.◌∷◌ c s) rest n a =
      let behind = String.◌∷◌ "\"" rest in
      simp (
        nom.alt_tries,
        nom.map_applies,
        nom.value_gives,
        nom.tag_strips,
        nom.digit1_spans,
        nom.preceded_runs,
        nom.char_takes,
        nom.delimited_runs,
        nom.take_while1_spans,
        span-Ends is_digit (String.◌∷◌ "\"" (join (String.◌∷◌ c s) behind)) refl,
        span-join nom.is_alphanumeric (String.◌∷◌ c s) behind (alphanumeric-All (String.◌∷◌ c s) a)
            (nom.ascii_alphanumeric "\"" (omega arith)),
      )

  -- A token is read off the text that begins with its spelling, and what follows it is left.
  pub IsLexeme-parse_token :
      {l : String} {t : Tok}
      → IsLexeme l t
      → (s : String) → Ends (extends t) s
      → parse_token nom (join l s) ≡ parsed s t
  unfolding join
  IsLexeme-parse_token (IsLexeme.spelt t f) s h = spelt-parse_token nom t s f h
  IsLexeme-parse_token (IsLexeme.int32 {s = d} n a) s h = digits-parse_token d s n a h
  IsLexeme-parse_token (IsLexeme.reg {s = d} n a b) s h = reg-parse_token d s n a b h
  IsLexeme-parse_token (IsLexeme.id {s = d} n a) s h =
      rw (join_assoc d "\"" s) (id-parse_token d s n a)
