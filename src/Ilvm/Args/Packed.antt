-- ===== src/Ilvm/Args/Packed.antt =====
-- eval.rs, `pack_string`: the words of a text.
use plbench.Prelude.{ℕ, ◌+◌, ◌*◌, ◌%◌, ◌^◌, ◌<◌, ◌≡◌, refl, List, [], ◌∷◌, arith}
use plbench.Prelude.Bits.{bit_or-disjoint}
use Prim.Native.Nat.{bit_or}
use plbench.Ilvm.Syntax.{I32}
use plbench.Ilvm.Print.{byte_shifts}
use plbench.Ilvm.Args.{pack_word}

-- Four bytes as one word, the first one highest.
abbrev pub word_of : ℕ → ℕ → ℕ → ℕ → I32
word_of a b c d = a * 2 ^ 24 + (b * 2 ^ 16 + (c * 2 ^ 8 + d))

-- The words of a list of bytes, four to a word, the last one filled up with 0.
unfoldable pub words : List ℕ → List I32
words [] = []
words (a ∷ []) = word_of a 0 0 0 ∷ []
words (a ∷ b ∷ []) = word_of a b 0 0 ∷ []
words (a ∷ b ∷ c ∷ []) = word_of a b c 0 ∷ []
words (a ∷ b ∷ c ∷ d ∷ bytes) = word_of a b c d ∷ words bytes

abbrev pub IsByte : ℕ → Type 0
IsByte b = b < 256

-- A byte of a text that is printed whole: ASCII, and not 0.
abbrev pub IsTextByte : ℕ → Type 0
IsTextByte b = (0 < b) × (b < 128)

or_below : (k q x r s : ℕ) → x ≡ q * 2 ^ k → r ≡ s → s < 2 ^ k → bit_or x r ≡ x + s
or_below k q x r s e f h = rw (e, f) (bit_or-disjoint k q s h)

module _ (a b c d : ℕ) (p : IsByte a) (q : IsByte b) (r : IsByte c) (s : IsByte d) where
  or₁ : bit_or 0 (a * 2 ^ 24 % 2 ^ 32) ≡ 0 + a * 2 ^ 24
  or₁ = or_below 32 0 0 _ _ refl (omega arith) (omega arith)

  or₂ : bit_or (0 + a * 2 ^ 24) (b * 2 ^ 16 % 2 ^ 32) ≡ 0 + a * 2 ^ 24 + b * 2 ^ 16
  or₂ = or_below 24 a _ _ _ (omega arith) (omega arith) (omega arith)

  or₃ :
      bit_or (0 + a * 2 ^ 24 + b * 2 ^ 16) (c * 2 ^ 8 % 2 ^ 32)
      ≡ 0 + a * 2 ^ 24 + b * 2 ^ 16 + c * 2 ^ 8
  or₃ = or_below 16 (a * 2 ^ 8 + b) _ _ _ (omega arith) (omega arith) (omega arith)

  or₄ :
      bit_or (0 + a * 2 ^ 24 + b * 2 ^ 16 + c * 2 ^ 8) (d * 2 ^ 0 % 2 ^ 32)
      ≡ 0 + a * 2 ^ 24 + b * 2 ^ 16 + c * 2 ^ 8 + d
  or₄ = or_below 8 (a * 2 ^ 16 + b * 2 ^ 8 + c) _ _ _ (omega arith) (omega arith) (omega arith)

  pub pack_word₄ : pack_word byte_shifts 0 (a ∷ b ∷ c ∷ d ∷ []) ≡ word_of a b c d
  unfolding pack_word
  pack_word₄ = rw (or₁, or₂, or₃, or₄) (omega arith)

  pub pack_word₃ : pack_word byte_shifts 0 (a ∷ b ∷ c ∷ []) ≡ word_of a b c 0
  unfolding pack_word
  pack_word₃ = rw (or₁, or₂, or₃) (omega arith)

  pub pack_word₂ : pack_word byte_shifts 0 (a ∷ b ∷ []) ≡ word_of a b 0 0
  unfolding pack_word
  pack_word₂ = rw (or₁, or₂) (omega arith)

  pub pack_word₁ : pack_word byte_shifts 0 (a ∷ []) ≡ word_of a 0 0 0
  unfolding pack_word
  pack_word₁ = rw or₁ (omega arith)
