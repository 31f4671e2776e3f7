-- ===== src/Ilvm/Args/Scanned.antt =====
-- eval.rs, `print_str`: reading the words of a text.
use plbench.Prelude.{
  ℕ, ◌+◌, ◌≡◌, refl, sym, ap, ◌∙◌, List, [], ◌∷◌, ◌++◌, true, arith, All, append_assoc, append-nil,
}
use plbench.Ilvm.Syntax.{I32, Val}
use plbench.Ilvm.Run.{ok}
use plbench.Ilvm.Print.{byte_at, byte_shifts, all_ascii, complete, more, scan_word, scan_words}
use plbench.Ilvm.Args.{terminated}
use plbench.Ilvm.Args.Packed.{word_of, words, IsTextByte}

scan_word-byte :
    (shift : ℕ) (shifts bytes : List ℕ) (w : I32) (x : ℕ)
    → byte_at w shift ≡ x
    → IsTextByte x
    → scan_word w (shift ∷ shifts) bytes ≡ scan_word w shifts (bytes ++ x ∷ [])
unfolding scan_word
scan_word-byte shift shifts bytes w x e h = rw e (ground arith)

scan_word-end :
    (shift : ℕ) (shifts bytes : List ℕ) (w : I32)
    → byte_at w shift ≡ 0
    → all_ascii bytes ≡ true
    → scan_word w (shift ∷ shifts) bytes ≡ complete bytes
unfolding scan_word
scan_word-end shift shifts bytes w e h = rw (e, h) refl

scan_word-done : (bytes : List ℕ) (w : I32) → scan_word w [] bytes ≡ more bytes
unfolding scan_word
scan_word-done bytes w = refl

all_ascii-append :
    (bytes : List ℕ) (x : ℕ)
    → all_ascii bytes ≡ true
    → IsTextByte x
    → all_ascii (bytes ++ x ∷ []) ≡ true
all_ascii-append [] x h p = ground arith
all_ascii-append (b ∷ bytes) x h p = ground (arith, all_ascii-append bytes x (ground arith) p)

module _ (v : Val) (idx : ℕ) (rest : List I32) where
  scan_words-complete :
      (w : I32) (bytes s : List ℕ)
      → scan_word w byte_shifts bytes ≡ complete s
      → scan_words v (w ∷ rest) idx bytes ≡ ok s
  unfolding scan_words
  scan_words-complete w bytes s e = rw (e, scan_words) refl

  scan_words-more :
      (w : I32) (bytes bytes' : List ℕ)
      → scan_word w byte_shifts bytes ≡ more bytes'
      → scan_words v (w ∷ rest) idx bytes ≡ scan_words v rest (idx + 1) bytes'
  unfolding scan_words
  scan_words-more w bytes bytes' e = rw (e, scan_words) refl

-- One word, by the number of its bytes before the 0.
module _ (w a b c : ℕ) (acc : List ℕ) (z : all_ascii acc ≡ true) where
  scan_word₁ :
      byte_at w 24 ≡ a
      → byte_at w 16 ≡ 0
      → IsTextByte a
      → scan_word w byte_shifts acc ≡ complete (acc ++ a ∷ [])
  scan_word₁ e f p =
      scan_word-byte 24 _ acc w a e p ∙ scan_word-end 16 _ _ w f (all_ascii-append acc a z p)

  scan_word₂ :
      byte_at w 24 ≡ a
      → byte_at w 16 ≡ b
      → byte_at w 8 ≡ 0
      → IsTextByte a
      → IsTextByte b
      → scan_word w byte_shifts acc ≡ complete (acc ++ a ∷ b ∷ [])
  scan_word₂ e f g p q =
      let one = all_ascii-append acc a z p in
      scan_word-byte 24 _ acc w a e p
      ∙ scan_word-byte 16 _ _ w b f q
      ∙ scan_word-end 8 _ _ w g (all_ascii-append (acc ++ a ∷ []) b one q)
      ∙ ap complete (append_assoc acc (a ∷ []) (b ∷ []))

  scan_word₃ :
      byte_at w 24 ≡ a
      → byte_at w 16 ≡ b
      → byte_at w 8 ≡ c
      → byte_at w 0 ≡ 0
      → IsTextByte a
      → IsTextByte b
      → IsTextByte c
      → scan_word w byte_shifts acc ≡ complete (acc ++ a ∷ b ∷ c ∷ [])
  scan_word₃ e f g h p q r =
      let two = all_ascii-append (acc ++ a ∷ []) b (all_ascii-append acc a z p) q in
      scan_word-byte 24 _ acc w a e p
      ∙ scan_word-byte 16 _ _ w b f q
      ∙ scan_word-byte 8 _ _ w c g r
      ∙ scan_word-end 0 _ _ w h (all_ascii-append ((acc ++ a ∷ []) ++ b ∷ []) c two r)
      ∙ ap complete (joined₃ acc)
    where
      joined₃ : (acc : List ℕ) → ((acc ++ a ∷ []) ++ b ∷ []) ++ c ∷ [] ≡ acc ++ a ∷ b ∷ c ∷ []
      joined₃ [] = refl
      joined₃ (x ∷ acc) = ap (λ (xs : List ℕ). x ∷ xs) (joined₃ acc)

joined₄ :
    (acc : List ℕ) (a b c d : ℕ)
    → (((acc ++ a ∷ []) ++ b ∷ []) ++ c ∷ []) ++ d ∷ [] ≡ acc ++ a ∷ b ∷ c ∷ d ∷ []
joined₄ [] a b c d = refl
joined₄ (x ∷ acc) a b c d = ap (λ (xs : List ℕ). x ∷ xs) (joined₄ acc a b c d)

scan_word₄ :
    (w a b c d : ℕ) (acc : List ℕ)
    → byte_at w 24 ≡ a
    → byte_at w 16 ≡ b
    → byte_at w 8 ≡ c
    → byte_at w 0 ≡ d
    → IsTextByte a
    → IsTextByte b
    → IsTextByte c
    → IsTextByte d
    → scan_word w byte_shifts acc ≡ more (acc ++ a ∷ b ∷ c ∷ d ∷ [])
scan_word₄ w a b c d acc e f g h p q r s =
    scan_word-byte 24 _ acc w a e p
    ∙ scan_word-byte 16 _ _ w b f q
    ∙ scan_word-byte 8 _ _ w c g r
    ∙ scan_word-byte 0 _ _ w d h s
    ∙ scan_word-done _ _
    ∙ ap more (joined₄ acc a b c d)

all_ascii-append₄ :
    (acc : List ℕ) (a b c d : ℕ)
    → all_ascii acc ≡ true
    → IsTextByte a
    → IsTextByte b
    → IsTextByte c
    → IsTextByte d
    → all_ascii (acc ++ a ∷ b ∷ c ∷ d ∷ []) ≡ true
all_ascii-append₄ [] a b c d z p q r s = ground arith
all_ascii-append₄ (x ∷ acc) a b c d z p q r s =
    ground (arith, all_ascii-append₄ acc a b c d (ground arith) p q r s)

-- Reading the words of a text with its 0 gives the text, for ASCII bytes that are not 0.
pub scan_words-words :
    (v : Val) (s : List ℕ) (idx : ℕ) (acc : List ℕ) (rest : List I32)
    → All IsTextByte s
    → all_ascii acc ≡ true
    → scan_words v (words (terminated s) ++ rest) idx acc ≡ ok (acc ++ s)
unfolding words
scan_words-words v [] idx acc rest h e =
    scan_words-complete v idx rest _ acc _ (scan_word-end 24 _ acc _ (omega arith) e)
    ∙ ap ok (sym (append-nil acc))
scan_words-words v (a ∷ []) idx acc rest h e =
    scan_words-complete v idx rest (word_of a 0 0 0) acc _
      (scan_word₁ _ a 0 0 acc e (omega arith) (omega arith) h.0)
scan_words-words v (a ∷ b ∷ []) idx acc rest (p, (q, _)) e =
    scan_words-complete v idx rest (word_of a b 0 0) acc _
      (scan_word₂ _ a b 0 acc e (omega arith) (omega arith) (omega arith) p q)
scan_words-words v (a ∷ b ∷ c ∷ []) idx acc rest (p, (q, (r, _))) e =
    scan_words-complete v idx rest (word_of a b c 0) acc _
      (scan_word₃ _ a b c acc e (omega arith) (omega arith) (omega arith) (omega arith) p q r)
scan_words-words v (a ∷ b ∷ c ∷ d ∷ s) idx acc rest (p, (q, (r, (t, h)))) e =
    scan_words-more v idx _ (word_of a b c d) acc _
      (scan_word₄ _ a b c d acc (omega arith) (omega arith) (omega arith) (omega arith) p q r t)
    ∙ scan_words-words v s (idx + 1) _ rest h (all_ascii-append₄ acc a b c d e p q r t)
    ∙ ap ok (append_assoc acc (a ∷ b ∷ c ∷ d ∷ []) s)
