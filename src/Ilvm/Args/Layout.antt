-- ===== src/Ilvm/Args/Layout.antt =====
-- eval.rs, `init_heap`: where the arguments lie in the heap.
use plbench.Prelude.{
  ℕ, ◌+◌, ◌≤◌, ◌<◌, ◌≡◌, refl, ap, ◌∙◌, List, [], ◌∷◌, arith, length, get_elem?, set, drop, All,
  get_elem?-set_self, get_elem?-set_ne, length-set,
}
use plbench.Ilvm.Syntax.{I32}
use plbench.Ilvm.Args.{pack_bytes}
use plbench.Ilvm.Args.Region.{Region, Region-set_above, Region-cons}
use plbench.Ilvm.Args.Packed.{words, IsByte, pack_word₁, pack_word₂, pack_word₃, pack_word₄}

-- `pack_bytes` writes the words of the bytes, one behind the other.
unfoldable pub write_words : List I32 → ℕ → List I32 → List I32
write_words heap idx [] = heap
write_words heap idx (w ∷ ws) = write_words (set heap idx w) (idx + 1) ws

pub pack_bytes-words :
    (bytes : List ℕ) (heap : List I32) (idx : ℕ)
    → All IsByte bytes
    → pack_bytes heap idx bytes ≡ write_words heap idx (words bytes)
unfolding pack_bytes write_words words
pack_bytes-words [] heap idx h = refl
pack_bytes-words (a ∷ []) heap idx h =
    ap (set heap idx) (pack_word₁ a 0 0 0 h.0 (omega arith) (omega arith) (omega arith))
pack_bytes-words (a ∷ b ∷ []) heap idx h =
    ap (set heap idx) (pack_word₂ a b 0 0 h.0 h.1.0 (omega arith) (omega arith))
pack_bytes-words (a ∷ b ∷ c ∷ []) heap idx h =
    ap (set heap idx) (pack_word₃ a b c 0 h.0 h.1.0 h.1.1.0 (omega arith))
pack_bytes-words (a ∷ b ∷ c ∷ d ∷ bytes) heap idx h =
    pack_bytes-words bytes _ (idx + 1) h.1.1.1.1
    ∙ ap (λ (w : I32). write_words (set heap idx w) (idx + 1) (words bytes))
        (pack_word₄ a b c d h.0 h.1.0 h.1.1.0 h.1.1.1.0)

pub length-write_words :
    (ws : List I32) (heap : List I32) (idx : ℕ) → length (write_words heap idx ws) ≡ length heap
unfolding write_words
length-write_words [] heap idx = refl
length-write_words (w ∷ ws) heap idx = length-write_words ws _ (idx + 1) ∙ length-set heap idx w

-- The words below the address stay.
pub write_words-below :
    (ws : List I32) (heap : List I32) (idx j : ℕ)
    → j < idx
    → get_elem? (write_words heap idx ws) j ≡ get_elem? heap j
unfolding write_words
write_words-below [] heap idx j h = refl
write_words-below (w ∷ ws) heap idx j h =
    write_words-below ws _ (idx + 1) j (omega arith)
    ∙ get_elem?-set_ne heap {i = idx} {j = j} w (λ e. omega arith)

pub write_words-Region :
    (ws : List I32) (heap : List I32) (idx : ℕ)
    → idx + length ws ≤ length heap
    → Region (write_words heap idx ws) idx ws
unfolding write_words
write_words-Region [] heap idx h = (drop idx heap, refl)
write_words-Region (w ∷ ws) heap idx h =
    let room : idx + 1 + length ws ≤ length (set heap idx w) =
      omega (arith, length-set heap idx w) in
    Region-cons _ idx w ws
      (write_words-below ws _ (idx + 1) idx (omega arith)
        ∙ get_elem?-set_self heap idx w (omega arith))
      (write_words-Region ws (set heap idx w) (idx + 1) room)

-- A run that lies below the address stays.
pub write_words-keeps :
    (ws : List I32) (heap : List I32) (idx : ℕ) (p : ℕ) (run : List I32)
    → p + length run ≤ idx
    → Region heap p run
    → Region (write_words heap idx ws) p run
unfolding write_words
write_words-keeps [] heap idx p run h r = r
write_words-keeps (w ∷ ws) heap idx p run h r =
    write_words-keeps ws _ (idx + 1) p run (omega arith) (Region-set_above heap p run idx w h r)
