-- ===== src/Ilvm/Parser/Blocks.antt =====
-- parser.rs, `parse` from the tokens on.
use plbench.Prelude.{
  ℕ, zero, suc, ◌<◌, ◌≡◌, ◌↔◌, List, [], ◌∷◌, ◌++◌, Option, none, some, arith, length, append_assoc,
  append-nil, ap, ◌∙◌, sym, Bool, true, false, Bool-cases, inl, inr, if◌then◌else◌,
}
use plbench.Ilvm.Syntax.{Block}
use plbench.Ilvm.Run.{
  Run, ok, err, ◌>>=◌, parse, syntax_error, expected_end, Ensures, holds, fails, Ensures-eq_ok,
  Ensures-imp,
}
use plbench.Ilvm.Parser.Token.{Tok, Toks}
use plbench.Ilvm.Parser.Nom.{Nom, Gives}
use plbench.Ilvm.Parser.Instr.{block}
use plbench.Ilvm.Parser.Grammar.{IsBlock, IsProgram}
use plbench.Ilvm.Parser.Complete.{block_complete, IsBlock-length}
use plbench.Ilvm.Parser.Sound.{block-Gives}

-- The check behind the loop.
unfoldable pub at_end : List Block × Toks → Run (List Block)
at_end (blocks, []) = ok blocks
at_end (blocks, Tok.eof ∷ rest) = ok blocks
at_end (blocks, t ∷ rest) = err (parse (expected_end t))

-- No token is left, or only the end of the input.
unfoldable pub finished : Toks → Bool
finished [] = true
finished (Tok.eof ∷ []) = true
finished remaining = false

-- What the loop does with a block that was read, or not.
unfoldable pub after_block :
    {R : Type 0} → (List Block → Toks → Run R) → List Block → Option (Toks × Block) → Run R
after_block loop blocks none = err (parse syntax_error)
after_block loop blocks (some (rest, blk)) = loop (blocks ++ blk ∷ []) rest

module _ (nom : Nom) where
  -- On fuel, of which each block takes one unit: a block takes a token at least.
  unfoldable pub parse_loop : ℕ → List Block → Toks → Run (List Block × Toks)
  unfolding finished after_block
  parse_loop zero blocks remaining = err (parse syntax_error)
  parse_loop (suc fuel) blocks remaining =
      let next =
        after_block (parse_loop fuel) blocks (block nom (suc (length remaining)) remaining) in
      if finished remaining then ok (blocks, remaining) else next

  unfoldable pub parse_tokens : Toks → Run (List Block)
  unfolding parse_loop at_end
  parse_tokens tokens = do ended ← parse_loop (suc (length tokens)) [] tokens; at_end ended

  loop_complete :
      {i : Toks} {bs : List Block}
      → IsProgram i bs
      → (f : ℕ) (done : List Block) → length i < f
      → (parse_loop f done i >>= at_end) ≡ ok (done ++ bs)
  unfolding parse_loop at_end
  loop_complete _ zero done l = absurd (omega arith)
  loop_complete IsProgram.nothing (suc f) done l = rw append-nil
  loop_complete IsProgram.end (suc f) done l = rw append-nil
  loop_complete (IsProgram.next {b} {bs} (IsBlock.block {i} h d) p) (suc f) done l =
      let whole = IsBlock.block h d in
      rw (block_complete nom whole (suc (length (Tok.block ∷ i))) (omega arith)) (
        loop_complete p f (done ++ b ∷ []) (omega (arith, IsBlock-length whole))
        ∙ ap ok (append_assoc done (b ∷ []) bs))

  -- What the loop and its check return, the grammar generates.
  abbrev Returned : List Block → Toks → List Block → Type 0
  Returned done i all = (bs : List Block) × (all ≡ done ++ bs) × IsProgram i bs

  finished-Returned :
      (done : List Block) (i : Toks)
      → finished i ≡ true
      → Ensures (Returned done i) (at_end (done, i))
  unfolding finished at_end
  finished-Returned done [] e = holds ([], sym (append-nil done), IsProgram.nothing)
  finished-Returned done (Tok.eof ∷ []) e = holds ([], sym (append-nil done), IsProgram.end)
  finished-Returned done _ e = cc

  loop-Returned :
      (f : ℕ) (done : List Block) (i : Toks)
      → Ensures (Returned done i) (parse_loop f done i >>= at_end)
  unfolding parse_loop
  loop-Returned zero done i = fails
  loop-Returned (suc f) done i = elim (Bool-cases (finished i)) [
    | inl all ↦ rw all (finished-Returned done i all)
    | inr more ↦
        rw more (after (block nom (suc (length i)) i) (block-Gives nom _ i) (loop-Returned f))
  ]
    where
      after :
          (r : Option (Toks × Block))
          → Gives (λ r. IsBlock i r.1 r.0) r
          → ((d : List Block) (j : Toks) → Ensures (Returned d j) (parse_loop f d j >>= at_end))
          → Ensures (Returned done i) (after_block (parse_loop f) done r >>= at_end)
      after none g ih = fails
      after (some (rest, blk)) (Gives.gives g) ih =
          Ensures-imp (ih (done ++ blk ∷ []) rest)
            λ all (bs, e, p). (blk ∷ bs, e ∙ append_assoc done (blk ∷ []) bs, IsProgram.next g p)

  -- The parser returns blocks for the tokens of a program, and those blocks.
  pub parse_tokens_iff :
      (tokens : Toks) (blocks : List Block)
      → (parse_tokens tokens ≡ ok blocks) ↔ IsProgram tokens blocks
  unfolding parse_tokens
  parse_tokens_iff tokens blocks = (
    λ e. sound (Ensures-eq_ok (loop-Returned (suc (length tokens)) [] tokens) e),
    λ p. loop_complete p (suc (length tokens)) [] (omega arith),
  )
    where
      sound : Returned [] tokens blocks → IsProgram tokens blocks
      sound (bs, e, p) = rw e p
