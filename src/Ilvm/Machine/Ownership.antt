-- ===== src/Ilvm/Machine/Ownership.antt =====
-- eval.rs, `eval_rec`: the runs of the machine and the ownership of the heap.
use plbench.Prelude.{ℕ, ◌<◌, ◌≡◌, refl, [], leb, inl, inr, Option-cases, length, get_elem?, drop}
use plbench.Prelude.Assoc.{lookup}
use plbench.Ilvm.Syntax.{
  Val, Printable, Instr, goto, exit, abort, op1, op2, copy, load, store, if_z, malloc, print,
  print_str, free, mem_size, reg,
}
use plbench.Ilvm.Run.{
  Run, ok, err, panic, or_panic, Ensures, holds, fails, panics, Ensures-bind, Ensures-if,
  Ensures-eq_ok,
}
use plbench.Ilvm.Op.{eval_op2}
use plbench.Ilvm.Word.{as_usize}
use plbench.Ilvm.State.{State, Output, eval_val}
use plbench.Ilvm.Print as Print
use plbench.Ilvm.Print.{print_printable, scan_words}
use plbench.Ilvm.Machine.{Env, goes_on, step, run_free}
use plbench.Ilvm.Machine.Owns.{Live, Owns, All-lookup}
use plbench.Ilvm.Machine.Discipline.{
  after_value, next_live, IsDisciplined, OwnsNext, after_free, any, then_goes, writes,
  run_malloc_or_zero-Owns, print_line-Owns,
}

known : {A : Type 0} (r : Run A) → Ensures (λ a. r ≡ ok a) r
known (ok a) = holds refl
known (err e) = fails
known panic = panics

module _ (env : Env) where
  -- A disciplined run, with the blocks that are live at its end.
  pub data Runs (i₀ : Instr) (st₀ : State) (live₀ : Live) : Instr → State → Live → Type 0 where
    begins : Runs i₀ st₀ live₀ i₀ st₀ live₀
    round :
        {i i' : Instr} {st st' : State} {live : Live}
        → Runs i₀ st₀ live₀ i st live
        → IsDisciplined i st live
        → step env i st ≡ ok (goes_on i' st')
        → Runs i₀ st₀ live₀ i' st' (next_live i st live)

module _ (start end : ℕ) (pos : 0 < start) (env : Env) where
  print_printable-Owns :
      (st : State) (live : Live) (p : Printable)
      → Owns start end live st
      → Ensures (Owns start end live) (print_printable st p)
  unfolding print_printable
  print_printable-Owns st live (Printable.id x) o =
      holds (print_line-Owns start end pos env (Output.id x) st live o)
  print_printable-Owns st live (Printable.val v) o =
      Ensures-bind (any start end pos env (eval_val st.registers v))
        λ n _. holds (print_line-Owns start end pos env (Output.number n) st live o)
  print_printable-Owns st live (Printable.array v w) o =
      Ensures-bind (any start end pos env (eval_val st.registers v)) λ m _.
        Ensures-bind (any start end pos env (eval_val st.registers w))
          λ n _. holds (print_line-Owns start end pos env _ st live o)

  print_str-Owns :
      (st : State) (live : Live) (v : Val)
      → Owns start end live st
      → Ensures (Owns start end live) (Print.print_str st v)
  unfolding Print.print_str
  print_str-Owns st live v o = Ensures-bind (any start end pos env (eval_val st.registers v)) λ n _.
      Ensures-bind
        (any start end pos env (scan_words v (drop (as_usize n) st.heap) (as_usize n) []))
        λ text _. holds (print_line-Owns start end pos env (Output.text text) st live o)

  -- A round that frees a live block, or frees nothing, keeps the ownership, for the live blocks
  -- after the round.
  pub step-Owns :
      (i : Instr) (st : State) (live : Live)
      → IsDisciplined i st live
      → Owns start end live st
      → Ensures (OwnsNext start end pos env (next_live i st live)) (step env i st)
  unfolding step next_live
  step-Owns (goto v) st live d o =
      Ensures-bind (any start end pos env (eval_val st.registers v)) λ n _.
        elim (Option-cases (lookup n env)) [ inl e ↦ rw e fails | inr (target, e) ↦ rw e (holds o) ]
  step-Owns (exit v) st live d o =
      Ensures-bind (any start end pos env (eval_val st.registers v)) λ n _. holds tt
  step-Owns abort st live d o = fails
  step-Owns (op1 r op v i) st live d o =
      Ensures-bind (any start end pos env (eval_val st.registers v))
        λ n _. writes start end pos env r _ st live i o
  step-Owns (op2 r op v w i) st live d o =
      Ensures-bind (any start end pos env (eval_val st.registers v)) λ m _.
        Ensures-bind (any start end pos env (eval_val st.registers w)) λ n _.
          Ensures-bind (any start end pos env (or_panic (eval_op2 op m n)))
            λ x _. writes start end pos env r x st live i o
  step-Owns (copy r v i) st live d o =
      Ensures-bind (any start end pos env (eval_val st.registers v))
        λ n _. writes start end pos env r n st live i o
  step-Owns (load r v i) st live d o =
      Ensures-bind (any start end pos env (eval_val st.registers v)) λ n _.
        Ensures-bind
          (Ensures-if (leb (length st.heap) (as_usize n)) fails
            (any start end pos env (or_panic (get_elem? st.heap (as_usize n)))))
          λ x _. writes start end pos env r x st live i o
  step-Owns (store r v i) st live d o =
      Ensures-bind (any start end pos env (eval_val st.registers (reg r))) λ n _.
        Ensures-if (leb (length st.heap) (as_usize n)) fails (
          Ensures-bind (any start end pos env (eval_val st.registers v)) λ x _.
            holds
              (record { canonical = o.canonical; partition = o.partition; entries = o.entries }))
  step-Owns (if_z v i j) st live d o =
      Ensures-bind (any start end pos env (eval_val st.registers v)) λ n _. holds o
  step-Owns (malloc r v i) st live d o = Ensures-bind (known (eval_val st.registers v)) λ n e.
      rw (e, after_value)
        (then_goes start end pos env _ i
          (run_malloc_or_zero-Owns start end pos env r (as_usize n) st live o))
  step-Owns (print p i) st live d o =
      then_goes start end pos env live i (print_printable-Owns st live p o)
  step-Owns (print_str v i) st live d o =
      then_goes start end pos env live i (print_str-Owns st live v o)
  step-Owns (free r i) st live (w, n, e, l) o =
      let entry = (All-lookup st.alloc_blocks live (as_usize w) n o.entries l).0 in
      rw (e, after_value)
        (then_goes start end pos env _ i
          (rw (entry, run_free) (holds (after_free start end pos st live (as_usize w) n o l))))
  step-Owns (mem_size r i) st live d o = writes start end pos env r _ st live i o

  -- Throughout a disciplined run, each word of the managed heap is free once or held by exactly one
  -- live block, the free list is canonical, and the table of allocations has every live block.
  pub Runs-Owns :
      {i₀ : Instr} {st₀ : State} {live₀ : Live} {i : Instr} {st : State} {live : Live}
      → Owns start end live₀ st₀
      → Runs env i₀ st₀ live₀ i st live
      → Owns start end live st
  Runs-Owns o begins = o
  Runs-Owns o (round {i = i} {st = st} {live = live} r d e) =
      Ensures-eq_ok (step-Owns i st live d (Runs-Owns o r)) e
