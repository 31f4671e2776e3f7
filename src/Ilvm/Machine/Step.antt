-- ===== src/Ilvm/Machine/Step.antt =====
-- eval.rs, `eval_rec`: the shape of the memory over one round.
use plbench.Prelude.{
  ℕ, ◌≡◌, [], ◌∷◌, some, arith, leb, ◌==◌, if◌then◌else◌, inl, inr, Bool, true, false, Bool-cases,
  Option-cases, length, get_elem?, ◌∙◌, length-set, All-set, All-get_elem?,
}
use plbench.Prelude.Assoc.{lookup}
use plbench.Ilvm.Syntax.{
  Instr, goto, exit, abort, op1, op2, copy, load, store, if_z, malloc, print, print_str, free,
  mem_size, reg,
}
use plbench.Ilvm.Word.{IsWord, as_usize, as_i32}
use plbench.Ilvm.Run.{Ensures, holds, fails, Ensures-bind, Ensures-or_panic, Ensures-if}
use plbench.Ilvm.Op.{eval_op1, eval_op2}
use plbench.Ilvm.Op.Laws.{eval_op1-IsWord, eval_op2-IsWord}
use plbench.Ilvm.State.{State}
use plbench.Ilvm.Machine.{Env, Next, goes_on, exits, step}
use plbench.Ilvm.Machine.Safety.{
  IsWordInstr, IsWordEnv, IsValid, eval_val-IsWord, set_register-IsValid, print_printable-IsValid,
  print_str-IsValid, run_malloc-IsValid, run_free-IsValid,
}

-- The round goes on with words in the instruction and a valid state, or exits with a word.
abbrev IsValidNext : ℕ → ℕ → Next → Type 0
IsValidNext h k (goes_on i st) = IsWordInstr i × IsValid h k st
IsValidNext h k (exits n) = IsWord n

lookup-IsWordInstr :
    (env : Env) (n : ℕ) {i : Instr} → IsWordEnv env → lookup n env ≡ some i → IsWordInstr i
lookup-IsWordInstr [] n w e = cc
lookup-IsWordInstr ((j, x) ∷ env) n {i} w e = elim (Bool-cases (j == n)) [
  | inl same ↦ moved (cc (rw same at e)) w.0
  | inr other ↦ lookup-IsWordInstr env n w.1 (rw other at e)
]
  where
    moved : x ≡ i → IsWordInstr x → IsWordInstr i
    moved p h = rw (← p) h

either : (b : Bool) (i j : Instr) → IsWordInstr i → IsWordInstr j → IsWordInstr (if b then i else j)
either true i j p q = p
either false i j p q = q

module _ (h k : ℕ) (env : Env) (w : IsWordEnv env) where
  -- One round keeps the sizes of the heap and of the register file, and the words in them.
  step-IsValid :
      (i : Instr) (st : State)
      → IsWordInstr i
      → IsValid h k st
      → Ensures (IsValidNext h k) (step env i st)
  unfolding step
  step-IsValid (copy r v i) st p s =
      Ensures-bind (eval_val-IsWord h k st v s p.0)
        λ n hn. Ensures-bind (set_register-IsValid h k r n st s hn) λ st' s'. holds (p.1, s')
  step-IsValid (op2 r op v1 v2 i) st p s = Ensures-bind (eval_val-IsWord h k st v1 s p.0) λ m hm.
      Ensures-bind (eval_val-IsWord h k st v2 s p.1) λ n hn.
        Ensures-bind (Ensures-or_panic (eval_op2 op m n) λ x e. eval_op2-IsWord op m n hm hn e)
          λ x hx. Ensures-bind (set_register-IsValid h k r x st s hx) λ st' s'. holds (p.2, s')
  step-IsValid (op1 r op v i) st p s = Ensures-bind (eval_val-IsWord h k st v s p.0) λ n hn.
      Ensures-bind (set_register-IsValid h k r (eval_op1 op n) st s (eval_op1-IsWord op n))
        λ st' s'. holds (p.1, s')
  step-IsValid (load r v i) st p s = Ensures-bind (eval_val-IsWord h k st v s p.0) λ n hn.
      Ensures-bind
        (Ensures-if (leb (length st.heap) (as_usize n)) fails (
          Ensures-or_panic (get_elem? st.heap (as_usize n))
            λ a e. All-get_elem? IsWord st.heap (as_usize n) s.heap_words e))
        λ x hx. Ensures-bind (set_register-IsValid h k r x st s hx) λ st' s'. holds (p.1, s')
  step-IsValid (store r v i) st p s = Ensures-bind (eval_val-IsWord h k st (reg r) s tt) λ n hn.
      Ensures-if (leb (length st.heap) (as_usize n)) fails (
        Ensures-bind (eval_val-IsWord h k st v s p.0) λ x hx. holds (
          p.1,
          record {
            heap_length = length-set st.heap (as_usize n) x ∙ s.heap_length;
            register_count = s.register_count;
            heap_words = All-set IsWord st.heap (as_usize n) s.heap_words hx;
            register_words = s.register_words;
          },
        ))
  step-IsValid (goto v) st p s = Ensures-bind (eval_val-IsWord h k st v s p) λ n hn.
      elim (Option-cases (lookup n env)) [
        | inl e ↦ rw e fails
        | inr (target, e) ↦ rw e (holds (lookup-IsWordInstr env n w e, s))
      ]
  step-IsValid (exit v) st p s = Ensures-bind (eval_val-IsWord h k st v s p) λ n hn. holds hn
  step-IsValid abort st p s = fails
  step-IsValid (print x i) st p s =
      Ensures-bind (print_printable-IsValid h k st x s p.0) λ st' s'. holds (p.1, s')
  step-IsValid (print_str v i) st p s =
      Ensures-bind (print_str-IsValid h k st v s p.0) λ st' s'. holds (p.1, s')
  step-IsValid (if_z v i j) st p s =
      Ensures-bind (eval_val-IsWord h k st v s p.0) λ n hn. holds (either (n == 0) i j p.1 p.2, s)
  step-IsValid (malloc r v i) st p s = Ensures-bind (eval_val-IsWord h k st v s p.0) λ n hn.
      Ensures-bind
        (Ensures-if (as_usize n == 0) (set_register-IsValid h k r 0 st s (omega arith))
          (run_malloc-IsValid h k r (as_usize n) st s))
        λ st' s'. holds (p.1, s')
  step-IsValid (mem_size r i) st p s =
      Ensures-bind (set_register-IsValid h k r (as_i32 (length st.heap)) st s (omega arith))
        λ st' s'. holds (p, s')
  step-IsValid (free r i) st p s =
      Ensures-bind (eval_val-IsWord h k st (reg r) s tt)
        λ n hn. Ensures-bind (run_free-IsValid h k (as_usize n) st s) λ st' s'. holds (p, s')
