-- ===== src/Ilvm/Machine/Safety.antt =====
-- eval.rs, `State`: the sizes of the heap and of the register file, and the words in them.
use plbench.Prelude.{
  ℕ, ◌≡◌, ◌∙◌, List, [], arith, ltb, inl, inr, Bool-cases, Option-cases, length, drop, get_elem?,
  length-set, All, All-set, All-get_elem?,
}
use plbench.Prelude.Assoc.{lookup, insert}
use plbench.Ilvm.Syntax.{
  I32, Val, Instr, goto, exit, abort, op1, op2, copy, load, store, if_z, malloc, print, print_str,
  free, mem_size, reg, imm, Printable,
}
use plbench.Ilvm.Word.{IsWord, as_usize, as_i32}
use plbench.Ilvm.Run.{
  Run, ok, err, panic, Ensures, holds, fails, panics, Ensures-bind, Ensures-or_panic,
}
use plbench.Ilvm.Alloc as Alloc
use plbench.Ilvm.Alloc.{FreeList}
use plbench.Ilvm.State.{State, Output, eval_val, set_register}
use plbench.Ilvm.Print.{print_printable, scan_words}
use plbench.Ilvm.Print as Print
use plbench.Ilvm.Machine.{Env, run_malloc, run_free}

-- The immediates of an instruction are 32-bit patterns.
abbrev pub IsWordVal : Val → Type 0
IsWordVal (reg i) = Unit
IsWordVal (imm n) = IsWord n

abbrev pub IsWordPrintable : Printable → Type 0
IsWordPrintable (Printable.id s) = Unit
IsWordPrintable (Printable.val v) = IsWordVal v
IsWordPrintable (Printable.array v w) = IsWordVal v × IsWordVal w

abbrev pub IsWordInstr : Instr → Type 0
IsWordInstr (goto v) = IsWordVal v
IsWordInstr (exit v) = IsWordVal v
IsWordInstr abort = Unit
IsWordInstr (op1 r op v i) = IsWordVal v × IsWordInstr i
IsWordInstr (op2 r op v w i) = IsWordVal v × IsWordVal w × IsWordInstr i
IsWordInstr (copy r v i) = IsWordVal v × IsWordInstr i
IsWordInstr (load r v i) = IsWordVal v × IsWordInstr i
IsWordInstr (store r v i) = IsWordVal v × IsWordInstr i
IsWordInstr (if_z v i j) = IsWordVal v × IsWordInstr i × IsWordInstr j
IsWordInstr (malloc r v i) = IsWordVal v × IsWordInstr i
IsWordInstr (print p i) = IsWordPrintable p × IsWordInstr i
IsWordInstr (print_str v i) = IsWordVal v × IsWordInstr i
IsWordInstr (free r i) = IsWordInstr i
IsWordInstr (mem_size r i) = IsWordInstr i

abbrev pub IsWordEnv : Env → Type 0
IsWordEnv = All (λ (n, i). IsWordInstr i)

-- The state `st'` has the sizes given, and holds words.
pub record IsValid (heap_size num_registers : ℕ) (st : State) : Type 0 where
  pub heap_length : length st.heap ≡ heap_size
  pub register_count : length st.registers ≡ num_registers
  pub heap_words : All IsWord st.heap
  pub register_words : All IsWord st.registers

module _ (h k : ℕ) where
  pub eval_val-IsWord :
      (st : State) (v : Val)
      → IsValid h k st
      → IsWordVal v
      → Ensures IsWord (eval_val st.registers v)
  unfolding eval_val
  eval_val-IsWord st (imm n) s w = holds w
  eval_val-IsWord st (reg i) s w =
      Ensures-or_panic (get_elem? st.registers i)
        (λ a e. All-get_elem? IsWord st.registers i s.register_words e)

  pub set_register-IsValid :
      (r : ℕ) (w : I32) (st : State)
      → IsValid h k st
      → IsWord w
      → Ensures (IsValid h k) (set_register r w st)
  unfolding set_register
  set_register-IsValid r w st s p = elim (Bool-cases (ltb r (length st.registers))) [
    | inl e ↦ rw e (
        holds (record {
          heap_length = s.heap_length;
          register_count = length-set st.registers r w ∙ s.register_count;
          heap_words = s.heap_words;
          register_words = All-set IsWord st.registers r s.register_words p;
        }))
    | inr e ↦ rw e panics
  ]

  -- A line is printed and nothing else changes.
  print_line-IsValid :
      (o : Output) (st : State) → IsValid h k st → IsValid h k (Print.print_line o st)
  print_line-IsValid o st s = record {
    heap_length = s.heap_length;
    register_count = s.register_count;
    heap_words = s.heap_words;
    register_words = s.register_words;
  }

  pub print_printable-IsValid :
      (st : State) (p : Printable)
      → IsValid h k st
      → IsWordPrintable p
      → Ensures (IsValid h k) (print_printable st p)
  unfolding print_printable
  print_printable-IsValid st (Printable.id x) s w = holds (print_line-IsValid (Output.id x) st s)
  print_printable-IsValid st (Printable.val v) s w =
      Ensures-bind (eval_val-IsWord st v s w)
        λ n _. holds (print_line-IsValid (Output.number n) st s)
  print_printable-IsValid st (Printable.array v1 v2) s w =
      Ensures-bind (eval_val-IsWord st v1 s w.0)
        λ m _. Ensures-bind (eval_val-IsWord st v2 s w.1) λ n _. holds (print_line-IsValid _ st s)

  scan_words-Ensures :
      (v : Val) (words : List I32) (idx : ℕ) (bytes : List ℕ)
      → Ensures (λ _. Unit {0}) (scan_words v words idx bytes)
  scan_words-Ensures v words idx bytes = any (scan_words v words idx bytes)
    where
      any : (r : Run (List ℕ)) → Ensures (λ _. Unit {0}) r
      any (ok a) = holds tt
      any (err e) = fails
      any panic = panics

  pub print_str-IsValid :
      (st : State) (v : Val)
      → IsValid h k st
      → IsWordVal v
      → Ensures (IsValid h k) (Print.print_str st v)
  unfolding Print.print_str
  print_str-IsValid st v s w = Ensures-bind (eval_val-IsWord st v s w) λ n _.
      Ensures-bind (scan_words-Ensures v (drop (as_usize n) st.heap) (as_usize n) [])
        λ text _. holds (print_line-IsValid (Output.text text) st s)

  -- Neither the free list nor the table of allocations bears on validity.
  allocator-IsValid :
      (st : State) (fl : FreeList) (blocks : List (ℕ × ℕ))
      → IsValid h k st
      → IsValid h k (record st { free_list = fl; alloc_blocks = blocks })
  allocator-IsValid st fl blocks s = record {
    heap_length = s.heap_length;
    register_count = s.register_count;
    heap_words = s.heap_words;
    register_words = s.register_words;
  }

  pub run_malloc-IsValid :
      (r n : ℕ) (st : State) → IsValid h k st → Ensures (IsValid h k) (run_malloc r n st)
  unfolding run_malloc
  run_malloc-IsValid r n st s = elim (Option-cases (Alloc.malloc st.free_list n)) [
    | inl e ↦ rw (e, run_malloc) fails
    | inr (m, e) ↦
        rw (e, run_malloc)
          (Ensures-bind
            (set_register-IsValid r (as_i32 m.1) _ (allocator-IsValid st m.0 st.alloc_blocks s)
              (omega arith))
            λ st' s'.
              holds (allocator-IsValid st' st'.free_list (insert m.1 n st'.alloc_blocks) s'))
  ]

  pub run_free-IsValid :
      (ptr : ℕ) (st : State) → IsValid h k st → Ensures (IsValid h k) (run_free ptr st)
  unfolding run_free
  run_free-IsValid ptr st s = elim (Option-cases (lookup ptr st.alloc_blocks)) [
    | inl e ↦ rw (e, run_free) fails
    | inr (n, e) ↦ rw (e, run_free) (holds (allocator-IsValid st _ st.alloc_blocks s))
  ]
