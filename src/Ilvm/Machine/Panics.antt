-- ===== src/Ilvm/Machine/Panics.antt =====
-- eval.rs, `eval_rec`: the instructions that cannot panic.
use plbench.Prelude.{
  ℕ, zero, suc, ◌<◌, ◌+◌, ◌≡◌, ◌∙◌, ◌≢◌, inl, inr, List, [], ◌∷◌, Bool, true, false, some, arith,
  leb, ltb, ◌==◌, if◌then◌else◌, Option-cases, Bool-cases, length, get_elem?, get_elem?-some, drop,
  length-set, All, not_ltb→le,
}
use plbench.Prelude.Assoc.{lookup}
use plbench.Ilvm.Syntax.{
  I32, Val, Op2, Printable, Instr, goto, exit, abort, op1, op2, copy, load, store, if_z, malloc,
  print, print_str, free, mem_size, reg, imm,
}
use plbench.Ilvm.Word.{as_usize, as_i32}
use plbench.Ilvm.Run.{Run, ok, err, panic, ◌>>=◌, or_panic, runtime, non_ascii}
use plbench.Ilvm.Run.Returns.{
  Returns, returns, errors, Returns-bind, Returns-if, Returns-ne-panic, Returns-eq_ok,
}
use plbench.Ilvm.Op.{eval_op1, eval_op2}
use plbench.Ilvm.Alloc as Alloc
use plbench.Ilvm.State.{State, eval_val, set_register}
use plbench.Ilvm.Print as Print
use plbench.Ilvm.Print.{print_printable, scan_words, scan_word, Scan, byte_shifts}
use plbench.Ilvm.Machine.{Env, Next, goes_on, exits, step, eval_rec, run_malloc, run_free}
use plbench.Ilvm.Machine.Loop.{goes, stops, errs, breaks, Round-cases}

-- Registers below `k`, and no `/` and no `%`, on every branch.
abbrev pub IsSafeVal : ℕ → Val → Type 0
IsSafeVal k (reg i) = i < k
IsSafeVal k (imm n) = Unit

abbrev pub IsSafePrintable : ℕ → Printable → Type 0
IsSafePrintable k (Printable.id s) = Unit
IsSafePrintable k (Printable.val v) = IsSafeVal k v
IsSafePrintable k (Printable.array v w) = IsSafeVal k v × IsSafeVal k w

abbrev pub IsTotal : Op2 → Type 0
IsTotal Op2.div = ⊥
IsTotal Op2.modulo = ⊥
IsTotal _ = Unit

abbrev pub IsSafeInstr : ℕ → Instr → Type 0
IsSafeInstr k (goto v) = IsSafeVal k v
IsSafeInstr k (exit v) = IsSafeVal k v
IsSafeInstr k abort = Unit
IsSafeInstr k (op1 r op v i) = (r < k) × IsSafeVal k v × IsSafeInstr k i
IsSafeInstr k (op2 r op v w i) =
    (r < k) × IsTotal op × IsSafeVal k v × IsSafeVal k w × IsSafeInstr k i
IsSafeInstr k (copy r v i) = (r < k) × IsSafeVal k v × IsSafeInstr k i
IsSafeInstr k (load r v i) = (r < k) × IsSafeVal k v × IsSafeInstr k i
IsSafeInstr k (store r v i) = (r < k) × IsSafeVal k v × IsSafeInstr k i
IsSafeInstr k (if_z v i j) = IsSafeVal k v × IsSafeInstr k i × IsSafeInstr k j
IsSafeInstr k (malloc r v i) = (r < k) × IsSafeVal k v × IsSafeInstr k i
IsSafeInstr k (print p i) = IsSafePrintable k p × IsSafeInstr k i
IsSafeInstr k (print_str v i) = IsSafeVal k v × IsSafeInstr k i
IsSafeInstr k (free r i) = (r < k) × IsSafeInstr k i
IsSafeInstr k (mem_size r i) = (r < k) × IsSafeInstr k i

abbrev pub IsSafeEnv : ℕ → Env → Type 0
IsSafeEnv k = All (λ (n, i). IsSafeInstr k i)

abbrev HasRegisters : ℕ → State → Type 0
HasRegisters k st = length st.registers ≡ k

eval_op2-Returns :
    (op : Op2) (m n : I32) → IsTotal op → Returns (λ _. Unit) (or_panic (eval_op2 op m n))
unfolding eval_op2
eval_op2-Returns Op2.div m n t = absurd t
eval_op2-Returns Op2.modulo m n t = absurd t
eval_op2-Returns _ m n t = returns tt

scan_words-Returns :
    (v : Val) (words : List I32) (idx : ℕ) (bytes : List ℕ)
    → Returns (λ _. Unit) (scan_words v words idx bytes)
unfolding scan_words
scan_words-Returns v [] idx bytes = errors
scan_words-Returns v (w ∷ words) idx bytes =
    after (scan_word w byte_shifts bytes) (λ bytes'. scan_words-Returns v words (idx + 1) bytes')
  where
    after :
        (s : Scan)
        → ((bytes' : List ℕ) → Returns (λ _. Unit) (scan_words v words (idx + 1) bytes'))
        → Returns
            (λ _. Unit {0})
            (elim s [
              | Scan.complete text ↦ ok text
              | Scan.more bytes' ↦ scan_words v words (idx + 1) bytes'
              | Scan.refused ↦ err (runtime non_ascii)
            ])
    after (Scan.complete text) ih = returns tt
    after (Scan.more bytes') ih = ih bytes'
    after Scan.refused ih = errors

module _ (k : ℕ) (st : State) (h : HasRegisters k st) where
  eval_val-Returns : (v : Val) → IsSafeVal k v → Returns (λ _. Unit) (eval_val st.registers v)
  unfolding eval_val
  eval_val-Returns (imm n) s = returns tt
  eval_val-Returns (reg i) s =
      let (a, e) = get_elem?-some st.registers i (omega arith) in rw e (returns tt)

  set_register-Returns : (r : ℕ) (w : I32) → r < k → Returns (HasRegisters k) (set_register r w st)
  unfolding set_register
  set_register-Returns r w lt =
      Returns-if (ltb r (length st.registers)) (λ _. returns (length-set st.registers r w ∙ h))
        (λ e. absurd (omega (arith, not_ltb→le _ _ e)))

  print_printable-Returns :
      (p : Printable) → IsSafePrintable k p → Returns (HasRegisters k) (print_printable st p)
  unfolding print_printable
  print_printable-Returns (Printable.id x) s = returns h
  print_printable-Returns (Printable.val v) s = Returns-bind (eval_val-Returns v s) λ n _. returns h
  print_printable-Returns (Printable.array v w) s =
      Returns-bind (eval_val-Returns v s.0)
        λ m _. Returns-bind (eval_val-Returns w s.1) λ n _. returns h

  print_str-Returns : (v : Val) → IsSafeVal k v → Returns (HasRegisters k) (Print.print_str st v)
  unfolding Print.print_str
  print_str-Returns v s = Returns-bind (eval_val-Returns v s) λ n _.
      Returns-bind (scan_words-Returns v (drop (as_usize n) st.heap) (as_usize n) [])
        λ text _. returns h

  run_free-Returns : (ptr : ℕ) → Returns (HasRegisters k) (run_free ptr st)
  unfolding run_free
  run_free-Returns ptr = elim (Option-cases (lookup ptr st.alloc_blocks)) [
    | inl e ↦ rw (e, run_free) errors
    | inr (n, e) ↦ rw (e, run_free) (returns h)
  ]

run_malloc-Returns :
    (k : ℕ) (st : State)
    → HasRegisters k st
    → (r n : ℕ) → r < k
    → Returns (HasRegisters k) (run_malloc r n st)
unfolding run_malloc
run_malloc-Returns k st h r n lt = elim (Option-cases (Alloc.malloc st.free_list n)) [
  | inl e ↦ rw (e, run_malloc) errors
  | inr (m, e) ↦
      rw (e, run_malloc)
        (Returns-bind (set_register-Returns k (record st { free_list = m.0 }) h r (as_i32 m.1) lt)
          λ st' h'. returns h')
]

abbrev IsSafeNext : ℕ → Next → Type 0
IsSafeNext k (goes_on i st) = IsSafeInstr k i × HasRegisters k st
IsSafeNext k (exits n) = Unit

pub lookup-IsSafeInstr :
    (k : ℕ) (env : Env) (n : ℕ) {i : Instr}
    → IsSafeEnv k env
    → lookup n env ≡ some i
    → IsSafeInstr k i
lookup-IsSafeInstr k [] n w e = cc
lookup-IsSafeInstr k ((j, x) ∷ env) n {i} w e = elim (Bool-cases (j == n)) [
  | inl same ↦ moved (cc (rw same at e)) w.0
  | inr other ↦ lookup-IsSafeInstr k env n w.1 (rw other at e)
]
  where
    moved : x ≡ i → IsSafeInstr k x → IsSafeInstr k i
    moved p h = rw (← p) h

either :
    (k : ℕ) (b : Bool) (i j : Instr)
    → IsSafeInstr k i
    → IsSafeInstr k j
    → IsSafeInstr k (if b then i else j)
either k true i j p q = p
either k false i j p q = q

module _ (k : ℕ) (env : Env) (w : IsSafeEnv k env) where
  -- After a computation that keeps the registers, the round goes on.
  then_goes :
      (i : Instr) {r : Run State}
      → IsSafeInstr k i
      → Returns (HasRegisters k) r
      → Returns (IsSafeNext k) (r >>= λ st. ok (goes_on i st))
  then_goes i s h = Returns-bind h λ st h'. returns (s, h')

  step-Returns :
      (i : Instr) (st : State)
      → IsSafeInstr k i
      → HasRegisters k st
      → Returns (IsSafeNext k) (step env i st)
  unfolding step
  step-Returns (goto v) st s h = Returns-bind (eval_val-Returns k st h v s) λ n _.
      elim (Option-cases (lookup n env)) [
        | inl e ↦ rw e errors
        | inr (target, e) ↦ rw e (returns (lookup-IsSafeInstr k env n w e, h))
      ]
  step-Returns (exit v) st s h = Returns-bind (eval_val-Returns k st h v s) λ n _. returns tt
  step-Returns abort st s h = errors
  step-Returns (op1 r op v i) st s h =
      Returns-bind (eval_val-Returns k st h v s.1)
        λ n _. then_goes i s.2 (set_register-Returns k st h r (eval_op1 op n) s.0)
  step-Returns (op2 r op v1 v2 i) st (lt, total, s, t, u) h =
      Returns-bind (eval_val-Returns k st h v1 s) λ m _.
        Returns-bind (eval_val-Returns k st h v2 t) λ n _.
          Returns-bind (eval_op2-Returns op m n total)
            λ x _. then_goes i u (set_register-Returns k st h r x lt)
  step-Returns (copy r v i) st s h =
      Returns-bind (eval_val-Returns k st h v s.1)
        λ n _. then_goes i s.2 (set_register-Returns k st h r n s.0)
  step-Returns (load r v i) st s h = Returns-bind (eval_val-Returns k st h v s.1) λ n _.
      Returns-bind
        (Returns-if {P = λ _. Unit} (leb (length st.heap) (as_usize n)) (λ _. errors)
          (in_bounds (as_usize n)))
        λ x _. then_goes i s.2 (set_register-Returns k st h r x s.0)
    where
      in_bounds :
          (ptr : ℕ)
          → leb (length st.heap) ptr ≡ false
          → Returns (λ _. Unit) (or_panic (get_elem? st.heap ptr))
      in_bounds ptr e = let (a, q) = get_elem?-some st.heap ptr (ground arith) in rw q (returns tt)
  step-Returns (store r v i) st s h = Returns-bind (eval_val-Returns k st h (reg r) s.0) λ n _.
      Returns-if (leb (length st.heap) (as_usize n)) (λ _. errors)
        (λ _. Returns-bind (eval_val-Returns k st h v s.1) λ x _. returns (s.2, h))
  step-Returns (if_z v i j) st s h =
      Returns-bind (eval_val-Returns k st h v s.0) λ n _. returns (either k (n == 0) i j s.1 s.2, h)
  step-Returns (malloc r v i) st s h = Returns-bind (eval_val-Returns k st h v s.1) λ n _.
      then_goes i s.2 (
        Returns-if (as_usize n == 0) (λ _. set_register-Returns k st h r 0 s.0)
          (λ _. run_malloc-Returns k st h r (as_usize n) s.0))
  step-Returns (print p i) st s h = then_goes i s.1 (print_printable-Returns k st h p s.0)
  step-Returns (print_str v i) st s h = then_goes i s.1 (print_str-Returns k st h v s.0)
  step-Returns (free r i) st s h =
      Returns-bind (eval_val-Returns k st h (reg r) s.0)
        λ n _. then_goes i s.1 (run_free-Returns k st h (as_usize n))
  step-Returns (mem_size r i) st s h =
      then_goes i s.1 (set_register-Returns k st h r (as_i32 (length st.heap)) s.0)

  -- A program whose registers exist and that has no `/` and no `%` never panics, however long it
  -- runs: every access to the heap is checked first.
  pub eval_rec-ne-panic :
      (fuel : ℕ) (i : Instr) (st : State)
      → IsSafeInstr k i
      → HasRegisters k st
      → eval_rec fuel env i st ≢ some panic
  unfolding eval_rec
  eval_rec-ne-panic zero i st s h = λ q. cc
  eval_rec-ne-panic (suc fuel) i st s h = elim (Round-cases (step env i st)) [
    | goes i' st' e ↦
        let (s', h') = Returns-eq_ok (step-Returns i st s h) e in
        rw (e, eval_rec) (eval_rec-ne-panic fuel i' st' s' h')
    | stops n e ↦ rw (e, eval_rec) (λ q. cc)
    | errs x e ↦ rw (e, eval_rec) (λ q. cc)
    | breaks e ↦ absurd (Returns-ne-panic (rw e at (step-Returns i st s h)))
  ]
