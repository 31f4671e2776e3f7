-- ===== src/Ilvm/Machine/Halts.antt =====
-- eval.rs, `eval_rec`: programs without `goto`.
use plbench.Prelude.{
  ℕ, zero, suc, ◌+◌, ◌≤◌, ◌<◌, ◌≢◌, Bool, true, false, none, arith, leb, ◌==◌, if◌then◌else◌,
  length, get_elem?,
}
use plbench.Ilvm.Syntax.{
  Instr, goto, exit, abort, op1, op2, copy, load, store, if_z, malloc, print, print_str, free,
  mem_size, reg,
}
use plbench.Ilvm.Word.{as_usize}
use plbench.Ilvm.Run.{
  Run, ok, err, panic, ◌>>=◌, or_panic, Ensures, holds, fails, panics, Ensures-bind, Ensures-if,
  Ensures-eq_ok,
}
use plbench.Ilvm.Op.{eval_op2}
use plbench.Ilvm.State.{State, eval_val}
use plbench.Ilvm.Machine.{Env, Next, goes_on, exits, step, eval_rec}
use plbench.Ilvm.Machine.Loop.{goes, stops, errs, breaks, Round-cases}

-- The number of instructions, those of all branches included.
abbrev pub size : Instr → ℕ
size (goto v) = 1
size (exit v) = 1
size abort = 1
size (op1 r op v i) = suc (size i)
size (op2 r op v w i) = suc (size i)
size (copy r v i) = suc (size i)
size (load r v i) = suc (size i)
size (store r v i) = suc (size i)
size (if_z v i j) = suc (size i + size j)
size (malloc r v i) = suc (size i)
size (print p i) = suc (size i)
size (print_str v i) = suc (size i)
size (free r i) = suc (size i)
size (mem_size r i) = suc (size i)

size_pos : (i : Instr) → ¬ (size i ≤ 0)
size_pos (goto v) = omega arith
size_pos _ = omega arith

-- No `goto` on any branch.
abbrev pub IsStraight : Instr → Type 0
IsStraight (goto v) = ⊥
IsStraight (exit v) = Unit
IsStraight abort = Unit
IsStraight (op1 r op v i) = IsStraight i
IsStraight (op2 r op v w i) = IsStraight i
IsStraight (copy r v i) = IsStraight i
IsStraight (load r v i) = IsStraight i
IsStraight (store r v i) = IsStraight i
IsStraight (if_z v i j) = IsStraight i × IsStraight j
IsStraight (malloc r v i) = IsStraight i
IsStraight (print p i) = IsStraight i
IsStraight (print_str v i) = IsStraight i
IsStraight (free r i) = IsStraight i
IsStraight (mem_size r i) = IsStraight i

-- The round goes on with fewer instructions, none of which is a `goto`.
abbrev IsShorter : ℕ → Next → Type 0
IsShorter n (goes_on i st) = IsStraight i × (size i < n)
IsShorter n (exits w) = Unit

-- Any outcome does: the rest of the round decides.
any : {A : Type 0} (r : Run A) → Ensures (λ _. Unit {0}) r
any (ok a) = holds tt
any (err e) = fails
any panic = panics

-- After a computation whose result does not matter, the round goes on with `i`.
then_goes :
    {n : ℕ} (i : Instr) (r : Run State)
    → IsStraight i
    → size i < n
    → Ensures (IsShorter n) (r >>= λ st. ok (goes_on i st))
then_goes i r s lt = Ensures-bind (any r) λ st _. holds (s, lt)

branch :
    (b : Bool) (i j : Instr)
    → IsStraight i
    → IsStraight j
    → IsStraight (if b then i else j) × (size (if b then i else j) < suc (size i + size j))
branch true i j p q = (p, omega arith)
branch false i j p q = (q, omega arith)

module _ (env : Env) where
  step-IsShorter :
      (i : Instr) (st : State) → IsStraight i → Ensures (IsShorter (size i)) (step env i st)
  unfolding step
  step-IsShorter (goto v) st s = absurd s
  step-IsShorter (copy r v i) st s =
      Ensures-bind (any (eval_val st.registers v)) λ n _. then_goes i _ s (omega arith)
  step-IsShorter (op2 r op v1 v2 i) st s = Ensures-bind (any (eval_val st.registers v1)) λ m _.
      Ensures-bind (any (eval_val st.registers v2))
        λ n _. Ensures-bind (any (or_panic (eval_op2 op m n))) λ w _. then_goes i _ s (omega arith)
  step-IsShorter (op1 r op v i) st s =
      Ensures-bind (any (eval_val st.registers v)) λ n _. then_goes i _ s (omega arith)
  step-IsShorter (load r v i) st s = Ensures-bind (any (eval_val st.registers v)) λ n _.
      Ensures-bind
        (Ensures-if (leb (length st.heap) (as_usize n)) fails
          (any (or_panic (get_elem? st.heap (as_usize n)))))
        λ w _. then_goes i _ s (omega arith)
  step-IsShorter (store r v i) st s = Ensures-bind (any (eval_val st.registers (reg r))) λ n _.
      Ensures-if (leb (length st.heap) (as_usize n)) fails
        (Ensures-bind (any (eval_val st.registers v)) λ w _. holds (s, omega arith))
  step-IsShorter (exit v) st s = Ensures-bind (any (eval_val st.registers v)) λ n _. holds tt
  step-IsShorter abort st s = fails
  step-IsShorter (print x i) st s = then_goes i _ s (omega arith)
  step-IsShorter (print_str v i) st s = then_goes i _ s (omega arith)
  step-IsShorter (if_z v i j) st s =
      Ensures-bind (any (eval_val st.registers v)) λ n _. holds (branch (n == 0) i j s.0 s.1)
  step-IsShorter (malloc r v i) st s =
      Ensures-bind (any (eval_val st.registers v)) λ n _. then_goes i _ s (omega arith)
  step-IsShorter (mem_size r i) st s = then_goes i _ s (omega arith)
  step-IsShorter (free r i) st s =
      Ensures-bind (any (eval_val st.registers (reg r))) λ n _. then_goes i _ s (omega arith)

  -- A program without `goto` has an outcome within as many rounds as it has instructions.
  pub eval_rec_halts :
      (fuel : ℕ) (i : Instr) (st : State)
      → size i ≤ fuel
      → IsStraight i
      → eval_rec fuel env i st ≢ none
  unfolding eval_rec
  eval_rec_halts zero i st le s = absurd (size_pos i le)
  eval_rec_halts (suc fuel) i st le s = elim (Round-cases (step env i st)) [
    | goes i' st' e ↦
        let shorter = Ensures-eq_ok (step-IsShorter i st s) e in
        rw (e, eval_rec) (eval_rec_halts fuel i' st' (omega arith) shorter.0)
    | stops n e ↦ rw (e, eval_rec) (λ q. cc)
    | errs x e ↦ rw (e, eval_rec) (λ q. cc)
    | breaks e ↦ rw (e, eval_rec) (λ q. cc)
  ]
