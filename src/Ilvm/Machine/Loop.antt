-- ===== src/Ilvm/Machine/Loop.antt =====
-- The interpreter's loop against the runs of the machine, and where it ends.
use mathlib.Core.Option.{some-injective}
use mathlib.Core.Path.{subst}
use plbench.Prelude.{ℕ, zero, suc, ◌≡◌, refl, ◌↔◌, some}
use plbench.Ilvm.Syntax.{I32, Instr}
use plbench.Ilvm.Run.{Run, Error, ok, err, panic}
use plbench.Ilvm.State.{State}
use plbench.Ilvm.Machine.{Env, Next, goes_on, exits, step, eval_rec}

-- A round of the loop, by what the step gives.
pub data Round (x : Run Next) : Type 0 where
  goes : (i : Instr) (st : State) → x ≡ ok (goes_on i st) → Round x
  stops : (n : I32) → x ≡ ok (exits n) → Round x
  errs : (e : Error) → x ≡ err e → Round x
  breaks : x ≡ panic → Round x

pub Round-cases : (x : Run Next) → Round x
Round-cases (ok (goes_on i st)) = goes i st refl
Round-cases (ok (exits n)) = stops n refl
Round-cases (err e) = errs e refl
Round-cases panic = breaks refl

module _ (env : Env) where
  -- A run of the machine that ends with the outcome `r`.
  data Finishes : Instr → State → Run I32 → Type 0 where
    ends : {i : Instr} {st : State} {n : I32} → step env i st ≡ ok (exits n) → Finishes i st (ok n)
    fails : {i : Instr} {st : State} {e : Error} → step env i st ≡ err e → Finishes i st (err e)
    panics : {i : Instr} {st : State} → step env i st ≡ panic → Finishes i st panic
    round :
        {i i' : Instr} {st st' : State} {r : Run I32}
        → step env i st ≡ ok (goes_on i' st')
        → Finishes i' st' r
        → Finishes i st r

  eval_rec_sound :
      (fuel : ℕ) (i : Instr) (st : State) {r : Run I32}
      → eval_rec fuel env i st ≡ some r
      → Finishes i st r
  unfolding eval_rec
  eval_rec_sound zero i st h = cc
  eval_rec_sound (suc fuel) i st {r} h = elim (Round-cases (step env i st)) [
    | goes i' st' e ↦ round e (eval_rec_sound fuel i' st' (rw (e, eval_rec) at h))
    | stops n e ↦ result (ok n) (rw (e, eval_rec) at h) (ends e)
    | errs x e ↦ result (err x) (rw (e, eval_rec) at h) (fails e)
    | breaks e ↦ result panic (rw (e, eval_rec) at h) (panics e)
  ]
    where
      result : (x : Run I32) → some x ≡ some r → Finishes i st x → Finishes i st r
      result x p f = subst (Finishes i st) (some-injective x r p) f

  eval_rec_complete :
      {i : Instr} {st : State} {r : Run I32}
      → Finishes i st r
      → (fuel : ℕ) × (eval_rec fuel env i st ≡ some r)
  unfolding eval_rec
  eval_rec_complete (ends e) = (1, rw (e, eval_rec))
  eval_rec_complete (fails e) = (1, rw (e, eval_rec))
  eval_rec_complete (panics e) = (1, rw (e, eval_rec))
  eval_rec_complete (round e f) =
      let (fuel, h) = eval_rec_complete f in (suc fuel, rw (e, eval_rec) h)

  -- The loop ends with an outcome, given enough fuel, exactly where some run of the machine does.
  eval_rec_iff :
      (i : Instr) (st : State) (r : Run I32)
      → ((fuel : ℕ) × (eval_rec fuel env i st ≡ some r)) ↔ Finishes i st r
  eval_rec_iff i st r = (λ (fuel, h). eval_rec_sound fuel i st h, eval_rec_complete)
