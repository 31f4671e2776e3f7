-- ===== src/Ilvm/Machine/DoubleFree.antt =====
-- eval.rs, the `Free` case of `eval_rec`, run twice with one pointer.
use plbench.Prelude.{ℕ, ◌+◌, ◌≡◌, some, inl, inr, Option-cases, arith}
use plbench.Prelude.Assoc.{lookup}
use plbench.Ilvm.Alloc as Alloc
use plbench.Ilvm.Alloc.Cover.{within, cover, free-cover}
use plbench.Ilvm.Run.{ok}
use plbench.Ilvm.State.{State}
use plbench.Ilvm.Machine.{run_free}

run_free-ok :
    (ptr : ℕ) (st : State) {st' : State}
    → run_free ptr st ≡ ok st'
    → (size : ℕ) × (lookup ptr st.alloc_blocks ≡ some size)
      × (st' ≡ record st { free_list = Alloc.free st.free_list ptr size })
unfolding run_free
run_free-ok ptr st h = elim (Option-cases (lookup ptr st.alloc_blocks)) [
  | inl e ↦ absurd (ground (arith, e))
  | inr (n, e) ↦ (n, e, ground (arith, e))
]

-- Where a pointer has been freed, freeing it again succeeds too, and the words of its block are then
-- counted free twice.
pub run_free_twice :
    (ptr : ℕ) (st : State) {st' : State}
    → run_free ptr st ≡ ok st'
    → (size : ℕ) × (st'' : State) × (run_free ptr st' ≡ ok st'')
      × ((a : ℕ)
          → cover st''.free_list a ≡ within ptr size a + (within ptr size a + cover st.free_list a))
unfolding run_free
run_free_twice ptr st {st'} h =
    let (n, e, q) = run_free-ok ptr st h in
    let once = Alloc.free st.free_list ptr n in
    (
      n,
      record st { free_list = Alloc.free once ptr n },
      rw q (rw (e, run_free)),
      λ a. omega (arith, free-cover once ptr n a, free-cover st.free_list ptr n a),
    )
